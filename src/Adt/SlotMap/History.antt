-- ===== src/Adt/SlotMap/History.antt =====
-- SlotMap.h: sequences of calls. The generation keeps a removed key from reading later elements.
use mathlib.Core.Option.{some-injective}
use caffeine.Prelude.{
  ℕ, ◌+◌, ◌%◌, ◌^◌, ◌≤◌, ◌<◌, ◌≡◌, ◌≢◌, refl, sym, ◌∙◌, ap, inl, inr, Option, none, some, List, [],
  ◌∷◌, arith, length, get_elem?, set, ltb, subst, Option-cases, Bool-cases, Outcome, done, throws,
  fault, done-injective, >>=-eq-done, ◌>>=◌, length-set, get_elem?-set_self, get_elem?-set_ne,
  get_elem?-lt, ℕ_discrete,
}
use caffeine.Adt.FreeList.{no_head}
use caffeine.Adt.SlotMap.{next, value, Entry, SlotMap, Key, current, emplace, vacate, remove, at}
use caffeine.Adt.SlotMap.Invariant.{IsWf, Slot, next_slot-Slot, vacate-IsWf}
use caffeine.Adt.SlotMap.Access.{current-value}

pub data Call {ℓ} (A : Type ℓ) : Type ℓ where
  emplaces : Option A → Call A
  removes : Key → Call A

-- The state after a call, whose result the caller drops.
unfoldable pub call {ℓ} : {A : Type ℓ} → SlotMap A → Call A → Outcome (SlotMap A)
call m (emplaces made) = emplace m made >>= λ r. done r.1
call m (removes k) = remove m k >>= λ r. done r.1

unfoldable pub run {ℓ} : {A : Type ℓ} → SlotMap A → List (Call A) → Outcome (SlotMap A)
run m [] = done m
run m (c ∷ cs) = call m c >>= λ m'. run m' cs

module _ {ℓ} {A : Type ℓ} where
  -- The slot of the key has moved on to a later generation, `n` at most.
  pub record Expired (k : Key) (n : ℕ) (m : SlotMap A) : Type ℓ where
    pub entry : Entry A
    pub holds : get_elem? m.entries k.0 ≡ some entry
    pub later : k.1 < entry.gen
    pub bounded : entry.gen ≤ n

  Expired-at : (k : Key) (n : ℕ) (m : SlotMap A) → Expired k n m → at m k ≡ throws
  unfolding at
  Expired-at k n m x = rw (x.holds) (ground (arith, x.later))

  pub record Good (k : Key) (n size : ℕ) (m : SlotMap A) : Type ℓ where
    pub wf : IsWf m
    pub small : length m.entries ≤ size
    pub expired : Expired k n m

  set-Expired :
      (k : Key) (n i : ℕ) (h : ℕ) (m taken : SlotMap A) (e : Entry A)
      → Expired k n m
      → ((j : ℕ) → j ≢ i → get_elem? taken.entries j ≡ get_elem? m.entries j)
      → i < length taken.entries
      → ((x : Entry A)
          → get_elem? m.entries i ≡ some x
          → x.gen ≤ n
          → (x.gen ≤ e.gen) × (e.gen ≤ n + 1))
      → Expired k (n + 1) (record { entries = set taken.entries i e; head = h })
  set-Expired k n i h m taken e x same lt gens = elim (ℕ_discrete k.0 i) [
    | yes p ↦
        let older = gens x.entry (rw (← p) x.holds) x.bounded in
        record {
          entry = e;
          holds = rw p (get_elem?-set_self taken.entries i e lt);
          later = omega (arith, x.later);
          bounded = older.1;
        }
    | no ne ↦ record {
      entry = x.entry;
      holds = get_elem?-set_ne taken.entries i k.0 e (λ q. ne (sym q)) ∙ same k.0 ne ∙ x.holds;
      later = x.later;
      bounded = omega (arith, x.bounded);
    }
  ]

  emplace-Good :
      (k : Key) (n size : ℕ) (m m' : SlotMap A) (made : Option A)
      → size < no_head
      → Good k n size m
      → call m (emplaces made) ≡ done m'
      → Good k (n + 1) (size + 1) m'
  emplace-Good k n size m m' made room g ends = elim (Option-cases made) [
    | inl p ↦ subst (Good k (n + 1) (size + 1)) (done-injective (sym (left p) ∙ ends)) (record {
      wf = s.given_back rolled refl;
      small = rw length-set (omega (arith, s.size, g.small));
      expired = set-Expired k n s.index s.index m s.taken rolled g.expired s.elsewhere lt gens;
    })
    | inr (v, p) ↦
        subst (Good k (n + 1) (size + 1)) (done-injective (sym (right v p) ∙ ends)) (record {
          wf = s.filled (built v) refl;
          small = rw length-set (omega (arith, s.size, g.small));
          expired =
              set-Expired k n s.index s.taken.head m s.taken (built v) g.expired s.elsewhere lt
                gens;
        })
  ]
    where
      s : Slot m
      s = next_slot-Slot m g.wf (omega (arith, g.small))

      rolled : Entry A
      rolled = record s.entry { cell = next s.taken.head }

      built : A → Entry A
      built v = record s.entry { cell = value v }

      lt : s.index < length s.taken.entries
      lt = get_elem?-lt s.taken.entries s.index s.holds

      gens :
          (x : Entry A)
          → get_elem? m.entries s.index ≡ some x
          → x.gen ≤ n
          → (x.gen ≤ s.entry.gen) × (s.entry.gen ≤ n + 1)
      gens x p b = omega (arith, s.generation x p)

      left :
          made ≡ none
          → call m (emplaces made)
            ≡ done (record { entries = set s.taken.entries s.index rolled; head = s.index })
      left p = unfold call emplace in rw p (rw s.returns (rw s.holds refl))

      right :
          (v : A)
          → made ≡ some v
          → call m (emplaces made)
            ≡ done (record { entries = set s.taken.entries s.index (built v); head = s.taken.head })
      right v p = unfold call emplace in rw p (rw s.returns (rw s.holds refl))

  Good-mono : (k : Key) (n size : ℕ) (m : SlotMap A) → Good k n size m → Good k (n + 1) (size + 1) m
  Good-mono k n size m g = record {
    wf = g.wf;
    small = omega (arith, g.small);
    expired = record {
      entry = g.expired.entry;
      holds = g.expired.holds;
      later = g.expired.later;
      bounded = omega (arith, g.expired.bounded);
    };
  }

  vacate-Good :
      (k : Key) (n size i : ℕ) (m : SlotMap A) (e : Entry A) (v : A)
      → n + 1 < 2 ^ 63
      → Good k n size m
      → get_elem? m.entries i ≡ some e
      → e.cell ≡ value v
      → Good k (n + 1) (size + 1) (vacate m i e)
  vacate-Good k n size i m e v room g here used = record {
    wf = vacate-IsWf m i e v g.wf here used;
    small = rw length-set (omega (arith, g.small));
    expired =
        set-Expired k n i i m m (record { cell = next m.head; gen = (e.gen + 1) % 2 ^ 63 })
          g.expired (λ j ne. refl) (get_elem?-lt m.entries i here) (λ x p b. gens x p b);
  }
    where
      gens :
          (x : Entry A)
          → get_elem? m.entries i ≡ some x
          → x.gen ≤ n
          → (x.gen ≤ (e.gen + 1) % 2 ^ 63) × ((e.gen + 1) % 2 ^ 63 ≤ n + 1)
      gens x p b =
          let same : x.gen ≡ e.gen =
            ap (λ (y : Entry A). y.gen) (some-injective x e (sym p ∙ here)) in
          omega arith

  remove-Good :
      (k : Key) (n size : ℕ) (m m' : SlotMap A) (i g : ℕ)
      → n + 1 < 2 ^ 63
      → Good k n size m
      → call m (removes (i, g)) ≡ done m'
      → Good k (n + 1) (size + 1) m'
  remove-Good k n size m m' i g room good ends = elim (Option-cases (get_elem? m.entries i)) [
    | inl p ↦ elim (Bool-cases (ltb (length m.entries) i)) [
      | inl t ↦ kept (unfold call remove in rw t refl)
      | inr t ↦
          let bad : call m (removes (i, g)) ≡ fault = unfold call remove in rw (t, p) refl in cc
    ]
    | inr (e, p) ↦ elim (Option-cases (current e g)) [
      | inl q ↦ kept (stale e p q)
      | inr (v, q) ↦
          subst (Good k (n + 1) (size + 1)) (done-injective (sym (taken e v p q) ∙ ends))
            (vacate-Good k n size i m e v room good p (current-value e g q).1)
    ]
  ]
    where
      kept : (call m (removes (i, g)) ≡ done m) → Good k (n + 1) (size + 1) m'
      kept q =
          subst (Good k (n + 1) (size + 1)) (done-injective (sym q ∙ ends))
            (Good-mono k n size m good)

      stale :
          (e : Entry A)
          → get_elem? m.entries i ≡ some e
          → current e g ≡ none
          → call m (removes (i, g)) ≡ done m
      stale e p q = unfold call remove in rw (p, q) (ground (arith, get_elem?-lt m.entries i p))

      taken :
          (e : Entry A) (v : A)
          → get_elem? m.entries i ≡ some e
          → current e g ≡ some v
          → call m (removes (i, g)) ≡ done (vacate m i e)
      taken e v p q = unfold call remove in rw (p, q) (ground (arith, get_elem?-lt m.entries i p))

  call-Good :
      (k : Key) (n size : ℕ) (m m' : SlotMap A) (c : Call A)
      → size < no_head
      → n + 1 < 2 ^ 63
      → Good k n size m
      → call m c ≡ done m'
      → Good k (n + 1) (size + 1) m'
  call-Good k n size m m' (emplaces made) room gens g ends =
      emplace-Good k n size m m' made room g ends
  call-Good k n size m m' (removes (i, h)) room gens g ends =
      remove-Good k n size m m' i h gens g ends

  run-Good :
      (k : Key) (cs : List (Call A)) (n size : ℕ) (m m' : SlotMap A)
      → size + length cs ≤ no_head
      → n + length cs < 2 ^ 63
      → Good k n size m
      → run m cs ≡ done m'
      → at m' k ≡ throws
  run-Good k [] n size m m' room gens g ends =
      let last : done m ≡ done m' = unfold run in ends in
      subst (λ x. at x k ≡ throws) (done-injective last) (Expired-at k n m g.expired)
  run-Good k (c ∷ cs) n size m m' room gens g ends =
      let chained : (call m c >>= λ m₁. run m₁ cs) ≡ done m' = unfold run in ends in
      let (x, p, q) = >>=-eq-done (call m c) (λ m₁. run m₁ cs) chained in
      run-Good k cs (n + 1) (size + 1) x m' (omega arith) (omega arith)
        (call-Good k n size m x c (omega arith) (omega arith) g p) q

  vacate-Expired :
      (i g : ℕ) (m : SlotMap A) (e : Entry A)
      → g + 1 < 2 ^ 63
      → get_elem? m.entries i ≡ some e
      → e.gen ≡ g
      → Expired (i, g) (g + 1) (vacate m i e)
  vacate-Expired i g m e room here gen = record {
    entry = record { cell = next m.head; gen = (e.gen + 1) % 2 ^ 63 };
    holds = get_elem?-set_self m.entries i _ (get_elem?-lt m.entries i here);
    later = omega arith;
    bounded = omega arith;
  }

  -- A key that was removed reads nothing after any later sequence of calls that build and remove
  -- elements, while the generation of its slot cannot wrap and the map has room.
  pub remove-run :
      (k : Key) (v : A) (cs : List (Call A)) (m m₁ m' : SlotMap A)
      → IsWf m
      → remove m k ≡ done (some v, m₁)
      → length m.entries + length cs ≤ no_head
      → k.1 + 1 + length cs < 2 ^ 63
      → run m₁ cs ≡ done m'
      → at m' k ≡ throws
  remove-run (i, g) v cs m m₁ m' wf removed room gens ends =
      elim (Option-cases (get_elem? m.entries i)) [
        | inl p ↦ elim (Bool-cases (ltb (length m.entries) i)) [
          | inl t ↦ let bad : remove m (i, g) ≡ done (none, m) = unfold remove in rw t refl in cc
          | inr t ↦ let bad : remove m (i, g) ≡ fault = unfold remove in rw (t, p) refl in cc
        ]
        | inr (e, p) ↦ elim (Option-cases (current e g)) [
          | inl q ↦ let bad = stale e p q in cc
          | inr (w, q) ↦
              let c = current-value e g q in
              run-Good (i, g) cs (g + 1) (length m.entries) (vacate m i e) m' room gens
                (record {
                  wf = vacate-IsWf m i e w wf p c.1;
                  small = rw length-set (omega arith);
                  expired = vacate-Expired i g m e (omega arith) p c.0;
                })
                (rw (← same e w p q) ends)
        ]
      ]
    where
      stale :
          (e : Entry A)
          → get_elem? m.entries i ≡ some e
          → current e g ≡ none
          → remove m (i, g) ≡ done (none, m)
      stale e p q = unfold remove in rw (p, q) (ground (arith, get_elem?-lt m.entries i p))

      same :
          (e : Entry A) (w : A)
          → get_elem? m.entries i ≡ some e
          → current e g ≡ some w
          → m₁ ≡ vacate m i e
      same e w p q =
          let gone : remove m (i, g) ≡ done (some w, vacate m i e) =
            unfold remove in rw (p, q) (ground (arith, get_elem?-lt m.entries i p)) in
          ap (λ (r : Option A × SlotMap A). r.1) (done-injective (sym removed ∙ gone))
