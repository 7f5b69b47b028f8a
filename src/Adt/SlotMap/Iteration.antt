-- ===== src/Adt/SlotMap/Iteration.antt =====
-- SlotMap.h: the iterators. A loop from begin() to end() visits the keys that read a value.
use caffeine.Prelude.{
  ℕ, zero, suc, ◌+◌, ◌≤◌, ◌<◌, ◌≡◌, ◌≢◌, ◌↔◌, ◌⊎◌, refl, inl, inr, Option, none, some, List, [],
  ◌∷◌, arith, length, get_elem?, Option-cases, done, throws, fault, get_elem?-none,
  get_elem?-none_ge, get_elem?-lt, subst, ℕ_discrete,
}
use caffeine.Adt.SlotMap.{
  Cell, next, value, Entry, SlotMap, Key, has_value, at, end, increment, skip, key_at, visit, keys,
  decrement,
}

module _ {ℓ} {A : Type ℓ} where
  abbrev cons_live : Option (Entry A) → ℕ → List Key → List Key
  cons_live none i ks = ks
  cons_live (some e) i ks = elim e.cell [ next _ ↦ ks | value _ ↦ (i, e.gen) ∷ ks ]

  -- The keys of the cells in use among the `n` from index `i` on, in order.
  pub live : SlotMap A → ℕ → ℕ → List Key
  live m zero i = []
  live m (suc n) i = cons_live (get_elem? m.entries i) i (live m n (i + 1))

  skip_end : (f : ℕ) (m : SlotMap A) (i : ℕ) → get_elem? m.entries i ≡ none → skip f m i ≡ i
  unfolding skip
  skip_end zero m i p = refl
  skip_end (suc f) m i p = rw p refl

  cell_cases : (c : Cell A) → ((n : ℕ) × (c ≡ next n)) ⊎ ((v : A) × (c ≡ value v))
  cell_cases (next n) = inl (n, refl)
  cell_cases (value v) = inr (v, refl)

  entry_cases :
      (m : SlotMap A) (i : ℕ)
      → (get_elem? m.entries i ≡ none)
        ⊎ ((x : Entry A) × (get_elem? m.entries i ≡ some x)
            × (((k : ℕ) × (x.cell ≡ next k)) ⊎ ((v : A) × (x.cell ≡ value v))))
  entry_cases m i = elim (Option-cases (get_elem? m.entries i)) [
    | inl p ↦ inl p
    | inr (x, p) ↦ inr (x, p, cell_cases x.cell)
  ]

  skip_free :
      (f : ℕ) (m : SlotMap A) (i : ℕ) (x : Entry A) (k : ℕ)
      → get_elem? m.entries i ≡ some x
      → x.cell ≡ next k
      → skip (suc f) m i ≡ skip f m (i + 1)
  unfolding skip has_value
  skip_free f m i x k p q = rw (p, q) refl

  skip_stop :
      (f : ℕ) (m : SlotMap A) (i : ℕ) (x : Entry A) (v : A)
      → get_elem? m.entries i ≡ some x
      → x.cell ≡ value v
      → skip f m i ≡ i
  unfolding skip has_value
  skip_stop zero m i x v p q = refl
  skip_stop (suc f) m i x v p q = rw (p, q) refl

  live_free :
      (m : SlotMap A) (n i : ℕ) (x : Entry A) (k : ℕ)
      → get_elem? m.entries i ≡ some x
      → x.cell ≡ next k
      → live m (suc n) i ≡ live m n (i + 1)
  unfolding live
  live_free m n i x k p q = rw (p, q) refl

  live_used :
      (m : SlotMap A) (n i : ℕ) (x : Entry A) (v : A)
      → get_elem? m.entries i ≡ some x
      → x.cell ≡ value v
      → live m (suc n) i ≡ (i, x.gen) ∷ live m n (i + 1)
  unfolding live
  live_used m n i x v p q = rw (p, q) refl

  visit_step :
      (fuel : ℕ) (m : SlotMap A) (i : ℕ) (x : Entry A) (ks : List Key)
      → get_elem? m.entries i ≡ some x
      → i ≢ length m.entries
      → visit fuel m (skip (length m.entries) m (i + 1)) ≡ done ks
      → visit (suc fuel) m i ≡ done ((i, x.gen) ∷ ks)
  unfolding visit increment end key_at
  visit_step fuel m i x ks p ne rest = rw (p, rest) (ground arith)

  module _ (m : SlotMap A) where
    -- From wherever the skipping loop stops, the visit lists what is left.
    visit-skip :
        (n i f fuel : ℕ)
        → i + n ≡ length m.entries
        → n ≤ f
        → n < fuel
        → visit fuel m (skip f m i) ≡ done (live m n i)
    visit-skip n i f zero e enough lt = absurd (omega arith)
    visit-skip zero i f (suc fuel) e enough lt =
        let last : i ≡ length m.entries = omega arith in
        let past = get_elem?-none m.entries i (omega arith) in
        rw (skip_end f m i past) (unfold visit end live in rw last (ground arith))
    visit-skip (suc n) i zero (suc fuel) e enough lt = absurd (omega arith)
    visit-skip (suc n) i (suc f) (suc fuel) e enough lt = elim (entry_cases m i) [
      | inl p ↦ absurd (omega (arith, get_elem?-none_ge m.entries i p))
      | inr (x, p, inl (k, q)) ↦
          rw (skip_free f m i x k p q, live_free m n i x k p q)
            (visit-skip n (i + 1) f (suc fuel) (omega arith) (omega arith) (omega arith))
      | inr (x, p, inr (v, q)) ↦
          rw (skip_stop (suc f) m i x v p q, live_used m n i x v p q)
            (visit_step fuel m i x (live m n (i + 1)) p (omega arith) (
              visit-skip n (i + 1) (length m.entries) fuel (omega arith) (omega arith)
                (omega arith)))
    ]

    -- The loop ends, and lists the keys of the cells in use.
    pub keys-live : keys m ≡ done (live m (length m.entries) 0)
    unfolding keys
    keys-live =
        visit-skip (length m.entries) 0 (length m.entries) (length m.entries + 1) (omega arith)
          (omega arith) (omega arith)

abbrev pub Has : Key → List Key → Type 0
Has k [] = ⊥
Has k (x ∷ xs) = (k ≡ x) ⊎ Has k xs

-- The indices rise along the list, from `lo` on.
abbrev pub Ascending : ℕ → List Key → Type 0
Ascending lo [] = Unit
Ascending lo (k ∷ ks) = (lo ≤ k.0) × Ascending (k.0 + 1) ks

Ascending-weaken : (lo hi : ℕ) (ks : List Key) → lo ≤ hi → Ascending hi ks → Ascending lo ks
Ascending-weaken lo hi [] le a = tt
Ascending-weaken lo hi (k ∷ ks) le a = (omega arith, a.1)

module _ {ℓ} {A : Type ℓ} (m : SlotMap A) where
  live-none : (n i : ℕ) → get_elem? m.entries i ≡ none → live m (suc n) i ≡ live m n (i + 1)
  unfolding live
  live-none n i p = rw p refl

  live-Ascending : (n i : ℕ) → Ascending i (live m n i)
  live-Ascending zero i = unfold live in tt
  live-Ascending (suc n) i =
      let ih : Ascending (i + 1) (live m n (i + 1)) = live-Ascending n (i + 1) in
      elim (entry_cases m i) [
        | inl p ↦ rw (live-none n i p) (Ascending-weaken i (i + 1) _ (omega arith) ih)
        | inr (x, p, inl (k, q)) ↦
            rw (live_free m n i x k p q) (Ascending-weaken i (i + 1) _ (omega arith) ih)
        | inr (x, p, inr (v, q)) ↦ rw (live_used m n i x v p q) (omega arith, ih)
      ]

  at_used :
      (i : ℕ) (x : Entry A) (v : A)
      → get_elem? m.entries i ≡ some x
      → x.cell ≡ value v
      → at m (i, x.gen) ≡ done v
  unfolding at
  at_used i x v p q = rw (p, q) (ground arith)

  at_free :
      (i g : ℕ) (x : Entry A) (k : ℕ)
      → get_elem? m.entries i ≡ some x
      → x.cell ≡ next k
      → at m (i, g) ≡ throws
  unfolding at
  at_free i g x k p q = rw (p, q) (ground arith)

  at-none : (i g : ℕ) → get_elem? m.entries i ≡ none → at m (i, g) ≡ throws
  unfolding at
  at-none i g p = rw p refl

  at_generation :
      (i g : ℕ) (x : Entry A) {v : A}
      → get_elem? m.entries i ≡ some x
      → at m (i, g) ≡ done v
      → g ≡ x.gen
  unfolding at
  at_generation i g x p got = ground (arith, got, p)

  live_sound : (n i : ℕ) (k : Key) → Has k (live m n i) → (v : A) × (at m k ≡ done v)
  live_sound zero i k h = absurd (unfold live in h)
  live_sound (suc n) i k h = elim (entry_cases m i) [
    | inl p ↦ live_sound n (i + 1) k (rw (live-none n i p) at h)
    | inr (x, p, inl (l, q)) ↦ live_sound n (i + 1) k (rw (live_free m n i x l p q) at h)
    | inr (x, p, inr (v, q)) ↦ elim (subst (Has k) (live_used m n i x v p q) h) [
      | inl e ↦ (v, rw e (at_used i x v p q))
      | inr t ↦ live_sound n (i + 1) k t
    ]
  ]

  live_complete :
      (n i j g : ℕ) {v : A} → i ≤ j → j < i + n → at m (j, g) ≡ done v → Has (j, g) (live m n i)
  live_complete zero i j g le lt got = absurd (omega arith)
  live_complete (suc n) i j g le lt got = elim (ℕ_discrete j i) [
    | yes e ↦ elim (entry_cases m i) [
      | inl p ↦ let bad = at-none j g (rw e p) in cc
      | inr (x, p, inl (l, q)) ↦ let bad = at_free j g x l (rw e p) q in cc
      | inr (x, p, inr (v, q)) ↦
          let same = at_generation j g x (rw e p) got in
          rw (live_used m n i x v p q) (inl (ground arith))
    ]
    | no ne ↦
        let ih : Has (j, g) (live m n (i + 1)) =
          live_complete n (i + 1) j g (omega arith) (omega arith) got in
        elim (entry_cases m i) [
          | inl p ↦ rw (live-none n i p) ih
          | inr (x, p, inl (l, q)) ↦ rw (live_free m n i x l p q) ih
          | inr (x, p, inr (v, q)) ↦ rw (live_used m n i x v p q) (inr ih)
        ]
  ]

  at-within : (i g : ℕ) {v : A} → at m (i, g) ≡ done v → i < length m.entries
  at-within i g got = elim (Option-cases (get_elem? m.entries i)) [
    | inl p ↦ let bad = at-none i g p in cc
    | inr (x, p) ↦ get_elem?-lt m.entries i p
  ]

  -- The loop over the map ends without a fault, and visits exactly the keys that read a value, each
  -- once, by rising index.
  pub keys-at :
      (ks : List Key) × (keys m ≡ done ks)
      × Ascending 0 ks
      × ((k : Key) → Has k ks ↔ ((v : A) × (at m k ≡ done v)))
  keys-at = (
    live m (length m.entries) 0,
    keys-live m,
    live-Ascending (length m.entries) 0,
    λ k. (
      λ h. live_sound (length m.entries) 0 k h,
      λ g.
          live_complete (length m.entries) 0 k.0 k.1 (omega arith)
            (omega (arith, at-within k.0 k.1 g.1)) g.1,
    ),
  )

  -- operator-- never stops at a value: it ends at a free cell, or runs off the front.
  pub decrement-free :
      (i : ℕ)
      → (decrement m i ≡ fault)
        ⊎ ((j : ℕ) × (n : ℕ) × (x : Entry A) × (decrement m i ≡ done j)
            × (j < i)
            × (get_elem? m.entries j ≡ some x)
            × (x.cell ≡ next n))
  decrement-free zero = inl (unfold decrement in refl)
  decrement-free (suc i) = elim (entry_cases m i) [
    | inl p ↦ inl (unfold decrement in rw p refl)
    | inr (x, p, inl (n, q)) ↦
        inr (i, n, x, unfold decrement has_value in rw (p, q) refl, omega arith, p, q)
    | inr (x, p, inr (v, q)) ↦ elim (decrement-free i) [
      | inl bad ↦ inl (unfold decrement has_value in rw (p, q, bad) refl)
      | inr (j, n, y, ends, lt, at_j, free) ↦
          inr (j, n, y, unfold decrement has_value in rw (p, q, ends) refl, omega arith, at_j, free)
    ]
  ]
