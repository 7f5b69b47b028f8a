-- ===== src/Adt/SlotMap/Access.antt =====
-- SlotMap.h: what a key reads after each operation.
use mathlib.Core.Option.{some-injective}
use caffeine.Prelude.{
  subst, ℕ, zero, suc, ◌<◌, ◌≡◌, ◌≢◌, ◌⊎◌, refl, sym, ◌∙◌, inl, inr, Bool, ◌&&◌, Option, none, some,
  arith, length, get_elem?, set, ◌==◌, Bool-cases, if◌then◌else◌, Option-cases, Outcome, done,
  throws, fault, ◌>>=◌, or_throw, get_elem?-set_self, get_elem?-set_ne, get_elem?-lt,
  get_elem?-none, get_elem?-none_ge, ℕ_discrete,
}
use caffeine.Adt.FreeList.{no_head}
use caffeine.Adt.SlotMap.{
  Cell, next, value, Entry, SlotMap, Key, current, read, emplace, vacate, remove, at, find, end,
  skip, has_value,
}
use caffeine.Adt.SlotMap.Invariant.{IsWf, Slot, next_slot-Slot, vacate-IsWf}

abbrev pub key_eq : Key → Key → Bool
key_eq (i, g) (j, h) = (i == j) && (g == h)

module _ {ℓ} {A : Type ℓ} where
  -- The state that `emplace` leaves when the element was built.
  abbrev filled : (m : SlotMap A) → Slot m → A → SlotMap A
  filled m s v = record {
    entries = set taken.entries index (record entry { cell = value v });
    head = taken.head;
  }
    where
      open s use {taken, index, entry}

  emplace-Slot :
      (m : SlotMap A) (s : Slot m) (v : A)
      → emplace m (some v) ≡ done (some (s.index, s.entry.gen), filled m s v)
  unfolding emplace
  emplace-Slot m s v = rw s.returns (rw s.holds refl)

  at-free : (m : SlotMap A) (s : Slot m) (g : ℕ) → at m (s.index, g) ≡ throws
  unfolding at
  at-free m s g = elim (Option-cases (get_elem? m.entries s.index)) [
    | inl p ↦ rw p refl
    | inr (e, p) ↦ rw p (ground (arith, s.was_free e p))
  ]

  -- `at` after its lookup of the entry.
  abbrev read_entry : Option (Entry A) → ℕ → Outcome A
  read_entry o gen = or_throw o >>= λ e. or_throw (current e gen)

  at-read : (m : SlotMap A) (i g : ℕ) → at m (i, g) ≡ read_entry (get_elem? m.entries i) g
  unfolding at
  at-read m i g = refl

  at-filled :
      (m : SlotMap A) (s : Slot m) (v : A) (i g : ℕ)
      → at (filled m s v) (i, g)
        ≡ (if key_eq (s.index, s.entry.gen) (i, g) then done v else at m (i, g))
  at-filled m s v i g = elim (ℕ_discrete i s.index) [
    | yes p ↦
        let got =
          get_elem?-set_self s.taken.entries s.index (record s.entry { cell = value v })
            (get_elem?-lt s.taken.entries s.index s.holds) in
        rw (p, at-read (filled m s v), got) (ground (arith, at-free m s g))
    | no ne ↦
        let got =
          get_elem?-set_ne s.taken.entries s.index i (record s.entry { cell = value v })
            (λ q. ne (sym q)) in
        rw (at-read (filled m s v), got, s.elsewhere i ne) (ground (arith, at-read m i g))
  ]

  -- `emplace` in a well-formed map with room gives a key that read nothing before; it reads the
  -- new element now, every other key reads what it read, and the map is well-formed again.
  pub emplace-at :
      (m : SlotMap A) (v : A)
      → IsWf m
      → length m.entries < no_head
      → (k : Key) × (m' : SlotMap A) × (emplace m (some v) ≡ done (some k, m'))
        × IsWf m'
        × (at m k ≡ throws)
        × ((j : Key) → at m' j ≡ (if key_eq k j then done v else at m j))
  emplace-at m v wf room =
      let s = next_slot-Slot m wf room in
      (
        (s.index, s.entry.gen),
        filled m s v,
        emplace-Slot m s v,
        s.filled (record s.entry { cell = value v }) refl,
        at-free m s s.entry.gen,
        λ j. at-filled m s v j.0 j.1,
      )

  -- The element's constructor throws: no key's reading changes, and the slot is on the list again.
  pub emplace_throws :
      (m : SlotMap A)
      → IsWf m
      → length m.entries < no_head
      → (m' : SlotMap A) × (emplace m none ≡ done (none, m'))
        × IsWf m'
        × ((j : Key) → at m' j ≡ at m j)
  emplace_throws m wf room = (after, returned, s.given_back rolled refl, λ j. same j.0 j.1)
    where
      s : Slot m
      s = next_slot-Slot m wf room

      rolled : Entry A
      rolled = record s.entry { cell = next s.taken.head }

      after : SlotMap A
      after = record { entries = set s.taken.entries s.index rolled; head = s.index }

      returned : emplace m none ≡ done (none, after)
      returned = unfold emplace in rw s.returns (rw s.holds refl)

      same : (i g : ℕ) → at after (i, g) ≡ at m (i, g)
      same i g = elim (ℕ_discrete i s.index) [
        | yes p ↦
            let got =
              get_elem?-set_self s.taken.entries s.index rolled
                (get_elem?-lt s.taken.entries s.index s.holds) in
            rw (p, at-read after, got) (ground (arith, at-free m s g))
        | no ne ↦
            let got = get_elem?-set_ne s.taken.entries s.index i rolled (λ q. ne (sym q)) in
            rw (at-read after, got, s.elsewhere i ne) (ground (arith, at-read m i g))
      ]

module _ {ℓ} {A : Type ℓ} where
  pub current-value :
      (e : Entry A) (g : ℕ) {v : A} → current e g ≡ some v → (e.gen ≡ g) × (e.cell ≡ value v)
  current-value e g p = elim (Bool-cases (e.gen == g)) [
    | inl same ↦ (ground arith, cell_value e.cell (rw same at p))
    | inr other ↦ ground arith
  ]
    where
      cell_value : (c : Cell A) {v : A} → read c ≡ some v → c ≡ value v
      cell_value (next n) q = cc
      cell_value (value w) q = cc

  -- Either the key reads a value, at an entry of its generation, or `at` throws.
  at_cases :
      (m : SlotMap A) (i g : ℕ)
      → ((e : Entry A) × (v : A) × (get_elem? m.entries i ≡ some e)
          × (current e g ≡ some v)
          × (at m (i, g) ≡ done v))
        ⊎ (((e : Entry A) → get_elem? m.entries i ≡ some e → current e g ≡ none)
            × (at m (i, g) ≡ throws))
  unfolding at
  at_cases m i g = elim (Option-cases (get_elem? m.entries i)) [
    | inl p ↦ inr (λ e q. cc, rw p refl)
    | inr (e, p) ↦ elim (Option-cases (current e g)) [
      | inl q ↦ inr (
        λ x r. subst (λ y. current y g ≡ none) (some-injective e x (sym p ∙ r)) q,
        rw p (rw q refl),
      )
      | inr (v, q) ↦ inl (e, v, p, q, rw p (rw q refl))
    ]
  ]

  at-vacate :
      (m : SlotMap A) (i : ℕ) (e : Entry A) (g : ℕ)
      → get_elem? m.entries i ≡ some e
      → e.gen ≡ g
      → (j h : ℕ)
      → at (vacate m i e) (j, h) ≡ (if key_eq (i, g) (j, h) then throws else at m (j, h))
  unfolding at
  at-vacate m i e g here gen j h = elim (ℕ_discrete j i) [
    | yes p ↦
        rw (p, get_elem?-set_self m.entries i _ (get_elem?-lt m.entries i here), here)
          (ground arith)
    | no ne ↦ rw (get_elem?-set_ne m.entries i j _ (λ q. ne (sym q))) (ground arith)
  ]

  -- For a key whose index is not the one past the end, `remove` gives back what the key read and
  -- from then on it reads nothing, while all other keys read what they read; a key that reads
  -- nothing gives nothing and changes nothing.
  pub remove-at :
      (m : SlotMap A) (k : Key)
      → IsWf m
      → k.0 ≢ length m.entries
      → ((v : A) × (m' : SlotMap A) × (at m k ≡ done v)
          × (remove m k ≡ done (some v, m'))
          × IsWf m'
          × ((j : Key) → at m' j ≡ (if key_eq k j then throws else at m j)))
        ⊎ ((at m k ≡ throws) × (remove m k ≡ done (none, m)))
  remove-at m (i, g) wf ne = elim (at_cases m i g) [
    | inl (e, v, here, cur, got) ↦
        let c = current-value e g cur in
        inl (
          v,
          vacate m i e,
          got,
          found e here cur,
          vacate-IsWf m i e v wf here c.1,
          λ j. at-vacate m i e g here c.0 j.0 j.1,
        )
    | inr (stale, got) ↦ inr (got, missing stale (Option-cases (get_elem? m.entries i)))
  ]
    where
      found :
          (e : Entry A) {v : A}
          → get_elem? m.entries i ≡ some e
          → current e g ≡ some v
          → remove m (i, g) ≡ done (some v, vacate m i e)
      found e here cur =
          unfold remove in rw (here, cur) (ground (arith, get_elem?-lt m.entries i here))

      missing :
          ((e : Entry A) → get_elem? m.entries i ≡ some e → current e g ≡ none)
          → (get_elem? m.entries i ≡ none) ⊎ ((e : Entry A) × (get_elem? m.entries i ≡ some e))
          → remove m (i, g) ≡ done (none, m)
      missing stale (inl p) =
          let beyond = get_elem?-none_ge m.entries i p in unfold remove in ground (arith, ne)
      missing stale (inr (e, p)) =
          unfold remove in rw (p, stale e p) (ground (arith, get_elem?-lt m.entries i p))

  skip_used :
      (f : ℕ) (m : SlotMap A) (i : ℕ) (e : Entry A) (v : A)
      → get_elem? m.entries i ≡ some e
      → e.cell ≡ value v
      → skip f m i ≡ i
  unfolding skip has_value
  skip_used zero m i e v here used = refl
  skip_used (suc f) m i e v here used = rw (here, used) refl

  -- For a key whose index is not the one past the end, `find` gives the position of the key's entry
  -- where the key reads a value, and `end` where it reads nothing.
  pub find-at :
      (m : SlotMap A) (k : Key)
      → k.0 ≢ length m.entries
      → ((v : A) × (at m k ≡ done v) × (find m k ≡ done k.0))
        ⊎ ((at m k ≡ throws) × (find m k ≡ done (end m)))
  find-at m (i, g) ne = elim (at_cases m i g) [
    | inl (e, v, here, cur, got) ↦
        let c = current-value e g cur in
        inl (
          v,
          got,
          unfold find in
              rw (here, cur, skip_used (length m.entries) m i e v here c.1)
                (ground (arith, get_elem?-lt m.entries i here)),
        )
    | inr (stale, got) ↦ inr (got, missing stale (Option-cases (get_elem? m.entries i)))
  ]
    where
      missing :
          ((e : Entry A) → get_elem? m.entries i ≡ some e → current e g ≡ none)
          → (get_elem? m.entries i ≡ none) ⊎ ((e : Entry A) × (get_elem? m.entries i ≡ some e))
          → find m (i, g) ≡ done (end m)
      missing stale (inl p) =
          let beyond = get_elem?-none_ge m.entries i p in unfold find in ground (arith, ne)
      missing stale (inr (e, p)) =
          unfold find in rw (p, stale e p) (ground (arith, get_elem?-lt m.entries i p))

  -- At the index one past the end `at` throws, but `remove` and `find` read out of range.
  pub past_end_faults :
      (m : SlotMap A) (g : ℕ)
      → (at m (length m.entries, g) ≡ throws)
        × (remove m (length m.entries, g) ≡ fault)
        × (find m (length m.entries, g) ≡ fault)
  unfolding at remove find
  past_end_faults m g =
      let p = get_elem?-none m.entries (length m.entries) (omega arith) in
      (rw p refl, rw p (ground arith), rw p (ground arith))
