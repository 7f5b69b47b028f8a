-- ===== src/Adt/SlotMap/Invariant.antt =====
-- SlotMap.h: the well-formed states, and that the operations lead from one to another.
use native.Mathlib.Numerals.{add-one}
use caffeine.Prelude.{
  ℕ, ◌+◌, ◌≤◌, ◌<◌, ◌≡◌, ◌≢◌, refl, sym, ◌∙◌, ap, Option, none, some, List, [], ◌∷◌, ◌++◌, arith,
  ℕ_discrete, length, get_elem?, set, done, length-append, length-set, get_elem?-set_self,
  get_elem?-set_ne, get_elem?-lt, get_elem?-none, get_elem?-append_self, get_elem?-append_ne,
  set-append_self,
}
use caffeine.Adt.FreeList.{
  no_head, FreeList, no_head-full, head-unused, FreeList-pop, FreeList-push, FreeList-grow,
  FreeList-cong,
}
use caffeine.Adt.SlotMap.{Cell, next, value, Entry, SlotMap, empty, clear, read, next_slot, vacate}

-- The link of the free cell at an index.
abbrev pub link_of {ℓ} : {A : Type ℓ} → Option (Entry A) → Option ℕ
link_of none = none
link_of (some e) = elim e.cell [ next n ↦ some n | value _ ↦ none ]

abbrev pub next_of {ℓ} : {A : Type ℓ} → List (Entry A) → ℕ → Option ℕ
next_of es i = link_of (get_elem? es i)

-- The free cells are exactly those on the free list.
abbrev pub IsWf {ℓ} : {A : Type ℓ} → SlotMap A → Type 0
IsWf m = FreeList (next_of m.entries) (length m.entries) m.head

module _ {ℓ} (A : Type ℓ) where
  pub empty-IsWf : IsWf (empty {A = A})
  unfolding empty
  empty-IsWf = record {
    cells = [];
    chain = refl;
    distinct = tt;
    covers = λ i n p. cc;
    within = λ i n p. cc;
    fits = omega arith;
  }

module _ {ℓ} {A : Type ℓ} where
  pub clear-IsWf : (m : SlotMap A) → IsWf (clear m)
  unfolding clear
  clear-IsWf m = unfold empty in empty-IsWf A

  next_of-set :
      (es : List (Entry A)) (i j : ℕ) (e : Entry A) → j ≢ i → next_of (set es i e) j ≡ next_of es j
  next_of-set es i j e ne = ap link_of (get_elem?-set_ne es i j e (λ p. ne (sym p)))

  next_of-set_self :
      (es : List (Entry A)) (i : ℕ) (e : Entry A)
      → i < length es
      → next_of (set es i e) i ≡ link_of (some e)
  next_of-set_self es i e lt = ap link_of (get_elem?-set_self es i e lt)

  -- The slot that `next_slot` hands out: it is free, and the map is well-formed again once the
  -- slot is filled, and also once it is given back.
  pub record Slot (m : SlotMap A) : Type ℓ where
    pub index : ℕ
    pub taken : SlotMap A
    pub entry : Entry A
    pub returns : next_slot m ≡ done (index, taken)
    pub holds : get_elem? taken.entries index ≡ some entry
    pub free : read entry.cell ≡ none
    pub generation : (e : Entry A) → get_elem? m.entries index ≡ some e → e.gen ≡ entry.gen
    pub was_free : (e : Entry A) → get_elem? m.entries index ≡ some e → read e.cell ≡ none
    pub size : length taken.entries ≤ length m.entries + 1
    pub elsewhere : (j : ℕ) → j ≢ index → get_elem? taken.entries j ≡ get_elem? m.entries j
    pub filled :
        (e : Entry A)
        → link_of (some e) ≡ none
        → IsWf (record { entries = set taken.entries index e; head = taken.head })
    pub given_back :
        (e : Entry A)
        → link_of (some e) ≡ some taken.head
        → IsWf (record { entries = set taken.entries index e; head = index })

  past-end {κ} :
      {P : Type κ} (es : List (Entry A)) (x : Entry A) → get_elem? es (length es) ≡ some x → P
  past-end es x p = absurd (omega (arith, get_elem?-lt es (length es) p))

  next_of-append_ne :
      (es : List (Entry A)) (e : Entry A) (i : ℕ)
      → i ≢ length es
      → next_of (es ++ e ∷ []) i ≡ next_of es i
  next_of-append_ne es e i ne = ap link_of (get_elem?-append_ne es e i ne)

  next_of-end : (es : List (Entry A)) → next_of es (length es) ≡ none
  next_of-end es = ap link_of (get_elem?-none es (length es) (omega arith))

  next_of-append_used :
      (es : List (Entry A)) (e : Entry A) (i : ℕ)
      → link_of (some e) ≡ none
      → next_of (es ++ e ∷ []) i ≡ next_of es i
  next_of-append_used es e i used = elim (ℕ_discrete i (length es)) [
    | yes p ↦ rw p (ap link_of (get_elem?-append_self es e) ∙ used ∙ sym (next_of-end es))
    | no ne ↦ next_of-append_ne es e i ne
  ]

  module _ (m : SlotMap A) (wf : IsWf m) (room : length m.entries < no_head) where
    append_used-IsWf :
        (e : Entry A) → link_of (some e) ≡ none → IsWf (record m { entries = m.entries ++ e ∷ [] })
    append_used-IsWf e used =
        rw (length-append m.entries (e ∷ []))
          (rw add-one (FreeList-grow _ _ wf room (λ i. next_of-append_used m.entries e i used)))

    append_free-IsWf :
        (e : Entry A)
        → link_of (some e) ≡ some m.head
        → IsWf (record { entries = m.entries ++ e ∷ []; head = length m.entries })
    append_free-IsWf e linked = rw (length-append m.entries (e ∷ [])) (
        rw add-one (
          FreeList-push (next_of m.entries) _ (length m.entries)
            (FreeList-grow _ _ wf room (λ i. refl)) (next_of-end m.entries) (omega arith)
            (ap link_of (get_elem?-append_self m.entries e) ∙ linked)
            (λ i ne. next_of-append_ne m.entries e i ne)))

    -- No free cell is left: the container grows by one.
    grown : m.head ≡ no_head → Slot m
    unfolding next_slot
    grown e = record {
      index = length m.entries;
      taken = record m { entries = m.entries ++ record { cell = next no_head; gen = 0 } ∷ [] };
      entry = record { cell = next no_head; gen = 0 };
      returns = rw e refl;
      holds = get_elem?-append_self m.entries _;
      free = refl;
      generation = λ x p. past-end m.entries x p;
      was_free = λ x p. past-end m.entries x p;
      size = omega (arith, length-append m.entries (record { cell = next no_head; gen = 0 } ∷ []));
      elsewhere = λ j ne. get_elem?-append_ne m.entries _ j ne;
      filled = λ x p. rw (set-append_self m.entries _ x) (append_used-IsWf x p);
      given_back = λ x p. rw (set-append_self m.entries _ x) (append_free-IsWf x p);
    }

  cell_of_link :
      (o : Option (Entry A)) {n : ℕ}
      → link_of o ≡ some n
      → (e : Entry A) × (o ≡ some e) × (e.cell ≡ next n)
  cell_of_link none p = cc
  cell_of_link (some e) p = (e, refl, cell_next e.cell p)
    where
      cell_next :
          (c : Cell A) {n : ℕ} → link_of (some (record e { cell = c })) ≡ some n → c ≡ next n
      cell_next (next k) q = cc
      cell_next (value v) q = cc

  -- The head of the list is taken off it.
  reused :
      (m : SlotMap A) (n : ℕ) (e : Entry A)
      → IsWf m
      → m.head ≢ no_head
      → get_elem? m.entries m.head ≡ some e
      → e.cell ≡ next n
      → Slot m
  unfolding next_slot
  reused m n e wf ne here free_cell = record {
    index = m.head;
    taken = record m { head = n };
    entry = e;
    returns = ground (arith, here, free_cell);
    holds = here;
    free = rw free_cell;
    generation = λ x p. ground arith;
    was_free = λ x p. ground arith;
    size = omega arith;
    elsewhere = λ j d. refl;
    filled = λ x used. rw length-set (
        FreeList-pop (next_of m.entries) _ wf ne linked
          (next_of-set_self m.entries m.head x lt ∙ used)
          (λ j d. next_of-set m.entries m.head j x d));
    given_back = λ x back. rw length-set (
        FreeList-cong (next_of m.entries) _ wf (λ j. elim (ℕ_discrete j m.head) [
          | yes p ↦ rw p (next_of-set_self m.entries m.head x lt ∙ back ∙ sym linked)
          | no d ↦ next_of-set m.entries m.head j x d
        ]));
  }
    where
      linked : next_of m.entries m.head ≡ some n
      linked = ap link_of here ∙ rw free_cell

      lt : m.head < length m.entries
      lt = get_elem?-lt m.entries m.head here

  -- In a well-formed map with room the slot is there, so `next_slot` does not fault.
  pub next_slot-Slot : (m : SlotMap A) → IsWf m → length m.entries < no_head → Slot m
  next_slot-Slot m wf room = elim (ℕ_discrete m.head no_head) [
    | yes e ↦ grown m wf room e
    | no ne ↦ from_head (head-unused (next_of m.entries) wf ne) ne
  ]
    where
      from_head : (n : ℕ) × (next_of m.entries m.head ≡ some n) → m.head ≢ no_head → Slot m
      from_head (n, p) ne =
          let c = cell_of_link (get_elem? m.entries m.head) p in reused m n c.0 wf ne c.1 c.2

  -- A map whose head is `no_head` holds a value in each cell, so only a full map grows.
  pub next_slot-grows_full :
      (m : SlotMap A) → IsWf m → m.head ≡ no_head → (i n : ℕ) → next_of m.entries i ≢ some n
  next_slot-grows_full m wf e = no_head-full (next_of m.entries) wf e

  -- Vacating a cell in use puts it on the list.
  pub vacate-IsWf :
      (m : SlotMap A) (i : ℕ) (e : Entry A) (v : A)
      → IsWf m
      → get_elem? m.entries i ≡ some e
      → e.cell ≡ value v
      → IsWf (vacate m i e)
  vacate-IsWf m i e v wf here used = rw length-set (
      FreeList-push (next_of m.entries) _ i wf (ap link_of here ∙ rw used)
        (get_elem?-lt m.entries i here)
        (next_of-set_self m.entries i _ (get_elem?-lt m.entries i here))
        (λ j ne. next_of-set m.entries i j _ ne))
