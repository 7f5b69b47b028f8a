-- ===== src/Adt/SlotMap.antt =====
-- include/caffeine/ADT/SlotMap.h: the stably indexed container whose keys carry a generation.
-- `size_t` is ℕ; only the 63-bit generation is wrapped. A cell is the union with its `has_value`
-- bit. An iterator is its index. Copies and moves are those of the entries and are not repeated.
pub mod Invariant
pub mod Access
pub mod Iteration
pub mod History
pub mod Clear
pub mod Tests
use caffeine.Prelude.{
  ℕ, zero, suc, ◌+◌, ◌%◌, ◌^◌, Bool, true, false, not, ◌&&◌, Option, none, some, List, [], ◌∷◌,
  ◌++◌, length, get_elem?, set, ◌==◌, ltb, if◌then◌else◌, Outcome, done, throws, fault, ◌>>=◌, ◌>>◌,
  check, or_fault, or_throw,
}
use caffeine.Adt.FreeList.{no_head}

pub data Cell {ℓ} (A : Type ℓ) : Type ℓ where
  next : ℕ → Cell A
  value : A → Cell A

pub record Entry {ℓ} (A : Type ℓ) : Type ℓ where
  pub cell : Cell A
  pub gen : ℕ

pub record SlotMap {ℓ} (A : Type ℓ) : Type ℓ where
  pub entries : List (Entry A)
  pub head : ℕ

-- An index and a generation, as `pack_key` pairs them.
abbrev pub Key : Type 0
Key = ℕ × ℕ

module _ {ℓ} {A : Type ℓ} where
  pub has_value : Cell A → Bool
  has_value (next _) = false
  has_value (value _) = true

  abbrev pub read : Cell A → Option A
  read (next _) = none
  read (value v) = some v

  pub empty : SlotMap A
  empty = record { entries = []; head = no_head }

  -- The value behind a key whose generation is still that of the slot.
  abbrev pub current : Entry A → ℕ → Option A
  current e gen = if e.gen == gen then read e.cell else none

  -- The checked access: a stale key is an exception.
  pub at : SlotMap A → Key → Outcome A
  at m (index, gen) = do e ← or_throw (get_elem? m.entries index); or_throw (current e gen)

  -- operator[]: the generation is only asserted.
  pub index : SlotMap A → Key → Outcome A
  index m (i, gen) = do
    e ← or_fault (get_elem? m.entries i)
    check (e.gen == gen)
    or_fault (read e.cell)

  pub clear : SlotMap A → SlotMap A
  clear m = record { entries = []; head = no_head }

  -- The link of a free cell; the assertion is that the cell is free.
  abbrev pub link : Entry A → Outcome ℕ
  link e = elim e.cell [ next n ↦ done n | value _ ↦ fault ]

  pub next_slot : SlotMap A → Outcome (ℕ × SlotMap A)
  next_slot m =
      if m.head == no_head
      then done (
        length m.entries,
        record m { entries = m.entries ++ record { cell = next no_head; gen = 0 } ∷ [] },
      )
      else or_fault (get_elem? m.entries m.head) >>= λ e.
          link e >>= λ n. done (m.head, record m { head = n })

  -- The constructor of the element gives a value, or throws and the slot goes back on the list.
  abbrev pub construct : SlotMap A → ℕ → Entry A → Option A → Option Key × SlotMap A
  construct m i e none =
      (none, record { entries = set m.entries i (record e { cell = next m.head }); head = i })
  construct m i e (some v) =
      (some (i, e.gen), record m { entries = set m.entries i (record e { cell = value v }) })

  -- `none` in the place of the key is the exception of the element's constructor, thrown again.
  pub emplace : SlotMap A → Option A → Outcome (Option Key × SlotMap A)
  unfolding next_slot
  emplace m made = do
    (i, m') ← next_slot m
    e ← or_fault (get_elem? m'.entries i)
    done (construct m' i e made)

  -- entry_inner::remove and the new head of the free list.
  abbrev pub vacate : SlotMap A → ℕ → Entry A → SlotMap A
  vacate m i e = record {
    entries = set m.entries i (record { cell = next m.head; gen = (e.gen + 1) % 2 ^ 63 });
    head = i;
  }

  abbrev pub remove_entry : SlotMap A → ℕ → Entry A → Option A → Option A × SlotMap A
  remove_entry m i e none = (none, m)
  remove_entry m i e (some v) = (some v, vacate m i e)

  -- An index one past the end passes the test, and reads out of range.
  pub remove : SlotMap A → Key → Outcome (Option A × SlotMap A)
  remove m (i, gen) =
      if ltb (length m.entries) i
      then done (none, m)
      else or_fault (get_elem? m.entries i) >>= λ e. done (remove_entry m i e (current e gen))

  pub end : SlotMap A → ℕ
  end m = length m.entries

  -- The loop test `index < size() && !has_value`.
  abbrev pub vacant : Option (Entry A) → Bool
  vacant none = false
  vacant (some e) = not (has_value e.cell)

  pub skip : ℕ → SlotMap A → ℕ → ℕ
  skip zero m i = i
  skip (suc fuel) m i =
      let rest = skip fuel m (i + 1) in if vacant (get_elem? m.entries i) then rest else i

  -- The iterator's constructor; a round of the loop takes the index nearer to the size.
  pub iterator : SlotMap A → ℕ → ℕ
  unfolding skip has_value
  iterator m i = skip (length m.entries) m i

  pub begin : SlotMap A → ℕ
  unfolding iterator
  begin m = iterator m 0

  pub increment : SlotMap A → ℕ → ℕ
  unfolding skip has_value
  increment m i = skip (length m.entries) m (i + 1)

  -- operator--, whose loop goes on while the cell holds a value. Below index 0 the index wraps.
  pub decrement : SlotMap A → ℕ → Outcome ℕ
  decrement m zero = fault
  decrement m (suc i) =
      let rest = decrement m i in
      or_fault (get_elem? m.entries i) >>= λ e. if has_value e.cell then rest else done i

  pub key_at : SlotMap A → ℕ → Outcome Key
  key_at m i = or_fault (get_elem? m.entries i) >>= λ e. done (i, e.gen)

  abbrev pub position : SlotMap A → ℕ → Option A → ℕ
  position m i none = end m
  position m i (some _) = iterator m i

  pub find : SlotMap A → Key → Outcome ℕ
  unfolding iterator end
  find m (i, gen) =
      if ltb (length m.entries) i
      then done (end m)
      else or_fault (get_elem? m.entries i) >>= λ e. done (position m i (current e gen))

  -- for (it = begin(); it != end(); ++it), collecting the keys.
  pub visit : ℕ → SlotMap A → ℕ → Outcome (List Key)
  visit zero m i = fault
  visit (suc fuel) m i =
      let rest = visit fuel m (increment m i) in
      if i == end m then done [] else key_at m i >>= λ k. rest >>= λ ks. done (k ∷ ks)

  pub keys : SlotMap A → Outcome (List Key)
  unfolding visit begin increment end key_at
  keys m = visit (length m.entries + 1) m (begin m)
