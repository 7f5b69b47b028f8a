-- ===== src/Adt/SparseVector.antt =====
-- include/caffeine/ADT/SparseVector.h: a vector with holes. An element is a value or, in a hole, the
-- index of the next hole. An iterator is its index into the backing vector.
pub mod Holes
pub mod Content
pub mod Tail
pub mod Ranges
pub mod Tests
use caffeine.Prelude.{
  ℕ, zero, suc, ◌+◌, ◌-◌, ◌^◌, Bool, true, false, Option, none, some, List, [], ◌∷◌, ◌++◌, map,
  length, get_elem?, set, ◌==◌, ltb, leb, if◌then◌else◌, Outcome, done, throws, fault, ◌>>=◌, ◌>>◌,
  check, or_fault,
}
use caffeine.Adt.FreeList.{no_head}

pub data Elem {ℓ} (A : Type ℓ) : Type ℓ where
  hole : ℕ → Elem A
  value : A → Elem A

pub record SparseVector {ℓ} (A : Type ℓ) : Type ℓ where
  pub elements : List (Elem A)
  pub size : ℕ
  pub head : ℕ

-- `size_ -= 1` on a `size_t`.
abbrev pub one_less : ℕ → ℕ
one_less zero = 2 ^ 64 - 1
one_less (suc n) = n

module _ {ℓ} {A : Type ℓ} where
  -- `std::get<T>` throws where the variant holds an index.
  abbrev pub get_value : Elem A → Outcome A
  get_value (hole _) = throws
  get_value (value v) = done v

  abbrev pub is_value : Elem A → Bool
  is_value (hole _) = false
  is_value (value _) = true

  unfoldable pub of_list : List A → SparseVector A
  of_list vs = record { elements = map value vs; size = length vs; head = no_head }

  abbrev pub backing_size : SparseVector A → ℕ
  backing_size s = length s.elements

  unfoldable pub is_empty : SparseVector A → Bool
  is_empty s = s.size == 0

  -- operator[]: an index out of range throws, and so does a hole.
  unfoldable pub index : SparseVector A → ℕ → Outcome A
  index s i =
      if leb (backing_size s) i then throws else or_fault (get_elem? s.elements i) >>= get_value

  unfoldable pub emplace_back : SparseVector A → A → ℕ × SparseVector A
  emplace_back s v =
      let elements = s.elements ++ value v ∷ [] in
      (length elements - 1, record s { elements = elements; size = s.size + 1 })

  abbrev pub append_hole : SparseVector A → ℕ × SparseVector A
  append_hole s =
      let elements = s.elements ++ hole no_head ∷ [] in
      (length elements - 1, record s { elements = elements })

  abbrev pub next_hole : Elem A → Outcome ℕ
  next_hole (hole n) = done n
  next_hole (value _) = fault

  unfoldable pub alloc_slot : SparseVector A → Outcome (ℕ × SparseVector A)
  alloc_slot s =
      if s.head == no_head
      then done (append_hole s)
      else or_fault (get_elem? s.elements s.head) >>= λ e.
          next_hole e >>= λ n. done (s.head, record s { head = n })

  unfoldable pub emplace : SparseVector A → A → Outcome (ℕ × SparseVector A)
  unfolding alloc_slot
  emplace s v = do
    (i, s') ← alloc_slot s
    _ ← or_fault (get_elem? s'.elements i)
    done (i, record s' { elements = set s'.elements i (value v); size = s'.size + 1 })

  unfoldable pub erase : SparseVector A → ℕ → Outcome (SparseVector A)
  erase s i = do
    check (ltb i (backing_size s))
    e ← or_fault (get_elem? s.elements i)
    check (is_value e)
    done (record { elements = set s.elements i (hole s.head); size = one_less s.size; head = i })

  -- std::remove_if over the holes, and the end cut off.
  abbrev pub values : List (Elem A) → List A
  values [] = []
  values (hole _ ∷ es) = values es
  values (value v ∷ es) = v ∷ values es

  abbrev pub without_holes : List (Elem A) → List (Elem A)
  without_holes [] = []
  without_holes (hole _ ∷ es) = without_holes es
  without_holes (value v ∷ es) = value v ∷ without_holes es

  pub compress : SparseVector A → SparseVector A
  compress s =
      if s.size == backing_size s
      then s
      else let kept = without_holes s.elements in
        record { elements = kept; size = length kept; head = no_head }

  unfoldable pub clear : SparseVector A → SparseVector A
  clear s = record { elements = []; size = 0; head = no_head }

  unfoldable pub end : SparseVector A → ℕ
  end s = backing_size s

  unfoldable pub valid : SparseVector A → ℕ → Outcome Bool
  valid s i = or_fault (get_elem? s.elements i) >>= λ e. done (is_value e)

  -- The loop of operator++ from the index after the step: on past holes, up to the end.
  unfoldable pub skip : ℕ → SparseVector A → ℕ → Outcome ℕ
  skip zero s i = fault
  skip (suc fuel) s i =
      let rest = skip fuel s (i + 1) in
      if i == end s
      then done i
      else or_fault (get_elem? s.elements i) >>= λ e. if is_value e then done i else rest

  unfoldable pub increment : SparseVector A → ℕ → Outcome ℕ
  unfolding skip end
  increment s i = skip (backing_size s + 1) s (i + 1)

  -- `begin` steps over the first element where that is a hole.
  unfoldable pub begin : SparseVector A → Outcome ℕ
  unfolding increment
  begin s = elim s.elements [ [] ↦ done 0 | e ∷ es ↦ if is_value e then done 0 else increment s 0 ]

  unfoldable pub iterator_at : SparseVector A → ℕ → Outcome ℕ
  iterator_at s i = if ltb (backing_size s) i then throws else done i

  -- for (it = from; it != end(); ++it), collecting the elements.
  unfoldable pub collect : ℕ → SparseVector A → ℕ → Outcome (List A)
  collect zero s i = fault
  collect (suc fuel) s i = elim (i == end s) [
    | true ↦ done []
    | false ↦ do
      e ← or_fault (get_elem? s.elements i)
      v ← get_value e
      j ← increment s i
      vs ← collect fuel s j
      done (v ∷ vs)
  ]

  -- for (it = from; it != to; ++it), collecting the elements.
  unfoldable pub collect_until : ℕ → SparseVector A → ℕ → ℕ → Outcome (List A)
  collect_until zero s j i = fault
  collect_until (suc fuel) s j i = elim (i == j) [
    | true ↦ done []
    | false ↦ do
      e ← or_fault (get_elem? s.elements i)
      v ← get_value e
      k ← increment s i
      vs ← collect_until fuel s j k
      done (v ∷ vs)
  ]

  unfoldable pub to_list : SparseVector A → Outcome (List A)
  unfolding collect begin increment end
  to_list s = begin s >>= λ i. collect (backing_size s + 1) s i

  -- erase(start, end): erases and steps on, until `stop`.
  pub erase_range : ℕ → SparseVector A → ℕ → ℕ → Outcome (SparseVector A)
  unfolding erase increment
  erase_range zero s i stop = fault
  erase_range (suc fuel) s i stop = elim (i == stop) [
    | true ↦ done s
    | false ↦ do s' ← erase s i; j ← increment s' i; erase_range fuel s' j stop
  ]
