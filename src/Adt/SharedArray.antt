-- ===== src/Adt/SharedArray.antt =====
-- include/caffeine/ADT/SharedArray.h, src/ADT/SharedArray.cpp: an array whose copies share a variant.
-- Here a pointer to a shared variant stands for the variant; Pointers has a store of the variants.
pub mod Contents
pub mod Copies
pub mod Pointers
mod Tests
use caffeine.Prelude.{
  ltb, leb, ◌==◌, if◌then◌else◌, Outcome, done, throws, ◌>>=◌, check, or_fault, or_throw, ℕ, zero,
  suc, ◌+◌, ◌*◌, Bool, true, false, Option, none, some, List, [], ◌∷◌,
}
use caffeine.Prelude.{length, get_elem?, set}

-- The vector, or a map of changes over a shared variant.
pub data Variant {ℓ} (A : Type ℓ) : Type ℓ where
  flat : List A → Variant A
  modified : Variant A → List (ℕ × A) → Variant A

pub record SharedArray {ℓ} (A : Type ℓ) : Type ℓ where
  pub content : Variant A
  pub modcnt : ℕ
  pub size : ℕ

abbrev pub min_copy_size : ℕ
min_copy_size = 64

-- `modcnt > size * 0.8`
abbrev pub over_threshold : ℕ → ℕ → Bool
over_threshold modcnt size = ltb (4 * size) (5 * modcnt)

module _ {ℓ} {A : Type ℓ} where
  -- The map's lookup.
  unfoldable pub find : ℕ → List (ℕ × A) → Option A
  find i [] = none
  find i ((j, a) ∷ ch) = if j == i then some a else find i ch

  -- `it->second = value`
  unfoldable pub assign : ℕ → A → List (ℕ × A) → List (ℕ × A)
  assign i v [] = []
  assign i v ((j, a) ∷ ch) = if j == i then (j, v) ∷ ch else (j, a) ∷ assign i v ch

  -- Modified::operator[]: the first change on the way to the vector, or its element.
  unfoldable pub modified_index : Variant A → List (ℕ × A) → ℕ → Outcome A
  unfolding find
  modified_index (flat xs) ch i = elim (find i ch) [
    | some a ↦ done a
    | none ↦ or_throw (get_elem? xs i)
  ]
  modified_index (modified v below) ch i = elim (find i ch) [
    | some a ↦ done a
    | none ↦ modified_index v below i
  ]

  unfoldable pub index : Variant A → ℕ → Outcome A
  unfolding modified_index
  index (flat xs) i = or_fault (get_elem? xs i)
  index (modified v ch) i = modified_index v ch i

  unfoldable pub load : SharedArray A → ℕ → Outcome A
  unfolding index
  load s i = check (ltb i s.size) >>= λ _. index s.content i

  -- The constructors from a vector, and from a pointer and a size.
  unfoldable pub of_vector : List A → SharedArray A
  of_vector xs = record { content = flat xs; modcnt = 0; size = length xs }

  -- The constructor from two iterators leaves the size at its initial value.
  unfoldable pub of_range : List A → SharedArray A
  of_range xs = record { content = flat xs; modcnt = 0; size = 0 }

  -- What a move leaves behind.
  abbrev pub moved_from : SharedArray A
  moved_from = record { content = flat []; modcnt = 0; size = 0 }

  unfoldable pub move_assign : SharedArray A → SharedArray A × SharedArray A
  move_assign array = (array, moved_from)

  abbrev pub is_flat : Variant A → Bool
  is_flat (flat _) = true
  is_flat (modified _ _) = false

  -- The variant shared by both sides of a copy.
  abbrev pub shared : Variant A → Variant A
  shared v = modified v []

  -- operator=(const SharedArray&): the source after it, and the target.
  unfoldable pub copied : Variant A → Variant A
  copied (flat xs) = if leb (length xs) min_copy_size then flat xs else shared (flat xs)
  copied (modified v ch) =
      if leb (length ch) min_copy_size then modified v ch else shared (modified v ch)

  unfoldable pub copy_assign : SharedArray A → SharedArray A × SharedArray A
  unfolding copied
  copy_assign array = (
    record array { content = copied array.content },
    record { content = copied array.content; modcnt = array.modcnt; size = array.size },
  )

  -- The loop of flatten: `rounds` more elements from index `i` on.
  unfoldable pub loads : SharedArray A → ℕ → ℕ → Outcome (List A)
  unfolding load
  loads s i zero = done []
  loads s i (suc rounds) = load s i >>= λ a. loads s (i + 1) rounds >>= λ rest. done (a ∷ rest)

  unfoldable pub flatten : SharedArray A → Outcome (SharedArray A)
  unfolding loads
  flatten s =
      if is_flat s.content
      then done s
      else loads s 0 s.size >>= λ xs. done (record s { content = flat xs })

  abbrev pub get_vector : Variant A → Outcome (List A)
  get_vector (flat xs) = done xs
  get_vector (modified _ _) = throws

  -- data(): the vector that the pointer is into, and the array.
  unfoldable pub raw_data : SharedArray A → Outcome (List A × SharedArray A)
  unfolding flatten
  raw_data s = flatten s >>= λ s'. get_vector s'.content >>= λ xs. done (xs, s')

module _ {ℓ} {A : Type ℓ} (same : A → A → Bool) where
  -- store on the map of changes.
  unfoldable pub store_change :
      SharedArray A → Variant A → List (ℕ × A) → ℕ → A → Outcome (SharedArray A)
  unfolding modified_index find assign flatten
  store_change s v ch i a = elim (find i ch) [
    | some _ ↦ done (record s { content = modified v (assign i a ch) })
    | none ↦ modified_index v ch i >>= λ old.
        if same old a
        then done s
        else let s' = record s { content = modified v ((i, a) ∷ ch); modcnt = s.modcnt + 1 } in
          if over_threshold s'.modcnt s'.size then flatten s' else done s'
  ]

  -- store on the alternative that the content has.
  unfoldable pub store_content : SharedArray A → Variant A → ℕ → A → Outcome (SharedArray A)
  unfolding store_change
  store_content s (flat xs) i a =
      if ltb i (length xs) then done (record s { content = flat (set xs i a) }) else throws
  store_content s (modified v ch) i a = store_change s v ch i a

  unfoldable pub store : SharedArray A → ℕ → A → Outcome (SharedArray A)
  unfolding store_content
  store s i a = check (ltb i s.size) >>= λ _. store_content s s.content i a

  -- The loop of operator==, `rounds` more elements from index `i` on.
  unfoldable pub equal_from : SharedArray A → SharedArray A → ℕ → ℕ → Outcome Bool
  unfolding load
  equal_from s t i zero = done true
  equal_from s t i (suc rounds) = load s i >>= λ a. load t i >>= λ b. elim (same a b) [
    | true ↦ equal_from s t (i + 1) rounds
    | false ↦ done false
  ]

  unfoldable pub equals : SharedArray A → SharedArray A → Outcome Bool
  unfolding equal_from
  equals s t = if s.size == t.size then equal_from s t 0 s.size else done false
