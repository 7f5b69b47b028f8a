-- ===== src/Adt/SetTrie.antt =====
-- include/caffeine/ADT/SetTrie.h: a trie of sorted sets, its nodes in a SparseVector. A node's map is
-- a list of pairs, and an iterator range is the list of what is left of it.
pub mod Words
pub mod Nodes
pub mod Lookup
pub mod Spec
pub mod Redirect
pub mod Grow
pub mod Removal
pub mod Added
pub mod Followed
pub mod Insert
pub mod Contents
mod Tests
use caffeine.Prelude.{
  ◌==◌, if◌then◌else◌, Outcome, done, fault, ◌>>=◌, ◌>>◌, check, ℕ, zero, suc, ◌+◌, ◌-◌, ◌^◌, Bool,
  true, false, not, Option, none, some, List, [], ◌∷◌,
}
use caffeine.Prelude.{length, set}
use caffeine.Adt.SparseVector
use caffeine.Adt.SparseVector.{SparseVector, value, index, emplace, emplace_back, is_empty}

-- SIZE_MAX
abbrev pub endpoint : ℕ
endpoint = 2 ^ 64 - 1

pub record Node {ℓ} (A : Type ℓ) : Type ℓ where
  pub next : List (A × ℕ)

abbrev pub SetTrie {ℓ} : Type ℓ → Type ℓ
SetTrie A = SparseVector (Node A)

abbrev pub new_node {ℓ} : {A : Type ℓ} → Node A
new_node = record { next = [] }

abbrev pub is_nil {ℓ} : {A : Type ℓ} → List A → Bool
is_nil [] = true
is_nil (_ ∷ _) = false

module _ {ℓ} {A : Type ℓ} where
  unfoldable pub clear : SetTrie A → SetTrie A
  clear s = SparseVector.clear s

  unfoldable pub empty : SetTrie A → Outcome Bool
  unfolding is_empty index
  empty s = if is_empty s then done true else index s 0 >>= λ n. done (is_nil n.next)

  -- What a write through the reference `nodes[i]` leaves behind.
  unfoldable pub modify : SetTrie A → ℕ → (List (A × ℕ) → List (A × ℕ)) → Outcome (SetTrie A)
  modify s i f = index s i >>= λ n.
      done (record s { elements = set s.elements i (value (record { next = f n.next })) })

  -- The loop of remove_node over the pairs of one node.
  unfoldable pub remove_each : (ℕ → Outcome (Unit {0})) → List (A × ℕ) → Outcome (Unit {0})
  remove_each call [] = done tt
  remove_each call ((x, j) ∷ es) =
      (if j == endpoint then done tt else call j) >>= λ _. remove_each call es

  -- It walks the subtree, and erases nothing.
  unfoldable pub remove_node : ℕ → SetTrie A → ℕ → Outcome (Unit {0})
  unfolding remove_each index
  remove_node zero s i = fault
  remove_node (suc fuel) s i = elim (i == endpoint) [
    | true ↦ done tt
    | false ↦ index s i >>= λ n. remove_each (remove_node fuel s) n.next
  ]

  abbrev pub emplaced : SetTrie A → Outcome (ℕ × SetTrie A)
  emplaced s = emplace s new_node

-- The maps' lookup is by the equality `same` of the elements.
module _ {ℓ} {A : Type ℓ} (same : A → A → Bool) where
  unfoldable pub find : A → List (A × ℕ) → Option ℕ
  find x [] = none
  find x ((y, j) ∷ es) = if same y x then some j else find x es

  -- `next.emplace` keeps an entry that is there.
  unfoldable pub emplace_edge : A → ℕ → List (A × ℕ) → List (A × ℕ)
  unfolding find
  emplace_edge x j es = elim (find x es) [ none ↦ (x, j) ∷ es | some _ ↦ es ]

  -- `it.value() = j`
  unfoldable pub assign : A → ℕ → List (A × ℕ) → List (A × ℕ)
  assign x j [] = []
  assign x j ((y, k) ∷ es) = if same y x then (y, j) ∷ es else (y, k) ∷ assign x j es

  -- follow_subset: entering a node, with the loop over its query as `rest`.
  unfoldable pub enter : (Node A → Outcome Bool) → SetTrie A → ℕ → Outcome Bool
  unfolding index
  enter rest s i = if i == endpoint then done true else index s i >>= rest

  -- The loop at one node from a position of the query on.
  unfoldable pub follow_from : SetTrie A → Node A → List A → Outcome Bool
  unfolding find enter
  follow_from s n [] = done false
  follow_from s n (x ∷ q) = elim (find x n.next) [
    | none ↦ follow_from s n q
    | some j ↦ enter (λ m. follow_from s m q) s j >>= λ b. elim b [
      | true ↦ done true
      | false ↦ follow_from s n q
    ]
  ]

  unfoldable pub follow_subset : SetTrie A → ℕ → List A → Outcome Bool
  unfolding follow_from
  follow_subset s i q = enter (λ n. follow_from s n q) s i

  unfoldable pub contains_subset : SetTrie A → List A → Outcome Bool
  unfolding follow_subset empty
  contains_subset s q = empty s >>= λ e. if e then done false else follow_subset s 0 q

  -- A chain of new nodes, each linked to the next once that one is there.
  unfoldable pub insert_new : SetTrie A → List A → Outcome (ℕ × SetTrie A)
  unfolding emplace_edge modify
  insert_new s [] = done (endpoint, s)
  insert_new s (x ∷ q) = do
    (i, s1) ← emplaced s
    (k, s2) ← insert_new s1 q
    s3 ← modify s2 i (emplace_edge x k)
    done (i, s3)

  unfoldable pub insert_at : SetTrie A → ℕ → List A → Outcome (SetTrie A)
  unfolding insert_new assign remove_node
  insert_at s i [] = fault
  insert_at s i (x ∷ q) = index s i >>= λ n. elim (find x n.next) [
    | none ↦ insert_new s q >>= λ r. modify r.1 i (emplace_edge x r.0)
    | some j ↦ elim (is_nil q) [
      | true ↦ remove_node (length s.elements + 1) s j >>= λ _. modify s i (assign x endpoint)
      | false ↦ check (not (j == endpoint)) >>= λ _. insert_at s j q
    ]
  ]

  unfoldable pub insert : SetTrie A → List A → Outcome (SetTrie A)
  insert s q = contains_subset s q >>= λ b.
      if b
      then done s
      else insert_at (if is_empty s then (emplace_back (clear s) new_node).1 else s) 0 q
