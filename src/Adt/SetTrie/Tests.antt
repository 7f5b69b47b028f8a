-- ===== src/Adt/SetTrie/Tests.antt =====
-- SetTrie.h: runs on small sets, and the theorems at inputs that meet their conditions.
use caffeine.Prelude.{
  ◌==◌, ==_iff, done, fault, ◌>>=◌, ℕ, ◌≤◌, ◌≡◌, refl, true, false, ◌||◌, arith, List, [], ◌∷◌,
}
use caffeine.Adt.SparseVector
use caffeine.Adt.SparseVector.{
  backing_size, index, of_list, emplace, alloc_slot, emplace_back, is_empty,
}
use caffeine.Adt.SetTrie.{
  Node, endpoint, remove_node, SetTrie, clear, contains_subset, insert, insert_at,
}
use caffeine.Adt.SetTrie.Words.{subset}
use caffeine.Adt.SetTrie.Contents.{
  IsWf, new_trie, new_trie-IsWf, insert_all, any_subset, insert-contains_subset,
  insert_all-any_subset,
}
use caffeine.Prelude.{some, All, get_elem?, subst, zero, suc, inl, inr}
use caffeine.Adt.SetTrie.Lookup.{Leaves, some-injective}
use caffeine.Adt.SetTrie.Removal.{remove_node-done}

abbrev three_sets : List (List ℕ)
three_sets = (1 ∷ 3 ∷ []) ∷ (1 ∷ 3 ∷ 4 ∷ []) ∷ (2 ∷ []) ∷ []

-- The second set contains the first, and is not stored.
three_sets-contains_subset :
    (insert_all ◌==◌ new_trie three_sets >>= λ s. contains_subset ◌==◌ s (0 ∷ 1 ∷ 3 ∷ []))
    ≡ done true
unfolding insert_all insert insert_at contains_subset emplace alloc_slot emplace_back is_empty
    of_list clear SparseVector.clear
three_sets-contains_subset = refl

three_sets_miss :
    (insert_all ◌==◌ new_trie three_sets >>= λ s. contains_subset ◌==◌ s (3 ∷ 4 ∷ [])) ≡ done false
unfolding insert_all insert insert_at contains_subset emplace alloc_slot emplace_back is_empty
    of_list clear SparseVector.clear
three_sets_miss = refl

-- A set that starts a stored one replaces it.
cut_short :
    (insert_all ◌==◌ new_trie ((1 ∷ 3 ∷ 4 ∷ []) ∷ (1 ∷ 3 ∷ []) ∷ []) >>= λ s.
    contains_subset ◌==◌ s (1 ∷ 3 ∷ []))
    ≡ done true
unfolding insert_all insert insert_at contains_subset emplace alloc_slot emplace_back is_empty
    of_list clear SparseVector.clear
cut_short = refl

-- The empty set is refused.
insert_empty : insert ◌==◌ new_trie [] ≡ fault
unfolding insert insert_at contains_subset is_empty
insert_empty = refl

insert-contains_subset_example :
    (s' : SetTrie ℕ) × (insert ◌==◌ new_trie (1 ∷ 3 ∷ []) ≡ done s')
    × IsWf s'
    × (backing_size s' ≤ 3)
    × ((u : List ℕ)
        → contains_subset ◌==◌ s' u
          ≡ (contains_subset ◌==◌ new_trie u >>= λ b. done (b || subset ◌==◌ (1 ∷ 3 ∷ []) u)))
insert-contains_subset_example =
    insert-contains_subset ◌==◌ ==_iff new_trie 1 (3 ∷ []) new_trie-IsWf (omega arith)

insert_all-any_subset_example :
    (s : SetTrie ℕ) × (insert_all ◌==◌ new_trie three_sets ≡ done s)
    × (contains_subset ◌==◌ s (1 ∷ 2 ∷ []) ≡ done true)
unfolding any_subset
insert_all-any_subset_example =
    insert_all-any_subset ◌==◌ ==_iff three_sets (1 ∷ 2 ∷ []) (refl, (refl, (refl, tt)))
      (omega arith)

-- The set of 1 and 3: a root, and a node below its only edge.
abbrev two_nodes : List (Node ℕ)
two_nodes = record { next = (1, 1) ∷ [] } ∷ record { next = (3, endpoint) ∷ [] } ∷ []

abbrev two_labels : ℕ → List ℕ
two_labels zero = []
two_labels (suc i) = 1 ∷ []

two_nodes_edges :
    (i : ℕ) (n : Node ℕ) → get_elem? two_nodes i ≡ some n → All (Leaves two_labels 2 i) n.next
two_nodes_edges zero n e =
    subst (λ (m : Node ℕ). All (Leaves two_labels 2 0) m.next) (some-injective e)
      (inr (omega arith, omega arith, refl), tt)
two_nodes_edges (suc zero) n e =
    subst (λ (m : Node ℕ). All (Leaves two_labels 2 1) m.next) (some-injective e) (inl refl, tt)
two_nodes_edges (suc (suc i)) n e = cc

remove_node-done_example : remove_node 3 (of_list two_nodes) 0 ≡ done tt
remove_node-done_example =
    remove_node-done two_labels two_nodes 3 0
      (record { fits = omega arith; edges = two_nodes_edges }) (inr (omega arith)) (omega arith)
      (omega arith)
