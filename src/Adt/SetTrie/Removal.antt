-- ===== src/Adt/SetTrie/Removal.antt =====
-- SetTrie.h: remove_node's walk ends, and `it.value() = endpoint` keeps what holds of the other edges.
use caffeine.Prelude.{
  ◌==◌, Bool-cases, Outcome, done, ℕ, zero, suc, ◌+◌, ◌<◌, ◌≡◌, refl, ◌↔◌, ◌⊎◌, inl, inr, Bool,
  true, false, arith, List, [], ◌∷◌,
}
use caffeine.Prelude.{length, All, get_elem?-some}
use caffeine.Adt.SparseVector.{of_list}
use caffeine.Adt.SetTrie.{Node, endpoint, assign, remove_each, remove_node}
use caffeine.Adt.SetTrie.Nodes.{index-of_list}
use caffeine.Adt.SetTrie.Lookup.{Leaves, IsTree}

module _ {ℓ} {A : Type ℓ} where
  remove_each-done :
      (label : ℕ → List A) (len i : ℕ) (call : ℕ → Outcome (Unit {0})) (es : List (A × ℕ))
      → All (Leaves label len i) es
      → ((j : ℕ) → i < j → j < len → call j ≡ done tt)
      → remove_each call es ≡ done tt
  unfolding remove_each
  remove_each-done label len i call [] a h = refl
  remove_each-done label len i call ((x, j) ∷ es) (l, a) h = elim (Bool-cases (j == endpoint)) [
    | inl e ↦ rw e (remove_each-done label len i call es a h)
    | inr e ↦ rw (e, reached e l) (remove_each-done label len i call es a h)
  ]
    where
      reached : (j == endpoint) ≡ false → Leaves label len i (x, j) → call j ≡ done tt
      reached e (inl p) = absurd (ground arith)
      reached e (inr (up, within, _)) = h j up within

  -- In a trie whose nodes form a tree, remove_node ends well from any node or from the end of a set,
  -- with fuel above zero and above the number of nodes from that one on.
  pub remove_node-done :
      (label : ℕ → List A) (ns : List (Node A)) (fuel i : ℕ)
      → IsTree label ns
      → (i ≡ endpoint) ⊎ (i < length ns)
      → length ns < fuel + i
      → 0 < fuel
      → remove_node fuel (of_list ns) i ≡ done tt
  unfolding remove_node
  remove_node-done label ns zero i t h f p = absurd (omega arith)
  remove_node-done label ns (suc fuel) i t h f p = elim h [
    | inl e ↦ let ends : (i == endpoint) ≡ true = ground arith in rw (ends, remove_node) refl
    | inr lt ↦
        let fits = t.fits in
        let goes : (i == endpoint) ≡ false = ground arith in
        let (n, e) = get_elem?-some ns i lt in
        rw (goes, remove_node, index-of_list ns i n e)
          (remove_each-done label (length ns) i (remove_node fuel (of_list ns)) n.next
            (t.edges i n e)
            (λ j up within.
              remove_node-done label ns fuel j t (inr within) (omega arith) (omega arith)))
  ]

module _ {ℓ} {A : Type ℓ} (same : A → A → Bool)
    (same-eq : (a b : A) → (same a b ≡ true) ↔ (a ≡ b)) where
  pub assign-All :
      (P : A × ℕ → Type ℓ) (x : A) (k : ℕ) (es : List (A × ℕ))
      → ((y : A) → P (y, k))
      → All P es
      → All P (assign same x k es)
  unfolding assign
  assign-All P x k [] h a = a
  assign-All P x k ((y, j) ∷ es) h (p, a) = elim (Bool-cases (same y x)) [
    | inl e ↦ rw e (h y, a)
    | inr e ↦ rw e (p, assign-All P x k es h a)
  ]
  -- What insert_at leaves: `q` is a word below node `i`, and the change is below the node labelled `m`.
