-- ===== src/Adt/SetTrie/Insert.antt =====
-- SetTrie.h: insert_at changes one edge below the node it starts from, and the words with it.
use caffeine.Prelude.{
  ◌==◌, Bool-cases, Option-cases, done, ◌>>=◌, ℕ, ◌+◌, ◌≤◌, ◌<◌, ◌≡◌, refl, sym, ◌∙◌, ◌↔◌, ◌⊎◌, inl,
  inr, Bool, true, false, ◌||◌, none, some, arith, List, [], ◌∷◌,
}
use caffeine.Prelude.{length, get_elem?, get_elem?-some}
use caffeine.Adt.SparseVector.{of_list, index}
use caffeine.Adt.SetTrie.{
  Node, SetTrie, endpoint, find, emplace_edge, assign, insert_new, insert_at, modify, remove_node,
}
use caffeine.Adt.SetTrie.Words.{leads, hits, hits_nil}
use caffeine.Adt.SetTrie.Nodes.{index-of_list, modify-of_list, length-map}
use caffeine.Adt.SetTrie.Lookup.{Leaves, IsTree, find-All, edge-find, leads-nil, hits-some}
use caffeine.Adt.SetTrie.Grow.{insert_new-Grown}
use caffeine.Adt.SetTrie.Added.{Inserted, added, got2, add-Inserted}
use caffeine.Adt.SetTrie.Removal.{remove_node-done}
use caffeine.Adt.SetTrie.Followed.{cut, cut-Inserted, below-Inserted}

module _ {ℓ} {A : Type ℓ} (same : A → A → Bool)
    (same-eq : (a b : A) → (same a b ≡ true) ↔ (a ≡ b)) where
  or_false : (a b : Bool) → (a || b) ≡ false → a ≡ false
  or_false true b e = e
  or_false false b e = refl

  target :
      (label : ℕ → List A) (len i : ℕ) (x : A) (j : ℕ)
      → Leaves label len i (x, j)
      → (j ≡ endpoint) ⊎ (j < len)
  target label len i x j (inl e) = inl e
  target label len i x j (inr (_, lt, _)) = inr lt

  inner_target :
      (label : ℕ → List A) (len i : ℕ) (x : A) (j : ℕ)
      → (j == endpoint) ≡ false
      → Leaves label len i (x, j)
      → j < len
  inner_target label len i x j goes (inl e) = absurd (ground arith)
  inner_target label len i x j goes (inr (_, lt, _)) = lt

  -- A query that hits nothing below an edge does not end there.
  not_end :
      (ns : List (Node A)) (j : ℕ) (q : List A)
      → hits (leads same ns j) q ≡ false
      → (j == endpoint) ≡ false
  not_end ns j q h = elim (Bool-cases (j == endpoint)) [
    | inl e ↦ cc (hits_nil (leads same ns j) q (leads-nil same same-eq ns j ∙ e))
    | inr e ↦ e
  ]

  insert_at-new :
      (s s' : SetTrie A) (i : ℕ) (x : A) (q : List A) (n : Node A) {k : ℕ}
      → index s i ≡ done n
      → find same x n.next ≡ none
      → insert_new same s q ≡ done (k, s')
      → insert_at same s i (x ∷ q) ≡ modify s' i (emplace_edge same x k)
  unfolding insert_at
  insert_at-new s s' i x q n got missing ran = rw (got, ◌>>=◌, missing, ran) refl

  insert_at-last :
      (s : SetTrie A) (i : ℕ) (x : A) (n : Node A) {j : ℕ} {s' : SetTrie A}
      → index s i ≡ done n
      → find same x n.next ≡ some j
      → remove_node (length s.elements + 1) s j ≡ done tt
      → modify s i (assign same x endpoint) ≡ done s'
      → insert_at same s i (x ∷ []) ≡ done s'
  unfolding insert_at
  insert_at-last s i x n got found ran put = rw (got, ◌>>=◌, found, ran) put

  insert_at-down :
      (s : SetTrie A) (i : ℕ) (x z : A) (q : List A) (n : Node A) {j : ℕ}
      → index s i ≡ done n
      → find same x n.next ≡ some j
      → (j == endpoint) ≡ false
      → insert_at same s i (x ∷ z ∷ q) ≡ insert_at same s j (z ∷ q)
  unfolding insert_at
  insert_at-down s i x z q n got found goes = rw (got, ◌>>=◌, found, goes) refl

  insert_at-missing :
      (label : ℕ → List A) (ns : List (Node A)) (i : ℕ) (x : A) (q : List A) (n : Node A)
      → IsTree label ns
      → length ns + length q ≤ endpoint
      → get_elem? ns i ≡ some n
      → find same x n.next ≡ none
      → (m : List A) × (label' : ℕ → List A) × (ns' : List (Node A)) × (insert_at same
            (of_list ns)
            i
            (x ∷ q)
          ≡ done (of_list ns'))
        × Inserted same same-eq label ns i (x ∷ q) m label' ns'
  unfolding insert_at added
  insert_at-missing label ns i x q n t fits got missing =
      let (k, label2, ns2, ran, g) =
        insert_new-Grown same same-eq label ns (x ∷ label i) q t fits in
      (
        label i,
        label2,
        added same same-eq label ns t i n got x q missing k label2 ns2 g,
        insert_at-new (of_list ns) (of_list ns2) i x q n (index-of_list ns i n got) missing ran
            ∙ modify-of_list ns2 i n (emplace_edge same x k)
                (got2 same same-eq label ns t i n got x q missing k label2 ns2 g),
        add-Inserted same same-eq label ns t i n got x q missing k label2 ns2 g,
      )

  pub insert_at-Inserted :
      (label : ℕ → List A) (ns : List (Node A)) (i : ℕ) (x : A) (q : List A)
      → IsTree label ns
      → i < length ns
      → length ns + length (x ∷ q) ≤ endpoint
      → hits (leads same ns i) (x ∷ q) ≡ false
      → (m : List A) × (label' : ℕ → List A) × (ns' : List (Node A)) × (insert_at same
            (of_list ns)
            i
            (x ∷ q)
          ≡ done (of_list ns'))
        × Inserted same same-eq label ns i (x ∷ q) m label' ns'
  unfolding insert_at cut of_list
  insert_at-Inserted label ns i x [] t lt fits new =
      let (n, got) = get_elem?-some ns i lt in
      elim (Option-cases (find same x n.next)) [
        | inl missing ↦ insert_at-missing label ns i x [] n t (omega arith) got missing
        | inr (j, found) ↦
            let walked : remove_node (length (of_list ns).elements + 1) (of_list ns) j ≡ done tt =
              remove_node-done label ns (length (of_list ns).elements + 1) j t
                (target label (length ns) i x j
                  (find-All same same-eq label (length ns) i x j n.next (t.edges i n got) found))
                (omega (arith, length-map ns)) (omega arith) in
            (
              label i,
              label,
              cut same same-eq label ns t i n got x j found,
              insert_at-last (of_list ns) i x n (index-of_list ns i n got) found walked
                  (modify-of_list ns i n (assign same x endpoint) got),
              cut-Inserted same same-eq label ns t i n got x j found,
            )
      ]
  insert_at-Inserted label ns i x (z ∷ q) t lt fits new =
      let (n, got) = get_elem?-some ns i lt in
      elim (Option-cases (find same x n.next)) [
        | inl missing ↦ insert_at-missing label ns i x (z ∷ q) n t (omega arith) got missing
        | inr (j, found) ↦
            let apart : hits (leads same ns j) (z ∷ q) ≡ false =
              or_false (hits (leads same ns j) (z ∷ q)) (hits (leads same ns i) (z ∷ q)) (
                sym (
                  hits-some same same-eq ns i j x (z ∷ q)
                    (edge-find same same-eq ns i n x got ∙ found))
                ∙ new) in
            let goes : (j == endpoint) ≡ false = not_end ns j (z ∷ q) apart in
            let (m, label', ns', ran, r) =
              insert_at-Inserted label ns j z q t
                (inner_target label (length ns) i x j goes
                  (find-All same same-eq label (length ns) i x j n.next (t.edges i n got) found))
                (omega arith) apart in
            (
              m,
              label',
              ns',
              insert_at-down (of_list ns) i x z q n (index-of_list ns i n got) found goes ∙ ran,
              below-Inserted same same-eq label ns t i n got x j found goes z q m label' ns' r,
            )
      ]
