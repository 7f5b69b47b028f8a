-- ===== src/Adt/SetTrie/Added.antt =====
-- SetTrie.h: insert_at where the node has no edge for the next element.
use caffeine.Prelude.{
  Bool-cases, ℕ, ◌+◌, ◌≤◌, ◌<◌, ◌≡◌, refl, sym, ap, ◌∙◌, ◌↔◌, ◌⊎◌, inl, inr, Bool, true, false,
  none, some, arith, List, [], ◌∷◌,
}
use caffeine.Prelude.{length, get_elem?, set, ◌++◌, length-set, get_elem?-set_ne, get_elem?-lt}
use caffeine.Adt.SetTrie.{Node, endpoint, find, emplace_edge}
use caffeine.Adt.SetTrie.Words.{leads}
use caffeine.Adt.SetTrie.Spec.{
  replaced, replaced-nil, replaced_same, replaced_other, replaced-false,
}
use caffeine.Adt.SetTrie.Lookup.{Leaves, IsTree, edge-find, leads-nil, leads-none}
use caffeine.Adt.SetTrie.Redirect.{
  Redirected, Apart, Suffix, Suffix_longer, set-IsTree, set-Redirected, find-emplace_edge,
  leads-changed, leads-Apart,
}
use caffeine.Adt.SetTrie.Grow.{Grown, leads-Extends}

module _ {ℓ} {A : Type ℓ} (same : A → A → Bool)
    (same-eq : (a b : A) → (same a b ≡ true) ↔ (a ≡ b)) where
  -- What insert_at leaves: `q` is a word below node `i`, and the change is below the node labelled `m`.
  pub record Inserted (label : ℕ → List A) (ns : List (Node A)) (i : ℕ) (q m : List A)
      (label' : ℕ → List A) (ns' : List (Node A)) : Type ℓ where
    pub tree : IsTree label' ns'
    pub longer : length ns ≤ length ns'
    pub grown : length ns' ≤ length ns + length q
    pub labels : (j : ℕ) → j < length ns → label' j ≡ label j
    pub below : Suffix (label i) m
    pub above : (j : ℕ) → j < i → get_elem? ns' j ≡ get_elem? ns j
    pub words : (w : List A) → leads same ns' i w ≡ replaced same q w (leads same ns i w)
    pub others :
        (j : ℕ) (w : List A)
        → (j ≡ endpoint) ⊎ ((j < length ns) × ¬ Suffix (label j) m)
        → leads same ns' j w ≡ leads same ns j w

  module _ (label : ℕ → List A) (ns : List (Node A)) (t : IsTree label ns) (i : ℕ) (n : Node A)
      (got : get_elem? ns i ≡ some n) (x : A) where
    -- A child of a node is not above it.
    Leaves-Apart :
        (lab : ℕ → List A) (l : List (Node A)) (h : ℕ) (y : A) (j : ℕ)
        → Leaves lab (length l) h (y, j)
        → (j ≡ endpoint) ⊎ ((j < length l) × ¬ Suffix (lab j) (lab h))
    Leaves-Apart lab l h y j (inl e) = inl e
    Leaves-Apart lab l h y j (inr (_, lt, lk)) =
        inr (lt, λ (r, e). Suffix_longer y (lab h) (r, e ∙ ap (λ z. r ++ z) lk))

    Apart-within :
        (j : ℕ)
        → (j ≡ endpoint) ⊎ ((j < length ns) × ¬ Suffix (label j) (label i))
        → (j ≡ endpoint) ⊎ (j < length ns)
    Apart-within j (inl e) = inl e
    Apart-within j (inr (lt, _)) = inr lt

    pub within : i < length ns
    within = get_elem?-lt ns i got

    -- The element is new at the node: a chain is added below it.
    module _ (q : List A) (missing : find same x n.next ≡ none) (k : ℕ) (label2 : ℕ → List A)
        (ns2 : List (Node A)) (g : Grown same same-eq label ns (x ∷ label i) q k label2 ns2) where
      pub got2 : get_elem? ns2 i ≡ some n
      got2 = g.extends.nodes i within ∙ got

      unfoldable pub added : List (Node A)
      added = set ns2 i (record { next = emplace_edge same x k n.next })

      still_apart :
          (j : ℕ)
          → (j ≡ endpoint) ⊎ ((j < length ns) × ¬ Suffix (label j) (label i))
          → (j ≡ endpoint) ⊎ ((j < length ns2) × ¬ Suffix (label2 j) (label2 i))
      still_apart j (inl e) = inl e
      still_apart j (inr (lt, a)) =
          let longer = g.extends.longer in
          inr (
            omega arith,
            λ (r, e).
                a (
                  r,
                  sym (g.extends.labels i within) ∙ e ∙ ap (λ z. r ++ z) (g.extends.labels j lt),
                ),
          )

      within2 : i < length ns2
      within2 = get_elem?-lt ns2 i got2

      length-added : length added ≡ length ns2
      unfolding added
      length-added = length-set ns2 i (record { next = emplace_edge same x k n.next })

      leaves : Leaves label2 (length ns2) i (x, k)
      leaves = elim g.root [
        | inl e ↦ inl e
        | inr (ge, lt, lk) ↦
            inr (omega (arith, within), lt, lk ∙ ap (◌∷◌ x) (sym (g.extends.labels i within)))
      ]

      moved : Redirected same same-eq ns2 added i x k
      unfolding added
      moved =
          set-Redirected same same-eq ns2 i n x k (emplace_edge same x k n.next) got2
            (λ y. find-emplace_edge same same-eq x y k n.next missing)

      apart : Apart same same-eq label2 ns2 added g.tree i k x moved within2 k
      apart = Leaves-Apart label2 ns2 i x k leaves

      add-words : (w : List A) → leads same added i w ≡ replaced same (x ∷ q) w (leads same ns i w)
      add-words [] =
          leads-nil same same-eq added i
          ∙ sym (leads-nil same same-eq ns i)
          ∙ sym (replaced-nil same x q (leads same ns i []))
      add-words (y ∷ w) =
          leads-changed same same-eq label2 ns2 added g.tree i k x moved within2 y w
          ∙ elim (Bool-cases (same x y)) [
            | inl e ↦
                let none_before : leads same ns i (y ∷ w) ≡ false =
                  leads-none same same-eq ns i y w (
                    edge-find same same-eq ns i n y got
                    ∙ ap (λ v. find same v n.next) (sym ((same-eq x y).0 e))
                    ∙ missing) in
                rw e (
                  leads-Apart same same-eq label2 ns2 added g.tree i k x moved within2 k w apart
                  ∙ g.spells w)
                ∙ sym (replaced-false same q w)
                ∙ sym (replaced_same same x y q w false e)
                ∙ ap (λ b. replaced same (x ∷ q) (y ∷ w) b) (sym none_before)
            | inr e ↦
                rw e (
                  leads-Extends same same-eq label label2 ns ns2 t g.extends g.tree.fits i (y ∷ w)
                    (inr within))
                ∙ sym (replaced_other same x y q w (leads same ns i (y ∷ w)) e)
          ]

      pub add-Inserted : Inserted label ns i (x ∷ q) (label i) label2 added
      unfolding emplace_edge
      add-Inserted = record {
        tree =
            unfold added in
            set-IsTree label2 ns2 g.tree i (emplace_edge same x k n.next)
              (rw (missing, emplace_edge) (leaves, g.tree.edges i n got2));
        longer = let longer = g.extends.longer in omega (arith, length-added);
        grown = let grew = g.grown in omega (arith, length-added);
        labels = g.extends.labels;
        below = ([], refl);
        above = λ j h.
            unfold added in
            get_elem?-set_ne ns2 i j (record { next = emplace_edge same x k n.next })
              (λ e. omega arith)
            ∙ g.extends.nodes j (omega (arith, within));
        words = add-words;
        others = λ j w h.
            leads-Apart same same-eq label2 ns2 added g.tree i k x moved within2 j w
              (still_apart j h)
            ∙ leads-Extends same same-eq label label2 ns ns2 t g.extends g.tree.fits j w
                (Apart-within j h);
      }
      -- The last element is there: its edge is cut to the endpoint.
