-- ===== src/Adt/SetTrie/Followed.antt =====
-- SetTrie.h: insert_at where the node has an edge for the next element: it is cut short or followed.
use caffeine.Prelude.{
  ◌==◌, Bool-cases, ℕ, ◌<◌, ◌≡◌, refl, sym, ap, ◌∙◌, subst, ◌↔◌, ◌⊎◌, inl, inr, Bool, true, false,
  some, arith, List, [], ◌∷◌,
}
use caffeine.Prelude.{length, get_elem?, set, length-set, get_elem?-set_ne, get_elem?-lt}
use caffeine.Adt.SetTrie.{Node, endpoint, find, assign}
use caffeine.Adt.SetTrie.Words.{edge, leads}
use caffeine.Adt.SetTrie.Spec.{
  replaced, replaced-nil, replaced_same, replaced_other, replaced_by_nil,
}
use caffeine.Adt.SetTrie.Lookup.{
  Leaves, IsTree, find-All, edge-some, edge-find, leads-nil, leads-some, leads-cong,
}
use caffeine.Adt.SetTrie.Redirect.{
  Redirected, Suffix, Suffix_tail, Suffix_unique, set-IsTree, set-Redirected, find-assign,
  leads-changed, leads-Apart,
}
use caffeine.Adt.SetTrie.Grow.{leads-endpoint, edge-cong}
use caffeine.Adt.SetTrie.Added.{Inserted}
use caffeine.Adt.SetTrie.Removal.{assign-All}

module _ {ℓ} {A : Type ℓ} (same : A → A → Bool)
    (same-eq : (a b : A) → (same a b ≡ true) ↔ (a ≡ b)) where
  module _ (label : ℕ → List A) (ns : List (Node A)) (t : IsTree label ns) (i : ℕ) (n : Node A)
      (got : get_elem? ns i ≡ some n) (x : A) where
    within : i < length ns
    within = get_elem?-lt ns i got

    module _ (j : ℕ) (found : find same x n.next ≡ some j) where
      unfoldable pub cut : List (Node A)
      cut = set ns i (record { next = assign same x endpoint n.next })

      length-cut : length cut ≡ length ns
      unfolding cut
      length-cut = length-set ns i (record { next = assign same x endpoint n.next })

      cut_edge : Redirected same same-eq ns cut i x endpoint
      unfolding cut
      cut_edge =
          set-Redirected same same-eq ns i n x endpoint (assign same x endpoint n.next) got
            (λ y. find-assign same same-eq x y endpoint j n.next found)

      cut-IsTree : IsTree label cut
      unfolding cut
      cut-IsTree = set-IsTree label ns t i (assign same x endpoint n.next) (
          assign-All same same-eq (Leaves label (length ns) i) x endpoint n.next (λ y. inl refl)
            (t.edges i n got))

      cut-words : (w : List A) → leads same cut i w ≡ replaced same (x ∷ []) w (leads same ns i w)
      cut-words [] =
          leads-nil same same-eq cut i
          ∙ sym (leads-nil same same-eq ns i)
          ∙ sym (replaced-nil same x [] (leads same ns i []))
      cut-words (y ∷ w) =
          leads-changed same same-eq label ns cut t i endpoint x cut_edge within y w
          ∙ elim (Bool-cases (same x y)) [
            | inl e ↦
                rw e (leads-endpoint same same-eq label cut cut-IsTree w)
                ∙ sym (
                    replaced_same same x y [] w (leads same ns i (y ∷ w)) e
                    ∙ replaced_by_nil same w (leads same ns i (y ∷ w)))
            | inr e ↦ rw e (sym (replaced_other same x y [] w (leads same ns i (y ∷ w)) e))
          ]

      pub cut-Inserted : Inserted same same-eq label ns i (x ∷ []) (label i) label cut
      cut-Inserted = record {
        tree = cut-IsTree;
        longer = omega (arith, length-cut);
        grown = omega (arith, length-cut);
        labels = λ j h. refl;
        below = ([], refl);
        above = λ h lt.
            unfold cut in
            get_elem?-set_ne ns i h (record { next = assign same x endpoint n.next })
              (λ e. omega arith);
        words = cut-words;
        others =
            λ h w a. leads-Apart same same-eq label ns cut t i endpoint x cut_edge within h w a;
      }

    -- Otherwise the edge is followed.
    module _ (j : ℕ) (found : find same x n.next ≡ some j) (goes : (j == endpoint) ≡ false) (z : A)
        (q m : List A) (label' : ℕ → List A) (ns' : List (Node A))
        (r : Inserted same same-eq label ns j (z ∷ q) m label' ns') where
      child : (i < j) × (j < length ns) × (label j ≡ x ∷ label i)
      child = elim (find-All same same-eq label (length ns) i x j n.next (t.edges i n got) found) [
        | inl e ↦ absurd (ground arith)
        | inr c ↦ c
      ]

      below_child : Suffix (x ∷ label i) m
      below_child = subst (λ l. Suffix l m) child.2 r.below

      other_child :
          (y : A) (c : ℕ)
          → same x y ≡ false
          → Leaves label (length ns) i (y, c)
          → (c ≡ endpoint) ⊎ ((c < length ns) × ¬ Suffix (label c) m)
      other_child y c e (inl p) = inl p
      other_child y c e (inr (_, lt, lk)) = inr (
        lt,
        λ s. cc (
            (same-eq x y).1
              (Suffix_unique x y (label i) m below_child (subst (λ l. Suffix l m) lk s))),
      )

      below-words :
          (w : List A) → leads same ns' i w ≡ replaced same (x ∷ z ∷ q) w (leads same ns i w)
      below-words [] =
          leads-nil same same-eq ns' i
          ∙ sym (leads-nil same same-eq ns i)
          ∙ sym (replaced-nil same x (z ∷ q) (leads same ns i []))
      below-words (y ∷ w) =
          let kept = edge-cong same ns ns' i y (r.above i child.0) in
          elim (Bool-cases (same x y)) [
            | inl e ↦
                let edge_is : edge same ns i y ≡ some j =
                  edge-find same same-eq ns i n y got
                  ∙ ap (λ v. find same v n.next) (sym ((same-eq x y).0 e))
                  ∙ found in
                leads-some same same-eq ns' i j y w (kept ∙ edge_is)
                ∙ r.words w
                ∙ ap (λ b. replaced same (z ∷ q) w b)
                    (sym (leads-some same same-eq ns i j y w edge_is))
                ∙ sym (replaced_same same x y (z ∷ q) w (leads same ns i (y ∷ w)) e)
            | inr e ↦
                leads-cong same same-eq ns ns' i y w kept (λ c f.
                  r.others c w (other_child y c e (edge-some same same-eq label ns t i y c f)))
                ∙ sym (replaced_other same x y (z ∷ q) w (leads same ns i (y ∷ w)) e)
          ]

      pub below-Inserted : Inserted same same-eq label ns i (x ∷ z ∷ q) m label' ns'
      below-Inserted = record {
        tree = r.tree;
        longer = r.longer;
        grown = let grew = r.grown in omega arith;
        labels = r.labels;
        below = Suffix_tail x (label i) m below_child;
        above = λ h lt. r.above h (omega (arith, child));
        words = below-words;
        others = r.others;
      }
