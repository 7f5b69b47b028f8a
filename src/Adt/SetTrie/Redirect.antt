-- ===== src/Adt/SetTrie/Redirect.antt =====
-- SetTrie.h: an edge of one node is added or changed, and the words below the other nodes stay.
use caffeine.Prelude.{
  ◌==◌, if◌then◌else◌, ==_refl, Bool-cases, ℕ, ◌<◌, ◌≡◌, refl, sym, ap, ◌∙◌, subst, ◌↔◌, ◌⊎◌, inl,
  inr, Bool, true, false, ◌&&◌, none, some, arith, List, [], ◌∷◌,
}
use caffeine.Prelude.{
  ℕ_discrete, length, get_elem?, set, ◌++◌, All, length-set, length-append, get_elem?-set_self,
  get_elem?-set_ne, get_elem?-lt,
}
use caffeine.Adt.SetTrie.{Node, endpoint, find, emplace_edge, assign}
use caffeine.Adt.SetTrie.Words.{edge, leads}
use caffeine.Adt.SetTrie.Lookup.{
  some-injective, Leaves, IsTree, edge-some, leads-nil, leads-cong, leads-some,
}

module _ {ℓ} {A : Type ℓ} where
  abbrev pub Suffix : List A → List A → Type ℓ
  Suffix l m = (r : List A) × (m ≡ r ++ l)

  pub Suffix_tail : (x : A) (l m : List A) → Suffix (x ∷ l) m → Suffix l m
  Suffix_tail x l m (r, e) = (r ++ x ∷ [], e ∙ regroup r)
    where
      regroup : (r : List A) → r ++ x ∷ l ≡ (r ++ x ∷ []) ++ l
      regroup [] = refl
      regroup (y ∷ r) = ap (◌∷◌ y) (regroup r)

  pub Suffix_longer : (x : A) (l : List A) → Suffix (x ∷ l) l → ⊥
  Suffix_longer x l (r, e) = omega (arith, ap length e, length-append r (x ∷ l))

  pub Suffix_unique : (x y : A) (l m : List A) → Suffix (x ∷ l) m → Suffix (y ∷ l) m → x ≡ y
  Suffix_unique x y l m (r, e) (r', e') = heads r r' (sym e ∙ e')
    where
      heads : (r r' : List A) → r ++ x ∷ l ≡ r' ++ y ∷ l → x ≡ y
      heads [] [] e = cc
      heads [] (z ∷ r') e = absurd (omega (arith, ap length e, length-append r' (y ∷ l)))
      heads (z ∷ r) [] e = absurd (omega (arith, ap length e, length-append r (x ∷ l)))
      heads (z ∷ r) (z' ∷ r') e = heads r r' (cc)

  module _ (label : ℕ → List A) (ns : List (Node A)) (t : IsTree label ns) where
    pub set-IsTree :
        (m : ℕ) (es : List (A × ℕ))
        → All (Leaves label (length ns) m) es
        → IsTree label (set ns m (record { next = es }))
    set-IsTree m es a = record {
      fits = rw (length-set ns m (record { next = es })) t.fits;
      edges = λ i n e. rw (length-set ns m (record { next = es })) elim (ℕ_discrete i m) [
        | yes p ↦
            let lt : m < length ns = omega (
              arith,
              get_elem?-lt (set ns m (record { next = es })) i e,
              length-set ns m (record { next = es }),
            ) in
            let node : n ≡ record { next = es } = some-injective (
              sym e
              ∙ ap (get_elem? (set ns m (record { next = es }))) p
              ∙ get_elem?-set_self ns m (record { next = es }) lt) in
            subst (λ k. All (Leaves label (length ns) k) n.next) (sym p)
              (subst (λ n'. All (Leaves label (length ns) m) n'.next) (sym node) a)
        | no p ↦
            t.edges i n (sym (get_elem?-set_ne ns m i (record { next = es }) (λ q. p (sym q))) ∙ e)
      ];
    }

  module _ (same : A → A → Bool) (same-eq : (a b : A) → (same a b ≡ true) ↔ (a ≡ b)) where
    -- One edge of node `m` goes to `k`, and every other edge is as it was.
    abbrev pub Redirected : List (Node A) → List (Node A) → ℕ → A → ℕ → Type ℓ
    Redirected ns ns' m x k =
        (i : ℕ) (y : A)
        → edge same ns' i y ≡ (if i == m && same x y then some k else edge same ns i y)

    pub find-emplace_edge :
        (x y : A) (k : ℕ) (es : List (A × ℕ))
        → find same x es ≡ none
        → find same y (emplace_edge same x k es) ≡ (if same x y then some k else find same y es)
    unfolding find emplace_edge
    find-emplace_edge x y k es e = rw (e, emplace_edge) refl

    pub find-assign :
        (x y : A) (k j : ℕ) (es : List (A × ℕ))
        → find same x es ≡ some j
        → find same y (assign same x k es) ≡ (if same x y then some k else find same y es)
    unfolding find assign
    find-assign x y k j [] e = cc
    find-assign x y k j ((z, l) ∷ es) e = elim (Bool-cases (same z x)) [
      | inl p ↦
          let zy : same z y ≡ same x y = ap (λ w. same w y) ((same-eq z x).0 p) in
          rw (p, zy) (elim (Bool-cases (same x y)) [ inl q ↦ rw q refl | inr q ↦ rw q refl ])
      | inr p ↦
          let rest = find-assign x y k j es (rw p at e) in
          elim (Bool-cases (same z y)) [
            | inl q ↦
                let xy : same x y ≡ false = elim (Bool-cases (same x y)) [
                  | inl r ↦ cc ((same-eq z x).1 ((same-eq z y).0 q ∙ sym ((same-eq x y).0 r)))
                  | inr r ↦ r
                ] in
                rw (p, q, xy) refl
            | inr q ↦ rw (p, q) rest
          ]
    ]

    pub set-Redirected :
        (ns : List (Node A)) (m : ℕ) (n : Node A) (x : A) (k : ℕ) (es : List (A × ℕ))
        → get_elem? ns m ≡ some n
        → ((y : A) → find same y es ≡ (if same x y then some k else find same y n.next))
        → Redirected ns (set ns m (record { next = es })) m x k
    unfolding edge
    set-Redirected ns m n x k es e h i y = elim (ℕ_discrete i m) [
      | yes p ↦
          let here : (i == m) ≡ true = ground arith in
          let at_m : get_elem? (set ns m (record { next = es })) i ≡ some (record { next = es }) =
            ap (get_elem? (set ns m (record { next = es }))) p
            ∙ get_elem?-set_self ns m (record { next = es }) (get_elem?-lt ns m e) in
          let was : get_elem? ns i ≡ some n = ap (get_elem? ns) p ∙ e in
          rw (here, at_m, was, edge) (h y)
      | no p ↦
          let elsewhere : (i == m) ≡ false = ground arith in
          rw (elsewhere, edge, get_elem?-set_ne ns m i (record { next = es }) (λ q. p (sym q))) refl
    ]

    module _ (label : ℕ → List A) (ns ns' : List (Node A)) (t : IsTree label ns) (m k : ℕ) (x : A)
        (moved : Redirected ns ns' m x k) (lt : m < length ns) where
      -- The edges of an old node or of the endpoint.
      abbrev pub Apart : ℕ → Type ℓ
      Apart i = (i ≡ endpoint) ⊎ ((i < length ns) × ¬ Suffix (label i) (label m))

      apart : (i : ℕ) → Apart i → i ≡ m → ⊥
      apart i (inl e) p = let fits = t.fits in omega arith
      apart i (inr (_, not_above)) p = not_above ([], ap label (sym p))

      kept : (i : ℕ) (y : A) → Apart i → edge same ns' i y ≡ edge same ns i y
      kept i y a = elim (ℕ_discrete i m) [
        | yes p ↦ absurd (apart i a p)
        | no p ↦ let elsewhere : (i == m) ≡ false = ground arith in moved i y ∙ rw elsewhere refl
      ]

      below : (i : ℕ) (y : A) (j : ℕ) → Apart i → Leaves label (length ns) i (y, j) → Apart j
      below i y j a (inl e) = inl e
      below i y j (inl e) (inr (up, within, _)) = let fits = t.fits in absurd (omega arith)
      below i y j (inr (_, not_above)) (inr (up, within, l)) = inr (
        within,
        λ (r, e). not_above (Suffix_tail y (label i) (label m) (r, e ∙ ap (λ z. r ++ z) l)),
      )

      child : (j : ℕ) (y : A) → Leaves label (length ns) m (y, j) → Apart j
      child j y (inl e) = inl e
      child j y (inr (up, within, l)) =
          inr (within, λ (r, e). Suffix_longer y (label m) (r, e ∙ ap (λ z. r ++ z) l))

      -- Words below a node that is not above the changed one.
      pub leads-Apart : (i : ℕ) (w : List A) → Apart i → leads same ns' i w ≡ leads same ns i w
      leads-Apart i [] a = leads-nil same same-eq ns' i ∙ sym (leads-nil same same-eq ns i)
      leads-Apart i (y ∷ w) a =
          leads-cong same same-eq ns ns' i y w (kept i y a)
            (λ j e. leads-Apart j w (below i y j a (edge-some same same-eq label ns t i y j e)))

      -- Words below the changed node: those that start with the edge's element go on from `k`.
      pub leads-changed :
          (y : A) (w : List A)
          → leads same ns' m (y ∷ w)
            ≡ (if same x y then leads same ns' k w else leads same ns m (y ∷ w))
      leads-changed y w = elim (Bool-cases (same x y)) [
        | inl e ↦ rw e (leads-some same same-eq ns' m k y w (moved m y ∙ rw (==_refl m, e) refl))
        | inr e ↦
            let stays : edge same ns' m y ≡ edge same ns m y = moved m y ∙ rw (==_refl m, e) refl in
            rw e (
              leads-cong same same-eq ns ns' m y w stays
                (λ j f. leads-Apart j w (child j y (edge-some same same-eq label ns t m y j f))))
      ]
