-- ===== src/Adt/SetTrie/Grow.antt =====
-- SetTrie.h: insert_new builds a chain of new nodes for a word, and leaves the old nodes alone.
use caffeine.Prelude.{
  ◌==◌, if◌then◌else◌, ==_refl, Bool-cases, done, ℕ, ◌+◌, ◌≤◌, ◌<◌, ◌≡◌, refl, sym, ap, ◌∙◌, subst,
  ◌↔◌, ◌⊎◌, inl, inr, Bool, true, false, some, arith, List, [], ◌∷◌,
}
use caffeine.Prelude.{
  length, get_elem?, set, ◌++◌, All, length-set, length-append, get_elem?-set_ne, get_elem?-lt,
  get_elem?-none, get_elem?-append_self, get_elem?-append_lt, get_elem?-append_ne, ℕ_discrete,
}
use caffeine.Adt.SparseVector.{of_list}
use caffeine.Adt.SetTrie.{Node, endpoint, find, emplace_edge, new_node, insert_new}
use caffeine.Adt.SetTrie.Words.{edge, leads, equal}
use caffeine.Adt.SetTrie.Nodes.{emplace-of_list, modify-of_list}
use caffeine.Adt.SetTrie.Lookup.{
  some-injective, Leaves, IsTree, edge-some, edge-find, edge_missing, leads-nil, leads-cong,
  leads-none,
}
use caffeine.Adt.SetTrie.Redirect.{
  Redirected, Apart, Suffix_longer, set-IsTree, set-Redirected, find-emplace_edge, leads-changed,
  leads-Apart,
}

module _ {ℓ} {A : Type ℓ} where
  -- The old nodes of a trie are where they were, with their labels.
  pub record Extends (label label' : ℕ → List A) (ns ns' : List (Node A)) : Type ℓ where
    pub longer : length ns ≤ length ns'
    pub nodes : (i : ℕ) → i < length ns → get_elem? ns' i ≡ get_elem? ns i
    pub labels : (i : ℕ) → i < length ns → label' i ≡ label i

  Leaves-relabel :
      (label label' : ℕ → List A) (len len' i : ℕ) (es : List (A × ℕ))
      → len ≤ len'
      → i < len
      → ((j : ℕ) → j < len → label' j ≡ label j)
      → All (Leaves label len i) es
      → All (Leaves label' len' i) es
  Leaves-relabel label label' len len' i [] le lt h a = a
  Leaves-relabel label label' len len' i ((x, j) ∷ es) le lt h (inl e, a) =
      (inl e, Leaves-relabel label label' len len' i es le lt h a)
  Leaves-relabel label label' len len' i ((x, j) ∷ es) le lt h (inr (up, within, l), a) = (
    inr (up, omega arith, h j within ∙ l ∙ ap (◌∷◌ x) (sym (h i lt))),
    Leaves-relabel label label' len len' i es le lt h a,
  )

  -- The next node gets the label `l`.
  abbrev pub labelled : (ℕ → List A) → ℕ → List A → ℕ → List A
  labelled label k l i = if i == k then l else label i

  pub labelled_self : (label : ℕ → List A) (k : ℕ) (l : List A) → labelled label k l k ≡ l
  labelled_self label k l = rw (==_refl k) refl

  pub labelled_lt :
      (label : ℕ → List A) (k : ℕ) (l : List A) (i : ℕ) → i < k → labelled label k l i ≡ label i
  labelled_lt label k l i h = let other : (i == k) ≡ false = ground arith in rw other refl

  pub add_node-IsTree :
      (label : ℕ → List A) (ns : List (Node A)) (l : List A)
      → IsTree label ns
      → length ns < endpoint
      → IsTree (labelled label (length ns) l) (ns ++ new_node ∷ [])
  add_node-IsTree label ns l t h = record {
    fits = omega (arith, length-append ns (new_node ∷ []));
    edges = λ i n e. elim (ℕ_discrete i (length ns)) [
      | yes p ↦
          let new : n ≡ new_node =
            some-injective (
              sym e ∙ ap (get_elem? (ns ++ new_node ∷ [])) p ∙ get_elem?-append_self ns new_node) in
          subst
            (λ (m : Node A).
              All (Leaves (labelled label (length ns) l) (length (ns ++ new_node {A = A} ∷ [])) i)
                m.next)
            (sym new) tt
      | no p ↦
          let e' = sym (get_elem?-append_ne ns new_node i p) ∙ e in
          let lt = get_elem?-lt ns i e' in
          Leaves-relabel label (labelled label (length ns) l) (length ns) _ i n.next
            (omega (arith, length-append ns (new_node ∷ []))) lt
            (λ j. labelled_lt label (length ns) l j) (t.edges i n e')
    ];
  }

module _ {ℓ} {A : Type ℓ} (same : A → A → Bool) where
  pub edge-cong :
      (ns ns' : List (Node A)) (i : ℕ) (y : A)
      → get_elem? ns' i ≡ get_elem? ns i
      → edge same ns' i y ≡ edge same ns i y
  unfolding edge
  edge-cong ns ns' i y e = rw (e, edge) refl

module _ {ℓ} {A : Type ℓ} (same : A → A → Bool)
    (same-eq : (a b : A) → (same a b ≡ true) ↔ (a ≡ b)) where
  -- The words below an old node use old nodes only.
  pub leads-Extends :
      (label label' : ℕ → List A) (ns ns' : List (Node A))
      → IsTree label ns
      → Extends label label' ns ns'
      → length ns' ≤ endpoint
      → (i : ℕ) (w : List A) → (i ≡ endpoint) ⊎ (i < length ns)
      → leads same ns' i w ≡ leads same ns i w
  leads-Extends label label' ns ns' t x fits i [] h =
      leads-nil same same-eq ns' i ∙ sym (leads-nil same same-eq ns i)
  leads-Extends label label' ns ns' t x fits i (y ∷ w) h =
      leads-cong same same-eq ns ns' i y w (kept h) (λ j e.
        leads-Extends label label' ns ns' t x fits j w
          (next j (edge-some same same-eq label ns t i y j e)))
    where
      kept : (i ≡ endpoint) ⊎ (i < length ns) → edge same ns' i y ≡ edge same ns i y
      kept (inl e) =
          let longer = x.longer in
          edge_missing same same-eq ns' i y (get_elem?-none ns' i (omega arith))
          ∙ sym (edge_missing same same-eq ns i y (get_elem?-none ns i (omega arith)))
      kept (inr lt) = edge-cong same ns ns' i y (x.nodes i lt)

      next : (j : ℕ) → Leaves label (length ns) i (y, j) → (j ≡ endpoint) ⊎ (j < length ns)
      next j (inl e) = inl e
      next j (inr (_, within, _)) = inr within

  -- What insert_new leaves: a chain that spells the word, from a node labelled `l` on.
  pub record Grown (label : ℕ → List A) (ns : List (Node A)) (l q : List A) (k : ℕ)
      (label' : ℕ → List A) (ns' : List (Node A)) : Type ℓ where
    pub tree : IsTree label' ns'
    pub extends : Extends label label' ns ns'
    pub root : (k ≡ endpoint) ⊎ ((length ns ≤ k) × (k < length ns') × (label' k ≡ l))
    pub grown : length ns' ≤ length ns + length q
    pub spells : (w : List A) → leads same ns' k w ≡ equal same q w

  pub leads-endpoint :
      (label : ℕ → List A) (ns : List (Node A))
      → IsTree label ns
      → (w : List A) → leads same ns endpoint w ≡ equal same [] w
  unfolding equal
  leads-endpoint label ns t [] = leads-nil same same-eq ns endpoint
  leads-endpoint label ns t (y ∷ w) =
      leads-none same same-eq ns endpoint y w
        (edge_missing same same-eq ns endpoint y (get_elem?-none ns endpoint t.fits))

  module _ (label : ℕ → List A) (ns : List (Node A)) (l : List A) (t : IsTree label ns) (x : A)
      (q : List A) (below : length ns < endpoint) (k : ℕ) (label2 : ℕ → List A)
      (ns2 : List (Node A))
      (g : Grown (labelled label (length ns) l) (ns ++ new_node ∷ []) (x ∷ l) q k label2 ns2) where
    len1 : length (ns ++ new_node {A = A} ∷ []) ≡ length ns + 1
    len1 = length-append ns (new_node ∷ [])

    found : get_elem? ns2 (length ns) ≡ some new_node
    found = g.extends.nodes (length ns) (omega (arith, len1)) ∙ get_elem?-append_self ns new_node

    label_new : label2 (length ns) ≡ l
    label_new =
        g.extends.labels (length ns) (omega (arith, len1)) ∙ labelled_self label (length ns) l

    leaves : Leaves label2 (length ns2) (length ns) (x, k)
    leaves = elim g.root [
      | inl e ↦ inl e
      | inr (ge, lt, lk) ↦ inr (omega (arith, len1), lt, lk ∙ ap (◌∷◌ x) (sym label_new))
    ]

    -- The node, linked to the chain below it.
    linked : List (Node A)
    linked = set ns2 (length ns) (record { next = emplace_edge same x k [] })

    redirected : Redirected same same-eq ns2 linked (length ns) x k
    unfolding linked
    redirected =
        set-Redirected same same-eq ns2 (length ns) new_node x k (emplace_edge same x k []) found
          (λ y. find-emplace_edge same same-eq x y k [] (unfold find in refl))

    within : length ns < length ns2
    within = get_elem?-lt ns2 (length ns) found

    below_new : Apart same same-eq label2 ns2 linked g.tree (length ns) k x redirected within k
    below_new = elim leaves [
      | inl e ↦ inl e
      | inr (_, lt, lk) ↦
          inr (lt, λ (r, e). Suffix_longer x (label2 (length ns)) (r, e ∙ ap (λ z. r ++ z) lk))
    ]

    length-linked : length linked ≡ length ns2
    unfolding linked
    length-linked = length-set ns2 (length ns) (record { next = emplace_edge same x k [] })

    linked-leads : (w : List A) → leads same linked (length ns) w ≡ equal same (x ∷ q) w
    unfolding equal
    linked-leads [] = leads-nil same same-eq linked (length ns) ∙ ground arith
    linked-leads (y ∷ w) =
        leads-changed same same-eq label2 ns2 linked g.tree (length ns) k x redirected within y w
        ∙ elim (Bool-cases (same x y)) [
          | inl e ↦ rw e (
              leads-Apart same same-eq label2 ns2 linked g.tree (length ns) k x redirected within k
                w below_new
              ∙ g.spells w)
          | inr e ↦ rw e (
              leads-none same same-eq ns2 (length ns) y w
                (edge-find same same-eq ns2 (length ns) new_node y found ∙ unfold find in refl))
        ]

    link-Grown : Grown label ns l (x ∷ q) (length ns) label2 linked
    link-Grown = record {
      tree =
          unfold linked in
          set-IsTree label2 ns2 g.tree (length ns) (emplace_edge same x k [])
            (unfold emplace_edge find in (leaves, tt));
      extends = record {
        longer = omega (arith, length-linked, within);
        nodes = λ i h.
            unfold linked in
            get_elem?-set_ne ns2 (length ns) i (record { next = emplace_edge same x k [] })
              (λ e. omega arith)
            ∙ g.extends.nodes i (omega (arith, len1))
            ∙ get_elem?-append_lt ns (new_node ∷ []) i h;
        labels =
            λ i h. g.extends.labels i (omega (arith, len1)) ∙ labelled_lt label (length ns) l i h;
      };
      root = inr (omega arith, omega (arith, length-linked, within), label_new);
      grown = let grew = g.grown in omega (arith, length-linked, len1);
      spells = linked-leads;
    }

  pub insert_new-Grown :
      (label : ℕ → List A) (ns : List (Node A)) (l q : List A)
      → IsTree label ns
      → length ns + length q ≤ endpoint
      → (k : ℕ) × (label' : ℕ → List A) × (ns' : List (Node A)) × (insert_new same (of_list ns) q
          ≡ done (k, of_list ns'))
        × Grown label ns l q k label' ns'
  unfolding insert_new linked
  insert_new-Grown label ns l [] t fits = (
    endpoint,
    label,
    ns,
    refl,
    record {
      tree = t;
      extends = record { longer = omega arith; nodes = λ i h. refl; labels = λ i h. refl };
      root = inl refl;
      grown = omega arith;
      spells = leads-endpoint label ns t;
    },
  )
  insert_new-Grown label ns l (x ∷ q) t fits =
      let n0 = length ns in
      let label1 = labelled label n0 l in
      let ns1 = ns ++ new_node ∷ [] in
      let len1 : length ns1 ≡ n0 + 1 = length-append ns (new_node ∷ []) in
      let t1 = add_node-IsTree label ns l t (omega arith) in
      let (k, label2, ns2, ran, g) = insert_new-Grown label1 ns1 (x ∷ l) q t1 (omega arith) in
      (
        n0,
        label2,
        set ns2 n0 (record { next = emplace_edge same x k [] }),
        rw
            (
              emplace-of_list ns new_node,
              ran,
              modify-of_list ns2 n0 new_node (emplace_edge same x k)
                  (found label ns l t x q (omega arith) k label2 ns2 g),
            )
            refl,
        link-Grown label ns l t x q (omega arith) k label2 ns2 g,
      )
