-- ===== src/Adt/SetTrie/Lookup.antt =====
-- SetTrie.h: contains_subset decides whether a word of the trie is a subsequence of the query.
use caffeine.Prelude.{
  ◌==◌, if◌then◌else◌, Bool-cases, Option-cases, Outcome, done, ◌>>=◌, ℕ, ◌≤◌, ◌<◌, ◌≡◌, refl, sym,
  ap, ◌∙◌, subst, ◌≢◌, ◌↔◌, ◌⊎◌, inl, inr, Bool, true, false, ◌||◌, Option, none, some, arith, List,
  [], ◌∷◌,
}
use caffeine.Prelude.{length, get_elem?, All, get_elem?-some, get_elem?-lt, get_elem?-none_ge}
use caffeine.Adt.SparseVector.{of_list, is_empty}
use caffeine.Adt.SetTrie.{Node, endpoint, find, enter, follow_from, contains_subset, empty, is_nil}
use caffeine.Adt.SetTrie.Words.{hits, hits-ext, hits_never, hits_nil, hits-nil, edge, leads}
use caffeine.Adt.SetTrie.Nodes.{index-of_list}

module _ {ℓ} {A : Type ℓ} where
  -- An edge of node `i`: it ends there, or it goes to a later node, whose label it extends.
  abbrev pub Leaves : (ℕ → List A) → ℕ → ℕ → A × ℕ → Type ℓ
  Leaves label len i (x, j) = (j ≡ endpoint) ⊎ ((i < j) × (j < len) × (label j ≡ x ∷ label i))

  -- The nodes form a tree: `label` gives the word from the root to a node, its last element first.
  pub record IsTree (label : ℕ → List A) (ns : List (Node A)) : Type ℓ where
    pub fits : length ns ≤ endpoint
    pub edges :
        (i : ℕ) (n : Node A) → get_elem? ns i ≡ some n → All (Leaves label (length ns) i) n.next

pub some-injective {ℓ} : {A : Type ℓ} {a b : A} → some a ≡ some b → a ≡ b
some-injective {A} {a} p = ap value p
  where
    value : Option A → A
    value (some x) = x
    value none = a

pub List-cases {ℓ} : {A : Type ℓ} (l : List A) → (l ≡ []) ⊎ ((x : A) × (xs : List A) × (l ≡ x ∷ xs))
List-cases [] = inl refl
List-cases (x ∷ xs) = inr (x, xs, refl)

module _ {ℓ} {A : Type ℓ} (same : A → A → Bool)
    (same-eq : (a b : A) → (same a b ≡ true) ↔ (a ≡ b)) where
  pub find-All :
      (label : ℕ → List A) (len i : ℕ) (x : A) (j : ℕ) (es : List (A × ℕ))
      → All (Leaves label len i) es
      → find same x es ≡ some j
      → Leaves label len i (x, j)
  unfolding find
  find-All label len i x j [] a e = cc
  find-All label len i x j ((y, k) ∷ es) (l, a) e = elim (Bool-cases (same y x)) [
    | inl t ↦
        subst (λ z. Leaves label len i (z, j)) ((same-eq y x).0 t)
          (subst (λ z. Leaves label len i (y, z)) (some-injective (rw t at e)) l)
    | inr f ↦ find-All label len i x j es a (rw f at e)
  ]

  pub edge-find :
      (ns : List (Node A)) (i : ℕ) (n : Node A) (x : A)
      → get_elem? ns i ≡ some n
      → edge same ns i x ≡ find same x n.next
  unfolding edge
  edge-find ns i n x e = rw (e, edge) refl

  pub edge_missing :
      (ns : List (Node A)) (i : ℕ) (x : A) → get_elem? ns i ≡ none → edge same ns i x ≡ none
  unfolding edge
  edge_missing ns i x e = rw (e, edge) refl

  pub leads-nil : (ns : List (Node A)) (i : ℕ) → leads same ns i [] ≡ (i == endpoint)
  unfolding leads
  leads-nil ns i = refl

  pub leads-none :
      (ns : List (Node A)) (i : ℕ) (x : A) (w : List A)
      → edge same ns i x ≡ none
      → leads same ns i (x ∷ w) ≡ false
  unfolding leads
  leads-none ns i x w e = rw (e, leads) refl

  pub leads-some :
      (ns : List (Node A)) (i j : ℕ) (x : A) (w : List A)
      → edge same ns i x ≡ some j
      → leads same ns i (x ∷ w) ≡ leads same ns j w
  unfolding leads
  leads-some ns i j x w e = rw (e, leads) refl

  pub leads-cong :
      (ns ns' : List (Node A)) (i : ℕ) (y : A) (w : List A)
      → edge same ns' i y ≡ edge same ns i y
      → ((j : ℕ) → edge same ns i y ≡ some j → leads same ns' j w ≡ leads same ns j w)
      → leads same ns' i (y ∷ w) ≡ leads same ns i (y ∷ w)
  leads-cong ns ns' i y w kept rest = elim (Option-cases (edge same ns i y)) [
    | inl e ↦ leads-none ns' i y w (kept ∙ e) ∙ sym (leads-none ns i y w e)
    | inr (j, e) ↦ leads-some ns' i j y w (kept ∙ e) ∙ rest j e ∙ sym (leads-some ns i j y w e)
  ]

  pub hits-none :
      (ns : List (Node A)) (i : ℕ) (x : A) (q : List A)
      → edge same ns i x ≡ none
      → hits (leads same ns i) (x ∷ q) ≡ hits (leads same ns i) q
  unfolding hits
  hits-none ns i x q e =
      ap (λ b. b || hits (leads same ns i) q)
        (hits-ext (λ w. leads same ns i (x ∷ w)) (λ _. false) q (λ w. leads-none ns i x w e)
          ∙ hits_never q)

  pub hits-some :
      (ns : List (Node A)) (i j : ℕ) (x : A) (q : List A)
      → edge same ns i x ≡ some j
      → hits (leads same ns i) (x ∷ q) ≡ hits (leads same ns j) q || hits (leads same ns i) q
  unfolding hits
  hits-some ns i j x q e =
      ap (λ b. b || hits (leads same ns i) q)
        (hits-ext (λ w. leads same ns i (x ∷ w)) (leads same ns j) q (λ w. leads-some ns i j x w e))

  module _ (label : ℕ → List A) (ns : List (Node A)) (t : IsTree label ns) where
    pub edge-Leaves :
        (i : ℕ) (n : Node A) (x : A) (j : ℕ)
        → get_elem? ns i ≡ some n
        → find same x n.next ≡ some j
        → Leaves label (length ns) i (x, j)
    edge-Leaves i n x j e f = find-All label (length ns) i x j n.next (t.edges i n e) f

    pub edge-some :
        (i : ℕ) (x : A) (j : ℕ) → edge same ns i x ≡ some j → Leaves label (length ns) i (x, j)
    edge-some i x j e = elim (Option-cases (get_elem? ns i)) [
      | inl f ↦ cc (edge_missing ns i x f)
      | inr (n, f) ↦ edge-Leaves i n x j f (sym (edge-find ns i n x f) ∙ e)
    ]

    pub enter-hits :
        (rest : Node A → Outcome Bool) (j : ℕ) (q : List A)
        → (j ≡ endpoint) ⊎ (j < length ns)
        → ((m : Node A) → get_elem? ns j ≡ some m → rest m ≡ done (hits (leads same ns j) q))
        → enter same rest (of_list ns) j ≡ done (hits (leads same ns j) q)
    unfolding enter leads
    enter-hits rest j q (inl e) h =
        let ends : (j == endpoint) ≡ true = ground arith in
        rw (ends, hits_nil (leads same ns j) q ends) refl
    enter-hits rest j q (inr lt) h =
        let (m, got) = get_elem?-some ns j lt in
        let fits = t.fits in
        let goes : (j == endpoint) ≡ false = ground arith in
        rw (goes, index-of_list ns j m got) (h m got)

    later : (i j : ℕ) (x : A) → Leaves label (length ns) i (x, j) → (j ≡ endpoint) ⊎ (j < length ns)
    later i j x (inl e) = inl e
    later i j x (inr (up, lt, _)) = inr lt

    either :
        {m k : Outcome Bool} {a b : Bool}
        → m ≡ done a
        → k ≡ done b
        → (m >>= λ c. elim c [ true ↦ done true | false ↦ k ]) ≡ done (a || b)
    either {m} {k} {a} p q = rw p (joined a q)
      where
        joined :
            (a : Bool) {b : Bool} {k : Outcome Bool}
            → k ≡ done b
            → elim a [ true ↦ done true | false ↦ k ] ≡ done (a || b)
        joined true q = refl
        joined false q = q

    -- The loop at a node agrees with the words below it.
    pub follow_from-hits :
        (i : ℕ) (n : Node A) (q : List A)
        → get_elem? ns i ≡ some n
        → follow_from same (of_list ns) n q ≡ done (hits (leads same ns i) q)
    unfolding follow_from
    follow_from-hits i n [] e =
        let lt = get_elem?-lt ns i e in
        let fits = t.fits in
        let not_endpoint : false ≡ leads same ns i [] = ground (arith, leads-nil ns i) in
        ap done (not_endpoint ∙ sym (hits-nil (leads same ns i)))
    follow_from-hits i n (x ∷ q) e = elim (Option-cases (find same x n.next)) [
      | inl f ↦
          rw (f, follow_from, hits-none ns i x q (edge-find ns i n x e ∙ f))
            (follow_from-hits i n q e)
      | inr (j, f) ↦
          rw (f, follow_from, hits-some ns i j x q (edge-find ns i n x e ∙ f))
            (either
              (enter-hits (λ m. follow_from same (of_list ns) m q) j q
                (later i j x (edge-Leaves i n x j e f)) (λ m got. follow_from-hits j m q got))
              (follow_from-hits i n q e))
    ]

    none_of :
        (i : ℕ) (q : List A)
        → i ≢ endpoint
        → ((x : A) → edge same ns i x ≡ none)
        → hits (leads same ns i) q ≡ false
    none_of i q ne h = hits-ext (leads same ns i) (λ _. false) q no_word ∙ hits_never q
      where
        no_word : (w : List A) → leads same ns i w ≡ false
        no_word [] = ground (arith, leads-nil ns i)
        no_word (x ∷ w) = leads-none ns i x w (h x)

    -- A root without edges reads like an empty trie.
    entered :
        (n : Node A) (q : List A)
        → get_elem? ns 0 ≡ some n
        → (n.next ≡ []) ⊎ ((e : A × ℕ) × (es : List (A × ℕ)) × (n.next ≡ e ∷ es))
        → (if is_nil n.next then done false else follow_from same (of_list ns) n q)
          ≡ done (hits (leads same ns 0) q)
    unfolding find
    entered n q e (inl nil) =
        rw
          (
            ap is_nil nil,
            none_of 0 q (λ z. omega arith)
                (λ x. edge-find ns 0 n x e ∙ ap (λ es. find same x es) nil),
          )
          refl
    entered n q e (inr (d, es, cons)) = rw (ap is_nil cons) (follow_from-hits 0 n q e)

    pub contains_subset-hits :
        (q : List A) → contains_subset same (of_list ns) q ≡ done (hits (leads same ns 0) q)
    unfolding contains_subset empty is_empty of_list edge
    contains_subset-hits q = elim (Option-cases (get_elem? ns 0)) [
      | inl e ↦
          let len : length ns ≡ 0 = omega (arith, get_elem?-none_ge ns 0 e) in
          rw (len, none_of 0 q (λ z. omega arith) (λ x. edge_missing ns 0 x e)) refl
      | inr (n, e) ↦
          let lt = get_elem?-lt ns 0 e in
          let fits = t.fits in
          let filled : (length ns == 0) ≡ false = ground arith in
          rw (filled, index-of_list ns 0 n e) (entered n q e (List-cases n.next))
    ]
