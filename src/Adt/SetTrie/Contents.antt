-- ===== src/Adt/SetTrie/Contents.antt =====
-- SetTrie.h: what a trie answers after the sets that were inserted.
use caffeine.Prelude.{
  ◌==◌, Bool-cases, Outcome, done, throws, fault, ◌>>=◌, done-injective, ℕ, ◌+◌, ◌≤◌, ◌<◌, ◌≡◌,
  refl, sym, ap, ◌∙◌, ◌↔◌, inl, inr, Bool, true, false, ◌||◌, none, arith, List, [], ◌∷◌,
}
use caffeine.Prelude.{length, All}
use caffeine.Adt.FreeList.{no_head}
use caffeine.Adt.SparseVector
use caffeine.Adt.SparseVector.{SparseVector, of_list, emplace_back, is_empty, backing_size}
use caffeine.Adt.SetTrie.{
  find, Node, SetTrie, endpoint, new_node, is_nil, clear, contains_subset, insert, insert_at,
}
use caffeine.Adt.SetTrie.Words.{edge, leads, hits, hits-ext, subset}
use caffeine.Adt.SetTrie.Spec.{replaced, hits-replaced, hits-subset}
use caffeine.Adt.SetTrie.Nodes.{length-map}
use caffeine.Adt.SetTrie.Lookup.{
  IsTree, contains_subset-hits, edge_missing, leads-nil, leads-cong, edge-find,
}
use caffeine.Adt.SetTrie.Grow.{labelled, add_node-IsTree}
use caffeine.Adt.SetTrie.Insert.{insert_at-Inserted}

module _ {ℓ} {A : Type ℓ} where
  -- The vector has no holes, and its nodes form a tree.
  pub record IsWf (s : SetTrie A) : Type ℓ where
    pub nodes : List (Node A)
    pub label : ℕ → List A
    pub shape : s ≡ of_list nodes
    pub tree : IsTree label nodes

  -- `SetTrie() = default`
  abbrev pub new_trie : SetTrie A
  new_trie = record { elements = []; size = 0; head = no_head }

  backing_size-of_list : (ns : List (Node A)) → backing_size (of_list ns) ≡ length ns
  unfolding of_list
  backing_size-of_list ns = length-map ns

  nil-IsTree : IsTree {A = A} (λ _. []) []
  nil-IsTree = record { fits = omega arith; edges = λ i n e. cc }

  pub new_trie-IsWf : IsWf new_trie
  unfolding of_list
  new_trie-IsWf = record { nodes = []; label = λ _. []; shape = refl; tree = nil-IsTree }

or_nothing : (o : Outcome Bool) → (o >>= λ b. done (b || false)) ≡ o
or_nothing (done true) = refl
or_nothing (done false) = refl
or_nothing throws = refl
or_nothing fault = refl

or_twice :
    (o : Outcome Bool) (c d : Bool)
    → ((o >>= λ b. done (b || c)) >>= λ b. done (b || d)) ≡ (o >>= λ b. done (b || (c || d)))
or_twice (done true) c d = refl
or_twice (done false) c d = refl
or_twice throws c d = refl
or_twice fault c d = refl

abbrev pub total_length {ℓ} : {A : Type ℓ} → List (List A) → ℕ
total_length [] = 0
total_length (q ∷ qs) = length q + total_length qs

module _ {ℓ} {A : Type ℓ} (same : A → A → Bool) where
  -- Inserting sets one after the other.
  unfoldable pub insert_all : SetTrie A → List (List A) → Outcome (SetTrie A)
  insert_all s [] = done s
  insert_all s (q ∷ qs) = insert same s q >>= λ s'. insert_all s' qs

  -- Some set of the list is a subset of the query.
  unfoldable pub any_subset : List (List A) → List A → Bool
  unfolding subset
  any_subset [] u = false
  any_subset (q ∷ qs) u = subset same q u || any_subset qs u

module _ {ℓ} {A : Type ℓ} (same : A → A → Bool)
    (same-eq : (a b : A) → (same a b ≡ true) ↔ (a ≡ b)) where
  -- The insertion, from a trie that has a root.
  rooted :
      (label : ℕ → List A) (ns : List (Node A)) (x : A) (q : List A)
      → IsTree label ns
      → 0 < length ns
      → length ns + length (x ∷ q) ≤ endpoint
      → hits (leads same ns 0) (x ∷ q) ≡ false
      → (ns' : List (Node A)) × (label' : ℕ → List A) × (insert_at same (of_list ns) 0 (x ∷ q)
          ≡ done (of_list ns'))
        × IsTree label' ns'
        × (length ns' ≤ length ns + length (x ∷ q))
        × ((u : List A)
            → hits (leads same ns' 0) u ≡ (hits (leads same ns 0) u || subset same (x ∷ q) u))
  rooted label ns x q t p fits new =
      let (m, label', ns', ran, r) = insert_at-Inserted same same-eq label ns 0 x q t p fits new in
      (
        ns',
        label',
        ran,
        r.tree,
        r.grown,
        λ u.
            hits-ext (leads same ns' 0) (λ w. replaced same (x ∷ q) w (leads same ns 0 w)) u r.words
            ∙ hits-replaced same (x ∷ q) (leads same ns 0) u,
      )

  -- A lone root without edges has no words.
  root_hits : (u : List A) → hits (leads same (new_node ∷ []) 0) u ≡ hits (leads same [] 0) u
  unfolding find edge
  root_hits u = hits-ext (leads same (new_node ∷ []) 0) (leads same [] 0) u same_words
    where
      no_edge : (y : A) → edge same [] 0 y ≡ none
      no_edge y = edge_missing same same-eq [] 0 y refl

      same_words : (w : List A) → leads same (new_node ∷ []) 0 w ≡ leads same [] 0 w
      same_words [] = leads-nil same same-eq (new_node ∷ []) 0 ∙ sym (leads-nil same same-eq [] 0)
      same_words (y ∷ w) =
          leads-cong same same-eq [] (new_node ∷ []) 0 y w
            (edge-find same same-eq (new_node ∷ []) 0 new_node y refl ∙ sym (no_edge y))
            (λ j e. cc (no_edge y))

  nil_hits : (u : List A) → hits (leads same [] 0) u ≡ false
  unfolding contains_subset of_list
  nil_hits u = done-injective (sym (contains_subset-hits same same-eq (λ _. []) [] nil-IsTree u))

  insert_first :
      (q : List A) {s' : SetTrie A}
      → contains_subset same (of_list []) q ≡ done false
      → insert_at same (of_list (new_node ∷ [])) 0 q ≡ done s'
      → insert same (of_list []) q ≡ done s'
  unfolding insert of_list emplace_back is_empty clear SparseVector.clear
  insert_first q asked ran = rw (asked, ◌>>=◌) ran

  insert_more :
      (ns : List (Node A)) (q : List A) {s' : SetTrie A}
      → 0 < length ns
      → contains_subset same (of_list ns) q ≡ done false
      → insert_at same (of_list ns) 0 q ≡ done s'
      → insert same (of_list ns) q ≡ done s'
  unfolding insert is_empty of_list
  insert_more ns q p asked ran =
      let filled : (length ns == 0) ≡ false = ground arith in rw (asked, ◌>>=◌, filled) ran

  insert_list :
      (label : ℕ → List A) (ns : List (Node A)) (x : A) (q : List A)
      → IsTree label ns
      → length ns + length (x ∷ q) < endpoint
      → (ns' : List (Node A)) × (label' : ℕ → List A) × (insert same (of_list ns) (x ∷ q)
          ≡ done (of_list ns'))
        × IsTree label' ns'
        × (length ns' ≤ length ns + length (x ∷ q) + 1)
        × ((u : List A)
            → hits (leads same ns' 0) u ≡ (hits (leads same ns 0) u || subset same (x ∷ q) u))
  unfolding insert
  insert_list label [] x q t fits =
      let (ns', label', ran, t', grown, words) =
        rooted (labelled label 0 []) (new_node ∷ []) x q
          (add_node-IsTree label [] [] t (omega arith)) (omega arith) (omega arith)
          (root_hits (x ∷ q) ∙ nil_hits (x ∷ q)) in
      (
        ns',
        label',
        insert_first (x ∷ q)
            (contains_subset-hits same same-eq label [] t (x ∷ q) ∙ ap done (nil_hits (x ∷ q))) ran,
        t',
        omega arith,
        λ u. words u ∙ ap (λ b. b || subset same (x ∷ q) u) (root_hits u),
      )
  insert_list label (n ∷ ns) x q t fits =
      let asked = contains_subset-hits same same-eq label (n ∷ ns) t (x ∷ q) in
      elim (Bool-cases (hits (leads same (n ∷ ns) 0) (x ∷ q))) [
        | inl old ↦
            (n ∷ ns, label, rw (asked, ◌>>=◌, old) refl, t, omega arith, λ u. absorbed u old)
        | inr new ↦
            let (ns', label', ran, t', grown, words) =
              rooted label (n ∷ ns) x q t (omega arith) (omega arith) new in
            (
              ns',
              label',
              insert_more (n ∷ ns) (x ∷ q) (omega arith) (asked ∙ ap done new) ran,
              t',
              omega arith,
              words,
            )
      ]
    where
      absorbed :
          (u : List A)
          → hits (leads same (n ∷ ns) 0) (x ∷ q) ≡ true
          → hits (leads same (n ∷ ns) 0) u
            ≡ (hits (leads same (n ∷ ns) 0) u || subset same (x ∷ q) u)
      absorbed u old = ground (arith, hits-subset same same-eq (leads same (n ∷ ns) 0) (x ∷ q) u)

  answers :
      (s : SetTrie A) (wf : IsWf s) (u : List A)
      → contains_subset same s u ≡ done (hits (leads same wf.nodes 0) u)
  answers s wf u =
      ap (λ z. contains_subset same z u) wf.shape
      ∙ contains_subset-hits same same-eq wf.label wf.nodes wf.tree u

  -- A well-formed trie takes any set that is not empty, while there are indices left: nothing
  -- throws or faults. The trie stays well-formed and has at most one new node for each element and
  -- a root, and a query then contains a subset exactly when it did before or contains the new set.
  pub insert-contains_subset :
      (s : SetTrie A) (x : A) (q : List A)
      → IsWf s
      → backing_size s + length (x ∷ q) < endpoint
      → (s' : SetTrie A) × (insert same s (x ∷ q) ≡ done s')
        × IsWf s'
        × (backing_size s' ≤ backing_size s + length (x ∷ q) + 1)
        × ((u : List A)
            → contains_subset same s' u
              ≡ (contains_subset same s u >>= λ b. done (b || subset same (x ∷ q) u)))
  insert-contains_subset s x q wf fits =
      let size : backing_size s ≡ length wf.nodes =
        ap backing_size wf.shape ∙ backing_size-of_list wf.nodes in
      let (ns', label', ran, t', grown, words) =
        insert_list wf.label wf.nodes x q wf.tree (omega (arith, size)) in
      (
        of_list ns',
        ap (λ z. insert same z (x ∷ q)) wf.shape ∙ ran,
        record { nodes = ns'; label = label'; shape = refl; tree = t' },
        omega (arith, size, backing_size-of_list ns'),
        λ u.
            contains_subset-hits same same-eq label' ns' t' u
            ∙ ap done (words u)
            ∙ sym (ap (λ o. o >>= λ b. done (b || subset same (x ∷ q) u)) (answers s wf u)),
      )

  insert_all-hits :
      (s : SetTrie A) (qs : List (List A))
      → IsWf s
      → All (λ q. is_nil q ≡ false) qs
      → backing_size s + total_length qs + length qs < endpoint
      → (s' : SetTrie A) × (insert_all same s qs ≡ done s')
        × IsWf s'
        × ((u : List A)
            → contains_subset same s' u
              ≡ (contains_subset same s u >>= λ b. done (b || any_subset same qs u)))
  unfolding insert_all any_subset
  insert_all-hits s [] wf filled fits =
      (s, refl, wf, λ u. sym (or_nothing (contains_subset same s u)))
  insert_all-hits s ([] ∷ qs) wf filled fits = cc
  insert_all-hits s ((x ∷ q) ∷ qs) wf (_, filled) fits =
      let (s1, ran, wf1, grown, one) = insert-contains_subset s x q wf (omega arith) in
      let (s2, ran2, wf2, rest) = insert_all-hits s1 qs wf1 filled (omega arith) in
      (
        s2,
        rw ran ran2,
        wf2,
        λ u.
            rest u
            ∙ ap (λ o. o >>= λ b. done (b || any_subset same qs u)) (one u)
            ∙ or_twice (contains_subset same s u) (subset same (x ∷ q) u) (any_subset same qs u),
      )

  -- After any sets that are not empty are inserted into a new trie, one after the other, a query
  -- contains a subset exactly when one of those sets is a subset of it, in the sorted order. The
  -- number of elements of all the sets and the number of sets add up to less than SIZE_MAX, the
  -- index that stands for the end of a set.
  pub insert_all-any_subset :
      (qs : List (List A)) (u : List A)
      → All (λ q. is_nil q ≡ false) qs
      → total_length qs + length qs < endpoint
      → (s : SetTrie A) × (insert_all same new_trie qs ≡ done s)
        × (contains_subset same s u ≡ done (any_subset same qs u))
  insert_all-any_subset qs u filled fits =
      let (s, ran, wf, agrees) =
        insert_all-hits new_trie qs new_trie-IsWf filled (omega (arith, fits)) in
      (s, ran, agrees u ∙ ap (λ o. o >>= λ b. done (b || any_subset same qs u)) (nothing u))
    where
      nothing : (u : List A) → contains_subset same new_trie u ≡ done false
      nothing u = unfold contains_subset of_list in refl
