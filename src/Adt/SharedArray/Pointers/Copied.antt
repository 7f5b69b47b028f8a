-- ===== src/Adt/SharedArray/Pointers/Copied.antt =====
-- SharedArray.cpp: operator= over the store of shared variants, which it may extend.
use caffeine.Prelude.{
  leb, if◌then◌else◌, Bool-cases, ℕ, suc, ◌≤◌, ◌≡◌, refl, sym, ap, ◌∙◌, subst, inl, inr, Bool, true,
  false, some, arith, [], ◌∷◌,
}
use caffeine.Prelude.{
  length, get_elem?, ◌++◌, get_elem?-some, get_elem?-append_ne, get_elem?-append_self,
  length-append, ℕ_discrete,
}
use caffeine.Adt.SharedArray.{modified, min_copy_size, copied, copy_assign}
use caffeine.Adt.SharedArray.Pointers.{
  Data, vector, changed, Heap, Handle, share, data_size, copy_through,
}
use caffeine.Adt.SharedArray.Pointers.View.{
  tree, tree_some, array_of, view, Below, IsHeap, IsHandle, tree_fuel, tree_append,
}

module _ {ℓ} {A : Type ℓ} where
  copied-tree :
      (h : Heap A) (d : Data A) (b : Bool)
      → Below (length h) d
      → leb (data_size d) min_copy_size ≡ b
      → copied (tree (suc (length h)) h d)
        ≡ (if b then tree (suc (length h)) h d else modified (tree (suc (length h)) h d) [])
  unfolding copied
  copied-tree h (vector xs) b below e = rw e refl
  copied-tree h (changed p ch) b below e =
      let (d, there) = get_elem?-some h p below in
      rw (tree_some (length h) h p ch d there, copied, e) refl

  -- The parts of what sharing keeps.
  record Shared (h : Heap A) (d : Data A) (c : Heap A × Data A) : Type ℓ where
    pub heap : IsHeap c.0
    pub below : Below (length c.0) c.1
    pub content : tree (suc (length c.0)) c.0 c.1 ≡ copied (tree (suc (length h)) h d)
    pub others :
        (e : Data A)
        → Below (length h) e
        → Below (length c.0) e × (tree (suc (length c.0)) c.0 e ≡ tree (suc (length h)) h e)

  Below-le : (m n : ℕ) (d : Data A) → m ≤ n → Below m d → Below n d
  Below-le m n (vector xs) le b = tt
  Below-le m n (changed p ch) le b = omega arith

  append-IsHeap : (h : Heap A) (d : Data A) → IsHeap h → Below (length h) d → IsHeap (h ++ d ∷ [])
  append-IsHeap h d ok b k e there = elim (ℕ_discrete k (length h)) [
    | yes p ↦
        let at : get_elem? (h ++ d ∷ []) k ≡ some d =
          ap (get_elem? (h ++ d ∷ [])) p ∙ get_elem?-append_self h d in
        let same : d ≡ e = cc in subst (Below k) same (subst (λ n. Below n d) (sym p) b)
    | no p ↦ ok k e (sym (get_elem?-append_ne h d k p) ∙ there)
  ]

  length-grown : (h : Heap A) (d : Data A) → length (h ++ d ∷ []) ≡ suc (length h)
  length-grown h d = omega (arith, length-append h (d ∷ []))

  others_append :
      (h : Heap A) (new e : Data A)
      → IsHeap h
      → Below (length h) e
      → tree (suc (length (h ++ new ∷ []))) (h ++ new ∷ []) e ≡ tree (suc (length h)) h e
  others_append h new e ok b =
      ap (λ n. tree (suc n) (h ++ new ∷ []) e) (length-grown h new)
      ∙ tree_append (suc (suc (length h))) (length h) h new e ok b (omega arith) (omega arith)
      ∙ tree_fuel (suc (suc (length h))) (suc (length h)) (length h) h e ok b (omega arith)
          (omega arith) (omega arith)

  appended-tree :
      (h : Heap A) (d : Data A)
      → IsHeap h
      → Below (length h) d
      → tree (suc (length (h ++ d ∷ []))) (h ++ d ∷ []) (changed (length h) [])
        ≡ modified (tree (suc (length h)) h d) []
  appended-tree h d ok b =
      tree_some (length (h ++ d ∷ [])) (h ++ d ∷ []) (length h) [] d (get_elem?-append_self h d)
      ∙ ap (λ n. modified (tree n (h ++ d ∷ []) d) []) (length-grown h d)
      ∙ ap (λ v. modified v [])
          (tree_append (suc (length h)) (length h) h d d ok b (omega arith) (omega arith))

  share-Shared :
      (h : Heap A) (d : Data A)
      → IsHeap h
      → Below (length h) d
      → Shared h d (share h d (data_size d))
  unfolding share
  share-Shared h d ok b = elim (Bool-cases (leb (data_size d) min_copy_size)) [
    | inl e ↦ rw e (record {
      heap = ok;
      below = b;
      content = sym (copied-tree h d true b e);
      others = λ e b'. (b', refl);
    })
    | inr e ↦ rw e (record {
      heap = append-IsHeap h d ok b;
      below = omega (arith, length-append h (d ∷ []));
      content = appended-tree h d ok b ∙ sym (copied-tree h d false b e);
      others = λ e b'. (
        Below-le (length h) (length (h ++ d ∷ [])) e (omega (arith, length-append h (d ∷ []))) b',
        others_append h d e ok b',
      );
    })
  ]

  -- The store and both arrays after a copy.
  pub record Copied (h : Heap A) (s : Handle A) (c : Heap A × Handle A × Handle A) : Type ℓ where
    pub heap : IsHeap c.0
    pub source : IsHandle c.0 c.1
    pub target : IsHandle c.0 c.2
    pub source_view : view c.0 c.1 ≡ (copy_assign (view h s)).0
    pub target_view : view c.0 c.2 ≡ (copy_assign (view h s)).1
    pub others : (u : Handle A) → IsHandle h u → IsHandle c.0 u × (view c.0 u ≡ view h u)

  pub copy_through-Copied :
      (h : Heap A) (s : Handle A) → IsHeap h → IsHandle h s → Copied h s (copy_through h s)
  unfolding copy_through copy_assign
  copy_through-Copied h s ok b =
      let shared = share-Shared h s.content ok b in
      let seen = ap (λ v. array_of v s.modcnt s.size) shared.content in
      record {
        heap = shared.heap;
        source = shared.below;
        target = shared.below;
        source_view = seen;
        target_view = seen;
        others = λ u b'.
            let (below, same) = shared.others u.content b' in
            (below, ap (λ v. array_of v u.modcnt u.size) same);
      }
