-- ===== src/Adt/SharedArray/Pointers/Apart.antt =====
-- SharedArray.cpp: a copy shares its variant with the source, and a store on it leaves the store of
-- shared variants alone.
use caffeine.Prelude.{◌==◌, if◌then◌else◌, done, ℕ, ◌<◌, ◌≡◌, sym, ap, ◌∙◌, subst, ◌↔◌, Bool, true}
use caffeine.Adt.SharedArray.{load, store}
use caffeine.Adt.SharedArray.Contents.{IsWf}
use caffeine.Adt.SharedArray.Copies.{copy_assign-store}
use caffeine.Adt.SharedArray.Pointers.{Heap, Handle, load_through, copy_through, store_through}
use caffeine.Adt.SharedArray.Pointers.View.{view, IsHeap, IsHandle, load-view}
use caffeine.Adt.SharedArray.Pointers.Copied.{copy_through-Copied}
use caffeine.Adt.SharedArray.Pointers.Stored.{store_through-Ends}

module _ {ℓ} {A : Type ℓ} (same : A → A → Bool)
    (same-eq : (a b : A) → (same a b ≡ true) ↔ (a ≡ b)) where
  -- Arrays share variants through pointers. A store below the size on the copy of a well-formed
  -- array ends well, where each pointer leads to an older variant. In the store of variants that it
  -- leaves the pointers are so again, the copy is well-formed, and it loads the new element at its
  -- index and what the array had at any other. The array that was copied, and any other array over
  -- the same variants, loads there what it had before the copy.
  pub copy_through-store :
      (h : Heap A) (s u : Handle A) (i : ℕ) (a : A)
      → IsHeap h
      → IsHandle h s
      → IsHandle h u
      → IsWf (view h s)
      → i < s.size
      → (h' : Heap A) × (t : Handle A) × (store_through same
            (copy_through h s).0
            (copy_through h s).2
            i
            a
          ≡ done (h', t))
        × IsHeap h'
        × IsHandle h' t
        × IsWf (view h' t)
        × ((j : ℕ) → load_through h' t j ≡ (if i == j then done a else load_through h s j))
        × ((j : ℕ) → load_through h' (copy_through h s).1 j ≡ load_through h s j)
        × ((j : ℕ) → load_through h' u j ≡ load_through h u j)
  copy_through-store h s u i a ok b b' wf lt =
      let kept = copy_through-Copied h s ok b in
      let (below, seen) = kept.others u b' in
      let (t, ran, wt, stored, source) = copy_assign-store same same-eq (view h s) i a wf lt in
      let h' = (copy_through h s).0 in
      let (t', ran', same_view, below') =
        store_through-Ends same h' (copy_through h s).2 i a t kept.heap kept.target
          (ap (λ v. store same v i a) kept.target_view ∙ ran) in
      (
        h',
        t',
        ran',
        kept.heap,
        below',
        subst IsWf (sym same_view) wt,
        (λ j.
            load-view h' t' j kept.heap below'
            ∙ ap (λ v. load v j) same_view
            ∙ stored j
            ∙ ap (λ o. if i == j then done a else o) (sym (load-view h s j ok b))),
        (λ j.
            load-view h' (copy_through h s).1 j kept.heap kept.source
            ∙ ap (λ v. load v j) kept.source_view
            ∙ source j
            ∙ sym (load-view h s j ok b)),
        λ j.
            load-view h' u j kept.heap below
            ∙ ap (λ v. load v j) seen
            ∙ sym (load-view h u j ok b'),
      )
