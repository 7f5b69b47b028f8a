-- ===== src/Adt/SharedArray/Pointers/Stored.antt =====
-- SharedArray.cpp: store over the store of shared variants, to which it writes nothing.
use caffeine.Prelude.{
  ltb, if◌then◌else◌, Bool-cases, Option-cases, Outcome, done, ◌>>=◌, done-injective, Outcome-cases,
  >>=-eq-done, ℕ, suc, ◌+◌, ◌<◌, ◌≡◌, refl, sym, ap, ◌∙◌, subst, inl, inr, Bool, some, arith, List,
  ◌∷◌,
}
use caffeine.Prelude.{length, get_elem?, set, get_elem?-some, get_elem?-lt}
use caffeine.Adt.SharedArray.{
  flat, modified, SharedArray, over_threshold, find, assign, modified_index, loads, flatten, store,
  store_content, store_change,
}
use caffeine.Adt.SharedArray.Pointers.{
  Data, vector, changed, Heap, Handle, follow, flatten_through, store_change_through,
  store_content_through, store_through,
}
use caffeine.Adt.SharedArray.Pointers.View.{
  tree, tree_some, array_of, view, Below, IsHeap, IsHandle, follow-tree, loads-view,
}

module _ {ℓ} {A : Type ℓ} where
  -- A run through the store that ends with an array that stands for `t`, the store as it was.
  abbrev pub Ends : Heap A → SharedArray A → Outcome (Heap A × Handle A) → Type ℓ
  Ends h t o = (s' : Handle A) × (o ≡ done (h, s')) × (view h s' ≡ t) × IsHandle h s'

  flatten_through-Ends :
      (h : Heap A) (s : Handle A) (t : SharedArray A)
      → IsHeap h
      → IsHandle h s
      → (loads (view h s) 0 s.size >>= λ xs. done (array_of (flat xs) s.modcnt s.size)) ≡ done t
      → Ends h t (flatten_through h s)
  unfolding flatten_through
  flatten_through-Ends h s t ok b e =
      let (xs, read, made) =
        >>=-eq-done (loads (view h s) 0 s.size) (λ xs. done (array_of (flat xs) s.modcnt s.size))
          e in
      (
        record s { content = vector xs },
        rw (loads-view h s 0 s.size ok b, read) refl,
        done-injective made,
        tt,
      )

module _ {ℓ} {A : Type ℓ} (same : A → A → Bool) where
  added_through :
      (h : Heap A) (m n p : ℕ) (d : Data A) (ch : List (ℕ × A)) (t : SharedArray A)
      → IsHeap h
      → get_elem? h p ≡ some d
      → (if over_threshold m n
          then flatten (array_of (modified (tree (length h) h d) ch) m n)
          else done (array_of (modified (tree (length h) h d) ch) m n))
        ≡ done t
      → Ends h t (
          let s' : Handle A = record { content = changed p ch; modcnt = m; size = n } in
          if over_threshold m n then flatten_through h s' else done (h, s'))
  unfolding flatten
  added_through h m n p d ch t ok there e =
      let s' : Handle A = record { content = changed p ch; modcnt = m; size = n } in
      let below : IsHandle h s' = get_elem?-lt h p there in
      let seen : view h s' ≡ array_of (modified (tree (length h) h d) ch) m n =
        ap (λ v. array_of v m n) (tree_some (length h) h p ch d there) in
      elim (Bool-cases (over_threshold m n)) [
        | inl over ↦ rw over (
            flatten_through-Ends h s' t ok below
              (ap (λ v. loads v 0 n >>= λ xs. done (array_of (flat xs) m n)) seen ∙ (rw over at e)))
        | inr under ↦ rw under (s', refl, seen ∙ done-injective (rw under at e), below)
      ]

  store_change_through-Ends :
      (h : Heap A) (s : Handle A) (p : ℕ) (d : Data A) (ch : List (ℕ × A)) (i : ℕ) (a : A)
      (t : SharedArray A)
      → IsHeap h
      → s.content ≡ changed p ch
      → get_elem? h p ≡ some d
      → store_change same (view h s) (tree (length h) h d) ch i a ≡ done t
      → Ends h t (store_change_through same h s p ch i a)
  unfolding store_change store_change_through
  store_change_through-Ends h s p d ch i a t ok at there e = elim (Option-cases (find i ch)) [
    | inr (b, f) ↦ (
      record s { content = changed p (assign i a ch) },
      rw (f, store_change_through) refl,
      ap (λ v. array_of v s.modcnt s.size) (tree_some (length h) h p (assign i a ch) d there)
          ∙ done-injective (rw (f, store_change) at e),
      get_elem?-lt h p there,
    )
    | inl f ↦
        let followed : follow (length h + 1) h p ch i ≡ modified_index (tree (length h) h d) ch i =
          follow-tree (length h + 1) (length h) h p ch i d ok there
            (omega (arith, get_elem?-lt h p there)) (get_elem?-lt h p there) in
        elim (Outcome-cases (modified_index (tree (length h) h d) ch i)) [
          | inl (old, read) ↦ elim (Bool-cases (same old a)) [
            | inl q ↦ (
              s,
              rw (f, store_change_through, followed ∙ read, ◌>>=◌, q) refl,
              done-injective (rw (f, store_change, read, ◌>>=◌, q) at e),
              subst (Below (length h)) (sym at) (get_elem?-lt h p there),
            )
            | inr q ↦
                rw (f, store_change_through, followed ∙ read, ◌>>=◌, q)
                  (added_through h (s.modcnt + 1) s.size p d ((i, a) ∷ ch) t ok there
                    (rw (f, store_change, read, ◌>>=◌, q) at e))
          ]
          | inr (inl read) ↦ cc (rw (f, store_change, read, ◌>>=◌) at e)
          | inr (inr read) ↦ cc (rw (f, store_change, read, ◌>>=◌) at e)
        ]
  ]

  store_content_through-Ends :
      (h : Heap A) (s : Handle A) (d : Data A) (i : ℕ) (a : A) (t : SharedArray A)
      → IsHeap h
      → IsHandle h s
      → s.content ≡ d
      → store_content same (view h s) (tree (suc (length h)) h d) i a ≡ done t
      → Ends h t (store_content_through same h s d i a)
  unfolding store_content store_content_through
  store_content_through-Ends h s (vector xs) i a t ok b at e =
      elim (Bool-cases (ltb i (length xs))) [
        | inl q ↦
            rw q (record s { content = vector (set xs i a) }, refl, done-injective (rw q at e), tt)
        | inr q ↦ cc (rw q at e)
      ]
  store_content_through-Ends h s (changed p ch) i a t ok b at e =
      let below : p < length h = subst (Below (length h)) at b in
      let (d, there) = get_elem?-some h p below in
      store_change_through-Ends h s p d ch i a t ok at there (
        ap (λ v. store_content same (view h s) v i a) (sym (tree_some (length h) h p ch d there))
        ∙ e)

  -- A store that ends well on what the pointers lead to ends so through them, and writes to no
  -- shared variant.
  pub store_through-Ends :
      (h : Heap A) (s : Handle A) (i : ℕ) (a : A) (t : SharedArray A)
      → IsHeap h
      → IsHandle h s
      → store same (view h s) i a ≡ done t
      → Ends h t (store_through same h s i a)
  unfolding store store_through
  store_through-Ends h s i a t ok b e = elim (Bool-cases (ltb i s.size)) [
    | inl q ↦
        rw (q, ◌>>=◌)
          (store_content_through-Ends h s s.content i a t ok b refl (rw (q, ◌>>=◌) at e))
    | inr q ↦ cc (rw (q, ◌>>=◌) at e)
  ]
