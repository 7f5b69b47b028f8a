-- ===== src/Adt/SharedArray/Pointers/View.antt =====
-- SharedArray.cpp: the variants behind the pointers, unfolded.
use caffeine.Prelude.{
  Option-cases, done, or_throw, ℕ, zero, suc, ◌+◌, ◌≤◌, ◌<◌, ◌≡◌, refl, sym, ap, ◌∙◌, ◌⊎◌, inl, inr,
  none, some, arith, List, [], ◌∷◌,
}
use caffeine.Prelude.{length, get_elem?, ◌++◌, get_elem?-some, get_elem?-lt, get_elem?-append_ne}
use caffeine.Adt.SharedArray.{
  Variant, flat, modified, SharedArray, find, modified_index, index, load, loads,
}
use caffeine.Adt.SharedArray.Pointers.{
  Data, vector, changed, Heap, Handle, follow, element, load_through, loads_through,
}

module _ {ℓ} {A : Type ℓ} where
  -- What a variant leads to.
  abbrev pub tree : ℕ → Heap A → Data A → Variant A
  tree zero h d = flat []
  tree (suc f) h (vector xs) = flat xs
  tree (suc f) h (changed p ch) = elim (get_elem? h p) [
    | none ↦ flat []
    | some d ↦ modified (tree f h d) ch
  ]

  abbrev pub view : Heap A → Handle A → SharedArray A
  view h s = record {
    content = tree (suc (length h)) h s.content;
    modcnt = s.modcnt;
    size = s.size;
  }

  abbrev pub array_of : Variant A → ℕ → ℕ → SharedArray A
  array_of v modcnt size = record { content = v; modcnt = modcnt; size = size }

  -- The pointer leads below place `n`.
  abbrev pub Below : ℕ → Data A → Type 0
  Below n (vector xs) = Unit
  Below n (changed p ch) = p < n

  -- Every shared variant leads to older ones.
  abbrev pub IsHeap : Heap A → Type ℓ
  IsHeap h = (k : ℕ) (d : Data A) → get_elem? h k ≡ some d → Below k d

  abbrev pub IsHandle : Heap A → Handle A → Type 0
  IsHandle h s = Below (length h) s.content

  pub tree_some :
      (f : ℕ) (h : Heap A) (p : ℕ) (ch : List (ℕ × A)) (d : Data A)
      → get_elem? h p ≡ some d
      → tree (suc f) h (changed p ch) ≡ modified (tree f h d) ch
  tree_some f h p ch d e = rw (tree, e) refl

  pub tree_fuel :
      (f g n : ℕ) (h : Heap A) (d : Data A)
      → IsHeap h
      → Below n d
      → n ≤ length h
      → n < f
      → n < g
      → tree f h d ≡ tree g h d
  tree_fuel zero g n h d ok b le lf lg = absurd (omega arith)
  tree_fuel (suc f) zero n h d ok b le lf lg = absurd (omega arith)
  tree_fuel (suc f) (suc g) n h (vector xs) ok b le lf lg = refl
  tree_fuel (suc f) (suc g) n h (changed p ch) ok b le lf lg =
      let (d, e) = get_elem?-some h p (omega arith) in
      tree_some f h p ch d e
      ∙ ap (λ v. modified v ch)
          (tree_fuel f g p h d ok (ok p d e) (omega arith) (omega arith) (omega arith))
      ∙ sym (tree_some g h p ch d e)

  -- A new shared variant changes nothing that is older.
  pub tree_append :
      (f n : ℕ) (h : Heap A) (new d : Data A)
      → IsHeap h
      → Below n d
      → n ≤ length h
      → n < f
      → tree f (h ++ new ∷ []) d ≡ tree f h d
  tree_append zero n h new d ok b le lf = absurd (omega arith)
  tree_append (suc f) n h new (vector xs) ok b le lf = refl
  tree_append (suc f) n h new (changed p ch) ok b le lf =
      let (d, e) = get_elem?-some h p (omega arith) in
      let kept : get_elem? (h ++ new ∷ []) p ≡ some d =
        get_elem?-append_ne h new p (omega arith) ∙ e in
      tree_some f (h ++ new ∷ []) p ch d kept
      ∙ ap (λ v. modified v ch) (tree_append f p h new d ok (ok p d e) (omega arith) (omega arith))
      ∙ sym (tree_some f h p ch d e)

  follow_hit :
      (f : ℕ) (h : Heap A) (p : ℕ) (ch : List (ℕ × A)) (i : ℕ) (a : A)
      → find i ch ≡ some a
      → follow (suc f) h p ch i ≡ done a
  unfolding follow
  follow_hit f h p ch i a e = rw (follow, find, e) refl

  index_hit :
      (v : Variant A) (ch : List (ℕ × A)) (i : ℕ) (a : A)
      → find i ch ≡ some a
      → modified_index v ch i ≡ done a
  unfolding modified_index
  index_hit (flat xs) ch i a e = rw (modified_index, find, e) refl
  index_hit (modified v below) ch i a e = rw (modified_index, find, e) refl

  follow_vector :
      (f : ℕ) (h : Heap A) (p : ℕ) (ch : List (ℕ × A)) (i : ℕ) (xs : List A)
      → find i ch ≡ none
      → get_elem? h p ≡ some (vector xs)
      → follow (suc f) h p ch i ≡ or_throw (get_elem? xs i)
  unfolding follow
  follow_vector f h p ch i xs e there = rw (follow, find, e, there) refl

  follow_changed :
      (f : ℕ) (h : Heap A) (p q : ℕ) (ch below : List (ℕ × A)) (i : ℕ)
      → find i ch ≡ none
      → get_elem? h p ≡ some (changed q below)
      → follow (suc f) h p ch i ≡ follow f h q below i
  unfolding follow
  follow_changed f h p q ch below i e there = rw (follow, find, e, there) refl

  index_flat :
      (xs : List A) (ch : List (ℕ × A)) (i : ℕ)
      → find i ch ≡ none
      → modified_index (flat xs) ch i ≡ or_throw (get_elem? xs i)
  unfolding modified_index
  index_flat xs ch i e = rw (modified_index, find, e) refl

  index_modified :
      (v : Variant A) (below ch : List (ℕ × A)) (i : ℕ)
      → find i ch ≡ none
      → modified_index (modified v below) ch i ≡ modified_index v below i
  unfolding modified_index
  index_modified v below ch i e = rw (modified_index, find, e) refl

  Data-cases :
      (d : Data A)
      → ((xs : List A) × (d ≡ vector xs))
        ⊎ ((q : ℕ) × (below : List (ℕ × A)) × (d ≡ changed q below))
  Data-cases (vector xs) = inl (xs, refl)
  Data-cases (changed q below) = inr (q, below, refl)

  -- Following the pointers is reading the tree.
  pub follow-tree :
      (f g : ℕ) (h : Heap A) (p : ℕ) (ch : List (ℕ × A)) (i : ℕ) (d : Data A)
      → IsHeap h
      → get_elem? h p ≡ some d
      → p < f
      → p < g
      → follow f h p ch i ≡ modified_index (tree g h d) ch i
  follow-tree zero g h p ch i d ok there lf lg = absurd (omega arith)
  follow-tree (suc f) zero h p ch i d ok there lf lg = absurd (omega arith)
  follow-tree (suc f) (suc g) h p ch i d ok there lf lg = elim (Option-cases (find i ch)) [
    | inr (a, e) ↦ follow_hit f h p ch i a e ∙ sym (index_hit (tree (suc g) h d) ch i a e)
    | inl e ↦ elim (Data-cases d) [
      | inl (xs, q) ↦
          (let there' : get_elem? h p ≡ some (vector xs) = there ∙ ap some q in
            follow_vector f h p ch i xs e there'
            ∙ sym (index_flat xs ch i e)
            ∙ ap (λ x. modified_index (tree (suc g) h x) ch i) (sym q))
      | inr (q, below, r) ↦
          (let there' : get_elem? h p ≡ some (changed q below) = there ∙ ap some r in
            let lt : q < p = ok p (changed q below) there' in
            let (d', next) = get_elem?-some h q (omega (arith, get_elem?-lt h p there)) in
            follow_changed f h p q ch below i e there'
            ∙ follow-tree f g h q below i d' ok next (omega arith) (omega arith)
            ∙ sym (index_modified (tree g h d') below ch i e)
            ∙ ap (λ v. modified_index v ch i)
                (sym (tree_some g h q below d' next) ∙ ap (tree (suc g) h) (sym r)))
    ]
  ]

  element-tree :
      (h : Heap A) (d : Data A) (i : ℕ)
      → IsHeap h
      → Below (length h) d
      → element h d i ≡ index (tree (suc (length h)) h d) i
  unfolding element index
  element-tree h (vector xs) i ok b = refl
  element-tree h (changed p ch) i ok b =
      let (d, e) = get_elem?-some h p b in
      follow-tree (length h + 1) (length h) h p ch i d ok e (omega arith) b
      ∙ ap (λ v. index v i) (sym (tree_some (length h) h p ch d e))

  pub load-view :
      (h : Heap A) (s : Handle A) (i : ℕ)
      → IsHeap h
      → IsHandle h s
      → load_through h s i ≡ load (view h s) i
  unfolding load_through load
  load-view h s i ok b = rw (element-tree h s.content i ok b) refl

  pub loads-view :
      (h : Heap A) (s : Handle A) (i rounds : ℕ)
      → IsHeap h
      → IsHandle h s
      → loads_through h s i rounds ≡ loads (view h s) i rounds
  unfolding loads_through loads
  loads-view h s i zero ok b = refl
  loads-view h s i (suc rounds) ok b =
      rw (load-view h s i ok b, loads-view h s (i + 1) rounds ok b) refl
