-- ===== src/Adt/SetTrie/Nodes.antt =====
-- SetTrie.h: its vector never has a hole, so it is a list of nodes.
use caffeine.Prelude.{
  done, ℕ, zero, suc, ◌+◌, ◌-◌, ◌≡◌, refl, ap, ◌∙◌, subst, none, some, arith, List, [], ◌∷◌,
}
use caffeine.Adt.FreeList.{no_head}
use caffeine.Prelude.{
  length, get_elem?-lt, get_elem?-append_self, set-append_self, length-set, get_elem?, set, map,
  ◌++◌, length-append,
}
use caffeine.Adt.SparseVector.{hole, value, index, emplace, alloc_slot, of_list}
use caffeine.Adt.SetTrie.{Node, modify}

module _ {ℓ} {A : Type ℓ} where
  pub length-map : (vs : List A) → length (map value vs) ≡ length vs
  length-map [] = refl
  length-map (v ∷ vs) = ap suc (length-map vs)

  pub get_elem?-map :
      (vs : List A) (i : ℕ)
      → get_elem? (map value vs) i ≡ elim (get_elem? vs i) [ none ↦ none | some v ↦ some (value v) ]
  get_elem?-map [] i = refl
  get_elem?-map (v ∷ vs) zero = refl
  get_elem?-map (v ∷ vs) (suc i) = get_elem?-map vs i

  pub set-map :
      (vs : List A) (i : ℕ) (v : A) → set (map value vs) i (value v) ≡ map value (set vs i v)
  set-map [] i v = refl
  set-map (w ∷ vs) zero v = refl
  set-map (w ∷ vs) (suc i) v = ap (◌∷◌ (value w)) (set-map vs i v)

  pub map-snoc : (vs : List A) (v : A) → map value vs ++ value v ∷ [] ≡ map value (vs ++ v ∷ [])
  map-snoc [] v = refl
  map-snoc (w ∷ vs) v = ap (◌∷◌ (value w)) (map-snoc vs v)

  pub index-of_list :
      (vs : List A) (i : ℕ) (v : A) → get_elem? vs i ≡ some v → index (of_list vs) i ≡ done v
  unfolding index of_list
  index-of_list vs i v e = ground (arith, get_elem?-map vs i, get_elem?-lt vs i e, length-map vs)

  pub emplace-of_list :
      (vs : List A) (v : A) → emplace (of_list vs) v ≡ done (length vs, of_list (vs ++ v ∷ []))
  unfolding emplace of_list alloc_slot
  emplace-of_list vs v =
      let len : length (map value vs ++ hole no_head ∷ []) - 1 ≡ length vs =
        omega (arith, length-append (map value vs) (hole no_head ∷ []), length-map vs) in
      let got : get_elem? (map value vs ++ hole no_head ∷ []) (length vs) ≡ some (hole no_head) =
        subst (λ n. get_elem? (map value vs ++ hole no_head ∷ []) n ≡ some (hole no_head))
          (length-map vs) (get_elem?-append_self (map value vs) (hole no_head)) in
      let put : set (map value vs ++ hole no_head ∷ []) (length vs) (value v)
          ≡ map value (vs ++ v ∷ []) =
        subst (λ n. set (map value vs ++ hole no_head ∷ []) n (value v) ≡ map value (vs ++ v ∷ []))
          (length-map vs)
          (set-append_self (map value vs) (hole no_head) (value v) ∙ map-snoc vs v) in
      let size : length vs + 1 ≡ length (vs ++ v ∷ []) = omega (arith, length-append vs (v ∷ [])) in
      rw (len, got, put, size) refl

module _ {ℓ} {A : Type ℓ} where
  pub modify-of_list :
      (ns : List (Node A)) (i : ℕ) (n : Node A) (f : List (A × ℕ) → List (A × ℕ))
      → get_elem? ns i ≡ some n
      → modify (of_list ns) i f ≡ done (of_list (set ns i (record { next = f n.next })))
  unfolding modify of_list
  modify-of_list ns i n f e =
      rw
        (
          index-of_list ns i n e,
          set-map ns i (record { next = f n.next }),
          ← length-set ns i (record { next = f n.next }),
        )
        refl
