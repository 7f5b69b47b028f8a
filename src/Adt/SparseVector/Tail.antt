-- ===== src/Adt/SparseVector/Tail.antt =====
-- The values at the end of a SparseVector, as a loop that erases them meets them.
use caffeine.Prelude.{
  ltb, leb, ◌==◌, ==_iff, done, ℕ, suc, ◌+◌, ◌<◌, ◌≡◌, refl, sym, ap, ◌∙◌, true, false, some, arith,
  List, [], ◌∷◌,
}
use caffeine.Prelude.{length, get_elem?, set, ◌++◌, map, length-append}
use caffeine.Adt.SparseVector.{
  Elem, hole, value, SparseVector, one_less, index, erase, increment, skip, end, backing_size,
}

module _ {ℓ} {A : Type ℓ} where
  pub get_elem?_middle : (xs ys : List A) (y : A) → get_elem? (xs ++ y ∷ ys) (length xs) ≡ some y
  get_elem?_middle [] ys y = refl
  get_elem?_middle (x ∷ xs) ys y = get_elem?_middle xs ys y

  set_middle : (xs ys : List A) (y z : A) → set (xs ++ y ∷ ys) (length xs) z ≡ xs ++ z ∷ ys
  set_middle [] ys y z = refl
  set_middle (x ∷ xs) ys y z = ap (◌∷◌ x) (set_middle xs ys y z)

  length_middle : (xs ys : List A) (y : A) → length xs < length (xs ++ y ∷ ys)
  length_middle xs ys y = omega (arith, length-append xs (y ∷ ys))

module _ {ℓ} {A : Type ℓ} where
  pub index_middle :
      (s : SparseVector A) (pre rest : List (Elem A)) (v : A)
      → s.elements ≡ pre ++ value v ∷ rest
      → index s (length pre) ≡ done v
  unfolding index
  index_middle s pre rest v e =
      let inside : leb (length (pre ++ value v ∷ rest)) (length pre) ≡ false =
        ground (arith, length_middle pre rest (value v)) in
      rw (e, inside, get_elem?_middle pre rest (value v)) refl

  pub erase_middle :
      (s : SparseVector A) (pre rest : List (Elem A)) (v : A)
      → s.elements ≡ pre ++ value v ∷ rest
      → erase s (length pre)
        ≡ done (record {
          elements = pre ++ hole s.head ∷ rest;
          size = one_less s.size;
          head = length pre;
        })
  unfolding erase
  erase_middle s pre rest v e =
      let inside : ltb (length pre) (length (pre ++ value v ∷ rest)) ≡ true =
        ground (arith, length_middle pre rest (value v)) in
      rw
        (
          e,
          inside,
          get_elem?_middle pre rest (value v),
          set_middle pre rest (value v) (hole s.head),
        )
        refl

  -- The step to the next of the values, or to the end.
  pub increment_tail :
      (s : SparseVector A) (pre : List (Elem A)) (vs : List A) (i : ℕ)
      → s.elements ≡ pre ++ map value vs
      → length pre ≡ i + 1
      → increment s i ≡ done (i + 1)
  unfolding increment skip end
  increment_tail s pre [] i e at =
      let last : (i + 1 == length s.elements) ≡ true =
        (==_iff _ _).1 (omega (arith, at, ap length e, length-append pre [])) in
      let fuel : backing_size s + 1 ≡ suc (backing_size s) = omega arith in rw (fuel, last) refl
  increment_tail s pre (v ∷ vs) i e at =
      let inside : (i + 1 == length s.elements) ≡ false =
        ground (arith, at, ap length e, length_middle pre (map value vs) (value v)) in
      let here : get_elem? s.elements (i + 1) ≡ some (value v) =
        ap (λ es. get_elem? es (i + 1)) e
        ∙ ap (get_elem? (pre ++ value v ∷ map value vs)) (sym at)
        ∙ get_elem?_middle pre (map value vs) (value v) in
      let fuel : backing_size s + 1 ≡ suc (backing_size s) = omega arith in
      rw (fuel, inside, here) refl
