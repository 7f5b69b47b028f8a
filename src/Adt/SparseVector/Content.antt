-- ===== src/Adt/SparseVector/Content.antt =====
-- SparseVector.h: what a loop over the vector sees, and what compressing and clearing leave.
use native.Mathlib.Numerals.{add-one}
use caffeine.Prelude.{
  ℕ, zero, suc, ◌+◌, ◌≤◌, ◌<◌, ◌≡◌, ◌≢◌, refl, sym, ◌∙◌, ap, inl, inr, some, List, [], ◌∷◌, ◌++◌,
  arith, length, get_elem?, ◌==◌, Bool-cases, done, >>=-eq-done, ◌>>=◌, length-append, get_elem?-lt,
  get_elem?-some, drop, drop-get_elem?, drop_all,
}
use caffeine.Adt.FreeList.{no_head, FreeList}
use caffeine.Adt.SparseVector.{
  Elem, hole, value, SparseVector, emplace_back, compress, end, skip, increment, collect, to_list,
  values, without_holes,
}
use caffeine.Adt.SparseVector.Holes.{
  length-values-le, IsWf, Elem-cases, values-append, appended-IsWf, hole_of,
}

module _ {ℓ} {A : Type ℓ} (s : SparseVector A) where
  pub skip_end : (f : ℕ) → skip (suc f) s (length s.elements) ≡ done (length s.elements)
  unfolding skip end
  skip_end f = ground arith

  pub skip_hole :
      (f i n : ℕ) → get_elem? s.elements i ≡ some (hole n) → skip (suc f) s i ≡ skip f s (i + 1)
  unfolding skip end
  skip_hole f i n p = rw p (ground (arith, get_elem?-lt s.elements i p))

  pub skip_value :
      (f i : ℕ) (v : A) → get_elem? s.elements i ≡ some (value v) → skip (suc f) s i ≡ done i
  unfolding skip end
  skip_value f i v p = rw p (ground (arith, get_elem?-lt s.elements i p))

  collect_end : (f : ℕ) → collect (suc f) s (length s.elements) ≡ done []
  unfolding collect end
  collect_end f = ground arith

  collect_value :
      (f i : ℕ) (v : A) (vs : List A)
      → get_elem? s.elements i ≡ some (value v)
      → (skip (length s.elements + 1) s (i + 1) >>= collect f s) ≡ done vs
      → collect (suc f) s i ≡ done (v ∷ vs)
  unfolding collect end increment
  collect_value f i v vs p rest =
      let (j, q, r) = >>=-eq-done (skip (length s.elements + 1) s (i + 1)) (collect f s) rest in
      ground (arith, p, q, r, get_elem?-lt s.elements i p)

  -- The values from index `i` on.
  abbrev pub remaining : ℕ → List A
  remaining i = values (drop i s.elements)

  pub remaining_step :
      (i : ℕ) (e : Elem A)
      → get_elem? s.elements i ≡ some e
      → remaining i ≡ values (e ∷ drop (i + 1) s.elements)
  remaining_step i e p = rw (add-one, drop-get_elem? s.elements i e p) refl

  pub collect-skip :
      (n i f fuel : ℕ)
      → i + n ≡ length s.elements
      → n < f
      → n < fuel
      → (skip f s i >>= collect fuel s) ≡ done (remaining i)
  collect-skip n i zero fuel e enough lt = absurd (omega arith)
  collect-skip n i (suc f) zero e enough lt = absurd (omega arith)
  collect-skip zero i (suc f) (suc fuel) e enough lt =
      let last : i ≡ length s.elements = omega arith in
      rw (last, skip_end f, drop_all s.elements (length s.elements) (omega arith))
        (collect_end fuel)
  collect-skip (suc n) i (suc f) (suc fuel) e enough lt =
      let (x, p) = get_elem?-some s.elements i (omega arith) in
      elim (Elem-cases x) [
        | inl (k, q) ↦
            rw (skip_hole f i k (rw (← q) p), remaining_step i x p, q)
              (collect-skip n (i + 1) f (suc fuel) (omega arith) (omega arith) (omega arith))
        | inr (v, q) ↦
            rw (skip_value f i v (rw (← q) p), remaining_step i x p, q)
              (collect_value fuel i v _ (rw (← q) p) (
                collect-skip n (i + 1) (length s.elements + 1) fuel (omega arith) (omega arith)
                  (omega arith)))
      ]

module _ {ℓ} {A : Type ℓ} where
  begins_hole :
      (s : SparseVector A) (n : ℕ) (es : List (Elem A))
      → s.elements ≡ hole n ∷ es
      → to_list s ≡ (skip (length s.elements + 1) s 1 >>= collect (length s.elements + 1) s)
  unfolding to_list
  begins_hole s n es e = rw e refl

  begins_value :
      (s : SparseVector A) (v : A) (es : List (Elem A))
      → s.elements ≡ value v ∷ es
      → to_list s ≡ collect (length s.elements + 1) s 0
  unfolding to_list
  begins_value s v es e = rw e refl

  begins_nil : (s : SparseVector A) → s.elements ≡ [] → to_list s ≡ done (values s.elements)
  unfolding to_list
  begins_nil s e = rw e refl

  -- A loop from begin() to end() ends without a fault and sees the values in their order.
  pub to_list-values : (s : SparseVector A) → to_list s ≡ done (values s.elements)
  to_list-values s = from_first s.elements refl
    where
      from_first : (es : List (Elem A)) → s.elements ≡ es → to_list s ≡ done (values s.elements)
      from_first [] e = begins_nil s e
      from_first (hole n ∷ es) e =
          let size : length s.elements ≡ suc (length es) = ap length e in
          let first : remaining s 1 ≡ values s.elements = rw e refl in
          begins_hole s n es e
          ∙ collect-skip s (length es) 1 (length s.elements + 1) (length s.elements + 1)
              (omega arith) (omega arith) (omega arith)
          ∙ ap done first
      from_first (value v ∷ es) e =
          let here : get_elem? s.elements 0 ≡ some (value v) = rw e refl in
          begins_value s v es e
          ∙ (rw (skip_value s (length s.elements) 0 v here) at (
              collect-skip s (length s.elements) 0 (suc (length s.elements)) (length s.elements + 1)
                (omega arith) (omega arith) (omega arith)))

  values-without_holes : (es : List (Elem A)) → values (without_holes es) ≡ values es
  values-without_holes [] = refl
  values-without_holes (hole n ∷ es) = values-without_holes es
  values-without_holes (value v ∷ es) = ap (◌∷◌ v) (values-without_holes es)

  no_holes : (es : List (Elem A)) (i n : ℕ) → hole_of (without_holes es) i ≢ some n
  no_holes [] i n p = cc
  no_holes (hole k ∷ es) i n p = no_holes es i n p
  no_holes (value v ∷ es) zero n p = cc
  no_holes (value v ∷ es) (suc i) n p = no_holes es i n p

  length-without_holes : (es : List (Elem A)) → length (without_holes es) ≡ length (values es)
  length-without_holes [] = refl
  length-without_holes (hole n ∷ es) = length-without_holes es
  length-without_holes (value v ∷ es) = ap suc (length-without_holes es)

  full-FreeList :
      (es : List (Elem A))
      → ((i n : ℕ) → hole_of es i ≢ some n)
      → length es ≤ no_head
      → FreeList (hole_of es) (length es) no_head
  full-FreeList es full fits = record {
    cells = [];
    chain = refl;
    distinct = tt;
    covers = λ i n p. absurd (full i n p);
    within = λ i n p. absurd (full i n p);
    fits = fits;
  }

  -- `compress` keeps the values and their order, and leaves as many elements as values.
  pub compress-values :
      (s : SparseVector A)
      → IsWf s
      → IsWf (compress s)
        × (values (compress s).elements ≡ values s.elements)
        × (length (compress s).elements ≡ s.size)
  unfolding compress
  compress-values s wf = elim (Bool-cases (s.size == length s.elements)) [
    | inl p ↦ rw p (wf, refl, ground arith)
    | inr p ↦ rw p (
      record {
        holes = full-FreeList (without_holes s.elements) (no_holes s.elements) (
            omega
              (arith, length-without_holes s.elements, length-values-le s.elements, wf.holes.fits));
        counted =
            length-without_holes s.elements ∙ sym (ap length (values-without_holes s.elements));
      },
      values-without_holes s.elements,
      length-without_holes s.elements ∙ sym wf.counted,
    )
  ]

  pub emplace_back_appends :
      (s : SparseVector A) (v : A)
      → values (emplace_back s v).1.elements ≡ values s.elements ++ v ∷ []
  unfolding emplace_back
  emplace_back_appends s v = values-append s.elements (value v ∷ [])

  -- `emplace_back` gives the index past the end, appends to what a loop sees, and keeps the vector
  -- well-formed, holes or not.
  pub emplace_back-values :
      (s : SparseVector A) (v : A)
      → IsWf s
      → length s.elements < no_head
      → ((emplace_back s v).0 ≡ length s.elements)
        × IsWf (emplace_back s v).1
        × (values (emplace_back s v).1.elements ≡ values s.elements ++ v ∷ [])
  unfolding emplace_back
  emplace_back-values s v wf room = (
    omega (arith, length-append s.elements (value v ∷ [])),
    appended-IsWf s v wf room,
    values-append s.elements (value v ∷ []),
  )
