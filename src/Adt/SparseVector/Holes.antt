-- ===== src/Adt/SparseVector/Holes.antt =====
-- SparseVector.h: the holes stand on the free list, the size counts the values, and what an index
-- reads after each operation.
use native.Mathlib.Numerals.{add-one}
use mathlib.Core.Option.{some-injective}
use caffeine.Prelude.{
  ℕ, zero, suc, ◌+◌, ◌-◌, ◌≤◌, ◌<◌, ◌≡◌, ◌≢◌, ◌⊎◌, refl, sym, ◌∙◌, ap, inl, inr, Option, none, some,
  List, [], ◌∷◌, ◌++◌, arith, ℕ_discrete, length, get_elem?, set, ◌==◌, if◌then◌else◌, Option-cases,
  done, throws, fault, done-injective, length-append, length-set, get_elem?-set_self,
  get_elem?-set_ne, get_elem?-lt, get_elem?-none, get_elem?-append_self, get_elem?-append_ne,
  set-append_self, get_elem?-none_ge,
}
use caffeine.Adt.FreeList.{
  no_head, FreeList, head-unused, no_head-full, FreeList-pop, FreeList-push, FreeList-grow,
}
use caffeine.Adt.SparseVector.{
  Elem, hole, value, SparseVector, get_value, index, emplace, erase, values, one_less,
}

abbrev pub link_of {ℓ} : {A : Type ℓ} → Option (Elem A) → Option ℕ
link_of none = none
link_of (some (hole n)) = some n
link_of (some (value v)) = none

abbrev pub hole_of {ℓ} : {A : Type ℓ} → List (Elem A) → ℕ → Option ℕ
hole_of es i = link_of (get_elem? es i)

-- The holes are exactly the indices on the free list, and the size is the number of values.
pub record IsWf {ℓ} {A : Type ℓ} (s : SparseVector A) : Type 0 where
  pub holes : FreeList (hole_of s.elements) (length s.elements) s.head
  pub counted : s.size ≡ length (values s.elements)

module _ {ℓ} {A : Type ℓ} where
  hole_of-set :
      (es : List (Elem A)) (i j : ℕ) (e : Elem A) → j ≢ i → hole_of (set es i e) j ≡ hole_of es j
  hole_of-set es i j e ne = ap link_of (get_elem?-set_ne es i j e (λ p. ne (sym p)))

  hole_of-set_self :
      (es : List (Elem A)) (i : ℕ) (e : Elem A)
      → i < length es
      → hole_of (set es i e) i ≡ link_of (some e)
  hole_of-set_self es i e lt = ap link_of (get_elem?-set_self es i e lt)

  values-fill :
      (es : List (Elem A)) (i n : ℕ) (v : A)
      → get_elem? es i ≡ some (hole n)
      → length (values (set es i (value v))) ≡ length (values es) + 1
  values-fill [] i n v p = cc
  values-fill (hole k ∷ es) zero n v p = omega arith
  values-fill (value w ∷ es) zero n v p = cc
  values-fill (hole k ∷ es) (suc i) n v p = values-fill es i n v p
  values-fill (value w ∷ es) (suc i) n v p = omega (arith, values-fill es i n v p)

  values-empty :
      (es : List (Elem A)) (i n : ℕ) (v : A)
      → get_elem? es i ≡ some (value v)
      → length (values (set es i (hole n))) + 1 ≡ length (values es)
  values-empty [] i n v p = cc
  values-empty (hole k ∷ es) zero n v p = cc
  values-empty (value w ∷ es) zero n v p = omega arith
  values-empty (hole k ∷ es) (suc i) n v p = values-empty es i n v p
  values-empty (value w ∷ es) (suc i) n v p = omega (arith, values-empty es i n v p)

  pub values-append : (xs ys : List (Elem A)) → values (xs ++ ys) ≡ values xs ++ values ys
  values-append [] ys = refl
  values-append (hole n ∷ xs) ys = values-append xs ys
  values-append (value v ∷ xs) ys = ap (◌∷◌ v) (values-append xs ys)

  hole_of-append :
      (es : List (Elem A)) (v : A) (i : ℕ) → hole_of (es ++ value v ∷ []) i ≡ hole_of es i
  hole_of-append es v i = elim (ℕ_discrete i (length es)) [
    | yes p ↦ rw p (
        ap link_of (get_elem?-append_self es (value v))
        ∙ sym (ap link_of (get_elem?-none es (length es) (omega arith))))
    | no ne ↦ ap link_of (get_elem?-append_ne es (value v) i ne)
  ]

  -- `index` after its bounds test, which no element fails.
  pub index-read :
      (s : SparseVector A) (i : ℕ)
      → index s i ≡ (elim (get_elem? s.elements i) [ none ↦ throws | some e ↦ get_value e ])
  unfolding index
  index-read s i = elim (Option-cases (get_elem? s.elements i)) [
    | inl p ↦ rw p (ground (arith, get_elem?-none_ge s.elements i p))
    | inr (e, p) ↦ rw p (ground (arith, get_elem?-lt s.elements i p))
  ]

  pub appended-IsWf :
      (s : SparseVector A) (v : A)
      → IsWf s
      → length s.elements < no_head
      → IsWf (record s { elements = s.elements ++ value v ∷ []; size = s.size + 1 })
  appended-IsWf s v wf room = record {
    holes =
        rw (length-append s.elements (value v ∷ []))
          (rw add-one (FreeList-grow _ _ wf.holes room (hole_of-append s.elements v)));
    counted =
        rw
          (
            values-append s.elements (value v ∷ []),
            length-append (values s.elements) (v ∷ []),
            wf.counted,
          )
          (omega arith);
  }

  filled-IsWf :
      (s : SparseVector A) (n : ℕ) (v : A)
      → IsWf s
      → s.head ≢ no_head
      → get_elem? s.elements s.head ≡ some (hole n)
      → IsWf (record { elements = set s.elements s.head (value v); size = s.size + 1; head = n })
  filled-IsWf s n v wf ne here = record {
    holes = rw length-set (
        FreeList-pop (hole_of s.elements) _ wf.holes ne (ap link_of here)
          (hole_of-set_self s.elements s.head (value v) (get_elem?-lt s.elements s.head here))
          (λ j d. hole_of-set s.elements s.head j (value v) d));
    counted = omega (arith, wf.counted, values-fill s.elements s.head n v here);
  }

  pub Elem-cases : (e : Elem A) → ((n : ℕ) × (e ≡ hole n)) ⊎ ((v : A) × (e ≡ value v))
  Elem-cases (hole n) = inl (n, refl)
  Elem-cases (value v) = inr (v, refl)

  hole_at : (es : List (Elem A)) (i n : ℕ) → hole_of es i ≡ some n → get_elem? es i ≡ some (hole n)
  hole_at es i n p = elim (Option-cases (get_elem? es i)) [
    | inl q ↦ let bad : hole_of es i ≡ none = ap link_of q in cc
    | inr (e, q) ↦ elim (Elem-cases e) [
      | inl (m, r) ↦
          let here : hole_of es i ≡ some m =
            ap link_of q ∙ ap (λ (x : Elem A). link_of (some x)) r in
          let same : m ≡ n = some-injective m n (sym here ∙ p) in
          q ∙ ap {B = Option (Elem A)} some (r ∙ ap hole same)
      | inr (v, r) ↦
          let here : hole_of es i ≡ none = ap link_of q ∙ ap (λ (x : Elem A). link_of (some x)) r in
          cc
    ]
  ]

  emplace_grow :
      (s : SparseVector A) (v : A)
      → s.head ≡ no_head
      → emplace s v
        ≡ done (
          length s.elements,
          record s { elements = s.elements ++ value v ∷ []; size = s.size + 1 },
        )
  unfolding emplace
  emplace_grow s v e =
      let last : length (s.elements ++ hole no_head ∷ []) - 1 ≡ length s.elements =
        omega (arith, length-append s.elements (hole no_head ∷ [])) in
      rw
        (
          e,
          last,
          get_elem?-append_self s.elements (hole no_head),
          set-append_self s.elements (hole no_head) (value v),
        )
        refl

  emplace_reuse :
      (s : SparseVector A) (n : ℕ) (v : A)
      → s.head ≢ no_head
      → get_elem? s.elements s.head ≡ some (hole n)
      → emplace s v
        ≡ done (
          s.head,
          record { elements = set s.elements s.head (value v); size = s.size + 1; head = n },
        )
  unfolding emplace
  emplace_reuse s n v ne here = rw here (ground (arith, here))

  index-elsewhere :
      (s t : SparseVector A) (i j : ℕ) (v : A)
      → ((k : ℕ) → k ≢ i → get_elem? t.elements k ≡ get_elem? s.elements k)
      → get_elem? t.elements i ≡ some (value v)
      → index t j ≡ (if i == j then done v else index s j)
  index-elsewhere s t i j v same here = elim (ℕ_discrete j i) [
    | yes p ↦ rw (p, index-read t i, here) (ground arith)
    | no ne ↦ rw (index-read t j, same j ne, ← index-read s j) (ground arith)
  ]

  values-full :
      (es : List (Elem A)) → ((i n : ℕ) → hole_of es i ≢ some n) → length (values es) ≡ length es
  values-full [] full = refl
  values-full (hole n ∷ es) full = absurd (full 0 n refl)
  values-full (value v ∷ es) full = ap suc (values-full es (λ i n p. full (suc i) n p))

  pub length-values-le : (es : List (Elem A)) → length (values es) ≤ length es
  length-values-le [] = omega arith
  length-values-le (hole n ∷ es) = omega (arith, length-values-le es)
  length-values-le (value v ∷ es) = omega (arith, length-values-le es)

  values-hole :
      (es : List (Elem A)) (i n : ℕ)
      → get_elem? es i ≡ some (hole n)
      → length (values es) < length es
  values-hole [] i n p = cc
  values-hole (hole k ∷ es) i n p = omega (arith, length-values-le es)
  values-hole (value w ∷ es) zero n p = cc
  values-hole (value w ∷ es) (suc i) n p = omega (arith, values-hole es i n p)

  -- `emplace` in a well-formed vector with room gives an index that read nothing before; it reads
  -- the new value now, every other index reads what it read, and the vector is well-formed again.
  -- Where every element is a value it is the index past the end, and the vector is one element
  -- longer; where a hole is left it is the index of a hole, and the vector keeps its length.
  pub emplace-index :
      (s : SparseVector A) (v : A)
      → IsWf s
      → length s.elements < no_head
      → (i : ℕ) × (s' : SparseVector A) × (emplace s v ≡ done (i, s'))
        × IsWf s'
        × (index s i ≡ throws)
        × ((j : ℕ) → index s' j ≡ (if i == j then done v else index s j))
        × (((s.size ≡ length s.elements)
              × (i ≡ length s.elements)
              × (length s'.elements ≡ length s.elements + 1))
            ⊎ ((s.size < length s.elements)
                × ((n : ℕ) × (get_elem? s.elements i ≡ some (hole n)))
                × (length s'.elements ≡ length s.elements)))
  emplace-index s v wf room = elim (ℕ_discrete s.head no_head) [
    | yes e ↦ (
      length s.elements,
      _,
      emplace_grow s v e,
      appended-IsWf s v wf room,
      index-read s (length s.elements)
          ∙ rw (get_elem?-none s.elements (length s.elements) (omega arith)) refl,
      λ j.
          index-elsewhere s _ (length s.elements) j v
            (λ k d. get_elem?-append_ne s.elements (value v) k d)
            (get_elem?-append_self s.elements (value v)),
      inl (
        wf.counted ∙ values-full s.elements (no_head-full (hole_of s.elements) wf.holes e),
        refl,
        length-append s.elements (value v ∷ []),
      ),
    )
    | no ne ↦
        let (n, unused) = head-unused (hole_of s.elements) wf.holes ne in
        let here = hole_at s.elements s.head n unused in
        (
          s.head,
          _,
          emplace_reuse s n v ne here,
          filled-IsWf s n v wf ne here,
          index-read s s.head ∙ rw here refl,
          λ j.
              index-elsewhere s _ s.head j v
                (λ k d. get_elem?-set_ne s.elements s.head k (value v) (λ q. d (sym q)))
                (get_elem?-set_self s.elements s.head (value v)
                  (get_elem?-lt s.elements s.head here)),
          inr (
            omega (arith, wf.counted, values-hole s.elements s.head n here),
            (n, here),
            length-set s.elements s.head (value v),
          ),
        )
  ]

  index_value :
      (s : SparseVector A) (i : ℕ) (v : A)
      → index s i ≡ done v
      → get_elem? s.elements i ≡ some (value v)
  index_value s i v p = elim (Option-cases (get_elem? s.elements i)) [
    | inl q ↦ let bad : index s i ≡ throws = index-read s i ∙ rw q refl in cc
    | inr (e, q) ↦ elim (Elem-cases e) [
      | inl (n, r) ↦ let bad : index s i ≡ throws = index-read s i ∙ rw (q, r) refl in cc
      | inr (w, r) ↦
          let got : index s i ≡ done w = index-read s i ∙ rw (q, r) refl in
          q ∙ r' e v (r ∙ ap value (done-injective (sym got ∙ p)))
    ]
  ]
    where
      r' : (e : Elem A) (w : A) → e ≡ value w → some e ≡ some (value w)
      r' e w x = ap {B = Option (Elem A)} some x

  erased-IsWf :
      (s : SparseVector A) (i : ℕ) (v : A)
      → IsWf s
      → get_elem? s.elements i ≡ some (value v)
      → IsWf
          (record { elements = set s.elements i (hole s.head); size = one_less s.size; head = i })
  erased-IsWf s i v wf here = record {
    holes = rw length-set (
        FreeList-push (hole_of s.elements) _ i wf.holes (ap link_of here)
          (get_elem?-lt s.elements i here)
          (hole_of-set_self s.elements i (hole s.head) (get_elem?-lt s.elements i here))
          (λ j d. hole_of-set s.elements i j (hole s.head) d));
    counted =
        let fewer = values-empty s.elements i s.head v here in ground (arith, wf.counted, fewer);
  }

  -- `erase` of an index that reads a value makes it read nothing, keeps every other reading and the
  -- well-formedness, and counts one value less; any other index is a failed assertion.
  pub erase-index :
      (s : SparseVector A) (i : ℕ)
      → IsWf s
      → ((v : A) × (s' : SparseVector A) × (index s i ≡ done v)
          × (erase s i ≡ done s')
          × IsWf s'
          × (s'.size + 1 ≡ s.size)
          × ((j : ℕ) → index s' j ≡ (if i == j then throws else index s j)))
        ⊎ ((index s i ≡ throws) × (erase s i ≡ fault))
  erase-index s i wf = elim (Option-cases (get_elem? s.elements i)) [
    | inl p ↦ inr (
      index-read s i ∙ rw p refl,
      unfold erase in ground (arith, get_elem?-none_ge s.elements i p),
    )
    | inr (e, p) ↦ elim (Elem-cases e) [
      | inl (n, q) ↦ inr (
        index-read s i ∙ rw (p, q) refl,
        unfold erase in rw (p, q) (ground (arith, get_elem?-lt s.elements i p)),
      )
      | inr (v, q) ↦
          let here : get_elem? s.elements i ≡ some (value v) = rw (← q) p in
          inl (
            v,
            record { elements = set s.elements i (hole s.head); size = one_less s.size; head = i },
            index-read s i ∙ rw here refl,
            unfold erase in rw here (ground (arith, get_elem?-lt s.elements i here)),
            erased-IsWf s i v wf here,
            (let fewer = values-empty s.elements i s.head v here in
                ground (arith, wf.counted, fewer)),
            λ j. erased j here,
          )
    ]
  ]
    where
      erased :
          (j : ℕ) {v : A}
          → get_elem? s.elements i ≡ some (value v)
          → index
              (record {
                elements = set s.elements i (hole s.head);
                size = one_less s.size;
                head = i;
              })
              j
            ≡ (if i == j then throws else index s j)
      erased j here = elim (ℕ_discrete j i) [
        | yes p ↦
            rw
              (
                p,
                index-read _ i,
                get_elem?-set_self s.elements i (hole s.head) (get_elem?-lt s.elements i here),
              )
              (ground arith)
        | no ne ↦
            rw
              (
                index-read _ j,
                get_elem?-set_ne s.elements i j (hole s.head) (λ q. ne (sym q)),
                ← index-read s j,
              )
              (ground arith)
      ]
