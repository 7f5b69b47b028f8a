-- ===== src/Adt/SharedArray/Copies.antt =====
-- SharedArray.cpp: copies share their contents, and a store on one of them is not seen by the other.
use caffeine.Prelude.{
  ltb, leb, ◌==◌, if◌then◌else◌, Bool-cases, done, fault, ◌>>=◌, or_fault, ℕ, zero, suc, ◌+◌, ◌<◌,
  ◌≡◌, refl, sym, ap, ◌∙◌, subst, ◌↔◌, inl, inr, Bool, true, false, some, arith, List, ◌∷◌,
}
use caffeine.Prelude.{
  length, get_elem?, set, drop, drop-get_elem?, drop_all, get_elem?-set_self, get_elem?-set_ne,
  get_elem?-some, ℕ_discrete,
}
use caffeine.Adt.SharedArray.{
  Variant, flat, modified, SharedArray, min_copy_size, load, store, copied, copy_assign, equal_from,
  equals,
}
use caffeine.Adt.SharedArray.Contents.{plain, Bounded, IsWf, load-plain, store-plain}

module _ {ℓ} {A : Type ℓ} where
  copied-plain : (v : Variant A) → plain (copied v) ≡ plain v
  unfolding copied plain
  copied-plain (flat xs) = elim (Bool-cases (leb (length xs) min_copy_size)) [
    | inl e ↦ rw e refl
    | inr e ↦ rw e refl
  ]
  copied-plain (modified v ch) = elim (Bool-cases (leb (length ch) min_copy_size)) [
    | inl e ↦ rw e refl
    | inr e ↦ rw e refl
  ]

  copied-Bounded : (n : ℕ) (v : Variant A) → Bounded n v → Bounded n (copied v)
  unfolding copied
  copied-Bounded n (flat xs) b = elim (Bool-cases (leb (length xs) min_copy_size)) [
    | inl e ↦ rw e b
    | inr e ↦ rw e (tt, b)
  ]
  copied-Bounded n (modified v ch) b = elim (Bool-cases (leb (length ch) min_copy_size)) [
    | inl e ↦ rw e b
    | inr e ↦ rw e (tt, b)
  ]

  -- Both sides of a copy are well-formed and hold the contents that the source had.
  pub copy_assign-plain :
      (s : SharedArray A)
      → IsWf s
      → IsWf (copy_assign s).0
        × IsWf (copy_assign s).1
        × (plain (copy_assign s).0.content ≡ plain s.content)
        × (plain (copy_assign s).1.content ≡ plain s.content)
  unfolding copy_assign
  copy_assign-plain s wf =
      let sized : length (plain (copied s.content)) ≡ s.size =
        ap length (copied-plain s.content) ∙ wf.sized in
      let bounded = copied-Bounded s.size s.content wf.bounded in
      (
        record { sized = sized; bounded = bounded },
        record { sized = sized; bounded = bounded },
        copied-plain s.content,
        copied-plain s.content,
      )

  load_total :
      (s : SharedArray A) (i : ℕ)
      → IsWf s
      → load s i ≡ (if ltb i s.size then or_fault (get_elem? (plain s.content) i) else fault)
  load_total s i wf = elim (Bool-cases (ltb i s.size)) [
    | inl e ↦
        let sized = wf.sized in
        let (a, got) = get_elem?-some (plain s.content) i (ground arith) in
        rw (e, got) (load-plain s i a wf got)
    | inr e ↦ unfold load in rw (e, ◌>>=◌) refl
  ]

  load-cong :
      (s t : SharedArray A) (i : ℕ)
      → IsWf s
      → IsWf t
      → s.size ≡ t.size
      → get_elem? (plain s.content) i ≡ get_elem? (plain t.content) i
      → load s i ≡ load t i
  load-cong s t i ws wt size e = load_total s i ws ∙ rw (size, e) refl ∙ sym (load_total t i wt)

module _ {ℓ} {A : Type ℓ} (same : A → A → Bool)
    (same-eq : (a b : A) → (same a b ≡ true) ↔ (a ≡ b)) where
  -- A store below the size on the copy of an array ends well. The copy then loads the new element
  -- at its index and what the array had at any other, and the array loads what it had.
  pub copy_assign-store :
      (s : SharedArray A) (i : ℕ) (a : A)
      → IsWf s
      → i < s.size
      → (t : SharedArray A) × (store same (copy_assign s).1 i a ≡ done t)
        × IsWf t
        × ((j : ℕ) → load t j ≡ (if i == j then done a else load s j))
        × ((j : ℕ) → load (copy_assign s).0 j ≡ load s j)
  unfolding copy_assign
  copy_assign-store s i a wf lt =
      let (ws, wc, plain_s, plain_c) = copy_assign-plain s wf in
      let (t, ran, wt, size, stored) = store-plain same same-eq (copy_assign s).1 i a wc lt in
      let contents : plain t.content ≡ set (plain s.content) i a =
        stored ∙ ap (λ xs. set xs i a) plain_c in
      let sized = wf.sized in
      (
        t,
        ran,
        wt,
        (λ j. elim (ℕ_discrete i j) [
          | yes p ↦
              let hit : (i == j) ≡ true = ground arith in
              rw hit (
                load-plain t j a wt (
                  ap (λ xs. get_elem? xs j) contents
                  ∙ subst (λ k. get_elem? (set (plain s.content) i a) k ≡ some a) p
                      (get_elem?-set_self (plain s.content) i a (omega arith))))
          | no p ↦
              let miss : (i == j) ≡ false = ground arith in
              rw miss (
                load-cong t s j wt wf size
                  (ap (λ xs. get_elem? xs j) contents ∙ get_elem?-set_ne (plain s.content) i j a p))
        ]),
        λ j. load-cong (copy_assign s).0 s j ws wf refl (ap (λ xs. get_elem? xs j) plain_s),
      )

  both_done :
      (s t : SharedArray A) (i : ℕ)
      → IsWf s
      → IsWf t
      → s.size ≡ t.size
      → i + 0 ≡ s.size
      → drop i (plain s.content) ≡ drop i (plain t.content)
  both_done s t i ws wt size e =
      let sized = ws.sized in
      let sized' = wt.sized in
      drop_all (plain s.content) i (omega arith) ∙ sym (drop_all (plain t.content) i (omega arith))

  ap2 : (a b : A) {xs ys : List A} → a ≡ b → xs ≡ ys → a ∷ xs ≡ b ∷ ys
  ap2 a b p q = cc

  tails : {a b : A} {xs ys : List A} → a ∷ xs ≡ b ∷ ys → xs ≡ ys
  tails p = cc

  heads : {a b : A} {xs ys : List A} → a ∷ xs ≡ b ∷ ys → a ≡ b
  heads p = cc

  differ :
      (s t : SharedArray A)
      → IsWf s
      → IsWf t
      → (s.size == t.size) ≡ false
      → plain s.content ≡ plain t.content
      → false ≡ true
  differ s t ws wt e p =
      let sized = ws.sized in
      let sized' = wt.sized in
      let lengths : length (plain s.content) ≡ length (plain t.content) = ap length p in
      ground arith

  equal_from-drop :
      (s t : SharedArray A) (i rounds : ℕ)
      → IsWf s
      → IsWf t
      → s.size ≡ t.size
      → i + rounds ≡ s.size
      → (b : Bool) × (equal_from same s t i rounds ≡ done b)
        × ((b ≡ true) ↔ (drop i (plain s.content) ≡ drop i (plain t.content)))
  unfolding equal_from
  equal_from-drop s t i zero ws wt size e =
      (true, refl, ((λ _. both_done s t i ws wt size e), λ _. refl))
  equal_from-drop s t i (suc rounds) ws wt size e =
      let sized = ws.sized in
      let sized' = wt.sized in
      let (a, got) = get_elem?-some (plain s.content) i (omega arith) in
      let (b, got') = get_elem?-some (plain t.content) i (omega arith) in
      let at_s = drop-get_elem? (plain s.content) i a got in
      let at_t = drop-get_elem? (plain t.content) i b got' in
      elim (Bool-cases (same a b)) [
        | inl q ↦
            let (c, ran, means) = equal_from-drop s t (suc i) rounds ws wt size (omega arith) in
            let next : i + 1 ≡ suc i = omega arith in
            let more : equal_from same s t (i + 1) rounds ≡ done c =
              ap (λ k. equal_from same s t k rounds) next ∙ ran in
            (
              c,
              rw (load-plain s i a ws got, load-plain t i b wt got', ◌>>=◌, q) more,
              (
                (λ p. at_s ∙ ap2 a b ((same-eq a b).0 q) (means.0 p) ∙ sym at_t),
                λ p. means.1 (tails (sym at_s ∙ p ∙ at_t)),
              ),
            )
        | inr q ↦ (
          false,
          rw (load-plain s i a ws got, load-plain t i b wt got', ◌>>=◌, q) refl,
          ((λ p. cc), λ p. cc ((same-eq a b).1 (heads (sym at_s ∙ p ∙ at_t)))),
        )
      ]

  -- operator== ends well on well-formed arrays, and answers whether their contents are equal.
  pub equals-plain :
      (s t : SharedArray A)
      → IsWf s
      → IsWf t
      → (b : Bool) × (equals same s t ≡ done b) × ((b ≡ true) ↔ (plain s.content ≡ plain t.content))
  unfolding equals
  equals-plain s t ws wt = elim (Bool-cases (s.size == t.size)) [
    | inl e ↦
        let (b, ran, means) = equal_from-drop s t 0 s.size ws wt (ground arith) (omega arith) in
        (b, rw e ran, means)
    | inr e ↦ (false, rw e refl, ((λ p. cc), λ p. differ s t ws wt e p))
  ]
