-- ===== src/Adt/SharedArray/Contents.antt =====
-- SharedArray.cpp: the array that a shared array stands for, under every operation.
use caffeine.Prelude.{
  ltb, ◌==◌, Bool-cases, Option-cases, Outcome, done, ◌>>=◌, or_throw, ℕ, zero, suc, ◌+◌, ◌<◌, ◌≡◌,
  refl, sym, ap, ◌∙◌, subst, ◌≢◌, ◌↔◌, ◌⊎◌, inl, inr, Bool, true, false, none, some, arith, List,
  [], ◌∷◌,
}
use caffeine.Prelude.{
  length, get_elem?, set, drop, drop-get_elem?, drop_all, length-set, get_elem?-set_self,
  get_elem?-set_ne, get_elem?-some, get_elem?-lt, ℕ_discrete,
}
use caffeine.Adt.SharedArray.{
  Variant, flat, modified, SharedArray, find, assign, modified_index, index, load, loads, flatten,
  store, store_content, store_change, is_flat, over_threshold,
}

module _ {ℓ} {A : Type ℓ} where
  unfoldable pub applied : List (ℕ × A) → List A → List A
  applied [] xs = xs
  applied ((i, a) ∷ ch) xs = set (applied ch xs) i a

  -- The vector with all changes made, the newest last.
  unfoldable pub plain : Variant A → List A
  unfolding applied
  plain (flat xs) = xs
  plain (modified v ch) = applied ch (plain v)

  abbrev pub Within : ℕ → List (ℕ × A) → Type 0
  Within n [] = Unit
  Within n ((i, a) ∷ ch) = (i < n) × Within n ch

  -- Every change is to an index of the array.
  abbrev pub Bounded : ℕ → Variant A → Type 0
  Bounded n (flat xs) = Unit
  Bounded n (modified v ch) = Within n ch × Bounded n v

  pub record IsWf (s : SharedArray A) : Type ℓ where
    pub sized : length (plain s.content) ≡ s.size
    pub bounded : Bounded s.size s.content

  length-applied : (ch : List (ℕ × A)) (xs : List A) → length (applied ch xs) ≡ length xs
  unfolding applied
  length-applied [] xs = refl
  length-applied ((i, a) ∷ ch) xs = length-set (applied ch xs) i a ∙ length-applied ch xs

  find-some :
      (i : ℕ) (ch : List (ℕ × A)) (xs : List A) (a : A)
      → Within (length xs) ch
      → find i ch ≡ some a
      → get_elem? (applied ch xs) i ≡ some a
  unfolding find applied
  find-some i [] xs a w e = cc
  find-some i ((j, b) ∷ ch) xs a (lt, w) e = elim (ℕ_discrete j i) [
    | yes p ↦
        let hit : (j == i) ≡ true = ground arith in
        subst (λ k. get_elem? (set (applied ch xs) j b) k ≡ some a) p
          (get_elem?-set_self (applied ch xs) j b (omega (arith, length-applied ch xs))
            ∙ (rw hit at e))
    | no p ↦
        let miss : (j == i) ≡ false = ground arith in
        get_elem?-set_ne (applied ch xs) j i b p ∙ find-some i ch xs a w (rw miss at e)
  ]

  find-none :
      (i : ℕ) (ch : List (ℕ × A)) (xs : List A)
      → find i ch ≡ none
      → get_elem? (applied ch xs) i ≡ get_elem? xs i
  unfolding find applied
  find-none i [] xs e = refl
  find-none i ((j, b) ∷ ch) xs e = elim (ℕ_discrete j i) [
    | yes p ↦ let hit : (j == i) ≡ true = ground arith in cc (rw hit at e)
    | no p ↦
        let miss : (j == i) ≡ false = ground arith in
        get_elem?-set_ne (applied ch xs) j i b p ∙ find-none i ch xs (rw miss at e)
  ]

  modified_index-plain :
      (v : Variant A) (ch : List (ℕ × A)) (n i : ℕ)
      → Within n ch
      → Bounded n v
      → length (plain v) ≡ n
      → modified_index v ch i ≡ or_throw (get_elem? (plain (modified v ch)) i)
  unfolding modified_index plain
  modified_index-plain (flat xs) ch n i w b e = elim (Option-cases (find i ch)) [
    | inl f ↦ rw (f, modified_index, find-none i ch xs f) refl
    | inr (a, f) ↦
        rw (f, modified_index, find-some i ch xs a (subst (λ k. Within k ch) (sym e) w) f) refl
  ]
  modified_index-plain (modified v below) ch n i w (w', b) e = elim (Option-cases (find i ch)) [
    | inl f ↦
        rw (f, modified_index, find-none i ch (applied below (plain v)) f)
          (modified_index-plain v below n i w' b (sym (length-applied below (plain v)) ∙ e))
    | inr (a, f) ↦
        rw
          (
            f,
            modified_index,
            find-some i ch (applied below (plain v)) a (subst (λ k. Within k ch) (sym e) w) f,
          )
          refl
  ]

  index-plain :
      (v : Variant A) (n i : ℕ) (a : A)
      → Bounded n v
      → length (plain v) ≡ n
      → get_elem? (plain v) i ≡ some a
      → index v i ≡ done a
  unfolding index plain
  index-plain (flat xs) n i a b l e = rw e refl
  index-plain (modified v ch) n i a (w, b) l e =
      modified_index-plain v ch n i w b (sym (length-applied ch (plain v)) ∙ l) ∙ ap or_throw e

  pub Variant-cases :
      (v : Variant A)
      → ((xs : List A) × (v ≡ flat xs))
        ⊎ ((w : Variant A) × (ch : List (ℕ × A)) × (v ≡ modified w ch))
  Variant-cases (flat xs) = inl (xs, refl)
  Variant-cases (modified w ch) = inr (w, ch, refl)

  -- A load below the size gives the element.
  pub load-plain :
      (s : SharedArray A) (i : ℕ) (a : A)
      → IsWf s
      → get_elem? (plain s.content) i ≡ some a
      → load s i ≡ done a
  unfolding load
  load-plain s i a wf e =
      let sized = wf.sized in
      let lt = get_elem?-lt (plain s.content) i e in
      let fits : ltb i s.size ≡ true = ground arith in
      rw (fits, ◌>>=◌) (index-plain s.content s.size i a wf.bounded wf.sized e)

  loads-plain :
      (s : SharedArray A) (i rounds : ℕ)
      → IsWf s
      → i + rounds ≡ s.size
      → loads s i rounds ≡ done (drop i (plain s.content))
  unfolding loads
  loads-plain s i zero wf e =
      ap done (sym (drop_all (plain s.content) i (let sized = wf.sized in omega arith)))
  loads-plain s i (suc rounds) wf e =
      let sized = wf.sized in
      let (a, got) = get_elem?-some (plain s.content) i (omega arith) in
      rw (load-plain s i a wf got, loads-plain s (i + 1) rounds wf (omega arith))
        (ap done (
          sym (
            drop-get_elem? (plain s.content) i a got
            ∙ ap (λ k. a ∷ drop k (plain s.content))
                (let one : suc i ≡ i + 1 = omega arith in one))))

  pub flatten-plain :
      (s : SharedArray A)
      → IsWf s
      → (s' : SharedArray A) × (flatten s ≡ done s')
        × IsWf s'
        × (s'.size ≡ s.size)
        × (plain s'.content ≡ plain s.content)
        × (is_flat s'.content ≡ true)
  unfolding flatten plain
  flatten-plain s wf = elim (Variant-cases s.content) [
    | inl (xs, e) ↦ (s, rw (ap is_flat e) refl, wf, refl, refl, ap is_flat e)
    | inr (v, ch, e) ↦ (
      record s { content = flat (plain s.content) },
      rw (ap is_flat e, loads-plain s 0 s.size wf (omega arith)) refl,
      record { sized = wf.sized; bounded = tt },
      refl,
      refl,
      refl,
    )
  ]

module _ {ℓ} {A : Type ℓ} (same : A → A → Bool)
    (same-eq : (a b : A) → (same a b ≡ true) ↔ (a ≡ b)) where
  set_same : (xs : List A) (i : ℕ) (a : A) → get_elem? xs i ≡ some a → set xs i a ≡ xs
  set_same [] i a e = refl
  set_same (x ∷ xs) zero a e = ground arith
  set_same (x ∷ xs) (suc i) a e = ap (◌∷◌ x) (set_same xs i a e)

  set_twice : (xs : List A) (j i : ℕ) (c a : A) → j ≡ i → set (set xs j c) i a ≡ set xs j a
  set_twice [] j i c a p = refl
  set_twice (x ∷ xs) zero zero c a p = refl
  set_twice (x ∷ xs) zero (suc i) c a p = absurd (omega arith)
  set_twice (x ∷ xs) (suc j) zero c a p = absurd (omega arith)
  set_twice (x ∷ xs) (suc j) (suc i) c a p = ap (◌∷◌ x) (set_twice xs j i c a (omega arith))

  set_swap : (xs : List A) (i j : ℕ) (a c : A) → i ≢ j → set (set xs i a) j c ≡ set (set xs j c) i a
  set_swap [] i j a c p = refl
  set_swap (x ∷ xs) zero zero a c p = absurd (p refl)
  set_swap (x ∷ xs) zero (suc j) a c p = refl
  set_swap (x ∷ xs) (suc i) zero a c p = refl
  set_swap (x ∷ xs) (suc i) (suc j) a c p = ap (◌∷◌ x) (set_swap xs i j a c (λ e. p (ap suc e)))

  assign-Within : (n i : ℕ) (a : A) (ch : List (ℕ × A)) → Within n ch → Within n (assign i a ch)
  unfolding assign
  assign-Within n i a [] w = w
  assign-Within n i a ((j, b) ∷ ch) (lt, w) = elim (Bool-cases (j == i)) [
    | inl e ↦ rw e (lt, w)
    | inr e ↦ rw e (lt, assign-Within n i a ch w)
  ]

  applied-assign :
      (i : ℕ) (a b : A) (ch : List (ℕ × A)) (xs : List A)
      → find i ch ≡ some b
      → applied (assign i a ch) xs ≡ set (applied ch xs) i a
  unfolding applied assign find
  applied-assign i a b [] xs e = cc
  applied-assign i a b ((j, c) ∷ ch) xs e = elim (ℕ_discrete j i) [
    | yes p ↦
        let hit : (j == i) ≡ true = ground arith in
        rw hit (sym (set_twice (applied ch xs) j i c a p))
    | no p ↦
        let miss : (j == i) ≡ false = ground arith in
        rw miss (
          ap (λ ys. set ys j c) (applied-assign i a b ch xs (rw miss at e))
          ∙ set_swap (applied ch xs) i j a c (λ q. p (sym q)))
  ]

  -- What a store below the size leaves: the array with that element replaced.
  abbrev pub Stored : SharedArray A → ℕ → A → Outcome (SharedArray A) → Type ℓ
  Stored s i a o =
      (s' : SharedArray A) × (o ≡ done s')
      × IsWf s'
      × (s'.size ≡ s.size)
      × (plain s'.content ≡ set (plain s.content) i a)

  unchanged :
      (s : SharedArray A) (v : Variant A) (ch : List (ℕ × A)) (i : ℕ) (a : A)
      → s.content ≡ modified v ch
      → get_elem? (applied ch (plain v)) i ≡ some a
      → plain s.content ≡ set (plain s.content) i a
  unfolding plain
  unchanged s v ch i a e got =
      sym (set_same (plain s.content) i a (ap (λ w. get_elem? (plain w) i) e ∙ got))

  store_change-plain :
      (s : SharedArray A) (v : Variant A) (ch : List (ℕ × A)) (i : ℕ) (a : A)
      → s.content ≡ modified v ch
      → IsWf s
      → i < s.size
      → Stored s i a (store_change same s v ch i a)
  unfolding store_change plain
  store_change-plain s v ch i a e wf lt =
      let sized : length (applied ch (plain v)) ≡ s.size =
        ap (λ w. length (plain w)) (sym e) ∙ wf.sized in
      let bounded : Bounded s.size (modified v ch) = subst (Bounded s.size) e wf.bounded in
      elim (Option-cases (find i ch)) [
        | inr (b, f) ↦ (
          record s { content = modified v (assign i a ch) },
          rw (f, store_change) refl,
          record {
            sized =
                ap length (applied-assign i a b ch (plain v) f)
                ∙ length-set (applied ch (plain v)) i a
                ∙ sized;
            bounded = (assign-Within s.size i a ch bounded.0, bounded.1);
          },
          refl,
          applied-assign i a b ch (plain v) f ∙ ap (λ w. set (plain w) i a) (sym e),
        )
        | inl f ↦
            let (old, got) = get_elem?-some (applied ch (plain v)) i (omega arith) in
            let read : modified_index v ch i ≡ done old =
              modified_index-plain v ch s.size i bounded.0 bounded.1
                (sym (length-applied ch (plain v)) ∙ sized)
              ∙ ap or_throw got in
            let s1 : SharedArray A = record {
              content = modified v ((i, a) ∷ ch);
              modcnt = s.modcnt + 1;
              size = s.size;
            } in
            let wf1 : IsWf s1 = record {
              sized = length-set (applied ch (plain v)) i a ∙ sized;
              bounded = ((lt, bounded.0), bounded.1);
            } in
            let made : plain s1.content ≡ set (plain s.content) i a =
              ap (λ w. set (plain w) i a) (sym e) in
            elim (Bool-cases (same old a)) [
              | inl q ↦ (
                s,
                rw (f, store_change, read, q) refl,
                wf,
                refl,
                unchanged s v ch i a e (got ∙ ap some ((same-eq old a).0 q)),
              )
              | inr q ↦ elim (Bool-cases (over_threshold (s.modcnt + 1) s.size)) [
                | inl over ↦
                    let (s', ran, wf', size, same_contents, _) = flatten-plain s1 wf1 in
                    (
                      s',
                      rw (f, store_change, read, q, ◌>>=◌, over) ran,
                      wf',
                      size,
                      same_contents ∙ made,
                    )
                | inr under ↦
                    (s1, rw (f, store_change, read, q, ◌>>=◌, under) refl, wf1, refl, made)
              ]
            ]
      ]

  store_content-plain :
      (s : SharedArray A) (v : Variant A) (i : ℕ) (a : A)
      → s.content ≡ v
      → IsWf s
      → i < s.size
      → Stored s i a (store_content same s v i a)
  unfolding store_content plain
  store_content-plain s (flat xs) i a e wf lt =
      let sized : length xs ≡ s.size = ap (λ w. length (plain w)) (sym e) ∙ wf.sized in
      let fits : ltb i (length xs) ≡ true = ground arith in
      (
        record s { content = flat (set xs i a) },
        rw fits refl,
        record { sized = length-set xs i a ∙ sized; bounded = tt },
        refl,
        ap (λ w. set (plain w) i a) (sym e),
      )
  store_content-plain s (modified v ch) i a e wf lt = store_change-plain s v ch i a e wf lt

  -- A store below the size ends well in a well-formed array, on each variant and whether or not it
  -- flattens. The array stays well-formed and keeps its size, and its contents are those before
  -- with that element replaced.
  pub store-plain :
      (s : SharedArray A) (i : ℕ) (a : A) → IsWf s → i < s.size → Stored s i a (store same s i a)
  unfolding store
  store-plain s i a wf lt =
      let fits : ltb i s.size ≡ true = ground arith in
      rw (fits, ◌>>=◌) (store_content-plain s s.content i a refl wf lt)
