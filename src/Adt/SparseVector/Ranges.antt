-- ===== src/Adt/SparseVector/Ranges.antt =====
-- SparseVector.h: a loop between two iterators.
use caffeine.Prelude.{
  ◌==◌, done, ◌>>=◌, ℕ, zero, suc, ◌+◌, ◌-◌, ◌≤◌, ◌<◌, ◌≡◌, refl, sym, ap, ◌∙◌, ◌≢◌, ◌⊎◌, inl, inr,
  false, some, arith, List, [], ◌∷◌,
}
use caffeine.Prelude.{length, get_elem?, get_elem?-some, get_elem?-lt, ℕ_discrete, ◌++◌}
use caffeine.Adt.SparseVector.{
  Elem, hole, value, SparseVector, skip, increment, begin, collect, collect_until,
}
use caffeine.Adt.SparseVector.Holes.{Elem-cases}
use caffeine.Adt.SparseVector.Content.{
  skip_end, skip_hole, skip_value, remaining, remaining_step, collect-skip,
}

module _ {ℓ} {A : Type ℓ} (s : SparseVector A) where
  -- Where an iterator can stand: at a value, or at the end.
  abbrev pub Stop : ℕ → Type ℓ
  Stop j = ((v : A) × (get_elem? s.elements j ≡ some (value v))) ⊎ (j ≡ length s.elements)

  Stop-le : (j : ℕ) → Stop j → j ≤ length s.elements
  Stop-le j (inl (v, p)) = omega (arith, get_elem?-lt s.elements j p)
  Stop-le j (inr e) = omega arith

  -- The first such place from `i` on, with all the values from `i` on.
  abbrev pub FirstStop : ℕ → ℕ → Type ℓ
  FirstStop i k =
      Stop k × (i ≤ k) × (remaining s k ≡ remaining s i) × ((j : ℕ) → Stop j → i ≤ j → k ≤ j)

  pub FirstStop-refl : (i : ℕ) → Stop i → FirstStop i i
  FirstStop-refl i h = (h, omega arith, refl, λ j h' le. le)

  -- A hole is passed by.
  pub FirstStop-hole :
      (i k n : ℕ) → get_elem? s.elements i ≡ some (hole n) → FirstStop (i + 1) k → FirstStop i k
  FirstStop-hole i k n p (stop, up, same_rest, first) = (
    stop,
    omega arith,
    same_rest ∙ sym (remaining_step s i (hole n) p),
    λ j h le. first j h (later j h le),
  )
    where
      later : (j : ℕ) → Stop j → i ≤ j → i + 1 ≤ j
      later j (inl (v, q)) le = elim (ℕ_discrete i j) [
        | yes e ↦ absurd (hole-value (sym p ∙ ap (get_elem? s.elements) e ∙ q))
        | no ne ↦ omega arith
      ]
        where
          hole-value : {v : A} → some (hole n) ≢ some (value v)
          hole-value e = cc
      later j (inr e) le = omega (arith, get_elem?-lt s.elements i p)

  skip-FirstStop :
      (f i : ℕ)
      → i ≤ length s.elements
      → length s.elements < f + i
      → (k : ℕ) × (skip f s i ≡ done k) × FirstStop i k
  skip-FirstStop zero i le enough = absurd (omega arith)
  skip-FirstStop (suc f) i le enough = elim (ℕ_discrete i (length s.elements)) [
    | yes e ↦ (i, rw e (skip_end s f), FirstStop-refl i (inr e))
    | no ne ↦
        (let (x, p) = get_elem?-some s.elements i (omega arith) in
          elim (Elem-cases x) [
            | inl (n, q) ↦
                (let here : get_elem? s.elements i ≡ some (hole n) = p ∙ ap some q in
                  let (k, run, first) = skip-FirstStop f (i + 1) (omega arith) (omega arith) in
                  (k, skip_hole s f i n here ∙ run, FirstStop-hole i k n here first))
            | inr (v, q) ↦
                (let here : get_elem? s.elements i ≡ some (value v) = p ∙ ap some q in
                  (i, skip_value s f i v here, FirstStop-refl i (inl (v, here))))
          ])
  ]

  pub increment-FirstStop :
      (i : ℕ) → i < length s.elements → (k : ℕ) × (increment s i ≡ done k) × FirstStop (i + 1) k
  unfolding increment
  increment-FirstStop i lt =
      skip-FirstStop (length s.elements + 1) (i + 1) (omega arith) (omega arith)

  begin_nil : s.elements ≡ [] → begin s ≡ done 0
  unfolding begin
  begin_nil e = rw e refl

  begin_value : (v : A) (es : List (Elem A)) → s.elements ≡ value v ∷ es → begin s ≡ done 0
  unfolding begin
  begin_value v es e = rw e refl

  begin_hole : (n : ℕ) (es : List (Elem A)) → s.elements ≡ hole n ∷ es → begin s ≡ increment s 0
  unfolding begin
  begin_hole n es e = rw e refl

  pub begin-FirstStop : (k : ℕ) × (begin s ≡ done k) × FirstStop 0 k
  begin-FirstStop = at s.elements refl
    where
      at : (es : List (Elem A)) → s.elements ≡ es → (k : ℕ) × (begin s ≡ done k) × FirstStop 0 k
      at [] e = (0, begin_nil e, FirstStop-refl 0 (inr (sym (ap length e))))
      at (hole n ∷ es) e =
          let here : get_elem? s.elements 0 ≡ some (hole n) = rw e refl in
          let (k, run, first) = increment-FirstStop 0 (get_elem?-lt s.elements 0 here) in
          (k, begin_hole n es e ∙ run, FirstStop-hole 0 k n here first)
      at (value v ∷ es) e = (0, begin_value v es e, FirstStop-refl 0 (inl (v, rw e refl)))

  until_step :
      (fuel j k k' : ℕ) (v : A) (vs : List A)
      → k ≢ j
      → get_elem? s.elements k ≡ some (value v)
      → increment s k ≡ done k'
      → collect_until fuel s j k' ≡ done vs
      → collect_until (suc fuel) s j k ≡ done (v ∷ vs)
  unfolding collect_until
  until_step fuel j k k' v vs ne here step rest =
      let different : (k == j) ≡ false = ground (arith, ne) in
      ground (arith, different, here, step, rest)

  until_same : (fuel j k : ℕ) → k ≡ j → collect_until (suc fuel) s j k ≡ done []
  unfolding collect_until
  until_same fuel j k e = ground (arith, e)

  -- The loop up to `j` ends within its fuel, and sees what lies before `j`.
  pub collect_until-remaining :
      (fuel j k : ℕ)
      → Stop j
      → Stop k
      → k ≤ j
      → length s.elements < fuel + k
      → (vs : List A) × (collect_until fuel s j k ≡ done vs) × (vs ++ remaining s j ≡ remaining s k)
  collect_until-remaining zero j k hj hk le enough = absurd (omega (arith, Stop-le k hk))
  collect_until-remaining (suc fuel) j k hj (inr e) le enough = (
    [],
    until_same fuel j k (omega (arith, Stop-le j hj)),
    ap (remaining s) (omega (arith, Stop-le j hj)),
  )
  collect_until-remaining (suc fuel) j k hj (inl (v, here)) le enough = elim (ℕ_discrete k j) [
    | yes e ↦ ([], until_same fuel j k e, ap (remaining s) (sym e))
    | no ne ↦
        (let (k', step, (stop, up, same_rest, first)) =
            increment-FirstStop k (get_elem?-lt s.elements k here) in
          let after : k' ≤ j = first j hj (omega (arith, ne)) in
          let (vs, run, parts) = collect_until-remaining fuel j k' hj stop after (omega arith) in
          (
            v ∷ vs,
            until_step fuel j k k' v vs ne here step run,
            ap (◌∷◌ v) (parts ∙ same_rest) ∙ sym (remaining_step s k (value v) here),
          ))
  ]

  pub collect-Stop : (k : ℕ) → Stop k → collect (length s.elements + 1) s k ≡ done (remaining s k)
  collect-Stop k stop =
      sym (ap (λ o. o >>= collect (length s.elements + 1) s) (stays k stop))
      ∙ collect-skip s (length s.elements - k) k (suc (length s.elements)) (length s.elements + 1)
          (omega (arith, Stop-le k stop)) (omega arith) (omega arith)
    where
      stays : (k : ℕ) → Stop k → skip (suc (length s.elements)) s k ≡ done k
      stays k (inl (v, p)) = skip_value s (length s.elements) k v p
      stays k (inr e) = rw e (skip_end s (length s.elements))
