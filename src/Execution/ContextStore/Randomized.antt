-- ===== src/Execution/ContextStore/Randomized.antt =====
-- RandomizedContextStore: removing at a drawn index.
use caffeine.Prelude.{
  ◌==◌, if◌then◌else◌, Bool-cases, ◌>>=◌, ℕ, suc, ◌+◌, ◌-◌, ◌%◌, ◌<◌, ◌≡◌, refl, ap, inl, inr,
  arith, List, [], ◌∷◌,
}
use native.Mathlib.Nat.{mod-lt}
use caffeine.Prelude.{length, set, length-set, get_elem?-some}
use caffeine.Execution.ContextStore.{pop_back, take_random}
use caffeine.Execution.ContextStore.Calls.{Takes}

module _ {ℓ} {C : Type ℓ} where
  length-pop_back : (c : C) (cs : List C) → length (pop_back (c ∷ cs)) ≡ length cs
  unfolding pop_back
  length-pop_back c [] = refl
  length-pop_back c (d ∷ cs) = ap suc (length-pop_back d cs)

  length-pop_back_filled : (cs : List C) → 0 < length cs → length (pop_back cs) + 1 ≡ length cs
  length-pop_back_filled [] h = absurd (omega arith)
  length-pop_back_filled (c ∷ cs) h = omega (arith, length-pop_back c cs)

  -- A context is removed whatever number is drawn.
  pub take_random-Takes : (pick : ℕ) → Takes (take_random {C = C} pick)
  unfolding take_random
  take_random-Takes pick [] h = cc
  take_random-Takes pick (c ∷ cs) h =
      let len = length (c ∷ cs) in
      let below : pick % length (c ∷ cs) < length (c ∷ cs) = mod-lt pick (omega arith) in
      let (x, got) = get_elem?-some (c ∷ cs) (pick % length (c ∷ cs)) below in
      let (last, got_last) = get_elem?-some (c ∷ cs) (length (c ∷ cs) - 1) (omega arith) in
      let rest : List C =
        if pick % length (c ∷ cs) == length (c ∷ cs) - 1
        then c ∷ cs
        else set (c ∷ cs) (pick % length (c ∷ cs)) last in
      let kept : length rest ≡ length (c ∷ cs) =
        elim (Bool-cases (pick % length (c ∷ cs) == length (c ∷ cs) - 1)) [
          | inl e ↦ rw e refl
          | inr e ↦ rw e (length-set (c ∷ cs) (pick % length (c ∷ cs)) last)
        ] in
      (
        x,
        pop_back rest,
        rw (got, ◌>>=◌, got_last) refl,
        omega (arith, kept, length-pop_back_filled rest),
      )
