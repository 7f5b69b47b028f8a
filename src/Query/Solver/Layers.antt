-- ===== src/Query/Solver/Layers.antt =====
-- EarlyExitSolver.cpp, InterruptSolver.cpp, CanonicalizingSolver.cpp: each layer keeps what the
-- solver under it promises.
use caffeine.Prelude.{◌+◌}
use caffeine.Prelude.{
  Bool-cases, Outcome, done, ◌>>=◌, check, ℕ, ◌≡◌, inl, inr, Bool, ◌&&◌, Option, none, List,
}
use caffeine.Apint.{ApInt}
use caffeine.Ir.Operation.{Op}
use caffeine.Ir.Value.{Value}
use caffeine.Ir.Simplify.{is_constant_int}
use caffeine.Ir.Simplify.Contract.{ModelFits}
use caffeine.Model.AssertionList.{AssertionList}
use caffeine.Model.AssertionList.Marked.{proven-unproven}
use caffeine.Query.Solver.{
  Kind, unsat, sat, unknown, Solver, interrupt_solver, after_transform, transform_solver, is_nil,
  early_exit_solver,
}
use caffeine.Model.AssertionList.Meaning.{IsGoal}
use caffeine.Query.Solver.Contract.{
  IsValid, SameModels, IsRefuted, CheckIsRight, ResolveIsRight, IsRight, SameModels-trans,
  false-IsRefuted, answer-CheckIsRight, answer-ResolveIsRight, passed_on-CheckIsRight,
  passed_on-ResolveIsRight,
}

-- The model without values.
abbrev pub no_model : ℕ → Option Value
no_model n = none

pub no_model-ModelFits : (scope : ℕ → ℕ) → ModelFits scope no_model
no_model-ModelFits scope n v h = absurd cc

module _ (scope : ℕ → ℕ) where
  pub interrupt_solver-IsRight :
      (should_stop : ℕ → Bool) (inner : Solver)
      → IsRight scope inner
      → IsRight scope (interrupt_solver should_stop inner)
  interrupt_solver-IsRight should_stop inner (Inv, start, right) =
      (Both, (tt, start), λ s l extra ok valid goal. at s l extra ok valid goal)
    where
      Both : ℕ × inner.State → Type 0
      Both s = Unit × Inv s.1

      at :
          (s : ℕ × inner.State) (l : AssertionList) (extra : Op)
          → Both s
          → IsValid scope l
          → IsGoal scope extra
          → CheckIsRight scope Both l extra ((interrupt_solver should_stop inner).check s l extra)
            × ResolveIsRight scope Both l extra
                ((interrupt_solver should_stop inner).resolve s l extra)
      at (n, s) l extra (own, ok) valid goal = elim (Bool-cases (should_stop n)) [
        | inl p ↦ rw p (
          answer-CheckIsRight scope Both (n + 1, s) l extra unknown (own, ok) valid
              (λ e. absurd cc),
          answer-ResolveIsRight scope Both (n + 1, s) l extra unknown (own, ok) valid
              (λ e. absurd cc) (λ e. cc),
        )
        | inr p ↦
            (let (check, resolve) = right s l extra ok valid goal in
              rw p (
                passed_on-CheckIsRight scope Inv (λ (b : ℕ). Unit) (n + 1) l extra
                    (inner.check s l extra) tt check,
                passed_on-ResolveIsRight scope Inv (λ (b : ℕ). Unit) (n + 1) l extra
                    (inner.resolve s l extra) tt resolve,
              ))
      ]

  -- A transformation that always ends, answers Unknown, and keeps the models.
  abbrev pub IsHarmless : (AssertionList → Op → Outcome (Kind × AssertionList)) → Type 0
  IsHarmless transform =
      (l : AssertionList) (extra : Op)
      → IsValid scope l
      → (l' : AssertionList) × (transform l extra ≡ done (unknown, l'))
        × IsValid scope l'
        × SameModels scope l l'

  IsRefuted-SameModels :
      (l l' : AssertionList) (extra : Op)
      → SameModels scope l l'
      → IsRefuted scope l' extra
      → IsRefuted scope l extra
  IsRefuted-SameModels l l' extra models refuted =
      λ model fits all holds. refuted model fits ((models model fits).0 all) holds

  pub transform_solver-IsRight :
      (transform : AssertionList → Op → Outcome (Kind × AssertionList)) (base : Solver)
      → IsHarmless transform
      → IsRight scope base
      → IsRight scope (transform_solver transform base)
  transform_solver-IsRight transform base harmless (Inv, start, right) = (
    Inv,
    start,
    λ s l extra ok valid goal.
        let (l1, run, valid1, models) = harmless l extra valid in
        let (check, resolve) = right s l1 extra ok valid1 goal in
        (after_check s l l1 extra run models check, after_resolve s l l1 extra run models resolve),
  )
    where
      after_check :
          (s : base.State) (l l1 : AssertionList) (extra : Op)
          → transform l extra ≡ done (unknown, l1)
          → SameModels scope l l1
          → CheckIsRight scope Inv l1 extra (base.check s l1 extra)
          → CheckIsRight scope Inv l extra
              (transform l extra >>= after_transform s base.check extra)
      after_check s l l1 extra run models (result, l', s', ran, ok, valid, models', refuted) = (
        result,
        l',
        s',
        rw run ran,
        ok,
        valid,
        SameModels-trans scope l l1 l' models models',
        λ e. IsRefuted-SameModels l l1 extra models (refuted e),
      )

      after_resolve :
          (s : base.State) (l l1 : AssertionList) (extra : Op)
          → transform l extra ≡ done (unknown, l1)
          → SameModels scope l l1
          → ResolveIsRight scope Inv l1 extra (base.resolve s l1 extra)
          → ResolveIsRight scope Inv l extra
              (transform l extra >>= after_transform s base.resolve extra)
      after_resolve s l l1 extra run models
            (result, l', s', ran, ok, valid, models', refuted, modelled) =
          (
            result,
            l',
            s',
            rw run ran,
            ok,
            valid,
            SameModels-trans scope l l1 l' models models',
            λ e. IsRefuted-SameModels l l1 extra models (refuted e),
            λ e.
                let (model, found, fits, all, holds) = modelled e in
                (model, found, fits, (models model fits).1 all, holds),
          )

  module _ (A : ApInt) (same : Op → Op → Bool) (arrange : List ℕ → List ℕ) where
    early_check :
        (inner : Solver) (Inv : inner.State → Type 0) (s : inner.State) (l : AssertionList)
        (extra : Op)
        → Inv s
        → IsValid scope l
        → CheckIsRight scope Inv l extra (inner.check s l extra)
        → CheckIsRight scope Inv l extra ((early_exit_solver A same arrange inner).check s l extra)
    early_check inner Inv s l extra ok valid right = elim (Bool-cases (is_constant_int extra 0)) [
      | inl p ↦ rw p (
          answer-CheckIsRight scope Inv s l extra unsat ok valid
            (λ e. false-IsRefuted scope l extra p))
      | inr p ↦
          (let (ps, us, hp, hu, after, parts) = proven-unproven A same l valid.2 in
            elim (Bool-cases (is_nil A same arrange us && is_constant_int extra 1)) [
              | inl q ↦
                  rw (p, hu, ◌>>=◌, q)
                    (answer-CheckIsRight scope Inv s l extra sat ok valid (λ e. absurd cc))
              | inr q ↦ rw (p, hu, ◌>>=◌, q) right
            ])
    ]

    early_resolve :
        (inner : Solver) (Inv : inner.State → Type 0) (s : inner.State) (l : AssertionList)
        (extra : Op)
        → Inv s
        → IsValid scope l
        → ResolveIsRight scope Inv l extra (inner.resolve s l extra)
        → ResolveIsRight scope Inv l extra
            ((early_exit_solver A same arrange inner).resolve s l extra)
    early_resolve inner Inv s l extra ok valid right = elim (Bool-cases (is_constant_int extra 0)) [
      | inl p ↦ rw p (
          answer-ResolveIsRight scope Inv s l extra unsat ok valid
            (λ e. false-IsRefuted scope l extra p) (λ e. cc))
      | inr p ↦ rw p right
    ]

    pub early_exit_solver-IsRight :
        (inner : Solver)
        → IsRight scope inner
        → IsRight scope (early_exit_solver A same arrange inner)
    early_exit_solver-IsRight inner (Inv, start, right) = (
      Inv,
      start,
      λ s l extra ok valid goal.
          let (check, resolve) = right s l extra ok valid goal in
          (
            early_check inner Inv s l extra ok valid check,
            early_resolve inner Inv s l extra ok valid resolve,
          ),
    )
