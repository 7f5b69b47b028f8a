-- ===== src/Query/Solver/Stack.antt =====
-- SlicingSolver.cpp and SolverBuilder::build: stacks of layers over a solver.
use caffeine.Prelude.{done, ◌>>=◌, ℕ, ◌≡◌, refl, ◌↔◌, Bool, true, Option, List, [], ◌∷◌}
use caffeine.Prelude.{In, map}
use caffeine.Apint.{ApInt, ApIntLaws}
use caffeine.Ir.Operation.{Op}
use caffeine.Ir.Value.{Value}
use caffeine.Ir.Simplify.Contract.{ModelFits}
use caffeine.Model.AssertionList.{AssertionList}
use caffeine.Query.ConstraintSlicer.{Cache, slice}
use caffeine.Query.ConstraintSlicer.Symbols.{IsCache}
use caffeine.Query.Solver.{
  unknown, Solver, build, interrupt_solver, early_exit_solver, canonicalize, canonicalizing_solver,
  slicing_solver,
}
use caffeine.Query.Solver.Contract.{
  AllHoldIn, IsValid, CheckIsRight, IsRight, SameModels-refl, passed_on-ResolveIsRight,
}
use caffeine.Query.Solver.Layers.{
  interrupt_solver-IsRight, transform_solver-IsRight, early_exit_solver-IsRight,
}
use caffeine.Query.Solver.Slicing.{canonicalize-IsHarmless, slice-IsValid}

-- The layers that are modelled.
pub data Layer : Type 0 where
  early_exit : Layer
  interrupt : (ℕ → Bool) → Layer
  canonicalizing : Layer
  slicing : Layer

module _ (A : ApInt) (same : Op → Op → Bool) (arrange : List ℕ → List ℕ) where
  abbrev pub make : Layer → Solver → Solver
  make early_exit = early_exit_solver A same arrange
  make (interrupt should_stop) = interrupt_solver should_stop
  make canonicalizing = canonicalizing_solver A same arrange
  make slicing = slicing_solver A same arrange

module _ (A : ApInt) (laws : ApIntLaws A) (same : Op → Op → Bool)
    (same-eq : (a b : Op) → same a b ≡ true → a ≡ b) (scope : ℕ → ℕ) (arrange : List ℕ → List ℕ)
    (arrange-In : (x : ℕ) (xs : List ℕ) → In x (arrange xs) ↔ In x xs) where
  module _ (inner : Solver) (Inv : inner.State → Type 0) where
    abbrev Sliced : Cache × inner.State → Type 0
    Sliced s = IsCache A same same-eq arrange arrange-In s.0 × Inv s.1

    slicing_check :
        (s : Cache × inner.State) (l list : AssertionList) (cache : Cache) (extra : Op)
        → slice A same arrange s.0 l extra ≡ done (list, cache)
        → IsValid scope l
        → IsCache A same same-eq arrange arrange-In cache
        → ((model : ℕ → Option Value)
            → ModelFits scope model
            → AllHoldIn scope model l
            → AllHoldIn scope model list)
        → CheckIsRight scope Inv list extra (inner.check s.1 list extra)
        → CheckIsRight scope Sliced l extra ((slicing_solver A same arrange inner).check s l extra)
    slicing_check s l list cache extra run valid ok weaker
          (result, l', s', ran, ok', valid', models, refuted) =
        (
          result,
          l,
          (cache, s'),
          rw (run, ◌>>=◌, ran) refl,
          (ok, ok'),
          valid,
          SameModels-refl scope l,
          λ e model fits all holds. refuted e model fits (weaker model fits all) holds,
        )

  slicing_solver-IsRight :
      (inner : Solver) → IsRight scope inner → IsRight scope (slicing_solver A same arrange inner)
  slicing_solver-IsRight inner (Inv, start, right) = (
    Sliced inner Inv,
    (tt, start),
    λ s l extra ok valid goal.
        let (list, cache, run, valid1, ok1, weaker) =
          slice-IsValid A laws same same-eq scope arrange arrange-In s.0 l extra ok.0 valid in
        (
          slicing_check inner Inv s l list cache extra run valid ok1 weaker
              (right s.1 list extra ok.1 valid1 goal).0,
          passed_on-ResolveIsRight scope Inv (IsCache A same same-eq arrange arrange-In) s.0 l extra
              (inner.resolve s.1 l extra) ok.0 (right s.1 l extra ok.1 valid goal).1,
        ),
  )

  make-IsRight :
      (layer : Layer) (inner : Solver)
      → IsRight scope inner
      → IsRight scope (make A same arrange layer inner)
  make-IsRight early_exit inner right = early_exit_solver-IsRight scope A same arrange inner right
  make-IsRight (interrupt should_stop) inner right =
      interrupt_solver-IsRight scope should_stop inner right
  make-IsRight canonicalizing inner right =
      transform_solver-IsRight scope
        (λ l extra. canonicalize A same arrange l >>= λ l'. done (unknown, l')) inner
        (canonicalize-IsHarmless A laws same same-eq scope arrange arrange-In) right
  make-IsRight slicing inner right = slicing_solver-IsRight inner right

  -- With APInt as documented, `same` true of equal operations only, a set read in any order, and a
  -- right base solver: so is every stack of early-exit, interrupt, canonicalizing and slicing
  -- layers over it. From the first state on, each call on a list of typed assertions, with its set
  -- made of them and its mark within it, and a typed extra assertion ends without a failed
  -- assertion and leaves such a list with the same models; UNSAT is answered only where list and
  -- extra assertion have no model together, and SAT by `resolve` comes with such a model.
  pub build-IsRight :
      (base : Solver) (layers : List Layer)
      → IsRight scope base
      → IsRight scope (build base (map (make A same arrange) layers))
  build-IsRight base [] right = right
  build-IsRight base (layer ∷ layers) right =
      make-IsRight layer (build base (map (make A same arrange) layers))
        (build-IsRight base layers right)
