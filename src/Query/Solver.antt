-- ===== src/Query/Solver.antt =====
-- The layers of a solver: Solver, TransformSolver and SolverBuilder of src/Solver/Solver.cpp,
-- EarlyExitSolver.cpp, InterruptSolver.cpp, SlicingSolver.cpp and CanonicalizingSolver.cpp beside
-- it, and canonicalize of src/IR/Transforms/canonicalize.cpp. A solver has a state of its own, and
-- gives the list back as it leaves it.
pub mod Contract
pub mod Layers
pub mod Slicing
pub mod Stack
pub mod Satisfied
mod Tests
use caffeine.Prelude.{◌+◌}
use caffeine.Prelude.{
  if◌then◌else◌, Outcome, done, fault, ◌>>=◌, ◌>>◌, check, ℕ, Bool, true, false, ◌&&◌, ◌||◌, Option,
  none, List, [], ◌∷◌,
}
use caffeine.Apint.{ApInt}
use caffeine.Adt.SparseVector.{to_list}
use caffeine.Ir.Operation.{Op, constant_int}
use caffeine.Ir.Value.{Value}
use caffeine.Ir.Simplify.{is_constant_int}
use caffeine.Model.AssertionList.{AssertionList, cleared, insert, unproven}
use caffeine.Query.ConstraintSlicer.{Cache, slice}

pub data Kind : Type 0 where
  unsat : Kind
  sat : Kind
  unknown : Kind

pub record SolverResult : Type 0 where
  pub kind : Kind
  pub model : Option (ℕ → Option Value)

-- SolverResult(kind), without a model.
abbrev pub of_kind : Kind → SolverResult
of_kind k = record { kind = k; model = none }

pub record Solver : Type 1 where
  pub State : Type 0
  pub start : State
  pub check : State → AssertionList → Op → Outcome (SolverResult × AssertionList × State)
  pub resolve : State → AssertionList → Op → Outcome (SolverResult × AssertionList × State)

-- Solver::check, where a solver does not have its own: the model is thrown away.
abbrev pub check_of_resolve :
    {S : Type 0}
    → (S → AssertionList → Op → Outcome (SolverResult × AssertionList × S))
    → S
    → AssertionList
    → Op
    → Outcome (SolverResult × AssertionList × S)
check_of_resolve resolve s l extra = do
  (result, l', s') ← resolve s l extra
  done (of_kind result.kind, l', s')

-- SolverBuilder::build: the first layer of the stack is the outermost.
abbrev pub build : Solver → List (Solver → Solver) → Solver
build base [] = base
build base (layer ∷ stack) = layer (build base stack)

abbrev pub any_false : List Op → Bool
any_false [] = false
any_false (op ∷ ops) = is_constant_int op 0 || any_false ops

-- A layer passes a call on, and keeps its own part of the state.
abbrev pub passed_on :
    {S T : Type 0}
    → T
    → Outcome (SolverResult × AssertionList × S)
    → Outcome (SolverResult × AssertionList × (T × S))
passed_on t call = do (result, l, s) ← call; done (result, l, (t, s))

-- The flag is shared with other threads: `should_stop n` is what load number `n` reads.
abbrev pub interrupt_solver : (ℕ → Bool) → Solver → Solver
interrupt_solver should_stop inner = record {
  State = ℕ × inner.State;
  start = (0, inner.start);
  check = λ s l extra.
      if should_stop s.0
      then done (of_kind unknown, l, (s.0 + 1, s.1))
      else passed_on (s.0 + 1) (inner.check s.1 l extra);
  resolve = λ s l extra.
      if should_stop s.0
      then done (of_kind unknown, l, (s.0 + 1, s.1))
      else passed_on (s.0 + 1) (inner.resolve s.1 l extra);
}

-- After the transformation: the base solver, on the list that it leaves.
abbrev pub after_transform :
    {S : Type 0}
    → S
    → (S → AssertionList → Op → Outcome (SolverResult × AssertionList × S))
    → Op
    → Kind × AssertionList
    → Outcome (SolverResult × AssertionList × S)
after_transform s base extra (sat, l) = fault
after_transform s base extra (unsat, l) = done (of_kind unsat, l, s)
after_transform s base extra (unknown, l) = base s l extra

abbrev pub transform_solver :
    (AssertionList → Op → Outcome (Kind × AssertionList)) → Solver → Solver
transform_solver transform base = record {
  State = base.State;
  start = base.start;
  check = λ s l extra. transform l extra >>= after_transform s base.check extra;
  resolve = λ s l extra. transform l extra >>= after_transform s base.resolve extra;
}

module _ (A : ApInt) (same : Op → Op → Bool) (arrange : List ℕ → List ℕ) where
  -- A range is empty where a loop over it sees nothing.
  abbrev pub is_nil : List Op → Bool
  is_nil [] = true
  is_nil (op ∷ ops) = false

  abbrev pub early_exit_solver : Solver → Solver
  early_exit_solver inner = record {
    State = inner.State;
    start = inner.start;
    check = λ s l extra.
        if is_constant_int extra 0
        then done (of_kind unsat, l, s)
        else unproven A same l >>= λ us.
            if is_nil us && is_constant_int extra 1
            then done (of_kind sat, l, s)
            else inner.check s l extra;
    resolve = λ s l extra.
        if is_constant_int extra 0 then done (of_kind unsat, l, s) else inner.resolve s l extra;
  }

  pub canonicalize : AssertionList → Outcome AssertionList
  canonicalize l = do
    ops ← to_list l.list
    if any_false ops then insert A same (cleared l) (constant_int 1 0 ∷ []) else done l

  abbrev pub canonicalizing_solver : Solver → Solver
  canonicalizing_solver = transform_solver (λ l extra. canonicalize l >>= λ l'. done (unknown, l'))

  -- The slice is a list of its own: the caller's is not changed.
  abbrev pub slicing_solver : Solver → Solver
  slicing_solver inner = record {
    State = Cache × inner.State;
    start = ([], inner.start);
    check = λ s l extra. do
      (list, cache) ← slice A same arrange s.0 l extra
      (result, list', s') ← inner.check s.1 list extra
      done (result, l, (cache, s'));
    resolve = λ s l extra. passed_on s.0 (inner.resolve s.1 l extra);
  }
