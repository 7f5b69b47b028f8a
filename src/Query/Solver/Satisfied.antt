-- ===== src/Query/Solver/Satisfied.antt =====
-- EarlyExitSolver.cpp, InterruptSolver.cpp, CanonicalizingSolver.cpp: where `check` may answer SAT.
use caffeine.Prelude.{◌+◌}
use caffeine.Prelude.{
  Bool-cases, done, ◌>>=◌, done-injective, >>=-eq-done, ℕ, ◌+◌, ◌≡◌, refl, sym, ap, ◌∙◌, subst, ◌≢◌,
  ◌↔◌, inl, inr, Bool, true, ◌&&◌, Option, arith, List, [], ◌∷◌,
}
use caffeine.Prelude.{All, In, map, length, ◌++◌, length-append, drop}
use caffeine.Apint.{ApInt, ApIntLaws}
use caffeine.Adt.SparseVector.{values}
use caffeine.Ir.Operation.{Op}
use caffeine.Ir.Value.{Value}
use caffeine.Ir.Denote.{denote}
use caffeine.Ir.Simplify.{is_constant_int}
use caffeine.Ir.Simplify.Values.{&&-true}
use caffeine.Ir.Simplify.Contract.{ModelFits, is_constant_int-eq}
use caffeine.Model.AssertionList.{AssertionList, proven, unproven}
use caffeine.Model.AssertionList.Insert.{listed}
use caffeine.Model.AssertionList.Marked.{proven-unproven}
use caffeine.Query.Solver.{
  passed_on, Kind, unsat, sat, unknown, SolverResult, of_kind, Solver, build, interrupt_solver,
  is_nil, early_exit_solver, canonicalizing_solver,
}
use caffeine.Model.AssertionList.Meaning.{IsGoal}
use caffeine.Model.AssertionList.Denoted.{IsTrue}
use caffeine.Query.Solver.Contract.{AllHoldIn, IsValid}
use caffeine.Query.Solver.Layers.{no_model, no_model-ModelFits}
use caffeine.Query.Solver.Slicing.{canonicalize_run}
use caffeine.Model.AssertionList.Restore.{append_nil}
use caffeine.Query.Solver.Stack.{Layer, early_exit, interrupt, canonicalizing, slicing, make}

module _ (A : ApInt) (same : Op → Op → Bool) (scope : ℕ → ℕ) where
  -- The proven assertions have a model together.
  abbrev pub IsMarked : AssertionList → Type 0
  IsMarked l =
      (ps : List Op) × (model : ℕ → Option Value) × (proven A same l ≡ done ps)
      × ModelFits scope model
      × All (IsTrue model) ps

  -- So do the list and the extra assertion.
  abbrev pub IsSatisfiable : AssertionList → Op → Type 0
  IsSatisfiable l extra =
      (model : ℕ → Option Value) × ModelFits scope model
      × AllHoldIn scope model l
      × IsTrue model extra

  -- Whatever the state of the solver.
  abbrev pub AnswersSat : Solver → Type 0
  AnswersSat solver =
      (s : solver.State) (l : AssertionList) (extra : Op)
      (out : SolverResult × AssertionList × solver.State)
      → IsValid scope l
      → IsGoal scope extra
      → IsMarked l
      → solver.check s l extra ≡ done out
      → out.0.kind ≡ sat
      → IsSatisfiable l extra

  -- An answer without work that is not SAT.
  other_kind :
      {S : Type 0} (k : Kind) (l : AssertionList) (s : S) (out : SolverResult × AssertionList × S)
      → done (of_kind k, l, s) ≡ done out
      → k ≢ sat
      → out.0.kind ≢ sat
  other_kind k l s out e ne h = ne (ap (λ o. o.0.kind) (done-injective e) ∙ h)

  interrupt_solver-AnswersSat :
      (should_stop : ℕ → Bool) (inner : Solver)
      → AnswersSat inner
      → AnswersSat (interrupt_solver should_stop inner)
  interrupt_solver-AnswersSat should_stop inner right (n, s) l extra out valid goal marked h e =
      elim (Bool-cases (should_stop n)) [
        | inl p ↦ absurd (other_kind unknown l (n + 1, s) out (sym (rw p refl) ∙ h) (λ k. cc) e)
        | inr p ↦
            (let passed : passed_on (n + 1) (inner.check s l extra) ≡ done out =
                sym (rw p refl) ∙ h in
              let ((result, l', s'), run, rest) = >>=-eq-done (inner.check s l extra) _ passed in
              right s l extra (result, l', s') valid goal marked run
                (ap (λ (o : SolverResult × AssertionList × (ℕ × inner.State)). o.0.kind)
                    (done-injective rest)
                  ∙ e))
      ]

  nothing_unproven :
      (arrange : List ℕ → List ℕ) (us ps : List Op) (l : AssertionList)
      → is_nil A same arrange us ≡ true
      → ps ++ us ≡ listed l
      → ps ≡ listed l
  nothing_unproven arrange [] ps l h e = sym (append_nil ps) ∙ e
  nothing_unproven arrange (u ∷ us) ps l h e = absurd cc

  all_proven :
      (arrange : List ℕ → List ℕ) (l : AssertionList) (extra : Op) (us : List Op)
      → IsValid scope l
      → IsGoal scope extra
      → IsMarked l
      → unproven A same l ≡ done us
      → is_nil A same arrange us ≡ true
      → is_constant_int extra 1 ≡ true
      → IsSatisfiable l extra
  all_proven arrange l extra us valid goal (ps, model, hp, fits, holds) hu nil one =
      let (ps', us', hp', hu', after, parts) = proven-unproven A same l valid.2 in
      let ep : ps' ≡ ps = done-injective (sym hp' ∙ hp) in
      let eu : us ≡ us' = done-injective (sym hu ∙ hu') in
      let whole =
        nothing_unproven arrange us' ps' l (ap (is_nil A same arrange) (sym eu) ∙ nil) parts in
      let (w, e) = is_constant_int-eq extra 1 one in
      (model, fits, subst (All (IsTrue model)) (sym ep ∙ whole) holds, ap (denote model) e)

  early_exit_solver-AnswersSat :
      (arrange : List ℕ → List ℕ) (inner : Solver)
      → AnswersSat inner
      → AnswersSat (early_exit_solver A same arrange inner)
  early_exit_solver-AnswersSat arrange inner right s l extra out valid goal marked h e =
      elim (Bool-cases (is_constant_int extra 0)) [
        | inl p ↦ absurd (other_kind unsat l s out (sym (rw p refl) ∙ h) (λ k. cc) e)
        | inr p ↦
            (let (ps, us, hp, hu, after, parts) = proven-unproven A same l valid.2 in
              elim (Bool-cases (is_nil A same arrange us && is_constant_int extra 1)) [
                | inl q ↦
                    (let (nil, one) =
                        &&-true (is_nil A same arrange us) (is_constant_int extra 1) q in
                      all_proven arrange l extra us valid goal marked hu nil one)
                | inr q ↦
                    right s l extra out valid goal marked (sym (rw (p, hu, ◌>>=◌, q) refl) ∙ h) e
              ])
      ]

  -- Where nothing is marked, nothing is proven.
  unmarked-IsMarked : (l : AssertionList) → l.mark ≡ 0 → IsMarked l
  unmarked-IsMarked l e =
      let (ps, us, hp, hu, after, parts) = proven-unproven A same l (omega arith) in
      let whole : us ≡ listed l = after ∙ ap (λ n. values (drop n l.list.elements)) e in
      let short : length ps + length us ≡ length us =
        sym (length-append ps us) ∙ ap length (parts ∙ sym whole) in
      (ps, no_model, hp, no_model-ModelFits scope, nil_holds ps (omega arith))
    where
      nil_holds : (ps : List Op) → length ps ≡ 0 → All (IsTrue no_model) ps
      nil_holds [] h = tt
      nil_holds (p ∷ ps) h = absurd (omega arith)

module _ (A : ApInt) (laws : ApIntLaws A) (same : Op → Op → Bool)
    (same-eq : (a b : Op) → same a b ≡ true → a ≡ b) (scope : ℕ → ℕ) (arrange : List ℕ → List ℕ)
    (arrange-In : (x : ℕ) (xs : List ℕ) → In x (arrange xs) ↔ In x xs) where
  canonicalizing_solver-AnswersSat :
      (inner : Solver)
      → AnswersSat A same scope inner
      → AnswersSat A same scope (canonicalizing_solver A same arrange inner)
  canonicalizing_solver-AnswersSat inner right s l extra out valid goal marked h e =
      let (l', run, valid', models, how) =
        canonicalize_run A laws same same-eq scope arrange arrange-In l valid in
      let marked' : IsMarked A same scope l' = elim how [
        | inl same_list ↦ subst (IsMarked A same scope) (sym same_list) marked
        | inr unmarked ↦ unmarked-IsMarked A same scope l' unmarked
      ] in
      let (model, fits, all, holds) =
        right s l' extra out valid' goal marked' (sym (rw run refl) ∙ h) e in
      (model, fits, (models model fits).1 all, holds)

  make-AnswersSat :
      (layer : Layer) (inner : Solver)
      → layer ≢ slicing
      → AnswersSat A same scope inner
      → AnswersSat A same scope (make A same arrange layer inner)
  make-AnswersSat early_exit inner ne right =
      early_exit_solver-AnswersSat A same scope arrange inner right
  make-AnswersSat (interrupt should_stop) inner ne right =
      interrupt_solver-AnswersSat A same scope should_stop inner right
  make-AnswersSat canonicalizing inner ne right = canonicalizing_solver-AnswersSat inner right
  make-AnswersSat slicing inner ne right = absurd (ne refl)

  -- With APInt as documented, `same` true of equal operations only, and a base solver whose
  -- `check` answers SAT only where list and extra assertion have a model together, on lists of
  -- typed assertions with the mark within whose proven assertions have a model: so does every
  -- stack of early-exit, interrupt and canonicalizing layers over it. A slicing layer is left
  -- out.
  pub build-AnswersSat :
      (base : Solver) (layers : List Layer)
      → All (λ layer. layer ≢ slicing) layers
      → AnswersSat A same scope base
      → AnswersSat A same scope (build base (map (make A same arrange) layers))
  build-AnswersSat base [] no_slicing right = right
  build-AnswersSat base (layer ∷ layers) no_slicing right =
      make-AnswersSat layer (build base (map (make A same arrange) layers)) no_slicing.0
        (build-AnswersSat base layers no_slicing.1 right)
