-- ===== src/Query/Solver/Contract.antt =====
-- Solver.h: what a solver promises for its answers, and for the list that it gives back.
use caffeine.Prelude.{Outcome, done, ℕ, ◌≤◌, ◌≡◌, refl, sym, ap, ◌∙◌, ◌≢◌, ◌↔◌, true, Option, some}
use caffeine.Prelude.{All, length}
use caffeine.Ir.Operation.{Op}
use caffeine.Ir.Value.{Value}
use caffeine.Ir.Denote.{denote}
use caffeine.Ir.Simplify.{is_constant_int}
use caffeine.Ir.Simplify.Contract.{ModelFits, is_constant_int-eq}
use caffeine.Model.AssertionList.{AssertionList}
use caffeine.Model.AssertionList.Meaning.{IsGoal}
use caffeine.Model.AssertionList.Denoted.{IsTrue}
use caffeine.Model.AssertionList.Insert.{listed, IsIndexed}
use caffeine.Query.Solver.{Kind, unsat, sat, SolverResult, of_kind, Solver, passed_on}

module _ (scope : ℕ → ℕ) where
  -- All of the list is true in the model, as bit vectors.
  abbrev pub AllHoldIn : (ℕ → Option Value) → AssertionList → Type 0
  AllHoldIn model l = All (IsTrue model) (listed l)

  -- The lists that a solver is given.
  abbrev pub IsValid : AssertionList → Type 0
  IsValid l = IsIndexed l × All (IsGoal scope) (listed l) × (l.mark ≤ length l.list.elements)

  -- The same models.
  abbrev pub SameModels : AssertionList → AssertionList → Type 0
  SameModels l l' =
      (model : ℕ → Option Value) → ModelFits scope model → AllHoldIn model l ↔ AllHoldIn model l'

  -- No model of the list and the extra assertion.
  abbrev pub IsRefuted : AssertionList → Op → Type 0
  IsRefuted l extra =
      (model : ℕ → Option Value)
      → ModelFits scope model
      → AllHoldIn model l
      → IsTrue model extra
      → ⊥

  -- A model that a result comes with.
  abbrev pub IsModelled : SolverResult → AssertionList → Op → Type 0
  IsModelled result l extra =
      (model : ℕ → Option Value) × (result.model ≡ some model)
      × ModelFits scope model
      × AllHoldIn model l
      × IsTrue model extra

  -- The list that is given back has the models of the one given, and UNSAT is right.
  abbrev pub CheckIsRight :
      {S : Type 0}
      → (S → Type 0)
      → AssertionList
      → Op
      → Outcome (SolverResult × AssertionList × S)
      → Type 0
  CheckIsRight {S} Inv l extra call =
      (result : SolverResult) × (l' : AssertionList) × (s' : S) × (call ≡ done (result, l', s'))
      × Inv s'
      × IsValid l'
      × SameModels l l'
      × (result.kind ≡ unsat → IsRefuted l extra)

  -- And SAT comes with a model.
  abbrev pub ResolveIsRight :
      {S : Type 0}
      → (S → Type 0)
      → AssertionList
      → Op
      → Outcome (SolverResult × AssertionList × S)
      → Type 0
  ResolveIsRight {S} Inv l extra call =
      (result : SolverResult) × (l' : AssertionList) × (s' : S) × (call ≡ done (result, l', s'))
      × Inv s'
      × IsValid l'
      × SameModels l l'
      × (result.kind ≡ unsat → IsRefuted l extra)
      × (result.kind ≡ sat → IsModelled result l extra)

  -- From its first state on, every call ends and is right.
  abbrev pub IsRight : Solver → Type 1
  IsRight solver =
      (Inv : solver.State → Type 0) × Inv solver.start
      × ((s : solver.State) (l : AssertionList) (extra : Op)
          → Inv s
          → IsValid l
          → IsGoal scope extra
          → CheckIsRight Inv l extra (solver.check s l extra)
            × ResolveIsRight Inv l extra (solver.resolve s l extra))

  pub SameModels-refl : (l : AssertionList) → SameModels l l
  SameModels-refl l = λ model fits. ((λ h. h), (λ h. h))

  pub SameModels-trans : (a b c : AssertionList) → SameModels a b → SameModels b c → SameModels a c
  SameModels-trans a b c f g = λ model fits.
      ((λ h. (g model fits).0 ((f model fits).0 h)), (λ h. (f model fits).1 ((g model fits).1 h)))

  pub false-IsRefuted :
      (l : AssertionList) (extra : Op) → is_constant_int extra 0 ≡ true → IsRefuted l extra
  false-IsRefuted l extra h model fits all holds =
      let (w, e) = is_constant_int-eq extra 0 h in
      let zero_is_one : 0 ≡ 1 = sym (ap (denote model) e) ∙ holds in cc

  -- An answer without work: the list and the state as they were.
  pub answer-CheckIsRight :
      {S : Type 0} (Inv : S → Type 0) (s : S) (l : AssertionList) (extra : Op) (k : Kind)
      → Inv s
      → IsValid l
      → (k ≡ unsat → IsRefuted l extra)
      → CheckIsRight Inv l extra (done (of_kind k, l, s))
  answer-CheckIsRight Inv s l extra k ok valid refuted =
      (of_kind k, l, s, refl, ok, valid, SameModels-refl l, refuted)

  pub answer-ResolveIsRight :
      {S : Type 0} (Inv : S → Type 0) (s : S) (l : AssertionList) (extra : Op) (k : Kind)
      → Inv s
      → IsValid l
      → (k ≡ unsat → IsRefuted l extra)
      → k ≢ sat
      → ResolveIsRight Inv l extra (done (of_kind k, l, s))
  answer-ResolveIsRight Inv s l extra k ok valid refuted ne =
      (of_kind k, l, s, refl, ok, valid, SameModels-refl l, refuted, λ e. absurd (ne e))

  pub passed_on-CheckIsRight :
      {S T : Type 0} (Inv : S → Type 0) (Own : T → Type 0) (t : T) (l : AssertionList) (extra : Op)
      (call : Outcome (SolverResult × AssertionList × S))
      → Own t
      → CheckIsRight Inv l extra call
      → CheckIsRight (λ (s : T × S). Own s.0 × Inv s.1) l extra (passed_on t call)
  passed_on-CheckIsRight Inv Own t l extra call own
        (result, l', s', run, ok, valid, models, refuted) =
      (result, l', (t, s'), rw run refl, (own, ok), valid, models, refuted)

  pub passed_on-ResolveIsRight :
      {S T : Type 0} (Inv : S → Type 0) (Own : T → Type 0) (t : T) (l : AssertionList) (extra : Op)
      (call : Outcome (SolverResult × AssertionList × S))
      → Own t
      → ResolveIsRight Inv l extra call
      → ResolveIsRight (λ (s : T × S). Own s.0 × Inv s.1) l extra (passed_on t call)
  passed_on-ResolveIsRight Inv Own t l extra call own
        (result, l', s', run, ok, valid, models, refuted, modelled) =
      (result, l', (t, s'), rw run refl, (own, ok), valid, models, refuted, modelled)
