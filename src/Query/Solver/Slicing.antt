-- ===== src/Query/Solver/Slicing.antt =====
-- CanonicalizingSolver.cpp, SlicingSolver.cpp and SolverBuilder::build: canonicalized lists and
-- slices have the models that the answers are about.
use caffeine.Prelude.{◌⊎◌}
use caffeine.Prelude.{
  Bool-cases, done, ◌>>=◌, done-injective, ℕ, ◌≡◌, refl, sym, ◌∙◌, subst, ◌↔◌, inl, inr, Bool, true,
  false, Option, some, arith, List, [], ◌∷◌,
}
use caffeine.Prelude.{All, In}
use caffeine.Apint.{ApInt, ApIntLaws}
use caffeine.Adt.SparseVector.Content.{to_list-values}
use caffeine.Ir.Operation.{Op, constant_int}
use caffeine.Ir.Value.{Value}
use caffeine.Ir.Simplify.{is_constant_int}
use caffeine.Ir.Simplify.Values.{||-true}
use caffeine.Ir.Simplify.Contract.{ModelFits}
use caffeine.Model.AssertionList.{AssertionList, empty, cleared, insert, decompose}
use caffeine.Model.AssertionList.Decompose.{parts_view}
use caffeine.Model.AssertionList.Insert.{listed, insert_means, cleared-empty}
use caffeine.Model.AssertionList.Keeps.{insert-Keeps}
use caffeine.Model.AssertionList.Marked.{proven-unproven}
use caffeine.Query.ConstraintSlicer.{Cache, slice, index_proven}
use caffeine.Query.ConstraintSlicer.Symbols.{IsCache}
use caffeine.Query.ConstraintSlicer.Known.{index_proven_from_nil}
use caffeine.Query.ConstraintSlicer.Loops.{All-split}
use caffeine.Query.ConstraintSlicer.Slice.{slice_means, Known-given}
use caffeine.Query.ConstraintSlicer.Keeps.{slice-Keeps}
use caffeine.Query.Solver.{unknown, any_false, canonicalize}
use caffeine.Model.AssertionList.Meaning.{IsGoal}
use caffeine.Model.AssertionList.Denoted.{IsTrue, denotation}
use caffeine.Query.Solver.Contract.{
  AllHoldIn, IsValid, SameModels, IsRefuted, SameModels-refl, false-IsRefuted,
}
use caffeine.Query.Solver.Layers.{no_model, no_model-ModelFits, IsHarmless}

module _ (A : ApInt) (laws : ApIntLaws A) (same : Op → Op → Bool)
    (same-eq : (a b : Op) → same a b ≡ true → a ≡ b) (scope : ℕ → ℕ) (arrange : List ℕ → List ℕ)
    (arrange-In : (x : ℕ) (xs : List ℕ) → In x (arrange xs) ↔ In x xs) where
  IsGoal-parts :
      (op lhs rhs : Op)
      → IsGoal scope op
      → decompose A op ≡ some (lhs, rhs)
      → IsGoal scope lhs × IsGoal scope rhs
  IsGoal-parts op lhs rhs goal h =
      elim (parts_view A laws same same-eq scope no_model (no_model-ModelFits scope) op goal) [
        | inl p ↦ absurd cc
        | inr (l, r, p, ul, ur, iff, lighter) ↦
            (let el : l ≡ lhs = cc in
              let er : r ≡ rhs = cc in (subst (IsGoal scope) el ul, subst (IsGoal scope) er ur))
      ]

  any_false_fails :
      (model : ℕ → Option Value) (ops : List Op)
      → any_false ops ≡ true
      → ModelFits scope model
      → All (IsTrue model) ops
      → ⊥
  any_false_fails model [] h fits all = absurd cc
  any_false_fails model (op ∷ ops) h fits all =
      elim (||-true (is_constant_int op 0) (any_false ops) h) [
        | inl p ↦ false-IsRefuted scope empty op p model fits tt all.0
        | inr p ↦ any_false_fails model ops p fits all.1
      ]

  -- A list with a false assertion is that assertion alone.
  canonicalize-false :
      (l l' : AssertionList)
      → any_false (listed l) ≡ true
      → insert A same (cleared l) (constant_int 1 0 ∷ []) ≡ done l'
      → canonicalize A same arrange l ≡ done l'
  unfolding canonicalize
  canonicalize-false l l' h run = rw (to_list-values l.list, ◌>>=◌, h) run

  canonicalize-true :
      (l : AssertionList) → any_false (listed l) ≡ false → canonicalize A same arrange l ≡ done l
  unfolding canonicalize
  canonicalize-true l h = rw (to_list-values l.list, ◌>>=◌, h) refl

  false-IsGoal : IsGoal scope (constant_int 1 0)
  false-IsGoal = ((omega arith, omega arith), refl)

  inserted_false :
      (l' : AssertionList) × (insert A same empty (constant_int 1 0 ∷ []) ≡ done l')
      × IsValid scope l'
      × IsRefuted scope l' (constant_int 1 1)
  inserted_false =
      let (l', run, indexed, holds) =
        insert_means A scope same same-eq
          (denotation A laws same same-eq scope no_model (no_model-ModelFits scope)) empty
          (constant_int 1 0 ∷ []) tt (false-IsGoal, tt) in
      let (typed, mark) =
        insert-Keeps A same (IsGoal scope) IsGoal-parts empty (constant_int 1 0 ∷ []) l'
          (false-IsGoal, tt) run in
      (
        l',
        run,
        (indexed, typed tt, omega arith),
        λ model fits all one.
            let (l'', run'', indexed'', holds'') =
              insert_means A scope same same-eq (denotation A laws same same-eq scope model fits)
                empty (constant_int 1 0 ∷ []) tt (false-IsGoal, tt) in
            let e : l' ≡ l'' = done-injective (sym run ∙ run'') in
            let all'' = subst (AllHoldIn scope model) e all in
            false-IsRefuted scope empty (constant_int 1 0) refl model fits tt (holds''.0 all'').1.0,
      )

  -- Canonicalizing leaves the list as it is, or a list with no mark.
  pub canonicalize_run :
      (l : AssertionList)
      → IsValid scope l
      → (l' : AssertionList) × (canonicalize A same arrange l ≡ done l')
        × IsValid scope l'
        × SameModels scope l l'
        × ((l' ≡ l) ⊎ (l'.mark ≡ 0))
  canonicalize_run l valid = elim (Bool-cases (any_false (listed l))) [
    | inl p ↦
        (let (l', run, valid', refuted) = inserted_false in
          let (typed, mark) =
            insert-Keeps A same (IsGoal scope) IsGoal-parts empty (constant_int 1 0 ∷ []) l'
              (false-IsGoal, tt) run in
          let ran = canonicalize-false l l' p (
            subst (λ c. insert A same c (constant_int 1 0 ∷ []) ≡ done l') (sym (cleared-empty l))
              run) in
          (
            l',
            ran,
            valid',
            λ model fits. (
              (λ h. absurd (any_false_fails model (listed l) p fits h)),
              (λ h. absurd (refuted model fits h refl)),
            ),
            inr mark,
          ))
    | inr p ↦ (l, canonicalize-true l p, valid, SameModels-refl scope l, inl refl)
  ]

  pub canonicalize-IsHarmless :
      IsHarmless scope (λ l extra. canonicalize A same arrange l >>= λ l'. done (unknown, l'))
  canonicalize-IsHarmless l extra valid =
      let (l', run, valid', models, how) = canonicalize_run l valid in
      (l', rw run refl, valid', models)

  -- A slice is a list that a solver can be given, and it holds wherever the list does.
  pub slice-IsValid :
      (cache : Cache) (l : AssertionList) (extra : Op)
      → IsCache A same same-eq arrange arrange-In cache
      → IsValid scope l
      → (l' : AssertionList) × (cache' : Cache) × (slice A same arrange cache l extra
          ≡ done (l', cache'))
        × IsValid scope l'
        × IsCache A same same-eq arrange arrange-In cache'
        × ((model : ℕ → Option Value)
            → ModelFits scope model
            → AllHoldIn scope model l
            → AllHoldIn scope model l')
  slice-IsValid cache l extra ok (indexed, typed, le) =
      let (ps, us, l', cache', hp, hu, run, indexed', ok', whole, weaker) =
        slice_means A scope same same-eq
          (denotation A laws same same-eq scope no_model (no_model-ModelFits scope)) arrange
          arrange-In cache l extra ok typed le in
      let (ps', us', hp', hu', after, parts) = proven-unproven A same l le in
      let ep : ps' ≡ ps = done-injective (sym hp' ∙ hp) in
      let eu : us' ≡ us = done-injective (sym hu' ∙ hu) in
      let (gp, gu) =
        (All-split (IsGoal scope) ps' us').0 (subst (All (IsGoal scope)) (sym parts) typed) in
      let gp' = subst (All (IsGoal scope)) ep gp in
      let (ok1, known) = index_proven_from_nil A same same-eq arrange arrange-In cache ps ok in
      let (kept, mark) =
        slice-Keeps A same (IsGoal scope) IsGoal-parts arrange cache l extra ps us (l', cache') hp
          hu
          (Known-given A scope same same-eq
            (denotation A laws same same-eq scope no_model (no_model-ModelFits scope)) arrange
            arrange-In (index_proven A same arrange cache ps []).0 ps known gp')
          (subst (All (IsGoal scope)) eu gu) run in
      (
        l',
        cache',
        run,
        (indexed', kept tt, omega arith),
        ok',
        λ model fits all. holds_too l' cache' run model fits all,
      )
    where
      holds_too :
          (l' : AssertionList) (cache' : Cache)
          → slice A same arrange cache l extra ≡ done (l', cache')
          → (model : ℕ → Option Value) → ModelFits scope model
          → AllHoldIn scope model l
          → AllHoldIn scope model l'
      holds_too l' cache' run model fits all =
          let (ps, us, l'', cache'', hp, hu, run'', indexed', ok', whole, weaker) =
            slice_means A scope same same-eq (denotation A laws same same-eq scope model fits)
              arrange arrange-In cache l extra ok typed le in
          let e : (l'', cache'') ≡ (l', cache') = done-injective (sym run'' ∙ run) in
          subst (λ (o : AssertionList × Cache). AllHoldIn scope model o.0) e (weaker all)
