-- ===== src/Model/AssertionList/Keeps.antt =====
-- What insertion into an AssertionList keeps: a property of the operations, and the mark.
use caffeine.Prelude.{
  Bool-cases, Option-cases, done, done-injective, >>=-eq-done, ℕ, zero, suc, ◌+◌, ◌≡◌, refl, sym,
  ◌∙◌, subst, inl, inr, Bool, some, List, [], ◌∷◌,
}
use caffeine.Prelude.{All}
use caffeine.Apint.{ApInt}
use caffeine.Adt.SparseVector.Content.{emplace_back_appends}
use caffeine.Ir.Operation.{Op}
use caffeine.Ir.Simplify.{is_constant_int}
use caffeine.Model.AssertionList.{
  AssertionList, decompose, weight, count, insert_one, insert_parts, insert,
}
use caffeine.Model.AssertionList.Insert.{listed, All-append}

module _ (A : ApInt) (same : Op → Op → Bool) (P : Op → Type 0)
    (closed : (op lhs rhs : Op) → P op → decompose A op ≡ some (lhs, rhs) → P lhs × P rhs) where
  -- All of the list has the property where all of it had, and the mark stays.
  abbrev pub Keeps : AssertionList → AssertionList → Type 0
  Keeps l l' = (All P (listed l) → All P (listed l')) × (l'.mark ≡ l.mark)

  pub Keeps-refl : (l : AssertionList) → Keeps l l
  Keeps-refl l = ((λ h. h), refl)

  pub Keeps-trans : (a b c : AssertionList) → Keeps a b → Keeps b c → Keeps a c
  Keeps-trans a b c f g = ((λ h. g.0 (f.0 h)), g.1 ∙ f.1)

  insert_one-Keeps : (a op : Op) (l : AssertionList) → P op → Keeps l (insert_one A same a op l)
  insert_one-Keeps a op l h = elim (Bool-cases (is_constant_int a 1)) [
    | inl p ↦ rw p (Keeps-refl l)
    | inr p ↦ elim (Bool-cases (count A same l.lookup op)) [
      | inl q ↦ rw (p, q) (Keeps-refl l)
      | inr q ↦
          rw (p, q)
            (
              (λ all.
                  subst (All P) (sym (emplace_back_appends l.list op))
                    ((All-append P (listed l) op).1 (all, h))),
              refl,
            )
    ]
  ]

  insert_parts-Keeps :
      (fuel : ℕ) (a : Op) (stack : List Op) (l l' : AssertionList)
      → All P stack
      → insert_parts A same fuel a stack l ≡ done l'
      → Keeps l l'
  insert_parts-Keeps zero a stack l l' all h = absurd cc
  insert_parts-Keeps (suc fuel) a [] l l' all h = subst (Keeps l) (done-injective h) (Keeps-refl l)
  insert_parts-Keeps (suc fuel) a (op ∷ stack) l l' all h = elim (Option-cases (decompose A op)) [
    | inl p ↦
        (let run : insert_parts A same fuel a stack (insert_one A same a op l) ≡ done l' =
            sym (rw (insert_parts, p) refl) ∙ h in
          Keeps-trans l (insert_one A same a op l) l' (insert_one-Keeps a op l all.0)
            (insert_parts-Keeps fuel a stack (insert_one A same a op l) l' all.1 run))
    | inr ((lhs, rhs), p) ↦
        (let run : insert_parts A same fuel a (rhs ∷ lhs ∷ stack) l ≡ done l' =
            sym (rw (insert_parts, p) refl) ∙ h in
          let both = closed op lhs rhs all.0 p in
          insert_parts-Keeps fuel a (rhs ∷ lhs ∷ stack) l l' (both.1, (both.0, all.1)) run)
  ]

  pub insert-Keeps :
      (l : AssertionList) (ops : List Op) (l' : AssertionList)
      → All P ops
      → insert A same l ops ≡ done l'
      → Keeps l l'
  unfolding insert
  insert-Keeps l [] l' all h = subst (Keeps l) (done-injective h) (Keeps-refl l)
  insert-Keeps l (a ∷ ops) l' all h =
      let (l1, run, rest) =
        >>=-eq-done (insert_parts A same (suc (weight a + 0)) a (a ∷ []) l) _ h in
      Keeps-trans l l1 l' (insert_parts-Keeps (suc (weight a + 0)) a (a ∷ []) l l1 (all.0, tt) run)
        (insert-Keeps l1 ops l' all.1 rest)
