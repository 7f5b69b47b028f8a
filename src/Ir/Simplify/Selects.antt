-- ===== src/Ir/Simplify/Selects.antt =====
-- visitSelectOp keeps the value.
use caffeine.Prelude.{
  ◌==◌, if◌then◌else◌, Bool-cases, Outcome, done, >>=-eq-done, ℕ, ◌≡◌, refl, sym, subst, inl, inr,
  Bool, true, false, Option,
}
use caffeine.Apint.{ApInt, ApIntLaws}
use caffeine.Ir.Operation.{Op, constant_int, constant, undef, binary, unary, icmp, select, IsTyped}
use caffeine.Ir.Value.{Value}
use caffeine.Ir.Eval.{eval, is_one}
use caffeine.Ir.Simplify.Contract.{ModelFits, Refines}
use caffeine.Ir.Simplify.Values.{if-Refines}
use caffeine.Ir.Simplify.Visits.{visit_select}

module _ (A : ApInt) (laws : ApIntLaws A) (same : Op → Op → Bool)
    (same-eq : (a b : Op) → same a b ≡ true → a ≡ b) (scope : ℕ → ℕ) (model : ℕ → Option Value)
    (fits : ModelFits scope model) where
  select-value :
      (c t f op' : Op)
      → ((a v : Value)
          → eval A model c ≡ done a
          → (if is_one a then eval A model t else eval A model f) ≡ done v
          → eval A model op' ≡ done v)
      → (v : Value) → eval A model (select c t f) ≡ done v
      → eval A model op' ≡ done v
  select-value c t f op' step v h =
      let (a, ha, last) = >>=-eq-done (eval A model c) _ h in step a v ha last

  either_branch :
      (b : Bool) (s : Outcome Value) (v : Value) → (if b then s else s) ≡ done v → s ≡ done v
  either_branch true s v h = h
  either_branch false s v h = h

  kept_select-Refines :
      (c t f : Op)
      → IsTyped scope (select c t f)
      → Refines A scope model (select c t f) (if same t f then t else select c t f)
  kept_select-Refines c t f (uc, ut, uf, ec, et) =
      if-Refines A laws scope model fits _ (select c t f) _ _
        (λ h. (
          ut,
          refl,
          select-value c t f t λ a v ha last.
              let e : f ≡ t = sym (same-eq t f h) in
              either_branch (is_one a) (eval A model t) v (
                subst (λ k. (if is_one a then eval A model t else eval A model k) ≡ done v) e last),
        ))
        λ h. ((uc, ut, uf, ec, et), refl, λ v p. p)

  -- With APInt as documented, `same` true of equal operations only, and a model whose symbols
  -- have values of their widths: a select of typed operands, simplified at its creation, stays
  -- typed and has the same value in every model that gives the original one.
  pub visit_select-Refines :
      (c t f : Op)
      → IsTyped scope (select c t f)
      → Refines A scope model (select c t f) (visit_select same c t f)
  visit_select-Refines (constant_int w k) t f (uc, ut, uf, ec, et) = elim (Bool-cases (k == 1)) [
    | inl p ↦ rw p (ut, refl, λ v h. h)
    | inr p ↦ rw p (uf, sym et, λ v h. h)
  ]
  visit_select-Refines (constant v y) t f u = kept_select-Refines (constant v y) t f u
  visit_select-Refines (undef v) t f u = kept_select-Refines (undef v) t f u
  visit_select-Refines (binary q a b) t f u = kept_select-Refines (binary q a b) t f u
  visit_select-Refines (unary q v a) t f u = kept_select-Refines (unary q v a) t f u
  visit_select-Refines (icmp q a b) t f u = kept_select-Refines (icmp q a b) t f u
  visit_select-Refines (select q a b) t f u = kept_select-Refines (select q a b) t f u
