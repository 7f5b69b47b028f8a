-- ===== src/Ir/Simplify/Arithmetic.antt =====
-- visitAdd, visitSub, visitMul, visitXor, visitLShr and visitAShr keep the value.
use caffeine.Prelude.{done, done-injective, ℕ, ◌≡◌, sym, ap, ◌∙◌, inl, inr, Bool, true, Option}
use caffeine.Prelude.Bits.{pow_pos}
use caffeine.Apint.{ApInt, ApIntLaws}
use caffeine.Ir.Operation.{
  add_op, sub_op, mul_op, xor_op, lshr_op, ashr_op, Op, binary, type_of, IsTyped,
}
use caffeine.Ir.Value.{Value, int}
use caffeine.Ir.Eval.{eval}
use caffeine.Ir.Simplify.{
  is_constant_int, visit_add, visit_sub, visit_mul, visit_xor, visit_lshr, visit_ashr,
}
use caffeine.Ir.Simplify.Contract.{ModelFits, Refines, int-injective}
use caffeine.Ir.Simplify.Values.{
  ||-true, is_constant_int-value, fold-Refines, if-Refines, undef-Refines, left-Refines,
  right-Refines, number-Refines,
}
use caffeine.Apint.Units.{
  zero-ap_add, ap_add-zero, ap_sub-zero, ap_sub_self, zero-ap_mul, ap_mul-zero, zero-ap_xor,
  ap_xor-zero, zero-ap_lshr, ap_lshr-zero, zero-ap_ashr, ap_ashr-zero,
}

module _ (A : ApInt) (laws : ApIntLaws A) (same : Op → Op → Bool)
    (same-eq : (a b : Op) → same a b ≡ true → a ≡ b) (scope : ℕ → ℕ) (model : ℕ → Option Value)
    (fits : ModelFits scope model) where
  -- The value of a constant operand.
  known :
      (op : Op) (n : ℕ) {w x : ℕ}
      → is_constant_int op n ≡ true
      → eval A model op ≡ done (int w x)
      → x ≡ n
  known op n h p = is_constant_int-value A laws scope model fits op n _ _ h p

  -- An addition, simplified at its creation, stays typed and has the same value in every model
  -- that gives the original one, for typed operands.
  pub visit_add-Refines :
      (l r : Op)
      → IsTyped scope (binary add_op l r)
      → Refines A scope model (binary add_op l r) (visit_add A same l r)
  visit_add-Refines l r t =
      if-Refines A laws scope model fits _ (binary add_op l r) _ _
        (λ h. undef-Refines A laws scope model fits add_op l r t h)
        λ _.
          if-Refines A laws scope model fits _ (binary add_op l r) _ _
            (λ h. right-Refines A laws scope model fits add_op l r t λ x y lx ly hx hy.
              let e = known l 0 h hx in rw e (zero-ap_add A laws (type_of l) y ly))
            λ _.
              if-Refines A laws scope model fits _ (binary add_op l r) _ _
                (λ h. left-Refines A laws scope model fits add_op l r t λ x y lx ly hx hy.
                  let e = known r 0 h hy in rw e (ap_add-zero A laws (type_of l) x lx))
                λ _. fold-Refines A laws scope model fits add_op l r t

  -- A subtraction, simplified at its creation, stays typed and has the same value in every model
  -- that gives the original one, for typed operands.
  pub visit_sub-Refines :
      (l r : Op)
      → IsTyped scope (binary sub_op l r)
      → Refines A scope model (binary sub_op l r) (visit_sub A same l r)
  visit_sub-Refines l r t =
      if-Refines A laws scope model fits _ (binary sub_op l r) _ _
        (λ h. undef-Refines A laws scope model fits sub_op l r t h)
        λ _.
          if-Refines A laws scope model fits _ (binary sub_op l r) _ _
            (λ h. left-Refines A laws scope model fits sub_op l r t λ x y lx ly hx hy.
              let e = known r 0 h hy in rw e (ap_sub-zero A laws (type_of l) x lx))
            λ _.
              if-Refines A laws scope model fits _ (binary sub_op l r) _ _
                (λ h.
                  number-Refines A laws scope model fits sub_op l r 0 t (pow_pos (type_of l))
                    λ x y lx ly hx hy.
                      let same_op = same-eq r l h in
                      let e : y ≡ x =
                        (int-injective
                          (done-injective (sym hy ∙ ap (eval A model) same_op ∙ hx))).1 in
                      rw e (ap_sub_self A laws (type_of l) x lx))
                λ _. fold-Refines A laws scope model fits sub_op l r t

  -- A multiplication, simplified at its creation, stays typed and has the same value in every model
  -- that gives the original one, for typed operands.
  pub visit_mul-Refines :
      (l r : Op)
      → IsTyped scope (binary mul_op l r)
      → Refines A scope model (binary mul_op l r) (visit_mul A same l r)
  visit_mul-Refines l r t =
      if-Refines A laws scope model fits _ (binary mul_op l r) _ _
        (λ h.
          left-Refines A laws scope model fits mul_op l r t
            λ x y lx ly hx hy. let e = known l 0 h hx in rw e (zero-ap_mul A laws (type_of l) y ly))
        λ _.
          if-Refines A laws scope model fits _ (binary mul_op l r) _ _
            (λ h. right-Refines A laws scope model fits mul_op l r t λ x y lx ly hx hy.
              let e = known r 0 h hy in rw e (ap_mul-zero A laws (type_of l) x lx))
            λ _. fold-Refines A laws scope model fits mul_op l r t

  -- An exclusive or, simplified at its creation, stays typed and has the same value in every model
  -- that gives the original one, for typed operands.
  pub visit_xor-Refines :
      (l r : Op)
      → IsTyped scope (binary xor_op l r)
      → Refines A scope model (binary xor_op l r) (visit_xor A same l r)
  visit_xor-Refines l r t =
      if-Refines A laws scope model fits _ (binary xor_op l r) _ _
        (λ h. undef-Refines A laws scope model fits xor_op l r t h)
        λ _.
          if-Refines A laws scope model fits _ (binary xor_op l r) _ _
            (λ h. right-Refines A laws scope model fits xor_op l r t λ x y lx ly hx hy.
              let e = known l 0 h hx in rw e (zero-ap_xor A laws (type_of l) y ly))
            λ _.
              if-Refines A laws scope model fits _ (binary xor_op l r) _ _
                (λ h. left-Refines A laws scope model fits xor_op l r t λ x y lx ly hx hy.
                  let e = known r 0 h hy in rw e (ap_xor-zero A laws (type_of l) x lx))
                λ _. fold-Refines A laws scope model fits xor_op l r t

  -- A logical shift to the right, simplified at its creation, stays typed and has the same value in every model
  -- that gives the original one, for typed operands.
  pub visit_lshr-Refines :
      (l r : Op)
      → IsTyped scope (binary lshr_op l r)
      → Refines A scope model (binary lshr_op l r) (visit_lshr A same l r)
  visit_lshr-Refines l r t =
      if-Refines A laws scope model fits _ (binary lshr_op l r) _ _
        (λ h. left-Refines A laws scope model fits lshr_op l r t λ x y lx ly hx hy.
          elim (||-true (is_constant_int l 0) (is_constant_int r 0) h) [
            | inl p ↦ (let e = known l 0 p hx in rw e (zero-ap_lshr A laws (type_of l) y))
            | inr p ↦ (let e = known r 0 p hy in rw e (ap_lshr-zero A laws (type_of l) x lx))
          ])
        λ _. fold-Refines A laws scope model fits lshr_op l r t

  -- An arithmetic shift to the right, simplified at its creation, stays typed and has the same value in every model
  -- that gives the original one, for typed operands.
  pub visit_ashr-Refines :
      (l r : Op)
      → IsTyped scope (binary ashr_op l r)
      → Refines A scope model (binary ashr_op l r) (visit_ashr A same l r)
  visit_ashr-Refines l r t =
      if-Refines A laws scope model fits _ (binary ashr_op l r) _ _
        (λ h. left-Refines A laws scope model fits ashr_op l r t λ x y lx ly hx hy.
          elim (||-true (is_constant_int l 0) (is_constant_int r 0) h) [
            | inl p ↦ (let e = known l 0 p hx in rw e (zero-ap_ashr A laws (type_of l) y))
            | inr p ↦ (let e = known r 0 p hy in rw e (ap_ashr-zero A laws (type_of l) x lx))
          ])
        λ _. fold-Refines A laws scope model fits ashr_op l r t
