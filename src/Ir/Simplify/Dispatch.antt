-- ===== src/Ir/Simplify/Dispatch.antt =====
-- OperationSimplifier::visit on the BinaryOps of integers.
use caffeine.Prelude.{Outcome, done, ℕ, ◌+◌, ◌<◌, ◌≡◌, refl, Bool, true, Option}
use caffeine.Apint.{ApInt, ApIntLaws}
use caffeine.Ir.Operation.{
  Binop, add_op, sub_op, mul_op, udiv_op, sdiv_op, urem_op, srem_op, and_op, or_op, xor_op, shl_op,
  lshr_op, ashr_op, Op, binary, size, IsTyped,
}
use caffeine.Ir.Value.{Value}
use caffeine.Ir.Simplify.{
  visit_add, visit_sub, visit_mul, visit_udiv, visit_sdiv, visit_urem, visit_srem, visit_xor,
  visit_lshr, visit_ashr, visit_and, visit_shl, visit_or,
}
use caffeine.Ir.Simplify.Contract.{ModelFits, Refines, Sound}
use caffeine.Ir.Simplify.Arithmetic.{
  visit_add-Refines, visit_sub-Refines, visit_mul-Refines, visit_xor-Refines, visit_lshr-Refines,
  visit_ashr-Refines,
}
use caffeine.Ir.Simplify.Division.{
  IsNonzero, visit_udiv-Refines, visit_sdiv-Refines, visit_urem-Refines, visit_srem-Refines,
}
use caffeine.Ir.Simplify.Rewrites.{visit_and-Sound}
use caffeine.Ir.Simplify.Combined.{visit_or-Sound, visit_shl-Sound}

-- The visit that belongs to an opcode.
abbrev pub visit_binary : ApInt → (Op → Op → Bool) → ℕ → Binop → Op → Op → Outcome Op
visit_binary A same fuel add_op l r = done (visit_add A same l r)
visit_binary A same fuel sub_op l r = done (visit_sub A same l r)
visit_binary A same fuel mul_op l r = done (visit_mul A same l r)
visit_binary A same fuel udiv_op l r = done (visit_udiv A same l r)
visit_binary A same fuel sdiv_op l r = done (visit_sdiv A same l r)
visit_binary A same fuel urem_op l r = done (visit_urem A same l r)
visit_binary A same fuel srem_op l r = done (visit_srem A same l r)
visit_binary A same fuel and_op l r = visit_and A same fuel l r
visit_binary A same fuel or_op l r = visit_or A same fuel l r
visit_binary A same fuel xor_op l r = done (visit_xor A same l r)
visit_binary A same fuel shl_op l r = visit_shl A same fuel l r
visit_binary A same fuel lshr_op l r = done (visit_lshr A same l r)
visit_binary A same fuel ashr_op l r = done (visit_ashr A same l r)

module _ (A : ApInt) (laws : ApIntLaws A) (same : Op → Op → Bool)
    (same-eq : (a b : Op) → same a b ≡ true → a ≡ b) (scope : ℕ → ℕ) (model : ℕ → Option Value)
    (fits : ModelFits scope model) where
  -- The two divisions ask for a divisor that is not 0.
  abbrev pub DivisorFits : Binop → Op → Type 0
  DivisorFits add_op r = Unit {0}
  DivisorFits sub_op r = Unit {0}
  DivisorFits mul_op r = Unit {0}
  DivisorFits udiv_op r = IsNonzero A laws same same-eq scope model fits r
  DivisorFits sdiv_op r = IsNonzero A laws same same-eq scope model fits r
  DivisorFits urem_op r = Unit {0}
  DivisorFits srem_op r = Unit {0}
  DivisorFits and_op r = Unit {0}
  DivisorFits or_op r = Unit {0}
  DivisorFits xor_op r = Unit {0}
  DivisorFits shl_op r = Unit {0}
  DivisorFits lshr_op r = Unit {0}
  DivisorFits ashr_op r = Unit {0}

  done-Sound : (op op' : Op) → Refines A scope model op op' → Sound A scope model op (done op')
  done-Sound op op' refines = (op', refl, refines)

  -- With APInt as documented, `same` true of equal operations only, and a model whose symbols
  -- have values of their widths: a BinaryOp of typed operands, simplified at its creation with
  -- more fuel than the operands have nodes, ends without a failed assertion, in a typed
  -- operation of the same width that has the same value in every model that gives the BinaryOp
  -- one. A division asks for a divisor that is not 0 where it has a value.
  pub visit_binary-Sound :
      (fuel : ℕ) (o : Binop) (l r : Op)
      → size l + size r < fuel
      → IsTyped scope (binary o l r)
      → DivisorFits o r
      → Sound A scope model (binary o l r) (visit_binary A same fuel o l r)
  visit_binary-Sound fuel add_op l r small t d =
      done-Sound (binary add_op l r) _
        (visit_add-Refines A laws same same-eq scope model fits l r t)
  visit_binary-Sound fuel sub_op l r small t d =
      done-Sound (binary sub_op l r) _
        (visit_sub-Refines A laws same same-eq scope model fits l r t)
  visit_binary-Sound fuel mul_op l r small t d =
      done-Sound (binary mul_op l r) _
        (visit_mul-Refines A laws same same-eq scope model fits l r t)
  visit_binary-Sound fuel udiv_op l r small t d =
      done-Sound (binary udiv_op l r) _
        (visit_udiv-Refines A laws same same-eq scope model fits l r t d)
  visit_binary-Sound fuel sdiv_op l r small t d =
      done-Sound (binary sdiv_op l r) _
        (visit_sdiv-Refines A laws same same-eq scope model fits l r t d)
  visit_binary-Sound fuel urem_op l r small t d =
      done-Sound (binary urem_op l r) _
        (visit_urem-Refines A laws same same-eq scope model fits l r t)
  visit_binary-Sound fuel srem_op l r small t d =
      done-Sound (binary srem_op l r) _
        (visit_srem-Refines A laws same same-eq scope model fits l r t)
  visit_binary-Sound fuel and_op l r small t d =
      visit_and-Sound A laws same same-eq scope model fits fuel l r small t
  visit_binary-Sound fuel or_op l r small t d =
      visit_or-Sound A laws same same-eq scope model fits fuel l r small t
  visit_binary-Sound fuel xor_op l r small t d =
      done-Sound (binary xor_op l r) _
        (visit_xor-Refines A laws same same-eq scope model fits l r t)
  visit_binary-Sound fuel shl_op l r small t d =
      visit_shl-Sound A laws same same-eq scope model fits fuel l r small t
  visit_binary-Sound fuel lshr_op l r small t d =
      done-Sound (binary lshr_op l r) _
        (visit_lshr-Refines A laws same same-eq scope model fits l r t)
  visit_binary-Sound fuel ashr_op l r small t d =
      done-Sound (binary ashr_op l r) _
        (visit_ashr-Refines A laws same same-eq scope model fits l r t)
