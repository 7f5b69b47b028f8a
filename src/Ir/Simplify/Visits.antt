-- ===== src/Ir/Simplify/Visits.antt =====
-- visitNot, visitTrunc, visitZExt, visitSExt, visitSelectOp and visitICmp.
use caffeine.Prelude.{fault}
use caffeine.Prelude.{
  ltb, leb, ◌==◌, if◌then◌else◌, Outcome, done, ℕ, Bool, true, false, not, Option, none, some,
}
use caffeine.Apint.{ApInt, offset}
use caffeine.Ir.Operation.{
  not_op, trunc_op, zext_op, sext_op, IcmpOpcode, cmp_eq, cmp_ne, cmp_uge, cmp_ugt, cmp_ule,
  cmp_ult, cmp_sge, cmp_sgt, cmp_sle, cmp_slt, Op, constant_int, undef, unary, icmp, select,
  type_of,
}
use caffeine.Ir.Simplify.{is_undef, or_else}

-- `matching::Not(value)` and `m::Trunc(inner)`
abbrev pub not_operand : Op → Option Op
not_operand (unary not_op w value) = some value
not_operand _ = none

abbrev pub trunc_operand : Op → Option Op
trunc_operand (unary trunc_op w inner) = some inner
trunc_operand _ = none

-- The comparison of two numbers of a width, as it is documented.
abbrev pub holds : IcmpOpcode → ℕ → ℕ → ℕ → Bool
holds cmp_eq w x y = x == y
holds cmp_ne w x y = not (x == y)
holds cmp_uge w x y = leb y x
holds cmp_ugt w x y = ltb y x
holds cmp_ule w x y = leb x y
holds cmp_ult w x y = ltb x y
holds cmp_sge w x y = leb (offset w y) (offset w x)
holds cmp_sgt w x y = ltb (offset w y) (offset w x)
holds cmp_sle w x y = leb (offset w x) (offset w y)
holds cmp_slt w x y = ltb (offset w x) (offset w y)

-- `ConstantInt::Create(bool)`
abbrev pub constant_bool : Bool → Op
constant_bool b = constant_int 1 (if b then 1 else 0)

-- The comparisons that an operand fulfils with itself.
abbrev pub is_reflexive : IcmpOpcode → Bool
is_reflexive cmp_eq = true
is_reflexive cmp_ule = true
is_reflexive cmp_sle = true
is_reflexive cmp_uge = true
is_reflexive cmp_sge = true
is_reflexive cmp_ne = false
is_reflexive cmp_ult = false
is_reflexive cmp_slt = false
is_reflexive cmp_ugt = false
is_reflexive cmp_sgt = false

module _ (A : ApInt) where
  abbrev pub constant_int_compare : IcmpOpcode → ℕ → ℕ → ℕ → Bool
  constant_int_compare cmp_eq w x y = x == y
  constant_int_compare cmp_ne w x y = not (x == y)
  constant_int_compare cmp_uge w x y = A.ap_uge w x y
  constant_int_compare cmp_ugt w x y = A.ap_ugt w x y
  constant_int_compare cmp_ule w x y = A.ap_ule w x y
  constant_int_compare cmp_ult w x y = A.ap_ult w x y
  constant_int_compare cmp_sge w x y = A.ap_sge w x y
  constant_int_compare cmp_sgt w x y = A.ap_sgt w x y
  constant_int_compare cmp_sle w x y = A.ap_sle w x y
  constant_int_compare cmp_slt w x y = A.ap_slt w x y

  abbrev pub visit_not : ℕ → Op → Op
  visit_not w (constant_int v x) = constant_int v (A.ap_not v x)
  visit_not w x = or_else (not_operand x) (unary not_op w x)

  -- A constant is converted first, and APInt asserts that its width changes.
  abbrev pub visit_trunc : ℕ → Op → Outcome Op
  visit_trunc w (constant_int v x) =
      if ltb w v then done (constant_int w (A.ap_trunc v w x)) else fault
  visit_trunc w x = done (if w == type_of x then x else unary trunc_op w x)

  abbrev pub visit_sext : ℕ → Op → Outcome Op
  visit_sext w (constant_int v x) =
      if ltb v w then done (constant_int w (A.ap_sext v w x)) else fault
  visit_sext w x = done (if w == type_of x then x else unary sext_op w x)

  -- (zext.ixx (trunc.iyy v)) -> (and v (ixx (2^yy - 1)))
  abbrev pub zext_of_trunc : (Op → Op → Outcome Op) → ℕ → Op → Option Op → Outcome Op
  zext_of_trunc create_and w x none = done (unary zext_op w x)
  zext_of_trunc create_and w x (some inner) =
      if w == type_of inner
      then create_and inner (constant_int w (A.low_bits_set w (type_of x)))
      else done (unary zext_op w x)

  abbrev pub visit_zext : (Op → Op → Outcome Op) → ℕ → Op → Outcome Op
  visit_zext create_and w (constant_int v x) =
      if ltb v w then done (constant_int w (A.ap_zext v w x)) else fault
  visit_zext create_and w x =
      if w == type_of x then done x else zext_of_trunc create_and w x (trunc_operand x)

  abbrev pub compare_constants : IcmpOpcode → Op → Op → Option Op
  compare_constants c (constant_int w x) (constant_int v y) =
      some (constant_bool (constant_int_compare c w x y))
  compare_constants c _ r = none

  abbrev pub visit_icmp : (Op → Op → Bool) → IcmpOpcode → Op → Op → Op
  visit_icmp same c l r = or_else (compare_constants c l r) (
      if same l r
      then (if is_undef l then undef 1 else constant_bool (is_reflexive c))
      else icmp c l r)

abbrev pub visit_select : (Op → Op → Bool) → Op → Op → Op → Op
visit_select same (constant_int w v) t f = if v == 1 then t else f
visit_select same c t f = if same t f then t else select c t f
