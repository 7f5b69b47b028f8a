-- ===== src/Ir/Value.antt =====
-- The values of src/IR/Value.cpp that are integers: the bits of an APInt and their width.
use caffeine.Prelude.{
  ltb, ◌==◌, if◌then◌else◌, Outcome, done, fault, ℕ, zero, suc, Bool, true, false, ◌&&◌,
}
use caffeine.Apint.{ApInt}
use caffeine.Ir.Operation.{
  Binop, add_op, sub_op, mul_op, udiv_op, sdiv_op, urem_op, srem_op, and_op, or_op, xor_op, shl_op,
  lshr_op, ashr_op,
}

pub data Value : Type 0 where
  int : ℕ → ℕ → Value

-- `APInt::isNullValue`
abbrev pub is_null : ℕ → Bool
is_null zero = true
is_null (suc y) = false

module _ (A : ApInt) where
  -- The bits of `bvudiv`, `bvsdiv`, `bvurem` and `bvsrem`, which test the divisor.
  abbrev pub udiv_bits : ℕ → ℕ → ℕ → ℕ
  udiv_bits w x y = if is_null y then A.max_value w else A.ap_udiv w x y

  abbrev pub sdiv_bits : ℕ → ℕ → ℕ → ℕ
  sdiv_bits w x y =
      if is_null y
      then A.signed_max_value w
      else if x == A.signed_min_value w && y == A.max_value w
      then A.signed_max_value w
      else A.ap_sdiv w x y

  abbrev pub urem_bits : ℕ → ℕ → ℕ → ℕ
  urem_bits w x y = if is_null y then x else A.ap_urem w x y

  abbrev pub srem_bits : ℕ → ℕ → ℕ → ℕ
  srem_bits w x y = if is_null y then x else A.ap_srem w x y

  -- The function that each of `bvadd` to `bvashr` computes.
  abbrev pub binary_bits : Binop → ℕ → ℕ → ℕ → ℕ
  binary_bits add_op = A.ap_add
  binary_bits sub_op = A.ap_sub
  binary_bits mul_op = A.ap_mul
  binary_bits udiv_op = udiv_bits
  binary_bits sdiv_op = sdiv_bits
  binary_bits urem_op = urem_bits
  binary_bits srem_op = srem_bits
  binary_bits and_op = A.ap_and
  binary_bits or_op = A.ap_or
  binary_bits xor_op = A.ap_xor
  binary_bits shl_op = A.ap_shl
  binary_bits lshr_op = A.ap_lshr
  binary_bits ashr_op = A.ap_ashr

  -- `Value::bvadd` to `Value::bvashr`; an APInt faults where the widths differ.
  abbrev pub bv_binary : Binop → Value → Value → Outcome Value
  bv_binary o (int w x) (int v y) = if w == v then done (int w (binary_bits o w x y)) else fault

  abbrev pub bv_not : Value → Outcome Value
  bv_not (int w x) = done (int w (A.ap_not w x))

  abbrev pub bv_trunc : Value → ℕ → Outcome Value
  bv_trunc (int w x) t = if ltb t w then done (int t (A.ap_trunc w t x)) else fault

  abbrev pub bv_sext : Value → ℕ → Outcome Value
  bv_sext (int w x) t = if ltb w t then done (int t (A.ap_sext w t x)) else fault

  abbrev pub bv_zext : Value → ℕ → Outcome Value
  bv_zext (int w x) t = if ltb w t then done (int t (A.ap_zext w t x)) else fault

-- `Value::operator==` on integers.
abbrev pub equal : Value → Value → Outcome Bool
equal (int w x) (int v y) = if w == v then done (x == y) else fault

-- `Value::Value(bool)`: the arguments of APInt are the width and the number, in this order.
abbrev pub of_bool : Bool → Outcome Value
of_bool true = done (int 1 1)
of_bool false = fault
