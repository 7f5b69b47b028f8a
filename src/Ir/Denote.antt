-- ===== src/Ir/Denote.antt =====
-- What the operations on integers of include/caffeine/IR/Operation.h mean to a solver: the functions
-- on bit vectors that LLVM and SMT-LIB give them, every comparison included. A symbol without a value
-- is 0, and so is undef, as in src/Solver/Z3/Convert.cpp.
use caffeine.Prelude.{
  ◌==◌, if◌then◌else◌, ℕ, ◌+◌, ◌-◌, ◌*◌, ◌/◌, ◌%◌, ◌^◌, ◌<◌, ◌≡◌, refl, sym, subst, Bool, true,
  false, Option, none, some, arith,
}
use caffeine.Prelude.Bits.{pow_pos}
use caffeine.Apint.{is_negative, signed_quotient, signed_remainder}
use caffeine.Ir.Operation.{
  Binop, add_op, sub_op, mul_op, udiv_op, sdiv_op, urem_op, srem_op, and_op, or_op, xor_op, shl_op,
  lshr_op, ashr_op, Unop, not_op, trunc_op, zext_op, sext_op, Op, constant_int, constant, undef,
  binary, unary, icmp, select, type_of, IsTyped,
}
use caffeine.Ir.Value.{Value, int, is_null}
use caffeine.Ir.Simplify.Visits.{holds}
use caffeine.Ir.Simplify.Contract.{Fits, ModelFits}
use native.Mathlib.Nat.{mod-lt}
use Prim.Native.Nat.{bit_and, bit_or, bit_xor}

abbrev pub number_of : Option Value → ℕ
number_of none = 0
number_of (some (int w x)) = x

abbrev pub binary_number : Binop → ℕ → ℕ → ℕ → ℕ
binary_number add_op w x y = x + y
binary_number sub_op w x y = x + (2 ^ w - y)
binary_number mul_op w x y = x * y
binary_number udiv_op w x y = if is_null y then 2 ^ w - 1 else x / y
binary_number sdiv_op w x y =
    if is_null y then (if is_negative w x then 1 else 2 ^ w - 1) else signed_quotient w x y
binary_number urem_op w x y = if is_null y then x else x % y
binary_number srem_op w x y = if is_null y then x else signed_remainder w x y
binary_number and_op w x y = bit_and x y
binary_number or_op w x y = bit_or x y
binary_number xor_op w x y = bit_xor x y
binary_number shl_op w x y = x * 2 ^ y
binary_number lshr_op w x y = x / 2 ^ y
binary_number ashr_op w x y =
    if is_negative w x then 2 ^ w - 1 - (2 ^ w - 1 - x) / 2 ^ y else x / 2 ^ y

-- From width `u` to width `w`.
abbrev pub unary_number : Unop → ℕ → ℕ → ℕ → ℕ
unary_number not_op w u x = 2 ^ w - 1 - x
unary_number trunc_op w u x = x % 2 ^ w
unary_number zext_op w u x = x % 2 ^ w
unary_number sext_op w u x = (if is_negative u x then x + 2 ^ w - 2 ^ u else x) % 2 ^ w

abbrev pub denote : (ℕ → Option Value) → Op → ℕ
denote model (constant_int w v) = v
denote model (constant w n) = number_of (model n)
denote model (undef w) = 0
denote model (binary o l r) =
    binary_number o (type_of l) (denote model l) (denote model r) % 2 ^ type_of l
denote model (unary o w x) = unary_number o w (type_of x) (denote model x)
denote model (icmp c l r) = if holds c (type_of l) (denote model l) (denote model r) then 1 else 0
denote model (select c t f) =
    let true_number = denote model t in
    let false_number = denote model f in if denote model c == 1 then true_number else false_number

if-lt : (b : Bool) (x y n : ℕ) → x < n → y < n → (if b then x else y) < n
if-lt true x y n hx hy = hx
if-lt false x y n hx hy = hy

module _ (scope : ℕ → ℕ) (model : ℕ → Option Value) (fits : ModelFits scope model) where
  number_of-lt :
      (w : ℕ) (found : Option Value)
      → ((v : Value) → found ≡ some v → Fits w v)
      → number_of found < 2 ^ w
  number_of-lt w none h = pow_pos w
  number_of-lt w (some (int u x)) h = (h (int u x) refl).1

  -- The number of a typed operation has the width that its type says.
  pub denote-lt : (op : Op) → IsTyped scope op → denote model op < 2 ^ type_of op
  denote-lt (constant_int w v) t = t.1
  denote-lt (constant w n) (pos, e) =
      number_of-lt w (model n) (λ v h. subst (λ u. Fits u v) e (fits n v h))
  denote-lt (undef w) t = pow_pos w
  denote-lt (binary o l r) t = mod-lt _ (pow_pos (type_of l))
  denote-lt (unary not_op w x) t = omega (arith, pow_pos w)
  denote-lt (unary trunc_op w x) t = mod-lt _ (pow_pos w)
  denote-lt (unary zext_op w x) t = mod-lt _ (pow_pos w)
  denote-lt (unary sext_op w x) t = mod-lt _ (pow_pos w)
  denote-lt (icmp c l r) t =
      if-lt (holds c (type_of l) (denote model l) (denote model r)) 1 0 2 (omega arith)
        (omega arith)
  denote-lt (select c t f) (uc, ut, uf, one, e) =
      if-lt (denote model c == 1) _ _ (2 ^ type_of t) (denote-lt t ut)
        (subst (λ w. denote model f < 2 ^ w) (sym e) (denote-lt f uf))
