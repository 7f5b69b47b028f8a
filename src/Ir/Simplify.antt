-- ===== src/Ir/Simplify.antt =====
-- OperationSimplifier of src/IR/OperationSimplifier.cpp on the integer operations. The result of
-- a visit is an operation, or a fault where a Create function asserts. Comparing two OpRef tells
-- whether they are the same object, which is the parameter `same`. Interning by OperationCache
-- gives an operation that is equal to its argument.
pub mod Contract
pub mod Values
pub mod Arithmetic
pub mod Division
pub mod Bitwise
pub mod Masks
pub mod Rewrites
pub mod Patterns
pub mod Combined
pub mod Visits
pub mod Comparisons
pub mod Widths
pub mod Extensions
pub mod Selects
pub mod Dispatch
mod Tests
use caffeine.Prelude.{
  ltb, ◌==◌, if◌then◌else◌, Outcome, done, fault, ◌>>=◌, ◌>>◌, check, ℕ, zero, suc, Bool, true,
  false, ◌&&◌, ◌||◌, Option, none, some,
}
use caffeine.Apint.{ApInt}
use caffeine.Ir.Operation.{
  add_op, sub_op, mul_op, udiv_op, sdiv_op, urem_op, srem_op, and_op, or_op, xor_op, shl_op,
  lshr_op, ashr_op, Op, constant_int, undef, binary, type_of,
}
use caffeine.Ir.Value.{udiv_bits, sdiv_bits, urem_bits, srem_bits}

abbrev pub is_undef : Op → Bool
is_undef (undef w) = true
is_undef _ = false

abbrev pub is_constant_int : Op → ℕ → Bool
is_constant_int (constant_int w v) value = v == value
is_constant_int _ value = false

abbrev pub is_constant : Op → Bool
is_constant (constant_int w v) = true
is_constant _ = false

-- TRY_CONST_INT, and `as_const_int` with the same use of its result.
abbrev pub try_const_int : (ℕ → ℕ → ℕ → ℕ) → Op → Op → Option Op
try_const_int f (constant_int w x) (constant_int v y) = some (constant_int w (f w x y))
try_const_int f _ r = none

abbrev pub or_else {ℓ} : {A : Type ℓ} → Option A → A → A
or_else (some a) b = a
or_else none b = b

-- What visitAnd does after the constants: nothing, or one of its two rewrites.
pub data AndRewrite : Type 0 where
  keep : AndRewrite
  move_shift : Op → Op → Op → AndRewrite
  merge_masks : Op → Op → Op → AndRewrite

-- The rewrites of a constant mask and another operand, with the value first.
abbrev pub rewrite_masked : Op → Op → AndRewrite
rewrite_masked mask (binary lshr_op value shift) =
    if is_constant shift then move_shift value mask shift else keep
rewrite_masked mask (binary and_op a b) =
    if is_constant a
    then merge_masks b mask a
    else if is_constant b
    then merge_masks a mask b
    else keep
rewrite_masked mask _ = keep

abbrev pub and_rewrite : Op → Op → AndRewrite
and_rewrite l r =
    if is_constant l then rewrite_masked l r else if is_constant r then rewrite_masked r l else keep

-- `m::And(value, m::ConstantInt(mask))`
abbrev pub right_mask : Op → Option (Op × Op)
right_mask (binary and_op value mask) = if is_constant mask then some (value, mask) else none
right_mask _ = none

-- `m::LShr(value, m::ConstantInt(shift))` and `m::ConstantInt(shift)`, where both constants have
-- the same value, below the width.
abbrev pub shifted_back : ℕ → Op → Op → Option (Op × ℕ)
shifted_back w (binary lshr_op value (constant_int v s)) (constant_int u t) =
    if t == s && ltb t w then some (value, t) else none
shifted_back w l r = none

-- The condition of BinaryOp::Create that can fail.
abbrev pub same_types : Op → Op → Outcome (Unit {0})
same_types l r = check (type_of l == type_of r)

module _ (A : ApInt) (same : Op → Op → Bool) where
  abbrev pub is_constant_ones : Op → Bool
  is_constant_ones (constant_int w v) = v == A.max_value w
  is_constant_ones _ = false

  abbrev pub visit_add : Op → Op → Op
  visit_add l r =
      if is_undef l || is_undef r
      then undef (type_of l)
      else if is_constant_int l 0
      then r
      else if is_constant_int r 0
      then l
      else or_else (try_const_int A.ap_add l r) (binary add_op l r)

  abbrev pub visit_sub : Op → Op → Op
  visit_sub l r =
      if is_undef l || is_undef r
      then undef (type_of l)
      else if is_constant_int r 0
      then l
      else if same r l
      then constant_int (type_of l) 0
      else or_else (try_const_int A.ap_sub l r) (binary sub_op l r)

  abbrev pub visit_mul : Op → Op → Op
  visit_mul l r =
      if is_constant_int l 0
      then l
      else if is_constant_int r 0
      then r
      else or_else (try_const_int A.ap_mul l r) (binary mul_op l r)

  abbrev pub visit_udiv : Op → Op → Op
  visit_udiv l r =
      if is_constant_int l 0 || is_constant_int r 1
      then l
      else or_else (try_const_int (udiv_bits A) l r) (binary udiv_op l r)

  abbrev pub visit_sdiv : Op → Op → Op
  visit_sdiv l r =
      if is_constant_int l 0
      then l
      else if is_constant_int r 1 && ltb 1 (type_of l)
      then l
      else or_else (try_const_int (sdiv_bits A) l r) (binary sdiv_op l r)

  abbrev pub visit_urem : Op → Op → Op
  visit_urem l r =
      if is_constant_int l 0
      then l
      else if is_constant_int r 1
      then constant_int (type_of l) 0
      else or_else (try_const_int (urem_bits A) l r) (binary urem_op l r)

  abbrev pub visit_srem : Op → Op → Op
  visit_srem l r =
      if is_constant_int l 0
      then l
      else if is_constant_int r 1 && ltb 1 (type_of l)
      then constant_int (type_of l) 0
      else or_else (try_const_int (srem_bits A) l r) (binary srem_op l r)

  abbrev pub visit_xor : Op → Op → Op
  visit_xor l r =
      if is_undef l || is_undef r
      then undef (type_of l)
      else if is_constant_int l 0
      then r
      else if is_constant_int r 0
      then l
      else or_else (try_const_int A.ap_xor l r) (binary xor_op l r)

  abbrev pub visit_lshr : Op → Op → Op
  visit_lshr l r =
      if is_constant_int l 0 || is_constant_int r 0
      then l
      else or_else (try_const_int A.ap_lshr l r) (binary lshr_op l r)

  abbrev pub visit_ashr : Op → Op → Op
  visit_ashr l r =
      if is_constant_int l 0 || is_constant_int r 0
      then l
      else or_else (try_const_int A.ap_ashr l r) (binary ashr_op l r)

  -- visitAnd up to its rewrites.
  abbrev pub and_constants : Op → Op → Option Op
  and_constants l r =
      if is_constant_int l 0
      then some l
      else if is_constant_int r 0
      then some r
      else if is_constant_ones l
      then some r
      else if is_constant_ones r
      then some l
      else try_const_int A.ap_and l r

  abbrev pub or_constants : Op → Op → Option Op
  or_constants l r =
      if is_constant_int l 0
      then some r
      else if is_constant_int r 0
      then some l
      else if is_constant_ones l
      then some l
      else if is_constant_ones r
      then some r
      else try_const_int A.ap_or l r

  -- visitShl up to its rewrite.
  abbrev pub shl_constants : Op → Op → Option Op
  shl_constants l r =
      if is_constant_int l 0 || is_constant_int r 0 then some l else try_const_int A.ap_shl l r

  -- BinaryOp::CreateAnd, CreateShl and CreateLShr, where `visit` is the simplifier's visit.
  abbrev pub create : (Op → Op → Outcome Op) → Op → Op → Outcome Op
  create visit l r = same_types l r >> visit l r

  -- The rewrites, which build their result by the Create functions.
  abbrev pub continue_and :
      (Op → Op → Outcome Op) → (Op → Op → Outcome Op) → Op → Op → AndRewrite → Outcome Op
  continue_and visit visit_shl l r keep = done (binary and_op l r)
  continue_and visit visit_shl l r (move_shift value mask shift) = do
    moved ← create visit_shl mask shift
    masked ← create visit value moved
    create (λ a b. done (visit_lshr a b)) masked shift
  continue_and visit visit_shl l r (merge_masks value mask1 mask2) = do
    mask ← create visit mask1 mask2
    create visit value mask

  abbrev pub continue_shl : (Op → Op → Outcome Op) → Op → Op → Option (Op × ℕ) → Outcome Op
  continue_shl visit l r none = done (binary shl_op l r)
  continue_shl visit l r (some (value, shift)) =
      create visit value (constant_int (type_of l) (A.bits_set_from (type_of l) shift))

  -- visitAnd and visitShl call each other. The fuel bounds the depth of the calls.
  abbrev mutual
    pub visit_and : ℕ → Op → Op → Outcome Op
    visit_and zero l r = fault
    visit_and (suc fuel) l r = elim (and_constants l r) [
      | some op ↦ done op
      | none ↦ continue_and (visit_and fuel) (visit_shl fuel) l r (and_rewrite l r)
    ]

    pub visit_shl : ℕ → Op → Op → Outcome Op
    visit_shl zero l r = fault
    visit_shl (suc fuel) l r = elim (shl_constants l r) [
      | some op ↦ done op
      | none ↦ continue_shl (visit_and fuel) l r (shifted_back (type_of l) l r)
    ]

  -- The rewrite of visitOr, for two masks of the same value.
  abbrev pub or_masks :
      (Op → Op → Outcome Op) → ℕ → Op → Op → Option (Op × Op) → Option (Op × Op) → Outcome Op
  or_masks visit fuel l r (some (value1, mask1)) (some (value2, mask2)) =
      if same value1 value2
      then (create visit mask1 mask2 >>= create (visit_and fuel) value1)
      else done (binary or_op l r)
  or_masks visit fuel l r _ _ = done (binary or_op l r)

  abbrev pub visit_or : ℕ → Op → Op → Outcome Op
  visit_or zero l r = fault
  visit_or (suc fuel) l r = elim (or_constants l r) [
    | some op ↦ done op
    | none ↦ or_masks (visit_or fuel) fuel l r (right_mask l) (right_mask r)
  ]
