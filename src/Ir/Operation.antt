-- ===== src/Ir/Operation.antt =====
-- The operations on integers of include/caffeine/IR/Operation.h and src/IR/Operation.cpp.
use caffeine.Prelude.{ℕ, suc, ◌+◌, ◌^◌, ◌≤◌, ◌<◌, ◌≡◌, arith}

-- The opcodes of BinaryOp on integers.
pub data Binop : Type 0 where
  add_op : Binop
  sub_op : Binop
  mul_op : Binop
  udiv_op : Binop
  sdiv_op : Binop
  urem_op : Binop
  srem_op : Binop
  and_op : Binop
  or_op : Binop
  xor_op : Binop
  shl_op : Binop
  lshr_op : Binop
  ashr_op : Binop

-- Those of UnaryOp.
pub data Unop : Type 0 where
  not_op : Unop
  trunc_op : Unop
  zext_op : Unop
  sext_op : Unop

pub data IcmpOpcode : Type 0 where
  cmp_eq : IcmpOpcode
  cmp_ne : IcmpOpcode
  cmp_uge : IcmpOpcode
  cmp_ugt : IcmpOpcode
  cmp_ule : IcmpOpcode
  cmp_ult : IcmpOpcode
  cmp_sge : IcmpOpcode
  cmp_sgt : IcmpOpcode
  cmp_sle : IcmpOpcode
  cmp_slt : IcmpOpcode

-- An operation; a ConstantInt carries the width and the bits of its APInt, a symbol is a number.
pub data Op : Type 0 where
  constant_int : ℕ → ℕ → Op
  constant : ℕ → ℕ → Op
  undef : ℕ → Op
  binary : Binop → Op → Op → Op
  unary : Unop → ℕ → Op → Op
  icmp : IcmpOpcode → Op → Op → Op
  select : Op → Op → Op → Op

-- The width of the type; every type here is an integer type.
abbrev pub type_of : Op → ℕ
type_of (constant_int w v) = w
type_of (constant w n) = w
type_of (undef w) = w
type_of (binary o l r) = type_of l
type_of (unary o w x) = w
type_of (icmp c l r) = 1
type_of (select c t f) = type_of t

-- What UnaryOp::CreateNot, CreateTrunc, CreateZExt and CreateSExt assert of the widths.
abbrev pub UnaryFits : Unop → ℕ → ℕ → Type 0
UnaryFits not_op w v = w ≡ v
UnaryFits trunc_op w v = w ≤ v
UnaryFits zext_op w v = v ≤ w
UnaryFits sext_op w v = v ≤ w

-- The operands have the types that the Create functions assert, and a symbol has the width that
-- `scope` declares.
abbrev pub IsTyped : (ℕ → ℕ) → Op → Type 0
IsTyped scope (constant_int w v) = (0 < w) × (v < 2 ^ w)
IsTyped scope (constant w n) = (0 < w) × (scope n ≡ w)
IsTyped scope (undef w) = 0 < w
IsTyped scope (binary o l r) = IsTyped scope l × IsTyped scope r × (type_of l ≡ type_of r)
IsTyped scope (unary o w x) = (0 < w) × IsTyped scope x × UnaryFits o w (type_of x)
IsTyped scope (icmp c l r) = IsTyped scope l × IsTyped scope r × (type_of l ≡ type_of r)
IsTyped scope (select c t f) =
    IsTyped scope c × IsTyped scope t × IsTyped scope f × (type_of c ≡ 1) × (type_of t ≡ type_of f)

pub type_pos : (scope : ℕ → ℕ) (op : Op) → IsTyped scope op → 0 < type_of op
type_pos scope (constant_int w v) (h, lt) = h
type_pos scope (constant w n) (h, e) = h
type_pos scope (undef w) h = h
type_pos scope (binary o l r) (hl, hr, e) = type_pos scope l hl
type_pos scope (unary o w x) (h, hx, e) = h
type_pos scope (icmp c l r) h = omega arith
type_pos scope (select c t f) (hc, ht, hf, ec, et) = type_pos scope t ht

-- The number of nodes.
abbrev pub size : Op → ℕ
size (constant_int w v) = 1
size (constant w n) = 1
size (undef w) = 1
size (binary o l r) = suc (size l + size r)
size (unary o w x) = suc (size x)
size (icmp c l r) = suc (size l + size r)
size (select c t f) = suc (size c + size t + size f)
