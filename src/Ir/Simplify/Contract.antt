-- ===== src/Ir/Simplify/Contract.antt =====
-- What a visit of the simplifier promises: an operation of the same type that, in every model
-- where the original has a value, has the same value. Here are also the values of typed operations.
use caffeine.Prelude.{
  ◌==◌, if◌then◌else◌, ==_iff, ==_refl, Outcome, done, done-injective, ℕ, zero, suc, ◌+◌, ◌-◌, ◌*◌,
  ◌^◌, ◌<◌, ◌≡◌, refl, sym, ap, ◌∙◌, subst, ◌⊎◌, inl, inr, Bool, true, false, ◌&&◌, Option, some,
  arith,
}
use caffeine.Apint.{ApInt, ApIntLaws}
use caffeine.Apint.Bounds.{
  bit_and-lt, bit_or-lt, bit_xor-lt, signed_remainder-lt, ap_sdiv-lt, ap_ashr-lt,
}
use caffeine.Prelude.Bits.{pow_pos}
use caffeine.Ir.Operation.{
  Binop, add_op, sub_op, mul_op, udiv_op, sdiv_op, urem_op, srem_op, and_op, or_op, xor_op, shl_op,
  lshr_op, ashr_op, Op, constant_int, constant, undef, binary, unary, icmp, select, type_of,
  IsTyped,
}
use caffeine.Ir.Simplify.{is_undef, is_constant_int, is_constant}
use caffeine.Ir.Value.{
  Value, int, binary_bits, bv_binary, udiv_bits, sdiv_bits, urem_bits, srem_bits,
}
use caffeine.Ir.Eval.{eval}
use native.Mathlib.Nat.{mod-lt, div-le_self, mod-le, pow-suc}

-- A value of a width.
abbrev pub Fits : ℕ → Value → Type 0
Fits w (int v x) = (v ≡ w) × (x < 2 ^ w)

-- A model that gives each symbol values of its width.
abbrev pub ModelFits : (ℕ → ℕ) → (ℕ → Option Value) → Type 0
ModelFits scope model = (n : ℕ) (v : Value) → model n ≡ some v → Fits (scope n) v

-- `op'` may stand for `op`.
abbrev pub Refines : ApInt → (ℕ → ℕ) → (ℕ → Option Value) → Op → Op → Type 0
Refines A scope model op op' =
    IsTyped scope op'
    × (type_of op' ≡ type_of op)
    × ((v : Value) → eval A model op ≡ done v → eval A model op' ≡ done v)

-- A visit ends without a failed assertion, in an operation that may stand for `op`.
abbrev pub Sound : ApInt → (ℕ → ℕ) → (ℕ → Option Value) → Op → Outcome Op → Type 0
Sound A scope model op result = (op' : Op) × (result ≡ done op') × Refines A scope model op op'

pub Op-cases : (op : Op) → ((w : ℕ) × (v : ℕ) × (op ≡ constant_int w v)) ⊎ (is_constant op ≡ false)
Op-cases (constant_int w v) = inl (w, v, refl)
Op-cases (constant w n) = inr refl
Op-cases (undef w) = inr refl
Op-cases (binary o l r) = inr refl
Op-cases (unary o w x) = inr refl
Op-cases (icmp c l r) = inr refl
Op-cases (select c t f) = inr refl

pub is_constant_int-eq :
    (op : Op) (n : ℕ) → is_constant_int op n ≡ true → (w : ℕ) × (op ≡ constant_int w n)
is_constant_int-eq (constant_int w v) n h = (w, ap (constant_int w) ((==_iff v n).0 h))
is_constant_int-eq (constant w v) n h = cc
is_constant_int-eq (undef w) n h = cc
is_constant_int-eq (binary o l r) n h = cc
is_constant_int-eq (unary o w x) n h = cc
is_constant_int-eq (icmp c l r) n h = cc
is_constant_int-eq (select c t f) n h = cc

pub is_undef-eq : (op : Op) → is_undef op ≡ true → (w : ℕ) × (op ≡ undef w)
is_undef-eq (constant_int w v) h = cc
is_undef-eq (constant w v) h = cc
is_undef-eq (undef w) h = (w, refl)
is_undef-eq (binary o l r) h = cc
is_undef-eq (unary o w x) h = cc
is_undef-eq (icmp c l r) h = cc
is_undef-eq (select c t f) h = cc

pub int-injective : {w x v y : ℕ} → int w x ≡ int v y → (w ≡ v) × (x ≡ y)
int-injective {w} {x} p = (ap width p, ap bits p)
  where
    width : Value → ℕ
    width (int v y) = v

    bits : Value → ℕ
    bits (int v y) = y

module _ (A : ApInt) (laws : ApIntLaws A) where
  pub udiv_bits-lt : (w x y : ℕ) → x < 2 ^ w → udiv_bits A w x y < 2 ^ w
  udiv_bits-lt w x zero lx = omega (arith, laws.max_law w, pow_pos w)
  udiv_bits-lt w x (suc y) lx =
      omega (arith, laws.udiv_law w x (suc y) lx (omega arith), div-le_self x (suc y))

  signed_max-lt : (w : ℕ) → 0 < w → A.signed_max_value w < 2 ^ w
  signed_max-lt zero h = absurd (omega arith)
  signed_max-lt (suc w) h =
      let half : 2 ^ (suc w - 1) ≡ 2 ^ w = ap (λ k. 2 ^ k) (omega arith) in
      omega (arith, laws.signed_max_law (suc w), pow_pos w, pow-suc 2 w, half)

  sdiv_bits-lt : (w x y : ℕ) → 0 < w → x < 2 ^ w → y < 2 ^ w → sdiv_bits A w x y < 2 ^ w
  sdiv_bits-lt w x zero pos lx ly = signed_max-lt w pos
  sdiv_bits-lt w x (suc y) pos lx ly = branch (x == A.signed_min_value w && suc y == A.max_value w)
    where
      branch : (b : Bool) → (if b then A.signed_max_value w else A.ap_sdiv w x (suc y)) < 2 ^ w
      branch true = signed_max-lt w pos
      branch false = ap_sdiv-lt A laws w x (suc y) lx ly (omega arith)

  urem_bits-lt : (w x y : ℕ) → x < 2 ^ w → urem_bits A w x y < 2 ^ w
  urem_bits-lt w x zero lx = lx
  urem_bits-lt w x (suc y) lx =
      omega (arith, laws.urem_law w x (suc y) lx (omega arith), mod-le x (suc y))

  srem_bits-lt : (w x y : ℕ) → x < 2 ^ w → y < 2 ^ w → srem_bits A w x y < 2 ^ w
  srem_bits-lt w x zero lx ly = lx
  srem_bits-lt w x (suc y) lx ly =
      rw (laws.srem_law w x (suc y) lx ly (omega arith)) (signed_remainder-lt w x (suc y) lx)

  pub binary_bits-lt :
      (o : Binop) (w x y : ℕ) → 0 < w → x < 2 ^ w → y < 2 ^ w → binary_bits A o w x y < 2 ^ w
  binary_bits-lt add_op w x y pos lx ly = rw (laws.add_law w x y lx ly) (mod-lt (x + y) (pow_pos w))
  binary_bits-lt sub_op w x y pos lx ly =
      rw (laws.sub_law w x y lx ly) (mod-lt (x + 2 ^ w - y) (pow_pos w))
  binary_bits-lt mul_op w x y pos lx ly = rw (laws.mul_law w x y lx ly) (mod-lt (x * y) (pow_pos w))
  binary_bits-lt udiv_op w x y pos lx ly = udiv_bits-lt w x y lx
  binary_bits-lt sdiv_op w x y pos lx ly = sdiv_bits-lt w x y pos lx ly
  binary_bits-lt urem_op w x y pos lx ly = urem_bits-lt w x y lx
  binary_bits-lt srem_op w x y pos lx ly = srem_bits-lt w x y lx ly
  binary_bits-lt and_op w x y pos lx ly = rw (laws.and_law w x y lx ly) (bit_and-lt w x y lx)
  binary_bits-lt or_op w x y pos lx ly = rw (laws.or_law w x y lx ly) (bit_or-lt w x y lx ly)
  binary_bits-lt xor_op w x y pos lx ly = rw (laws.xor_law w x y lx ly) (bit_xor-lt w x y lx ly)
  binary_bits-lt shl_op w x y pos lx ly =
      rw (laws.shl_law w x y lx) (mod-lt (x * 2 ^ y) (pow_pos w))
  binary_bits-lt lshr_op w x y pos lx ly =
      omega (arith, laws.lshr_law w x y lx, div-le_self x (2 ^ y))
  binary_bits-lt ashr_op w x y pos lx ly = ap_ashr-lt A laws w x y lx

  pub bv_binary-Fits :
      (o : Binop) (w : ℕ) (a b v : Value)
      → 0 < w
      → Fits w a
      → Fits w b
      → bv_binary A o a b ≡ done v
      → Fits w v
  bv_binary-Fits o w (int u x) (int t y) v pos (eu, lx) (et, ly) h =
      let step : bv_binary A o (int u x) (int t y) ≡ done (int w (binary_bits A o w x y)) =
        rw (eu, et, ==_refl w) refl in
      subst (Fits w) (done-injective (sym step ∙ h)) (refl, binary_bits-lt o w x y pos lx ly)
