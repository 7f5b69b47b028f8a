-- ===== src/Apint.antt =====
-- The operations of `llvm::APInt` that the IR calls, on the bits of a number of width `w`. That
-- class is not part of this repository: its operations are a record, and what its documentation
-- says of them is a second one, that the lemmas take as a hypothesis.
pub mod Concrete
pub mod Bounds
pub mod Units
pub mod Masks
pub mod Rounding
use caffeine.Prelude.{
  ltb, leb, if◌then◌else◌, ℕ, ◌+◌, ◌-◌, ◌*◌, ◌/◌, ◌%◌, ◌^◌, ◌≤◌, ◌<◌, ◌≡◌, Bool, true,
}
use Prim.Native.Nat.{bit_and, bit_or, bit_xor}

-- Two's complement: the sign, the opposite and the order.
abbrev pub is_negative : ℕ → ℕ → Bool
is_negative w x = leb (2 ^ (w - 1)) x

abbrev pub negate : ℕ → ℕ → ℕ
negate w x = (2 ^ w - x) % 2 ^ w

abbrev pub magnitude : ℕ → ℕ → ℕ
magnitude w x = if is_negative w x then negate w x else x

-- A division that rounds towards 0.
abbrev pub signed_quotient : ℕ → ℕ → ℕ → ℕ
signed_quotient w x y =
    let q = magnitude w x / magnitude w y in
    if is_negative w x
    then (if is_negative w y then q else negate w q)
    else (if is_negative w y then negate w q else q)

-- Its remainder has the sign of the dividend.
abbrev pub signed_remainder : ℕ → ℕ → ℕ → ℕ
signed_remainder w x y =
    let r = magnitude w x % magnitude w y in if is_negative w x then negate w r else r

abbrev pub offset : ℕ → ℕ → ℕ
offset w x = (x + 2 ^ (w - 1)) % 2 ^ w

pub record ApInt : Type 0 where
  pub ap_add : ℕ → ℕ → ℕ → ℕ
  pub ap_sub : ℕ → ℕ → ℕ → ℕ
  pub ap_mul : ℕ → ℕ → ℕ → ℕ
  pub ap_udiv : ℕ → ℕ → ℕ → ℕ
  pub ap_sdiv : ℕ → ℕ → ℕ → ℕ
  pub ap_urem : ℕ → ℕ → ℕ → ℕ
  pub ap_srem : ℕ → ℕ → ℕ → ℕ
  pub ap_and : ℕ → ℕ → ℕ → ℕ
  pub ap_or : ℕ → ℕ → ℕ → ℕ
  pub ap_xor : ℕ → ℕ → ℕ → ℕ
  pub ap_shl : ℕ → ℕ → ℕ → ℕ
  pub ap_lshr : ℕ → ℕ → ℕ → ℕ
  pub ap_ashr : ℕ → ℕ → ℕ → ℕ
  pub ap_not : ℕ → ℕ → ℕ
  -- `trunc`, `zext` and `sext`, from one width to another; they assert that the first is the larger
  -- one, and the smaller one, in that order
  pub ap_trunc : ℕ → ℕ → ℕ → ℕ
  pub ap_zext : ℕ → ℕ → ℕ → ℕ
  pub ap_sext : ℕ → ℕ → ℕ → ℕ
  pub ap_ult : ℕ → ℕ → ℕ → Bool
  pub ap_ule : ℕ → ℕ → ℕ → Bool
  pub ap_ugt : ℕ → ℕ → ℕ → Bool
  pub ap_uge : ℕ → ℕ → ℕ → Bool
  pub ap_slt : ℕ → ℕ → ℕ → Bool
  pub ap_sle : ℕ → ℕ → ℕ → Bool
  pub ap_sgt : ℕ → ℕ → ℕ → Bool
  pub ap_sge : ℕ → ℕ → ℕ → Bool
  pub max_value : ℕ → ℕ
  pub signed_max_value : ℕ → ℕ
  pub signed_min_value : ℕ → ℕ
  -- `getLowBitsSet` and `getBitsSetFrom`
  pub low_bits_set : ℕ → ℕ → ℕ
  pub bits_set_from : ℕ → ℕ → ℕ
  -- `isPowerOf2`
  pub ap_is_power : ℕ → ℕ → Bool

-- What the documentation of the class promises, for numbers below `2 ^ w`.
pub record ApIntLaws (A : ApInt) : Type 0 where
  pub add_law : (w x y : ℕ) → x < 2 ^ w → y < 2 ^ w → A.ap_add w x y ≡ (x + y) % 2 ^ w
  pub sub_law : (w x y : ℕ) → x < 2 ^ w → y < 2 ^ w → A.ap_sub w x y ≡ (x + 2 ^ w - y) % 2 ^ w
  pub mul_law : (w x y : ℕ) → x < 2 ^ w → y < 2 ^ w → A.ap_mul w x y ≡ x * y % 2 ^ w
  pub udiv_law : (w x y : ℕ) → x < 2 ^ w → 0 < y → A.ap_udiv w x y ≡ x / y
  pub urem_law : (w x y : ℕ) → x < 2 ^ w → 0 < y → A.ap_urem w x y ≡ x % y
  pub sdiv_law :
      (w x y : ℕ) → x < 2 ^ w → y < 2 ^ w → 0 < y → A.ap_sdiv w x y ≡ signed_quotient w x y
  pub srem_law :
      (w x y : ℕ) → x < 2 ^ w → y < 2 ^ w → 0 < y → A.ap_srem w x y ≡ signed_remainder w x y
  pub and_law : (w x y : ℕ) → x < 2 ^ w → y < 2 ^ w → A.ap_and w x y ≡ bit_and x y
  pub or_law : (w x y : ℕ) → x < 2 ^ w → y < 2 ^ w → A.ap_or w x y ≡ bit_or x y
  pub xor_law : (w x y : ℕ) → x < 2 ^ w → y < 2 ^ w → A.ap_xor w x y ≡ bit_xor x y
  pub shl_law : (w x s : ℕ) → x < 2 ^ w → A.ap_shl w x s ≡ x * 2 ^ s % 2 ^ w
  pub lshr_law : (w x s : ℕ) → x < 2 ^ w → A.ap_lshr w x s ≡ x / 2 ^ s
  pub ashr_law :
      (w x s : ℕ)
      → x < 2 ^ w
      → A.ap_ashr w x s
        ≡ (if is_negative w x then 2 ^ w - 1 - (2 ^ w - 1 - x) / 2 ^ s else x / 2 ^ s)
  pub not_law : (w x : ℕ) → x < 2 ^ w → A.ap_not w x ≡ 2 ^ w - 1 - x
  pub trunc_law : (w t x : ℕ) → x < 2 ^ w → t < w → A.ap_trunc w t x ≡ x % 2 ^ t
  pub zext_law : (w t x : ℕ) → x < 2 ^ w → w < t → A.ap_zext w t x ≡ x
  pub sext_law :
      (w t x : ℕ)
      → x < 2 ^ w
      → w < t
      → A.ap_sext w t x ≡ (if is_negative w x then x + 2 ^ t - 2 ^ w else x)
  pub ult_law : (w x y : ℕ) → A.ap_ult w x y ≡ ltb x y
  pub ule_law : (w x y : ℕ) → A.ap_ule w x y ≡ leb x y
  pub ugt_law : (w x y : ℕ) → A.ap_ugt w x y ≡ ltb y x
  pub uge_law : (w x y : ℕ) → A.ap_uge w x y ≡ leb y x
  pub slt_law : (w x y : ℕ) → A.ap_slt w x y ≡ ltb (offset w x) (offset w y)
  pub sle_law : (w x y : ℕ) → A.ap_sle w x y ≡ leb (offset w x) (offset w y)
  pub sgt_law : (w x y : ℕ) → A.ap_sgt w x y ≡ ltb (offset w y) (offset w x)
  pub sge_law : (w x y : ℕ) → A.ap_sge w x y ≡ leb (offset w y) (offset w x)
  pub max_law : (w : ℕ) → A.max_value w ≡ 2 ^ w - 1
  pub signed_max_law : (w : ℕ) → A.signed_max_value w ≡ 2 ^ (w - 1) - 1
  pub signed_min_law : (w : ℕ) → A.signed_min_value w ≡ 2 ^ (w - 1)
  pub low_bits_law : (w n : ℕ) → n ≤ w → A.low_bits_set w n ≡ 2 ^ n - 1
  pub bits_from_law : (w n : ℕ) → n ≤ w → A.bits_set_from w n ≡ 2 ^ w - 2 ^ n
  pub power_law : (w x : ℕ) → A.ap_is_power w x ≡ true → (k : ℕ) × (x ≡ 2 ^ k)
