-- ===== src/Apint/Bounds.antt =====
-- The results of the number class are numbers of the width, by its documentation.
use caffeine.Prelude.{
  if◌then◌else◌, ℕ, ◌+◌, ◌-◌, ◌/◌, ◌%◌, ◌^◌, ◌≤◌, ◌<◌, refl, ◌∙◌, Bool, true, false, arith,
}
use caffeine.Prelude.Bits.{bit_high, lt_of_bits, bit-bit_and, bit-bit_or, bit-bit_xor, pow_pos}
use caffeine.Apint.{
  ApInt, ApIntLaws, negate, magnitude, is_negative, signed_quotient, signed_remainder,
}
use native.Mathlib.Nat.{mod-lt, div-le_self, mod-le, pow-le-pow_right}
use Prim.Native.Nat.{bit_and, bit_or, bit_xor}

pub bit_and-lt : (w x y : ℕ) → x < 2 ^ w → bit_and x y < 2 ^ w
bit_and-lt w x y lt = lt_of_bits w _ λ i le. omega (arith, bit-bit_and x y i, bit_high w x i lt le)

pub bit_or-lt : (w x y : ℕ) → x < 2 ^ w → y < 2 ^ w → bit_or x y < 2 ^ w
bit_or-lt w x y lx ly =
    lt_of_bits w _
      λ i le. omega (arith, bit-bit_or x y i, bit_high w x i lx le, bit_high w y i ly le)

pub bit_xor-lt : (w x y : ℕ) → x < 2 ^ w → y < 2 ^ w → bit_xor x y < 2 ^ w
bit_xor-lt w x y lx ly =
    lt_of_bits w _ λ i le. bit-bit_xor x y i ∙ rw (bit_high w x i lx le, bit_high w y i ly le) refl

negate-lt : (w x : ℕ) → negate w x < 2 ^ w
negate-lt w x = mod-lt (2 ^ w - x) (pow_pos w)

magnitude-lt : (w x : ℕ) → x < 2 ^ w → magnitude w x < 2 ^ w
magnitude-lt w x lt = ground (arith, negate-lt w x)

pub signed_quotient-lt : (w x y : ℕ) → x < 2 ^ w → signed_quotient w x y < 2 ^ w
signed_quotient-lt w x y lt =
    let q = magnitude w x / magnitude w y in
    let small = div-le_self (magnitude w x) (magnitude w y) in
    let below : q < 2 ^ w = omega (arith, small, magnitude-lt w x lt) in
    branch (is_negative w x) (is_negative w y) q below
  where
    branch :
        (a b : Bool) (q : ℕ)
        → q < 2 ^ w
        → (if a then (if b then q else negate w q) else (if b then negate w q else q)) < 2 ^ w
    branch true true q h = h
    branch true false q h = negate-lt w q
    branch false true q h = negate-lt w q
    branch false false q h = h

pub signed_remainder-lt : (w x y : ℕ) → x < 2 ^ w → signed_remainder w x y < 2 ^ w
signed_remainder-lt w x y lt =
    let r = magnitude w x % magnitude w y in
    let small = mod-le (magnitude w x) (magnitude w y) in
    let below : r < 2 ^ w = omega (arith, small, magnitude-lt w x lt) in
    branch (is_negative w x) r below
  where
    branch : (a : Bool) (r : ℕ) → r < 2 ^ w → (if a then negate w r else r) < 2 ^ w
    branch true r h = negate-lt w r
    branch false r h = h

-- 2 to a larger power.
pub pow_mono : (a b : ℕ) → a ≤ b → 2 ^ a ≤ 2 ^ b
pow_mono a b le = pow-le-pow_right (omega arith) le

module _ (A : ApInt) (laws : ApIntLaws A) where
  pub ap_sdiv-lt : (w x y : ℕ) → x < 2 ^ w → y < 2 ^ w → 0 < y → A.ap_sdiv w x y < 2 ^ w
  ap_sdiv-lt w x y lx ly pos = rw (laws.sdiv_law w x y lx ly pos) (signed_quotient-lt w x y lx)

  pub ap_ashr-lt : (w x s : ℕ) → x < 2 ^ w → A.ap_ashr w x s < 2 ^ w
  ap_ashr-lt w x s lx = rw (laws.ashr_law w x s lx) (branch (is_negative w x))
    where
      branch : (b : Bool) → (if b then 2 ^ w - 1 - (2 ^ w - 1 - x) / 2 ^ s else x / 2 ^ s) < 2 ^ w
      branch true = omega (arith, pow_pos w)
      branch false = omega (arith, div-le_self x (2 ^ s))

  pub ap_sext-lt : (w t x : ℕ) → x < 2 ^ w → w < t → A.ap_sext w t x < 2 ^ t
  ap_sext-lt w t x lx le = rw (laws.sext_law w t x lx le) (branch (is_negative w x))
    where
      branch : (b : Bool) → (if b then x + 2 ^ t - 2 ^ w else x) < 2 ^ t
      branch true = omega (arith, pow_mono w t (omega arith))
      branch false = omega (arith, pow_mono w t (omega arith))
