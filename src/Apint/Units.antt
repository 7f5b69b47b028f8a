-- ===== src/Apint/Units.antt =====
-- The numbers 0 and 1 as operands, by the documentation of the number class.
use caffeine.Prelude.{
  if◌then◌else◌, Bool-cases, ℕ, zero, suc, ◌+◌, ◌-◌, ◌*◌, ◌/◌, ◌%◌, ◌^◌, ◌<◌, ◌≡◌, refl, ap, ◌∙◌,
  inl, inr, Bool, true, false, arith,
}
use caffeine.Prelude.Bits.{bit, bit_ext, bit-bit_xor, bit-zero, pow_pos}
use caffeine.Apint.{ApInt, ApIntLaws, is_negative, negate, magnitude}
use caffeine.Apint.Bounds.{pow_mono}
use native.Mathlib.Nat.{
  mod-eq_of_lt, div-one, zero-div, zero-mod, mod-one, add-mul-mod_self_left, mod_self, zero-mul,
}
use Prim.Native.Nat.{differ}

differ-zero : (b : ℕ) → differ b 0 ≡ b
differ-zero zero = refl
differ-zero (suc b) = refl

module _ (A : ApInt) (laws : ApIntLaws A) where
  pub zero-ap_add : (w y : ℕ) → y < 2 ^ w → A.ap_add w 0 y ≡ y
  zero-ap_add w y ly =
      laws.add_law w 0 y (pow_pos w) ly ∙ ap (λ k. k % 2 ^ w) (omega arith) ∙ mod-eq_of_lt ly

  pub ap_add-zero : (w x : ℕ) → x < 2 ^ w → A.ap_add w x 0 ≡ x
  ap_add-zero w x lx =
      laws.add_law w x 0 lx (pow_pos w) ∙ ap (λ k. k % 2 ^ w) (omega arith) ∙ mod-eq_of_lt lx

  wrap : (w x : ℕ) → x < 2 ^ w → (x + 2 ^ w) % 2 ^ w ≡ x
  wrap w x lx =
      let e : x + 2 ^ w ≡ x + 2 ^ w * 1 = omega arith in
      rw e (add-mul-mod_self_left x (2 ^ w) 1 ∙ mod-eq_of_lt lx)

  pub ap_sub-zero : (w x : ℕ) → x < 2 ^ w → A.ap_sub w x 0 ≡ x
  ap_sub-zero w x lx =
      laws.sub_law w x 0 lx (pow_pos w) ∙ ap (λ k. k % 2 ^ w) (omega arith) ∙ wrap w x lx

  pub ap_sub_self : (w x : ℕ) → x < 2 ^ w → A.ap_sub w x x ≡ 0
  ap_sub_self w x lx =
      laws.sub_law w x x lx lx ∙ ap (λ k. k % 2 ^ w) (omega arith) ∙ mod_self (2 ^ w)

  pub zero-ap_mul : (w y : ℕ) → y < 2 ^ w → A.ap_mul w 0 y ≡ 0
  zero-ap_mul w y ly =
      laws.mul_law w 0 y (pow_pos w) ly ∙ ap (λ k. k % 2 ^ w) (omega arith) ∙ zero-mod (2 ^ w)

  pub ap_mul-zero : (w x : ℕ) → x < 2 ^ w → A.ap_mul w x 0 ≡ 0
  ap_mul-zero w x lx =
      laws.mul_law w x 0 lx (pow_pos w) ∙ ap (λ k. k % 2 ^ w) (omega arith) ∙ zero-mod (2 ^ w)

  pub zero-ap_xor : (w y : ℕ) → y < 2 ^ w → A.ap_xor w 0 y ≡ y
  zero-ap_xor w y ly =
      laws.xor_law w 0 y (pow_pos w) ly ∙ bit_ext _ y λ i. bit-bit_xor 0 y i ∙ rw (bit-zero i) refl

  pub ap_xor-zero : (w x : ℕ) → x < 2 ^ w → A.ap_xor w x 0 ≡ x
  ap_xor-zero w x lx =
      laws.xor_law w x 0 lx (pow_pos w)
      ∙ bit_ext _ x λ i. bit-bit_xor x 0 i ∙ rw (bit-zero i) (differ-zero (bit x i))

  pub zero-ap_lshr : (w s : ℕ) → A.ap_lshr w 0 s ≡ 0
  zero-ap_lshr w s = laws.lshr_law w 0 s (pow_pos w) ∙ zero-div (2 ^ s)

  pub ap_lshr-zero : (w x : ℕ) → x < 2 ^ w → A.ap_lshr w x 0 ≡ x
  ap_lshr-zero w x lx = laws.lshr_law w x 0 lx ∙ div-one x

  -- 0 is not negative.
  zero_sign : (w : ℕ) → is_negative w 0 ≡ false
  zero_sign w = ground (arith, pow_pos (w - 1))

  pub zero-ap_ashr : (w s : ℕ) → A.ap_ashr w 0 s ≡ 0
  zero-ap_ashr w s = laws.ashr_law w 0 s (pow_pos w) ∙ rw (zero_sign w) (zero-div (2 ^ s))

  pub ap_ashr-zero : (w x : ℕ) → x < 2 ^ w → A.ap_ashr w x 0 ≡ x
  ap_ashr-zero w x lx = laws.ashr_law w x 0 lx ∙ branch (is_negative w x)
    where
      branch : (b : Bool) → (if b then 2 ^ w - 1 - (2 ^ w - 1 - x) / 2 ^ 0 else x / 2 ^ 0) ≡ x
      branch true = omega (arith, div-one (2 ^ w - 1 - x))
      branch false = div-one x

  pub zero-ap_shl : (w s : ℕ) → A.ap_shl w 0 s ≡ 0
  zero-ap_shl w s =
      laws.shl_law w 0 s (pow_pos w) ∙ ap (λ k. k % 2 ^ w) (zero-mul (2 ^ s)) ∙ zero-mod (2 ^ w)

  pub ap_shl-zero : (w x : ℕ) → x < 2 ^ w → A.ap_shl w x 0 ≡ x
  ap_shl-zero w x lx = laws.shl_law w x 0 lx ∙ ap (λ k. k % 2 ^ w) (omega arith) ∙ mod-eq_of_lt lx

  -- Nor is 1, in more than one bit.
  one_sign : (w : ℕ) → 1 < w → is_negative w 1 ≡ false
  one_sign w h = ground (arith, pow_mono 1 (w - 1) (omega arith))

  negate-zero : (w : ℕ) → negate w 0 ≡ 0
  negate-zero w = ap (λ k. k % 2 ^ w) (omega arith) ∙ mod_self (2 ^ w)

  pub zero-ap_sdiv : (w y : ℕ) → y < 2 ^ w → 0 < y → A.ap_sdiv w 0 y ≡ 0
  zero-ap_sdiv w y ly pos =
      laws.sdiv_law w 0 y (pow_pos w) ly pos ∙ rw (zero_sign w) (branch (is_negative w y))
    where
      branch : (b : Bool) → (if b then negate w (0 / magnitude w y) else 0 / magnitude w y) ≡ 0
      branch true = ap (negate w) (zero-div (magnitude w y)) ∙ negate-zero w
      branch false = zero-div (magnitude w y)

  -- A negative number is the opposite of its magnitude.
  negate-negate : (w x : ℕ) → x < 2 ^ w → 0 < x → negate w (negate w x) ≡ x
  negate-negate w x lx pos =
      let e : (2 ^ w - x) % 2 ^ w ≡ 2 ^ w - x = mod-eq_of_lt (omega arith) in
      ap (λ k. (2 ^ w - k) % 2 ^ w) e ∙ ap (λ k. k % 2 ^ w) (omega arith) ∙ mod-eq_of_lt lx

  pub ap_sdiv-one : (w x : ℕ) → 1 < w → x < 2 ^ w → A.ap_sdiv w x 1 ≡ x
  ap_sdiv-one w x h lx =
      laws.sdiv_law w x 1 lx (omega (arith, pow_mono 1 w (omega arith))) (omega arith)
      ∙ rw (one_sign w h) (elim (Bool-cases (is_negative w x)) [
        | inl p ↦ rw (p, div-one (negate w x)) (negate-negate w x lx (negative_pos p))
        | inr p ↦ rw p (div-one x)
      ])
    where
      negative_pos : is_negative w x ≡ true → 0 < x
      negative_pos p = ground (arith, p, pow_pos (w - 1))

  pub zero-ap_srem : (w y : ℕ) → y < 2 ^ w → 0 < y → A.ap_srem w 0 y ≡ 0
  zero-ap_srem w y ly pos =
      laws.srem_law w 0 y (pow_pos w) ly pos ∙ rw (zero_sign w) (zero-mod (magnitude w y))

  pub ap_srem-one : (w x : ℕ) → 1 < w → x < 2 ^ w → A.ap_srem w x 1 ≡ 0
  ap_srem-one w x h lx =
      laws.srem_law w x 1 lx (omega (arith, pow_mono 1 w (omega arith))) (omega arith)
      ∙ rw (one_sign w h) (branch (is_negative w x) (magnitude w x))
    where
      branch : (b : Bool) (m : ℕ) → (if b then negate w (m % 1) else m % 1) ≡ 0
      branch true m = ap (negate w) (mod-one m) ∙ negate-zero w
      branch false m = mod-one m
