-- ===== src/Apint/Rounding.antt =====
-- Rounding up to a power of 2, as an address is aligned, and differences that do not wrap.
use caffeine.Prelude.{ℕ, ◌+◌, ◌-◌, ◌*◌, ◌/◌, ◌%◌, ◌^◌, ◌≤◌, ◌<◌, ◌≡◌, ap, ◌∙◌, arith}
use caffeine.Apint.{ApInt, ApIntLaws}
use native.Mathlib.Nat.{
  mod-lt, mod-eq_of_lt, div-add-mod, div-lt_iff_lt-mul, mul-le-mul_right, lt_of_mul-lt-mul_right,
  add-mul-mod_self_left,
}

-- The multiple of `p` that `c` is rounded up to.
abbrev pub next_multiple : ℕ → ℕ → ℕ
next_multiple p c = (c + (p - 1)) / p * p

pub le-next_multiple : (p c : ℕ) → 0 < p → c ≤ next_multiple p c
le-next_multiple p c h =
    let y = c + (p - 1) in
    let whole : p * (y / p) + y % p ≡ y = div-add-mod y p in
    let below : y % p < p = mod-lt y h in
    let flip : y / p * p ≡ p * (y / p) = grind arith in omega (arith, whole, below, flip)

pub next_multiple-le : (p c q : ℕ) → 0 < p → c ≤ q * p → next_multiple p c ≤ q * p
next_multiple-le p c q h le =
    let y = c + (p - 1) in
    let far : y < (q + 1) * p = grind arith in
    let small : y / p < q + 1 = (div-lt_iff_lt-mul h).1 far in
    mul-le-mul_right p (omega (arith, small))

-- A multiple that is below another one is below it by the factor.
pub multiple_gap : (p m n : ℕ) → m * p < n * p → m * p + p ≤ n * p
multiple_gap p m n lt =
    let less : m < n = lt_of_mul-lt-mul_right p lt in
    let le : (m + 1) * p ≤ n * p = mul-le-mul_right p (omega (arith, less)) in grind (arith, le)

module _ (A : ApInt) (laws : ApIntLaws A) where
  -- A difference of ordered numbers does not wrap.
  pub ap_sub-le : (w x y : ℕ) → x < 2 ^ w → y ≤ x → A.ap_sub w x y ≡ x - y
  ap_sub-le w x y lx le =
      let e : x + 2 ^ w - y ≡ x - y + 2 ^ w * 1 = omega arith in
      laws.sub_law w x y lx (omega (arith, lx, le))
      ∙ ap (λ k. k % 2 ^ w) e
      ∙ add-mul-mod_self_left (x - y) (2 ^ w) 1
      ∙ mod-eq_of_lt (omega (arith, lx))

  pub ap_add-small : (w x y : ℕ) → x + y < 2 ^ w → A.ap_add w x y ≡ x + y
  ap_add-small w x y small = laws.add_law w x y (omega arith) (omega arith) ∙ mod-eq_of_lt small
