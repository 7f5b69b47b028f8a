-- ===== src/Prelude/Bits.antt =====
-- The binary digits of a number, and numbers told apart by them.
use Prim.Native.Nat.{
  ℕ, zero, suc, ◌+◌, ◌-◌, ◌*◌, ◌/◌, ◌%◌, ◌^◌, ◌≤◌, ◌<◌, min, max, bit_and, bit_or, bit_xor, differ,
  bit_and-bitwise, bit_or-bitwise, bit_xor-bitwise, digits,
}
use mathlib.Core.Path.{◌≡◌, refl, sym, ◌∙◌, ap}
use native.Mathlib.Nat.{
  pow-suc, one-le-pow, div-one, div-div-eq-div-mul, mod-lt, div-add-mod, add-mul-mod_self_left,
  mod-eq_of_lt,
}
use native.Mathlib.Omega.{arith}
use caffeine.Prelude.Tests.{ltb, if◌then◌else◌}

-- Digit `i` of a number.
abbrev pub bit : ℕ → ℕ → ℕ
bit x zero = x % 2
bit x (suc i) = bit (x / 2) i

pub bit-lt : (x i : ℕ) → bit x i < 2
bit-lt x zero = omega arith
bit-lt x (suc i) = bit-lt (x / 2) i

pub bit-zero : (i : ℕ) → bit 0 i ≡ 0
bit-zero zero = refl
bit-zero (suc i) = bit-zero i

bit_ext_below : (n x y : ℕ) → x ≤ n → y ≤ n → ((i : ℕ) → bit x i ≡ bit y i) → x ≡ y
bit_ext_below zero x y hx hy h = omega arith
bit_ext_below (suc n) x y hx hy h =
    let rest = bit_ext_below n (x / 2) (y / 2) (omega arith) (omega arith) (λ i. h (suc i)) in
    omega (arith, rest, h 0)

-- Two numbers with the same digits are equal.
pub bit_ext : (x y : ℕ) → ((i : ℕ) → bit x i ≡ bit y i) → x ≡ y
bit_ext x y h = bit_ext_below (x + y) x y (omega arith) (omega arith) h

-- The digits from the width on are 0.
pub bit_high : (w x i : ℕ) → x < 2 ^ w → w ≤ i → bit x i ≡ 0
bit_high zero x i lt le = let e : x ≡ 0 = omega (arith, lt) in rw e (bit-zero i)
bit_high (suc w) x zero lt le = absurd (omega arith)
bit_high (suc w) x (suc i) lt le = bit_high w (x / 2) i (omega (arith, pow-suc 2 w)) (omega arith)

-- And a number whose digits from the width on are 0 is below the power.
pub lt_of_bits : (w x : ℕ) → ((i : ℕ) → w ≤ i → bit x i ≡ 0) → x < 2 ^ w
lt_of_bits zero x h =
    let e : x ≡ 0 = bit_ext x 0 (λ i. h i (omega arith) ∙ sym (bit-zero i)) in omega (arith, e)
lt_of_bits (suc w) x h =
    omega (arith, pow-suc 2 w, lt_of_bits w (x / 2) (λ i le. h (suc i) (omega arith)))

pub pow_pos : (w : ℕ) → 0 < 2 ^ w
pow_pos w = one-le-pow w 2 (omega arith)

-- A remainder by twice `k` keeps the lowest digit, and its other digits are a remainder by `k`.
mod_double : (x k : ℕ) → 0 < k → x % (k * 2) ≡ 2 * (x / 2 % k) + x % 2
mod_double x k h =
    let q = x / 2 / k in
    let t = x / 2 % k in
    let r = 2 * t + x % 2 in
    let below : t < k = mod-lt (x / 2) h in
    let whole : k * q + t ≡ x / 2 = div-add-mod (x / 2) k in
    let split : x ≡ r + k * 2 * q = omega (arith, whole) in
    let fits : r < k * 2 = omega arith in
    ap (λ y. y % (k * 2)) split ∙ add-mul-mod_self_left r (k * 2) q ∙ mod-eq_of_lt fits

pub bit-mod : (w x i : ℕ) → bit (x % 2 ^ w) i ≡ (if ltb i w then bit x i else 0)
bit-mod zero x i = let e : x % 2 ^ 0 ≡ 0 = omega arith in rw e (bit-zero i ∙ ground arith)
bit-mod (suc w) x zero =
    let whole : x % 2 ^ suc w ≡ 2 * (x / 2 % 2 ^ w) + x % 2 =
      ap (λ y. x % y) (pow-suc 2 w) ∙ mod_double x (2 ^ w) (pow_pos w) in
    ground (arith, whole)
bit-mod (suc w) x (suc i) =
    let whole : x % 2 ^ suc w ≡ 2 * (x / 2 % 2 ^ w) + x % 2 =
      ap (λ y. x % y) (pow-suc 2 w) ∙ mod_double x (2 ^ w) (pow_pos w) in
    let half : x % 2 ^ suc w / 2 ≡ x / 2 % 2 ^ w = omega (arith, whole) in
    rw half (bit-mod w (x / 2) i ∙ ground arith)

-- All digits below the width.
pub bit_ones : (w i : ℕ) → bit (2 ^ w - 1) i ≡ (if ltb i w then 1 else 0)
bit_ones zero i = bit-zero i ∙ ground arith
bit_ones (suc w) zero = ground (arith, pow-suc 2 w, pow_pos w)
bit_ones (suc w) (suc i) =
    let e : (2 ^ suc w - 1) / 2 ≡ 2 ^ w - 1 = omega (arith, pow-suc 2 w, pow_pos w) in
    rw e (bit_ones w i ∙ ground arith)

shl-suc : (x s : ℕ) → x * 2 ^ suc s ≡ 2 * (x * 2 ^ s)
shl-suc x s = ap (λ y. x * y) (pow-suc 2 s) ∙ grind arith

-- The digits of a number times a power of two are moved up.
pub bit-shl : (x s i : ℕ) → bit (x * 2 ^ s) i ≡ (if ltb i s then 0 else bit x (i - s))
bit-shl x zero i = let e : x * 2 ^ 0 ≡ x = omega arith in rw e (ground arith)
bit-shl x (suc s) zero =
    let even : x * 2 ^ suc s % 2 ≡ 0 = omega (arith, shl-suc x s) in rw even (ground arith)
bit-shl x (suc s) (suc i) =
    let half : x * 2 ^ suc s / 2 ≡ x * 2 ^ s = omega (arith, shl-suc x s) in
    rw half (bit-shl x s i ∙ ground arith)

-- And those of a quotient by one are moved down.
pub bit-shr : (x s i : ℕ) → bit (x / 2 ^ s) i ≡ bit x (i + s)
bit-shr x zero i = let e : i + 0 ≡ i = omega arith in rw (e, div-one x) refl
bit-shr x (suc s) i =
    let e : i + suc s ≡ suc (i + s) = omega arith in
    let moved : x / 2 ^ suc s ≡ x / 2 / 2 ^ s =
      ap (λ y. x / y) (omega (arith, pow-suc 2 s)) ∙ sym (div-div-eq-div-mul x 2 (2 ^ s)) in
    rw (e, moved) (bit-shr (x / 2) s i)

-- The native operations work digit by digit.

-- The native operations work digit by digit.
digits_fuel :
    (z : ℕ → ℕ) (f : ℕ → ℕ → ℕ) (n m a b : ℕ) → a ≤ n → a ≤ m → digits z f n a b ≡ digits z f m a b
digits_fuel z f zero zero a b p q = refl
digits_fuel z f zero (suc m) zero b p q = refl
digits_fuel z f zero (suc m) (suc a) b p q = absurd (omega arith)
digits_fuel z f (suc n) zero zero b p q = refl
digits_fuel z f (suc n) zero (suc a) b p q = absurd (omega arith)
digits_fuel z f (suc n) (suc m) zero b p q = refl
digits_fuel z f (suc n) (suc m) (suc a) b p q =
    ap (λ t. t * 2 + f (suc a % 2) (b % 2))
      (digits_fuel z f n m (suc a / 2) (b / 2) (omega arith) (omega arith))

bit_and_step : (a b : ℕ) → bit_and a b ≡ bit_and (a / 2) (b / 2) * 2 + min (a % 2) (b % 2)
bit_and_step zero b = omega (arith, bit_and-bitwise 0 b, bit_and-bitwise 0 (b / 2))
bit_and_step (suc a) b = omega (
  arith,
  bit_and-bitwise (suc a) b,
  bit_and-bitwise (suc a / 2) (b / 2),
  digits_fuel (λ b. zero) min a (suc a / 2) (suc a / 2) (b / 2) (omega arith) (omega arith),
)

bit_or_step : (a b : ℕ) → bit_or a b ≡ bit_or (a / 2) (b / 2) * 2 + max (a % 2) (b % 2)
bit_or_step zero b = omega (arith, bit_or-bitwise 0 b, bit_or-bitwise 0 (b / 2))
bit_or_step (suc a) b = omega (
  arith,
  bit_or-bitwise (suc a) b,
  bit_or-bitwise (suc a / 2) (b / 2),
  digits_fuel (λ b. b) max a (suc a / 2) (suc a / 2) (b / 2) (omega arith) (omega arith),
)

pub bit-bit_and : (a b i : ℕ) → bit (bit_and a b) i ≡ min (bit a i) (bit b i)
bit-bit_and a b zero = omega (arith, bit_and_step a b)
bit-bit_and a b (suc i) =
    let half : bit_and a b / 2 ≡ bit_and (a / 2) (b / 2) = omega (arith, bit_and_step a b) in
    rw half (bit-bit_and (a / 2) (b / 2) i)

pub bit-bit_or : (a b i : ℕ) → bit (bit_or a b) i ≡ max (bit a i) (bit b i)
bit-bit_or a b zero = omega (arith, bit_or_step a b)
bit-bit_or a b (suc i) =
    let half : bit_or a b / 2 ≡ bit_or (a / 2) (b / 2) = omega (arith, bit_or_step a b) in
    rw half (bit-bit_or (a / 2) (b / 2) i)

differ_digits : (a b : ℕ) → a < 2 → b < 2 → differ a b < 2
differ_digits zero b p q = q
differ_digits (suc a) zero p q = p
differ_digits (suc a) (suc b) p q = differ_digits a b (omega arith) (omega arith)

bit_xor_step : (a b : ℕ) → bit_xor a b ≡ bit_xor (a / 2) (b / 2) * 2 + differ (a % 2) (b % 2)
bit_xor_step zero b = omega (arith, bit_xor-bitwise 0 b, bit_xor-bitwise 0 (b / 2))
bit_xor_step (suc a) b = omega (
  arith,
  bit_xor-bitwise (suc a) b,
  bit_xor-bitwise (suc a / 2) (b / 2),
  digits_fuel (λ b. b) differ a (suc a / 2) (suc a / 2) (b / 2) (omega arith) (omega arith),
)

pub bit-bit_xor : (a b i : ℕ) → bit (bit_xor a b) i ≡ differ (bit a i) (bit b i)
bit-bit_xor a b zero =
    omega (arith, bit_xor_step a b, differ_digits (a % 2) (b % 2) (omega arith) (omega arith))
bit-bit_xor a b (suc i) =
    let below = differ_digits (a % 2) (b % 2) (omega arith) (omega arith) in
    let half : bit_xor a b / 2 ≡ bit_xor (a / 2) (b / 2) = omega (arith, bit_xor_step a b, below) in
    rw half (bit-bit_xor (a / 2) (b / 2) i)
