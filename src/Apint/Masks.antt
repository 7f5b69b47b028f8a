-- ===== src/Apint/Masks.antt =====
-- Masks and shifts as the rewrites of the simplifier combine them, by the digits.
use caffeine.Prelude.{
  ltb, if◌then◌else◌, Bool-cases, ℕ, zero, suc, ◌+◌, ◌-◌, ◌*◌, ◌/◌, ◌%◌, ◌^◌, ◌≤◌, ◌<◌, ◌≡◌, refl,
  sym, ap, ◌∙◌, inl, inr, true, arith,
}
use caffeine.Prelude.Bits.{
  bit, bit-lt, bit_ext, bit_high, bit_ones, bit-mod, bit-shl, bit-shr, bit-zero, pow_pos,
  bit-bit_and, bit-bit_or,
}
use caffeine.Apint.{ApInt, ApIntLaws}
use caffeine.Apint.Bounds.{bit_and-lt, bit_or-lt}
use native.Mathlib.Nat.{mod-lt, div-le_self, pow-suc}
use Prim.Native.Nat.{bit_and, bit_or}

pub bit_and_comm : (x y : ℕ) → bit_and x y ≡ bit_and y x
bit_and_comm x y = bit_ext _ _ λ i. omega (arith, bit-bit_and x y i, bit-bit_and y x i)

pub bit_and_assoc : (x m n : ℕ) → bit_and m (bit_and x n) ≡ bit_and x (bit_and m n)
bit_and_assoc x m n = bit_ext _ _ λ i. omega (
  arith,
  bit-bit_and m (bit_and x n) i,
  bit-bit_and x n i,
  bit-bit_and x (bit_and m n) i,
  bit-bit_and m n i,
)

pub bit_or_masks : (x m n : ℕ) → bit_or (bit_and x m) (bit_and x n) ≡ bit_and x (bit_or m n)
bit_or_masks x m n = bit_ext _ _ λ i. omega (
  arith,
  bit-bit_or (bit_and x m) (bit_and x n) i,
  bit-bit_and x m i,
  bit-bit_and x n i,
  bit-bit_and x (bit_or m n) i,
  bit-bit_or m n i,
)

zero-bit_and : (y : ℕ) → bit_and 0 y ≡ 0
zero-bit_and y = bit_ext _ _ λ i. omega (arith, bit-bit_and 0 y i, bit-zero i)

zero-bit_or : (y : ℕ) → bit_or 0 y ≡ y
zero-bit_or y = bit_ext _ _ λ i. omega (arith, bit-bit_or 0 y i, bit-zero i)

bit_or_comm : (x y : ℕ) → bit_or x y ≡ bit_or y x
bit_or_comm x y = bit_ext _ _ λ i. omega (arith, bit-bit_or x y i, bit-bit_or y x i)

ones-bit_and : (w y : ℕ) → y < 2 ^ w → bit_and (2 ^ w - 1) y ≡ y
ones-bit_and w y ly = bit_ext _ _ at
  where
    at : (i : ℕ) → bit (bit_and (2 ^ w - 1) y) i ≡ bit y i
    at i = elim (Bool-cases (ltb i w)) [
      | inl p ↦
          (let ones : bit (2 ^ w - 1) i ≡ 1 = bit_ones w i ∙ rw p refl in
            omega (arith, bit-bit_and (2 ^ w - 1) y i, ones, bit-lt y i))
      | inr p ↦
          (let above : w ≤ i = ground (arith, p) in
            omega (arith, bit-bit_and (2 ^ w - 1) y i, bit_high w y i ly above))
    ]

ones-bit_or : (w y : ℕ) → y < 2 ^ w → bit_or (2 ^ w - 1) y ≡ 2 ^ w - 1
ones-bit_or w y ly = bit_ext _ _ at
  where
    at : (i : ℕ) → bit (bit_or (2 ^ w - 1) y) i ≡ bit (2 ^ w - 1) i
    at i = elim (Bool-cases (ltb i w)) [
      | inl p ↦
          (let ones : bit (2 ^ w - 1) i ≡ 1 = bit_ones w i ∙ rw p refl in
            omega (arith, bit-bit_or (2 ^ w - 1) y i, ones, bit-lt y i))
      | inr p ↦
          (let above : w ≤ i = ground (arith, p) in
            omega (arith, bit-bit_or (2 ^ w - 1) y i, bit_high w y i ly above))
    ]

-- A mask over a number that was shifted to the right, shifted to the left before it.
pub mask_of_shift :
    (w x m s : ℕ) → x < 2 ^ w → bit_and m (x / 2 ^ s) ≡ bit_and x (m * 2 ^ s % 2 ^ w) / 2 ^ s
mask_of_shift w x m s lx = bit_ext _ _ at
  where
    at : (i : ℕ) → bit (bit_and m (x / 2 ^ s)) i ≡ bit (bit_and x (m * 2 ^ s % 2 ^ w) / 2 ^ s) i
    at i =
        let left = bit-bit_and m (x / 2 ^ s) i in
        let shifted = bit-shr x s i in
        let right = bit-shr (bit_and x (m * 2 ^ s % 2 ^ w)) s i in
        let both = bit-bit_and x (m * 2 ^ s % 2 ^ w) (i + s) in
        let kept = bit-mod w (m * 2 ^ s) (i + s) in
        elim (Bool-cases (ltb (i + s) w)) [
          | inl p ↦
              (let inside : bit (m * 2 ^ s % 2 ^ w) (i + s) ≡ bit m i =
                  kept ∙ rw p (bit-shl m s (i + s) ∙ back i) in
                omega (arith, left, shifted, right, both, inside))
          | inr p ↦
              (let above : w ≤ i + s = ground (arith, p) in
                omega (arith, left, shifted, right, both, bit_high w x (i + s) lx above))
        ]
      where
        back : (i : ℕ) → (if ltb (i + s) s then 0 else bit m (i + s - s)) ≡ bit m i
        back i = let e : i + s - s ≡ i = omega arith in rw e (ground arith)

pub pow_add : (a b : ℕ) → 2 ^ (a + b) ≡ 2 ^ a * 2 ^ b
pow_add a zero = let e : a + 0 ≡ a = omega arith in rw e (omega arith)
pow_add a (suc b) =
    let e : a + suc b ≡ suc (a + b) = omega arith in
    rw e (grind (arith, pow-suc 2 (a + b), pow-suc 2 b, pow_add a b))

less_one : (k p : ℕ) → k * p - p ≡ (k - 1) * p
less_one zero p = omega arith
less_one (suc k) p = grind arith

-- Shifting to the right and back clears the digits below the shift.
pub shift_back :
    (w x s : ℕ) → x < 2 ^ w → s < w → x / 2 ^ s * 2 ^ s % 2 ^ w ≡ bit_and x (2 ^ w - 2 ^ s)
shift_back w x s lx ls = bit_ext _ _ at
  where
    split : 2 ^ w - 2 ^ s ≡ (2 ^ (w - s) - 1) * 2 ^ s
    split =
        let e : w ≡ (w - s) + s = omega arith in
        ap (λ k. 2 ^ k - 2 ^ s) e
        ∙ ap (λ k. k - 2 ^ s) (pow_add (w - s) s)
        ∙ less_one (2 ^ (w - s)) (2 ^ s)

    mask : (i : ℕ) → bit (2 ^ w - 2 ^ s) i ≡ (if ltb i s then 0 else bit (2 ^ (w - s) - 1) (i - s))
    mask i = rw split (bit-shl (2 ^ (w - s) - 1) s i)

    at : (i : ℕ) → bit (x / 2 ^ s * 2 ^ s % 2 ^ w) i ≡ bit (bit_and x (2 ^ w - 2 ^ s)) i
    at i = elim (Bool-cases (ltb i w)) [
      | inl p ↦ elim (Bool-cases (ltb i s)) [
        | inl q ↦
            (let low : bit (x / 2 ^ s * 2 ^ s % 2 ^ w) i ≡ 0 =
                bit-mod w (x / 2 ^ s * 2 ^ s) i ∙ rw p (bit-shl (x / 2 ^ s) s i ∙ rw q refl) in
              let none_of : bit (2 ^ w - 2 ^ s) i ≡ 0 = mask i ∙ rw q refl in
              omega (arith, low, none_of, bit-bit_and x (2 ^ w - 2 ^ s) i))
        | inr q ↦
            (let e : i - s + s ≡ i = ground (arith, q) in
              let high : bit (x / 2 ^ s * 2 ^ s % 2 ^ w) i ≡ bit x i =
                bit-mod w (x / 2 ^ s * 2 ^ s) i
                ∙ rw p (bit-shl (x / 2 ^ s) s i ∙ rw q (bit-shr x s (i - s) ∙ ap (bit x) e)) in
              let inside : ltb (i - s) (w - s) ≡ true = ground (arith, p, q) in
              let one_of : bit (2 ^ w - 2 ^ s) i ≡ 1 =
                mask i ∙ rw q (bit_ones (w - s) (i - s) ∙ rw inside refl) in
              omega (arith, high, one_of, bit-lt x i, bit-bit_and x (2 ^ w - 2 ^ s) i))
      ]
      | inr p ↦
          (let above : w ≤ i = ground (arith, p) in
            let cut : bit (x / 2 ^ s * 2 ^ s % 2 ^ w) i ≡ 0 =
              bit-mod w (x / 2 ^ s * 2 ^ s) i ∙ rw p refl in
            omega (arith, cut, bit_high w x i lx above, bit-bit_and x (2 ^ w - 2 ^ s) i))
    ]

module _ (A : ApInt) (laws : ApIntLaws A) where
  pub ap_and_comm : (w x y : ℕ) → x < 2 ^ w → y < 2 ^ w → A.ap_and w x y ≡ A.ap_and w y x
  ap_and_comm w x y lx ly =
      laws.and_law w x y lx ly ∙ bit_and_comm x y ∙ sym (laws.and_law w y x ly lx)

  pub zero-ap_and : (w y : ℕ) → y < 2 ^ w → A.ap_and w 0 y ≡ 0
  zero-ap_and w y ly = laws.and_law w 0 y (pow_pos w) ly ∙ zero-bit_and y

  pub ones-ap_and : (w y : ℕ) → y < 2 ^ w → A.ap_and w (A.max_value w) y ≡ y
  ones-ap_and w y ly =
      rw (laws.max_law w)
        (laws.and_law w (2 ^ w - 1) y (omega (arith, pow_pos w)) ly ∙ ones-bit_and w y ly)

  pub ap_or_comm : (w x y : ℕ) → x < 2 ^ w → y < 2 ^ w → A.ap_or w x y ≡ A.ap_or w y x
  ap_or_comm w x y lx ly = laws.or_law w x y lx ly ∙ bit_or_comm x y ∙ sym (laws.or_law w y x ly lx)

  pub zero-ap_or : (w y : ℕ) → y < 2 ^ w → A.ap_or w 0 y ≡ y
  zero-ap_or w y ly = laws.or_law w 0 y (pow_pos w) ly ∙ zero-bit_or y

  pub ones-ap_or : (w y : ℕ) → y < 2 ^ w → A.ap_or w (A.max_value w) y ≡ A.max_value w
  ones-ap_or w y ly =
      rw (laws.max_law w)
        (laws.or_law w (2 ^ w - 1) y (omega (arith, pow_pos w)) ly ∙ ones-bit_or w y ly)

  pub ap_and_assoc :
      (w x m n : ℕ)
      → x < 2 ^ w
      → m < 2 ^ w
      → n < 2 ^ w
      → A.ap_and w m (A.ap_and w x n) ≡ A.ap_and w x (A.ap_and w m n)
  ap_and_assoc w x m n lx lm ln =
      ap (A.ap_and w m) (laws.and_law w x n lx ln)
      ∙ laws.and_law w m (bit_and x n) lm (bit_and-lt w x n lx)
      ∙ bit_and_assoc x m n
      ∙ sym (laws.and_law w x (bit_and m n) lx (bit_and-lt w m n lm))
      ∙ ap (A.ap_and w x) (sym (laws.and_law w m n lm ln))

  pub ap_or_masks :
      (w x m n : ℕ)
      → x < 2 ^ w
      → m < 2 ^ w
      → n < 2 ^ w
      → A.ap_or w (A.ap_and w x m) (A.ap_and w x n) ≡ A.ap_and w x (A.ap_or w m n)
  ap_or_masks w x m n lx lm ln =
      ap (λ k. A.ap_or w k (A.ap_and w x n)) (laws.and_law w x m lx lm)
      ∙ ap (A.ap_or w (bit_and x m)) (laws.and_law w x n lx ln)
      ∙ laws.or_law w (bit_and x m) (bit_and x n) (bit_and-lt w x m lx) (bit_and-lt w x n lx)
      ∙ bit_or_masks x m n
      ∙ sym (laws.and_law w x (bit_or m n) lx (bit_or-lt w m n lm ln))
      ∙ ap (A.ap_and w x) (sym (laws.or_law w m n lm ln))

  pub ap_mask_of_shift :
      (w x m s : ℕ)
      → x < 2 ^ w
      → m < 2 ^ w
      → A.ap_and w m (A.ap_lshr w x s) ≡ A.ap_lshr w (A.ap_and w x (A.ap_shl w m s)) s
  ap_mask_of_shift w x m s lx lm =
      let moved = m * 2 ^ s % 2 ^ w in
      let fits : moved < 2 ^ w = mod-lt (m * 2 ^ s) (pow_pos w) in
      ap (A.ap_and w m) (laws.lshr_law w x s lx)
      ∙ laws.and_law w m (x / 2 ^ s) lm (omega (arith, div-le_self x (2 ^ s)))
      ∙ mask_of_shift w x m s lx
      ∙ sym (laws.lshr_law w (bit_and x moved) s (bit_and-lt w x moved lx))
      ∙ ap (λ k. A.ap_lshr w k s) (sym (laws.and_law w x moved lx fits))
      ∙ ap (λ k. A.ap_lshr w (A.ap_and w x k) s) (sym (laws.shl_law w m s lm))

  pub bits_set_from-lt : (w s : ℕ) → s ≤ w → A.bits_set_from w s < 2 ^ w
  bits_set_from-lt w s le = omega (arith, laws.bits_from_law w s le, pow_pos s, pow_pos w)

  pub ap_shift_back :
      (w x s : ℕ)
      → x < 2 ^ w
      → s < w
      → A.ap_shl w (A.ap_lshr w x s) s ≡ A.ap_and w x (A.bits_set_from w s)
  ap_shift_back w x s lx ls =
      let le : s ≤ w = omega arith in
      ap (λ k. A.ap_shl w k s) (laws.lshr_law w x s lx)
      ∙ laws.shl_law w (x / 2 ^ s) s (omega (arith, div-le_self x (2 ^ s)))
      ∙ shift_back w x s lx ls
      ∙ ap (bit_and x) (sym (laws.bits_from_law w s le))
      ∙ sym (laws.and_law w x (A.bits_set_from w s) lx (bits_set_from-lt w s le))
