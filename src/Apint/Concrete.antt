-- ===== src/Apint/Concrete.antt =====
-- A number class that keeps what is documented, for the instances that the lemmas are applied to.
use caffeine.Prelude.{
  ltb, leb, ◌==◌, if◌then◌else◌, ==_iff, Bool-cases, ℕ, zero, suc, ◌+◌, ◌-◌, ◌*◌, ◌/◌, ◌%◌, ◌^◌,
  ◌≡◌, refl, sym, ◌∙◌, inl, inr, Bool, true,
}
use caffeine.Apint.{ApInt, ApIntLaws, is_negative, signed_quotient, signed_remainder, offset}
use Prim.Native.Nat.{bit_and, bit_or, bit_xor}

-- Whether one of the first powers of 2 is the number.
abbrev find_power : ℕ → ℕ → Bool
find_power zero x = x == 1
find_power (suc k) x = if x == 2 ^ suc k then true else find_power k x

find_power-eq : (n x : ℕ) → find_power n x ≡ true → (k : ℕ) × (x ≡ 2 ^ k)
find_power-eq zero x h = (0, (==_iff x 1).0 h)
find_power-eq (suc n) x h = elim (Bool-cases (x == 2 ^ suc n)) [
  | inl p ↦ (suc n, (==_iff x (2 ^ suc n)).0 p)
  | inr p ↦ (let rest : find_power n x ≡ true = sym (rw p refl) ∙ h in find_power-eq n x rest)
]

abbrev pub concrete : ApInt
concrete = record {
  ap_add = λ w x y. (x + y) % 2 ^ w;
  ap_sub = λ w x y. (x + 2 ^ w - y) % 2 ^ w;
  ap_mul = λ w x y. x * y % 2 ^ w;
  ap_udiv = λ w x y. x / y;
  ap_urem = λ w x y. x % y;
  ap_sdiv = signed_quotient;
  ap_srem = signed_remainder;
  ap_and = λ w x y. bit_and x y;
  ap_or = λ w x y. bit_or x y;
  ap_xor = λ w x y. bit_xor x y;
  ap_shl = λ w x s. x * 2 ^ s % 2 ^ w;
  ap_lshr = λ w x s. x / 2 ^ s;
  ap_ashr = λ w x s. if is_negative w x then 2 ^ w - 1 - (2 ^ w - 1 - x) / 2 ^ s else x / 2 ^ s;
  ap_not = λ w x. 2 ^ w - 1 - x;
  ap_trunc = λ w t x. x % 2 ^ t;
  ap_zext = λ w t x. x;
  ap_sext = λ w t x. if is_negative w x then x + 2 ^ t - 2 ^ w else x;
  ap_ult = λ w x y. ltb x y;
  ap_ule = λ w x y. leb x y;
  ap_ugt = λ w x y. ltb y x;
  ap_uge = λ w x y. leb y x;
  ap_slt = λ w x y. ltb (offset w x) (offset w y);
  ap_sle = λ w x y. leb (offset w x) (offset w y);
  ap_sgt = λ w x y. ltb (offset w y) (offset w x);
  ap_sge = λ w x y. leb (offset w y) (offset w x);
  max_value = λ w. 2 ^ w - 1;
  signed_max_value = λ w. 2 ^ (w - 1) - 1;
  signed_min_value = λ w. 2 ^ (w - 1);
  low_bits_set = λ w n. 2 ^ n - 1;
  bits_set_from = λ w n. 2 ^ w - 2 ^ n;
  ap_is_power = λ w x. find_power x x;
}

pub concrete-ApIntLaws : ApIntLaws concrete
concrete-ApIntLaws = record {
  add_law = λ w x y h0 h1. refl;
  sub_law = λ w x y h0 h1. refl;
  mul_law = λ w x y h0 h1. refl;
  udiv_law = λ w x y h0 h1. refl;
  urem_law = λ w x y h0 h1. refl;
  sdiv_law = λ w x y h0 h1 h2. refl;
  srem_law = λ w x y h0 h1 h2. refl;
  and_law = λ w x y h0 h1. refl;
  or_law = λ w x y h0 h1. refl;
  xor_law = λ w x y h0 h1. refl;
  shl_law = λ w x s h0. refl;
  lshr_law = λ w x s h0. refl;
  ashr_law = λ w x s h0. refl;
  not_law = λ w x h0. refl;
  trunc_law = λ w t x h0 h1. refl;
  zext_law = λ w t x h0 h1. refl;
  sext_law = λ w t x h0 h1. refl;
  ult_law = λ w x y. refl;
  ule_law = λ w x y. refl;
  ugt_law = λ w x y. refl;
  uge_law = λ w x y. refl;
  slt_law = λ w x y. refl;
  sle_law = λ w x y. refl;
  sgt_law = λ w x y. refl;
  sge_law = λ w x y. refl;
  max_law = λ w. refl;
  signed_max_law = λ w. refl;
  signed_min_law = λ w. refl;
  low_bits_law = λ w n h0. refl;
  bits_from_law = λ w n h0. refl;
  power_law = λ w x h. find_power-eq x x h;
}
