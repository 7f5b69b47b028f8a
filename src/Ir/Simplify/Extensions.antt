-- ===== src/Ir/Simplify/Extensions.antt =====
-- visitZExt keeps the value.
use caffeine.Prelude.{
  ltb→lt, fault, ◌⊎◌, ltb, ◌==◌, if◌then◌else◌, Bool-cases, Outcome, done, >>=-eq-done, ℕ, ◌+◌, ◌-◌,
  ◌%◌, ◌^◌, ◌<◌, ◌≡◌, refl, sym, ap, ◌∙◌, subst, inl, inr, Bool, true, false, Option, some, arith,
}
use caffeine.Prelude.Bits.{bit, bit_ext, bit_ones, bit-mod, pow_pos, bit-bit_and, bit-lt}
use caffeine.Apint.{ApInt, ApIntLaws}
use caffeine.Apint.Bounds.{pow_mono}
use caffeine.Ir.Operation.{
  and_op, not_op, trunc_op, zext_op, sext_op, Op, constant_int, constant, undef, binary, unary,
  icmp, select, type_of, size, IsTyped,
}
use caffeine.Ir.Value.{Value, int, bv_trunc, bv_zext}
use caffeine.Ir.Eval.{eval}
use caffeine.Ir.Simplify.{create, visit_and}
use caffeine.Ir.Simplify.Contract.{Fits, ModelFits, Sound, int-injective}
use caffeine.Ir.Simplify.Values.{eval-Fits}
use caffeine.Ir.Simplify.Bitwise.{binary-value}
use caffeine.Ir.Simplify.Masks.{create-eq}
use caffeine.Ir.Simplify.Rewrites.{visit_and-Sound}
use native.Mathlib.Nat.{mod-lt}
use caffeine.Ir.Simplify.Visits.{zext_of_trunc, visit_zext}
use Prim.Native.Nat.{bit_and}
use caffeine.Ir.Simplify.Widths.{unary-Refines, strict_value, guarded, guard_holds, same_width}

mod_mask : (x t : ℕ) → x % 2 ^ t ≡ bit_and x (2 ^ t - 1)
mod_mask x t = bit_ext _ _ at
  where
    at : (i : ℕ) → bit (x % 2 ^ t) i ≡ bit (bit_and x (2 ^ t - 1)) i
    at i = elim (Bool-cases (ltb i t)) [
      | inl p ↦
          (let left : bit (x % 2 ^ t) i ≡ bit x i = bit-mod t x i ∙ rw p refl in
            let right : bit (2 ^ t - 1) i ≡ 1 = bit_ones t i ∙ rw p refl in
            omega (arith, left, right, bit-bit_and x (2 ^ t - 1) i, bit-lt x i))
      | inr p ↦
          (let left : bit (x % 2 ^ t) i ≡ 0 = bit-mod t x i ∙ rw p refl in
            let right : bit (2 ^ t - 1) i ≡ 0 = bit_ones t i ∙ rw p refl in
            omega (arith, left, right, bit-bit_and x (2 ^ t - 1) i))
    ]

module _ (A : ApInt) (laws : ApIntLaws A) (same : Op → Op → Bool)
    (same-eq : (a b : Op) → same a b ≡ true → a ≡ b) (scope : ℕ → ℕ) (model : ℕ → Option Value)
    (fits : ModelFits scope model) where
  zext_kept-Sound :
      (w : ℕ) (x : Op)
      → IsTyped scope (unary zext_op w x)
      → (rest : Outcome Op) → Sound A scope model (unary zext_op w x) rest
      → Sound A scope model (unary zext_op w x) (if w == type_of x then done x else rest)
  zext_kept-Sound w x (pos, ux, le) rest sound = elim (Bool-cases (w == type_of x)) [
    | inl p ↦ rw p (
      x,
      refl,
      unary-Refines A laws same same-eq scope model fits zext_op w x x (pos, ux, le) ux
          (sym (same_width A laws same same-eq scope model fits w x p))
          λ k v lk hx last.
            let e = same_width A laws same same-eq scope model fits w x p in
            let no : ltb (type_of x) w ≡ false = ground arith in
            absurd
              (strict_value A laws same same-eq scope model fits (ltb (type_of x) w) _ v no last),
    )
    | inr p ↦ rw p sound
  ]

  unchanged-Sound :
      (w : ℕ) (x : Op)
      → IsTyped scope (unary zext_op w x)
      → Sound A scope model (unary zext_op w x) (done (unary zext_op w x))
  unchanged-Sound w x t = (unary zext_op w x, refl, (t, refl, λ v h. h))

  -- The low bits of a number, by a mask.
  low_bits-value :
      (w t k : ℕ)
      → k < 2 ^ w
      → t < w
      → A.ap_and w k (A.low_bits_set w t) ≡ A.ap_zext t w (A.ap_trunc w t k)
  low_bits-value w t k lk lt =
      let mask = laws.low_bits_law w t (omega arith) in
      let small = pow_mono t w (omega arith) in
      let cut = laws.trunc_law w t k lk (omega arith) in
      let below = mod-lt k (pow_pos t) in
      ap (A.ap_and w k) mask
      ∙ laws.and_law w k (2 ^ t - 1) lk (omega (arith, small, pow_pos t))
      ∙ sym (mod_mask k t)
      ∙ sym cut
      ∙ sym (laws.zext_law t w (A.ap_trunc w t k) (omega (arith, cut, below)) lt)

  zext_of_trunc-Sound :
      (fuel w u : ℕ) (inner : Op)
      → size inner + 1 < fuel
      → IsTyped scope (unary zext_op w (unary trunc_op u inner))
      → Sound A scope model (unary zext_op w (unary trunc_op u inner)) (
          zext_of_trunc A
            (create A same (visit_and A same fuel))
            w
            (unary trunc_op u inner)
            (some inner))
  zext_of_trunc-Sound fuel w u inner small (pos, (pu, ui, le'), le) =
      elim (Bool-cases (w == type_of inner)) [
        | inr p ↦ rw p (unchanged-Sound w (unary trunc_op u inner) (pos, (pu, ui, le'), le))
        | inl p ↦
            (let e = same_width A laws same same-eq scope model fits w inner p in
              let bits_law = laws.low_bits_law w u (omega arith) in
              let below : A.low_bits_set w u < 2 ^ w =
                omega (arith, bits_law, pow_mono u w (omega arith), pow_pos u) in
              let mask = constant_int w (A.low_bits_set w u) in
              let (masked, visits, masks) =
                visit_and-Sound A laws same same-eq scope model fits fuel inner mask small
                  (ui, (pos, below), sym e) in
              (
                masked,
                rw p (
                    create-eq A laws same same-eq scope model fits (visit_and A same fuel) inner
                      mask masked (sym e) visits),
                unary-Refines A laws same same-eq scope model fits zext_op w
                    (unary trunc_op u inner) masked (pos, (pu, ui, le'), le) masks.0
                    (masks.1 ∙ sym e)
                    λ k v lk hx last.
                      let (a, ha, cut) = >>=-eq-done (eval A model inner) _ hx in
                      value_of a k v masked masks.2 e ha
                        (eval-Fits A laws scope model fits inner a ui ha) cut last,
              ))
      ]
    where
      value_of :
          (a : Value) (k : ℕ) (v : Value) (masked : Op)
          → ((v : Value)
              → eval A model (binary and_op inner (constant_int w (A.low_bits_set w u))) ≡ done v
              → eval A model masked ≡ done v)
          → w ≡ type_of inner
          → eval A model inner ≡ done a
          → Fits (type_of inner) a
          → bv_trunc A a u ≡ done (int u k)
          → bv_zext A (int u k) w ≡ done v
          → eval A model masked ≡ done v
      value_of (int t j) k v masked masks e ha (et, lj) cut last =
          let tw : t ≡ w = et ∙ sym e in
          let hj : eval A model inner ≡ done (int w j) = ha ∙ ap (λ n. done (int n j)) tw in
          let lw : j < 2 ^ w = subst (λ n. j < 2 ^ n) (sym e) lj in
          let cut' = subst (λ n. bv_trunc A (int n j) u ≡ done (int u k)) tw cut in
          let ek : A.ap_trunc w u j ≡ k =
            (int-injective (
              guarded A laws same same-eq scope model fits (ltb u w) (int u (A.ap_trunc w u j))
                (int u k) cut')).1 in
          let lt : u < w =
            guard_holds A laws same same-eq scope model fits u w (int u (A.ap_trunc w u j))
              (int u k) cut' in
          masks (int w (A.ap_and w j (A.low_bits_set w u))) (
            binary-value A laws same same-eq scope model fits and_op inner
              (constant_int w (A.low_bits_set w u)) w j (A.low_bits_set w u) hj refl)
          ∙ ap (λ n. done (int w n)) (low_bits-value w u j lw lt ∙ ap (A.ap_zext u w) ek)
          ∙ ap done (
              guarded A laws same same-eq scope model fits (ltb u w) (int w (A.ap_zext u w k)) v
                last)

  -- With APInt as documented, `same` true of equal operations only, and a model whose symbols
  -- have values of their widths: a zero extension of a typed operand, simplified at its creation
  -- with more fuel than it has nodes, ends without a failed assertion, in a typed operation that
  -- has the same value in every model that gives the extension one, unless the operand is a constant
  -- of the width asked for: there the assertion of APInt fails.
  pub visit_zext-Sound :
      (fuel w : ℕ) (x : Op)
      → size (unary zext_op w x) < fuel
      → IsTyped scope (unary zext_op w x)
      → Sound A scope model
          (unary zext_op w x)
          (visit_zext A (create A same (visit_and A same fuel)) w x)
        ⊎ (((k : ℕ) × (x ≡ constant_int w k))
            × (visit_zext A (create A same (visit_and A same fuel)) w x ≡ fault))
  visit_zext-Sound fuel w (constant_int u k) small (pos, (pu, lk), le) =
      elim (Bool-cases (ltb u w)) [
        | inl p ↦
            (let lt = ltb→lt u w p in
              let below : A.ap_zext u w k < 2 ^ w =
                omega (arith, laws.zext_law u w k lk lt, pow_mono u w le) in
              inl (
                rw p (
                  constant_int w (A.ap_zext u w k),
                  refl,
                  (
                    (pos, below),
                    refl,
                    λ v h. ap done (guarded A laws same same-eq scope model fits true _ v h),
                  ),
                )))
        | inr p ↦
            (let e : u ≡ w = ground arith in inr ((k, ap (λ n. constant_int n k) e), rw p refl))
      ]
  visit_zext-Sound fuel w (unary trunc_op u inner) small t = inl (
      zext_kept-Sound w (unary trunc_op u inner) t _
        (zext_of_trunc-Sound fuel w u inner (omega arith) t))
  visit_zext-Sound fuel w (constant v y) small t =
      inl (zext_kept-Sound w (constant v y) t _ (unchanged-Sound w (constant v y) t))
  visit_zext-Sound fuel w (undef v) small t =
      inl (zext_kept-Sound w (undef v) t _ (unchanged-Sound w (undef v) t))
  visit_zext-Sound fuel w (binary q a b) small t =
      inl (zext_kept-Sound w (binary q a b) t _ (unchanged-Sound w (binary q a b) t))
  visit_zext-Sound fuel w (unary not_op v a) small t =
      inl (zext_kept-Sound w (unary not_op v a) t _ (unchanged-Sound w (unary not_op v a) t))
  visit_zext-Sound fuel w (unary zext_op v a) small t =
      inl (zext_kept-Sound w (unary zext_op v a) t _ (unchanged-Sound w (unary zext_op v a) t))
  visit_zext-Sound fuel w (unary sext_op v a) small t =
      inl (zext_kept-Sound w (unary sext_op v a) t _ (unchanged-Sound w (unary sext_op v a) t))
  visit_zext-Sound fuel w (icmp q a b) small t =
      inl (zext_kept-Sound w (icmp q a b) t _ (unchanged-Sound w (icmp q a b) t))
  visit_zext-Sound fuel w (select q a b) small t =
      inl (zext_kept-Sound w (select q a b) t _ (unchanged-Sound w (select q a b) t))
