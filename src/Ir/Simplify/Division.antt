-- ===== src/Ir/Simplify/Division.antt =====
-- visitUDiv, visitSDiv, visitURem and visitSRem keep the value. A division of 0 is folded to 0
-- whatever the divisor, where Value::bvudiv and Value::bvsdiv have another value for a divisor 0.
use caffeine.Prelude.{
  ltb, ◌==◌, ltb→lt, done, ℕ, zero, suc, ◌-◌, ◌^◌, ◌≤◌, ◌<◌, ◌≡◌, refl, ◌∙◌, inl, inr, Bool, true,
  false, ◌&&◌, Option, arith,
}
use caffeine.Prelude.Bits.{pow_pos}
use caffeine.Apint.{ApInt, ApIntLaws}
use caffeine.Apint.Bounds.{pow_mono}
use caffeine.Ir.Operation.{udiv_op, sdiv_op, urem_op, srem_op, Op, binary, type_of, IsTyped}
use caffeine.Ir.Value.{Value, int, udiv_bits, sdiv_bits, urem_bits, srem_bits}
use caffeine.Ir.Eval.{eval}
use caffeine.Ir.Simplify.{is_constant_int, visit_udiv, visit_sdiv, visit_urem, visit_srem}
use caffeine.Ir.Simplify.Contract.{ModelFits, Refines}
use caffeine.Ir.Simplify.Values.{
  ||-true, &&-true, is_constant_int-value, fold-Refines, if-Refines, left-Refines, number-Refines,
}
use caffeine.Apint.Units.{zero-ap_sdiv, ap_sdiv-one, zero-ap_srem, ap_srem-one}
use native.Mathlib.Nat.{div-one, zero-div, zero-mod, mod-one}

module _ (A : ApInt) (laws : ApIntLaws A) (same : Op → Op → Bool)
    (same-eq : (a b : Op) → same a b ≡ true → a ≡ b) (scope : ℕ → ℕ) (model : ℕ → Option Value)
    (fits : ModelFits scope model) where
  -- The value of a constant operand.
  known :
      (op : Op) (n : ℕ) {w x : ℕ}
      → is_constant_int op n ≡ true
      → eval A model op ≡ done (int w x)
      → x ≡ n
  known op n h p = is_constant_int-value A laws scope model fits op n _ _ h p

  -- The divisor is not 0 where it has a value.
  abbrev pub IsNonzero : Op → Type 0
  IsNonzero r = (w y : ℕ) → eval A model r ≡ done (int w y) → 0 < y

  zero-udiv_bits : (w y : ℕ) → 0 < y → udiv_bits A w 0 y ≡ 0
  zero-udiv_bits w zero pos = absurd (omega arith)
  zero-udiv_bits w (suc y) pos = laws.udiv_law w 0 (suc y) (pow_pos w) pos ∙ zero-div (suc y)

  udiv_bits-one : (w x : ℕ) → x < 2 ^ w → udiv_bits A w x 1 ≡ x
  udiv_bits-one w x lx = laws.udiv_law w x 1 lx (omega arith) ∙ div-one x

  zero-urem_bits : (w y : ℕ) → urem_bits A w 0 y ≡ 0
  zero-urem_bits w zero = refl
  zero-urem_bits w (suc y) = laws.urem_law w 0 (suc y) (pow_pos w) (omega arith) ∙ zero-mod (suc y)

  urem_bits-one : (w x : ℕ) → x < 2 ^ w → urem_bits A w x 1 ≡ 0
  urem_bits-one w x lx = laws.urem_law w x 1 lx (omega arith) ∙ mod-one x

  -- The only quotient that is out of range is not one of 0.
  zero-min : (w : ℕ) → (0 == A.signed_min_value w) ≡ false
  zero-min w = ground (arith, laws.signed_min_law w, pow_pos (w - 1))

  zero-sdiv_bits : (w y : ℕ) → y < 2 ^ w → 0 < y → sdiv_bits A w 0 y ≡ 0
  zero-sdiv_bits w zero ly pos = absurd (omega arith)
  zero-sdiv_bits w (suc y) ly pos = rw (zero-min w) (zero-ap_sdiv A laws w (suc y) ly pos)

  -- Nor is it one by 1, in more than one bit.
  one-max : (w : ℕ) → 1 < w → (1 == A.max_value w) ≡ false
  one-max w h =
      let wide : 4 ≤ 2 ^ w = pow_mono 2 w (omega arith) in ground (arith, laws.max_law w, wide)

  &&-false : (b : Bool) → (b && false) ≡ false
  &&-false true = refl
  &&-false false = refl

  sdiv_bits-one : (w x : ℕ) → 1 < w → x < 2 ^ w → sdiv_bits A w x 1 ≡ x
  sdiv_bits-one w x h lx =
      rw (one-max w h, &&-false (x == A.signed_min_value w)) (ap_sdiv-one A laws w x h lx)

  zero-srem_bits : (w y : ℕ) → y < 2 ^ w → srem_bits A w 0 y ≡ 0
  zero-srem_bits w zero ly = refl
  zero-srem_bits w (suc y) ly = zero-ap_srem A laws w (suc y) ly (omega arith)

  wide : (w : ℕ) → ltb 1 w ≡ true → 1 < w
  wide w h = ltb→lt 1 w h

  -- An unsigned division, simplified at its creation, stays typed and has the same value in every model
  -- that gives the original one, for typed operands and a divisor that is not 0.
  pub visit_udiv-Refines :
      (l r : Op)
      → IsTyped scope (binary udiv_op l r)
      → IsNonzero r
      → Refines A scope model (binary udiv_op l r) (visit_udiv A same l r)
  visit_udiv-Refines l r t nz =
      if-Refines A laws scope model fits _ (binary udiv_op l r) _ _
        (λ h. left-Refines A laws scope model fits udiv_op l r t λ x y lx ly hx hy.
          elim (||-true (is_constant_int l 0) (is_constant_int r 1) h) [
            | inl p ↦ (let e = known l 0 p hx in rw e (zero-udiv_bits (type_of l) y (nz _ y hy)))
            | inr p ↦ (let e = known r 1 p hy in rw e (udiv_bits-one (type_of l) x lx))
          ])
        λ _. fold-Refines A laws scope model fits udiv_op l r t

  -- A signed division, simplified at its creation, stays typed and has the same value in every model
  -- that gives the original one, for typed operands and a divisor that is not 0.
  pub visit_sdiv-Refines :
      (l r : Op)
      → IsTyped scope (binary sdiv_op l r)
      → IsNonzero r
      → Refines A scope model (binary sdiv_op l r) (visit_sdiv A same l r)
  visit_sdiv-Refines l r t nz =
      if-Refines A laws scope model fits _ (binary sdiv_op l r) _ _
        (λ h. left-Refines A laws scope model fits sdiv_op l r t λ x y lx ly hx hy.
          let e = known l 0 h hx in rw e (zero-sdiv_bits (type_of l) y ly (nz _ y hy)))
        λ _.
          if-Refines A laws scope model fits _ (binary sdiv_op l r) _ _
            (λ h. left-Refines A laws scope model fits sdiv_op l r t λ x y lx ly hx hy.
              let (p, q) = &&-true (is_constant_int r 1) (ltb 1 (type_of l)) h in
              let e = known r 1 p hy in rw e (sdiv_bits-one (type_of l) x (wide (type_of l) q) lx))
            λ _. fold-Refines A laws scope model fits sdiv_op l r t

  -- An unsigned remainder, simplified at its creation, stays typed and has the same value in every model
  -- that gives the original one, for typed operands.
  pub visit_urem-Refines :
      (l r : Op)
      → IsTyped scope (binary urem_op l r)
      → Refines A scope model (binary urem_op l r) (visit_urem A same l r)
  visit_urem-Refines l r t =
      if-Refines A laws scope model fits _ (binary urem_op l r) _ _
        (λ h.
          left-Refines A laws scope model fits urem_op l r t
            λ x y lx ly hx hy. let e = known l 0 h hx in rw e (zero-urem_bits (type_of l) y))
        λ _.
          if-Refines A laws scope model fits _ (binary urem_op l r) _ _
            (λ h.
              number-Refines A laws scope model fits urem_op l r 0 t (pow_pos (type_of l))
                λ x y lx ly hx hy. let e = known r 1 h hy in rw e (urem_bits-one (type_of l) x lx))
            λ _. fold-Refines A laws scope model fits urem_op l r t

  -- A signed remainder, simplified at its creation, stays typed and has the same value in every model
  -- that gives the original one, for typed operands.
  pub visit_srem-Refines :
      (l r : Op)
      → IsTyped scope (binary srem_op l r)
      → Refines A scope model (binary srem_op l r) (visit_srem A same l r)
  visit_srem-Refines l r t =
      if-Refines A laws scope model fits _ (binary srem_op l r) _ _
        (λ h.
          left-Refines A laws scope model fits srem_op l r t
            λ x y lx ly hx hy. let e = known l 0 h hx in rw e (zero-srem_bits (type_of l) y ly))
        λ _.
          if-Refines A laws scope model fits _ (binary srem_op l r) _ _
            (λ h.
              number-Refines A laws scope model fits srem_op l r 0 t (pow_pos (type_of l))
                λ x y lx ly hx hy.
                  let (p, q) = &&-true (is_constant_int r 1) (ltb 1 (type_of l)) h in
                  let e = known r 1 p hy in
                  rw e (ap_srem-one A laws (type_of l) x (wide (type_of l) q) lx))
            λ _. fold-Refines A laws scope model fits srem_op l r t
