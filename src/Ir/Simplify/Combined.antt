-- ===== src/Ir/Simplify/Combined.antt =====
-- visitOr and visitShl, which build an And: enough fuel, and the value kept.
use caffeine.Prelude.{
  ◌==◌, Bool-cases, Option-cases, done, ◌>>=◌, done-injective, ℕ, zero, suc, ◌+◌, ◌<◌, ◌≡◌, refl,
  sym, ap, ◌∙◌, subst, inl, inr, Bool, true, Option, none, some, arith,
}
use caffeine.Apint.{ApInt, ApIntLaws}
use caffeine.Ir.Operation.{
  and_op, or_op, shl_op, lshr_op, Op, constant_int, binary, type_of, size, IsTyped, type_pos,
}
use caffeine.Ir.Value.{Value, int}
use caffeine.Ir.Eval.{eval}
use caffeine.Ir.Simplify.{
  right_mask, shifted_back, or_constants, shl_constants, create, continue_shl, visit_and, visit_shl,
  or_masks, visit_or,
}
use caffeine.Ir.Simplify.Contract.{ModelFits, Refines, Sound, int-injective}
use caffeine.Ir.Simplify.Values.{binary-Refines}
use caffeine.Apint.Masks.{ap_or_masks, ap_shift_back, bits_set_from-lt}
use caffeine.Ir.Simplify.Bitwise.{
  or_constants-OptionRefines, shl_constants-OptionRefines, binary-value, operand_values,
}
use caffeine.Ir.Simplify.Masks.{nested_constant, create-eq, visit_shl-some, visit_shl-none}
use caffeine.Ir.Simplify.Rewrites.{visit_and-Sound, kept}
use caffeine.Ir.Simplify.Patterns.{RightMaskView, right_mask_view, ShiftView, shift_view}

module _ (A : ApInt) (laws : ApIntLaws A) (same : Op → Op → Bool)
    (same-eq : (a b : Op) → same a b ≡ true → a ≡ b) (scope : ℕ → ℕ) (model : ℕ → Option Value)
    (fits : ModelFits scope model) where
  or_constants-both :
      (w m v n : ℕ)
      → IsTyped scope (binary or_op (constant_int w m) (constant_int v n))
      → (k : ℕ) × (u : ℕ) × (or_constants A same (constant_int w m) (constant_int v n)
          ≡ some (constant_int u k))
        × Refines A scope model
            (binary or_op (constant_int w m) (constant_int v n))
            (constant_int u k)
  or_constants-both w m v n t =
      let (u, k, e) =
        nested_constant (m == 0) (n == 0) (m == A.max_value w) (n == A.max_value v) v n w m w m v n
          w (A.ap_or w m n) in
      (
        k,
        u,
        e,
        or_constants-OptionRefines A laws same same-eq scope model fits (constant_int w m)
            (constant_int v n) t _ e,
      )

  visit_or-some :
      (fuel : ℕ) (l r op' : Op)
      → or_constants A same l r ≡ some op'
      → visit_or A same (suc fuel) l r ≡ done op'
  visit_or-some fuel l r op' found = rw (visit_or, found) refl

  visit_or-none :
      (fuel : ℕ) (l r : Op)
      → or_constants A same l r ≡ none
      → visit_or A same (suc fuel) l r
        ≡ or_masks A same (visit_or A same fuel) fuel l r (right_mask l) (right_mask r)
  visit_or-none fuel l r found = rw (visit_or, found) refl

  -- Two masks of one value.
  one_value-Sound :
      (fuel : ℕ) (value : Op) (u m t n : ℕ)
      → size value + 1 < suc fuel
      → IsTyped scope (
          binary or_op
            (binary and_op value (constant_int u m))
            (binary and_op value (constant_int t n)))
      → Sound A scope model
          (binary or_op
            (binary and_op value (constant_int u m))
            (binary and_op value (constant_int t n)))
          (create A same (visit_or A same (suc fuel)) (constant_int u m) (constant_int t n)
            >>= create A same (visit_and A same (suc fuel)) value)
  one_value-Sound fuel value u m t n small ((uv, um, em), (uv', un, en), e) =
      let mask1 = constant_int u m in
      let mask2 = constant_int t n in
      let (k, v, found, merges) = or_constants-both u m t n (um, un, sym em ∙ en) in
      let merged = constant_int v k in
      let run = visit_or-some fuel mask1 mask2 merged found in
      let fit : type_of value ≡ v = em ∙ sym merges.1 in
      let (masked, visits, masks) =
        visit_and-Sound A laws same same-eq scope model fits (suc fuel) value merged small
          (uv, merges.0, fit) in
      let first_step =
        create-eq A laws same same-eq scope model fits (visit_or A same (suc fuel)) mask1 mask2
          merged (sym em ∙ en) run in
      let second_step =
        create-eq A laws same same-eq scope model fits (visit_and A same (suc fuel)) value merged
          masked fit visits in
      (
        masked,
        rw first_step second_step,
        binary-Refines A laws scope model fits or_op (binary and_op value mask1)
            (binary and_op value mask2) masked ((uv, um, em), (uv', un, en), e) masks.0 masks.1
            λ x y lx ly hx hy.
              let w = type_of value in
              let (a, b, width, la, lb, ha, hb, ex) =
                operand_values A laws same same-eq scope model fits and_op value mask1 w x
                  (uv, um, em) hx in
              let (c, d, width', lc, ld, hc, hd, ey) =
                operand_values A laws same same-eq scope model fits and_op value mask2 w y
                  (uv', un, en) hy in
              let ca : c ≡ a = (int-injective (done-injective (sym hc ∙ ha))).1 in
              let h1 =
                merges.2 _ (
                  binary-value A laws same same-eq scope model fits or_op mask1 mask2 w b d hb
                    hd) in
              let h2 = masks.2 _ (
                binary-value A laws same same-eq scope model fits and_op value merged w a _ ha
                  h1) in
              h2
              ∙ ap (λ k. done (int w k))
                  (sym (
                    ap (λ k. A.ap_or w k y) ex
                    ∙ ap (A.ap_or w (A.ap_and w a b)) (ey ∙ ap (λ k. A.ap_and w k d) ca)
                    ∙ ap_or_masks A laws w a b d la lb ld)),
      )

  two_masks-Sound :
      (fuel : ℕ) (value1 value2 : Op) (u m t n : ℕ)
      → suc (size value1 + 1) + suc (size value2 + 1) < suc fuel
      → IsTyped scope (
          binary or_op
            (binary and_op value1 (constant_int u m))
            (binary and_op value2 (constant_int t n)))
      → Sound A scope model
          (binary or_op
            (binary and_op value1 (constant_int u m))
            (binary and_op value2 (constant_int t n)))
          (or_masks A same
            (visit_or A same fuel)
            fuel
            (binary and_op value1 (constant_int u m))
            (binary and_op value2 (constant_int t n))
            (some (value1, constant_int u m))
            (some (value2, constant_int t n)))
  two_masks-Sound zero value1 value2 u m t n small typed = absurd (omega arith)
  two_masks-Sound (suc fuel) value1 value2 u m t n small typed =
      elim (Bool-cases (same value1 value2)) [
        | inl p ↦
            (let e : value2 ≡ value1 = sym (same-eq value1 value2 p) in
              let typed' =
                subst
                  (λ k. IsTyped scope (
                    binary or_op (binary and_op value1 (constant_int u m))
                      (binary and_op k (constant_int t n))))
                  e typed in
              rw p (
                subst
                  (λ k.
                    Sound A scope model
                      (binary or_op (binary and_op value1 (constant_int u m))
                        (binary and_op k (constant_int t n)))
                      (create A same (visit_or A same (suc fuel)) (constant_int u m)
                          (constant_int t n)
                        >>= create A same (visit_and A same (suc fuel)) value1))
                  (sym e) (one_value-Sound fuel value1 u m t n (omega arith) typed')))
        | inr p ↦ rw p (kept A laws same same-eq scope model fits or_op _ _ typed)
      ]

  -- With APInt as documented, `same` true of equal operations only, and a model whose symbols
  -- have values of their widths: an Or of typed operands, simplified at its creation with more
  -- fuel than the operands have nodes, ends without a failed assertion, in a typed operation
  -- that has the same value in every model that gives the Or one.
  pub visit_or-Sound :
      (fuel : ℕ) (l r : Op)
      → size l + size r < fuel
      → IsTyped scope (binary or_op l r)
      → Sound A scope model (binary or_op l r) (visit_or A same fuel l r)
  visit_or-Sound zero l r small t = absurd (omega arith)
  visit_or-Sound (suc fuel) l r small t = elim (Option-cases (or_constants A same l r)) [
    | inr (op', p) ↦ (
      op',
      visit_or-some fuel l r op' p,
      or_constants-OptionRefines A laws same same-eq scope model fits l r t op' p,
    )
    | inl p ↦
        subst (Sound A scope model (binary or_op l r)) (sym (visit_or-none fuel l r p))
          (masks (right_mask_view l) (right_mask_view r))
  ]
    where
      masks :
          RightMaskView l
          → RightMaskView r
          → Sound A scope model
              (binary or_op l r)
              (or_masks A same (visit_or A same fuel) fuel l r (right_mask l) (right_mask r))
      masks (inl p) v = rw p (kept A laws same same-eq scope model fits or_op l r t)
      masks (inr (value1, w1, n1, p, e)) (inl q) =
          rw (p, q) (kept A laws same same-eq scope model fits or_op l r t)
      masks (inr (value1, u, m, p, e)) (inr (value2, t', n, q, e')) =
          let typed = subst (λ k. IsTyped scope (binary or_op k r)) e t in
          let typed' =
            subst (λ k. IsTyped scope (binary or_op (binary and_op value1 (constant_int u m)) k)) e'
              typed in
          let left_size = ap size e in
          let right_size = ap size e' in
          rw (p, q, e, e')
            (two_masks-Sound fuel value1 value2 u m t' n (omega (arith, left_size, right_size))
              typed')

  -- With APInt as documented, `same` true of equal operations only, and a model whose symbols
  -- have values of their widths: a shift to the left of typed operands, simplified at its
  -- creation with more fuel than the operands have nodes, ends without a failed assertion, in a
  -- typed operation that has the same value in every model that gives the shift one.
  pub visit_shl-Sound :
      (fuel : ℕ) (l r : Op)
      → size l + size r < fuel
      → IsTyped scope (binary shl_op l r)
      → Sound A scope model (binary shl_op l r) (visit_shl A same fuel l r)
  visit_shl-Sound zero l r small t = absurd (omega arith)
  visit_shl-Sound (suc fuel) l r small t = elim (Option-cases (shl_constants A same l r)) [
    | inr (op', p) ↦ (
      op',
      visit_shl-some A laws same same-eq scope model fits fuel l r op' p,
      shl_constants-OptionRefines A laws same same-eq scope model fits l r t op' p,
    )
    | inl p ↦
        subst (Sound A scope model (binary shl_op l r))
          (sym (visit_shl-none A laws same same-eq scope model fits fuel l r p))
          (shifts (shift_view (type_of l) l r))
  ]
    where
      shifts :
          ShiftView (type_of l) l r
          → Sound A scope model
              (binary shl_op l r)
              (continue_shl A same (visit_and A same fuel) l r (shifted_back (type_of l) l r))
      shifts (inl p) = rw p (kept A laws same same-eq scope model fits shl_op l r t)
      shifts (inr (value, v, u, s, p, el, er, lt)) =
          let w = type_of l in
          let mask = constant_int w (A.bits_set_from w s) in
          let width : w ≡ type_of value = ap type_of el in
          let left_size = ap size el in
          let right_size = ap size er in
          let (ul, ur, e) = t in
          let typed = subst (IsTyped scope) el ul in
          let fits_mask = bits_set_from-lt A laws w s (omega arith) in
          let (masked, visits, masks) =
            visit_and-Sound A laws same same-eq scope model fits fuel value mask
              (omega (arith, left_size, right_size))
              (typed.0, (type_pos scope l ul, fits_mask), sym width) in
          (
            masked,
            rw p (
                create-eq A laws same same-eq scope model fits (visit_and A same fuel) value mask
                  masked (sym width) visits),
            binary-Refines A laws scope model fits shl_op l r masked t masks.0 (masks.1 ∙ sym width)
                λ x y lx ly hx hy.
                  let hl = ap (eval A model) (sym el) ∙ hx in
                  let hr = ap (eval A model) (sym er) ∙ hy in
                  let (a, b, width', la, lb, ha, hb, ex) =
                    operand_values A laws same same-eq scope model fits lshr_op value
                      (constant_int v s) w x typed hl in
                  let es : s ≡ b = (int-injective (done-injective hb)).1 in
                  let ey : s ≡ y = (int-injective (done-injective hr)).1 in
                  let h = masks.2 _ (
                    binary-value A laws same same-eq scope model fits and_op value mask w a _ ha
                      refl) in
                  h
                  ∙ ap (λ k. done (int w k))
                      (sym (
                        ap (A.ap_shl w x) (sym ey)
                        ∙ ap (λ k. A.ap_shl w k s) (ex ∙ ap (A.ap_lshr w a) (sym es))
                        ∙ ap_shift_back A laws w a s la lt)),
          )
