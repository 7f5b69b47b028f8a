-- ===== src/Ir/Simplify/Masks.antt =====
-- visitAnd with its two rewrites, which call visitAnd again: enough fuel, and the value kept.
use caffeine.Prelude.{
  ◌==◌, if◌then◌else◌, ==_refl, Bool-cases, Outcome, done, ℕ, suc, ◌+◌, ◌<◌, ◌≡◌, refl, sym, ap,
  ◌∙◌, ◌⊎◌, inl, inr, Bool, true, false, ◌||◌, Option, none, some,
}
use caffeine.Apint.{ApInt, ApIntLaws}
use caffeine.Ir.Operation.{
  add_op, sub_op, mul_op, udiv_op, sdiv_op, urem_op, srem_op, and_op, or_op, xor_op, shl_op,
  lshr_op, ashr_op, Op, constant_int, constant, undef, binary, unary, icmp, select, type_of, size,
  IsTyped,
}
use caffeine.Ir.Value.{Value, int}
use caffeine.Ir.Simplify.{
  keep, move_shift, merge_masks, rewrite_masked, and_rewrite, shifted_back, visit_lshr,
  and_constants, shl_constants, create, continue_and, continue_shl, visit_and, visit_shl,
}
use caffeine.Ir.Simplify.Contract.{ModelFits, Refines, Sound, Op-cases}
use caffeine.Ir.Simplify.Values.{binary-Refines}
use caffeine.Apint.Masks.{ap_and_comm, ap_and_assoc, ap_mask_of_shift}
use caffeine.Ir.Simplify.Arithmetic.{visit_lshr-Refines}
use caffeine.Ir.Simplify.Bitwise.{
  and_constants-OptionRefines, shl_constants-OptionRefines, binary-value, operand_values,
}

-- What a constant mask and another operand are rewritten to.
abbrev pub MaskView : Op → Op → Type 0
MaskView mask other =
    (rewrite_masked mask other ≡ keep)
    ⊎ ((value : Op) × (w : ℕ) × (s : ℕ) × (rewrite_masked mask other
          ≡ move_shift value mask (constant_int w s))
        × (other ≡ binary lshr_op value (constant_int w s)))
    ⊎ ((value : Op) × (w : ℕ) × (n : ℕ) × (rewrite_masked mask other
          ≡ merge_masks value mask (constant_int w n))
        × ((other ≡ binary and_op value (constant_int w n))
            ⊎ (other ≡ binary and_op (constant_int w n) value)))

lshr-MaskView : (mask value shift : Op) → MaskView mask (binary lshr_op value shift)
lshr-MaskView mask value shift = elim (Op-cases shift) [
  | inl (w, s, e) ↦ inr (inl (value, w, s, rw e refl, ap (binary lshr_op value) e))
  | inr p ↦ inl (rw p refl)
]

and-MaskView : (mask a b : Op) → MaskView mask (binary and_op a b)
and-MaskView mask a b = elim (Op-cases a) [
  | inl (w, n, e) ↦ inr (inr (b, w, n, rw e refl, inr (ap (λ k. binary and_op k b) e)))
  | inr p ↦ elim (Op-cases b) [
    | inl (w, n, e) ↦ inr (inr (a, w, n, rw (p, e) refl, inl (ap (binary and_op a) e)))
    | inr q ↦ inl (rw (p, q) refl)
  ]
]

pub mask_view : (mask other : Op) → MaskView mask other
mask_view mask (constant_int w x) = inl refl
mask_view mask (constant w x) = inl refl
mask_view mask (undef w) = inl refl
mask_view mask (binary lshr_op value shift) = lshr-MaskView mask value shift
mask_view mask (binary and_op a b) = and-MaskView mask a b
mask_view mask (binary add_op a b) = inl refl
mask_view mask (binary sub_op a b) = inl refl
mask_view mask (binary mul_op a b) = inl refl
mask_view mask (binary udiv_op a b) = inl refl
mask_view mask (binary sdiv_op a b) = inl refl
mask_view mask (binary urem_op a b) = inl refl
mask_view mask (binary srem_op a b) = inl refl
mask_view mask (binary or_op a b) = inl refl
mask_view mask (binary xor_op a b) = inl refl
mask_view mask (binary shl_op a b) = inl refl
mask_view mask (binary ashr_op a b) = inl refl
mask_view mask (unary o w x) = inl refl
mask_view mask (icmp c a b) = inl refl
mask_view mask (select c a b) = inl refl

-- Whichever test holds, the choice is one of five constants.
pub nested_constant :
    (a b c d : Bool) (w1 n1 w2 n2 w3 n3 w4 n4 w5 n5 : ℕ)
    → (w : ℕ) × (n : ℕ) × ((if a
          then some (constant_int w1 n1)
          else if b
          then some (constant_int w2 n2)
          else if c
          then some (constant_int w3 n3)
          else if d
          then some (constant_int w4 n4)
          else some (constant_int w5 n5))
        ≡ some (constant_int w n))
nested_constant true b c d w1 n1 w2 n2 w3 n3 w4 n4 w5 n5 = (w1, n1, refl)
nested_constant false true c d w1 n1 w2 n2 w3 n3 w4 n4 w5 n5 = (w2, n2, refl)
nested_constant false false true d w1 n1 w2 n2 w3 n3 w4 n4 w5 n5 = (w3, n3, refl)
nested_constant false false false true w1 n1 w2 n2 w3 n3 w4 n4 w5 n5 = (w4, n4, refl)
nested_constant false false false false w1 n1 w2 n2 w3 n3 w4 n4 w5 n5 = (w5, n5, refl)

module _ (A : ApInt) (laws : ApIntLaws A) (same : Op → Op → Bool)
    (same-eq : (a b : Op) → same a b ≡ true → a ≡ b) (scope : ℕ → ℕ) (model : ℕ → Option Value)
    (fits : ModelFits scope model) where
  pub create-eq :
      (visit : Op → Op → Outcome Op) (l r op' : Op)
      → type_of l ≡ type_of r
      → visit l r ≡ done op'
      → create A same visit l r ≡ done op'
  create-eq visit l r op' e h = rw (e, ==_refl (type_of r)) h

  pub visit_and-some :
      (fuel : ℕ) (l r op' : Op)
      → and_constants A same l r ≡ some op'
      → visit_and A same (suc fuel) l r ≡ done op'
  visit_and-some fuel l r op' found = rw (visit_and, found) refl

  pub visit_and-none :
      (fuel : ℕ) (l r : Op)
      → and_constants A same l r ≡ none
      → visit_and A same (suc fuel) l r
        ≡ continue_and A same (visit_and A same fuel) (visit_shl A same fuel) l r (and_rewrite l r)
  visit_and-none fuel l r found = rw (visit_and, found) refl

  pub visit_shl-some :
      (fuel : ℕ) (l r op' : Op)
      → shl_constants A same l r ≡ some op'
      → visit_shl A same (suc fuel) l r ≡ done op'
  visit_shl-some fuel l r op' found = rw (visit_shl, found) refl

  pub visit_shl-none :
      (fuel : ℕ) (l r : Op)
      → shl_constants A same l r ≡ none
      → visit_shl A same (suc fuel) l r
        ≡ continue_shl A same (visit_and A same fuel) l r (shifted_back (type_of l) l r)
  visit_shl-none fuel l r found = rw (visit_shl, found) refl

  -- Two constants are folded: the result is one of them, or a new one.
  pub shl_constants-both :
      (w m v s : ℕ)
      → IsTyped scope (binary shl_op (constant_int w m) (constant_int v s))
      → (n : ℕ) × (shl_constants A same (constant_int w m) (constant_int v s)
          ≡ some (constant_int w n))
        × Refines A scope model
            (binary shl_op (constant_int w m) (constant_int v s))
            (constant_int w n)
  shl_constants-both w m v s t = elim (Bool-cases (m == 0 || s == 0)) [
    | inl p ↦
        (let e : shl_constants A same (constant_int w m) (constant_int v s)
              ≡ some (constant_int w m) =
            rw p refl in
          (
            m,
            e,
            shl_constants-OptionRefines A laws same same-eq scope model fits (constant_int w m)
                (constant_int v s) t _ e,
          ))
    | inr p ↦
        (let e : shl_constants A same (constant_int w m) (constant_int v s)
              ≡ some (constant_int w (A.ap_shl w m s)) =
            rw p refl in
          (
            A.ap_shl w m s,
            e,
            shl_constants-OptionRefines A laws same same-eq scope model fits (constant_int w m)
                (constant_int v s) t _ e,
          ))
  ]

  pub and_constants-both :
      (w m v n : ℕ)
      → IsTyped scope (binary and_op (constant_int w m) (constant_int v n))
      → (k : ℕ) × (u : ℕ) × (and_constants A same (constant_int w m) (constant_int v n)
          ≡ some (constant_int u k))
        × Refines A scope model
            (binary and_op (constant_int w m) (constant_int v n))
            (constant_int u k)
  and_constants-both w m v n t =
      let (u, k, e) =
        nested_constant (m == 0) (n == 0) (m == A.max_value w) (n == A.max_value v) w m v n v n w m
          w (A.ap_and w m n) in
      (
        k,
        u,
        e,
        and_constants-OptionRefines A laws same same-eq scope model fits (constant_int w m)
            (constant_int v n) t _ e,
      )

  -- Only the operands' order changes.
  pub swap-Refines :
      (l r op' : Op)
      → IsTyped scope (binary and_op l r)
      → Refines A scope model (binary and_op r l) op'
      → Refines A scope model (binary and_op l r) op'
  swap-Refines l r op' (ul, ur, e) (t', et, keeps) =
      binary-Refines A laws scope model fits and_op l r op' (ul, ur, e) t' (et ∙ sym e)
        λ x y lx ly hx hy.
          keeps _
            (binary-value A laws same same-eq scope model fits and_op r l (type_of l) y x hy hx)
          ∙ ap (λ k. done (int (type_of l) k)) (sym (ap_and_comm A laws (type_of l) x y lx ly))

  -- A visit of an And that the fuel covers.
  abbrev pub SoundBelow : ℕ → Type 0
  SoundBelow fuel =
      (l r : Op)
      → size l + size r < fuel
      → IsTyped scope (binary and_op l r)
      → Sound A scope model (binary and_op l r) (visit_and A same fuel l r)

  -- (and (lshr x s) m) -> (lshr (and x (shl m s)) s)
  pub move_shift-Sound :
      (fuel : ℕ) (l r value : Op) (u m t s : ℕ)
      → SoundBelow (suc fuel)
      → size value + 1 < suc fuel
      → IsTyped scope (binary and_op (constant_int u m) (binary lshr_op value (constant_int t s)))
      → Sound A scope model
          (binary and_op (constant_int u m) (binary lshr_op value (constant_int t s)))
          (continue_and A same
            (visit_and A same (suc fuel))
            (visit_shl A same (suc fuel))
            l
            r
            (move_shift value (constant_int u m) (constant_int t s)))
  move_shift-Sound fuel l r value u m t s below small (um, (uv, us, ev), e) =
      let mask = constant_int u m in
      let shift = constant_int t s in
      let (n, found, moves) = shl_constants-both u m t s (um, us, e ∙ ev) in
      let moved = constant_int u n in
      let run : visit_shl A same (suc fuel) mask shift ≡ done moved =
        visit_shl-some fuel mask shift moved found in
      let (masked, visits, masks) = below value moved small (uv, moves.0, sym e) in
      let last : IsTyped scope (binary lshr_op masked shift) = (masks.0, us, masks.1 ∙ ev) in
      let shifts = visit_lshr-Refines A laws same same-eq scope model fits masked shift last in
      let first_step = create-eq (visit_shl A same (suc fuel)) mask shift moved (e ∙ ev) run in
      let second_step = create-eq (visit_and A same (suc fuel)) value moved masked (sym e) visits in
      let third_step =
        create-eq (λ a b. done (visit_lshr A same a b)) masked shift
          (visit_lshr A same masked shift) (masks.1 ∙ ev) refl in
      (
        visit_lshr A same masked shift,
        rw (first_step, second_step) third_step,
        binary-Refines A laws scope model fits and_op mask (binary lshr_op value shift) _
            (um, (uv, us, ev), e) shifts.0 (shifts.1 ∙ masks.1 ∙ sym e)
            λ x y lx ly hx hy.
              let (a, b, width, la, lb, ha, hb, ey) =
                operand_values A laws same same-eq scope model fits lshr_op value shift u y
                  (uv, us, ev) hy in
              let h1 =
                moves.2 _ (
                  binary-value A laws same same-eq scope model fits shl_op mask shift u x b hx
                    hb) in
              let h2 = masks.2 _ (
                binary-value A laws same same-eq scope model fits and_op value moved u a _ ha h1) in
              let h3 = shifts.2 _ (
                binary-value A laws same same-eq scope model fits lshr_op masked shift u _ b h2
                  hb) in
              h3
              ∙ ap (λ k. done (int u k))
                  (sym (ap (A.ap_and u x) ey ∙ ap_mask_of_shift A laws u a x b la lx)),
      )

  -- (and (and x m1) m2) -> (and x (and m1 m2))
  pub merge_masks-Sound :
      (fuel : ℕ) (l r value : Op) (u m t n : ℕ)
      → SoundBelow (suc fuel)
      → size value + 1 < suc fuel
      → IsTyped scope (binary and_op (constant_int u m) (binary and_op value (constant_int t n)))
      → Sound A scope model
          (binary and_op (constant_int u m) (binary and_op value (constant_int t n)))
          (continue_and A same
            (visit_and A same (suc fuel))
            (visit_shl A same (suc fuel))
            l
            r
            (merge_masks value (constant_int u m) (constant_int t n)))
  merge_masks-Sound fuel l r value u m t n below small (um, (uv, un, ev), e) =
      let mask = constant_int u m in
      let mask2 = constant_int t n in
      let (k, v, found, merges) = and_constants-both u m t n (um, un, e ∙ ev) in
      let merged = constant_int v k in
      let run : visit_and A same (suc fuel) mask mask2 ≡ done merged =
        visit_and-some fuel mask mask2 merged found in
      let fit : type_of value ≡ v = sym (merges.1 ∙ e) in
      let (masked, visits, masks) = below value merged small (uv, merges.0, fit) in
      let first_step = create-eq (visit_and A same (suc fuel)) mask mask2 merged (e ∙ ev) run in
      let second_step = create-eq (visit_and A same (suc fuel)) value merged masked fit visits in
      (
        masked,
        rw first_step second_step,
        binary-Refines A laws scope model fits and_op mask (binary and_op value mask2) masked
            (um, (uv, un, ev), e) masks.0 (masks.1 ∙ sym e)
            λ x y lx ly hx hy.
              let (a, b, width, la, lb, ha, hb, ey) =
                operand_values A laws same same-eq scope model fits and_op value mask2 u y
                  (uv, un, ev) hy in
              let h1 =
                merges.2 _ (
                  binary-value A laws same same-eq scope model fits and_op mask mask2 u x b hx
                    hb) in
              let h2 = masks.2 _ (
                binary-value A laws same same-eq scope model fits and_op value merged u a _ ha
                  h1) in
              h2
              ∙ ap (λ k. done (int u k))
                  (sym (ap (A.ap_and u x) ey ∙ ap_and_assoc A laws u a x b la lx lb)),
      )
