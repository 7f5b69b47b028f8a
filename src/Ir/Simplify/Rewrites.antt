-- ===== src/Ir/Simplify/Rewrites.antt =====
-- The visits that call each other keep the value of what they rewrite, within the fuel that the
-- operands' sizes ask for.
use caffeine.Prelude.{
  Option-cases, done, ℕ, zero, suc, ◌+◌, ◌<◌, ◌≡◌, refl, sym, ap, ◌∙◌, subst, ◌⊎◌, inl, inr, Bool,
  true, false, Option, arith,
}
use caffeine.Apint.{ApInt, ApIntLaws}
use caffeine.Ir.Operation.{Binop, and_op, Op, constant_int, binary, size, IsTyped}
use caffeine.Ir.Value.{Value, int}
use caffeine.Ir.Simplify.{
  is_constant, keep, rewrite_masked, and_rewrite, and_constants, continue_and, visit_and, visit_shl,
}
use caffeine.Ir.Simplify.Contract.{ModelFits, Refines, Sound, Op-cases}
use caffeine.Ir.Simplify.Values.{binary-Refines, keep-Refines}
use caffeine.Apint.Masks.{ap_and_comm}
use caffeine.Ir.Simplify.Bitwise.{and_constants-OptionRefines, binary-value, operand_values}
use caffeine.Ir.Simplify.Masks.{
  mask_view, visit_and-some, visit_and-none, swap-Refines, SoundBelow, move_shift-Sound,
  merge_masks-Sound,
}

module _ (A : ApInt) (laws : ApIntLaws A) (same : Op → Op → Bool)
    (same-eq : (a b : Op) → same a b ≡ true → a ≡ b) (scope : ℕ → ℕ) (model : ℕ → Option Value)
    (fits : ModelFits scope model) where
  -- The operands of the inner And in the other order.
  swap_inner :
      (u m : ℕ) (value : Op) (w n : ℕ) (op' : Op)
      → IsTyped scope (binary and_op (constant_int u m) (binary and_op (constant_int w n) value))
      → Refines A scope model
          (binary and_op (constant_int u m) (binary and_op value (constant_int w n)))
          op'
      → Refines A scope model
          (binary and_op (constant_int u m) (binary and_op (constant_int w n) value))
          op'
  swap_inner u m value w n op' (uc, (un, uv, ev), ew) (typed, et, keeps) =
      binary-Refines A laws scope model fits and_op (constant_int u m)
        (binary and_op (constant_int w n) value) op' (uc, (un, uv, ev), ew) typed et
        λ x y lx ly hx hy.
          let (a, b, width, la, lb, ha, hb, ey) =
            operand_values A laws same same-eq scope model fits and_op (constant_int w n) value u y
              (un, uv, ev) hy in
          let other =
            binary-value A laws same same-eq scope model fits and_op value (constant_int w n) u b a
              hb ha in
          let e : A.ap_and u b a ≡ y = ap_and_comm A laws u b a lb la ∙ sym ey in
          keeps _ (
            binary-value A laws same same-eq scope model fits and_op (constant_int u m)
              (binary and_op value (constant_int w n)) u x y hx
              (other ∙ ap (λ k. done (int u k)) e))

  -- What a constant mask and an operand are rewritten to has the value of their And.
  masked-Sound :
      (fuel u m : ℕ) (other : Op)
      → SoundBelow A laws same same-eq scope model fits fuel
      → size other < fuel
      → IsTyped scope (binary and_op (constant_int u m) other)
      → (rewrite_masked (constant_int u m) other ≡ keep)
        ⊎ ((l r : Op)
            → Sound A scope model (binary and_op (constant_int u m) other) (
                continue_and A same
                  (visit_and A same fuel)
                  (visit_shl A same fuel)
                  l
                  r
                  (rewrite_masked (constant_int u m) other)))
  masked-Sound zero u m other below small t = absurd (omega arith)
  masked-Sound (suc fuel) u m other below small t = elim (mask_view (constant_int u m) other) [
    | inl p ↦ inl p
    | inr (inl (value, w, s, p, e)) ↦ inr λ l r.
        let t' = subst (λ k. IsTyped scope (binary and_op (constant_int u m) k)) e t in
        let small' = subst (λ k. size k < suc fuel) e small in
        rw (p, e)
          (move_shift-Sound A laws same same-eq scope model fits fuel l r value u m w s below
            (omega arith) t')
    | inr (inr (value, w, n, p, inl e)) ↦ inr λ l r.
        let t' = subst (λ k. IsTyped scope (binary and_op (constant_int u m) k)) e t in
        let small' = subst (λ k. size k < suc fuel) e small in
        rw (p, e)
          (merge_masks-Sound A laws same same-eq scope model fits fuel l r value u m w n below
            (omega arith) t')
    | inr (inr (value, w, n, p, inr e)) ↦ inr λ l r.
        let t' = subst (λ k. IsTyped scope (binary and_op (constant_int u m) k)) e t in
        let small' = subst (λ k. size k < suc fuel) e small in
        let (uc, (un, uv, ev), ew) = t' in
        let (op', run, refines) =
          merge_masks-Sound A laws same same-eq scope model fits fuel l r value u m w n below
            (omega arith) (uc, (uv, un, sym ev), ew ∙ ev) in
        rw (p, e) (op', run, swap_inner u m value w n op' t' refines)
  ]

  pub kept :
      (o : Binop) (l r : Op)
      → IsTyped scope (binary o l r)
      → Sound A scope model (binary o l r) (done (binary o l r))
  kept o l r t = (binary o l r, refl, keep-Refines A laws scope model fits (binary o l r) t)

  constant-first :
      (fuel u m : ℕ) (r : Op)
      → SoundBelow A laws same same-eq scope model fits fuel
      → size r < fuel
      → IsTyped scope (binary and_op (constant_int u m) r)
      → Sound A scope model (binary and_op (constant_int u m) r) (
          continue_and A same
            (visit_and A same fuel)
            (visit_shl A same fuel)
            (constant_int u m)
            r
            (and_rewrite (constant_int u m) r))
  constant-first fuel u m r below small t = elim (masked-Sound fuel u m r below small t) [
    | inl p ↦ rw p (kept and_op (constant_int u m) r t)
    | inr rewritten ↦ rewritten (constant_int u m) r
  ]

  constant-second :
      (fuel u m : ℕ) (l : Op)
      → SoundBelow A laws same same-eq scope model fits fuel
      → size l < fuel
      → is_constant l ≡ false
      → IsTyped scope (binary and_op l (constant_int u m))
      → Sound A scope model (binary and_op l (constant_int u m)) (
          continue_and A same
            (visit_and A same fuel)
            (visit_shl A same fuel)
            l
            (constant_int u m)
            (and_rewrite l (constant_int u m)))
  constant-second fuel u m l below small q (ul, ur, e) =
      elim (masked-Sound fuel u m l below small (ur, ul, sym e)) [
        | inl p ↦ rw (q, p) (kept and_op l (constant_int u m) (ul, ur, e))
        | inr rewritten ↦
            (let (op', run, refines) = rewritten l (constant_int u m) in
              (
                op',
                rw q run,
                swap-Refines A laws same same-eq scope model fits l (constant_int u m) op'
                    (ul, ur, e) refines,
              ))
      ]

  -- With APInt as documented, `same` true of equal operations only, and a model whose symbols
  -- have values of their widths: an And of typed operands, simplified at its creation with more
  -- fuel than the operands have nodes, ends without a failed assertion, in a typed operation
  -- that has the same value in every model that gives the And one.
  pub visit_and-Sound :
      (fuel : ℕ) (l r : Op)
      → size l + size r < fuel
      → IsTyped scope (binary and_op l r)
      → Sound A scope model (binary and_op l r) (visit_and A same fuel l r)
  visit_and-Sound zero l r small t = absurd (omega arith)
  visit_and-Sound (suc fuel) l r small t = elim (Option-cases (and_constants A same l r)) [
    | inr (op', p) ↦ (
      op',
      visit_and-some A laws same same-eq scope model fits fuel l r op' p,
      and_constants-OptionRefines A laws same same-eq scope model fits l r t op' p,
    )
    | inl p ↦
        subst (Sound A scope model (binary and_op l r))
          (sym (visit_and-none A laws same same-eq scope model fits fuel l r p))
          (elim (Op-cases l) [
            | inl (u, m, e) ↦
                (let t' = subst (λ k. IsTyped scope (binary and_op k r)) e t in
                  let one = ap size e in
                  rw e (constant-first fuel u m r (visit_and-Sound fuel) (omega (arith, one)) t'))
            | inr q ↦ elim (Op-cases r) [
              | inl (u, m, e) ↦
                  (let t' = subst (λ k. IsTyped scope (binary and_op l k)) e t in
                    let one = ap size e in
                    rw e
                      (constant-second fuel u m l (visit_and-Sound fuel) (omega (arith, one)) q t'))
              | inr s ↦ rw (q, s) (kept and_op l r t)
            ]
          ])
  ]
