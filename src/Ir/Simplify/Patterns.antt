-- ===== src/Ir/Simplify/Patterns.antt =====
-- The operands that visitOr and visitShl rewrite, by what their matchers find.
use caffeine.Prelude.{
  ltb, ◌==◌, ltb→lt, ==_iff, Bool-cases, ℕ, ◌<◌, ◌≡◌, refl, sym, ap, ◌⊎◌, inl, inr, ◌&&◌, none,
  some,
}
use caffeine.Ir.Operation.{
  add_op, sub_op, mul_op, udiv_op, sdiv_op, urem_op, srem_op, and_op, or_op, xor_op, shl_op,
  lshr_op, ashr_op, Op, constant_int, constant, undef, binary, unary, icmp, select,
}
use caffeine.Ir.Simplify.{right_mask, shifted_back}
use caffeine.Ir.Simplify.Contract.{Op-cases}
use caffeine.Ir.Simplify.Values.{&&-true}

-- The masked operands that visitOr looks for.
abbrev pub RightMaskView : Op → Type 0
RightMaskView op =
    (right_mask op ≡ none)
    ⊎ ((value : Op) × (w : ℕ) × (n : ℕ) × (right_mask op ≡ some (value, constant_int w n))
        × (op ≡ binary and_op value (constant_int w n)))

pub right_mask_view : (op : Op) → RightMaskView op
right_mask_view (binary and_op a b) = elim (Op-cases b) [
  | inl (w, n, e) ↦ inr (a, w, n, rw e refl, ap (binary and_op a) e)
  | inr p ↦ inl (rw p refl)
]
right_mask_view (binary add_op a b) = inl refl
right_mask_view (binary sub_op a b) = inl refl
right_mask_view (binary mul_op a b) = inl refl
right_mask_view (binary udiv_op a b) = inl refl
right_mask_view (binary sdiv_op a b) = inl refl
right_mask_view (binary urem_op a b) = inl refl
right_mask_view (binary srem_op a b) = inl refl
right_mask_view (binary or_op a b) = inl refl
right_mask_view (binary xor_op a b) = inl refl
right_mask_view (binary shl_op a b) = inl refl
right_mask_view (binary ashr_op a b) = inl refl
right_mask_view (binary lshr_op a b) = inl refl
right_mask_view (constant_int w x) = inl refl
right_mask_view (constant w x) = inl refl
right_mask_view (undef w) = inl refl
right_mask_view (unary o w x) = inl refl
right_mask_view (icmp c a b) = inl refl
right_mask_view (select c a b) = inl refl

-- The operands that visitShl rewrites.
abbrev pub ShiftView : ℕ → Op → Op → Type 0
ShiftView w l r =
    (shifted_back w l r ≡ none)
    ⊎ ((value : Op) × (v : ℕ) × (u : ℕ) × (t : ℕ) × (shifted_back w l r ≡ some (value, t))
        × (l ≡ binary lshr_op value (constant_int v t))
        × (r ≡ constant_int u t)
        × (t < w))

constants-ShiftView :
    (w : ℕ) (value : Op) (v s u t : ℕ)
    → ShiftView w (binary lshr_op value (constant_int v s)) (constant_int u t)
constants-ShiftView w value v s u t = elim (Bool-cases (t == s && ltb t w)) [
  | inl p ↦
      (let (q, lt) = &&-true (t == s) (ltb t w) p in
        let e : s ≡ t = sym ((==_iff t s).0 q) in
        inr (
          value,
          v,
          u,
          t,
          rw p refl,
          ap (λ k. binary lshr_op value (constant_int v k)) e,
          refl,
          ltb→lt t w lt,
        ))
  | inr p ↦ inl (rw p refl)
]

pub shift_view : (w : ℕ) (l r : Op) → ShiftView w l r
shift_view w (binary lshr_op value (constant_int v s)) (constant_int u t) =
    constants-ShiftView w value v s u t
shift_view n (binary lshr_op value (constant_int v s)) (constant w x) = inl refl
shift_view n (binary lshr_op value (constant_int v s)) (undef w) = inl refl
shift_view n (binary lshr_op value (constant_int v s)) (binary o a b) = inl refl
shift_view n (binary lshr_op value (constant_int v s)) (unary o w x) = inl refl
shift_view n (binary lshr_op value (constant_int v s)) (icmp c a b) = inl refl
shift_view n (binary lshr_op value (constant_int v s)) (select c a b) = inl refl
shift_view n (binary lshr_op value (constant w x)) r = inl refl
shift_view n (binary lshr_op value (undef w)) r = inl refl
shift_view n (binary lshr_op value (binary o a b)) r = inl refl
shift_view n (binary lshr_op value (unary o w x)) r = inl refl
shift_view n (binary lshr_op value (icmp c a b)) r = inl refl
shift_view n (binary lshr_op value (select c a b)) r = inl refl
shift_view n (binary add_op a b) r = inl refl
shift_view n (binary sub_op a b) r = inl refl
shift_view n (binary mul_op a b) r = inl refl
shift_view n (binary udiv_op a b) r = inl refl
shift_view n (binary sdiv_op a b) r = inl refl
shift_view n (binary urem_op a b) r = inl refl
shift_view n (binary srem_op a b) r = inl refl
shift_view n (binary or_op a b) r = inl refl
shift_view n (binary xor_op a b) r = inl refl
shift_view n (binary shl_op a b) r = inl refl
shift_view n (binary ashr_op a b) r = inl refl
shift_view n (binary and_op a b) r = inl refl
shift_view n (constant_int w x) r = inl refl
shift_view n (constant w x) r = inl refl
shift_view n (undef w) r = inl refl
shift_view n (unary o w x) r = inl refl
shift_view n (icmp c a b) r = inl refl
shift_view n (select c a b) r = inl refl
