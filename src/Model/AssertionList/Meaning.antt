-- ===== src/Model/AssertionList/Meaning.antt =====
-- What it is for an assertion to hold, as far as an AssertionList depends on it.
use caffeine.Prelude.{ℕ, ◌+◌, ◌<◌, ◌≡◌, refl, sym, ◌∙◌, ◌↔◌, ◌⊎◌, inl, inr, true, none, some, arith}
use caffeine.Apint.{ApInt}
use caffeine.Ir.Operation.{
  add_op, sub_op, mul_op, udiv_op, sdiv_op, urem_op, srem_op, and_op, or_op, xor_op, shl_op,
  lshr_op, ashr_op, not_op, trunc_op, zext_op, sext_op, Op, constant_int, constant, undef, binary,
  unary, icmp, select, type_of, IsTyped,
}
use caffeine.Ir.Simplify.{is_constant_int}
use caffeine.Model.AssertionList.{decompose, weight}

-- An assertion: a typed operation of one bit.
abbrev pub IsGoal : (ℕ → ℕ) → Op → Type 0
IsGoal scope op = IsTyped scope op × (type_of op ≡ 1)

-- What a round of the loop makes of an assertion.
abbrev pub Parts : ApInt → (ℕ → ℕ) → (Op → Type 0) → Op → Type 0
Parts A scope Holds op =
    (decompose A op ≡ none)
    ⊎ ((lhs : Op) × (rhs : Op) × (decompose A op ≡ some (lhs, rhs))
        × IsGoal scope lhs
        × IsGoal scope rhs
        × (Holds op ↔ (Holds lhs × Holds rhs))
        × (weight lhs + weight rhs < weight op))

pub record Meaning (A : ApInt) (scope : ℕ → ℕ) : Type 1 where
  pub Holds : Op → Type 0
  pub parts : (op : Op) → IsGoal scope op → Parts A scope Holds op
  pub true_holds : (op : Op) → IsGoal scope op → is_constant_int op 1 ≡ true → Holds op

module _ (A : ApInt) (scope : ℕ → ℕ) (Holds : Op → Type 0)
    (and_iff : (l r : Op)
      → IsGoal scope (binary and_op l r)
      → Holds (binary and_op l r) ↔ (Holds l × Holds r))
    (not_or_parts : (w : ℕ) (l r : Op)
      → IsGoal scope (unary not_op w (binary or_op l r))
      → Parts A scope Holds (unary not_op w (binary or_op l r))) where
  pub Parts-of : (op : Op) → IsGoal scope op → Parts A scope Holds op
  Parts-of (constant_int w k) t = inl refl
  Parts-of (constant w k) t = inl refl
  Parts-of (undef w) t = inl refl
  Parts-of (icmp c l r) t = inl refl
  Parts-of (select c l r) t = inl refl
  Parts-of (binary and_op l r) t =
      let ((ul, ur, e), one) = t in
      inr (l, r, refl, (ul, one), (ur, sym e ∙ one), and_iff l r t, omega arith)
  Parts-of (binary add_op l r) t = inl refl
  Parts-of (binary sub_op l r) t = inl refl
  Parts-of (binary mul_op l r) t = inl refl
  Parts-of (binary udiv_op l r) t = inl refl
  Parts-of (binary sdiv_op l r) t = inl refl
  Parts-of (binary urem_op l r) t = inl refl
  Parts-of (binary srem_op l r) t = inl refl
  Parts-of (binary or_op l r) t = inl refl
  Parts-of (binary xor_op l r) t = inl refl
  Parts-of (binary shl_op l r) t = inl refl
  Parts-of (binary lshr_op l r) t = inl refl
  Parts-of (binary ashr_op l r) t = inl refl
  Parts-of (unary trunc_op w x) t = inl refl
  Parts-of (unary zext_op w x) t = inl refl
  Parts-of (unary sext_op w x) t = inl refl
  Parts-of (unary not_op w (binary or_op l r)) t = not_or_parts w l r t
  Parts-of (unary not_op w (binary add_op l r)) t = inl refl
  Parts-of (unary not_op w (binary sub_op l r)) t = inl refl
  Parts-of (unary not_op w (binary mul_op l r)) t = inl refl
  Parts-of (unary not_op w (binary udiv_op l r)) t = inl refl
  Parts-of (unary not_op w (binary sdiv_op l r)) t = inl refl
  Parts-of (unary not_op w (binary urem_op l r)) t = inl refl
  Parts-of (unary not_op w (binary srem_op l r)) t = inl refl
  Parts-of (unary not_op w (binary xor_op l r)) t = inl refl
  Parts-of (unary not_op w (binary shl_op l r)) t = inl refl
  Parts-of (unary not_op w (binary lshr_op l r)) t = inl refl
  Parts-of (unary not_op w (binary ashr_op l r)) t = inl refl
  Parts-of (unary not_op w (binary and_op l r)) t = inl refl
  Parts-of (unary not_op w (constant_int u k)) t = inl refl
  Parts-of (unary not_op w (constant u k)) t = inl refl
  Parts-of (unary not_op w (undef u)) t = inl refl
  Parts-of (unary not_op w (unary o u x)) t = inl refl
  Parts-of (unary not_op w (icmp c l r)) t = inl refl
  Parts-of (unary not_op w (select c l r)) t = inl refl
