-- ===== src/Model/AssertionList/Denoted.antt =====
-- The parts of an assertion, for the numbers that operations denote.
use caffeine.Prelude.{
  ℕ, zero, suc, ◌-◌, ◌%◌, ◌^◌, ◌<◌, ◌≡◌, refl, sym, ap, ◌∙◌, subst, ◌↔◌, inr, Bool, true, Option,
  arith,
}
use caffeine.Apint.{ApInt, ApIntLaws}
use caffeine.Ir.Operation.{
  and_op, or_op, not_op, trunc_op, zext_op, sext_op, Op, constant_int, constant, undef, binary,
  unary, icmp, select, type_of, type_pos,
}
use caffeine.Ir.Value.{Value}
use caffeine.Ir.Denote.{denote, denote-lt}
use caffeine.Ir.Simplify.{is_constant_int}
use caffeine.Ir.Simplify.Contract.{ModelFits, is_constant_int-eq}
use caffeine.Ir.Simplify.Visits.{visit_not}
use caffeine.Ir.Simplify.Widths.{visit_not-Refines}
use caffeine.Model.AssertionList.Decompose.{weight-visit_not}
use caffeine.Model.AssertionList.Meaning.{IsGoal, Parts, Meaning, Parts-of}
use Prim.Native.Nat.{bit_and, bit_or}

-- The assertion is the bit 1 in the model.
abbrev pub IsTrue : (ℕ → Option Value) → Op → Type 0
IsTrue model op = denote model op ≡ 1

and_bits : (a b : ℕ) → a < 2 → b < 2 → (bit_and a b % 2 ^ 1 ≡ 1) ↔ ((a ≡ 1) × (b ≡ 1))
and_bits zero zero la lb = ((λ h. cc), (λ h. cc))
and_bits zero (suc zero) la lb = ((λ h. cc), (λ h. cc))
and_bits (suc zero) zero la lb = ((λ h. cc), (λ h. cc))
and_bits (suc zero) (suc zero) la lb = ((λ h. (refl, refl)), (λ h. refl))
and_bits zero (suc (suc b)) la lb = absurd (omega arith)
and_bits (suc zero) (suc (suc b)) la lb = absurd (omega arith)
and_bits (suc (suc a)) b la lb = absurd (omega arith)

or_bits : (a b : ℕ) → a < 2 → b < 2 → (bit_or a b % 2 ^ 1 ≡ 0) ↔ ((a ≡ 0) × (b ≡ 0))
or_bits zero zero la lb = ((λ h. (refl, refl)), (λ h. refl))
or_bits zero (suc zero) la lb = ((λ h. cc), (λ h. cc))
or_bits (suc zero) zero la lb = ((λ h. cc), (λ h. cc))
or_bits (suc zero) (suc zero) la lb = ((λ h. cc), (λ h. cc))
or_bits zero (suc (suc b)) la lb = absurd (omega arith)
or_bits (suc zero) (suc (suc b)) la lb = absurd (omega arith)
or_bits (suc (suc a)) b la lb = absurd (omega arith)

not_bit : (w b : ℕ) → w ≡ 1 → b < 2 → (2 ^ w - 1 - b ≡ 1) ↔ (b ≡ 0)
not_bit w b e lt = rw e ((λ h. omega arith), (λ h. omega arith))

module _ (A : ApInt) (laws : ApIntLaws A) (same : Op → Op → Bool)
    (same-eq : (a b : Op) → same a b ≡ true → a ≡ b) (scope : ℕ → ℕ) (model : ℕ → Option Value)
    (fits : ModelFits scope model) where
  bit_of : (x : Op) → IsGoal scope x → denote model x < 2
  bit_of x (u, one) = subst (λ w. denote model x < 2 ^ w) one (denote-lt scope model fits x u)

  pub and-IsTrue :
      (l r : Op)
      → IsGoal scope (binary and_op l r)
      → IsTrue model (binary and_op l r) ↔ (IsTrue model l × IsTrue model r)
  and-IsTrue l r ((ul, ur, e), one) =
      subst
        (λ w.
          (bit_and (denote model l) (denote model r) % 2 ^ w ≡ 1)
          ↔ (IsTrue model l × IsTrue model r))
        (sym one)
        (and_bits (denote model l) (denote model r) (bit_of l (ul, one))
          (bit_of r (ur, sym e ∙ one)))

  or-denote :
      (l r : Op)
      → IsGoal scope (binary or_op l r)
      → (denote model (binary or_op l r) ≡ 0) ↔ ((denote model l ≡ 0) × (denote model r ≡ 0))
  or-denote l r ((ul, ur, e), one) =
      subst
        (λ w.
          (bit_or (denote model l) (denote model r) % 2 ^ w ≡ 0)
          ↔ ((denote model l ≡ 0) × (denote model r ≡ 0)))
        (sym one)
        (or_bits (denote model l) (denote model r) (bit_of l (ul, one))
          (bit_of r (ur, sym e ∙ one)))

  not-denote :
      (w : ℕ) (x : Op)
      → w ≡ 1
      → IsGoal scope x
      → IsTrue model (unary not_op w x) ↔ (denote model x ≡ 0)
  not-denote w x e t = not_bit w (denote model x) e (bit_of x t)

  visit_not-denote :
      (x : Op) → IsGoal scope x → IsTrue model (visit_not A (type_of x) x) ↔ (denote model x ≡ 0)
  visit_not-denote (constant_int u k) ((pu, lk), one) =
      rw (laws.not_law u k lk) (not_bit u k one (subst (λ n. k < 2 ^ n) one lk))
  visit_not-denote (unary not_op u y) ((pu, uy, eu), one) =
      let below = bit_of y (uy, sym eu ∙ one) in rw one ((λ h. omega arith), (λ h. omega arith))
  visit_not-denote (constant v y) t = not-denote v (constant v y) t.1 t
  visit_not-denote (undef v) t = not-denote v (undef v) t.1 t
  visit_not-denote (binary q a b) t = not-denote (type_of a) (binary q a b) t.1 t
  visit_not-denote (icmp q a b) t = not-denote 1 (icmp q a b) refl t
  visit_not-denote (select q a b) t = not-denote (type_of a) (select q a b) t.1 t
  visit_not-denote (unary trunc_op v a) t = not-denote v (unary trunc_op v a) t.1 t
  visit_not-denote (unary zext_op v a) t = not-denote v (unary zext_op v a) t.1 t
  visit_not-denote (unary sext_op v a) t = not-denote v (unary sext_op v a) t.1 t

  pub not_or-Parts :
      (w : ℕ) (l r : Op)
      → IsGoal scope (unary not_op w (binary or_op l r))
      → Parts A scope (IsTrue model) (unary not_op w (binary or_op l r))
  not_or-Parts w l r ((pos, (ul, ur, e), ew), one) =
      let wl : type_of l ≡ 1 = sym ew ∙ one in
      let wr : type_of r ≡ 1 = sym e ∙ wl in
      let left =
        visit_not-Refines A laws same same-eq scope model fits (type_of l) l
          (type_pos scope l ul, ul, refl) in
      let right =
        visit_not-Refines A laws same same-eq scope model fits (type_of r) r
          (type_pos scope r ur, ur, refl) in
      let outer = not-denote w (binary or_op l r) one ((ul, ur, e), wl) in
      let inner = or-denote l r ((ul, ur, e), wl) in
      let first = visit_not-denote l (ul, wl) in
      let second = visit_not-denote r (ur, wr) in
      inr (
        visit_not A (type_of l) l,
        visit_not A (type_of r) r,
        refl,
        (left.0, left.1 ∙ wl),
        (right.0, right.1 ∙ wr),
        (
          (λ h. let parts = inner.0 (outer.0 h) in (first.1 parts.0, second.1 parts.1)),
          (λ h. outer.1 (inner.1 (first.0 h.0, second.0 h.1))),
        ),
        omega (arith, weight-visit_not A (type_of l) l, weight-visit_not A (type_of r) r),
      )

  pub true-IsTrue : (op : Op) → is_constant_int op 1 ≡ true → IsTrue model op
  true-IsTrue op h = let (w, e) = is_constant_int-eq op 1 h in ap (denote model) e

  -- Being true in the model is a meaning of assertions.
  abbrev pub denotation : Meaning A scope
  denotation = record {
    Holds = IsTrue model;
    parts = λ op t. Parts-of A scope (IsTrue model) and-IsTrue not_or-Parts op t;
    true_holds = λ op t h. true-IsTrue op h;
  }
