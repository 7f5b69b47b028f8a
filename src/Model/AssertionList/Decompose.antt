-- ===== src/Model/AssertionList/Decompose.antt =====
-- The parts of an assertion hold where the assertion holds.
use caffeine.Prelude.{
  done, ◌>>=◌, done-injective, >>=-eq-done, ℕ, zero, suc, ◌-◌, ◌^◌, ◌<◌, ◌≡◌, refl, sym, ap, ◌∙◌,
  subst, ◌↔◌, ◌⊎◌, inl, inr, Bool, true, Option, arith,
}
use caffeine.Prelude.Bits.{bit-bit_and, bit-bit_or, bit-zero}
use caffeine.Apint.{ApInt, ApIntLaws}
use caffeine.Ir.Operation.{
  and_op, or_op, not_op, trunc_op, zext_op, sext_op, Op, constant_int, constant, undef, binary,
  unary, icmp, select, type_of, type_pos,
}
use caffeine.Ir.Value.{Value, int}
use caffeine.Ir.Value.{bv_not}
use caffeine.Ir.Eval.{eval, visit_unary}
use caffeine.Ir.Simplify.Contract.{Fits, ModelFits, int-injective}
use caffeine.Ir.Simplify.Values.{eval-Fits}
use caffeine.Ir.Simplify.Bitwise.{binary-value, operand_values}
use caffeine.Ir.Simplify.Visits.{visit_not}
use caffeine.Ir.Simplify.Widths.{visit_not-Refines}
use Prim.Native.Nat.{bit_and, bit_or}
use caffeine.Model.AssertionList.{weight}
use caffeine.Model.AssertionList.Meaning.{IsGoal, Parts, Parts-of}

-- The complement that is simplified is as heavy as its operand.
pub weight-visit_not : (A : ApInt) (w : ℕ) (x : Op) → weight (visit_not A w x) ≡ weight x
weight-visit_not A w (constant_int u k) = refl
weight-visit_not A w (unary not_op u x) = refl
weight-visit_not A w (constant v y) = refl
weight-visit_not A w (undef v) = refl
weight-visit_not A w (binary q a b) = refl
weight-visit_not A w (icmp q a b) = refl
weight-visit_not A w (select q a b) = refl
weight-visit_not A w (unary trunc_op v a) = refl
weight-visit_not A w (unary zext_op v a) = refl
weight-visit_not A w (unary sext_op v a) = refl

module _ (A : ApInt) (laws : ApIntLaws A) (same : Op → Op → Bool)
    (same-eq : (a b : Op) → same a b ≡ true → a ≡ b) (scope : ℕ → ℕ) (model : ℕ → Option Value)
    (fits : ModelFits scope model) where
  -- An assertion, and one that holds in the model.
  abbrev pub IsAssertion : Op → Type 0
  IsAssertion op = IsGoal scope op

  abbrev pub Holds : Op → Type 0
  Holds op = eval A model op ≡ done (int 1 1)

  one_bit : (b : ℕ) → b < 2 ^ 1 → (b ≡ 0) ⊎ (b ≡ 1)
  one_bit zero h = inl refl
  one_bit (suc zero) h = inr refl
  one_bit (suc (suc b)) h = absurd (omega arith)

  pub and-Holds :
      (l r : Op) → IsAssertion (binary and_op l r) → Holds (binary and_op l r) ↔ (Holds l × Holds r)
  and-Holds l r ((ul, ur, e), one) = (split, join)
    where
      join : Holds l × Holds r → Holds (binary and_op l r)
      join (hl, hr) =
          binary-value A laws same same-eq scope model fits and_op l r 1 1 1 hl hr
          ∙ ap (λ k. done (int 1 k)) (laws.and_law 1 1 1 (omega arith) (omega arith))

      split : Holds (binary and_op l r) → Holds l × Holds r
      split h =
          let (a, b, width, la, lb, ha, hb, ey) =
            operand_values A laws same same-eq scope model fits and_op l r 1 1 (ul, ur, e) h in
          both a b la lb ha hb (ey ∙ laws.and_law 1 a b la lb)
        where
          both :
              (a b : ℕ)
              → a < 2 ^ 1
              → b < 2 ^ 1
              → eval A model l ≡ done (int 1 a)
              → eval A model r ≡ done (int 1 b)
              → 1 ≡ bit_and a b
              → Holds l × Holds r
          both zero b la lb ha hb e = absurd (omega (arith, e, bit-bit_and 0 b 0))
          both (suc zero) zero la lb ha hb e = absurd (omega (arith, e, bit-bit_and 1 0 0))
          both (suc zero) (suc zero) la lb ha hb e = (ha, hb)
          both (suc zero) (suc (suc b)) la lb ha hb e = absurd (omega arith)
          both (suc (suc a)) b la lb ha hb e = absurd (omega arith)

  -- An operation whose bit is 0.
  abbrev pub Fails : Op → Type 0
  Fails op = eval A model op ≡ done (int 1 0)

  complement : (b : ℕ) → b < 2 → A.ap_not 1 b ≡ 1 - b
  complement b h = laws.not_law 1 b h

  -- The operand of a complement that holds.
  not-Holds :
      (x : Op) (k : ℕ)
      → IsAssertion x
      → (eval A model x >>= visit_unary A not_op 1) ≡ done (int 1 k)
      → eval A model x ≡ done (int 1 (1 - k))
  not-Holds x k (ux, one) h =
      let (a, ha, last) = >>=-eq-done (eval A model x) _ h in
      at a ha (eval-Fits A laws scope model fits x a ux ha) last
    where
      at :
          (a : Value)
          → eval A model x ≡ done a
          → Fits (type_of x) a
          → bv_not A a ≡ done (int 1 k)
          → eval A model x ≡ done (int 1 (1 - k))
      at (int u b) ha (eu, lb) last =
          let u1 : u ≡ 1 = eu ∙ one in
          let below : b < 2 ^ 1 = subst (λ n. b < 2 ^ n) one lb in
          let bits = (int-injective (done-injective last)).1 in
          let ek : A.ap_not 1 b ≡ k = ap (λ n. A.ap_not n b) (sym u1) ∙ bits in
          ha
          ∙ ap (λ n. done (int n b)) u1
          ∙ ap (λ n. done (int 1 n)) (omega (arith, ek, complement b below))

  -- A complement that is left as it is.
  plain : (x : Op) → IsAssertion x → (Holds (unary not_op (type_of x) x)) ↔ Fails x
  plain x t = (not-Holds x 1 t, (λ h. rw h (ap (λ n. done (int 1 n)) (complement 0 (omega arith)))))

  -- The same, for the complement that is simplified.
  visit_not-value : (x : Op) → IsAssertion x → (Holds (visit_not A (type_of x) x)) ↔ Fails x
  visit_not-value (constant_int u k) ((pu, lk), one) = (
    (λ h.
        let bits = (int-injective (done-injective h)).1 in
        let below : k < 2 ^ 1 = subst (λ n. k < 2 ^ n) one lk in
        let e : A.ap_not 1 k ≡ 1 = ap (λ n. A.ap_not n k) (sym one) ∙ bits in
        let zero_of : k ≡ 0 = omega (arith, e, complement k below) in
        ap (λ n. done (int n k)) one ∙ ap (λ n. done (int 1 n)) zero_of),
    (λ h.
        let bits = (int-injective (done-injective h)).1 in
        let e : A.ap_not u k ≡ 1 =
          ap (λ n. A.ap_not n k) one ∙ ap (A.ap_not 1) bits ∙ complement 0 (omega arith) in
        ap (λ n. done (int n (A.ap_not u k))) one ∙ ap (λ n. done (int 1 n)) e),
  )
  visit_not-value (unary not_op u y) ((pu, uy, eu), one) = (
    (λ h.
        let run : eval A model (unary not_op u y) ≡ done (int 1 0) =
          rw h (ap (λ n. done (int 1 n)) (complement 1 (omega arith))) in
        run),
    (λ h. let w1 : type_of y ≡ 1 = sym eu ∙ one in not-Holds y 0 (uy, w1) h),
  )
  visit_not-value (constant v y) t = plain (constant v y) t
  visit_not-value (undef v) t = plain (undef v) t
  visit_not-value (binary q a b) t = plain (binary q a b) t
  visit_not-value (icmp q a b) t = plain (icmp q a b) t
  visit_not-value (select q a b) t = plain (select q a b) t
  visit_not-value (unary trunc_op v a) t = plain (unary trunc_op v a) t
  visit_not-value (unary zext_op v a) t = plain (unary zext_op v a) t
  visit_not-value (unary sext_op v a) t = plain (unary sext_op v a) t

  or-Fails :
      (l r : Op) → IsAssertion (binary or_op l r) → Fails (binary or_op l r) ↔ (Fails l × Fails r)
  or-Fails l r ((ul, ur, e), one) = (split, join)
    where
      join : Fails l × Fails r → Fails (binary or_op l r)
      join (hl, hr) =
          binary-value A laws same same-eq scope model fits or_op l r 1 0 0 hl hr
          ∙ ap (λ k. done (int 1 k)) (laws.or_law 1 0 0 (omega arith) (omega arith))

      split : Fails (binary or_op l r) → Fails l × Fails r
      split h =
          let (a, b, width, la, lb, ha, hb, ey) =
            operand_values A laws same same-eq scope model fits or_op l r 1 0 (ul, ur, e) h in
          both a b la lb ha hb (ey ∙ laws.or_law 1 a b la lb)
        where
          both :
              (a b : ℕ)
              → a < 2 ^ 1
              → b < 2 ^ 1
              → eval A model l ≡ done (int 1 a)
              → eval A model r ≡ done (int 1 b)
              → 0 ≡ bit_or a b
              → Fails l × Fails r
          both zero zero la lb ha hb e = (ha, hb)
          both zero (suc zero) la lb ha hb e = absurd (omega (arith, e, bit-bit_or 0 1 0))
          both zero (suc (suc b)) la lb ha hb e = absurd (omega arith)
          both (suc zero) b la lb ha hb e = absurd (omega (arith, e, bit-bit_or 1 b 0, bit-zero 0))
          both (suc (suc a)) b la lb ha hb e = absurd (omega arith)

  abbrev pub PartsView : Op → Type 0
  PartsView op = Parts A scope Holds op

  not_or-PartsView :
      (w : ℕ) (l r : Op)
      → IsAssertion (unary not_op w (binary or_op l r))
      → PartsView (unary not_op w (binary or_op l r))
  not_or-PartsView w l r ((pos, (ul, ur, e), ew), one) =
      let wl : type_of l ≡ 1 = sym ew ∙ one in
      let wr : type_of r ≡ 1 = sym e ∙ wl in
      let left =
        visit_not-Refines A laws same same-eq scope model fits (type_of l) l
          (type_pos scope l ul, ul, refl) in
      let right =
        visit_not-Refines A laws same same-eq scope model fits (type_of r) r
          (type_pos scope r ur, ur, refl) in
      let outer = plain (binary or_op l r) ((ul, ur, e), wl) in
      let inner = or-Fails l r ((ul, ur, e), wl) in
      let first = visit_not-value l (ul, wl) in
      let second = visit_not-value r (ur, wr) in
      let open_it : Holds (unary not_op w (binary or_op l r))
          → Holds (unary not_op (type_of l) (binary or_op l r)) =
        λ h. subst (λ k. Holds (unary not_op k (binary or_op l r))) ew h in
      let close_it : Holds (unary not_op (type_of l) (binary or_op l r))
          → Holds (unary not_op w (binary or_op l r)) =
        λ h. subst (λ k. Holds (unary not_op k (binary or_op l r))) (sym ew) h in
      inr (
        visit_not A (type_of l) l,
        visit_not A (type_of r) r,
        refl,
        (left.0, left.1 ∙ wl),
        (right.0, right.1 ∙ wr),
        (
          (λ h. let parts = inner.0 (outer.0 (open_it h)) in (first.1 parts.0, second.1 parts.1)),
          (λ h. close_it (outer.1 (inner.1 (first.0 h.0, second.0 h.1)))),
        ),
        omega (arith, weight-visit_not A (type_of l) l, weight-visit_not A (type_of r) r),
      )

  pub parts_view : (op : Op) → IsAssertion op → PartsView op
  parts_view op t = Parts-of A scope Holds and-Holds not_or-PartsView op t
