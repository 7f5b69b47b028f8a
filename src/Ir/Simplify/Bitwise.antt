-- ===== src/Ir/Simplify/Bitwise.antt =====
-- visitAnd, visitOr and visitShl where a constant operand decides, and the values of a BinaryOp
-- from those of its operands.
use caffeine.Prelude.{
  if◌then◌else◌, ==_iff, ==_refl, done, done-injective, >>=-eq-done, ℕ, ◌^◌, ◌<◌, ◌≡◌, refl, sym,
  ap, ◌∙◌, subst, inl, inr, Bool, true, false, Option, some,
}
use caffeine.Apint.{ApInt, ApIntLaws}
use caffeine.Ir.Operation.{
  Binop, and_op, or_op, shl_op, Op, constant_int, constant, undef, binary, unary, icmp, select,
  type_of, IsTyped,
}
use caffeine.Ir.Value.{Value, int, binary_bits, bv_binary}
use caffeine.Ir.Eval.{eval}
use caffeine.Ir.Simplify.{
  is_constant_int, try_const_int, or_else, is_constant_ones, and_constants, or_constants,
  shl_constants,
}
use caffeine.Ir.Simplify.Contract.{Fits, ModelFits, Refines, int-injective}
use caffeine.Ir.Simplify.Values.{
  ||-true, eval-Fits, is_constant_int-value, fold-Refines, left-Refines, right-Refines,
}
use caffeine.Apint.Units.{zero-ap_shl, ap_shl-zero}
use caffeine.Apint.Masks.{ap_and_comm, zero-ap_and, ones-ap_and, ap_or_comm, zero-ap_or, ones-ap_or}

module _ (A : ApInt) (laws : ApIntLaws A) (same : Op → Op → Bool)
    (same-eq : (a b : Op) → same a b ≡ true → a ≡ b) (scope : ℕ → ℕ) (model : ℕ → Option Value)
    (fits : ModelFits scope model) where
  -- An option of a result is one that may stand for the operation.
  abbrev pub OptionRefines : Op → Option Op → Type 0
  OptionRefines op found = (op' : Op) → found ≡ some op' → Refines A scope model op op'

  if-some :
      (b : Bool) (op p : Op) (rest : Option Op)
      → (b ≡ true → Refines A scope model op p)
      → OptionRefines op rest
      → OptionRefines op (if b then some p else rest)
  if-some true op p rest hp hrest op' e =
      let same_op : p ≡ op' = ap (λ o. or_else o p) e in
      subst (Refines A scope model op) same_op (hp refl)
  if-some false op p rest hp hrest op' e = hrest op' e

  fold-OptionRefines :
      (o : Binop) (l r : Op)
      → IsTyped scope (binary o l r)
      → OptionRefines (binary o l r) (try_const_int (binary_bits A o) l r)
  fold-OptionRefines o l r t op' e =
      let same_op : or_else (try_const_int (binary_bits A o) l r) (binary o l r) ≡ op' =
        ap (λ found. or_else found (binary o l r)) e in
      subst (Refines A scope model (binary o l r)) same_op
        (fold-Refines A laws scope model fits o l r t)

  known :
      (op : Op) (n : ℕ) {w x : ℕ}
      → is_constant_int op n ≡ true
      → eval A model op ≡ done (int w x)
      → x ≡ n
  known op n h p = is_constant_int-value A laws scope model fits op n _ _ h p

  -- All digits of a constant are set.
  ones_value :
      (op : Op) (w x : ℕ)
      → is_constant_ones A same op ≡ true
      → eval A model op ≡ done (int w x)
      → x ≡ A.max_value w
  ones_value (constant_int v y) w x h p =
      let both = int-injective (done-injective p) in
      sym both.1 ∙ (==_iff y (A.max_value v)).0 h ∙ ap A.max_value both.0
  ones_value (constant v y) w x h p = cc
  ones_value (undef v) w x h p = cc
  ones_value (binary o l r) w x h p = cc
  ones_value (unary o v y) w x h p = cc
  ones_value (icmp c l r) w x h p = cc
  ones_value (select c l r) w x h p = cc

  pub and_constants-OptionRefines :
      (l r : Op)
      → IsTyped scope (binary and_op l r)
      → OptionRefines (binary and_op l r) (and_constants A same l r)
  and_constants-OptionRefines l r t =
      if-some _ (binary and_op l r) _ _
        (λ h.
          left-Refines A laws scope model fits and_op l r t
            λ x y lx ly hx hy. let e = known l 0 h hx in rw e (zero-ap_and A laws (type_of l) y ly))
        (if-some _ (binary and_op l r) _ _
          (λ h. right-Refines A laws scope model fits and_op l r t λ x y lx ly hx hy.
            let e = known r 0 h hy in
            ap_and_comm A laws (type_of l) x y lx ly ∙ rw e (zero-ap_and A laws (type_of l) x lx))
          (if-some _ (binary and_op l r) _ _
            (λ h. right-Refines A laws scope model fits and_op l r t λ x y lx ly hx hy.
              let e = ones_value l (type_of l) x h hx in rw e (ones-ap_and A laws (type_of l) y ly))
            (if-some _ (binary and_op l r) _ _
              (λ h. left-Refines A laws scope model fits and_op l r t λ x y lx ly hx hy.
                let e = ones_value r (type_of l) y h hy in
                ap_and_comm A laws (type_of l) x y lx ly
                ∙ rw e (ones-ap_and A laws (type_of l) x lx))
              (fold-OptionRefines and_op l r t))))

  pub or_constants-OptionRefines :
      (l r : Op)
      → IsTyped scope (binary or_op l r)
      → OptionRefines (binary or_op l r) (or_constants A same l r)
  or_constants-OptionRefines l r t =
      if-some _ (binary or_op l r) _ _
        (λ h.
          right-Refines A laws scope model fits or_op l r t
            λ x y lx ly hx hy. let e = known l 0 h hx in rw e (zero-ap_or A laws (type_of l) y ly))
        (if-some _ (binary or_op l r) _ _
          (λ h. left-Refines A laws scope model fits or_op l r t λ x y lx ly hx hy.
            let e = known r 0 h hy in
            ap_or_comm A laws (type_of l) x y lx ly ∙ rw e (zero-ap_or A laws (type_of l) x lx))
          (if-some _ (binary or_op l r) _ _
            (λ h. left-Refines A laws scope model fits or_op l r t λ x y lx ly hx hy.
              let e = ones_value l (type_of l) x h hx in rw e (ones-ap_or A laws (type_of l) y ly))
            (if-some _ (binary or_op l r) _ _
              (λ h. right-Refines A laws scope model fits or_op l r t λ x y lx ly hx hy.
                let e = ones_value r (type_of l) y h hy in
                ap_or_comm A laws (type_of l) x y lx ly ∙ rw e (ones-ap_or A laws (type_of l) x lx))
              (fold-OptionRefines or_op l r t))))

  pub shl_constants-OptionRefines :
      (l r : Op)
      → IsTyped scope (binary shl_op l r)
      → OptionRefines (binary shl_op l r) (shl_constants A same l r)
  shl_constants-OptionRefines l r t =
      if-some _ (binary shl_op l r) _ _
        (λ h. left-Refines A laws scope model fits shl_op l r t λ x y lx ly hx hy.
          elim (||-true (is_constant_int l 0) (is_constant_int r 0) h) [
            | inl p ↦ (let e = known l 0 p hx in rw e (zero-ap_shl A laws (type_of l) y))
            | inr p ↦ (let e = known r 0 p hy in rw e (ap_shl-zero A laws (type_of l) x lx))
          ])
        (fold-OptionRefines shl_op l r t)

  -- The value of a BinaryOp from those of its operands.
  pub binary-value :
      (o : Binop) (l r : Op) (w x y : ℕ)
      → eval A model l ≡ done (int w x)
      → eval A model r ≡ done (int w y)
      → eval A model (binary o l r) ≡ done (int w (binary_bits A o w x y))
  binary-value o l r w x y hx hy = rw (hx, hy, ==_refl w) refl

  -- And the values of its operands, where it has one.
  pub operand_values :
      (o : Binop) (l r : Op) (w y : ℕ)
      → IsTyped scope (binary o l r)
      → eval A model (binary o l r) ≡ done (int w y)
      → (a : ℕ) × (b : ℕ) × (type_of l ≡ w)
        × (a < 2 ^ w)
        × (b < 2 ^ w)
        × (eval A model l ≡ done (int w a))
        × (eval A model r ≡ done (int w b))
        × (y ≡ binary_bits A o w a b)
  operand_values o l r w y (ul, ur, e) h =
      let (a, ha, rest) = >>=-eq-done (eval A model l) _ h in
      let (b, hb, last) = >>=-eq-done (eval A model r) _ rest in
      pair a b ha hb (eval-Fits A laws scope model fits l a ul ha)
        (subst (λ k. Fits k b) (sym e) (eval-Fits A laws scope model fits r b ur hb)) last
    where
      pair :
          (a b : Value)
          → eval A model l ≡ done a
          → eval A model r ≡ done b
          → Fits (type_of l) a
          → Fits (type_of l) b
          → bv_binary A o a b ≡ done (int w y)
          → (a : ℕ) × (b : ℕ) × (type_of l ≡ w)
            × (a < 2 ^ w)
            × (b < 2 ^ w)
            × (eval A model l ≡ done (int w a))
            × (eval A model r ≡ done (int w b))
            × (y ≡ binary_bits A o w a b)
      pair (int u p) (int v q) ha hb (eu, lp) (ev, lq) last =
          let run : bv_binary A o (int u p) (int v q) ≡ done (int u (binary_bits A o u p q)) =
            rw (eu, ev, ==_refl (type_of l)) refl in
          let both = int-injective (done-injective (sym run ∙ last)) in
          let width : type_of l ≡ w = sym eu ∙ both.0 in
          (
            p,
            q,
            width,
            subst (λ k. p < 2 ^ k) width lp,
            subst (λ k. q < 2 ^ k) width lq,
            ha ∙ ap (λ k. done (int k p)) both.0,
            hb ∙ ap (λ k. done (int k q)) (ev ∙ width),
            sym both.1 ∙ ap (λ k. binary_bits A o k p q) both.0,
          )
