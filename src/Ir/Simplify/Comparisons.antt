-- ===== src/Ir/Simplify/Comparisons.antt =====
-- visitNot, visitTrunc, visitZExt, visitSExt, visitSelectOp and visitICmp keep the value.
use caffeine.Prelude.{
  ltb, leb, if◌then◌else◌, ==_refl, Bool-cases, Option-cases, done, done-injective, ℕ, ◌≡◌, refl,
  sym, ap, ◌∙◌, subst, ◌⊎◌, inl, inr, Bool, true, false, Option, some, arith,
}
use caffeine.Apint.{ApInt, ApIntLaws, offset}
use caffeine.Ir.Operation.{
  IcmpOpcode, cmp_eq, cmp_ne, cmp_uge, cmp_ugt, cmp_ule, cmp_ult, cmp_sge, cmp_sgt, cmp_sle,
  cmp_slt, Op, constant_int, constant, undef, binary, unary, icmp, select,
}
use caffeine.Ir.Value.{Value, int}
use caffeine.Ir.Eval.{eval}
use caffeine.Ir.Simplify.{is_undef, or_else}
use caffeine.Ir.Simplify.Contract.{ModelFits, int-injective}
use caffeine.Ir.Simplify.Values.{is_undef-value}
use caffeine.Ir.Simplify.Visits.{
  holds, constant_bool, is_reflexive, constant_int_compare, compare_constants, visit_icmp,
}

ltb_self : (x : ℕ) → ltb x x ≡ false
ltb_self x = ground arith

leb_self : (x : ℕ) → leb x x ≡ true
leb_self x = ground arith

-- An operand is in a comparison with itself as `is_reflexive` says.
holds_self : (c : IcmpOpcode) (w x : ℕ) → holds c w x x ≡ is_reflexive c
holds_self cmp_eq w x = ==_refl x
holds_self cmp_ne w x = rw (==_refl x) refl
holds_self cmp_uge w x = leb_self x
holds_self cmp_ugt w x = ltb_self x
holds_self cmp_ule w x = leb_self x
holds_self cmp_ult w x = ltb_self x
holds_self cmp_sge w x = leb_self (offset w x)
holds_self cmp_sgt w x = ltb_self (offset w x)
holds_self cmp_sle w x = leb_self (offset w x)
holds_self cmp_slt w x = ltb_self (offset w x)

module _ (A : ApInt) (laws : ApIntLaws A) (same : Op → Op → Bool)
    (same-eq : (a b : Op) → same a b ≡ true → a ≡ b) (scope : ℕ → ℕ) (model : ℕ → Option Value)
    (fits : ModelFits scope model) where
  compare-holds : (c : IcmpOpcode) (w x y : ℕ) → constant_int_compare A c w x y ≡ holds c w x y
  compare-holds cmp_eq w x y = refl
  compare-holds cmp_ne w x y = refl
  compare-holds cmp_uge w x y = laws.uge_law w x y
  compare-holds cmp_ugt w x y = laws.ugt_law w x y
  compare-holds cmp_ule w x y = laws.ule_law w x y
  compare-holds cmp_ult w x y = laws.ult_law w x y
  compare-holds cmp_sge w x y = laws.sge_law w x y
  compare-holds cmp_sgt w x y = laws.sgt_law w x y
  compare-holds cmp_sle w x y = laws.sle_law w x y
  compare-holds cmp_slt w x y = laws.slt_law w x y

  bool-value :
      (b d : Bool) → b ≡ d → eval A model (constant_bool b) ≡ done (int 1 (if d then 1 else 0))
  bool-value b d e = rw e refl

  constants-value :
      (c : IcmpOpcode) (l r op' : Op) (w x y : ℕ)
      → compare_constants A c l r ≡ some op'
      → eval A model l ≡ done (int w x)
      → eval A model r ≡ done (int w y)
      → eval A model op' ≡ done (int 1 (if holds c w x y then 1 else 0))
  constants-value c (constant_int v p) (constant_int u q) op' w x y found hx hy =
      let result : constant_bool (constant_int_compare A c v p q) ≡ op' =
        ap (λ o. or_else o op') found in
      let left = int-injective (done-injective hx) in
      let right = int-injective (done-injective hy) in
      let e : constant_int_compare A c v p q ≡ holds c w x y =
        compare-holds c v p q ∙ rw (left.0, left.1, right.1) refl in
      subst (λ k. eval A model k ≡ done (int 1 (if holds c w x y then 1 else 0))) result
        (bool-value _ _ e)
  constants-value c (constant_int v p) (constant u q) op' w x y found hx hy = cc
  constants-value c (constant_int v p) (undef u) op' w x y found hx hy = cc
  constants-value c (constant_int v p) (binary o a b) op' w x y found hx hy = cc
  constants-value c (constant_int v p) (unary o u a) op' w x y found hx hy = cc
  constants-value c (constant_int v p) (icmp o a b) op' w x y found hx hy = cc
  constants-value c (constant_int v p) (select o a b) op' w x y found hx hy = cc
  constants-value c (constant v p) r op' w x y found hx hy = cc
  constants-value c (undef v) r op' w x y found hx hy = cc
  constants-value c (binary o a b) r op' w x y found hx hy = cc
  constants-value c (unary o v a) r op' w x y found hx hy = cc
  constants-value c (icmp o a b) r op' w x y found hx hy = cc
  constants-value c (select o a b) r op' w x y found hx hy = cc

  -- With APInt as documented, `same` true of equal operations only, and a model whose symbols
  -- have values of their widths: in a model that gives both operands values of one width, a
  -- comparison that is simplified at its creation is either left as it is or becomes an
  -- operation whose value is the one bit that says whether the comparison holds, signed ones in
  -- two's complement.
  pub visit_icmp-holds :
      (c : IcmpOpcode) (l r : Op) (w x y : ℕ)
      → eval A model l ≡ done (int w x)
      → eval A model r ≡ done (int w y)
      → (visit_icmp A same c l r ≡ icmp c l r)
        ⊎ (eval A model (visit_icmp A same c l r) ≡ done (int 1 (if holds c w x y then 1 else 0)))
  visit_icmp-holds c l r w x y hx hy = elim (Option-cases (compare_constants A c l r)) [
    | inr (op', p) ↦ inr (rw p (constants-value c l r op' w x y p hx hy))
    | inl p ↦ elim (Bool-cases (same l r)) [
      | inl q ↦ elim (Bool-cases (is_undef l)) [
        | inl u ↦ absurd (is_undef-value A laws scope model fits l _ u hx)
        | inr u ↦
            (let e : y ≡ x =
                (int-injective
                  (done-injective (sym hy ∙ ap (eval A model) (sym (same-eq l r q)) ∙ hx))).1 in
              let answer : is_reflexive c ≡ holds c w x y =
                sym (holds_self c w x) ∙ ap (holds c w x) (sym e) in
              inr (rw (p, q, u) (bool-value (is_reflexive c) (holds c w x y) answer)))
      ]
      | inr q ↦ inl (rw (p, q) refl)
    ]
  ]
