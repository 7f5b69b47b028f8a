-- ===== src/Ir/Simplify/Widths.antt =====
-- visitNot, visitTrunc and visitSExt keep the value.
use caffeine.Prelude.{
  ltb, ◌==◌, if◌then◌else◌, ltb→lt, ==_iff, Bool-cases, done, fault, done-injective, >>=-eq-done, ℕ,
  ◌^◌, ◌<◌, ◌≡◌, refl, sym, ap, ◌∙◌, subst, inl, inr, ◌⊎◌, Bool, true, false, Option, arith,
}
use caffeine.Prelude.Bits.{pow_pos}
use caffeine.Apint.{ApInt, ApIntLaws}
use caffeine.Apint.Bounds.{ap_sext-lt}
use caffeine.Ir.Operation.{
  Unop, not_op, trunc_op, zext_op, sext_op, Op, constant_int, constant, undef, binary, unary, icmp,
  select, type_of, IsTyped,
}
use caffeine.Ir.Value.{Value, int, bv_not}
use caffeine.Ir.Eval.{eval, visit_unary}
use caffeine.Ir.Simplify.Contract.{Fits, ModelFits, Refines, Sound, int-injective}
use caffeine.Ir.Simplify.Values.{eval-Fits, if-Refines}
use native.Mathlib.Nat.{mod-lt}
use caffeine.Ir.Simplify.Visits.{visit_not, visit_trunc, visit_sext}

module _ (A : ApInt) (laws : ApIntLaws A) (same : Op → Op → Bool)
    (same-eq : (a b : Op) → same a b ≡ true → a ≡ b) (scope : ℕ → ℕ) (model : ℕ → Option Value)
    (fits : ModelFits scope model) where
  -- A UnaryOp may be replaced by an operation that has its value wherever the operand has one.
  pub unary-Refines :
      (o : Unop) (w : ℕ) (x op' : Op)
      → IsTyped scope (unary o w x)
      → IsTyped scope op'
      → type_of op' ≡ w
      → ((k : ℕ) (v : Value)
          → k < 2 ^ type_of x
          → eval A model x ≡ done (int (type_of x) k)
          → visit_unary A o w (int (type_of x) k) ≡ done v
          → eval A model op' ≡ done v)
      → Refines A scope model (unary o w x) op'
  unary-Refines o w x op' (pos, ux, e) typed width step = (typed, width, at)
    where
      pair :
          (a v : Value)
          → eval A model x ≡ done a
          → Fits (type_of x) a
          → visit_unary A o w a ≡ done v
          → eval A model op' ≡ done v
      pair (int u k) v ha (eu, lk) h =
          step k v lk (ha ∙ ap (λ n. done (int n k)) eu)
            (subst (λ n. visit_unary A o w (int n k) ≡ done v) eu h)

      at : (v : Value) → eval A model (unary o w x) ≡ done v → eval A model op' ≡ done v
      at v h =
          let (a, ha, last) = >>=-eq-done (eval A model x) _ h in
          pair a v ha (eval-Fits A laws scope model fits x a ux ha) last

  -- The evaluation asserts that the widths differ, so nothing is asked of one that is kept.
  pub strict_value :
      (b : Bool) (a v : Value) → b ≡ false → (if b then done a else fault) ≡ done v → ⊥
  strict_value true a v e h = absurd cc
  strict_value false a v e h = absurd cc

  pub guarded : (b : Bool) (a v : Value) → (if b then done a else fault) ≡ done v → a ≡ v
  guarded true a v h = done-injective h
  guarded false a v h = absurd cc

  pub guard_holds : (x y : ℕ) (a v : Value) → (if ltb x y then done a else fault) ≡ done v → x < y
  guard_holds x y a v h = elim (Bool-cases (ltb x y)) [
    | inl p ↦ ltb→lt x y p
    | inr p ↦ absurd (strict_value (ltb x y) a v p h)
  ]

  pub same_width : (w : ℕ) (x : Op) → (w == type_of x) ≡ true → w ≡ type_of x
  same_width w x h = (==_iff w (type_of x)).0 h

  trunc_kept-Refines :
      (w : ℕ) (x : Op)
      → IsTyped scope (unary trunc_op w x)
      → Refines A scope model
          (unary trunc_op w x)
          (if w == type_of x then x else unary trunc_op w x)
  trunc_kept-Refines w x (pos, ux, le) =
      if-Refines A laws scope model fits _ (unary trunc_op w x) _ _
        (λ h.
          unary-Refines trunc_op w x x (pos, ux, le) ux (sym (same_width w x h))
            λ k v lk hx last.
              let e = same_width w x h in
              let no : ltb w (type_of x) ≡ false = ground arith in
              absurd (strict_value (ltb w (type_of x)) _ v no last))
        λ h. ((pos, ux, le), refl, λ v p. p)

  sext_kept-Refines :
      (w : ℕ) (x : Op)
      → IsTyped scope (unary sext_op w x)
      → Refines A scope model (unary sext_op w x) (if w == type_of x then x else unary sext_op w x)
  sext_kept-Refines w x (pos, ux, le) =
      if-Refines A laws scope model fits _ (unary sext_op w x) _ _
        (λ h.
          unary-Refines sext_op w x x (pos, ux, le) ux (sym (same_width w x h))
            λ k v lk hx last.
              let e = same_width w x h in
              let no : ltb (type_of x) w ≡ false = ground arith in
              absurd (strict_value (ltb (type_of x) w) _ v no last))
        λ h. ((pos, ux, le), refl, λ v p. p)

  -- With APInt as documented, `same` true of equal operations only, and a model whose symbols
  -- have values of their widths: a truncation of a typed operand, simplified at its creation, ends
  -- in a typed operation that has the same value in every model that gives the original one, except
  -- that a constant of the width asked for fails the assertion of APInt.
  pub visit_trunc-Sound :
      (w : ℕ) (x : Op)
      → IsTyped scope (unary trunc_op w x)
      → Sound A scope model (unary trunc_op w x) (visit_trunc A w x)
        ⊎ (((k : ℕ) × (x ≡ constant_int w k)) × (visit_trunc A w x ≡ fault))
  visit_trunc-Sound w (constant_int u k) (pos, (pu, lk), le) = elim (Bool-cases (ltb w u)) [
    | inl p ↦
        (let lt = ltb→lt _ _ p in
          let below : A.ap_trunc u w k < 2 ^ w =
            omega (arith, laws.trunc_law u w k lk lt, mod-lt k (pow_pos w)) in
          inl (
            rw p (
              constant_int w (A.ap_trunc u w k),
              refl,
              ((pos, below), refl, λ v h. ap done (guarded true _ v h)),
            )))
    | inr p ↦ (let e : u ≡ w = ground arith in inr ((k, ap (λ n. constant_int n k) e), rw p refl))
  ]
  visit_trunc-Sound w (constant v y) t = inl (_, refl, trunc_kept-Refines w (constant v y) t)
  visit_trunc-Sound w (undef v) t = inl (_, refl, trunc_kept-Refines w (undef v) t)
  visit_trunc-Sound w (binary q a b) t = inl (_, refl, trunc_kept-Refines w (binary q a b) t)
  visit_trunc-Sound w (unary q v a) t = inl (_, refl, trunc_kept-Refines w (unary q v a) t)
  visit_trunc-Sound w (icmp q a b) t = inl (_, refl, trunc_kept-Refines w (icmp q a b) t)
  visit_trunc-Sound w (select q a b) t = inl (_, refl, trunc_kept-Refines w (select q a b) t)

  -- With APInt as documented, `same` true of equal operations only, and a model whose symbols
  -- have values of their widths: a sign extension of a typed operand, simplified at its creation, ends
  -- in a typed operation that has the same value in every model that gives the original one, except
  -- that a constant of the width asked for fails the assertion of APInt.
  pub visit_sext-Sound :
      (w : ℕ) (x : Op)
      → IsTyped scope (unary sext_op w x)
      → Sound A scope model (unary sext_op w x) (visit_sext A w x)
        ⊎ (((k : ℕ) × (x ≡ constant_int w k)) × (visit_sext A w x ≡ fault))
  visit_sext-Sound w (constant_int u k) (pos, (pu, lk), le) = elim (Bool-cases (ltb u w)) [
    | inl p ↦
        (let lt = ltb→lt _ _ p in
          let below = ap_sext-lt A laws u w k lk lt in
          inl (
            rw p (
              constant_int w (A.ap_sext u w k),
              refl,
              ((pos, below), refl, λ v h. ap done (guarded true _ v h)),
            )))
    | inr p ↦ (let e : u ≡ w = ground arith in inr ((k, ap (λ n. constant_int n k) e), rw p refl))
  ]
  visit_sext-Sound w (constant v y) t = inl (_, refl, sext_kept-Refines w (constant v y) t)
  visit_sext-Sound w (undef v) t = inl (_, refl, sext_kept-Refines w (undef v) t)
  visit_sext-Sound w (binary q a b) t = inl (_, refl, sext_kept-Refines w (binary q a b) t)
  visit_sext-Sound w (unary q v a) t = inl (_, refl, sext_kept-Refines w (unary q v a) t)
  visit_sext-Sound w (icmp q a b) t = inl (_, refl, sext_kept-Refines w (icmp q a b) t)
  visit_sext-Sound w (select q a b) t = inl (_, refl, sext_kept-Refines w (select q a b) t)

  ap_not_ap_not : (w k : ℕ) → k < 2 ^ w → A.ap_not w (A.ap_not w k) ≡ k
  ap_not_ap_not w k lk =
      let first = laws.not_law w k lk in
      let below : A.ap_not w k < 2 ^ w = omega (arith, first, pow_pos w) in
      omega (arith, first, laws.not_law w (A.ap_not w k) below)

  not_not-Refines :
      (w u : ℕ) (x : Op)
      → IsTyped scope (unary not_op w (unary not_op u x))
      → Refines A scope model (unary not_op w (unary not_op u x)) x
  not_not-Refines w u x (pos, (pu, ux, eu), ew) =
      unary-Refines not_op w (unary not_op u x) x (pos, (pu, ux, eu), ew) ux (sym (ew ∙ eu))
        λ k v lk hx last.
          let (a, ha, inner) = >>=-eq-done (eval A model x) _ hx in
          inner_value a k v ha (eval-Fits A laws scope model fits x a ux ha) inner last
    where
      inner_value :
          (a : Value) (k : ℕ) (v : Value)
          → eval A model x ≡ done a
          → Fits (type_of x) a
          → bv_not A a ≡ done (int u k)
          → bv_not A (int u k) ≡ done v
          → eval A model x ≡ done v
      inner_value (int t j) k v ha (et, lj) h last =
          let both = int-injective (done-injective h) in
          let back : A.ap_not u k ≡ j =
            ap (A.ap_not u) (sym both.1)
            ∙ ap (λ n. A.ap_not n (A.ap_not t j)) (sym both.0)
            ∙ ap_not_ap_not t j (rw et lj) in
          ha ∙ ap done (ap (λ n. int n j) both.0 ∙ ap (int u) (sym back)) ∙ last

  -- With APInt as documented, `same` true of equal operations only, and a model whose symbols
  -- have values of their widths: a complement of a typed operand, simplified at its creation,
  -- stays typed and has the same value in every model that gives the original one.
  pub visit_not-Refines :
      (w : ℕ) (x : Op)
      → IsTyped scope (unary not_op w x)
      → Refines A scope model (unary not_op w x) (visit_not A w x)
  visit_not-Refines w (constant_int u k) (pos, (pu, lk), e) =
      let below : A.ap_not u k < 2 ^ u = omega (arith, laws.not_law u k lk, pow_pos u) in
      ((pu, below), sym e, λ v h. h)
  visit_not-Refines w (unary not_op u x) t = not_not-Refines w u x t
  visit_not-Refines w (constant v y) t = (t, refl, λ v h. h)
  visit_not-Refines w (undef v) t = (t, refl, λ v h. h)
  visit_not-Refines w (binary q a b) t = (t, refl, λ v h. h)
  visit_not-Refines w (unary trunc_op v a) t = (t, refl, λ v h. h)
  visit_not-Refines w (unary zext_op v a) t = (t, refl, λ v h. h)
  visit_not-Refines w (unary sext_op v a) t = (t, refl, λ v h. h)
  visit_not-Refines w (icmp q a b) t = (t, refl, λ v h. h)
  visit_not-Refines w (select q a b) t = (t, refl, λ v h. h)
