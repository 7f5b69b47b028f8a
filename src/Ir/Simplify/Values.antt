-- ===== src/Ir/Simplify/Values.antt =====
-- The values of typed operations, and how a visit of a BinaryOp is shown to keep its promise.
use caffeine.Prelude.{ltb→lt}
use caffeine.Prelude.{
  ltb, if◌then◌else◌, ==_refl, Outcome, done, fault, ◌>>=◌, done-injective, >>=-eq-done, ℕ, ◌^◌,
  ◌<◌, ◌≡◌, refl, sym, ap, ◌∙◌, subst, ◌⊎◌, inl, inr, Bool, true, false, not, ◌&&◌, ◌||◌, Option,
  none, some, arith,
}
use caffeine.Prelude.Bits.{pow_pos}
use caffeine.Apint.{ApInt, ApIntLaws}
use caffeine.Apint.Bounds.{ap_sext-lt, pow_mono}
use caffeine.Ir.Operation.{
  Binop, Unop, not_op, trunc_op, zext_op, sext_op, UnaryFits, IcmpOpcode, cmp_eq, cmp_ne, cmp_uge,
  cmp_ugt, cmp_ule, cmp_ult, cmp_sge, cmp_sgt, cmp_sle, cmp_slt, Op, constant_int, constant, undef,
  binary, unary, icmp, select, type_of, IsTyped, type_pos,
}
use caffeine.Ir.Value.{Value, int, binary_bits, bv_binary, of_bool, equal}
use caffeine.Ir.Eval.{eval, visit_unary, visit_compare, is_one, visit_constant}
use caffeine.Ir.Simplify.{is_undef, is_constant_int, try_const_int, or_else}
use caffeine.Ir.Simplify.Contract.{
  Fits, ModelFits, Refines, is_constant_int-eq, is_undef-eq, int-injective, binary_bits-lt,
  bv_binary-Fits,
}
use native.Mathlib.Nat.{mod-lt}

pub ||-true : (a b : Bool) → (a || b) ≡ true → (a ≡ true) ⊎ (b ≡ true)
||-true true b h = inl refl
||-true false b h = inr h

pub &&-true : (a b : Bool) → (a && b) ≡ true → (a ≡ true) × (b ≡ true)
&&-true true b h = (refl, h)
&&-true false b h = cc

if-done : (b : Bool) (a v : Value) → (if b then done a else fault) ≡ done v → (b ≡ true) × (a ≡ v)
if-done true a v h = (refl, done-injective h)
if-done false a v h = cc

if-value :
    (b : Bool) (s t : Outcome Value) (v : Value)
    → (if b then s else t) ≡ done v
    → (s ≡ done v) ⊎ (t ≡ done v)
if-value true s t v h = inl h
if-value false s t v h = inr h

of_bool-Fits : (b : Bool) (v : Value) → of_bool b ≡ done v → Fits 1 v
of_bool-Fits true v h = subst (Fits 1) (done-injective h) (refl, omega arith)
of_bool-Fits false v h = cc

equal-of_bool :
    (f : Bool → Bool) (a b v : Value) → (equal a b >>= λ e. of_bool (f e)) ≡ done v → Fits 1 v
equal-of_bool f a b v h =
    let (e, _, he) = >>=-eq-done (equal a b) (λ e. of_bool (f e)) h in of_bool-Fits (f e) v he

visit_compare-Fits : (c : IcmpOpcode) (a b v : Value) → visit_compare c a b ≡ done v → Fits 1 v
visit_compare-Fits cmp_eq a b v h = equal-of_bool (λ e. e) a b v h
visit_compare-Fits cmp_ne a b v h = equal-of_bool not a b v h
visit_compare-Fits cmp_uge a b v h = cc
visit_compare-Fits cmp_ugt a b v h = cc
visit_compare-Fits cmp_ule a b v h = cc
visit_compare-Fits cmp_ult a b v h = cc
visit_compare-Fits cmp_sge a b v h = cc
visit_compare-Fits cmp_sgt a b v h = cc
visit_compare-Fits cmp_sle a b v h = cc
visit_compare-Fits cmp_slt a b v h = cc

module _ (A : ApInt) (laws : ApIntLaws A) where
  visit_unary-Fits :
      (o : Unop) (w u : ℕ) (a v : Value)
      → Fits u a
      → UnaryFits o w u
      → visit_unary A o w a ≡ done v
      → Fits w v
  visit_unary-Fits not_op w u (int t x) v (e, lx) fits h =
      let below : A.ap_not t x < 2 ^ w =
        rw (fits, sym e) (omega (arith, laws.not_law t x (rw e lx), pow_pos t)) in
      subst (Fits w) (done-injective h) (e ∙ sym fits, below)
  visit_unary-Fits trunc_op w u (int t x) v (e, lx) fits h =
      let lt = ltb→lt w t ((if-done (ltb w t) _ v h).0) in
      let below : A.ap_trunc t w x < 2 ^ w =
        omega (arith, laws.trunc_law t w x (rw e lx) lt, mod-lt x (pow_pos w)) in
      subst (Fits w) ((if-done (ltb w t) _ v h).1) (refl, below)
  visit_unary-Fits zext_op w u (int t x) v (e, lx) fits h =
      let lt = ltb→lt t w ((if-done (ltb t w) _ v h).0) in
      let below : A.ap_zext t w x < 2 ^ w =
        omega (arith, laws.zext_law t w x (rw e lx) lt, pow_mono u w fits) in
      subst (Fits w) ((if-done (ltb t w) _ v h).1) (refl, below)
  visit_unary-Fits sext_op w u (int t x) v (e, lx) fits h =
      let lt = ltb→lt t w ((if-done (ltb t w) _ v h).0) in
      let below : A.ap_sext t w x < 2 ^ w = ap_sext-lt A laws t w x (rw e lx) lt in
      subst (Fits w) ((if-done (ltb t w) _ v h).1) (refl, below)

  module _ (scope : ℕ → ℕ) (model : ℕ → Option Value) (fits : ModelFits scope model) where
    visit_constant-Fits :
        (w : ℕ) (found : Option Value)
        → ((v : Value) → found ≡ some v → Fits w v)
        → Fits w (visit_constant w found)
    visit_constant-Fits w none h = (refl, pow_pos w)
    visit_constant-Fits w (some v) h = h v refl

    -- With APInt as documented: where a typed operation has a value, in a model whose symbols
    -- have values of their widths, the value is a number of the width that the type of the
    -- operation says.
    pub eval-Fits :
        (op : Op) (v : Value) → IsTyped scope op → eval A model op ≡ done v → Fits (type_of op) v
    eval-Fits (constant_int w x) v (pos, lx) h = subst (Fits w) (done-injective h) (refl, lx)
    eval-Fits (constant w n) v (pos, e) h =
        let found : (a : Value) → model n ≡ some a → Fits w a =
          λ a p. subst (λ k. Fits k a) e (fits n a p) in
        subst (Fits w) (done-injective h) (visit_constant-Fits w (model n) found)
    eval-Fits (undef w) v t h = cc
    eval-Fits (binary o l r) v (ul, ur, e) h =
        let (a, ha, rest) = >>=-eq-done (eval A model l) _ h in
        let (b, hb, last) = >>=-eq-done (eval A model r) _ rest in
        bv_binary-Fits A laws o (type_of l) a b v (type_pos scope l ul) (eval-Fits l a ul ha)
          (subst (λ k. Fits k b) (sym e) (eval-Fits r b ur hb)) last
    eval-Fits (unary o w x) v (pos, tx, f) h =
        let (a, ha, last) = >>=-eq-done (eval A model x) _ h in
        visit_unary-Fits o w (type_of x) a v (eval-Fits x a tx ha) f last
    eval-Fits (icmp c l r) v (ul, ur, e) h =
        let (a, ha, rest) = >>=-eq-done (eval A model l) _ h in
        let (b, hb, last) = >>=-eq-done (eval A model r) _ rest in visit_compare-Fits c a b v last
    eval-Fits (select c t f) v (tc, tt', tf, ec, et) h =
        let (a, ha, last) = >>=-eq-done (eval A model c) _ h in
        elim (if-value (is_one a) _ _ v last) [
          | inl p ↦ eval-Fits t v tt' p
          | inr p ↦ subst (λ k. Fits k v) (sym et) (eval-Fits f v tf p)
        ]

    -- A BinaryOp may be replaced by an operation that has its value wherever both operands do.
    pub binary-Refines :
        (o : Binop) (l r op' : Op)
        → IsTyped scope (binary o l r)
        → IsTyped scope op'
        → type_of op' ≡ type_of l
        → ((x y : ℕ)
            → x < 2 ^ type_of l
            → y < 2 ^ type_of l
            → eval A model l ≡ done (int (type_of l) x)
            → eval A model r ≡ done (int (type_of l) y)
            → eval A model op' ≡ done (int (type_of l) (binary_bits A o (type_of l) x y)))
        → Refines A scope model (binary o l r) op'
    binary-Refines o l r op' (ul, ur, e) t' et step = (t', et, λ v h. at v h)
      where
        pair :
            (a b v : Value)
            → eval A model l ≡ done a
            → eval A model r ≡ done b
            → Fits (type_of l) a
            → Fits (type_of l) b
            → bv_binary A o a b ≡ done v
            → eval A model op' ≡ done v
        pair (int u x) (int t y) v ha hb (eu, lx) (et, ly) h =
            let la : eval A model l ≡ done (int (type_of l) x) = ha ∙ ap (λ k. done (int k x)) eu in
            let lb : eval A model r ≡ done (int (type_of l) y) = hb ∙ ap (λ k. done (int k y)) et in
            let w = type_of l in
            let run : bv_binary A o (int u x) (int t y) ≡ done (int w (binary_bits A o w x y)) =
              rw (eu, et, ==_refl w) refl in
            step x y lx ly la lb ∙ sym run ∙ h

        at : (v : Value) → eval A model (binary o l r) ≡ done v → eval A model op' ≡ done v
        at v h =
            let (a, ha, rest) = >>=-eq-done (eval A model l) _ h in
            let (b, hb, last) = >>=-eq-done (eval A model r) _ rest in
            pair a b v ha hb (eval-Fits l a ul ha)
              (subst (λ k. Fits k b) (sym e) (eval-Fits r b ur hb)) last

    -- The constants that `is_constant_int` finds have the value that it names.
    pub is_constant_int-value :
        (op : Op) (n w x : ℕ)
        → is_constant_int op n ≡ true
        → eval A model op ≡ done (int w x)
        → x ≡ n
    is_constant_int-value op n w x h p =
        let (u, e) = is_constant_int-eq op n h in
        let same_value : eval A model op ≡ done (int u n) = rw e refl in
        (int-injective (done-injective (sym p ∙ same_value))).1

    pub is_undef-value : (op : Op) (v : Value) → is_undef op ≡ true → eval A model op ≡ done v → ⊥
    is_undef-value op v h p =
        let (w, e) = is_undef-eq op h in
        let stuck : eval A model op ≡ fault = rw e refl in absurd cc

    pub keep-Refines : (op : Op) → IsTyped scope op → Refines A scope model op op
    keep-Refines op t = (t, refl, λ v h. h)

    -- Folding two constants.
    pub fold-Refines :
        (o : Binop) (l r : Op)
        → IsTyped scope (binary o l r)
        → Refines A scope model
            (binary o l r)
            (or_else (try_const_int (binary_bits A o) l r) (binary o l r))
    fold-Refines o (constant_int w x) (constant_int v y) (ul, ur, e) =
        binary-Refines o (constant_int w x) (constant_int v y)
          (constant_int w (binary_bits A o w x y)) (ul, ur, e)
          (ul.0, binary_bits-lt A laws o w x y ul.0 ul.1 (rw e ur.1)) refl
          λ a b la lb ha hb.
            let ea : x ≡ a = (int-injective (done-injective ha)).1 in
            let eb : y ≡ b = (int-injective (done-injective hb)).1 in rw (ea, eb) refl
    fold-Refines o (constant_int w x) (constant v y) t = (t, refl, λ v h. h)
    fold-Refines o (constant_int w x) (undef v) t = (t, refl, λ v h. h)
    fold-Refines o (constant_int w x) (binary q l r) t = (t, refl, λ v h. h)
    fold-Refines o (constant_int w x) (unary q v y) t = (t, refl, λ v h. h)
    fold-Refines o (constant_int w x) (icmp c l r) t = (t, refl, λ v h. h)
    fold-Refines o (constant_int w x) (select c l r) t = (t, refl, λ v h. h)
    fold-Refines o (constant w x) r t = (t, refl, λ v h. h)
    fold-Refines o (undef w) r t = (t, refl, λ v h. h)
    fold-Refines o (binary q l s) r t = (t, refl, λ v h. h)
    fold-Refines o (unary q v y) r t = (t, refl, λ v h. h)
    fold-Refines o (icmp c l s) r t = (t, refl, λ v h. h)
    fold-Refines o (select c l s) r t = (t, refl, λ v h. h)

    pub if-Refines :
        (b : Bool) (op p q : Op)
        → (b ≡ true → Refines A scope model op p)
        → (b ≡ false → Refines A scope model op q)
        → Refines A scope model op (if b then p else q)
    if-Refines true op p q hp hq = hp refl
    if-Refines false op p q hp hq = hq refl

    -- An undefined operand has no value.
    pub undef-Refines :
        (o : Binop) (l r : Op)
        → IsTyped scope (binary o l r)
        → (is_undef l || is_undef r) ≡ true
        → Refines A scope model (binary o l r) (undef (type_of l))
    undef-Refines o l r (ul, ur, e) h =
        binary-Refines o l r (undef (type_of l)) (ul, ur, e) (type_pos scope l ul) refl
          λ x y lx ly hx hy. elim (||-true (is_undef l) (is_undef r) h) [
            | inl p ↦ absurd (is_undef-value l _ p hx)
            | inr p ↦ absurd (is_undef-value r _ p hy)
          ]

    pub left-Refines :
        (o : Binop) (l r : Op)
        → IsTyped scope (binary o l r)
        → ((x y : ℕ)
            → x < 2 ^ type_of l
            → y < 2 ^ type_of l
            → eval A model l ≡ done (int (type_of l) x)
            → eval A model r ≡ done (int (type_of l) y)
            → binary_bits A o (type_of l) x y ≡ x)
        → Refines A scope model (binary o l r) l
    left-Refines o l r (ul, ur, e) same_value =
        binary-Refines o l r l (ul, ur, e) ul refl
          λ x y lx ly hx hy.
            hx ∙ ap (λ k. done (int (type_of l) k)) (sym (same_value x y lx ly hx hy))

    pub right-Refines :
        (o : Binop) (l r : Op)
        → IsTyped scope (binary o l r)
        → ((x y : ℕ)
            → x < 2 ^ type_of l
            → y < 2 ^ type_of l
            → eval A model l ≡ done (int (type_of l) x)
            → eval A model r ≡ done (int (type_of l) y)
            → binary_bits A o (type_of l) x y ≡ y)
        → Refines A scope model (binary o l r) r
    right-Refines o l r (ul, ur, e) same_value =
        binary-Refines o l r r (ul, ur, e) ur (sym e)
          λ x y lx ly hx hy.
            hy ∙ ap (λ k. done (int (type_of l) k)) (sym (same_value x y lx ly hx hy))

    pub number-Refines :
        (o : Binop) (l r : Op) (n : ℕ)
        → IsTyped scope (binary o l r)
        → n < 2 ^ type_of l
        → ((x y : ℕ)
            → x < 2 ^ type_of l
            → y < 2 ^ type_of l
            → eval A model l ≡ done (int (type_of l) x)
            → eval A model r ≡ done (int (type_of l) y)
            → binary_bits A o (type_of l) x y ≡ n)
        → Refines A scope model (binary o l r) (constant_int (type_of l) n)
    number-Refines o l r n (ul, ur, e) below same_value =
        binary-Refines o l r (constant_int (type_of l) n) (ul, ur, e) (type_pos scope l ul, below)
          refl
          λ x y lx ly hx hy. ap (λ k. done (int (type_of l) k)) (sym (same_value x y lx ly hx hy))
