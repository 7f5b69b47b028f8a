-- ===== src/Ir/Eval.antt =====
-- ModelEvaluator of src/Solver/ModelEval.cpp on the integer operations. A model is what
-- `Model::lookup` answers; `none` is the empty value.
use caffeine.Prelude.{
  ◌==◌, if◌then◌else◌, Outcome, done, fault, ◌>>=◌, ℕ, Bool, not, Option, none, some,
}
use caffeine.Apint.{ApInt}
use caffeine.Ir.Operation.{
  Op, constant_int, constant, undef, binary, unary, icmp, select, Unop, not_op, trunc_op, zext_op,
  sext_op, IcmpOpcode, cmp_eq, cmp_ne,
}
use caffeine.Ir.Value.{Value, int, bv_binary, bv_not, bv_trunc, bv_zext, bv_sext, equal, of_bool}

-- A symbol that the model does not hold has a default value.
abbrev pub visit_constant : ℕ → Option Value → Value
visit_constant w none = int w 0
visit_constant w (some v) = v

abbrev pub visit_unary : ApInt → Unop → ℕ → Value → Outcome Value
visit_unary A not_op w v = bv_not A v
visit_unary A trunc_op w v = bv_trunc A v w
visit_unary A zext_op w v = bv_zext A v w
visit_unary A sext_op w v = bv_sext A v w

-- The comparisons other than these two are not implemented.
abbrev pub visit_compare : IcmpOpcode → Value → Value → Outcome Value
visit_compare cmp_eq a b = equal a b >>= of_bool
visit_compare cmp_ne a b = equal a b >>= λ e. of_bool (not e)
visit_compare _ a b = fault

-- `condition.apint() == 1`
abbrev pub is_one : Value → Bool
is_one (int w x) = x == 1

-- Both branches of a select are values of the expression, one of which is read.
abbrev pub eval : ApInt → (ℕ → Option Value) → Op → Outcome Value
eval A model (constant_int w v) = done (int w v)
eval A model (constant w n) = done (visit_constant w (model n))
eval A model (undef w) = fault
eval A model (binary o l r) = eval A model l >>= λ a. eval A model r >>= λ b. bv_binary A o a b
eval A model (unary o w x) = eval A model x >>= visit_unary A o w
eval A model (icmp c l r) = eval A model l >>= λ a. eval A model r >>= λ b. visit_compare c a b
eval A model (select c t f) =
    let true_value = eval A model t in
    let false_value = eval A model f in
    eval A model c >>= λ v. if is_one v then true_value else false_value
