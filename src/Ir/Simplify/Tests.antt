-- ===== src/Ir/Simplify/Tests.antt =====
-- The simplifier on concrete operations, and its theorems at them.
use caffeine.Prelude.{fault}
use caffeine.Prelude.{
  if◌then◌else◌, done, fault, done-injective, ℕ, ◌^◌, ◌<◌, ◌≡◌, refl, ap, subst, ◌⊎◌, Bool, true,
  false, Option, none, some, arith,
}
use caffeine.Apint.Concrete.{concrete, concrete-ApIntLaws}
use caffeine.Ir.Operation.{
  add_op, udiv_op, and_op, shl_op, lshr_op, trunc_op, zext_op, cmp_eq, cmp_slt, Op, constant_int,
  constant, binary, unary, icmp, select, IsTyped,
}
use caffeine.Ir.Value.{Value, int}
use caffeine.Ir.Eval.{eval}
use caffeine.Ir.Simplify.{visit_udiv, create, visit_and, visit_shl}
use caffeine.Ir.Simplify.Visits.{holds, visit_icmp, visit_select, visit_zext}
use caffeine.Ir.Simplify.Contract.{Fits, ModelFits, Refines, Sound, int-injective}
use caffeine.Ir.Simplify.Values.{eval-Fits}
use caffeine.Ir.Simplify.Rewrites.{visit_and-Sound}
use caffeine.Ir.Simplify.Combined.{visit_shl-Sound}
use caffeine.Ir.Simplify.Comparisons.{visit_icmp-holds}
use caffeine.Ir.Simplify.Extensions.{visit_zext-Sound}
use caffeine.Ir.Simplify.Selects.{visit_select-Refines}
use caffeine.Ir.Simplify.Dispatch.{visit_binary, visit_binary-Sound}

-- No two references are the same object.
abbrev never : Op → Op → Bool
never a b = false

never-eq : (a b : Op) → never a b ≡ true → a ≡ b
never-eq a b h = cc

-- Symbols of eight bits, whose value is 200.
abbrev scope : ℕ → ℕ
scope n = 8

abbrev model : ℕ → Option Value
model n = some (int 8 200)

some_value : Value → Option Value → Value
some_value v none = v
some_value v (some a) = a

model-ModelFits : ModelFits scope model
unfolding some_value
model-ModelFits n v h = subst (Fits 8) (ap (some_value v) h) (refl, omega arith)

abbrev x : Op
x = constant 8 0

abbrev number : ℕ → Op
number n = constant_int 8 n

-- (and (lshr x 2) 15) becomes (lshr (and x 60) 2).
masked_shift :
    visit_and concrete never 9 (binary lshr_op x (number 2)) (number 15)
    ≡ done (binary lshr_op (binary and_op x (number 60)) (number 2))
masked_shift = refl

-- (shl (lshr x 3) 3) becomes (and x 248).
shifted :
    visit_shl concrete never 9 (binary lshr_op x (number 3)) (number 3)
    ≡ done (binary and_op x (number 248))
shifted = refl

-- A division of 0 by 0 is folded to 0, and evaluates to 255.
zero_by_zero_folded : visit_udiv concrete never (number 0) (number 0) ≡ number 0
zero_by_zero_folded = refl

zero_by_zero_value : eval concrete model (binary udiv_op (number 0) (number 0)) ≡ done (int 8 255)
zero_by_zero_value = refl

-- A comparison that does not hold has no value.
unequal_faults : eval concrete model (icmp cmp_eq (number 1) (number 2)) ≡ fault
unequal_faults = refl

abbrev byte : (n : ℕ) → n < 2 ^ 8 → IsTyped scope (number n)
byte n h = (omega arith, h)

abbrev symbol : IsTyped scope x
symbol = (omega arith, refl)

-- The value of a constant divisor is not 0.
one_nonzero : (w y : ℕ) → eval concrete model (number 1) ≡ done (int w y) → 0 < y
one_nonzero w y h = subst (λ k. 0 < k) ((int-injective (done-injective h)).1) (omega arith)

visit_binary-Sound_example :
    Sound concrete scope model
      (binary udiv_op x (number 1))
      (visit_binary concrete never 3 udiv_op x (number 1))
visit_binary-Sound_example =
    visit_binary-Sound concrete concrete-ApIntLaws never never-eq scope model model-ModelFits 3
      udiv_op x (number 1) (omega arith) (symbol, byte 1 (omega arith), refl) one_nonzero

visit_and-Sound_example :
    Sound concrete scope model
      (binary and_op (binary lshr_op x (number 2)) (number 15))
      (visit_and concrete never 9 (binary lshr_op x (number 2)) (number 15))
visit_and-Sound_example =
    visit_and-Sound concrete concrete-ApIntLaws never never-eq scope model model-ModelFits 9
      (binary lshr_op x (number 2)) (number 15) (omega arith)
      ((symbol, byte 2 (omega arith), refl), byte 15 (omega arith), refl)

visit_shl-Sound_example :
    Sound concrete scope model
      (binary shl_op (binary lshr_op x (number 3)) (number 3))
      (visit_shl concrete never 9 (binary lshr_op x (number 3)) (number 3))
visit_shl-Sound_example =
    visit_shl-Sound concrete concrete-ApIntLaws never never-eq scope model model-ModelFits 9
      (binary lshr_op x (number 3)) (number 3) (omega arith)
      ((symbol, byte 3 (omega arith), refl), byte 3 (omega arith), refl)

visit_zext-Sound_example :
    Sound concrete scope model (unary zext_op 8 (unary trunc_op 4 x)) (
      visit_zext concrete
        (create concrete never (visit_and concrete never 5))
        8
        (unary trunc_op 4 x))
    ⊎ (((k : ℕ) × (unary trunc_op 4 x ≡ constant_int 8 k))
        × (visit_zext concrete
              (create concrete never (visit_and concrete never 5))
              8
              (unary trunc_op 4 x)
            ≡ fault))
visit_zext-Sound_example =
    visit_zext-Sound concrete concrete-ApIntLaws never never-eq scope model model-ModelFits 5 8
      (unary trunc_op 4 x) (omega arith)
      (omega arith, (omega arith, symbol, omega arith), omega arith)

visit_icmp-holds_example :
    (visit_icmp concrete never cmp_slt (number 200) (number 3)
      ≡ icmp cmp_slt (number 200) (number 3))
    ⊎ (eval concrete model (visit_icmp concrete never cmp_slt (number 200) (number 3))
        ≡ done (int 1 (if holds cmp_slt 8 200 3 then 1 else 0)))
visit_icmp-holds_example =
    visit_icmp-holds concrete concrete-ApIntLaws never never-eq scope model model-ModelFits cmp_slt
      (number 200) (number 3) 8 200 3 refl refl

visit_select-Refines_example :
    Refines concrete scope model
      (select (constant_int 1 1) x (number 3))
      (visit_select never (constant_int 1 1) x (number 3))
visit_select-Refines_example =
    visit_select-Refines concrete concrete-ApIntLaws never never-eq scope model model-ModelFits
      (constant_int 1 1) x (number 3)
      ((omega arith, omega arith), symbol, byte 3 (omega arith), refl, refl)

eval-Fits_example : Fits 8 (int 8 203)
eval-Fits_example =
    eval-Fits concrete concrete-ApIntLaws scope model model-ModelFits (binary add_op x (number 3))
      (int 8 203) (symbol, byte 3 (omega arith), refl) refl
