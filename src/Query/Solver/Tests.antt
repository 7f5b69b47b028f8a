-- ===== src/Query/Solver/Tests.antt =====
-- Solver.cpp: all the layers over a solver that tries one model.
use caffeine.Prelude.{
  leb, ◌==◌, if◌then◌else◌, ==_iff, Bool-cases, Outcome, done, ◌>>=◌, done-injective, ℕ, ◌≡◌, refl,
  sym, ap, ◌∙◌, ◌↔◌, inl, inr, Bool, true, false, ◌&&◌, some, List, [], ◌∷◌,
}
use caffeine.Prelude.{In, All, map}
use caffeine.Apint.Concrete.{concrete, concrete-ApIntLaws}
use caffeine.Adt.FreeList.{no_head}
use caffeine.Adt.SparseVector.{
  value, collect, end, iterator_at, valid, skip, increment, to_list, begin,
}
use caffeine.Adt.SparseVector.Content.{to_list-values}
use caffeine.Ir.Operation.{cmp_ult, Op, constant_int, constant, icmp}
use caffeine.Ir.Denote.{denote}
use caffeine.Ir.Simplify.{is_constant_int}
use caffeine.Ir.Simplify.Values.{&&-true}
use caffeine.Model.AssertionList.{AssertionList, empty, unproven, mark_at, first_from}
use caffeine.Model.AssertionList.Insert.{listed}
use caffeine.Model.AssertionList.Denoted.{IsTrue}
use caffeine.Query.Solver.{
  sat, unsat, unknown, SolverResult, of_kind, Solver, build, check_of_resolve, canonicalize,
}
use caffeine.Query.Solver.Contract.{IsRight, IsRefuted, SameModels-refl, false-IsRefuted}
use caffeine.Query.Solver.Layers.{no_model, no_model-ModelFits}
use caffeine.Query.Solver.Satisfied.{AnswersSat, build-AnswersSat}
use caffeine.Query.Solver.Stack.{
  Layer, early_exit, interrupt, canonicalizing, slicing, make, build-IsRight,
}

abbrev never : Op → Op → Bool
never a b = false

never-eq : (a b : Op) → never a b ≡ true → a ≡ b
never-eq a b h = cc

abbrev in_order : List ℕ → List ℕ
in_order xs = xs

in_order-In : (x : ℕ) (xs : List ℕ) → In x (in_order xs) ↔ In x xs
in_order-In x xs = ((λ m. m), (λ m. m))

abbrev scope : ℕ → ℕ
scope n = 8

-- Every assertion is true where each symbol is 0.
abbrev all_true : List Op → Bool
all_true [] = true
all_true (op ∷ ops) = denote no_model op == 1 && all_true ops

all_true-All : (ops : List Op) → all_true ops ≡ true → All (IsTrue no_model) ops
all_true-All [] h = tt
all_true-All (op ∷ ops) h =
    let (first, rest) = &&-true (denote no_model op == 1) (all_true ops) h in
    ((==_iff (denote no_model op) 1).0 first, all_true-All ops rest)

abbrev trial : List Op → Op → SolverResult
trial ops extra =
    if is_constant_int extra 0
    then of_kind unsat
    else if all_true (extra ∷ ops)
    then record { kind = sat; model = some no_model }
    else of_kind unknown

abbrev by_trial : Unit {0} → AssertionList → Op → Outcome (SolverResult × AssertionList × Unit {0})
by_trial s l extra = to_list l.list >>= λ ops. done (trial ops extra, l, s)

abbrev base : Solver
base = record {
  State = Unit {0};
  start = tt;
  check = check_of_resolve by_trial;
  resolve = by_trial;
}

trial-unsat :
    (l : AssertionList) (extra : Op)
    → (trial (listed l) extra).kind ≡ unsat
    → IsRefuted scope l extra
trial-unsat l extra h = elim (Bool-cases (is_constant_int extra 0)) [
  | inl p ↦ false-IsRefuted scope l extra p
  | inr p ↦ elim (Bool-cases (all_true (extra ∷ listed l))) [
    | inl q ↦ (let k : sat ≡ unsat = sym (rw (p, q) refl) ∙ h in absurd cc)
    | inr q ↦ (let k : unknown ≡ unsat = sym (rw (p, q) refl) ∙ h in absurd cc)
  ]
]

trial-sat :
    (l : AssertionList) (extra : Op)
    → (trial (listed l) extra).kind ≡ sat
    → ((trial (listed l) extra).model ≡ some no_model)
      × All (IsTrue no_model) (listed l)
      × IsTrue no_model extra
trial-sat l extra h = elim (Bool-cases (is_constant_int extra 0)) [
  | inl p ↦ (let k : unsat ≡ sat = sym (rw p refl) ∙ h in absurd cc)
  | inr p ↦ elim (Bool-cases (all_true (extra ∷ listed l))) [
    | inl q ↦ (let all = all_true-All (extra ∷ listed l) q in (rw (p, q) refl, all.1, all.0))
    | inr q ↦ (let k : unknown ≡ sat = sym (rw (p, q) refl) ∙ h in absurd cc)
  ]
]

by_trial-run :
    (s : Unit {0}) (l : AssertionList) (extra : Op)
    → by_trial s l extra ≡ done (trial (listed l) extra, l, s)
by_trial-run s l extra = rw (to_list-values l.list) refl

check-run :
    (s : Unit {0}) (l : AssertionList) (extra : Op)
    → base.check s l extra ≡ done (of_kind (trial (listed l) extra).kind, l, s)
check-run s l extra = rw (by_trial-run s l extra) refl

abbrev Any : Unit {0} → Type 0
Any s = Unit {0}

base-IsRight : IsRight scope base
base-IsRight = (
  Any,
  tt,
  λ s l extra ok valid goal. (
    (
      of_kind (trial (listed l) extra).kind,
      l,
      s,
      check-run s l extra,
      tt,
      valid,
      SameModels-refl scope l,
      λ e. trial-unsat l extra e,
    ),
    (
      trial (listed l) extra,
      l,
      s,
      by_trial-run s l extra,
      tt,
      valid,
      SameModels-refl scope l,
      (λ e. trial-unsat l extra e),
      λ e.
          let (found, all, one) = trial-sat l extra e in
          (no_model, found, no_model-ModelFits scope, all, one),
    ),
  ),
)

-- Another thread sets the flag before the third call.
abbrev stops_third : ℕ → Bool
stops_third n = leb 2 n

abbrev layers : List Layer
layers = interrupt stops_third ∷ early_exit ∷ canonicalizing ∷ slicing ∷ []

build-IsRight_example : IsRight scope (build base (map (make concrete never in_order) layers))
build-IsRight_example =
    build-IsRight concrete concrete-ApIntLaws never never-eq scope in_order in_order-In base layers
      base-IsRight

-- The base solver answers SAT where its one model fits.
base-AnswersSat : AnswersSat concrete never scope base
base-AnswersSat s l extra out valid goal marked h e =
    let ran = sym (check-run s l extra) ∙ h in
    let (found, all, one) =
      trial-sat l extra
        (ap (λ (o : SolverResult × AssertionList × Unit {0}). o.0.kind) (done-injective ran) ∙ e) in
    (no_model, no_model-ModelFits scope, all, one)

abbrev three_layers : List Layer
three_layers = interrupt stops_third ∷ early_exit ∷ canonicalizing ∷ []

build-AnswersSat_example :
    AnswersSat concrete never scope (build base (map (make concrete never in_order) three_layers))
build-AnswersSat_example =
    build-AnswersSat concrete concrete-ApIntLaws never never-eq scope in_order in_order-In base
      three_layers ((λ e. cc), ((λ e. cc), ((λ e. cc), tt))) base-AnswersSat

-- x < 5, unsigned, not proven yet.
abbrev below_five : AssertionList
below_five = record {
  list = record {
    elements = value (icmp cmp_ult (constant 8 0) (constant_int 8 5)) ∷ [];
    size = 1;
    head = no_head;
  };
  lookup = icmp cmp_ult (constant 8 0) (constant_int 8 5) ∷ [];
  mark = 0;
}

-- The base solver is asked, and the flag has been read once.
answered_sat :
    (build base (map (make concrete never in_order) three_layers)).check
      (0, tt)
      below_five
      (constant_int 1 1)
    ≡ done (of_kind sat, below_five, (1, tt))
unfolding unproven mark_at first_from collect end iterator_at valid skip increment to_list begin
    canonicalize
answered_sat = refl

-- Nothing is left to prove: SAT without a call of the base solver.
answered_early :
    (build base (map (make concrete never in_order) three_layers)).check
      (0, tt)
      empty
      (constant_int 1 1)
    ≡ done (of_kind sat, empty, (1, tt))
unfolding unproven mark_at first_from collect end iterator_at
answered_early = refl

-- The third call reads a set flag.
stopped :
    (build base (map (make concrete never in_order) three_layers)).check
      (2, tt)
      below_five
      (constant_int 1 1)
    ≡ done (of_kind unknown, below_five, (3, tt))
stopped = refl
