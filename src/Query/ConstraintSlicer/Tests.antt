-- ===== src/Query/ConstraintSlicer/Tests.antt =====
-- ConstraintSlicer.cpp: a list with two proven assertions and an unproven one, and the theorems at it.
use caffeine.Prelude.{
  done, ◌>>=◌, ℕ, ◌^◌, ◌<◌, ◌≡◌, refl, ◌↔◌, inl, inr, Bool, true, false, Option, none, arith, List,
  [], ◌∷◌,
}
use caffeine.Prelude.{In, All}
use caffeine.Apint.Concrete.{concrete, concrete-ApIntLaws}
use caffeine.Adt.FreeList.{no_head}
use caffeine.Adt.SparseVector.{
  hole, value, emplace_back, begin, collect, collect_until, skip, end, increment, iterator_at,
  valid,
}
use caffeine.Ir.Operation.{cmp_eq, Op, constant_int, constant, icmp, IsTyped}
use caffeine.Ir.Value.{Value}
use caffeine.Ir.Simplify.Contract.{ModelFits}
use caffeine.Model.AssertionList.{AssertionList, insert, proven, unproven, mark_at, first_from}
use caffeine.Model.AssertionList.Decompose.{IsAssertion, Holds}
use caffeine.Model.AssertionList.Insert.{listed, IsIndexed, AllHold, Member}
use caffeine.Query.ConstraintSlicer.{
  slice, contained_constants, insert_known, insert_unproven, insert_each, cached, add,
  lookup_symbol, push_back,
}
use caffeine.Query.ConstraintSlicer.Symbols.{Occurs, IsCache, contained_constants-IsCache}
use caffeine.Query.ConstraintSlicer.Slice.{Shares, slice-Holds}

abbrev never : Op → Op → Bool
never a b = false

never-eq : (a b : Op) → never a b ≡ true → a ≡ b
never-eq a b h = cc

abbrev in_order : List ℕ → List ℕ
in_order xs = xs

in_order-In : (x : ℕ) (xs : List ℕ) → In x (in_order xs) ↔ In x xs
in_order-In x xs = ((λ m. m), (λ m. m))

abbrev scope : ℕ → ℕ
scope n = 8

abbrev model : ℕ → Option Value
model n = none

model-ModelFits : ModelFits scope model
model-ModelFits n v h = absurd cc

abbrev x : Op
x = constant 8 0

abbrev y : Op
y = constant 8 1

abbrev number : ℕ → Op
number n = constant_int 8 n

-- y = 1 and x = y are proven, x = 0 is not; there is a hole before them.
abbrev y_is_1 : Op
y_is_1 = icmp cmp_eq y (number 1)

abbrev x_is_y : Op
x_is_y = icmp cmp_eq x y

abbrev x_is_0 : Op
x_is_0 = icmp cmp_eq x (number 0)

abbrev three : AssertionList
three = record {
  list = record {
    elements = hole no_head ∷ value y_is_1 ∷ value x_is_y ∷ value x_is_0 ∷ [];
    size = 3;
    head = 0;
  };
  lookup = x_is_0 ∷ x_is_y ∷ y_is_1 ∷ [];
  mark = 3;
}

abbrev yes_bit : Op
yes_bit = constant_int 1 1

-- The slice has what shares x with the unproven assertion, and not what shares y with that.
one_hop :
    (slice concrete never in_order [] three yes_bit >>= λ out. done (listed out.0))
    ≡ done (x_is_0 ∷ x_is_y ∷ x_is_0 ∷ [])
unfolding slice proven unproven mark_at first_from begin collect collect_until skip end increment
    iterator_at valid insert insert_known insert_unproven insert_each contained_constants cached add
    lookup_symbol push_back emplace_back
one_hop = refl

-- A cache that has the symbols of y = 1.
abbrev one_entry : List (Op × List ℕ)
one_entry = (y_is_1, 1 ∷ []) ∷ []

one_entry-IsCache : IsCache concrete never never-eq in_order in_order-In one_entry
one_entry-IsCache = (λ z. at z, tt)
  where
    at : (z : ℕ) → In z (1 ∷ []) ↔ Occurs z y_is_1
    at z = (
      (λ m. elim m [ inl e ↦ inl e | inr n ↦ elim n [ ] ]),
      (λ o. elim o [ inl e ↦ inl e | inr n ↦ elim n [ ] ]),
    )

contained_constants-IsCache_example :
    ((z : ℕ)
      → In z (contained_constants concrete never in_order one_entry x_is_y).0 ↔ Occurs z x_is_y)
    × IsCache concrete never never-eq in_order in_order-In
        (contained_constants concrete never in_order one_entry x_is_y).1
contained_constants-IsCache_example =
    contained_constants-IsCache concrete never never-eq in_order in_order-In one_entry x_is_y
      one_entry-IsCache

abbrev IsGiven : Op → Type 0
IsGiven = IsAssertion concrete concrete-ApIntLaws never never-eq scope model model-ModelFits

bit_of_eight : (n : ℕ) → n < 2 ^ 8 → IsTyped scope (number n)
bit_of_eight n h = (omega arith, h)

All-IsGiven : All IsGiven (listed three)
All-IsGiven = (
  (((omega arith, refl), bit_of_eight 1 (omega arith), refl), refl),
  (
    (((omega arith, refl), (omega arith, refl), refl), refl),
    ((((omega arith, refl), bit_of_eight 0 (omega arith), refl), refl), tt),
  ),
)

abbrev AreHeld : List Op → Type 0
AreHeld ops = AllHold concrete concrete-ApIntLaws never never-eq scope model model-ModelFits ops

slice-Holds_example :
    (ps : List Op) × (us : List Op) × (l' : AssertionList) × (cache' : List (Op × List ℕ)) × (proven
        concrete never three
      ≡ done ps)
    × (unproven concrete never three ≡ done us)
    × (slice concrete never in_order one_entry three yes_bit ≡ done (l', cache'))
    × IsIndexed l'
    × IsCache concrete never never-eq in_order in_order-In cache'
    × (AreHeld (listed l') ↔ (
        AreHeld us
        × ((p : Op)
            → Member p ps
            → Shares yes_bit us p
            → Holds concrete concrete-ApIntLaws never never-eq scope model model-ModelFits p)))
    × (AreHeld (listed three) → AreHeld (listed l'))
slice-Holds_example =
    slice-Holds concrete concrete-ApIntLaws never never-eq scope model model-ModelFits in_order
      in_order-In one_entry three yes_bit one_entry-IsCache All-IsGiven (omega arith)
