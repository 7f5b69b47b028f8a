-- ===== src/Model/AssertionList/Tests.antt =====
-- AssertionList.cpp: runs on a conjunction, and the theorems at it.
use caffeine.Prelude.{
  done, ◌>>=◌, ℕ, zero, suc, ◌<◌, ◌≡◌, refl, ap, subst, ◌↔◌, inl, Bool, true, false, Option, none,
  some, arith, [], ◌∷◌,
}
use caffeine.Apint.Concrete.{concrete, concrete-ApIntLaws}
use caffeine.Adt.SparseVector.Holes.{IsWf, hole_of}
use caffeine.Adt.SparseVector.{hole, value, emplace_back}
use caffeine.Prelude.{In}
use caffeine.Adt.FreeList.{no_head}
use caffeine.Ir.Operation.{and_op, or_op, not_op, Op, constant, binary, unary, IsTyped}
use caffeine.Ir.Value.{Value, int}
use caffeine.Ir.Simplify.Contract.{Fits, ModelFits}
use caffeine.Model.AssertionList.{AssertionList, empty, insert}
use caffeine.Model.AssertionList.{restore, checkpoint, proven, unproven}
use caffeine.Model.AssertionList.Marked.{proven-unproven}
use caffeine.Adt.SparseVector.{values}
use caffeine.Prelude.{drop, ◌++◌}
use caffeine.Prelude.{List}
use caffeine.Model.AssertionList.Restore.{restore-insert}
use caffeine.Model.AssertionList.Insert.{listed, IsIndexed, AllHold, insert-Holds}

-- Symbols are told apart by their number, and nothing else is the same object.
abbrev never : Op → Op → Bool
never a b = false

never-eq : (a b : Op) → never a b ≡ true → a ≡ b
never-eq a b h = cc

abbrev scope : ℕ → ℕ
scope n = 1

abbrev model : ℕ → Option Value
model n = some (int 1 1)

some_value : Value → Option Value → Value
some_value v none = v
some_value v (some a) = a

model-ModelFits : ModelFits scope model
unfolding some_value
model-ModelFits n v h = subst (Fits 1) (ap (some_value v) h) (refl, omega arith)

abbrev p : Op
p = constant 1 0

abbrev q : Op
q = constant 1 1

-- p & !(!q | p)
abbrev conjunction : Op
conjunction = binary and_op p (unary not_op 1 (binary or_op (unary not_op 1 q) p))

-- The parts in the order in which the loop reaches them.
parts :
    (insert concrete never empty (conjunction ∷ []) >>= λ l. done (listed l))
    ≡ done (unary not_op 1 p ∷ q ∷ p ∷ [])
unfolding insert emplace_back
parts = refl

abbrev bit_of : (n : ℕ) → IsTyped scope (constant 1 n)
bit_of n = (omega arith, refl)

insert-Holds_example :
    (l' : AssertionList) × (insert concrete never empty (conjunction ∷ []) ≡ done l')
    × IsIndexed l'
    × (AllHold concrete concrete-ApIntLaws never never-eq scope model model-ModelFits (listed l')
        ↔ (AllHold concrete concrete-ApIntLaws never never-eq scope model model-ModelFits
              (listed empty)
            × AllHold concrete concrete-ApIntLaws never never-eq scope model model-ModelFits
                (conjunction ∷ [])))
insert-Holds_example =
    insert-Holds concrete concrete-ApIntLaws never never-eq scope model model-ModelFits empty
      (conjunction ∷ []) tt
      (
        (
          (bit_of 0, (omega arith, ((omega arith, bit_of 1, refl), bit_of 0, refl), refl), refl),
          refl,
        ),
        tt,
      )

-- A list from which the first assertion was erased.
abbrev erased : AssertionList
erased = record {
  list = record { elements = hole no_head ∷ value p ∷ []; size = 1; head = 0 };
  lookup = p ∷ [];
  mark = 0;
}

erased_covers : (i n : ℕ) → hole_of erased.list.elements i ≡ some n → In i (0 ∷ [])
erased_covers zero n h = inl refl
erased_covers (suc zero) n h = cc
erased_covers (suc (suc i)) n h = cc

erased_within : (i n : ℕ) → hole_of erased.list.elements i ≡ some n → i < 2
erased_within zero n h = omega arith
erased_within (suc zero) n h = cc
erased_within (suc (suc i)) n h = cc

erased-IsWf : IsWf erased.list
erased-IsWf = record {
  holes = record {
    cells = 0 ∷ [];
    chain = (refl, (no_head, refl, refl));
    distinct = (tt, tt);
    covers = erased_covers;
    within = erased_within;
    fits = omega arith;
  };
  counted = refl;
}

-- The list with one more assertion at its end.
abbrev extended : AssertionList
extended = record {
  list = record { elements = hole no_head ∷ value p ∷ value q ∷ []; size = 2; head = 0 };
  lookup = q ∷ p ∷ [];
  mark = 0;
}

insert_one_more : insert concrete never erased (q ∷ []) ≡ done extended
unfolding insert emplace_back
insert_one_more = refl

restore-insert_example :
    (l'' : AssertionList) × (restore concrete never extended (checkpoint concrete never erased)
      ≡ done l'')
    × (listed l'' ≡ listed erased)
    × (l''.mark ≡ erased.mark)
restore-insert_example = restore-insert concrete never erased (q ∷ []) extended insert_one_more

-- The mark on a hole: nothing is proven.
proven-unproven_example :
    (ps : List Op) × (us : List Op) × (proven concrete never extended ≡ done ps)
    × (unproven concrete never extended ≡ done us)
    × (us ≡ values (drop extended.mark extended.list.elements))
    × (ps ++ us ≡ listed extended)
proven-unproven_example = proven-unproven concrete never extended (omega arith)
