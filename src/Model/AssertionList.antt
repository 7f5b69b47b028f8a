-- ===== src/Model/AssertionList.antt =====
-- AssertionList of src/Model/AssertionList.cpp. An assertion is an operation of one bit. The set
-- `lookup_` is a list; two assertions are the same where their operations are the same object.
pub mod Meaning
pub mod Decompose
pub mod Denoted
pub mod Insert
pub mod Restore
pub mod Marked
pub mod Keeps
mod Tests
use caffeine.Prelude.{
  ◌==◌, if◌then◌else◌, Outcome, done, fault, ◌>>=◌, ◌>>◌, ℕ, zero, suc, ◌+◌, Bool, true, false,
  ◌||◌, Option, none, some, List, [], ◌∷◌,
}
use caffeine.Adt.SparseVector.{
  SparseVector, emplace_back, compress, clear, erase, index, end, iterator_at, valid, increment,
  begin, collect, collect_until,
}
use caffeine.Adt.FreeList.{no_head}
use caffeine.Apint.{ApInt}
use caffeine.Ir.Operation.{
  and_op, or_op, not_op, Op, constant_int, constant, undef, binary, unary, icmp, select, type_of,
  size,
}
use caffeine.Ir.Simplify.{is_constant_int}
use caffeine.Ir.Simplify.Visits.{visit_not}

pub record AssertionList : Type 0 where
  pub list : SparseVector Op
  pub lookup : List Op
  pub mark : ℕ

abbrev pub empty : AssertionList
empty = record { list = record { elements = []; size = 0; head = no_head }; lookup = []; mark = 0 }

pub cleared : AssertionList → AssertionList
cleared l = record { list = clear l.list; lookup = []; mark = 0 }

pub mark_sat : AssertionList → AssertionList
mark_sat l =
    let list = compress l.list in record { list = list; lookup = l.lookup; mark = list.size }

-- The two rewrites of the loop: A & B, and !(A | B).
abbrev pub decompose : ApInt → Op → Option (Op × Op)
decompose A (binary and_op lhs rhs) = some (lhs, rhs)
decompose A (unary not_op w (binary or_op lhs rhs)) =
    some (visit_not A (type_of lhs) lhs, visit_not A (type_of rhs) rhs)
decompose A _ = none

-- The places that the loop takes for an operation: its operations of several operands, and one.
abbrev pub weight : Op → ℕ
weight (constant_int w v) = 1
weight (constant w n) = 1
weight (undef w) = 1
weight (binary o l r) = suc (weight l + weight r)
weight (unary o w x) = weight x
weight (icmp c l r) = suc (weight l + weight r)
weight (select c t f) = suc (weight c + weight t + weight f)

abbrev pub weights : List Op → ℕ
weights [] = 0
weights (op ∷ stack) = weight op + weights stack

module _ (A : ApInt) (same : Op → Op → Bool) where
  -- `lookup_.count`
  abbrev pub count : List Op → Op → Bool
  count [] op = false
  count (o ∷ ops) op = same o op || count ops op

  pub contains : AssertionList → Op → Bool
  contains l op = count l.lookup op

  -- The end of a round: `a` is the assertion that was given, `op` a part of it.
  abbrev pub insert_one : Op → Op → AssertionList → AssertionList
  insert_one a op l =
      if is_constant_int a 1
      then l
      else if count l.lookup op
      then l
      else record { list = (emplace_back l.list op).1; lookup = op ∷ l.lookup; mark = l.mark }

  -- The inner loop; `decomposed` has its last element first.
  abbrev pub insert_parts : ℕ → Op → List Op → AssertionList → Outcome AssertionList
  insert_parts zero a decomposed l = fault
  insert_parts (suc fuel) a [] l = done l
  insert_parts (suc fuel) a (op ∷ decomposed) l = elim (decompose A op) [
    | some (lhs, rhs) ↦ insert_parts fuel a (rhs ∷ lhs ∷ decomposed) l
    | none ↦ insert_parts fuel a decomposed (insert_one a op l)
  ]

  -- The fuel is one more than the weight of the assertion.
  unfoldable pub insert : AssertionList → List Op → Outcome AssertionList
  insert l [] = done l
  insert l (a ∷ assertions) =
      insert_parts (suc (weight a + 0)) a (a ∷ []) l >>= λ l'. insert l' assertions

  -- `lookup_.erase`
  abbrev pub erase_lookup : Op → List Op → List Op
  erase_lookup op [] = []
  erase_lookup op (o ∷ ops) = let rest = erase_lookup op ops in if same o op then rest else o ∷ rest

  pub erase_at : AssertionList → ℕ → Outcome AssertionList
  erase_at l i = do
    op ← index l.list i
    list ← erase l.list i
    done (record { list = list; lookup = erase_lookup op l.lookup; mark = l.mark })

  pub checkpoint : AssertionList → ℕ
  checkpoint l = end l.list

  -- The loop of `restore`, which erases and steps on.
  pub restore_from : ℕ → AssertionList → ℕ → Outcome AssertionList
  unfolding erase_at
  restore_from zero l i = fault
  restore_from (suc fuel) l i = elim (i == end l.list) [
    | true ↦ done l
    | false ↦ do l' ← erase_at l i; j ← increment l'.list i; restore_from fuel l' j
  ]

  -- The iterator at an index, moved on where it stands on a hole.
  unfoldable pub first_from : AssertionList → ℕ → Outcome ℕ
  first_from l i = elim (i == end l.list) [
    | true ↦ done i
    | false ↦ do here ← valid l.list i; if here then done i else increment l.list i
  ]

  pub restore : AssertionList → ℕ → Outcome AssertionList
  unfolding first_from restore_from
  restore l i = do
    it ← iterator_at l.list i
    first ← first_from l it
    restore_from (end l.list + 1) l first

  -- The loops over unproven() and proven().
  unfoldable pub mark_at : AssertionList → Outcome ℕ
  unfolding first_from
  mark_at l = iterator_at l.list l.mark >>= first_from l

  unfoldable pub unproven : AssertionList → Outcome (List Op)
  unfolding mark_at end
  unproven l = do it ← mark_at l; collect (end l.list + 1) l.list it

  unfoldable pub proven : AssertionList → Outcome (List Op)
  unfolding mark_at end
  proven l = do it ← mark_at l; first ← begin l.list; collect_until (end l.list + 1) l.list it first
