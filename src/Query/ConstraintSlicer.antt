-- ===== src/Query/ConstraintSlicer.antt =====
-- ConstraintSlicer of src/Query/ConstraintSlicer.cpp. Symbols are the numbers of the constants. The
-- maps are association lists, the set of symbols is a list without repetition, and `arrange` is
-- the order in which the set is read.
pub mod Symbols
pub mod Known
pub mod Loops
pub mod Slice
pub mod Keeps
mod Tests
use caffeine.Prelude.{
  ◌==◌, if◌then◌else◌, Outcome, done, ◌>>=◌, ◌>>◌, ℕ, Bool, false, ◌||◌, Option, none, some, List,
  [], ◌∷◌,
}
use caffeine.Prelude.{◌++◌}
use caffeine.Apint.{ApInt}
use caffeine.Ir.Operation.{Op, constant_int, constant, undef, binary, unary, icmp, select}
use caffeine.Model.AssertionList.{AssertionList, empty, insert, proven, unproven}

-- mapping_cache: the symbols of the operations that were asked for.
abbrev pub Cache : Type 0
Cache = List (Op × List ℕ)

-- The assertions that each symbol stands in.
abbrev pub KnownMap : Type 0
KnownMap = List (ℕ × List Op)

abbrev pub has : ℕ → List ℕ → Bool
has x [] = false
has x (y ∷ ys) = x == y || has x ys

-- unordered_set::insert, of one symbol and of a range.
pub add : ℕ → List ℕ → List ℕ
add x out = if has x out then out else x ∷ out

abbrev pub add_all : List ℕ → List ℕ → List ℕ
add_all [] out = out
add_all (x ∷ xs) out = add_all xs (add x out)

pub lookup_symbol : KnownMap → ℕ → Option (List Op)
lookup_symbol [] x = none
lookup_symbol ((y, ops) ∷ known) x =
    let rest = lookup_symbol known x in if x == y then some ops else rest

-- known[symbol].push_back(assertion)
pub push_back : KnownMap → ℕ → Op → KnownMap
push_back [] x op = (x, op ∷ []) ∷ []
push_back ((y, ops) ∷ known) x op =
    let rest = push_back known x op in
    if x == y then (y, ops ++ op ∷ []) ∷ known else (y, ops) ∷ rest

abbrev pub push_all : KnownMap → List ℕ → Op → KnownMap
push_all known [] op = known
push_all known (x ∷ xs) op = push_all (push_back known x op) xs op

module _ (A : ApInt) (same : Op → Op → Bool) (arrange : List ℕ → List ℕ) where
  pub cached : Cache → Op → Option (List ℕ)
  cached [] op = none
  cached ((o, symbols) ∷ cache) op =
      let rest = cached cache op in if same o op then some symbols else rest

  abbrev pub calc_contained_constants : Cache → Op → List ℕ → List ℕ
  calc_contained_constants cache (constant_int w v) out = elim (cached cache (constant_int w v)) [
    | some symbols ↦ add_all symbols out
    | none ↦ out
  ]
  calc_contained_constants cache (constant w n) out = elim (cached cache (constant w n)) [
    | some symbols ↦ add_all symbols out
    | none ↦ add n out
  ]
  calc_contained_constants cache (undef w) out = elim (cached cache (undef w)) [
    | some symbols ↦ add_all symbols out
    | none ↦ out
  ]
  calc_contained_constants cache (binary o l r) out = elim (cached cache (binary o l r)) [
    | some symbols ↦ add_all symbols out
    | none ↦ calc_contained_constants cache r (calc_contained_constants cache l out)
  ]
  calc_contained_constants cache (unary o w x) out = elim (cached cache (unary o w x)) [
    | some symbols ↦ add_all symbols out
    | none ↦ calc_contained_constants cache x out
  ]
  calc_contained_constants cache (icmp c l r) out = elim (cached cache (icmp c l r)) [
    | some symbols ↦ add_all symbols out
    | none ↦ calc_contained_constants cache r (calc_contained_constants cache l out)
  ]
  calc_contained_constants cache (select c t f) out = elim (cached cache (select c t f)) [
    | some symbols ↦ add_all symbols out
    | none ↦
        calc_contained_constants cache f
          (calc_contained_constants cache t (calc_contained_constants cache c out))
  ]

  pub contained_constants : Cache → Op → List ℕ × Cache
  contained_constants cache op = elim (cached cache op) [
    | some symbols ↦ (symbols, cache)
    | none ↦
        (let symbols = arrange (calc_contained_constants cache op []) in
          (symbols, (op, symbols) ∷ cache))
  ]

  -- The loop over proven().
  abbrev pub index_proven : Cache → List Op → KnownMap → KnownMap × Cache
  index_proven cache [] known = (known, cache)
  index_proven cache (op ∷ ops) known =
      let found = contained_constants cache op in
      index_proven found.1 ops (push_all known found.0 op)

  -- The assertions of the symbols that are found in the map.
  pub insert_known : KnownMap → List ℕ → AssertionList → Outcome AssertionList
  insert_known known [] list = done list
  insert_known known (x ∷ xs) list = elim (lookup_symbol known x) [
    | some ops ↦ insert A same list ops >>= insert_known known xs
    | none ↦ insert_known known xs list
  ]

  -- The first loop over unproven().
  pub insert_unproven : KnownMap → Cache → List Op → AssertionList → Outcome (AssertionList × Cache)
  insert_unproven known cache [] list = done (list, cache)
  insert_unproven known cache (op ∷ ops) list = do
    list' ← insert A same list (op ∷ [])
    let found = contained_constants cache op
    list'' ← insert_known known found.0 list'
    insert_unproven known found.1 ops list''

  -- The last loop.
  pub insert_each : List Op → AssertionList → Outcome AssertionList
  insert_each [] list = done list
  insert_each (op ∷ ops) list = insert A same list (op ∷ []) >>= insert_each ops

  pub slice : Cache → AssertionList → Op → Outcome (AssertionList × Cache)
  slice cache assertions extra = do
    ps ← proven A same assertions
    let indexed = index_proven cache ps []
    us ← unproven A same assertions
    (list, cache') ← insert_unproven indexed.0 indexed.1 us empty
    let found = contained_constants cache' extra
    list' ← insert_known indexed.0 found.0 list
    list'' ← insert_each us list'
    done (list'', found.1)
