-- ===== src/Lib.antt =====
-- Verification library for caffeine, a symbolic execution engine for LLVM IR.
--
-- The program runs the paths of an LLVM module. A path has a context with its stack, a heap of
-- symbolic allocations and a list of assertions; an expression of it is an operation of the IR,
-- built through a simplifier; a solver decides whether the assertions can hold together, and a
-- model that it answers is evaluated on expressions. Several of these parts stand on containers of
-- include/caffeine/ADT: the heap refers to allocations by the keys of a slot map, the assertion
-- lists keep their elements in a sparse vector, the e-graph merges classes in a union-find.
--
-- Parts and their files:
--
--   Prelude.antt, Prelude/    what the other modules share: Boolean tests (Tests), lists over the
--                             native numbers (Lists), the results of a call (Outcomes), binary
--                             digits (Bits)
--   Adt/FreeList.antt         the list of free slots that slot_map and SparseVector both thread
--                             through their cells
--   Adt/SlotMap.antt          slot_map, iterator_impl: include/caffeine/ADT/SlotMap.h. An entry
--                             is a cell, which holds a value or the next free slot, and a
--                             generation. Children: Invariant, Access (emplace, remove, at, find),
--                             Iteration, History (runs of operations), Clear
--   Adt/UnionFind.antt        include/caffeine/ADT/UnionFind.h. Children: Roots (find and
--                             update), Union (do_union, make_set)
--   Adt/SparseVector.antt     include/caffeine/ADT/SparseVector.h. Children: Holes (emplace,
--                             erase), Content (iteration, compress)
--   Adt/SetTrie.antt          include/caffeine/ADT/SetTrie.h, on SparseVector. Children: Words and
--                             Spec (what a trie holds, independently of its nodes), Lookup,
--                             Redirect (one edge changes), Grow (insert_new), Removal, Added,
--                             Followed and Insert (insert_at), Contents
--   Adt/SharedArray.antt      include/caffeine/ADT/SharedArray.h, src/ADT/SharedArray.cpp. Children:
--                             Contents (store, load, flatten), Copies, Pointers (a
--                             std::shared_ptr as a place in a store of variants, which copies
--                             share; View unfolds the pointers, Copied has operator=,
--                             Stored has store, Apart has one after the other)
--   Apint.antt                the operations of llvm::APInt as a record, and their documented
--                             behaviour as a second record. That class is third-party code: every
--                             definition that uses it takes the first record, every theorem also
--                             the second. Apint/Concrete.antt is an instance of both
--   Ir/Operation.antt         the operations on integers: include/caffeine/IR/Operation.h,
--                             src/IR/Operation.cpp
--   Ir/Value.antt             Value: src/IR/Value.cpp
--   Ir/Eval.antt              ModelEvaluator: src/Solver/ModelEval.cpp
--   Ir/Denote.antt            what the operations mean to a solver, as bit vectors; a specification,
--                             which the theorems on solvers are about
--   Ir/Simplify.antt          OperationSimplifier on BinaryOps: src/IR/OperationSimplifier.cpp;
--                             Ir/Simplify/Visits.antt the other integer operations. Children:
--                             Contract and Values (what a visit promises, and how it is shown),
--                             one module for each group of visits, Dispatch (all BinaryOps)
--   Model/AssertionList.antt  AssertionList: src/Model/AssertionList.cpp. Children: Meaning (what
--                             insertion asks of a meaning of assertions), Decompose (the
--                             parts of an assertion), Denoted (the meaning by
--                             Ir/Denote.antt), Insert, Restore, Marked (the two ranges
--                             that proven and unproven read), Keeps
--   Query/ConstraintSlicer.antt
--                             ConstraintSlicer: src/Query/ConstraintSlicer.cpp, on AssertionList.
--                             Children: Symbols, Known (the map of the proven assertions), Loops,
--                             Slice, Keeps
--   Query/Solver.antt         the layers of a solver: src/Solver/Solver.cpp, EarlyExitSolver.cpp,
--                             InterruptSolver.cpp, CanonicalizingSolver.cpp and SlicingSolver.cpp
--                             beside it, src/IR/Transforms/canonicalize.cpp. Children: Contract,
--                             Layers, Slicing, Stack, Satisfied
--   Memory/BumpAllocator.antt BumpAllocator: src/Memory/BumpAllocator.cpp. Child: Placement
--   Execution/ContextStore.antt
--                             QueueingContextStore, RandomizedContextStore: include/caffeine/
--                             Interpreter/Store.h, src/Interpreter/Store. Children: System (the
--                             threads of src/Interpreter/Executor.cpp around a store, as a step
--                             relation), Counting, Calls, Invariant, Progress, Liveness, Drained,
--                             Randomized
--   Execution/Limits.antt     CountLimitedStore, TimeLimitedStore: src/Interpreter/Store. They wrap any
--                             store whose operations are a record. Child: Runs
--
-- State is passed explicitly: an operation takes the container and gives the new one. A call ends
-- in `done`, in `throws` (a C++ exception) or in `fault` (a failed CAFFEINE_ASSERT or assert, or a
-- read out of range).
--
-- Bounds and fuel. The iterators' loops take the size as fuel, since each round takes the index
-- nearer to the end. UnionFind::update takes fuel for its rounds, and its theorems give the fuel
-- that a chain needs. A generation is kept modulo 2 ^ 63, the bits that the entry stores. The
-- visits of And, Or and Shl call each other through the Create functions; their fuel bounds the
-- depth of the calls, and one more than the nodes of the operands is enough, since each call has
-- smaller operands. The loop of AssertionList::insert takes one more than the weight of an
-- assertion, which both rewrites of the loop reduce, and restore takes one more than the elements.
-- A width is positive, and the bits of a number are below 2 to the width.
-- The walk of SetTrie::remove_node takes one more than the nodes, since edges lead to later
-- nodes. The indices of a trie stay below SIZE_MAX, which stands for the end of a set.
--
-- A critical section of a context store is one step, as is the delivery of a notification after it;
-- waiting readers may wake without one. The index that RandomizedContextStore draws is a number
-- modulo the size. SharedArray compares modcnt with 0.8 of the size, which is exact below 2 ^ 53; a
-- read that follows its pointers takes one more than the shared variants, since each leads to an
-- older one.
--
-- The cache of ConstraintSlicer is a list that forgets nothing; the order in which it reads a set of
-- symbols is a parameter. A solver carries its state from call to call, and a base solver is any
-- record that keeps the contract of Query/Solver/Contract.antt.
--
-- Assertions have two meanings. insert-Holds and slice-Holds speak of models in which ModelEvaluator
-- gives an operation a value; it gives none to ordering comparisons. The theorems on solvers speak of
-- the bit vectors of Ir/Denote.antt, which every operation has in every model. The stop flag of an
-- InterruptSolver is a function that gives what each load reads.
--
-- Two references to one operation are compared by the parameter `same`, of which only is asked
-- that the same object is the same operation. Interning by OperationCache gives an operation equal
-- to its argument, and is left out. A symbol has the width that `scope` names.
--
-- Not modelled: floating point, arrays, vectors and function objects in the IR; the e-graph; the
-- buddy allocator and the heap; the interpreter, which works on LLVM instructions;
-- the solver on Z3, which is third-party code, and the rewriting of lists by simplify; logging,
-- serialization and the tools.
pub mod Prelude
pub mod Adt
pub mod Apint
pub mod Ir
pub mod Model
pub mod Memory
pub mod Execution
pub mod Query
