-- ===== src/Ir.antt =====
-- The integer expressions of the IR: the operations (include/caffeine/IR/Operation.h), the values
-- they have in a model (src/IR/Value.cpp, src/Solver/ModelEval.cpp) and the simplifier that every
-- expression is built through (src/IR/OperationSimplifier.cpp).
pub mod Operation
pub mod Value
pub mod Eval
pub mod Simplify
pub mod Denote
