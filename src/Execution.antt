-- ===== src/Execution.antt =====
-- The stores of contexts that wait to be run (include/caffeine/Interpreter/Store.h), which the worker
-- threads of src/Interpreter/Executor.cpp share.
pub mod ContextStore
pub mod Limits
