-- ===== src/Query.antt =====
-- src/Query and include/caffeine/Query: what a list of assertions goes through on its way to the
-- solver.
pub mod ConstraintSlicer
pub mod Solver
