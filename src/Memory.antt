-- ===== src/Memory.antt =====
-- The memory of the interpreted program (src/Memory).
pub mod BumpAllocator
