-- ===== src/Model.antt =====
-- What a path knows of its symbols: the assertions (src/Model).
pub mod AssertionList
