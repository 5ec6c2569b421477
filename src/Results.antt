-- ===== src/Results.antt =====
-- pkg/results: the rows of a result.
pub mod Sort
pub mod Rows
pub mod Merge
