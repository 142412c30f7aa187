-- ===== src/Primitives.antt =====
-- Building blocks below the tree code (domain/include/cstone/primitives).
pub mod Search
pub mod Loop
pub mod Gather
pub mod Sort
