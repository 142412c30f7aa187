-- ===== src/Tree.antt =====
-- The octree in cornerstone format (domain/include/cstone/tree).
pub mod Cornerstone
pub mod Rebalance
pub mod Counts
pub mod Update
pub mod Spanning
