-- ===== src/Focus.antt =====
-- The tree that is fine around a rank's own particles (domain/include/cstone/focus).
pub mod Rebalance
pub mod Inject
pub mod Peers
