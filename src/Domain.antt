-- ===== src/Domain.antt =====
-- The decomposition of the domain among ranks (domain/include/cstone/domain).
pub mod Ranges
pub mod Buffer
pub mod Assignment
pub mod Layout
