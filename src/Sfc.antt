-- ===== src/Sfc.antt =====
-- Space-filling-curve keys (domain/include/cstone/sfc).
pub mod Node
pub mod Prefix
pub mod Digit
pub mod Hilbert
pub mod Locate
pub mod Span
