-- ===== src/Shared.antt =====
-- The `shared` crate: the types that the canisters exchange (src/shared/src/types).
pub mod Price
pub mod Domain
pub mod Series
pub mod Collateral
