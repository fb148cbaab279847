-- ===== src/Clearing.antt =====
-- The state of the clearing canister and the types of its records (src/clearing/src/types,
-- src/clearing/src/memory.rs).
pub mod Errors
pub mod Orders
pub mod Plans
pub mod State
