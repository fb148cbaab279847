-- ===== src/Settlement.antt =====
-- The settlement of a series (src/clearing/src/api/settlement/api.rs).
pub mod Prepare
pub mod Accounting
pub mod Settle
pub mod Listing
