-- ===== src/Trade.antt =====
-- Trades and orders (src/clearing/src/trade, src/clearing/src/api/trade).
pub mod Index
pub mod Execute
pub mod Access
pub mod Orders
pub mod Sets
pub mod Registered
pub mod Transfers
pub mod Arbitrage
