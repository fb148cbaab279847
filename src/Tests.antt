-- ===== src/Tests.antt =====
-- Runs of the theorems on small markets.
pub mod Fixture
mod CollateralRuns
mod WithdrawRuns
mod LedgerRuns
mod SetRuns
mod MoveRuns
mod TradeRuns
mod OrderRuns
mod SettlementRuns
mod PayoffRuns
mod RecordRuns
