-- ===== src/Lib.antt =====
-- The clearing core of the derivatives exchange: the part of the clearing canister
-- (src/clearing/src) and of the shared types (src/shared/src/types) that decides who owes what.
--
-- A trade (trade/service.rs) moves a quantity between two users' positions, marks the old positions
-- to the trade's price in cash, and reserves the margins that payoffs/mod.rs asks for. Orders
-- (api/trade/api.rs) block margin in an account (types/margin.rs) until they are filled or cancelled.
-- A settlement (api/settlement/api.rs) takes the positions and the orders of a series off the books
-- in one message, keeps what is owed in a plan (types/plans.rs), and books the plan in batches over
-- several messages. Trades and settlements append to the event log (types/event.rs) and feed the
-- indexes of memory.rs.
--
-- The files:
--   Prelude      helpers: Boolean tests, lists, integers (Int), 128-bit words (Words), results with
--                panics (Results), ordered maps (Maps)
--   Shared       src/shared/src/types: Price (price.rs, decimal.rs), Domain (domain.rs), Series
--                (series.rs and what it holds), Collateral (collateral.rs)
--   Payoffs      payoffs: scale_price, get_unit_payoff, get_settlement_value, get_required_margin,
--                calculate_settlement_fee; the children hold what is proved of them
--   Margin       types/margin.rs: AccountState and its methods
--   Events       types/event.rs, types/price_history.rs
--   Leaderboard  types/leaderboard.rs, and Ranks, the ranks of api/leaderboard/api.rs
--   Clearing     Errors, Orders, Plans and State: the errors, the orders, the plans, and the
--                thread-local maps of memory.rs as one record
--   Trade        Index (memory.rs), Execute (trade/service.rs), Access and Registered (utils/series.rs
--                and the guard of account/reassignment.rs), and from api/trade/api.rs: Orders,
--                Arbitrage (validate_no_arbitrage), Sets (mint_complete_set_logic and
--                redeem_complete_set_logic), Transfers (freeze_position_for_transfer and
--                accept_position_transfer)
--   Collateral   Deposit and Withdraw, the two flows of api/collateral/api.rs, Balances, the
--                reading of a balance back, and Icrc, the transfers of assets/icrc/handler.rs
--   Migration    migrate_domain_impl of api/migration/api.rs
--   Reassignment account/reassignment.rs: the checks and the re-keying, and in Sweep the custody
--                sweep and reassign_account
--   Settlement   Prepare, Accounting, Settle and Listing, the parts of api/settlement/api.rs
--   Tests        runs of the theorems on a small market
--
-- How the code is modelled. State is passed explicitly: an operation takes the Clearing record and
-- gives a Reply, which is a value with the new state, an error with the state at that point, or a
-- panic, which keeps nothing. The release profile does not check for overflow, so that `+ - * pow`
-- on u128 and i128 wrap around (Words); a division by zero is a panic. Identifiers and principals
-- are numbers, since they are only compared. A BTreeMap is an association list that insert keeps in
-- order. Loops over maps and lists are structural recursion; the loop of the accounting runs over
-- the positions behind the cursor, so it needs no fuel. The instruction counter is the system's and
-- is a parameter. A call that awaits is cut at its awaits: precheck_limit_order and
-- place_limit_order are the parts of submit_limit_order before the first and after the last one.
-- A deposit and a withdrawal begin (begin_deposit, begin_withdrawal) with a reply or with a request
-- to the ledger and what the suspended call keeps, and resume (resume_deposit, resume_withdrawal)
-- with the ledger's answer on whatever state there is by then. The ledger and the registry are
-- parameters: functions that give their answers. What a theorem assumes of them is among its
-- hypotheses, and the flows of Deposit and Withdraw assume nothing of what the handler answers.
--
-- Not modelled: what the registry, the ledgers and the EVM do, the handler of EVM assets, the
-- metadata of tokens, the administration, the queries on histories and metrics, the pages of a
-- leaderboard, the saving of the state over an upgrade, and the registry and minter canisters. The
-- Clearing record has no field for the maps that only those use. A Series has neither its display
-- metadata nor its payout unit: the registry's answer says whether the unit is USD. No other
-- message runs during the awaits of reassign_account, of accept_position_transfer and of an ICRC
-- transfer, nor of deposit_collateral and withdraw_collateral, the two calls as a whole.
mod Prelude
pub mod Shared
pub mod Payoffs
pub mod Margin
pub mod Events
pub mod Leaderboard
pub mod Clearing
pub mod Trade
pub mod Collateral
pub mod Migration
pub mod Reassignment
pub mod Settlement
mod Tests
