-- ===== src/Shared/Series.antt =====
-- Series, their outcomes, payoffs and settlement inputs (src/shared/src/types/series.rs,
-- payout.rs, groups.rs, asset/mod.rs). The display metadata of a series (title, description,
-- resolution terms, icons, locale, reward) and the payout unit, which is always USD here, are read
-- by none of the operations that are modelled, and are left out.
use icdc_core.Prelude.{
  ℕ, ◌≡◌, ◌↔◌, arith, Bool, true, false, Option, none, some, List, [], ◌∷◌, ltb, leb, ◌==◌,
  if◌then◌else◌,
}
use icdc_core.Shared.Domain.{BalanceDomain}
use icdc_core.Shared.Price.{Principal, Price, price_beq, price_beq_iff}

abbrev pub SeriesId : Type 0
SeriesId = ℕ

abbrev pub OutcomeId : Type 0
OutcomeId = ℕ

pub record Outcome : Type 0 where
  pub id : OutcomeId

pub data PayoffType : Type 0 where
  binary call put categorical : PayoffType

abbrev pub payoff_type_beq : PayoffType → PayoffType → Bool
payoff_type_beq binary binary = true
payoff_type_beq call call = true
payoff_type_beq put put = true
payoff_type_beq categorical categorical = true
payoff_type_beq _ _ = false

pub data SettlementInput : Type 0 where
  price : Price → SettlementInput
  outcome : OutcomeId → SettlementInput

-- The derived equality of settlement inputs.
abbrev pub settlement_beq : SettlementInput → SettlementInput → Bool
settlement_beq (price p) (price q) = price_beq p q
settlement_beq (outcome o) (outcome u) = o == u
settlement_beq _ _ = false

pub settlement_beq_iff : (a b : SettlementInput) → (settlement_beq a b ≡ true) ↔ (a ≡ b)
settlement_beq_iff (price p) (price q) = ground (arith, price_beq_iff p q)
settlement_beq_iff (price p) (outcome o) = ground arith
settlement_beq_iff (outcome o) (price p) = ground arith
settlement_beq_iff (outcome o) (outcome u) = ground arith

pub data TradingAccess : Type 0 where
  open_access : TradingAccess
  restricted : List ℕ → TradingAccess

-- Tokens beyond ICRC ledgers are told apart by their fields only.
pub data Asset : Type 0 where
  icrc : Principal → Asset
  native_evm : ℕ → ℕ → Asset
  erc20 : ℕ → ℕ → ℕ → Asset

pub record Series : Type 0 where
  pub series_id : SeriesId
  pub underlying : ℕ
  pub expiry_ns : ℕ
  pub start_ns : Option ℕ
  pub payoff_type : PayoffType
  pub strike : Option Price
  pub price_precision : ℕ
  pub outcomes : Option (List Outcome)
  pub oracle_source : ℕ
  pub creator : Principal
  pub created_at_ns : ℕ
  pub balance_domain : BalanceDomain
  pub trading_access : List TradingAccess
  pub engine_id : Option ℕ
  pub forked_from : Option SeriesId

pub data SeriesStatus : Type 0 where
  upcoming live expired : SeriesStatus

-- `self.start_ns.is_some_and(|start| now < start)`.
abbrev pub starts_after : Option ℕ → ℕ → Bool
starts_after none now = false
starts_after (some start) now = ltb now start

-- `Series::status`.
unfoldable pub status : Series → ℕ → SeriesStatus
status s now =
    if leb s.expiry_ns now then expired else if starts_after s.start_ns now then upcoming else live

-- `Series::is_tradeable_at`.
unfoldable pub is_tradeable_at : Series → ℕ → Bool
unfolding status
is_tradeable_at s now = elim (status s now) [ live ↦ true | _ ↦ false ]

-- `Option::is_some`, and `is_some_and(|o| !o.is_empty())`.
abbrev has_strike : Option Price → Bool
has_strike none = false
has_strike (some p) = true

abbrev has_outcomes : Option (List Outcome) → Bool
has_outcomes none = false
has_outcomes (some []) = false
has_outcomes (some (o ∷ os)) = true

-- `Series::has_resolvable_payoff`.
unfoldable pub has_resolvable_payoff : Series → Bool
has_resolvable_payoff s = elim s.payoff_type [
  | binary ↦ true
  | call ↦ has_strike s.strike
  | put ↦ has_strike s.strike
  | categorical ↦ has_outcomes s.outcomes
]
