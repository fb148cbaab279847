-- ===== src/Shared/Domain.antt =====
-- Balance domains (src/shared/src/types/domain.rs).
pub mod Allowed
use icdc_core.Prelude.{
  ℕ, ◌≡◌, ◌↔◌, Bool, true, Option, none, List, [], ◌∷◌, arith, ltb, ◌==◌, if◌then◌else◌,
}
use icdc_core.Prelude.Maps.{Key}
use icdc_core.Prelude.Results.{Res, ok, err}

pub data BalanceDomain : Type 0 where
  playground settlement vici_xp social : BalanceDomain

-- The place of a variant in the derived order.
abbrev pub domain_rank : BalanceDomain → ℕ
domain_rank playground = 0
domain_rank settlement = 1
domain_rank vici_xp = 2
domain_rank social = 3

abbrev pub domain_beq : BalanceDomain → BalanceDomain → Bool
domain_beq a b = domain_rank a == domain_rank b

pub domain_beq_iff : (a b : BalanceDomain) → (domain_beq a b ≡ true) ↔ (a ≡ b)
domain_beq_iff a b = ground arith

instance abbrev pub domain_key : Key BalanceDomain
domain_key = record {
  beq = domain_beq;
  before = λ a b. ltb (domain_rank a) (domain_rank b);
  beq_iff = domain_beq_iff;
}

pub data AllowedBalanceDomainsError : Type 0 where
  empty : AllowedBalanceDomainsError

-- One insertion into the `BTreeSet` through which `try_from` passes the list.
unfoldable pub insert_domain : BalanceDomain → List BalanceDomain → List BalanceDomain
insert_domain d [] = d ∷ []
insert_domain d (x ∷ xs) =
    if domain_beq d x
    then x ∷ xs
    else if ltb (domain_rank d) (domain_rank x)
    then d ∷ x ∷ xs
    else x ∷ insert_domain d xs

-- `into_iter().collect::<BTreeSet<_>>()`, from the accumulator.
unfoldable pub collect_domains : List BalanceDomain → List BalanceDomain → List BalanceDomain
unfolding insert_domain
collect_domains acc [] = acc
collect_domains acc (d ∷ ds) = collect_domains (insert_domain d acc) ds

-- `AllowedBalanceDomains::try_from`.
unfoldable pub try_from : List BalanceDomain → Res AllowedBalanceDomainsError (List BalanceDomain)
unfolding collect_domains
try_from [] = err empty
try_from (d ∷ ds) = ok (collect_domains [] (d ∷ ds))

-- `AllowedBalanceDomains::default`.
abbrev pub default_allowed : List BalanceDomain
default_allowed = settlement ∷ playground ∷ []

pub record DomainPolicy : Type 0 where
  pub deposits_enabled : Bool
  pub withdrawals_enabled : Bool
  pub insurance_fund_fee_ratio_override : Option ℕ
  pub protocol_fee_ratio_override : Option ℕ

-- `DomainPolicy::default`; the display label is left out.
abbrev pub default_policy : DomainPolicy
default_policy = record {
  deposits_enabled = true;
  withdrawals_enabled = true;
  insurance_fund_fee_ratio_override = none;
  protocol_fee_ratio_override = none;
}
