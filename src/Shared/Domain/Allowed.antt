-- ===== src/Shared/Domain/Allowed.antt =====
-- The lists of domains that a collateral asset may be held in (`AllowedBalanceDomains` of
-- src/shared/src/types/domain.rs).
use icdc_core.Prelude.{◌<◌, ◌≡◌, sym, refl, true, List, [], ◌∷◌, arith, if◌then◌else◌, any_by, All}
use icdc_core.Prelude.Results.{ok, ok-injective}
use icdc_core.Shared.Domain.{
  BalanceDomain, domain_rank, domain_beq, insert_domain, collect_domains, try_from,
}

-- In the derived order, each domain once.
abbrev pub Ascending : List BalanceDomain → Type 0
Ascending [] = Unit
Ascending (d ∷ ds) = All (λ e. domain_rank d < domain_rank e) ds × Ascending ds

insert_domain-All :
    (low d : BalanceDomain) (ds : List BalanceDomain)
    → domain_rank low < domain_rank d
    → All (λ e. domain_rank low < domain_rank e) ds
    → All (λ e. domain_rank low < domain_rank e) (insert_domain d ds)
unfolding insert_domain
insert_domain-All low d [] h a = (h, tt)
insert_domain-All low d (x ∷ xs) h a = ground (arith, insert_domain-All low d xs h a.1)

lower_bound :
    (d x : BalanceDomain) (ds : List BalanceDomain)
    → domain_rank d < domain_rank x
    → All (λ e. domain_rank x < domain_rank e) ds
    → All (λ e. domain_rank d < domain_rank e) ds
lower_bound d x [] h a = tt
lower_bound d x (y ∷ ys) h a = (omega (arith, h, a.0), lower_bound d x ys h a.1)

insert_domain-Ascending :
    (d : BalanceDomain) (ds : List BalanceDomain) → Ascending ds → Ascending (insert_domain d ds)
unfolding insert_domain
insert_domain-Ascending d [] a = (tt, tt)
insert_domain-Ascending d (x ∷ xs) a =
    ground
      (arith, insert_domain-Ascending d xs a.1, insert_domain-All x d xs, lower_bound d x xs, a.0)

any_by-insert_domain :
    (d e : BalanceDomain) (ds : List BalanceDomain)
    → any_by (domain_beq e) (insert_domain d ds)
      ≡ (if domain_beq e d then true else any_by (domain_beq e) ds)
unfolding insert_domain
any_by-insert_domain d e [] = refl
any_by-insert_domain d e (x ∷ xs) = ground (arith, any_by-insert_domain d e xs)

collect_domains-Ascending :
    (acc ds : List BalanceDomain) → Ascending acc → Ascending (collect_domains acc ds)
unfolding collect_domains
collect_domains-Ascending acc [] a = a
collect_domains-Ascending acc (d ∷ ds) a =
    collect_domains-Ascending (insert_domain d acc) ds (insert_domain-Ascending d acc a)

any_by-collect_domains :
    (e : BalanceDomain) (acc ds : List BalanceDomain)
    → any_by (domain_beq e) (collect_domains acc ds)
      ≡ (if any_by (domain_beq e) acc then true else any_by (domain_beq e) ds)
unfolding collect_domains
any_by-collect_domains e acc [] = ground arith
any_by-collect_domains e acc (d ∷ ds) =
    ground (arith, any_by-collect_domains e (insert_domain d acc) ds, any_by-insert_domain d e acc)

-- A list that is accepted is kept as the same domains in ascending order, each once.
try_from-Ascending :
    (ds : List BalanceDomain) {kept : List BalanceDomain}
    → try_from ds ≡ ok kept
    → Ascending kept × ((e : BalanceDomain) → any_by (domain_beq e) kept ≡ any_by (domain_beq e) ds)
unfolding try_from
try_from-Ascending [] h = absurd (ground arith)
try_from-Ascending (d ∷ ds) h =
    rw (sym (ok-injective h))
      (collect_domains-Ascending [] (d ∷ ds) tt, λ e. any_by-collect_domains e [] (d ∷ ds))
