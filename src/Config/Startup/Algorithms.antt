-- ===== src/Config/Startup/Algorithms.antt =====
-- What pkg/config/validator.go accepts as the algorithms of domains, once the defaults are in, is what
-- the routers' factory makes.
use open_gslb.Common.{
  ℕ, ◌+◌, ◌≡◌, ◌≢◌, refl, subst, inl, inr, Text, codes, none, some, true, false, List, [], ◌∷◌, In,
  here, there, ◌==◌, ==_iff, text_eq, Bool-cases, Option-cases, Comparable, arith,
}
use open_gslb.Common.Table.{mentions}
use open_gslb.Routing.Router.{Router, Factory, to_lower, factory_router}
use open_gslb.Routing.Router.Algorithms.{plain_names, factory_router_plain}
use open_gslb.Config.Types.{Region, Domain, Config}
use open_gslb.Config.Validator.{
  validate, validate_mode, validate_overwatch_mode, has_overwatch_part,
}
use open_gslb.Config.Validator.Errors.{Libraries}
use open_gslb.Config.Validator.Sections.{is_empty}
use open_gslb.Config.Validator.Domains.{
  is_algorithm, domain_fault, missing_region, each_domain, validate_domains, region_names,
}

pub In-of_mentions {ℓ} :
    {K : Type ℓ} ⦃cmp : Comparable K⦄ (ks : List K) (k : K) → mentions ks k ≡ true → In k ks
unfolding mentions
In-of_mentions [] k h = cc
In-of_mentions (j ∷ ks) k h = elim (Bool-cases (j == k)) [
  | inl same ↦ subst (λ i. In i (j ∷ ks)) ((==_iff j k).0 same) here
  | inr other ↦ there (In-of_mentions ks k (rw other at h))
]

named_or_empty :
    (name : Text)
    → In name (
        codes "round-robin"
        ∷ codes "weighted"
        ∷ codes "failover"
        ∷ codes "geolocation"
        ∷ codes "latency"
        ∷ []
        ∷ [])
    → name ≢ []
    → In name plain_names
named_or_empty name here h = here
named_or_empty name (there here) h = there here
named_or_empty name (there (there here)) h = there (there here)
named_or_empty name (there (there (there here))) h = there (there (there here))
named_or_empty name (there (there (there (there here)))) h = there (there (there (there here)))
named_or_empty name (there (there (there (there (there here))))) h = elim (h refl) [ ]
named_or_empty name (there (there (there (there (there (there m)))))) h = elim m [ ]

to_lower_nonempty : (t : Text) → t ≢ [] → to_lower t ≢ []
unfolding to_lower
to_lower_nonempty [] h = h
to_lower_nonempty (c ∷ cs) h = λ e. cc e

-- What `Validate` accepts and the defaults leave is a name that the factory knows.
pub accepted-router :
    (f : Factory) (a : Text)
    → is_algorithm a ≡ true
    → a ≢ []
    → (r : Router) × (factory_router f a ≡ some r)
unfolding is_algorithm
accepted-router f a ok h =
    factory_router_plain f a
      (named_or_empty (to_lower a) (In-of_mentions _ (to_lower a) ok) (to_lower_nonempty a h))

-- A domain that has passed, and has an algorithm.
pub record IsAccepted (known : List Text) (d : Domain) : Type 0 where
  pub named : d.name ≢ []
  pub algorithm : is_algorithm d.routing_algorithm ≡ true
  pub placed : missing_region known d.regions ≡ none

named_lem : (t : Text) → is_empty t ≡ false → t ≢ []
named_lem [] h = cc
named_lem (c ∷ cs) h = λ e. cc e

domain_fault-none :
    (known seen : List Text) (d : Domain) → domain_fault known seen d ≡ none → IsAccepted known d
unfolding domain_fault
domain_fault-none known seen d h = record {
  named = named_lem d.name (ground arith);
  algorithm = ground arith;
  placed = ground arith;
}

each_domain-none :
    (known : List Text) (i : ℕ) (seen : List Text) (ds : List Domain)
    → each_domain known i seen ds ≡ none
    → (d : Domain) → In d ds
    → IsAccepted known d
unfolding each_domain
each_domain-none known i seen (d ∷ ds) h e here = elim (Option-cases (domain_fault known seen d)) [
  | inl passed ↦ domain_fault-none known seen d passed
  | inr (fault, eq) ↦ cc (rw (eq, each_domain) at h)
]
each_domain-none known i seen (d ∷ ds) h e (there m) =
    elim (Option-cases (domain_fault known seen d)) [
      | inl passed ↦
          each_domain-none known (i + 1) (d.name ∷ seen) ds (rw (passed, each_domain) at h) e m
      | inr (fault, eq) ↦ cc (rw (eq, each_domain) at h)
    ]
each_domain-none known i seen [] h e m = elim m [ ]

no_overwatch_part :
    (known : List Text) (rs : List Region) (ds : List Domain)
    → has_overwatch_part rs ds ≡ false
    → each_domain known 0 [] ds ≡ none
unfolding has_overwatch_part each_domain
no_overwatch_part known [] [] h = refl
no_overwatch_part known [] (d ∷ ds) h = cc
no_overwatch_part known (r ∷ rs) ds h = cc

validate_overwatch_mode-none :
    (lib : Libraries) (c : Config)
    → validate_overwatch_mode lib c ≡ none
    → each_domain (region_names c.regions) 0 [] c.domains ≡ none
unfolding validate_overwatch_mode validate_domains
validate_overwatch_mode-none lib c h = ground arith

validate_mode-none :
    (lib : Libraries) (c : Config)
    → c.mode ≢ codes "agent"
    → validate_mode lib c ≡ none
    → each_domain (region_names c.regions) 0 [] c.domains ≡ none
unfolding validate_mode
validate_mode-none lib c mode h = elim (Bool-cases (has_overwatch_part c.regions c.domains)) [
  | inr absent ↦ no_overwatch_part (region_names c.regions) c.regions c.domains absent
  | inl present ↦
      validate_overwatch_mode-none lib c
        (ground (arith, mode, ==_iff c.mode (codes "agent"), present))
]

-- The domains of a configuration that `Validate` accepts, and that is not an agent's.
pub validate-IsAccepted :
    (lib : Libraries) (c : Config)
    → c.mode ≢ codes "agent"
    → validate lib c ≡ none
    → (d : Domain) → In d c.domains
    → IsAccepted (region_names c.regions) d
unfolding validate
validate-IsAccepted lib c mode h =
    each_domain-none (region_names c.regions) 0 [] c.domains
      (validate_mode-none lib c mode (ground arith))
