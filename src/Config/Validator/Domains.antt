-- ===== src/Config/Validator/Domains.antt =====
-- pkg/config/validator.go: `validateDomains` and `validateGeolocation`.
use open_gslb.Common.{
  ℕ, ◌+◌, Text, codes, Option, none, some, Bool, true, false, not, ◌&&◌, List, [], ◌∷◌, length,
  nat_beq, ◌==◌, text_eq, if◌then◌else◌,
}
use open_gslb.Common.Table.{mentions}
use open_gslb.Routing.Router.{to_lower}
use open_gslb.Config.Types.{Server, Region, Domain, CustomMapping, Config}
use open_gslb.Config.Validator.Errors.{
  DomainFault, domain_unnamed, domain_twice, bad_algorithm, no_regions, region_not_found, GeoFault,
  no_database, no_default_region, default_region_unknown, mapping_without_cidr, mapping_bad_cidr,
  mapping_without_region, mapping_region_unknown, bad_continent, bad_country, Invalid, bad_domain,
  service_not_found, bad_geolocation, Libraries, ◌<|>◌, refuse,
}
use open_gslb.Config.Validator.Sections.{is_empty}

-- The keys of `regionNames` and of `domainNames`.
abbrev pub region_names : List Region → List Text
region_names [] = []
region_names (r ∷ rs) = r.name ∷ region_names rs

abbrev pub domain_names : List Domain → List Text
domain_names [] = []
domain_names (d ∷ ds) = d.name ∷ domain_names ds

-- `validAlgorithms`
unfoldable pub is_algorithm : Text → Bool
unfolding to_lower
is_algorithm a =
    mentions
      (codes "round-robin"
        ∷ codes "weighted"
        ∷ codes "failover"
        ∷ codes "geolocation"
        ∷ codes "latency"
        ∷ []
        ∷ [])
      (to_lower a)

unfoldable pub missing_region : List Text → List Text → Option DomainFault
missing_region known [] = none
missing_region known (name ∷ names) =
    refuse (not (mentions known name)) (region_not_found name) <|> missing_region known names

-- The checks of a domain, where `seen` holds the names before it.
unfoldable pub domain_fault : List Text → List Text → Domain → Option DomainFault
unfolding is_algorithm missing_region
domain_fault known seen d =
    refuse (is_empty d.name) domain_unnamed
    <|> refuse (mentions seen d.name) domain_twice
    <|> refuse (not (is_algorithm d.routing_algorithm)) bad_algorithm
    <|> refuse (is_empty d.regions) no_regions
    <|> missing_region known d.regions

unfoldable pub each_domain : List Text → ℕ → List Text → List Domain → Option Invalid
unfolding domain_fault
each_domain known i seen [] = none
each_domain known i seen (d ∷ ds) =
    let rest = each_domain known (i + 1) (d.name ∷ seen) ds in
    elim (domain_fault known seen d) [ none ↦ rest | some fault ↦ some (bad_domain i fault) ]

-- The loops of `validateServerServiceReferences`.
unfoldable pub services_found : List Text → ℕ → ℕ → List Server → Option Invalid
services_found domains i j [] = none
services_found domains i j (s ∷ ss) =
    refuse (not (is_empty s.service) && not (mentions domains s.service)) (service_not_found i j)
    <|> services_found domains i (j + 1) ss

unfoldable pub validate_services : List Text → ℕ → List Region → Option Invalid
unfolding services_found
validate_services domains i [] = none
validate_services domains i (r ∷ rs) =
    services_found domains i 0 r.servers <|> validate_services domains (i + 1) rs

unfoldable pub validate_domains : Config → Option Invalid
unfolding each_domain validate_services
validate_domains c =
    each_domain (region_names c.regions) 0 [] c.domains
    <|> validate_services (domain_names c.domains) 0 c.regions

unfoldable pub is_geo_domain : Domain → Bool
unfolding to_lower
is_geo_domain d = to_lower d.routing_algorithm == codes "geolocation"

unfoldable pub uses_geo : List Domain → Bool
unfolding is_geo_domain
uses_geo [] = false
uses_geo (d ∷ ds) = let rest = uses_geo ds in if is_geo_domain d then true else rest

module _ (lib : Libraries) where
  open lib use {is_cidr, to_upper}

  unfoldable pub mapping_fault : List Text → ℕ → List CustomMapping → Option GeoFault
  mapping_fault known i [] = none
  mapping_fault known i (m ∷ ms) =
      refuse (is_empty m.cidr) (mapping_without_cidr i)
      <|> refuse (not (is_cidr m.cidr)) (mapping_bad_cidr i)
      <|> refuse (is_empty m.region) (mapping_without_region i)
      <|> refuse (not (mentions known m.region)) (mapping_region_unknown i)
      <|> mapping_fault known (i + 1) ms

  unfoldable pub continent_fault : List Text → Option GeoFault
  continent_fault [] = none
  continent_fault (cont ∷ conts) =
      refuse
        (not (
          mentions
            (codes "AF"
              ∷ codes "AN"
              ∷ codes "AS"
              ∷ codes "EU"
              ∷ codes "NA"
              ∷ codes "OC"
              ∷ codes "SA"
              ∷ [])
            (to_upper cont)))
        (bad_continent cont)
      <|> continent_fault conts

  unfoldable pub country_fault : List Text → Option GeoFault
  country_fault [] = none
  country_fault (country ∷ countries) =
      refuse (not (nat_beq (length country) 2)) (bad_country country) <|> country_fault countries

  -- The loop over the regions for one name of a domain. A region with neither countries nor
  -- continents passes both checks.
  unfoldable pub placing_fault : Text → List Region → Option GeoFault
  unfolding continent_fault country_fault
  placing_fault name [] = none
  placing_fault name (r ∷ rs) =
      let rest = placing_fault name rs in
      if r.name == name
      then (continent_fault r.continents <|> country_fault r.countries <|> rest)
      else rest

  unfoldable pub named_fault : List Region → List Text → Option GeoFault
  unfolding placing_fault
  named_fault regions [] = none
  named_fault regions (name ∷ names) = placing_fault name regions <|> named_fault regions names

  unfoldable pub geo_domain_fault : List Region → List Domain → Option GeoFault
  unfolding named_fault is_geo_domain
  geo_domain_fault regions [] = none
  geo_domain_fault regions (d ∷ ds) =
      let rest = geo_domain_fault regions ds in
      if is_geo_domain d then (named_fault regions d.regions <|> rest) else rest

  unfoldable pub geo_fault : Config → Option GeoFault
  unfolding mapping_fault geo_domain_fault
  geo_fault c =
      let geo = c.overwatch.geolocation in
      refuse (is_empty geo.database_path) no_database
      <|> refuse (is_empty geo.default_region) no_default_region
      <|> refuse (not (mentions (region_names c.regions) geo.default_region)) default_region_unknown
      <|> mapping_fault (region_names c.regions) 0 geo.custom_mappings
      <|> geo_domain_fault c.regions c.domains

  unfoldable pub validate_geolocation : Config → Option Invalid
  unfolding uses_geo geo_fault
  validate_geolocation c =
      if uses_geo c.domains
      then (elim (geo_fault c) [ none ↦ none | some fault ↦ some (bad_geolocation fault) ])
      else none
