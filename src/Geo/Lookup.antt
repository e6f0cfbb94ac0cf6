-- ===== src/Geo/Lookup.antt =====
-- pkg/geo/lookup.go: the region of an address, by a custom mapping, the database or the default. The
-- GeoIP database is a parameter.
use open_gslb.Common.{Text, Option, none, some, List, [], ◌∷◌, text_eq}
use open_gslb.Common.Table.{Table, lookup, insert}
use open_gslb.Routing.Core.{Ip}
use open_gslb.Config.Types.{Region}
use open_gslb.Geo.Custom.{Networks, CustomMappings, lookup_custom}

-- What `Database.Lookup` finds; not found and an error are `none`.
pub record GeoResult : Type 0 where
  pub country : Text
  pub continent : Text

-- `MatchType`
pub data MatchType : Type 0 where
  custom_mapping geoip by_default : MatchType

pub record RegionMatch : Type 0 where
  pub region : Text
  pub match_type : MatchType

pub record Resolver (Trie : Type 0) : Type 0 where
  pub database : Ip → Option GeoResult
  pub custom_mappings : CustomMappings Trie
  pub country_to_region : Table Text Text
  pub continent_to_region : Table Text Text
  pub default_region : Text

module _ (to_upper : Text → Text) where
  -- The loops over the countries and the continents of a region: later regions win.
  unfoldable pub map_codes : Text → List Text → Table Text Text → Table Text Text
  map_codes region [] table = table
  map_codes region (name ∷ names) table =
      map_codes region names (insert (to_upper name) region table)

  unfoldable pub load_countries : List Region → Table Text Text → Table Text Text
  unfolding map_codes
  load_countries [] table = table
  load_countries (r ∷ rs) table = load_countries rs (map_codes r.name r.countries table)

  unfoldable pub load_continents : List Region → Table Text Text → Table Text Text
  unfolding map_codes
  load_continents [] table = table
  load_continents (r ∷ rs) table = load_continents rs (map_codes r.name r.continents table)

  -- `loadRegions`, less the copies that `GetRegion` returns.
  unfoldable pub load_regions : {Trie : Type 0} → List Region → Resolver Trie → Resolver Trie
  unfolding load_countries load_continents
  load_regions regions r = record r {
    country_to_region = load_countries regions [];
    continent_to_region = load_continents regions [];
  }

  -- The region of a code, unless it is empty.
  unfoldable pub region_of_code : Table Text Text → Text → Option Text
  region_of_code table [] = none
  region_of_code table (c ∷ cs) = lookup (to_upper (c ∷ cs)) table

  unfoldable pub resolve_by_database :
      {Trie : Type 0} → Resolver Trie → Option GeoResult → RegionMatch
  unfolding region_of_code
  resolve_by_database r none = record { region = r.default_region; match_type = by_default }
  resolve_by_database r (some g) = elim (region_of_code r.country_to_region g.country) [
    | some region ↦ record { region = region; match_type = geoip }
    | none ↦ elim (region_of_code r.continent_to_region g.continent) [
      | some region ↦ record { region = region; match_type = geoip }
      | none ↦ record { region = r.default_region; match_type = by_default }
    ]
  ]

  unfoldable pub resolve :
      {Network : Type 0} {Trie : Type 0} → Networks Network Trie → Resolver Trie → Ip → RegionMatch
  unfolding resolve_by_database
  resolve net r ip = elim (lookup_custom net ip r.custom_mappings) [
    | some e ↦ record { region = e.region; match_type = custom_mapping }
    | none ↦ resolve_by_database r (r.database ip)
  ]
