-- ===== src/Config/Validator/Regions.antt =====
-- pkg/config/validator.go: `validateRegions`.
use open_gslb.Common.{ℕ, ◌+◌, Text, Option, none, some, not, List, [], ◌∷◌, text_eq}
use open_gslb.Common.Table.{mentions}
use open_gslb.Config.Types.{Server, Region}
use open_gslb.Config.Validator.Errors.{
  RegionFault, region_unnamed, region_twice, no_servers, server_without_address, server_bad_port,
  server_without_service, region_bad_check_type, Invalid, bad_region, ◌<|>◌, refuse,
}
use open_gslb.Config.Validator.Sections.{is_empty, is_check_type, is_bad_port}

-- The loop over a region's servers, from an index on.
unfoldable pub server_fault : ℕ → List Server → Option RegionFault
unfolding is_bad_port
server_fault j [] = none
server_fault j (s ∷ ss) =
    refuse (is_empty s.address) (server_without_address j)
    <|> refuse (is_bad_port s.port) (server_bad_port j)
    <|> refuse (is_empty s.service) (server_without_service j)
    <|> server_fault (j + 1) ss

-- The checks of a region, where `seen` holds the names before it.
unfoldable pub region_fault : List Text → Region → Option RegionFault
unfolding server_fault is_check_type
region_fault seen r =
    refuse (is_empty r.name) region_unnamed
    <|> refuse (mentions seen r.name) region_twice
    <|> refuse (is_empty r.servers) no_servers
    <|> server_fault 0 r.servers
    <|> refuse (not (is_check_type r.health_check.check_type)) region_bad_check_type

unfoldable pub validate_regions : ℕ → List Text → List Region → Option Invalid
unfolding region_fault
validate_regions i seen [] = none
validate_regions i seen (r ∷ rs) =
    let rest = validate_regions (i + 1) (r.name ∷ seen) rs in
    elim (region_fault seen r) [ none ↦ rest | some fault ↦ some (bad_region i fault) ]
