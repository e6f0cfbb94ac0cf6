-- ===== src/Config/Validator.antt =====
-- pkg/config/validator.go. An error is a value that says which check failed; `none` is nil. Texts are
-- lowered as the routers' factory lowers them.
pub mod Errors
pub mod Regions
pub mod Domains
pub mod Sections
use open_gslb.Common.{
  Text, codes, Option, none, some, Bool, true, false, ◌||◌, List, [], ◌∷◌, ◌==◌, text_eq,
  if◌then◌else◌,
}
use open_gslb.Config.Types.{Region, Domain, Config}
use open_gslb.Config.Validator.Errors.{Invalid, bad_mode, Libraries, ◌<|>◌}
use open_gslb.Config.Validator.Regions.{validate_regions}
use open_gslb.Config.Validator.Domains.{validate_domains, validate_geolocation}
use open_gslb.Config.Validator.Sections.{
  validate_logging, validate_metrics, validate_agent_mode, validate_encryption_key, validate_dnssec,
  validate_dns, validate_api,
}

-- Without a mode, the sections of an overwatch are checked if it has regions or domains.
unfoldable pub has_overwatch_part : List Region → List Domain → Bool
has_overwatch_part [] [] = false
has_overwatch_part _ _ = true

module _ (lib : Libraries) where
  unfoldable pub validate_overwatch_mode : Config → Option Invalid
  unfolding validate_encryption_key validate_dnssec validate_dns validate_regions validate_domains
      validate_geolocation validate_api
  validate_overwatch_mode c =
      validate_encryption_key lib c.overwatch.gossip.encryption_key
      <|> validate_dnssec c.overwatch.dnssec
      <|> validate_dns lib c.dns
      <|> validate_regions 0 [] c.regions
      <|> validate_domains c
      <|> validate_geolocation lib c
      <|> validate_api lib c.api

  unfoldable pub validate_mode : Config → Option Invalid
  unfolding validate_agent_mode has_overwatch_part
  validate_mode c =
      if c.mode == codes "agent"
      then validate_agent_mode lib c.agent
      else if c.mode == codes "overwatch"
      then validate_overwatch_mode c
      else if c.mode == []
      then (if has_overwatch_part c.regions c.domains then validate_overwatch_mode c else none)
      else some bad_mode

  unfoldable pub validate : Config → Option Invalid
  unfolding validate_logging validate_metrics
  validate c = validate_logging c <|> validate_metrics lib c <|> validate_mode c
