-- ===== src/Config/Validator/Errors.antt =====
-- pkg/config/validator.go: what a check says, and what the checks need of Go's libraries.
use open_gslb.Common.{ℕ, ◌≡◌, refl, Text, Option, none, some, Bool, true, false, if◌then◌else◌}

pub data BackendFault : Type 0 where
  no_service no_address unresolved_address bad_port negative_weight bad_check_type short_interval
        short_timeout :
      BackendFault

pub data KeyFault : Type 0 where
  key_missing key_not_base64 key_not_32_bytes : KeyFault

pub data RegionFault : Type 0 where
  region_unnamed region_twice no_servers : RegionFault
  server_without_address server_bad_port server_without_service : ℕ → RegionFault
  region_bad_check_type : RegionFault

pub data DomainFault : Type 0 where
  domain_unnamed domain_twice bad_algorithm no_regions : DomainFault
  region_not_found : Text → DomainFault

pub data GeoFault : Type 0 where
  no_database no_default_region default_region_unknown : GeoFault
  mapping_without_cidr mapping_bad_cidr mapping_without_region mapping_region_unknown : ℕ → GeoFault
  bad_continent bad_country : Text → GeoFault

-- The error of `Validate`. Numbers are the indices that the messages name.
pub data Invalid : Type 0 where
  bad_level bad_format bad_metrics_address bad_mode : Invalid
  token_missing token_short no_backends no_overwatch_nodes heartbeat_short : Invalid
  bad_backend : ℕ → BackendFault → Invalid
  bad_node : ℕ → Invalid
  bad_key : KeyFault → Invalid
  dnssec_not_acknowledged bad_listen_address negative_ttl : Invalid
  bad_region : ℕ → RegionFault → Invalid
  bad_domain : ℕ → DomainFault → Invalid
  service_not_found : ℕ → ℕ → Invalid
  bad_geolocation : GeoFault → Invalid
  bad_api_address : Invalid
  bad_network : ℕ → Invalid

-- Whether `net.SplitHostPort`, `net.ParseIP`, `net.LookupHost` and `net.ParseCIDR` succeed; what
-- `base64.StdEncoding.DecodeString` returns; and `strings.ToUpper`.
pub record Libraries : Type 0 where
  pub split_host_port : Text → Bool
  pub is_ip : Text → Bool
  pub lookup_host : Text → Bool
  pub is_cidr : Text → Bool
  pub base64_decode : Text → Option Text
  pub to_upper : Text → Text

-- The first of two checks that fails.
infixr 5 ◌<|>◌
abbrev pub ◌<|>◌ {ℓ} : {E : Type ℓ} → Option E → Option E → Option E
some e <|> rest = some e
none <|> rest = rest

-- `if failed { return error }`
abbrev pub refuse {ℓ} : {E : Type ℓ} → Bool → E → Option E
refuse failed e = if failed then some e else none

pub <|>-none {ℓ} : {E : Type ℓ} (a b : Option E) → (a <|> b) ≡ none → (a ≡ none) × (b ≡ none)
<|>-none none b h = (refl, h)
<|>-none (some e) b h = cc

pub refuse-none {ℓ} : {E : Type ℓ} (failed : Bool) (e : E) → refuse failed e ≡ none → failed ≡ false
refuse-none true e h = cc
refuse-none false e h = refl
