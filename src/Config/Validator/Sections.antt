-- ===== src/Config/Validator/Sections.antt =====
-- pkg/config/validator.go: the checks of the sections other than regions and domains.
use open_gslb.Common.{
  ℕ, ◌+◌, Text, codes, Option, none, some, Bool, true, false, not, ◌&&◌, ◌||◌, List, [], ◌∷◌, ◌++◌,
  length, ltb, nat_beq, int_lt, int_le, ◌==◌, text_eq, if◌then◌else◌,
}
use open_gslb.Common.Table.{mentions}
use open_gslb.Routing.Router.{to_lower}
use open_gslb.Config.Types.{AgentBackend, AgentConfig, DnssecConfig, DnsConfig, ApiConfig, Config}
use open_gslb.Config.Validator.Errors.{
  BackendFault, no_service, no_address, unresolved_address, bad_port, negative_weight,
  bad_check_type, short_interval, short_timeout, key_missing, key_not_base64, key_not_32_bytes,
  Invalid, bad_level, bad_format, bad_metrics_address, token_missing, token_short, no_backends,
  no_overwatch_nodes, heartbeat_short, bad_backend, bad_node, bad_key, dnssec_not_acknowledged,
  bad_listen_address, negative_ttl, bad_api_address, bad_network, Libraries, ◌<|>◌, refuse,
}

-- `len(key) == 0`
abbrev pub is_empty {ℓ} : {A : Type ℓ} → List A → Bool
is_empty [] = true
is_empty (x ∷ xs) = false

unfoldable pub validate_logging : Config → Option Invalid
unfolding to_lower
validate_logging c =
    refuse
      (not (
        mentions (codes "debug" ∷ codes "info" ∷ codes "warn" ∷ codes "error" ∷ [] ∷ [])
          (to_lower c.log_level)))
      bad_level
    <|> refuse (not (mentions (codes "text" ∷ codes "json" ∷ [] ∷ []) (to_lower c.log_format)))
        bad_format

-- The types of a health check: of a backend and of a region.
unfoldable pub is_check_type : Text → Bool
unfolding to_lower
is_check_type t = mentions (codes "http" ∷ codes "https" ∷ codes "tcp" ∷ [] ∷ []) (to_lower t)

-- `port <= 0 || port > 65535`
unfoldable pub is_bad_port : ℕ → Bool
is_bad_port port = int_le port 0 || int_lt 65535 port

unfoldable pub validate_dnssec : DnssecConfig → Option Invalid
validate_dnssec d =
    refuse
      (not d.enabled
        && not (
            d.security_acknowledgment
            == codes
                "I understand that disabling DNSSEC removes cryptographic authentication of DNS responses and allows DNS spoofing attacks against my zones"))
      dnssec_not_acknowledged

module _ (lib : Libraries) where
  open lib use {split_host_port, is_ip, lookup_host, is_cidr, base64_decode}

  unfoldable pub validate_metrics : Config → Option Invalid
  validate_metrics c =
      refuse
        (c.metrics_enabled
          && not (is_empty c.metrics_address)
          && not (split_host_port c.metrics_address)
          && not (split_host_port (codes "0.0.0.0" ++ c.metrics_address)))
        bad_metrics_address

  unfoldable pub validate_encryption_key : Text → Option Invalid
  validate_encryption_key key =
      if is_empty key then some (bad_key key_missing) else (elim (base64_decode key) [
        | none ↦ some (bad_key key_not_base64)
        | some decoded ↦ refuse (not (nat_beq (length decoded) 32)) (bad_key key_not_32_bytes)
      ])

  unfoldable pub backend_fault : AgentBackend → Option BackendFault
  unfolding is_check_type is_bad_port
  backend_fault b =
      refuse (is_empty b.service) no_service
      <|> refuse (is_empty b.address) no_address
      <|> refuse (not (is_ip b.address) && not (lookup_host b.address)) unresolved_address
      <|> refuse (is_bad_port b.port) bad_port
      <|> refuse (int_lt b.weight 0) negative_weight
      <|> refuse (not (is_check_type b.health_check.check_type)) bad_check_type
      <|> refuse (int_lt 0 b.health_check.interval && int_lt b.health_check.interval 1_000_000_000)
          short_interval
      <|> refuse (int_lt 0 b.health_check.timeout && int_lt b.health_check.timeout 100_000_000)
          short_timeout

  -- The loop over the backends, from an index on.
  unfoldable pub validate_backends : ℕ → List AgentBackend → Option Invalid
  unfolding backend_fault
  validate_backends i [] = none
  validate_backends i (b ∷ bs) =
      let rest = validate_backends (i + 1) bs in
      elim (backend_fault b) [ none ↦ rest | some fault ↦ some (bad_backend i fault) ]

  unfoldable pub validate_nodes : ℕ → List Text → Option Invalid
  validate_nodes i [] = none
  validate_nodes i (node ∷ nodes) =
      let rest = validate_nodes (i + 1) nodes in
      if split_host_port node then rest else some (bad_node i)

  unfoldable pub validate_agent_mode : AgentConfig → Option Invalid
  unfolding validate_backends validate_nodes validate_encryption_key
  validate_agent_mode a =
      refuse (is_empty a.service_token) token_missing
      <|> refuse (ltb (length a.service_token) 16) token_short
      <|> refuse (is_empty a.backends) no_backends
      <|> validate_backends 0 a.backends
      <|> validate_encryption_key a.encryption_key
      <|> refuse (is_empty a.overwatch_nodes) no_overwatch_nodes
      <|> validate_nodes 0 a.overwatch_nodes
      <|> refuse (int_lt 0 a.heartbeat_interval && int_lt a.heartbeat_interval 1_000_000_000)
          heartbeat_short

  unfoldable pub validate_dns : DnsConfig → Option Invalid
  validate_dns d =
      refuse (not (is_empty d.listen_address) && not (split_host_port d.listen_address))
        bad_listen_address
      <|> refuse (int_lt d.default_ttl 0) negative_ttl

  unfoldable pub validate_networks : ℕ → List Text → Option Invalid
  validate_networks i [] = none
  validate_networks i (network ∷ networks) =
      let rest = validate_networks (i + 1) networks in
      if is_cidr network then rest else some (bad_network i)

  unfoldable pub validate_api : ApiConfig → Option Invalid
  unfolding validate_networks
  validate_api api =
      if api.enabled
      then (refuse (not (is_empty api.address) && not (split_host_port api.address)) bad_api_address
          <|> validate_networks 0 api.allowed_networks)
      else none
