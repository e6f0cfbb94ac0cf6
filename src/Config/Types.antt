-- ===== src/Config/Types.antt =====
-- pkg/config/types.go: the settings that the package reads or changes. Those that it only hands on,
-- and the thresholds of the predictive health signal, which are floats, are left out.
use open_gslb.Common.{ℕ, Text, Bool, List}
use open_gslb.Common.Table.{Table}

pub record HealthCheck : Type 0 where
  pub check_type : Text
  pub interval : ℕ
  pub timeout : ℕ
  pub path : Text
  pub host : Text
  pub failure_threshold : ℕ
  pub success_threshold : ℕ

pub record AgentBackend : Type 0 where
  pub service : Text
  pub address : Text
  pub port : ℕ
  pub weight : ℕ
  pub health_check : HealthCheck

pub record AgentConfig : Type 0 where
  pub service_token : Text
  pub cert_path : Text
  pub key_path : Text
  pub backends : List AgentBackend
  pub encryption_key : Text
  pub overwatch_nodes : List Text
  pub heartbeat_interval : ℕ
  pub missed_threshold : ℕ

pub record CustomMapping : Type 0 where
  pub cidr : Text
  pub region : Text
  pub comment : Text

pub record GeolocationConfig : Type 0 where
  pub database_path : Text
  pub default_region : Text
  pub custom_mappings : List CustomMapping

pub record OverwatchGossipConfig : Type 0 where
  pub bind_address : Text
  pub encryption_key : Text
  pub probe_interval : ℕ
  pub probe_timeout : ℕ
  pub gossip_interval : ℕ

pub record DnssecConfig : Type 0 where
  pub enabled : Bool
  pub security_acknowledgment : Text
  pub algorithm : Text
  pub poll_interval : ℕ
  pub sync_timeout : ℕ

pub record OverwatchConfig : Type 0 where
  pub agent_tokens : Table Text Text
  pub gossip : OverwatchGossipConfig
  pub check_interval : ℕ
  pub check_timeout : ℕ
  pub stale_threshold : ℕ
  pub remove_after : ℕ
  pub dnssec : DnssecConfig
  pub geolocation : GeolocationConfig

pub record DnsConfig : Type 0 where
  pub listen_address : Text
  pub default_ttl : ℕ
  pub return_last_healthy : Bool
  pub zones : List Text

pub record Server : Type 0 where
  pub address : Text
  pub port : ℕ
  pub weight : ℕ
  pub service : Text
  pub host : Text

pub record Region : Type 0 where
  pub name : Text
  pub servers : List Server
  pub health_check : HealthCheck
  pub countries : List Text
  pub continents : List Text

pub record Domain : Type 0 where
  pub name : Text
  pub routing_algorithm : Text
  pub regions : List Text
  pub ttl : ℕ

pub record ApiConfig : Type 0 where
  pub enabled : Bool
  pub address : Text
  pub allowed_networks : List Text

pub record Config : Type 0 where
  pub mode : Text
  pub includes : List Text
  pub agent : AgentConfig
  pub overwatch : OverwatchConfig
  pub dns : DnsConfig
  pub regions : List Region
  pub domains : List Domain
  pub log_level : Text
  pub log_format : Text
  pub metrics_enabled : Bool
  pub metrics_address : Text
  pub api : ApiConfig
