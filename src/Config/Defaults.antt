-- ===== src/Config/Defaults.antt =====
-- pkg/config/config.go: the defaults of settings that the file leaves out. An integer, as a duration
-- in nanoseconds, is left out if it is 0, and a text if it is empty.
use open_gslb.Common.{
  ℕ, ◌≢◌, Text, codes, ◌||◌, List, [], ◌∷◌, map, default_if_zero, ◌==◌, text_eq, if◌then◌else◌,
}
use open_gslb.Config.Types.{
  HealthCheck, AgentBackend, AgentConfig, OverwatchConfig, Server, Region, Domain, ApiConfig,
  Config,
}

-- `if field == "" { field = default }`
abbrev text_or : Text → Text → Text
text_or [] default = default
text_or (c ∷ cs) default = c ∷ cs

abbrev list_or : List Text → List Text → List Text
list_or [] default = default
list_or (x ∷ xs) default = x ∷ xs

abbrev second : ℕ
second = 1_000_000_000

unfoldable pub default_path : Text → Text → Text
default_path check_type [] =
    if check_type == codes "http" || check_type == codes "https" then codes "/health" else []
default_path check_type (c ∷ cs) = c ∷ cs

-- `applyBackendHealthCheckDefaults`, and the same for a region.
unfoldable pub health_check_defaults : HealthCheck → HealthCheck
unfolding default_path
health_check_defaults hc =
    let check_type = text_or hc.check_type (codes "http") in
    record {
      check_type = check_type;
      interval = default_if_zero hc.interval 30_000_000_000;
      timeout = default_if_zero hc.timeout 5_000_000_000;
      path = default_path check_type hc.path;
      host = hc.host;
      failure_threshold = default_if_zero hc.failure_threshold 3;
      success_threshold = default_if_zero hc.success_threshold 2;
    }

unfoldable pub backend_defaults : AgentBackend → AgentBackend
backend_defaults b = record b {
  health_check = health_check_defaults b.health_check;
  weight = default_if_zero b.weight 100;
}

unfoldable pub agent_defaults : AgentConfig → AgentConfig
unfolding backend_defaults
agent_defaults a = record a {
  cert_path = text_or a.cert_path (codes "/var/lib/opengslb/agent.crt");
  key_path = text_or a.key_path (codes "/var/lib/opengslb/agent.key");
  heartbeat_interval = default_if_zero a.heartbeat_interval 10_000_000_000;
  missed_threshold = default_if_zero a.missed_threshold 3;
  backends = map backend_defaults a.backends;
}

unfoldable pub server_defaults : Server → Server
server_defaults s = record s {
  port = default_if_zero s.port 80;
  weight = default_if_zero s.weight 100;
}

unfoldable pub region_defaults : Region → Region
unfolding server_defaults health_check_defaults
region_defaults r = record r {
  servers = map server_defaults r.servers;
  health_check = health_check_defaults r.health_check;
}

unfoldable pub domain_defaults : ℕ → Domain → Domain
domain_defaults default_ttl d = record d {
  routing_algorithm = text_or d.routing_algorithm (codes "round-robin");
  ttl = default_if_zero d.ttl default_ttl;
}

text_or_named : (t : Text) (c : ℕ) (cs : Text) → text_or t (c ∷ cs) ≢ []
text_or_named [] c cs = λ e. cc e
text_or_named (d ∷ ds) c cs = λ e. cc e

-- After the defaults, a domain has an algorithm.
pub domain_defaults-named :
    (default_ttl : ℕ) (d : Domain) → (domain_defaults default_ttl d).routing_algorithm ≢ []
unfolding domain_defaults
domain_defaults-named default_ttl d = text_or_named d.routing_algorithm _ _

unfoldable pub api_defaults : ApiConfig → ApiConfig
api_defaults api =
    if api.enabled
    then record api {
      address = text_or api.address (codes "127.0.0.1:8080");
      allowed_networks = list_or api.allowed_networks (codes "127.0.0.1/32" ∷ codes "::1/128" ∷ []);
    }
    else api

-- The gossip has an address to bind only if it has a key.
unfoldable pub gossip_address : Text → Text → Text
gossip_address [] bind = bind
gossip_address (k ∷ ks) bind = text_or bind (codes "0.0.0.0:7946")

unfoldable pub overwatch_settings : OverwatchConfig → OverwatchConfig
unfolding gossip_address
overwatch_settings o = record o {
  gossip = record {
    encryption_key = o.gossip.encryption_key;
    bind_address = gossip_address o.gossip.encryption_key o.gossip.bind_address;
    probe_interval = default_if_zero o.gossip.probe_interval second;
    probe_timeout = default_if_zero o.gossip.probe_timeout 500_000_000;
    gossip_interval = default_if_zero o.gossip.gossip_interval 200_000_000;
  };
  check_interval = default_if_zero o.check_interval 30_000_000_000;
  check_timeout = default_if_zero o.check_timeout 5_000_000_000;
  stale_threshold = default_if_zero o.stale_threshold 30_000_000_000;
  remove_after = default_if_zero o.remove_after 300_000_000_000;
  dnssec = record {
    enabled = o.dnssec.enabled;
    security_acknowledgment = o.dnssec.security_acknowledgment;
    algorithm = text_or o.dnssec.algorithm (codes "ECDSAP256SHA256");
    poll_interval = default_if_zero o.dnssec.poll_interval 3_600_000_000_000;
    sync_timeout = default_if_zero o.dnssec.sync_timeout 30_000_000_000;
  };
}

unfoldable pub overwatch_defaults : Config → Config
unfolding overwatch_settings api_defaults region_defaults domain_defaults
overwatch_defaults c =
    let default_ttl = default_if_zero c.dns.default_ttl 60 in
    record c {
      dns = record c.dns {
        listen_address = text_or c.dns.listen_address (codes ":53");
        default_ttl = default_ttl;
      };
      overwatch = overwatch_settings c.overwatch;
      api = api_defaults c.api;
      regions = map region_defaults c.regions;
      domains = map (domain_defaults default_ttl) c.domains;
    }

unfoldable pub apply_defaults : Config → Config
unfolding agent_defaults overwatch_defaults
apply_defaults c =
    let logged = record c {
      log_level = text_or c.log_level (codes "info");
      log_format = text_or c.log_format (codes "json");
    } in
    if c.mode == codes "agent"
    then record logged { agent = agent_defaults logged.agent }
    else if c.mode == codes "overwatch" || c.mode == []
    then overwatch_defaults logged
    else logged
