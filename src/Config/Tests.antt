-- ===== src/Config/Tests.antt =====
-- A small configuration (pkg/config), from its defaults to the map of domains.
use open_gslb.Common.{◌≡◌, refl, codes, none, some, true, false, [], ◌∷◌, In, text_eq, text_beq}
use open_gslb.Common.Table.{mentions}
use open_gslb.Routing.Router.{Factory, factory_router, failover_router}
use open_gslb.Config.Types.{HealthCheck, Region, Domain, Config}
use open_gslb.Config.Defaults.{apply_defaults}
use open_gslb.Config.Validator.{validate, validate_mode, validate_overwatch_mode}
use open_gslb.Config.Validator.Errors.{Libraries}
use open_gslb.Config.Startup.Building.{HasAddresses, IsServed, build_registry-IsServed}
use open_gslb.Dns.Net.{Net}
use open_gslb.Dns.Domains.{Domains, lookup_domain}
use open_gslb.Dns.Reload.{reload_dns_registry, reload_factory}
use open_gslb.Dns.Reload.Fresh.{started_with, lookup-reload_dns_registry}
use open_gslb.Routing.Latency.{Provider}
use open_gslb.Dns.Parsed.{IsParsed}
use open_gslb.Dns.Build.{built, build_registry}

-- Every text is an address, a network and a key of 32 bytes.
abbrev any_text : Libraries
any_text = record {
  split_host_port = λ t. true;
  is_ip = λ t. true;
  lookup_host = λ t. true;
  is_cidr = λ t. true;
  base64_decode = λ t. some (codes "01234567890123456789012345678901");
  to_upper = λ t. t;
}

abbrev plain_net : Net
plain_net = record { parse_ip = λ t. some t; ip_string = λ a. a; to4 = λ a. some a }

abbrev bare_check : HealthCheck
bare_check = record {
  check_type = [];
  interval = 0;
  timeout = 0;
  path = [];
  host = [];
  failure_threshold = 0;
  success_threshold = 0;
}

abbrev europe : Region
europe = record {
  name = codes "eu";
  servers =
      record { address = codes "a"; port = 0; weight = 0; service = codes "app"; host = [] } ∷ [];
  health_check = bare_check;
  countries = [];
  continents = [];
}

abbrev pub bare_config : Config
bare_config = record {
  mode = [];
  includes = [];
  agent = record {
    service_token = [];
    cert_path = [];
    key_path = [];
    backends = [];
    encryption_key = [];
    overwatch_nodes = [];
    heartbeat_interval = 0;
    missed_threshold = 0;
  };
  overwatch = record {
    agent_tokens = [];
    gossip = record {
      bind_address = [];
      encryption_key = codes "k";
      probe_interval = 0;
      probe_timeout = 0;
      gossip_interval = 0;
    };
    check_interval = 0;
    check_timeout = 0;
    stale_threshold = 0;
    remove_after = 0;
    dnssec = record {
      enabled = true;
      security_acknowledgment = [];
      algorithm = [];
      poll_interval = 0;
      sync_timeout = 0;
    };
    geolocation = record { database_path = []; default_region = []; custom_mappings = [] };
  };
  dns = record { listen_address = []; default_ttl = 0; return_last_healthy = false; zones = [] };
  regions = europe ∷ [];
  domains =
      record { name = codes "app"; routing_algorithm = []; regions = codes "eu" ∷ []; ttl = 0 }
      ∷ [];
  log_level = [];
  log_format = [];
  metrics_enabled = false;
  metrics_address = [];
  api = record { enabled = false; address = []; allowed_networks = [] };
}

abbrev no_providers : Factory
no_providers = record {
  geo_resolver = none;
  latency_provider = none;
  learned_provider = none;
  default_region = [];
  max_latency_ms = 0;
  min_latency_samples = 0;
}

bare_accepted : validate any_text (apply_defaults bare_config) ≡ none
unfolding validate apply_defaults mentions text_beq validate_mode validate_overwatch_mode
bare_accepted = refl

-- No text fails to parse.
bare_addresses : HasAddresses plain_net (apply_defaults bare_config)
bare_addresses r i s j = λ e. cc e

build_registry-IsServed_example :
    (m : Domains) × (build_registry plain_net
        (apply_defaults bare_config)
        (factory_router no_providers)
      ≡ built m)
    × ((d : Domain)
        → In d (apply_defaults bare_config).domains
        → IsServed plain_net (apply_defaults bare_config) m d)
    × IsParsed plain_net m
build_registry-IsServed_example =
    build_registry-IsServed plain_net any_text no_providers bare_config (λ e. cc e) bare_accepted
      bare_addresses

abbrev old_domains : Domains
old_domains =
    (
      codes "old.",
      record {
        name = codes "old.";
        ttl = 60;
        routing_algorithm = codes "failover";
        router = failover_router;
        servers = [];
      },
    )
    ∷ []

abbrev no_latency : Provider
no_latency address port = record { smoothed = 0; samples = 0; last = 0; has_data = false }

lookup-reload_dns_registry_example :
    lookup_domain
      (reload_dns_registry plain_net old_domains (apply_defaults bare_config) no_latency none)
      (codes "old")
    ≡ lookup_domain
        (started_with old_domains (
          build_registry plain_net
            (apply_defaults bare_config)
            (factory_router (reload_factory no_latency none))))
        (codes "old")
lookup-reload_dns_registry_example =
    lookup-reload_dns_registry plain_net old_domains (apply_defaults bare_config) no_latency none
      (codes "old")
