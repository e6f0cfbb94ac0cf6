-- ===== src/Dns/Serving.antt =====
-- Queries between changes of the domains (pkg/dns): the handler reads the same map that the API and the
-- agents' registrations change.
use open_gslb.Common.{ℕ, Text, Option, List, [], ◌∷◌, text_eq}
use open_gslb.Routing.Core.{Ip}
use open_gslb.Routing.Router.{Moment}
use open_gslb.Dns.Net.{Net, DomainEntry}
use open_gslb.Dns.Domains.{
  RouterFactory, remove, clear, replace_all, register_server, deregister_server,
  update_server_weight, register_domain, update_domain_settings,
}
use open_gslb.Config.Types.{Config}
use open_gslb.Routing.Geo.{Resolver}
use open_gslb.Routing.Latency.{Provider}
use open_gslb.Dns.Reload.{reload_dns_registry, AreParsed}
use open_gslb.Dns.Handler.{Handler, Family, handle_address_query}

pub data Op : Type 0 where
  do_register_server : Text → Text → ℕ → ℕ → Text → Op
  do_deregister_server : Text → Text → ℕ → Op
  do_update_weight : Text → Text → ℕ → ℕ → Op
  do_register_domain do_update_settings : Text → ℕ → Text → RouterFactory → Op
  do_remove : Text → Op
  do_clear : Op
  do_replace_all : List DomainEntry → Op
  do_reload : Config → Provider → Option Resolver → Op
  do_answer : Moment → Option Ip → Family → Text → Op

module _ (net : Net) where
  unfoldable pub step : Handler → Op → Handler
  step h (do_register_server service address port weight region) = record h {
    domains = (register_server net h.domains service address port weight region).0;
  }
  step h (do_deregister_server service address port) = record h {
    domains = (deregister_server net h.domains service address port).0;
  }
  step h (do_update_weight service address port weight) = record h {
    domains = (update_server_weight net h.domains service address port weight).0;
  }
  step h (do_register_domain name ttl algorithm make) = record h {
    domains = (register_domain h.domains name ttl algorithm make).0;
  }
  step h (do_update_settings name ttl algorithm make) = record h {
    domains = (update_domain_settings h.domains name ttl algorithm make).0;
  }
  step h (do_remove name) = record h { domains = remove h.domains name }
  step h do_clear = record h { domains = clear h.domains }
  step h (do_replace_all entries) = record h { domains = replace_all entries (clear h.domains) }
  step h (do_reload c latency geo) = record h {
    domains = reload_dns_registry net h.domains c latency geo;
  }
  step h (do_answer t client family qname) = (handle_address_query net h t client family qname).0

  unfoldable pub run : Handler → List Op → Handler
  unfolding step
  run h [] = h
  run h (op ∷ ops) = run (step h op) ops

  -- The entries that `ReplaceAll` is given are right at the start, too.
  abbrev pub ParsedOps : List Op → Type 0
  ParsedOps [] = Unit
  ParsedOps (do_replace_all entries ∷ ops) = AreParsed net entries × ParsedOps ops
  ParsedOps (op ∷ ops) = ParsedOps ops
