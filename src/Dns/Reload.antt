-- ===== src/Dns/Reload.antt =====
-- cmd/opengslb/app.go, reloadDNSRegistry: a new configuration takes the place of the map of domains.
pub mod Fresh
use open_gslb.Common.{
  ◌≡◌, refl, sym, subst, ◌⊎◌, inl, inr, Text, Option, none, some, List, [], ◌∷◌, text_eq,
  Option-cases,
}
use open_gslb.Common.Table.{lookup, AllEntries-lookup}
use open_gslb.Config.Types.{Config}
use open_gslb.Config.Startup.Addresses.{configured-AllParsed}
use open_gslb.Config.Startup.Indexing.{collect-configured}
use open_gslb.Config.Startup.Building.{build_domains-IsParsed}
use open_gslb.Routing.Geo.{Resolver}
use open_gslb.Routing.Latency.{Provider}
use open_gslb.Routing.Router.{Factory, new_factory, factory_router}
use open_gslb.Dns.Net.{Net, DomainEntry, AllParsed}
use open_gslb.Dns.Domains.{
  Domains, RouterFactory, normalize_domain, register, lookup_domain, clear, replace_all,
}
use open_gslb.Dns.Build.{Built, BuildError, built, build_failed, index_regions, build_registry}
use open_gslb.Dns.Parsed.{IsParsed, inserted-IsParsed}

-- `Domains`
unfoldable pub registered_names : Domains → List Text
registered_names [] = []
registered_names ((name, entry) ∷ m) = name ∷ registered_names m

-- The loop over the names: the entries that `Lookup` finds.
unfoldable pub found_entries : Domains → List Text → List DomainEntry
unfolding lookup_domain
found_entries m [] = []
found_entries m (name ∷ names) =
    let rest = found_entries m names in
    elim (lookup_domain m name) [ none ↦ rest | some entry ↦ entry ∷ rest ]

-- The factory of a reload, which is given no learned latency provider.
unfoldable pub reload_factory : Provider → Option Resolver → Factory
reload_factory latency geo = new_factory (record {
  geo_resolver = geo;
  latency_provider = some latency;
  learned_provider = none;
  default_region = [];
  max_latency_ms = 0;
  min_latency_samples = 1;
})

-- The map after the reload: the old one if the new one could not be built.
unfoldable pub reload_dns_registry : Net → Domains → Config → Provider → Option Resolver → Domains
unfolding registered_names found_entries reload_factory
reload_dns_registry net m c latency geo =
    elim (build_registry net c (factory_router (reload_factory latency geo))) [
      | build_failed e ↦ m
      | built next ↦ replace_all (found_entries next (registered_names next)) (clear m)
    ]

-- The servers of each of the entries have addresses that `ParseIP` returned.
abbrev pub AreParsed : Net → List DomainEntry → Type 0
AreParsed net [] = Unit
AreParsed net (entry ∷ entries) = AllParsed net entry.servers × AreParsed net entries

Built-cases :
    {A : Type 0} (b : Built A)
    → ((e : BuildError) × (b ≡ build_failed e)) ⊎ ((m : A) × (b ≡ built m))
Built-cases (build_failed e) = inl (e, refl)
Built-cases (built m) = inr (m, refl)

module _ (net : Net) where
  pub replace_all-IsParsed :
      (entries : List DomainEntry) (m : Domains)
      → AreParsed net entries
      → IsParsed net m
      → IsParsed net (replace_all entries m)
  unfolding replace_all register
  replace_all-IsParsed [] m a p = p
  replace_all-IsParsed (entry ∷ entries) m a p =
      replace_all-IsParsed entries _ a.1
        (inserted-IsParsed net m (normalize_domain entry.name) _ a.0 p)

  found_entries-AreParsed :
      (m : Domains) (names : List Text) → IsParsed net m → AreParsed net (found_entries m names)
  unfolding found_entries lookup_domain
  found_entries-AreParsed m [] p = tt
  found_entries-AreParsed m (name ∷ names) p =
      elim (Option-cases (lookup (normalize_domain name) m)) [
        | inl e ↦ rw (found_entries, e) (found_entries-AreParsed m names p)
        | inr (entry, e) ↦
            rw (found_entries, e)
              (
                AllEntries-lookup (λ key entry. AllParsed net entry.servers) (normalize_domain name)
                    entry m p e,
                found_entries-AreParsed m names p,
              )
      ]

  build_registry-IsParsed :
      (c : Config) (make : RouterFactory) (m : Domains)
      → build_registry net c make ≡ built m
      → IsParsed net m
  unfolding build_registry
  build_registry-IsParsed c make m h = elim (Built-cases (index_regions net c.regions [])) [
    | inl (e, failed) ↦ cc (rw (failed, build_registry) at h)
    | inr (index, indexed) ↦
        build_domains-IsParsed net make index c.dns.default_ttl c.domains [] m
          (λ service names.
            subst (AllParsed net)
              (sym (collect-configured net c.regions index indexed service names))
              (configured-AllParsed net c.regions service names))
          tt (rw (indexed, build_registry) at h)
  ]

  pub reload_dns_registry-IsParsed :
      (m : Domains) (c : Config) (latency : Provider) (geo : Option Resolver)
      → IsParsed net m
      → IsParsed net (reload_dns_registry net m c latency geo)
  unfolding reload_dns_registry clear
  reload_dns_registry-IsParsed m c latency geo p =
      let make = factory_router (reload_factory latency geo) in
      elim (Built-cases (build_registry net c make)) [
        | inl (e, failed) ↦ rw (failed, reload_dns_registry) p
        | inr (next, made) ↦
            rw (made, reload_dns_registry)
              (replace_all-IsParsed (found_entries next (registered_names next)) []
                (found_entries-AreParsed next (registered_names next)
                  (build_registry-IsParsed c make next made))
                tt)
      ]
