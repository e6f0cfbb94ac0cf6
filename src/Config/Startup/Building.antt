-- ===== src/Config/Startup/Building.antt =====
-- A configuration that pkg/config accepts is one from which pkg/dns can build the map of domains.
use open_gslb.Common.{
  ℕ, ◌≡◌, ◌≢◌, refl, sym, ◌∙◌, subst, ◌⊎◌, inl, inr, Text, codes, none, some, List, [], ◌∷◌, In,
  here, there, In-cons, ◌==◌, ==_iff, text_eq, Bool-cases, Option-cases, ap,
}
use open_gslb.Common.Table.{lookup, lookup-insert}
use open_gslb.Routing.Router.{Router, Factory, factory_router}
use open_gslb.Config.Types.{Server, Region, Domain, Config}
use open_gslb.Config.Defaults.{apply_defaults}
use open_gslb.Config.Validator.{validate}
use open_gslb.Config.Validator.Errors.{Libraries}
use open_gslb.Config.Startup.Algorithms.{accepted-router, validate-IsAccepted}
use open_gslb.Config.Startup.Loading.{apply_defaults-mode, apply_defaults-named}
use open_gslb.Config.Startup.Addresses.{configured-AllParsed}
use open_gslb.Dns.Parsed.{IsParsed, inserted-IsParsed}
use open_gslb.Config.Startup.Indexing.{configured, collect-configured}
use open_gslb.Dns.Net.{Net, DomainEntry, AllParsed}
use open_gslb.Dns.Domains.{Domains, RouterFactory, normalize_domain, register, lookup_domain}
use open_gslb.Dns.Build.{
  ServiceIndex, built, index_servers, index_regions, collect, registered_ttl, build_domains,
  build_registry, Built, build_failed,
}

-- Every server of every region has an address that `ParseIP` reads.
abbrev pub HasAddresses : Net → Config → Type 0
HasAddresses net c =
    (r : Region) → In r c.regions → (s : Server) → In s r.servers → net.parse_ip s.address ≢ none

-- The entry under a name has the servers that the configuration lists for a domain of that name.
pub record IsServed (net : Net) (c : Config) (m : Domains) (d : Domain) : Type 0 where
  pub entry : DomainEntry
  pub found : lookup_domain m d.name ≡ some entry
  pub made_for : Domain
  pub listed : In made_for c.domains
  pub same_name : normalize_domain made_for.name ≡ normalize_domain d.name
  pub servers : entry.servers ≡ configured net c.regions made_for.name made_for.regions

module _ (net : Net) where
  index_servers-built :
      (region : Text) (ss : List Server) (index : ServiceIndex)
      → ((s : Server) → In s ss → net.parse_ip s.address ≢ none)
      → (next : ServiceIndex) × (index_servers net region ss index ≡ built next)
  unfolding index_servers
  index_servers-built region [] index h = (index, refl)
  index_servers-built region (s ∷ ss) index h = elim (Option-cases (net.parse_ip s.address)) [
    | inl bad ↦ elim (h s here bad) [ ]
    | inr (ip, good) ↦
        rw (good, index_servers) (index_servers-built region ss _ (λ t m. h t (there m)))
  ]

  index_regions-built :
      (rs : List Region) (index : ServiceIndex)
      → ((r : Region) → In r rs → (s : Server) → In s r.servers → net.parse_ip s.address ≢ none)
      → (next : ServiceIndex) × (index_regions net rs index ≡ built next)
  unfolding index_regions
  index_regions-built [] index h = (index, refl)
  index_regions-built (r ∷ rs) index h =
      let (mid, good) = index_servers-built r.name r.servers index (h r here) in
      rw (good, index_regions) (index_regions-built rs mid (λ q m. h q (there m)))

-- The entry that the loop makes.
made : ServiceIndex → ℕ → Domain → Router → DomainEntry
made index default_ttl d router = record {
  name = d.name;
  ttl = registered_ttl d.ttl default_ttl;
  routing_algorithm = d.routing_algorithm;
  router = router;
  servers = collect index d.name d.regions;
}

-- What holds of a name in the map: its entry was made for one of the domains.
MadeFrom : ServiceIndex → List Domain → Domains → Text → Type 0
MadeFrom index ds m name =
    (entry : DomainEntry) × (lookup (normalize_domain name) m ≡ some entry)
    × ((d : Domain) × In d ds
        × (normalize_domain d.name ≡ normalize_domain name)
        × (entry.servers ≡ collect index d.name d.regions))

MadeFrom-register :
    (index : ServiceIndex) (default_ttl : ℕ) (all : List Domain) (d : Domain) (router : Router)
    (m : Domains) (name : Text)
    → In d all
    → (normalize_domain d.name ≡ normalize_domain name) ⊎ MadeFrom index all m name
    → MadeFrom index all (register m (made index default_ttl d router)) name
unfolding MadeFrom register made
MadeFrom-register index default_ttl all d router m name listed h =
    let key = normalize_domain d.name in
    let entry = record (made index default_ttl d router) { name = key } in
    elim (Bool-cases (key == normalize_domain name)) [
      | inl same ↦ (
        entry,
        rw (lookup-insert key (normalize_domain name) entry m, same) refl,
        (d, listed, (==_iff key (normalize_domain name)).0 same, refl),
      )
      | inr other ↦ elim h [
        | inl equal ↦ cc ((==_iff key (normalize_domain name)).1 equal)
        | inr (found, at, from) ↦
            (found, rw (lookup-insert key (normalize_domain name) entry m, other) at, from)
      ]
    ]

build_domains-built :
    (make : RouterFactory) (index : ServiceIndex) (default_ttl : ℕ) (all ds : List Domain)
    (m : Domains)
    → ((d : Domain) → In d ds → In d all × ((r : Router) × (make d.routing_algorithm ≡ some r)))
    → (next : Domains) × (build_domains make index default_ttl ds m ≡ built next)
      × ((name : Text) → MadeFrom index all m name → MadeFrom index all next name)
      × ((d : Domain) → In d ds → MadeFrom index all next d.name)
unfolding build_domains made
build_domains-built make index default_ttl all [] m h = (m, refl, λ name k. k, λ d k. elim k [ ])
build_domains-built make index default_ttl all (d ∷ ds) m h =
    let (listed, (router, makes)) = h d here in
    let (next, ends, keep, each) =
      build_domains-built make index default_ttl all ds
        (register m (made index default_ttl d router)) (λ e k. h e (there k)) in
    (
      next,
      rw (makes, build_domains) ends,
      λ name k. keep name (MadeFrom-register index default_ttl all d router m name listed (inr k)),
      λ e k. (elim (In-cons k) [
        | inr later ↦ each e later
        | inl now ↦
            subst (λ x. MadeFrom index all next x.name) (sym now)
              (keep d.name
                (MadeFrom-register index default_ttl all d router m d.name listed (inl refl)))
      ]),
    )

domains_or : Domains → Built Domains → Domains
domains_or default (build_failed e) = default
domains_or default (built m) = m

-- All addresses are results of `ParseIP`, if those of every collected server are.
pub build_domains-IsParsed :
    (net : Net) (make : RouterFactory) (index : ServiceIndex) (default_ttl : ℕ) (ds : List Domain)
    (m next : Domains)
    → ((service : Text) (names : List Text) → AllParsed net (collect index service names))
    → IsParsed net m
    → build_domains make index default_ttl ds m ≡ built next
    → IsParsed net next
unfolding build_domains register domains_or
build_domains-IsParsed net make index default_ttl [] m next parsed p h =
    subst (IsParsed net) (ap (domains_or m) h) p
build_domains-IsParsed net make index default_ttl (d ∷ ds) m next parsed p h =
    elim (Option-cases (make d.routing_algorithm)) [
      | inl bad ↦ cc (rw (bad, build_domains) at h)
      | inr (router, makes) ↦
          build_domains-IsParsed net make index default_ttl ds _ next parsed
            (inserted-IsParsed net m (normalize_domain d.name) _ (parsed d.name d.regions) p)
            (rw (makes, build_domains) at h)
    ]

-- A configuration that is not an agent's, that `Validate` accepts once `Load` has put in the defaults,
-- and whose servers all have an address that `ParseIP` reads, builds the map of domains without an
-- error, with the routers of the factory: every domain is found under its name, the addresses of all
-- servers are results of `ParseIP`, and the entry under a domain's name has exactly the servers that
-- belong to a domain of that name, up to the last dot, in the regions that this domain names, in the
-- order of the configuration.
pub build_registry-IsServed :
    (net : Net) (lib : Libraries) (f : Factory) (c : Config)
    → c.mode ≢ codes "agent"
    → validate lib (apply_defaults c) ≡ none
    → HasAddresses net (apply_defaults c)
    → (m : Domains) × (build_registry net (apply_defaults c) (factory_router f) ≡ built m)
      × ((d : Domain) → In d (apply_defaults c).domains → IsServed net (apply_defaults c) m d)
      × IsParsed net m
unfolding build_registry MadeFrom lookup_domain
build_registry-IsServed net lib f c mode ok addresses =
    let loaded = apply_defaults c in
    let (index, indexed) = index_regions-built net loaded.regions [] addresses in
    let accepted =
      validate-IsAccepted lib loaded (λ e. mode (sym (apply_defaults-mode c) ∙ e)) ok in
    let (m, ends, keep, each) =
      build_domains-built (factory_router f) index loaded.dns.default_ttl loaded.domains
        loaded.domains []
        (λ d k. (
          k,
          accepted-router f d.routing_algorithm (accepted d k).algorithm
              (apply_defaults-named lib c mode ok d k),
        )) in
    (
      m,
      rw (indexed, build_registry) ends,
      λ d k.
          (let (entry, at, (from, listed, same, servers)) = each d k in
            record {
              entry = entry;
              found = at;
              made_for = from;
              listed = listed;
              same_name = same;
              servers =
                  servers
                  ∙ collect-configured net loaded.regions index indexed from.name from.regions;
            }),
      build_domains-IsParsed net (factory_router f) index loaded.dns.default_ttl loaded.domains [] m
          (λ service names.
            subst (AllParsed net)
              (sym (collect-configured net loaded.regions index indexed service names))
              (configured-AllParsed net loaded.regions service names))
          tt ends,
    )
