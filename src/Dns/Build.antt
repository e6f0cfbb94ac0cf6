-- ===== src/Dns/Build.antt =====
-- pkg/dns/registry.go: `BuildRegistry`, which makes the map of domains from a configuration.
use open_gslb.Common.{
  ℕ, ◌%◌, ◌^◌, Text, Option, none, some, List, [], ◌∷◌, ◌++◌, nat_beq, text_eq, pair_eq,
  if◌then◌else◌,
}
use open_gslb.Common.Table.{Table, lookup, insert}
use open_gslb.Config.Types.{Server, Region, Domain, Config}
use open_gslb.Dns.Net.{Net, ServerInfo}
use open_gslb.Dns.Domains.{Domains, RouterFactory, register}

pub data BuildError : Type 0 where
  bad_address : Text → Text → BuildError
  bad_router : Text → BuildError

pub data Built {ℓ} (A : Type ℓ) : Type ℓ where
  build_failed : BuildError → Built A
  built : A → Built A

-- `regionServiceServers`, under the names of the region and the service.
abbrev pub ServiceIndex : Type 0
ServiceIndex = Table (Text × Text) (List ServerInfo)

-- What a nil slice and a missing one read as.
unfoldable pub listed : Option (List ServerInfo) → List ServerInfo
listed none = []
listed (some servers) = servers

-- `uint32`
abbrev pub to_uint32 : ℕ → ℕ
to_uint32 n = n % 2 ^ 32

unfoldable pub registered_ttl : ℕ → ℕ → ℕ
registered_ttl ttl default_ttl =
    if nat_beq (to_uint32 ttl) 0 then to_uint32 default_ttl else to_uint32 ttl

-- `append(index[key], server)`
unfoldable pub index_server : Text → Text → ServerInfo → ServiceIndex → ServiceIndex
unfolding listed
index_server region service s index =
    insert (region, service) (listed (lookup (region, service) index) ++ s ∷ []) index

module _ (net : Net) where
  -- The loop over the servers of a region.
  unfoldable pub index_servers : Text → List Server → ServiceIndex → Built ServiceIndex
  unfolding index_server
  index_servers region [] index = built index
  index_servers region (s ∷ ss) index = elim (net.parse_ip s.address) [
    | none ↦ build_failed (bad_address region s.address)
    | some ip ↦ index_servers region ss (
        index_server region s.service
          (record { address = ip; port = s.port; weight = s.weight; region = region }) index)
  ]

  unfoldable pub index_regions : List Region → ServiceIndex → Built ServiceIndex
  unfolding index_servers
  index_regions [] index = built index
  index_regions (r ∷ rs) index = elim (index_servers r.name r.servers index) [
    | build_failed e ↦ build_failed e
    | built next ↦ index_regions rs next
  ]

-- The servers of a domain, region by region.
unfoldable pub collect : ServiceIndex → Text → List Text → List ServerInfo
unfolding listed
collect index service [] = []
collect index service (region ∷ regions) =
    listed (lookup (region, service) index) ++ collect index service regions

-- The loop over the domains.
unfoldable pub build_domains :
    RouterFactory → ServiceIndex → ℕ → List Domain → Domains → Built Domains
unfolding registered_ttl collect
build_domains make index default_ttl [] m = built m
build_domains make index default_ttl (d ∷ ds) m = elim (make d.routing_algorithm) [
  | none ↦ build_failed (bad_router d.name)
  | some router ↦ build_domains make index default_ttl ds (
      register m (record {
        name = d.name;
        ttl = registered_ttl d.ttl default_ttl;
        routing_algorithm = d.routing_algorithm;
        router = router;
        servers = collect index d.name d.regions;
      }))
]

unfoldable pub build_registry : Net → Config → RouterFactory → Built Domains
unfolding index_regions build_domains
build_registry net c make = elim (index_regions net c.regions []) [
  | build_failed e ↦ build_failed e
  | built index ↦ build_domains make index c.dns.default_ttl c.domains []
]
