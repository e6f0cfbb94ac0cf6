-- ===== src/Routing/Geo.antt =====
-- pkg/routing/geo.go, less logging and metrics. `resolver.Resolve` is an argument: the region that it
-- gives an address, by a custom mapping, the GeoIP database or its default.
pub mod RegionOrder
use open_gslb.Common.{
  ℕ, ◌≡◌, refl, Text, Option, none, some, Bool, true, false, not, List, [], ◌∷◌, arith, In, select,
  ◌==◌, text_eq, if◌then◌else◌,
}
use open_gslb.Routing.Core.{Server, Ip, Context, Decision, fall_back}

-- `*geo.Resolver`, as far as the router uses it.
abbrev pub Resolver : Type 0
Resolver = Ip → Text

pub record GeoRouter : Type 0 where
  pub resolver : Option Resolver
  pub default_region : Text

unfoldable pub filter_by_region : List Server → Text → List Server
filter_by_region servers region = select (λ s. s.region == region) servers

-- `if len(defaultServers) > 0 { ... }`, and then any server.
or_any : List Server → List Server → Decision
or_any servers [] = fall_back servers
or_any servers (d ∷ ds) = fall_back (d ∷ ds)

-- `if len(regionServers) > 0 { ... }`, and then the default region, if it is another one.
or_default : GeoRouter → List Server → Text → List Server → Decision
unfolding or_any
or_default r servers region [] =
    if not (region == r.default_region)
    then or_any servers (filter_by_region servers r.default_region)
    else fall_back servers
or_default r servers region (s ∷ ss) = fall_back (s ∷ ss)

-- `Route` on a pool that is not empty.
unfoldable pub geo_decision : GeoRouter → Context → List Server → Decision
unfolding or_default
geo_decision r ctx servers = elim ctx.client_ip [
  | none ↦ fall_back servers
  | some ip ↦ elim r.resolver [
    | none ↦ fall_back servers
    | some resolve ↦
        let region = resolve ip in or_default r servers region (filter_by_region servers region)
  ]
]
