-- ===== src/Routing/Router.antt =====
-- The interface `Router` of pkg/routing/router.go over its implementations, and the factory of
-- pkg/routing/factory.go. Dynamic dispatch is a data type with a constructor for each router.
pub mod Soundness
pub mod Algorithms
use open_gslb.Common.{
  ℕ, ◌+◌, Text, codes, Option, none, some, ◌&&◌, ◌||◌, List, [], ◌∷◌, map, leb, nat_beq, int_lt,
  ◌==◌, text_eq, if◌then◌else◌,
}
use open_gslb.Routing.Core.{
  Server, Outcome, routed, no_healthy_servers, Context, Decision, chosen, fall_back,
}
use open_gslb.Routing.RoundRobin.{round_robin, failover}
use open_gslb.Routing.Weighted.{weighted}
use open_gslb.Routing.Latency.{LatencyRouter, Provider, new_latency_router, latency_decision}
use open_gslb.Routing.Learned.{
  LearnedLatencyRouter, LearnedProvider, new_learned_router, learned_decision,
}
use open_gslb.Routing.Geo.{GeoRouter, Resolver, geo_decision}

-- The fallback of a geolocation or latency router is a round robin, held as its counter.
pub data Router : Type 0 where
  round_robin_router : ℕ → Router
  weighted_router : Router
  failover_router : Router
  geo_router : GeoRouter → ℕ → Router
  latency_router : LatencyRouter → ℕ → Router
  learned_router : LearnedLatencyRouter → Router → Router

-- What a call meets: the draw of the random source and the time.
pub record Moment : Type 0 where
  pub intn : ℕ → ℕ
  pub now : ℕ

-- A decision is a server, or is made by a round robin over the pool that it names.
by_round_robin : ℕ → Decision → ℕ × Outcome
by_round_robin counter (chosen s) = (counter, routed s)
by_round_robin counter (fall_back pool) = round_robin counter pool

-- `Route`
unfoldable pub route : Moment → Context → Router → List Server → Router × Outcome
unfolding by_round_robin
route t ctx (round_robin_router counter) servers =
    let (next, o) = round_robin counter servers in (round_robin_router next, o)
route t ctx weighted_router servers = (weighted_router, weighted t.intn servers)
route t ctx failover_router servers = (failover_router, failover servers)
route t ctx (geo_router r counter) [] = (geo_router r counter, no_healthy_servers)
route t ctx (geo_router r counter) (s ∷ ss) =
    let (next, o) = by_round_robin counter (geo_decision r ctx (s ∷ ss)) in (geo_router r next, o)
route t ctx (latency_router r counter) [] = (latency_router r counter, no_healthy_servers)
route t ctx (latency_router r counter) (s ∷ ss) =
    let (next, o) = by_round_robin counter (latency_decision r (s ∷ ss)) in
    (latency_router r next, o)
route t ctx (learned_router r fallback) [] = (learned_router r fallback, no_healthy_servers)
route t ctx (learned_router r fallback) (s ∷ ss) = elim (learned_decision r t.now ctx (s ∷ ss)) [
  | chosen server ↦ (learned_router r fallback, routed server)
  | fall_back pool ↦ let (next, o) = route t ctx fallback pool in (learned_router r next, o)
]

-- `Algorithm`
unfoldable pub algorithm : Router → Text
algorithm (round_robin_router _) = codes "round-robin"
algorithm weighted_router = codes "weighted"
algorithm failover_router = codes "failover"
algorithm (geo_router _ _) = codes "geolocation"
algorithm (latency_router _ _) = codes "latency"
algorithm (learned_router _ _) = codes "learned_latency"

-- `strings.ToLower`, of a name in ASCII.
unfoldable pub to_lower : Text → Text
to_lower = map (λ c. if leb b'A' c && leb c b'Z' then c + 32 else c)

pub record Factory : Type 0 where
  pub geo_resolver : Option Resolver
  pub latency_provider : Option Provider
  pub learned_provider : Option LearnedProvider
  pub default_region : Text
  pub max_latency_ms : ℕ
  pub min_latency_samples : ℕ

-- `NewFactory`
unfoldable pub new_factory : Factory → Factory
new_factory cfg = record cfg {
  max_latency_ms = if nat_beq cfg.max_latency_ms 0 then 500 else cfg.max_latency_ms;
  min_latency_samples = if nat_beq cfg.min_latency_samples 0 then 3 else cfg.min_latency_samples;
}

-- `Factory.SetLatencyConfig`: only positive values are taken.
unfoldable pub set_latency_config : Factory → ℕ → ℕ → Factory
set_latency_config f ms samples = record f {
  max_latency_ms = if int_lt 0 ms then ms else f.max_latency_ms;
  min_latency_samples = if int_lt 0 samples then samples else f.min_latency_samples;
}

-- The `case` labels of the factory's `switch`.
pub data Kind : Type 0 where
  is_round_robin is_weighted is_failover is_geo is_latency is_learned is_unknown : Kind

unfoldable pub kind_of : Text → Kind
kind_of name =
    if name == codes "round-robin" || name == codes "roundrobin" || name == codes "rr"
    then is_round_robin
    else if name == codes "weighted" || name == codes "weight"
    then is_weighted
    else if name == codes "failover"
        || name == codes "active-standby"
        || name == codes "activestandby"
    then is_failover
    else if name == codes "geolocation" || name == codes "geo"
    then is_geo
    else if name == codes "latency"
    then is_latency
    else if name == codes "learned_latency" || name == codes "learned-latency"
    then is_learned
    else is_unknown

router_of : Factory → Kind → Option Router
router_of f is_round_robin = some (round_robin_router 0)
router_of f is_weighted = some weighted_router
router_of f is_failover = some failover_router
router_of f is_geo =
    some (geo_router (record { resolver = f.geo_resolver; default_region = f.default_region }) 0)
router_of f is_latency = some (
    latency_router (new_latency_router f.latency_provider f.max_latency_ms f.min_latency_samples) 0)
router_of f is_learned = some (
    learned_router (new_learned_router f.learned_provider f.max_latency_ms f.min_latency_samples 0)
      (round_robin_router 0))
router_of f is_unknown = none

-- `Factory.NewRouter`; `none` is the error "unknown routing algorithm".
unfoldable pub factory_router : Factory → Text → Option Router
unfolding kind_of to_lower router_of
factory_router f name = router_of f (kind_of (to_lower name))

-- The package's own `NewRouter`, which knows no learned latency.
plain_router_of : Kind → Option Router
plain_router_of is_round_robin = some (round_robin_router 0)
plain_router_of is_weighted = some weighted_router
plain_router_of is_failover = some failover_router
plain_router_of is_geo = some (geo_router (record { resolver = none; default_region = [] }) 0)
plain_router_of is_latency = some (latency_router (new_latency_router none 0 0) 0)
plain_router_of is_learned = none
plain_router_of is_unknown = none

unfoldable pub plain_router : Text → Option Router
unfolding kind_of to_lower plain_router_of
plain_router name = plain_router_of (kind_of (to_lower name))
