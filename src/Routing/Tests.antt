-- ===== src/Routing/Tests.antt =====
-- Runs of pkg/routing on a pool of three servers in two regions.
use open_gslb.Common.{
  ℕ, ◌+◌, ◌%◌, ◌<◌, ◌≡◌, refl, inr, codes, some, true, List, [], ◌∷◌, arith, In, here, there,
  int_le, ltb, text_beq, text_eq, select, if◌then◌else◌,
}
use open_gslb.Routing.Core.{Server, Context, chosen, fall_back, routed, IsSound}
use open_gslb.Routing.RoundRobin.{nth_answer, at_index, round_robin_fair}
use open_gslb.Routing.Weighted.{weighted, weight_before, effective_weight, weighted_selects}
use open_gslb.Routing.Lowest.{lowest, choose}
use open_gslb.Routing.Latency.{Provider, LatencyRouter, new_latency_router, latency_decision}
use open_gslb.Routing.Latency.Choice.{
  Counts, Meets, smoothed_of, latency_decision_within, latency_decision_otherwise,
}
use open_gslb.Routing.Learned.{
  LearnedLatencyRouter, LearnedProvider, addr_from_slice, with_learned, new_learned_router,
  learned_decision,
}
use open_gslb.Routing.Learned.Fresh.{IsJustified, learned_decision-IsJustified}
use open_gslb.Routing.Geo.{GeoRouter, Resolver, geo_decision}
use open_gslb.Routing.Geo.RegionOrder.{IsPreferred, geo_decision-IsPreferred}
use open_gslb.Routing.Router.{
  Router, latency_router, Factory, Moment, route, factory_router, algorithm,
}
use open_gslb.Routing.Router.Soundness.{route-IsSound}
use open_gslb.Routing.Router.Algorithms.{algorithm-factory_router}

abbrev server_a : Server
server_a = record { address = codes "a"; port = 80; weight = 3; region = codes "eu" }

abbrev server_b : Server
server_b = record { address = codes "b"; port = 80; weight = 0; region = codes "us" }

abbrev server_c : Server
server_c = record { address = codes "c"; port = 81; weight = 2; region = codes "us" }

abbrev pool : List Server
pool = server_a ∷ server_b ∷ server_c ∷ []

round_robin_fair_example :
    (k : ℕ) × (k < 3)
    × (nth_answer k pool 7 ≡ at_index pool 0)
    × ((j : ℕ)
        → j < 3
        → (nth_answer j pool 7 ≡ at_index pool ((7 + j) % 3)) × ((7 + j) % 3 ≡ 0 → j ≡ k))
round_robin_fair_example =
    round_robin_fair server_a (server_b ∷ server_c ∷ []) 7 0 (omega arith) (omega arith)

weighted_selects_example : weighted (λ n. 4) pool ≡ routed server_c
unfolding weight_before effective_weight
weighted_selects_example =
    weighted_selects (λ n. 4) server_a (server_b ∷ server_c ∷ []) 2 server_c (omega arith) refl
      (omega arith) (omega arith)

abbrev client : Context
client = record { client_ip = some (10 ∷ 0 ∷ 0 ∷ 1 ∷ []); domain = codes "app.example.com" }

-- A server on port 81 is near, the others are far.
abbrev latencies : Provider
latencies address port = record {
  smoothed = if ltb 80 port then 20_000_000 else 90_000_000;
  samples = 10;
  last = 1;
  has_data = true;
}

abbrev by_latency : LatencyRouter
by_latency = new_latency_router (some latencies) 0 0

latency_decision_within_example :
    (best : Server) × (latency_decision by_latency pool ≡ chosen best)
    × In best pool
    × Counts by_latency latencies best
    × Meets by_latency latencies best
    × (int_le (smoothed_of latencies best) (smoothed_of latencies server_b) ≡ true)
unfolding new_latency_router
latency_decision_within_example =
    latency_decision_within by_latency latencies pool server_b refl (there here) refl refl refl

-- With a threshold of 10 ms no server meets it.
abbrev strict : LatencyRouter
strict = record by_latency { max_latency_ms = 10 }

latency_decision_otherwise_example :
    (best : Server) × (latency_decision strict pool ≡ chosen best)
    × In best pool
    × Counts strict latencies best
    × (int_le (smoothed_of latencies best) (smoothed_of latencies server_a) ≡ true)
unfolding new_latency_router
latency_decision_otherwise_example =
    latency_decision_otherwise strict latencies pool server_a refl here refl
      (inr (λ t k h. ground arith))

abbrev learned_data : LearnedProvider
learned_data ip domain region =
    some (record { backend = domain; ewma = 30_000_000; sample_count = 9; last_updated = 1_000 })

abbrev by_learned : LearnedLatencyRouter
by_learned = new_learned_router (some learned_data) 0 0 0

learned_run : learned_decision by_learned 2_000 client pool ≡ chosen server_a
unfolding learned_decision addr_from_slice new_learned_router with_learned text_beq choose select
    lowest
learned_run = refl

learned_decision-IsJustified_example : IsJustified by_learned 2_000 client pool server_a
learned_decision-IsJustified_example =
    learned_decision-IsJustified by_learned 2_000 client pool server_a learned_run

abbrev regions : Resolver
regions ip = codes "us"

abbrev by_region : GeoRouter
by_region = record { resolver = some regions; default_region = codes "eu" }

geo_decision-IsPreferred_example :
    (asked : List Server) × (geo_decision by_region client pool ≡ fall_back asked)
    × IsPreferred pool (codes "us") (codes "eu") asked
geo_decision-IsPreferred_example =
    geo_decision-IsPreferred by_region client pool (10 ∷ 0 ∷ 0 ∷ 1 ∷ []) regions refl refl

abbrev moment : Moment
moment = record { intn = λ n. 4; now = 2_000 }

route-IsSound_example : IsSound pool (route moment client (latency_router by_latency 5) pool).1
unfolding weight_before effective_weight
route-IsSound_example = route-IsSound moment client (latency_router by_latency 5) pool (omega arith)

abbrev factory : Factory
factory = record {
  geo_resolver = some regions;
  latency_provider = some latencies;
  learned_provider = some learned_data;
  default_region = codes "eu";
  max_latency_ms = 500;
  min_latency_samples = 3;
}

algorithm-factory_router_example :
    (made : Router) × (factory_router factory (algorithm (latency_router by_latency 5)) ≡ some made)
    × (algorithm made ≡ algorithm (latency_router by_latency 5))
algorithm-factory_router_example = algorithm-factory_router factory (latency_router by_latency 5)
