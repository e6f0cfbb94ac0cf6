-- ===== src/Routing/Router/Soundness.antt =====
-- Every router answers with a server of its pool, or refuses an empty one (pkg/routing).
use open_gslb.Common.{ℕ, ◌<◌, ◌≡◌, refl, subst, List, [], ◌∷◌, In, half_mod}
use open_gslb.Routing.Core.{
  Server, Outcome, routed, no_healthy_servers, panicked, Context, Decision, chosen, fall_back,
  IsRoutedIn, IsSound, StaysIn, KeepsPool,
}
use open_gslb.Routing.RoundRobin.{round_robin, round_robin-IsSound, failover-IsSound}
use open_gslb.Routing.Weighted.{sum_weights, weighted-IsSound}
use open_gslb.Routing.Latency.{latency_decision}
use open_gslb.Routing.Latency.Choice.{latency_decision-StaysIn}
use open_gslb.Routing.Learned.{learned_decision}
use open_gslb.Routing.Learned.Fresh.{learned_decision-KeepsPool}
use open_gslb.Routing.Geo.{geo_decision}
use open_gslb.Routing.Geo.RegionOrder.{geo_decision-StaysIn}
use open_gslb.Routing.Router.{
  Router, round_robin_router, weighted_router, failover_router, geo_router, latency_router,
  learned_router, Moment, by_round_robin, route,
}

IsRoutedIn-mono :
    (small big : List Server) (o : Outcome)
    → ((s : Server) → In s small → In s big)
    → IsRoutedIn small o
    → IsRoutedIn big o
IsRoutedIn-mono small big (routed s) sub h = sub s h
IsRoutedIn-mono small big no_healthy_servers sub h = h
IsRoutedIn-mono small big panicked sub h = h

by_round_robin-IsRoutedIn :
    (counter : ℕ) (servers : List Server) (d : Decision)
    → StaysIn servers d
    → IsRoutedIn servers (by_round_robin counter d).1
unfolding by_round_robin
by_round_robin-IsRoutedIn counter servers (chosen s) h = h
by_round_robin-IsRoutedIn counter servers (fall_back []) h = absurd h
by_round_robin-IsRoutedIn counter servers (fall_back (s ∷ ss)) h =
    IsRoutedIn-mono (s ∷ ss) servers (round_robin counter (s ∷ ss)).1 h
      (round_robin-IsSound counter (s ∷ ss))

-- Every router answers with a server of its pool, or refuses because the pool is empty, if the
-- effective weights of the pool add up to less than 2 ^ 63: no router panics, and none refuses a
-- pool that has a server.
pub route-IsSound :
    (t : Moment) (ctx : Context) (r : Router) (servers : List Server)
    → sum_weights servers < half_mod
    → IsSound servers (route t ctx r servers).1
unfolding route
route-IsSound t ctx (round_robin_router counter) servers fit = round_robin-IsSound counter servers
route-IsSound t ctx weighted_router servers fit = weighted-IsSound t.intn servers fit
route-IsSound t ctx failover_router servers fit = failover-IsSound servers
route-IsSound t ctx (geo_router r counter) [] fit = refl
route-IsSound t ctx (geo_router r counter) (s ∷ ss) fit =
    by_round_robin-IsRoutedIn counter (s ∷ ss) (geo_decision r ctx (s ∷ ss))
      (geo_decision-StaysIn r ctx s ss)
route-IsSound t ctx (latency_router r counter) [] fit = refl
route-IsSound t ctx (latency_router r counter) (s ∷ ss) fit =
    by_round_robin-IsRoutedIn counter (s ∷ ss) (latency_decision r (s ∷ ss))
      (latency_decision-StaysIn r s ss)
route-IsSound t ctx (learned_router r fallback) [] fit = refl
route-IsSound t ctx (learned_router r fallback) (s ∷ ss) fit =
    go (learned_decision r t.now ctx (s ∷ ss)) refl
      (learned_decision-KeepsPool r t.now ctx (s ∷ ss)) (route-IsSound t ctx fallback (s ∷ ss) fit)
  where
    go :
        (d : Decision)
        → learned_decision r t.now ctx (s ∷ ss) ≡ d
        → KeepsPool (s ∷ ss) (learned_decision r t.now ctx (s ∷ ss))
        → IsRoutedIn (s ∷ ss) (route t ctx fallback (s ∷ ss)).1
        → IsRoutedIn (s ∷ ss) (route t ctx (learned_router r fallback) (s ∷ ss)).1
    go (chosen best) e keep ih = rw (e, route) (subst (KeepsPool (s ∷ ss)) e keep)
    go (fall_back pool) e keep ih = rw (e, route) (rw (subst (KeepsPool (s ∷ ss)) e keep) ih)
