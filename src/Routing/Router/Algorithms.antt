-- ===== src/Routing/Router/Algorithms.antt =====
-- The names under which the factory makes routers (pkg/routing/factory.go).
use open_gslb.Common.{◌≡◌, refl, List, codes, In, here, there, Text, some, [], ◌∷◌, text_beq}
use open_gslb.Routing.Router.{
  Router, round_robin_router, weighted_router, failover_router, geo_router, latency_router,
  learned_router, Factory, algorithm, to_lower, factory_router, router_of, kind_of,
}

-- Every router is made under the name that it reports: the factory takes the algorithm name of any
-- router, and what it makes reports that name.
pub algorithm-factory_router :
    (f : Factory) (r : Router)
    → (made : Router) × (factory_router f (algorithm r) ≡ some made)
      × (algorithm made ≡ algorithm r)
unfolding factory_router algorithm text_beq
algorithm-factory_router f (round_robin_router _) = (round_robin_router 0, refl, refl)
algorithm-factory_router f weighted_router = (weighted_router, refl, refl)
algorithm-factory_router f failover_router = (failover_router, refl, refl)
algorithm-factory_router f (geo_router _ _) = (_, refl, refl)
algorithm-factory_router f (latency_router _ _) = (_, refl, refl)
algorithm-factory_router f (learned_router _ _) = (_, refl, refl)

-- The names that a configuration file may give.
abbrev pub plain_names : List Text
plain_names =
    codes "round-robin"
    ∷ codes "weighted"
    ∷ codes "failover"
    ∷ codes "geolocation"
    ∷ codes "latency"
    ∷ []

makes_plain :
    (f : Factory) (name : Text)
    → In name plain_names
    → (r : Router) × (router_of f (kind_of name) ≡ some r)
unfolding kind_of router_of text_beq
makes_plain f name here = (_, refl)
makes_plain f name (there here) = (_, refl)
makes_plain f name (there (there here)) = (_, refl)
makes_plain f name (there (there (there here))) = (_, refl)
makes_plain f name (there (there (there (there here)))) = (_, refl)
makes_plain f name (there (there (there (there (there m))))) = elim m [ ]

pub factory_router_plain :
    (f : Factory) (name : Text)
    → In (to_lower name) plain_names
    → (r : Router) × (factory_router f name ≡ some r)
unfolding factory_router
factory_router_plain f name m = makes_plain f (to_lower name) m
