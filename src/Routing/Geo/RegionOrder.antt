-- ===== src/Routing/Geo/RegionOrder.antt =====
-- Which servers the geolocation router asks its round robin for (pkg/routing/geo.go).
use open_gslb.Common.{
  ◌≡◌, ◌≢◌, refl, sym, ◌∙◌, subst, ◌⊎◌, inl, inr, Text, some, List, [], ◌∷◌, arith, In,
  In-of_select, In-select, select_passes, ◌==◌, ==_iff, text_eq, Bool-cases, Option-cases,
}
use open_gslb.Routing.Core.{Server, Ip, Context, fall_back, StaysIn}
use open_gslb.Routing.Geo.{Resolver, GeoRouter, filter_by_region, or_default, geo_decision}

-- A list of just the pool's servers of one region, which has some.
pub record IsRegionPool (servers : List Server) (region : Text) (pool : List Server) : Type 0 where
  pub some_left : pool ≢ []
  pub inside : (s : Server) → In s pool → In s servers × (s.region ≡ region)
  pub complete : (s : Server) → In s servers → s.region ≡ region → In s pool

abbrev pub Absent : List Server → Text → Type 0
Absent servers region = (s : Server) → In s servers → s.region ≢ region

filter_by_region-IsRegionPool :
    (servers : List Server) (region : Text) (s : Server) (ss : List Server)
    → filter_by_region servers region ≡ s ∷ ss
    → IsRegionPool servers region (s ∷ ss)
unfolding filter_by_region
filter_by_region-IsRegionPool servers region s ss e = record {
  some_left = λ h. cc h;
  inside = λ t n.
      let k = subst (In t) (sym e) n in
      (
        In-of_select (λ x. x.region == region) servers k,
        (==_iff t.region region).0 (select_passes (λ x. x.region == region) servers k),
      );
  complete = λ t n h.
      subst (In t) e (In-select (λ x. x.region == region) servers n ((==_iff t.region region).1 h));
}

filter_by_region-Absent :
    (servers : List Server) (region : Text)
    → filter_by_region servers region ≡ []
    → Absent servers region
unfolding filter_by_region
filter_by_region-Absent servers region e s n h =
    nothing (
      subst (In s) e (In-select (λ x. x.region == region) servers n ((==_iff s.region region).1 h)))
  where
    nothing : In s [] → ⊥
    nothing k = elim k [ ]

region_cases :
    (servers : List Server) (region : Text)
    → ((s : Server) × (ss : List Server) × (filter_by_region servers region ≡ s ∷ ss)
        × IsRegionPool servers region (s ∷ ss))
      ⊎ ((filter_by_region servers region ≡ []) × Absent servers region)
region_cases servers region = go (filter_by_region servers region) refl
  where
    go :
        (l : List Server)
        → filter_by_region servers region ≡ l
        → ((s : Server) × (ss : List Server) × (filter_by_region servers region ≡ s ∷ ss)
            × IsRegionPool servers region (s ∷ ss))
          ⊎ ((filter_by_region servers region ≡ []) × Absent servers region)
    go [] e = inr (e, filter_by_region-Absent servers region e)
    go (s ∷ ss) e = inl (s, ss, e, filter_by_region-IsRegionPool servers region s ss e)

-- The pool that is asked, in the order of preference.
abbrev pub IsPreferred : List Server → Text → Text → List Server → Type 0
IsPreferred servers region default pool =
    IsRegionPool servers region pool
    ⊎ (Absent servers region × IsRegionPool servers default pool)
    ⊎ (Absent servers region × Absent servers default × (pool ≡ servers))

or_default-IsPreferred :
    (r : GeoRouter) (servers : List Server) (region : Text)
    → (pool : List Server) × (or_default r servers region (filter_by_region servers region)
        ≡ fall_back pool)
      × IsPreferred servers region r.default_region pool
unfolding or_default
or_default-IsPreferred r servers region = elim (region_cases servers region) [
  | inl (s, ss, e, p) ↦ (s ∷ ss, rw (e, or_default), inl p)
  | inr (e, absent) ↦ elim (Bool-cases (region == r.default_region)) [
    | inl same ↦ (
      servers,
      rw (e, or_default, same),
      inr (
          inr (
            absent,
            subst (Absent servers) ((==_iff region r.default_region).0 same) absent,
            refl,
          )),
    )
    | inr other ↦ elim (region_cases servers r.default_region) [
      | inl (s, ss, d, p) ↦ (s ∷ ss, rw (e, or_default, other, d), inr (inl (absent, p)))
      | inr (d, none_there) ↦
          (servers, rw (e, or_default, other, d), inr (inr (absent, none_there, refl)))
    ]
  ]
]

geo_decision-resolved :
    (r : GeoRouter) (ctx : Context) (servers : List Server) (ip : Ip) (resolve : Resolver)
    → ctx.client_ip ≡ some ip
    → r.resolver ≡ some resolve
    → geo_decision r ctx servers
      ≡ or_default r servers (resolve ip) (filter_by_region servers (resolve ip))
unfolding geo_decision
geo_decision-resolved r ctx servers ip resolve known ready = ground arith

-- With a client address and a resolver, the router asks its round robin for: exactly the pool's
-- servers of the client's region, if there are some; else exactly those of the default region, if
-- there are some; else the whole pool.
pub geo_decision-IsPreferred :
    (r : GeoRouter) (ctx : Context) (servers : List Server) (ip : Ip) (resolve : Resolver)
    → ctx.client_ip ≡ some ip
    → r.resolver ≡ some resolve
    → (pool : List Server) × (geo_decision r ctx servers ≡ fall_back pool)
      × IsPreferred servers (resolve ip) r.default_region pool
geo_decision-IsPreferred r ctx servers ip resolve known ready =
    let (pool, e, p) = or_default-IsPreferred r servers (resolve ip) in
    (pool, geo_decision-resolved r ctx servers ip resolve known ready ∙ e, p)

IsRegionPool-StaysIn :
    (servers : List Server) (region : Text) (pool : List Server)
    → IsRegionPool servers region pool
    → StaysIn servers (fall_back pool)
IsRegionPool-StaysIn servers region [] p = p.some_left refl
IsRegionPool-StaysIn servers region (s ∷ ss) p = λ t k. (p.inside t k).0

IsPreferred-StaysIn :
    (s : Server) (ss : List Server) (region default : Text) (pool : List Server)
    → IsPreferred (s ∷ ss) region default pool
    → StaysIn (s ∷ ss) (fall_back pool)
IsPreferred-StaysIn s ss region default pool (inl p) = IsRegionPool-StaysIn (s ∷ ss) region pool p
IsPreferred-StaysIn s ss region default pool (inr (inl (_, p))) =
    IsRegionPool-StaysIn (s ∷ ss) default pool p
IsPreferred-StaysIn s ss region default pool (inr (inr (_, _, e))) = rw e (λ t k. k)

-- The geolocation router stays inside its pool.
pub geo_decision-StaysIn :
    (r : GeoRouter) (ctx : Context) (s : Server) (ss : List Server)
    → StaysIn (s ∷ ss) (geo_decision r ctx (s ∷ ss))
unfolding geo_decision
geo_decision-StaysIn r ctx s ss = elim (Option-cases ctx.client_ip) [
  | inl e ↦ rw (e, geo_decision) (λ t k. k)
  | inr (ip, known) ↦ elim (Option-cases r.resolver) [
    | inl e ↦ rw (known, geo_decision, e) (λ t k. k)
    | inr (resolve, ready) ↦
        let (pool, e, p) = geo_decision-IsPreferred r ctx (s ∷ ss) ip resolve known ready in
        rw e (IsPreferred-StaysIn s ss (resolve ip) r.default_region pool p)
  ]
]
