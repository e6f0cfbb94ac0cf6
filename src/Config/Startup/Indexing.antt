-- ===== src/Config/Startup/Indexing.antt =====
-- pkg/dns/registry.go: the index of `BuildRegistry` by region and service is a plain filter of the
-- configuration.
use open_gslb.Common.{
  ◌≡◌, refl, sym, ap, ◌∙◌, ◌⊎◌, inl, inr, Text, none, some, Bool, true, false, List, [], ◌∷◌, ◌++◌,
  ◌==◌, ==_iff, text_eq, pair_eq, Bool-cases, Option-cases, if◌then◌else◌,
}
use open_gslb.Common.Table.{lookup, lookup-insert}
use open_gslb.Routing.Core.{Ip}
use open_gslb.Config.Types.{Server, Region}
use open_gslb.Dns.Net.{Net, ServerInfo}
use open_gslb.Dns.Build.{
  ServiceIndex, BuildError, Built, build_failed, built, listed, index_server, index_servers,
  index_regions, collect,
}

++_assoc {ℓ} : {A : Type ℓ} (xs ys zs : List A) → (xs ++ ys) ++ zs ≡ xs ++ (ys ++ zs)
++_assoc [] ys zs = refl
++_assoc (x ∷ xs) ys zs = ap (λ l. x ∷ l) (++_assoc xs ys zs)

++_nil {ℓ} : {A : Type ℓ} (xs : List A) → xs ++ [] ≡ xs
++_nil [] = refl
++_nil (x ∷ xs) = ap (λ l. x ∷ l) (++_nil xs)

Built-cases :
    (b : Built ServiceIndex)
    → ((e : BuildError) × (b ≡ build_failed e)) ⊎ ((index : ServiceIndex) × (b ≡ built index))
Built-cases (build_failed e) = inl (e, refl)
Built-cases (built index) = inr (index, refl)

payload : ServiceIndex → Built ServiceIndex → ServiceIndex
payload default (build_failed e) = default
payload default (built index) = index

if_nil : (b : Bool) (xs : List ServerInfo) → xs ++ (if b then [] else []) ≡ xs
if_nil true xs = ++_nil xs
if_nil false xs = ++_nil xs

-- What the index holds of a region and a service.
under : ServiceIndex → Text → Text → List ServerInfo
under index region service = listed (lookup (region, service) index)

under_same :
    (index : ServiceIndex) (region name of service : Text) (l : List ServerInfo)
    → region ≡ name
    → of ≡ service
    → under index region of ++ l ≡ under index name service ++ l
under_same index region name of service l p q =
    ap (λ r. under index r of ++ l) p ∙ ap (λ v. under index name v ++ l) q

module _ (net : Net) where
  -- A server, if it belongs to the service and its address parses.
  unfoldable pub one_of : Text → Text → Server → List ServerInfo
  one_of region service s =
      if s.service == service
      then (elim (net.parse_ip s.address) [
        | none ↦ []
        | some ip ↦ record { address = ip; port = s.port; weight = s.weight; region = region } ∷ []
      ])
      else []

  unfoldable pub of_service : Text → Text → List Server → List ServerInfo
  unfolding one_of
  of_service region service [] = []
  of_service region service (s ∷ ss) = one_of region service s ++ of_service region service ss

  unfoldable pub in_region : Text → Text → List Region → List ServerInfo
  unfolding of_service
  in_region region service [] = []
  in_region region service (r ∷ rs) =
      let rest = in_region region service rs in
      if r.name == region then of_service region service r.servers ++ rest else rest

  -- A domain's servers, read off the configuration.
  unfoldable pub configured : List Region → Text → List Text → List ServerInfo
  unfolding in_region
  configured regions service [] = []
  configured regions service (name ∷ names) =
      in_region name service regions ++ configured regions service names

  under-index_server :
      (region name service : Text) (s : Server) (ip : Ip) (index : ServiceIndex)
      → net.parse_ip s.address ≡ some ip
      → under
          (index_server region s.service
            (record { address = ip; port = s.port; weight = s.weight; region = region })
            index)
          name
          service
        ≡ under index name service ++ (if region == name then one_of region service s else [])
  unfolding under index_server one_of
  under-index_server region name service s ip index h = elim (Bool-cases (region == name)) [
    | inr other ↦
        rw (lookup-insert (region, s.service) (name, service) _ index, other) (sym (++_nil _))
    | inl same ↦ elim (Bool-cases (s.service == service)) [
      | inr other ↦
          rw (lookup-insert (region, s.service) (name, service) _ index, same, other)
            (sym (++_nil _))
      | inl both ↦
          rw (lookup-insert (region, s.service) (name, service) _ index, same, both, h)
            (under_same index region name s.service service _ ((==_iff region name).0 same)
              ((==_iff s.service service).0 both))
    ]
  ]

  under-index_servers :
      (region name service : Text) (ss : List Server) (index next : ServiceIndex)
      → index_servers net region ss index ≡ built next
      → under next name service
        ≡ under index name service ++ (if region == name then of_service region service ss else [])
  unfolding index_servers of_service payload
  under-index_servers region name service [] index next h =
      sym (ap (λ b. under (payload index b) name service) h)
      ∙ sym (if_nil (region == name) (under index name service))
  under-index_servers region name service (s ∷ ss) index next h =
      elim (Option-cases (net.parse_ip s.address)) [
        | inl bad ↦ cc (rw (bad, index_servers) at h)
        | inr (ip, good) ↦
            let step = under-index_server region name service s ip index good in
            let rest =
              under-index_servers region name service ss _ next (rw (good, index_servers) at h) in
            elim (Bool-cases (region == name)) [
              | inl same ↦ rw same (
                  (rw same at rest)
                  ∙ ap (λ u. u ++ of_service region service ss) (rw same at step)
                  ∙ ++_assoc (under index name service) (one_of region service s)
                      (of_service region service ss))
              | inr other ↦ rw other ((rw other at rest) ∙ ++_nil _ ∙ (rw other at step))
            ]
      ]

  -- The index that the loop over all regions makes.
  under-index_regions :
      (name service : Text) (rs : List Region) (index next : ServiceIndex)
      → index_regions net rs index ≡ built next
      → under next name service ≡ under index name service ++ in_region name service rs
  unfolding index_regions in_region payload
  under-index_regions name service [] index next h =
      sym (ap (λ b. under (payload index b) name service) h)
      ∙ sym (++_nil (under index name service))
  under-index_regions name service (r ∷ rs) index next h =
      elim (Built-cases (index_servers net r.name r.servers index)) [
        | inl (e, bad) ↦ cc (rw (bad, index_regions) at h)
        | inr (mid, good) ↦
            let first = under-index_servers r.name name service r.servers index mid good in
            let rest =
              under-index_regions name service rs mid next (rw (good, index_regions) at h) in
            elim (Bool-cases (r.name == name)) [
              | inl same ↦ rw same (
                  rest
                  ∙ ap (λ u. u ++ in_region name service rs) (rw same at first)
                  ∙ ++_assoc (under index name service) (of_service r.name service r.servers)
                      (in_region name service rs)
                  ∙ ap
                      (λ n.
                        under index name service
                        ++ (of_service n service r.servers ++ in_region name service rs))
                      ((==_iff r.name name).0 same))
              | inr other ↦
                  rw other (
                    rest
                    ∙ ap (λ u. u ++ in_region name service rs) ((rw other at first) ∙ ++_nil _))
            ]
      ]

  -- What the builder collects for a domain is what the configuration says.
  pub collect-configured :
      (rs : List Region) (index : ServiceIndex)
      → index_regions net rs [] ≡ built index
      → (service : Text) (names : List Text)
      → collect index service names ≡ configured rs service names
  unfolding collect configured under listed lookup
  collect-configured rs index h service [] = refl
  collect-configured rs index h service (name ∷ names) =
      ap (λ u. u ++ collect index service names) (under-index_regions name service rs [] index h)
      ∙ ap (λ u. in_region name service rs ++ u) (collect-configured rs index h service names)
