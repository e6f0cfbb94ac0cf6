-- ===== src/Config/Startup/Addresses.antt =====
-- Where the addresses of the servers come from that `BuildRegistry` lists (pkg/dns/registry.go).
use open_gslb.Common.{
  sym, ap, ◌∙◌, subst, ◌⊎◌, inl, inr, Text, some, List, [], ◌∷◌, ◌++◌, In, here, there, In-cons,
  ◌==◌, text_eq, Bool-cases, Option-cases,
}
use open_gslb.Config.Types.{Server, Region}
use open_gslb.Dns.Net.{Net, ServerInfo, AllParsed}
use open_gslb.Config.Startup.Indexing.{one_of, of_service, in_region, configured}

In-of_append : {A : Type 0} {a : A} (xs ys : List A) → In a (xs ++ ys) → In a xs ⊎ In a ys
In-of_append [] ys m = inr m
In-of_append (x ∷ xs) ys m = elim (In-cons m) [
  | inl same ↦ inl (subst (λ b. In b (x ∷ xs)) (sym same) here)
  | inr later ↦ elim (In-of_append xs ys later) [
    | inl left ↦ inl (there left)
    | inr right ↦ inr right
  ]
]

module _ (net : Net) where
  one_of-AllParsed :
      (region service : Text) (s : Server) → AllParsed net (one_of net region service s)
  unfolding one_of
  one_of-AllParsed region service s = elim (Bool-cases (s.service == service)) [
    | inr other ↦ rw other (λ t m. elim m [ ])
    | inl same ↦ elim (Option-cases (net.parse_ip s.address)) [
      | inl bad ↦ rw (same, bad) (λ t m. elim m [ ])
      | inr (ip, good) ↦
          rw (same, good)
            (λ t m. elim (In-cons m) [
              | inl now ↦ (s.address, good ∙ ap (λ i. some i.address) (sym now))
              | inr later ↦ elim later [ ]
            ])
    ]
  ]

  append-AllParsed :
      (xs ys : List ServerInfo) → AllParsed net xs → AllParsed net ys → AllParsed net (xs ++ ys)
  append-AllParsed xs ys left right t m = elim (In-of_append xs ys m) [
    | inl k ↦ left t k
    | inr k ↦ right t k
  ]

  of_service-AllParsed :
      (region service : Text) (ss : List Server) → AllParsed net (of_service net region service ss)
  unfolding of_service
  of_service-AllParsed region service [] = λ t m. elim m [ ]
  of_service-AllParsed region service (s ∷ ss) =
      append-AllParsed _ _ (one_of-AllParsed region service s)
        (of_service-AllParsed region service ss)

  in_region-AllParsed :
      (region service : Text) (rs : List Region) → AllParsed net (in_region net region service rs)
  unfolding in_region
  in_region-AllParsed region service [] = λ t m. elim m [ ]
  in_region-AllParsed region service (r ∷ rs) = elim (Bool-cases (r.name == region)) [
    | inr other ↦ rw other (in_region-AllParsed region service rs)
    | inl same ↦ rw same (
        append-AllParsed _ _ (of_service-AllParsed region service r.servers)
          (in_region-AllParsed region service rs))
  ]

  -- The addresses of the servers of a domain are results of `ParseIP`.
  pub configured-AllParsed :
      (rs : List Region) (service : Text) (names : List Text)
      → AllParsed net (configured net rs service names)
  unfolding configured
  configured-AllParsed rs service [] = λ t m. elim m [ ]
  configured-AllParsed rs service (name ∷ names) =
      append-AllParsed _ _ (in_region-AllParsed name service rs)
        (configured-AllParsed rs service names)
