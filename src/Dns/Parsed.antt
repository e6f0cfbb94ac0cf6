-- ===== src/Dns/Parsed.antt =====
-- Where the addresses of a domain's servers come from (pkg/dns/registry.go).
use open_gslb.Common.{
  ℕ, ◌≡◌, subst, inl, inr, Text, some, some-injective, List, [], ◌∷◌, In, here, there, In-cons,
  ◌==◌, text_eq, Bool-cases, Option-cases,
}
use open_gslb.Common.Table.{lookup, insert, AllEntries, AllEntries-insert, AllEntries-lookup}
use open_gslb.Common.Keys.{server_key}
use open_gslb.Dns.Net.{Net, ServerInfo, DomainEntry, AllParsed}
use open_gslb.Dns.Domains.{
  Domains, RouterFactory, normalize_domain, register, key_of, put_server, register_server, last_of,
  all_but_last, swap_out, drop_server, deregister_server, reweigh, update_server_weight,
  register_domain, update_domain_settings,
}

module _ (net : Net) where
  -- Every server of every domain has an address that `ParseIP` returned.
  abbrev pub IsParsed : Domains → Type 0
  IsParsed m = AllEntries (λ key entry. AllParsed net entry.servers) m

  put_server-AllParsed :
      (key : Text) (new : ServerInfo) (ss : List ServerInfo)
      → (t : Text) × (net.parse_ip t ≡ some new.address)
      → AllParsed net ss
      → AllParsed net (put_server net key new ss)
  unfolding put_server
  put_server-AllParsed key new [] p a x k = elim (In-cons k) [ inl e ↦ rw e p | inr n ↦ elim n [ ] ]
  put_server-AllParsed key new (s ∷ ss) p a x k = elim (Bool-cases (key_of net s == key)) [
    | inl same ↦ elim (In-cons (rw same at k)) [ inl e ↦ rw e p | inr n ↦ a x (there n) ]
    | inr other ↦ elim (In-cons (rw other at k)) [
      | inl e ↦ rw e (a s here)
      | inr n ↦ put_server-AllParsed key new ss p (λ y m. a y (there m)) x n
    ]
  ]

  last_of-In : (t : ServerInfo) (ss : List ServerInfo) → In (last_of t ss) (t ∷ ss)
  unfolding last_of
  last_of-In t [] = here
  last_of-In t (u ∷ ss) = there (last_of-In u ss)

  all_but_last-In :
      (t : ServerInfo) (ss : List ServerInfo) (x : ServerInfo)
      → In x (all_but_last t ss)
      → In x (t ∷ ss)
  unfolding all_but_last
  all_but_last-In t [] x k = elim k [ ]
  all_but_last-In t (u ∷ ss) x k = elim (In-cons k) [
    | inl e ↦ rw e here
    | inr n ↦ there (all_but_last-In u ss x n)
  ]

  swap_out-AllParsed : (ss : List ServerInfo) → AllParsed net ss → AllParsed net (swap_out ss)
  unfolding swap_out
  swap_out-AllParsed [] a x k = a x k
  swap_out-AllParsed (t ∷ ss) a x k = elim (In-cons k) [
    | inl e ↦ rw e (a (last_of t ss) (last_of-In t ss))
    | inr n ↦ a x (all_but_last-In t ss x n)
  ]

  cons-AllParsed :
      (s : ServerInfo) (ss : List ServerInfo)
      → (t : Text) × (net.parse_ip t ≡ some s.address)
      → AllParsed net ss
      → AllParsed net (s ∷ ss)
  cons-AllParsed s ss p a x k = elim (In-cons k) [ inl e ↦ rw e p | inr n ↦ a x n ]

  drop_server-AllParsed :
      (key : Text) (ss left : List ServerInfo)
      → drop_server net key ss ≡ some left
      → AllParsed net ss
      → AllParsed net left
  unfolding drop_server
  drop_server-AllParsed key [] left e a = cc
  drop_server-AllParsed key (s ∷ ss) left e a = elim (Bool-cases (key_of net s == key)) [
    | inl same ↦
        subst (AllParsed net) (some-injective _ _ (rw same at e))
          (swap_out-AllParsed ss (λ y m. a y (there m)))
    | inr other ↦ elim (Option-cases (drop_server net key ss)) [
      | inl absent ↦ cc (rw (other, absent) at e)
      | inr (rest, found) ↦ subst (AllParsed net) (some-injective _ _ (rw (other, found) at e)) (
          cons-AllParsed s rest (a s here)
            (drop_server-AllParsed key ss rest found (λ y m. a y (there m))))
    ]
  ]

  reweigh-AllParsed :
      (key : Text) (weight : ℕ) (ss left : List ServerInfo)
      → reweigh net key weight ss ≡ some left
      → AllParsed net ss
      → AllParsed net left
  unfolding reweigh
  reweigh-AllParsed key weight [] left e a = cc
  reweigh-AllParsed key weight (s ∷ ss) left e a = elim (Bool-cases (key_of net s == key)) [
    | inl same ↦
        subst (AllParsed net) (some-injective _ _ (rw same at e))
          (cons-AllParsed (record s { weight = weight }) ss (a s here) (λ y m. a y (there m)))
    | inr other ↦ elim (Option-cases (reweigh net key weight ss)) [
      | inl absent ↦ cc (rw (other, absent) at e)
      | inr (rest, found) ↦ subst (AllParsed net) (some-injective _ _ (rw (other, found) at e)) (
          cons-AllParsed s rest (a s here)
            (reweigh-AllParsed key weight ss rest found (λ y m. a y (there m))))
    ]
  ]

  found-AllParsed :
      (m : Domains) (name : Text) (entry : DomainEntry)
      → IsParsed m
      → lookup name m ≡ some entry
      → AllParsed net entry.servers
  found-AllParsed m name entry p e =
      AllEntries-lookup (λ key entry. AllParsed net entry.servers) name entry m p e

  pub inserted-IsParsed :
      (m : Domains) (name : Text) (entry : DomainEntry)
      → AllParsed net entry.servers
      → IsParsed m
      → IsParsed (insert name entry m)
  inserted-IsParsed m name entry a p =
      AllEntries-insert (λ key entry. AllParsed net entry.servers) name entry m a p

  pub register_server-IsParsed :
      (m : Domains) (service address : Text) (port weight : ℕ) (region : Text)
      → IsParsed m
      → IsParsed (register_server net m service address port weight region).0
  unfolding register_server
  register_server-IsParsed m service address port weight region p =
      elim (Option-cases (lookup (normalize_domain service) m)) [
        | inl e ↦ rw (e, register_server) p
        | inr (entry, e) ↦ elim (Option-cases (net.parse_ip address)) [
          | inl bad ↦ rw (e, register_server, bad) p
          | inr (ip, read) ↦
              rw (e, register_server, read)
                (inserted-IsParsed m (normalize_domain service) _
                  (put_server-AllParsed (server_key address port) _ entry.servers (address, read)
                    (found-AllParsed m (normalize_domain service) entry p e))
                  p)
        ]
      ]

  pub deregister_server-IsParsed :
      (m : Domains) (service address : Text) (port : ℕ)
      → IsParsed m
      → IsParsed (deregister_server net m service address port).0
  unfolding deregister_server
  deregister_server-IsParsed m service address port p =
      elim (Option-cases (lookup (normalize_domain service) m)) [
        | inl e ↦ rw (e, deregister_server) p
        | inr (entry, e) ↦
            elim (Option-cases (drop_server net (server_key address port) entry.servers)) [
              | inl absent ↦ rw (e, deregister_server, absent) p
              | inr (left, found) ↦
                  rw (e, deregister_server, found)
                    (inserted-IsParsed m (normalize_domain service) _
                      (drop_server-AllParsed (server_key address port) entry.servers left found
                        (found-AllParsed m (normalize_domain service) entry p e))
                      p)
            ]
      ]

  pub update_server_weight-IsParsed :
      (m : Domains) (service address : Text) (port weight : ℕ)
      → IsParsed m
      → IsParsed (update_server_weight net m service address port weight).0
  unfolding update_server_weight
  update_server_weight-IsParsed m service address port weight p =
      elim (Option-cases (lookup (normalize_domain service) m)) [
        | inl e ↦ rw (e, update_server_weight) p
        | inr (entry, e) ↦
            elim (Option-cases (reweigh net (server_key address port) weight entry.servers)) [
              | inl absent ↦ rw (e, update_server_weight, absent) p
              | inr (left, found) ↦
                  rw (e, update_server_weight, found)
                    (inserted-IsParsed m (normalize_domain service) _
                      (reweigh-AllParsed (server_key address port) weight entry.servers left found
                        (found-AllParsed m (normalize_domain service) entry p e))
                      p)
            ]
      ]

  pub register_domain-IsParsed :
      (m : Domains) (name : Text) (ttl : ℕ) (algorithm : Text) (make : RouterFactory)
      → IsParsed m
      → IsParsed (register_domain m name ttl algorithm make).0
  unfolding register_domain register
  register_domain-IsParsed m name ttl algorithm make p = elim (Option-cases (make algorithm)) [
    | inl e ↦ rw (e, register_domain) p
    | inr (router, e) ↦
        rw (e, register_domain)
          (inserted-IsParsed m (normalize_domain name) _ (λ s k. elim k [ ]) p)
  ]

  pub update_domain_settings-IsParsed :
      (m : Domains) (name : Text) (ttl : ℕ) (algorithm : Text) (make : RouterFactory)
      → IsParsed m
      → IsParsed (update_domain_settings m name ttl algorithm make).0
  unfolding update_domain_settings
  update_domain_settings-IsParsed m name ttl algorithm make p =
      elim (Option-cases (lookup (normalize_domain name) m)) [
        | inl e ↦ rw (e, update_domain_settings) p
        | inr (entry, e) ↦ elim (Option-cases (make algorithm)) [
          | inl bad ↦ rw (e, update_domain_settings, bad) p
          | inr (router, made) ↦
              rw (e, update_domain_settings, made)
                (inserted-IsParsed m (normalize_domain name) _
                  (found-AllParsed m (normalize_domain name) entry p e) p)
        ]
      ]
