-- ===== src/Dns/Reload/Fresh.antt =====
-- A hot reload (cmd/opengslb/app.go, reloadDNSRegistry) beside a start with the same configuration.
use open_gslb.Common.{
  ℕ, ◌≡◌, ◌≢◌, refl, sym, ap, ◌∙◌, subst, ◌⊎◌, inl, inr, Text, Option, some, List, [], ◌∷◌, In,
  here, there, In-cons, arith, ◌==◌, ==_iff, text_eq, Bool-cases, Option-cases,
}
use open_gslb.Common.Table.{
  lookup, insert, lookup-insert, AllEntries, AllEntries-insert, AllEntries-lookup,
}
use open_gslb.Config.Types.{Domain, Config}
use open_gslb.Routing.Geo.{Resolver}
use open_gslb.Routing.Latency.{Provider}
use open_gslb.Routing.Router.{factory_router}
use open_gslb.Dns.Net.{Net, DomainEntry}
use open_gslb.Dns.Domains.{
  Domains, RouterFactory, end_with_dot, normalize_domain, register, lookup_domain, clear,
  replace_all,
}
use open_gslb.Dns.Build.{
  Built, built, build_failed, ServiceIndex, index_regions, build_domains, build_registry,
}
use open_gslb.Dns.Reload.{
  registered_names, found_entries, reload_factory, reload_dns_registry, Built-cases,
}

end_with_dot-ne : (c : ℕ) (cs : Text) → end_with_dot c cs ≢ []
unfolding end_with_dot
end_with_dot-ne c [] e = ground arith
end_with_dot-ne c (d ∷ ds) e = cc e

end_with_dot-cons : (c : ℕ) (t : Text) → t ≢ [] → end_with_dot c t ≡ c ∷ normalize_domain t
unfolding end_with_dot normalize_domain
end_with_dot-cons c [] h = elim (h refl) [ ]
end_with_dot-cons c (d ∷ ds) h = refl

end_with_dot-end_with_dot :
    (c : ℕ) (cs : Text) → normalize_domain (end_with_dot c cs) ≡ end_with_dot c cs
unfolding normalize_domain end_with_dot
end_with_dot-end_with_dot c [] = ground arith
end_with_dot-end_with_dot c (d ∷ ds) =
    end_with_dot-cons c (end_with_dot d ds) (end_with_dot-ne d ds)
    ∙ ap (λ t. c ∷ t) (end_with_dot-end_with_dot d ds)

normalize_domain-normalize_domain :
    (name : Text) → normalize_domain (normalize_domain name) ≡ normalize_domain name
unfolding normalize_domain
normalize_domain-normalize_domain [] = refl
normalize_domain-normalize_domain (c ∷ cs) = end_with_dot-end_with_dot c cs

-- An entry has the name that it stands under, and that ends in a dot.
abbrev IsNamed : Domains → Type 0
IsNamed m = AllEntries (λ key entry. (entry.name ≡ key) × (normalize_domain key ≡ key)) m

register-IsNamed : (m : Domains) (entry : DomainEntry) → IsNamed m → IsNamed (register m entry)
unfolding register
register-IsNamed m entry p =
    AllEntries-insert (λ key entry. (entry.name ≡ key) × (normalize_domain key ≡ key)) _ _ m
      (refl, normalize_domain-normalize_domain entry.name) p

build_domains-IsNamed :
    (make : RouterFactory) (index : ServiceIndex) (default_ttl : ℕ) (ds : List Domain)
    (m next : Domains)
    → IsNamed m
    → build_domains make index default_ttl ds m ≡ built next
    → IsNamed next
unfolding build_domains
build_domains-IsNamed make index default_ttl [] m next p h = subst IsNamed (cc h) p
build_domains-IsNamed make index default_ttl (d ∷ ds) m next p h =
    elim (Option-cases (make d.routing_algorithm)) [
      | inl bad ↦ cc (rw (bad, build_domains) at h)
      | inr (router, makes) ↦
          build_domains-IsNamed make index default_ttl ds _ next (register-IsNamed m _ p)
            (rw (makes, build_domains) at h)
    ]

build_registry-IsNamed :
    (net : Net) (c : Config) (make : RouterFactory) (m : Domains)
    → build_registry net c make ≡ built m
    → IsNamed m
unfolding build_registry
build_registry-IsNamed net c make m h = elim (Built-cases (index_regions net c.regions [])) [
  | inl (e, failed) ↦ cc (rw (failed, build_registry) at h)
  | inr (index, indexed) ↦
      build_domains-IsNamed make index c.dns.default_ttl c.domains [] m tt
        (rw (indexed, build_registry) at h)
]

-- What the one map says of a name, the other says.
abbrev Within : Domains → Domains → Type 0
Within acc m =
    (key : Text) (entry : DomainEntry) → lookup key acc ≡ some entry → lookup key m ≡ some entry

abbrev Holds : Domains → Text → Type 0
Holds m key = (entry : DomainEntry) × (lookup key m ≡ some entry)

register-name :
    (acc : Domains) (name : Text) (entry : DomainEntry)
    → entry.name ≡ name
    → normalize_domain name ≡ name
    → register acc entry ≡ insert name entry acc
unfolding register
register-name acc name entry same ends =
    ap (λ k. insert k (record entry { name = k }) acc) (ap normalize_domain same ∙ ends ∙ sym same)
    ∙ ap (λ k. insert k entry acc) same

lookup-name :
    (m : Domains) (key : Text) (entry : DomainEntry)
    → lookup key m ≡ some entry
    → In key (registered_names m)
unfolding registered_names lookup
lookup-name [] key entry h = cc
lookup-name ((name, e) ∷ m) key entry h = elim (Bool-cases (name == key)) [
  | inl same ↦ subst (λ k. In k (name ∷ registered_names m)) ((==_iff name key).0 same) here
  | inr other ↦ there (lookup-name m key entry (rw other at h))
]

insert-Holds :
    (acc : Domains) (name key : Text) (entry : DomainEntry)
    → (name ≡ key) ⊎ Holds acc key
    → Holds (insert name entry acc) key
insert-Holds acc name key entry h = elim (Bool-cases (name == key)) [
  | inl same ↦ (entry, rw (lookup-insert name key entry acc, same) refl)
  | inr other ↦ elim h [
    | inl equal ↦ cc ((==_iff name key).1 equal)
    | inr (e, held) ↦ (e, rw (lookup-insert name key entry acc, other) held)
  ]
]

insert-Within :
    (acc m : Domains) (name : Text) (entry : DomainEntry)
    → Within acc m
    → lookup name m ≡ some entry
    → Within (insert name entry acc) m
insert-Within acc m name entry within found key e h = elim (Bool-cases (name == key)) [
  | inl same ↦
      subst (λ k. lookup k m ≡ some e) ((==_iff name key).0 same)
        (found ∙ (rw (lookup-insert name key entry acc, same) at h))
  | inr other ↦ within key e (rw (lookup-insert name key entry acc, other) at h)
]

found_entries-cons :
    (m : Domains) (name : Text) (names : List Text) (acc : Domains) (entry : DomainEntry)
    → lookup (normalize_domain name) m ≡ some entry
    → replace_all (found_entries m (name ∷ names)) acc
      ≡ replace_all (found_entries m names) (register acc entry)
unfolding replace_all found_entries lookup_domain
found_entries-cons m name names acc entry e = rw (found_entries, e) refl

-- The entries that are found under the names of a map, put into another that is within it.
replace_all-found :
    (m : Domains) (names : List Text) (acc : Domains)
    → IsNamed m
    → ((name : Text) → In name names → Holds m name)
    → Within acc m
    → let result = replace_all (found_entries m names) acc in
      Within result m × ((key : Text) → In key names ⊎ Holds acc key → Holds result key)
unfolding replace_all found_entries
replace_all-found m [] acc p all within =
    (within, λ key h. elim h [ inl n ↦ elim n [ ] | inr k ↦ k ])
replace_all-found m (name ∷ names) acc p all within =
    let (entry, found) = all name here in
    let (same, ends) =
      AllEntries-lookup (λ key entry. (entry.name ≡ key) × (normalize_domain key ≡ key)) name entry
        m p found in
    let (inside, holds) =
      replace_all-found m names (insert name entry acc) p (λ k n. all k (there n))
        (insert-Within acc m name entry within found) in
    let step =
      found_entries-cons m name names acc entry (ap (λ k. lookup k m) ends ∙ found)
      ∙ ap (replace_all (found_entries m names)) (register-name acc name entry same ends) in
    subst
      (λ result.
        Within result m × ((key : Text) → In key (name ∷ names) ⊎ Holds acc key → Holds result key))
      (sym step)
      (
        inside,
        λ key h. holds key (elim h [
          | inr held ↦ inr (insert-Holds acc name key entry (inr held))
          | inl listed ↦ elim (In-cons listed) [
            | inl now ↦ inr (insert-Holds acc name key entry (inl (sym now)))
            | inr later ↦ inl later
          ]
        ]),
      )

names-Holds : (m : Domains) (name : Text) → In name (registered_names m) → Holds m name
unfolding registered_names lookup
names-Holds [] name n = elim n [ ]
names-Holds ((key, e) ∷ m) name n = elim (Bool-cases (key == name)) [
  | inl same ↦ (e, rw same refl)
  | inr other ↦ elim (In-cons n) [
    | inl now ↦ cc (other, (==_iff key name).1 (sym now))
    | inr later ↦ let (entry, found) = names-Holds m name later in (entry, rw other found)
  ]
]

-- The map that is made of a map's entries says of each name what that map says.
lookup-replace_all :
    (m : Domains) (key : Text)
    → IsNamed m
    → lookup key (replace_all (found_entries m (registered_names m)) []) ≡ lookup key m
unfolding lookup
lookup-replace_all m key p =
    let result = replace_all (found_entries m (registered_names m)) [] in
    let (inside, holds) =
      replace_all-found m (registered_names m) [] p (names-Holds m) (λ k e h. cc h) in
    elim (Option-cases (lookup key m)) [
      | inr (entry, found) ↦
          let (e, held) = holds key (inl (lookup-name m key entry found)) in
          held ∙ sym (inside key e held)
      | inl absent ↦ elim (Option-cases (lookup key result)) [
        | inl gone ↦ gone ∙ sym absent
        | inr (e, held) ↦ cc (inside key e held)
      ]
    ]

-- The map with which the program goes on: that of a start with the configuration, or the one it had.
abbrev pub started_with : Domains → Built Domains → Domains
started_with m (build_failed e) = m
started_with m (built next) = next

-- After a hot reload every name has the entry that it has after a start with the new configuration and
-- the reload's factory of routers, and none that it had before, unless this start is refused: then
-- every name keeps its entry.
pub lookup-reload_dns_registry :
    (net : Net) (m : Domains) (c : Config) (latency : Provider) (geo : Option Resolver)
    (name : Text)
    → let make = factory_router (reload_factory latency geo) in
      lookup_domain (reload_dns_registry net m c latency geo) name
      ≡ lookup_domain (started_with m (build_registry net c make)) name
unfolding reload_dns_registry clear lookup_domain
lookup-reload_dns_registry net m c latency geo name =
    let make = factory_router (reload_factory latency geo) in
    elim (Built-cases (build_registry net c make)) [
      | inl (e, failed) ↦ rw (failed, reload_dns_registry) refl
      | inr (next, made) ↦
          rw (made, reload_dns_registry)
            (lookup-replace_all next (normalize_domain name)
              (build_registry-IsNamed net c make next made))
    ]
