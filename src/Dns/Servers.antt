-- ===== src/Dns/Servers.antt =====
-- Servers that come and go at run time (pkg/dns/registry.go, RegisterServer and DeregisterServer).
use open_gslb.Common.{
  ℕ, ◌<◌, ◌≡◌, ◌≢◌, ◌⊎◌, word_mod, refl, ◌∙◌, ap, Text, Option, none, some, Bool, true, false, List,
  arith, In, ◌==◌, ==_iff, text_eq, if◌then◌else◌, Bool-cases, Option-cases, inl, inr,
}
use open_gslb.Common.Table.{lookup, insert, lookup-insert, lookup_congr}
use open_gslb.Common.Keys.{server_key, server_key-injective}
use open_gslb.Routing.Core.{Ip}
use open_gslb.Dns.Net.{Net, ServerInfo, DomainEntry}
use open_gslb.Dns.Domains.{
  Domains, Error, server_not_found, normalize_domain, lookup_domain, key_of, put_server,
  register_server, drop_server, deregister_server,
}
use open_gslb.Dns.Dropping.{
  drop_server-put_server, IsDropped, drop_server-IsDropped, drop_server-none, none-drop_server,
}

-- The literal in `RegisterServer`.
abbrev pub the_server : Ip → ℕ → ℕ → Text → ServerInfo
the_server ip port weight region = record {
  address = ip;
  port = port;
  weight = weight;
  region = region;
}

is_false : (b : Bool) → ¬ (b ≡ true) → b ≡ false
is_false true h = absurd (h refl)
is_false false h = refl

module _ (net : Net) where
  -- The entry with other servers.
  abbrev pub with_servers : DomainEntry → List ServerInfo → DomainEntry
  with_servers entry servers = record entry { servers = servers }

  deregister_server-found :
      (m : Domains) (service address : Text) (port : ℕ) (entry : DomainEntry)
      (left : List ServerInfo)
      → lookup_domain m service ≡ some entry
      → drop_server net (server_key address port) entry.servers ≡ some left
      → deregister_server net m service address port
        ≡ (insert (normalize_domain service) (with_servers entry left) m, none)
  unfolding deregister_server lookup_domain
  deregister_server-found m service address port entry left e d = ground arith

  deregister_server-missing :
      (m : Domains) (service address : Text) (port : ℕ) (entry : DomainEntry)
      → lookup_domain m service ≡ some entry
      → drop_server net (server_key address port) entry.servers ≡ none
      → deregister_server net m service address port ≡ (m, some server_not_found)
  unfolding deregister_server lookup_domain
  deregister_server-missing m service address port entry e d = ground arith

  register_server-found :
      (m : Domains) (service address : Text) (port weight : ℕ) (region : Text) (entry : DomainEntry)
      (ip : Ip)
      → lookup_domain m service ≡ some entry
      → net.parse_ip address ≡ some ip
      → register_server net m service address port weight region ≡ (
        insert
            (normalize_domain service)
            (with_servers entry (
              put_server net
                (server_key address port)
                (record { address = ip; port = port; weight = weight; region = region })
                entry.servers))
            m,
        none,
      )
  unfolding register_server lookup_domain
  register_server-found m service address port weight region entry ip e p = ground arith

  lookup_domain-insert :
      (m : Domains) (service : Text) (entry : DomainEntry)
      → lookup_domain (insert (normalize_domain service) entry m) service ≡ some entry
  unfolding lookup_domain
  lookup_domain-insert m service entry =
      let name = normalize_domain service in
      ground (arith, lookup-insert name name entry m, ==_iff name name)

  lookup-insert_twice :
      (m : Domains) (name asked : Text) (old new : DomainEntry)
      → lookup name m ≡ some old
      → lookup asked (insert name old (insert name new m)) ≡ lookup asked m
  lookup-insert_twice m name asked old new e = ground (
    arith,
    lookup-insert name asked old (insert name new m),
    lookup-insert name asked new m,
    lookup_congr name asked m,
  )

  -- Registered, found by its key, and dropped again.
  deregister_registered :
      (m : Domains) (service address : Text) (port weight : ℕ) (region : Text) (entry : DomainEntry)
      (ip : Ip)
      → lookup_domain m service ≡ some entry
      → net.parse_ip address ≡ some ip
      → ((s : ServerInfo) → In s entry.servers → ¬ (key_of net s ≡ server_key address port))
      → let new = the_server ip port weight region in
        deregister_server net
          (register_server net m service address port weight region).0
          service
          address
          port
        ≡ (if key_of net new == server_key address port
            then (
              insert
                  (normalize_domain service)
                  entry
                  (register_server net m service address port weight region).0,
              none,
            )
            else (
              (register_server net m service address port weight region).0,
              some server_not_found,
            ))
  deregister_registered m service address port weight region entry ip e p absent =
      let key = server_key address port in
      let new = the_server ip port weight region in
      let after = with_servers entry (put_server net key new entry.servers) in
      let found = lookup_domain-insert m service after in
      let dropped =
        drop_server-put_server net key new entry.servers
          (drop_server-none net key entry.servers absent) in
      rw (register_server-found m service address port weight region entry ip e p)
        (elim (Bool-cases (key_of net new == key)) [
          | inl same ↦ rw same (
              deregister_server-found _ service address port after entry.servers found
                (rw same at dropped))
          | inr other ↦
              rw other
                (deregister_server-missing _ service address port after found (rw other at dropped))
        ])

-- Deregistering a server of a registered name takes out exactly one server with the key, if there is
-- one: the servers before are, in some order, that server and the servers after. Otherwise it is an
-- error with no effect.
pub deregister_server-IsDropped :
    (net : Net) (m : Domains) (service address : Text) (port : ℕ) (entry : DomainEntry)
    → lookup_domain m service ≡ some entry
    → let after = deregister_server net m service address port in
      ((left : List ServerInfo) × (after.1 ≡ none)
        × (lookup_domain after.0 service ≡ some (with_servers net entry left))
        × IsDropped net (server_key address port) entry.servers left)
      ⊎ ((after ≡ (m, some server_not_found))
          × ((s : ServerInfo) → In s entry.servers → ¬ (key_of net s ≡ server_key address port)))
deregister_server-IsDropped net m service address port entry e =
    elim (Option-cases (drop_server net (server_key address port) entry.servers)) [
      | inl absent ↦ inr (
        deregister_server-missing net m service address port entry e absent,
        λ s k. none-drop_server net (server_key address port) entry.servers s absent k,
      )
      | inr (left, found) ↦ inl (
        left,
        ap (λ (x : Domains × Option Error). x.1)
            (deregister_server-found net m service address port entry left e found),
        ap (λ (x : Domains × Option Error). lookup_domain x.0 service)
              (deregister_server-found net m service address port entry left e found)
            ∙ lookup_domain-insert net m service (with_servers net entry left),
        drop_server-IsDropped net (server_key address port) entry.servers left found,
      )
    ]

-- A server that is new to a registered name, under an address that is spelled as `String` prints it,
-- can be registered and deregistered again without an error, and then every name has the entry that
-- it had.
pub deregister_server-register_server :
    (net : Net) (m : Domains) (service address : Text) (port weight : ℕ) (region : Text)
    (entry : DomainEntry) (ip : Ip)
    → lookup_domain m service ≡ some entry
    → net.parse_ip address ≡ some ip
    → net.ip_string ip ≡ address
    → ((s : ServerInfo) → In s entry.servers → ¬ (key_of net s ≡ server_key address port))
    → let before = register_server net m service address port weight region in
      let after = deregister_server net before.0 service address port in
      (before.1 ≡ none)
      × (after.1 ≡ none)
      × ((asked : Text) → lookup asked after.0 ≡ lookup asked m)
unfolding key_of lookup_domain
deregister_server-register_server net m service address port weight region entry ip e p spelled
      absent =
    let made = register_server-found net m service address port weight region entry ip e p in
    let new = the_server ip port weight region in
    let gone = deregister_registered net m service address port weight region entry ip e p absent in
    let same =
      (==_iff (key_of net new) (server_key address port)).1 (ap (λ a. server_key a port) spelled) in
    (
      ap (λ (x : Domains × Option Error). x.1) made,
      ap (λ (x : Domains × Option Error). x.1) (rw same at gone),
      λ asked.
          ap (λ (x : Domains × Option Error). lookup asked x.0) (rw same at gone)
          ∙ rw made (
              lookup-insert_twice net m (normalize_domain service) asked entry
                (with_servers net entry
                  (put_server net (server_key address port) new entry.servers))
                e),
    )

-- A server that is registered, under a registered name, with any other spelling of its address than
-- `String` prints cannot be deregistered under that spelling: the registration succeeds, and
-- deregistering it is refused with no effect; for a port below 2 ^ 64, and if no server of the name has
-- the key of that spelling and port before the registration.
pub deregister_server-misspelled :
    (net : Net) (m : Domains) (service address : Text) (port weight : ℕ) (region : Text)
    (entry : DomainEntry) (ip : Ip)
    → port < word_mod
    → lookup_domain m service ≡ some entry
    → net.parse_ip address ≡ some ip
    → net.ip_string ip ≢ address
    → ((s : ServerInfo) → In s entry.servers → ¬ (key_of net s ≡ server_key address port))
    → let before = register_server net m service address port weight region in
      (before.1 ≡ none)
      × (deregister_server net before.0 service address port ≡ (before.0, some server_not_found))
unfolding key_of
deregister_server-misspelled net m service address port weight region entry ip small e p spelled
      absent =
    let made = register_server-found net m service address port weight region entry ip e p in
    let new = the_server ip port weight region in
    let gone = deregister_registered net m service address port weight region entry ip e p absent in
    let other = is_false (key_of net new == server_key address port) (λ h.
      spelled
        (server_key-injective (net.ip_string ip) address port port small small
          ((==_iff (key_of net new) (server_key address port)).0 h)).0) in
    (ap (λ (x : Domains × Option Error). x.1) made, rw other at gone)
