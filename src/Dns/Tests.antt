-- ===== src/Dns/Tests.antt =====
-- Runs of pkg/dns with one domain and two addresses.
use open_gslb.Common.{
  ◌≡◌, refl, ◌⊎◌, inl, inr, Text, codes, none, some, false, ◌||◌, List, [], ◌∷◌, arith, In, In-cons,
  ◌==◌, ==_iff, text_eq, text_beq, if◌then◌else◌,
}
use open_gslb.Common.Table.{lookup}
use open_gslb.Common.Keys.{server_key}
use open_gslb.Routing.Core.{Ip}
use open_gslb.Routing.Router.{Moment, round_robin_router}
use open_gslb.Dns.Net.{Net, ServerInfo, DomainEntry}
use open_gslb.Dns.Domains.{
  Domains, normalize_domain, lookup_domain, key_of, register_server, deregister_server,
  server_not_found,
}
use open_gslb.Dns.Dropping.{IsDropped}
use open_gslb.Dns.Handler.{Handler, ipv4}
use open_gslb.Dns.Serving.{Op, do_clear, do_replace_all, do_register_server, do_answer, run}
use open_gslb.Dns.Servers.{
  with_servers, deregister_server-IsDropped, deregister_server-register_server,
  deregister_server-misspelled,
}

abbrev v4_bytes : Ip
v4_bytes = 0 ∷ 0 ∷ 0 ∷ 0 ∷ 0 ∷ 0 ∷ 0 ∷ 0 ∷ 0 ∷ 0 ∷ 255 ∷ 255 ∷ 10 ∷ 0 ∷ 0 ∷ 1 ∷ []

abbrev v6_bytes : Ip
v6_bytes = 254 ∷ 128 ∷ 0 ∷ 0 ∷ 0 ∷ 0 ∷ 0 ∷ 0 ∷ 0 ∷ 0 ∷ 0 ∷ 0 ∷ 0 ∷ 0 ∷ 0 ∷ 1 ∷ []

-- Two addresses, one of them with two spellings.
abbrev two_addresses : Net
two_addresses = record {
  parse_ip = λ t.
      if t == codes "10.0.0.1"
      then some v4_bytes
      else if t == codes "fe80::1" || t == codes "FE80::1"
      then some v6_bytes
      else none;
  ip_string = λ a. if a == v4_bytes then codes "10.0.0.1" else codes "fe80::1";
  to4 = λ a. if a == v4_bytes then some (10 ∷ 0 ∷ 0 ∷ 1 ∷ []) else none;
}

abbrev old_server : ServerInfo
old_server = record { address = v4_bytes; port = 80; weight = 5; region = codes "eu" }

abbrev app : DomainEntry
app = record {
  name = codes "app.";
  ttl = 0;
  routing_algorithm = codes "round-robin";
  router = round_robin_router 3;
  servers = old_server ∷ [];
}

abbrev served : Domains
served = (codes "app.", app) ∷ []

abbrev handler : Handler
handler = record { domains = served; health = none; default_ttl = 60 }

abbrev moment : Moment
moment = record { intn = λ n. 0; now = 1 }

deregister_server-IsDropped_example :
    let after = deregister_server two_addresses served (codes "app") (codes "10.0.0.1") 80 in
    ((left : List ServerInfo) × (after.1 ≡ none)
      × (lookup_domain after.0 (codes "app") ≡ some (with_servers two_addresses app left))
      × IsDropped two_addresses (server_key (codes "10.0.0.1") 80) app.servers left)
    ⊎ ((after ≡ (served, some server_not_found))
        × ((s : ServerInfo)
            → In s app.servers
            → ¬ (key_of two_addresses s ≡ server_key (codes "10.0.0.1") 80)))
unfolding lookup_domain normalize_domain lookup text_beq
deregister_server-IsDropped_example =
    deregister_server-IsDropped two_addresses served (codes "app") (codes "10.0.0.1") 80 app refl

apart : (a b : Text) → (a == b) ≡ false → ¬ (a ≡ b)
apart a b h e = ground (arith, ==_iff a b)

-- No server of the domain has an IPv6 address.
absent_key :
    (s : ServerInfo)
    → In s app.servers
    → ¬ (key_of two_addresses s ≡ server_key (codes "fe80::1") 80)
unfolding key_of server_key text_beq
absent_key s k e = elim (In-cons k) [
  | inl same ↦
      apart (key_of two_addresses old_server) (server_key (codes "fe80::1") 80) refl (rw same at e)
  | inr m ↦ elim m [ ]
]

absent_spelling :
    (s : ServerInfo)
    → In s app.servers
    → ¬ (key_of two_addresses s ≡ server_key (codes "FE80::1") 80)
unfolding key_of server_key text_beq
absent_spelling s k e = elim (In-cons k) [
  | inl same ↦
      apart (key_of two_addresses old_server) (server_key (codes "FE80::1") 80) refl (rw same at e)
  | inr m ↦ elim m [ ]
]

deregister_server-register_server_example :
    let before =
      register_server two_addresses served (codes "app") (codes "fe80::1") 80 5 (codes "eu") in
    let after = deregister_server two_addresses before.0 (codes "app") (codes "fe80::1") 80 in
    (before.1 ≡ none)
    × (after.1 ≡ none)
    × ((asked : Text) → lookup asked after.0 ≡ lookup asked served)
unfolding lookup_domain normalize_domain lookup text_beq
deregister_server-register_server_example =
    deregister_server-register_server two_addresses served (codes "app") (codes "fe80::1") 80 5
      (codes "eu") app v6_bytes refl refl refl absent_key

deregister_server-misspelled_example :
    let before =
      register_server two_addresses served (codes "app") (codes "FE80::1") 80 5 (codes "eu") in
    (before.1 ≡ none)
    × (deregister_server two_addresses before.0 (codes "app") (codes "FE80::1") 80
        ≡ (before.0, some server_not_found))
unfolding lookup_domain normalize_domain lookup text_beq
deregister_server-misspelled_example =
    deregister_server-misspelled two_addresses served (codes "app") (codes "FE80::1") 80 5
      (codes "eu") app v6_bytes (omega arith) refl refl
      (apart (codes "fe80::1") (codes "FE80::1") refl) absent_spelling

abbrev changes : List Op
changes =
    do_clear
    ∷ do_replace_all (app ∷ [])
    ∷ do_register_server (codes "app") (codes "FE80::1") 80 5 (codes "eu")
    ∷ do_answer moment none ipv4 (codes "app")
    ∷ []

abbrev changed : Handler
changed = run two_addresses handler changes
