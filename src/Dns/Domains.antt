-- ===== src/Dns/Domains.antt =====
-- pkg/dns/registry.go, less logging: the map of domains. An entry is held by pointer, so what changes
-- it changes the entry of the map; the mutex makes each method one step. A `RouterFactory` is a
-- function that may fail.
use open_gslb.Common.{
  ℕ, Text, Option, none, some, List, [], ◌∷◌, nat_beq, ◌==◌, text_eq, length, if◌then◌else◌,
}
use open_gslb.Common.Table.{Table, lookup, insert, erase}
use open_gslb.Common.Keys.{server_key}
use open_gslb.Routing.Router.{Router}
use open_gslb.Dns.Net.{Net, ServerInfo, DomainEntry}

abbrev pub Domains : Type 0
Domains = Table Text DomainEntry

abbrev pub RouterFactory : Type 0
RouterFactory = Text → Option Router

pub data Error : Type 0 where
  not_configured invalid_address server_not_found no_router : Error

-- A name that is not empty, given by its first byte and the rest, ends in a dot.
unfoldable pub end_with_dot : ℕ → Text → Text
end_with_dot c [] = if nat_beq c b'.' then c ∷ [] else c ∷ b'.' ∷ []
end_with_dot c (d ∷ ds) = c ∷ end_with_dot d ds

unfoldable pub normalize_domain : Text → Text
unfolding end_with_dot
normalize_domain [] = []
normalize_domain (c ∷ cs) = end_with_dot c cs

unfoldable pub register : Domains → DomainEntry → Domains
unfolding normalize_domain
register m entry =
    let name = normalize_domain entry.name in insert name (record entry { name = name }) m

unfoldable pub lookup_domain : Domains → Text → Option DomainEntry
lookup_domain m name = lookup (normalize_domain name) m

unfoldable pub remove : Domains → Text → Domains
remove m name = erase (normalize_domain name) m

unfoldable pub count : Domains → ℕ
count m = length m

-- `Clear` and `ReplaceAll`, which builds a new map.
unfoldable pub clear : Domains → Domains
clear m = []

unfoldable pub replace_all : List DomainEntry → Domains → Domains
unfolding register
replace_all [] m = m
replace_all (entry ∷ entries) m = replace_all entries (register m entry)

module _ (net : Net) where
  -- The key of a server in an entry.
  unfoldable pub key_of : ServerInfo → Text
  unfolding server_key
  key_of s = server_key (net.ip_string s.address) s.port

  -- The loop of `RegisterServer`: the first server with the key is replaced, or one is added.
  unfoldable pub put_server : Text → ServerInfo → List ServerInfo → List ServerInfo
  put_server key new [] = new ∷ []
  put_server key new (s ∷ ss) =
      let rest = put_server key new ss in if key_of s == key then new ∷ ss else s ∷ rest

  unfoldable pub register_server : Domains → Text → Text → ℕ → ℕ → Text → Domains × Option Error
  unfolding put_server
  register_server m service address port weight region =
      elim (lookup (normalize_domain service) m) [
        | none ↦ (m, some not_configured)
        | some entry ↦ elim (net.parse_ip address) [
          | none ↦ (m, some invalid_address)
          | some ip ↦ (
            insert (normalize_domain service)
                (record entry {
                  servers =
                      put_server (server_key address port)
                        (record { address = ip; port = port; weight = weight; region = region })
                        entry.servers;
                })
                m,
            none,
          )
        ]
      ]

-- `servers[len(servers)-1]`, and the list without it.
unfoldable pub last_of : ServerInfo → List ServerInfo → ServerInfo
last_of s [] = s
last_of s (t ∷ ss) = last_of t ss

unfoldable pub all_but_last : ServerInfo → List ServerInfo → List ServerInfo
all_but_last s [] = []
all_but_last s (t ∷ ss) = s ∷ all_but_last t ss

-- The first place is overwritten with the last server, and the list cut by one.
unfoldable pub swap_out : List ServerInfo → List ServerInfo
unfolding last_of all_but_last
swap_out [] = []
swap_out (t ∷ ss) = last_of t ss ∷ all_but_last t ss

module _ (net : Net) where
  -- The loop of `DeregisterServer`: `none` if no server has the key. What stands behind the first
  -- match is a list of its own, and the last server of that list is the last of the whole.
  unfoldable pub drop_server : Text → List ServerInfo → Option (List ServerInfo)
  unfolding key_of swap_out
  drop_server key [] = none
  drop_server key (s ∷ ss) =
      let rest = drop_server key ss in
      if key_of net s == key
      then some (swap_out ss)
      else (elim rest [ none ↦ none | some left ↦ some (s ∷ left) ])

  unfoldable pub deregister_server : Domains → Text → Text → ℕ → Domains × Option Error
  unfolding drop_server
  deregister_server m service address port = elim (lookup (normalize_domain service) m) [
    | none ↦ (m, some not_configured)
    | some entry ↦ elim (drop_server (server_key address port) entry.servers) [
      | none ↦ (m, some server_not_found)
      | some left ↦ (insert (normalize_domain service) (record entry { servers = left }) m, none)
    ]
  ]

  -- The loop of `UpdateServerWeight`.
  unfoldable pub reweigh : Text → ℕ → List ServerInfo → Option (List ServerInfo)
  unfolding key_of
  reweigh key weight [] = none
  reweigh key weight (s ∷ ss) =
      let rest = reweigh key weight ss in
      if key_of net s == key
      then some (record s { weight = weight } ∷ ss)
      else (elim rest [ none ↦ none | some left ↦ some (s ∷ left) ])

  unfoldable pub update_server_weight : Domains → Text → Text → ℕ → ℕ → Domains × Option Error
  unfolding reweigh
  update_server_weight m service address port weight = elim (lookup (normalize_domain service) m) [
    | none ↦ (m, some not_configured)
    | some entry ↦ elim (reweigh (server_key address port) weight entry.servers) [
      | none ↦ (m, some server_not_found)
      | some left ↦ (insert (normalize_domain service) (record entry { servers = left }) m, none)
    ]
  ]

unfoldable pub register_domain : Domains → Text → ℕ → Text → RouterFactory → Domains × Option Error
unfolding register
register_domain m name ttl algorithm make = elim (make algorithm) [
  | none ↦ (m, some no_router)
  | some router ↦ (
    register m (record {
      name = name;
      ttl = ttl;
      routing_algorithm = algorithm;
      router = router;
      servers = [];
    }),
    none,
  )
]

-- The name of the algorithm in the entry stays the old one.
unfoldable pub update_domain_settings :
    Domains → Text → ℕ → Text → RouterFactory → Domains × Option Error
update_domain_settings m name ttl algorithm make = elim (lookup (normalize_domain name) m) [
  | none ↦ (m, some not_configured)
  | some entry ↦ elim (make algorithm) [
    | none ↦ (m, some no_router)
    | some router ↦
        (insert (normalize_domain name) (record entry { ttl = ttl; router = router }) m, none)
  ]
]
