-- ===== src/Dns/Handler.antt =====
-- pkg/dns/handler.go, less logging and metrics. The client's address, which `geo.GetClientIP` reads off
-- the message, and the health provider are arguments; the message is the reply's code and answers.
-- `handleAQuery` and `handleAAAAQuery` differ only in the family, which is an argument here.
use open_gslb.Common.{
  ℕ, Text, Option, none, some, Bool, true, false, ◌&&◌, List, [], ◌∷◌, nat_beq, text_eq,
  if◌then◌else◌,
}
use open_gslb.Common.Table.{lookup, insert}
use open_gslb.Routing.Core.{Server, Ip, Context, Outcome, routed, no_healthy_servers, panicked}
use open_gslb.Routing.Router.{Moment, route}
use open_gslb.Dns.Net.{Net, ServerInfo, DomainEntry}
use open_gslb.Dns.Domains.{Domains, normalize_domain}

pub data Family : Type 0 where
  ipv4 ipv6 : Family

pub data Rcode : Type 0 where
  no_error format_error server_failure name_error not_implemented : Rcode

-- An A record, whose address `To4` may fail to give, and an AAAA record.
pub data Record : Type 0 where
  a_record : Text → ℕ → Option Ip → Record
  aaaa_record : Text → ℕ → Ip → Record

pub record Reply : Type 0 where
  pub rcode : Rcode
  pub answer : List Record

-- `health` is nil or a provider; a reply that `route` panics on is none at all.
pub record Handler : Type 0 where
  pub domains : Domains
  pub health : Option (Text → ℕ → Bool)
  pub default_ttl : ℕ

pub data Query : Type 0 where
  no_question : Query
  a_query aaaa_query dnskey_query other_query : Text → Query

abbrev pub refused : Rcode → Reply
refused code = record { rcode = code; answer = [] }

-- The context's domain: the entry's name without its last dot.
unfoldable pub without_dot : Text → Text
without_dot [] = []
without_dot (c ∷ []) = if nat_beq c b'.' then [] else c ∷ []
without_dot (c ∷ d ∷ ds) = c ∷ without_dot (d ∷ ds)

-- `ctx`, with the client's address if there is one.
unfoldable pub context_of : Option Ip → DomainEntry → Context
unfolding without_dot
context_of client entry = record { client_ip = client; domain = without_dot entry.name }

module _ (net : Net) where
  -- `To4` gives an address or nil.
  unfoldable pub has_family : Family → ServerInfo → Bool
  has_family ipv4 s = elim (net.to4 s.address) [ none ↦ false | some _ ↦ true ]
  has_family ipv6 s = elim (net.to4 s.address) [ none ↦ true | some _ ↦ false ]

  unfoldable pub is_up : Option (Text → ℕ → Bool) → ServerInfo → Bool
  is_up none s = true
  is_up (some healthy) s = healthy (net.ip_string s.address) s.port

  abbrev pub to_server : ServerInfo → Server
  to_server s = record {
    address = net.ip_string s.address;
    port = s.port;
    weight = s.weight;
    region = s.region;
  }

  -- `getHealthyIPv4Servers` and `getHealthyIPv6Servers`
  unfoldable pub healthy_servers : Family → Option (Text → ℕ → Bool) → List ServerInfo → List Server
  unfolding has_family is_up
  healthy_servers family health [] = []
  healthy_servers family health (s ∷ ss) =
      let rest = healthy_servers family health ss in
      if has_family family s && is_up health s then to_server s ∷ rest else rest

  -- `addARecord` and `addAAAARecord`: an address that does not parse adds nothing.
  unfoldable pub add_record : Family → Text → ℕ → Option Ip → List Record
  add_record family qname ttl none = []
  add_record ipv4 qname ttl (some ip) = a_record qname ttl (net.to4 ip) ∷ []
  add_record ipv6 qname ttl (some ip) = aaaa_record qname ttl ip ∷ []

  abbrev pub ttl_of : Handler → DomainEntry → ℕ
  ttl_of h entry = if nat_beq entry.ttl 0 then h.default_ttl else entry.ttl

  unfoldable pub reply_of : Handler → Family → Text → DomainEntry → Outcome → Option Reply
  unfolding add_record
  reply_of h family qname entry (routed s) = some (record {
    rcode = no_error;
    answer = add_record family qname (ttl_of h entry) (net.parse_ip s.address);
  })
  reply_of h family qname entry no_healthy_servers = some (refused server_failure)
  reply_of h family qname entry panicked = none

  unfoldable pub answer_from :
      Handler
      → Moment
      → Option Ip
      → Family
      → Text
      → DomainEntry
      → List Server
      → Handler × Option Reply
  unfolding reply_of
  answer_from h t client family qname entry [] = (h, some (refused server_failure))
  answer_from h t client family qname entry (s ∷ ss) =
      let (router, o) = route t (context_of client entry) entry.router (s ∷ ss) in
      (
        record h {
          domains = insert (normalize_domain qname) (record entry { router = router }) h.domains;
        },
        reply_of h family qname entry o,
      )

  -- `handleAQuery` and `handleAAAAQuery`
  unfoldable pub handle_address_query :
      Handler → Moment → Option Ip → Family → Text → Handler × Option Reply
  unfolding answer_from healthy_servers
  handle_address_query h t client family qname = elim (lookup (normalize_domain qname) h.domains) [
    | none ↦ (h, some (refused name_error))
    | some entry ↦
        answer_from h t client family qname entry (healthy_servers family h.health entry.servers)
  ]

  -- The signer adds the key to the reply.
  unfoldable pub handle_dnskey_query : Handler → Text → Reply
  handle_dnskey_query h qname = elim (lookup (normalize_domain qname) h.domains) [
    | none ↦ refused name_error
    | some entry ↦ refused no_error
  ]

  -- `ServeDNS`, up to the signing of the reply.
  unfoldable pub serve_dns : Handler → Moment → Option Ip → Query → Handler × Option Reply
  unfolding handle_address_query handle_dnskey_query
  serve_dns h t client no_question = (h, some (refused format_error))
  serve_dns h t client (a_query qname) = handle_address_query h t client ipv4 qname
  serve_dns h t client (aaaa_query qname) = handle_address_query h t client ipv6 qname
  serve_dns h t client (dnskey_query qname) = (h, some (handle_dnskey_query h qname))
  serve_dns h t client (other_query qname) = (h, some (refused not_implemented))
