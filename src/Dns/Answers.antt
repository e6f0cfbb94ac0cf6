-- ===== src/Dns/Answers.antt =====
-- What the DNS handler answers (pkg/dns/handler.go).
use open_gslb.Common.{ℕ, ◌≡◌, ◌⊎◌, Text, Option, none, some, true, List, [], ◌∷◌, In, text_eq}
use open_gslb.Routing.Core.{Server}
use open_gslb.Dns.Net.{Net, ServerInfo, DomainEntry, AllParsed}
use open_gslb.Dns.Handler.{
  Family, ipv4, ipv6, Record, a_record, aaaa_record, Reply, Handler, refused, has_family, is_up,
  healthy_servers, ttl_of, no_error, server_failure, name_error,
}

module _ (net : Net) where
  -- A server that may be an answer: of the family, and healthy.
  abbrev pub Fits : Family → Handler → ServerInfo → Type 0
  Fits family h s = (has_family net family s ≡ true) × (is_up net h.health s ≡ true)

  -- The record that names a server's address.
  abbrev pub record_of : Family → Text → ℕ → ServerInfo → Record
  record_of ipv4 qname ttl s = a_record qname ttl (net.to4 s.address)
  record_of ipv6 qname ttl s = aaaa_record qname ttl s.address

  -- The replies that are right for a name, by what the map holds for it.
  abbrev pub IsRight : Family → Handler → Text → Option DomainEntry → Option Reply → Type 0
  IsRight family h qname none reply = reply ≡ some (refused name_error)
  IsRight family h qname (some entry) reply =
      (((s : ServerInfo) → In s entry.servers → ¬ Fits family h s)
        × (reply ≡ some (refused server_failure)))
      ⊎ ((s : ServerInfo) × In s entry.servers
          × Fits family h s
          × (reply
              ≡ some (record {
                rcode = no_error;
                answer = record_of family qname (ttl_of net h entry) s ∷ [];
              })))

  abbrev pub servers_for : Family → Handler → Option DomainEntry → List Server
  servers_for family h none = []
  servers_for family h (some entry) = healthy_servers net family h.health entry.servers

  abbrev pub ParsedEntry : Option DomainEntry → Type 0
  ParsedEntry none = Unit
  ParsedEntry (some entry) = AllParsed net entry.servers
