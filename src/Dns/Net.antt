-- ===== src/Dns/Net.antt =====
-- What pkg/dns needs of the package `net`, and the data of pkg/dns/types.go.
use open_gslb.Common.{ℕ, ◌≡◌, Text, Option, some, List, In}
use open_gslb.Routing.Core.{Ip}
use open_gslb.Routing.Router.{Router}

-- `net.ParseIP`, `IP.String` and `IP.To4`.
pub record Net : Type 0 where
  pub parse_ip : Text → Option Ip
  pub ip_string : Ip → Text
  pub to4 : Ip → Option Ip

-- What `ParseIP` returns, it returns again for the text that `String` makes of it.
abbrev pub Reparses : Net → Type 0
Reparses net =
    (t : Text) (a : Ip) → net.parse_ip t ≡ some a → net.parse_ip (net.ip_string a) ≡ some a

pub record ServerInfo : Type 0 where
  pub address : Ip
  pub port : ℕ
  pub weight : ℕ
  pub region : Text

pub record DomainEntry : Type 0 where
  pub name : Text
  pub ttl : ℕ
  pub routing_algorithm : Text
  pub router : Router
  pub servers : List ServerInfo

-- Every server's address is one that `ParseIP` returned.
abbrev pub AllParsed : Net → List ServerInfo → Type 0
AllParsed net servers =
    (s : ServerInfo) → In s servers → (t : Text) × (net.parse_ip t ≡ some s.address)
