-- ===== src/Routing/Core.antt =====
-- pkg/routing/router.go, and the parts of pkg/routing/geo.go that carry the client's address and the
-- domain in the context.
use open_gslb.Common.{ℕ, Text, Option, List, [], ◌∷◌, ◌≡◌, In}

pub record Server : Type 0 where
  pub address : Text
  pub port : ℕ
  pub weight : ℕ
  pub region : Text

-- The result of `Route`: a server, `ErrNoHealthyServers`, or a panic at run time.
pub data Outcome : Type 0 where
  routed : Server → Outcome
  no_healthy_servers : Outcome
  panicked : Outcome

-- A `net.IP` is its bytes, 4 or 16 of them; a nil one is `none`.
abbrev pub Ip : Type 0
Ip = List ℕ

-- `GetClientIP` and `GetDomain` of the context; no domain is the empty text.
pub record Context : Type 0 where
  pub client_ip : Option Ip
  pub domain : Text

-- The router answers with a server of the pool.
abbrev pub IsRoutedIn : List Server → Outcome → Type 0
IsRoutedIn servers (routed s) = In s servers
IsRoutedIn servers no_healthy_servers = ⊥
IsRoutedIn servers panicked = ⊥

-- The router answers with a server of the pool, or refuses because the pool is empty.
abbrev pub IsSound : List Server → Outcome → Type 0
IsSound [] o = o ≡ no_healthy_servers
IsSound (s ∷ ss) o = IsRoutedIn (s ∷ ss) o

-- What a router with a fallback decides: a server, or to ask its fallback with a pool.
pub data Decision : Type 0 where
  chosen : Server → Decision
  fall_back : List Server → Decision

-- A decision for a server of the pool, or for asking the fallback with some of the pool's servers,
-- at least one.
abbrev pub StaysIn : List Server → Decision → Type 0
StaysIn servers (chosen s) = In s servers
StaysIn servers (fall_back []) = ⊥
StaysIn servers (fall_back (s ∷ ss)) = (t : Server) → In t (s ∷ ss) → In t servers

-- A decision for a server of the pool, or for asking the fallback with the same pool.
abbrev pub KeepsPool : List Server → Decision → Type 0
KeepsPool servers (chosen s) = In s servers
KeepsPool servers (fall_back pool) = pool ≡ servers
