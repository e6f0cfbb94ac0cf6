-- ===== src/Provider/Identifiers.antt =====
-- What the identifiers of servers mean (cmd/opengslb/server_provider.go, parseServerID).
use open_gslb.Common.{
  ℕ, ◌+◌, ◌<◌, ◌≡◌, ◌≢◌, refl, ◌∙◌, ap, Text, Option, none, some, List, [], ◌∷◌, ◌++◌, arith,
  length, nat_beq, ==_iff, text_eq, if◌then◌else◌, word_mod, Bool-cases, inl, inr,
}
use open_gslb.Common.Table.{lookup}
use open_gslb.Common.Decimal.{Lacks, itoa, itoa-Lacks, atoi-itoa}
use open_gslb.Common.Keys.{server_key, backend_key}
use open_gslb.Overwatch.Registry.State.{Floats, Registry, Moment, Error}
use open_gslb.Overwatch.Registry.Changes.{register_api, deregister}
use open_gslb.Overwatch.Registry.Lifecycle.{deregister-register_api}
use open_gslb.Provider.{
  BackendServer, invalid_id, split_colons, of_parts, parse_server_id, service_of, from_error,
  create_server, update_server, delete_server,
}

split_colons-Lacks : (a : Text) → Lacks b':' a → split_colons a ≡ (a, [])
unfolding split_colons
split_colons-Lacks [] h = refl
split_colons-Lacks (c ∷ cs) h = ground (arith, split_colons-Lacks cs h.1, h.0)

split_colons-append :
    (a b : Text)
    → Lacks b':' a
    → split_colons (a ++ b':' ∷ b) ≡ (a, (split_colons b).0 ∷ (split_colons b).1)
unfolding split_colons
split_colons-append [] b h = refl
split_colons-append (c ∷ cs) b h = ground (arith, split_colons-append cs b h.1, h.0)

-- The number of colons in a text.
abbrev colons : Text → ℕ
colons t = length (split_colons t).1

colons-append : (a b : Text) → colons (a ++ b':' ∷ b) ≡ colons a + 1 + colons b
unfolding split_colons
colons-append [] b = omega arith
colons-append (c ∷ cs) b = ground (arith, colons-append cs b)

colons_pos : (a : Text) → ¬ Lacks b':' a → 0 < colons a
unfolding split_colons
colons_pos [] h = absurd (h tt)
colons_pos (c ∷ cs) h = elim (Bool-cases (nat_beq c b':')) [
  | inl colon ↦ rw colon (omega arith)
  | inr other ↦ rw other (colons_pos cs (λ l. h (λ same. ground (arith, same), l)))
]

of_parts-none :
    (service : Text) (parts : List Text) → length parts ≢ 2 → of_parts service parts ≡ none
unfolding of_parts
of_parts-none service [] h = refl
of_parts-none service (a ∷ []) h = refl
of_parts-none service (a ∷ b ∷ []) h = absurd (h refl)
of_parts-none service (a ∷ b ∷ c ∷ parts) h = refl

split_colons-server_key :
    (address : Text) (port : ℕ)
    → Lacks b':' address
    → split_colons (server_key address port) ≡ (address, itoa port ∷ [])
unfolding server_key
split_colons-server_key address port ha =
    split_colons-append address (itoa port) ha
    ∙ ap (λ (x : Text × List Text). (address, x.0 ∷ x.1))
        (split_colons-Lacks (itoa port) (itoa-Lacks port))

-- The identifier of a server whose service and address hold no colon is read back.
parse_server_id-backend_key :
    (service address : Text) (port : ℕ)
    → Lacks b':' service
    → Lacks b':' address
    → port < word_mod
    → parse_server_id (backend_key service address port) ≡ some (service, address, port)
unfolding parse_server_id backend_key of_parts
parse_server_id-backend_key service address port hs ha small =
    ap (λ (x : Text × List Text). of_parts x.0 x.1)
      (split_colons-append service (server_key address port) hs
        ∙ ap (λ (x : Text × List Text). (service, x.0 ∷ x.1))
            (split_colons-server_key address port ha))
    ∙ rw (of_parts, atoi-itoa port small)

parse_server_id-colon :
    (service address : Text) (port : ℕ)
    → ¬ Lacks b':' address
    → parse_server_id (backend_key service address port) ≡ none
unfolding parse_server_id backend_key server_key
parse_server_id-colon service address port h = of_parts-none _ _ (λ two. ground (
  arith,
  two,
  colons-append service (address ++ b':' ∷ itoa port),
  colons-append address (itoa port),
  colons_pos address h,
))

-- What the API needs of a new server.
pub record IsComplete (s : BackendServer) : Type 0 where
  pub address_given : s.address ≢ []
  pub port_given : s.port ≢ 0
  pub region_given : s.region ≢ []
  pub service_given : service_of s ≢ []

weight_of : BackendServer → ℕ
weight_of s = if nat_beq s.weight 0 then 100 else s.weight

create_server-IsComplete :
    {F : Floats} (r : Registry F) (t : Moment) (s : BackendServer)
    → IsComplete s
    → create_server r t s
      ≡ from_error (register_api r t (service_of s) s.address s.port (weight_of s) s.region)
unfolding create_server weight_of
create_server-IsComplete r t s c = ground (
  arith,
  ==_iff s.address [],
  ==_iff s.region [],
  ==_iff (service_of s) [],
  c.address_given,
  c.port_given,
  c.region_given,
  c.service_given,
)

delete_server-backend_key :
    {F : Floats} (r : Registry F) (t : Moment) (service address : Text) (port : ℕ)
    → Lacks b':' service
    → Lacks b':' address
    → port < word_mod
    → delete_server r t (backend_key service address port)
      ≡ from_error (deregister r t service address port)
unfolding delete_server
delete_server-backend_key r t service address port hs ha small =
    rw (parse_server_id-backend_key service address port hs ha small, delete_server)

from_error-none :
    {F : Floats} (p : Registry F × Option Error) → p.1 ≡ none → from_error p ≡ (p.0, none)
from_error-none (r, none) h = refl
from_error-none (r, some e) h = cc

-- A complete server whose service and address hold no colon, of a port below 2 ^ 64, and which is not
-- registered, can be created and then deleted by its identifier, both without an error, and then the
-- registry holds under every key what it held before.
pub delete_server-create_server :
    {F : Floats} (r : Registry F) (t u : Moment) (s : BackendServer)
    → IsComplete s
    → Lacks b':' (service_of s)
    → Lacks b':' s.address
    → s.port < word_mod
    → lookup (backend_key (service_of s) s.address s.port) r.backends ≡ none
    → let created = create_server r t s in
      let deleted = delete_server created.0 u (backend_key (service_of s) s.address s.port) in
      (created.1 ≡ none)
      × (deleted.1 ≡ none)
      × ((key : Text) → lookup key deleted.0.backends ≡ lookup key r.backends)
delete_server-create_server r t u s c hs ha small absent =
    let (made, again, gone, same) =
      deregister-register_api r t u (service_of s) s.address s.port (weight_of s) s.region absent in
    let created =
      create_server-IsComplete r t s c
      ∙ from_error-none (register_api r t (service_of s) s.address s.port (weight_of s) s.region)
          made in
    let deleted =
      delete_server-backend_key
        (register_api r t (service_of s) s.address s.port (weight_of s) s.region).0 u (service_of s)
        s.address s.port hs ha small
      ∙ from_error-none (deregister _ u (service_of s) s.address s.port) gone in
    rw created (refl, rw deleted refl, λ key. rw deleted (same key))

-- A server whose address holds a colon, as every IPv6 address does, can be neither updated nor
-- deleted by its identifier: both are refused with no effect.
pub delete_server-colon :
    {F : Floats} (r : Registry F) (t : Moment) (service address : Text) (port : ℕ)
    (s : BackendServer)
    → ¬ Lacks b':' address
    → let id = backend_key service address port in
      (delete_server r t id ≡ (r, some invalid_id))
      × (update_server r t id s ≡ (r, some invalid_id))
unfolding delete_server update_server
delete_server-colon r t service address port s h =
    let unread = parse_server_id-colon service address port h in
    (rw (unread, delete_server), rw (unread, update_server))
