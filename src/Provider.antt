-- ===== src/Provider.antt =====
-- cmd/opengslb/server_provider.go: the registry behind the servers of the REST API. The conversion of
-- a backend to the API's record only copies fields, and is left out.
pub mod Identifiers
mod Tests
use open_gslb.Common.{
  ℕ, Text, codes, Option, none, some, List, [], ◌∷◌, nat_beq, ◌==◌, text_eq, if◌then◌else◌,
}
use open_gslb.Common.Table.{Table, lookup}
use open_gslb.Common.Decimal.{atoi}
use open_gslb.Common.Keys.{backend_key}
use open_gslb.Overwatch.Registry.State.{Floats, Backend, Registry, Moment, Error}
use open_gslb.Overwatch.Registry.Changes.{register_api, update, deregister}

-- The fields of `api.BackendServer` that the provider reads.
pub record BackendServer : Type 0 where
  pub name : Text
  pub address : Text
  pub port : ℕ
  pub weight : ℕ
  pub region : Text
  pub metadata : Table Text Text

pub data ProviderError : Type 0 where
  address_required port_required region_required service_required invalid_id not_found :
      ProviderError
  from_registry : Error → ProviderError

-- `strings.Split(text, ":")`: the first part and the others.
unfoldable pub split_colons : Text → Text × List Text
split_colons [] = ([], [])
split_colons (c ∷ cs) =
    let (part, parts) = split_colons cs in
    if nat_beq c b':' then ([], part ∷ parts) else (c ∷ part, parts)

-- Exactly three parts, the last of them a number.
unfoldable pub of_parts : Text → List Text → Option (Text × Text × ℕ)
of_parts service (address ∷ port ∷ []) = elim (atoi port) [
  | none ↦ none
  | some p ↦ some (service, address, p)
]
of_parts service _ = none

-- `parseServerID`
unfoldable pub parse_server_id : Text → Option (Text × Text × ℕ)
unfolding split_colons of_parts
parse_server_id id = let (service, parts) = split_colons id in of_parts service parts

-- The service is that of the metadata, if they have one, or else the name.
unfoldable pub service_of : BackendServer → Text
service_of s = elim (lookup (codes "service") s.metadata) [ none ↦ s.name | some svc ↦ svc ]

abbrev from_error {ℓ} : {R : Type ℓ} → R × Option Error → R × Option ProviderError
from_error (r, none) = (r, none)
from_error (r, some e) = (r, some (from_registry e))

module _ {F : Floats} where
  unfoldable pub create_server :
      Registry F → Moment → BackendServer → Registry F × Option ProviderError
  unfolding service_of
  create_server r t s =
      if s.address == []
      then (r, some address_required)
      else if nat_beq s.port 0
      then (r, some port_required)
      else if s.region == []
      then (r, some region_required)
      else if service_of s == []
      then (r, some service_required)
      else from_error (
          register_api r t (service_of s) s.address s.port
            (if nat_beq s.weight 0 then 100 else s.weight) s.region)

  unfoldable pub update_server :
      Registry F → Moment → Text → BackendServer → Registry F × Option ProviderError
  unfolding parse_server_id
  update_server r t id s = elim (parse_server_id id) [
    | none ↦ (r, some invalid_id)
    | some (service, address, port) ↦ from_error (update r t service address port s.weight s.region)
  ]

  unfoldable pub delete_server : Registry F → Moment → Text → Registry F × Option ProviderError
  unfolding parse_server_id
  delete_server r t id = elim (parse_server_id id) [
    | none ↦ (r, some invalid_id)
    | some (service, address, port) ↦ from_error (deregister r t service address port)
  ]

  -- The search of `GetServer` and of `GetServerHealthCheck`.
  unfoldable pub find_server : Text → Table Text (Backend F) → Option (Backend F)
  find_server id [] = none
  find_server id ((_, b) ∷ m) =
      let rest = find_server id m in
      if backend_key b.service b.address b.port == id then some b else rest
