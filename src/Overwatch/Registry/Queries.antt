-- ===== src/Overwatch/Registry/Queries.antt =====
-- pkg/overwatch/registry.go: the methods that read.
use open_gslb.Common.{
  ℕ, Text, Option, none, some, Bool, false, ◌&&◌, List, [], ◌∷◌, nat_beq, ◌==◌, text_eq, length,
  if◌then◌else◌,
}
use open_gslb.Common.Table.{Table, lookup}
use open_gslb.Common.Keys.{backend_key}
use open_gslb.Overwatch.Registry.State.{Floats, healthy, status_beq, Backend, Registry}

module _ {F : Floats} where
  unfoldable pub get_backend : Registry F → Text → Text → ℕ → Option (Backend F)
  get_backend r service address port = lookup (backend_key service address port) r.backends

  unfoldable pub backends_of : Text → Table Text (Backend F) → List (Backend F)
  backends_of service [] = []
  backends_of service ((_, b) ∷ m) =
      let rest = backends_of service m in if b.service == service then b ∷ rest else rest

  unfoldable pub get_backends : Registry F → Text → List (Backend F)
  unfolding backends_of
  get_backends r service = backends_of service r.backends

  unfoldable pub healthy_of : Text → Table Text (Backend F) → List (Backend F)
  unfolding status_beq
  healthy_of service [] = []
  healthy_of service ((_, b) ∷ m) =
      let rest = healthy_of service m in
      if b.service == service && status_beq b.effective_status healthy then b ∷ rest else rest

  unfoldable pub get_healthy_backends : Registry F → Text → List (Backend F)
  unfolding healthy_of
  get_healthy_backends r service = healthy_of service r.backends

  -- The first backend at an address and port that `range` meets.
  unfoldable pub find_at : Text → ℕ → Table Text (Backend F) → Option (Backend F)
  find_at address port [] = none
  find_at address port ((_, b) ∷ m) =
      let rest = find_at address port m in
      if b.address == address && nat_beq b.port port then some b else rest

  unfoldable pub is_healthy : Registry F → Text → ℕ → Bool
  unfolding find_at status_beq
  is_healthy r address port = elim (find_at address port r.backends) [
    | none ↦ false
    | some b ↦ status_beq b.effective_status healthy
  ]

  unfoldable pub backend_count : Registry F → ℕ
  backend_count r = length r.backends
