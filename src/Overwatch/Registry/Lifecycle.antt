-- ===== src/Overwatch/Registry/Lifecycle.antt =====
-- The life of a backend that the API registers (pkg/overwatch/registry.go, RegisterAPI, Deregister and
-- checkStaleBackends).
use open_gslb.Common.{
  ℕ, ◌≡◌, ◌∙◌, Text, none, some, arith, ◌==◌, ==_iff, text_eq, if◌then◌else◌, since, ap, int_lt,
  true, refl, Option-cases, inl, inr, List,
}
use open_gslb.Common.Table.{lookup, insert, erase, lookup-insert, lookup-erase, lookup_congr}
use open_gslb.Common.Keys.{backend_key}
use open_gslb.Overwatch.Registry.State.{
  Floats, Backend, Registry, Moment, already_exists, recompute, notify, persist, api,
}
use open_gslb.Overwatch.Registry.Changes.{blank_backend, register_api, remove, deregister}
use open_gslb.Overwatch.Registry.Sweeps.{check_stale_backends}
use open_gslb.Overwatch.Registry.Expiry.{swept, lookup-check_stale_backends}
use open_gslb.Overwatch.Registry.Run.{Op, do_register_api, step, run}
use open_gslb.Overwatch.Registry.Keyed.{IsKeyed}
use open_gslb.Overwatch.Registry.Runs.{step-IsKeyed, run-IsKeyed}
use open_gslb.Overwatch.Registry.LastSeen.{registry-IsAging, found-WasSeen}
use open_gslb.Overwatch.Registry.Aging.{Leaves, register_api-IsAging, run-IsAging}

module _ {F : Floats} where
  -- The backend that `RegisterAPI` stores.
  unfoldable pub api_backend : Registry F → ℕ → Text → Text → ℕ → ℕ → Text → Backend F
  unfolding blank_backend
  api_backend r now service address port weight region =
      recompute r.stale_threshold now
        (record (blank_backend service address port weight region api now) {
          agent_last_seen = now;
        })

  register_api-backends :
      (r : Registry F) (t : Moment) (service address : Text) (port weight : ℕ) (region : Text)
      → lookup (backend_key service address port) r.backends ≡ none
      → let after = register_api r t service address port weight region in
        (after.1 ≡ none)
        × (after.0.backends
            ≡ insert
                (backend_key service address port)
                (api_backend r t.now service address port weight region)
                r.backends)
        × (after.0.stale_threshold ≡ r.stale_threshold)
        × (after.0.remove_after ≡ r.remove_after)
  unfolding register_api notify persist api_backend blank_backend
  register_api-backends r t service address port weight region e =
      (ground arith, ground arith, ground arith, ground arith)

  deregister-backends :
      (r : Registry F) (t : Moment) (service address : Text) (port : ℕ) (b : Backend F)
      → lookup (backend_key service address port) r.backends ≡ some b
      → let after = deregister r t service address port in
        (after.1 ≡ none) × (after.0.backends ≡ erase (backend_key service address port) r.backends)
  unfolding deregister notify remove
  deregister-backends r t service address port b e = (ground arith, ground arith)

  register_api_again :
      (r : Registry F) (t : Moment) (service address : Text) (port weight : ℕ) (region : Text)
      (b : Backend F)
      → lookup (backend_key service address port) r.backends ≡ some b
      → register_api r t service address port weight region ≡ (r, some already_exists)
  unfolding register_api
  register_api_again r t service address port weight region b e = ground arith

  lookup-registered :
      (r : Registry F) (t : Moment) (service address : Text) (port weight : ℕ) (region : Text)
      (j : Text)
      → lookup (backend_key service address port) r.backends ≡ none
      → lookup j (register_api r t service address port weight region).0.backends ≡ (
          if backend_key service address port == j
          then some (api_backend r t.now service address port weight region)
          else lookup j r.backends)
  lookup-registered r t service address port weight region j e =
      ap (lookup j) (register_api-backends r t service address port weight region e).1
      ∙ lookup-insert (backend_key service address port) j
          (api_backend r t.now service address port weight region) r.backends

  lookup-registered_self :
      (r : Registry F) (t : Moment) (service address : Text) (port weight : ℕ) (region : Text)
      → lookup (backend_key service address port) r.backends ≡ none
      → lookup
          (backend_key service address port)
          (register_api r t service address port weight region).0.backends
        ≡ some (api_backend r t.now service address port weight region)
  lookup-registered_self r t service address port weight region e =
      let key = backend_key service address port in
      ground (arith, lookup-registered r t service address port weight region key e, ==_iff key key)

-- A backend that is not registered can be registered through the API, without an error; registering
-- it again is refused with no effect; and deregistering it then succeeds and leaves every key as it
-- was.
pub deregister-register_api :
    {F : Floats} (r : Registry F) (t u : Moment) (service address : Text) (port weight : ℕ)
    (region : Text)
    → lookup (backend_key service address port) r.backends ≡ none
    → let after = register_api r t service address port weight region in
      (after.1 ≡ none)
      × (register_api after.0 u service address port weight region ≡ (after.0, some already_exists))
      × ((deregister after.0 u service address port).1 ≡ none)
      × ((j : Text)
          → lookup j (deregister after.0 u service address port).0.backends ≡ lookup j r.backends)
deregister-register_api r t u service address port weight region e =
    let key = backend_key service address port in
    let after = register_api r t service address port weight region in
    let found = lookup-registered_self r t service address port weight region e in
    let gone = deregister-backends after.0 u service address port _ found in
    (
      (register_api-backends r t service address port weight region e).0,
      register_api_again after.0 u service address port weight region _ found,
      gone.0,
      λ j.
          ap (lookup j) gone.1
          ∙ lookup-erase key j after.0.backends
          ∙ ground (
            arith,
            lookup-registered r t service address port weight region j e,
            lookup_congr key j r.backends,
          ),
    )

-- What a sweep leaves of a backend that came from the API and is too old.
swept-aged :
    {F : Floats} (threshold limit remove_after seen now : ℕ) (b : Backend F)
    → remove_after ≡ limit
    → b.source ≡ api
    → b.agent_last_seen ≡ seen
    → int_lt limit (since now seen) ≡ true
    → swept threshold remove_after now (some b) ≡ none
swept-aged threshold limit remove_after seen now b same source last late =
    rw (source, same, last, late) refl

-- A backend that is registered through the API with a registry that keeps its invariant is gone at the
-- latest after the first sweep that runs more than `RemoveAfter` after the registration, whatever
-- calls come between, earlier sweeps and successful validations among them, as long as none
-- registers the backend again and none loads the store.
pub register_api-expires :
    {F : Floats} (threshold : ℕ) (r : Registry F) (t sweep : Moment) (service address : Text)
    (port weight : ℕ) (region : Text) (ops : List (Moment × Op F))
    → IsKeyed threshold r
    → lookup (backend_key service address port) r.backends ≡ none
    → Leaves (backend_key service address port) ops
    → int_lt r.remove_after (since sweep.now t.now) ≡ true
    → lookup
        (backend_key service address port)
        (check_stale_backends
          (run (register_api r t service address port weight region).0 ops)
          sweep).backends
      ≡ none
unfolding step blank_backend
register_api-expires threshold r t sweep service address port weight region ops k e leaves late =
    let key = backend_key service address port in
    let start = (register_api r t service address port weight region).0 in
    let end = run start ops in
    let keyed =
      run-IsKeyed threshold start ops
        (step-IsKeyed threshold r t (do_register_api service address port weight region) k) in
    let aging = run-IsAging key t.now r.remove_after ops start leaves (
      register_api-IsAging key t.now r.remove_after r t service address port weight region
        (λ same. (refl, refl)) (registry-IsAging key t.now r.remove_after r refl e)) in
    lookup-check_stale_backends end sweep key keyed.unique
    ∙ elim (Option-cases (lookup key end.backends)) [
      | inl gone ↦ rw gone refl
      | inr (b, held) ↦
          let (source, last) = found-WasSeen key t.now r.remove_after end key b aging held refl in
          rw held (
            swept-aged end.stale_threshold r.remove_after end.remove_after t.now sweep.now b
              aging.limited source last late)
    ]
