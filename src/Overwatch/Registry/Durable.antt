-- ===== src/Overwatch/Registry/Durable.antt =====
-- A run whose writes succeed leaves nothing out of the store (pkg/overwatch/registry.go).
use open_gslb.Common.{
  ℕ, ◌≡◌, refl, Text, true, List, [], ◌∷◌, text_eq, Option-cases, inl, inr, arith,
}
use open_gslb.Common.Table.{lookup}
use open_gslb.Common.Keys.{backend_key}
use open_gslb.Overwatch.Registry.State.{
  Floats, Registry, Moment, recompute, notify, persist, agent, static, api,
}
use open_gslb.Overwatch.Registry.Changes.{
  blank_backend, register, register_static, register_api, update, update_validation, set_override,
}
use open_gslb.Overwatch.Registry.Sweeps.{update_draining, check_stale_backends}
use open_gslb.Overwatch.Registry.Keyed.{IsKeyed, or_new-key}
use open_gslb.Overwatch.Registry.Run.{
  Op, do_register, do_register_static, do_register_api, do_update, do_deregister,
  do_update_validation, do_set_override, do_clear_override, do_update_draining, do_check_stale,
  do_load, step, run,
}
use open_gslb.Overwatch.Registry.Runs.{step-IsKeyed, update_validation-key}
use open_gslb.Overwatch.Registry.Stored.{
  IsStored, IsStored-insert, finish-IsStored, with_backend-IsStored, deregister-IsStored,
  remove_each-IsStored, clear_override-IsStored, drain_each-IsStored, refresh_each-IsStored,
}

module _ {F : Floats} where
  register_api-IsStored :
      (r : Registry F) (t : Moment) (service address : Text) (port weight : ℕ) (region : Text)
      → t.saved ≡ true
      → IsStored r
      → IsStored (register_api r t service address port weight region).0
  unfolding register_api blank_backend notify persist recompute
  register_api-IsStored r t service address port weight region ok k =
      let key = backend_key service address port in
      elim (Option-cases (lookup key r.backends)) [
        | inr (b, e) ↦ rw (e, register_api) k
        | inl e ↦
            IsStored-insert r (register_api r t service address port weight region).0 key
              (recompute r.stale_threshold t.now
                (record (blank_backend service address port weight region api t.now) {
                  agent_last_seen = t.now;
                }))
              k (ground (arith, k.held, e)) (ground (arith, k.held, e))
      ]

  -- Not the loading of the store itself, which a registry does once, when it starts.
  abbrev pub IsLive : Op F → Type 0
  IsLive (do_load saved) = ⊥
  IsLive _ = Unit

  abbrev pub AllLive : List (Moment × Op F) → Type 0
  AllLive [] = Unit
  AllLive ((t, op) ∷ ops) = (t.saved ≡ true) × IsLive op × AllLive ops

  step-IsStored :
      (threshold : ℕ) (r : Registry F) (t : Moment) (op : Op F)
      → t.saved ≡ true
      → IsLive op
      → IsKeyed threshold r
      → IsStored r
      → IsStored (step r t op)
  unfolding step register register_static update update_validation set_override update_draining
      check_stale_backends blank_backend
  step-IsStored threshold r t (do_register agent_id region service address port weight healthy) ok
        live keyed k =
      let key = backend_key service address port in
      finish-IsStored t key _ r ok
        (or_new-key threshold r key (blank_backend service address port weight region agent t.now)
          refl keyed)
        k
  step-IsStored threshold r t (do_register_static service address port weight region check_type) ok
        live keyed k =
      let key = backend_key service address port in
      finish-IsStored t key _ r ok
        (or_new-key threshold r key (blank_backend service address port weight region static t.now)
          refl keyed)
        k
  step-IsStored threshold r t (do_register_api service address port weight region) ok live keyed k =
      register_api-IsStored r t service address port weight region ok k
  step-IsStored threshold r t (do_update service address port weight region) ok live keyed k =
      with_backend-IsStored threshold t (backend_key service address port) _ r ok (λ b. refl) keyed
        k
  step-IsStored threshold r t (do_deregister service address port) ok live keyed k =
      deregister-IsStored t service address port r ok k
  step-IsStored threshold r t (do_update_validation service address port passed error latency) ok
        live keyed k =
      with_backend-IsStored threshold t (backend_key service address port) _ r ok
        (λ b. update_validation-key threshold r t passed error latency b _ refl) keyed k
  step-IsStored threshold r t (do_set_override service address port up reason by) ok live keyed k =
      with_backend-IsStored threshold t (backend_key service address port) _ r ok (λ b. refl) keyed
        k
  step-IsStored threshold r t (do_clear_override service address port) ok live keyed k =
      clear_override-IsStored threshold t service address port r ok keyed k
  step-IsStored threshold r t (do_update_draining agent_id d) ok live keyed k =
      drain_each-IsStored threshold t agent_id d r.backends r ok keyed.kept k
  step-IsStored threshold r t do_check_stale ok live keyed k =
      remove_each-IsStored t _ _ ok (refresh_each-IsStored t r keyed.unique k)
  step-IsStored threshold r t (do_load saved) ok live keyed k = elim live [ ]

-- A run in which every write to the store succeeds keeps the store in step with the registry: at its
-- end the store holds every backend of the registry under its key, equal but for the status, which a
-- restart computes anew, and it holds no other. The registry starts in step with its store and with
-- its invariant, and its methods other than the loading of the store run in any order.
pub run-IsStored :
    {F : Floats} (threshold : ℕ) (r : Registry F) (ops : List (Moment × Op F))
    → AllLive ops
    → IsKeyed threshold r
    → IsStored r
    → IsStored (run r ops)
unfolding run
run-IsStored threshold r [] live keyed k = k
run-IsStored threshold r ((t, op) ∷ ops) (ok, live, rest) keyed k =
    run-IsStored threshold (step r t op) ops rest (step-IsKeyed threshold r t op keyed)
      (step-IsStored threshold r t op ok live keyed k)
