-- ===== src/Overwatch/Registry/Aging.antt =====
-- What does not keep a backend that the API registers (pkg/overwatch/registry.go): any call but another
-- registration of it leaves the time at which it was last seen.
use open_gslb.Common.{
  ℕ, ◌≡◌, ◌≢◌, refl, Text, none, some, Bool, List, [], ◌∷◌, arith, ◌&&◌, ◌==◌, int_lt, text_eq,
  if◌then◌else◌, Bool-cases, Option-cases, inl, inr,
}
use open_gslb.Common.Table.{Table, lookup, insert, AllEntries}
use open_gslb.Common.Keys.{backend_key}
use open_gslb.Overwatch.Registry.State.{
  Floats, Backend, Registry, Moment, api, recompute, notify, persist, finish, update_latency,
  DrainSignal,
}
use open_gslb.Overwatch.Registry.Changes.{
  blank_backend, register, register_static, register_api, update, remove, deregister,
  update_validation, set_override, clear_override,
}
use open_gslb.Overwatch.Registry.Sweeps.{
  apply_signal, drain_each, update_draining, is_expired, refresh, refresh_each, remove_each,
  check_stale_backends,
}
use open_gslb.Overwatch.Registry.Run.{
  Op, do_register, do_register_static, do_register_api, do_update, do_deregister,
  do_update_validation, do_set_override, do_clear_override, do_update_draining, do_check_stale,
  do_load, step, run,
}
use open_gslb.Overwatch.Registry.LastSeen.{
  WasSeen, IsAging, IsAging-congr, IsAging-insert, notify-IsAging, finish-IsAging, refresh-IsAging,
  remove-IsAging, found-WasSeen, with_backend-IsAging,
}

-- No call registers the key, and none loads the store.
abbrev pub Leaves : {F : Floats} → Text → List (Moment × Op F) → Type 0
Leaves key [] = Unit
Leaves key ((t, do_register agent_id region service address port weight ok) ∷ ops) =
    (backend_key service address port ≢ key) × Leaves key ops
Leaves key ((t, do_register_static service address port weight region check_type) ∷ ops) =
    (backend_key service address port ≢ key) × Leaves key ops
Leaves key ((t, do_register_api service address port weight region) ∷ ops) =
    (backend_key service address port ≢ key) × Leaves key ops
Leaves key ((t, do_load saved) ∷ ops) = ⊥
Leaves key (op ∷ ops) = Leaves key ops

module _ {F : Floats} (key : Text) (seen limit : ℕ) where
  pub register_api-IsAging :
      (r : Registry F) (t : Moment) (service address : Text) (port weight : ℕ) (region : Text)
      → WasSeen {F = F} key seen limit
          (backend_key service address port)
          (record (blank_backend service address port weight region api t.now) {
            agent_last_seen = t.now;
          })
      → IsAging key seen limit r
      → IsAging key seen limit (register_api r t service address port weight region).0
  unfolding register_api notify persist recompute blank_backend
  register_api-IsAging r t service address port weight region w a =
      let j = backend_key service address port in
      let b =
        recompute r.stale_threshold t.now
          (record (blank_backend service address port weight region api t.now) {
            agent_last_seen = t.now;
          }) in
      elim (Option-cases (lookup j r.backends)) [
        | inr (old, e) ↦ rw (e, register_api) a
        | inl e ↦
            rw (e, register_api)
              (IsAging-congr key seen limit (record r { backends = insert j b r.backends }) _
                (ground arith) (ground arith) (IsAging-insert key seen limit r j b w a))
      ]

  deregister-IsAging :
      (r : Registry F) (t : Moment) (service address : Text) (port : ℕ)
      → IsAging key seen limit r
      → IsAging key seen limit (deregister r t service address port).0
  unfolding deregister
  deregister-IsAging r t service address port a =
      let j = backend_key service address port in
      elim (Option-cases (lookup j r.backends)) [
        | inl e ↦ rw (e, deregister) a
        | inr (b, e) ↦
            rw (e, deregister)
              (notify-IsAging key seen limit (remove r t j) b (some b.effective_status) none
                (remove-IsAging key seen limit r t j a))
      ]

  update_validation-last_seen :
      (smoothing : F.Float) (timed : Bool) (latency : ℕ) (b : Backend F)
      → ((if timed then update_latency smoothing latency b else b).source ≡ b.source)
        × ((if timed then update_latency smoothing latency b else b).agent_last_seen
            ≡ b.agent_last_seen)
  unfolding update_latency
  update_validation-last_seen smoothing timed latency b = elim (Bool-cases timed) [
    | inl is_timed ↦ rw is_timed (refl, refl)
    | inr untimed ↦ rw untimed (refl, refl)
  ]

  clear_override-IsAging :
      (r : Registry F) (t : Moment) (service address : Text) (port : ℕ)
      → IsAging key seen limit r
      → IsAging key seen limit (clear_override r t service address port).0
  unfolding clear_override
  clear_override-IsAging r t service address port a =
      let j = backend_key service address port in
      elim (Option-cases (lookup j r.backends)) [
        | inl e ↦ rw (e, clear_override) a
        | inr (b, e) ↦ elim (Option-cases b.override_status) [
          | inl unset ↦ rw (e, clear_override, unset) a
          | inr (ok, some_set) ↦
              rw (e, clear_override, some_set)
                (finish-IsAging key seen limit t j _ r (found-WasSeen key seen limit r j b a e) a)
        ]
      ]

  drain_each-IsAging :
      (t : Moment) (agent_id : Text) (d : DrainSignal F) (m : Table Text (Backend F))
      (r : Registry F)
      → AllEntries (WasSeen key seen limit) m
      → IsAging key seen limit r
      → IsAging key seen limit (drain_each t agent_id d m r)
  unfolding drain_each apply_signal
  drain_each-IsAging t agent_id d [] r w a = a
  drain_each-IsAging t agent_id d ((j, b) ∷ m) r w a = elim (Bool-cases (b.agent_id == agent_id)) [
    | inl mine ↦ rw mine (
        drain_each-IsAging t agent_id d m (finish t j (apply_signal d b) r) w.1
          (finish-IsAging key seen limit t j (apply_signal d b) r w.0 a))
    | inr other ↦ rw other (drain_each-IsAging t agent_id d m r w.1 a)
  ]

  refresh_each-IsAging :
      (t : Moment) (m : Table Text (Backend F)) (r : Registry F)
      → AllEntries (WasSeen key seen limit) m
      → IsAging key seen limit r
      → IsAging key seen limit (refresh_each t m r)
  unfolding refresh_each
  refresh_each-IsAging t [] r w a = a
  refresh_each-IsAging t ((j, b) ∷ m) r w a =
      elim (Bool-cases (is_expired r.remove_after t.now b)) [
        | inl old ↦ rw old (refresh_each-IsAging t m r w.1 a)
        | inr fine ↦ rw fine (
            refresh_each-IsAging t m (refresh t j b r) w.1
              (refresh-IsAging key seen limit t j b r w.0 a))
      ]

  remove_each-IsAging :
      (t : Moment) (keys : List Text) (r : Registry F)
      → IsAging key seen limit r
      → IsAging key seen limit (remove_each t keys r)
  unfolding remove_each
  remove_each-IsAging t [] r a = a
  remove_each-IsAging t (j ∷ keys) r a = elim (Option-cases (lookup j r.backends)) [
    | inl e ↦ rw (e, remove_each) (remove_each-IsAging t keys r a)
    | inr (b, e) ↦
        rw (e, remove_each)
          (remove_each-IsAging t keys (notify (remove r t j) b (some b.effective_status) none)
            (notify-IsAging key seen limit _ b _ none (remove-IsAging key seen limit r t j a)))
  ]

  pub run-IsAging :
      (ops : List (Moment × Op F)) (r : Registry F)
      → Leaves key ops
      → IsAging key seen limit r
      → IsAging key seen limit (run r ops)
  unfolding run step register register_static update update_validation set_override update_draining
      check_stale_backends
  run-IsAging [] r l a = a
  run-IsAging ((t, do_register agent_id region service address port weight ok) ∷ ops) r l a =
      run-IsAging ops _ l.1 (finish-IsAging key seen limit t _ _ r (λ same. elim (l.0 same) [ ]) a)
  run-IsAging ((t, do_register_static service address port weight region check_type) ∷ ops) r l a =
      run-IsAging ops _ l.1 (finish-IsAging key seen limit t _ _ r (λ same. elim (l.0 same) [ ]) a)
  run-IsAging ((t, do_register_api service address port weight region) ∷ ops) r l a =
      run-IsAging ops _ l.1 (
        register_api-IsAging r t service address port weight region (λ same. elim (l.0 same) [ ]) a)
  run-IsAging ((t, do_update service address port weight region) ∷ ops) r l a =
      run-IsAging ops _ l (
        with_backend-IsAging key seen limit t (backend_key service address port) _ r
          (λ b. (refl, refl)) a)
  run-IsAging ((t, do_deregister service address port) ∷ ops) r l a =
      run-IsAging ops _ l (deregister-IsAging r t service address port a)
  run-IsAging ((t, do_update_validation service address port ok error latency) ∷ ops) r l a =
      run-IsAging ops _ l (
        with_backend-IsAging key seen limit t (backend_key service address port) _ r
          (λ b. update_validation-last_seen r.smoothing (ok && int_lt 0 latency) latency _) a)
  run-IsAging ((t, do_set_override service address port ok reason by) ∷ ops) r l a =
      run-IsAging ops _ l (
        with_backend-IsAging key seen limit t (backend_key service address port) _ r
          (λ b. (refl, refl)) a)
  run-IsAging ((t, do_clear_override service address port) ∷ ops) r l a =
      run-IsAging ops _ l (clear_override-IsAging r t service address port a)
  run-IsAging ((t, do_update_draining agent_id d) ∷ ops) r l a =
      run-IsAging ops _ l (drain_each-IsAging t agent_id d r.backends r a.was_seen a)
  run-IsAging ((t, do_check_stale) ∷ ops) r l a =
      run-IsAging ops _ l
        (remove_each-IsAging t _ _ (refresh_each-IsAging t r.backends r a.was_seen a))
  run-IsAging ((t, do_load saved) ∷ ops) r l a = elim l [ ]
