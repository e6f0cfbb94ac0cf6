-- ===== src/Overwatch/Registry/Runs.antt =====
-- The registry's invariant over any run of its methods (pkg/overwatch/registry.go).
use open_gslb.Common.{
  ℕ, ◌≡◌, refl, sym, subst, Text, Option, none, some, Bool, List, [], ◌∷◌, ◌==◌, text_eq,
  if◌then◌else◌, Bool-cases, Option-cases, inl, inr, int_lt, ◌&&◌,
}
use open_gslb.Common.Table.{Table, lookup, insert, AllEntries}
use open_gslb.Common.Keys.{backend_key}
use open_gslb.Overwatch.Registry.State.{
  Floats, Backend, Registry, Moment, recompute, key_of, notify, finish, update_latency, DrainSignal,
  agent, static, api,
}
use open_gslb.Overwatch.Registry.Changes.{
  blank_backend, register, register_static, register_api, update, remove, deregister,
  update_validation, set_override, clear_override,
}
use open_gslb.Overwatch.Registry.Sweeps.{
  apply_signal, drain_each, update_draining, is_expired, refresh, refresh_each, remove_each,
  check_stale_backends, load,
}
use open_gslb.Overwatch.Registry.Keyed.{
  IsKept, IsKeyed, finish-IsKeyed, notify-IsKeyed, persist-IsKeyed, with_backend-IsKeyed,
  or_new-key, remove-IsKeyed, refresh-IsKeyed, key_of_found, IsKeyed-insert, recompute-IsKept,
}
use open_gslb.Overwatch.Registry.Run.{
  Op, do_register, do_register_static, do_register_api, do_update, do_deregister,
  do_update_validation, do_set_override, do_clear_override, do_update_draining, do_check_stale,
  do_load, step, run,
}

module _ {F : Floats} (threshold : ℕ) where
  register-IsKeyed :
      (r : Registry F) (t : Moment) (agent_id region service address : Text) (port weight : ℕ)
      (ok : Bool)
      → IsKeyed threshold r
      → IsKeyed threshold (register r t agent_id region service address port weight ok)
  unfolding register blank_backend
  register-IsKeyed r t agent_id region service address port weight ok k =
      let key = backend_key service address port in
      finish-IsKeyed threshold t key _ r
        (or_new-key threshold r key (blank_backend service address port weight region agent t.now)
          refl k)
        k

  register_static-IsKeyed :
      (r : Registry F) (t : Moment) (service address : Text) (port weight : ℕ)
      (region check_type : Text)
      → IsKeyed threshold r
      → IsKeyed threshold (register_static r t service address port weight region check_type)
  unfolding register_static blank_backend
  register_static-IsKeyed r t service address port weight region check_type k =
      let key = backend_key service address port in
      finish-IsKeyed threshold t key _ r
        (or_new-key threshold r key (blank_backend service address port weight region static t.now)
          refl k)
        k

  inserted-IsKeyed :
      (r : Registry F) (now : ℕ) (key : Text) (b : Backend F)
      → key_of b ≡ key
      → IsKeyed threshold r
      → IsKeyed threshold
          (record r { backends = insert key (recompute r.stale_threshold now b) r.backends })
  inserted-IsKeyed r now key b e k =
      IsKeyed-insert threshold r key (recompute r.stale_threshold now b)
        (subst (λ s. IsKept threshold key (recompute s now b)) (sym k.configured)
          (recompute-IsKept threshold now key b e))
        k

  register_api-IsKeyed :
      (r : Registry F) (t : Moment) (service address : Text) (port weight : ℕ) (region : Text)
      → IsKeyed threshold r
      → IsKeyed threshold (register_api r t service address port weight region).0
  unfolding register_api blank_backend
  register_api-IsKeyed r t service address port weight region k =
      let key = backend_key service address port in
      elim (Option-cases (lookup key r.backends)) [
        | inr (b, e) ↦ rw (e, register_api) k
        | inl e ↦
            let fresh = (record (blank_backend service address port weight region api t.now) {
              agent_last_seen = t.now;
            }) in
            rw (e, register_api)
              (notify-IsKeyed threshold _ _ none _
                (persist-IsKeyed threshold t _ _ (inserted-IsKeyed r t.now key fresh refl k)))
      ]

  deregister-IsKeyed :
      (r : Registry F) (t : Moment) (service address : Text) (port : ℕ)
      → IsKeyed threshold r
      → IsKeyed threshold (deregister r t service address port).0
  unfolding deregister
  deregister-IsKeyed r t service address port k =
      let key = backend_key service address port in
      elim (Option-cases (lookup key r.backends)) [
        | inl e ↦ rw (e, deregister) k
        | inr (b, e) ↦
            rw (e, deregister)
              (notify-IsKeyed threshold _ b _ none (remove-IsKeyed threshold r t key k))
      ]

  pub update_validation-key :
      (r : Registry F) (t : Moment) (ok : Bool) (error : Text) (latency : ℕ) (b checked : Backend F)
      → key_of checked ≡ key_of b
      → key_of
          (if ok && int_lt 0 latency then update_latency r.smoothing latency checked else checked)
        ≡ key_of b
  unfolding update_latency
  update_validation-key r t ok error latency b checked e =
      elim (Bool-cases (ok && int_lt 0 latency)) [ inl timed ↦ rw timed e | inr plain ↦ rw plain e ]

  clear_override-IsKeyed :
      (r : Registry F) (t : Moment) (service address : Text) (port : ℕ)
      → IsKeyed threshold r
      → IsKeyed threshold (clear_override r t service address port).0
  unfolding clear_override
  clear_override-IsKeyed r t service address port k =
      let key = backend_key service address port in
      elim (Option-cases (lookup key r.backends)) [
        | inl e ↦ rw (e, clear_override) k
        | inr (b, e) ↦ elim (Option-cases b.override_status) [
          | inl unset ↦ rw (e, clear_override, unset) k
          | inr (ok, some_set) ↦
              rw (e, clear_override, some_set)
                (finish-IsKeyed threshold t key _ r (key_of_found threshold r key b k e) k)
        ]
      ]

  drain_each-IsKeyed :
      (t : Moment) (agent_id : Text) (d : DrainSignal F) (m : Table Text (Backend F))
      (r : Registry F)
      → AllEntries (IsKept threshold) m
      → IsKeyed threshold r
      → IsKeyed threshold (drain_each t agent_id d m r)
  unfolding drain_each apply_signal
  drain_each-IsKeyed t agent_id d [] r a k = k
  drain_each-IsKeyed t agent_id d ((key, b) ∷ m) r a k =
      elim (Bool-cases (b.agent_id == agent_id)) [
        | inl mine ↦ rw mine (
            drain_each-IsKeyed t agent_id d m (finish t key (apply_signal d b) r) a.1
              (finish-IsKeyed threshold t key (apply_signal d b) r a.0.0 k))
        | inr other ↦ rw other (drain_each-IsKeyed t agent_id d m r a.1 k)
      ]

  refresh_each-IsKeyed :
      (t : Moment) (m : Table Text (Backend F)) (r : Registry F)
      → AllEntries (IsKept threshold) m
      → IsKeyed threshold r
      → IsKeyed threshold (refresh_each t m r)
  unfolding refresh_each
  refresh_each-IsKeyed t [] r a k = k
  refresh_each-IsKeyed t ((key, b) ∷ m) r a k =
      elim (Bool-cases (is_expired r.remove_after t.now b)) [
        | inl old ↦ rw old (refresh_each-IsKeyed t m r a.1 k)
        | inr fine ↦ rw fine (
            refresh_each-IsKeyed t m (refresh t key b r) a.1
              (refresh-IsKeyed threshold t key b r a.0.0 k))
      ]

  remove_each-IsKeyed :
      (t : Moment) (keys : List Text) (r : Registry F)
      → IsKeyed threshold r
      → IsKeyed threshold (remove_each t keys r)
  unfolding remove_each
  remove_each-IsKeyed t [] r k = k
  remove_each-IsKeyed t (key ∷ keys) r k = elim (Option-cases (lookup key r.backends)) [
    | inl e ↦ rw (e, remove_each) (remove_each-IsKeyed t keys r k)
    | inr (b, e) ↦
        rw (e, remove_each)
          (remove_each-IsKeyed t keys (notify (remove r t key) b (some b.effective_status) none)
            (notify-IsKeyed threshold _ b _ none (remove-IsKeyed threshold r t key k)))
  ]

  load-IsKeyed :
      (t : Moment) (saved : List (Option (Backend F))) (r : Registry F)
      → IsKeyed threshold r
      → IsKeyed threshold (load t saved r)
  unfolding load
  load-IsKeyed t [] r k = k
  load-IsKeyed t (none ∷ saved) r k = load-IsKeyed t saved r k
  load-IsKeyed t (some b ∷ saved) r k =
      load-IsKeyed t saved _
        (notify-IsKeyed threshold _ _ none _ (inserted-IsKeyed r t.now (key_of b) b refl k))

  pub step-IsKeyed :
      (r : Registry F) (t : Moment) (op : Op F)
      → IsKeyed threshold r
      → IsKeyed threshold (step r t op)
  unfolding step update update_validation set_override update_draining check_stale_backends
  step-IsKeyed r t (do_register agent_id region service address port weight ok) k =
      register-IsKeyed r t agent_id region service address port weight ok k
  step-IsKeyed r t (do_register_static service address port weight region check_type) k =
      register_static-IsKeyed r t service address port weight region check_type k
  step-IsKeyed r t (do_register_api service address port weight region) k =
      register_api-IsKeyed r t service address port weight region k
  step-IsKeyed r t (do_update service address port weight region) k =
      with_backend-IsKeyed threshold t (backend_key service address port) _ r (λ b. refl) k
  step-IsKeyed r t (do_deregister service address port) k =
      deregister-IsKeyed r t service address port k
  step-IsKeyed r t (do_update_validation service address port ok error latency) k =
      with_backend-IsKeyed threshold t (backend_key service address port) _ r
        (λ b. update_validation-key r t ok error latency b _ refl) k
  step-IsKeyed r t (do_set_override service address port ok reason by) k =
      with_backend-IsKeyed threshold t (backend_key service address port) _ r (λ b. refl) k
  step-IsKeyed r t (do_clear_override service address port) k =
      clear_override-IsKeyed r t service address port k
  step-IsKeyed r t (do_update_draining agent_id d) k =
      drain_each-IsKeyed t agent_id d r.backends r k.kept k
  step-IsKeyed r t do_check_stale k =
      remove_each-IsKeyed t _ _ (refresh_each-IsKeyed t r.backends r k.kept k)
  step-IsKeyed r t (do_load saved) k = load-IsKeyed t saved r k

-- A run from a registry that keeps the invariant keeps it: no key stands twice, every backend stands
-- under the key of its own service, address and port, and its status is what the authorities said
-- of it at some time. An empty registry keeps it.
pub run-IsKeyed :
    {F : Floats} (threshold : ℕ) (r : Registry F) (ops : List (Moment × Op F))
    → IsKeyed threshold r
    → IsKeyed threshold (run r ops)
unfolding run
run-IsKeyed threshold r [] k = k
run-IsKeyed threshold r ((t, op) ∷ ops) k =
    run-IsKeyed threshold (step r t op) ops (step-IsKeyed threshold r t op k)
