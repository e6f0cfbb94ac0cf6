-- ===== src/Overwatch/Registry/Changes.antt =====
-- pkg/overwatch/registry.go: the methods of `Registry` for one backend. The mutex makes each one step; logging and
-- metrics are left out, and the order of the callback and the write does not show.
use open_gslb.Common.{
  ℕ, Text, Option, none, some, Bool, false, ◌&&◌, [], int_lt, ◌==◌, text_eq, codes, if◌then◌else◌,
}
use open_gslb.Common.Table.{lookup, insert, erase}
use open_gslb.Common.Keys.{backend_key}
use open_gslb.Overwatch.Registry.State.{
  Floats, healthy, RegistrationSource, static, agent, api, Backend, recompute, update_latency,
  Registry, Moment, Error, already_exists, not_found, notify, persist, finish,
}

module _ {F : Floats} where
  open F use {Float, zero_float}

  -- The literal in `Register`, `RegisterStatic` and `RegisterAPI`, with all that is not named zero.
  unfoldable pub blank_backend : Text → Text → ℕ → ℕ → Text → RegistrationSource → ℕ → Backend F
  blank_backend service address port weight region source now = record {
    service = service;
    address = address;
    port = port;
    weight = weight;
    agent_id = [];
    region = region;
    source = source;
    created_at = now;
    updated_at = now;
    agent_healthy = false;
    agent_last_seen = 0;
    validation_healthy = none;
    validation_last_check = 0;
    validation_error = [];
    override_status = none;
    override_reason = [];
    override_by = [];
    override_at = 0;
    is_draining = false;
    draining_reason = [];
    draining_at = 0;
    cpu_percent = zero_float;
    mem_percent = zero_float;
    error_rate = zero_float;
    effective_status = healthy;
    smoothed_latency = 0;
    latency_samples = 0;
    last_latency = 0;
    health_check_type = [];
  }

  -- `if !exists { backend = &Backend{...} }`
  abbrev pub or_new : Option (Backend F) → Backend F → Backend F
  or_new none fresh = fresh
  or_new (some b) fresh = b

  unfoldable pub register :
      Registry F → Moment → Text → Text → Text → Text → ℕ → ℕ → Bool → Registry F
  unfolding blank_backend
  register r t agent_id region service address port weight ok =
      let key = backend_key service address port in
      let base =
        or_new (lookup key r.backends)
          (blank_backend service address port weight region agent t.now) in
      finish t key
        (record base {
          agent_id = agent_id;
          region = region;
          weight = weight;
          agent_healthy = ok;
          agent_last_seen = t.now;
          updated_at = t.now;
        })
        r

  unfoldable pub register_static :
      Registry F → Moment → Text → Text → ℕ → ℕ → Text → Text → Registry F
  unfolding blank_backend
  register_static r t service address port weight region check_type =
      let key = backend_key service address port in
      let base =
        or_new (lookup key r.backends)
          (blank_backend service address port weight region static t.now) in
      finish t key
        (record base {
          weight = weight;
          region = region;
          health_check_type = if check_type == [] then codes "http" else check_type;
          updated_at = t.now;
        })
        r

  unfoldable pub register_api :
      Registry F → Moment → Text → Text → ℕ → ℕ → Text → Registry F × Option Error
  unfolding blank_backend
  register_api r t service address port weight region =
      let key = backend_key service address port in
      elim (lookup key r.backends) [
        | some _ ↦ (r, some already_exists)
        | none ↦
            let b =
              recompute r.stale_threshold t.now
                (record (blank_backend service address port weight region api t.now) {
                  agent_last_seen = t.now;
                }) in
            (
              notify (persist t b (record r { backends = insert key b r.backends })) b none
                  (some b.effective_status),
              none,
            )
      ]

  -- The methods that change a backend that exists: `change` makes the new fields.
  unfoldable pub with_backend :
      Registry F → Moment → Text → (Backend F → Backend F) → Registry F × Option Error
  with_backend r t key change = elim (lookup key r.backends) [
    | none ↦ (r, some not_found)
    | some b ↦ (finish t key (change b) r, none)
  ]

  unfoldable pub update :
      Registry F → Moment → Text → Text → ℕ → ℕ → Text → Registry F × Option Error
  unfolding with_backend
  update r t service address port weight region =
      with_backend r t (backend_key service address port)
        (λ b. record b { weight = weight; region = region; updated_at = t.now })

  -- `deleted` is the same as `saved`: whether the call of the store succeeds.
  unfoldable pub remove : Registry F → Moment → Text → Registry F
  remove r t key =
      let rest = record r { backends = erase key r.backends } in
      elim r.store [
        | none ↦ rest
        | some s ↦ if t.saved then record rest { store = some (erase key s) } else rest
      ]

  unfoldable pub deregister : Registry F → Moment → Text → Text → ℕ → Registry F × Option Error
  unfolding remove
  deregister r t service address port =
      let key = backend_key service address port in
      elim (lookup key r.backends) [
        | none ↦ (r, some not_found)
        | some b ↦ (notify (remove r t key) b (some b.effective_status) none, none)
      ]

  -- `UpdateValidationWithLatency`; the latency is a duration.
  unfoldable pub update_validation :
      Registry F → Moment → Text → Text → ℕ → Bool → Text → ℕ → Registry F × Option Error
  unfolding with_backend update_latency
  update_validation r t service address port ok error latency =
      with_backend r t (backend_key service address port) (λ b.
        let checked = record b {
          validation_healthy = some ok;
          validation_last_check = t.now;
          validation_error = error;
        } in
        if ok && int_lt 0 latency then update_latency r.smoothing latency checked else checked)

  unfoldable pub set_override :
      Registry F → Moment → Text → Text → ℕ → Bool → Text → Text → Registry F × Option Error
  unfolding with_backend
  set_override r t service address port ok reason by =
      with_backend r t (backend_key service address port) (λ b. record b {
        override_status = some ok;
        override_reason = reason;
        override_by = by;
        override_at = t.now;
      })

  -- With no override there is nothing to clear, and no error.
  unfoldable pub clear_override : Registry F → Moment → Text → Text → ℕ → Registry F × Option Error
  clear_override r t service address port =
      let key = backend_key service address port in
      elim (lookup key r.backends) [
        | none ↦ (r, some not_found)
        | some b ↦ elim b.override_status [
          | none ↦ (r, none)
          | some _ ↦ (
            finish t key
                (record b {
                  override_status = none;
                  override_reason = [];
                  override_by = [];
                  override_at = 0;
                })
                r,
            none,
          )
        ]
      ]
