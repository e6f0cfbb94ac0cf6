-- ===== src/Overwatch/Registry/State.antt =====
-- pkg/overwatch/registry.go: backends, their effective status, and what every method does at its end.
-- Times are nanoseconds from the zero time. A `float64` is an unknown type, with the operations that
-- the code applies to it.
use open_gslb.Common.{
  ℕ, Text, Option, none, some, Bool, true, false, not, ◌&&◌, List, [], ◌∷◌, ◌++◌, int_lt, nat_beq,
  add_word, since, text_eq, if◌then◌else◌,
}
use open_gslb.Common.Table.{Table, insert}
use open_gslb.Common.Keys.{backend_key}

-- What the code needs of `float64`: the test and the default in `updateLatencyEMA`, the weighted mean
-- `time.Duration(alpha*float64(measured) + (1-alpha)*float64(previous))`, and zero.
pub record Floats : Type 1 where
  pub Float : Type 0
  pub zero_float : Float
  pub in_unit_interval : Float → Bool
  pub three_tenths : Float
  pub mean : Float → ℕ → ℕ → ℕ

pub data BackendStatus : Type 0 where
  healthy unhealthy stale overridden draining : BackendStatus

unfoldable pub status_beq : BackendStatus → BackendStatus → Bool
status_beq healthy healthy = true
status_beq unhealthy unhealthy = true
status_beq stale stale = true
status_beq overridden overridden = true
status_beq draining draining = true
status_beq _ _ = false

pub data RegistrationSource : Type 0 where
  static agent api : RegistrationSource

unfoldable pub source_beq : RegistrationSource → RegistrationSource → Bool
source_beq static static = true
source_beq agent agent = true
source_beq api api = true
source_beq _ _ = false

module _ (F : Floats) where
  open F use {Float}

  pub record Backend : Type 0 where
    pub service : Text
    pub address : Text
    pub port : ℕ
    pub weight : ℕ
    pub agent_id : Text
    pub region : Text
    pub source : RegistrationSource
    pub created_at : ℕ
    pub updated_at : ℕ
    pub agent_healthy : Bool
    pub agent_last_seen : ℕ
    pub validation_healthy : Option Bool
    pub validation_last_check : ℕ
    pub validation_error : Text
    pub override_status : Option Bool
    pub override_reason : Text
    pub override_by : Text
    pub override_at : ℕ
    pub is_draining : Bool
    pub draining_reason : Text
    pub draining_at : ℕ
    pub cpu_percent : Float
    pub mem_percent : Float
    pub error_rate : Float
    pub effective_status : BackendStatus
    pub smoothed_latency : ℕ
    pub latency_samples : ℕ
    pub last_latency : ℕ
    pub health_check_type : Text

module _ {F : Floats} where
  open F use {Float, zero_float, in_unit_interval, three_tenths, mean}

  -- `computeEffectiveStatus`, at the time `now`.
  unfoldable pub effective_status_at : ℕ → ℕ → Backend F → BackendStatus
  unfolding source_beq
  effective_status_at stale_threshold now b = elim b.override_status [
    | some ok ↦ if ok then healthy else unhealthy
    | none ↦ if b.is_draining then draining else (elim b.validation_healthy [
      | some ok ↦ if ok then healthy else unhealthy
      | none ↦
          let is_stale = int_lt stale_threshold (since now b.agent_last_seen) in
          if source_beq b.source agent && is_stale
          then stale
          else if source_beq b.source agent
          then if b.agent_healthy then healthy else unhealthy
          else healthy
    ])
  ]

  unfoldable pub recompute : ℕ → ℕ → Backend F → Backend F
  recompute stale_threshold now b = record b {
    effective_status = effective_status_at stale_threshold now b;
  }

  -- `updateLatencyEMA`; `latency_samples` is an `int`.
  unfoldable pub update_latency : Float → ℕ → Backend F → Backend F
  update_latency smoothing measured b = record b {
    last_latency = measured;
    smoothed_latency =
        if nat_beq b.latency_samples 0
        then measured
        else mean (if in_unit_interval smoothing then smoothing else three_tenths) measured
            b.smoothed_latency;
    latency_samples = add_word b.latency_samples 1;
  }

module _ (F : Floats) where
  open F use {Float}

  -- What `onStatusChange` is called with; the empty status is `none`.
  pub record Event : Type 0 where
    pub backend : Backend F
    pub old_status : Option BackendStatus
    pub new_status : Option BackendStatus

  -- `store` is nil, or holds what was saved under `backends/` for each key. `notified` lists the
  -- calls of `onStatusChange`, if one is set.
  pub record Registry : Type 0 where
    pub stale_threshold : ℕ
    pub remove_after : ℕ
    pub smoothing : Float
    pub backends : Table Text (Backend F)
    pub store : Option (Table Text (Backend F))
    pub listening : Bool
    pub notified : List Event

-- What a method meets: the clock, which it reads once, and whether its writes to the store succeed.
pub record Moment : Type 0 where
  pub now : ℕ
  pub saved : Bool

pub data Error : Type 0 where
  already_exists not_found : Error

module _ {F : Floats} where
  open F use {Float}

  abbrev pub key_of : Backend F → Text
  key_of b = backend_key b.service b.address b.port

  -- `if r.onStatusChange != nil { r.onStatusChange(backend, old, new) }`
  unfoldable pub notify :
      Registry F → Backend F → Option BackendStatus → Option BackendStatus → Registry F
  notify r b old new =
      if r.listening
      then record r {
        notified = r.notified ++ record { backend = b; old_status = old; new_status = new } ∷ [];
      }
      else r

  -- `persistBackend`; a failed write is only logged.
  unfoldable pub persist : Moment → Backend F → Registry F → Registry F
  persist t b r = elim r.store [
    | none ↦ r
    | some s ↦ if t.saved then record r { store = some (insert (key_of b) b s) } else r
  ]

  -- The end of most methods: the backend that was changed gets its status, is saved, and a change of
  -- status is passed on. The pointer in the map is to the same backend.
  unfoldable pub finish : Moment → Text → Backend F → Registry F → Registry F
  unfolding recompute persist notify status_beq
  finish t key b r =
      let b' = recompute r.stale_threshold t.now b in
      let saved = persist t b' (record r { backends = insert key b' r.backends }) in
      if not (status_beq b.effective_status b'.effective_status)
      then notify saved b' (some b.effective_status) (some b'.effective_status)
      else saved

module _ (F : Floats) where
  open F use {Float}

  -- The predictive signals of an agent.
  pub record DrainSignal : Type 0 where
    pub is_draining : Bool
    pub reason : Text
    pub at : ℕ
    pub cpu_percent : Float
    pub mem_percent : Float
    pub error_rate : Float
