-- ===== src/Agent/Predictor.antt =====
-- pkg/agent/predictor.go: the signal with which an agent takes itself out of rotation. A round of the
-- loop is one step on what the monitor reads at the time `now`; the empty reason is that of an agent
-- that does not bleed.
pub mod History
mod Tests
use open_gslb.Common.{
  ℕ, Text, codes, Option, none, some, Bool, true, false, not, ◌&&◌, List, [], ◌∷◌, ◌++◌, ◌==◌,
  text_eq, if◌then◌else◌,
}

-- What the predictor needs of `float64`: the order, and zero.
pub record Floats : Type 1 where
  pub Float : Type 0
  pub zero_float : Float
  pub at_least : Float → Float → Bool

abbrev same_flag : Bool → Bool → Bool
same_flag true b = b
same_flag false b = not b

-- `if err == nil { old = new }`, and `err == nil && new >= limit`.
abbrev or_kept {ℓ} : {A : Type ℓ} → Option A → A → A
or_kept none old = old
or_kept (some x) old = x

abbrev reaches {ℓ} : {A : Type ℓ} → (A → A → Bool) → Option A → A → Bool
reaches at_least none limit = false
reaches at_least (some x) limit = at_least x limit

module _ (F : Floats) where
  open F use {Float}

  pub record PredictiveState : Type 0 where
    pub bleeding : Bool
    pub bleed_reason : Text
    pub bleeding_at : ℕ
    pub cpu_percent : Float
    pub mem_percent : Float
    pub error_rate : Float
    pub last_check : ℕ

  -- The thresholds; `Enabled` and `CheckInterval` only decide when there is a round.
  pub record PredictiveConfig : Type 0 where
    pub cpu_threshold : Float
    pub memory_threshold : Float
    pub error_rate_threshold : Float

  -- The answers of the `SystemMonitor`, each of which may be an error.
  pub record Reading : Type 0 where
    pub cpu : Option Float
    pub memory : Option Float
    pub errors : Option Float
    pub now : ℕ

module _ {F : Floats} where
  open F use {Float, zero_float, at_least}

  -- `PredictiveState{}`
  unfoldable pub calm : PredictiveState F
  calm = record {
    bleeding = false;
    bleed_reason = [];
    bleeding_at = 0;
    cpu_percent = zero_float;
    mem_percent = zero_float;
    error_rate = zero_float;
    last_check = 0;
  }

  -- `bleedReason`
  unfoldable pub bleed_reason_of : PredictiveConfig F → Reading F → Text
  bleed_reason_of cfg m =
      if reaches at_least m.cpu cfg.cpu_threshold
      then codes "cpu_threshold_exceeded"
      else if reaches at_least m.memory cfg.memory_threshold
      then codes "memory_threshold_exceeded"
      else if reaches at_least m.errors cfg.error_rate_threshold
      then codes "error_rate_threshold_exceeded"
      else []

  unfoldable pub judge : PredictiveState F → Text → ℕ → PredictiveState F
  judge s reason now =
      if not (reason == [])
      then if not s.bleeding
        then record s { bleeding = true; bleed_reason = reason; bleeding_at = now }
        else s
      else record s { bleeding = false; bleed_reason = []; bleeding_at = 0 }

  -- The state, and the state that a goroutine is started with that calls the callback, if one is
  -- started; `has_callback` is `p.callback != nil`.
  unfoldable pub check_metrics :
      PredictiveConfig F
      → Bool
      → PredictiveState F
      → Reading F
      → PredictiveState F × Option (PredictiveState F)
  unfolding bleed_reason_of judge
  check_metrics cfg has_callback s m =
      let seen = record s {
        cpu_percent = or_kept m.cpu s.cpu_percent;
        mem_percent = or_kept m.memory s.mem_percent;
        error_rate = or_kept m.errors s.error_rate;
        last_check = m.now;
      } in
      let next = judge seen (bleed_reason_of cfg m) m.now in
      (next, if not (same_flag s.bleeding next.bleeding) && has_callback then some next else none)

  -- The rounds on a history, whose newest reading comes first: the state, and what the goroutines were
  -- started with, the newest first. The order in which these run is not part of it. The callback is
  -- set before the first round or not at all.
  unfoldable pub monitor :
      PredictiveConfig F → Bool → List (Reading F) → PredictiveState F × List (PredictiveState F)
  unfolding check_metrics calm
  monitor cfg has_callback [] = (calm, [])
  monitor cfg has_callback (m ∷ ms) =
      let (s, started) = monitor cfg has_callback ms in
      let (next, start) = check_metrics cfg has_callback s m in
      (next, elim start [ none ↦ started | some c ↦ c ∷ started ])
