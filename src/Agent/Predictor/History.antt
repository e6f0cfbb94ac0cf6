-- ===== src/Agent/Predictor/History.antt =====
-- What the predictor's state says of its history (pkg/agent/predictor.go, checkMetrics).
use open_gslb.Common.{
  ℕ, ◌≡◌, Text, Option, none, some, Bool, true, false, not, List, [], ◌∷◌, ◌==◌, text_eq,
  if◌then◌else◌,
}
use open_gslb.Agent.Predictor.{Floats, PredictiveState, PredictiveConfig, Reading, bleed_reason_of}

module _ {F : Floats} where
  -- The oldest reading of the run of readings above a threshold that ends the history: its time and
  -- its reason.
  unfoldable pub bleed_start : PredictiveConfig F → List (Reading F) → Option (ℕ × Text)
  unfolding bleed_reason_of
  bleed_start cfg [] = none
  bleed_start cfg (m ∷ ms) =
      let before = bleed_start cfg ms in
      if bleed_reason_of cfg m == []
      then none
      else (elim before [ none ↦ some (m.now, bleed_reason_of cfg m) | some b ↦ some b ])

  -- The state tells whether there is such a run, and when and why it began.
  abbrev pub Tells : PredictiveState F → Option (ℕ × Text) → Type 0
  Tells s none = (s.bleeding ≡ false) × (s.bleeding_at ≡ 0) × (s.bleed_reason ≡ [])
  Tells s (some (at, reason)) =
      (s.bleeding ≡ true) × (s.bleeding_at ≡ at) × (s.bleed_reason ≡ reason)

  -- What the goroutines were started with, the newest first, says in turn that bleeding began and
  -- ended, and the newest says what the state is.
  abbrev pub Alternates : Bool → List (PredictiveState F) → Type 0
  Alternates flag [] = flag ≡ false
  Alternates flag (c ∷ cs) = (c.bleeding ≡ flag) × Alternates (not flag) cs

  -- With a callback, each change started one goroutine; without one, none was started.
  abbrev pub Started : Bool → Bool → List (PredictiveState F) → Type 0
  Started true flag started = Alternates flag started
  Started false flag started = started ≡ []
