-- ===== src/Overwatch/Registry/Authority.antt =====
-- Whose word decides a backend's status (pkg/overwatch/registry.go, computeEffectiveStatus).
use open_gslb.Common.{
  ℕ, ◌≢◌, Option, none, some, Bool, true, false, ◌&&◌, List, [], ◌∷◌, arith, int_lt, since,
  if◌then◌else◌,
}
use open_gslb.Overwatch.Registry.State.{
  Floats, BackendStatus, healthy, unhealthy, stale, overridden, draining, RegistrationSource, agent,
  Backend, effective_status_at,
}

-- The authorities in their order, each with what it says, if it says anything.
abbrev verdict_of : Option Bool → Option BackendStatus
verdict_of none = none
verdict_of (some true) = some healthy
verdict_of (some false) = some unhealthy

abbrev when : Bool → BackendStatus → Option BackendStatus
when true s = some s
when false s = none

abbrev is_agent : RegistrationSource → Bool
is_agent agent = true
is_agent _ = false

abbrev pub first_said : List (Option BackendStatus) → BackendStatus → BackendStatus
first_said [] default = default
first_said (some s ∷ rest) default = s
first_said (none ∷ rest) default = first_said rest default

module _ {F : Floats} where
  unfoldable pub authorities : ℕ → ℕ → Backend F → List (Option BackendStatus)
  authorities stale_threshold now b =
      verdict_of b.override_status
      ∷ when b.is_draining draining
      ∷ verdict_of b.validation_healthy
      ∷ when (is_agent b.source && int_lt stale_threshold (since now b.agent_last_seen)) stale
      ∷ (if is_agent b.source then verdict_of (some b.agent_healthy) else none)
      ∷ []

  pub effective_status_at-ne-overridden :
      (stale_threshold now : ℕ) (b : Backend F)
      → effective_status_at stale_threshold now b ≢ overridden
  unfolding effective_status_at
  effective_status_at-ne-overridden stale_threshold now b = ground arith
