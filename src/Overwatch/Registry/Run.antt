-- ===== src/Overwatch/Registry/Run.antt =====
-- pkg/overwatch/registry.go: the methods as operations, in any order in which the mutex lets them run.
use open_gslb.Common.{ℕ, Text, Bool, List, [], ◌∷◌, Option}
use open_gslb.Overwatch.Registry.State.{Floats, Backend, Registry, Moment, DrainSignal}
use open_gslb.Overwatch.Registry.Changes.{
  register, register_static, register_api, update, deregister, update_validation, set_override,
  clear_override,
}
use open_gslb.Overwatch.Registry.Sweeps.{update_draining, check_stale_backends, load}

pub data Op (F : Floats) : Type 0 where
  do_register : Text → Text → Text → Text → ℕ → ℕ → Bool → Op F
  do_register_static : Text → Text → ℕ → ℕ → Text → Text → Op F
  do_register_api : Text → Text → ℕ → ℕ → Text → Op F
  do_update : Text → Text → ℕ → ℕ → Text → Op F
  do_deregister : Text → Text → ℕ → Op F
  do_update_validation : Text → Text → ℕ → Bool → Text → ℕ → Op F
  do_set_override : Text → Text → ℕ → Bool → Text → Text → Op F
  do_clear_override : Text → Text → ℕ → Op F
  do_update_draining : Text → DrainSignal F → Op F
  do_check_stale : Op F
  do_load : List (Option (Backend F)) → Op F

module _ {F : Floats} where
  unfoldable pub step : Registry F → Moment → Op F → Registry F
  step r t (do_register agent_id region service address port weight ok) =
      register r t agent_id region service address port weight ok
  step r t (do_register_static service address port weight region check_type) =
      register_static r t service address port weight region check_type
  step r t (do_register_api service address port weight region) =
      (register_api r t service address port weight region).0
  step r t (do_update service address port weight region) =
      (update r t service address port weight region).0
  step r t (do_deregister service address port) = (deregister r t service address port).0
  step r t (do_update_validation service address port ok error latency) =
      (update_validation r t service address port ok error latency).0
  step r t (do_set_override service address port ok reason by) =
      (set_override r t service address port ok reason by).0
  step r t (do_clear_override service address port) = (clear_override r t service address port).0
  step r t (do_update_draining agent_id d) = update_draining r t agent_id d
  step r t do_check_stale = check_stale_backends r t
  step r t (do_load saved) = load t saved r

  -- One operation after the other; what goes wrong in one does not end the run.
  unfoldable pub run : Registry F → List (Moment × Op F) → Registry F
  unfolding step
  run r [] = r
  run r ((t, op) ∷ ops) = run (step r t op) ops
