-- ===== src/Overwatch/Tests.antt =====
-- Runs of pkg/overwatch on a registry with a backend of an agent and one of the API.
use open_gslb.Common.{
  ℕ, ◌+◌, ◌/◌, ◌≡◌, refl, Text, codes, none, some, true, List, [], ◌∷◌, arith, text_eq,
}
use open_gslb.Common.Table.{lookup}
use open_gslb.Common.Keys.{backend_key}
use open_gslb.Overwatch.Registry.State.{
  Floats, Backend, Registry, Moment, already_exists, DrainSignal, agent,
}
use open_gslb.Overwatch.Registry.Changes.{blank_backend, register_api, deregister}
use open_gslb.Overwatch.Registry.Sweeps.{check_stale_backends, update_draining}
use open_gslb.Overwatch.Registry.Run.{
  Op, do_register, do_register_api, do_update_validation, do_check_stale, run,
}
use open_gslb.Overwatch.Registry.Keyed.{IsKeyed}
use open_gslb.Overwatch.Registry.Runs.{run-IsKeyed}
use open_gslb.Overwatch.Registry.Expiry.{
  swept, drained, lookup-check_stale_backends, lookup-update_draining,
}
use open_gslb.Overwatch.Registry.Stored.{IsStored}
use open_gslb.Overwatch.Registry.Durable.{run-IsStored}
use open_gslb.Overwatch.Registry.Lifecycle.{deregister-register_api, register_api-expires}

-- A float is here a number of hundredths.
abbrev hundredths : Floats
hundredths = record {
  Float = ℕ;
  zero_float = 0;
  in_unit_interval = λ x. true;
  three_tenths = 30;
  mean = λ a x y. (x + y) / 2;
}

abbrev empty : Registry hundredths
empty = record {
  stale_threshold = 30;
  remove_after = 300;
  smoothing = 30;
  backends = [];
  store = some [];
  listening = true;
  notified = [];
}

abbrev at_time : ℕ → Moment
at_time now = record { now = now; saved = true }

abbrev ops : List (Moment × Op hundredths)
ops =
    (at_time 1, do_register (codes "n1") (codes "eu") (codes "app") (codes "a") 80 10 true)
    ∷ (at_time 2, do_register_api (codes "app") (codes "b") 80 10 (codes "us"))
    ∷ (at_time 3, do_update_validation (codes "app") (codes "b") 80 true [] 5)
    ∷ (at_time 350, do_check_stale)
    ∷ []

run-IsKeyed_example : IsKeyed 30 (run empty ops)
run-IsKeyed_example =
    run-IsKeyed 30 empty ops (record { configured = refl; unique = tt; kept = tt })

run-IsStored_example : IsStored (run empty ops)
unfolding lookup
run-IsStored_example =
    run-IsStored 30 empty ops (refl, tt, (refl, tt, (refl, tt, (refl, tt, tt))))
      (record { configured = refl; unique = tt; kept = tt })
      (record { stored = []; held = refl; same = λ key. refl })

abbrev of_agent : Backend hundredths
of_agent =
    record (blank_backend {F = hundredths} (codes "app") (codes "a") 80 10 (codes "eu") agent 1) {
      agent_id = codes "n1";
    }

abbrev holding : Registry hundredths
holding = record empty { backends = (codes "app:a:80", of_agent) ∷ [] }

lookup-check_stale_backends_example :
    lookup (codes "app:a:80") (check_stale_backends holding (at_time 350)).backends
    ≡ swept 30 300 350 (lookup (codes "app:a:80") holding.backends)
unfolding lookup
lookup-check_stale_backends_example =
    lookup-check_stale_backends holding (at_time 350) (codes "app:a:80") (refl, tt)

abbrev signal : DrainSignal hundredths
signal = record {
  is_draining = true;
  reason = codes "cpu";
  at = 9;
  cpu_percent = 95;
  mem_percent = 40;
  error_rate = 0;
}

lookup-update_draining_example :
    lookup (codes "app:a:80") (update_draining holding (at_time 10) (codes "n1") signal).backends
    ≡ drained 30 10 (codes "n1") signal (lookup (codes "app:a:80") holding.backends)
unfolding lookup
lookup-update_draining_example =
    lookup-update_draining holding (at_time 10) (codes "n1") signal (codes "app:a:80") (refl, tt)

deregister-register_api_example :
    let after = register_api empty (at_time 5) (codes "app") (codes "b") 80 10 (codes "us") in
    (after.1 ≡ none)
    × (register_api after.0 (at_time 6) (codes "app") (codes "b") 80 10 (codes "us")
        ≡ (after.0, some already_exists))
    × ((deregister after.0 (at_time 6) (codes "app") (codes "b") 80).1 ≡ none)
    × ((j : Text)
        → lookup j (deregister after.0 (at_time 6) (codes "app") (codes "b") 80).0.backends
          ≡ lookup j empty.backends)
unfolding lookup
deregister-register_api_example =
    deregister-register_api empty (at_time 5) (at_time 6) (codes "app") (codes "b") 80 10
      (codes "us") refl

abbrev between : List (Moment × Op hundredths)
between =
    (at_time 7, do_update_validation (codes "app") (codes "b") 80 true [] 5)
    ∷ (at_time 200, do_check_stale)
    ∷ []

register_api-expires_example :
    lookup
      (backend_key (codes "app") (codes "b") 80)
      (check_stale_backends
        (run
          (register_api empty (at_time 5) (codes "app") (codes "b") 80 10 (codes "us")).0
          between)
        (at_time 400)).backends
    ≡ none
unfolding lookup
register_api-expires_example =
    register_api-expires 30 empty (at_time 5) (at_time 400) (codes "app") (codes "b") 80 10
      (codes "us") between (record { configured = refl; unique = tt; kept = tt }) refl tt
      (ground arith)
