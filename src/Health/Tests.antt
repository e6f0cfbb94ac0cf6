-- ===== src/Health/Tests.antt =====
-- Runs of pkg/health: a server that comes up, fails and recovers, and a reload of three servers.
use open_gslb.Common.{
  ℕ, ◌≡◌, refl, Text, codes, none, Bool, true, false, List, [], ◌∷◌, arith, text_eq,
}
use mathlib.Core.List.{reverse}
use open_gslb.Health.{CheckResult, ServerHealth, new_server_health, record_all, healthy, unhealthy}
use open_gslb.Health.Hysteresis.{
  pass_run, fail_run, verdict, record_all-verdict, record_all_recovers, record_all_tolerates,
}
use open_gslb.Health.Manager.{
  ServerConfig, default_manager_config, Manager, new_manager, add_server,
}

abbrev check_at : ℕ → Bool → CheckResult
check_at t ok = record { passed = ok; latency = 5; error = none; timestamp = t }

-- The newest first: two passes bring the server up, and one failure of three does not take it down.
abbrev wavering : List CheckResult
wavering = check_at 3 false ∷ check_at 2 true ∷ check_at 1 true ∷ []

abbrev tracker : ServerHealth
tracker = new_server_health (codes "a:80") 3 2

record_all-verdict_example :
    let sh = record_all tracker (reverse wavering) in
    (sh.status ≡ verdict 3 2 wavering)
    × (sh.consecutive_passes ≡ pass_run wavering)
    × (sh.consecutive_fails ≡ fail_run wavering)
record_all-verdict_example =
    record_all-verdict 3 2 (codes "a:80") wavering (omega arith) (omega arith) (omega arith)
      (omega arith) (omega arith)

abbrev down : ServerHealth
down = record tracker { status = unhealthy; consecutive_fails = 4 }

record_all_recovers_example :
    (record_all down (check_at 5 true ∷ check_at 6 true ∷ [])).status ≡ healthy
unfolding new_server_health
record_all_recovers_example =
    record_all_recovers down (check_at 5 true ∷ check_at 6 true ∷ []) (omega arith) (omega arith)
      (refl, (refl, tt)) (omega arith) (omega arith)

abbrev up : ServerHealth
up = record tracker { status = healthy; consecutive_passes = 7 }

record_all_tolerates_example :
    (record_all up (check_at 5 false ∷ check_at 6 false ∷ [])).status ≡ healthy
unfolding new_server_health
record_all_tolerates_example =
    record_all_tolerates up (check_at 5 false ∷ check_at 6 false ∷ []) (omega arith) refl
      (omega arith)

abbrev config_at : Text → Text → ServerConfig
config_at address path = record {
  address = address;
  port = 80;
  path = path;
  scheme = codes "http";
  host = [];
  interval = 0;
  timeout = 0;
}

abbrev two_servers : Manager
two_servers =
    (add_server
      (add_server (new_manager default_manager_config) (config_at (codes "a") (codes "/"))).0
      (config_at (codes "b") (codes "/"))).0

abbrev new_list : List ServerConfig
new_list = config_at (codes "b") (codes "/health") ∷ config_at (codes "c") (codes "/") ∷ []
