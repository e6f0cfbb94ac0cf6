-- ===== src/Health.antt =====
-- pkg/health/status.go: the state that a health check result drives. `int` counters are 64-bit
-- patterns that wrap; a time is a count of nanoseconds from the zero time; an `error` is an option.
pub mod Hysteresis
pub mod Manager
mod Tests
use open_gslb.Common.{
  ℕ, Text, Option, none, Bool, true, false, not, ◌&&◌, List, [], ◌∷◌, add_word, int_lt, int_le,
  if◌then◌else◌,
}

pub data Status : Type 0 where
  unknown healthy unhealthy : Status

unfoldable pub status_beq : Status → Status → Bool
status_beq unknown unknown = true
status_beq healthy healthy = true
status_beq unhealthy unhealthy = true
status_beq _ _ = false

-- `Result`
pub record CheckResult : Type 0 where
  pub passed : Bool
  pub latency : ℕ
  pub error : Option Text
  pub timestamp : ℕ

pub record ServerHealth : Type 0 where
  pub address : Text
  pub status : Status
  pub last_check : ℕ
  pub last_healthy : ℕ
  pub consecutive_fails : ℕ
  pub consecutive_passes : ℕ
  pub last_error : Option Text
  pub last_latency : ℕ
  pub fail_threshold : ℕ
  pub pass_threshold : ℕ

unfoldable pub new_server_health : Text → ℕ → ℕ → ServerHealth
new_server_health address fail_threshold pass_threshold = record {
  address = address;
  status = unknown;
  last_check = 0;
  last_healthy = 0;
  consecutive_fails = 0;
  consecutive_passes = 0;
  last_error = none;
  last_latency = 0;
  fail_threshold = if int_lt fail_threshold 1 then 3 else fail_threshold;
  pass_threshold = if int_lt pass_threshold 1 then 2 else pass_threshold;
}

unfoldable pub is_healthy : ServerHealth → Bool
unfolding status_beq
is_healthy sh = status_beq sh.status healthy

record_pass : ServerHealth → CheckResult → ServerHealth
unfolding status_beq
record_pass sh r =
    let passes = add_word sh.consecutive_passes 1 in
    record sh {
      consecutive_fails = 0;
      consecutive_passes = passes;
      last_error = none;
      last_healthy = r.timestamp;
      status =
          if not (status_beq sh.status healthy) && int_le sh.pass_threshold passes
          then healthy
          else sh.status;
    }

record_fail : ServerHealth → CheckResult → ServerHealth
unfolding status_beq
record_fail sh r =
    let fails = add_word sh.consecutive_fails 1 in
    record sh {
      consecutive_passes = 0;
      consecutive_fails = fails;
      last_error = r.error;
      status =
          if not (status_beq sh.status unhealthy) && int_le sh.fail_threshold fails
          then unhealthy
          else sh.status;
    }

-- The new state, and whether the status changed.
unfoldable pub record_result : ServerHealth → CheckResult → ServerHealth × Bool
unfolding record_pass record_fail status_beq
record_result sh r =
    let seen = record sh { last_check = r.timestamp; last_latency = r.latency } in
    let next = if r.passed then record_pass seen r else record_fail seen r in
    (next, not (status_beq next.status sh.status))

-- The results that a server's check loop records, in order.
unfoldable pub record_all : ServerHealth → List CheckResult → ServerHealth
record_all sh [] = sh
record_all sh (r ∷ rs) = record_all (record_result sh r).0 rs

pub record Snapshot : Type 0 where
  pub address : Text
  pub status : Status
  pub last_check : ℕ
  pub last_healthy : ℕ
  pub consecutive_fails : ℕ
  pub consecutive_passes : ℕ
  pub last_error : Option Text
  pub last_latency : ℕ

unfoldable pub snapshot : ServerHealth → Snapshot
snapshot sh = record {
  address = sh.address;
  status = sh.status;
  last_check = sh.last_check;
  last_healthy = sh.last_healthy;
  consecutive_fails = sh.consecutive_fails;
  consecutive_passes = sh.consecutive_passes;
  last_error = sh.last_error;
  last_latency = sh.last_latency;
}
