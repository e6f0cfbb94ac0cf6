-- ===== src/Routing/Latency.antt =====
-- pkg/routing/latency.go, less logging and metrics. The provider is a function of an address and a
-- port; the fallback router is asked by `Router`.
pub mod Choice
use open_gslb.Common.{
  ℕ, ◌≡◌, refl, Text, Option, none, some, Bool, true, false, ◌&&◌, List, [], ◌∷◌, arith, In, here,
  there, select, int_lt, int_le, nat_beq, if◌then◌else◌,
}
use open_gslb.Routing.Core.{Server, Decision, chosen, fall_back}
use open_gslb.Routing.Lowest.{Measured, choose, milliseconds, within}

pub record LatencyInfo : Type 0 where
  pub smoothed : ℕ
  pub samples : ℕ
  pub last : ℕ
  pub has_data : Bool

-- `LatencyProvider`
abbrev pub Provider : Type 0
Provider = Text → ℕ → LatencyInfo

pub record LatencyRouter : Type 0 where
  pub provider : Option Provider
  pub max_latency_ms : ℕ
  pub min_samples : ℕ

-- `NewLatencyRouter`: a setting of 0 takes its default.
unfoldable pub new_latency_router : Option Provider → ℕ → ℕ → LatencyRouter
new_latency_router provider max_ms samples = record {
  provider = provider;
  max_latency_ms = if nat_beq max_ms 0 then 500 else max_ms;
  min_samples = if nat_beq samples 0 then 3 else samples;
}

-- A server whose latency counts: it has data, of enough samples.
abbrev pub is_measured : ℕ → LatencyInfo → Bool
is_measured min_samples info = info.has_data && int_le min_samples info.samples

-- The loop that fills `withLatency`.
unfoldable pub with_latency : Provider → ℕ → List Server → List Measured
with_latency provider min_samples [] = []
with_latency provider min_samples (s ∷ ss) =
    let info = provider s.address s.port in
    let rest = with_latency provider min_samples ss in
    if is_measured min_samples info
    then record { server = s; latency = info.smoothed } ∷ rest
    else rest

lowest_latency : ℕ → List Server → List Measured → Decision
lowest_latency limit servers [] = fall_back servers
lowest_latency limit servers (m ∷ ms) = chosen (choose limit m ms).server

-- `Route` on a pool that is not empty.
unfoldable pub latency_decision : LatencyRouter → List Server → Decision
unfolding lowest_latency
latency_decision r servers = elim r.provider [
  | none ↦ fall_back servers
  | some provider ↦
      lowest_latency (milliseconds r.max_latency_ms) servers
        (with_latency provider r.min_samples servers)
]

-- `SetProvider`, `SetMaxLatency` and `SetMinSamples`
unfoldable pub set_provider : LatencyRouter → Option Provider → LatencyRouter
set_provider r p = record r { provider = p }

unfoldable pub set_max_latency : LatencyRouter → ℕ → LatencyRouter
set_max_latency r ms = record r { max_latency_ms = ms }

unfoldable pub set_min_samples : LatencyRouter → ℕ → LatencyRouter
set_min_samples r n = record r { min_samples = n }
