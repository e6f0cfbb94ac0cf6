-- ===== src/Routing/Learned.antt =====
-- pkg/routing/learned_latency.go, less logging and metrics. `netip.AddrFromSlice`, `Is4In6` and
-- `Unmap` act on the bytes of an address.
pub mod Fresh
use open_gslb.Common.{
  ℕ, ◌≡◌, refl, Text, Option, none, some, Bool, true, false, not, ◌&&◌, ◌||◌, List, [], ◌∷◌, arith,
  length, take, drop, ltb, int_lt, nat_beq, since, ◌==◌, text_eq, if◌then◌else◌,
}
use open_gslb.Routing.Core.{Server, Ip, Context, Decision, chosen, fall_back}
use open_gslb.Routing.Lowest.{Measured, choose, milliseconds}

pub record LearnedLatencyData : Type 0 where
  pub backend : Text
  pub ewma : ℕ
  pub sample_count : ℕ
  pub last_updated : ℕ

-- `LearnedLatencyProvider`: of a client, a service and a region.
abbrev pub LearnedProvider : Type 0
LearnedProvider = Ip → Text → Text → Option LearnedLatencyData

pub record LearnedLatencyRouter : Type 0 where
  pub provider : Option LearnedProvider
  pub max_latency_ms : ℕ
  pub min_samples : ℕ
  pub stale_threshold : ℕ

-- 168 hours, in nanoseconds
abbrev pub week : ℕ
week = 604_800_000_000_000

-- `NewLearnedLatencyRouter`, less the fallback: a setting of 0 takes its default.
unfoldable pub new_learned_router : Option LearnedProvider → ℕ → ℕ → ℕ → LearnedLatencyRouter
new_learned_router provider max_ms samples stale = record {
  provider = provider;
  max_latency_ms = if nat_beq max_ms 0 then 500 else max_ms;
  min_samples = if nat_beq samples 0 then 5 else samples;
  stale_threshold = if nat_beq stale 0 then week else stale;
}

-- `netip.AddrFromSlice`
unfoldable pub addr_from_slice : Ip → Option Ip
addr_from_slice ip = if nat_beq (length ip) 4 || nat_beq (length ip) 16 then some ip else none

-- `Is4In6` and `Unmap`: the addresses ::ffff:0:0/96 are those of IPv4.
abbrev mapped_prefix : Ip
mapped_prefix = 0 ∷ 0 ∷ 0 ∷ 0 ∷ 0 ∷ 0 ∷ 0 ∷ 0 ∷ 0 ∷ 0 ∷ 255 ∷ 255 ∷ []

unfoldable pub unmap : Ip → Ip
unmap ip = if nat_beq (length ip) 16 && take 12 ip == mapped_prefix then drop 12 ip else ip

-- The loop that fills `withLatency`, at the time `now`.
unfoldable pub with_learned : LearnedProvider → ℕ → ℕ → ℕ → Ip → Text → List Server → List Measured
with_learned provider min_samples stale now ip domain [] = []
with_learned provider min_samples stale now ip domain (s ∷ ss) =
    let rest = with_learned provider min_samples stale now ip domain ss in
    if domain == [] || s.region == [] then rest else (elim (provider ip domain s.region) [
      | none ↦ rest
      | some found ↦
          if ltb found.sample_count min_samples || int_lt stale (since now found.last_updated)
          then rest
          else record { server = s; latency = found.ewma } ∷ rest
    ])

lowest_learned : ℕ → List Server → List Measured → Decision
lowest_learned limit servers [] = fall_back servers
lowest_learned limit servers (m ∷ ms) = chosen (choose limit m ms).server

learned_for : LearnedLatencyRouter → ℕ → Text → Ip → List Server → Decision
unfolding lowest_learned
learned_for r now domain ip servers = elim r.provider [
  | none ↦ fall_back servers
  | some provider ↦
      lowest_learned (milliseconds r.max_latency_ms) servers
        (with_learned provider r.min_samples r.stale_threshold now (unmap ip) domain servers)
]

-- `Route` on a pool that is not empty: an address that does not convert and a missing one both fall
-- back, whether there is a provider or not.
unfoldable pub learned_decision : LearnedLatencyRouter → ℕ → Context → List Server → Decision
unfolding learned_for
learned_decision r now ctx servers = elim ctx.client_ip [
  | none ↦ fall_back servers
  | some ip ↦ elim (addr_from_slice ip) [
    | none ↦ fall_back servers
    | some addr ↦ learned_for r now ctx.domain addr servers
  ]
]
