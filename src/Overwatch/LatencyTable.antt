-- ===== src/Overwatch/LatencyTable.antt =====
-- pkg/overwatch/latency_table.go: what agents learned of latencies, under the subnet of the client and
-- then under backend and region. Times are counted in nanoseconds, and the clock is an argument.
mod Eviction
pub mod Bounds
pub mod Best
pub mod Learning
mod Tests
use open_gslb.Common.{
  ℕ, ◌*◌, Text, codes, Option, none, some, Bool, true, false, not, ◌||◌, List, [], ◌∷◌, ◌++◌,
  length, ltb, nat_beq, since, default_if_zero, int_lt, int_le, mul_word, Comparable, ◌==◌, text_eq,
  if◌then◌else◌,
}
use open_gslb.Common.Table.{Table, lookup, insert, erase, mentions}
use open_gslb.Common.Capacity.{make_room}
use open_gslb.Common.Netip.{Netip, is4}

pub record BackendLatency : Type 0 where
  pub backend : Text
  pub region : Text
  pub ewma : ℕ
  pub sample_count : ℕ
  pub last_updated : ℕ
  pub source : Text

pub record LearnedLatencyConfig : Type 0 where
  pub max_entries : ℕ
  pub entry_ttl : ℕ
  pub min_samples : ℕ

-- What an agent reports of one subnet.
pub record SubnetLatencyData : Type 0 where
  pub subnet : Text
  pub ewma : ℕ
  pub sample_count : ℕ

-- `map[string]*BackendLatency`
abbrev pub BackendMap : Type 0
BackendMap = Table Text BackendLatency

pub record LearnedLatencyTable (Prefix : Type 0) : Type 0 where
  pub config : LearnedLatencyConfig
  pub subnets : Table Prefix BackendMap

-- 168 hours, in nanoseconds
abbrev week : ℕ
week = 604_800_000_000_000

abbrev pub default_learned_latency_config : LearnedLatencyConfig
default_learned_latency_config = record { max_entries = 100_000; entry_ttl = week; min_samples = 5 }

unfoldable pub new_learned_latency_table :
    {Prefix : Type 0} → LearnedLatencyConfig → LearnedLatencyTable Prefix
new_learned_latency_table cfg = record {
  config = record {
    max_entries = default_if_zero cfg.max_entries default_learned_latency_config.max_entries;
    entry_ttl = default_if_zero cfg.entry_ttl default_learned_latency_config.entry_ttl;
    min_samples = default_if_zero cfg.min_samples default_learned_latency_config.min_samples;
  };
  subnets = [];
}

-- `backend + "|" + region`
unfoldable pub latency_key : Text → Text → Text
latency_key backend region = backend ++ codes "|" ++ region

-- `time.Since(entry.LastUpdated) > t.config.EntryTTL`
unfoldable pub is_stale : ℕ → ℕ → BackendLatency → Bool
is_stale entry_ttl now e = int_lt entry_ttl (since now e.last_updated)

unfoldable pub prefix_bits : List ℕ → ℕ
prefix_bits addr = if is4 addr then 24 else 48

-- A map that a nil map or a missing one reads as.
unfoldable pub or_empty : Option BackendMap → BackendMap
or_empty none = []
or_empty (some m) = m

-- The entry after `entry.EWMA = ...` and what follows it in `Update`.
unfoldable pub measured :
    ℕ → Text → Text → Text → SubnetLatencyData → Option BackendLatency → BackendLatency
measured now agent_id region backend s none = record {
  backend = backend;
  region = region;
  ewma = s.ewma;
  sample_count = s.sample_count;
  last_updated = now;
  source = agent_id;
}
measured now agent_id region backend s (some e) = record e {
  region = region;
  ewma = s.ewma;
  sample_count = s.sample_count;
  last_updated = now;
  source = agent_id;
}

-- Whether an entry is older than the oldest so far.
unfoldable pub older : {Prefix : Type 0} → Prefix → ℕ → Option (Prefix × ℕ) → Option (Prefix × ℕ)
older prefix at none = some (prefix, at)
older prefix at (some found) = if ltb at found.1 then some (prefix, at) else some found

-- The inner and the outer loop of `evictOldest`.
unfoldable pub oldest_of :
    {Prefix : Type 0} → Prefix → BackendMap → Option (Prefix × ℕ) → Option (Prefix × ℕ)
oldest_of prefix [] found = found
oldest_of prefix ((key, e) ∷ m) found = oldest_of prefix m (older prefix e.last_updated found)

unfoldable pub oldest :
    {Prefix : Type 0} → Table Prefix BackendMap → Option (Prefix × ℕ) → Option (Prefix × ℕ)
oldest [] found = found
oldest ((prefix, m) ∷ subnets) found = oldest subnets (oldest_of prefix m found)

-- The lower one of an entry that passes and the best so far.
unfoldable pub lower : BackendLatency → Option BackendLatency → Option BackendLatency
lower e none = some e
lower e (some b) = if int_lt e.ewma b.ewma then some e else some b

-- The loops of `GetBestBackend` and `GetLatencyForBackend` over the map of a subnet: the first entry
-- that passes and whose latency no later one that passes undercuts.
unfoldable pub lowest_passing :
    (BackendLatency → Bool) → BackendMap → Option BackendLatency → Option BackendLatency
unfolding lower
lowest_passing passes [] best = best
lowest_passing passes ((key, e) ∷ m) best =
    lowest_passing passes m (if passes e then lower e best else best)

-- What `GetBestBackend` does not skip.
unfoldable pub is_usable : LearnedLatencyConfig → ℕ → List Text → BackendLatency → Bool
is_usable cfg now healthy e =
    if not (mentions healthy e.backend)
    then false
    else if ltb e.sample_count cfg.min_samples
    then false
    else not (is_stale cfg.entry_ttl now e)

-- The inner loops of `Prune`.
unfoldable pub fresh_backends : ℕ → ℕ → BackendMap → BackendMap
fresh_backends entry_ttl now [] = []
fresh_backends entry_ttl now ((key, e) ∷ m) =
    let rest = fresh_backends entry_ttl now m in
    if is_stale entry_ttl now e then rest else (key, e) ∷ rest

-- The loops of `Prune`: a subnet without backends left goes.
unfoldable pub pruned :
    {Prefix : Type 0} → ℕ → ℕ → Table Prefix BackendMap → Table Prefix BackendMap
pruned entry_ttl now [] = []
pruned entry_ttl now ((prefix, m) ∷ subnets) =
    let rest = pruned entry_ttl now subnets in
    elim (fresh_backends entry_ttl now m) [ [] ↦ rest | e ∷ es ↦ (prefix, e ∷ es) ∷ rest ]

-- What `GetLatencyForBackend` does not skip.
unfoldable pub is_current_of :
    {Prefix : Type 0} → LearnedLatencyTable Prefix → ℕ → Text → BackendLatency → Bool
is_current_of t now backend e =
    if not (e.backend == backend) then false else not (is_stale t.config.entry_ttl now e)

unfoldable pub prune :
    {Prefix : Type 0} → ℕ → LearnedLatencyTable Prefix → LearnedLatencyTable Prefix
prune now t = record t { subnets = pruned t.config.entry_ttl now t.subnets }

unfoldable pub clear : {Prefix : Type 0} → LearnedLatencyTable Prefix → LearnedLatencyTable Prefix
clear t = record t { subnets = [] }

unfoldable pub subnet_count : {Prefix : Type 0} → LearnedLatencyTable Prefix → ℕ
subnet_count t = length t.subnets

module _ {Prefix : Type 0} ⦃cmp : Comparable Prefix⦄ where
  unfoldable pub evict_oldest : Table Prefix BackendMap → Table Prefix BackendMap
  unfolding oldest
  evict_oldest subnets = elim (oldest subnets none) [
    | none ↦ subnets
    | some found ↦ erase found.0 subnets
  ]

  -- The map in which `Update` puts the entry: a new subnet takes the place of the oldest at capacity.
  unfoldable pub with_room : ℕ → Prefix → Table Prefix BackendMap → Table Prefix BackendMap
  with_room max_entries prefix subnets = make_room evict_oldest max_entries prefix subnets

  -- A round of the loop of `Update`, once the subnet has parsed.
  unfoldable pub learn :
      ℕ
      → Text
      → Text
      → Text
      → SubnetLatencyData
      → Prefix
      → LearnedLatencyTable Prefix
      → LearnedLatencyTable Prefix
  learn now agent_id region backend s prefix t =
      let held = or_empty (lookup prefix t.subnets) in
      let key = latency_key backend region in
      let entry = measured now agent_id region backend s (lookup key held) in
      record t {
        subnets =
            insert prefix (insert key entry held) (with_room t.config.max_entries prefix t.subnets);
      }

module _ {Prefix : Type 0} ⦃cmp : Comparable Prefix⦄ (netip : Netip Prefix) where
  unfoldable pub update :
      ℕ
      → Text
      → Text
      → Text
      → List SubnetLatencyData
      → LearnedLatencyTable Prefix
      → LearnedLatencyTable Prefix
  update now agent_id region backend [] t = t
  update now agent_id region backend (s ∷ reported) t =
      update now agent_id region backend reported (elim (netip.parse_prefix s.subnet) [
        | none ↦ t
        | some prefix ↦ learn now agent_id region backend s prefix t
      ])

  -- The map of the client's subnet, empty if there is none.
  unfoldable pub backends_for : LearnedLatencyTable Prefix → List ℕ → BackendMap
  backends_for t client = elim (netip.addr_prefix client (prefix_bits client)) [
    | none ↦ []
    | some prefix ↦ or_empty (lookup prefix t.subnets)
  ]

  unfoldable pub get_best_backend :
      LearnedLatencyTable Prefix → ℕ → List ℕ → List Text → Option BackendLatency
  get_best_backend t now client healthy =
      lowest_passing (is_usable t.config now healthy) (backends_for t client) none

  unfoldable pub get_latency_for_backend_in_region :
      LearnedLatencyTable Prefix → ℕ → List ℕ → Text → Text → Option BackendLatency
  get_latency_for_backend_in_region t now client backend region =
      elim (lookup (latency_key backend region) (backends_for t client)) [
        | none ↦ none
        | some e ↦ if is_stale t.config.entry_ttl now e then none else some e
      ]

  unfoldable pub get_latency_for_backend :
      LearnedLatencyTable Prefix → ℕ → List ℕ → Text → Option BackendLatency
  get_latency_for_backend t now client backend =
      lowest_passing (is_current_of t now backend) (backends_for t client) none

  -- `latencyMs` in nanoseconds. What does not parse is an error, without an effect.
  unfoldable pub inject_test_data :
      ℕ
      → Text
      → Text
      → Text
      → ℕ
      → ℕ
      → LearnedLatencyTable Prefix
      → Option (LearnedLatencyTable Prefix)
  inject_test_data now subnet backend region latency_ms samples t =
      elim (netip.parse_prefix subnet) [
        | none ↦ none
        | some prefix ↦ some (record t {
          subnets =
              insert prefix
                (insert (latency_key backend region)
                  (record {
                    backend = backend;
                    region = region;
                    ewma = mul_word latency_ms 1_000_000;
                    sample_count = samples;
                    last_updated = now;
                    source = codes "test-injection";
                  })
                  (or_empty (lookup prefix t.subnets)))
                t.subnets;
        })
      ]
