-- ===== src/Agent/Latency.antt =====
-- pkg/agent/latency/aggregator.go and types.go: the round-trip times that an agent observes, by the
-- subnet of the client. The clock, and the arithmetic on floats, are arguments.
pub mod Bounds
mod Tests
use open_gslb.Common.{
  ℕ, ◌+◌, Text, Option, none, some, Bool, true, false, List, [], ◌∷◌, length, ltb, leb, nat_beq,
  since, default_if_zero, int_lt, int_le, add_word, Comparable, ◌==◌, if◌then◌else◌,
}
use open_gslb.Common.Table.{Table, lookup, insert, erase}
use open_gslb.Common.Capacity.{make_room}
use open_gslb.Common.Netip.{Netip, is4, bit_len}

-- `float64` as the smoothing factor: a comparison with 0, the default, and the smoothed average that
-- the code computes from the factor, the new time and the average so far.
pub record Smoothing : Type 1 where
  pub Factor : Type 0
  pub is_zero : Factor → Bool
  pub three_tenths : Factor
  pub smoothed : Factor → ℕ → ℕ → ℕ

pub record Observation : Type 0 where
  pub remote_addr : List ℕ
  pub rtt : ℕ
  pub timestamp : ℕ

pub record SubnetStats (Prefix : Type 0) : Type 0 where
  pub subnet : Prefix
  pub ewma : ℕ
  pub sample_count : ℕ
  pub last_updated : ℕ
  pub min_rtt : ℕ
  pub max_rtt : ℕ

pub record SubnetEntry (Prefix : Type 0) : Type 0 where
  pub stats : SubnetStats Prefix
  pub last_updated : ℕ

pub record AggregatorConfig (S : Smoothing) : Type 0 where
  pub ipv4_prefix : ℕ
  pub ipv6_prefix : ℕ
  pub ewma_alpha : S.Factor
  pub max_subnets : ℕ
  pub subnet_ttl : ℕ
  pub min_samples : ℕ

pub record Aggregator (S : Smoothing) (Prefix : Type 0) : Type 0 where
  pub subnets : Table Prefix (SubnetEntry Prefix)
  pub config : AggregatorConfig S

-- 168 hours, in nanoseconds
abbrev week : ℕ
week = 604_800_000_000_000

pub record SubnetLatency : Type 0 where
  pub subnet : Text
  pub ewma : ℕ
  pub sample_count : ℕ
  pub last_seen : ℕ

pub record LatencyReport : Type 0 where
  pub agent_id : Text
  pub backend : Text
  pub region : Text
  pub timestamp : ℕ
  pub subnets : List SubnetLatency

-- The order of Go's strings.
unfoldable pub text_lt : Text → Text → Bool
text_lt _ [] = false
text_lt [] (y ∷ right) = true
text_lt (x ∷ left) (y ∷ right) = if nat_beq x y then text_lt left right else ltb x y

-- `sort.Slice`: the texts of subnets are different, so any sort gives the same list.
insert_sorted : SubnetLatency → List SubnetLatency → List SubnetLatency
unfolding text_lt
insert_sorted s [] = s ∷ []
insert_sorted s (x ∷ xs) =
    let rest = insert_sorted s xs in if text_lt x.subnet s.subnet then x ∷ rest else s ∷ x ∷ xs

unfoldable pub sort_by_subnet : List SubnetLatency → List SubnetLatency
unfolding insert_sorted
sort_by_subnet [] = []
sort_by_subnet (x ∷ xs) = insert_sorted x (sort_by_subnet xs)

-- The loop of `evictOldest`: the prefix and the time of the oldest entry.
unfoldable pub oldest_entry :
    {Prefix : Type 0}
    → Table Prefix (SubnetEntry Prefix)
    → Option (Prefix × ℕ)
    → Option (Prefix × ℕ)
oldest_entry [] found = found
oldest_entry ((prefix, e) ∷ d) none = oldest_entry d (some (prefix, e.last_updated))
oldest_entry ((prefix, e) ∷ d) (some found) =
    oldest_entry d
      (if ltb e.last_updated found.1 then some (prefix, e.last_updated) else some found)

-- The loop of `GetReportable` and the one of `GetAll`.
unfoldable pub reportable :
    {Prefix : Type 0} → ℕ → Table Prefix (SubnetEntry Prefix) → List (SubnetStats Prefix)
reportable min_samples [] = []
reportable min_samples ((prefix, e) ∷ d) =
    let rest = reportable min_samples d in
    if leb min_samples e.stats.sample_count then e.stats ∷ rest else rest

unfoldable pub all_stats :
    {Prefix : Type 0} → Table Prefix (SubnetEntry Prefix) → List (SubnetStats Prefix)
all_stats [] = []
all_stats ((prefix, e) ∷ d) = e.stats ∷ all_stats d

-- The loops of `Prune`.
unfoldable pub unexpired :
    {Prefix : Type 0}
    → ℕ
    → ℕ
    → Table Prefix (SubnetEntry Prefix)
    → Table Prefix (SubnetEntry Prefix)
unexpired ttl now [] = []
unexpired ttl now ((prefix, e) ∷ d) =
    let rest = unexpired ttl now d in
    if int_lt ttl (since now e.last_updated) then rest else (prefix, e) ∷ rest

-- The entry of a subnet that is new.
unfoldable pub new_entry : {Prefix : Type 0} → Prefix → Observation → SubnetEntry Prefix
new_entry prefix obs = record {
  stats = record {
    subnet = prefix;
    ewma = obs.rtt;
    min_rtt = obs.rtt;
    max_rtt = obs.rtt;
    sample_count = 0;
    last_updated = obs.timestamp;
  };
  last_updated = obs.timestamp;
}

unfoldable pub evict_oldest :
    {Prefix : Type 0} ⦃cmp : Comparable Prefix⦄
    → Table Prefix (SubnetEntry Prefix)
    → Table Prefix (SubnetEntry Prefix)
unfolding oldest_entry
evict_oldest d = elim (oldest_entry d none) [ none ↦ d | some found ↦ erase found.0 d ]

unfoldable pub as_reported :
    {Prefix : Type 0} → Netip Prefix → List (SubnetStats Prefix) → List SubnetLatency
as_reported netip [] = []
as_reported netip (s ∷ stats) =
    record {
      subnet = netip.prefix_string s.subnet;
      ewma = s.ewma;
      sample_count = s.sample_count;
      last_seen = s.last_updated;
    }
    ∷ as_reported netip stats

unfoldable pub entry_or_new :
    {Prefix : Type 0} → Prefix → Observation → Option (SubnetEntry Prefix) → SubnetEntry Prefix
unfolding new_entry
entry_or_new prefix obs none = new_entry prefix obs
entry_or_new prefix obs (some e) = e

module _ {S : Smoothing} where
  open S use {Factor, is_zero, three_tenths, smoothed}

  unfoldable pub new_aggregator : {Prefix : Type 0} → AggregatorConfig S → Aggregator S Prefix
  new_aggregator cfg = record {
    subnets = [];
    config = record {
      ipv4_prefix = default_if_zero cfg.ipv4_prefix 24;
      ipv6_prefix = default_if_zero cfg.ipv6_prefix 48;
      ewma_alpha = if is_zero cfg.ewma_alpha then three_tenths else cfg.ewma_alpha;
      max_subnets = default_if_zero cfg.max_subnets 100_000;
      subnet_ttl = default_if_zero cfg.subnet_ttl week;
      min_samples = default_if_zero cfg.min_samples 5;
    };
  }

  -- What `Record` does to the entry.
  unfoldable pub observe :
      {Prefix : Type 0} → AggregatorConfig S → Observation → SubnetEntry Prefix → SubnetEntry Prefix
  observe cfg obs e = record {
    stats = record {
      subnet = e.stats.subnet;
      ewma =
          if nat_beq e.stats.sample_count 0
          then obs.rtt
          else smoothed cfg.ewma_alpha obs.rtt e.stats.ewma;
      sample_count = add_word e.stats.sample_count 1;
      last_updated = obs.timestamp;
      min_rtt = if int_lt obs.rtt e.stats.min_rtt then obs.rtt else e.stats.min_rtt;
      max_rtt = if int_lt e.stats.max_rtt obs.rtt then obs.rtt else e.stats.max_rtt;
    };
    last_updated = obs.timestamp;
  }

  unfoldable pub prune : {Prefix : Type 0} → ℕ → Aggregator S Prefix → Aggregator S Prefix
  prune now a = record a { subnets = unexpired a.config.subnet_ttl now a.subnets }

  unfoldable pub clear : {Prefix : Type 0} → Aggregator S Prefix → Aggregator S Prefix
  clear a = record a { subnets = [] }

  unfoldable pub subnet_count : {Prefix : Type 0} → Aggregator S Prefix → ℕ
  subnet_count a = length a.subnets

  unfoldable pub get_reportable :
      {Prefix : Type 0} → Aggregator S Prefix → List (SubnetStats Prefix)
  get_reportable a = reportable a.config.min_samples a.subnets

  unfoldable pub get_all : {Prefix : Type 0} → Aggregator S Prefix → List (SubnetStats Prefix)
  get_all a = all_stats a.subnets

  module _ {Prefix : Type 0} ⦃cmp : Comparable Prefix⦄ where
    unfoldable pub get_subnet : Aggregator S Prefix → Prefix → Option (SubnetStats Prefix)
    get_subnet a prefix = elim (lookup prefix a.subnets) [ none ↦ none | some e ↦ some e.stats ]

    -- `Record`, once the subnet is known.
    unfoldable pub record_in : Prefix → Observation → Aggregator S Prefix → Aggregator S Prefix
    record_in prefix obs a = record a {
      subnets =
          insert prefix (observe a.config obs (entry_or_new prefix obs (lookup prefix a.subnets)))
            (make_room evict_oldest a.config.max_subnets prefix a.subnets);
    }

    module _ (netip : Netip Prefix) where
      unfoldable pub to_subnet : AggregatorConfig S → List ℕ → Prefix
      to_subnet cfg addr =
          elim (netip.addr_prefix addr (if is4 addr then cfg.ipv4_prefix else cfg.ipv6_prefix)) [
            | none ↦ netip.prefix_from addr (bit_len addr)
            | some prefix ↦ prefix
          ]

      unfoldable pub record_observation : Observation → Aggregator S Prefix → Aggregator S Prefix
      unfolding record_in to_subnet
      record_observation obs a = record_in (to_subnet a.config obs.remote_addr) obs a

      unfoldable pub to_report : Aggregator S Prefix → ℕ → Text → Text → Text → LatencyReport
      unfolding as_reported get_reportable sort_by_subnet
      to_report a now agent_id backend region = record {
        agent_id = agent_id;
        backend = backend;
        region = region;
        timestamp = now;
        subnets = sort_by_subnet (as_reported netip (get_reportable a));
      }
