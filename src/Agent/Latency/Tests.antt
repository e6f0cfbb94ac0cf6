-- ===== src/Agent/Latency/Tests.antt =====
-- A run of pkg/agent/latency with prefixes that are the first bytes of an address.
use open_gslb.Common.{ℕ, ◌+◌, ◌/◌, Text, some, List, [], ◌∷◌, take, arith, nat_beq, text_eq}
use open_gslb.Common.Netip.{Netip}
use open_gslb.Agent.Latency.{Smoothing, AggregatorConfig, new_aggregator}
use open_gslb.Agent.Latency.Bounds.{
  Op, do_record, do_prune, run, IsBounded, run-new_aggregator-IsBounded,
}

abbrev bytes : Netip Text
bytes = record {
  parse_prefix = λ t. some t;
  addr_prefix = λ addr bits. some (take 3 addr);
  prefix_from = λ addr bits. addr;
  prefix_string = λ p. p;
}

-- A factor is here a number of hundredths.
abbrev hundredths : Smoothing
hundredths = record {
  Factor = ℕ;
  is_zero = λ a. nat_beq a 0;
  three_tenths = 30;
  smoothed = λ a x y. (x + y) / 2;
}

abbrev one_at_most : AggregatorConfig hundredths
one_at_most = record {
  ipv4_prefix = 0;
  ipv6_prefix = 0;
  ewma_alpha = 0;
  max_subnets = 1;
  subnet_ttl = 0;
  min_samples = 0;
}

abbrev seen : ℕ → ℕ → ℕ → Op
seen third rtt at =
    do_record (record { remote_addr = 10 ∷ 0 ∷ third ∷ 7 ∷ []; rtt = rtt; timestamp = at })

abbrev observations : List Op
observations = seen 1 30 1 ∷ seen 1 20 2 ∷ seen 2 40 3 ∷ do_prune 4 ∷ []

run-new_aggregator-IsBounded_example :
    IsBounded 1 (run bytes (new_aggregator one_at_most) observations)
run-new_aggregator-IsBounded_example =
    run-new_aggregator-IsBounded bytes one_at_most observations (omega arith)
