-- ===== src/Overwatch/LatencyTable/Tests.antt =====
-- Runs of pkg/overwatch/latency_table.go with prefixes that are their own text.
use open_gslb.Common.{
  ℕ, ◌≤◌, ◌≡◌, ◌≢◌, refl, some-injective, ◌==◌, ==_iff, false, text_beq, Text, codes, some, none,
  List, [], ◌∷◌, take, arith, int_lt, since, text_eq, if◌then◌else◌,
}
use open_gslb.Common.Table.{lookup, insert}
use open_gslb.Common.Capacity.{make_room}
use open_gslb.Common.Netip.{Netip}
use open_gslb.Overwatch.LatencyTable.{
  LearnedLatencyConfig, LearnedLatencyTable, SubnetLatencyData, new_learned_latency_table, update,
  backends_for, get_best_backend, latency_key, learn, with_room, or_empty, measured,
  get_latency_for_backend, subnet_count,
}
use open_gslb.Overwatch.LatencyTable.Bounds.{Op, do_update, do_prune, run, subnet_count-le}
use open_gslb.Overwatch.LatencyTable.Best.{
  entries, IsLowestOf, IsFitFor, IsCurrentOf, get_best_backend-IsLowestOf,
}
use open_gslb.Overwatch.LatencyTable.Learning.{table_provider, table_provider-update}

-- A prefix is the first three bytes.
abbrev bytes : Netip Text
bytes = record {
  parse_prefix = λ t. some t;
  addr_prefix = λ addr bits. some (take 3 addr);
  prefix_from = λ addr bits. addr;
  prefix_string = λ p. p;
}

abbrev two_at_most : LearnedLatencyConfig
two_at_most = record { max_entries = 2; entry_ttl = 100; min_samples = 0 }

abbrev of_subnet : ℕ → ℕ → SubnetLatencyData
of_subnet third ewma = record { subnet = 10 ∷ 0 ∷ third ∷ []; ewma = ewma; sample_count = 9 }

abbrev reports : List Op
reports =
    do_update 1 (codes "n1") (codes "eu") (codes "app") (of_subnet 1 30 ∷ of_subnet 2 40 ∷ [])
    ∷ do_update 2 (codes "n2") (codes "us") (codes "app") (of_subnet 1 20 ∷ of_subnet 3 50 ∷ [])
    ∷ do_prune 3
    ∷ []

abbrev table : LearnedLatencyTable Text
table = run bytes (new_learned_latency_table two_at_most) reports

subnet_count-le_example : subnet_count table ≤ 2
subnet_count-le_example = subnet_count-le bytes two_at_most reports (omega arith)

abbrev client : List ℕ
client = 10 ∷ 0 ∷ 1 ∷ 7 ∷ []

get_best_backend-IsLowestOf_example :
    IsLowestOf
      (IsFitFor table.config 5 (codes "app" ∷ []))
      (entries (backends_for bytes table client))
      (get_best_backend bytes table 5 client (codes "app" ∷ []))
    × IsLowestOf
        (IsCurrentOf table.config 5 (codes "app"))
        (entries (backends_for bytes table client))
        (get_latency_for_backend bytes table 5 client (codes "app"))
get_best_backend-IsLowestOf_example =
    get_best_backend-IsLowestOf bytes table 5 client (codes "app" ∷ []) (codes "app")

abbrev roomy : LearnedLatencyConfig
roomy = record { max_entries = 4; entry_ttl = 100; min_samples = 0 }

abbrev one_subnet : LearnedLatencyTable Text
one_subnet = record {
  config = roomy;
  subnets =
      (
        10 ∷ 0 ∷ 1 ∷ [],
        (
          latency_key (codes "app") (codes "eu"),
          record {
            backend = codes "app";
            region = codes "eu";
            ewma = 30;
            sample_count = 9;
            last_updated = 1;
            source = codes "n2";
          },
        )
            ∷ [],
      )
      ∷ [];
}

apart : (a b : Text) → (a == b) ≡ false → a ≢ b
apart a b h e = ground (arith, ==_iff a b)

two_held :
    subnet_count (
      update bytes 6
        (codes "n1")
        (codes "eu")
        (codes "app")
        (of_subnet 3 40 ∷ of_subnet 1 25 ∷ [])
        one_subnet)
    ≡ 2
unfolding update learn with_room lookup insert text_beq subnet_count or_empty latency_key measured
    make_room
two_held = refl

table_provider-update_example :
    table_provider bytes
      (update bytes 6
        (codes "n1")
        (codes "eu")
        (codes "app")
        (of_subnet 3 40 ∷ of_subnet 1 25 ∷ of_subnet 4 70 ∷ [])
        one_subnet)
      60
      client
      (codes "app")
      (codes "eu")
    ≡ (if int_lt 100 (since 60 6)
        then none
        else some (record { backend = codes "app"; ewma = 25; sample_count = 9; last_updated = 6 }))
unfolding text_beq lookup update learn or_empty insert with_room make_room latency_key
table_provider-update_example =
    table_provider-update bytes one_subnet 6 60 (codes "n1") (codes "eu") (codes "app")
      (of_subnet 3 40 ∷ []) (of_subnet 1 25) (of_subnet 4 70 ∷ []) client (10 ∷ 0 ∷ 1 ∷ []) refl
      refl (omega arith)
      (
        λ e. apart (10 ∷ 0 ∷ 4 ∷ []) (10 ∷ 0 ∷ 1 ∷ []) refl (some-injective _ _ e),
        omega (arith, two_held),
        tt,
      )
