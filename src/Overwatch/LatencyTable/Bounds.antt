-- ===== src/Overwatch/LatencyTable/Bounds.antt =====
-- pkg/overwatch/latency_table.go: the number of subnets over any reports, prunings and clearings.
-- `InjectTestData`, which is there for tests, does not look at the capacity and is no operation here.
use open_gslb.Common.{
  ℕ, ◌≤◌, ◌<◌, ◌≡◌, refl, Text, none, some, List, [], ◌∷◌, length, arith, nat_beq, half_mod,
  Comparable, text_eq, if◌then◌else◌,
}
use open_gslb.Common.Table.{
  Table, lookup, insert, Unique, length-insert_pos, Unique-insert, Unique-erase, AllEntries,
  AllEntries-insert, AllEntries-erase,
}
use open_gslb.Common.Capacity.{make_room-kept, length-make_room}
use open_gslb.Common.Netip.{Netip}
use open_gslb.Overwatch.LatencyTable.{
  BackendMap, SubnetLatencyData, LearnedLatencyTable, LearnedLatencyConfig,
  new_learned_latency_table, measured, latency_key, fresh_backends, pruned, evict_oldest, with_room,
  learn, update, prune, clear, subnet_count, or_empty,
}
use open_gslb.Overwatch.LatencyTable.Eviction.{
  HasBackends, length-evict_oldest, evict_oldest-kept, lookup-evict_oldest_absent,
}

-- The methods that change the table, under the mutex in some order.
pub data Op : Type 0 where
  do_update : ℕ → Text → Text → Text → List SubnetLatencyData → Op
  do_prune : ℕ → Op
  do_clear : Op

unfoldable pub step :
    {Prefix : Type 0} ⦃cmp : Comparable Prefix⦄
    → Netip Prefix
    → LearnedLatencyTable Prefix
    → Op
    → LearnedLatencyTable Prefix
step netip t (do_update now agent_id region backend reported) =
    update netip now agent_id region backend reported t
step netip t (do_prune now) = prune now t
step netip t do_clear = clear t

unfoldable pub run :
    {Prefix : Type 0} ⦃cmp : Comparable Prefix⦄
    → Netip Prefix
    → LearnedLatencyTable Prefix
    → List Op
    → LearnedLatencyTable Prefix
run netip t [] = t
run netip t (o ∷ ops) = run netip (step netip t o) ops

-- No subnet twice, none without backends, and no more of them than the capacity.
pub record IsBounded {Prefix : Type 0} ⦃cmp : Comparable Prefix⦄ (t : LearnedLatencyTable Prefix)
    : Type 0 where
  pub unique : Unique t.subnets
  pub inhabited : AllEntries HasBackends t.subnets
  pub fits : length t.subnets ≤ t.config.max_entries

module _ {Prefix : Type 0} ⦃cmp : Comparable Prefix⦄ where
  length-pruned-le :
      (ttl now : ℕ) (d : Table Prefix BackendMap) → length (pruned ttl now d) ≤ length d
  unfolding pruned
  length-pruned-le ttl now [] = omega arith
  length-pruned-le ttl now ((p, m) ∷ d) = ground (arith, length-pruned-le ttl now d)

  lookup-pruned_absent :
      (ttl now : ℕ) (q : Prefix) (d : Table Prefix BackendMap)
      → lookup q d ≡ none
      → lookup q (pruned ttl now d) ≡ none
  unfolding pruned lookup
  lookup-pruned_absent ttl now q [] h = refl
  lookup-pruned_absent ttl now q ((p, m) ∷ d) h = ground (arith, lookup-pruned_absent ttl now q d)

  Unique-pruned : (ttl now : ℕ) (d : Table Prefix BackendMap) → Unique d → Unique (pruned ttl now d)
  unfolding pruned
  Unique-pruned ttl now [] u = tt
  Unique-pruned ttl now ((p, m) ∷ d) u =
      elim (fresh_backends ttl now m)
        as (λ l.
          Unique (elim l [ [] ↦ pruned ttl now d | e ∷ es ↦ (p, e ∷ es) ∷ pruned ttl now d ])) [
            | [] ↦ Unique-pruned ttl now d u.1
            | e ∷ es ↦ (lookup-pruned_absent ttl now p d u.0, Unique-pruned ttl now d u.1)
          ]

  HasBackends-pruned :
      (ttl now : ℕ) (d : Table Prefix BackendMap) → AllEntries HasBackends (pruned ttl now d)
  unfolding pruned
  HasBackends-pruned ttl now [] = tt
  HasBackends-pruned ttl now ((p, m) ∷ d) =
      elim (fresh_backends ttl now m)
        as (λ l.
          AllEntries HasBackends
            (elim l [ [] ↦ pruned ttl now d | e ∷ es ↦ (p, e ∷ es) ∷ pruned ttl now d ])) [
              | [] ↦ HasBackends-pruned ttl now d
              | e ∷ es ↦ (omega arith, HasBackends-pruned ttl now d)
            ]

  learn-IsBounded :
      (now : ℕ) (agent_id region backend : Text) (s : SubnetLatencyData) (p : Prefix)
      (t : LearnedLatencyTable Prefix)
      → 0 < t.config.max_entries
      → t.config.max_entries < half_mod
      → IsBounded t
      → IsBounded (learn now agent_id region backend s p t)
  unfolding learn with_room
  learn-IsBounded now agent_id region backend s p t pos small i =
      let max = t.config.max_entries in
      let d = t.subnets in
      let held = or_empty (lookup p d) in
      let key = latency_key backend region in
      let entry = measured now agent_id region backend s (lookup key held) in
      record {
        unique = Unique-insert p (insert key entry held) (with_room max p d) (
            make_room-kept Unique evict_oldest max p d i.unique
              (evict_oldest-kept Unique d i.unique (λ q. Unique-erase q d i.unique)));
        inhabited =
            AllEntries-insert HasBackends p (insert key entry held) (with_room max p d)
              (length-insert_pos key entry held)
              (make_room-kept (AllEntries HasBackends) evict_oldest max p d i.inhabited (
                evict_oldest-kept (AllEntries HasBackends) d i.inhabited
                  (λ q. AllEntries-erase HasBackends q d i.inhabited)));
        fits =
            length-make_room evict_oldest max p d pos small i.fits
              (length-evict_oldest d i.unique i.inhabited) (lookup-evict_oldest_absent p d)
              (insert key entry held);
      }

  prune-IsBounded :
      (now : ℕ) (t : LearnedLatencyTable Prefix) → IsBounded t → IsBounded (prune now t)
  unfolding prune
  prune-IsBounded now t i = record {
    unique = Unique-pruned t.config.entry_ttl now t.subnets i.unique;
    inhabited = HasBackends-pruned t.config.entry_ttl now t.subnets;
    fits = omega (arith, i.fits, length-pruned-le t.config.entry_ttl now t.subnets);
  }

module _ {Prefix : Type 0} ⦃cmp : Comparable Prefix⦄ (netip : Netip Prefix) where
  -- Bounded, at a capacity that is positive and stays as it is.
  record BoundedAt (max : ℕ) (t : LearnedLatencyTable Prefix) : Type 0 where
    bounded : IsBounded t
    capacity : t.config.max_entries ≡ max

  learn-BoundedAt :
      (max now : ℕ) (agent_id region backend : Text) (s : SubnetLatencyData) (p : Prefix)
      (t : LearnedLatencyTable Prefix)
      → 0 < max
      → max < half_mod
      → BoundedAt max t
      → BoundedAt max (learn now agent_id region backend s p t)
  unfolding learn
  learn-BoundedAt max now agent_id region backend s p t pos small i = record {
    bounded =
        learn-IsBounded now agent_id region backend s p t (omega (arith, i.capacity))
          (omega (arith, i.capacity)) i.bounded;
    capacity = i.capacity;
  }

  update-BoundedAt :
      (max now : ℕ) (agent_id region backend : Text) (reported : List SubnetLatencyData)
      (t : LearnedLatencyTable Prefix)
      → 0 < max
      → max < half_mod
      → BoundedAt max t
      → BoundedAt max (update netip now agent_id region backend reported t)
  unfolding update
  update-BoundedAt max now agent_id region backend [] t pos small i = i
  update-BoundedAt max now agent_id region backend (s ∷ reported) t pos small i =
      update-BoundedAt max now agent_id region backend reported _ pos small
        (elim (netip.parse_prefix s.subnet)
          as (λ o.
            BoundedAt max
              (elim o [ none ↦ t | some p ↦ learn now agent_id region backend s p t ])) [
                | none ↦ i
                | some p ↦ learn-BoundedAt max now agent_id region backend s p t pos small i
              ])

  step-BoundedAt :
      (max : ℕ) (t : LearnedLatencyTable Prefix) (o : Op)
      → 0 < max
      → max < half_mod
      → BoundedAt max t
      → BoundedAt max (step netip t o)
  unfolding step prune clear
  step-BoundedAt max t (do_update now agent_id region backend reported) pos small i =
      update-BoundedAt max now agent_id region backend reported t pos small i
  step-BoundedAt max t (do_prune now) pos small i = record {
    bounded = prune-IsBounded now t i.bounded;
    capacity = i.capacity;
  }
  step-BoundedAt max t do_clear pos small i = record {
    bounded = record { unique = tt; inhabited = tt; fits = omega arith };
    capacity = i.capacity;
  }

  run-BoundedAt :
      (max : ℕ) (t : LearnedLatencyTable Prefix) (ops : List Op)
      → 0 < max
      → max < half_mod
      → BoundedAt max t
      → BoundedAt max (run netip t ops)
  unfolding run
  run-BoundedAt max t [] pos small i = i
  run-BoundedAt max t (o ∷ ops) pos small i =
      run-BoundedAt max (step netip t o) ops pos small (step-BoundedAt max t o pos small i)

  -- A new table whose setting of the capacity is not negative holds, after any reports, prunings and
  -- clearings in any order, at most as many subnets as the setting says, or 100000 if that is 0.
  pub subnet_count-le :
      (cfg : LearnedLatencyConfig) (ops : List Op)
      → cfg.max_entries < half_mod
      → subnet_count (run netip (new_learned_latency_table cfg) ops)
        ≤ (if nat_beq cfg.max_entries 0 then 100_000 else cfg.max_entries)
  unfolding subnet_count new_learned_latency_table
  subnet_count-le cfg ops small =
      let t = new_learned_latency_table cfg in
      let end = run-BoundedAt t.config.max_entries t ops (ground arith) (ground arith) (record {
        bounded = record { unique = tt; inhabited = tt; fits = omega arith };
        capacity = refl;
      }) in
      omega (arith, end.bounded.fits, end.capacity)
