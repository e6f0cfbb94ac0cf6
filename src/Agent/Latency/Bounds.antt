-- ===== src/Agent/Latency/Bounds.antt =====
-- pkg/agent/latency/aggregator.go: the number of subnets and the range of round-trip times over any
-- observations, prunings and clearings.
use open_gslb.Common.{
  ℕ, ◌≤◌, ◌<◌, ◌≡◌, refl, ◌⊎◌, inl, inr, none, some, true, List, [], ◌∷◌, length, arith, ltb,
  nat_beq, int_lt, int_le, since, half_mod, Bool-cases, Option-cases, Comparable, ◌==◌, ==_iff,
  if◌then◌else◌,
}
use open_gslb.Common.Table.{
  Table, lookup, erase, Unique, lookup-erase, length-erase, Unique-insert, Unique-erase, AllEntries,
  AllEntries-insert, AllEntries-erase, AllEntries-lookup,
}
use open_gslb.Common.Capacity.{make_room, make_room-kept, length-make_room}
use open_gslb.Common.Netip.{Netip}
use open_gslb.Agent.Latency.{
  Smoothing, Observation, SubnetEntry, Aggregator, AggregatorConfig, new_aggregator, new_entry,
  entry_or_new, observe, oldest_entry, evict_oldest, unexpired, prune, clear, record_in, to_subnet,
  record_observation,
}

pub data Op : Type 0 where
  do_record : Observation → Op
  do_prune : ℕ → Op
  do_clear : Op

unfoldable pub step :
    {S : Smoothing} {Prefix : Type 0} ⦃cmp : Comparable Prefix⦄
    → Netip Prefix
    → Aggregator S Prefix
    → Op
    → Aggregator S Prefix
step netip a (do_record obs) = record_observation netip obs a
step netip a (do_prune now) = prune now a
step netip a do_clear = clear a

unfoldable pub run :
    {S : Smoothing} {Prefix : Type 0} ⦃cmp : Comparable Prefix⦄
    → Netip Prefix
    → Aggregator S Prefix
    → List Op
    → Aggregator S Prefix
run netip a [] = a
run netip a (o ∷ ops) = run netip (step netip a o) ops

-- The statistics name their own subnet, their range is one, and the entry's time is theirs.
abbrev pub InRange : {Prefix : Type 0} → Prefix → SubnetEntry Prefix → Type 0
InRange p e =
    (e.stats.subnet ≡ p)
    × (int_le e.stats.min_rtt e.stats.max_rtt ≡ true)
    × (e.last_updated ≡ e.stats.last_updated)

pub record IsBounded {S : Smoothing} {Prefix : Type 0} ⦃cmp : Comparable Prefix⦄ (max : ℕ)
    (a : Aggregator S Prefix) : Type 0 where
  pub unique : Unique a.subnets
  pub ranges : AllEntries InRange a.subnets
  pub fits : length a.subnets ≤ max
  pub capacity : a.config.max_subnets ≡ max

module _ {Prefix : Type 0} ⦃cmp : Comparable Prefix⦄ where
  IsHeld : Prefix → Table Prefix (SubnetEntry Prefix) → Type 0
  IsHeld r d = (e : SubnetEntry Prefix) × (lookup r d ≡ some e)

  IsHeld-head :
      (r p : Prefix) (e : SubnetEntry Prefix) (d : Table Prefix (SubnetEntry Prefix))
      → r ≡ p
      → IsHeld r ((p, e) ∷ d)
  unfolding IsHeld lookup
  IsHeld-head r p e d h = (e, ground (arith, ==_iff p r))

  IsHeld-tail :
      (r p : Prefix) (e : SubnetEntry Prefix) (d : Table Prefix (SubnetEntry Prefix))
      → IsHeld r d
      → IsHeld r ((p, e) ∷ d)
  unfolding IsHeld lookup
  IsHeld-tail r p e d (f, h) = elim (Bool-cases (p == r)) [
    | inl same ↦ (e, rw same refl)
    | inr other ↦ (f, rw other h)
  ]

  -- What the loop finds is what it began with or an entry of the map.
  oldest_entry-some :
      (d : Table Prefix (SubnetEntry Prefix)) (f : Prefix × ℕ)
      → (r : Prefix × ℕ) × (oldest_entry d (some f) ≡ some r) × ((r.0 ≡ f.0) ⊎ IsHeld r.0 d)
  unfolding oldest_entry
  oldest_entry-some [] f = (f, refl, inl refl)
  oldest_entry-some ((p, e) ∷ d) f = elim (Bool-cases (ltb e.last_updated f.1)) [
    | inl older ↦
        let (r, eq, at) = oldest_entry-some d (p, e.last_updated) in
        (
          r,
          rw older eq,
          elim at [
            | inl same ↦ inr (IsHeld-head r.0 p e d same)
            | inr held ↦ inr (IsHeld-tail r.0 p e d held)
          ],
        )
    | inr newer ↦
        let (r, eq, at) = oldest_entry-some d f in
        (
          r,
          rw newer eq,
          elim at [ inl same ↦ inl same | inr held ↦ inr (IsHeld-tail r.0 p e d held) ],
        )
  ]

  -- Eviction takes an entry out of a map that has one.
  evict_oldest-erase :
      (d : Table Prefix (SubnetEntry Prefix))
      → 0 < length d
      → (r : Prefix) × (evict_oldest d ≡ erase r d) × IsHeld r d
  unfolding evict_oldest oldest_entry
  evict_oldest-erase [] h = elim h [ ]
  evict_oldest-erase ((p, e) ∷ d) h =
      let (r, eq, at) = oldest_entry-some d (p, e.last_updated) in
      (
        r.0,
        rw (eq, evict_oldest) refl,
        elim at [ inl same ↦ IsHeld-head r.0 p e d same | inr held ↦ IsHeld-tail r.0 p e d held ],
      )

  length-evict_oldest :
      (d : Table Prefix (SubnetEntry Prefix))
      → Unique d
      → 0 < length d
      → length (evict_oldest d) < length d
  unfolding IsHeld
  length-evict_oldest d u h =
      let (r, eq, (e, at)) = evict_oldest-erase d h in
      rw eq (ground (arith, length-erase r d u, at))

  evict_oldest-kept :
      (P : Table Prefix (SubnetEntry Prefix) → Type 0) (d : Table Prefix (SubnetEntry Prefix))
      → P d
      → ((p : Prefix) → P (erase p d))
      → P (evict_oldest d)
  unfolding evict_oldest
  evict_oldest-kept P d h k =
      elim (oldest_entry d none) as (λ o. P (elim o [ none ↦ d | some f ↦ erase f.0 d ])) [
        | none ↦ h
        | some f ↦ k f.0
      ]

  lookup-unexpired_absent :
      (ttl now : ℕ) (q : Prefix) (d : Table Prefix (SubnetEntry Prefix))
      → lookup q d ≡ none
      → lookup q (unexpired ttl now d) ≡ none
  unfolding unexpired lookup
  lookup-unexpired_absent ttl now q [] h = refl
  lookup-unexpired_absent ttl now q ((p, e) ∷ d) h =
      ground (arith, lookup-unexpired_absent ttl now q d)

  unexpired-kept :
      (ttl now : ℕ) (d : Table Prefix (SubnetEntry Prefix))
      → Unique d
      → AllEntries InRange d
      → Unique (unexpired ttl now d)
        × AllEntries InRange (unexpired ttl now d)
        × (length (unexpired ttl now d) ≤ length d)
  unfolding unexpired
  unexpired-kept ttl now [] u a = (tt, tt, omega arith)
  unexpired-kept ttl now ((p, e) ∷ d) u a =
      let (left, ranges, shorter) = unexpired-kept ttl now d u.1 a.1 in
      elim (Bool-cases (int_lt ttl (since now e.last_updated))) [
        | inl expired ↦ rw expired (left, ranges, omega arith)
        | inr current ↦
            rw current ((lookup-unexpired_absent ttl now p d u.0, left), (a.0, ranges), omega arith)
      ]

  entry_or_new-InRange :
      (obs : Observation) (p : Prefix) (d : Table Prefix (SubnetEntry Prefix))
      → AllEntries InRange d
      → InRange p (entry_or_new p obs (lookup p d))
  unfolding entry_or_new new_entry
  entry_or_new-InRange obs p d a = elim (Option-cases (lookup p d)) [
    | inl new ↦ rw (new, entry_or_new) (refl, ground arith, refl)
    | inr (e, old) ↦ rw (old, entry_or_new) (AllEntries-lookup InRange p e d a old)
  ]

  module _ {S : Smoothing} where
    observe-InRange :
        (cfg : AggregatorConfig S) (obs : Observation) (p : Prefix) (e : SubnetEntry Prefix)
        → e.stats.subnet ≡ p
        → int_le e.stats.min_rtt e.stats.max_rtt ≡ true
        → InRange p (observe cfg obs e)
    unfolding observe
    observe-InRange cfg obs p e named range = (named, ground arith, refl)

    record_in-IsBounded :
        (max : ℕ) (p : Prefix) (obs : Observation) (a : Aggregator S Prefix)
        → 0 < max
        → max < half_mod
        → IsBounded max a
        → IsBounded max (record_in p obs a)
    unfolding record_in observe
    record_in-IsBounded max p obs a pos small i =
        let d = a.subnets in
        let before = entry_or_new p obs (lookup p d) in
        let known = entry_or_new-InRange obs p d i.ranges in
        let entry = observe a.config obs before in
        let room = make_room evict_oldest a.config.max_subnets p d in
        record {
          unique = Unique-insert p entry room (
              make_room-kept Unique evict_oldest a.config.max_subnets p d i.unique
                (evict_oldest-kept Unique d i.unique (λ q. Unique-erase q d i.unique)));
          ranges =
              AllEntries-insert InRange p entry room
                (observe-InRange a.config obs p before (known.0) (known.1))
                (make_room-kept (AllEntries InRange) evict_oldest a.config.max_subnets p d i.ranges
                  (evict_oldest-kept (AllEntries InRange) d i.ranges
                    (λ q. AllEntries-erase InRange q d i.ranges)));
          fits = rw i.capacity (
              length-make_room evict_oldest max p d pos small i.fits
                (length-evict_oldest d i.unique)
                (λ h.
                  evict_oldest-kept (λ e. lookup p e ≡ none) d h
                    (λ q. ground (arith, lookup-erase q p d)))
                entry);
          capacity = i.capacity;
        }

    step-IsBounded :
        (netip : Netip Prefix) (max : ℕ) (a : Aggregator S Prefix) (o : Op)
        → 0 < max
        → max < half_mod
        → IsBounded max a
        → IsBounded max (step netip a o)
    unfolding step record_observation prune clear
    step-IsBounded netip max a (do_record obs) pos small i =
        record_in-IsBounded max (to_subnet netip a.config obs.remote_addr) obs a pos small i
    step-IsBounded netip max a (do_prune now) pos small i =
        let (left, ranges, shorter) =
          unexpired-kept a.config.subnet_ttl now a.subnets i.unique i.ranges in
        record {
          unique = left;
          ranges = ranges;
          fits = omega (arith, i.fits);
          capacity = i.capacity;
        }
    step-IsBounded netip max a do_clear pos small i = record {
      unique = tt;
      ranges = tt;
      fits = omega arith;
      capacity = i.capacity;
    }

    pub run-IsBounded :
        (netip : Netip Prefix) (max : ℕ) (a : Aggregator S Prefix) (ops : List Op)
        → 0 < max
        → max < half_mod
        → IsBounded max a
        → IsBounded max (run netip a ops)
    unfolding run
    run-IsBounded netip max a [] pos small i = i
    run-IsBounded netip max a (o ∷ ops) pos small i =
        run-IsBounded netip max (step netip a o) ops pos small
          (step-IsBounded netip max a o pos small i)

    -- A new aggregator whose setting of the number of subnets is not negative tracks, after any
    -- observations, prunings and clearings in any order, at most as many subnets as the setting says,
    -- or 100000 if that is 0; no subnet twice; and the statistics of each name the subnet under which
    -- they stand, with a least round-trip time that is no more than the greatest.
    pub run-new_aggregator-IsBounded :
        (netip : Netip Prefix) (cfg : AggregatorConfig S) (ops : List Op)
        → cfg.max_subnets < half_mod
        → IsBounded
            (if nat_beq cfg.max_subnets 0 then 100_000 else cfg.max_subnets)
            (run netip (new_aggregator cfg) ops)
    unfolding new_aggregator
    run-new_aggregator-IsBounded netip cfg ops small =
        run-IsBounded netip _ (new_aggregator cfg) ops (ground arith) (ground arith)
          (record { unique = tt; ranges = tt; fits = omega arith; capacity = ground arith })
