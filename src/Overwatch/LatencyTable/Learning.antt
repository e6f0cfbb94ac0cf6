-- ===== src/Overwatch/LatencyTable/Learning.antt =====
-- pkg/overwatch/latency_table.go: what a report leaves for the router to read, through the adapter of
-- cmd/opengslb/app.go.
use open_gslb.Common.{
  ℕ, ◌+◌, ◌≤◌, ◌<◌, ◌≡◌, ◌≢◌, refl, sym, ap, subst, ◌∙◌, inl, inr, Text, Option, none, some, List,
  [], ◌∷◌, ◌++◌, length, arith, half_mod, int_lt, int_le_word, since, Bool-cases, Option-cases,
  Comparable, ==_iff, text_eq, if◌then◌else◌,
}
use open_gslb.Common.Table.{Table, lookup, lookup-insert, lookup-insert_same, length-insert, insert}
use open_gslb.Common.Capacity.{make_room}
use open_gslb.Common.Netip.{Netip}
use open_gslb.Routing.Learned.{LearnedLatencyData, LearnedProvider}
use open_gslb.Overwatch.LatencyTable.{
  BackendLatency, BackendMap, subnet_count, SubnetLatencyData, LearnedLatencyTable, or_empty,
  is_stale, prefix_bits, latency_key, measured, with_room, learn, update, backends_for,
  get_latency_for_backend_in_region,
}

-- What the adapter of cmd/opengslb/app.go passes on.
unfoldable pub adapted : Option BackendLatency → Option LearnedLatencyData
adapted none = none
adapted (some e) = some (record {
  backend = e.backend;
  ewma = e.ewma;
  sample_count = e.sample_count;
  last_updated = e.last_updated;
})

-- The name that an entry has after a report: it keeps the one that it was made with.
abbrev pub kept_name : Option BackendLatency → Text → Text
kept_name none backend = backend
kept_name (some e) backend = e.backend

module _ {Prefix : Type 0} ⦃cmp : Comparable Prefix⦄ (netip : Netip Prefix) where
  -- `learnedLatencyTableAdapter`, at the time `now`
  unfoldable pub table_provider : LearnedLatencyTable Prefix → ℕ → LearnedProvider
  unfolding adapted
  table_provider t now client backend region =
      adapted (get_latency_for_backend_in_region netip t now client backend region)

  backends_for_subnet :
      (t : LearnedLatencyTable Prefix) (client : List ℕ) (p : Prefix)
      → netip.addr_prefix client (prefix_bits client) ≡ some p
      → backends_for netip t client ≡ or_empty (lookup p t.subnets)
  unfolding backends_for
  backends_for_subnet t client p e = rw (e, backends_for) refl

  -- The subnet's map once a report is taken up.
  or_empty-learn :
      (now : ℕ) (agent_id region backend : Text) (s : SubnetLatencyData) (p : Prefix)
      (t : LearnedLatencyTable Prefix)
      → let held = or_empty (lookup p t.subnets) in
        let key = latency_key backend region in
        or_empty (lookup p (learn now agent_id region backend s p t).subnets)
        ≡ insert key (measured now agent_id region backend s (lookup key held)) held
  unfolding learn or_empty
  or_empty-learn now agent_id region backend s p t =
      ap or_empty (lookup-insert_same p _ (with_room t.config.max_entries p t.subnets))

  -- Reports that name other subnets, and for all of which the table has room, with `held` subnets at
  -- most before them.
  abbrev pub Spares : Prefix → ℕ → ℕ → List SubnetLatencyData → Type 0
  Spares p max_entries held [] = Unit
  Spares p max_entries held (s ∷ reported) =
      (netip.parse_prefix s.subnet ≢ some p)
      × (held < max_entries)
      × Spares p max_entries (held + 1) reported

  with_room_free :
      (max_entries : ℕ) (q : Prefix) (d : Table Prefix BackendMap)
      → length d < max_entries
      → max_entries < half_mod
      → with_room max_entries q d ≡ d
  unfolding with_room make_room
  with_room_free max_entries q d free small = elim (Option-cases (lookup q d)) [
    | inr (m, e) ↦ rw (with_room, make_room, e) refl
    | inl e ↦
        rw (with_room, make_room, e, int_le_word max_entries (length d) small (omega arith))
          (ground arith)
  ]

  -- A report of another subnet leaves the entries under a subnet, as long as there is room.
  learn_elsewhere :
      (now : ℕ) (agent_id region backend : Text) (s : SubnetLatencyData) (p q : Prefix)
      (t : LearnedLatencyTable Prefix)
      → q ≢ p
      → length t.subnets < t.config.max_entries
      → t.config.max_entries < half_mod
      → let next = learn now agent_id region backend s q t in
        (lookup p next.subnets ≡ lookup p t.subnets) × (length next.subnets ≤ length t.subnets + 1)
  unfolding learn
  learn_elsewhere now agent_id region backend s p q t other free small =
      let held = or_empty (lookup q t.subnets) in
      let key = latency_key backend region in
      let m = insert key (measured now agent_id region backend s (lookup key held)) held in
      rw (with_room_free t.config.max_entries q t.subnets free small) (
        ground (arith, lookup-insert q p m t.subnets, ==_iff q p),
        ground (arith, length-insert q m t.subnets),
      )

  update_spared :
      (now : ℕ) (agent_id region backend : Text) (p : Prefix) (held : ℕ)
      (reported : List SubnetLatencyData) (t : LearnedLatencyTable Prefix)
      → length t.subnets ≤ held
      → t.config.max_entries < half_mod
      → Spares p t.config.max_entries held reported
      → let next = update netip now agent_id region backend reported t in
        (lookup p next.subnets ≡ lookup p t.subnets) × (next.config ≡ t.config)
  unfolding update learn
  update_spared now agent_id region backend p held [] t few small spared = (refl, refl)
  update_spared now agent_id region backend p held (s ∷ reported) t few small
        (other, free, spared) =
      elim (Option-cases (netip.parse_prefix s.subnet)) [
        | inl bad ↦
            rw (bad, update)
              (update_spared now agent_id region backend p (held + 1) reported t (omega arith) small
                spared)
        | inr (q, e) ↦
            let kept =
              learn_elsewhere now agent_id region backend s p q t
                (λ same. other (e ∙ ap (λ x. some x) same)) (omega arith) small in
            let rest =
              update_spared now agent_id region backend p (held + 1) reported
                (learn now agent_id region backend s q t) (omega (arith, kept.1)) small spared in
            rw (e, update) (rest.0 ∙ kept.0, rest.1)
      ]

  update-config :
      (now : ℕ) (agent_id region backend : Text) (reported : List SubnetLatencyData)
      (t : LearnedLatencyTable Prefix)
      → (update netip now agent_id region backend reported t).config ≡ t.config
  unfolding update learn
  update-config now agent_id region backend [] t = refl
  update-config now agent_id region backend (s ∷ reported) t =
      elim (Option-cases (netip.parse_prefix s.subnet)) [
        | inl bad ↦ rw (bad, update) (update-config now agent_id region backend reported t)
        | inr (q, e) ↦
            rw (e, update)
              (update-config now agent_id region backend reported
                (learn now agent_id region backend s q t))
      ]

  update-append :
      (now : ℕ) (agent_id region backend : Text) (before reported : List SubnetLatencyData)
      (t : LearnedLatencyTable Prefix)
      → update netip now agent_id region backend (before ++ reported) t
        ≡ update netip now agent_id region backend reported
            (update netip now agent_id region backend before t)
  unfolding update
  update-append now agent_id region backend [] reported t = refl
  update-append now agent_id region backend (s ∷ before) reported t =
      update-append now agent_id region backend before reported _

  update_one :
      (now : ℕ) (agent_id region backend : Text) (s : SubnetLatencyData) (p : Prefix)
      (reported : List SubnetLatencyData) (t : LearnedLatencyTable Prefix)
      → netip.parse_prefix s.subnet ≡ some p
      → update netip now agent_id region backend (s ∷ reported) t
        ≡ update netip now agent_id region backend reported
            (learn now agent_id region backend s p t)
  unfolding update
  update_one now agent_id region backend s p reported t e = rw (e, update) refl

  -- The data that the router reads of an entry: those that were reported last.
  adapted-measured :
      (ttl later now : ℕ) (agent_id region backend : Text) (s : SubnetLatencyData)
      (o : Option BackendLatency)
      → let e = measured now agent_id region backend s o in
        (if is_stale ttl later e then none else adapted (some e)) ≡ (
          if int_lt ttl (since later now)
          then none
          else some (record {
            backend = kept_name o backend;
            ewma = s.ewma;
            sample_count = s.sample_count;
            last_updated = now;
          }))
  unfolding adapted measured is_stale
  adapted-measured ttl later now agent_id region backend s none = refl
  adapted-measured ttl later now agent_id region backend s (some e) = refl

  table_provider_held :
      (t : LearnedLatencyTable Prefix) (later : ℕ) (client : List ℕ) (backend region : Text)
      (e : BackendLatency)
      → lookup (latency_key backend region) (backends_for netip t client) ≡ some e
      → table_provider t later client backend region
        ≡ (if is_stale t.config.entry_ttl later e then none else adapted (some e))
  unfolding table_provider adapted get_latency_for_backend_in_region is_stale
  table_provider_held t later client backend region e h =
      elim (Bool-cases (is_stale t.config.entry_ttl later e)) [
        | inl stale ↦ rw (get_latency_for_backend_in_region, h, stale) refl
        | inr fresh ↦ rw (get_latency_for_backend_in_region, h, fresh) refl
      ]

  -- Right after an agent's report of a backend in a region, whatever the table held before, the learned
  -- latency router reads for a client whose subnet the report names, and for the backend and the
  -- region, the latency and the samples that the report has for this subnet and the time of the
  -- report, if that is no longer ago than the table's time to live, and nothing otherwise. The name
  -- of the backend is that of the entry that the report replaces, or else the report's. The
  -- conditions: the part of the report after the subnet does not name it again, and the table has
  -- room for all of that part, at a capacity below 2 ^ 63 if there is such a part.
  pub table_provider-update :
      (t : LearnedLatencyTable Prefix) (now later : ℕ) (agent_id region backend : Text)
      (before : List SubnetLatencyData) (s : SubnetLatencyData) (after : List SubnetLatencyData)
      (client : List ℕ) (p : Prefix)
      → netip.parse_prefix s.subnet ≡ some p
      → netip.addr_prefix client (prefix_bits client) ≡ some p
      → t.config.max_entries < half_mod
      → Spares p t.config.max_entries
          (subnet_count (update netip now agent_id region backend (before ++ s ∷ []) t))
          after
      → let earlier = update netip now agent_id region backend before t in
        let replaced = lookup (latency_key backend region) (or_empty (lookup p earlier.subnets)) in
        table_provider
          (update netip now agent_id region backend (before ++ s ∷ after) t)
          later
          client
          backend
          region
        ≡ (if int_lt t.config.entry_ttl (since later now)
            then none
            else some (record {
              backend = kept_name replaced backend;
              ewma = s.ewma;
              sample_count = s.sample_count;
              last_updated = now;
            }))
  unfolding learn subnet_count update
  table_provider-update t now later agent_id region backend before s after client p parses covers
        small spared =
      let key = latency_key backend region in
      let earlier = update netip now agent_id region backend before t in
      let taken = learn now agent_id region backend s p earlier in
      let last = update netip now agent_id region backend after taken in
      let same = update-config now agent_id region backend before t in
      let one =
        update-append now agent_id region backend before (s ∷ []) t
        ∙ update_one now agent_id region backend s p [] earlier parses in
      let all =
        update-append now agent_id region backend before (s ∷ after) t
        ∙ update_one now agent_id region backend s p after earlier parses in
      let kept =
        update_spared now agent_id region backend p (length taken.subnets) after taken (omega arith)
          (subst (λ c. c.max_entries < half_mod) (sym same) small)
          (subst (λ c. Spares p c.max_entries (length taken.subnets) after) (sym same)
            (subst (λ u. Spares p t.config.max_entries (length u.subnets) after) one spared)) in
      let held =
        ap (lookup key) (
          backends_for_subnet last client p covers
          ∙ ap or_empty kept.0
          ∙ or_empty-learn now agent_id region backend s p earlier)
        ∙ lookup-insert_same key _ (or_empty (lookup p earlier.subnets)) in
      ap (λ u. table_provider u later client backend region) all
      ∙ table_provider_held last later client backend region _ held
      ∙ subst
          (λ c.
            (if is_stale c.entry_ttl later (
                measured now agent_id region backend s
                  (lookup key (or_empty (lookup p earlier.subnets))))
              then none
              else adapted (
                  some (
                    measured now agent_id region backend s
                      (lookup key (or_empty (lookup p earlier.subnets))))))
            ≡ (if int_lt t.config.entry_ttl (since later now)
                then none
                else some (record {
                  backend = kept_name (lookup key (or_empty (lookup p earlier.subnets))) backend;
                  ewma = s.ewma;
                  sample_count = s.sample_count;
                  last_updated = now;
                })))
          (sym (kept.1 ∙ same))
          (adapted-measured t.config.entry_ttl later now agent_id region backend s _)
