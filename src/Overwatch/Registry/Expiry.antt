-- ===== src/Overwatch/Registry/Expiry.antt =====
-- What a sweep leaves of every backend (pkg/overwatch/registry.go, checkStaleBackends and
-- UpdateDraining).
use open_gslb.Common.{
  ℕ, not, ◌&&◌, int_lt, since, ◌≡◌, refl, ◌∙◌, Text, Option, none, some, Bool, false, List, [], ◌∷◌,
  arith, ◌==◌, text_eq, if◌then◌else◌, Bool-cases, Option-cases, inl, inr,
}
use open_gslb.Common.Table.{
  Table, mentions, lookup, Unique, lookup-insert, lookup-erase, lookup_congr,
}
use open_gslb.Overwatch.Registry.State.{
  RegistrationSource, source_beq, agent, api, static, Floats, Backend, Registry, Moment, recompute,
  notify, persist, finish, DrainSignal,
}
use open_gslb.Overwatch.Registry.Changes.{remove}
use open_gslb.Overwatch.Registry.Sweeps.{
  apply_signal, drain_each, update_draining, is_expired, refresh, refresh_each, expired_keys,
  remove_each, check_stale_backends,
}

-- Whether a backend has outlived `RemoveAfter`, by its source and when its agent was last heard of.
abbrev pub is_overdue : ℕ → ℕ → RegistrationSource → ℕ → Bool
is_overdue remove_after now static seen = false
is_overdue remove_after now agent seen = int_lt remove_after (since now seen)
is_overdue remove_after now api seen = int_lt remove_after (since now seen)

module _ {F : Floats} where
  lookup-refresh :
      (t : Moment) (key j : Text) (b : Backend F) (r : Registry F)
      → lookup j (refresh t key b r).backends
        ≡ (if key == j then some (recompute r.stale_threshold t.now b) else lookup j r.backends)
  unfolding refresh notify
  lookup-refresh t key j b r =
      ground (arith, lookup-insert key j (recompute r.stale_threshold t.now b) r.backends)

  refresh-settings :
      (t : Moment) (key : Text) (b : Backend F) (r : Registry F)
      → ((refresh t key b r).stale_threshold ≡ r.stale_threshold)
        × ((refresh t key b r).remove_after ≡ r.remove_after)
  unfolding refresh notify
  refresh-settings t key b r = (ground arith, ground arith)

  -- What the first loop makes of the backend under one key, from the map and from what was there.
  abbrev pub refreshed : ℕ → ℕ → ℕ → Option (Backend F) → Option (Backend F) → Option (Backend F)
  refreshed threshold remove_after now none old = old
  refreshed threshold remove_after now (some b) old =
      if is_expired remove_after now b then old else some (recompute threshold now b)

  pub lookup-refresh_each :
      (t : Moment) (m : Table Text (Backend F)) (r : Registry F) (threshold remove_after : ℕ)
      (j : Text)
      → Unique m
      → r.stale_threshold ≡ threshold
      → r.remove_after ≡ remove_after
      → lookup j (refresh_each t m r).backends
        ≡ refreshed threshold remove_after t.now (lookup j m) (lookup j r.backends)
  unfolding refresh_each lookup
  lookup-refresh_each t [] r threshold remove_after j u s a = refl
  lookup-refresh_each t ((key, b) ∷ m) r threshold remove_after j u s a =
      elim (Bool-cases (is_expired r.remove_after t.now b)) [
        | inl old ↦ ground (
          arith,
          lookup-refresh_each t m r threshold remove_after j u.1 s a,
          lookup_congr key j m,
        )
        | inr fine ↦ ground (
          arith,
          lookup-refresh_each t m (refresh t key b r) threshold remove_after j u.1,
          refresh-settings t key b r,
          lookup_congr key j m,
          lookup-refresh t key j b r,
        )
      ]

  lookup-remove :
      (r : Registry F) (t : Moment) (b : Backend F) (key j : Text)
      → lookup j (notify (remove r t key) b (some b.effective_status) none).backends
        ≡ (if key == j then none else lookup j r.backends)
  unfolding notify remove
  lookup-remove r t b key j = ground (arith, lookup-erase key j r.backends)

  lookup-remove_each :
      (t : Moment) (keys : List Text) (r : Registry F) (j : Text)
      → lookup j (remove_each t keys r).backends
        ≡ (if mentions keys j then none else lookup j r.backends)
  unfolding remove_each mentions
  lookup-remove_each t [] r j = refl
  lookup-remove_each t (key ∷ keys) r j = elim (Option-cases (lookup key r.backends)) [
    | inl e ↦
        rw (e, remove_each)
          (ground (arith, lookup-remove_each t keys r j, lookup_congr key j r.backends))
    | inr (b, e) ↦
        rw (e, remove_each)
          (ground (
            arith,
            lookup-remove_each t keys (notify (remove r t key) b (some b.effective_status) none) j,
            lookup-remove r t b key j,
          ))
  ]

  abbrev expires : ℕ → ℕ → Option (Backend F) → Bool
  expires remove_after now none = false
  expires remove_after now (some b) = is_expired remove_after now b

  mentions-expired_keys :
      (remove_after now : ℕ) (m : Table Text (Backend F)) (j : Text)
      → Unique m
      → mentions (expired_keys remove_after now m) j ≡ expires remove_after now (lookup j m)
  unfolding mentions expired_keys lookup
  mentions-expired_keys remove_after now [] j u = refl
  mentions-expired_keys remove_after now ((key, b) ∷ m) j u =
      ground (arith, mentions-expired_keys remove_after now m j u.1, lookup_congr key j m)

  is_expired-eq-is_overdue :
      (remove_after now : ℕ) (b : Backend F)
      → is_expired remove_after now b ≡ is_overdue remove_after now b.source b.agent_last_seen
  unfolding is_expired source_beq
  is_expired-eq-is_overdue remove_after now b = by_source b.source
    where
      by_source :
          (s : RegistrationSource)
          → (not (source_beq s static) && int_lt remove_after (since now b.agent_last_seen))
            ≡ is_overdue remove_after now s b.agent_last_seen
      by_source static = refl
      by_source agent = refl
      by_source api = refl

  -- What a sweep makes of a backend, whatever else the registry holds.
  abbrev pub swept : ℕ → ℕ → ℕ → Option (Backend F) → Option (Backend F)
  swept threshold remove_after now none = none
  swept threshold remove_after now (some b) =
      if is_overdue remove_after now b.source b.agent_last_seen
      then none
      else some (recompute threshold now b)

  refreshed-swept :
      (threshold remove_after now : ℕ) (o : Option (Backend F))
      → ◌≡◌ {A = Option (Backend F)}
          (if expires remove_after now o then none else refreshed threshold remove_after now o o)
          (swept threshold remove_after now o)
  refreshed-swept threshold remove_after now none = refl
  refreshed-swept threshold remove_after now (some b) =
      ground (arith, is_expired-eq-is_overdue remove_after now b)

-- A sweep treats every backend by itself, if no key stands twice: it removes a backend that is not
-- static and was last seen longer ago than `RemoveAfter`, and gives any other one the status that it
-- has at the time of the sweep.
pub lookup-check_stale_backends :
    {F : Floats} (r : Registry F) (t : Moment) (j : Text)
    → Unique r.backends
    → lookup j (check_stale_backends r t).backends
      ≡ swept r.stale_threshold r.remove_after t.now (lookup j r.backends)
unfolding check_stale_backends
lookup-check_stale_backends r t j u =
    lookup-remove_each t (expired_keys r.remove_after t.now r.backends)
      (refresh_each t r.backends r) j
    ∙ rw
        (
          mentions-expired_keys r.remove_after t.now r.backends j u,
          lookup-refresh_each t r.backends r r.stale_threshold r.remove_after j u refl refl,
        )
        (refreshed-swept r.stale_threshold r.remove_after t.now (lookup j r.backends))

module _ {F : Floats} where
  lookup-finish :
      (t : Moment) (key j : Text) (b : Backend F) (r : Registry F)
      → lookup j (finish t key b r).backends
        ≡ (if key == j then some (recompute r.stale_threshold t.now b) else lookup j r.backends)
  unfolding finish notify persist
  lookup-finish t key j b r =
      ground (arith, lookup-insert key j (recompute r.stale_threshold t.now b) r.backends)

  finish-threshold :
      (t : Moment) (key : Text) (b : Backend F) (r : Registry F)
      → (finish t key b r).stale_threshold ≡ r.stale_threshold
  unfolding finish notify persist
  finish-threshold t key b r = ground arith

  abbrev drained_or :
      ℕ → ℕ → Text → DrainSignal F → Option (Backend F) → Option (Backend F) → Option (Backend F)
  drained_or threshold now agent_id d none old = old
  drained_or threshold now agent_id d (some b) old =
      if b.agent_id == agent_id then some (recompute threshold now (apply_signal d b)) else old

  lookup-drain_each :
      (t : Moment) (agent_id : Text) (d : DrainSignal F) (m : Table Text (Backend F))
      (r : Registry F) (threshold : ℕ) (j : Text)
      → Unique m
      → r.stale_threshold ≡ threshold
      → lookup j (drain_each t agent_id d m r).backends
        ≡ drained_or threshold t.now agent_id d (lookup j m) (lookup j r.backends)
  unfolding drain_each lookup
  lookup-drain_each t agent_id d [] r threshold j u s = refl
  lookup-drain_each t agent_id d ((key, b) ∷ m) r threshold j u s =
      elim (Bool-cases (b.agent_id == agent_id)) [
        | inr other ↦
            ground
              (arith, lookup-drain_each t agent_id d m r threshold j u.1 s, lookup_congr key j m)
        | inl mine ↦ ground (
          arith,
          lookup-drain_each t agent_id d m (finish t key (apply_signal d b) r) threshold j u.1,
          finish-threshold t key (apply_signal d b) r,
          lookup_congr key j m,
          lookup-finish t key j (apply_signal d b) r,
        )
      ]

  -- What an agent's signal makes of a backend.
  abbrev pub drained : ℕ → ℕ → Text → DrainSignal F → Option (Backend F) → Option (Backend F)
  drained threshold now agent_id d none = none
  drained threshold now agent_id d (some b) =
      some (if b.agent_id == agent_id then recompute threshold now (apply_signal d b) else b)

  drained_or-drained :
      (threshold now : ℕ) (agent_id : Text) (d : DrainSignal F) (o : Option (Backend F))
      → drained_or threshold now agent_id d o o ≡ drained threshold now agent_id d o
  drained_or-drained threshold now agent_id d none = refl
  drained_or-drained threshold now agent_id d (some b) = ground arith

-- An agent's signal reaches all of its backends and no others, if no key stands twice: each backend
-- that carries its id has the signal's fields and the status that goes with them, and every other
-- backend is as it was.
pub lookup-update_draining :
    {F : Floats} (r : Registry F) (t : Moment) (agent_id : Text) (d : DrainSignal F) (j : Text)
    → Unique r.backends
    → lookup j (update_draining r t agent_id d).backends
      ≡ drained r.stale_threshold t.now agent_id d (lookup j r.backends)
unfolding update_draining
lookup-update_draining r t agent_id d j u =
    lookup-drain_each t agent_id d r.backends r r.stale_threshold j u refl
    ∙ drained_or-drained r.stale_threshold t.now agent_id d (lookup j r.backends)
