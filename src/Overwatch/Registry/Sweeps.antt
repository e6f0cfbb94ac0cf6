-- ===== src/Overwatch/Registry/Sweeps.antt =====
-- pkg/overwatch/registry.go: the methods that go through all backends. The clock is read once in each.
use open_gslb.Common.{
  ℕ, Text, Option, none, some, Bool, not, ◌&&◌, List, [], ◌∷◌, int_lt, since, ◌==◌, text_eq,
  if◌then◌else◌,
}
use open_gslb.Common.Table.{Table, lookup, insert}
use open_gslb.Overwatch.Registry.State.{
  Floats, status_beq, static, source_beq, Backend, recompute, Registry, Moment, key_of, notify,
  finish,
}
use open_gslb.Overwatch.Registry.State.{DrainSignal}
use open_gslb.Overwatch.Registry.Changes.{remove}

module _ {F : Floats} where
  open F use {Float}

  unfoldable pub apply_signal : DrainSignal F → Backend F → Backend F
  apply_signal d b = record b {
    is_draining = d.is_draining;
    draining_reason = d.reason;
    draining_at = d.at;
    cpu_percent = d.cpu_percent;
    mem_percent = d.mem_percent;
    error_rate = d.error_rate;
  }

  -- The loop of `UpdateDraining` over the map, whose entries it changes in place.
  unfoldable pub drain_each :
      Moment → Text → DrainSignal F → Table Text (Backend F) → Registry F → Registry F
  unfolding apply_signal
  drain_each t agent_id d [] r = r
  drain_each t agent_id d ((key, b) ∷ m) r =
      drain_each t agent_id d m
        (if b.agent_id == agent_id then finish t key (apply_signal d b) r else r)

  unfoldable pub update_draining : Registry F → Moment → Text → DrainSignal F → Registry F
  unfolding drain_each
  update_draining r t agent_id d = drain_each t agent_id d r.backends r

  -- A backend that is too old to keep: no heartbeat for longer than `RemoveAfter`, unless static.
  unfoldable pub is_expired : ℕ → ℕ → Backend F → Bool
  unfolding source_beq
  is_expired remove_after now b =
      not (source_beq b.source static) && int_lt remove_after (since now b.agent_last_seen)

  -- Recomputes a status and passes a change on; nothing is saved.
  unfoldable pub refresh : Moment → Text → Backend F → Registry F → Registry F
  unfolding recompute notify status_beq
  refresh t key b r =
      let b' = recompute r.stale_threshold t.now b in
      let next = record r { backends = insert key b' r.backends } in
      if not (status_beq b.effective_status b'.effective_status)
      then notify next b' (some b.effective_status) (some b'.effective_status)
      else next

  -- The first loop of `checkStaleBackends`.
  unfoldable pub refresh_each : Moment → Table Text (Backend F) → Registry F → Registry F
  unfolding refresh is_expired
  refresh_each t [] r = r
  refresh_each t ((key, b) ∷ m) r =
      refresh_each t m (if is_expired r.remove_after t.now b then r else refresh t key b r)

  -- `toRemove`
  unfoldable pub expired_keys : ℕ → ℕ → Table Text (Backend F) → List Text
  unfolding is_expired
  expired_keys remove_after now [] = []
  expired_keys remove_after now ((key, b) ∷ m) =
      let rest = expired_keys remove_after now m in
      if is_expired remove_after now b then key ∷ rest else rest

  -- The second loop; every key is one of the map.
  unfoldable pub remove_each : Moment → List Text → Registry F → Registry F
  unfolding remove notify
  remove_each t [] r = r
  remove_each t (key ∷ keys) r = remove_each t keys (elim (lookup key r.backends) [
    | none ↦ r
    | some b ↦ notify (remove r t key) b (some b.effective_status) none
  ])

  unfoldable pub check_stale_backends : Registry F → Moment → Registry F
  check_stale_backends r t =
      remove_each t (expired_keys r.remove_after t.now r.backends) (refresh_each t r.backends r)

  -- `loadFromStore`: what does not unmarshal is `none`, and is skipped.
  unfoldable pub load : Moment → List (Option (Backend F)) → Registry F → Registry F
  unfolding recompute notify
  load t [] r = r
  load t (none ∷ saved) r = load t saved r
  load t (some b ∷ saved) r =
      let b' = recompute r.stale_threshold t.now b in
      load t saved (
        notify (record r { backends = insert (key_of b') b' r.backends }) b' none
          (some b'.effective_status))
