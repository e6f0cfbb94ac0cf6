-- ===== src/Overwatch/Registry/Stored.antt =====
-- What the store holds (pkg/overwatch/registry.go, persistBackend and the calls of store.Delete).
use open_gslb.Common.{
  ℕ, ◌≡◌, refl, sym, ◌∙◌, ap, Text, Option, none, some, true, List, [], ◌∷◌, arith, ◌==◌, text_eq,
  Bool-cases, Option-cases, inl, inr,
}
use open_gslb.Common.Table.{
  Table, lookup, insert, erase, lookup-insert, lookup-erase, AllEntries, Unique,
}
use open_gslb.Common.Keys.{backend_key}
use open_gslb.Overwatch.Registry.State.{
  Floats, BackendStatus, Backend, Registry, Moment, healthy, recompute, key_of, notify, persist,
  finish, DrainSignal,
}
use open_gslb.Overwatch.Registry.Changes.{with_backend, remove, deregister, clear_override}
use open_gslb.Overwatch.Registry.Sweeps.{
  apply_signal, drain_each, is_expired, refresh, refresh_each, remove_each,
}
use open_gslb.Overwatch.Registry.Expiry.{refreshed, lookup-refresh_each}
use open_gslb.Overwatch.Registry.Keyed.{IsKept, IsKeyed, key_of_found}

module _ {F : Floats} where
  -- A backend but for its status, which a restart computes anew.
  unfoldable pub facts : Option (Backend F) → Option (Backend F)
  facts none = none
  facts (some b) = some (record b { effective_status = healthy })

  -- The store holds every backend of the registry, and no other, but for the statuses.
  pub record IsStored (r : Registry F) : Type 0 where
    pub stored : Table Text (Backend F)
    pub held : r.store ≡ some stored
    pub same : (key : Text) → facts (lookup key stored) ≡ facts (lookup key r.backends)

  IsStored-congr :
      (r next : Registry F)
      → next.store ≡ r.store
      → next.backends ≡ r.backends
      → IsStored r
      → IsStored next
  IsStored-congr r next s b k = record {
    stored = k.stored;
    held = s ∙ k.held;
    same = λ key. k.same key ∙ ap (λ m. facts (lookup key m)) (sym b);
  }

  pub IsStored-insert :
      (r next : Registry F) (key : Text) (b : Backend F) (k : IsStored r)
      → next.store ≡ some (insert key b k.stored)
      → next.backends ≡ insert key b r.backends
      → IsStored next
  IsStored-insert r next key b k s m = record {
    stored = insert key b k.stored;
    held = s;
    same = λ asked.
        rw (m, lookup-insert key asked b k.stored, lookup-insert key asked b r.backends)
          (ground (arith, k.same asked));
  }

  IsStored-erase :
      (r next : Registry F) (key : Text) (k : IsStored r)
      → next.store ≡ some (erase key k.stored)
      → next.backends ≡ erase key r.backends
      → IsStored next
  IsStored-erase r next key k s m = record {
    stored = erase key k.stored;
    held = s;
    same = λ asked.
        rw (m, lookup-erase key asked k.stored, lookup-erase key asked r.backends)
          (ground (arith, k.same asked));
  }

  pub finish-IsStored :
      (t : Moment) (key : Text) (b : Backend F) (r : Registry F)
      → t.saved ≡ true
      → key_of b ≡ key
      → IsStored r
      → IsStored (finish t key b r)
  unfolding finish persist notify recompute
  finish-IsStored t key b r ok e k =
      IsStored-insert r (finish t key b r) key (recompute r.stale_threshold t.now b) k
        (ground (arith, k.held, e)) (ground arith)

  pub with_backend-IsStored :
      (threshold : ℕ) (t : Moment) (key : Text) (change : Backend F → Backend F) (r : Registry F)
      → t.saved ≡ true
      → ((b : Backend F) → key_of (change b) ≡ key_of b)
      → IsKeyed threshold r
      → IsStored r
      → IsStored (with_backend r t key change).0
  unfolding with_backend
  with_backend-IsStored threshold t key change r ok keeps keyed k =
      elim (Option-cases (lookup key r.backends)) [
        | inl e ↦ rw (e, with_backend) k
        | inr (b, e) ↦
            rw (e, with_backend)
              (finish-IsStored t key (change b) r ok
                (keeps b ∙ key_of_found threshold r key b keyed e) k)
      ]

  removed-IsStored :
      (t : Moment) (key : Text) (r : Registry F) (b : Backend F) (old new : Option BackendStatus)
      → t.saved ≡ true
      → IsStored r
      → IsStored (notify (remove r t key) b old new)
  unfolding remove notify
  removed-IsStored t key r b old new ok k =
      IsStored-erase r (notify (remove r t key) b old new) key k (ground (arith, k.held))
        (ground (arith, k.held))

  pub deregister-IsStored :
      (t : Moment) (service address : Text) (port : ℕ) (r : Registry F)
      → t.saved ≡ true
      → IsStored r
      → IsStored (deregister r t service address port).0
  unfolding deregister
  deregister-IsStored t service address port r ok k =
      let key = backend_key service address port in
      elim (Option-cases (lookup key r.backends)) [
        | inl e ↦ rw (e, deregister) k
        | inr (b, e) ↦ rw (e, deregister) (removed-IsStored t key r b _ none ok k)
      ]

  pub remove_each-IsStored :
      (t : Moment) (keys : List Text) (r : Registry F)
      → t.saved ≡ true
      → IsStored r
      → IsStored (remove_each t keys r)
  unfolding remove_each
  remove_each-IsStored t [] r ok k = k
  remove_each-IsStored t (key ∷ keys) r ok k = elim (Option-cases (lookup key r.backends)) [
    | inl e ↦ rw (e, remove_each) (remove_each-IsStored t keys r ok k)
    | inr (b, e) ↦
        rw (e, remove_each)
          (remove_each-IsStored t keys (notify (remove r t key) b (some b.effective_status) none) ok
            (removed-IsStored t key r b _ none ok k))
  ]

  pub clear_override-IsStored :
      (threshold : ℕ) (t : Moment) (service address : Text) (port : ℕ) (r : Registry F)
      → t.saved ≡ true
      → IsKeyed threshold r
      → IsStored r
      → IsStored (clear_override r t service address port).0
  unfolding clear_override
  clear_override-IsStored threshold t service address port r ok keyed k =
      let key = backend_key service address port in
      elim (Option-cases (lookup key r.backends)) [
        | inl e ↦ rw (e, clear_override) k
        | inr (b, e) ↦ elim (Option-cases b.override_status) [
          | inl unset ↦ rw (e, clear_override, unset) k
          | inr (was, some_set) ↦
              rw (e, clear_override, some_set)
                (finish-IsStored t key _ r ok (key_of_found threshold r key b keyed e) k)
        ]
      ]

  pub drain_each-IsStored :
      (threshold : ℕ) (t : Moment) (agent_id : Text) (d : DrainSignal F)
      (m : Table Text (Backend F)) (r : Registry F)
      → t.saved ≡ true
      → AllEntries (IsKept threshold) m
      → IsStored r
      → IsStored (drain_each t agent_id d m r)
  unfolding drain_each apply_signal
  drain_each-IsStored threshold t agent_id d [] r ok a k = k
  drain_each-IsStored threshold t agent_id d ((key, b) ∷ m) r ok a k =
      elim (Bool-cases (b.agent_id == agent_id)) [
        | inl mine ↦ rw mine (
            drain_each-IsStored threshold t agent_id d m (finish t key (apply_signal d b) r) ok a.1
              (finish-IsStored t key (apply_signal d b) r ok a.0.0 k))
        | inr other ↦ rw other (drain_each-IsStored threshold t agent_id d m r ok a.1 k)
      ]

  refresh-store :
      (t : Moment) (key : Text) (b : Backend F) (r : Registry F)
      → (refresh t key b r).store ≡ r.store
  unfolding refresh notify
  refresh-store t key b r = ground arith

  refresh_each-store :
      (t : Moment) (m : Table Text (Backend F)) (r : Registry F)
      → (refresh_each t m r).store ≡ r.store
  unfolding refresh_each
  refresh_each-store t [] r = refl
  refresh_each-store t ((key, b) ∷ m) r = elim (Bool-cases (is_expired r.remove_after t.now b)) [
    | inl old ↦ rw (refresh_each, old) (refresh_each-store t m r)
    | inr fine ↦
        rw (refresh_each, fine)
          (refresh_each-store t m (refresh t key b r) ∙ refresh-store t key b r)
  ]

  facts-refreshed :
      (threshold remove_after now : ℕ) (o : Option (Backend F))
      → facts (refreshed threshold remove_after now o o) ≡ facts o
  unfolding facts recompute
  facts-refreshed threshold remove_after now none = refl
  facts-refreshed threshold remove_after now (some b) =
      elim (Bool-cases (is_expired remove_after now b)) [ inl old ↦ rw old | inr fine ↦ rw fine ]

  pub refresh_each-IsStored :
      (t : Moment) (r : Registry F)
      → Unique r.backends
      → IsStored r
      → IsStored (refresh_each t r.backends r)
  refresh_each-IsStored t r u k = record {
    stored = k.stored;
    held = refresh_each-store t r.backends r ∙ k.held;
    same = λ key.
        k.same key
        ∙ sym (
            ap facts
              (lookup-refresh_each t r.backends r r.stale_threshold r.remove_after key u refl refl)
            ∙ facts-refreshed r.stale_threshold r.remove_after t.now (lookup key r.backends));
  }
