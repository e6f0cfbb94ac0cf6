-- ===== src/Overwatch/Registry/Keyed.antt =====
-- What every method of the registry keeps (pkg/overwatch/registry.go).
use open_gslb.Common.{
  ℕ, ◌≡◌, refl, sym, ◌∙◌, subst, Text, Option, some, Bool, true, false, not, arith, text_eq,
  if◌then◌else◌, Option-cases, inl, inr,
}
use open_gslb.Common.Table.{
  lookup, insert, erase, Unique, Unique-insert, Unique-erase, AllEntries, AllEntries-insert,
  AllEntries-erase, AllEntries-lookup,
}
use open_gslb.Overwatch.Registry.State.{
  Floats, BackendStatus, Backend, Registry, Moment, effective_status_at, recompute, key_of, notify,
  persist, finish, status_beq,
}
use open_gslb.Overwatch.Registry.Changes.{or_new, with_backend, remove}
use open_gslb.Overwatch.Registry.Sweeps.{refresh}

module _ {F : Floats} where
  -- A backend stands under its own key, and its status is what the authorities said of it at some
  -- time.
  abbrev pub IsKept : ℕ → Text → Backend F → Type 0
  IsKept threshold key b =
      (key_of b ≡ key) × ((now : ℕ) × (b.effective_status ≡ effective_status_at threshold now b))

  pub record IsKeyed (threshold : ℕ) (r : Registry F) : Type 0 where
    pub configured : r.stale_threshold ≡ threshold
    pub unique : Unique r.backends
    pub kept : AllEntries (IsKept threshold) r.backends

  -- Only the backends and the threshold matter.
  IsKeyed-congr :
      (threshold : ℕ) (r next : Registry F)
      → next.stale_threshold ≡ r.stale_threshold
      → next.backends ≡ r.backends
      → IsKeyed threshold r
      → IsKeyed threshold next
  IsKeyed-congr threshold r next same_threshold same k = record {
    configured = same_threshold ∙ k.configured;
    unique = subst Unique (sym same) k.unique;
    kept = subst (AllEntries (IsKept threshold)) (sym same) k.kept;
  }

  pub recompute-IsKept :
      (threshold now : ℕ) (key : Text) (b : Backend F)
      → key_of b ≡ key
      → IsKept threshold key (recompute threshold now b)
  unfolding recompute effective_status_at
  recompute-IsKept threshold now key b e = (e, (now, refl))

  pub IsKeyed-insert :
      (threshold : ℕ) (r : Registry F) (key : Text) (b : Backend F)
      → IsKept threshold key b
      → IsKeyed threshold r
      → IsKeyed threshold (record r { backends = insert key b r.backends })
  IsKeyed-insert threshold r key b p k = record {
    configured = k.configured;
    unique = Unique-insert key b r.backends k.unique;
    kept = AllEntries-insert (IsKept threshold) key b r.backends p k.kept;
  }

  IsKeyed-erase :
      (threshold : ℕ) (r : Registry F) (key : Text)
      → IsKeyed threshold r
      → IsKeyed threshold (record r { backends = erase key r.backends })
  IsKeyed-erase threshold r key k = record {
    configured = k.configured;
    unique = Unique-erase key r.backends k.unique;
    kept = AllEntries-erase (IsKept threshold) key r.backends k.kept;
  }

  -- What is stored under a key has that key.
  pub key_of_found :
      (threshold : ℕ) (r : Registry F) (key : Text) (b : Backend F)
      → IsKeyed threshold r
      → lookup key r.backends ≡ some b
      → key_of b ≡ key
  key_of_found threshold r key b k e =
      (AllEntries-lookup (IsKept threshold) key b r.backends k.kept e).0

  pub notify-IsKeyed :
      (threshold : ℕ) (r : Registry F) (b : Backend F) (old new : Option BackendStatus)
      → IsKeyed threshold r
      → IsKeyed threshold (notify r b old new)
  unfolding notify
  notify-IsKeyed threshold r b old new k =
      IsKeyed-congr threshold r (notify r b old new) (ground arith) (ground arith) k

  pub persist-IsKeyed :
      (threshold : ℕ) (t : Moment) (b : Backend F) (r : Registry F)
      → IsKeyed threshold r
      → IsKeyed threshold (persist t b r)
  unfolding persist
  persist-IsKeyed threshold t b r k =
      IsKeyed-congr threshold r (persist t b r) (ground arith) (ground arith) k

  pub finish-IsKeyed :
      (threshold : ℕ) (t : Moment) (key : Text) (b : Backend F) (r : Registry F)
      → key_of b ≡ key
      → IsKeyed threshold r
      → IsKeyed threshold (finish t key b r)
  unfolding finish
  finish-IsKeyed threshold t key b r e k =
      go
        (not (status_beq b.effective_status (recompute r.stale_threshold t.now b).effective_status))
    where
      entry : Backend F
      entry = recompute r.stale_threshold t.now b

      saved : Registry F
      saved = persist t entry (record r { backends = insert key entry r.backends })

      saved-IsKeyed : IsKeyed threshold saved
      saved-IsKeyed =
          persist-IsKeyed threshold t entry (record r { backends = insert key entry r.backends })
            (IsKeyed-insert threshold r key entry
              (subst (λ s. IsKept threshold key (recompute s t.now b)) (sym k.configured)
                (recompute-IsKept threshold t.now key b e))
              k)

      go :
          (changed : Bool)
          → IsKeyed threshold (
              if changed
              then notify saved entry (some b.effective_status) (some entry.effective_status)
              else saved)
      go true = notify-IsKeyed threshold saved entry _ _ saved-IsKeyed
      go false = saved-IsKeyed

  -- `change` leaves what makes the key.
  pub with_backend-IsKeyed :
      (threshold : ℕ) (t : Moment) (key : Text) (change : Backend F → Backend F) (r : Registry F)
      → ((b : Backend F) → key_of (change b) ≡ key_of b)
      → IsKeyed threshold r
      → IsKeyed threshold (with_backend r t key change).0
  unfolding with_backend
  with_backend-IsKeyed threshold t key change r keeps k =
      elim (Option-cases (lookup key r.backends)) [
        | inl e ↦ rw (e, with_backend) k
        | inr (b, e) ↦
            rw (e, with_backend)
              (finish-IsKeyed threshold t key (change b) r
                (keeps b ∙ key_of_found threshold r key b k e) k)
      ]

  pub or_new-key :
      (threshold : ℕ) (r : Registry F) (key : Text) (fresh : Backend F)
      → key_of fresh ≡ key
      → IsKeyed threshold r
      → key_of (or_new (lookup key r.backends) fresh) ≡ key
  or_new-key threshold r key fresh e k = elim (Option-cases (lookup key r.backends)) [
    | inl none_there ↦ rw none_there e
    | inr (b, found) ↦ rw found (key_of_found threshold r key b k found)
  ]

  pub remove-IsKeyed :
      (threshold : ℕ) (r : Registry F) (t : Moment) (key : Text)
      → IsKeyed threshold r
      → IsKeyed threshold (remove r t key)
  unfolding remove
  remove-IsKeyed threshold r t key k =
      IsKeyed-congr threshold (record r { backends = erase key r.backends }) (remove r t key)
        (ground arith) (ground arith) (IsKeyed-erase threshold r key k)

  pub refresh-IsKeyed :
      (threshold : ℕ) (t : Moment) (key : Text) (b : Backend F) (r : Registry F)
      → key_of b ≡ key
      → IsKeyed threshold r
      → IsKeyed threshold (refresh t key b r)
  unfolding refresh
  refresh-IsKeyed threshold t key b r e k =
      go
        (not (status_beq b.effective_status (recompute r.stale_threshold t.now b).effective_status))
    where
      entry : Backend F
      entry = recompute r.stale_threshold t.now b

      next : Registry F
      next = record r { backends = insert key entry r.backends }

      next-IsKeyed : IsKeyed threshold next
      next-IsKeyed =
          IsKeyed-insert threshold r key entry
            (subst (λ s. IsKept threshold key (recompute s t.now b)) (sym k.configured)
              (recompute-IsKept threshold t.now key b e))
            k

      go :
          (changed : Bool)
          → IsKeyed threshold (
              if changed
              then notify next entry (some b.effective_status) (some entry.effective_status)
              else next)
      go true = notify-IsKeyed threshold next entry _ _ next-IsKeyed
      go false = next-IsKeyed
