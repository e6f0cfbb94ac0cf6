-- ===== src/Overwatch/Registry/LastSeen.antt =====
-- When a backend from the API was last seen (pkg/overwatch/registry.go): what the steps that the methods
-- share leave of it.
use open_gslb.Common.{
  ℕ, ◌≡◌, sym, ◌∙◌, subst, Text, Option, none, some, [], ◌∷◌, arith, ◌==◌, ==_iff, text_eq,
  Bool-cases, Option-cases, inl, inr,
}
use open_gslb.Common.Table.{
  Table, lookup, insert, erase, AllEntries, AllEntries-insert, AllEntries-erase, AllEntries-lookup,
}
use open_gslb.Overwatch.Registry.State.{
  Floats, BackendStatus, Backend, Registry, Moment, api, recompute, notify, persist, finish,
}
use open_gslb.Overwatch.Registry.Changes.{with_backend, remove}
use open_gslb.Overwatch.Registry.Sweeps.{refresh}

module _ {F : Floats} (key : Text) (seen limit : ℕ) where
  -- What stands under the key came from the API, and was last seen then.
  abbrev pub WasSeen : Text → Backend F → Type 0
  WasSeen j b = j ≡ key → (b.source ≡ api) × (b.agent_last_seen ≡ seen)

  pub record IsAging (r : Registry F) : Type 0 where
    pub limited : r.remove_after ≡ limit
    pub was_seen : AllEntries WasSeen r.backends

  pub IsAging-congr :
      (r next : Registry F)
      → next.remove_after ≡ r.remove_after
      → next.backends ≡ r.backends
      → IsAging r
      → IsAging next
  IsAging-congr r next same_limit same a = record {
    limited = same_limit ∙ a.limited;
    was_seen = subst (AllEntries WasSeen) (sym same) a.was_seen;
  }

  pub IsAging-insert :
      (r : Registry F) (j : Text) (b : Backend F)
      → WasSeen j b
      → IsAging r
      → IsAging (record r { backends = insert j b r.backends })
  IsAging-insert r j b w a = record {
    limited = a.limited;
    was_seen = AllEntries-insert WasSeen j b r.backends w a.was_seen;
  }

  -- A registry without the key.
  WasSeen-absent : (m : Table Text (Backend F)) → lookup key m ≡ none → AllEntries WasSeen m
  unfolding lookup
  WasSeen-absent [] e = tt
  WasSeen-absent ((j, b) ∷ m) e = elim (Bool-cases (j == key)) [
    | inl same ↦ cc (rw same at e)
    | inr other ↦ (λ same. cc (other, (==_iff j key).1 same), WasSeen-absent m (rw other at e))
  ]

  pub registry-IsAging :
      (r : Registry F) → r.remove_after ≡ limit → lookup key r.backends ≡ none → IsAging r
  registry-IsAging r same e = record { limited = same; was_seen = WasSeen-absent r.backends e }

  pub notify-IsAging :
      (r : Registry F) (b : Backend F) (old new : Option BackendStatus)
      → IsAging r
      → IsAging (notify r b old new)
  unfolding notify
  notify-IsAging r b old new = IsAging-congr r (notify r b old new) (ground arith) (ground arith)

  pub finish-IsAging :
      (t : Moment) (j : Text) (b : Backend F) (r : Registry F)
      → WasSeen j b
      → IsAging r
      → IsAging (finish t j b r)
  unfolding finish notify persist recompute
  finish-IsAging t j b r w a =
      IsAging-congr
        (record r { backends = insert j (recompute r.stale_threshold t.now b) r.backends })
        (finish t j b r) (ground arith) (ground arith)
        (IsAging-insert r j (recompute r.stale_threshold t.now b) w a)

  pub refresh-IsAging :
      (t : Moment) (j : Text) (b : Backend F) (r : Registry F)
      → WasSeen j b
      → IsAging r
      → IsAging (refresh t j b r)
  unfolding refresh notify recompute
  refresh-IsAging t j b r w a =
      IsAging-congr
        (record r { backends = insert j (recompute r.stale_threshold t.now b) r.backends })
        (refresh t j b r) (ground arith) (ground arith)
        (IsAging-insert r j (recompute r.stale_threshold t.now b) w a)

  pub remove-IsAging : (r : Registry F) (t : Moment) (j : Text) → IsAging r → IsAging (remove r t j)
  unfolding remove
  remove-IsAging r t j a =
      IsAging-congr (record r { backends = erase j r.backends }) (remove r t j) (ground arith)
        (ground arith)
        (record {
          limited = a.limited;
          was_seen = AllEntries-erase WasSeen j r.backends a.was_seen;
        })

  pub found-WasSeen :
      (r : Registry F) (j : Text) (b : Backend F)
      → IsAging r
      → lookup j r.backends ≡ some b
      → WasSeen j b
  found-WasSeen r j b a e = AllEntries-lookup WasSeen j b r.backends a.was_seen e

  -- `change` leaves the source and when the backend was last seen.
  pub with_backend-IsAging :
      (t : Moment) (j : Text) (change : Backend F → Backend F) (r : Registry F)
      → ((b : Backend F)
          → ((change b).source ≡ b.source) × ((change b).agent_last_seen ≡ b.agent_last_seen))
      → IsAging r
      → IsAging (with_backend r t j change).0
  unfolding with_backend
  with_backend-IsAging t j change r keeps a = elim (Option-cases (lookup j r.backends)) [
    | inl e ↦ rw (e, with_backend) a
    | inr (b, e) ↦
        rw (e, with_backend)
          (finish-IsAging t j (change b) r
            (λ same.
              (let (source, last) = found-WasSeen r j b a e same in
                ((keeps b).0 ∙ source, (keeps b).1 ∙ last)))
            a)
  ]
