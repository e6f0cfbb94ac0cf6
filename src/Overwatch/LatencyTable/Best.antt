-- ===== src/Overwatch/LatencyTable/Best.antt =====
-- pkg/overwatch/latency_table.go: the choices of `GetBestBackend` and `GetLatencyForBackend`, under
-- every order in which `range` may visit the map.
use open_gslb.Common.{
  ℕ, ◌≡◌, refl, sym, subst, ◌∙◌, ◌↔◌, ◌⊎◌, inl, inr, Text, Option, none, some, some-injective, Bool,
  true, false, List, [], ◌∷◌, arith, leb, int_lt, int_le, In, here, there, Bool-cases, Comparable,
  ==_iff, text_eq,
}
use open_gslb.Common.Table.{mentions}
use open_gslb.Common.Netip.{Netip}
use open_gslb.Overwatch.LatencyTable.{
  BackendMap, BackendLatency, LearnedLatencyConfig, LearnedLatencyTable, is_stale, is_usable, lower,
  lowest_passing, backends_for, get_best_backend, get_latency_for_backend, is_current_of,
}

abbrev pub entries : BackendMap → List BackendLatency
entries [] = []
entries ((key, e) ∷ m) = e ∷ entries m

-- Among the members of a list that are fit: none if there is none, or one that no fit one undercuts.
abbrev pub IsLowestOf :
    (BackendLatency → Type 0) → List BackendLatency → Option BackendLatency → Type 0
IsLowestOf Fit held none = (y : BackendLatency) → In y held → ¬ Fit y
IsLowestOf Fit held (some e) =
    In e held × Fit e × ((y : BackendLatency) → In y held → Fit y → int_le e.ewma y.ewma ≡ true)

-- A healthy backend, with enough samples that are not stale.
abbrev pub IsFitFor : LearnedLatencyConfig → ℕ → List Text → BackendLatency → Type 0
IsFitFor cfg now healthy e =
    (mentions healthy e.backend ≡ true)
    × (leb cfg.min_samples e.sample_count ≡ true)
    × (is_stale cfg.entry_ttl now e ≡ false)

-- Of the service, and not stale.
abbrev pub IsCurrentOf : LearnedLatencyConfig → ℕ → Text → BackendLatency → Type 0
IsCurrentOf cfg now service e = (e.backend ≡ service) × (is_stale cfg.entry_ttl now e ≡ false)

module _ (p : BackendLatency → Bool) where
  lower-cases :
      (e : BackendLatency) (best : Option BackendLatency)
      → (lower e best ≡ some e) ⊎ (lower e best ≡ best)
  unfolding lower
  lower-cases e none = inl refl
  lower-cases e (some b) = elim (Bool-cases (int_lt e.ewma b.ewma)) [
    | inl below ↦ inl (rw below refl)
    | inr above ↦ inr (rw above refl)
  ]

  lowest_passing-cases :
      (m : BackendMap) (best : Option BackendLatency)
      → (lowest_passing p m best ≡ best)
        ⊎ ((e : BackendLatency) × (lowest_passing p m best ≡ some e)
            × In e (entries m)
            × (p e ≡ true))
  unfolding lowest_passing
  lowest_passing-cases [] best = inl refl
  lowest_passing-cases ((k, e) ∷ m) best = elim (Bool-cases (p e)) [
    | inr fails ↦ elim (lowest_passing-cases m best) [
      | inl same ↦ inl (rw fails same)
      | inr (y, eq, i, h) ↦ inr (y, rw fails eq, there i, h)
    ]
    | inl passes ↦ elim (lowest_passing-cases m (lower e best)) [
      | inr (y, eq, i, h) ↦ inr (y, rw passes eq, there i, h)
      | inl same ↦ elim (lower-cases e best) [
        | inl taken ↦ inr (e, rw passes (same ∙ taken), here, passes)
        | inr kept ↦ inl (rw passes (same ∙ kept))
      ]
    ]
  ]

  lowest_passing-some :
      (m : BackendMap) (b : BackendLatency)
      → (r : BackendLatency) × (lowest_passing p m (some b) ≡ some r)
        × (int_le r.ewma b.ewma ≡ true)
  unfolding lowest_passing lower
  lowest_passing-some [] b = (b, refl, ground arith)
  lowest_passing-some ((k, e) ∷ m) b = elim (Bool-cases (p e)) [
    | inr fails ↦ rw fails (lowest_passing-some m b)
    | inl passes ↦ elim (Bool-cases (int_lt e.ewma b.ewma)) [
      | inr above ↦ rw (passes, above) (lowest_passing-some m b)
      | inl below ↦
          let found = lowest_passing-some m e in
          (found.0, rw (passes, below) (found.1), ground (arith, found.2, below))
    ]
  ]

  lowest_passing-le :
      (m : BackendMap) (best : Option BackendLatency) (y : BackendLatency)
      → In y (entries m)
      → p y ≡ true
      → (r : BackendLatency) × (lowest_passing p m best ≡ some r) × (int_le r.ewma y.ewma ≡ true)
  unfolding lowest_passing lower
  lowest_passing-le ((k, e) ∷ m) best y (there i) h = lowest_passing-le m _ y i h
  lowest_passing-le ((k, e) ∷ m) none y here h = rw h (lowest_passing-some m e)
  lowest_passing-le ((k, e) ∷ m) (some b) y here h = elim (Bool-cases (int_lt e.ewma b.ewma)) [
    | inl below ↦ rw (h, below) (lowest_passing-some m e)
    | inr above ↦
        let found = lowest_passing-some m b in
        (found.0, rw (h, above) (found.1), ground (arith, found.2, above))
  ]
  lowest_passing-le [] best y i h = elim i [ ]

  lowest_passing-IsLowestOf :
      (Fit : BackendLatency → Type 0) (m : BackendMap)
      → ((e : BackendLatency) → (p e ≡ true) ↔ Fit e)
      → IsLowestOf Fit (entries m) (lowest_passing p m none)
  lowest_passing-IsLowestOf Fit m fit = elim (lowest_passing-cases m none) [
    | inl nothing ↦
        rw nothing
          (λ y i f. let found = lowest_passing-le m none y i ((fit y).1 f) in cc (nothing, found.1))
    | inr (e, eq, i, h) ↦ rw eq (
      i,
      (fit e).0 h,
      λ y j f.
          (let found = lowest_passing-le m none y j ((fit y).1 f) in
            subst (λ r. int_le r.ewma y.ewma ≡ true) (some-injective _ _ (sym (found.1) ∙ eq))
              (found.2)),
    )
  ]

is_usable-IsFitFor :
    (cfg : LearnedLatencyConfig) (now : ℕ) (healthy : List Text) (e : BackendLatency)
    → (is_usable cfg now healthy e ≡ true) ↔ IsFitFor cfg now healthy e
unfolding is_usable
is_usable-IsFitFor cfg now healthy e = ground arith

module _ {Prefix : Type 0} ⦃cmp : Comparable Prefix⦄ (netip : Netip Prefix) where
  is_current_of-IsCurrentOf :
      (t : LearnedLatencyTable Prefix) (now : ℕ) (service : Text) (e : BackendLatency)
      → (is_current_of t now service e ≡ true) ↔ IsCurrentOf t.config now service e
  unfolding is_current_of
  is_current_of-IsCurrentOf t now service e = ground (arith, ==_iff e.backend service)

  -- For every table, time and client: of the entries under the client's subnet, `GetBestBackend`
  -- answers with one of a healthy service, of enough samples and not stale, whose latency no other
  -- such entry undercuts, and with nothing only if there is no such entry; and so does
  -- `GetLatencyForBackend` of the entries of the service that are not stale.
  pub get_best_backend-IsLowestOf :
      (t : LearnedLatencyTable Prefix) (now : ℕ) (client : List ℕ) (healthy : List Text)
      (service : Text)
      → IsLowestOf
          (IsFitFor t.config now healthy)
          (entries (backends_for netip t client))
          (get_best_backend netip t now client healthy)
        × IsLowestOf
            (IsCurrentOf t.config now service)
            (entries (backends_for netip t client))
            (get_latency_for_backend netip t now client service)
  unfolding get_best_backend get_latency_for_backend
  get_best_backend-IsLowestOf t now client healthy service = (
    lowest_passing-IsLowestOf (is_usable t.config now healthy) (IsFitFor t.config now healthy)
        (backends_for netip t client) (is_usable-IsFitFor t.config now healthy),
    lowest_passing-IsLowestOf (is_current_of t now service) (IsCurrentOf t.config now service)
        (backends_for netip t client) (is_current_of-IsCurrentOf t now service),
  )
