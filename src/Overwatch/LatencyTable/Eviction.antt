-- ===== src/Overwatch/LatencyTable/Eviction.antt =====
-- pkg/overwatch/latency_table.go: evictOldest finds a subnet of the table, and removes it.
use open_gslb.Common.{
  ℕ, ◌+◌, ◌<◌, ◌≡◌, refl, ◌⊎◌, inl, inr, Option, none, some, [], ◌∷◌, length, arith, leb,
  Bool-cases, Option-cases, Comparable, ◌==◌, ==_iff, text_eq,
}
use open_gslb.Common.Table.{Table, lookup, erase, Unique, lookup-erase, length-erase, AllEntries}
use open_gslb.Overwatch.LatencyTable.{BackendMap, older, oldest_of, oldest, evict_oldest}

abbrev pub HasBackends : {Prefix : Type 0} → Prefix → BackendMap → Type 0
HasBackends p m = 0 < length m

module _ {Prefix : Type 0} where
  older-some :
      (p : Prefix) (at : ℕ) (f : Option (Prefix × ℕ)) → (r : Prefix × ℕ) × (older p at f ≡ some r)
  unfolding older
  older-some p at none = ((p, at), refl)
  older-some p at (some f) = elim (Bool-cases (leb f.1 at)) [
    | inl later ↦ (f, ground arith)
    | inr earlier ↦ ((p, at), ground arith)
  ]

  older-cases :
      (p : Prefix) (at : ℕ) (f : Option (Prefix × ℕ))
      → (older p at f ≡ f) ⊎ ((i : ℕ) × (older p at f ≡ some (p, i)))
  unfolding older
  older-cases p at none = inr (at, refl)
  older-cases p at (some f) = elim (Bool-cases (leb f.1 at)) [
    | inl later ↦ inl (ground arith)
    | inr earlier ↦ inr (at, ground arith)
  ]

  oldest_of-some :
      (p : Prefix) (m : BackendMap) (f : Prefix × ℕ)
      → (r : Prefix × ℕ) × (oldest_of p m (some f) ≡ some r)
  unfolding oldest_of
  oldest_of-some p [] f = (f, refl)
  oldest_of-some p ((k, e) ∷ m) f =
      let next = older-some p e.last_updated (some f) in rw (next.1) (oldest_of-some p m next.0)

  oldest_of-inhabited :
      (p : Prefix) (m : BackendMap) (f : Option (Prefix × ℕ))
      → 0 < length m
      → (r : Prefix × ℕ) × (oldest_of p m f ≡ some r)
  unfolding oldest_of
  oldest_of-inhabited p [] f h = elim h [ ]
  oldest_of-inhabited p ((k, e) ∷ m) f h =
      let next = older-some p e.last_updated f in rw (next.1) (oldest_of-some p m next.0)

  oldest-some :
      (d : Table Prefix BackendMap) (f : Prefix × ℕ)
      → (r : Prefix × ℕ) × (oldest d (some f) ≡ some r)
  unfolding oldest
  oldest-some [] f = (f, refl)
  oldest-some ((p, m) ∷ d) f = let next = oldest_of-some p m f in rw (next.1) (oldest-some d next.0)

  -- With a backend in every subnet, eviction finds something.
  oldest-inhabited :
      (d : Table Prefix BackendMap)
      → AllEntries HasBackends d
      → 0 < length d
      → (r : Prefix × ℕ) × (oldest d none ≡ some r)
  unfolding oldest
  oldest-inhabited [] a h = elim h [ ]
  oldest-inhabited ((p, m) ∷ d) a h =
      let next = oldest_of-inhabited p m none a.0 in rw (next.1) (oldest-some d next.0)

  oldest_of-cases :
      (p : Prefix) (m : BackendMap) (f : Option (Prefix × ℕ))
      → (oldest_of p m f ≡ f) ⊎ ((i : ℕ) × (oldest_of p m f ≡ some (p, i)))
  unfolding oldest_of
  oldest_of-cases p [] f = inl refl
  oldest_of-cases p ((k, e) ∷ m) f = elim (oldest_of-cases p m (older p e.last_updated f)) [
    | inr new ↦ inr new
    | inl same ↦ elim (older-cases p e.last_updated f) [
      | inl kept ↦ inl (cc (same, kept))
      | inr new ↦ inr (new.0, cc (same, new.1))
    ]
  ]

module _ {Prefix : Type 0} ⦃cmp : Comparable Prefix⦄ where
  lookup-head :
      (p : Prefix) (m : BackendMap) (d : Table Prefix BackendMap) → lookup p ((p, m) ∷ d) ≡ some m
  unfolding lookup
  lookup-head p m d = ground (arith, ==_iff p p)

  lookup-tail :
      (p q : Prefix) (m n : BackendMap) (d : Table Prefix BackendMap)
      → lookup q d ≡ some n
      → (k : BackendMap) × (lookup q ((p, m) ∷ d) ≡ some k)
  unfolding lookup
  lookup-tail p q m n d h = elim (Bool-cases (p == q)) [
    | inl same ↦ (m, rw (same) refl)
    | inr other ↦ (n, rw (other) h)
  ]

  -- What eviction finds is a subnet of the table.
  oldest-cases :
      (d : Table Prefix BackendMap) (f : Option (Prefix × ℕ))
      → (oldest d f ≡ f)
        ⊎ ((r : Prefix × ℕ) × (oldest d f ≡ some r) × ((m : BackendMap) × (lookup r.0 d ≡ some m)))
  unfolding oldest
  oldest-cases [] f = inl refl
  oldest-cases ((p, m) ∷ d) f = elim (oldest-cases d (oldest_of p m f)) [
    | inr (r, e, (n, h)) ↦ inr (r, e, lookup-tail p r.0 m n d h)
    | inl same ↦ elim (oldest_of-cases p m f) [
      | inl kept ↦ inl (cc (same, kept))
      | inr (i, new) ↦ inr ((p, i), cc (same, new), (m, lookup-head p m d))
    ]
  ]

  length-erase-some :
      (p : Prefix) (m : BackendMap) (d : Table Prefix BackendMap)
      → Unique d
      → lookup p d ≡ some m
      → length d ≡ length (erase p d) + 1
  length-erase-some p m d u h = ground (arith, length-erase p d u)

  pub length-evict_oldest :
      (d : Table Prefix BackendMap)
      → Unique d
      → AllEntries HasBackends d
      → 0 < length d
      → length (evict_oldest d) < length d
  unfolding evict_oldest
  length-evict_oldest d u a h =
      let found = oldest-inhabited d a h in
      elim (oldest-cases d none) [
        | inl nothing ↦ cc (nothing, found.1)
        | inr (r, e, (m, k)) ↦ rw (e, evict_oldest) (omega (arith, length-erase-some r.0 m d u k))
      ]

  pub evict_oldest-kept :
      (P : Table Prefix BackendMap → Type 0) (d : Table Prefix BackendMap)
      → P d
      → ((p : Prefix) → P (erase p d))
      → P (evict_oldest d)
  unfolding evict_oldest
  evict_oldest-kept P d h k = elim (Option-cases (oldest d none)) [
    | inl e ↦ rw (e, evict_oldest) h
    | inr (r, e) ↦ rw (e, evict_oldest) (k r.0)
  ]

  pub lookup-evict_oldest_absent :
      (p : Prefix) (d : Table Prefix BackendMap)
      → lookup p d ≡ none
      → lookup p (evict_oldest d) ≡ none
  lookup-evict_oldest_absent p d h =
      evict_oldest-kept (λ e. lookup p e ≡ none) d h (λ q. ground (arith, lookup-erase q p d))
