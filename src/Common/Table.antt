-- ===== src/Common/Table.antt =====
-- A Go map as an association list. The order of the list stands for the order in which `range`
-- happens to visit the map; what the code computes under every order is stated for every list.
use Prim.Native.Nat.{◌+◌, ◌<◌}
use mathlib.Core.Path.{◌≡◌, refl, ap, subst}
use mathlib.Core.Logic.{inl, inr}
use mathlib.Core.Bool.{Bool, true, false}
use mathlib.Core.List.{List, [], ◌∷◌}
use mathlib.Core.Option.{Option, none, some, some-injective}
use native.Mathlib.Omega.{arith}
use open_gslb.Common.Tests.{if◌then◌else◌, Bool-cases}
use open_gslb.Common.Equality.{Comparable, ◌==◌, ==_iff}
use open_gslb.Common.Lists.{length}

abbrev pub Table {ℓ κ} : Type ℓ → Type κ → Type (ℓ ⊔ κ)
Table K V = List (K × V)

module _ {ℓ κ} {K : Type ℓ} ⦃cmp : Comparable K⦄ {V : Type κ} where
  -- `v, ok := table[key]`
  unfoldable pub lookup : K → Table K V → Option V
  lookup key [] = none
  lookup key ((held, value) ∷ rest) = if held == key then some value else lookup key rest

  -- `table[key] = value`
  unfoldable pub insert : K → V → Table K V → Table K V
  insert key value [] = (key, value) ∷ []
  insert key value ((held, old) ∷ rest) =
      let kept = insert key value rest in
      if held == key then (key, value) ∷ rest else (held, old) ∷ kept

  -- `delete(table, key)`
  unfoldable pub erase : K → Table K V → Table K V
  erase key [] = []
  erase key ((held, value) ∷ rest) =
      let kept = erase key rest in if held == key then kept else (held, value) ∷ kept

  -- No key twice, as in a map.
  abbrev pub Unique : Table K V → Type κ
  Unique [] = Unit
  Unique ((held, value) ∷ rest) = (lookup held rest ≡ none) × Unique rest

  -- Keys that pass the test are one key.
  pub lookup_congr : (k j : K) (m : Table K V) → (k == j) ≡ true → lookup k m ≡ lookup j m
  lookup_congr k j m h = ap (λ i. lookup i m) ((==_iff k j).0 h)

  pub lookup-insert :
      (key asked : K) (value : V) (table : Table K V)
      → lookup asked (insert key value table)
        ≡ (if key == asked then some value else lookup asked table)
  unfolding lookup insert
  lookup-insert key asked value [] = refl
  lookup-insert key asked value ((held, old) ∷ rest) = ground (
    arith,
    lookup-insert key asked value rest,
    ==_iff key asked,
    ==_iff held key,
    ==_iff held asked,
  )

  pub lookup-insert_same :
      (key : K) (value : V) (table : Table K V) → lookup key (insert key value table) ≡ some value
  lookup-insert_same key value table =
      ground (arith, lookup-insert key key value table, ==_iff key key)

  pub lookup-erase :
      (key asked : K) (table : Table K V)
      → lookup asked (erase key table) ≡ (if key == asked then none else lookup asked table)
  unfolding lookup erase
  lookup-erase key asked [] = ground arith
  lookup-erase key asked ((held, old) ∷ rest) =
      ground
        (arith, lookup-erase key asked rest, ==_iff key asked, ==_iff held key, ==_iff held asked)

  pub length-insert :
      (k : K) (v : V) (m : Table K V)
      → length (insert k v m) ≡ elim (lookup k m) [ none ↦ length m + 1 | some _ ↦ length m ]
  unfolding insert lookup
  length-insert k v [] = omega arith
  length-insert k v ((i, w) ∷ m) = ground (arith, length-insert k v m)

  pub length-insert_pos : (k : K) (v : V) (m : Table K V) → 0 < length (insert k v m)
  unfolding insert
  length-insert_pos k v [] = omega arith
  length-insert_pos k v ((i, w) ∷ m) = ground arith

  erase_absent : (k : K) (m : Table K V) → lookup k m ≡ none → erase k m ≡ m
  unfolding erase lookup
  erase_absent k [] h = refl
  erase_absent k ((i, w) ∷ m) h = ground (arith, erase_absent k m)

  pub length-erase :
      (k : K) (m : Table K V)
      → Unique m
      → length m ≡ elim (lookup k m) [ none ↦ length (erase k m) | some _ ↦ length (erase k m) + 1 ]
  unfolding erase lookup
  length-erase k [] u = refl
  length-erase k ((i, w) ∷ m) u = elim (Bool-cases (i == k)) [
    | inl same ↦ ground (
      arith,
      ap length (erase_absent k m (subst (λ j. lookup j m ≡ none) ((==_iff i k).0 same) u.0)),
    )
    | inr other ↦ ground (arith, length-erase k m u.1)
  ]

  Unique-insert-head :
      (k j : K) (v : V) (m : Table K V)
      → (k == j) ≡ false
      → lookup j m ≡ none
      → lookup j (insert k v m) ≡ none
  Unique-insert-head k j v m ne h = ground (arith, lookup-insert k j v m)

  pub Unique-insert : (k : K) (v : V) (m : Table K V) → Unique m → Unique (insert k v m)
  unfolding insert lookup
  Unique-insert k v [] u = (refl, tt)
  Unique-insert k v ((j, w) ∷ m) u = elim (Bool-cases (j == k)) [
    | inl same ↦ rw same (subst (λ i. lookup i m ≡ none) ((==_iff j k).0 same) u.0, u.1)
    | inr other ↦ rw other (
      Unique-insert-head k j v m (ground (arith, ==_iff j k, ==_iff k j)) u.0,
      Unique-insert k v m u.1,
    )
  ]

  pub Unique-erase : (k : K) (m : Table K V) → Unique m → Unique (erase k m)
  unfolding erase
  Unique-erase k [] u = tt
  Unique-erase k ((j, w) ∷ m) u = elim (Bool-cases (j == k)) [
    | inl same ↦ rw same (Unique-erase k m u.1)
    | inr other ↦ rw other (ground (arith, lookup-erase k j m, u.0), Unique-erase k m u.1)
  ]

-- Whether a list of keys has a key.
unfoldable pub mentions {ℓ} : {K : Type ℓ} ⦃cmp : Comparable K⦄ → List K → K → Bool
mentions [] k = false
mentions (j ∷ ks) k = if j == k then true else mentions ks k

-- What holds of every entry.
abbrev pub AllEntries {ℓ κ μ} : {K : Type ℓ} {V : Type κ} → (K → V → Type μ) → Table K V → Type μ
AllEntries P [] = Unit
AllEntries P ((k, v) ∷ m) = P k v × AllEntries P m

module _ {ℓ κ μ} {K : Type ℓ} ⦃cmp : Comparable K⦄ {V : Type κ} (P : K → V → Type μ) where
  pub AllEntries-insert :
      (k : K) (v : V) (m : Table K V) → P k v → AllEntries P m → AllEntries P (insert k v m)
  unfolding insert
  AllEntries-insert k v [] p a = (p, tt)
  AllEntries-insert k v ((j, w) ∷ m) p a = elim (Bool-cases (j == k)) [
    | inl same ↦ rw same (p, a.1)
    | inr other ↦ rw other (a.0, AllEntries-insert k v m p a.1)
  ]

  pub AllEntries-erase : (k : K) (m : Table K V) → AllEntries P m → AllEntries P (erase k m)
  unfolding erase
  AllEntries-erase k [] a = tt
  AllEntries-erase k ((j, w) ∷ m) a = elim (Bool-cases (j == k)) [
    | inl same ↦ rw same (AllEntries-erase k m a.1)
    | inr other ↦ rw other (a.0, AllEntries-erase k m a.1)
  ]

  pub AllEntries-lookup :
      (k : K) (v : V) (m : Table K V) → AllEntries P m → lookup k m ≡ some v → P k v
  unfolding lookup
  AllEntries-lookup k v [] a h = cc
  AllEntries-lookup k v ((j, w) ∷ m) a h = elim (Bool-cases (j == k)) [
    | inl same ↦
        subst (λ i. P i v) ((==_iff j k).0 same)
          (subst (P j) (some-injective _ _ (rw same at h)) a.0)
    | inr other ↦ AllEntries-lookup k v m a.1 (rw other at h)
  ]
