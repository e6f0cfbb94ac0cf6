-- ===== src/Common/Capacity.antt =====
-- Maps of bounded size: before a new key goes into a full one, an entry is evicted.
use Prim.Native.Nat.{ℕ, ◌≤◌, ◌<◌}
use mathlib.Core.Path.{◌≡◌}
use mathlib.Core.Logic.{inl, inr}
use mathlib.Core.Bool.{true, false}
use mathlib.Core.Option.{none, some}
use native.Mathlib.Omega.{arith}
use open_gslb.Common.Tests.{leb, if◌then◌else◌, Bool-cases, Option-cases}
use open_gslb.Common.Equality.{Comparable}
use open_gslb.Common.Lists.{length}
use open_gslb.Common.Words.{half_mod, int_le, int_le_word}
use open_gslb.Common.Table.{Table, lookup, insert, length-insert}

module _ {ℓ κ} {K : Type ℓ} ⦃cmp : Comparable K⦄ {V : Type κ} where
  -- `if !exists { if len(table) >= max { evict() } }`
  unfoldable pub make_room : (Table K V → Table K V) → ℕ → K → Table K V → Table K V
  make_room evict max key table = elim (lookup key table) [
    | none ↦ if int_le max (length table) then evict table else table
    | some held ↦ table
  ]

  -- The map stays within a positive capacity, if evicting from a map that is not empty takes an entry
  -- out and none in.
  pub length-make_room :
      (evict : Table K V → Table K V) (max : ℕ) (p : K) (d : Table K V)
      → 0 < max
      → max < half_mod
      → length d ≤ max
      → (0 < length d → length (evict d) < length d)
      → (lookup p d ≡ none → lookup p (evict d) ≡ none)
      → (m : V) → length (insert p m (make_room evict max p d)) ≤ max
  unfolding make_room insert
  length-make_room evict max p d pos small fits fewer absent m = elim (Option-cases (lookup p d)) [
    | inr (n, e) ↦ rw (e, make_room) (ground (arith, length-insert p m d, e))
    | inl e ↦ elim (Bool-cases (leb max (length d))) [
      | inl full ↦
          rw (e, make_room, int_le_word max (length d) small (omega arith), full)
            (ground (arith, length-insert p m (evict d), absent e, fewer (ground arith)))
      | inr free ↦
          rw (e, make_room, int_le_word max (length d) small (omega arith), free)
            (ground (arith, length-insert p m d, e))
    ]
  ]

  -- What holds of the map, and of it after an eviction, holds once there is room.
  pub make_room-kept :
      (P : Table K V → Type 0) (evict : Table K V → Table K V) (max : ℕ) (p : K) (d : Table K V)
      → P d
      → P (evict d)
      → P (make_room evict max p d)
  unfolding make_room
  make_room-kept P evict max p d h k =
      elim (lookup p d)
        as (λ o.
          P (elim o [ none ↦ if int_le max (length d) then evict d else d | some held ↦ d ])) [
            | some held ↦ h
            | none ↦ elim (int_le max (length d)) as (λ b. P (if b then evict d else d)) [
              | true ↦ k
              | false ↦ h
            ]
          ]
