-- ===== src/Routing/Lowest.antt =====
-- The choice of the lowest latency under a threshold, which pkg/routing/latency.go and
-- pkg/routing/learned_latency.go spell out alike. A latency is a `time.Duration`, an int64.
use open_gslb.Common.{
  ℕ, ◌≡◌, ◌⊎◌, inl, inr, Bool, true, false, List, [], ◌∷◌, arith, In, here, there, select,
  In-of_select, In-select, select_passes, mul_word, int_lt, int_le, if◌then◌else◌, Bool-cases,
}
use open_gslb.Routing.Core.{Server}

-- `serverLatency` and `serverLearnedLatency`: a server and the latency that is compared.
pub record Measured : Type 0 where
  pub server : Server
  pub latency : ℕ

-- `selectLowestLatency` on a list that is not empty: the first of the lowest.
unfoldable pub lowest : Measured → List Measured → Measured
lowest best [] = best
lowest best (m ∷ ms) = lowest (if int_lt m.latency best.latency then m else best) ms

-- `time.Duration(ms) * time.Millisecond`
abbrev pub milliseconds : ℕ → ℕ
milliseconds ms = mul_word ms 1_000_000

abbrev pub within : ℕ → Measured → Bool
within limit m = int_le m.latency limit

-- `if len(withinThreshold) == 0 { withinThreshold = withLatency }`, and the choice.
lowest_or : Measured → List Measured → List Measured → Measured
lowest_or m ms [] = lowest m ms
lowest_or m ms (x ∷ xs) = lowest x xs

-- The lowest of those within the threshold, or of all if there is no threshold or none is within.
unfoldable pub choose : ℕ → Measured → List Measured → Measured
unfolding lowest_or
choose limit m ms =
    if int_lt 0 limit then lowest_or m ms (select (within limit) (m ∷ ms)) else lowest m ms

int_le_trans : (a b c : ℕ) → int_le a b ≡ true → int_le b c ≡ true → int_le a c ≡ true
int_le_trans a b c h k = ground arith

lowest-In : (x : Measured) (xs : List Measured) → In (lowest x xs) (x ∷ xs)
unfolding lowest
lowest-In x [] = here
lowest-In x (m ∷ ms) = elim (Bool-cases (int_lt m.latency x.latency)) [
  | inl less ↦ rw less (there (lowest-In m ms))
  | inr more ↦ rw more (skip (lowest-In x ms))
]
  where
    skip : {y : Measured} → In y (x ∷ ms) → In y (x ∷ m ∷ ms)
    skip here = here
    skip (there n) = there (there n)

lowest-le-start :
    (x : Measured) (xs : List Measured) → int_le (lowest x xs).latency x.latency ≡ true
unfolding lowest
lowest-le-start x [] = ground arith
lowest-le-start x (m ∷ ms) = ground (
  arith,
  lowest-le-start (if int_lt m.latency x.latency then m else x) ms,
  int_le_trans (lowest m ms).latency m.latency x.latency,
)

lowest-le-tail :
    (y x : Measured) (xs : List Measured) → In y xs → int_le (lowest x xs).latency y.latency ≡ true
unfolding lowest
lowest-le-tail y x [] n = elim n [ ]
lowest-le-tail y x (m ∷ ms) here = ground (
  arith,
  lowest-le-start (if int_lt m.latency x.latency then m else x) ms,
  int_le_trans (lowest x ms).latency x.latency m.latency,
)
lowest-le-tail y x (m ∷ ms) (there n) =
    lowest-le-tail y (if int_lt m.latency x.latency then m else x) ms n

pub lowest-le :
    (y x : Measured) (xs : List Measured)
    → In y (x ∷ xs)
    → int_le (lowest x xs).latency y.latency ≡ true
lowest-le y x xs here = lowest-le-start x xs
lowest-le y x xs (there n) = lowest-le-tail y x xs n

lowest_or-within :
    (p : Measured → Bool) (y m : Measured) (ms : List Measured) (passing : List Measured)
    → ((z : Measured) → In z passing → In z (m ∷ ms) × (p z ≡ true))
    → In y passing
    → let best = lowest_or m ms passing in
      In best (m ∷ ms) × (p best ≡ true) × (int_le best.latency y.latency ≡ true)
unfolding lowest_or
lowest_or-within p y m ms [] sub n = elim n [ ]
lowest_or-within p y m ms (x ∷ xs) sub n =
    let r = sub (lowest x xs) (lowest-In x xs) in (r.0, r.1, lowest-le y x xs n)

-- Under a threshold that some entry meets, the choice meets it, and is lowest among those that do.
pub choose-within :
    (limit : ℕ) (m : Measured) (ms : List Measured) (y : Measured)
    → int_lt 0 limit ≡ true
    → In y (m ∷ ms)
    → within limit y ≡ true
    → let best = choose limit m ms in
      In best (m ∷ ms) × (within limit best ≡ true) × (int_le best.latency y.latency ≡ true)
unfolding choose
choose-within limit m ms y on n ok = rw on (
    lowest_or-within (within limit) y m ms (select (within limit) (m ∷ ms))
      (λ z k. (In-of_select (within limit) (m ∷ ms) k, select_passes (within limit) (m ∷ ms) k))
      (In-select (within limit) (m ∷ ms) n ok))

lowest_or-In :
    (m : Measured) (ms : List Measured) (passing : List Measured)
    → ((z : Measured) → In z passing → In z (m ∷ ms))
    → In (lowest_or m ms passing) (m ∷ ms)
unfolding lowest_or
lowest_or-In m ms [] sub = lowest-In m ms
lowest_or-In m ms (x ∷ xs) sub = sub (lowest x xs) (lowest-In x xs)

-- The choice is always one of the entries.
pub choose-In : (limit : ℕ) (m : Measured) (ms : List Measured) → In (choose limit m ms) (m ∷ ms)
unfolding choose
choose-In limit m ms = elim (Bool-cases (int_lt 0 limit)) [
  | inl on ↦ rw on (
      lowest_or-In m ms (select (within limit) (m ∷ ms))
        (λ z k. In-of_select (within limit) (m ∷ ms) k))
  | inr off ↦ rw off (lowest-In m ms)
]

lowest_or-le :
    (p : Measured → Bool) (y m : Measured) (ms : List Measured) (passing : List Measured)
    → ((z : Measured) → In z passing → p z ≡ true)
    → ((z : Measured) → In z passing → p z ≡ false)
    → In y (m ∷ ms)
    → int_le (lowest_or m ms passing).latency y.latency ≡ true
unfolding lowest_or
lowest_or-le p y m ms [] pass fail n = lowest-le y m ms n
lowest_or-le p y m ms (x ∷ xs) pass fail n = cc (pass x here, fail x here)

-- With no threshold, or one that no entry meets, the choice is lowest among all.
pub choose_otherwise :
    (limit : ℕ) (m : Measured) (ms : List Measured) (y : Measured)
    → (int_lt 0 limit ≡ false) ⊎ ((z : Measured) → In z (m ∷ ms) → within limit z ≡ false)
    → In y (m ∷ ms)
    → int_le (choose limit m ms).latency y.latency ≡ true
unfolding choose
choose_otherwise limit m ms y (inl off) n = rw off (lowest-le y m ms n)
choose_otherwise limit m ms y (inr none_within) n = elim (Bool-cases (int_lt 0 limit)) [
  | inl on ↦ rw on (
      lowest_or-le (within limit) y m ms (select (within limit) (m ∷ ms))
        (λ z k. select_passes (within limit) (m ∷ ms) k)
        (λ z k. none_within z (In-of_select (within limit) (m ∷ ms) k)) n)
  | inr off ↦ rw off (lowest-le y m ms n)
]
