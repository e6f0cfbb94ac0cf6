-- ===== src/Common/Words.antt =====
-- Go's 64-bit integers. A `uint64` is a number below 2 ^ 64; an `int` and a `time.Duration` are
-- their bit patterns, so a negative one is a number from 2 ^ 63 on.
use Prim.Native.Nat.{ℕ, ◌+◌, ◌-◌, ◌*◌, ◌%◌, ◌^◌, ◌<◌}
use mathlib.Core.Path.{◌≡◌}
use native.Mathlib.Omega.{arith}
use mathlib.Core.Bool.{Bool}
use open_gslb.Common.Tests.{ltb, leb, nat_beq, if◌then◌else◌}

abbrev pub word_mod : ℕ
word_mod = 2 ^ 64

abbrev pub half_mod : ℕ
half_mod = 2 ^ 63

abbrev pub add_word : ℕ → ℕ → ℕ
add_word a b = (a + b) % word_mod

abbrev pub mul_word : ℕ → ℕ → ℕ
mul_word a b = (a * b) % word_mod

-- The order of signed integers on their bit patterns.
abbrev pub int_lt : ℕ → ℕ → Bool
int_lt a b = ltb ((a + half_mod) % word_mod) ((b + half_mod) % word_mod)

abbrev pub int_le : ℕ → ℕ → Bool
int_le a b = leb ((a + half_mod) % word_mod) ((b + half_mod) % word_mod)

-- From 0 on, the order of the patterns is that of the numbers.
pub int_le_word : (a b : ℕ) → a < half_mod → b < half_mod → int_le a b ≡ leb a b
int_le_word a b h k = ground arith

pub int_lt_word : (a b : ℕ) → a < half_mod → b < half_mod → int_lt a b ≡ ltb a b
int_lt_word a b h k = ground arith

-- A bit pattern that stands for a number from 0 on.
abbrev pub IsNonneg : ℕ → Type 0
IsNonneg a = a < half_mod

-- `now.Sub(t)`, for times counted in nanoseconds from the zero time and `t` not after `now`. The
-- result saturates at the largest duration.
abbrev pub since : ℕ → ℕ → ℕ
since now t = if ltb (now - t) half_mod then now - t else half_mod - 1

-- `if cfg.Field == 0 { cfg.Field = default }`
abbrev pub default_if_zero : ℕ → ℕ → ℕ
default_if_zero n default = if nat_beq n 0 then default else n
