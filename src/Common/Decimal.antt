-- ===== src/Common/Decimal.antt =====
-- Numbers as text: `%d` of `fmt.Sprintf`, and `strconv.Atoi`.
use open_gslb.Common.Tests.{ltb, leb, nat_beq, if◌then◌else◌, Bool-cases}
use open_gslb.Common.Equality.{Text}
use open_gslb.Common.Words.{half_mod, word_mod}
use Prim.Native.Nat.{ℕ, zero, suc, ◌+◌, ◌-◌, ◌*◌, ◌/◌, ◌%◌, ◌≤◌, ◌<◌}
use mathlib.Core.Path.{◌≡◌, ap}
use mathlib.Core.Logic.{◌≢◌, inl, inr}
use mathlib.Core.Bool.{Bool, true, false, ◌&&◌}
use mathlib.Core.Option.{Option, none, some}
use mathlib.Core.List.{[], ◌∷◌}
use native.Mathlib.Omega.{arith}

-- The digits of `n` before `rest`; `suc n` is enough fuel, since every round divides by ten.
digits_before : ℕ → ℕ → Text → Text
digits_before zero n rest = rest
digits_before (suc f) n rest =
    let more = digits_before f (n / 10) ((b'0' + n % 10) ∷ rest) in
    if ltb n 10 then (b'0' + n) ∷ rest else more

decimal : ℕ → Text
unfolding digits_before
decimal n = digits_before (suc n) n []

unfoldable pub itoa : ℕ → Text
unfolding decimal
itoa n = if ltb n half_mod then decimal n else b'-' ∷ decimal (word_mod - n)

abbrev is_digit : ℕ → Bool
is_digit c = leb b'0' c && leb c b'9'

unfoldable pub digits_value : ℕ → Text → Option ℕ
digits_value v [] = some v
digits_value v (c ∷ cs) =
    let rest = digits_value (v * 10 + (c - b'0')) cs in if is_digit c then rest else none

abbrev in_range : Bool → Option ℕ → Option ℕ
in_range negative none = none
in_range true (some v) = if leb v half_mod then some ((word_mod - v) % word_mod) else none
in_range false (some v) = if ltb v half_mod then some v else none

-- The digits behind the sign; there has to be one.
unsigned : Bool → Text → Option ℕ
unsigned negative [] = none
unsigned negative (c ∷ cs) = in_range negative (digits_value 0 (c ∷ cs))

unfoldable pub atoi : Text → Option ℕ
unfolding unsigned
atoi [] = none
atoi (c ∷ cs) =
    if nat_beq c b'-'
    then unsigned true cs
    else if nat_beq c b'+'
    then unsigned false cs
    else unsigned false (c ∷ cs)

digits_value-digits_before :
    (f n : ℕ) (rest : Text) → n < f → digits_value 0 (digits_before f n rest) ≡ digits_value n rest
unfolding digits_before digits_value
digits_value-digits_before zero n rest h = elim h [ ]
digits_value-digits_before (suc f) n rest h = ground (
  arith,
  digits_value-digits_before f (n / 10) ((b'0' + n % 10) ∷ rest),
  ap (λ (k : ℕ). digits_value k rest) (split_ten n),
)
  where
    split_ten : (k : ℕ) → k / 10 * 10 + (b'0' + k % 10 - b'0') ≡ k
    split_ten k = omega arith

-- The text `t` does not hold the byte `c`.
abbrev pub Lacks : ℕ → Text → Type 0
Lacks c [] = Unit
Lacks c (x ∷ xs) = (x ≢ c) × Lacks c xs

digits_before-Lacks :
    (f n : ℕ) (rest : Text) → Lacks b':' rest → Lacks b':' (digits_before f n rest)
unfolding digits_before
digits_before-Lacks zero n rest h = h
digits_before-Lacks (suc f) n rest h = elim (Bool-cases (ltb n 10)) [
  | inl last ↦ rw last (ground arith, h)
  | inr more ↦ rw more (digits_before-Lacks f (n / 10) ((b'0' + n % 10) ∷ rest) (omega arith, h))
]

decimal-Lacks : (n : ℕ) → Lacks b':' (decimal n)
unfolding decimal
decimal-Lacks n = digits_before-Lacks (suc n) n [] tt

pub itoa-Lacks : (n : ℕ) → Lacks b':' (itoa n)
unfolding itoa
itoa-Lacks n = elim (Bool-cases (ltb n half_mod)) [
  | inl plain ↦ rw plain (decimal-Lacks n)
  | inr signed ↦ rw signed (omega arith, decimal-Lacks (word_mod - n))
]

-- A number prints as a digit and what follows.
abbrev StartsWithDigit : Text → Type 0
StartsWithDigit t = (c : ℕ) × (cs : Text) × (t ≡ c ∷ cs) × (is_digit c ≡ true)

digits_before-StartsWithDigit :
    (f n : ℕ) (rest : Text) → n < f → StartsWithDigit (digits_before f n rest)
unfolding digits_before
digits_before-StartsWithDigit zero n rest h = elim h [ ]
digits_before-StartsWithDigit (suc f) n rest h = elim (Bool-cases (ltb n 10)) [
  | inl last ↦ (b'0' + n, rest, rw last, ground arith)
  | inr more ↦
      rw more (digits_before-StartsWithDigit f (n / 10) ((b'0' + n % 10) ∷ rest) (ground arith))
]

digits_value-decimal : (n : ℕ) → digits_value 0 (decimal n) ≡ some n
unfolding decimal digits_value
digits_value-decimal n = digits_value-digits_before (suc n) n [] (omega arith)

decimal-StartsWithDigit : (n : ℕ) → StartsWithDigit (decimal n)
unfolding decimal
decimal-StartsWithDigit n = digits_before-StartsWithDigit (suc n) n [] (omega arith)

atoi_of_digits :
    (n : ℕ) (t : Text)
    → StartsWithDigit t
    → digits_value 0 t ≡ some n
    → n < half_mod
    → atoi t ≡ some n
unfolding atoi
atoi_of_digits n t (c, cs, e, d) v h = rw e (ground (arith, ap (digits_value 0) e))

atoi_of_negative :
    (n : ℕ) (t : Text)
    → StartsWithDigit t
    → digits_value 0 t ≡ some (word_mod - n)
    → half_mod ≤ n
    → n < word_mod
    → atoi (b'-' ∷ t) ≡ some n
unfolding atoi
atoi_of_negative n t (c, cs, e, d) v h k = rw e (ground (arith, ap (digits_value 0) e))

-- What `%d` prints of a 64-bit integer, `Atoi` reads back.
pub atoi-itoa : (n : ℕ) → n < word_mod → atoi (itoa n) ≡ some n
unfolding itoa
atoi-itoa n h = elim (Bool-cases (ltb n half_mod)) [
  | inl plain ↦ rw plain (
      atoi_of_digits n (decimal n) (decimal-StartsWithDigit n) (digits_value-decimal n)
        (ground arith))
  | inr signed ↦ rw signed (
      atoi_of_negative n (decimal (word_mod - n)) (decimal-StartsWithDigit (word_mod - n))
        (digits_value-decimal (word_mod - n)) (ground arith) h)
]
