-- ===== src/Common/Equality.antt =====
-- Equality tests as an interface, and the one on texts. A Go string is its list of bytes.
use Prim.Native.Nat.{ℕ}
use Prim.Native.Char.{code}
use Prim.Native.String.{String}
use mathlib.Core.Path.{◌≡◌, refl}
use mathlib.Core.Logic.{◌↔◌}
use mathlib.Core.Bool.{Bool, true, false, ◌&&◌}
use mathlib.Core.List.{List, [], ◌∷◌}
use native.Mathlib.Omega.{arith}
use open_gslb.Common.Tests.{nat_beq, nat_beq_iff}

-- A type whose values Go compares with its own operator.
pub record Comparable {ℓ} (K : Type ℓ) : Type ℓ where
  pub equals : K → K → Bool
  pub equals_iff : (x y : K) → (equals x y ≡ true) ↔ (x ≡ y)

infix 50 ◌==◌
abbrev pub ◌==◌ {ℓ} : {K : Type ℓ} ⦃cmp : Comparable K⦄ → K → K → Bool
◌==◌ ⦃cmp⦄ = cmp.equals

pub ==_iff {ℓ} : {K : Type ℓ} ⦃cmp : Comparable K⦄ (x y : K) → ((x == y) ≡ true) ↔ (x ≡ y)
==_iff ⦃cmp⦄ = cmp.equals_iff

instance abbrev pub nat_eq : Comparable ℕ
nat_eq = record { equals = nat_beq; equals_iff = nat_beq_iff }

abbrev pub Text : Type 0
Text = List ℕ

-- The bytes of a literal, all of which are ASCII here.
abbrev pub codes : String → Text
codes String.[] = []
codes (String.◌∷◌ first others) = code first ∷ codes others

unfoldable pub text_beq : Text → Text → Bool
text_beq [] [] = true
text_beq (x ∷ left) (y ∷ right) = nat_beq x y && text_beq left right
text_beq _ _ = false

text_beq_sound : (a b : Text) → text_beq a b ≡ true → a ≡ b
unfolding text_beq
text_beq_sound [] [] h = refl
text_beq_sound [] (y ∷ ys) h = cc
text_beq_sound (x ∷ xs) [] h = cc
text_beq_sound (x ∷ xs) (y ∷ ys) h = ground (arith, text_beq_sound xs ys)

text_beq_refl : (a b : Text) → a ≡ b → text_beq a b ≡ true
unfolding text_beq
text_beq_refl [] [] h = refl
text_beq_refl [] (y ∷ ys) h = cc
text_beq_refl (x ∷ xs) [] h = cc
text_beq_refl (x ∷ xs) (y ∷ ys) h = ground (arith, text_beq_refl xs ys)

pub text_beq_iff : (a b : Text) → (text_beq a b ≡ true) ↔ (a ≡ b)
text_beq_iff a b = (text_beq_sound a b, text_beq_refl a b)

instance abbrev pub text_eq : Comparable Text
text_eq = record { equals = text_beq; equals_iff = text_beq_iff }

pub pair_iff {ℓ κ} :
    {A : Type ℓ} {B : Type κ} ⦃left : Comparable A⦄ ⦃right : Comparable B⦄ (p q : A × B)
    → ((p.0 == q.0 && p.1 == q.1) ≡ true) ↔ (p ≡ q)
pair_iff (a, b) (c, d) = ground (arith, ==_iff a c, ==_iff b d)

instance abbrev pub pair_eq {ℓ κ} :
    {A : Type ℓ} {B : Type κ} ⦃left : Comparable A⦄ ⦃right : Comparable B⦄ → Comparable (A × B)
pair_eq = record { equals = λ p q. p.0 == q.0 && p.1 == q.1; equals_iff = pair_iff }
