-- ===== src/Common/Lists.antt =====
-- Lists measured and indexed by native numbers, predicates on their members, and filters by tests.
use Prim.Native.Nat.{ℕ, zero, suc, ◌+◌, ◌≤◌, ◌<◌}
use mathlib.Core.Path.{◌≡◌, refl, subst}
use mathlib.Core.Logic.{◌⊎◌, inl, inr}
use mathlib.Core.Bool.{Bool, true, false}
use mathlib.Core.List.{List, [], ◌∷◌, ◌++◌}
use mathlib.Core.Option.{Option, none, some, some-injective}
use native.Mathlib.Omega.{arith}
use open_gslb.Common.Tests.{if◌then◌else◌}

module _ {ℓ} {A : Type ℓ} where
  abbrev pub length : List A → ℕ
  length [] = 0
  length (x ∷ xs) = suc (length xs)

  abbrev pub get_elem? : List A → ℕ → Option A
  get_elem? [] i = none
  get_elem? (x ∷ xs) zero = some x
  get_elem? (x ∷ xs) (suc i) = get_elem? xs i

  abbrev pub take : ℕ → List A → List A
  take zero xs = []
  take (suc n) [] = []
  take (suc n) (x ∷ xs) = x ∷ take n xs

  abbrev pub drop : ℕ → List A → List A
  drop zero xs = xs
  drop (suc n) [] = []
  drop (suc n) (x ∷ xs) = drop n xs

  -- `for x in xs { if p(x) { out = append(out, x) } }`
  unfoldable pub select : (A → Bool) → List A → List A
  select p [] = []
  select p (x ∷ xs) = let rest = select p xs in if p x then x ∷ rest else rest

  -- A member, with its position.
  pub data In (a : A) : List A → Type ℓ where
    here : {xs : List A} → In a (a ∷ xs)
    there : {x : A} {xs : List A} → In a xs → In a (x ∷ xs)

  pub length-append : (xs ys : List A) → length (xs ++ ys) ≡ length xs + length ys
  length-append [] ys = omega arith
  length-append (x ∷ xs) ys = omega (arith, length-append xs ys)

  pub length-select-le : (p : A → Bool) (xs : List A) → length (select p xs) ≤ length xs
  unfolding select
  length-select-le p [] = omega arith
  length-select-le p (x ∷ xs) = ground (arith, length-select-le p xs)

module _ {ℓ} {A : Type ℓ} where
  pub In-get_elem? : (xs : List A) (i : ℕ) (a : A) → get_elem? xs i ≡ some a → In a xs
  In-get_elem? [] i a h = cc
  In-get_elem? (x ∷ xs) zero a h = subst (λ b. In b (x ∷ xs)) (some-injective _ _ h) here
  In-get_elem? (x ∷ xs) (suc i) a h = there (In-get_elem? xs i a h)

  pub get_elem?-eq-some :
      (xs : List A) (i : ℕ) → i < length xs → (a : A) × (get_elem? xs i ≡ some a)
  get_elem?-eq-some [] i h = elim h [ ]
  get_elem?-eq-some (x ∷ xs) zero h = (x, refl)
  get_elem?-eq-some (x ∷ xs) (suc i) h = get_elem?-eq-some xs i (omega arith)

  pub In-cons : {a x : A} {xs : List A} → In a (x ∷ xs) → (a ≡ x) ⊎ In a xs
  In-cons here = inl refl
  In-cons (there m) = inr m

  In-if :
      {a x : A} (b : Bool) (xs ys : List A)
      → In a (if b then x ∷ xs else xs)
      → (In a xs → In a ys)
      → In a (x ∷ ys)
  In-if true xs ys here f = here
  In-if true xs ys (there m) f = there (f m)
  In-if false xs ys m f = there (f m)

  -- Members of a filtered list are the members that pass.
  pub In-of_select : {a : A} (p : A → Bool) (xs : List A) → In a (select p xs) → In a xs
  unfolding select
  In-of_select p [] m = elim m [ ]
  In-of_select p (x ∷ xs) m = In-if (p x) (select p xs) xs m (In-of_select p xs)

  passes-if :
      {a x : A} (p : A → Bool) (b : Bool) (xs : List A)
      → p x ≡ b
      → In a (if b then x ∷ xs else xs)
      → (In a xs → p a ≡ true)
      → p a ≡ true
  passes-if p true xs e here f = e
  passes-if p true xs e (there m) f = f m
  passes-if p false xs e m f = f m

  pub select_passes : {a : A} (p : A → Bool) (xs : List A) → In a (select p xs) → p a ≡ true
  unfolding select
  select_passes p [] m = elim m [ ]
  select_passes p (x ∷ xs) m = passes-if p (p x) (select p xs) refl m (select_passes p xs)

  In-if_of_tail :
      {a : A} (x : A) (b : Bool) (xs : List A) → In a xs → In a (if b then x ∷ xs else xs)
  In-if_of_tail x true xs m = there m
  In-if_of_tail x false xs m = m

  pub In-select : {a : A} (p : A → Bool) (xs : List A) → In a xs → p a ≡ true → In a (select p xs)
  unfolding select
  In-select p (x ∷ xs) here h = rw h here
  In-select p (x ∷ xs) (there m) h = In-if_of_tail x (p x) (select p xs) (In-select p xs m h)
  In-select p [] m h = elim m [ ]
