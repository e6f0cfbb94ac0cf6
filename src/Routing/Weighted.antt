-- ===== src/Routing/Weighted.antt =====
-- pkg/routing/weighted.go. The draw of `rand.Intn` is an argument: what the source says of `n`
-- points it returns one, a number below `n` (and it panics if `n` is not positive).
use native.Mathlib.Nat.{zero-add}
use open_gslb.Common.{here, there}
use open_gslb.Common.{
  ℕ, zero, suc, ◌+◌, ◌≤◌, ◌<◌, ◌≡◌, refl, List, [], ◌∷◌, arith, length, get_elem?, half_mod,
  word_mod, add_word, int_lt, int_le, nat_beq, if◌then◌else◌, some, some-injective, ap, ◌∙◌,
  Bool-cases, inl, inr, In,
}
use open_gslb.Routing.Core.{
  Server, Outcome, routed, no_healthy_servers, panicked, IsRoutedIn, IsSound,
}

-- A weight that is not positive counts as 1.
unfoldable pub effective_weight : Server → ℕ
effective_weight s = if int_le s.weight 0 then 1 else s.weight

-- The first loop, on an `int`.
unfoldable pub total_weight : ℕ → List Server → ℕ
total_weight total [] = total
total_weight total (s ∷ ss) = total_weight (add_word total (effective_weight s)) ss

-- The second loop; behind it stands the fallback.
unfoldable pub pick : ℕ → ℕ → Outcome → List Server → Outcome
pick point cumulative fallback [] = fallback
pick point cumulative fallback (s ∷ ss) =
    let reached = add_word cumulative (effective_weight s) in
    let rest = pick point reached fallback ss in if int_lt point reached then routed s else rest

-- `servers[len(servers)-1]`
unfoldable pub last_server : Server → List Server → Server
last_server s [] = s
last_server s (t ∷ ss) = last_server t ss

unfoldable pub weighted : (ℕ → ℕ) → List Server → Outcome
weighted intn [] = no_healthy_servers
weighted intn (s ∷ ss) =
    let total = total_weight 0 (s ∷ ss) in
    if nat_beq total 0
    then no_healthy_servers
    else if int_le total 0
    then panicked
    else pick (intn total) 0 (routed (last_server s ss)) (s ∷ ss)

-- The weight before index `i`, with no wrapping.
unfoldable pub weight_before : ℕ → List Server → ℕ
weight_before zero ss = 0
weight_before (suc i) [] = 0
weight_before (suc i) (s ∷ ss) = effective_weight s + weight_before i ss

abbrev pub sum_weights : List Server → ℕ
sum_weights ss = weight_before (length ss) ss

total_weight-eq-add :
    (total : ℕ) (ss : List Server)
    → total + sum_weights ss < word_mod
    → total_weight total ss ≡ total + sum_weights ss
unfolding total_weight weight_before
total_weight-eq-add total [] h = omega arith
total_weight-eq-add total (s ∷ ss) h =
    total_weight-eq-add (add_word total (effective_weight s)) ss (omega arith) ∙ omega arith

effective_weight_pos : (s : Server) → 0 < effective_weight s
unfolding effective_weight
effective_weight_pos s = ground arith

sum_weights_pos : (s : Server) (ss : List Server) → 0 < sum_weights (s ∷ ss)
unfolding weight_before
sum_weights_pos s ss = omega (arith, effective_weight_pos s)

weight_before-le-sum :
    (i : ℕ) (ss : List Server) (t : Server)
    → get_elem? ss i ≡ some t
    → weight_before i ss + effective_weight t ≤ sum_weights ss
unfolding weight_before
weight_before-le-sum i [] t e = cc
weight_before-le-sum zero (s ∷ ss) t e = omega (arith, ap effective_weight (some-injective s t e))
weight_before-le-sum (suc i) (s ∷ ss) t e = omega (arith, weight_before-le-sum i ss t e)

-- From index `i` on, `cumulative` being the weight before.
pick-selects :
    (point cumulative : ℕ) (fallback : Outcome) (ss : List Server) (i : ℕ) (t : Server)
    → cumulative + sum_weights ss < half_mod
    → get_elem? ss i ≡ some t
    → cumulative + weight_before i ss ≤ point
    → point < cumulative + weight_before i ss + effective_weight t
    → pick point cumulative fallback ss ≡ routed t
unfolding pick weight_before
pick-selects point cumulative fallback [] i t small e lo hi = cc
pick-selects point cumulative fallback (s ∷ ss) zero t small e lo hi =
    let same = some-injective s t e in ground (arith, ap effective_weight same, ap routed same)
pick-selects point cumulative fallback (s ∷ ss) (suc i) t small e lo hi = ground (
  arith,
  pick-selects point (add_word cumulative (effective_weight s)) fallback ss i t,
  weight_before-le-sum i ss t e,
)

weighted-eq-pick :
    (intn : ℕ → ℕ) (s : Server) (ss : List Server)
    → sum_weights (s ∷ ss) < half_mod
    → weighted intn (s ∷ ss)
      ≡ pick (intn (sum_weights (s ∷ ss))) 0 (routed (last_server s ss)) (s ∷ ss)
unfolding weighted
weighted-eq-pick intn s ss small =
    rw (total_weight-eq-add 0 (s ∷ ss) (omega arith), zero-add)
      (ground (arith, sum_weights_pos s ss))

-- If the effective weights add up to less than 2 ^ 63, the point that is drawn below their sum
-- selects the server in whose stretch it falls: the stretch of a server begins at the sum of the
-- weights before it and is as long as its own weight. So of the equally likely points each server
-- has as many as its weight says.
pub weighted_selects :
    (intn : ℕ → ℕ) (s : Server) (ss : List Server) (i : ℕ) (t : Server)
    → let servers = s ∷ ss in
      sum_weights servers < half_mod
      → get_elem? servers i ≡ some t
      → weight_before i servers ≤ intn (sum_weights servers)
      → intn (sum_weights servers) < weight_before i servers + effective_weight t
      → weighted intn servers ≡ routed t
weighted_selects intn s ss i t small e lo hi =
    weighted-eq-pick intn s ss small
    ∙ pick-selects (intn (sum_weights (s ∷ ss))) 0 (routed (last_server s ss)) (s ∷ ss) i t
        (omega arith) e (omega arith) (omega arith)

last_server-In : (s : Server) (ss : List Server) → In (last_server s ss) (s ∷ ss)
unfolding last_server
last_server-In s [] = here
last_server-In s (t ∷ ss) = there (last_server-In t ss)

pick-IsRoutedIn :
    (point cumulative : ℕ) (fallback : Outcome) (all ss : List Server)
    → ((t : Server) → In t ss → In t all)
    → IsRoutedIn all fallback
    → IsRoutedIn all (pick point cumulative fallback ss)
unfolding pick
pick-IsRoutedIn point cumulative fallback all [] sub h = h
pick-IsRoutedIn point cumulative fallback all (s ∷ ss) sub h =
    elim (Bool-cases (int_lt point (add_word cumulative (effective_weight s)))) [
      | inl reached ↦ rw reached (sub s here)
      | inr later ↦ rw later (
          pick-IsRoutedIn point (add_word cumulative (effective_weight s)) fallback all ss
            (λ t m. sub t (there m)) h)
    ]

-- If the effective weights add up to less than 2 ^ 63, the router answers with a server of the pool,
-- whatever is drawn, or refuses because the pool is empty: it never panics.
pub weighted-IsSound :
    (intn : ℕ → ℕ) (servers : List Server)
    → sum_weights servers < half_mod
    → IsSound servers (weighted intn servers)
unfolding weighted
weighted-IsSound intn [] small = refl
weighted-IsSound intn (s ∷ ss) small =
    rw (weighted-eq-pick intn s ss small)
      (pick-IsRoutedIn _ 0 _ (s ∷ ss) (s ∷ ss) (λ t m. m) (last_server-In s ss))
