-- ===== src/Routing/RoundRobin.antt =====
-- pkg/routing/roundrobin.go and pkg/routing/failover.go.
use native.Mathlib.Nat.{mod-lt, mod-add-mod, mod-eq_of_lt, mod-eq-sub-mod}
use open_gslb.Common.{
  ℕ, suc, ◌+◌, ◌-◌, ◌%◌, ◌≤◌, ◌<◌, ◌≡◌, refl, none, some, List, [], ◌∷◌, In, arith, length,
  get_elem?, In-get_elem?, get_elem?-eq-some, word_mod, add_word, ltb, leb, ap, if◌then◌else◌, ◌∙◌,
  zero,
}
use open_gslb.Routing.Core.{
  Server, Outcome, routed, no_healthy_servers, panicked, IsRoutedIn, IsSound,
}

-- `servers[i]`
unfoldable pub at_index : List Server → ℕ → Outcome
at_index servers i = elim (get_elem? servers i) [ none ↦ panicked | some s ↦ routed s ]

-- The counter is a uint64. `atomic.AddUint64(&counter, 1) - 1` is the value before the call.
unfoldable pub round_robin : ℕ → List Server → ℕ × Outcome
unfolding at_index
round_robin counter [] = (counter, no_healthy_servers)
round_robin counter (s ∷ ss) =
    let next = add_word counter 1 in
    let idx = (next + word_mod - 1) % word_mod in (next, at_index (s ∷ ss) (idx % length (s ∷ ss)))

unfoldable pub failover : List Server → Outcome
failover [] = no_healthy_servers
failover (s ∷ ss) = routed s

at_index-IsRoutedIn :
    (servers : List Server) (i : ℕ) → i < length servers → IsRoutedIn servers (at_index servers i)
unfolding at_index
at_index-IsRoutedIn servers i h =
    let (s, e) = get_elem?-eq-some servers i h in rw (e, at_index) (In-get_elem? servers i s e)

pub round_robin-IsSound :
    (counter : ℕ) (servers : List Server) → IsSound servers (round_robin counter servers).1
unfolding round_robin
round_robin-IsSound counter [] = refl
round_robin-IsSound counter (s ∷ ss) = at_index-IsRoutedIn (s ∷ ss) _ (omega arith)

pub failover-IsSound : (servers : List Server) → IsSound servers (failover servers)
unfolding failover
failover-IsSound [] = refl
failover-IsSound (s ∷ ss) = In.here

-- The counter after `k` calls on a pool.
unfoldable pub counter_after : ℕ → List Server → ℕ → ℕ
counter_after zero servers counter = counter
counter_after (suc k) servers counter = counter_after k servers (round_robin counter servers).0

-- What the call answers that follows `k` calls.
unfoldable pub nth_answer : ℕ → List Server → ℕ → Outcome
unfolding counter_after
nth_answer k servers counter = (round_robin (counter_after k servers counter) servers).1

counter_after-eq-add :
    (k : ℕ) (s : Server) (ss : List Server) (counter : ℕ)
    → counter + k < word_mod
    → counter_after k (s ∷ ss) counter ≡ counter + k
unfolding counter_after round_robin
counter_after-eq-add zero s ss counter h = omega arith
counter_after-eq-add (suc k) s ss counter h =
    counter_after-eq-add k s ss (add_word counter 1) (omega arith) ∙ omega arith

-- A step of the rotation, with no remainder left in it.
abbrev rotate : ℕ → ℕ → ℕ → ℕ
rotate n r k = if ltb (r + k) n then r + k else r + k - n

mod-rotate : (n c k : ℕ) → k < n → (c + k) % n ≡ rotate n (c % n) k
mod-rotate n c k h = ground (
  arith,
  mod-add-mod c n k,
  mod-lt c {m = n},
  mod-eq_of_lt {n = c % n + k} {m = n},
  mod-eq-sub-mod {n = c % n + k} {m = n},
  mod-eq_of_lt {n = c % n + k - n} {m = n},
)

nth_answer-eq-at_index :
    (k : ℕ) (s : Server) (ss : List Server) (counter : ℕ)
    → counter + k < word_mod
    → nth_answer k (s ∷ ss) counter ≡ at_index (s ∷ ss) ((counter + k) % length (s ∷ ss))
unfolding nth_answer round_robin
nth_answer-eq-at_index k s ss counter h =
    rw (counter_after-eq-add k s ss counter h, last_value (counter + k) h)
  where
    last_value : (m : ℕ) → m < word_mod → (add_word m 1 + word_mod - 1) % word_mod ≡ m
    last_value m small = omega arith

-- The call that asks for index `i` when the counter stands at `r` in the rotation.
abbrev turn : ℕ → ℕ → ℕ → ℕ
turn n r i = if leb r i then i - r else n - r + i

mod-turn : (n c i : ℕ) → i < n → (turn n (c % n) i < n) × ((c + turn n (c % n) i) % n ≡ i)
mod-turn n c i h = ground (arith, mod-lt c {m = n}, mod-rotate n c (turn n (c % n) i))

turn_unique : (n c i j : ℕ) → i < n → j < n → (c + j) % n ≡ i → j ≡ turn n (c % n) i
turn_unique n c i j hi hj e = ground (arith, mod-lt c {m = n}, mod-rotate n c j)

-- As many calls in a row as the pool has servers, none of which wraps the counter, serve every index
-- of the pool exactly once: for each index there is one call among them that answers with the server
-- there, and it is the only one whose place in the rotation is that index. The k-th call answers
-- with the server at its place, (counter + k) modulo the size of the pool.
pub round_robin_fair :
    (s : Server) (ss : List Server) (counter i : ℕ)
    → let n = length (s ∷ ss) in
      counter + n ≤ word_mod
      → i < n
      → (k : ℕ) × (k < n)
        × (nth_answer k (s ∷ ss) counter ≡ at_index (s ∷ ss) i)
        × ((j : ℕ)
            → j < n
            → (nth_answer j (s ∷ ss) counter ≡ at_index (s ∷ ss) ((counter + j) % n))
              × ((counter + j) % n ≡ i → j ≡ k))
round_robin_fair s ss counter i small lt =
    let n = length (s ∷ ss) in
    let (below, place) = mod-turn n counter i lt in
    (
      turn n (counter % n) i,
      below,
      nth_answer-eq-at_index (turn n (counter % n) i) s ss counter (omega arith)
          ∙ ap (at_index (s ∷ ss)) place,
      λ j hj.
          (nth_answer-eq-at_index j s ss counter (omega arith), turn_unique n counter i j lt hj),
    )
