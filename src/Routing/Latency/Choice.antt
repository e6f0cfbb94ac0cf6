-- ===== src/Routing/Latency/Choice.antt =====
-- Which server the latency router chooses (pkg/routing/latency.go).
use open_gslb.Common.{
  ℕ, ◌≡◌, refl, sym, subst, some, Bool, true, false, List, [], ◌∷◌, In, here, there, int_lt, int_le,
  if◌then◌else◌, Option-cases, inl, inr, ◌⊎◌,
}
use open_gslb.Routing.Core.{Server, chosen, StaysIn}
use open_gslb.Routing.Lowest.{
  Measured, choose, milliseconds, within, choose-In, choose-within, choose_otherwise,
}
use open_gslb.Routing.Latency.{
  Provider, LatencyRouter, is_measured, with_latency, lowest_latency, latency_decision,
}

-- An entry of `withLatency` is a server of the pool whose data count, with its smoothed latency.
abbrev IsEntry : Provider → ℕ → List Server → Measured → Type 0
IsEntry provider n servers m =
    In m.server servers
    × (is_measured n (provider m.server.address m.server.port) ≡ true)
    × (m.latency ≡ (provider m.server.address m.server.port).smoothed)

In-push :
    {m x : Measured} (b : Bool) (xs : List Measured)
    → In m (if b then x ∷ xs else xs)
    → (In m xs) ⊎ ((m ≡ x) × (b ≡ true))
In-push true xs here = inr (refl, refl)
In-push true xs (there n) = inl n
In-push false xs n = inl n

with_latency-IsEntry :
    (provider : Provider) (n : ℕ) (m : Measured) (servers : List Server)
    → In m (with_latency provider n servers)
    → IsEntry provider n servers m
unfolding with_latency
with_latency-IsEntry provider n m [] k = elim k [ ]
with_latency-IsEntry provider n m (s ∷ ss) k =
    elim (In-push (is_measured n (provider s.address s.port)) (with_latency provider n ss) k) [
      | inl later ↦ let (a, b, c) = with_latency-IsEntry provider n m ss later in (there a, b, c)
      | inr (e, ok) ↦ rw e (here, ok, refl)
    ]

In-pushed :
    {m : Measured} (x : Measured) (b : Bool) (xs : List Measured)
    → In m xs
    → In m (if b then x ∷ xs else xs)
In-pushed x true xs n = there n
In-pushed x false xs n = n

abbrev entry_of : Provider → Server → Measured
entry_of provider s = record { server = s; latency = (provider s.address s.port).smoothed }

In-with_latency :
    (provider : Provider) (n : ℕ) (s : Server) (servers : List Server)
    → In s servers
    → is_measured n (provider s.address s.port) ≡ true
    → In (entry_of provider s) (with_latency provider n servers)
unfolding with_latency
In-with_latency provider n s [] k ok = elim k [ ]
In-with_latency provider n s (x ∷ ss) here ok = rw ok here
In-with_latency provider n s (x ∷ ss) (there k) ok =
    In-pushed (entry_of provider x) (is_measured n (provider x.address x.port))
      (with_latency provider n ss) (In-with_latency provider n s ss k ok)

abbrev pub Counts : LatencyRouter → Provider → Server → Type 0
Counts r provider s = is_measured r.min_samples (provider s.address s.port) ≡ true

abbrev pub smoothed_of : Provider → Server → ℕ
smoothed_of provider s = (provider s.address s.port).smoothed

-- The threshold as it is used, and whether a server meets it.
abbrev pub limit_of : LatencyRouter → ℕ
limit_of r = milliseconds r.max_latency_ms

abbrev pub Meets : LatencyRouter → Provider → Server → Type 0
Meets r provider s = int_le (smoothed_of provider s) (limit_of r) ≡ true

-- Case rule: there are entries, and the decision is the choice among them.
decided :
    (r : LatencyRouter) (provider : Provider) (servers : List Server) (s : Server)
    → r.provider ≡ some provider
    → In s servers
    → Counts r provider s
    → (m : Measured) × (ms : List Measured) × (with_latency provider r.min_samples servers ≡ m ∷ ms)
      × (latency_decision r servers ≡ chosen (choose (limit_of r) m ms).server)
unfolding latency_decision
decided r provider servers s e k ok =
    go (with_latency provider r.min_samples servers) refl
      (In-with_latency provider r.min_samples s servers k ok)
  where
    go :
        (l : List Measured)
        → with_latency provider r.min_samples servers ≡ l
        → In (entry_of provider s) l
        → (m : Measured) × (ms : List Measured) × (with_latency provider r.min_samples servers
            ≡ m ∷ ms)
          × (latency_decision r servers ≡ chosen (choose (limit_of r) m ms).server)
    go [] h n = elim n [ ]
    go (m ∷ ms) h n = (m, ms, h, rw (e, latency_decision, h))

-- The same for every threshold: where the server meets a positive one, so does the choice.
latency_decision_measured :
    (r : LatencyRouter) (provider : Provider) (servers : List Server) (s : Server)
    → r.provider ≡ some provider
    → In s servers
    → Counts r provider s
    → (best : Server) × (latency_decision r servers ≡ chosen best)
      × In best servers
      × Counts r provider best
      × (int_lt 0 (limit_of r) ≡ true
          → Meets r provider s
          → Meets r provider best
            × (int_le (smoothed_of provider best) (smoothed_of provider s) ≡ true))
latency_decision_measured r provider servers s e k ok =
    let (m, ms, h, d) = decided r provider servers s e k ok in
    let entry = In-with_latency provider r.min_samples s servers k ok in
    let best = choose (limit_of r) m ms in
    let (a, b, c) =
      with_latency-IsEntry provider r.min_samples best servers
        (subst (In best) (sym h) (choose-In (limit_of r) m ms)) in
    (
      best.server,
      d,
      a,
      b,
      λ on ok_limit.
          let w =
            choose-within (limit_of r) m ms (entry_of provider s) on
              (subst (In (entry_of provider s)) h entry) ok_limit in
          (
            subst (λ l. int_le l (limit_of r) ≡ true) c w.1,
            subst (λ l. int_le l (smoothed_of provider s) ≡ true) c w.2,
          ),
    )

none_within :
    (r : LatencyRouter) (provider : Provider) (servers : List Server)
    → ((t : Server)
        → In t servers
        → Counts r provider t
        → int_le (smoothed_of provider t) (limit_of r) ≡ false)
    → (z : Measured) → IsEntry provider r.min_samples servers z
    → within (limit_of r) z ≡ false
none_within r provider servers above z (a, b, c) =
    subst (λ l. int_le l (limit_of r) ≡ false) (sym c) (above z.server a b)

-- If the router has a provider, and a server of the pool has data of enough samples and meets a
-- positive threshold, then the router decides for a server of the pool that has such data, meets the
-- threshold, and has a smoothed latency that is no higher.
pub latency_decision_within :
    (r : LatencyRouter) (provider : Provider) (servers : List Server) (s : Server)
    → r.provider ≡ some provider
    → In s servers
    → Counts r provider s
    → int_lt 0 (limit_of r) ≡ true
    → Meets r provider s
    → (best : Server) × (latency_decision r servers ≡ chosen best)
      × In best servers
      × Counts r provider best
      × Meets r provider best
      × (int_le (smoothed_of provider best) (smoothed_of provider s) ≡ true)
latency_decision_within r provider servers s e k ok positive meets =
    let (best, decision, member, measured, lower) =
      latency_decision_measured r provider servers s e k ok in
    (best, decision, member, measured, (lower positive meets).0, (lower positive meets).1)

-- If the router has a provider and a server of the pool has data of enough samples, and the threshold
-- is not positive or no server with such data meets it, then the router decides for a server with
-- such data whose smoothed latency is no higher than that server's.
pub latency_decision_otherwise :
    (r : LatencyRouter) (provider : Provider) (servers : List Server) (s : Server)
    → r.provider ≡ some provider
    → In s servers
    → Counts r provider s
    → (int_lt 0 (limit_of r) ≡ false)
      ⊎ ((t : Server)
          → In t servers
          → Counts r provider t
          → int_le (smoothed_of provider t) (limit_of r) ≡ false)
    → (best : Server) × (latency_decision r servers ≡ chosen best)
      × In best servers
      × Counts r provider best
      × (int_le (smoothed_of provider best) (smoothed_of provider s) ≡ true)
latency_decision_otherwise r provider servers s e k ok none_meets =
    let (m, ms, h, d) = decided r provider servers s e k ok in
    let entry = In-with_latency provider r.min_samples s servers k ok in
    let best = choose (limit_of r) m ms in
    let inspect = λ (z : Measured) (n : In z (m ∷ ms)).
      with_latency-IsEntry provider r.min_samples z servers (subst (In z) (sym h) n) in
    let (a, b, c) = inspect best (choose-In (limit_of r) m ms) in
    (
      best.server,
      d,
      a,
      b,
      subst (λ l. int_le l (smoothed_of provider s) ≡ true) c
          (choose_otherwise (limit_of r) m ms (entry_of provider s) (either none_meets inspect)
            (subst (In (entry_of provider s)) h entry)),
    )
  where
    either :
        {ms : List Measured}
        → (int_lt 0 (limit_of r) ≡ false)
          ⊎ ((t : Server)
              → In t servers
              → Counts r provider t
              → int_le (smoothed_of provider t) (limit_of r) ≡ false)
        → ((z : Measured) → In z ms → IsEntry provider r.min_samples servers z)
        → (int_lt 0 (limit_of r) ≡ false)
          ⊎ ((z : Measured) → In z ms → within (limit_of r) z ≡ false)
    either (inl off) inspect = inl off
    either (inr above) inspect = inr (λ z n. none_within r provider servers above z (inspect z n))

lowest_latency-StaysIn :
    (limit : ℕ) (provider : Provider) (n : ℕ) (s : Server) (ss : List Server) (l : List Measured)
    → ((m : Measured) → In m l → In m.server (s ∷ ss))
    → StaysIn (s ∷ ss) (lowest_latency limit (s ∷ ss) l)
unfolding lowest_latency
lowest_latency-StaysIn limit provider n s ss [] sub = λ t k. k
lowest_latency-StaysIn limit provider n s ss (m ∷ ms) sub =
    sub (choose limit m ms) (choose-In limit m ms)

-- The latency router stays inside its pool.
pub latency_decision-StaysIn :
    (r : LatencyRouter) (s : Server) (ss : List Server)
    → StaysIn (s ∷ ss) (latency_decision r (s ∷ ss))
unfolding latency_decision
latency_decision-StaysIn r s ss = elim (Option-cases r.provider) [
  | inl e ↦ rw (e, latency_decision) (λ t k. k)
  | inr (provider, e) ↦
      rw (e, latency_decision)
        (lowest_latency-StaysIn (limit_of r) provider r.min_samples s ss
          (with_latency provider r.min_samples (s ∷ ss))
          (λ m k. (with_latency-IsEntry provider r.min_samples m (s ∷ ss) k).0))
]
