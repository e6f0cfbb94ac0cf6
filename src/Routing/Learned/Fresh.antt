-- ===== src/Routing/Learned/Fresh.antt =====
-- Which server the learned latency router chooses (pkg/routing/learned_latency.go).
use open_gslb.Common.{
  ℕ, ◌≡◌, ◌≢◌, refl, sym, ◌∙◌, subst, ◌⊎◌, inl, inr, Text, some, false, ◌||◌, List, [], ◌∷◌, arith,
  In, here, there, In-cons, ltb, int_lt, since, ◌==◌, ==_iff, text_eq, Bool-cases, Option-cases,
}
use open_gslb.Routing.Core.{Server, Ip, Context, chosen, KeepsPool}
use open_gslb.Routing.Lowest.{Measured, choose, milliseconds, choose-In}
use open_gslb.Routing.Learned.{
  LearnedLatencyData, LearnedProvider, LearnedLatencyRouter, addr_from_slice, unmap, with_learned,
  lowest_learned, learned_for, learned_decision,
}

-- Data that count: of enough samples, and updated within the threshold.
abbrev pub IsFresh : LearnedLatencyRouter → ℕ → LearnedLatencyData → Type 0
IsFresh r now found =
    (ltb found.sample_count r.min_samples ≡ false)
    × (int_lt r.stale_threshold (since now found.last_updated) ≡ false)

-- A server of the pool whose learned latency counts for the client and the service.
pub record Counts (r : LearnedLatencyRouter) (provider : LearnedProvider) (now : ℕ) (ip : Ip)
    (domain : Text) (s : Server) (latency : ℕ) : Type 0 where
  pub named : domain ≢ []
  pub placed : s.region ≢ []
  pub found : LearnedLatencyData
  pub known : provider ip domain s.region ≡ some found
  pub read : latency ≡ found.ewma
  pub fresh : IsFresh r now found

with_learned-cons :
    (r : LearnedLatencyRouter) (provider : LearnedProvider) (now : ℕ) (ip : Ip) (domain : Text)
    (s : Server) (ss : List Server)
    → let l = λ (servers : List Server).
      with_learned provider r.min_samples r.stale_threshold now ip domain servers in
      (l (s ∷ ss) ≡ l ss)
      ⊎ ((latency : ℕ) × (l (s ∷ ss) ≡ record { server = s; latency = latency } ∷ l ss)
          × Counts r provider now ip domain s latency)
unfolding with_learned
with_learned-cons r provider now ip domain s ss =
    elim (Bool-cases (domain == [] || s.region == [])) [
      | inl unusable ↦ inl (rw unusable)
      | inr usable ↦ elim (Option-cases (provider ip domain s.region)) [
        | inl e ↦ inl (rw (usable, with_learned, e))
        | inr (found, e) ↦
            elim (Bool-cases (
              ltb found.sample_count r.min_samples
              || int_lt r.stale_threshold (since now found.last_updated))) [
                | inl dropped ↦ inl (rw (usable, with_learned, e, dropped))
                | inr fine ↦ inr (
                  found.ewma,
                  rw (usable, with_learned, e, fine),
                  record {
                    named = ground (arith, ==_iff domain []);
                    placed = ground (arith, ==_iff s.region []);
                    found = found;
                    known = e;
                    read = refl;
                    fresh = ground arith;
                  },
                )
              ]
      ]
    ]

with_learned-Counts :
    (r : LearnedLatencyRouter) (provider : LearnedProvider) (now : ℕ) (ip : Ip) (domain : Text)
    (m : Measured) (servers : List Server)
    → In m (with_learned provider r.min_samples r.stale_threshold now ip domain servers)
    → In m.server servers × Counts r provider now ip domain m.server m.latency
unfolding with_learned
with_learned-Counts r provider now ip domain m [] k = elim k [ ]
with_learned-Counts r provider now ip domain m (s ∷ ss) k =
    go (with_learned-cons r provider now ip domain s ss)
      (with_learned-Counts r provider now ip domain m ss)
  where
    entries : List Server → List Measured
    entries = with_learned provider r.min_samples r.stale_threshold now ip domain

    entry_of : ℕ → Measured
    entry_of latency = record { server = s; latency = latency }

    pushed :
        (latency : ℕ) (l : List Measured)
        → (m ≡ entry_of latency) ⊎ In m l
        → Counts r provider now ip domain s latency
        → (In m l → In m.server ss × Counts r provider now ip domain m.server m.latency)
        → In m.server (s ∷ ss) × Counts r provider now ip domain m.server m.latency
    pushed latency l (inl e) c ih =
        subst (λ z. In z.server (s ∷ ss) × Counts r provider now ip domain z.server z.latency)
          (sym e) (here, c)
    pushed latency l (inr n) c ih = let q = ih n in (there q.0, q.1)

    go :
        ((entries (s ∷ ss) ≡ entries ss)
          ⊎ ((latency : ℕ) × (entries (s ∷ ss)
                ≡ record { server = s; latency = latency } ∷ entries ss)
              × Counts r provider now ip domain s latency))
        → (In m (entries ss) → In m.server ss × Counts r provider now ip domain m.server m.latency)
        → In m.server (s ∷ ss) × Counts r provider now ip domain m.server m.latency
    go (inl e) ih = let q = ih (subst (In m) e k) in (there q.0, q.1)
    go (inr (latency, e, c)) ih = pushed latency (entries ss) (In-cons (subst (In m) e k)) c ih

lowest_learned-chosen :
    (limit : ℕ) (servers : List Server) (l : List Measured) (best : Server)
    → lowest_learned limit servers l ≡ chosen best
    → (m : Measured) × In m l × (m.server ≡ best)
unfolding lowest_learned
lowest_learned-chosen limit servers [] best e = cc
lowest_learned-chosen limit servers (m ∷ ms) best e = (choose limit m ms, choose-In limit m ms, cc)

-- Why a server was chosen: the client's address is known, and the data for it count.
pub record IsJustified (r : LearnedLatencyRouter) (now : ℕ) (ctx : Context) (servers : List Server)
    (best : Server) : Type 0 where
  pub ip : Ip
  pub provider : LearnedProvider
  pub client : ctx.client_ip ≡ some ip
  pub source : r.provider ≡ some provider
  pub member : In best servers
  pub latency : ℕ
  pub counts : Counts r provider now (unmap ip) ctx.domain best latency

learned_for-chosen :
    (r : LearnedLatencyRouter) (now : ℕ) (domain : Text) (ip : Ip) (servers : List Server)
    (best : Server)
    → learned_for r now domain ip servers ≡ chosen best
    → (provider : LearnedProvider) × (r.provider ≡ some provider)
      × In best servers
      × ((latency : ℕ) × Counts r provider now (unmap ip) domain best latency)
unfolding learned_for
learned_for-chosen r now domain ip servers best e = elim (Option-cases r.provider) [
  | inl h ↦ cc (h)
  | inr (provider, h) ↦
      let (m, k, same) =
        lowest_learned-chosen (milliseconds r.max_latency_ms) servers
          (with_learned provider r.min_samples r.stale_threshold now (unmap ip) domain servers) best
          (rw (h, learned_for) at e) in
      let (a, c) = with_learned-Counts r provider now (unmap ip) domain m servers k in
      (
        provider,
        h,
        subst (λ s. In s servers) same a,
        (m.latency, subst (λ s. Counts r provider now (unmap ip) domain s m.latency) same c),
      )
]

learned_decision-eq :
    (r : LearnedLatencyRouter) (now : ℕ) (ctx : Context) (servers : List Server) (ip addr : Ip)
    → ctx.client_ip ≡ some ip
    → addr_from_slice ip ≡ some addr
    → (learned_decision r now ctx servers ≡ learned_for r now ctx.domain addr servers)
      × (ctx.client_ip ≡ some addr)
unfolding learned_decision addr_from_slice
learned_decision-eq r now ctx servers ip addr h g = (ground arith, ground arith)

-- If the router chooses a server itself, then that is a server of the pool in a named region, and
-- the provider has learned latency data for the client, the service and the region, of at least
-- `MinSamples` samples and updated within the staleness threshold.
pub learned_decision-IsJustified :
    (r : LearnedLatencyRouter) (now : ℕ) (ctx : Context) (servers : List Server) (best : Server)
    → learned_decision r now ctx servers ≡ chosen best
    → IsJustified r now ctx servers best
unfolding learned_decision
learned_decision-IsJustified r now ctx servers best e = elim (Option-cases ctx.client_ip) [
  | inl h ↦ cc (h)
  | inr (ip, h) ↦ elim (Option-cases (addr_from_slice ip)) [
    | inl g ↦ cc (h, g)
    | inr (addr, g) ↦
        let (provider, source, a, (latency, c)) =
          learned_for-chosen r now ctx.domain addr servers best
            (sym (learned_decision-eq r now ctx servers ip addr h g).0 ∙ e) in
        record {
          ip = addr;
          provider = provider;
          client = (learned_decision-eq r now ctx servers ip addr h g).1;
          source = source;
          member = a;
          latency = latency;
          counts = c;
        }
  ]
]

lowest_learned-KeepsPool :
    (limit : ℕ) (servers : List Server) (l : List Measured)
    → ((m : Measured) → In m l → In m.server servers)
    → KeepsPool servers (lowest_learned limit servers l)
unfolding lowest_learned
lowest_learned-KeepsPool limit servers [] sub = refl
lowest_learned-KeepsPool limit servers (m ∷ ms) sub = sub (choose limit m ms) (choose-In limit m ms)

learned_for-KeepsPool :
    (r : LearnedLatencyRouter) (now : ℕ) (domain : Text) (ip : Ip) (servers : List Server)
    → KeepsPool servers (learned_for r now domain ip servers)
unfolding learned_for
learned_for-KeepsPool r now domain ip servers = elim (Option-cases r.provider) [
  | inl e ↦ rw (e, learned_for) refl
  | inr (provider, e) ↦
      rw (e, learned_for)
        (lowest_learned-KeepsPool (milliseconds r.max_latency_ms) servers
          (with_learned provider r.min_samples r.stale_threshold now (unmap ip) domain servers)
          (λ m k. (with_learned-Counts r provider now (unmap ip) domain m servers k).0))
]

-- The learned latency router answers from its pool, or asks its fallback with that pool.
pub learned_decision-KeepsPool :
    (r : LearnedLatencyRouter) (now : ℕ) (ctx : Context) (servers : List Server)
    → KeepsPool servers (learned_decision r now ctx servers)
unfolding learned_decision
learned_decision-KeepsPool r now ctx servers = elim (Option-cases ctx.client_ip) [
  | inl e ↦ rw (e, learned_decision) refl
  | inr (ip, e) ↦ elim (Option-cases (addr_from_slice ip)) [
    | inl g ↦ rw (e, learned_decision, g) refl
    | inr (addr, g) ↦
        rw ((learned_decision-eq r now ctx servers ip addr e g).0)
          (learned_for-KeepsPool r now ctx.domain addr servers)
  ]
]
