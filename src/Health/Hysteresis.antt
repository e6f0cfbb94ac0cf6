-- ===== src/Health/Hysteresis.antt =====
-- How many results in a row it takes to change a server's status (pkg/health/status.go).
use mathlib.Core.List.{reverse, reverse-cons}
use open_gslb.Common.{
  ℕ, ◌+◌, ◌≤◌, ◌<◌, ◌≡◌, refl, true, List, [], ◌∷◌, ◌++◌, arith, Text, length, half_mod, leb, ◌&&◌,
  if◌then◌else◌,
}
use open_gslb.Health.{
  Status, unknown, healthy, unhealthy, CheckResult, ServerHealth, new_server_health, record_result,
  record_all,
}

-- A history has its newest result first. The results of one kind that end it:
unfoldable pub pass_run : List CheckResult → ℕ
pass_run [] = 0
pass_run (r ∷ h) = if r.passed then pass_run h + 1 else 0

unfoldable pub fail_run : List CheckResult → ℕ
fail_run [] = 0
fail_run (r ∷ h) = if r.passed then 0 else fail_run h + 1

-- The status that a history deserves, with no state: that of the last run which was long enough.
unfoldable pub verdict : ℕ → ℕ → List CheckResult → Status
unfolding pass_run fail_run
verdict f p [] = unknown
verdict f p (r ∷ h) =
    let before = verdict f p h in
    if r.passed && leb p (pass_run (r ∷ h))
    then healthy
    else if leb f (fail_run (r ∷ h))
    then unhealthy
    else before

record Tracks (f p : ℕ) (h : List CheckResult) (sh : ServerHealth) : Type 0 where
  fails : sh.fail_threshold ≡ f
  passes : sh.pass_threshold ≡ p
  fails_counted : sh.consecutive_fails ≡ fail_run h
  passes_counted : sh.consecutive_passes ≡ pass_run h
  fails_bound : fail_run h ≤ length h
  passes_bound : pass_run h ≤ length h
  judged : sh.status ≡ verdict f p h

record_all-append :
    (sh : ServerHealth) (rs : List CheckResult) (r : CheckResult)
    → record_all sh (rs ++ r ∷ []) ≡ (record_result (record_all sh rs) r).0
unfolding record_all
record_all-append sh [] r = refl
record_all-append sh (q ∷ rs) r = record_all-append (record_result sh q).0 rs r

record_result-Tracks :
    (f p : ℕ) (h : List CheckResult) (sh : ServerHealth) (r : CheckResult)
    → 0 < f
    → f < half_mod
    → 0 < p
    → p < half_mod
    → length (r ∷ h) < half_mod
    → Tracks f p h sh
    → Tracks f p (r ∷ h) (record_result sh r).0
unfolding record_result verdict
record_result-Tracks f p h sh r f0 fs p0 ps short t = ground arith

record_all-Tracks :
    (f p : ℕ) (address : Text) (h : List CheckResult)
    → 0 < f
    → f < half_mod
    → 0 < p
    → p < half_mod
    → length h < half_mod
    → Tracks f p h (record_all (new_server_health address f p) (reverse h))
unfolding record_all new_server_health pass_run fail_run verdict
record_all-Tracks f p address [] f0 fs p0 ps short = ground arith
record_all-Tracks f p address (r ∷ h) f0 fs p0 ps short =
    rw (reverse-cons r h, record_all-append _ (reverse h) r)
      (record_result-Tracks f p h _ r f0 fs p0 ps short
        (record_all-Tracks f p address h f0 fs p0 ps (omega arith)))

-- A tracker with positive thresholds f and p that has recorded a history of fewer than 2 ^ 63
-- results, oldest first, has the status that `verdict` reads off the history, and its counters are
-- the lengths of the runs that end the history.
pub record_all-verdict :
    (f p : ℕ) (address : Text) (h : List CheckResult)
    → 0 < f
    → f < half_mod
    → 0 < p
    → p < half_mod
    → length h < half_mod
    → let sh = record_all (new_server_health address f p) (reverse h) in
      (sh.status ≡ verdict f p h)
      × (sh.consecutive_passes ≡ pass_run h)
      × (sh.consecutive_fails ≡ fail_run h)
record_all-verdict f p address h f0 fs p0 ps short =
    let t = record_all-Tracks f p address h f0 fs p0 ps short in
    (t.judged, t.passes_counted, t.fails_counted)

abbrev pub AllPass : List CheckResult → Type 0
AllPass [] = Unit
AllPass (r ∷ rs) = (r.passed ≡ true) × AllPass rs

record_result-passing :
    (sh : ServerHealth) (r : CheckResult)
    → r.passed ≡ true
    → sh.consecutive_passes + 1 < half_mod
    → let next = (record_result sh r).0 in
      (next.consecutive_passes ≡ sh.consecutive_passes + 1)
      × (next.pass_threshold ≡ sh.pass_threshold)
      × (sh.status ≡ healthy → next.status ≡ healthy)
      × (sh.pass_threshold < half_mod
          → sh.pass_threshold ≤ sh.consecutive_passes + 1
          → next.status ≡ healthy)
unfolding record_result
record_result-passing sh r pass short = ground arith

record_all-stays_healthy :
    (sh : ServerHealth) (rs : List CheckResult)
    → sh.status ≡ healthy
    → AllPass rs
    → sh.consecutive_passes + length rs < half_mod
    → (record_all sh rs).status ≡ healthy
unfolding record_all
record_all-stays_healthy sh [] ok all short = ok
record_all-stays_healthy sh (r ∷ rs) ok all short =
    let s = record_result-passing sh r all.0 (omega arith) in
    record_all-stays_healthy (record_result sh r).0 rs (s.2 ok) all.1 (omega (arith, s.0))

record_all-passing :
    (sh : ServerHealth) (rs : List CheckResult)
    → sh.pass_threshold < half_mod
    → AllPass rs
    → 0 < length rs
    → sh.pass_threshold ≤ sh.consecutive_passes + length rs
    → sh.consecutive_passes + length rs < half_mod
    → (record_all sh rs).status ≡ healthy
unfolding record_all
record_all-passing sh [] ps all some_left enough short = absurd (omega arith)
record_all-passing sh (r ∷ []) ps all some_left enough short =
    (record_result-passing sh r all.0 (omega arith)).3 ps (omega arith)
record_all-passing sh (r ∷ q ∷ rs) ps all some_left enough short =
    let s = record_result-passing sh r all.0 (omega arith) in
    record_all-passing (record_result sh r).0 (q ∷ rs) (omega (arith, s.1)) all.1 (omega arith)
      (omega (arith, s.0, s.1)) (omega (arith, s.0))

record_result-tolerates :
    (sh : ServerHealth) (r : CheckResult) (rs : List CheckResult)
    → sh.fail_threshold < half_mod
    → sh.status ≡ healthy
    → sh.consecutive_fails + length (r ∷ rs) < sh.fail_threshold
    → let next = (record_result sh r).0 in
      (next.fail_threshold < half_mod)
      × (next.status ≡ healthy)
      × (next.consecutive_fails + length rs < next.fail_threshold)
unfolding record_result
record_result-tolerates sh r rs fs ok few = ground arith

-- From any state, results that all pass and are at least as many as the pass threshold make the
-- server healthy, if the passes counted so far and these stay below 2 ^ 63.
pub record_all_recovers :
    (sh : ServerHealth) (rs : List CheckResult)
    → 0 < sh.pass_threshold
    → sh.pass_threshold < half_mod
    → AllPass rs
    → sh.pass_threshold ≤ length rs
    → sh.consecutive_passes + length rs < half_mod
    → (record_all sh rs).status ≡ healthy
record_all_recovers sh rs p0 ps all enough short =
    record_all-passing sh rs ps all (omega arith) (omega arith) short

-- A healthy server stays healthy over any results that are too few for the fail threshold: fewer
-- than `fail_threshold` together with the failures counted so far.
pub record_all_tolerates :
    (sh : ServerHealth) (rs : List CheckResult)
    → sh.fail_threshold < half_mod
    → sh.status ≡ healthy
    → sh.consecutive_fails + length rs < sh.fail_threshold
    → (record_all sh rs).status ≡ healthy
unfolding record_all
record_all_tolerates sh [] fs ok few = ok
record_all_tolerates sh (r ∷ rs) fs ok few =
    let s = record_result-tolerates sh r rs fs ok few in
    record_all_tolerates (record_result sh r).0 rs s.0 s.1 s.2
