-- ===== src/Liveness/Alive.antt =====
-- What the watchdog of internal/liveness/liveness.go promises.
use Prim.Native.Nat.{max}
use panely.Kit.{
  ℕ, ◌+◌, ◌-◌, ◌≡◌, ◌≤◌, ◌↔◌, refl, String, Option, none, List, [], ◌∷◌, leb, ltb, arith, All,
  Bool-cases, Option-cases, inl, inr,
}
use panely.Liveness.Watchdog.{Beat, StaleBeat, mark, stale, report_gap, check, beat}

-- The loop has got on within its limit.
abbrev pub IsFresh : ℕ → Beat → Type 0
IsFresh now b = now ≤ b.last + b.max_age

stale-IsFresh : (now : ℕ) (beats : List Beat) → stale now beats ≡ [] → All (IsFresh now) beats
unfolding stale
stale-IsFresh now [] h = tt
stale-IsFresh now (b ∷ beats) h = elim (Bool-cases (ltb b.max_age (now - b.last))) [
  | inl e ↦ absurd (ground arith)
  | inr e ↦ (ground arith, stale-IsFresh now beats (ground arith))
]

IsFresh-stale : (now : ℕ) (beats : List Beat) → All (IsFresh now) beats → stale now beats ≡ []
unfolding stale
IsFresh-stale now [] h = refl
IsFresh-stale now (b ∷ beats) h = ground (arith, IsFresh-stale now beats h.1, h.0)

check-cases :
    (now : ℕ) (ping : Option String) (beats : List Beat)
    → check now ping beats ≡ none
    → (stale now beats ≡ []) × (ping ≡ none)
unfolding check
check-cases now ping beats h = go (stale now beats) refl
  where
    go : (ss : List StaleBeat) → stale now beats ≡ ss → (stale now beats ≡ []) × (ping ≡ none)
    go (s ∷ ss) e = absurd (ground arith)
    go [] e = elim (Option-cases ping) [ inl q ↦ (e, q) | inr (x, q) ↦ absurd (ground arith) ]

check-fresh :
    (now : ℕ) (ping : Option String) (beats : List Beat)
    → stale now beats ≡ []
    → ping ≡ none
    → check now ping beats ≡ none
unfolding check
check-fresh now ping beats e q = ground arith

-- A turn of the watchdog tells systemd that the daemon is alive exactly if the store has answered the ping and every
-- registered loop has got on within its limit.
pub beat-IsFresh :
    (now : ℕ) (ping : Option String) (beats : List Beat) (sent : ℕ)
    → (beat now ping beats sent ≡ sent + 1) ↔ ((ping ≡ none) × All (IsFresh now) beats)
unfolding beat
beat-IsFresh now ping beats sent = (to, from)
  where
    to : beat now ping beats sent ≡ sent + 1 → (ping ≡ none) × All (IsFresh now) beats
    to h = elim (Option-cases (check now ping beats)) [
      | inr (p, e) ↦ absurd (ground arith)
      | inl e ↦ let (s, q) = check-cases now ping beats e in (q, stale-IsFresh now beats s)
    ]

    from : (ping ≡ none) × All (IsFresh now) beats → beat now ping beats sent ≡ sent + 1
    from (q, h) = ground (arith, check-fresh now ping beats (IsFresh-stale now beats h) q)

-- The marks of a loop, in their order.
abbrev pub marks : List ℕ → Beat → Beat
marks [] b = b
marks (t ∷ ts) b = marks ts (mark t b)

-- The widest distance between a time, the marks after it and the end.
abbrev pub widest : ℕ → List ℕ → ℕ → ℕ
widest start [] end = end - start
widest start (t ∷ ts) end = max (t - start) (widest t ts end)

-- What `Gaps` reports of a loop is the widest distance between any two marks in a row since its last report, the
-- stretch up to the report included.
pub report_gap-widest :
    (ts : List ℕ) (now : ℕ) (b : Beat)
    → (report_gap now (marks ts b)).0 ≡ max b.max_gap (widest b.last ts now)
unfolding report_gap mark
report_gap-widest [] now b = refl
report_gap-widest (t ∷ ts) now b = elim (Bool-cases (leb (t - b.last) b.max_gap)) [
  | inl e ↦ ground (arith, report_gap-widest ts now (mark t b))
  | inr e ↦ ground (arith, report_gap-widest ts now (mark t b))
]
