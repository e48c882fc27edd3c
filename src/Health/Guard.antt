-- ===== src/Health/Guard.antt =====
-- When internal/health/supervisor.go heals: only behind every guard, and with the next attempt put
-- off by the backoff.
use panely.Kit.{
  ◌∙◌, ap, eq_refl, ℕ, suc, ◌+◌, ◌≡◌, ◌≤◌, ◌<◌, ◌⊎◌, refl, String, Bool, true, some, List, [], ◌∷◌,
  arith, Result, Result-cases, ok, err, leb, ltb, Bool-cases, inl, inr,
}
use panely.Kit.Maps.{lookup, insert, lookup-insert}
use panely.Records.{App, Release, Deployment}
use panely.Health.Options.{Options, backoff}
use panely.Health.Local.{after_heal-state}
use panely.Health.Supervisor.{
  Supervisor, Env, AppState, Call, heal_call, raise_call, entry_for, state_for, mark_healthy,
  mark_unhealthy, heal_if_due, after_heal, attempt, heal, count_failure, visit_entry, visit,
  is_current,
}

-- How many healings the trace holds, and how many alarms raised.
abbrev pub heals_in : List Call → ℕ
heals_in [] = 0
heals_in (heal_call app rel ∷ calls) = suc (heals_in calls)
heals_in (_ ∷ calls) = heals_in calls

abbrev pub raises_in : List Call → ℕ
raises_in [] = 0
raises_in (raise_call app at n ∷ calls) = suc (raises_in calls)
raises_in (_ ∷ calls) = raises_in calls

module _ {W : Type 0} (env : Env W) (opts : Options) (d : Deployment) where
  -- What an attempt leaves of an entry `st`: one more attempt, counted from a reading of the clock
  -- and followed by the backoff.
  abbrev pub Attempted : AppState → Supervisor W → Type 0
  Attempted st s =
      (t : ℕ) × (lookup d.app_id s.state
        ≡ some (record st {
          heals = st.heals + 1;
          next_heal_at = t + backoff opts (st.heals + 1);
          failures = 0;
        }))

  after_heal-heals :
      (st : AppState) (r : Result String Bool) (s : Supervisor W)
      → heals_in (after_heal env opts d st r s).trace ≡ heals_in s.trace
  unfolding after_heal
  after_heal-heals st (ok b) s = refl
  after_heal-heals st (err e) s = ground arith

  attempt-heals :
      (app : App) (rel : Release) (st : AppState) (s : Supervisor W)
      → (heals_in (attempt env opts app d rel st s).trace ≡ suc (heals_in s.trace))
        × Attempted st (attempt env opts app d rel st s)
  unfolding attempt
  attempt-heals app rel st s = (
    rw after_heal-heals refl,
    ((env.now s.world).0, rw (after_heal-state, lookup-insert, eq_refl) refl),
  )

  -- Why `heal` may run in the state `s`, and what it does: the release is still the active one.
  heal-heals :
      (app : App) (st : AppState) (s : Supervisor W)
      → (heals_in (heal env opts app d st s).trace ≡ heals_in s.trace)
        ⊎ ((is_current (env.active_deployment d.app_id s.world).0 d ≡ true)
            × (heals_in (heal env opts app d st s).trace ≡ suc (heals_in s.trace))
            × Attempted st (heal env opts app d st s))
  unfolding heal
  heal-heals app st s = elim (Bool-cases (is_current active.0 d)) [
    | inr e ↦ inl (ground arith)
    | inl e ↦ elim (Result-cases release.0) [
      | inr (x, q) ↦ inl (ground arith)
      | inl (rel, q) ↦
          let s1 : Supervisor W = record s { world = release.1 } in
          let same : heal env opts app d st s ≡ attempt env opts app d rel st s1 = ground arith in
          let (one, next) = attempt-heals app rel st s1 in inr (e, rw same one, rw same next)
    ]
  ]
    where
      active : Result String Deployment × W
      active = env.active_deployment d.app_id s.world

      release : Result String Release × W
      release = env.get_release d.app_id d.release_id active.1

  heal_if_due-heals :
      (app : App) (st : AppState) (s : Supervisor W)
      → (heals_in (heal_if_due env opts app d st s).trace ≡ heals_in s.trace)
        ⊎ ((st.next_heal_at ≤ (env.now s.world).0)
            × (is_current (env.active_deployment d.app_id (env.now s.world).1).0 d ≡ true)
            × (heals_in (heal_if_due env opts app d st s).trace ≡ suc (heals_in s.trace))
            × Attempted st (heal_if_due env opts app d st s))
  unfolding heal_if_due
  heal_if_due-heals app st s = elim (Bool-cases (ltb (env.now s.world).0 st.next_heal_at)) [
    | inl e ↦ rw e (inl refl)
    | inr e ↦ rw e (elim (heal-heals app st (record s { world = (env.now s.world).1 })) [
      | inl same ↦ inl same
      | inr (cur, one, next) ↦ inr (ground arith, cur, one, next)
    ])
  ]

  mark_unhealthy-heals :
      (app : App) (ready : ℕ) (why : String) (st : AppState) (s : Supervisor W)
      → heals_in (mark_unhealthy env opts app d ready why st s).trace ≡ heals_in s.trace
  unfolding mark_unhealthy
  mark_unhealthy-heals app ready why st s = ground arith

  mark_healthy-heals :
      (st : AppState) (s : Supervisor W)
      → heals_in (mark_healthy env opts d.app_id st s).trace ≡ heals_in s.trace
  unfolding mark_healthy
  mark_healthy-heals st s = ground arith

  -- Everything that stands before a healing, on the way from `s` to `s'`.
  pub record Warranted (s s' : Supervisor W) : Type 0 where
    pub app : App
    pub found : (env.get_app d.app_id s.world).0 ≡ ok app
    pub short : (env.check app d.release_id (env.get_app d.app_id s.world).1).0 < app.replicas
    pub enough : opts.failures_before_heal ≤ (entry_for (lookup d.app_id s.state) d).failures + 1
    pub asked : W
    pub due : (entry_for (lookup d.app_id s.state) d).next_heal_at ≤ (env.now asked).0
    pub current : is_current (env.active_deployment d.app_id (env.now asked).1).0 d ≡ true
    pub one : heals_in s'.trace ≡ suc (heals_in s.trace)
    pub next : Attempted (record (entry_for (lookup d.app_id s.state) d) { unhealthy = true }) s'

  count_failure-heals :
      (app : App) (ready : ℕ) (why : String) (st : AppState) (s : Supervisor W)
      → (heals_in (count_failure env opts app d ready why st s).trace ≡ heals_in s.trace)
        ⊎ ((opts.failures_before_heal ≤ st.failures + 1)
            × (asked : W) × (st.next_heal_at ≤ (env.now asked).0)
            × (is_current (env.active_deployment d.app_id (env.now asked).1).0 d ≡ true)
            × (heals_in (count_failure env opts app d ready why st s).trace
                ≡ suc (heals_in s.trace))
            × Attempted
                (record st { unhealthy = true })
                (count_failure env opts app d ready why st s))
  unfolding count_failure
  count_failure-heals app ready why st s =
      elim (Bool-cases (ltb (st.failures + 1) opts.failures_before_heal)) [
        | inl e ↦ rw e (inl refl)
        | inr e ↦ rw e (elim (heal_if_due-heals app st2 s2) [
          | inl same ↦ inl (same ∙ kept)
          | inr (due, cur, one, next) ↦
              inr (ground arith, s2.world, due, cur, one ∙ ap suc kept, next)
        ])
      ]
    where
      st1 : AppState
      st1 = record st { failures = st.failures + 1 }

      st2 : AppState
      st2 = record st1 { unhealthy = true }

      s2 : Supervisor W
      s2 = mark_unhealthy env opts app d ready why st1 s

      kept : heals_in s2.trace ≡ heals_in s.trace
      kept = mark_unhealthy-heals app ready why st1 s

  -- A visit makes no healing, or exactly one; and that only if the app was found and fewer replicas than
  -- wanted were ready, this was at least the `failures_before_heal`-th failure in a row, the entry's waiting time was over,
  -- and the deployment's release was still the active one. The attempt is counted, and
  -- the next one waits for the backoff of the new count.
  pub visit-heals :
      (s : Supervisor W)
      → (heals_in (visit env opts d s).trace ≡ heals_in s.trace) ⊎ Warranted s (visit env opts d s)
  unfolding visit visit_entry state_for
  visit-heals s = elim (Result-cases found.0) [
    | inr (x, e) ↦ inl (ground arith)
    | inl (app, e) ↦ elim (Bool-cases (leb app.replicas (reply app).0)) [
      | inl up ↦ inl (ground (arith, mark_healthy-heals st (measured app)))
      | inr down ↦
          let same : visit env opts d s
              ≡ count_failure env opts app d (reply app).0 (reply app).1 st (measured app) =
            ground arith in
          elim (count_failure-heals app (reply app).0 (reply app).1 st (measured app)) [
            | inl none_made ↦ inl (rw same none_made)
            | inr (enough, asked, due, cur, one, next) ↦ inr (record {
              app = app;
              found = e;
              short = ground arith;
              enough = enough;
              asked = asked;
              due = due;
              current = cur;
              one = rw same one;
              next = rw same next;
            })
          ]
    ]
  ]
    where
      found : Result String App × W
      found = env.get_app d.app_id s.world

      st : AppState
      st = entry_for (lookup d.app_id s.state) d

      reply : App → ℕ × String × W
      reply app = env.check app d.release_id found.1

      measured : App → Supervisor W
      measured app = record {
        state = insert d.app_id st s.state;
        trace = s.trace;
        world = (reply app).2;
      }
