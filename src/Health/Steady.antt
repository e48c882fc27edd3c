-- ===== src/Health/Steady.antt =====
-- The invariant of the entries of internal/health/supervisor.go, and what a cycle leaves.
use panely.Kit.{
  ℕ, ◌+◌, ◌≡◌, ◌≢◌, ◌≤◌, ◌<◌, refl, String, true, Option, none, some, List, [], ◌∷◌, arith, eq_iff,
  eq_refl, Result, Result-cases, leb, ltb, if◌then◌else◌, ◌=ₛ◌, Bool-cases, inl, inr, contains,
}
use panely.Kit.Maps.{lookup, insert, lookup-insert, lookup-erase, lookup-keep}
use panely.Records.{App, Release, Deployment}
use panely.Health.Options.{Options}
use panely.Health.Local.{after_heal-state, visit-other}
use panely.Health.Supervisor.{
  is_current, progress_call, Supervisor, Env, AppState, entry_for, state_for, mark_healthy,
  mark_unhealthy, heal_if_due, attempt, heal, count_failure, visit_entry, visit, visit_all, cycle,
}

module _ {W : Type 0} (env : Env W) (opts : Options) (pos : 0 < opts.failures_before_heal) where
  -- An entry whose failures have reached the threshold, or that counts an attempt of healing since it was last reset, is marked
  -- unhealthy.
  pub record IsSteady (st : AppState) : Type 0 where
    pub past : opts.failures_before_heal ≤ st.failures → st.unhealthy ≡ true
    pub healed : 0 < st.heals → st.unhealthy ≡ true

  abbrev pub Steady : Option AppState → Type 0
  Steady none = Unit
  Steady (some st) = IsSteady st

  module _ (d : Deployment) where
    abbrev Keeps : Supervisor W → Type 0
    Keeps s = Steady (lookup d.app_id s.state)

    attempt-Steady :
        (app : App) (rel : Release) (st : AppState) (s : Supervisor W)
        → st.unhealthy ≡ true
        → Keeps (attempt env opts app d rel st s)
    unfolding attempt
    attempt-Steady app rel st s u =
        rw (after_heal-state, lookup-insert, eq_refl) (ground (arith, pos))

    heal-Steady :
        (app : App) (st : AppState) (s : Supervisor W)
        → st.unhealthy ≡ true
        → Keeps s
        → Keeps (heal env opts app d st s)
    unfolding heal
    heal-Steady app st s u h = elim (Bool-cases (is_current active.0 d)) [
      | inr e ↦ rw e (rw (lookup-erase, eq_refl) tt)
      | inl e ↦ rw e (elim (Result-cases release.0) [
        | inr (x, q) ↦ rw q h
        | inl (rel, q) ↦ rw q (attempt-Steady app rel st (record s { world = release.1 }) u)
      ])
    ]
      where
        active : Result String Deployment × W
        active = env.active_deployment d.app_id s.world

        release : Result String Release × W
        release = env.get_release d.app_id d.release_id active.1

    mark_unhealthy-Steady :
        (app : App) (ready : ℕ) (why : String) (st : AppState) (s : Supervisor W)
        → Keeps (mark_unhealthy env opts app d ready why st s)
    unfolding mark_unhealthy
    mark_unhealthy-Steady app ready why st s = elim (Bool-cases st.unhealthy) [
      | inl e ↦ rw e (rw (lookup-insert, eq_refl) (ground arith))
      | inr e ↦ rw e (rw (lookup-insert, eq_refl) (ground arith))
    ]

    heal_if_due-Steady :
        (app : App) (st : AppState) (s : Supervisor W)
        → st.unhealthy ≡ true
        → Keeps s
        → Keeps (heal_if_due env opts app d st s)
    unfolding heal_if_due
    heal_if_due-Steady app st s u h = elim (Bool-cases (ltb (env.now s.world).0 st.next_heal_at)) [
      | inl e ↦ rw e h
      | inr e ↦ rw e (heal-Steady app st (record s { world = (env.now s.world).1 }) u h)
    ]

    count_failure-Steady :
        (app : App) (ready : ℕ) (why : String) (st : AppState) (s : Supervisor W)
        → IsSteady st
        → Keeps (count_failure env opts app d ready why st s)
    unfolding count_failure
    count_failure-Steady app ready why st s h =
        elim (Bool-cases (ltb (st.failures + 1) opts.failures_before_heal)) [
          | inl e ↦ rw e (rw (lookup-insert, eq_refl) (ground (arith, h.healed)))
          | inr e ↦ rw e (
              heal_if_due-Steady app (record st1 { unhealthy = true })
                (mark_unhealthy env opts app d ready why st1 s) refl
                (mark_unhealthy-Steady app ready why st1 s))
        ]
      where
        st1 : AppState
        st1 = record st { failures = st.failures + 1 }

    mark_healthy-Steady :
        (st : AppState) (s : Supervisor W) → Keeps (mark_healthy env opts d.app_id st s)
    unfolding mark_healthy
    mark_healthy-Steady st s = rw (lookup-insert, eq_refl) (ground (arith, pos))

    entry_for-IsSteady : (o : Option AppState) → Steady o → IsSteady (entry_for o d)
    entry_for-IsSteady none h = ground (arith, pos)
    entry_for-IsSteady (some st) h = ground (arith, h, pos)

    visit_entry-Steady :
        (st : AppState) (s : Supervisor W)
        → IsSteady st
        → Keeps s
        → Keeps (visit_entry env opts d st s)
    unfolding visit_entry
    visit_entry-Steady st s steady h = elim (Result-cases found.0) [
      | inr (x, e) ↦ rw (e, visit_entry) h
      | inl (app, e) ↦
          rw (e, visit_entry)
            (elim (Bool-cases (leb app.replicas (reply app).0)) [
              | inl up ↦ rw up (mark_healthy-Steady st (measured app))
              | inr down ↦
                  rw down
                    (count_failure-Steady app (reply app).0 (reply app).1 st (measured app) steady)
            ])
    ]
      where
        found : Result String App × W
        found = env.get_app d.app_id s.world

        reply : App → ℕ × String × W
        reply app = env.check app d.release_id found.1

        measured : App → Supervisor W
        measured app = record s { world = (reply app).2 }

    visit_self : (s : Supervisor W) → Keeps s → Keeps (visit env opts d s)
    unfolding visit state_for
    visit_self s h =
        visit_entry-Steady st (record s { state = insert d.app_id st s.state }) steady
          (rw (lookup-insert, eq_refl) steady)
      where
        st : AppState
        st = entry_for (lookup d.app_id s.state) d

        steady : IsSteady st
        steady = entry_for-IsSteady (lookup d.app_id s.state) h

  -- Every entry of the supervisor is steady.
  abbrev pub AllSteady : Supervisor W → Type 0
  AllSteady s = (k : String) → Steady (lookup k s.state)

  visit-AllSteady :
      (d : Deployment) (s : Supervisor W) → AllSteady s → AllSteady (visit env opts d s)
  visit-AllSteady d s h k = elim (Bool-cases (k =ₛ d.app_id)) [
    | inl e ↦ let q : k ≡ d.app_id = (eq_iff k d.app_id).0 e in rw q (visit_self d s (h d.app_id))
    | inr e ↦
        let q : k ≢ d.app_id = ground (arith, eq_iff k d.app_id) in
        rw (visit-other env opts d k q s) (h k)
  ]

  visit_all-AllSteady :
      (ds : List Deployment) (live : List String) (s : Supervisor W)
      → AllSteady s
      → AllSteady (visit_all env opts ds live s).1
  unfolding visit_all
  visit_all-AllSteady [] live s h = h
  visit_all-AllSteady (d ∷ ds) live s h =
      visit_all-AllSteady ds (d.app_id ∷ live) _ (visit-AllSteady d s h)

  abbrev listed : Supervisor W → Result String (List Deployment) × W
  listed s = env.active_deployments (env.effect progress_call s.world)

  abbrev asked : Supervisor W → Supervisor W
  asked s = record { state = s.state; trace = progress_call ∷ s.trace; world = (listed s).1 }

  -- With a positive `FailuresBeforeHeal`, and from a state in which every entry is steady, a cycle leaves every entry steady,
  -- whatever the calls return: each entry whose failures have reached that threshold, or that
  -- counts an attempt of healing since it was last reset, is marked unhealthy.
  pub cycle-AllSteady : (s : Supervisor W) → AllSteady s → AllSteady (cycle env opts s)
  unfolding cycle
  cycle-AllSteady s h k = elim (Result-cases (listed s).0) [
    | inr (x, e) ↦ rw (e, cycle) (h k)
    | inl (ds, e) ↦ rw (e, cycle) (rw lookup-keep (cut ds))
  ]
    where
      cut :
          (ds : List Deployment)
          → Steady (
              if contains (visit_all env opts ds [] (asked s)).0 k
              then lookup k (visit_all env opts ds [] (asked s)).1.state
              else none)
      cut ds = elim (Bool-cases (contains (visit_all env opts ds [] (asked s)).0 k)) [
        | inl e ↦ rw e (visit_all-AllSteady ds [] (asked s) h k)
        | inr e ↦ rw e tt
      ]
