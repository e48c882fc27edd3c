-- ===== src/Health/Local.antt =====
-- A visit of internal/health/supervisor.go changes the entry of its own app only, and an entry of another release
-- counts as none.
use panely.Kit.{
  Result-cases, ℕ, ◌+◌, ◌≡◌, ◌≢◌, refl, String, Bool, true, false, some, arith, eq_iff, ne→str_eq,
  Result, ok, err, ◌=ₛ◌, ap, inl, inr,
}
use panely.Kit.Maps.{lookup, insert, lookup-insert, lookup-erase, insert-insert}
use panely.Records.{App, Release, Deployment}
use panely.Health.Options.{Options}
use panely.Health.Supervisor.{
  Supervisor, Env, AppState, reset, entry_for, fresh_state, state_for, mark_healthy, mark_unhealthy,
  heal_if_due, after_heal, attempt, heal, count_failure, visit_entry, visit,
}

module _ {W : Type 0} (env : Env W) (opts : Options) where
  pub after_heal-state :
      (d : Deployment) (st : AppState) (r : Result String Bool) (s : Supervisor W)
      → (after_heal env opts d st r s).state ≡ s.state
  unfolding after_heal
  after_heal-state d st (ok b) s = refl
  after_heal-state d st (err e) s = ground arith

  module _ (d : Deployment) (k : String) (ne : k ≢ d.app_id) where
    other : (d.app_id =ₛ k) ≡ false
    other = ground (arith, eq_iff d.app_id k)

    attempt-other :
        (app : App) (rel : Release) (st : AppState) (s : Supervisor W)
        → lookup k (attempt env opts app d rel st s).state ≡ lookup k s.state
    unfolding attempt
    attempt-other app rel st s = rw (after_heal-state, lookup-insert, other)

    heal-other :
        (app : App) (st : AppState) (s : Supervisor W)
        → lookup k (heal env opts app d st s).state ≡ lookup k s.state
    unfolding heal
    heal-other app st s =
        elim (Result-cases
          (env.get_release d.app_id d.release_id (env.active_deployment d.app_id s.world).1).0) [
            | inl (rel, e) ↦ ground (
              arith,
              attempt-other app rel st (record s {
                world =
                    (env.get_release d.app_id d.release_id
                      (env.active_deployment d.app_id s.world).1).1;
              }),
              lookup-erase d.app_id k s.state,
              other,
            )
            | inr (x, e) ↦ ground (arith, lookup-erase d.app_id k s.state, other)
          ]

    mark_unhealthy-other :
        (app : App) (ready : ℕ) (why : String) (st : AppState) (s : Supervisor W)
        → lookup k (mark_unhealthy env opts app d ready why st s).state ≡ lookup k s.state
    unfolding mark_unhealthy
    mark_unhealthy-other app ready why st s =
        ground (arith, lookup-insert d.app_id k (record st { unhealthy = true }) s.state, other)

    heal_if_due-other :
        (app : App) (st : AppState) (s : Supervisor W)
        → lookup k (heal_if_due env opts app d st s).state ≡ lookup k s.state
    unfolding heal_if_due
    heal_if_due-other app st s =
        ground (arith, heal-other app st (record s { world = (env.now s.world).1 }))

    count_failure-other :
        (app : App) (ready : ℕ) (why : String) (st : AppState) (s : Supervisor W)
        → lookup k (count_failure env opts app d ready why st s).state ≡ lookup k s.state
    unfolding count_failure
    count_failure-other app ready why st s =
        let st1 : AppState = record st { failures = st.failures + 1 } in
        ground (
          arith,
          lookup-insert d.app_id k st1 s.state,
          other,
          heal_if_due-other app (record st1 { unhealthy = true })
              (mark_unhealthy env opts app d ready why st1 s),
          mark_unhealthy-other app ready why st1 s,
        )

    mark_healthy-other :
        (st : AppState) (s : Supervisor W)
        → lookup k (mark_healthy env opts d.app_id st s).state ≡ lookup k s.state
    unfolding mark_healthy
    mark_healthy-other st s = ground (arith, lookup-insert d.app_id k (reset st) s.state, other)

    -- A visit leaves every other app's entry as it was.
    pub visit-other : (s : Supervisor W) → lookup k (visit env opts d s).state ≡ lookup k s.state
    unfolding visit visit_entry state_for
    visit-other s = elim (Result-cases (env.get_app d.app_id s.world).0) [
      | inr (e, q) ↦ ground (arith, lookup-insert d.app_id k st s.state, other)
      | inl (app, q) ↦ ground (
        arith,
        lookup-insert d.app_id k st s.state,
        other,
        mark_healthy-other st (measured app),
        count_failure-other app (reply app).0 (reply app).1 st (measured app),
      )
    ]
      where
        st : AppState
        st = entry_for (lookup d.app_id s.state) d

        reply : App → ℕ × String × W
        reply app = env.check app d.release_id (env.get_app d.app_id s.world).1

        measured : App → Supervisor W
        measured app = record {
          state = insert d.app_id st s.state;
          trace = s.trace;
          world = (reply app).2;
        }

  -- A visit of a deployment whose app has an entry of another release goes as if the entry were
  -- a fresh one of its own release: no counter and no waiting time carries over.
  pub visit-new_release :
      (d : Deployment) (s : Supervisor W) (old : AppState)
      → lookup d.app_id s.state ≡ some old
      → old.release_id ≢ d.release_id
      → visit env opts d s
        ≡ visit env opts d (record s { state = insert d.app_id (fresh_state d.release_id) s.state })
  unfolding visit
  visit-new_release d s old found ne =
      ap (λ (p : AppState × Supervisor W). visit_entry env opts d p.0 p.1) same
    where
      same :
          state_for env opts d s
          ≡ state_for env opts d
              (record s { state = insert d.app_id (fresh_state d.release_id) s.state })
      same =
          unfold state_for in
          ground (
            arith,
            ne→str_eq old.release_id d.release_id ne,
            eq_iff d.release_id d.release_id,
            eq_iff d.app_id d.app_id,
            lookup-insert d.app_id d.app_id (fresh_state d.release_id) s.state,
            insert-insert d.app_id (fresh_state d.release_id) (fresh_state d.release_id) s.state,
          )
