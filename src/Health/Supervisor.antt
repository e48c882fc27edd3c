-- ===== src/Health/Supervisor.antt =====
-- internal/health/supervisor.go. What the supervisor calls (the store, the healer, the clock) is an
-- environment over states `W`; audit records, healings and alarm calls are also written to a
-- trace, the newest first, since the theorems speak of them. Log lines are left out.
use panely.Kit.{
  ℕ, ◌+◌, String, Bool, true, false, Option, none, some, List, [], ◌∷◌, leb, ltb, ◌=ₛ◌,
  if◌then◌else◌, Result, ok, err, contains,
}
use panely.Kit.Maps.{lookup, insert, erase, keep}
use panely.Records.{App, Release, Deployment}
use panely.Health.Options.{Options, backoff}

pub record AppState : Type 0 where
  pub release_id : String
  pub failures : ℕ
  pub unhealthy : Bool
  pub heals : ℕ
  pub next_heal_at : ℕ

-- The parameters of an audit record, before they are printed as JSON.
pub data Params : Type 0 where
  readiness : ℕ → ℕ → String → Params
  attempts : ℕ → Params
  attempt_failed : ℕ → String → Params
  attempt_done : ℕ → Bool → Params

pub data Outcome : Type 0 where
  success failure : Outcome

-- The calls that change something outside: `record`, `healer.Heal`, `alarms.Raise` (its target, its `Since` and the
-- count in its text) and `alarms.Clear`, both at the id `heal_exhausted:APP`.
pub data Call : Type 0 where
  audit : String → String → String → Outcome → Params → Call
  heal_call : App → Release → Call
  raise_call : String → ℕ → ℕ → Call
  clear_call : String → Call
  progress_call : Call

-- The interfaces `Healer`, `Deployments`, `Clock`; errors are texts.
pub record Env (W : Type 0) : Type 0 where
  pub active_deployments : W → Result String (List Deployment) × W
  pub active_deployment : String → W → Result String Deployment × W
  pub get_app : String → W → Result String App × W
  pub get_release : String → String → W → Result String Release × W
  pub check : App → String → W → ℕ × String × W
  pub heal : App → Release → W → Result String Bool × W
  pub now : W → ℕ × W
  pub effect : Call → W → W

pub record Supervisor (W : Type 0) : Type 0 where
  pub state : List (String × AppState)
  pub trace : List Call
  pub world : W

abbrev pub fresh_state : String → AppState
fresh_state release_id = record {
  release_id = release_id;
  failures = 0;
  unhealthy = false;
  heals = 0;
  next_heal_at = 0;
}

-- The counters as `markHealthy` leaves them.
abbrev pub reset : AppState → AppState
reset st = record st { failures = 0; unhealthy = false; heals = 0; next_heal_at = 0 }

-- The entry that `stateFor` returns.
abbrev pub entry_for : Option AppState → Deployment → AppState
entry_for none d = fresh_state d.release_id
entry_for (some st) d = if st.release_id =ₛ d.release_id then st else fresh_state d.release_id

-- Is the deployment that was read still the one of this release?
abbrev pub is_current : Result String Deployment → Deployment → Bool
is_current (err _) d = false
is_current (ok cur) d = cur.release_id =ₛ d.release_id

module _ {W : Type 0} (env : Env W) (opts : Options) where
  -- A call whose result the supervisor does not use.
  abbrev pub emit : Call → Supervisor W → Supervisor W
  emit c s = record s { trace = c ∷ s.trace; world = env.effect c s.world }

  abbrev pub put : String → AppState → Supervisor W → Supervisor W
  put k st s = record s { state = insert k st s.state }

  -- `stateFor`: the entry, and the supervisor that holds it.
  unfoldable pub state_for : Deployment → Supervisor W → AppState × Supervisor W
  state_for d s = let st = entry_for (lookup d.app_id s.state) d in (st, put d.app_id st s)

  -- `markHealthy`.
  unfoldable pub mark_healthy : String → AppState → Supervisor W → Supervisor W
  mark_healthy app_id st s =
      let s1 =
        if st.unhealthy
        then emit (audit "app.healed" app_id st.release_id success (attempts st.heals)) s
        else s in
      emit (clear_call app_id) (put app_id (reset st) s1)

  -- What `heal` does with the result of `healer.Heal`.
  unfoldable pub after_heal :
      Deployment → AppState → Result String Bool → Supervisor W → Supervisor W
  after_heal d st (ok recreated) s =
      emit (audit "app.heal" d.app_id d.release_id success (attempt_done st.heals recreated)) s
  after_heal d st (err why) s =
      let s1 =
        emit (audit "app.heal" d.app_id d.release_id failure (attempt_failed st.heals why)) s in
      if leb opts.heals_before_alarm st.heals
      then (let (t, w) = env.now s1.world in
          emit (raise_call d.app_id t st.heals) (record s1 { world = w }))
      else s1

  -- `heal` once the release has been read: the attempt is counted, then made.
  unfoldable pub attempt : App → Deployment → Release → AppState → Supervisor W → Supervisor W
  attempt app d rel st s =
      let (t, w) = env.now s.world in
      let n = st.heals + 1 in
      let st' : AppState = record st {
        heals = n;
        next_heal_at = t + backoff opts n;
        failures = 0;
      } in
      let s1 : Supervisor W = put d.app_id st' (record s { world = w }) in
      let (r, w') = env.heal app rel s1.world in
      after_heal d st' r (record s1 { trace = heal_call app rel ∷ s1.trace; world = w' })

  -- `heal`.
  unfoldable pub heal : App → Deployment → AppState → Supervisor W → Supervisor W
  heal app d st s =
      let (cur, w) = env.active_deployment d.app_id s.world in
      if is_current cur d
      then (let (rel, w') = env.get_release d.app_id d.release_id w in
          elim rel [
            | err _ ↦ record s { world = w' }
            | ok r ↦ attempt app d r st (record s { world = w' })
          ])
      else record s { state = erase d.app_id s.state; world = w }

  -- The second guard of `visit`: the first failure past the threshold is recorded.
  unfoldable pub mark_unhealthy :
      App → Deployment → ℕ → String → AppState → Supervisor W → Supervisor W
  mark_unhealthy app d ready why st s =
      let s1 = put d.app_id (record st { unhealthy = true }) s in
      if st.unhealthy
      then s1
      else emit
          (audit "app.unhealthy" d.app_id d.release_id failure (readiness ready app.replicas why))
          s1

  -- The last guard of `visit`: healing waits for its time.
  unfoldable pub heal_if_due : App → Deployment → AppState → Supervisor W → Supervisor W
  heal_if_due app d st s =
      let (t, w) = env.now s.world in
      let s1 : Supervisor W = record s { world = w } in
      if ltb t st.next_heal_at then s1 else heal app d st s1

  -- `visit` after a measurement with too few replicas ready.
  unfoldable pub count_failure :
      App → Deployment → ℕ → String → AppState → Supervisor W → Supervisor W
  count_failure app d ready why st s =
      let st1 : AppState = record st { failures = st.failures + 1 } in
      if ltb st1.failures opts.failures_before_heal
      then put d.app_id st1 s
      else heal_if_due app d (record st1 { unhealthy = true })
          (mark_unhealthy app d ready why st1 s)

  -- `visit` once `stateFor` has given the entry.
  unfoldable pub visit_entry : Deployment → AppState → Supervisor W → Supervisor W
  visit_entry d st s =
      let (a, w) = env.get_app d.app_id s.world in
      elim a [
        | err _ ↦ record s { world = w }
        | ok app ↦
            let (ready, why, w') = env.check app d.release_id w in
            let s1 : Supervisor W = record s { world = w' } in
            if leb app.replicas ready
            then mark_healthy d.app_id st s1
            else count_failure app d ready why st s1
      ]

  -- `visit`.
  unfoldable pub visit : Deployment → Supervisor W → Supervisor W
  visit d s = let (st, s1) = state_for d s in visit_entry d st s1

  -- The loop of `Cycle` over the deployments, with the set `live`.
  unfoldable pub visit_all :
      List Deployment → List String → Supervisor W → List String × Supervisor W
  visit_all [] live s = (live, s)
  visit_all (d ∷ ds) live s = visit_all ds (d.app_id ∷ live) (emit progress_call (visit d s))

  -- `Cycle`.
  unfoldable pub cycle : Supervisor W → Supervisor W
  cycle s =
      let s1 = emit progress_call s in
      let (deps, w) = env.active_deployments s1.world in
      let s2 : Supervisor W = record s1 { world = w } in
      elim deps [
        | err _ ↦ s2
        | ok ds ↦
            let (live, s3) = visit_all ds [] s2 in
            record s3 { state = keep (contains live) s3.state }
      ]
