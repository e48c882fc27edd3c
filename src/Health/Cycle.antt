-- ===== src/Health/Cycle.antt =====
-- What a cycle of internal/health/supervisor.go leaves of the entries of apps that are no longer active.
use panely.Kit.{◌≡◌, refl, String, false, ◌||◌, none, List, [], ◌∷◌, arith, ok, contains, map}
use panely.Kit.Maps.{lookup, lookup-keep}
use panely.Records.{Deployment}
use panely.Health.Options.{Options}
use panely.Health.Supervisor.{emit, Supervisor, Env, progress_call, visit, visit_all, cycle}

abbrev pub app_ids : List Deployment → List String
app_ids = map (λ (d : Deployment). d.app_id)

module _ {W : Type 0} (env : Env W) (opts : Options) where
  visit_all-live :
      (ds : List Deployment) (live : List String) (s : Supervisor W) (k : String)
      → contains (visit_all env opts ds live s).0 k ≡ (contains (app_ids ds) k || contains live k)
  unfolding visit_all
  visit_all-live [] live s k = refl
  visit_all-live (d ∷ ds) live s k = ground (
    arith,
    visit_all-live ds (d.app_id ∷ live) (emit env opts progress_call (visit env opts d s)) k,
  )

  -- After a cycle that could list the active deployments, only apps of that list have an entry.
  pub cycle-lookup :
      (s : Supervisor W) (ds : List Deployment) (k : String)
      → (env.active_deployments (env.effect progress_call s.world)).0 ≡ ok ds
      → contains (app_ids ds) k ≡ false
      → lookup k (cycle env opts s).state ≡ none
  unfolding cycle
  cycle-lookup s ds k e gone =
      rw (e, cycle) (rw (lookup-keep, visit_all-live ds [] asked k, gone) refl)
    where
      asked : Supervisor W
      asked = record {
        state = s.state;
        trace = progress_call ∷ s.trace;
        world = (env.active_deployments (env.effect progress_call s.world)).1;
      }
