-- ===== src/Api/LifecycleTests.antt =====
-- An app that is defined, changed and released, and the theorems on the table of apps at it.
use panely.Kit.{
  ℕ, ◌<◌, String, true, ◌≡◌, refl, none, some, List, [], ◌∷◌, arith, ok, contains, if◌then◌else◌,
}
use panely.Kit.Maps.{lookup}
use panely.Store.Merging.{or_else, lookup-apply_env, IsUpdate, update_app-IsUpdate}
use panely.Records.{App}
use panely.Store.Deployments.{Runs}
use panely.Store.Releases.{counter, bump, is_taken, start_release}
use panely.Store.Numbering.{starting}
use panely.Store.Apps.{
  UpdateRuns, apply_env, create_app, update_app, find_app, domain_owner, sorted_volumes,
}
use panely.Deploy.Replicas.{replica_options}
use panely.Admit.Patterns.{match_release_id}
use panely.Admit.Spec.{app_from_proto, volumes_from_proto}
use panely.Admit.Create.{CreateRequest, create_request, validate_create}
use panely.Admit.Tests.{shop, sha, release, limits-HasRoom, shop-accepted}
use panely.Admit.Accepted.{HasRoom}
use panely.Api.Deploying.{valid_commit_sha}
use panely.Api.Defining.{UpdateRequest, define, update_from_proto}
use panely.Api.Rows.{IsTable}
use panely.Api.Lifecycle.{
  Call, defining, storing, answer_all, answer_all-IsTable, answer_all-CanRun, no_tables, limits_in,
}

abbrev digits : ℕ → String
digits n = "1"

abbrev all_run : Runs
all_run = record { begin = true; select = true; update = true; insertion = true; commit = true }

abbrev updates_run : UpdateRuns
updates_run = record { opens = true; reads = true; writes = true; asks = true; commits = true }

abbrev grow : UpdateRequest
grow = record {
  app_id = "shop";
  domain = none;
  git_branch = none;
  health_path = none;
  replicas = some 3;
  env = ("MODE", "fast") ∷ [];
  env_remove = "PORT" ∷ [];
  volumes = [];
  volume_remove = "cache" ∷ [];
}

abbrev calls : List Call
calls = defining true true true 5 (some shop) ∷ storing (starting all_run 6 "shop" sha) ∷ []

abbrev stored : App
stored = record (app_from_proto shop) {
  volumes = sorted_volumes (volumes_from_proto shop.volumes);
  release_seq = 1;
  created_at = 5;
  updated_at = 6;
}

defined :
    (define true true true 5 (some shop) []).1
    ≡ record stored { release_seq = 0; updated_at = 5 } ∷ []
unfolding define create_app find_app domain_owner app_from_proto
defined = rw (shop-accepted, define) refl

found : find_app "shop" (answer_all digits calls no_tables).apps ≡ some stored
unfolding find_app start_release counter bump is_taken app_from_proto
found = rw defined refl

answer_all-IsTable_example : IsTable (answer_all digits calls no_tables).apps
answer_all-IsTable_example = answer_all-IsTable digits calls no_tables (tt, tt)

stored_room : HasRoom (limits_in stored)
unfolding app_from_proto
stored_room = limits-HasRoom

below : 1 < stored.replicas
unfolding app_from_proto
below = omega arith

answer_all-CanRun_example :
    (req : CreateRequest) × (create_request (replica_options stored release 1) ≡ ok req)
    × (validate_create (some req) ≡ none)
answer_all-CanRun_example =
    answer_all-CanRun digits calls "shop" stored release 1 found stored_room
      (unfold match_release_id in refl) (unfold valid_commit_sha in refl) below

lookup-apply_env_example :
    lookup "MODE" (apply_env shop.env (("MODE", "fast") ∷ []) ("PORT" ∷ [])) ≡ (
      if contains ("PORT" ∷ []) "MODE"
      then none
      else or_else (lookup "MODE" (("MODE", "fast") ∷ [])) (lookup "MODE" shop.env))
lookup-apply_env_example =
    lookup-apply_env shop.env (("MODE", "fast") ∷ []) ("PORT" ∷ []) "MODE" (refl, tt)

update_app-IsUpdate_example :
    IsUpdate 9 "shop"
      (update_from_proto grow)
      (stored ∷ [])
      (update_app updates_run 9 "shop" (update_from_proto grow) (stored ∷ []))
update_app-IsUpdate_example =
    update_app-IsUpdate updates_run 9 "shop" (update_from_proto grow) (stored ∷ [])
