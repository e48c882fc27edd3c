-- ===== src/Api/HandlerTests.antt =====
-- Runs of the handlers on services that always answer the same, and the theorems on them.
use panely.Kit.{◌≡◌, refl, String, Bool, false, none, some, List, [], ◌∷◌, ok, err}
use panely.Kit.Maps.{insert}
use panely.Records.{App, Release, building, Deployment, Replica, exited}
use panely.Api.Handling.{
  Services, World, Event, release_removed, build_failed, no_image, record_action, completed,
  app_not_found, no_previous,
}
use panely.Api.Redaction.{redact_sensitive, redacted, is_sensitive_key, normalize_key, normalize}
use panely.Api.Deploying.{
  DeployRequest, valid_commit_sha, deploy, open_release, accept, build, image_build, receive,
  seal_built, seal_failed, finish, move_traffic, announce,
}
use panely.Api.Pruning.{
  PruneRequest, prune_app, keep_set, prune_kept, stale_releases, stale_from, remove_stale,
  remove_from, kept_labels,
}
use panely.Kit.Sort.{sort_by, place}
use panely.Kit.Maps.{lookup}
use panely.Connproto.Role.{match_app_id}
use panely.Api.Spared.{Done, spares, prune_app-Done}
use panely.Api.Reverting.{rollback_app, read_active, read_previous, read_target, revert, report}
use panely.Api.Reverted.{aims_at, Landed, rollback_app-Landed}
use panely.Api.Settled.{Ends, deploy-Settled}

abbrev blog : App
blog = record {
  id = "blog";
  git_host = "github.com";
  git_owner = "ada";
  git_repo = "blog";
  git_branch = "main";
  dockerfile_path = "";
  build_args = [];
  env = [];
  volumes = [];
  container_port = 8080;
  replicas = 1;
  health_path = "/";
  domain = "blog.example";
  memory_bytes = 0;
  cpu_millis = 0;
  blkio_weight = 0;
  release_seq = 0;
  created_at = 1;
  updated_at = 1;
}

abbrev r1 : Release
r1 = record {
  app_id = "blog";
  id = "r1";
  seq = 1;
  commit_sha = "";
  status = building;
  image_id = "";
  started_at = 2;
  finished_at = 0;
  detail = "";
}

-- Services whose builds end with this image.
abbrev services : String → Services (Unit {0})
services image = record {
  get_app = λ a w. (ok blog, w);
  start_release = λ a c w. (ok r1, w);
  fail_release = λ a r d w. (none, w);
  finish_release = λ a r i w. (none, w);
  get_release = λ a r w. (ok r1, w);
  active_deployment = λ a w. (err app_not_found, w);
  previous_active_release = λ a w. (err no_previous, w);
  send = λ m w. (none, w);
  open_build = λ b w.
      (ok (record { data_bytes = 1 ∷ []; is_stderr = false; image_id = image } ∷ [], none), w);
  list_replicas = λ a w. (ok [], w);
  stop_release = λ a r w. (ok 0, w);
  remove_release = λ a r w. (ok 0, w);
  run = λ a r w. (none, w);
  rollback = λ a r w. ((false, none), w);
  append_audit = λ e w. (none, w);
  marshal = λ m. ok "{}";
  describe = λ e. [];
  explain = λ e. "";
  decimal = λ n. "";
  quote = λ s. s;
}

abbrev request : DeployRequest
request = record { app_id = "blog"; commit_sha = "0123456789abcdef0123456789abcdef01234567" }

abbrev empty : World (Unit {0})
empty = record { outside = tt; trace = [] }

redacts :
    redact_sensitive (("dbPassword", "x") ∷ (("commit_sha", "y") ∷ []))
    ≡ ("dbPassword", redacted) ∷ (("commit_sha", "y") ∷ [])
unfolding redact_sensitive is_sensitive_key normalize_key normalize
redacts = refl

deployed : (deploy (services "sha256:1") none request empty).0 ≡ none
unfolding deploy valid_commit_sha open_release accept build image_build receive seal_built finish
    move_traffic announce completed record_action
deployed = refl

no_image_fails : (deploy (services "") none request empty).0 ≡ some (build_failed no_image)
unfolding deploy valid_commit_sha open_release accept build image_build receive seal_failed
    completed record_action
no_image_fails = refl

deploy-Settled_example :
    Ends request
      (services "sha256:1")
      none
      (λ m. ("{}", refl))
      (deploy (services "sha256:1") none request empty)
deploy-Settled_example =
    deploy-Settled request (services "sha256:1") none (λ m. ("{}", refl)) empty refl

abbrev active : Deployment
active = record {
  app_id = "blog";
  release_id = "r3";
  domain = "";
  container_port = 8080;
  replicas = 1;
  activated_at = 9;
}

abbrev replica : String → Replica
replica r = record {
  app_id = "blog";
  release_id = r;
  index = 0;
  state = exited;
  ip_address = "";
  created_at = 0;
}

-- Three releases on the host, of which the newest is active and the one before it has been.
abbrev full_host : Services (Unit {0})
full_host = record (services "") {
  active_deployment = λ a w. (ok active, w);
  previous_active_release = λ a w. (ok "r2", w);
  list_replicas = λ a w. (ok (replica "r1" ∷ replica "r2" ∷ replica "r3" ∷ []), w);
  remove_release = λ a r w. (ok 1, w);
}

abbrev prune_request : Bool → PruneRequest
prune_request dry = record { app_id = "blog"; dry_run = dry }

abbrev removals : List Event → List Event
removals [] = []
removals (release_removed a r e ∷ es) = release_removed a r e ∷ removals es
removals (_ ∷ es) = removals es

pruned :
    removals (prune_app full_host none (prune_request false) empty).1.trace
    ≡ release_removed "blog" "r1" none ∷ []
unfolding prune_app match_app_id keep_set prune_kept stale_releases stale_from remove_stale
    remove_from completed record_action lookup insert kept_labels sort_by place
pruned = refl

prune_app-Done_example :
    Done full_host none
      (λ m. ("{}", refl))
      (prune_request false)
      (spares full_host none (λ m. ("{}", refl)) (prune_request false) empty)
      (prune_app full_host none (prune_request false) empty)
prune_app-Done_example =
    prune_app-Done full_host none (λ m. ("{}", refl)) (prune_request false) empty refl

rolled_to :
    (rollback_app full_host none "blog" empty).0
    ≡ ok (record {
      app_id = "blog";
      from_release_id = "r3";
      to_release_id = "r1";
      recreated = false;
    })
unfolding rollback_app read_active read_previous read_target revert report completed record_action
    insert
rolled_to = refl

rollback_app-Landed_example :
    Landed full_host none "blog"
      (λ m. ("{}", refl))
      (aims_at full_host none "blog" (λ m. ("{}", refl)) empty)
      (rollback_app full_host none "blog" empty)
rollback_app-Landed_example =
    rollback_app-Landed full_host none "blog" (λ m. ("{}", refl)) empty refl
