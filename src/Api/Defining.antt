-- ===== src/Api/Defining.antt =====
-- `CreateApp` of internal/api/apps.go and `UpdateApp` of internal/api/appupdate.go, with `appToProto` and
-- `updateFromProto`: their checks and what they do to the table of apps. The audit records and the
-- reconciling of the proxy that follow leave that table alone.
use panely.Kit.{
  ℕ, String, Bool, false, not, ◌||◌, Option, none, some, List, [], ◌∷◌, ◌==◌, Result, ok, err,
  if◌then◌else◌,
}
use panely.Records.{App, StoredVolume}
use panely.Store.Apps.{
  AppError, AppUpdate, UpdateRuns, create_app, get_app, update_app, apply, is_empty, changes_domain,
  changes_env, changes_volumes,
}
use panely.Admit.Checks.{Fault, missing, ◌then◌}
use panely.Admit.Volumes.{AppVolume, validate_volume_remove}
use panely.Admit.Spec.{
  AppSpec, validate_app_spec, validate_env_remove, app_from_proto, volumes_from_proto,
}

pub data DefineError : Type 0 where
  refused : Fault → DefineError
  nothing_asked : DefineError
  of_store : AppError → DefineError

-- `volumesToProto`.
unfoldable pub volumes_to_proto : List StoredVolume → List (Option AppVolume)
volumes_to_proto [] = []
volumes_to_proto (v ∷ vols) =
    some (record { name = v.name; mount_path = v.mount_path; read_only = v.read_only })
    ∷ volumes_to_proto vols

-- The definition in `appToProto`.
unfoldable pub spec_of : App → AppSpec
unfolding volumes_to_proto
spec_of a = record {
  app_id = a.id;
  git_host = a.git_host;
  git_owner = a.git_owner;
  git_repo = a.git_repo;
  git_branch = a.git_branch;
  dockerfile_path = a.dockerfile_path;
  build_args = a.build_args;
  env = a.env;
  volumes = volumes_to_proto a.volumes;
  container_port = a.container_port;
  replicas = a.replicas;
  health_path = a.health_path;
  domain = a.domain;
  limits = some (record {
    memory_bytes = a.memory_bytes;
    cpu_millis = a.cpu_millis;
    blkio_weight = a.blkio_weight;
  });
}

abbrev pub of_result : Result AppError App → Result DefineError App
of_result (ok app) = ok app
of_result (err e) = err (of_store e)

-- `CreateApp`.
unfoldable pub define :
    Bool → Bool → Bool → ℕ → Option AppSpec → List App → Result DefineError App × List App
define writes reads asks now none apps = (err (refused (missing "spec")), apps)
define writes reads asks now (some spec) apps = elim (validate_app_spec (some spec)) [
  | some x ↦ (err (refused x), apps)
  | none ↦
      let (r, after) = create_app writes reads asks now (app_from_proto spec) apps in
      (of_result r, after)
]

-- `UpdateAppRequest` of proto/kadran/v1/api.proto.
pub record UpdateRequest : Type 0 where
  pub app_id : String
  pub domain : Option String
  pub git_branch : Option String
  pub health_path : Option String
  pub replicas : Option ℕ
  pub env : List (String × String)
  pub env_remove : List String
  pub volumes : List (Option AppVolume)
  pub volume_remove : List String

-- `updateFromProto`.
unfoldable pub update_from_proto : UpdateRequest → AppUpdate
update_from_proto req = record {
  domain = req.domain;
  git_branch = req.git_branch;
  health_path = req.health_path;
  replicas = req.replicas;
  env = req.env;
  env_remove = req.env_remove;
  volumes = volumes_from_proto req.volumes;
  volume_remove = req.volume_remove;
}

-- What `UpdateApp` goes on with: the app, and what the caller is told of.
pub record Changed : Type 0 where
  pub app : App
  pub moves_traffic : Bool
  pub env_changed : Bool
  pub volumes_changed : Bool

abbrev replicas_changed : AppUpdate → App → Bool
replicas_changed u current = elim u.replicas [ none ↦ false | some n ↦ not (n == current.replicas) ]

abbrev pub changed : AppUpdate → App → Result AppError App → Result DefineError Changed
changed u current (err e) = err (of_store e)
changed u current (ok app) = ok (record {
  app = app;
  moves_traffic = changes_domain u current.domain || replicas_changed u current;
  env_changed = changes_env u;
  volumes_changed = changes_volumes u;
})

-- From the app that `UpdateApp` read.
unfoldable pub change_current :
    UpdateRuns → ℕ → String → AppUpdate → App → List App → Result DefineError Changed × List App
change_current runs now k u current apps =
    elim (validate_app_spec (some (spec_of (apply u current)))) [
      | some x ↦ (err (refused x), apps)
      | none ↦ let (r, after) = update_app runs now k u apps in (changed u current r, after)
    ]

-- `UpdateApp`; `reads` says that its own reading runs.
unfoldable pub change :
    Bool → UpdateRuns → ℕ → UpdateRequest → List App → Result DefineError Changed × List App
unfolding change_current
change reads runs now req apps =
    let u = update_from_proto req in
    if is_empty u
    then (err nothing_asked, apps)
    else elim (validate_env_remove req.env req.env_remove
        then validate_volume_remove req.volumes req.volume_remove) [
          | some x ↦ (err (refused x), apps)
          | none ↦ elim (get_app reads req.app_id apps) [
            | err e ↦ (err (of_store e), apps)
            | ok current ↦ change_current runs now req.app_id u current apps
          ]
        ]
