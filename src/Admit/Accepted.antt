-- ===== src/Admit/Accepted.antt =====
-- From an app's definition, checked by internal/api, to the requests that internal/exec checks.
use panely.Kit.{
  ℕ, ◌≤◌, ◌<◌, String, Bool, true, ◌≡◌, none, some, List, arith, ok, contains, sym, ne→str_eq,
}
use panely.Connproto.Role.{match_app_id}
use panely.Records.{Release}
use panely.Deploy.Replicas.{replica_options}
use panely.Api.Deploying.{valid_commit_sha, build_request}
use panely.Admit.Patterns.{match_release_id, match_path_segment}
use panely.Admit.Spec.{AppSpec, ResourceLimits, validate_app_spec, app_from_proto}
use panely.Admit.Spec
use panely.Admit.Volumes
use panely.Admit.Create.{
  CreateRequest, ReleaseRef, ContainerRef, validate_create, create_request, validate_app_id,
  validate_release_ref, validate_container_ref, validate_quota, min_memory_bytes, max_memory_bytes,
  min_cpu_millis, max_cpu_millis, volume_messages,
}
use panely.Admit.Create
use panely.Admit.Source.{
  validate_image_build, validate_git_source, validate_git_host, validate_path_segment, repo_allowed,
  image_build_request,
}
use panely.Admit.Agree.{
  validate_env-agree, validate_volumes-agree, match_commit_sha-agree,
  validate_dockerfile_path-agree, sent,
}

-- What the definition of an accepted app has been checked for.
pub record IsAccepted (spec : AppSpec) : Type 0 where
  pub id : match_app_id spec.app_id ≡ true
  pub source : Spec.validate_source spec ≡ none
  pub dockerfile : Spec.validate_dockerfile_path spec.dockerfile_path ≡ none
  pub arguments : Spec.validate_build_args spec.build_args ≡ none
  pub env : Spec.validate_env spec.env ≡ none
  pub volumes : Volumes.validate_volumes spec.volumes ≡ none
  pub port : (1 ≤ spec.container_port) × (spec.container_port ≤ 65535)
  pub replicas : (1 ≤ spec.replicas) × (spec.replicas ≤ 64)
  pub limits : Spec.validate_limits spec.limits ≡ none

accepted : (spec : AppSpec) → validate_app_spec (some spec) ≡ none → IsAccepted spec
unfolding validate_app_spec
accepted spec h = record {
  id = ground arith;
  source = ground arith;
  dockerfile = ground arith;
  arguments = ground arith;
  env = ground arith;
  volumes = ground arith;
  port = (ground arith, ground arith);
  replicas = (ground arith, ground arith);
  limits = ground arith;
}

validate_release_ref-names :
    (app_id release_id : String)
    → match_app_id app_id ≡ true
    → match_release_id release_id ≡ true
    → validate_release_ref (some (record { app_id = app_id; release_id = release_id })) ≡ none
unfolding validate_release_ref validate_app_id match_app_id
validate_release_ref-names String.[] release_id a r = absurd cc
validate_release_ref-names (String.◌∷◌ c s) release_id a r =
    ground (arith, ne→str_eq (String.◌∷◌ c s) "" (λ e. cc))

-- The limits that the executor takes.
pub record HasRoom (l : ResourceLimits) : Type 0 where
  pub memory : (min_memory_bytes ≤ l.memory_bytes) × (l.memory_bytes ≤ max_memory_bytes)
  pub cpu : (min_cpu_millis ≤ l.cpu_millis) × (l.cpu_millis ≤ max_cpu_millis)

limits-HasRoom :
    (l : ResourceLimits)
    → Spec.validate_limits (some l) ≡ none
    → HasRoom l
    → Create.validate_limits (some l) ≡ none
unfolding Spec.validate_limits Create.validate_limits
limits-HasRoom l h room = let m = room.memory in let c = room.cpu in ground arith

quota-HasRoom :
    (l : ResourceLimits)
    → Spec.validate_limits (some l) ≡ none
    → HasRoom l
    → validate_quota (record {
      memory_bytes = l.memory_bytes;
      cpu_millis = l.cpu_millis;
      blkio_weight = l.blkio_weight;
    })
      ≡ none
unfolding Spec.validate_limits validate_quota
quota-HasRoom l h room = let m = room.memory in let c = room.cpu in ground arith

-- What goes to the executor for a replica of an accepted app.
abbrev pub wanted : AppSpec → ResourceLimits → Release → ℕ → CreateRequest
wanted spec l rel index = record {
  ref = some (Create.container_ref spec.app_id rel.id index);
  commit_sha = rel.commit_sha;
  env = spec.env;
  limits = some l;
  volumes = sent spec.volumes;
  container_port = spec.container_port;
}

create_request-wanted :
    (spec : AppSpec) (l : ResourceLimits) (rel : Release) (index : ℕ)
    → spec.limits ≡ some l
    → Spec.validate_limits (some l) ≡ none
    → HasRoom l
    → create_request (replica_options (app_from_proto spec) rel index)
      ≡ ok (wanted spec l rel index)
unfolding create_request replica_options app_from_proto
create_request-wanted spec l rel index e h room = rw (e, quota-HasRoom l h room)

validate_create-wanted :
    (spec : AppSpec) (l : ResourceLimits) (rel : Release) (index : ℕ)
    → IsAccepted spec
    → Create.validate_limits (some l) ≡ none
    → match_release_id rel.id ≡ true
    → valid_commit_sha rel.commit_sha ≡ true
    → index < spec.replicas
    → validate_create (some (wanted spec l rel index)) ≡ none
unfolding validate_create validate_container_ref
validate_create-wanted spec l rel index a h named full within =
    let port = a.port in
    let replicas = a.replicas in
    ground (
      arith,
      h,
      validate_release_ref-names spec.app_id rel.id a.id named,
      validate_env-agree spec.env a.env,
      validate_volumes-agree spec.volumes a.volumes,
      match_commit_sha-agree rel.commit_sha full,
    )

-- An app that `validateAppSpec` accepts and whose memory and CPU lie within the executor's bounds: for a release of it with a
-- well-formed id and a full commit, the client's `CreateReplica` sends for each index below the number
-- of replicas a request that the executor's `validateCreate` accepts.
pub validate_create-app_from_proto :
    (spec : AppSpec) (l : ResourceLimits) (rel : Release) (index : ℕ)
    → validate_app_spec (some spec) ≡ none
    → spec.limits ≡ some l
    → HasRoom l
    → match_release_id rel.id ≡ true
    → valid_commit_sha rel.commit_sha ≡ true
    → index < spec.replicas
    → (req : CreateRequest) × (create_request (replica_options (app_from_proto spec) rel index)
        ≡ ok req)
      × (validate_create (some req) ≡ none)
validate_create-app_from_proto spec l rel index fine e room named full within =
    let a = accepted spec fine in
    let h : Spec.validate_limits (some l) ≡ none = rw (sym e) a.limits in
    (
      wanted spec l rel index,
      create_request-wanted spec l rel index e h room,
      validate_create-wanted spec l rel index a (limits-HasRoom l h room) named full within,
    )

validate_path_segment-names :
    (field name f : String)
    → Spec.check_segment field name ≡ none
    → validate_path_segment f name ≡ none
unfolding validate_path_segment match_path_segment
validate_path_segment-names field String.[] f h = absurd cc
validate_path_segment-names field (String.◌∷◌ c s) f h =
    ground (arith, ne→str_eq (String.◌∷◌ c s) "" (λ e. cc))

module _ (equal_fold : String → String → Bool) (trim_space : String → String) where
  validate_git_source-spec :
      (spec : AppSpec) (hosts repos : List String) (sha : String)
      → IsAccepted spec
      → contains hosts spec.git_host ≡ true
      → repo_allowed equal_fold trim_space spec.git_owner spec.git_repo repos ≡ true
      → valid_commit_sha sha ≡ true
      → validate_git_source equal_fold trim_space
          (some (record {
            host = spec.git_host;
            owner = spec.git_owner;
            repo = spec.git_repo;
            commit_sha = sha;
          }))
          hosts
          repos
        ≡ none
  unfolding Spec.validate_source validate_git_source validate_git_host
  validate_git_source-spec spec hosts repos sha a host repo full =
      let source = a.source in
      ground (
        arith,
        validate_path_segment-names "git_owner" spec.git_owner "owner",
        validate_path_segment-names "git_repo" spec.git_repo "repo",
      )

  -- An app that `validateAppSpec` accepts, from a host and a repository that the executor allows, and whose build
  -- arguments fit the executor's bound on an environment: for a release with a well-formed id and a full commit, the
  -- request to build it is one that the executor's `validateImageBuild` accepts.
  pub validate_image_build-build_request :
      (spec : AppSpec) (hosts repos : List String) (rel : Release) (sha : String)
      → validate_app_spec (some spec) ≡ none
      → contains hosts spec.git_host ≡ true
      → repo_allowed equal_fold trim_space spec.git_owner spec.git_repo repos ≡ true
      → Create.validate_env spec.build_args ≡ none
      → match_release_id rel.id ≡ true
      → valid_commit_sha sha ≡ true
      → validate_image_build equal_fold trim_space
          (some (image_build_request (build_request (app_from_proto spec) rel sha)))
          hosts
          repos
        ≡ none
  unfolding validate_image_build image_build_request build_request app_from_proto
      Spec.validate_build_args
  validate_image_build-build_request spec hosts repos rel sha fine host repo fit named full =
      let a = accepted spec fine in
      let arguments = a.arguments in
      ground (
        arith,
        fit,
        validate_release_ref-names spec.app_id rel.id a.id named,
        a.dockerfile,
        validate_git_source-spec spec hosts repos sha a host repo full,
        validate_dockerfile_path-agree spec.dockerfile_path,
      )
