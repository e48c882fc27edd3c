-- ===== src/Admit/Spec.antt =====
-- internal/api/appvalidate.go, and `appFromProto` and `volumesFromProto` of apps.go. A map is a list of its
-- entries, in the order that Go walks it; a message that may be `nil` is an `Option`.
use panely.Kit.{
  ℕ, ◌+◌, String, Bool, not, ◌||◌, Option, none, some, List, [], ◌∷◌, ltb, ◌==◌, ◌=ₛ◌, length,
  if◌then◌else◌,
}
use panely.Kit.Text.{codes}
use panely.Kit.Maps.{lookup}
use panely.Connproto.Role.{match_app_id, is_none}
use panely.Records.{App, StoredVolume}
use panely.Admit.Checks.{
  Fault, missing, malformed, too_long, too_many, out_of_range, not_absolute, not_relative,
  not_clean, outside, has_backslash, has_nul, has_space, set_and_removed, fault_if, ◌then◌,
}
use panely.Admit.Patterns.{
  bytes, has, has_prefix, match_host, match_path_segment, match_branch, match_env_key,
}
use panely.Admit.Path.{is_abs, clean}
use panely.Admit.Volumes.{AppVolume, validate_volumes}

-- `ResourceLimits` of proto/kadran/v1.
pub record ResourceLimits : Type 0 where
  pub memory_bytes : ℕ
  pub cpu_millis : ℕ
  pub blkio_weight : ℕ

-- `AppSpec` of proto/kadran/v1/api.proto.
pub record AppSpec : Type 0 where
  pub app_id : String
  pub git_host : String
  pub git_owner : String
  pub git_repo : String
  pub git_branch : String
  pub dockerfile_path : String
  pub build_args : List (String × String)
  pub env : List (String × String)
  pub volumes : List (Option AppVolume)
  pub container_port : ℕ
  pub replicas : ℕ
  pub health_path : String
  pub domain : String
  pub limits : Option ResourceLimits

abbrev pub max_replicas : ℕ
max_replicas = 64

abbrev pub max_build_args : ℕ
max_build_args = 100

abbrev pub max_domain_len : ℕ
max_domain_len = 253

abbrev pub max_health_path : ℕ
max_health_path = 512

abbrev pub max_dockerfile : ℕ
max_dockerfile = 4096

abbrev pub max_build_arg_len : ℕ
max_build_arg_len = 32768

abbrev pub max_env_entries : ℕ
max_env_entries = 200

abbrev pub max_env_bytes : ℕ
max_env_bytes = 32768

abbrev pub max_env_key_bytes : ℕ
max_env_key_bytes = 256

abbrev is_dots : String → Bool
is_dots s = s =ₛ "." || s =ₛ ".."

-- One round of the loop of `validateSource`.
abbrev pub check_segment : String → String → Option Fault
check_segment field s = fault_if (not (match_path_segment s) || is_dots s) (malformed field s)

-- `validateSource`.
unfoldable pub validate_source : AppSpec → Option Fault
validate_source spec =
    fault_if (spec.git_host =ₛ "") (missing "git_host")
    then fault_if (ltb max_domain_len (bytes spec.git_host))
        (too_long "git_host" (bytes spec.git_host))
    then fault_if (not (match_host spec.git_host)) (malformed "git_host" spec.git_host)
    then check_segment "git_owner" spec.git_owner
    then check_segment "git_repo" spec.git_repo
    then fault_if (not (match_branch spec.git_branch)) (malformed "git_branch" spec.git_branch)

-- The `switch` of `validateDockerfilePath`.
abbrev pub check_dockerfile : String → Option Fault
check_dockerfile p =
    fault_if (ltb max_dockerfile (bytes p)) (too_long "dockerfile_path" (bytes p))
    then fault_if (is_abs p) (not_relative p)
    then fault_if (not (clean p =ₛ p)) (not_clean p (clean p))
    then fault_if (p =ₛ "." || has_prefix p "../") (outside p)
    then fault_if (has b'\\' (codes p)) (has_backslash p)

-- `validateDockerfilePath`.
unfoldable pub validate_dockerfile_path : String → Option Fault
validate_dockerfile_path p = if p =ₛ "" then none else check_dockerfile p

abbrev pub holds_nul : String × String → Bool
holds_nul e = has 0 (codes e.0) || has 0 (codes e.1)

-- The loop of `validateBuildArgs`.
unfoldable pub check_build_args : List (String × String) → Option Fault
check_build_args [] = none
check_build_args (e ∷ es) =
    fault_if (not (match_env_key e.0)) (malformed "build argument" e.0)
    then fault_if (ltb max_build_arg_len (bytes e.1)) (too_long e.0 (bytes e.1))
    then fault_if (holds_nul e) (has_nul e.0)
    then check_build_args es

-- `validateBuildArgs`.
unfoldable pub validate_build_args : List (String × String) → Option Fault
validate_build_args es =
    fault_if (ltb max_build_args (length es)) (too_many "build arguments" (length es))
    then check_build_args es

-- The loop of `validateEnv` and what follows it, with the bytes so far.
unfoldable pub check_env : ℕ → List (String × String) → Option Fault
check_env total [] = fault_if (ltb max_env_bytes total) (too_long "env" total)
check_env total (e ∷ es) =
    fault_if (ltb max_env_key_bytes (bytes e.0)) (too_long "env key" (bytes e.0))
    then fault_if (not (match_env_key e.0)) (malformed "env key" e.0)
    then fault_if (holds_nul e) (has_nul e.0)
    then check_env (total + (bytes e.0 + bytes e.1 + 1)) es

-- `validateEnv`.
unfoldable pub validate_env : List (String × String) → Option Fault
validate_env es =
    fault_if (ltb max_env_entries (length es)) (too_many "env" (length es)) then check_env 0 es

-- `validateEnvRemove`.
unfoldable pub validate_env_remove : List (String × String) → List String → Option Fault
validate_env_remove set [] = none
validate_env_remove set (k ∷ ks) =
    fault_if (not (match_env_key k)) (malformed "env key" k)
    then fault_if (not (is_none (lookup k set))) (set_and_removed k)
    then validate_env_remove set ks

-- Does the text hold one of ` \t\r\n`?
abbrev pub has_blank : String → Bool
has_blank p = has 32 (codes p) || has 9 (codes p) || has 13 (codes p) || has 10 (codes p)

-- `validateHealthPath`.
unfoldable pub validate_health_path : String → Option Fault
validate_health_path p =
    if p =ₛ ""
    then none
    else fault_if (ltb max_health_path (bytes p)) (too_long "health_path" (bytes p))
      then fault_if (not (has_prefix p "/")) (not_absolute p)
      then fault_if (has_blank p) (has_space p)

-- `validateDomain`.
unfoldable pub validate_domain : String → Option Fault
validate_domain d =
    if d =ₛ ""
    then none
    else fault_if (ltb max_domain_len (bytes d)) (too_long "domain" (bytes d))
      then fault_if (not (match_host d)) (malformed "domain" d)

-- `validateLimits`.
unfoldable pub validate_limits : Option ResourceLimits → Option Fault
validate_limits none = some (missing "limits")
validate_limits (some l) =
    fault_if (l.memory_bytes == 0) (out_of_range "memory_bytes" 0)
    then fault_if (l.cpu_millis == 0) (out_of_range "cpu_millis" 0)
    then fault_if (ltb l.blkio_weight 10 || ltb 1000 l.blkio_weight)
        (out_of_range "blkio_weight" l.blkio_weight)

-- `validateAppSpec`.
unfoldable pub validate_app_spec : Option AppSpec → Option Fault
validate_app_spec none = some (missing "spec")
validate_app_spec (some spec) =
    fault_if (not (match_app_id spec.app_id)) (malformed "app_id" spec.app_id)
    then validate_source spec
    then validate_dockerfile_path spec.dockerfile_path
    then validate_build_args spec.build_args
    then validate_env spec.env
    then validate_volumes spec.volumes
    then fault_if (spec.container_port == 0 || ltb 65535 spec.container_port)
        (out_of_range "container_port" spec.container_port)
    then fault_if (spec.replicas == 0 || ltb max_replicas spec.replicas)
        (out_of_range "replicas" spec.replicas)
    then validate_health_path spec.health_path
    then validate_domain spec.domain
    then validate_limits spec.limits

-- The getters of a volume, which give zero values on `nil`.
abbrev pub stored_of : Option AppVolume → StoredVolume
stored_of none = record { name = ""; mount_path = ""; read_only = Bool.false }
stored_of (some v) = record { name = v.name; mount_path = v.mount_path; read_only = v.read_only }

-- `volumesFromProto`.
unfoldable pub volumes_from_proto : List (Option AppVolume) → List StoredVolume
volumes_from_proto [] = []
volumes_from_proto (v ∷ vols) = stored_of v ∷ volumes_from_proto vols

abbrev pub limits_of : Option ResourceLimits → ResourceLimits
limits_of none = record { memory_bytes = 0; cpu_millis = 0; blkio_weight = 0 }
limits_of (some l) = l

-- `appFromProto` of a message that is not `nil`.
unfoldable pub app_from_proto : AppSpec → App
app_from_proto spec = record {
  id = spec.app_id;
  git_host = spec.git_host;
  git_owner = spec.git_owner;
  git_repo = spec.git_repo;
  git_branch = spec.git_branch;
  dockerfile_path = spec.dockerfile_path;
  build_args = spec.build_args;
  env = spec.env;
  volumes = volumes_from_proto spec.volumes;
  container_port = spec.container_port;
  replicas = spec.replicas;
  health_path = spec.health_path;
  domain = spec.domain;
  memory_bytes = (limits_of spec.limits).memory_bytes;
  cpu_millis = (limits_of spec.limits).cpu_millis;
  blkio_weight = (limits_of spec.limits).blkio_weight;
  release_seq = 0;
  created_at = 0;
  updated_at = 0;
}
