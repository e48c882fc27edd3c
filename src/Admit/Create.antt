-- ===== src/Admit/Create.antt =====
-- internal/exec/validate.go: what the executor demands of a request. The request that creates a
-- container is the one that `CreateReplica` of internal/execclient/container.go sends.
use panely.Kit.{
  ℕ, suc, ◌+◌, String, Bool, not, ◌&&◌, ◌||◌, Option, none, some, List, [], ◌∷◌, ◌++◌, ltb, leb,
  ◌==◌, ◌=ₛ◌, length, Result, ok, err,
}
use panely.Kit.Text.{codes, glue}
use panely.Connproto.Role.{match_app_id}
use panely.Api.Deploying.{all_hex}
use panely.Records.{CreateReplicaOptions, Limits, VolumeMount}
use panely.Admit.Checks.{
  Fault, missing, malformed, too_long, too_many, out_of_range, not_absolute, not_clean, has_nul,
  reserved, overlapping, no_volume, of_volume, fault_if, ◌then◌,
}
use panely.Admit.Patterns.{bytes, has_prefix, match_volume_name, match_release_id, match_env_key}
use panely.Admit.Path.{is_abs, clean}
use panely.Admit.Spec.{ResourceLimits, holds_nul}

pub record ReleaseRef : Type 0 where
  pub app_id : String
  pub release_id : String

pub record ContainerRef : Type 0 where
  pub release : Option ReleaseRef
  pub replica : ℕ

pub record ContainerSelector : Type 0 where
  pub release : Option ReleaseRef
  pub replica : Option ℕ

-- `ContainerCreateRequest` of proto/kadran/v1/exec.proto.
pub record CreateRequest : Type 0 where
  pub ref : Option ContainerRef
  pub commit_sha : String
  pub env : List (String × String)
  pub limits : Option ResourceLimits
  pub volumes : List (Option VolumeMount)
  pub container_port : ℕ

abbrev pub max_replica : ℕ
max_replica = 64

abbrev pub max_volumes : ℕ
max_volumes = 16

abbrev pub max_mount_path : ℕ
max_mount_path = 4096

abbrev pub max_stop_timeout_seconds : ℕ
max_stop_timeout_seconds = 300

abbrev pub max_env_entries : ℕ
max_env_entries = 200

abbrev pub max_env_bytes : ℕ
max_env_bytes = 32768

abbrev pub max_env_key_bytes : ℕ
max_env_key_bytes = 256

abbrev pub min_memory_bytes : ℕ
min_memory_bytes = 6291456

abbrev pub max_memory_bytes : ℕ
max_memory_bytes = 1099511627776

abbrev pub min_cpu_millis : ℕ
min_cpu_millis = 10

abbrev pub max_cpu_millis : ℕ
max_cpu_millis = 64000

-- `validateAppID`.
unfoldable pub validate_app_id : String → Option Fault
validate_app_id id =
    fault_if (id =ₛ "") (missing "app_id")
    then fault_if (not (match_app_id id)) (malformed "app_id" id)

-- `validateReleaseRef`.
unfoldable pub validate_release_ref : Option ReleaseRef → Option Fault
validate_release_ref none = some (missing "release")
validate_release_ref (some ref) =
    validate_app_id ref.app_id
    then fault_if (not (match_release_id ref.release_id)) (malformed "release_id" ref.release_id)

-- `validateContainerRef`.
unfoldable pub validate_container_ref : Option ContainerRef → Option Fault
validate_container_ref none = some (missing "ref")
validate_container_ref (some ref) =
    validate_release_ref ref.release
    then fault_if (leb max_replica ref.replica) (out_of_range "replica" ref.replica)

abbrev check_replica : Option ℕ → Option Fault
check_replica none = none
check_replica (some i) = fault_if (leb max_replica i) (out_of_range "replica" i)

-- `validateSelector`.
unfoldable pub validate_selector : Option ContainerSelector → Option Fault
validate_selector none = some (missing "selector")
validate_selector (some sel) = validate_release_ref sel.release then check_replica sel.replica

-- `validateStopTimeout`.
unfoldable pub validate_stop_timeout : ℕ → Option Fault
validate_stop_timeout seconds =
    fault_if (ltb max_stop_timeout_seconds seconds) (out_of_range "timeout_seconds" seconds)

-- The loop of `validateEnv` and what follows it, with the bytes so far.
unfoldable pub check_env : ℕ → List (String × String) → Option Fault
check_env total [] = fault_if (ltb max_env_bytes total) (too_long "env" total)
check_env total (e ∷ es) =
    fault_if (ltb max_env_key_bytes (bytes e.0)) (too_long "env key" (bytes e.0))
    then fault_if (not (match_env_key e.0)) (malformed "env key" e.0)
    then fault_if (holds_nul e) (has_nul e.0)
    then check_env (total + (bytes e.0 + bytes e.1)) es

-- `validateEnv`.
unfoldable pub validate_env : List (String × String) → Option Fault
validate_env es =
    fault_if (ltb max_env_entries (length es)) (too_many "env" (length es)) then check_env 0 es

-- `validateLimits`.
unfoldable pub validate_limits : Option ResourceLimits → Option Fault
validate_limits none = some (missing "limits")
validate_limits (some l) =
    fault_if (ltb l.memory_bytes min_memory_bytes || ltb max_memory_bytes l.memory_bytes)
      (out_of_range "memory_bytes" l.memory_bytes)
    then fault_if (ltb l.cpu_millis min_cpu_millis || ltb max_cpu_millis l.cpu_millis)
        (out_of_range "cpu_millis" l.cpu_millis)
    then fault_if (ltb l.blkio_weight 10 || ltb 1000 l.blkio_weight)
        (out_of_range "blkio_weight" l.blkio_weight)

abbrev pub forbidden_mount_roots : List String
forbidden_mount_roots = "/proc" ∷ "/sys" ∷ "/dev" ∷ []

-- The loop of `validateMountPath`.
abbrev pub under_root : List String → String → Option Fault
under_root [] p = none
under_root (root ∷ roots) p =
    fault_if (p =ₛ root || has_prefix p (glue root "/")) (reserved root p) then under_root roots p

-- `validateMountPath`.
unfoldable pub validate_mount_path : String → Option Fault
validate_mount_path p =
    fault_if (p =ₛ "") (missing "mount_path")
    then fault_if (ltb max_mount_path (bytes p)) (too_long "mount_path" (bytes p))
    then fault_if (not (is_abs p)) (not_absolute p)
    then fault_if (not (clean p =ₛ p)) (not_clean p (clean p))
    then fault_if (p =ₛ "/") (reserved "/" p)
    then under_root forbidden_mount_roots p

-- `pathOverlaps`.
unfoldable pub path_overlaps : String → String → Bool
path_overlaps a b = a =ₛ b || has_prefix a (glue b "/") || has_prefix b (glue a "/")

-- The loop over `seen`.
unfoldable pub overlap_any : List String → String → Option Fault
overlap_any [] p = none
overlap_any (prev ∷ seen) p =
    fault_if (path_overlaps prev p) (overlapping prev p) then overlap_any seen p

abbrev pub in_volume : String → Option Fault → Option Fault
in_volume name none = none
in_volume name (some x) = some (of_volume name x)

-- The loop of `validateVolumes`, with the paths so far.
unfoldable pub check_volumes : List String → ℕ → List (Option VolumeMount) → Option Fault
check_volumes seen i [] = none
check_volumes seen i (none ∷ vols) = some (no_volume i)
check_volumes seen i (some v ∷ vols) =
    fault_if (not (match_volume_name v.volume_name)) (malformed "volume_name" v.volume_name)
    then in_volume v.volume_name (validate_mount_path v.mount_path)
    then overlap_any seen v.mount_path
    then check_volumes (seen ++ v.mount_path ∷ []) (suc i) vols

-- `validateVolumes`.
unfoldable pub validate_volumes : List (Option VolumeMount) → Option Fault
validate_volumes vols =
    fault_if (ltb max_volumes (length vols)) (too_many "volumes" (length vols))
    then check_volumes [] 0 vols

-- `commitSHAPattern`: `^[0-9a-f]{7,64}$`.
unfoldable pub match_commit_sha : String → Bool
match_commit_sha s = leb 7 (length (codes s)) && leb (length (codes s)) 64 && all_hex (codes s)

-- `validateCreate`.
unfoldable pub validate_create : Option CreateRequest → Option Fault
validate_create none = some (missing "request")
validate_create (some req) =
    validate_container_ref req.ref
    then fault_if (not (match_commit_sha req.commit_sha)) (malformed "commit_sha" req.commit_sha)
    then validate_env req.env
    then validate_limits req.limits
    then validate_volumes req.volumes
    then fault_if (req.container_port == 0 || ltb 65535 req.container_port)
        (out_of_range "container_port" req.container_port)

-- `Limits.validate` of the client.
unfoldable pub validate_quota : Limits → Option Fault
validate_quota l =
    fault_if (l.memory_bytes == 0) (out_of_range "memory_bytes" 0)
    then fault_if (l.cpu_millis == 0) (out_of_range "cpu_millis" 0)
    then fault_if (l.blkio_weight == 0) (out_of_range "blkio_weight" 0)

-- `containerRef`.
abbrev pub container_ref : String → String → ℕ → ContainerRef
container_ref app_id release_id index = record {
  release = some (record { app_id = app_id; release_id = release_id });
  replica = index;
}

-- The loop of `CreateReplica`; the messages have the fields of `VolumeMount`.
unfoldable pub volume_messages : List VolumeMount → List (Option VolumeMount)
volume_messages [] = []
volume_messages (v ∷ vols) = some v ∷ volume_messages vols

abbrev pub or_fault {ℓ} : {A : Type ℓ} → Option Fault → A → Result Fault A
or_fault none a = ok a
or_fault (some x) a = err x

-- What `CreateReplica` sends, if its own check lets it.
unfoldable pub create_request : CreateReplicaOptions → Result Fault CreateRequest
create_request opts = or_fault (validate_quota opts.limits) (record {
  ref = some (container_ref opts.app_id opts.release_id opts.index);
  commit_sha = opts.commit_sha;
  env = opts.env;
  limits = some (record {
    memory_bytes = opts.limits.memory_bytes;
    cpu_millis = opts.limits.cpu_millis;
    blkio_weight = opts.limits.blkio_weight;
  });
  volumes = volume_messages opts.volumes;
  container_port = opts.container_port;
})
