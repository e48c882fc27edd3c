-- ===== src/Records.antt =====
-- The records that the components share: `App`, `Release` and `Deployment` of internal/store, and
-- `Replica` with what a replica is created from, of internal/execclient. Times are numbers that
-- grow with the clock; Go's zero time is 0.
use panely.Kit.{ℕ, String, Bool, true, false, List, ◌&&◌, ◌=ₛ◌, not}

-- `store.VolumeMount`.
pub record StoredVolume : Type 0 where
  pub name : String
  pub mount_path : String
  pub read_only : Bool

pub record App : Type 0 where
  pub id : String
  pub git_host : String
  pub git_owner : String
  pub git_repo : String
  pub git_branch : String
  pub dockerfile_path : String
  pub build_args : List (String × String)
  pub env : List (String × String)
  pub volumes : List StoredVolume
  pub container_port : ℕ
  pub replicas : ℕ
  pub health_path : String
  pub domain : String
  pub memory_bytes : ℕ
  pub cpu_millis : ℕ
  pub blkio_weight : ℕ
  pub release_seq : ℕ
  pub created_at : ℕ
  pub updated_at : ℕ

pub data ReleaseStatus : Type 0 where
  building built failed : ReleaseStatus

pub record Release : Type 0 where
  pub app_id : String
  pub id : String
  pub seq : ℕ
  pub commit_sha : String
  pub status : ReleaseStatus
  pub image_id : String
  pub started_at : ℕ
  pub finished_at : ℕ
  pub detail : String

pub record Deployment : Type 0 where
  pub app_id : String
  pub release_id : String
  pub domain : String
  pub container_port : ℕ
  pub replicas : ℕ
  pub activated_at : ℕ

-- `ContainerState` of proto/kadran/v1/exec.proto.
pub data ContainerState : Type 0 where
  unspecified created running paused restarting exited dead removing : ContainerState

pub record Replica : Type 0 where
  pub app_id : String
  pub release_id : String
  pub index : ℕ
  pub state : ContainerState
  pub ip_address : String
  pub created_at : ℕ

abbrev pub is_running : ContainerState → Bool
is_running running = true
is_running _ = false

-- `Replica.Routable`.
abbrev pub is_routable : Replica → Bool
is_routable r = is_running r.state && not (r.ip_address =ₛ "")

-- `execclient.VolumeMount`.
pub record VolumeMount : Type 0 where
  pub volume_name : String
  pub mount_path : String
  pub read_only : Bool

pub record Limits : Type 0 where
  pub memory_bytes : ℕ
  pub cpu_millis : ℕ
  pub blkio_weight : ℕ

pub record CreateReplicaOptions : Type 0 where
  pub app_id : String
  pub release_id : String
  pub index : ℕ
  pub commit_sha : String
  pub env : List (String × String)
  pub container_port : ℕ
  pub limits : Limits
  pub volumes : List VolumeMount
