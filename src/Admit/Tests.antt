-- ===== src/Admit/Tests.antt =====
-- An app that the API accepts, followed to the executor, and what the checks say at their bounds.
use panely.Kit.{
  String, Bool, true, ◌≡◌, ◌⊎◌, refl, Option, none, some, List, [], ◌∷◌, ◌=ₛ◌, All, Distinct, arith,
}
use panely.Kit.Text.{split, join}
use panely.Records.{Release, built}
use panely.Api.Deploying.{valid_commit_sha, build_request}
use panely.Connproto.Role.{match_app_id}
use panely.Admit.Checks.{out_of_range}
use panely.Admit.Patterns.{
  bytes, match_host, match_branch, match_path_segment, match_env_key, match_volume_name,
  match_release_id,
}
use panely.Admit.Path.{clean, tidy}
use panely.Admit.Volumes.{
  AppVolume, validate_volumes, validate_mount_path, path_overlaps, overlap_any, check_volumes,
}
use panely.Admit.Spec.{
  AppSpec, ResourceLimits, validate_app_spec, app_from_proto, validate_source,
  validate_dockerfile_path, validate_build_args, check_build_args, validate_env, check_env,
  validate_health_path, validate_domain, validate_limits,
}
use panely.Admit.Create.{CreateRequest, validate_create, create_request}
use panely.Admit.Create
use panely.Admit.Source.{validate_image_build, image_build_request, repo_allowed, listed}
use panely.Admit.Accepted.{HasRoom, validate_image_build-build_request}
use panely.Admit.Inside.{IsName, dockerfile_path-IsName}
use panely.Admit.Apart.{names, mounts, Separate, validate_volumes-Separate}

abbrev pub volumes : List (Option AppVolume)
volumes =
    some (record { name = "data"; mount_path = "/var/data"; read_only = Bool.false })
    ∷ some (record { name = "cache"; mount_path = "/var/cache"; read_only = Bool.false })
    ∷ []

abbrev pub limits : ResourceLimits
limits = record { memory_bytes = 268435456; cpu_millis = 500; blkio_weight = 500 }

abbrev pub shop : AppSpec
shop = record {
  app_id = "shop";
  git_host = "github.com";
  git_owner = "acme";
  git_repo = "shop";
  git_branch = "main";
  dockerfile_path = "docker/Dockerfile";
  build_args = ("MODE", "release") ∷ [];
  env = ("PORT", "8080") ∷ [];
  volumes = volumes;
  container_port = 8080;
  replicas = 2;
  health_path = "/health";
  domain = "shop.example.com";
  limits = some limits;
}

abbrev pub sha : String
sha = "0123456789abcdef0123456789abcdef01234567"

abbrev pub release : Release
release = record {
  app_id = "shop";
  id = "r1";
  seq = 1;
  commit_sha = sha;
  status = built;
  image_id = "sha256:1";
  started_at = 1;
  finished_at = 2;
  detail = "";
}

volumes-accepted : validate_volumes volumes ≡ none
unfolding validate_volumes check_volumes match_volume_name validate_mount_path bytes clean tidy
    overlap_any path_overlaps split join
volumes-accepted = refl

pub shop-accepted : validate_app_spec (some shop) ≡ none
unfolding validate_app_spec match_app_id validate_source match_host match_path_segment match_branch
    validate_dockerfile_path validate_build_args check_build_args validate_env check_env
    match_env_key validate_volumes check_volumes match_volume_name validate_mount_path bytes clean
    tidy overlap_any path_overlaps split join validate_health_path validate_domain validate_limits
shop-accepted = refl

pub limits-HasRoom : HasRoom limits
limits-HasRoom = record { memory = (omega arith, omega arith); cpu = (omega arith, omega arith) }

-- `..` leaves the repository, and is accepted.
parent-accepted : validate_dockerfile_path ".." ≡ none
unfolding validate_dockerfile_path bytes clean tidy split join
parent-accepted = refl

-- One byte of memory is accepted for an app, and refused when its containers are made.
abbrev one_byte : ResourceLimits
one_byte = record { memory_bytes = 1; cpu_millis = 500; blkio_weight = 500 }

one_byte-accepted : validate_limits (some one_byte) ≡ none
unfolding validate_limits
one_byte-accepted = refl

one_byte-refused : Create.validate_limits (some one_byte) ≡ some (out_of_range "memory_bytes" 1)
unfolding Create.validate_limits
one_byte-refused = refl

-- The cleaning of paths, as the documentation of `path.Clean` has it.
cleaned :
    (clean "a/c" ≡ "a/c")
    × (clean "a//c" ≡ "a/c")
    × (clean "a/c/." ≡ "a/c")
    × (clean "a/c/b/.." ≡ "a/c")
    × (clean "/../a/c" ≡ "/a/c")
    × (clean "/../a/b/../././/c" ≡ "/a/c")
    × (clean "" ≡ ".")
    × (clean "../../a" ≡ "../../a")
    × (clean "a/../../b" ≡ "../b")
    × (clean "/.." ≡ "/")
unfolding clean tidy split join
cleaned = (refl, refl, refl, refl, refl, refl, refl, refl, refl, refl)

-- Hosts: no scheme, no port, no empty label, two labels at least.
hosts :
    (match_host "github.com" ≡ true)
    × (match_host "a-b.example.org" ≡ true)
    × (match_host "localhost" ≡ Bool.false)
    × (match_host "github..com" ≡ Bool.false)
    × (match_host "-a.com" ≡ Bool.false)
    × (match_host "github.com:22" ≡ Bool.false)
unfolding match_host split
hosts = (refl, refl, refl, refl, refl, refl)

-- Texts as they are, for `strings.EqualFold` and `strings.TrimSpace`.
abbrev same : String → String → Bool
same s t = s =ₛ t

abbrev untrimmed : String → String
untrimmed s = s

arguments-fit : Create.validate_env shop.build_args ≡ none
unfolding Create.validate_env Create.check_env bytes match_env_key
arguments-fit = refl

validate_image_build-build_request_example :
    validate_image_build same untrimmed
      (some (image_build_request (build_request (app_from_proto shop) release sha)))
      ("github.com" ∷ [])
      ("acme/shop" ∷ [])
    ≡ none
validate_image_build-build_request_example =
    validate_image_build-build_request same untrimmed shop ("github.com" ∷ []) ("acme/shop" ∷ [])
      release sha shop-accepted refl (unfold repo_allowed in unfold listed in refl) arguments-fit
      (unfold match_release_id in refl) (unfold valid_commit_sha in refl)

dockerfile_path-IsName_example :
    (shop.dockerfile_path ≡ "")
    ⊎ ((shop.dockerfile_path ≡ "..") ⊎ All IsName (split "/" shop.dockerfile_path))
dockerfile_path-IsName_example = dockerfile_path-IsName "docker/Dockerfile" (
    unfold validate_dockerfile_path in
    unfold bytes in unfold clean in unfold tidy in unfold split in unfold join in refl)

validate_volumes-Separate_example : Distinct (names volumes) × Separate (mounts volumes)
validate_volumes-Separate_example = validate_volumes-Separate volumes volumes-accepted
