-- ===== src/Admit/Source.antt =====
-- internal/exec/gitsource.go and repoallow.go: what the executor demands of a build. The folding of
-- letters by `strings.EqualFold` and the trimming of `strings.TrimSpace`, over all of Unicode, are parameters.
use panely.Kit.{
  ℕ, String, Bool, true, false, not, ◌||◌, Option, none, some, List, [], ◌∷◌, ltb, ◌=ₛ◌, length,
  if◌then◌else◌, contains,
}
use panely.Kit.Text.{codes, glue}
use panely.Admit.Checks.{
  Fault, missing, malformed, too_long, too_many, not_relative, not_clean, outside, has_backslash,
  not_listed, fault_if, ◌then◌,
}
use panely.Admit.Patterns.{bytes, has, has_prefix, match_host, match_path_segment}
use panely.Admit.Path.{is_abs, clean}
use panely.Api.Deploying.{valid_commit_sha}
use panely.Api.Handling.{BuildRequest}
use panely.Admit.Create.{ReleaseRef, validate_release_ref, validate_env}

abbrev pub max_host_len : ℕ
max_host_len = 253

abbrev pub max_dockerfile_len : ℕ
max_dockerfile_len = 4096

abbrev pub max_build_args : ℕ
max_build_args = 100

-- `GitSource` of proto/kadran/v1/exec.proto.
pub record GitSource : Type 0 where
  pub host : String
  pub owner : String
  pub repo : String
  pub commit_sha : String

-- `ImageBuildRequest` of proto/kadran/v1/exec.proto.
pub record ImageBuildRequest : Type 0 where
  pub release : Option ReleaseRef
  pub source : Option GitSource
  pub dockerfile_path : String
  pub build_args : List (String × String)

-- `validateGitHost`.
unfoldable pub validate_git_host : String → List String → Option Fault
validate_git_host host allowed =
    fault_if (host =ₛ "") (missing "host")
    then fault_if (ltb max_host_len (bytes host)) (too_long "host" (bytes host))
    then fault_if (not (match_host host)) (malformed "host" host)
    then fault_if (not (contains allowed host)) (not_listed host)

-- `validatePathSegment`.
unfoldable pub validate_path_segment : String → String → Option Fault
validate_path_segment field v =
    fault_if (v =ₛ "") (missing field)
    then fault_if (not (match_path_segment v)) (malformed field v)
    then fault_if (v =ₛ "." || v =ₛ "..") (malformed field v)

-- The `switch` of `validateDockerfilePath`.
abbrev pub check_dockerfile : String → Option Fault
check_dockerfile p =
    fault_if (ltb max_dockerfile_len (bytes p)) (too_long "dockerfile_path" (bytes p))
    then fault_if (is_abs p) (not_relative p)
    then fault_if (not (clean p =ₛ p)) (not_clean p (clean p))
    then fault_if (p =ₛ "." || has_prefix p "../") (outside p)
    then fault_if (has b'\\' (codes p)) (has_backslash p)

-- `validateDockerfilePath`.
unfoldable pub validate_dockerfile_path : String → Option Fault
validate_dockerfile_path p = if p =ₛ "" then none else check_dockerfile p

-- `BuildContextURL`.
unfoldable pub build_context_url : GitSource → String
build_context_url src = glue "https://" (
    glue src.host
      (glue "/" (glue src.owner (glue "/" (glue src.repo (glue ".git#" src.commit_sha))))))

-- The message of `buildRequest` of internal/api/deploy.go, which `ImageBuild` sends on, with its nested parts.
unfoldable pub image_build_request : BuildRequest → ImageBuildRequest
image_build_request req = record {
  release = some (record { app_id = req.app_id; release_id = req.release_id });
  source =
      some (record {
        host = req.host;
        owner = req.owner;
        repo = req.repo;
        commit_sha = req.commit_sha;
      });
  dockerfile_path = req.dockerfile_path;
  build_args = req.build_args;
}

module _ (equal_fold : String → String → Bool) (trim_space : String → String) where
  -- The loop of `repoAllowed`.
  unfoldable pub listed : List String → String → Bool
  listed [] want = false
  listed (entry ∷ entries) want = equal_fold (trim_space entry) want || listed entries want

  -- `repoAllowed`.
  unfoldable pub repo_allowed : String → String → List String → Bool
  repo_allowed owner repo [] = true
  repo_allowed owner repo (entry ∷ entries) = listed (entry ∷ entries) (glue owner (glue "/" repo))

  -- `validateGitSource`.
  unfoldable pub validate_git_source : Option GitSource → List String → List String → Option Fault
  validate_git_source none hosts repos = some (missing "source")
  validate_git_source (some src) hosts repos =
      validate_git_host src.host hosts
      then validate_path_segment "owner" src.owner
      then validate_path_segment "repo" src.repo
      then fault_if (not (repo_allowed src.owner src.repo repos)) (not_listed src.repo)
      then fault_if (not (valid_commit_sha src.commit_sha)) (malformed "commit_sha" src.commit_sha)

  -- `validateImageBuild`.
  unfoldable pub validate_image_build :
      Option ImageBuildRequest → List String → List String → Option Fault
  validate_image_build none hosts repos = some (missing "request")
  validate_image_build (some req) hosts repos =
      validate_release_ref req.release
      then validate_git_source req.source hosts repos
      then validate_dockerfile_path req.dockerfile_path
      then fault_if (ltb max_build_args (length req.build_args))
          (too_many "build arguments" (length req.build_args))
      then validate_env req.build_args
