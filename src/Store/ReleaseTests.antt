-- ===== src/Store/ReleaseTests.antt =====
-- Releases of one app, and the theorem on them.
use Prim.Native.String.{String}
use panely.Kit.{ℕ, zero, suc, ◌≡◌, refl, true, List, [], ◌∷◌, ok, err}
use panely.Records.{App, Release, built}
use panely.Store.Deployments.{Runs, opened, open_release}
use panely.Store.Releases.{
  Tables, is_live, counter, bump, is_taken, find_release, is_open_release, seal_rows, seal_release,
  finish_release, fail_release, get_release, list_releases, newest_first, place_release, delete_app,
  start_release,
}
use panely.Store.Numbering.{Op, starting, finishing, failing, run}

-- Numbers as tallies, in place of decimals.
abbrev tally : ℕ → String
tally zero = String.[]
tally (suc n) = String.◌∷◌ "1" (tally n)

tail : String → String
tail String.[] = String.[]
tail (String.◌∷◌ c s) = s

abbrev all_run : Runs
all_run = record { begin = true; select = true; update = true; insertion = true; commit = true }

abbrev blog : App
blog = record {
  id = "blog";
  git_host = "github.com";
  git_owner = "ada";
  git_repo = "blog";
  git_branch = "main";
  dockerfile_path = "";
  build_args = [];
  env = [];
  volumes = [];
  container_port = 8080;
  replicas = 1;
  health_path = "/";
  domain = "blog.example";
  memory_bytes = 0;
  cpu_millis = 0;
  blkio_weight = 0;
  release_seq = 0;
  created_at = 1;
  updated_at = 1;
}

abbrev begun : Tables
begun = record { apps = blog ∷ []; releases = []; deployments = [] }

-- A release that is built, and one after it that fails; a late failure of the first is refused.
abbrev calls : List Op
calls =
    starting all_run 10 "blog" "0123"
    ∷ finishing true 11 "blog" "r1" "sha256:1"
    ∷ starting all_run 12 "blog" "4567"
    ∷ failing true 13 "blog" "r11" "no Dockerfile"
    ∷ failing true 14 "blog" "r1" "too late"
    ∷ []

abbrev first : Release
first = record {
  app_id = "blog";
  id = "r1";
  seq = 1;
  commit_sha = "0123";
  status = built;
  image_id = "sha256:1";
  started_at = 10;
  finished_at = 11;
  detail = "";
}

first_stays : get_release true "blog" "r1" (run tally calls begun) ≡ ok first
unfolding get_release find_release start_release finish_release fail_release seal_release seal_rows
    is_open_release is_taken counter bump
first_stays = refl

-- The newest of two releases.
newest_listed :
    list_releases true "blog" 1
      (record begun { releases = first ∷ (record first { id = "r2"; seq = 2 } ∷ []) })
    ≡ ok (record first { id = "r2"; seq = 2 } ∷ [])
unfolding list_releases newest_first place_release
newest_listed = refl

live_is_kept :
    (delete_app all_run "blog" (record begun { deployments = opened 20 "blog" "r1" ∷ [] })).0
    ≡ err (is_live "r1")
unfolding delete_app counter open_release
live_is_kept = refl

-- The tables with the first release, and calls after it.
abbrev later : Tables
later = record {
  apps = record blog { release_seq = 1 } ∷ [];
  releases = first ∷ [];
  deployments = [];
}

abbrev more_calls : List Op
more_calls = starting all_run 12 "blog" "4567" ∷ failing true 14 "blog" "r1" "too late" ∷ []
