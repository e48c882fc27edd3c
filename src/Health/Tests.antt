-- ===== src/Health/Tests.antt =====
-- Runs of the supervisor over a small world, and the theorems at concrete states.
use Prim.Native.Nat.{min}
use panely.Kit.{
  ◌+◌, false, ℕ, ◌-◌, ◌*◌, ◌^◌, ◌≡◌, ◌⊎◌, refl, false, [], ◌∷◌, arith, ok, err, true, some,
  Bool-cases, inl, inr, ◌=ₛ◌,
}
use panely.Kit.Maps.{lookup, insert, keep}
use panely.Records.{App, Release, Deployment, built}
use panely.Health.Options.{default_options, second, check_options, backoff}
use panely.Health.Backoff.{backoff-min}
use panely.Health.Supervisor.{
  Supervisor, Env, AppState, attempt, after_heal, heal, heal_if_due, mark_unhealthy, count_failure,
  state_for, visit_entry, visit, visit_all, cycle,
}
use panely.Health.Guard.{Warranted, heals_in, raises_in, visit-heals}
use panely.Health.Steady.{AllSteady, cycle-AllSteady}

accepts_defaults : check_options default_options ≡ ok default_options
unfolding check_options
accepts_defaults = refl

waits : backoff default_options 3 ≡ 60 * second
unfolding backoff
waits = refl

backoff-min_example :
    backoff default_options 3
    ≡ min (default_options.backoff_base * 2 ^ (3 - 1)) default_options.backoff_max
backoff-min_example = backoff-min default_options 3 accepts_defaults (omega arith)

abbrev blog : App
blog = record {
  id = "blog";
  git_host = "github.com";
  git_owner = "you";
  git_repo = "site";
  git_branch = "main";
  dockerfile_path = "Dockerfile";
  build_args = [];
  env = [];
  volumes = [];
  container_port = 8080;
  replicas = 1;
  health_path = "/";
  domain = "site.example.com";
  memory_bytes = 268435456;
  cpu_millis = 500;
  blkio_weight = 500;
  release_seq = 2;
  created_at = 0;
  updated_at = 0;
}

abbrev second_release : Release
second_release = record {
  app_id = "blog";
  id = "r2";
  seq = 2;
  commit_sha = "c0ffee";
  status = built;
  image_id = "sha256:2";
  started_at = 0;
  finished_at = 0;
  detail = "";
}

abbrev live : Deployment
live = record {
  app_id = "blog";
  release_id = "r2";
  domain = "site.example.com";
  container_port = 8080;
  replicas = 1;
  activated_at = 0;
}

-- One app that never answers and cannot be healed; the world is the clock, which only stands.
abbrev dead : Env ℕ
dead = record {
  active_deployments = λ w. (ok (live ∷ []), w);
  active_deployment = λ k w. (ok live, w);
  get_app = λ k w. (ok blog, w);
  get_release = λ k r w. (ok second_release, w);
  check = λ a r w. (0, "no answer", w);
  heal = λ a r w. (err "no image", w);
  now = λ w. (w, w);
  effect = λ c w. w;
}

abbrev failing : ℕ → ℕ → ℕ → AppState
failing failures heals next = record {
  release_id = "r2";
  failures = failures;
  unhealthy = false;
  heals = heals;
  next_heal_at = next;
}

abbrev with_entry : AppState → ℕ → Supervisor ℕ
with_entry st t = record { state = ("blog", st) ∷ []; trace = []; world = t }

-- The third failure heals, not before its time, and the third failed healing raises the alarm.
heals_third : heals_in (visit dead default_options live (with_entry (failing 2 0 0) 5)).trace ≡ 1
unfolding visit visit_entry state_for lookup insert count_failure mark_unhealthy heal_if_due heal
    attempt after_heal backoff
heals_third = refl

waits_its_time : heals_in (visit dead default_options live (with_entry (failing 2 1 9) 5)).trace ≡ 0
unfolding visit visit_entry state_for lookup insert count_failure mark_unhealthy heal_if_due
waits_its_time = refl

alarm_after_one_failed :
    raises_in
      (attempt dead default_options blog live second_release
        (failing 3 2 0)
        (with_entry (failing 3 2 0) 5)).trace
    ≡ 1
unfolding attempt after_heal insert
alarm_after_one_failed = refl

visit-heals_example :
    (heals_in (visit dead default_options live (with_entry (failing 2 0 0) 5)).trace ≡ 0)
    ⊎ Warranted dead default_options live
        (with_entry (failing 2 0 0) 5)
        (visit dead default_options live (with_entry (failing 2 0 0) 5))
visit-heals_example = visit-heals dead default_options live (with_entry (failing 2 0 0) 5)

-- The app has failed five times and was healed once in vain.
abbrev sick_entry : AppState
sick_entry = record (failing 5 1 0) { unhealthy = true }

abbrev sick : Supervisor ℕ
sick = with_entry sick_entry 5

-- The next cycle heals it again: its failures are counted anew, and it stays unhealthy.
heals_again :
    lookup "blog" (cycle dead default_options sick).state
    ≡ some (record (failing 0 2 (5 + 30 * second)) { unhealthy = true })
unfolding cycle visit_all visit visit_entry state_for lookup insert count_failure mark_unhealthy
    heal_if_due heal attempt after_heal backoff keep
heals_again = refl

sick_steady : AllSteady dead default_options (omega arith) sick
unfolding lookup
sick_steady k = elim (Bool-cases ("blog" =ₛ k)) [
  | inl e ↦ rw e (record { past = λ _. refl; healed = λ _. refl })
  | inr e ↦ rw e tt
]

cycle-AllSteady_example :
    AllSteady dead default_options (omega arith) (cycle dead default_options sick)
cycle-AllSteady_example = cycle-AllSteady dead default_options (omega arith) sick sick_steady
