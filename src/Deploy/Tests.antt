-- ===== src/Deploy/Tests.antt =====
-- Runs of the rollout over a small world, and the theorems on them.
use panely.Kit.{
  err, ℕ, suc, ◌+◌, ◌≡◌, ◌≢◌, refl, String, false, none, some, [], ◌∷◌, ◌=ₛ◌, arith, ok,
  if◌then◌else◌,
}
use panely.Records.{App, Release, Deployment, Replica, built, running}
use panely.Proxy.Config.{Netip, Admin}
use panely.Kit.Sort.{sort_by, place}
use panely.Deploy.World.{Env, World, Call, sleep}
use panely.Deploy.Replicas.{ready_count, measure_all, measure_one, stale_releases, stale_from}
use panely.Deploy.Rollout.{
  Settings, default_settings, default_gate, passed, out_of_fuel, await_ready, await_loop, run,
  rollback, heal,
}
use panely.Kit.Maps.{lookup, insert}
use panely.Proxy.Config.{
  Upstream, Config, AppRoute, route_of, new_upstream, build_config, build_routes,
}
use panely.Proxy.Live.{
  live_upstreams, valid_dials, routes_by_host, add_servers, add_routes, add_matches, add_hosts,
  route_dials, missing_hosts, hosts_beyond,
}
use panely.Deploy.Reconcile.{upstreams_from, Plan, plan}
use panely.Deploy.Repair.{kept_routes, repair, repair_built, repair_missing, restore}
use panely.Deploy.Restored.{IsCarried, kept_routes-IsCarried, Restores, repair-Restores}
use panely.Deploy.Routing.{oks, dials, upstreams_from-dials}
use panely.Deploy.Reconcile.{by_index, plan_all, plan_one, tally, place_index}
use panely.Kit.{length, List, ◌↔◌, ◌⊎◌, All}
use panely.Deploy.Gate.{ClockLaws, await_ready-ends}
use panely.Deploy.Streak.{Passes, await_ready-Passes}
use panely.Deploy.Switch.{Kept, Gated, run-Kept, rollback-Kept}
use panely.Deploy.Healing.{Healed, heal-Healed}

abbrev plain : Netip String
plain = record {
  parse_addr = λ s. if s =ₛ "" then none else some s;
  is_unspecified = λ a. false;
  addr_port = λ a p. a;
  parse_addr_port = λ s. some (s, 80);
  addr_text = λ a. a;
  decimal = λ n. "443";
}

abbrev admin : Admin
admin = record { listen = "unix//run/caddy.sock"; origins = [] }

abbrev blog : App
blog = record {
  id = "blog";
  git_host = "github.com";
  git_owner = "you";
  git_repo = "site";
  git_branch = "main";
  dockerfile_path = "Dockerfile";
  build_args = [];
  env = [];
  volumes = [];
  container_port = 8080;
  replicas = 1;
  health_path = "/";
  domain = "site.example.com";
  memory_bytes = 268435456;
  cpu_millis = 500;
  blkio_weight = 500;
  release_seq = 2;
  created_at = 0;
  updated_at = 0;
}

abbrev second_release : Release
second_release = record {
  app_id = "blog";
  id = "r2";
  seq = 2;
  commit_sha = "c0ffee";
  status = built;
  image_id = "sha256:2";
  started_at = 0;
  finished_at = 0;
  detail = "";
}

abbrev live : Deployment
live = record {
  app_id = "blog";
  release_id = "r2";
  domain = "site.example.com";
  container_port = 8080;
  replicas = 1;
  activated_at = 0;
}

abbrev replica : String → Replica
replica rel = record {
  app_id = "blog";
  release_id = rel;
  index = 0;
  state = running;
  ip_address = "10.0.0.2";
  created_at = 0;
}

-- The world is its clock: only a sleep moves it. Both releases are up.
abbrev tick : Call → ℕ → ℕ
tick (sleep d) t = t + d
tick _ t = t

abbrev calm : Env ℕ
calm = record {
  perform = λ c t. (none, tick c t);
  list_replicas = λ app t. (ok (replica "r1" ∷ replica "r2" ∷ []), t);
  probe = λ ip port path t. (none, t);
  now = λ t. (t, t);
  active_deployments = λ t. (ok (live ∷ []), t);
  current = λ t. (err "no socket", t);
}

calm_laws : ClockLaws calm (λ t. t)
calm_laws = record {
  reads = λ t. omega arith;
  reading = λ t. omega arith;
  slept = λ d t e. omega arith;
  listed = λ app t. omega arith;
  probed = λ ip port path t. omega arith;
}

abbrev settings : Settings
settings = default_settings 46

abbrev begun : World ℕ
begun = record { outside = 5; trace = [] }

passes : (await_ready calm 46 blog "r2" default_gate begun).0 ≡ passed
unfolding await_ready await_loop ready_count measure_all measure_one
passes = refl

stops_old : stale_releases "r2" (replica "r1" ∷ replica "r2" ∷ replica "r1" ∷ []) ≡ "r1" ∷ []
unfolding stale_releases stale_from sort_by place
stops_old = refl

await_ready-ends_example : (await_ready calm (suc 45) blog "r2" default_gate begun).0 ≢ out_of_fuel
await_ready-ends_example =
    await_ready-ends calm (λ t. t) calm_laws blog "r2" default_gate 45 begun (omega arith)

await_ready-Passes_example :
    Passes calm blog "r2" default_gate (await_ready calm 46 blog "r2" default_gate begun).1
await_ready-Passes_example = await_ready-Passes calm blog "r2" default_gate 46 begun passes

run-Kept_example :
    let (r, w') = run calm plain admin settings blog second_release begun in
    Kept calm plain admin settings blog second_release r w'.trace
    × Gated calm plain admin settings blog second_release (r, w')
run-Kept_example = run-Kept calm plain admin settings blog second_release begun refl

rollback-Kept_example :
    let (r, w') = rollback calm plain admin settings blog second_release begun in
    Kept calm plain admin settings blog second_release r.1 w'.trace
    × Gated calm plain admin settings blog second_release (r.1, w')
rollback-Kept_example = rollback-Kept calm plain admin settings blog second_release begun refl

heal-Healed_example :
    let (r, w') = heal calm plain admin settings blog second_release begun in
    Healed calm plain admin settings blog second_release r.1 w'.trace
heal-Healed_example = heal-Healed calm plain admin settings blog second_release begun refl

abbrev three_listed : List Replica
three_listed = replica "r1" ∷ replica "r2" ∷ replica "r1" ∷ []

abbrev one_upstream : List Upstream
one_upstream = record { dial = "10.0.0.2" } ∷ []

upstreams_from-dials_example : (upstreams_from plain live (ok three_listed) ≡ ok one_upstream) ↔ (
    (live.replicas ≢ 0)
    × (one_upstream ≢ [])
    × (oks one_upstream ≡ dials plain live (by_index three_listed)))
upstreams_from-dials_example = upstreams_from-dials plain live three_listed one_upstream

-- Caddy has just started again, without routes.
abbrev bare : Config
bare = record { admin = admin; logs = []; http = none }

abbrev restarted : Env ℕ
restarted = record calm { current = λ t. (ok bare, t) }

-- The route of another app, which a repair finds live; of an address it keeps what it parses.
abbrev shop : AppRoute
shop = record {
  app_id = "shop";
  domain = "shop.example.com";
  upstreams = record { dial = "10.0.0.3" } ∷ [];
}

abbrev serving : Config
serving = record bare {
  http = some (record {
    servers = ("kadran", record { listen = ":443" ∷ []; routes = route_of shop ∷ [] }) ∷ [];
    http_port = 0;
    https_port = 0;
  });
}

-- The app with a live route is carried over, the one without is not.
abbrev two_skipped : List (String × String)
two_skipped = ("shop", "shop.example.com") ∷ ("docs", "docs.example.com") ∷ []

carries_shop : kept_routes restarted plain admin serving two_skipped ≡ shop ∷ []
unfolding kept_routes live_upstreams valid_dials new_upstream routes_by_host add_servers add_routes
    add_matches add_hosts route_dials lookup insert
carries_shop = refl

kept_routes-IsCarried_example :
    All (IsCarried restarted plain admin) (kept_routes restarted plain admin serving two_skipped)
kept_routes-IsCarried_example = kept_routes-IsCarried restarted plain admin serving two_skipped

-- Started without routes, the proxy lacks the one planned host, and the repair loads it.
restores_blog :
    let (r, w') = repair restarted plain admin begun in
    (r.0.missing ≡ "site.example.com" ∷ []) × (length w'.trace ≡ 1)
unfolding repair repair_built repair_missing restore kept_routes missing_hosts hosts_beyond
    routes_by_host add_servers add_routes add_matches add_hosts route_dials lookup insert sort_by
    place plan plan_all plan_one upstreams_from tally by_index place_index build_config build_routes
    new_upstream
restores_blog = (refl, refl)

repair-Restores_example :
    let (r, w') = repair restarted plain admin begun in
    let (q, w1) = plan plain restarted admin begun in
    (w'.trace ≡ [])
    ⊎ ((p : Plan) × (q ≡ ok p) × Restores restarted plain admin w1.outside [] w'.trace r.0 p)
repair-Restores_example = repair-Restores restarted plain admin begun
