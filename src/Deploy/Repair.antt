-- ===== src/Deploy/Repair.antt =====
-- internal/deploy/reconcile.go: `Repair`, which brings back routes that the live proxy has lost.
use panely.Kit.{String, Bool, true, false, Option, none, some, List, [], ◌∷◌, ◌++◌, Result, ok, err}
use panely.Proxy.Config.{Netip, Admin, AppRoute, Config, ConfigError, Upstream, build_config}
use panely.Proxy.Live.{missing_hosts, verify_applied, live_upstreams, Difference}
use panely.Deploy.World.{Env, World, Run, load, do_call}
use panely.Deploy.Reconcile.{Why, ReconcileError, Plan, plan}

-- `RepairResult`, and the error beside it.
pub record Repaired : Type 0 where
  pub missing : List String
  pub skipped : List (String × Why)
  pub exact : Bool

pub data RepairError : Type 0 where
  not_planned : ReconcileError → RepairError
  not_built : ConfigError → RepairError
  not_current : String → RepairError
  not_restored : String → RepairError

abbrev pub nothing_repaired : List (String × Why) → Repaired
nothing_repaired skipped = record { missing = []; skipped = skipped; exact = false }

abbrev pub is_same : Option Difference → Bool
is_same none = true
is_same (some _) = false

module _ {W Addr : Type 0} (env : Env W) (netip : Netip Addr) (admin : Admin) where
  -- `build`.
  abbrev pub build : List AppRoute → Result ConfigError Config
  build routes =
      build_config netip (record { admin = admin; routes = routes; http_port = 0; https_port = 0 })

  abbrev pub keep_route : String → String → List Upstream → List AppRoute → List AppRoute
  keep_route app_id domain [] rest = rest
  keep_route app_id domain (u ∷ us) rest =
      record { app_id = app_id; domain = domain; upstreams = u ∷ us } ∷ rest

  -- The routes that the loop over the skipped domains appends.
  unfoldable pub kept_routes : Config → List (String × String) → List AppRoute
  kept_routes live [] = []
  kept_routes live ((app_id, domain) ∷ skipped) =
      keep_route app_id domain (live_upstreams netip (some live) domain) (kept_routes live skipped)

  -- `Repair` once hosts are found missing.
  unfoldable pub restore : Plan → Config → List String → Run W (Repaired × Option RepairError)
  unfolding kept_routes
  restore p live missing w =
      let out : Repaired = record { missing = missing; skipped = p.res.skipped; exact = false } in
      elim (build (p.routes ++ kept_routes live p.skipped_domains)) [
        | err e ↦ ((out, some (not_built e)), w)
        | ok cfg ↦
            let (e, w1) = do_call env (load cfg) w in
            elim e [
              | some why ↦ ((out, some (not_restored why)), w1)
              | none ↦ ((record out { exact = true }, none), w1)
            ]
      ]

  -- `Repair` once the live configuration is read.
  unfoldable pub repair_missing :
      Plan → Config → Config → List String → Run W (Repaired × Option RepairError)
  repair_missing p cfg live [] w = (
    (
      record (nothing_repaired p.res.skipped) {
        exact = is_same (verify_applied (some cfg) (some live));
      },
      none,
    ),
    w,
  )
  repair_missing p cfg live (h ∷ hs) w = restore p live (h ∷ hs) w

  -- `Repair` once the configuration wanted is built.
  unfoldable pub repair_built : Plan → Config → Run W (Repaired × Option RepairError)
  repair_built p cfg w =
      let (live, outside) = env.current w.outside in
      let w1 : World W = record w { outside = outside } in
      elim live [
        | err e ↦ ((nothing_repaired p.res.skipped, some (not_current e)), w1)
        | ok found ↦ repair_missing p cfg found (missing_hosts (some cfg) (some found)) w1
      ]

  -- `Repair`.
  unfoldable pub repair : Run W (Repaired × Option RepairError)
  repair w =
      let (p, w1) = plan netip env admin w in
      elim p [
        | err e ↦ ((nothing_repaired [], some (not_planned e)), w1)
        | ok q ↦ elim (build q.routes) [
          | err e ↦ ((nothing_repaired q.res.skipped, some (not_built e)), w1)
          | ok cfg ↦ repair_built q cfg w1
        ]
      ]
