-- ===== src/Deploy/Reconcile.antt =====
-- internal/deploy/reconcile.go: `Reconcile`. Its mutex makes one call at a time of it; the model is
-- that one call.
use panely.Kit.{
  ◌++◌, ℕ, ◌+◌, String, none, some, List, [], ◌∷◌, ltb, leb, ◌==◌, ◌=ₛ◌, if◌then◌else◌, not, Result,
  ok, err, length,
}
use panely.Kit.Sort.{sort_by}
use panely.Kit.Maps.{insert}
use panely.Records.{Deployment, Replica, is_routable}
use panely.Proxy.Config.{
  Netip, Upstream, AppRoute, Admin, BuildOptions, ConfigError, new_upstream, build_config,
}
use panely.Deploy.World.{Env, World, Run, load, do_call, listing}

-- Why an app is skipped.
pub data Why : Type 0 where
  no_listing : String → Why
  no_replicas_wanted : Why
  bad_address : ℕ → ConfigError → Why
  none_up : String → ℕ → ℕ → ℕ → ℕ → Why

pub data ReconcileError : Type 0 where
  no_deployments : String → ReconcileError
  bad_config : ConfigError → ReconcileError
  not_loaded : String → ReconcileError

-- `Result` of reconcile.go.
pub record Outcome : Type 0 where
  pub routed : List String
  pub skipped : List (String × Why)

pub record Plan : Type 0 where
  pub routes : List AppRoute
  pub skipped_domains : List (String × String)
  pub res : Outcome

-- `sort.Slice` by the index.
unfoldable pub place_index : Replica → List Replica → List Replica
place_index r [] = r ∷ []
place_index r (s ∷ reps) =
    let rest = place_index r reps in if ltb s.index r.index then s ∷ rest else r ∷ (s ∷ reps)

unfoldable pub by_index : List Replica → List Replica
unfolding place_index
by_index [] = []
by_index (r ∷ reps) = place_index r (by_index reps)

-- The counters of the loop of `upstreamsFor`, with the upstreams found.
pub record Tally : Type 0 where
  pub ups : List Upstream
  pub not_mine : ℕ
  pub not_up : ℕ
  pub extra : ℕ

module _ {Addr : Type 0} (netip : Netip Addr) where
  abbrev pub add_upstream : Upstream → Result Why Tally → Result Why Tally
  add_upstream u (ok t) = ok (record t { ups = u ∷ t.ups })
  add_upstream u (err e) = err e

  abbrev pub count_not_mine : Result Why Tally → Result Why Tally
  count_not_mine (ok t) = ok (record t { not_mine = t.not_mine + 1 })
  count_not_mine (err e) = err e

  abbrev pub count_not_up : Result Why Tally → Result Why Tally
  count_not_up (ok t) = ok (record t { not_up = t.not_up + 1 })
  count_not_up (err e) = err e

  abbrev pub count_extra : Result Why Tally → Result Why Tally
  count_extra (ok t) = ok (record t { extra = t.extra + 1 })
  count_extra (err e) = err e

  -- The loop of `upstreamsFor`, from the last replica back: an address that cannot be used ends it.
  unfoldable pub tally : Deployment → List Replica → Result Why Tally
  tally d [] = ok (record { ups = []; not_mine = 0; not_up = 0; extra = 0 })
  tally d (rep ∷ reps) =
      let rest = tally d reps in
      if not (rep.release_id =ₛ d.release_id)
      then count_not_mine rest
      else if not (is_routable rep)
      then count_not_up rest
      else if leb d.replicas rep.index
      then count_extra rest
      else elim (new_upstream netip rep.ip_address d.container_port) [
        | err e ↦ err (bad_address rep.index e)
        | ok u ↦ add_upstream u rest
      ]

  abbrev pub require_some : Deployment → ℕ → Result Why Tally → Result Why (List Upstream)
  require_some d n (err why) = err why
  require_some d n (ok t) = elim t.ups [
    | [] ↦ err (none_up d.release_id n t.not_mine t.not_up t.extra)
    | u ∷ us ↦ ok (u ∷ us)
  ]

  -- `upstreamsFor` on the listing.
  unfoldable pub upstreams_from :
      Deployment → Result String (List Replica) → Result Why (List Upstream)
  unfolding tally
  upstreams_from d (err e) = err (no_listing e)
  upstreams_from d (ok reps) =
      if d.replicas == 0
      then err no_replicas_wanted
      else require_some d (length reps) (tally d (by_index reps))

  module _ {W : Type 0} (env : Env W) (admin : Admin) where
    abbrev pub empty_plan : Plan
    empty_plan = record {
      routes = [];
      skipped_domains = [];
      res = record { routed = []; skipped = [] };
    }

    abbrev pub skip_app : Deployment → Why → Plan → Plan
    skip_app d why p = record p {
      skipped_domains = insert d.app_id d.domain p.skipped_domains;
      res = record p.res { skipped = insert d.app_id why p.res.skipped };
    }

    abbrev pub route_app : Deployment → List Upstream → Plan → Plan
    route_app d ups p = record p {
      routes = p.routes ++ record { app_id = d.app_id; domain = d.domain; upstreams = ups } ∷ [];
      res = record p.res { routed = p.res.routed ++ d.app_id ∷ [] };
    }

    abbrev pub extend : Deployment → Result Why (List Upstream) → Plan → Plan
    extend d (err why) p = skip_app d why p
    extend d (ok ups) p = route_app d ups p

    -- One round of the loop of `plan`.
    unfoldable pub plan_one : Deployment → Plan → Run W Plan
    unfolding upstreams_from
    plan_one d p w =
        if d.domain =ₛ ""
        then (p, w)
        else (let (reps, w1) = listing env d.app_id w in (extend d (upstreams_from d reps) p, w1))

    -- The loop of `plan` over the deployments.
    unfoldable pub plan_all : List Deployment → Plan → Run W Plan
    plan_all [] p w = (p, w)
    plan_all (d ∷ ds) p w = let (p', w') = plan_one d p w in plan_all ds p' w'

    unfoldable pub plan : Run W (Result ReconcileError Plan)
    plan w =
        let (deps, outside) = env.active_deployments w.outside in
        let w1 : World W = record w { outside = outside } in
        elim deps [
          | err e ↦ (err (no_deployments e), w1)
          | ok ds ↦ let (p, w2) = plan_all ds empty_plan w1 in (ok p, w2)
        ]

    abbrev pub options : Plan → BuildOptions
    options p = record { admin = admin; routes = p.routes; http_port = 0; https_port = 0 }

    -- `Reconcile` once the plan is made.
    unfoldable pub apply_plan : Plan → Run W (Result ReconcileError Outcome)
    apply_plan p w = elim (build_config netip (options p)) [
      | err e ↦ (err (bad_config e), w)
      | ok cfg ↦
          let (e, w1) = do_call env (load cfg) w in
          elim e [
            | some why ↦ (err (not_loaded why), w1)
            | none ↦ (ok (record p.res { routed = sort_by (λ s. s) p.res.routed }), w1)
          ]
    ]

    unfoldable pub reconcile : Run W (Result ReconcileError Outcome)
    reconcile w = let (p, w1) = plan w in elim p [ err e ↦ (err e, w1) | ok q ↦ apply_plan q w1 ]
