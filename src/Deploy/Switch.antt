-- ===== src/Deploy/Switch.antt =====
-- The protocol of a deployment, a rollback and a healing of internal/deploy/rollout.go.
use panely.Kit.{
  ap, ◌≡◌, ◌⊎◌, refl, String, Bool, Option, none, some, List, [], ◌∷◌, arith, eq_iff, Option-cases,
  inl, inr, Result, Result-cases, err, ◌∙◌,
}
use panely.Kit.Maps.{lookup}
use panely.Records.{App, Release, Deployment}
use panely.Proxy.Config.{Netip, Admin, Config, build_config}
use panely.Deploy.World.{Env, World, Call, load, do_call, set_active, ensure_network}
use panely.Deploy.Reconcile.{
  Why, bad_config, reconcile, plan, plan_all, plan_one, apply_plan, empty_plan, options, Plan,
  Outcome, ReconcileError,
}
use panely.Deploy.Replicas.{create_from, ensure_replicas}
use panely.Deploy.Rollout.{
  DrainError, join_errors, Settings, GateResult, passed, timed_out, cut_short, out_of_fuel,
  await_ready, RolloutError, gate_stopped, ours_skipped, joined, drain_stale, finish_switch,
  activate, switch_traffic, run, rollback,
}
use panely.Deploy.Streak.{Passes, await_ready-Passes}
use panely.Deploy.Protocol.{Phase, preparing, activated, loaded, drained, At}
use panely.Deploy.Steps.{create_from-Before, ensure_replicas-Before}
use panely.Deploy.Waiting.{await_ready-Before}
use panely.Deploy.Draining.{drain_stale-drained}

module _ {W Addr : Type 0} (env : Env W) (netip : Netip Addr) (admin : Admin) where
  plan_one-trace :
      (d : Deployment) (p : Plan) (w : World W) → (plan_one netip env admin d p w).1.trace ≡ w.trace
  unfolding plan_one
  plan_one-trace d p w = ground arith

  plan_all-trace :
      (ds : List Deployment) (p : Plan) (w : World W)
      → (plan_all netip env admin ds p w).1.trace ≡ w.trace
  unfolding plan_all
  plan_all-trace [] p w = refl
  plan_all-trace (d ∷ ds) p w =
      let (p', w') = plan_one netip env admin d p w in
      plan_all-trace ds p' w' ∙ plan_one-trace d p w

  pub plan-trace : (w : World W) → (plan netip env admin w).1.trace ≡ w.trace
  unfolding plan
  plan-trace w = elim (Result-cases deps.0) [
    | inr (x, e) ↦ rw (e, plan) refl
    | inl (ds, e) ↦
        rw (e, plan)
          (plan_all-trace ds (empty_plan netip env admin) (record w { outside = deps.1 }))
  ]
    where
      deps : Result String (List Deployment) × W
      deps = env.active_deployments w.outside

  apply_plan-cases :
      (p : Plan) (w : World W)
      → (((apply_plan netip env admin p w).1.trace ≡ w.trace)
          × ((x : ReconcileError) × ((apply_plan netip env admin p w).0 ≡ err x)))
        ⊎ ((cfg : Config) × ((apply_plan netip env admin p w).1.trace ≡ load cfg ∷ w.trace))
  unfolding apply_plan
  apply_plan-cases p w = elim (Result-cases (build_config netip (options netip env admin p))) [
    | inr (x, e) ↦ inl (ground arith, (bad_config x, ground arith))
    | inl (cfg, e) ↦ inr (cfg, ground arith)
  ]

  -- A reconciliation fails before the proxy is called, or it calls the proxy once.
  pub reconcile-cases :
      (w : World W)
      → (((reconcile netip env admin w).1.trace ≡ w.trace)
          × ((x : ReconcileError) × ((reconcile netip env admin w).0 ≡ err x)))
        ⊎ ((cfg : Config) × ((reconcile netip env admin w).1.trace ≡ load cfg ∷ w.trace))
  unfolding reconcile
  reconcile-cases w = elim (Result-cases planned.0) [
    | inr (x, e) ↦ inl (rw (e, reconcile) (plan-trace w), (x, ground arith))
    | inl (p, e) ↦ elim (apply_plan-cases p planned.1) [
      | inl (same, failed) ↦ inl (rw (e, reconcile) (same ∙ plan-trace w), rw (e, reconcile) failed)
      | inr (cfg, one) ↦ inr (cfg, rw (e, reconcile) (one ∙ ap (λ t. load cfg ∷ t) (plan-trace w)))
    ]
  ]
    where
      planned : Result ReconcileError Plan × World W
      planned = plan netip env admin w

  module _ (set : Settings) (app : App) (rel : Release) where
    -- What the result says of where the calls ended.
    abbrev pub Ends : Option RolloutError → Phase → Type 0
    Ends none p = (p ≡ loaded) ⊎ (p ≡ drained)
    Ends (some (joined _ _)) p = (p ≡ loaded) ⊎ (p ≡ drained)
    Ends (some (ours_skipped _)) p = p ≡ loaded
    Ends (some (gate_stopped _)) p = p ≡ preparing
    Ends (some _) p = (p ≡ preparing) ⊎ ((p ≡ activated) ⊎ (p ≡ loaded))

    -- The calls kept the protocol, and ended in a phase that fits the result.
    abbrev pub Kept : Option RolloutError → List Call → Type 0
    Kept r cs = (p : Phase) × At app rel.id set.window p cs × Ends r p

    finish_switch-Kept :
        (res : Outcome) (w : World W)
        → At app rel.id set.window loaded w.trace
        → let (r, w') = finish_switch env netip admin set app rel.id res w in Kept r w'.trace
    unfolding finish_switch
    finish_switch-Kept res w h = elim (Option-cases (lookup app.id res.skipped)) [
      | inr (why, e) ↦ rw (e, finish_switch) (loaded, h, refl)
      | inl e ↦ rw (e, finish_switch) (over (drain_stale-drained env app rel set.window w h))
    ]
      where
        drain : Option DrainError × World W
        drain = drain_stale env set.window app.id rel.id w

        over :
            (p : Phase) × At app rel.id set.window p drain.1.trace × ((p ≡ loaded) ⊎ (p ≡ drained))
            → Kept (join_errors env res.skipped drain.0) drain.1.trace
        over (p, at, q) = (p, at, ends res.skipped drain.0)
          where
            ends :
                (sk : List (String × Why)) (e : Option DrainError) → Ends (join_errors env sk e) p
            ends [] none = q
            ends [] (some e) = q
            ends (x ∷ xs) e = q

    activate-Kept :
        (w : World W)
        → At app rel.id set.window preparing w.trace
        → let (r, w') = activate env netip admin set app rel.id w in Kept r w'.trace
    unfolding activate
    activate-Kept w h = elim (Option-cases written.0) [
      | inr (x, e) ↦ rw (e, activate) (activated, at, inr (inl refl))
      | inl e ↦
          rw (e, activate)
            (elim (reconcile-cases written.1) [
              | inl (same, (x, q)) ↦ rw (q, activate) (activated, rw same at, inr (inl refl))
              | inr (cfg, one) ↦ elim (Result-cases answered.0) [
                | inr (x, q) ↦ rw (q, activate) (loaded, rw one (routed cfg), inr (inr refl))
                | inl (res, q) ↦
                    rw (q, activate) (finish_switch-Kept res answered.1 (rw one (routed cfg)))
              ]
            ])
    ]
      where
        written : Option String × World W
        written = do_call env (set_active app.id rel.id) w

        at : At app rel.id set.window activated written.1.trace
        at = ground (arith, h, eq_iff app.id app.id, eq_iff rel.id rel.id)

        answered : Result ReconcileError Outcome × World W
        answered = reconcile netip env admin written.1

        routed : (cfg : Config) → At app rel.id set.window loaded (load cfg ∷ written.1.trace)
        routed cfg = ground (arith, at)

    abbrev gate : World W → GateResult × World W
    gate w = await_ready env set.fuel app rel.id set.gate w

    -- No traffic has moved; or the gate was passed in a world that was still before the switch, and all the rest is
    -- the activation from there.
    abbrev pub Gated : Option RolloutError × World W → Type 0
    Gated q =
        At app rel.id set.window preparing q.1.trace
        ⊎ ((v : World W) × Passes env app rel.id set.gate v
            × At app rel.id set.window preparing v.trace
            × (q ≡ activate env netip admin set app rel.id v))

    switch_traffic-Kept :
        (w : World W)
        → At app rel.id set.window preparing w.trace
        → let (r, w') = switch_traffic env netip admin set app rel.id w in
          Kept r w'.trace × Gated (r, w')
    unfolding switch_traffic
    switch_traffic-Kept w h = go (gate w).0 refl
      where
        at : At app rel.id set.window preparing (gate w).1.trace
        at = await_ready-Before env app rel set.window set.gate set.fuel w h

        go :
            (g : GateResult)
            → (gate w).0 ≡ g
            → let (r, w') = switch_traffic env netip admin set app rel.id w in
              Kept r w'.trace × Gated (r, w')
        go passed e =
            rw (e, switch_traffic)
              (
                activate-Kept (gate w).1 at,
                inr ((gate w).1, await_ready-Passes env app rel.id set.gate set.fuel w e, at, refl),
              )
        go (timed_out x) e = rw (e, switch_traffic) ((preparing, at, refl), inl at)
        go (cut_short x) e = rw (e, switch_traffic) ((preparing, at, refl), inl at)
        go out_of_fuel e = rw (e, switch_traffic) ((preparing, at, refl), inl at)

    -- A deployment that starts before the switch keeps the protocol: the replicas wanted are created and started first, and
    -- no traffic moves, or the gate is passed and all the rest is the activation from there: the release is
    -- written as active, only then the proxy is loaded, and releases are stopped only after the drain window, this one
    -- never. Where it ends fits its result: on success the proxy is loaded, at a gate that is not
    -- passed no traffic has moved, and if this app was skipped nothing has been stopped.
    pub run-Kept :
        (w : World W)
        → At app rel.id set.window preparing w.trace
        → let (r, w') = run env netip admin set app rel w in Kept r w'.trace × Gated (r, w')
    unfolding run
    run-Kept w h = elim (Option-cases net.0) [
      | inr (x, e) ↦ rw (e, run) ((preparing, at, inl refl), inl at)
      | inl e ↦
          rw (e, run)
            (elim (Option-cases made.0) [
              | inr (x, q) ↦ rw (q, run) ((preparing, up, inl refl), inl up)
              | inl q ↦ rw (q, run) (switch_traffic-Kept made.1 up)
            ])
    ]
      where
        net : Option String × World W
        net = do_call env (ensure_network app.id) w

        at : At app rel.id set.window preparing net.1.trace
        at = ground (arith, h, eq_iff app.id app.id)

        made : Option String × World W
        made = create_from env app rel app.replicas 0 net.1

        up : At app rel.id set.window preparing made.1.trace
        up = create_from-Before env app rel set.window app.replicas 0 net.1 (omega arith) at

    -- A rollback that starts before the switch keeps the same protocol as a deployment; before the gate it creates only
    -- replicas wanted of the release, starts those and stops only those past the number.
    pub rollback-Kept :
        (w : World W)
        → At app rel.id set.window preparing w.trace
        → let (r, w') = rollback env netip admin set app rel w in
          Kept r.1 w'.trace × Gated (r.1, w')
    unfolding rollback
    rollback-Kept w h = elim (Option-cases net.0) [
      | inr (x, e) ↦ rw (e, rollback) ((preparing, at, inl refl), inl at)
      | inl e ↦
          rw (e, rollback)
            (elim (Option-cases made.0.1) [
              | inr (x, q) ↦ rw (q, rollback) ((preparing, up, inl refl), inl up)
              | inl q ↦ rw (q, rollback) (switch_traffic-Kept made.1 up)
            ])
    ]
      where
        net : Option String × World W
        net = do_call env (ensure_network app.id) w

        at : At app rel.id set.window preparing net.1.trace
        at = ground (arith, h, eq_iff app.id app.id)

        made : (Bool × Option String) × World W
        made = ensure_replicas env app rel net.1

        up : At app rel.id set.window preparing made.1.trace
        up = ensure_replicas-Before env app rel set.window net.1 at
