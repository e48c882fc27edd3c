-- ===== src/Deploy/Healing.antt =====
-- What `Heal` of internal/deploy/rollout.go may do.
use panely.Kit.{
  ◌≡◌, ◌⊎◌, refl, String, Bool, Option, none, some, List, ◌∷◌, arith, eq_iff, Option-cases, inl,
  inr, Result-cases,
}
use panely.Kit.Maps.{lookup}
use panely.Records.{App, Release}
use panely.Proxy.Config.{Netip, Admin, Config}
use panely.Deploy.World.{Env, World, Call, load, do_call, ensure_network}
use panely.Deploy.Reconcile.{reconcile}
use panely.Deploy.Replicas.{ensure_replicas}
use panely.Deploy.Rollout.{
  Settings, GateResult, passed, timed_out, cut_short, out_of_fuel, await_ready, RolloutError,
  ours_skipped, reconcile_failed, heal, heal_gated, bring_back,
}
use panely.Deploy.Streak.{Passes, await_ready-Passes}
use panely.Deploy.Protocol.{preparing, At}
use panely.Deploy.Steps.{ensure_replicas-Before}
use panely.Deploy.Waiting.{await_ready-Before}
use panely.Deploy.Switch.{reconcile-cases}

module _ {W Addr : Type 0} (env : Env W) (netip : Netip Addr) (admin : Admin) (set : Settings)
    (app : App) (rel : Release) where
  -- Only the replicas wanted of this release were touched.
  abbrev pub Untouched : List Call → Type 0
  Untouched cs = At app rel.id set.window preparing cs

  -- The proxy was loaded once, as the last call, in a world where the healing gate had just been passed and only those
  -- replicas had been touched.
  pub record Reloaded (cs : List Call) : Type 0 where
    pub cfg : Config
    pub at : World W
    pub once : cs ≡ load cfg ∷ at.trace
    pub untouched : Untouched at.trace
    pub gate : Passes env app rel.id set.heal_gate at

  -- What a healing did, by its result.
  abbrev pub Healed : Option RolloutError → List Call → Type 0
  Healed none cs = Reloaded cs
  Healed (some (ours_skipped _)) cs = Reloaded cs
  Healed (some (reconcile_failed _)) cs = Untouched cs ⊎ Reloaded cs
  Healed (some _) cs = Untouched cs

  bring_back-Healed :
      (recreated : Bool) (w : World W)
      → Untouched w.trace
      → Passes env app rel.id set.heal_gate w
      → let (r, w') = bring_back env netip admin set app recreated w in Healed r.1 w'.trace
  unfolding bring_back
  bring_back-Healed recreated w h g = elim (reconcile-cases env netip admin w) [
    | inl (same, (x, q)) ↦ rw (q, bring_back) (inl (rw same h))
    | inr (cfg, one) ↦
        let done : Reloaded (reconcile netip env admin w).1.trace = record {
          cfg = cfg;
          at = w;
          once = one;
          untouched = h;
          gate = g;
        } in
        elim (Result-cases (reconcile netip env admin w).0) [
          | inr (x, q) ↦ rw (q, bring_back) (inr done)
          | inl (res, q) ↦
              rw (q, bring_back)
                (elim (Option-cases (lookup app.id res.skipped)) [
                  | inr (why, k) ↦ rw (k, bring_back) done
                  | inl k ↦ rw (k, bring_back) done
                ])
        ]
  ]

  abbrev healing_gate : World W → GateResult × World W
  healing_gate w = await_ready env set.fuel app rel.id set.heal_gate w

  heal_gated-Healed :
      (recreated : Bool) (w : World W)
      → Untouched w.trace
      → let (r, w') = heal_gated env netip admin set app rel.id recreated w in Healed r.1 w'.trace
  unfolding heal_gated
  heal_gated-Healed recreated w h = go (healing_gate w).0 refl
    where
      at : Untouched (healing_gate w).1.trace
      at = await_ready-Before env app rel set.window set.heal_gate set.fuel w h

      go :
          (g : GateResult)
          → (healing_gate w).0 ≡ g
          → let (r, w') = heal_gated env netip admin set app rel.id recreated w in
            Healed r.1 w'.trace
      go passed e =
          rw (e, heal_gated)
            (bring_back-Healed recreated (healing_gate w).1 at
              (await_ready-Passes env app rel.id set.heal_gate set.fuel w e))
      go (timed_out x) e = rw (e, heal_gated) at
      go (cut_short x) e = rw (e, heal_gated) at
      go out_of_fuel e = rw (e, heal_gated) at

  -- A healing that starts before the switch never writes the active release and stops no other release: it only
  -- creates and starts the replicas wanted of this one and stops those past the number. If it succeeds, its last call
  -- has loaded the proxy, once, right after its gate was passed; if it fails before that, the proxy is left alone.
  pub heal-Healed :
      (w : World W)
      → Untouched w.trace
      → let (r, w') = heal env netip admin set app rel w in Healed r.1 w'.trace
  unfolding heal
  heal-Healed w h = elim (Option-cases net.0) [
    | inr (x, e) ↦ rw (e, heal) at
    | inl e ↦
        rw (e, heal)
          (elim (Option-cases made.0.1) [
            | inr (x, q) ↦ rw (q, heal) up
            | inl q ↦ rw (q, heal) (heal_gated-Healed made.0.0 made.1 up)
          ])
  ]
    where
      net : Option String × World W
      net = do_call env (ensure_network app.id) w

      at : Untouched net.1.trace
      at = ground (arith, h, eq_iff app.id app.id)

      made : (Bool × Option String) × World W
      made = ensure_replicas env app rel net.1

      up : Untouched made.1.trace
      up = ensure_replicas-Before env app rel set.window net.1 at
