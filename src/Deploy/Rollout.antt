-- ===== src/Deploy/Rollout.antt =====
-- internal/deploy/rollout.go: the gate, the switch of traffic, and the three ways in: deployment, rollback and
-- healing. The loop of the gate has no bound of its own; here it takes fuel.
use panely.Kit.{
  ℕ, zero, suc, ◌+◌, ◌*◌, String, Bool, false, Option, none, some, List, [], ◌∷◌, ltb, leb,
  if◌then◌else◌, ok, err,
}
use panely.Kit.Maps.{lookup}
use panely.Records.{App, Release}
use panely.Proxy.Config.{Netip, Admin}
use panely.Deploy.World.{
  Env, World, Run, ensure_network, set_active, stop_release, sleep, do_call, listing, reading_clock,
}
use panely.Deploy.Reconcile.{Why, Outcome, ReconcileError, reconcile}
use panely.Deploy.Replicas.{Reason, ready_count, ensure_replicas, create_from, stale_releases}

pub record GateOptions : Type 0 where
  pub successes : ℕ
  pub interval : ℕ
  pub timeout : ℕ

-- The last shortfall that the gate saw: how many were ready, of how many, and why.
pub data Shortfall : Type 0 where
  too_few : ℕ → ℕ → Reason → Shortfall
  short_streak : ℕ → ℕ → Shortfall

pub data GateResult : Type 0 where
  passed : GateResult
  timed_out : Shortfall → GateResult
  cut_short : String → GateResult
  out_of_fuel : GateResult

pub record Settings : Type 0 where
  pub gate : GateOptions
  pub heal_gate : GateOptions
  pub window : ℕ
  pub fuel : ℕ

abbrev pub second : ℕ
second = 1_000_000_000

-- `DefaultGate`, `DefaultHealGate` and `DefaultDrain`.
abbrev pub default_gate : GateOptions
default_gate = record { successes = 3; interval = 2 * second; timeout = 90 * second }

abbrev pub default_heal_gate : GateOptions
default_heal_gate = record { successes = 2; interval = second; timeout = 15 * second }

abbrev pub default_settings : ℕ → Settings
default_settings fuel = record {
  gate = default_gate;
  heal_gate = default_heal_gate;
  window = 10 * second;
  fuel = fuel;
}

-- What the drain could not do: list the releases, wait, or stop some.
pub data DrainError : Type 0 where
  not_listed : String → DrainError
  drain_cut : String → DrainError
  not_stopped : List (String × String) → DrainError

-- What the three entry points return in place of `nil`.
pub data RolloutError : Type 0 where
  call_failed : String → RolloutError
  replicas_failed : String → RolloutError
  gate_stopped : GateResult → RolloutError
  reconcile_failed : ReconcileError → RolloutError
  ours_skipped : List (String × Why) → RolloutError
  joined : List (String × Why) → Option DrainError → RolloutError

abbrev pub or_short : Option Shortfall → ℕ → ℕ → Shortfall
or_short none streak needed = short_streak streak needed
or_short (some s) streak needed = s

module _ {W : Type 0} (env : Env W) where
  -- The loop of `awaitReady`.
  unfoldable pub await_loop :
      ℕ → App → String → GateOptions → ℕ → ℕ → Option Shortfall → Run W GateResult
  await_loop zero app rel gate deadline streak last w = (out_of_fuel, w)
  await_loop (suc fuel) app rel gate deadline streak last w =
      let ((ready, why), w1) = ready_count env app rel w in
      let enough = leb app.replicas ready in
      let streak' = if enough then streak + 1 else 0 in
      let last' = if enough then last else some (too_few ready app.replicas why) in
      let (t, w2) = reading_clock env w1 in
      let (e, w3) = do_call env (sleep gate.interval) w2 in
      let rest = await_loop fuel app rel gate deadline streak' last' w3 in
      let waited : GateResult × World W = elim e [ some x ↦ (cut_short x, w3) | none ↦ rest ] in
      let late : GateResult × World W = (timed_out (or_short last' streak' gate.successes), w2) in
      let on_time : GateResult × World W = if ltb t deadline then waited else late in
      if enough then (if leb gate.successes streak' then (passed, w1) else on_time) else on_time

  -- `awaitReady`.
  unfoldable pub await_ready : ℕ → App → String → GateOptions → Run W GateResult
  unfolding await_loop
  await_ready fuel app rel gate w =
      let (t, w1) = reading_clock env w in await_loop fuel app rel gate (t + gate.timeout) 0 none w1

  -- The last loop of `drainStale`: the releases that could not be stopped.
  unfoldable pub stop_all : String → List String → Run W (List (String × String))
  stop_all app_id [] w = ([], w)
  stop_all app_id (id ∷ ids) w =
      let (e, w1) = do_call env (stop_release app_id id) w in
      let (errs, w2) = stop_all app_id ids w1 in
      elim e [ none ↦ (errs, w2) | some x ↦ ((id, x) ∷ errs, w2) ]

  abbrev pub drain_result : List (String × String) → Option DrainError
  drain_result [] = none
  drain_result (x ∷ xs) = some (not_stopped (x ∷ xs))

  -- `drainStale` on the stale releases.
  unfoldable pub drain_listed : ℕ → String → List String → Run W (Option DrainError)
  drain_listed window app_id [] w = (none, w)
  drain_listed window app_id (id ∷ ids) w =
      let (e, w1) = do_call env (sleep window) w in
      elim e [
        | some x ↦ (some (drain_cut x), w1)
        | none ↦ let (errs, w2) = stop_all app_id (id ∷ ids) w1 in (drain_result errs, w2)
      ]

  -- `drainStale`.
  unfoldable pub drain_stale : ℕ → String → String → Run W (Option DrainError)
  drain_stale window app_id active w =
      let (reps, w1) = listing env app_id w in
      elim reps [
        | err e ↦ (some (not_listed e), w1)
        | ok rs ↦ drain_listed window app_id (stale_releases active rs) w1
      ]

  -- `errors.Join(skippedErr, drainErr)`.
  abbrev pub join_errors : List (String × Why) → Option DrainError → Option RolloutError
  join_errors [] none = none
  join_errors [] (some e) = some (joined [] (some e))
  join_errors (x ∷ xs) e = some (joined (x ∷ xs) e)

  module _ {Addr : Type 0} (netip : Netip Addr) (admin : Admin) (set : Settings) where
    -- `switchTraffic` once the proxy has its routes.
    unfoldable pub finish_switch : App → String → Outcome → Run W (Option RolloutError)
    finish_switch app rel res w = elim (lookup app.id res.skipped) [
      | some why ↦ (some (ours_skipped res.skipped), w)
      | none ↦ let (e, w1) = drain_stale set.window app.id rel w in (join_errors res.skipped e, w1)
    ]

    -- `switchTraffic` once the gate is passed.
    unfoldable pub activate : App → String → Run W (Option RolloutError)
    activate app rel w =
        let (e, w1) = do_call env (set_active app.id rel) w in
        elim e [
          | some x ↦ (some (call_failed x), w1)
          | none ↦
              let (r, w2) = reconcile netip env admin w1 in
              elim r [
                | err x ↦ (some (reconcile_failed x), w2)
                | ok res ↦ finish_switch app rel res w2
              ]
        ]

    -- `switchTraffic`.
    unfoldable pub switch_traffic : App → String → Run W (Option RolloutError)
    switch_traffic app rel w =
        let (g, w1) = await_ready set.fuel app rel set.gate w in
        elim g [ passed ↦ activate app rel w1 | other ↦ (some (gate_stopped other), w1) ]

    -- `Run`.
    unfoldable pub run : App → Release → Run W (Option RolloutError)
    run app rel w =
        let (n, w1) = do_call env (ensure_network app.id) w in
        elim n [
          | some e ↦ (some (call_failed e), w1)
          | none ↦
              let (c, w2) = create_from env app rel app.replicas 0 w1 in
              elim c [ some e ↦ (some (call_failed e), w2) | none ↦ switch_traffic app rel.id w2 ]
        ]

    -- `Rollback`: whether replicas were created anew, and the error.
    unfoldable pub rollback : App → Release → Run W (Bool × Option RolloutError)
    rollback app rel w =
        let (n, w1) = do_call env (ensure_network app.id) w in
        elim n [
          | some e ↦ ((false, some (call_failed e)), w1)
          | none ↦
              let ((recreated, c), w2) = ensure_replicas env app rel w1 in
              elim c [
                | some e ↦ ((recreated, some (replicas_failed e)), w2)
                | none ↦ let (r, w3) = switch_traffic app rel.id w2 in ((recreated, r), w3)
              ]
        ]

    -- `Heal` once the short gate is passed.
    unfoldable pub bring_back : App → Bool → Run W (Bool × Option RolloutError)
    bring_back app recreated w =
        let (r, w1) = reconcile netip env admin w in
        elim r [
          | err x ↦ ((recreated, some (reconcile_failed x)), w1)
          | ok res ↦ elim (lookup app.id res.skipped) [
            | some why ↦ ((recreated, some (ours_skipped res.skipped)), w1)
            | none ↦ ((recreated, none), w1)
          ]
        ]

    -- `Heal` once the replicas run.
    unfoldable pub heal_gated : App → String → Bool → Run W (Bool × Option RolloutError)
    heal_gated app rel recreated w =
        let (g, w1) = await_ready set.fuel app rel set.heal_gate w in
        elim g [
          | passed ↦ bring_back app recreated w1
          | other ↦ ((recreated, some (gate_stopped other)), w1)
        ]

    -- `Heal`.
    unfoldable pub heal : App → Release → Run W (Bool × Option RolloutError)
    heal app rel w =
        let (n, w1) = do_call env (ensure_network app.id) w in
        elim n [
          | some e ↦ ((false, some (call_failed e)), w1)
          | none ↦
              let ((recreated, c), w2) = ensure_replicas env app rel w1 in
              elim c [
                | some e ↦ ((recreated, some (replicas_failed e)), w2)
                | none ↦ heal_gated app rel.id recreated w2
              ]
        ]
