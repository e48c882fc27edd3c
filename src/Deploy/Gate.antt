-- ===== src/Deploy/Gate.antt =====
-- The gate of internal/deploy/rollout.go: it ends, and what it takes to pass.
use panely.Kit.{
  ℕ, zero, suc, ◌+◌, ◌*◌, ◌≡◌, ◌≢◌, ◌≤◌, String, Option, none, some, List, [], ◌∷◌, arith, inl, inr,
  leb, Result, Result-cases, if◌then◌else◌,
}
use panely.Records.{App, Replica}
use panely.Deploy.World.{Env, World, sleep, do_call, reading_clock}
use panely.Deploy.Replicas.{nothing_ready, Reason, ready_count, measure_all, measure_one, Ready}
use panely.Deploy.Rollout.{GateOptions, out_of_fuel, Shortfall, await_loop, await_ready, too_few}

-- What the gate relies on of the clock: `time` of a world is its true time, which a reading gives,
-- a successful sleep moves forward by at least its length, and nothing moves back.
pub record ClockLaws {W : Type 0} (env : Env W) (time : W → ℕ) : Type 0 where
  pub reads : (w : W) → time w ≤ (env.now w).0
  pub reading : (w : W) → (env.now w).0 ≤ time (env.now w).1
  pub slept :
      (d : ℕ) (w : W)
      → (env.perform (sleep d) w).0 ≡ none
      → time w + d ≤ time (env.perform (sleep d) w).1
  pub listed : (app_id : String) (w : W) → time w ≤ time (env.list_replicas app_id w).1
  pub probed :
      (ip : String) (port : ℕ) (path : String) (w : W) → time w ≤ time (env.probe ip port path w).1

module _ {W : Type 0} (env : Env W) (time : W → ℕ) (laws : ClockLaws env time) where
  measure_one-time :
      (app : App) (rel : String) (rep : Replica) (t : Ready) (w : World W)
      → time w.outside ≤ time (measure_one env app rel rep t w).1.outside
  unfolding measure_one
  measure_one-time app rel rep t w =
      ground (arith, laws.probed rep.ip_address app.container_port app.health_path w.outside)

  measure_all-time :
      (app : App) (rel : String) (reps : List Replica) (t : Ready) (w : World W)
      → time w.outside ≤ time (measure_all env app rel reps t w).1.outside
  unfolding measure_all
  measure_all-time app rel [] t w = omega arith
  measure_all-time app rel (rep ∷ reps) t w =
      let (t', w') = measure_one env app rel rep t w in
      omega (arith, measure_one-time app rel rep t w, measure_all-time app rel reps t' w')

  ready_count-time :
      (app : App) (rel : String) (w : World W)
      → time w.outside ≤ time (ready_count env app rel w).1.outside
  unfolding ready_count
  ready_count-time app rel w = elim (Result-cases reps.0) [
    | inr (e, q) ↦ ground (arith, laws.listed app.id w.outside)
    | inl (rs, q) ↦ ground (
      arith,
      laws.listed app.id w.outside,
      measure_all-time app rel rs (nothing_ready env) (record w { outside = reps.1 }),
    )
  ]
    where
      reps : Result String (List Replica) × W
      reps = env.list_replicas app.id w.outside

  module _ (app : App) (rel : String) (gate : GateOptions) where
    -- The three steps of a round that goes on, from the world `w`.
    abbrev counted : World W → (ℕ × Reason) × World W
    counted w = ready_count env app rel w

    abbrev read : World W → ℕ × World W
    read w = reading_clock env (counted w).1

    abbrev waited : World W → Option String × World W
    waited w = do_call env (sleep gate.interval) (read w).1

    -- A round that reads a time before the deadline and sleeps brings the clock on by the interval.
    round-time :
        (w : World W)
        → (waited w).0 ≡ none
        → time w.outside + gate.interval ≤ time (waited w).1.outside
    round-time w e = omega (
      arith,
      ready_count-time app rel w,
      laws.reads (counted w).1.outside,
      laws.reading (counted w).1.outside,
      laws.slept gate.interval (read w).1.outside e,
    )

    late : (w : World W) → time w.outside ≤ (read w).0
    late w = omega (arith, ready_count-time app rel w, laws.reads (counted w).1.outside)

    -- The two counters after a round.
    abbrev streak_after : ℕ → World W → ℕ
    streak_after streak w = if leb app.replicas (counted w).0.0 then streak + 1 else 0

    abbrev last_after : Option Shortfall → World W → Option Shortfall
    last_after last w =
        if leb app.replicas (counted w).0.0
        then last
        else some (too_few (counted w).0.0 app.replicas (counted w).0.1)

    await_loop-ends :
        (fuel deadline streak : ℕ) (last : Option Shortfall) (w : World W)
        → deadline ≤ time w.outside + fuel * gate.interval
        → (await_loop env (suc fuel) app rel gate deadline streak last w).0 ≢ out_of_fuel
    unfolding await_loop
    await_loop-ends zero deadline streak last w h e = ground (arith, late w)
    await_loop-ends (suc fuel) deadline streak last w h e = ground (
      arith,
      late w,
      round-time w,
      await_loop-ends fuel deadline (streak_after streak w) (last_after last w) (waited w).1,
    )

    -- The gate ends, passed, at its deadline or by a wait that is cut short, on any fuel that holds the
    -- timeout in intervals and one round more, under a clock that keeps its laws.
    pub await_ready-ends :
        (fuel : ℕ) (w : World W)
        → gate.timeout ≤ fuel * gate.interval
        → (await_ready env (suc fuel) app rel gate w).0 ≢ out_of_fuel
    unfolding await_ready
    await_ready-ends fuel w h =
        await_loop-ends fuel ((env.now w.outside).0 + gate.timeout) 0 none (reading_clock env w).1
          (omega (arith, laws.reading w.outside))
