-- ===== src/Deploy/Waiting.antt =====
-- The gate of internal/deploy/rollout.go along the protocol: it measures and sleeps, no more.
use panely.Kit.{
  ◌∙◌, ℕ, zero, suc, ◌+◌, ◌≡◌, ◌⊎◌, refl, String, Option, none, some, List, [], ◌∷◌, if◌then◌else◌,
  arith, inl, inr, Result, Result-cases,
}
use panely.Records.{App, Release, Replica}
use panely.Deploy.World.{Env, World, reading_clock}
use panely.Deploy.Replicas.{Ready, measure_one, measure_all, ready_count, nothing_ready}
use panely.Deploy.Streak.{enough, next_round}
use panely.Deploy.Rollout.{too_few, GateOptions, Shortfall, await_loop, await_ready}
use panely.Deploy.Steps.{Before}

module _ {W : Type 0} (env : Env W) where
  measure_one-trace :
      (app : App) (rel : String) (rep : Replica) (t : Ready) (w : World W)
      → (measure_one env app rel rep t w).1.trace ≡ w.trace
  unfolding measure_one
  measure_one-trace app rel rep t w = ground arith

  measure_all-trace :
      (app : App) (rel : String) (reps : List Replica) (t : Ready) (w : World W)
      → (measure_all env app rel reps t w).1.trace ≡ w.trace
  unfolding measure_all
  measure_all-trace app rel [] t w = refl
  measure_all-trace app rel (rep ∷ reps) t w =
      let (t', w') = measure_one env app rel rep t w in
      measure_all-trace app rel reps t' w' ∙ measure_one-trace app rel rep t w

  -- A measurement makes none of the calls of the trace.
  pub ready_count-trace :
      (app : App) (rel : String) (w : World W) → (ready_count env app rel w).1.trace ≡ w.trace
  unfolding ready_count
  ready_count-trace app rel w = elim (Result-cases reps.0) [
    | inr (e, q) ↦ ground arith
    | inl (rs, q) ↦
        ground
          (arith, measure_all-trace app rel rs (nothing_ready env) (record w { outside = reps.1 }))
  ]
    where
      reps : Result String (List Replica) × W
      reps = env.list_replicas app.id w.outside

  module _ (app : App) (rel : Release) (window : ℕ) (gate : GateOptions) where
    after_round : World W → World W
    after_round w = next_round env app rel.id gate w

    streak_next : ℕ → World W → ℕ
    streak_next streak w = if enough env app rel.id gate w then streak + 1 else 0

    last_next : Option Shortfall → World W → Option Shortfall
    last_next last w =
        if enough env app rel.id gate w
        then last
        else some (
            too_few (ready_count env app rel.id w).0.0 app.replicas
              (ready_count env app rel.id w).0.1)

    -- How a round ends: without a wait, with a wait that is cut short, or in another round.
    await_loop-cases :
        (fuel deadline streak : ℕ) (last : Option Shortfall) (w : World W)
        → ((await_loop env (suc fuel) app rel.id gate deadline streak last w).1.trace
            ≡ (ready_count env app rel.id w).1.trace)
          ⊎ (((await_loop env (suc fuel) app rel.id gate deadline streak last w).1 ≡ after_round w)
              ⊎ (await_loop env (suc fuel) app rel.id gate deadline streak last w
                  ≡ await_loop env fuel app rel.id gate deadline
                      (streak_next streak w)
                      (last_next last w)
                      (after_round w)))
    unfolding await_loop after_round streak_next last_next
    await_loop-cases fuel deadline streak last w = ground arith

    after_round-Before :
        (w : World W) → Before env app rel window w → Before env app rel window (after_round w)
    unfolding after_round
    after_round-Before w h = ground (arith, ready_count-trace app rel.id w)

    await_loop-Before :
        (fuel deadline streak : ℕ) (last : Option Shortfall) (w : World W)
        → Before env app rel window w
        → Before env app rel window (await_loop env fuel app rel.id gate deadline streak last w).1
    await_loop-Before zero deadline streak last w h = unfold await_loop in h
    await_loop-Before (suc fuel) deadline streak last w h =
        elim (await_loop-cases fuel deadline streak last w) [
          | inl q ↦ rw (q, ready_count-trace) h
          | inr (inl q) ↦ rw q (after_round-Before w h)
          | inr (inr q) ↦ rw q (
              await_loop-Before fuel deadline (streak_next streak w) (last_next last w)
                (after_round w) (after_round-Before w h))
        ]

    -- The gate touches no traffic.
    pub await_ready-Before :
        (fuel : ℕ) (w : World W)
        → Before env app rel window w
        → Before env app rel window (await_ready env fuel app rel.id gate w).1
    unfolding await_ready
    await_ready-Before fuel w h =
        await_loop-Before fuel ((env.now w.outside).0 + gate.timeout) 0 none (reading_clock env w).1
          h
