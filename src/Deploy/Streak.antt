-- ===== src/Deploy/Streak.antt =====
-- What it takes to pass the gate of internal/deploy/rollout.go: measurements in a row.
use panely.Kit.{
  ◌⊎◌, ℕ, zero, suc, ◌+◌, ◌≡◌, ◌≤◌, refl, String, Bool, true, Option, none, some, arith, Bool-cases,
  inl, inr, leb, if◌then◌else◌,
}
use panely.Records.{App}
use panely.Deploy.World.{Env, World, sleep, do_call, reading_clock}
use panely.Deploy.Replicas.{ready_count}
use panely.Deploy.Rollout.{GateOptions, passed, Shortfall, too_few, await_loop, await_ready}

module _ {W : Type 0} (env : Env W) (app : App) (rel : String) (gate : GateOptions) where
  -- Does a measurement in this world find all the replicas wanted?
  abbrev pub enough : World W → Bool
  enough w = leb app.replicas (ready_count env app rel w).0.0

  -- The world after a measurement, a reading of the clock and a sleep of one interval.
  abbrev pub next_round : World W → World W
  next_round w =
      (do_call env (sleep gate.interval) (reading_clock env (ready_count env app rel w).1).1).1

  -- The `n` measurements just before the world `w`, an interval apart, all found enough.
  pub data Streak : ℕ → World W → Type 0 where
    broken : (w : World W) → Streak 0 w
    more :
        (n m : ℕ) (w w' : World W)
        → m ≡ n + 1
        → w' ≡ next_round w
        → enough w ≡ true
        → Streak n w
        → Streak m w'

  -- A gate that has just been passed in the world `w'`: the last of `successes` measurements in a row.
  pub record Passes (w' : World W) : Type 0 where
    pub before : World W
    pub count : ℕ
    pub row : Streak count before
    pub long : gate.successes ≤ count + 1
    pub last : enough before ≡ true
    pub now : w' ≡ (ready_count env app rel before).1

  -- The two counters after a measurement.
  abbrev streak_after : ℕ → World W → ℕ
  streak_after streak w = if enough w then streak + 1 else 0

  abbrev last_after : Option Shortfall → World W → Option Shortfall
  last_after last w =
      if enough w
      then last
      else some
          (too_few (ready_count env app rel w).0.0 app.replicas (ready_count env app rel w).0.1)

  -- A round of a gate that passes: it passes here, or goes on.
  await_loop-round :
      (fuel deadline streak : ℕ) (last : Option Shortfall) (w : World W)
      → (await_loop env (suc fuel) app rel gate deadline streak last w).0 ≡ passed
      → ((enough w ≡ true)
          × (gate.successes ≤ streak + 1)
          × ((await_loop env (suc fuel) app rel gate deadline streak last w).1
              ≡ (ready_count env app rel w).1))
        ⊎ (await_loop env (suc fuel) app rel gate deadline streak last w
            ≡ await_loop env fuel app rel gate deadline
                (streak_after streak w)
                (last_after last w)
                (next_round w))
  unfolding await_loop
  await_loop-round fuel deadline streak last w h = ground arith

  Streak-after :
      (streak : ℕ) (w : World W) → Streak streak w → Streak (streak_after streak w) (next_round w)
  Streak-after streak w row = elim (Bool-cases (enough w)) [
    | inl e ↦ rw e (more streak (streak + 1) w (next_round w) refl refl e row)
    | inr e ↦ rw e (broken (next_round w))
  ]

  await_loop-Passes :
      (fuel deadline streak : ℕ) (last : Option Shortfall) (w : World W)
      → Streak streak w
      → (await_loop env fuel app rel gate deadline streak last w).0 ≡ passed
      → Passes (await_loop env fuel app rel gate deadline streak last w).1
  await_loop-Passes zero deadline streak last w row h = absurd (unfold await_loop in ground arith)
  await_loop-Passes (suc fuel) deadline streak last w row h =
      elim (await_loop-round fuel deadline streak last w h) [
        | inl (e, long, q) ↦ record {
          before = w;
          count = streak;
          row = row;
          long = long;
          last = e;
          now = q;
        }
        | inr q ↦ rw q (
            await_loop-Passes fuel deadline (streak_after streak w) (last_after last w)
              (next_round w) (Streak-after streak w row) (rw q at h))
      ]

  -- A gate that passes has just made `successes` measurements in a row, an interval apart, each of
  -- which found all the replicas wanted; its last act is the last of them.
  pub await_ready-Passes :
      (fuel : ℕ) (w : World W)
      → (await_ready env fuel app rel gate w).0 ≡ passed
      → Passes (await_ready env fuel app rel gate w).1
  unfolding await_ready
  await_ready-Passes fuel w h =
      await_loop-Passes fuel ((env.now w.outside).0 + gate.timeout) 0 none (reading_clock env w).1
        (broken (reading_clock env w).1) h
