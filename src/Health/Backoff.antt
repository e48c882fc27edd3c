-- ===== src/Health/Backoff.antt =====
-- `backoff` of internal/health/supervisor.go in closed form.
use Prim.Native.Nat.{min}
use native.Mathlib.Nat.{pow-suc}
use panely.Kit.{ℕ, zero, suc, ◌-◌, ◌*◌, ◌%◌, ◌^◌, ◌≤◌, ◌<◌, ◌≡◌, arith, ok}
use panely.Health.Options.{Options, backoff, backoff_loop, check_options}

-- What `New` has checked, with a ceiling below 2^62 nanoseconds (146 years).
pub record IsSound (o : Options) : Type 0 where
  pub base_pos : 0 < o.backoff_base
  pub base_le : o.backoff_base ≤ o.backoff_max
  pub max_le : o.backoff_max < 2 ^ 62

pow_pos : (n : ℕ) → 0 < 2 ^ n
pow_pos zero = omega arith
pow_pos (suc n) = simp pow-suc (omega (arith, pow_pos n))

-- Past the ceiling, more doublings stay past it.
times-pow_le : (a b n : ℕ) → b ≤ a → b ≤ a * 2 ^ n
times-pow_le a b n h = grind (arith, pow_pos n)

-- Below the ceiling the loop doubles; at the ceiling it stops.
backoff_loop-min :
    (o : Options) (rounds d : ℕ)
    → IsSound o
    → d ≤ o.backoff_max
    → backoff_loop o rounds d ≡ min (d * 2 ^ rounds) o.backoff_max
unfolding backoff_loop
backoff_loop-min o zero d s h = omega arith
backoff_loop-min o (suc rounds) d s h = ground (
  arith,
  wraps,
  powers,
  times-pow_le (d * 2) o.backoff_max rounds,
  backoff_loop-min o rounds (d * 2) s,
)
  where
    wraps : d * 2 % 2 ^ 64 ≡ d * 2
    wraps = omega (arith, s.max_le)

    powers : d * 2 ^ suc rounds ≡ d * 2 * 2 ^ rounds
    powers = simp pow-suc (grind arith)

-- The wait after the n-th attempt is the base doubled n - 1 times, cut at the ceiling, for options
-- that `New` accepts with a ceiling below 2^62 nanoseconds.
pub backoff-min :
    (o : Options) (n : ℕ)
    → check_options o ≡ ok o
    → o.backoff_max < 2 ^ 62
    → backoff o n ≡ min (o.backoff_base * 2 ^ (n - 1)) o.backoff_max
unfolding backoff
backoff-min o n c h = backoff_loop-min o (n - 1) o.backoff_base sound sound.base_le
  where
    sound : IsSound o
    sound = unfold check_options in ground arith
