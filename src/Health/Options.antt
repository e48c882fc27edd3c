-- ===== src/Health/Options.antt =====
-- The options of internal/health/supervisor.go, and `backoff`. A `time.Duration` is an int64 of
-- nanoseconds, kept as its 64-bit pattern.
use panely.Kit.{
  ℕ, zero, suc, ◌-◌, ◌*◌, ◌%◌, ◌^◌, Bool, leb, ltb, ◌==◌, ◌||◌, ◌&&◌, if◌then◌else◌, Result, ok,
  err,
}

pub record Options : Type 0 where
  pub interval : ℕ
  pub failures_before_heal : ℕ
  pub backoff_base : ℕ
  pub backoff_max : ℕ
  pub heals_before_alarm : ℕ

abbrev pub second : ℕ
second = 1_000_000_000

-- `DefaultOptions`.
abbrev pub default_options : Options
default_options = record {
  interval = 2 * second;
  failures_before_heal = 3;
  backoff_base = 15 * second;
  backoff_max = 600 * second;
  heals_before_alarm = 3;
}

pub data OptionError : Type 0 where
  bad_interval_or_threshold bad_backoff bad_alarm_threshold : OptionError

-- `<= 0` of a 64-bit pattern.
abbrev pub not_positive : ℕ → Bool
not_positive n = n == 0 || leb (2 ^ 63) n

-- `a >= b` of 64-bit patterns, for a `b` that is not negative.
abbrev pub at_least : ℕ → ℕ → Bool
at_least a b = ltb a (2 ^ 63) && leb b a

-- The checks of `New` on the options; the components themselves are not nil here.
unfoldable pub check_options : Options → Result OptionError Options
check_options o =
    if not_positive o.interval || not_positive o.failures_before_heal
    then err bad_interval_or_threshold
    else if not_positive o.backoff_base
        || leb (2 ^ 63) o.backoff_max
        || ltb o.backoff_max o.backoff_base
    then err bad_backoff
    else if not_positive o.heals_before_alarm
    then err bad_alarm_threshold
    else ok o

-- The loop of `backoff`, with the rounds left: `d *= 2` wraps at 64 bits.
unfoldable pub backoff_loop : Options → ℕ → ℕ → ℕ
backoff_loop o zero d = d
backoff_loop o (suc rounds) d =
    let d' = d * 2 % 2 ^ 64 in
    let rest = backoff_loop o rounds d' in if at_least d' o.backoff_max then o.backoff_max else rest

unfoldable pub backoff : Options → ℕ → ℕ
unfolding backoff_loop
backoff o n = backoff_loop o (n - 1) o.backoff_base
