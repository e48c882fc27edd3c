-- ===== src/Liveness/Tests.antt =====
-- A registry of two loops, and the theorems on it.

use panely.Kit.{◌+◌, ◌≡◌, ◌↔◌, refl, String, Option, none, List, [], All}
use panely.Liveness.Watchdog.{Beat, register, stale, check, beat}
use panely.Liveness.Alive.{IsFresh, beat-IsFresh}

abbrev two_loops : List Beat
two_loops = register "proxy" 90 1000 (register "health" 60 1000 [])

abbrev answered : Option String
answered = none

stays_silent : beat 1070 none two_loops 4 ≡ 4
unfolding beat check stale
stays_silent = refl

notifies : beat 1060 none two_loops 4 ≡ 5
unfolding beat check stale
notifies = refl

beat-IsFresh_example :
    (beat 1060 answered two_loops 4 ≡ 4 + 1) ↔ ((answered ≡ none) × All (IsFresh 1060) two_loops)
beat-IsFresh_example = beat-IsFresh 1060 answered two_loops 4

abbrev slow : Beat
slow = record { name = "health"; max_age = 60; last = 1000; max_gap = 3 }
