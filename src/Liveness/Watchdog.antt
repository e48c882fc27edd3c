-- ===== src/Liveness/Watchdog.antt =====
-- internal/liveness/liveness.go. `Mark` is one step here: its atomic swap and the loop that raises the largest gap
-- are taken together. Times are nanoseconds; a difference below zero counts as none, as it does
-- in the comparisons of the code, whose other side is not negative.
use Prim.Native.Nat.{max}
use panely.Kit.{ℕ, ◌+◌, ◌-◌, String, Option, none, some, List, [], ◌∷◌, leb, ltb, if◌then◌else◌}

pub record Beat : Type 0 where
  pub name : String
  pub max_age : ℕ
  pub last : ℕ
  pub max_gap : ℕ

-- `Registry.Register`, at the time of the registry's clock.
abbrev pub register : String → ℕ → ℕ → List Beat → List Beat
register name max_age now [] =
    record { name = name; max_age = max_age; last = now; max_gap = 0 } ∷ []
register name max_age now (b ∷ beats) = b ∷ register name max_age now beats

-- `Beat.Mark`.
unfoldable pub mark : ℕ → Beat → Beat
mark now b =
    let gap = now - b.last in
    let b' : Beat = record b { last = now } in
    if leb gap b.max_gap then b' else record b' { max_gap = gap }

-- A loop that does not get on: its name, its age and its limit.
pub record StaleBeat : Type 0 where
  pub name : String
  pub age : ℕ
  pub max_age : ℕ

-- `Registry.Stale`.
unfoldable pub stale : ℕ → List Beat → List StaleBeat
stale now [] = []
stale now (b ∷ beats) =
    let rest = stale now beats in
    let age = now - b.last in
    if ltb b.max_age age
    then record { name = b.name; age = age; max_age = b.max_age } ∷ rest
    else rest

-- One round of `Registry.Gaps`: what is reported of a beat, and the beat after it.
unfoldable pub report_gap : ℕ → Beat → ℕ × Beat
report_gap now b = (max b.max_gap (now - b.last), record b { max_gap = 0 })

-- `Registry.Gaps`: each name with its gap, and the beats after it.
unfoldable pub gaps : ℕ → List Beat → List (String × ℕ) × List Beat
unfolding report_gap
gaps now [] = ([], [])
gaps now (b ∷ beats) =
    let (g, b') = report_gap now b in
    let (out, rest) = gaps now beats in ((b.name, g) ∷ out, b' ∷ rest)

-- What `Watchdog.Check` returns in place of nil: the loops that stand still, and the failure of the store.
pub record Problems : Type 0 where
  pub stuck : List StaleBeat
  pub store : Option String

-- `Watchdog.Check`, with the result of the ping.
unfoldable pub check : ℕ → Option String → List Beat → Option Problems
check now ping beats = elim (stale now beats) [
  | s ∷ ss ↦ some (record { stuck = s ∷ ss; store = ping })
  | [] ↦ elim ping [ some e ↦ some (record { stuck = []; store = some e }) | none ↦ none ]
]

-- `Watchdog.beat`: the number of notifications sent to systemd grows by one, or not at all.
unfoldable pub beat : ℕ → Option String → List Beat → ℕ → ℕ
unfolding check
beat now ping beats sent = elim (check now ping beats) [ some _ ↦ sent | none ↦ sent + 1 ]
