-- ===== src/Alarm/Manager.antt =====
-- internal/alarm/alarm.go: notify of the changes of the table only.
use panely.Kit.{ℕ, String, Bool, true, false, none, List, ◌∷◌, ◌=ₛ◌, if◌then◌else◌, ok, err}
use panely.Alarm.Table.{Alarm, Row, raise_alarm, clear_alarm, escalate_alarm, severity_critical}

pub data Transition : Type 0 where
  opened escalated closed : Transition

pub record Event : Type 0 where
  pub alarm : Alarm
  pub state : Transition

-- The table behind the manager, and the events handed to its sink, the newest first.
pub record Manager : Type 0 where
  pub rows : List Row
  pub sent : List Event

abbrev pub notify : Alarm → Transition → Manager → Manager
notify a t m = record m { sent = record { alarm = a; state = t } ∷ m.sent }

-- The second half of `Raise`, on an alarm that is active already.
unfoldable pub climb : Bool → Alarm → Manager → Manager
climb up a m =
    if a.severity =ₛ severity_critical
    then (let (r, rows') = escalate_alarm up a.id m.rows in
        let m' : Manager = record m { rows = rows' } in
        elim r [ err e ↦ m' | ok climbed ↦ if climbed then notify a escalated m' else m' ])
    else m

-- `Raise`; `up` and `up'` say whether its two statements run, and `now` is the store's clock.
unfoldable pub raise : Bool → Bool → ℕ → Alarm → Manager → Manager
unfolding climb
raise up up' now a m =
    let (r, rows') = raise_alarm up now a m.rows in
    let m' : Manager = record m { rows = rows' } in
    elim r [ err e ↦ m' | ok fresh ↦ if fresh then notify a opened m' else climb up' a m' ]

-- `store.Alarm{ID: id}`.
abbrev pub only_id : String → Alarm
only_id k = record { id = k; kind = ""; target = ""; severity = ""; since = none; detail = "" }

-- `Clear`.
unfoldable pub clear : Bool → String → Manager → Manager
clear up k m =
    let (r, rows') = clear_alarm up k m.rows in
    let m' : Manager = record m { rows = rows' } in
    elim r [ err e ↦ m' | ok was_active ↦ if was_active then notify (only_id k) closed m' else m' ]

-- How `LogSink.Notify` writes an event: `slog.Error` or `slog.Warn`.
pub data Level : Type 0 where
  error warn : Level

abbrev pub is_closed : Transition → Bool
is_closed closed = true
is_closed _ = false

unfoldable pub log_level : Event → Level
log_level ev =
    if is_closed ev.state
    then warn
    else if ev.alarm.severity =ₛ severity_critical
    then error
    else warn
