-- ===== src/Alarm/Tests.antt =====
-- Runs of the manager, and the theorems on them.

use panely.Kit.{◌≡◌, String, true, none, List, [], ◌∷◌, refl, ok, map}
use panely.Alarm.Table.{
  Alarm, Row, raise_alarm, escalate_alarm, clear_alarm, find_row, list_alarms, severity_warning,
  severity_critical,
}
use panely.Alarm.Manager.{
  Manager, Event, opened, escalated, closed, raise, clear, climb, log_level, warn,
}
use panely.Alarm.History.{Op, raise_op, clear_op, run, status, Agrees, run-Agrees}

abbrev disk : String → Alarm
disk severity = record {
  id = "disk_low:host";
  kind = "disk_low";
  target = "host";
  severity = severity;
  since = none;
  detail = "";
}

abbrev start : Manager
start = record { rows = []; sent = [] }

-- A disk that fills up, is reported again and again, and is cleared.
abbrev story : List Op
story =
    raise_op true true 100 (disk severity_warning)
    ∷ raise_op true true 200 (disk severity_warning)
    ∷ raise_op true true 300 (disk severity_critical)
    ∷ raise_op true true 400 (disk severity_critical)
    ∷ clear_op true "disk_low:host"
    ∷ clear_op true "disk_low:host"
    ∷ []

story_events :
    map (λ (ev : Event). ev.state) (run story start).sent ≡ closed ∷ escalated ∷ opened ∷ []
unfolding raise raise_alarm clear clear_alarm climb escalate_alarm find_row
story_events = refl

run-Agrees_example : Agrees (status []) (run story start)
run-Agrees_example = run-Agrees [] story tt

abbrev old_row : Row
old_row = record {
  id = "disk_low:host";
  kind = "disk_low";
  target = "host";
  severity = severity_warning;
  since = 100;
  detail = "";
}

abbrev full : Manager
full = record { rows = old_row ∷ []; sent = [] }

abbrev worse : Row
worse = record old_row { severity = severity_critical; since = 500 }

listed : list_alarms true (old_row ∷ worse ∷ []) ≡ ok (worse ∷ old_row ∷ [])
unfolding list_alarms
listed = refl

closing_warns : log_level (record { alarm = disk severity_critical; state = closed }) ≡ warn
unfolding log_level
closing_warns = refl
