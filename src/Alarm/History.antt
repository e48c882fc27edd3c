-- ===== src/Alarm/History.antt =====
-- The notifications of internal/alarm/alarm.go against the table: the events sent, replayed, give
-- the state of every alarm, and each of them is a change of that state.
use panely.Kit.{
  ap, inl, inr, Bool-cases, ℕ, String, Bool, true, Option, none, some, List, [], ◌∷◌, ◌=ₛ◌, ◌&&◌,
  if◌then◌else◌, ◌≡◌, ◌≢◌, ◌⊎◌, refl, arith, eq_iff, ◌∙◌,
}
use panely.Alarm.Table.{
  to_row, Alarm, Row, find_row, raise_alarm, clear_alarm, escalate_alarm, severity_warning,
  severity_critical,
}
use panely.Alarm.Manager.{
  Manager, Event, Transition, opened, escalated, closed, raise, climb, clear,
}
use panely.Alarm.Rows.{
  IsTable, raised, is_warning, find_row-delete_rows, delete_rows-IsTable, find_row-escalate_rows,
  escalate_rows-changed, escalate_rows-IsTable,
}

abbrev pub severity_of : Option Row → Option String
severity_of none = none
severity_of (some r) = some r.severity

-- The severity of each active alarm.
abbrev pub status : List Row → String → Option String
status rows k = severity_of (find_row k rows)

-- What one who reads an event takes the alarm's severity to be.
abbrev pub after : Transition → String → Option String
after opened severity = some severity
after escalated severity = some severity_critical
after closed severity = none

-- The reader's picture of each alarm, from the one before the events.
abbrev pub replay : (String → Option String) → List Event → String → Option String
replay base [] k = base k
replay base (ev ∷ evs) k =
    let old = replay base evs k in
    if ev.alarm.id =ₛ k then after ev.state ev.alarm.severity else old

-- An event may be sent only on the change that it names.
abbrev pub Fires : Transition → Option String → Type 0
Fires opened old = old ≡ none
Fires escalated old = old ≡ some severity_warning
Fires closed old = old ≢ none

abbrev pub IsLegal : (String → Option String) → List Event → Type 0
IsLegal base [] = Unit
IsLegal base (ev ∷ evs) = Fires ev.state (replay base evs ev.alarm.id) × IsLegal base evs

-- The table is well formed, the events replay to it, and each of them was a change.
pub record Agrees (base : String → Option String) (m : Manager) : Type 0 where
  pub table : IsTable m.rows
  pub picture : (k : String) → status m.rows k ≡ replay base m.sent k
  pub legal : IsLegal base m.sent

is_warning-severity_of :
    (o : Option Row) → is_warning o ≡ true → severity_of o ≡ some severity_warning
is_warning-severity_of none h = cc
is_warning-severity_of (some r) h = ground (arith, eq_iff r.severity severity_warning)

module _ (base : String → Option String) where
  clear-Agrees : (up : Bool) (k : String) (m : Manager) → Agrees base m → Agrees base (clear up k m)
  unfolding clear clear_alarm
  clear-Agrees up k m h = record {
    table = ground (arith, h.table, delete_rows-IsTable k m.rows h.table);
    picture =
        λ j. ground (arith, h.picture j, h.picture k, find_row-delete_rows k j m.rows, eq_iff k j);
    legal = ground (arith, h.legal, h.picture k);
  }

  climb-Agrees : (up : Bool) (a : Alarm) (m : Manager) → Agrees base m → Agrees base (climb up a m)
  unfolding climb escalate_alarm
  climb-Agrees up a m h = record {
    table = ground (arith, h.table, escalate_rows-IsTable a.id m.rows h.table);
    picture = λ j. ground (
      arith,
      h.picture j,
      h.picture a.id,
      find_row-escalate_rows a.id j m.rows,
      escalate_rows-changed a.id m.rows h.table,
      eq_iff a.id j,
    );
    legal = ground (
      arith,
      h.legal,
      h.picture a.id,
      escalate_rows-changed a.id m.rows h.table,
      is_warning-severity_of (find_row a.id m.rows),
    );
  }

  -- The manager once `RaiseAlarm` has run.
  raise-Agrees :
      (up up' : Bool) (now : ℕ) (a : Alarm) (m : Manager)
      → Agrees base m
      → Agrees base (raise up up' now a m)
  unfolding raise raise_alarm find_row
  raise-Agrees up up' now a m h = record {
    table = ground (arith, h.table, (climb-Agrees up' a m h).table);
    picture = λ j. ground (arith, h.picture j, (climb-Agrees up' a m h).picture j, eq_iff a.id j);
    legal = ground (arith, h.legal, h.picture a.id, (climb-Agrees up' a m h).legal);
  }

-- A call of the manager, with whether its statements run and the store's clock.
pub data Op : Type 0 where
  raise_op : Bool → Bool → ℕ → Alarm → Op
  clear_op : Bool → String → Op

abbrev pub apply : Op → Manager → Manager
apply (raise_op up up' now a) m = raise up up' now a m
apply (clear_op up k) m = clear up k m

abbrev pub run : List Op → Manager → Manager
run [] m = m
run (op ∷ ops) m = run ops (apply op m)

run-keeps :
    (base : String → Option String) (ops : List Op) (m : Manager)
    → Agrees base m
    → Agrees base (run ops m)
run-keeps base [] m h = h
run-keeps base (raise_op up up' now a ∷ ops) m h =
    run-keeps base ops (raise up up' now a m) (raise-Agrees base up up' now a m h)
run-keeps base (clear_op up k ∷ ops) m h =
    run-keeps base ops (clear up k m) (clear-Agrees base up k m h)

-- From a well-formed table, after any calls of `Raise` and `Clear`, each of whose statements may
-- fail: the table is well formed, the events sent since then replay the first state of every alarm
-- to its present one, and each event was a change, an opening of a closed alarm, a climb from
-- warning to critical, or a closing of an active one.
pub run-Agrees :
    (rows : List Row) (ops : List Op)
    → IsTable rows
    → Agrees (status rows) (run ops (record { rows = rows; sent = [] }))
run-Agrees rows ops h =
    run-keeps (status rows) ops (record { rows = rows; sent = [] })
      (record { table = h; picture = λ k. refl; legal = tt })

-- What becomes of an active alarm while it is not cleared: nothing but its severity changes, and
-- that only from warning to critical.
pub record Lasts (old new : Row) : Type 0 where
  pub same_kind : new.kind ≡ old.kind
  pub same_target : new.target ≡ old.target
  pub same_since : new.since ≡ old.since
  pub same_detail : new.detail ≡ old.detail
  pub no_drop :
      (new.severity ≡ old.severity)
      ⊎ ((old.severity ≡ severity_warning) × (new.severity ≡ severity_critical))

raised-Lasts : (r : Row) → Lasts r (raised r)
raised-Lasts r = ground (arith, eq_iff r.severity severity_warning)

climb-Lasts :
    (up : Bool) (a : Alarm) (m : Manager) (k : String) (r : Row)
    → find_row k m.rows ≡ some r
    → (r' : Row) × (find_row k (climb up a m).rows ≡ some r') × Lasts r r'
unfolding climb escalate_alarm
climb-Lasts up a m k r e = elim (Bool-cases (a.id =ₛ k && a.severity =ₛ severity_critical && up)) [
  | inl t ↦ (raised r, ground (arith, find_row-escalate_rows a.id k m.rows), raised-Lasts r)
  | inr f ↦ (r, ground (arith, find_row-escalate_rows a.id k m.rows), ground arith)
]

raise-cases :
    (up up' : Bool) (now : ℕ) (a : Alarm) (m : Manager)
    → (raise up up' now a m ≡ m)
      ⊎ ((raise up up' now a m ≡ climb up' a m)
          ⊎ ((find_row a.id m.rows ≡ none) × ((raise up up' now a m).rows ≡ to_row now a ∷ m.rows)))
unfolding raise raise_alarm
raise-cases up up' now a m = ground arith

-- `Raise` of any alarm keeps every active one: kind, target, detail and the time of its
-- opening stay as they are, and the severity stays or climbs from warning to critical.
pub raise-Lasts :
    (up up' : Bool) (now : ℕ) (a : Alarm) (m : Manager) (k : String) (r : Row)
    → find_row k m.rows ≡ some r
    → (r' : Row) × (find_row k (raise up up' now a m).rows ≡ some r') × Lasts r r'
raise-Lasts up up' now a m k r e = elim (raise-cases up up' now a m) [
  | inl same ↦ (r, ap (λ x. find_row k x.rows) same ∙ e, ground arith)
  | inr (inl climbed) ↦
      let (r', found, lasts) = climb-Lasts up' a m k r e in
      (r', ap (λ x. find_row k x.rows) climbed ∙ found, lasts)
  | inr (inr (absent, fresh)) ↦
      (r, ap (find_row k) fresh ∙ unfold find_row in ground (arith, eq_iff a.id k), ground arith)
]
