-- ===== src/Alarm/Table.antt =====
-- internal/store/alarms.go: the table `alarms`, whose key is the id. Each statement may fail; `up`
-- says whether it runs. Times are seconds since 1970; `none` is Go's zero time.
use panely.Kit.{
  ℕ, String, Bool, true, false, Option, none, some, List, [], ◌∷◌, ◌=ₛ◌, ◌||◌, ◌&&◌, not, leb, ltb,
  ◌==◌, if◌then◌else◌, Result, ok, err,
}

pub record Alarm : Type 0 where
  pub id : String
  pub kind : String
  pub target : String
  pub severity : String
  pub since : Option ℕ
  pub detail : String

pub record Row : Type 0 where
  pub id : String
  pub kind : String
  pub target : String
  pub severity : String
  pub since : ℕ
  pub detail : String

abbrev pub severity_warning : String
severity_warning = "uyari"

abbrev pub severity_critical : String
severity_critical = "kritik"

pub data StoreError : Type 0 where
  id_and_kind_required : StoreError
  unknown_severity : String → StoreError
  statement_failed : StoreError
  no_rows : StoreError

-- `SELECT … WHERE id = ?`.
unfoldable pub find_row : String → List Row → Option Row
find_row k [] = none
find_row k (r ∷ rows) = if r.id =ₛ k then some r else find_row k rows

abbrev pub since_or : ℕ → Option ℕ → ℕ
since_or now none = now
since_or now (some t) = t

abbrev pub to_row : ℕ → Alarm → Row
to_row now a = record {
  id = a.id;
  kind = a.kind;
  target = a.target;
  severity = a.severity;
  since = since_or now a.since;
  detail = a.detail;
}

abbrev pub is_known : String → Bool
is_known s = s =ₛ severity_warning || s =ₛ severity_critical

-- `INSERT … ON CONFLICT(id) DO NOTHING`, with the number of rows affected as a test.
abbrev pub insert_row : Row → List Row → Bool × List Row
insert_row r rows = elim (find_row r.id rows) [ none ↦ (true, r ∷ rows) | some _ ↦ (false, rows) ]

unfoldable pub raise_alarm : Bool → ℕ → Alarm → List Row → Result StoreError Bool × List Row
raise_alarm up now a rows =
    if a.id =ₛ "" || a.kind =ₛ ""
    then (err id_and_kind_required, rows)
    else if not (is_known a.severity)
    then (err (unknown_severity a.severity), rows)
    else if up
    then (let (fresh, rows') = insert_row (to_row now a) rows in (ok fresh, rows'))
    else (err statement_failed, rows)

-- `DELETE … WHERE id = ?`.
unfoldable pub delete_rows : String → List Row → List Row
delete_rows k [] = []
delete_rows k (r ∷ rows) = let rest = delete_rows k rows in if r.id =ₛ k then rest else r ∷ rest

abbrev pub is_found : Option Row → Bool
is_found none = false
is_found (some _) = true

unfoldable pub clear_alarm : Bool → String → List Row → Result StoreError Bool × List Row
unfolding delete_rows
clear_alarm up k rows =
    if up
    then (ok (is_found (find_row k rows)), delete_rows k rows)
    else (err statement_failed, rows)

-- `UPDATE … SET severity = 'kritik' WHERE id = ? AND severity = 'uyari'`: the rows, and whether
-- one was changed.
unfoldable pub escalate_rows : String → List Row → Bool × List Row
escalate_rows k [] = (false, [])
escalate_rows k (r ∷ rows) =
    let (changed, rest) = escalate_rows k rows in
    if r.id =ₛ k && r.severity =ₛ severity_warning
    then (true, record r { severity = severity_critical } ∷ rest)
    else (changed, r ∷ rest)

unfoldable pub escalate_alarm : Bool → String → List Row → Result StoreError Bool × List Row
unfolding escalate_rows
escalate_alarm up k rows =
    if up
    then (let (changed, rows') = escalate_rows k rows in (ok changed, rows'))
    else (err statement_failed, rows)

unfoldable pub get_alarm : Bool → String → List Row → Result StoreError Row
get_alarm up k rows =
    if up
    then (elim (find_row k rows) [ none ↦ err no_rows | some r ↦ ok r ])
    else err statement_failed

-- `CASE severity WHEN 'kritik' THEN 0 ELSE 1 END`.
abbrev pub rank : Row → ℕ
rank r = if r.severity =ₛ severity_critical then 0 else 1

-- `ORDER BY rank, since`.
abbrev pub before : Row → Row → Bool
before r s = ltb (rank r) (rank s) || rank r == rank s && leb r.since s.since

unfoldable pub place : Row → List Row → List Row
place r [] = r ∷ []
place r (s ∷ rows) = let rest = place r rows in if before r s then r ∷ (s ∷ rows) else s ∷ rest

unfoldable pub order_rows : List Row → List Row
unfolding place
order_rows [] = []
order_rows (r ∷ rows) = place r (order_rows rows)

unfoldable pub list_alarms : Bool → List Row → Result StoreError (List Row)
unfolding order_rows
list_alarms up rows = if up then ok (order_rows rows) else err statement_failed
