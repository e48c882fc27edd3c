-- ===== src/Alarm/Rows.antt =====
-- The statements of internal/store/alarms.go as changes of one row, found by its key.
use panely.Kit.{
  String, Bool, true, false, Option, none, some, List, [], ◌∷◌, ◌=ₛ◌, if◌then◌else◌, ◌≡◌, refl,
  arith, eq_iff,
}
use panely.Alarm.Table.{
  Row, find_row, delete_rows, escalate_rows, severity_warning, severity_critical, is_known,
}

-- No id stands in two rows, and each severity is one of the two.
abbrev pub IsTable : List Row → Type 0
IsTable [] = Unit
IsTable (r ∷ rows) = (find_row r.id rows ≡ none) × (is_known r.severity ≡ true) × IsTable rows

pub find_row-delete_rows :
    (k j : String) (rows : List Row)
    → find_row j (delete_rows k rows) ≡ (if k =ₛ j then none else find_row j rows)
unfolding find_row delete_rows
find_row-delete_rows k j [] = ground arith
find_row-delete_rows k j (r ∷ rows) =
    ground (arith, find_row-delete_rows k j rows, eq_iff k j, eq_iff r.id k, eq_iff r.id j)

pub delete_rows-IsTable :
    (k : String) (rows : List Row) → IsTable rows → IsTable (delete_rows k rows)
unfolding delete_rows
delete_rows-IsTable k [] h = tt
delete_rows-IsTable k (r ∷ rows) h =
    ground (arith, delete_rows-IsTable k rows h.2, find_row-delete_rows k r.id rows)

-- The row that the update leaves.
abbrev pub raised : Row → Row
raised r = if r.severity =ₛ severity_warning then record r { severity = severity_critical } else r

abbrev pub map_row : (Row → Row) → Option Row → Option Row
map_row f none = none
map_row f (some r) = some (f r)

pub find_row-escalate_rows :
    (k j : String) (rows : List Row)
    → find_row j (escalate_rows k rows).1
      ≡ (if k =ₛ j then map_row raised (find_row j rows) else find_row j rows)
unfolding find_row escalate_rows
find_row-escalate_rows k j [] = ground arith
find_row-escalate_rows k j (r ∷ rows) =
    ground (arith, find_row-escalate_rows k j rows, eq_iff k j, eq_iff r.id k, eq_iff r.id j)

abbrev pub is_warning : Option Row → Bool
is_warning none = false
is_warning (some r) = r.severity =ₛ severity_warning

escalate_rows-absent :
    (k : String) (rows : List Row) → find_row k rows ≡ none → (escalate_rows k rows).0 ≡ false
unfolding find_row escalate_rows
escalate_rows-absent k [] h = refl
escalate_rows-absent k (r ∷ rows) h = ground (arith, escalate_rows-absent k rows)

-- The update reports a change exactly if the row was a warning.
pub escalate_rows-changed :
    (k : String) (rows : List Row)
    → IsTable rows
    → (escalate_rows k rows).0 ≡ is_warning (find_row k rows)
unfolding find_row escalate_rows
escalate_rows-changed k [] h = refl
escalate_rows-changed k (r ∷ rows) h =
    ground (arith, escalate_rows-changed k rows h.2, escalate_rows-absent k rows, eq_iff r.id k)

pub escalate_rows-IsTable :
    (k : String) (rows : List Row) → IsTable rows → IsTable (escalate_rows k rows).1
unfolding escalate_rows
escalate_rows-IsTable k [] h = tt
escalate_rows-IsTable k (r ∷ rows) h =
    ground (arith, escalate_rows-IsTable k rows h.2, find_row-escalate_rows k r.id rows)
