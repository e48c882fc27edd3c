-- ===== src/Alarm/Listing.antt =====
-- The order of `ListAlarms` (internal/store/alarms.go).
use mathlib.Core.List.{Perm}
use mathlib.Core.List.Perm
use panely.Kit.{
  ◌≡◌, ◌≤◌, ◌<◌, ◌⊎◌, Bool, true, false, List, [], ◌∷◌, arith, All, Bool-cases, inl, inr, ok,
}
use panely.Alarm.Table.{Row, rank, before, place, order_rows, list_alarms}

-- The first row is critical and the second not, or they are of one rank and the first not younger.
abbrev pub Precedes : Row → Row → Type 0
Precedes r s = (rank r < rank s) ⊎ ((rank r ≡ rank s) × (r.since ≤ s.since))

abbrev pub IsOrdered : List Row → Type 0
IsOrdered [] = Unit
IsOrdered (r ∷ rows) = All (Precedes r) rows × IsOrdered rows

place-perm : (r : Row) (rows : List Row) → Perm (place r rows) (r ∷ rows)
unfolding place
place-perm r [] = Perm.refl (r ∷ [])
place-perm r (s ∷ rows) = elim (Bool-cases (before r s)) [
  | inl e ↦ rw e (Perm.refl (r ∷ s ∷ rows))
  | inr e ↦ rw e (Perm.trans (Perm.cons s (place-perm r rows)) (Perm.swap r s rows))
]

order_rows-perm : (rows : List Row) → Perm (order_rows rows) rows
unfolding order_rows
order_rows-perm [] = Perm.refl []
order_rows-perm (r ∷ rows) =
    Perm.trans (place-perm r (order_rows rows)) (Perm.cons r (order_rows-perm rows))

All-Precedes :
    (r s : Row) (rows : List Row) → Precedes r s → All (Precedes s) rows → All (Precedes r) rows
All-Precedes r s [] p h = tt
All-Precedes r s (t ∷ rows) p h = (ground (arith, h.0), All-Precedes r s rows p h.1)

All-place :
    (s r : Row) (rows : List Row)
    → Precedes s r
    → All (Precedes s) rows
    → All (Precedes s) (place r rows)
unfolding place
All-place s r [] p h = (p, tt)
All-place s r (t ∷ rows) p h = elim (Bool-cases (before r t)) [
  | inl e ↦ rw e (p, h)
  | inr e ↦ rw e (h.0, All-place s r rows p h.1)
]

place-IsOrdered : (r : Row) (rows : List Row) → IsOrdered rows → IsOrdered (place r rows)
unfolding place
place-IsOrdered r [] h = (tt, tt)
place-IsOrdered r (s ∷ rows) h = elim (Bool-cases (before r s)) [
  | inl e ↦ rw e ((ground arith, All-Precedes r s rows (ground arith) h.0), h)
  | inr e ↦ rw e (All-place s r rows (ground arith) h.0, place-IsOrdered r rows h.1)
]

order_rows-IsOrdered : (rows : List Row) → IsOrdered (order_rows rows)
unfolding order_rows
order_rows-IsOrdered [] = tt
order_rows-IsOrdered (r ∷ rows) = place-IsOrdered r (order_rows rows) (order_rows-IsOrdered rows)

-- A successful `ListAlarms` returns the rows of the table, each as often as it stands there, the
-- critical ones first and each severity from the oldest on.
pub list_alarms-IsOrdered :
    (up : Bool) (rows : List Row) {listed : List Row}
    → list_alarms up rows ≡ ok listed
    → Perm listed rows × IsOrdered listed
unfolding list_alarms
list_alarms-IsOrdered false rows h = absurd (ground arith)
list_alarms-IsOrdered true rows {listed = l} h =
    let e : order_rows rows ≡ l = ground arith in
    rw (← e) (order_rows-perm rows, order_rows-IsOrdered rows)
