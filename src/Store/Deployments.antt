-- ===== src/Store/Deployments.antt =====
-- internal/store/deployments.go: the table `deployments` as a history, the newest row first, which is the order
-- of `seq`. Each statement may fail, the insertion also by the trigger that wants a built
-- release; a transaction that fails leaves the table as it was.
use Prim.Native.Nat.{max}
use panely.Kit.{
  ℕ, String, Bool, true, false, not, Option, none, some, List, [], ◌∷◌, ◌=ₛ◌, ◌&&◌, if◌then◌else◌,
  Result, ok, err,
}

pub record DeploymentRow : Type 0 where
  pub app_id : String
  pub release_id : String
  pub activated_at : ℕ
  pub deactivated_at : Option ℕ

pub data DeploymentError : Type 0 where
  not_written : DeploymentError
  not_read : DeploymentError
  no_previous : DeploymentError

-- Whether each statement of a transaction runs.
pub record Runs : Type 0 where
  pub begin : Bool
  pub select : Bool
  pub update : Bool
  pub insertion : Bool
  pub commit : Bool

abbrev pub is_open : DeploymentRow → Bool
is_open row = elim row.deactivated_at [ none ↦ true | some _ ↦ false ]

-- `SELECT release_id … WHERE app_id = ? AND deactivated_at IS NULL`.
unfoldable pub open_release : String → List DeploymentRow → Option String
open_release k [] = none
open_release k (row ∷ rows) =
    if row.app_id =ₛ k && is_open row then some row.release_id else open_release k rows

-- `SET deactivated_at = MAX(activated_at, ?)`.
abbrev pub close_row : ℕ → DeploymentRow → DeploymentRow
close_row now row = record row { deactivated_at = some (max row.activated_at now) }

-- `UPDATE … WHERE app_id = ? AND deactivated_at IS NULL`.
unfoldable pub close_open : ℕ → String → List DeploymentRow → List DeploymentRow
close_open now k [] = []
close_open now k (row ∷ rows) =
    let rest = close_open now k rows in
    if row.app_id =ₛ k && is_open row then close_row now row ∷ rest else row ∷ rest

abbrev pub is_release : Option String → String → Bool
is_release none r = false
is_release (some cur) r = cur =ₛ r

-- `INSERT INTO deployments (app_id, release_id, activated_at)`.
abbrev pub opened : ℕ → String → String → DeploymentRow
opened now k r = record { app_id = k; release_id = r; activated_at = now; deactivated_at = none }

-- `SetActiveRelease`.
unfoldable pub set_active_release :
    Runs → ℕ → String → String → List DeploymentRow → Option DeploymentError × List DeploymentRow
set_active_release up now k r rows =
    if not up.begin
    then (some not_written, rows)
    else if not up.select
    then (some not_read, rows)
    else if is_release (open_release k rows) r
    then ((if up.commit then none else some not_written), rows)
    else if up.update && up.insertion && up.commit
    then (none, opened now k r ∷ close_open now k rows)
    else (some not_written, rows)

-- `ClearActiveRelease`.
unfoldable pub clear_active_release :
    Bool → ℕ → String → List DeploymentRow → Option DeploymentError × List DeploymentRow
clear_active_release up now k rows =
    if up then (none, close_open now k rows) else (some not_written, rows)

-- `SELECT … WHERE app_id = ? AND deactivated_at IS NOT NULL ORDER BY seq DESC LIMIT 1`.
unfoldable pub last_closed : String → List DeploymentRow → Option String
last_closed k [] = none
last_closed k (row ∷ rows) =
    if row.app_id =ₛ k && not (is_open row) then some row.release_id else last_closed k rows

-- `PreviousActiveRelease`.
unfoldable pub previous_active_release :
    Bool → String → List DeploymentRow → Result DeploymentError String
previous_active_release up k rows =
    if up
    then (elim (last_closed k rows) [ none ↦ err no_previous | some r ↦ ok r ])
    else err not_read
