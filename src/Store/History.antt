-- ===== src/Store/History.antt =====
-- What the history of internal/store/deployments.go keeps.

use panely.Kit.{
  ℕ, ◌≡◌, ◌≢◌, ◌≤◌, ◌⊎◌, refl, String, Bool, true, false, ◌&&◌, Option, none, some, List, [], ◌∷◌,
  ◌=ₛ◌, if◌then◌else◌, arith, eq_iff, map, Bool-cases, inl, inr, ok,
}
use panely.Store.Deployments.{
  DeploymentRow, Runs, is_release, open_release, close_open, set_active_release,
  clear_active_release, opened, last_closed, previous_active_release,
}

abbrev pub IsTimed : DeploymentRow → Type 0
IsTimed row = elim row.deactivated_at [ none ↦ Unit | some t ↦ row.activated_at ≤ t ]

-- Only the newest row of an app may be open, and no row was closed before it was opened.
abbrev pub IsHistory : List DeploymentRow → Type 0
IsHistory [] = Unit
IsHistory (row ∷ rows) = (open_release row.app_id rows ≡ none) × IsTimed row × IsHistory rows

-- What the rows say apart from their closing.
abbrev pub activations : List DeploymentRow → List (String × String)
activations = map (λ (row : DeploymentRow). (row.app_id, row.release_id))

open_release-close_open :
    (now : ℕ) (k j : String) (rows : List DeploymentRow)
    → open_release j (close_open now k rows) ≡ (if k =ₛ j then none else open_release j rows)
unfolding open_release close_open
open_release-close_open now k j [] = ground arith
open_release-close_open now k j (row ∷ rows) = ground (
  arith,
  open_release-close_open now k j rows,
  eq_iff k j,
  eq_iff row.app_id k,
  eq_iff row.app_id j,
)

activations-close_open :
    (now : ℕ) (k : String) (rows : List DeploymentRow)
    → activations (close_open now k rows) ≡ activations rows
unfolding close_open
activations-close_open now k [] = refl
activations-close_open now k (row ∷ rows) = ground (arith, activations-close_open now k rows)

close_open-IsHistory :
    (now : ℕ) (k : String) (rows : List DeploymentRow)
    → IsHistory rows
    → IsHistory (close_open now k rows)
unfolding close_open
close_open-IsHistory now k [] h = tt
close_open-IsHistory now k (row ∷ rows) h =
    ground
      (arith, close_open-IsHistory now k rows h.2, open_release-close_open now k row.app_id rows, h)

last_closed-close_open :
    (now : ℕ) (k old : String) (rows : List DeploymentRow)
    → IsHistory rows
    → open_release k rows ≡ some old
    → last_closed k (close_open now k rows) ≡ some old
unfolding open_release close_open last_closed
last_closed-close_open now k old [] h e = absurd (ground arith)
last_closed-close_open now k old (row ∷ rows) h e =
    ground (arith, last_closed-close_open now k old rows h.2, h.0, eq_iff row.app_id k)

is_release-open : (o : Option String) (r : String) → is_release o r ≡ true → o ≡ some r
is_release-open none r h = absurd (ground arith)
is_release-open (some cur) r h = ground (arith, eq_iff cur r)

is_release-not : (o : Option String) (r : String) → is_release o r ≡ false → o ≢ some r
is_release-not none r h p = cc
is_release-not (some cur) r h p = ground (arith, eq_iff cur r)

-- What a successful activation leaves, when another release or none was open.
pub record Activated (k r : String) (rows rows' : List DeploymentRow) : Type 0 where
  pub history : IsHistory rows'
  pub now_open : open_release k rows' ≡ some r
  pub others : (j : String) → j ≢ k → open_release j rows' ≡ open_release j rows
  pub previous : (old : String) → open_release k rows ≡ some old → last_closed k rows' ≡ some old
  pub appended : activations rows' ≡ (k, r) ∷ activations rows

-- The new row in front of the closed ones.
opened-Activated :
    (now : ℕ) (k r : String) (rows : List DeploymentRow)
    → IsHistory rows
    → Activated k r rows (opened now k r ∷ close_open now k rows)
unfolding open_release last_closed
opened-Activated now k r rows h = record {
  history = (
    ground (arith, open_release-close_open now k k rows, eq_iff k k),
    tt,
    close_open-IsHistory now k rows h,
  );
  now_open = ground (arith, eq_iff k k);
  others = λ j ne. ground (arith, open_release-close_open now k j rows, eq_iff k j);
  previous = λ old e. ground (arith, last_closed-close_open now k old rows h e);
  appended = ground (arith, activations-close_open now k rows);
}

-- On a history, `SetActiveRelease` fails and changes nothing; or the release was open already and
-- nothing changes; or it succeeds: one row is appended, the app's open release is the new one and what was open
-- before is what a rollback goes back to, other apps are left alone, and the table is still a history.
pub set_active_release-Activated :
    (up : Runs) (now : ℕ) (k r : String) (rows : List DeploymentRow)
    → IsHistory rows
    → let (e, rows') = set_active_release up now k r rows in
      ((e ≢ none) × (rows' ≡ rows))
      ⊎ (((e ≡ none) × (open_release k rows ≡ some r) × (rows' ≡ rows))
          ⊎ ((e ≡ none) × (open_release k rows ≢ some r) × Activated k r rows rows'))
unfolding set_active_release
set_active_release-Activated up now k r rows h = elim (Bool-cases (up.begin && up.select)) [
  | inr b ↦ inl (ground arith, ground arith)
  | inl b ↦ elim (Bool-cases (is_release (open_release k rows) r)) [
    | inl s ↦ elim (Bool-cases up.commit) [
      | inl c ↦ inr (inl (ground arith, is_release-open (open_release k rows) r s, ground arith))
      | inr c ↦ inl (ground arith, ground arith)
    ]
    | inr s ↦ elim (Bool-cases (up.update && up.insertion && up.commit)) [
      | inr c ↦ inl (ground arith, ground arith)
      | inl c ↦
          let made : set_active_release up now k r rows
              ≡ (none, opened now k r ∷ close_open now k rows) =
            ground arith in
          rw made (
            inr (
              inr
                (refl, is_release-not (open_release k rows) r s, opened-Activated now k r rows h)))
    ]
  ]
]

-- After `ClearActiveRelease` succeeds the app has no open release, what was open is what a rollback goes
-- back to, other apps are left alone, no row is lost and the table is still a history; if it fails, nothing changes.
pub clear_active_release-IsHistory :
    (up : Bool) (now : ℕ) (k : String) (rows : List DeploymentRow)
    → IsHistory rows
    → let (e, rows') = clear_active_release up now k rows in
      ((e ≢ none) × (rows' ≡ rows))
      ⊎ ((e ≡ none)
          × IsHistory rows'
          × ((j : String) → open_release j rows' ≡ (if k =ₛ j then none else open_release j rows))
          × ((old : String)
              → open_release k rows ≡ some old
              → previous_active_release true k rows' ≡ ok old)
          × (activations rows' ≡ activations rows))
unfolding clear_active_release previous_active_release
clear_active_release-IsHistory false now k rows h = inl (λ p. cc, refl)
clear_active_release-IsHistory true now k rows h = inr (
  refl,
  close_open-IsHistory now k rows h,
  λ j. open_release-close_open now k j rows,
  λ old e. ground (arith, last_closed-close_open now k old rows h e),
  activations-close_open now k rows,
)
