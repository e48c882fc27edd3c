-- ===== src/Store/Merging.antt =====
-- An update of an app in internal/store/appupdate.go: the merged environment, and the row that is written.
use panely.Kit.{
  ℕ, String, Bool, true, false, ◌≡◌, ◌≢◌, inl, inr, refl, Option, none, some, List, [], ◌∷◌, ◌=ₛ◌,
  arith, eq_iff, contains, Distinct, Bool-cases, Option-cases, if◌then◌else◌, Result, ok, err, ap,
  ◌∙◌, not,
}
use mathlib.Core.Path.{subst}
use panely.Kit.Maps.{lookup, insert, erase, lookup-insert, lookup-erase}
use panely.Records.{App}
use panely.Store.Apps.{
  AppError, AppUpdate, UpdateRuns, apply_env, insert_all, erase_all, apply, find_app, update_row,
  set_columns, sorted_volumes, update_app, write_update, get_app, breaks_domain, not_written,
  not_opened, not_committed, not_found, not_read,
}

-- The names of the variables.
abbrev pub keys : List (String × String) → List String
keys [] = []
keys (e ∷ es) = e.0 ∷ keys es

abbrev pub or_else : Option String → Option String → Option String
or_else none o = o
or_else (some v) o = some v

lookup-unused :
    (j : String) (es : List (String × String)) → contains (keys es) j ≡ false → lookup j es ≡ none
unfolding lookup
lookup-unused j [] h = refl
lookup-unused j (e ∷ es) h = ground (arith, lookup-unused j es)

lookup-insert_all :
    (j : String) (m es : List (String × String))
    → Distinct (keys es)
    → lookup j (insert_all m es) ≡ or_else (lookup j es) (lookup j m)
unfolding lookup
lookup-insert_all j m [] d = refl
lookup-insert_all j m (e ∷ es) d =
    let fresh = d.0 in
    ground (
      arith,
      lookup-insert_all j (insert e.0 e.1 m) es d.1,
      lookup-insert e.0 j e.1 m,
      lookup-unused j es,
      eq_iff e.0 j,
      fresh,
    )

lookup-erase_all :
    (j : String) (m : List (String × String)) (gone : List String)
    → lookup j (erase_all m gone) ≡ (if contains gone j then none else lookup j m)
lookup-erase_all j m [] = refl
lookup-erase_all j m (k ∷ ks) =
    ground (arith, lookup-erase_all j (erase k m) ks, lookup-erase k j m)

-- After an update, a variable that is removed is gone, one that is set has its new value, and each other one is as it was. A
-- variable of both lists is gone. The new variables are a map: no name is listed twice.
pub lookup-apply_env :
    (env set : List (String × String)) (remove : List String) (j : String)
    → Distinct (keys set)
    → lookup j (apply_env env set remove)
      ≡ (if contains remove j then none else or_else (lookup j set) (lookup j env))
unfolding apply_env lookup
lookup-apply_env env [] [] j d = refl
lookup-apply_env env [] (k ∷ ks) j d = ground (arith, lookup-erase_all j env (k ∷ ks))
lookup-apply_env env (e ∷ es) remove j d =
    ground (
      arith,
      lookup-erase_all j (insert_all env (e ∷ es)) remove,
      lookup-insert_all j env (e ∷ es) d,
    )

-- How a call of `UpdateApp` goes: it fails and the rows stay, or the row of the app is written. Then the app
-- that is answered is the row that was read with the update applied, a reading gives it back with its volumes sorted,
-- and the rows of other ids are as they were.
pub data IsUpdate (now : ℕ) (k : String) (u : AppUpdate) (apps : List App)
    : Result AppError App × List App → Type 0 where
  stays : (x : AppError) → IsUpdate now k u apps (err x, apps)
  writes :
      (row : App) (after : List App)
      → find_app k apps ≡ some row
      → find_app k after
        ≡ some (record (apply u row) {
          volumes = sorted_volumes (apply u row).volumes;
          updated_at = now;
        })
      → ((j : String) → j ≢ k → find_app j after ≡ find_app j apps)
      → IsUpdate now k u apps (ok (record (apply u row) { updated_at = now }), after)

find_app-update_row :
    (k : String) (app row : App) (apps : List App)
    → find_app k apps ≡ some row
    → find_app k (update_row k app apps) ≡ some (set_columns app row)
unfolding find_app update_row set_columns
find_app-update_row k app row [] f = absurd cc
find_app-update_row k app row (a ∷ apps) f = elim (Bool-cases (a.id =ₛ k)) [
  | inl e ↦
      let found : some a ≡ some row = rw e at f in
      let same : a ≡ row = cc in rw e (rw e (ap (λ r. some (set_columns app r)) same))
  | inr e ↦ rw e (rw e (find_app-update_row k app row apps (rw e at f)))
]

find_app-others :
    (k : String) (app : App) (apps : List App) (j : String)
    → j ≢ k
    → find_app j (update_row k app apps) ≡ find_app j apps
unfolding find_app update_row set_columns
find_app-others k app [] j ne = refl
find_app-others k app (a ∷ apps) j ne =
    ground (arith, find_app-others k app apps j ne, eq_iff a.id k, eq_iff a.id j, ne)

pub found-id : (k : String) (row : App) (apps : List App) → find_app k apps ≡ some row → row.id ≡ k
unfolding find_app
found-id k row [] f = absurd cc
found-id k row (a ∷ apps) f = elim (Bool-cases (a.id =ₛ k)) [
  | inl e ↦
      let same : some a ≡ some row = rw e at f in
      let at : a.id ≡ k = (eq_iff a.id k).0 e in ground (arith, same, at)
  | inr e ↦ found-id k row apps (rw e at f)
]

if-keeps {ℓ κ} :
    {A : Type ℓ} (P : A → Type κ) (b : Bool) (x y : A) → P x → P y → P (if b then x else y)
if-keeps P true x y p q = p
if-keeps P false x y p q = q

write_update-IsUpdate :
    (runs : UpdateRuns) (now : ℕ) (u : AppUpdate) (row : App) (apps : List App)
    → find_app row.id apps ≡ some row
    → IsUpdate now row.id u apps (write_update runs now u row apps)
unfolding write_update apply set_columns
write_update-IsUpdate runs now u row apps f =
    let app : App = record (apply u row) { updated_at = now } in
    let P = IsUpdate now row.id u apps in
    if-keeps P (not runs.writes) _ _ (stays not_written) (
      if-keeps P (breaks_domain app.domain app.id apps) _ _ (stays _) (
        if-keeps P runs.commits _ _
          (writes row (update_row row.id app apps) f (find_app-update_row row.id app row apps f)
            (find_app-others row.id app apps))
          (stays not_committed)))

-- `UpdateApp` fails and leaves the rows, or writes the one row as it says.
pub update_app-IsUpdate :
    (runs : UpdateRuns) (now : ℕ) (k : String) (u : AppUpdate) (apps : List App)
    → IsUpdate now k u apps (update_app runs now k u apps)
unfolding update_app get_app
update_app-IsUpdate runs now k u apps = elim (Bool-cases runs.opens) [
  | inr e ↦ rw (e, update_app) (stays not_opened)
  | inl e ↦ elim (Bool-cases runs.reads) [
    | inr g ↦ rw (e, update_app, get_app, g) (stays not_read)
    | inl g ↦ elim (Option-cases (find_app k apps)) [
      | inl f ↦ rw (e, update_app, get_app, g, f) (stays (not_found k))
      | inr (row, f) ↦
          rw (e, update_app, get_app, g, f)
            (subst (λ i. IsUpdate now i u apps (write_update runs now u row apps))
              (found-id k row apps f)
              (write_update-IsUpdate runs now u row apps
                (ap (λ i. find_app i apps) (found-id k row apps f) ∙ f)))
    ]
  ]
]
