-- ===== src/Store/Apps.antt =====
-- internal/store/apps.go and appupdate.go: the table `apps` under the statements that write and read
-- definitions. The columns that hold JSON are read back as they were written. Each statement may
-- fail; one that fails changes nothing. The keys are `id`, and `domain` where it is not empty.
use panely.Kit.{
  ℕ, String, Bool, false, true, not, ◌&&◌, ◌||◌, Option, none, some, List, [], ◌∷◌, ltb, ◌==◌, ◌=ₛ◌,
  if◌then◌else◌, length, Result, ok, err,
}
use panely.Kit.Maps.{insert, erase}
use panely.Kit.Sort.{sort_by}
use panely.Records.{App, StoredVolume}

pub data AppError : Type 0 where
  not_found : String → AppError
  exists_already : String → AppError
  domain_taken : String → String → AppError
  unexplained : AppError
  not_written : AppError
  not_read : AppError
  not_opened : AppError
  not_committed : AppError

-- `sortedVolumes`.
unfoldable pub sorted_volumes : List StoredVolume → List StoredVolume
sorted_volumes vols = sort_by (λ v. v.name) vols

-- `… WHERE id = ?`.
unfoldable pub find_app : String → List App → Option App
find_app k [] = none
find_app k (a ∷ apps) = if a.id =ₛ k then some a else find_app k apps

-- `SELECT id FROM apps WHERE domain = ? AND id != ?`.
unfoldable pub domain_owner : String → String → List App → Option String
domain_owner domain self [] = none
domain_owner domain self (a ∷ apps) =
    if a.domain =ₛ domain && not (a.id =ₛ self) then some a.id else domain_owner domain self apps

abbrev pub holds {ℓ} : {A : Type ℓ} → Option A → Bool
holds none = false
holds (some a) = true

-- Is the domain, when it is not empty, that of another row?
abbrev pub breaks_domain : String → String → List App → Bool
breaks_domain domain self apps = not (domain =ₛ "") && holds (domain_owner domain self apps)

-- `domainConflict`; `asks` says that its query runs.
unfoldable pub domain_conflict : Bool → String → String → List App → AppError
domain_conflict asks domain self apps =
    if asks
    then (elim (domain_owner domain self apps) [
      | none ↦ unexplained
      | some owner ↦ domain_taken domain owner
    ])
    else unexplained

-- `explainCreateConflict`; `reads` says that its own query runs.
unfoldable pub explain_create_conflict : Bool → Bool → App → List App → AppError
unfolding domain_conflict find_app
explain_create_conflict reads asks app apps =
    if reads && holds (find_app app.id apps)
    then exists_already app.id
    else domain_conflict asks app.domain app.id apps

-- `CreateApp`; `writes` says that the statement reaches the keys.
unfoldable pub create_app : Bool → Bool → Bool → ℕ → App → List App → Result AppError App × List App
unfolding sorted_volumes find_app domain_owner explain_create_conflict
create_app writes reads asks now app apps =
    let row = record app {
      volumes = sorted_volumes app.volumes;
      release_seq = 0;
      created_at = now;
      updated_at = now;
    } in
    if not writes
    then (err not_written, apps)
    else if holds (find_app row.id apps) || breaks_domain row.domain row.id apps
    then (err (explain_create_conflict reads asks row apps), apps)
    else (ok row, row ∷ apps)

-- `GetApp`.
unfoldable pub get_app : Bool → String → List App → Result AppError App
unfolding find_app
get_app reads k apps =
    if reads
    then (elim (find_app k apps) [ none ↦ err (not_found k) | some a ↦ ok a ])
    else err not_read

-- `ListApps`.
unfoldable pub list_apps : Bool → List App → Result AppError (List App)
list_apps reads apps = if reads then ok (sort_by (λ a. a.id) apps) else err not_read

-- `AppUpdate`; a field that is `nil` is `none`.
pub record AppUpdate : Type 0 where
  pub domain : Option String
  pub git_branch : Option String
  pub health_path : Option String
  pub replicas : Option ℕ
  pub env : List (String × String)
  pub env_remove : List String
  pub volumes : List StoredVolume
  pub volume_remove : List String

-- `ChangesEnv`.
unfoldable pub changes_env : AppUpdate → Bool
changes_env u = ltb 0 (length u.env) || ltb 0 (length u.env_remove)

-- `ChangesVolumes`.
unfoldable pub changes_volumes : AppUpdate → Bool
changes_volumes u = ltb 0 (length u.volumes) || ltb 0 (length u.volume_remove)

-- `IsEmpty`.
unfoldable pub is_empty : AppUpdate → Bool
unfolding changes_env changes_volumes
is_empty u =
    not (holds u.domain)
    && not (holds u.git_branch)
    && not (holds u.health_path)
    && not (holds u.replicas)
    && not (changes_env u)
    && not (changes_volumes u)

-- `ChangesDomain`.
unfoldable pub changes_domain : AppUpdate → String → Bool
changes_domain u current = elim u.domain [ none ↦ false | some d ↦ not (d =ₛ current) ]

abbrev pub insert_all : List (String × String) → List (String × String) → List (String × String)
insert_all m [] = m
insert_all m (e ∷ es) = insert_all (insert e.0 e.1 m) es

abbrev pub erase_all : List (String × String) → List String → List (String × String)
erase_all m [] = m
erase_all m (k ∷ ks) = erase_all (erase k m) ks

-- `applyEnv` on the map.
unfoldable pub apply_env :
    List (String × String) → List (String × String) → List String → List (String × String)
apply_env env set remove =
    if length set == 0 && length remove == 0 then env else erase_all (insert_all env set) remove

-- One volume in the place of the first of its name, or at the end.
unfoldable pub put_volume : StoredVolume → List StoredVolume → List StoredVolume
put_volume v [] = v ∷ []
put_volume v (w ∷ ws) = let rest = put_volume v ws in if w.name =ₛ v.name then v ∷ ws else w ∷ rest

-- Without the first volume of the name.
unfoldable pub drop_volume : String → List StoredVolume → List StoredVolume
drop_volume name [] = []
drop_volume name (w ∷ ws) =
    let rest = drop_volume name ws in if w.name =ₛ name then ws else w ∷ rest

abbrev pub put_all : List StoredVolume → List StoredVolume → List StoredVolume
put_all ws [] = ws
put_all ws (v ∷ vs) = put_all (put_volume v ws) vs

abbrev pub drop_all : List StoredVolume → List String → List StoredVolume
drop_all ws [] = ws
drop_all ws (name ∷ names) = drop_all (drop_volume name ws) names

-- `applyVolumes` on the slice.
unfoldable pub apply_volumes :
    List StoredVolume → List StoredVolume → List String → List StoredVolume
unfolding put_volume drop_volume sorted_volumes
apply_volumes vols set remove =
    if length set == 0 && length remove == 0
    then vols
    else sorted_volumes (drop_all (put_all vols set) remove)

abbrev pub or_old {ℓ} : {A : Type ℓ} → Option A → A → A
or_old none old = old
or_old (some new) old = new

-- `applyTo`, and `Apply` with it.
unfoldable pub apply : AppUpdate → App → App
unfolding apply_env apply_volumes
apply u app = record app {
  domain = or_old u.domain app.domain;
  git_branch = or_old u.git_branch app.git_branch;
  health_path = or_old u.health_path app.health_path;
  replicas = or_old u.replicas app.replicas;
  env = apply_env app.env u.env u.env_remove;
  volumes = apply_volumes app.volumes u.volumes u.volume_remove;
}

-- The columns that the statement of `UpdateApp` names.
unfoldable pub set_columns : App → App → App
unfolding sorted_volumes
set_columns app row = record row {
  git_branch = app.git_branch;
  health_path = app.health_path;
  domain = app.domain;
  replicas = app.replicas;
  env = app.env;
  volumes = sorted_volumes app.volumes;
  updated_at = app.updated_at;
}

-- `UPDATE apps SET … WHERE id = ?`, on the one row that has the key.
unfoldable pub update_row : String → App → List App → List App
unfolding set_columns
update_row k app [] = []
update_row k app (a ∷ apps) =
    let rest = update_row k app apps in if a.id =ₛ k then set_columns app a ∷ apps else a ∷ rest

-- Whether the statements of `UpdateApp` run: the start of its transaction, its reading, its writing up to the
-- key, the query of `domainConflict`, and the end.
pub record UpdateRuns : Type 0 where
  pub opens : Bool
  pub reads : Bool
  pub writes : Bool
  pub asks : Bool
  pub commits : Bool

-- From the row that `UpdateApp` read.
unfoldable pub write_update :
    UpdateRuns → ℕ → AppUpdate → App → List App → Result AppError App × List App
unfolding apply update_row domain_owner domain_conflict
write_update runs now u row apps =
    let app = record (apply u row) { updated_at = now } in
    if not runs.writes
    then (err not_written, apps)
    else if breaks_domain app.domain app.id apps
    then (err (domain_conflict runs.asks app.domain app.id apps), apps)
    else if runs.commits
    then (ok app, update_row app.id app apps)
    else (err not_committed, apps)

-- `UpdateApp`.
unfoldable pub update_app :
    UpdateRuns → ℕ → String → AppUpdate → List App → Result AppError App × List App
unfolding get_app write_update
update_app runs now k u apps =
    if not runs.opens then (err not_opened, apps) else elim (get_app runs.reads k apps) [
      | err e ↦ (err e, apps)
      | ok row ↦ write_update runs now u row apps
    ]
