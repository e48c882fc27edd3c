-- ===== src/Store/Releases.antt =====
-- internal/store/releases.go and `DeleteApp` of appdelete.go: the tables `apps`, `releases` and `deployments` under the
-- statements that number, open and close releases. Each statement may fail; a transaction that
-- fails leaves the tables as they were. The keys of `releases` are (app_id, id) and (app_id, seq).
use panely.Kit.{
  zero, suc, ℕ, ◌+◌, ◌-◌, ◌%◌, ◌^◌, String, Bool, true, false, not, ◌&&◌, ◌||◌, Option, none, some,
  List, [], ◌∷◌, ltb, ◌==◌, ◌=ₛ◌, if◌then◌else◌, length, Result, ok, err,
}
use panely.Kit.Text.{glue}
use panely.Records.{App, Release, ReleaseStatus, building, built, failed}
use panely.Store.Deployments.{DeploymentRow, Runs, open_release}

pub record Tables : Type 0 where
  pub apps : List App
  pub releases : List Release
  pub deployments : List DeploymentRow

pub data ReleaseError : Type 0 where
  no_app : ReleaseError
  not_started : ReleaseError
  not_counted : ReleaseError
  not_inserted : ReleaseError
  duplicate : ReleaseError
  no_image : ReleaseError
  not_sealed : ReleaseError
  no_release : ReleaseError
  not_read : ReleaseError
  not_deleted : ReleaseError
  is_live : String → ReleaseError

-- The counter of an app, `SELECT release_seq FROM apps WHERE id = ?`.
unfoldable pub counter : String → List App → Option ℕ
counter k [] = none
counter k (a ∷ apps) = if a.id =ₛ k then some a.release_seq else counter k apps

-- `UPDATE apps SET release_seq = release_seq + 1, updated_at = ? WHERE id = ?`.
unfoldable pub bump : ℕ → String → List App → List App
bump now k [] = []
bump now k (a ∷ apps) =
    let rest = bump now k apps in
    if a.id =ₛ k
    then record a { release_seq = a.release_seq + 1; updated_at = now } ∷ rest
    else a ∷ rest

-- Is one of the two keys taken?
unfoldable pub is_taken : String → String → ℕ → List Release → Bool
is_taken k i n [] = false
is_taken k i n (r ∷ rs) = r.app_id =ₛ k && (r.id =ₛ i || r.seq == n) || is_taken k i n rs

-- `SELECT … WHERE app_id = ? AND id = ?`.
unfoldable pub find_release : String → String → List Release → Option Release
find_release k i [] = none
find_release k i (r ∷ rs) = if r.app_id =ₛ k && r.id =ₛ i then some r else find_release k i rs

abbrev pub is_building : Release → Bool
is_building r = elim r.status [ building ↦ true | _ ↦ false ]

-- The row that `WHERE app_id = ? AND id = ? AND status = 1` picks.
abbrev pub is_picked : String → String → Release → Bool
is_picked k i r = r.app_id =ₛ k && r.id =ₛ i && is_building r

unfoldable pub is_open_release : String → String → List Release → Bool
is_open_release k i [] = false
is_open_release k i (r ∷ rs) = is_picked k i r || is_open_release k i rs

-- `UPDATE releases SET status = ?, image_id = ?, detail = ?, finished_at = ? WHERE …`.
unfoldable pub seal_rows :
    ℕ → String → String → ReleaseStatus → String → String → List Release → List Release
seal_rows now k i status image detail [] = []
seal_rows now k i status image detail (r ∷ rs) =
    let rest = seal_rows now k i status image detail rs in
    if is_picked k i r
    then record r { status = status; image_id = image; detail = detail; finished_at = now } ∷ rest
    else r ∷ rest

-- `sealRelease`.
unfoldable pub seal_release :
    Bool
    → ℕ
    → String
    → String
    → ReleaseStatus
    → String
    → String
    → Tables
    → Option ReleaseError × Tables
seal_release up now k i status image detail t =
    if not up
    then (some not_sealed, t)
    else if is_open_release k i t.releases
    then (none, record t { releases = seal_rows now k i status image detail t.releases })
    else (some no_release, t)

-- `FinishRelease` and `FailRelease`.
unfoldable pub finish_release :
    Bool → ℕ → String → String → String → Tables → Option ReleaseError × Tables
unfolding seal_release
finish_release up now k i image t =
    if image =ₛ "" then (some no_image, t) else seal_release up now k i built image "" t

unfoldable pub fail_release :
    Bool → ℕ → String → String → String → Tables → Option ReleaseError × Tables
unfolding seal_release
fail_release up now k i detail t = seal_release up now k i failed "" detail t

-- `GetRelease`.
unfoldable pub get_release : Bool → String → String → Tables → Result ReleaseError Release
get_release up k i t =
    if up
    then (elim (find_release k i t.releases) [ none ↦ err no_release | some r ↦ ok r ])
    else err not_read

-- `ORDER BY seq DESC`, as an insertion sort.
unfoldable pub place_release : Release → List Release → List Release
place_release r [] = r ∷ []
place_release r (s ∷ rs) =
    let rest = place_release r rs in if ltb r.seq s.seq then s ∷ rest else r ∷ (s ∷ rs)

-- `WHERE app_id = ? ORDER BY seq DESC`.
unfoldable pub newest_first : String → List Release → List Release
newest_first k [] = []
newest_first k (r ∷ rs) =
    let rest = newest_first k rs in if r.app_id =ₛ k then place_release r rest else rest

-- `LIMIT ?`.
abbrev pub first_of : ℕ → List Release → List Release
first_of zero rs = []
first_of (suc n) [] = []
first_of (suc n) (r ∷ rs) = r ∷ first_of n rs

-- The limit that `ListReleases` takes; a limit that is not positive stands as 0.
abbrev pub release_limit : ℕ → ℕ
release_limit limit = if limit == 0 then 20 else if ltb 500 limit then 500 else limit

-- `ListReleases`.
unfoldable pub list_releases : Bool → String → ℕ → Tables → Result ReleaseError (List Release)
unfolding newest_first
list_releases up k limit t =
    if up then ok (first_of (release_limit limit) (newest_first k t.releases)) else err not_read

-- The rows of other apps, `DELETE FROM releases WHERE app_id = ?` and the like.
unfoldable pub other_releases : String → List Release → List Release
other_releases k [] = []
other_releases k (r ∷ rs) =
    let rest = other_releases k rs in if r.app_id =ₛ k then rest else r ∷ rest

unfoldable pub other_apps : String → List App → List App
other_apps k [] = []
other_apps k (a ∷ apps) = let rest = other_apps k apps in if a.id =ₛ k then rest else a ∷ rest

unfoldable pub other_deployments : String → List DeploymentRow → List DeploymentRow
other_deployments k [] = []
other_deployments k (d ∷ ds) =
    let rest = other_deployments k ds in if d.app_id =ₛ k then rest else d ∷ rest

-- How many deployments and releases went.
abbrev pub Deleted : Type 0
Deleted = ℕ × ℕ

-- What `deleteRows` counts, as 32 bits, from the rows before and after.
abbrev pub gone : ℕ → ℕ → ℕ
gone before after = (before - after) % 2 ^ 32

-- `DeleteApp`; the flags say whether it begins, its questions are answered, its deletions run and it commits.
unfoldable pub delete_app : Runs → String → Tables → Result ReleaseError Deleted × Tables
delete_app up k t =
    let ds = other_deployments k t.deployments in
    let rs = other_releases k t.releases in
    if not (up.begin && up.select) then (err not_deleted, t) else elim (counter k t.apps) [
      | none ↦ (err no_app, t)
      | some n ↦ elim (open_release k t.deployments) [
        | some r ↦ (err (is_live r), t)
        | none ↦
            if up.update && up.commit
            then (
              ok (gone (length t.deployments) (length ds), gone (length t.releases) (length rs)),
              record { apps = other_apps k t.apps; releases = rs; deployments = ds },
            )
            else (err not_deleted, t)
      ]
    ]

module _ (digits : ℕ → String) where
  -- `ReleaseID`; `digits` is `strconv.FormatUint` to the base ten.
  abbrev pub release_id : ℕ → String
  release_id n = glue "r" (digits n)

  abbrev pub new_release : ℕ → String → String → ℕ → Release
  new_release now k sha n = record {
    app_id = k;
    id = release_id n;
    seq = n;
    commit_sha = sha;
    status = building;
    image_id = "";
    started_at = now;
    finished_at = 0;
    detail = "";
  }

  -- `StartRelease`; a counter that does not fit 32 bits is refused when it is scanned.
  unfoldable pub start_release :
      Runs → ℕ → String → String → Tables → Result ReleaseError Release × Tables
  start_release up now k sha t =
      if not up.begin
      then (err not_started, t)
      else if not up.update
      then (err not_counted, t)
      else elim (counter k t.apps) [
        | none ↦ (err no_app, t)
        | some n ↦
            if not (ltb (n + 1) (2 ^ 32))
            then (err not_counted, t)
            else if is_taken k (release_id (n + 1)) (n + 1) t.releases
            then (err duplicate, t)
            else if up.insertion && up.commit
            then (
              ok (new_release now k sha (n + 1)),
              record t {
                apps = bump now k t.apps;
                releases = new_release now k sha (n + 1) ∷ t.releases;
              },
            )
            else (err not_inserted, t)
      ]
