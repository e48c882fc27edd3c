-- ===== src/Api/Rows.antt =====
-- The rows of the table of apps as definitions, and what the statements on a row do to them.
use panely.Kit.{
  ℕ, String, Bool, true, false, not, ◌&&◌, ◌≡◌, ◌≢◌, refl, Option, none, some, List, [], ◌∷◌, ◌=ₛ◌,
  arith, ◌++◌, suc, eq_iff, All, All-zip, Pairs, Bool-cases, Option-cases, ap, inl, inr, ◌+◌,
}
use panely.Records.{App}
use panely.Store.Apps.{
  AppUpdate, update_row, set_columns, apply, find_app, domain_owner, breaks_domain, holds,
  sorted_volumes,
}
use panely.Store.Releases.{bump, other_apps}
use panely.Admit.Volumes.{AppVolume, validate_volumes, check_volumes}
use panely.Admit.Spec.{
  AppSpec, validate_app_spec, validate_source, validate_limits, app_from_proto, volumes_from_proto,
}
use panely.Api.Defining.{volumes_to_proto, spec_of}
use panely.Api.Arranged.{validate_volumes-sorted}

-- The definition in the row is one that the API accepts.
abbrev pub IsDefined : App → Type 0
IsDefined a = validate_app_spec (some (spec_of a)) ≡ none

abbrev pub clash : App → App → Bool
clash a b = not (a.domain =ₛ "") && a.domain =ₛ b.domain

-- The rows differ in id, and in domain where they have one.
abbrev pub Unlike : App → App → Type 0
Unlike a b = ((a.id =ₛ b.id) ≡ false) × (clash a b ≡ false)

abbrev pub IsTable : List App → Type 0
IsTable apps = All IsDefined apps × Pairs Unlike apps

Unlike-sym : (a b : App) → Unlike a b → Unlike b a
Unlike-sym a b u =
    let id = u.0 in
    let domain = u.1 in
    (
      ground (arith, eq_iff a.id b.id, eq_iff b.id a.id),
      ground (
        arith,
        eq_iff a.domain b.domain,
        eq_iff b.domain a.domain,
        eq_iff a.domain "",
        eq_iff b.domain "",
      ),
    )

check_volumes-proto :
    (set seen : List String) (i : ℕ) (vols : List (Option AppVolume))
    → check_volumes set seen i vols ≡ none
    → volumes_to_proto (volumes_from_proto vols) ≡ vols
unfolding check_volumes volumes_to_proto volumes_from_proto
check_volumes-proto set seen i [] h = refl
check_volumes-proto set seen i (none ∷ vols) h = absurd cc
check_volumes-proto set seen i (some v ∷ vols) h =
    ap (λ vs. some v ∷ vs)
      (check_volumes-proto (v.name ∷ set) (seen ++ v.mount_path ∷ []) (suc i) vols (ground arith))

-- Accepted volumes come back from what is stored.
volumes-proto :
    (vols : List (Option AppVolume))
    → validate_volumes vols ≡ none
    → volumes_to_proto (volumes_from_proto vols) ≡ vols
unfolding validate_volumes
volumes-proto vols h = check_volumes-proto [] [] 0 vols (ground arith)

-- The rows that the two statements write, from a definition that is accepted.
sorted-IsDefined :
    (a : App) → IsDefined a → IsDefined (record a { volumes = sorted_volumes a.volumes })
unfolding validate_app_spec validate_source spec_of
sorted-IsDefined a h = ground (arith, validate_volumes-sorted a.volumes)

pub app_from_proto-IsDefined :
    (spec : AppSpec) → validate_app_spec (some spec) ≡ none → IsDefined (app_from_proto spec)
unfolding validate_app_spec validate_source validate_limits spec_of app_from_proto
app_from_proto-IsDefined spec h = elim (Option-cases spec.limits) [
  | inl e ↦ ground (arith, e)
  | inr e ↦ let (l, same) = e in rw (same) (ground (arith, same, volumes-proto spec.volumes))
]

-- A row that breaks no key is unlike the rows that are there.
pub fresh-Unlike :
    (row : App) (apps : List App)
    → holds (find_app row.id apps) ≡ false
    → breaks_domain row.domain row.id apps ≡ false
    → All (Unlike row) apps
unfolding find_app domain_owner
fresh-Unlike row [] id domain = tt
fresh-Unlike row (a ∷ apps) id domain = (
  (
    ground (arith, eq_iff a.id row.id, eq_iff row.id a.id),
    ground (arith, eq_iff a.domain row.domain, eq_iff row.domain a.domain, eq_iff a.id row.id),
  ),
  fresh-Unlike row apps (ground arith) (ground arith),
)

pub created-IsDefined :
    (now : ℕ) (app : App)
    → IsDefined app
    → IsDefined (record app {
      volumes = sorted_volumes app.volumes;
      release_seq = 0;
      created_at = now;
      updated_at = now;
    })
unfolding spec_of
created-IsDefined now app h = sorted-IsDefined app h

other-id : {k : String} (a b : App) → (a.id =ₛ k) ≡ true → (a.id =ₛ b.id) ≡ false → b.id ≢ k
other-id {k} a b e ne same = ground (arith, eq_iff a.id k, eq_iff a.id b.id, e, same)

differ : {s t : String} → s ≡ t → (s =ₛ t) ≡ false → ⊥
differ {s} {t} same ne = ground (arith, eq_iff s t)

-- A row in the place of another of its id, unlike all the rows of other ids.
module _ (k : String) (app : App) where
  update_row-All :
      (P : App → Type 0) (apps : List App)
      → ((row : App) → find_app k apps ≡ some row → P (set_columns app row))
      → All P apps
      → All P (update_row k app apps)
  unfolding update_row find_app
  update_row-All P [] new all = tt
  update_row-All P (a ∷ apps) new all = elim (Bool-cases (a.id =ₛ k)) [
    | inl e ↦ rw e (new a (rw e), all.1)
    | inr e ↦ rw e (all.0, update_row-All P apps (λ row f. new row (rw e f)) all.1)
  ]

  update_row-Pairs :
      (apps : List App)
      → ((row : App)
          → find_app k apps ≡ some row
          → All (λ b. b.id ≢ k → Unlike (set_columns app row) b) apps)
      → Pairs Unlike apps
      → Pairs Unlike (update_row k app apps)
  unfolding update_row find_app
  update_row-Pairs [] new all = tt
  update_row-Pairs (a ∷ apps) new all = elim (Bool-cases (a.id =ₛ k)) [
    | inl e ↦ rw e (
      All-zip (λ b only unlike. only (other-id a b e unlike.0)) apps (new a (rw e)).1 all.0,
      all.1,
    )
    | inr e ↦ rw e (
      update_row-All (Unlike a) apps
          (λ row f.
            Unlike-sym (set_columns app row) a
              ((new row (rw e f)).0 (λ same. absurd (differ same e))))
          all.0,
      update_row-Pairs apps (λ row f. (new row (rw e f)).1) all.1,
    )
  ]

-- A row that breaks no domain is unlike the rows of other ids.
free-Unlike :
    (row : App) (apps : List App)
    → breaks_domain row.domain row.id apps ≡ false
    → All (λ b. b.id ≢ row.id → Unlike row b) apps
unfolding domain_owner
free-Unlike row [] domain = tt
free-Unlike row (b ∷ apps) domain = (
  λ ne. (
    ground (arith, ne, eq_iff row.id b.id),
    ground (arith, ne, eq_iff b.id row.id, eq_iff b.domain row.domain, eq_iff row.domain b.domain),
  ),
  free-Unlike row apps (ground arith),
)

-- What the statement of `UpdateApp` writes is what was checked, sorted.
set_columns-IsDefined :
    (now : ℕ) (u : AppUpdate) (row : App)
    → IsDefined (apply u row)
    → IsDefined (set_columns (record (apply u row) { updated_at = now }) row)
unfolding spec_of apply set_columns
set_columns-IsDefined now u row h = sorted-IsDefined (apply u row) h

same-row : {o : Option App} {a b : App} → o ≡ some a → o ≡ some b → b ≡ a
same-row e f = cc (e, f)

pub update_row-IsTable :
    (now : ℕ) (u : AppUpdate) (row : App) (apps : List App)
    → find_app row.id apps ≡ some row
    → IsDefined (apply u row)
    → breaks_domain (apply u row).domain row.id apps ≡ false
    → IsTable apps
    → IsTable (update_row row.id (record (apply u row) { updated_at = now }) apps)
unfolding set_columns
update_row-IsTable now u row apps f h domain t =
    let app = record (apply u row) { updated_at = now } in
    let read = λ (other : App) (g : find_app row.id apps ≡ some other). same-row f g in
    (
      update_row-All row.id app IsDefined apps
          (λ other g. rw (read other g) (set_columns-IsDefined now u row h)) t.0,
      update_row-Pairs row.id app apps
          (λ other g. rw (read other g) (free-Unlike (set_columns app row) apps domain)) t.1,
    )

-- The counter of releases is no part of a definition.
bump-All :
    (now : ℕ) (k : String) (P : App → Type 0) (apps : List App)
    → ((a : App) → P a → P (record a { release_seq = a.release_seq + 1; updated_at = now }))
    → All P apps
    → All P (bump now k apps)
unfolding bump
bump-All now k P [] keeps all = tt
bump-All now k P (a ∷ apps) keeps all =
    let rest = bump-All now k P apps keeps all.1 in
    elim (Bool-cases (a.id =ₛ k)) [
      | inl e ↦ rw e (keeps a all.0, rest)
      | inr e ↦ rw e (all.0, rest)
    ]

bump-Pairs :
    (now : ℕ) (k : String) (apps : List App) → Pairs Unlike apps → Pairs Unlike (bump now k apps)
unfolding bump
bump-Pairs now k [] all = tt
bump-Pairs now k (a ∷ apps) all =
    let rest = bump-Pairs now k apps all.1 in
    let first = bump-All now k (Unlike a) apps (λ b h. h) all.0 in
    elim (Bool-cases (a.id =ₛ k)) [ inl e ↦ rw e (first, rest) | inr e ↦ rw e (first, rest) ]

other_apps-All :
    (k : String) (P : App → Type 0) (apps : List App) → All P apps → All P (other_apps k apps)
unfolding other_apps
other_apps-All k P [] all = tt
other_apps-All k P (a ∷ apps) all = elim (Bool-cases (a.id =ₛ k)) [
  | inl e ↦ rw e (other_apps-All k P apps all.1)
  | inr e ↦ rw e (all.0, other_apps-All k P apps all.1)
]

other_apps-Pairs :
    (k : String) (apps : List App) → Pairs Unlike apps → Pairs Unlike (other_apps k apps)
unfolding other_apps
other_apps-Pairs k [] all = tt
other_apps-Pairs k (a ∷ apps) all = elim (Bool-cases (a.id =ₛ k)) [
  | inl e ↦ rw e (other_apps-Pairs k apps all.1)
  | inr e ↦ rw e (other_apps-All k (Unlike a) apps all.0, other_apps-Pairs k apps all.1)
]

pub bump-IsTable :
    (now : ℕ) (k : String) (apps : List App) → IsTable apps → IsTable (bump now k apps)
unfolding spec_of
bump-IsTable now k apps t =
    (bump-All now k IsDefined apps (λ a h. h) t.0, bump-Pairs now k apps t.1)

pub other_apps-IsTable : (k : String) (apps : List App) → IsTable apps → IsTable (other_apps k apps)
other_apps-IsTable k apps t = (other_apps-All k IsDefined apps t.0, other_apps-Pairs k apps t.1)
