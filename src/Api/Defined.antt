-- ===== src/Api/Defined.antt =====
-- `CreateApp` and `UpdateApp` on a table of accepted definitions.
use panely.Kit.{
  ℕ, String, Bool, ◌||◌, ◌≡◌, Option, none, some, List, arith, Bool-cases, Option-cases, ap, ◌∙◌,
  inl, inr, ok, Result-cases,
}
use panely.Records.{App}
use panely.Store.Apps.{
  AppUpdate, UpdateRuns, create_app, get_app, update_app, write_update, apply, find_app,
  breaks_domain, holds, sorted_volumes, is_empty,
}
use panely.Admit.Checks.{◌then◌}
use panely.Admit.Volumes.{validate_volume_remove}
use panely.Admit.Spec.{AppSpec, validate_app_spec, app_from_proto, validate_env_remove}
use panely.Api.Defining.{UpdateRequest, spec_of, define, change, change_current, update_from_proto}
use panely.Store.Merging.{found-id}
use panely.Api.Rows.{
  IsDefined, IsTable, fresh-Unlike, created-IsDefined, app_from_proto-IsDefined, update_row-IsTable,
}

pub create_app-IsTable :
    (writes reads asks : Bool) (now : ℕ) (app : App) (apps : List App)
    → IsDefined app
    → IsTable apps
    → IsTable (create_app writes reads asks now app apps).1
unfolding create_app
create_app-IsTable writes reads asks now app apps h t =
    let row : App = record app {
      volumes = sorted_volumes app.volumes;
      release_seq = 0;
      created_at = now;
      updated_at = now;
    } in
    elim (Bool-cases writes) [
      | inr e ↦ rw e t
      | inl e ↦
          elim (Bool-cases (holds (find_app row.id apps) || breaks_domain row.domain row.id apps)) [
            | inl c ↦ rw (e, c) t
            | inr c ↦
                rw (e, c)
                  (
                    (created-IsDefined now app h, t.0),
                    (fresh-Unlike row apps (ground arith) (ground arith), t.1),
                  )
          ]
    ]

pub define-IsTable :
    (writes reads asks : Bool) (now : ℕ) (spec : Option AppSpec) (apps : List App)
    → IsTable apps
    → IsTable (define writes reads asks now spec apps).1
unfolding define
define-IsTable writes reads asks now none apps t = t
define-IsTable writes reads asks now (some spec) apps t =
    elim (Option-cases (validate_app_spec (some spec))) [
      | inr e ↦ rw (e.1, define) t
      | inl e ↦
          rw (e, define)
            (create_app-IsTable writes reads asks now (app_from_proto spec) apps
              (app_from_proto-IsDefined spec e) t)
    ]

write_update-IsTable :
    (runs : UpdateRuns) (now : ℕ) (u : AppUpdate) (row : App) (apps : List App)
    → find_app row.id apps ≡ some row
    → IsDefined (apply u row)
    → IsTable apps
    → IsTable (write_update runs now u row apps).1
unfolding write_update apply
write_update-IsTable runs now u row apps f h t = elim (Bool-cases runs.writes) [
  | inr e ↦ rw e t
  | inl e ↦ elim (Bool-cases (breaks_domain (apply u row).domain row.id apps)) [
    | inl c ↦ rw (e, c) t
    | inr c ↦ elim (Bool-cases runs.commits) [
      | inr d ↦ rw (e, c, d) t
      | inl d ↦ rw (e, c, d) (update_row-IsTable now u row apps f h c t)
    ]
  ]
]

pub update_app-IsTable :
    (runs : UpdateRuns) (now : ℕ) (k : String) (u : AppUpdate) (row : App) (apps : List App)
    → find_app k apps ≡ some row
    → IsDefined (apply u row)
    → IsTable apps
    → IsTable (update_app runs now k u apps).1
unfolding update_app write_update get_app
update_app-IsTable runs now k u row apps f h t = elim (Bool-cases runs.opens) [
  | inr e ↦ rw (e, update_app) t
  | inl e ↦ elim (Bool-cases runs.reads) [
    | inr g ↦ rw (e, update_app, get_app, g) t
    | inl g ↦
        rw (e, update_app, get_app, g, f)
          (write_update-IsTable runs now u row apps
            (ap (λ i. find_app i apps) (found-id k row apps f) ∙ f) h t)
  ]
]

get_app-found :
    (reads : Bool) (k : String) (apps : List App) (row : App)
    → get_app reads k apps ≡ ok row
    → find_app k apps ≡ some row
unfolding get_app
get_app-found reads k apps row h = elim (Option-cases (find_app k apps)) [
  | inl e ↦ ground (arith, e, h)
  | inr e ↦ let (other, f) = e in ground (arith, f, h)
]

change_current-IsTable :
    (runs : UpdateRuns) (now : ℕ) (k : String) (u : AppUpdate) (row : App) (apps : List App)
    → find_app k apps ≡ some row
    → IsTable apps
    → IsTable (change_current runs now k u row apps).1
unfolding change_current
change_current-IsTable runs now k u row apps f t =
    elim (Option-cases (validate_app_spec (some (spec_of (apply u row))))) [
      | inr e ↦ rw (e.1, change_current) t
      | inl e ↦ rw (e, change_current) (update_app-IsTable runs now k u row apps f e t)
    ]

pub change-IsTable :
    (reads : Bool) (runs : UpdateRuns) (now : ℕ) (req : UpdateRequest) (apps : List App)
    → IsTable apps
    → IsTable (change reads runs now req apps).1
unfolding change
change-IsTable reads runs now req apps t =
    let u = update_from_proto req in
    let checks =
      validate_env_remove req.env req.env_remove
      then validate_volume_remove req.volumes req.volume_remove in
    elim (Bool-cases (is_empty u)) [
      | inl e ↦ rw (e, change) t
      | inr e ↦ elim (Option-cases checks) [
        | inr c ↦ rw (e, change, c.1) t
        | inl c ↦ elim (Result-cases (get_app reads req.app_id apps)) [
          | inr g ↦ rw (e, change, c, g.1) t
          | inl g ↦
              rw (e, change, c, g.1)
                (change_current-IsTable runs now req.app_id u g.0 apps
                  (get_app-found reads req.app_id apps g.0 g.1) t)
        ]
      ]
    ]
