-- ===== src/Api/Lifecycle.antt =====
-- The tables of the store under all calls that write an app, from its definition to its deletion.
use panely.Kit.{
  ℕ, ◌<◌, String, Bool, ◌≡◌, refl, Option, none, some, List, [], ◌∷◌, arith, All, Bool-cases,
  Option-cases, inl, inr, ◌&&◌, ltb, ◌+◌, ◌^◌, ◌=ₛ◌, ok, not, sym, ap, ◌∙◌, true, false,
  if◌then◌else◌,
}
use panely.Records.{App, StoredVolume, Release, ReleaseStatus, failed}
use panely.Store.Deployments.{Runs, open_release}
use panely.Store.Releases.{
  Tables, counter, is_taken, release_id, start_release, finish_release, fail_release, seal_release,
  delete_app,
}
use panely.Store.Numbering.{Op, starting, finishing, failing, deleting}
use panely.Store.Numbering
use panely.Store.Apps.{UpdateRuns, find_app}
use panely.Deploy.Replicas.{replica_options}
use panely.Admit.Patterns.{match_release_id}
use panely.Admit.Spec.{AppSpec, ResourceLimits, app_from_proto, volumes_from_proto}
use panely.Admit.Create.{CreateRequest, create_request, validate_create}
use panely.Admit.Accepted.{HasRoom, validate_create-app_from_proto}
use panely.Api.Deploying.{valid_commit_sha}
use panely.Api.Defining.{UpdateRequest, define, change, spec_of, volumes_to_proto}
use panely.Api.Rows.{IsDefined, IsTable, bump-IsTable, other_apps-IsTable}
use panely.Api.Defined.{define-IsTable, change-IsTable}

-- A call that may write an app: `CreateApp` and `UpdateApp` with what of them runs, and the calls of the store on releases
-- and on the deletion of apps.
pub data Call : Type 0 where
  defining : Bool → Bool → Bool → ℕ → Option AppSpec → Call
  changing : Bool → UpdateRuns → ℕ → UpdateRequest → Call
  storing : Op → Call

if-keeps {ℓ} :
    {A : Type ℓ} (b : Bool) (x y : A × Tables)
    → IsTable x.1.apps
    → IsTable y.1.apps
    → IsTable (if b then x else y).1.apps
if-keeps true x y h g = h
if-keeps false x y h g = g

finish_release-apps :
    (up : Bool) (now : ℕ) (k i image : String) (t : Tables)
    → (finish_release up now k i image t).1.apps ≡ t.apps
unfolding finish_release seal_release
finish_release-apps up now k i image t = ground arith

module _ (digits : ℕ → String) where
  abbrev pub answer : Call → Tables → Tables
  answer (defining writes reads asks now spec) t = record t {
    apps = (define writes reads asks now spec t.apps).1;
  }
  answer (changing reads runs now req) t = record t { apps = (change reads runs now req t.apps).1 }
  answer (storing op) t = Numbering.apply digits op t

  abbrev pub answer_all : List Call → Tables → Tables
  answer_all [] t = t
  answer_all (c ∷ cs) t = answer_all cs (answer c t)

  start_release-IsTable :
      (up : Runs) (now : ℕ) (k sha : String) (t : Tables)
      → IsTable t.apps
      → IsTable (start_release digits up now k sha t).1.apps
  unfolding start_release
  start_release-IsTable up now k sha t h = if-keeps (not up.begin) _ _ h (
      if-keeps (not up.update) _ _ h (elim (Option-cases (counter k t.apps)) [
        | inl q ↦ rw (q, start_release) h
        | inr (n, q) ↦
            rw (q, start_release)
              (if-keeps (not (ltb (n + 1) (2 ^ 32))) _ _ h (
                if-keeps (is_taken k (release_id digits (n + 1)) (n + 1) t.releases) _ _ h
                  (if-keeps (up.insertion && up.commit) _ _ (bump-IsTable now k t.apps h) h)))
      ]))

delete_app-IsTable :
    (up : Runs) (k : String) (t : Tables) → IsTable t.apps → IsTable (delete_app up k t).1.apps
unfolding delete_app
delete_app-IsTable up k t h =
    if-keeps (not (up.begin && up.select)) _ _ h (elim (Option-cases (counter k t.apps)) [
      | inl q ↦ rw (q, delete_app) h
      | inr (n, q) ↦
          rw (q, delete_app)
            (elim (Option-cases (open_release k t.deployments)) [
              | inr (r, o) ↦ rw (o, delete_app) h
              | inl o ↦
                  rw (o, delete_app)
                    (if-keeps (up.update && up.commit) _ _ (other_apps-IsTable k t.apps h) h)
            ])
    ])

seal_release-apps :
    (up : Bool) (now : ℕ) (k i : String) (status : ReleaseStatus) (image detail : String)
    (t : Tables)
    → (seal_release up now k i status image detail t).1.apps ≡ t.apps
unfolding seal_release
seal_release-apps up now k i status image detail t = ground arith

module _ (digits : ℕ → String) where
  storing-IsTable :
      (op : Op) (t : Tables) → IsTable t.apps → IsTable (Numbering.apply digits op t).apps
  storing-IsTable (starting up now k sha) t h = start_release-IsTable digits up now k sha t h
  storing-IsTable (finishing up now k i image) t h = rw (finish_release-apps up now k i image t) h
  storing-IsTable (failing up now k i detail) t h =
      unfold fail_release in rw (seal_release-apps up now k i failed "" detail t) h
  storing-IsTable (deleting up k) t h = delete_app-IsTable up k t h

  answer-IsTable : (c : Call) (t : Tables) → IsTable t.apps → IsTable (answer digits c t).apps
  answer-IsTable (defining writes reads asks now spec) t h =
      define-IsTable writes reads asks now spec t.apps h
  answer-IsTable (changing reads runs now req) t h = change-IsTable reads runs now req t.apps h
  answer-IsTable (storing op) t h = storing-IsTable op t h

  -- Whatever is called, and whatever fails, each app in the tables stays a definition that `validateAppSpec` accepts,
  -- and no two apps have one id or one domain, if that holds of the tables at first, as it does of empty ones.
  pub answer_all-IsTable :
      (cs : List Call) (t : Tables) → IsTable t.apps → IsTable (answer_all digits cs t).apps
  answer_all-IsTable [] t h = h
  answer_all-IsTable (c ∷ cs) t h = answer_all-IsTable cs (answer digits c t) (answer-IsTable c t h)

abbrev pub no_tables : Tables
no_tables = record { apps = []; releases = []; deployments = [] }

find_app-All :
    (P : App → Type 0) (k : String) (apps : List App) (a : App)
    → find_app k apps ≡ some a
    → All P apps
    → P a
unfolding find_app
find_app-All P k [] a f all = absurd cc
find_app-All P k (b ∷ apps) a f all = elim (Bool-cases (b.id =ₛ k)) [
  | inl e ↦ let found : some b ≡ some a = rw e at f in let same : a ≡ b = cc in rw same all.0
  | inr e ↦ find_app-All P k apps a (rw e at f) all.1
]

volumes-back : (vs : List StoredVolume) → volumes_from_proto (volumes_to_proto vs) ≡ vs
unfolding volumes_from_proto volumes_to_proto
volumes-back [] = refl
volumes-back (v ∷ vs) = ap (λ ws. v ∷ ws) (volumes-back vs)

replica_options-spec :
    (a : App) (rel : Release) (index : ℕ)
    → replica_options (app_from_proto (spec_of a)) rel index ≡ replica_options a rel index
unfolding replica_options app_from_proto spec_of
replica_options-spec a rel index = rw (volumes-back a.volumes) refl

abbrev pub limits_in : App → ResourceLimits
limits_in a = record {
  memory_bytes = a.memory_bytes;
  cpu_millis = a.cpu_millis;
  blkio_weight = a.blkio_weight;
}

IsDefined-CanRun :
    (a : App) (rel : Release) (index : ℕ)
    → IsDefined a
    → HasRoom (limits_in a)
    → match_release_id rel.id ≡ true
    → valid_commit_sha rel.commit_sha ≡ true
    → index < a.replicas
    → (req : CreateRequest) × (create_request (replica_options a rel index) ≡ ok req)
      × (validate_create (some req) ≡ none)
unfolding spec_of
IsDefined-CanRun a rel index h room named full within =
    let (req, sent, taken) =
      validate_create-app_from_proto (spec_of a) (limits_in a) rel index h refl room named full
        within in
    (req, ap create_request (sym (replica_options-spec a rel index)) ∙ sent, taken)

-- Whatever was called since the tables were empty: an app that they hold, if its memory and CPU lie within the
-- executor's bounds, can be run. For a release with a well-formed id and a full commit and an index below the
-- number of replicas, `CreateReplica` sends a request that the executor's `validateCreate` accepts.
pub answer_all-CanRun :
    (digits : ℕ → String) (cs : List Call) (k : String) (a : App) (rel : Release) (index : ℕ)
    → find_app k (answer_all digits cs no_tables).apps ≡ some a
    → HasRoom (limits_in a)
    → match_release_id rel.id ≡ true
    → valid_commit_sha rel.commit_sha ≡ true
    → index < a.replicas
    → (req : CreateRequest) × (create_request (replica_options a rel index) ≡ ok req)
      × (validate_create (some req) ≡ none)
answer_all-CanRun digits cs k a rel index f room named full within =
    let table = answer_all-IsTable digits cs no_tables (tt, tt) in
    IsDefined-CanRun a rel index
      (find_app-All IsDefined k (answer_all digits cs no_tables).apps a f table.0) room named full
      within
