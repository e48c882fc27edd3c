-- ===== src/Api/Handling.antt =====
-- What the handlers of internal/api share: the services that they call (`Server`), the events that these calls
-- leave in a trace, the audit records of record.go and `appError` of apps.go. The texts of errors are left to the services.
use panely.Kit.{
  ℕ, String, Bool, true, false, Option, none, some, List, ◌∷◌, ◌=ₛ◌, if◌then◌else◌, Result, ok, err,
}
use panely.Kit.Text.{glue}
use panely.Records.{App, Release, Deployment, Replica}
use panely.Deploy.Rollout.{RolloutError, ours_skipped, joined}
use panely.Audit.Record.{Bytes}
use panely.Api.Credentials.{CallerInfo}
use panely.Api.Redaction.{redact_sensitive}

-- gRPC's codes, those that the handlers give.
pub data Code : Type 0 where
  invalid_argument not_found already_exists failed_precondition internal : Code
  other_code : ℕ → Code

-- What the store returns in place of `nil`; `coded` is an error that carries a code of gRPC.
pub data StoreError : Type 0 where
  app_not_found release_not_found app_exists domain_taken no_deployment no_previous : StoreError
  coded : Code → StoreError
  other_error : String → StoreError

-- How a build ends without an image.
pub data BuildError : Type 0 where
  not_started : String → BuildError
  stream_broken : String → BuildError
  sink_failed : String → BuildError
  no_image : BuildError

-- What a handler returns in place of `nil`.
pub data ApiError : Type 0 where
  status : Code → ApiError
  send_failed : String → ApiError
  build_failed : BuildError → ApiError
  rollout_failed : RolloutError → ApiError
  executor_failed : String → ApiError

-- `appError`, of an error that is not `nil`.
abbrev pub app_error : StoreError → ApiError
app_error app_not_found = status not_found
app_error release_not_found = status not_found
app_error app_exists = status already_exists
app_error domain_taken = status already_exists
app_error no_deployment = status failed_precondition
app_error no_previous = status failed_precondition
app_error (coded c) = status c
app_error (other_error e) = status internal

-- `errors.As(err, &skipped)`: is there a `SkippedError` in it?
abbrev pub is_skipped : RolloutError → Bool
is_skipped (ours_skipped _) = true
is_skipped (joined (_ ∷ _) _) = true
is_skipped _ = false

abbrev pub Params : Type 0
Params = List (String × String)

-- `audit.Outcome`.
pub data Outcome : Type 0 where
  success failure denied_outcome : Outcome

pub record Actor : Type 0 where
  pub fingerprint : String
  pub source_ip : String
  pub label : String
  pub origin : String

-- `audit.Record` as `recordAction` fills it in; its source is always the daemon.
pub record Entry : Type 0 where
  pub actor : Actor
  pub action : String
  pub target : String
  pub params_json : String
  pub outcome : Outcome
  pub detail : String

-- `ImageBuildRequest`.
pub record BuildRequest : Type 0 where
  pub app_id : String
  pub release_id : String
  pub host : String
  pub owner : String
  pub repo : String
  pub commit_sha : String
  pub dockerfile_path : String
  pub build_args : List (String × String)

-- `ImageBuildResponse`.
pub record BuildMessage : Type 0 where
  pub data_bytes : Bytes
  pub is_stderr : Bool
  pub image_id : String

-- `DeployResponse`.
pub data Message : Type 0 where
  accepted : String → String → String → Message
  output : Bytes → Bool → Message
  succeeded : String → String → Message

-- A call of a handler that matters to the order, with what came of it.
pub data Event : Type 0 where
  app_read : String → Option App → Event
  release_started : String → String → Option Release → Event
  release_failed : String → String → Bytes → Event
  release_finished : String → String → String → Option StoreError → Event
  sent : Message → Option String → Event
  build_opened : BuildRequest → Event
  rolled_out : String → String → Option RolloutError → Event
  rolled_back : String → String → Option RolloutError → Event
  release_stopped : String → String → Option String → Event
  release_removed : String → String → Option String → Event
  audited : Entry → Option String → Event

-- The store, the executor, the rollout and the stream of a call. A stream of the executor is the messages that it gives
-- before its end, and the error that it ends by, if any.
pub record Services (W : Type 0) : Type 0 where
  pub get_app : String → W → Result StoreError App × W
  pub start_release : String → String → W → Result StoreError Release × W
  pub fail_release : String → String → Bytes → W → Option StoreError × W
  pub finish_release : String → String → String → W → Option StoreError × W
  pub get_release : String → String → W → Result StoreError Release × W
  pub active_deployment : String → W → Result StoreError Deployment × W
  pub previous_active_release : String → W → Result StoreError String × W
  pub send : Message → W → Option String × W
  pub open_build : BuildRequest → W → Result String (List BuildMessage × Option String) × W
  pub list_replicas : String → W → Result String (List Replica) × W
  pub stop_release : String → String → W → Result String ℕ × W
  pub remove_release : String → String → W → Result String ℕ × W
  pub run : App → Release → W → Option RolloutError × W
  pub rollback : App → Release → W → (Bool × Option RolloutError) × W
  pub append_audit : Entry → W → Option String × W
  pub marshal : Params → Result String String
  pub describe : BuildError → Bytes
  pub explain : RolloutError → String
  pub decimal : ℕ → String
  pub quote : String → String

pub record World (W : Type 0) : Type 0 where
  pub outside : W
  pub trace : List Event

abbrev pub Run : Type 0 → Type 0 → Type 0
Run W A = World W → A × World W

-- The error of a result, and its value.
abbrev pub error_of {ℓ κ} : {E : Type ℓ} {A : Type κ} → Result E A → Option E
error_of (ok a) = none
error_of (err e) = some e

abbrev pub value_of {ℓ κ} : {E : Type ℓ} {A : Type κ} → Result E A → Option A
value_of (ok a) = some a
value_of (err e) = none

abbrev unknown_actor : Actor
unknown_actor = record { fingerprint = ""; source_ip = ""; label = ""; origin = "unknown" }

-- `actorFromContext`.
unfoldable pub actor_from_context : Option CallerInfo → Actor
actor_from_context none = unknown_actor
actor_from_context (some info) = record {
  fingerprint = info.identity.fingerprint;
  source_ip = info.identity.source_ip;
  label = info.identity.label;
  origin = if info.identity.origin =ₛ "" then "unknown" else info.identity.origin;
}

abbrev pub app_target : String → String
app_target app_id = glue "app/" app_id

abbrev pub release_target : String → String → String
release_target app_id release_id = glue "app/" (glue app_id (glue "/release/" release_id))

module _ {W : Type 0} (svc : Services W) (caller : Option CallerInfo) where
  abbrev pub at : World W → W → Event → World W
  at w outside e = record { outside = outside; trace = e ∷ w.trace }

  abbrev pub getting_app : String → Run W (Result StoreError App)
  getting_app app_id w =
      let (r, outside) = svc.get_app app_id w.outside in
      (r, at w outside (app_read app_id (value_of r)))

  abbrev pub sending : Message → Run W (Option String)
  sending m w = let (e, outside) = svc.send m w.outside in (e, at w outside (sent m e))

  abbrev pub appending : Entry → Run W (Option String)
  appending entry w =
      let (e, outside) = svc.append_audit entry w.outside in (e, at w outside (audited entry e))

  -- `recordAction`.
  unfoldable pub record_action :
      String → String → Params → Outcome → String → Run W (Option ApiError)
  record_action action target params outcome detail w =
      elim (svc.marshal (redact_sensitive params)) [
        | err e ↦ (some (status internal), w)
        | ok json ↦
            let (e, w1) =
              appending
                (record {
                  actor = actor_from_context caller;
                  action = action;
                  target = target;
                  params_json = json;
                  outcome = outcome;
                  detail = detail;
                })
                w in
            elim e [ none ↦ (none, w1) | some _ ↦ (some (status internal), w1) ]
      ]

  -- `denied`, with the text of the cause.
  unfoldable pub denied : String → String → Params → String → Run W (Option ApiError)
  unfolding record_action
  denied action target params cause w =
      let (_, w1) = record_action action target params denied_outcome cause w in
      (some (status invalid_argument), w1)

  abbrev pub failed_detail : String
  failed_detail = "işlem başarısız (ayrıntı çağırana döndü, kayda yazılmadı)"

  -- The outcome and the detail that `completed` records.
  abbrev pub outcome_of : Option ApiError → Outcome
  outcome_of none = success
  outcome_of (some _) = failure

  abbrev pub detail_of : Option ApiError → String
  detail_of none = ""
  detail_of (some _) = failed_detail

  -- `completed`.
  unfoldable pub completed : String → String → Params → Option ApiError → Run W (Option ApiError)
  unfolding record_action
  completed action target params op w =
      let (e, w1) = record_action action target params (outcome_of op) (detail_of op) w in
      elim e [ some x ↦ (some x, w1) | none ↦ (op, w1) ]
