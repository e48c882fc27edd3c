-- ===== src/Api/Reverting.antt =====
-- `Rollback` of internal/api/rollback.go.
use panely.Kit.{String, Bool, Option, none, some, [], if◌then◌else◌, Result, ok, err}
use panely.Kit.Maps.{insert}
use panely.Records.{App, Release}
use panely.Deploy.Rollout.{RolloutError}
use panely.Api.Credentials.{CallerInfo}
use panely.Api.Handling.{
  StoreError, ApiError, rollout_failed, app_error, is_skipped, Params, failure, rolled_back,
  Services, Run, app_target, release_target, at, getting_app, record_action, completed,
}
use panely.Api.Pruning.{format_bool}

-- `RollbackResponse`.
pub record RollbackResponse : Type 0 where
  pub app_id : String
  pub from_release_id : String
  pub to_release_id : String
  pub recreated : Bool

abbrev pub rollback_action : String
rollback_action = "app.rollback"

module _ {W : Type 0} (svc : Services W) (caller : Option CallerInfo) (app_id : String) where
  -- An answer that the store does not give: recorded as a failure, and returned.
  unfoldable pub give_up :
      String → Params → String → StoreError → Run W (Result ApiError RollbackResponse)
  give_up target params detail e w =
      let (_, w1) = record_action svc caller rollback_action target params failure detail w in
      (err (app_error e), w1)

  -- The end of a rollback whose rollout gave no error, or one that holds a `SkippedError`.
  unfoldable pub report :
      String → String → String → Bool → Params → Run W (Result ApiError RollbackResponse)
  report target from to recreated params w =
      let (x, w1) = completed svc caller rollback_action target params none w in
      (
        elim x [
          | some y ↦ err y
          | none ↦ ok (record {
            app_id = app_id;
            from_release_id = from;
            to_release_id = to;
            recreated = recreated;
          })
        ],
        w1,
      )

  unfoldable pub fail_rollback :
      String → Params → RolloutError → Run W (Result ApiError RollbackResponse)
  fail_rollback target params e w =
      let (x, w1) =
        completed svc caller rollback_action target params (some (rollout_failed e)) w in
      (elim x [ some y ↦ err y | none ↦ err (rollout_failed e) ], w1)

  -- The call of the rollout.
  abbrev pub reverting : App → Release → Run W (Bool × Option RolloutError)
  reverting app rel w =
      let (r, outside) = svc.rollback app rel w.outside in
      (r, at svc caller w outside (rolled_back app.id rel.id r.1))

  -- From the release of the target on.
  unfoldable pub revert :
      App → Release → String → String → Params → Run W (Result ApiError RollbackResponse)
  revert app rel from to params w =
      let ((recreated, e), w1) = reverting app rel w in
      let params1 = insert "recreated" (format_bool recreated) params in
      elim e [
        | none ↦ report (release_target app_id to) from rel.id recreated params1 w1
        | some x ↦
            if is_skipped x
            then report (release_target app_id to) from rel.id recreated
                (insert "skipped_routes" (svc.explain x) params1) w1
            else fail_rollback (release_target app_id to) params1 x w1
      ]

  -- From the name of the target on.
  unfoldable pub read_target :
      App → String → String → Params → Run W (Result ApiError RollbackResponse)
  read_target app from to params w =
      let (g, o1) = svc.get_release app_id to w.outside in
      elim g [
        | err e ↦
            give_up (release_target app_id to) params "hedef sürüm okunamadı" e
              (record w { outside = o1 })
        | ok rel ↦ revert app rel from to params (record w { outside = o1 })
      ]

  -- From the active release on.
  unfoldable pub read_previous : App → String → Params → Run W (Result ApiError RollbackResponse)
  read_previous app from params w =
      let (p, o1) = svc.previous_active_release app_id w.outside in
      elim p [
        | err e ↦
            give_up (app_target app_id) params "geri alınacak önceki sürüm yok" e
              (record w { outside = o1 })
        | ok to ↦
            read_target app from to (insert "to_release_id" to params) (record w { outside = o1 })
      ]

  -- From the app on.
  unfoldable pub read_active : App → Params → Run W (Result ApiError RollbackResponse)
  read_active app params w =
      let (a, o1) = svc.active_deployment app_id w.outside in
      elim a [
        | err e ↦ give_up (app_target app_id) params "aktif sürüm yok" e (record w { outside = o1 })
        | ok d ↦
            read_previous app d.release_id (insert "from_release_id" d.release_id params)
              (record w { outside = o1 })
      ]

  -- `Rollback`.
  unfoldable pub rollback_app : Run W (Result ApiError RollbackResponse)
  rollback_app w =
      let (r, w1) = getting_app svc caller app_id w in
      elim r [
        | err e ↦ give_up (app_target app_id) [] "uygulama bulunamadı" e w1
        | ok app ↦ read_active app [] w1
      ]
