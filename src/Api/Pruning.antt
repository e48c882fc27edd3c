-- ===== src/Api/Pruning.antt =====
-- `PruneApp` of internal/api/appprune.go.
use panely.Kit.{
  ℕ, ◌+◌, ◌%◌, ◌^◌, String, Bool, true, false, not, Option, none, some, List, [], ◌∷◌,
  if◌then◌else◌, length, contains, map, Result, ok, err,
}
use panely.Kit.Text.{glue}
use panely.Kit.Maps.{lookup, insert}
use panely.Kit.Sort.{sort_by}
use panely.Records.{Replica}
use panely.Connproto.Role.{match_app_id}
use panely.Api.Credentials.{CallerInfo}
use panely.Api.Handling.{
  StoreError, no_previous, ApiError, executor_failed, app_error, Params, denied_outcome,
  release_stopped, release_removed, Services, Run, error_of, app_target, at, record_action, denied,
  completed,
}

-- `PruneAppRequest` and `PruneAppResponse`.
pub record PruneRequest : Type 0 where
  pub app_id : String
  pub dry_run : Bool

pub record PruneResponse : Type 0 where
  pub app_id : String
  pub kept_releases : List String
  pub pruned_releases : List String
  pub containers_removed : ℕ
  pub images_untouched : Bool
  pub orphans_out_of_scope : Bool

abbrev pub format_bool : Bool → String
format_bool true = "true"
format_bool false = "false"

abbrev pub is_kept : List (String × String) → String → Bool
is_kept keep r = elim (lookup r keep) [ none ↦ false | some why ↦ true ]

abbrev pub prune_action : String
prune_action = "app.prune"

-- The loop of `staleReleases`, with the releases seen.
unfoldable pub stale_from : List (String × String) → List String → List Replica → List String
stale_from keep seen [] = []
stale_from keep seen (r ∷ reps) =
    let pass = stale_from keep seen reps in
    let more = stale_from keep (r.release_id ∷ seen) reps in
    if is_kept keep r.release_id
    then pass
    else if contains seen r.release_id
    then pass
    else r.release_id ∷ more

-- `keptLabels`.
unfoldable pub kept_labels : List (String × String) → List String
kept_labels keep =
    sort_by (λ (s : String). s)
      (map (λ (e : String × String). glue e.0 (glue " (" (glue e.1 ")"))) keep)

module _ {W : Type 0} (svc : Services W) (caller : Option CallerInfo) where
  -- The previous release beside the active one, under the label of the stronger.
  abbrev pub keep_with :
      String → Result StoreError String → Result StoreError (List (String × String))
  keep_with active (ok prev) =
      let keep = (active, "aktif") ∷ [] in
      ok (if is_kept keep prev then keep else insert prev "geri alma hedefi" keep)
  keep_with active (err no_previous) = ok ((active, "aktif") ∷ [])
  keep_with active (err e) = err e

  -- `keepSet`; reading leaves no event.
  unfoldable pub keep_set : String → Run W (Result StoreError (List (String × String)))
  keep_set app_id w =
      let (r, o1) = svc.active_deployment app_id w.outside in
      elim r [
        | err e ↦ (err e, record w { outside = o1 })
        | ok d ↦
            let (p, o2) = svc.previous_active_release app_id o1 in
            (keep_with d.release_id p, record w { outside = o2 })
      ]

  -- `staleReleases`.
  unfoldable pub stale_releases :
      String → List (String × String) → Run W (Result String (List String))
  unfolding stale_from
  stale_releases app_id keep w =
      let (r, o1) = svc.list_replicas app_id w.outside in
      elim r [
        | err e ↦ (err e, record w { outside = o1 })
        | ok reps ↦
            (ok (sort_by (λ (s : String). s) (stale_from keep [] reps)), record w { outside = o1 })
      ]

  abbrev pub stopping : String → String → Run W (Result String ℕ)
  stopping app_id r w =
      let (n, outside) = svc.stop_release app_id r w.outside in
      (n, at svc caller w outside (release_stopped app_id r (error_of n)))

  abbrev pub removing : String → String → Run W (Result String ℕ)
  removing app_id r w =
      let (n, outside) = svc.remove_release app_id r w.outside in
      (n, at svc caller w outside (release_removed app_id r (error_of n)))

  -- The loop of `removeReleases`, with the number removed so far.
  unfoldable pub remove_from : String → ℕ → List String → Run W (ℕ × Option String)
  remove_from app_id removed [] w = ((removed, none), w)
  remove_from app_id removed (r ∷ rs) w =
      let (s, w1) = stopping app_id r w in
      let (n, w2) = removing app_id r w1 in
      elim s [
        | err e ↦ ((removed, some e), w1)
        | ok _ ↦ elim n [
          | err e ↦ ((removed, some e), w2)
          | ok k ↦ remove_from app_id ((removed + k) % 2 ^ 32) rs w2
        ]
      ]

  module _ (req : PruneRequest) where
    abbrev pub respond : List (String × String) → List String → ℕ → PruneResponse
    respond keep stale removed = record {
      app_id = req.app_id;
      kept_releases = kept_labels keep;
      pruned_releases = stale;
      containers_removed = removed;
      images_untouched = true;
      orphans_out_of_scope = true;
    }

    abbrev pub fail_with : ApiError → Params → Run W (Result ApiError PruneResponse)
    fail_with e params w =
        let (x, w1) = completed svc caller prune_action (app_target req.app_id) params (some e) w in
        (elim x [ some y ↦ err y | none ↦ err e ], w1)

    abbrev pub succeed : PruneResponse → Params → Run W (Result ApiError PruneResponse)
    succeed res params w =
        let (x, w1) = completed svc caller prune_action (app_target req.app_id) params none w in
        (elim x [ some y ↦ err y | none ↦ ok res ], w1)

    -- From the stale releases on.
    unfoldable pub remove_stale :
        List (String × String) → List String → Params → Run W (Result ApiError PruneResponse)
    remove_stale keep stale params w =
        let ((removed, e), w1) = remove_from req.app_id 0 stale w in
        let params1 = insert "containers_removed" (svc.decimal removed) params in
        if req.dry_run then succeed (respond keep stale 0) params w else elim e [
          | some x ↦ fail_with (executor_failed x) params1 w1
          | none ↦ succeed (respond keep stale removed) params1 w1
        ]

    -- From the releases to keep on.
    unfoldable pub prune_kept :
        List (String × String) → Params → Run W (Result ApiError PruneResponse)
    prune_kept keep params w =
        let params1 = insert "kept" (svc.decimal (length keep)) params in
        let (r, w1) = stale_releases req.app_id keep w in
        elim r [
          | err x ↦ fail_with (executor_failed x) params1 w1
          | ok stale ↦
              remove_stale keep stale (insert "stale" (svc.decimal (length stale)) params1) w1
        ]

    -- An answer to a request that is refused; `denied` never gives `nil`.
    abbrev pub refuse : Params → String → Run W (Result ApiError PruneResponse)
    refuse params cause w =
        let (x, w1) = denied svc caller prune_action (app_target req.app_id) params cause w in
        (elim x [ some y ↦ err y | none ↦ ok (respond [] [] 0) ], w1)

    -- The answer when the releases to keep are not known.
    abbrev pub keep_closed : StoreError → Params → Run W (Result ApiError PruneResponse)
    keep_closed e params w =
        let (_, w1) =
          record_action svc caller prune_action (app_target req.app_id) params denied_outcome
            "korunacak sürümler belirlenemedi — hiçbir şeye dokunulmadı" w in
        (err (app_error e), w1)

    -- `PruneApp`.
    unfoldable pub prune_app : Run W (Result ApiError PruneResponse)
    prune_app w =
        let params : Params = ("dry_run", format_bool req.dry_run) ∷ [] in
        let (r, w1) = keep_set req.app_id w in
        if not (match_app_id req.app_id)
        then refuse params (svc.quote req.app_id) w
        else elim r [ err e ↦ keep_closed e params w1 | ok keep ↦ prune_kept keep params w1 ]
