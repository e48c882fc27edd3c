-- ===== src/Api/Reverted.antt =====
-- The order of the calls of `Rollback`, as an automaton that reads a trace, and that `Rollback` keeps it.
use panely.Kit.{
  ◌≡◌, refl, sym, ◌∙◌, String, Bool, true, false, not, ◌&&◌, Option, none, some, List, [], ◌∷◌,
  ◌=ₛ◌, if◌then◌else◌, arith, eq_iff, Bool-cases, Option-cases, inl, inr, Result, Result-cases, ok,
  err,
}
use panely.Records.{App, Release}
use panely.Deploy.Rollout.{RolloutError}
use panely.Api.Credentials.{CallerInfo}
use panely.Api.Handling.{
  StoreError, ApiError, rollout_failed, is_skipped, Params, success, failure, Event, app_read,
  rolled_back, audited, Services, World, completed,
}
use panely.Api.Recorded.{is_none, is_success, Recorded, record_action-Recorded, completed-Recorded}
use panely.Api.Phases.{passes, is_skipped-passes}
use panely.Api.Stages.{is_ok}
use panely.Api.Reverting.{
  RollbackResponse, rollback_action, give_up, report, fail_rollback, revert, read_target,
  read_previous, read_active, rollback_app,
}

-- Nothing done; the app is known; the rollback has passed; it has failed; the audit record is written, with `true`
-- if that of a success.
pub data Leg : Type 0 where
  start : Leg
  known : App → Leg
  back : Leg
  failed : Leg
  ended : Bool → Leg

abbrev pub when : Bool → Leg → Option Leg
when b p = if b then some p else none

module _ (app_id : String) (aims : String → Bool) where
  -- What each leg allows, and where it leads; `none` is a breach. The rollout is called once at most, for the app that was read
  -- and for a release that is the target, and the one audit record ends it all, of a success only
  -- if the rollout gave no error or one that holds a `SkippedError`, which may be that of the app itself.
  abbrev pub next : Leg → Event → Option Leg
  next start (app_read a none) = when (a =ₛ app_id) failed
  next start (app_read a (some app)) = when (a =ₛ app_id) (known app)
  next (known app) (rolled_back a r e) =
      when (a =ₛ app.id && aims r) (if passes e then back else failed)
  next (known app) (audited entry r) = when (not (is_success entry.outcome)) (ended false)
  next failed (audited entry r) = when (not (is_success entry.outcome)) (ended false)
  next back (audited entry r) = when (is_success entry.outcome) (ended (is_none r))
  next _ _ = none

  abbrev pub advance : Option Leg → Event → Option Leg
  advance none e = none
  advance (some p) e = next p e

  abbrev pub leg : List Event → Option Leg
  leg [] = some start
  leg (e ∷ es) = advance (leg es) e

module _ {W : Type 0} (svc : Services W) (caller : Option CallerInfo) (app_id : String)
    (total : (m : Params) → (s : String) × (svc.marshal m ≡ ok s)) where
  -- Is this the release that the store names and reads as the one before the active, in a call of `Rollback`?
  abbrev pub aims_at : World W → String → Bool
  aims_at w r =
      let (_, o1) = svc.get_app app_id w.outside in
      let (_, o2) = svc.active_deployment app_id o1 in
      let (p, o3) = svc.previous_active_release app_id o2 in
      elim p [
        | err e ↦ false
        | ok to ↦
            let (g, _) = svc.get_release app_id to o3 in
            elim g [ err e ↦ false | ok rel ↦ r =ₛ rel.id ]
      ]

  abbrev In : (String → Bool) → Leg → World W → Type 0
  In aims p w = leg app_id aims w.trace ≡ some p

  abbrev pub Landed : (String → Bool) → Result ApiError RollbackResponse × World W → Type 0
  Landed aims p = leg app_id aims p.1.trace ≡ some (ended (is_ok p.0))

  -- A failure is recorded while the app is known, or after the rollout failed.
  data Stuck (aims : String → Bool) (w : World W) : Type 0 where
    before : (app : App) → In aims (known app) w → Stuck aims w
    behind : In aims failed w → Stuck aims w

  closed_off :
      (aims : String → Bool) {b : Bool} {w : World W} {p : Option ApiError × World W}
      → Stuck aims w
      → Recorded b failure w p
      → leg app_id aims p.1.trace ≡ some (ended false)
  closed_off aims (before app i) r = rw (r.trace, i, r.kind) refl
  closed_off aims (behind i) r = rw (r.trace, i, r.kind) refl

  give_up-Landed :
      (aims : String → Bool) (target : String) (params : Params) (detail : String) (e : StoreError)
      (w : World W)
      → Stuck aims w
      → Landed aims (give_up svc caller app_id target params detail e w)
  unfolding give_up
  give_up-Landed aims target params detail e w s =
      closed_off aims s
        (record_action-Recorded svc caller total rollback_action target params failure detail w)

  reported :
      (aims : String → Bool) (res : RollbackResponse) {w : World W} (p : Option ApiError × World W)
      → In aims back w
      → Recorded true success w p
      → Landed aims (elim p.0 [ some y ↦ err y | none ↦ ok res ], p.1)
  reported aims res (none, w1) i r = rw (r.trace, i, r.kind, ← r.same) refl
  reported aims res (some x, w1) i r = rw (r.trace, i, r.kind, ← r.same) refl

  report-Landed :
      (aims : String → Bool) (target from to : String) (recreated : Bool) (params : Params)
      (w : World W)
      → In aims back w
      → Landed aims (report svc caller app_id target from to recreated params w)
  unfolding report
  report-Landed aims target from to recreated params w i =
      reported aims _ _ i (completed-Recorded svc caller total rollback_action target params none w)

  not_ok :
      (aims : String → Bool) (e : ApiError) (p : Option ApiError × World W)
      → leg app_id aims p.1.trace ≡ some (ended false)
      → Landed aims (elim p.0 [ some y ↦ err y | none ↦ err e ], p.1)
  not_ok aims e (none, w1) h = h
  not_ok aims e (some x, w1) h = h

  fail_rollback-Landed :
      (aims : String → Bool) (target : String) (params : Params) (e : RolloutError) (w : World W)
      → In aims failed w
      → Landed aims (fail_rollback svc caller app_id target params e w)
  unfolding fail_rollback
  fail_rollback-Landed aims target params e w i =
      not_ok aims (rollout_failed e)
        (completed svc caller rollback_action target params (some (rollout_failed e)) w)
        (closed_off aims (behind i) (
          completed-Recorded svc caller total rollback_action target params
            (some (rollout_failed e)) w))

  revert-Landed :
      (aims : String → Bool) (app : App) (rel : Release) (from to : String) (params : Params)
      (w : World W)
      → aims rel.id ≡ true
      → In aims (known app) w
      → Landed aims (revert svc caller app_id app rel from to params w)
  unfolding revert
  revert-Landed aims app rel from to params w a i =
      elim (Option-cases (svc.rollback app rel w.outside).0.1) [
        | inl q ↦
            rw (q, revert)
              (report-Landed aims _ from rel.id _ _ _
                (rw (i, q) (ground (arith, a, eq_iff app.id app.id))))
        | inr (x, q) ↦ elim (Bool-cases (is_skipped x)) [
          | inl b ↦
              let p : passes (some x) ≡ true = sym (is_skipped-passes x) ∙ b in
              rw (q, revert)
                (rw b (
                  report-Landed aims _ from rel.id _ _ _
                    (rw (i, q) (ground (arith, a, p, eq_iff app.id app.id)))))
          | inr b ↦
              let p : passes (some x) ≡ false = sym (is_skipped-passes x) ∙ b in
              rw (q, revert)
                (rw b (
                  fail_rollback-Landed aims _ _ x _
                    (rw (i, q) (ground (arith, a, p, eq_iff app.id app.id)))))
        ]
      ]

  read_target-Landed :
      (aims : String → Bool) (app : App) (from to : String) (params : Params) (w : World W)
      → ((rel : Release) → (svc.get_release app_id to w.outside).0 ≡ ok rel → aims rel.id ≡ true)
      → In aims (known app) w
      → Landed aims (read_target svc caller app_id app from to params w)
  unfolding read_target
  read_target-Landed aims app from to params w a i =
      elim (Result-cases (svc.get_release app_id to w.outside).0) [
        | inl (rel, q) ↦
            rw (q, read_target) (revert-Landed aims app rel from to params _ (a rel q) i)
        | inr (x, q) ↦ rw (q, read_target) (give_up-Landed aims _ _ _ x _ (before app i))
      ]

  read_previous-Landed :
      (aims : String → Bool) (app : App) (from : String) (params : Params) (w : World W)
      → ((to : String) (rel : Release)
          → (svc.previous_active_release app_id w.outside).0 ≡ ok to
          → (svc.get_release app_id to (svc.previous_active_release app_id w.outside).1).0 ≡ ok rel
          → aims rel.id ≡ true)
      → In aims (known app) w
      → Landed aims (read_previous svc caller app_id app from params w)
  unfolding read_previous
  read_previous-Landed aims app from params w a i =
      elim (Result-cases (svc.previous_active_release app_id w.outside).0) [
        | inl (to, q) ↦
            rw (q, read_previous)
              (read_target-Landed aims app from to _ _ (λ rel g. a to rel q g) i)
        | inr (x, q) ↦ rw (q, read_previous) (give_up-Landed aims _ _ _ x _ (before app i))
      ]

  aims_at-true :
      (w : World W) (to : String) (rel : Release)
      → let (_, o1) = svc.get_app app_id w.outside in
        let (_, o2) = svc.active_deployment app_id o1 in
        let (p, o3) = svc.previous_active_release app_id o2 in
        p ≡ ok to → (svc.get_release app_id to o3).0 ≡ ok rel → aims_at w rel.id ≡ true
  aims_at-true w to rel q g =
      rw (q, aims_at) (rw (g, aims_at) (ground (arith, eq_iff rel.id rel.id)))

  read_active-Landed :
      (start_world : World W) (app : App) (params : Params) (w : World W)
      → w.outside ≡ (svc.get_app app_id start_world.outside).1
      → In (aims_at start_world) (known app) w
      → Landed (aims_at start_world) (read_active svc caller app_id app params w)
  unfolding read_active
  read_active-Landed w0 app params w same i =
      elim (Result-cases (svc.active_deployment app_id w.outside).0) [
        | inl (d, q) ↦
            rw (q, read_active)
              (read_previous-Landed (aims_at w0) app d.release_id _ _
                (λ to rel p g. aims_at-true w0 to rel (rw same at p) (rw same at g)) i)
        | inr (x, q) ↦ rw (q, read_active) (give_up-Landed (aims_at w0) _ _ _ x _ (before app i))
      ]

  -- `Rollback` from an empty trace, whatever the services answer: the calls keep the order of `next` for the release that
  -- the store names and reads as the one before the active, and the one audit record, of a success exactly
  -- if it was written and `Rollback` answers, is the last.
  pub rollback_app-Landed :
      (w : World W) → w.trace ≡ [] → Landed (aims_at w) (rollback_app svc caller app_id w)
  unfolding rollback_app
  rollback_app-Landed w h = elim (Result-cases (svc.get_app app_id w.outside).0) [
    | inl (app, q) ↦
        rw (q, rollback_app)
          (read_active-Landed w app [] _ refl (rw (h, q) (ground (arith, eq_iff app_id app_id))))
    | inr (x, q) ↦
        rw (q, rollback_app)
          (give_up-Landed (aims_at w) _ _ _ x _
            (behind (rw (h, q) (ground (arith, eq_iff app_id app_id)))))
  ]
