-- ===== src/Api/Phases.antt =====
-- The order of the calls of `Deploy`, as an automaton that reads a trace, and how it ends by an audit record.
use panely.Kit.{
  ◌≡◌, refl, String, Bool, true, false, not, ◌&&◌, Option, none, some, List, [], ◌∷◌, ◌=ₛ◌,
  if◌then◌else◌, ok,
}
use panely.Records.{App, Release}
use panely.Api.Credentials.{CallerInfo}
use panely.Deploy.Rollout.{
  RolloutError, call_failed, replicas_failed, gate_stopped, reconcile_failed, ours_skipped, joined,
}
use panely.Api.Handling.{
  ApiError, is_skipped, Params, Outcome, success, accepted, output, succeeded, Event, app_read,
  release_started, release_failed, release_finished, sent, build_opened, rolled_out, audited,
  Services, World, completed,
}
use panely.Api.Deploying.{DeployRequest, action}
use panely.Api.Recorded.{is_none, is_success, Recorded, completed-Recorded}

-- Where a deployment stands: what it has read and opened, or that it has failed, told its client of success, or
-- written its audit record, by which it is closed; `true` if it is closed as a success.
pub data Phase : Type 0 where
  start : Phase
  known : App → Phase
  fresh : App → Release → Phase
  unheard : Release → Phase
  building : App → Release → Phase
  built : App → Release → String → Phase
  passed : Release → String → Phase
  broken : Phase
  told : Phase
  closed : Bool → Phase

-- Does `Deploy` go on to a success? Either the rollout gave no error, or one that holds a `SkippedError`: that of
-- other apps without a route, once the traffic of this one has moved, or that of this app itself, whose
-- traffic has not moved.
abbrev pub passes : Option RolloutError → Bool
passes none = true
passes (some (ours_skipped _)) = true
passes (some (joined (_ ∷ _) _)) = true
passes (some (joined [] _)) = false
passes (some (call_failed _)) = false
passes (some (replicas_failed _)) = false
passes (some (gate_stopped _)) = false
passes (some (reconcile_failed _)) = false

pub is_skipped-passes : (e : RolloutError) → is_skipped e ≡ passes (some e)
is_skipped-passes (ours_skipped _) = refl
is_skipped-passes (joined (_ ∷ _) _) = refl
is_skipped-passes (joined [] _) = refl
is_skipped-passes (call_failed _) = refl
is_skipped-passes (replicas_failed _) = refl
is_skipped-passes (gate_stopped _) = refl
is_skipped-passes (reconcile_failed _) = refl

abbrev pub when : Bool → Phase → Option Phase
when b p = if b then some p else none

module _ (req : DeployRequest) where
  -- The release has this app and this identity.
  abbrev pub names : Release → String → String → Bool
  names rel a r = a =ₛ rel.app_id && r =ₛ rel.id

  -- What each phase allows, and where it leads; `none` is a breach. The release is opened for the app and the commit of the
  -- request, the client hears of it before the build, every opened release is closed, an image only counts if it
  -- has a name, the rollout is called only for a release that is closed as built, and the client hears of
  -- success only after a rollout that passes. One audit record ends it all, of a success only after the client heard.
  abbrev pub next : Phase → Event → Option Phase
  next start (audited entry r) = when (not (is_success entry.outcome)) (closed false)
  next start (app_read a none) = when (a =ₛ req.app_id) broken
  next start (app_read a (some app)) = when (a =ₛ req.app_id) (known app)
  next (known app) (release_started a c none) = when (a =ₛ req.app_id && c =ₛ req.commit_sha) broken
  next (known app) (release_started a c (some rel)) =
      when (a =ₛ req.app_id && c =ₛ req.commit_sha) (fresh app rel)
  next (fresh app rel) (sent (accepted r a c) none) =
      when (r =ₛ rel.id && a =ₛ req.app_id && c =ₛ req.commit_sha) (building app rel)
  next (fresh app rel) (sent (accepted r a c) (some e)) = some (unheard rel)
  next (unheard rel) (release_failed a r d) = when (names rel a r) broken
  next (building app rel) (build_opened b) =
      when (b.app_id =ₛ app.id && b.release_id =ₛ rel.id && b.commit_sha =ₛ req.commit_sha)
        (building app rel)
  next (building app rel) (sent (output d e) r) = some (building app rel)
  next (building app rel) (release_failed a r d) = when (names rel a r) broken
  next (building app rel) (release_finished a r i none) =
      when (names rel a r && not (i =ₛ "")) (built app rel i)
  next (building app rel) (release_finished a r i (some e)) =
      when (names rel a r && not (i =ₛ "")) broken
  next (built app rel i) (rolled_out a r e) =
      when (a =ₛ app.id && r =ₛ rel.id) (if passes e then passed rel i else broken)
  next (passed rel i) (sent (succeeded r j) none) = when (r =ₛ rel.id && j =ₛ i) told
  next (passed rel i) (sent (succeeded r j) (some e)) = some broken
  next broken (audited entry r) = when (not (is_success entry.outcome)) (closed false)
  next told (audited entry r) = when (is_success entry.outcome) (closed (is_none r))
  next _ _ = none

  abbrev pub advance : Option Phase → Event → Option Phase
  advance none e = none
  advance (some p) e = next p e

  -- The phase that a trace has led to, the newest event first.
  abbrev pub phase : List Event → Option Phase
  phase [] = some start
  phase (e ∷ es) = advance (phase es) e

  module _ {W : Type 0} (svc : Services W) (caller : Option CallerInfo)
      (total : (m : Params) → (s : String) × (svc.marshal m ≡ ok s)) where
    abbrev pub At : Phase → World W → Type 0
    At p w = phase w.trace ≡ some p

    -- A handler that has ended: closed, as a success exactly if it returns `nil`.
    abbrev pub Settled : Option ApiError × World W → Type 0
    Settled p = phase p.1.trace ≡ some (closed (is_none p.0))

    -- The phase after a record of a failure, and after one of a success.
    pub start-closed :
        {b : Bool} {outcome : Outcome} {w : World W} {p : Option ApiError × World W}
        → At start w
        → is_success outcome ≡ false
        → Recorded b outcome w p
        → At (closed false) p.1
    start-closed h k r = rw (r.trace, h, r.kind, k) refl

    pub failure-closed :
        {b : Bool} {outcome : Outcome} {w : World W} {p : Option ApiError × World W}
        → At broken w
        → is_success outcome ≡ false
        → Recorded b outcome w p
        → At (closed false) p.1
    failure-closed h k r = rw (r.trace, h, r.kind, k) refl

    told-closed :
        {w : World W} {p : Option ApiError × World W}
        → At told w
        → Recorded true success w p
        → Settled p
    told-closed h r = rw (r.trace, h, r.kind, r.same) refl

    pub completed-broken :
        (target : String) (params : Params) (e : ApiError) (w : World W)
        → At broken w
        → Settled (completed svc caller action target params (some e) w)
    completed-broken target params e w h =
        let r = completed-Recorded svc caller total action target params (some e) w in
        rw (r.same) (failure-closed h refl r)

    pub completed-told :
        (target : String) (params : Params) (w : World W)
        → At told w
        → Settled (completed svc caller action target params none w)
    completed-told target params w h =
        told-closed h (completed-Recorded svc caller total action target params none w)
