-- ===== src/Api/Stages.antt =====
-- The order in which `PruneApp` of internal/api/appprune.go removes releases, as an automaton that reads a trace.
use panely.Kit.{
  ℕ, ◌+◌, ◌%◌, ◌^◌, ◌≡◌, String, Bool, true, false, not, ◌&&◌, Option, none, some, List, [], ◌∷◌,
  ◌=ₛ◌, if◌then◌else◌, arith, eq_iff, inl, inr, Result, Result-cases, ok, err, All,
}
use panely.Records.{Deployment}
use panely.Api.Credentials.{CallerInfo}
use panely.Api.Handling.{
  StoreError, no_previous, Event, release_stopped, release_removed, audited, Services, World,
}
use panely.Api.Recorded.{is_none, is_success}
use panely.Api.Pruning.{stopping, removing, remove_from}

-- Nothing is being removed; this release has been stopped; a removal has failed; the audit record is written, with
-- `true` if that of a success.
pub data Stage : Type 0 where
  idle : Stage
  stopped : String → Stage
  failed : Stage
  ended : Bool → Stage

abbrev pub when : Bool → Stage → Option Stage
when b p = if b then some p else none

abbrev pub is_ok {ℓ κ} : {E : Type ℓ} {A : Type κ} → Result E A → Bool
is_ok (ok a) = true
is_ok (err e) = false

-- May this release be removed, given what the store says of the active release and of the one before it?
abbrev pub may_remove : Result StoreError Deployment → Result StoreError String → String → Bool
may_remove (err e) p r = false
may_remove (ok d) (ok prev) r = not (r =ₛ d.release_id) && not (r =ₛ prev)
may_remove (ok d) (err no_previous) r = not (r =ₛ d.release_id)
may_remove (ok d) (err e) r = false

module _ (app_id : String) (may : String → Bool) where
  -- What each stage allows, and where it leads; `none` is a breach. Only releases that may be removed are touched, and each is stopped
  -- before it is removed. The first failure is the last call but the audit record.
  abbrev pub next : Stage → Event → Option Stage
  next idle (release_stopped a r none) = when (a =ₛ app_id && may r) (stopped r)
  next idle (release_stopped a r (some e)) = when (a =ₛ app_id && may r) failed
  next (stopped s) (release_removed a r none) = when (a =ₛ app_id && r =ₛ s) idle
  next (stopped s) (release_removed a r (some e)) = when (a =ₛ app_id && r =ₛ s) failed
  next idle (audited entry r) = some (ended (is_success entry.outcome && is_none r))
  next failed (audited entry r) = when (not (is_success entry.outcome)) (ended false)
  next _ _ = none

  abbrev pub advance : Option Stage → Event → Option Stage
  advance none e = none
  advance (some p) e = next p e

  -- The stage that a trace has led to, the newest event first.
  abbrev pub stage : List Event → Option Stage
  stage [] = some idle
  stage (e ∷ es) = advance (stage es) e

module _ {W : Type 0} (svc : Services W) (caller : Option CallerInfo) (app_id : String)
    (may : String → Bool) where
  abbrev pub In : Stage → World W → Type 0
  In p w = stage app_id may w.trace ≡ some p

  -- The stage after the removals: at rest, or failed.
  abbrev pub after : Option String → Stage
  after none = idle
  after (some e) = failed

  stopping-In :
      (r : String) (w : World W) {n : ℕ}
      → may r ≡ true
      → In idle w
      → (svc.stop_release app_id r w.outside).0 ≡ ok n
      → In (stopped r) (stopping svc caller app_id r w).1
  stopping-In r w h i q = rw (i, q) (ground (arith, h, eq_iff app_id app_id))

  removing-In :
      (r : String) (w : World W) {n : ℕ}
      → In (stopped r) w
      → (svc.remove_release app_id r w.outside).0 ≡ ok n
      → In idle (removing svc caller app_id r w).1
  removing-In r w i q = rw (i, q) (ground (arith, eq_iff app_id app_id, eq_iff r r))

  removing-failed :
      (r : String) (w : World W) {x : String}
      → In (stopped r) w
      → (svc.remove_release app_id r w.outside).0 ≡ err x
      → In failed (removing svc caller app_id r w).1
  removing-failed r w i q = rw (i, q) (ground (arith, eq_iff app_id app_id, eq_iff r r))

  pub remove_from-In :
      (removed : ℕ) (rs : List String) (w : World W)
      → All (λ r. may r ≡ true) rs
      → In idle w
      → let ((k, e), w1) = remove_from svc caller app_id removed rs w in In (after e) w1
  unfolding remove_from
  remove_from-In removed [] w h i = i
  remove_from-In removed (r ∷ rs) w h i =
      elim (Result-cases (svc.stop_release app_id r w.outside).0) [
        | inr (x, q) ↦ rw (q, remove_from) (rw i (ground (arith, h.0, eq_iff app_id app_id)))
        | inl (n, q) ↦
            let w1 = (stopping svc caller app_id r w).1 in
            let led = stopping-In r w h.0 i q in
            elim (Result-cases (removing svc caller app_id r w1).0) [
              | inr (x, p) ↦ rw (q, remove_from) (rw (p, remove_from) (removing-failed r w1 led p))
              | inl (k, p) ↦
                  rw (q, remove_from)
                    (rw (p, remove_from)
                      (remove_from-In ((removed + k) % 2 ^ 32) rs
                        (removing svc caller app_id r w1).1 h.1 (removing-In r w1 led p)))
            ]
      ]
