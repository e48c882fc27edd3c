-- ===== src/Api/Spared.antt =====
-- What `PruneApp` of internal/api/appprune.go removes: never a release that is to be kept.
use panely.Kit.{
  ◌≡◌, refl, String, Bool, true, false, not, ◌&&◌, Option, none, some, List, [], ◌∷◌, if◌then◌else◌,
  arith, eq_iff, Bool-cases, Option-cases, inl, inr, Result, Result-cases, ok, err, contains, All,
}
use panely.Kit.Maps.{lookup, insert}
use panely.Kit.Sort.{sort_by-All}
use panely.Records.{Deployment, Replica}
use panely.Connproto.Role.{match_app_id}
use panely.Api.Credentials.{CallerInfo}
use panely.Api.Handling.{
  StoreError, no_previous, ApiError, Params, Outcome, success, failure, denied_outcome,
  app_not_found, release_not_found, app_exists, domain_taken, no_deployment, coded, other_error,
  Services, World, app_target, denied,
}
use panely.Api.Recorded.{is_success, Recorded, record_action-Recorded, completed-Recorded}
use panely.Api.Pruning.{
  PruneRequest, PruneResponse, prune_action, is_kept, stale_from, keep_with, keep_set,
  stale_releases, remove_from, fail_with, succeed, remove_stale, prune_kept, prune_app,
}
use panely.Api.Stages.{idle, ended, is_ok, may_remove, stage, In, after, remove_from-In}

-- What is stale is not kept.
stale_from-All :
    (keep : List (String × String)) (seen : List String) (reps : List Replica)
    → All (λ r. is_kept keep r ≡ false) (stale_from keep seen reps)
unfolding stale_from
stale_from-All keep seen [] = tt
stale_from-All keep seen (r ∷ reps) = elim (Bool-cases (is_kept keep r.release_id)) [
  | inl a ↦ rw a (stale_from-All keep seen reps)
  | inr a ↦ elim (Bool-cases (contains seen r.release_id)) [
    | inl b ↦ rw (a, b) (stale_from-All keep seen reps)
    | inr b ↦ rw (a, b) (a, stale_from-All keep (r.release_id ∷ seen) reps)
  ]
]

All-map :
    {P Q : String → Type 0} (f : (r : String) → P r → Q r) (rs : List String) → All P rs → All Q rs
All-map f [] h = tt
All-map f (r ∷ rs) h = (f r h.0, All-map f rs h.1)

stale_inj : {a b : List String} → ◌≡◌ {A = Result String (List String)} (ok a) (ok b) → a ≡ b
stale_inj e = cc

ok_inj :
    {a b : List (String × String)}
    → ◌≡◌ {A = Result StoreError (List (String × String))} (ok a) (ok b)
    → a ≡ b
ok_inj e = cc

module _ {W : Type 0} (svc : Services W) (caller : Option CallerInfo)
    (total : (m : Params) → (s : String) × (svc.marshal m ≡ ok s)) (req : PruneRequest) where
  -- A release that is not in the set to keep may be removed.
  keep_with-may_remove :
      (d : Deployment) (p : Result StoreError String) (r : String) {keep : List (String × String)}
      → keep_with svc caller d.release_id p ≡ ok keep
      → is_kept keep r ≡ false
      → may_remove (ok d) p r ≡ true
  unfolding lookup insert
  keep_with-may_remove d (ok prev) r e k =
      elim (Bool-cases (is_kept ((d.release_id, "aktif") ∷ []) prev)) [
        | inl a ↦
            let k1 = rw (← ok_inj e) at k in
            ground (
              arith,
              a,
              k1,
              eq_iff r d.release_id,
              eq_iff d.release_id r,
              eq_iff d.release_id prev,
              eq_iff r prev,
            )
        | inr a ↦
            let k1 = rw (← ok_inj e) at k in
            ground (
              arith,
              a,
              k1,
              eq_iff r d.release_id,
              eq_iff d.release_id r,
              eq_iff d.release_id prev,
              eq_iff r prev,
              eq_iff prev r,
            )
      ]
  keep_with-may_remove d (err no_previous) r e k =
      let k1 = rw (← ok_inj e) at k in
      ground (arith, k1, eq_iff r d.release_id, eq_iff d.release_id r)
  keep_with-may_remove d (err app_not_found) r e k = absurd cc
  keep_with-may_remove d (err release_not_found) r e k = absurd cc
  keep_with-may_remove d (err app_exists) r e k = absurd cc
  keep_with-may_remove d (err domain_taken) r e k = absurd cc
  keep_with-may_remove d (err no_deployment) r e k = absurd cc
  keep_with-may_remove d (err (coded c)) r e k = absurd cc
  keep_with-may_remove d (err (other_error t)) r e k = absurd cc

  abbrev pub Done : (String → Bool) → Result ApiError PruneResponse × World W → Type 0
  Done may p = stage req.app_id may p.1.trace ≡ some (ended (is_ok p.0))

  succeeded :
      (may : String → Bool) (res : PruneResponse) {w : World W} (p : Option ApiError × World W)
      → In svc caller req.app_id may idle w
      → Recorded true success w p
      → Done may (elim p.0 [ some y ↦ err y | none ↦ ok res ], p.1)
  succeeded may res (none, w1) i r = rw (r.trace, i, r.kind, ← r.same) refl
  succeeded may res (some x, w1) i r = rw (r.trace, i, r.kind, ← r.same) refl

  not_succeeded :
      (may : String → Bool) (e : ApiError) {w : World W} (x : Option String)
      (p : Option ApiError × World W)
      → In svc caller req.app_id may (after svc caller req.app_id may x) w
      → Recorded false failure w p
      → Done may (elim p.0 [ some y ↦ err y | none ↦ err e ], p.1)
  not_succeeded may e none (none, w1) i r = rw (r.trace, i, r.kind) refl
  not_succeeded may e none (some y, w1) i r = rw (r.trace, i, r.kind) refl
  not_succeeded may e (some x) (none, w1) i r = rw (r.trace, i, r.kind) refl
  not_succeeded may e (some x) (some y, w1) i r = rw (r.trace, i, r.kind) refl

  succeed-Done :
      (may : String → Bool) (res : PruneResponse) (params : Params) (w : World W)
      → In svc caller req.app_id may idle w
      → Done may (succeed svc caller req res params w)
  succeed-Done may res params w i =
      succeeded may res _ i
        (completed-Recorded svc caller total prune_action (app_target req.app_id) params none w)

  fail_with-Done :
      (may : String → Bool) (e : ApiError) (params : Params) (w : World W) (x : Option String)
      → In svc caller req.app_id may (after svc caller req.app_id may x) w
      → Done may (fail_with svc caller req e params w)
  fail_with-Done may e params w x i =
      not_succeeded may e x _ i
        (completed-Recorded svc caller total prune_action (app_target req.app_id) params (some e) w)

  -- A test that both branches bear.
  if-Done :
      (may : String → Bool) (b : Bool) (x y : Result ApiError PruneResponse × World W)
      → (b ≡ true → Done may x)
      → (b ≡ false → Done may y)
      → Done may (if b then x else y)
  if-Done may true x y h k = h refl
  if-Done may false x y h k = k refl

  remove_stale-Done :
      (may : String → Bool) (keep : List (String × String)) (stale : List String) (params : Params)
      (w : World W)
      → (req.dry_run ≡ false → All (λ r. may r ≡ true) stale)
      → In svc caller req.app_id may idle w
      → Done may (remove_stale svc caller req keep stale params w)
  unfolding remove_stale
  remove_stale-Done may keep stale params w h i =
      if-Done may req.dry_run _ _ (λ b. succeed-Done may _ params w i)
        (λ b.
          let led = remove_from-In svc caller req.app_id may 0 stale w (h b) i in
          elim (Option-cases (remove_from svc caller req.app_id 0 stale w).0.1) [
            | inl q ↦ rw (q, remove_stale) (succeed-Done may _ _ _ (rw q at led))
            | inr (x, q) ↦ rw (q, remove_stale) (fail_with-Done may _ _ _ (some x) (rw q at led))
          ])

  stale_releases-trace :
      (keep : List (String × String)) (w : World W)
      → (stale_releases svc caller req.app_id keep w).1.trace ≡ w.trace
  unfolding stale_releases
  stale_releases-trace keep w = elim (Result-cases (svc.list_replicas req.app_id w.outside).0) [
    | inr (x, q) ↦ rw (q, stale_releases) refl
    | inl (reps, q) ↦ rw (q, stale_releases) refl
  ]

  stale_releases-All :
      (keep : List (String × String)) (w : World W) (P : String → Type 0)
      → ((r : String) → is_kept keep r ≡ false → P r)
      → {stale : List String} → (stale_releases svc caller req.app_id keep w).0 ≡ ok stale
      → All P stale
  unfolding stale_releases
  stale_releases-All keep w P f h = elim (Result-cases (svc.list_replicas req.app_id w.outside).0) [
    | inr (x, q) ↦ absurd (ground arith)
    | inl (reps, q) ↦
        let fresh = stale_from keep [] reps in
        rw (← stale_inj (rw (q, stale_releases) at h))
          (sort_by-All (λ (s : String). s) P fresh (All-map f fresh (stale_from-All keep [] reps)))
  ]

  prune_kept-Done :
      (may : String → Bool) (keep : List (String × String)) (params : Params) (w : World W)
      → (req.dry_run ≡ false → (r : String) → is_kept keep r ≡ false → may r ≡ true)
      → In svc caller req.app_id may idle w
      → Done may (prune_kept svc caller req keep params w)
  unfolding prune_kept
  prune_kept-Done may keep params w h i =
      let rest = stale_releases-trace keep w in
      elim (Result-cases (stale_releases svc caller req.app_id keep w).0) [
        | inr (x, q) ↦ rw (q, prune_kept) (fail_with-Done may _ _ _ none (rw rest i))
        | inl (stale, q) ↦
            rw (q, prune_kept)
              (remove_stale-Done may keep stale _ _
                (λ b. stale_releases-All keep w (λ r. may r ≡ true) (h b) q) (rw rest i))
      ]

  -- What the store says in a call: of the active release, and of the one before it.
  abbrev pub spares : World W → String → Bool
  spares w r =
      let (a, o1) = svc.active_deployment req.app_id w.outside in
      let (p, _) = svc.previous_active_release req.app_id o1 in not req.dry_run && may_remove a p r

  keep_set-trace : (w : World W) → (keep_set svc caller req.app_id w).1.trace ≡ w.trace
  unfolding keep_set
  keep_set-trace w = elim (Result-cases (svc.active_deployment req.app_id w.outside).0) [
    | inr (x, q) ↦ rw (q, keep_set) refl
    | inl (d, q) ↦ rw (q, keep_set) refl
  ]

  keep_set-spares :
      (w : World W) {keep : List (String × String)}
      → (keep_set svc caller req.app_id w).0 ≡ ok keep
      → req.dry_run ≡ false
      → (r : String) → is_kept keep r ≡ false
      → spares w r ≡ true
  unfolding keep_set
  keep_set-spares w h b r k = elim (Result-cases (svc.active_deployment req.app_id w.outside).0) [
    | inr (x, q) ↦ absurd (ground arith)
    | inl (d, q) ↦ rw (b, q) (keep_with-may_remove d _ r (rw (q, keep_set) at h) k)
  ]

  closed_off :
      (may : String → Bool) {b : Bool} {outcome : Outcome} {w : World W}
      {p : Option ApiError × World W}
      → In svc caller req.app_id may idle w
      → is_success outcome ≡ false
      → Recorded b outcome w p
      → stage req.app_id may p.1.trace ≡ some (ended false)
  closed_off may i k r = rw (r.trace, i, r.kind, k) refl

  -- `PruneApp` from an empty trace, whatever the services answer: the calls keep the order of `next` for the
  -- releases that may be removed, which on a dry run or where the store cannot tell are none, and the one
  -- audit record, of a success exactly if it was written and `PruneApp` answers, is the last.
  pub prune_app-Done : (w : World W) → w.trace ≡ [] → Done (spares w) (prune_app svc caller req w)
  unfolding prune_app denied
  prune_app-Done w h =
      let before : In svc caller req.app_id (spares w) idle w = rw h refl in
      let start : In svc caller req.app_id (spares w) idle (keep_set svc caller req.app_id w).1 =
        rw (keep_set-trace w) before in
      if-Done (spares w) (not (match_app_id req.app_id)) _ _
        (λ b.
          closed_off (spares w) before refl
            (record_action-Recorded svc caller total prune_action _ _ denied_outcome _ w))
        (λ b. elim (Result-cases (keep_set svc caller req.app_id w).0) [
          | inr (x, q) ↦
              rw (q, prune_app)
                (closed_off (spares w) start refl
                  (record_action-Recorded svc caller total prune_action _ _ denied_outcome _ _))
          | inl (keep, q) ↦
              rw (q, prune_app) (prune_kept-Done (spares w) keep _ _ (keep_set-spares w q) start)
        ])
