-- ===== src/Api/Settled.antt =====
-- `Deploy` of internal/api/deploy.go keeps the order of its calls to the end, whatever the services answer.
use panely.Kit.{
  ◌≡◌, refl, sym, ◌∙◌, String, Bool, true, false, Option, none, some, List, [], ◌∷◌, ◌=ₛ◌,
  if◌then◌else◌, arith, eq_iff, Bool-cases, Option-cases, inl, inr, Result-cases, ok,
}
use panely.Records.{App, Release}
use panely.Audit.Record.{Bytes}
use panely.Api.Credentials.{CallerInfo}
use panely.Api.Handling.{
  ApiError, is_skipped, Params, failure, denied_outcome, BuildRequest, BuildMessage, accepted,
  succeeded, build_opened, Services, World, app_target, at, sending, denied,
}
use panely.Api.Deploying.{
  DeployRequest, action, bad_sha, valid_commit_sha, build_request, seal_failed, sink, image_after,
  seal_built, receive, image_build, announce, move_traffic, finish, build, accept, open_release,
  deploy,
}
use panely.Api.Recorded.{is_none, record_action-Recorded}
use panely.Api.Phases.{
  Phase, known, fresh, unheard, building, built, passed, broken, At, Settled, start-closed,
  failure-closed, completed-broken, completed-told, passes, is_skipped-passes,
}

module _ {W : Type 0} (req : DeployRequest) (svc : Services W) (caller : Option CallerInfo)
    (total : (m : Params) → (s : String) × (svc.marshal m ≡ ok s)) where
  abbrev In : Phase → World W → Type 0
  In p w = At req svc caller total p w

  abbrev pub Ends : Option ApiError × World W → Type 0
  Ends p = Settled req svc caller total p

  seal_failed-unheard :
      (rel : Release) (detail : Bytes) (w : World W)
      → In (unheard rel) w
      → In broken (seal_failed svc caller rel detail w)
  unfolding seal_failed
  seal_failed-unheard rel detail w h =
      rw h (ground (arith, eq_iff rel.app_id rel.app_id, eq_iff rel.id rel.id))

  seal_failed-building :
      (app : App) (rel : Release) (detail : Bytes) (w : World W)
      → In (building app rel) w
      → In broken (seal_failed svc caller rel detail w)
  unfolding seal_failed
  seal_failed-building app rel detail w h =
      rw h (ground (arith, eq_iff rel.app_id rel.app_id, eq_iff rel.id rel.id))

  announce-Settled :
      (rel : Release) (image : String) (params : Params) (w : World W)
      → In (passed rel image) w
      → Ends (announce svc caller req rel image params w)
  unfolding announce
  announce-Settled rel image params w h =
      elim (Option-cases (sending svc caller (succeeded rel.id image) w).0) [
        | inl q ↦
            rw (q, announce)
              (completed-told req svc caller total _ params _
                (rw (h, q) (ground (arith, eq_iff rel.id rel.id, eq_iff image image))))
        | inr (x, q) ↦
            rw (q, announce) (completed-broken req svc caller total _ params _ _ (rw (h, q) refl))
      ]

  move_traffic-Settled :
      (app : App) (rel : Release) (image : String) (params : Params) (w : World W)
      → In (built app rel image) w
      → Ends (move_traffic svc caller req app rel image params w)
  unfolding move_traffic
  move_traffic-Settled app rel image params w h =
      elim (Option-cases (svc.run app (record rel { commit_sha = req.commit_sha }) w.outside).0) [
        | inl q ↦
            rw (q, move_traffic)
              (announce-Settled rel image params _
                (rw (h, q) (ground (arith, eq_iff app.id app.id, eq_iff rel.id rel.id))))
        | inr (x, q) ↦ elim (Bool-cases (is_skipped x)) [
          | inl b ↦
              let p : passes (some x) ≡ true = sym (is_skipped-passes x) ∙ b in
              rw (q, move_traffic)
                (rw b (
                  announce-Settled rel image _ _
                    (rw (h, q) (ground (arith, p, eq_iff app.id app.id, eq_iff rel.id rel.id)))))
          | inr b ↦
              let p : passes (some x) ≡ false = sym (is_skipped-passes x) ∙ b in
              rw (q, move_traffic)
                (rw b (
                  completed-broken req svc caller total _ params _ _
                    (rw (h, q) (ground (arith, p, eq_iff app.id app.id, eq_iff rel.id rel.id)))))
        ]
      ]

  seal_built-In :
      (app : App) (rel : Release) (image : String) (w : World W)
      → (image =ₛ "") ≡ false
      → In (building app rel) w
      → In
          (if is_none (seal_built svc caller rel image w).0 then built app rel image else broken)
          (seal_built svc caller rel image w).1
  unfolding seal_built
  seal_built-In app rel image w named h =
      elim (Option-cases (svc.finish_release rel.app_id rel.id image w.outside).0) [
        | inl q ↦
            rw (q, seal_built)
              (rw h (ground (arith, named, eq_iff rel.app_id rel.app_id, eq_iff rel.id rel.id)))
        | inr (x, q) ↦
            rw (q, seal_built)
              (rw h (ground (arith, named, eq_iff rel.app_id rel.app_id, eq_iff rel.id rel.id)))
      ]

  finish-Settled :
      (app : App) (rel : Release) (image : String) (params : Params) (w : World W)
      → (image =ₛ "") ≡ false
      → In (building app rel) w
      → Ends (finish svc caller req app rel image params w)
  unfolding finish
  finish-Settled app rel image params w named h =
      let led = seal_built-In app rel image w named h in
      elim (Option-cases (seal_built svc caller rel image w).0) [
        | inl q ↦ rw (q, finish) (move_traffic-Settled app rel image params _ (rw q at led))
        | inr (x, q) ↦
            rw (q, finish) (completed-broken req svc caller total _ params _ _ (rw q at led))
      ]

  sink-In :
      (app : App) (rel : Release) (bytes : Bytes) (is_stderr : Bool) (w : World W)
      → In (building app rel) w
      → In (building app rel) (sink svc caller bytes is_stderr w).1
  sink-In app rel [] is_stderr w h = h
  sink-In app rel (x ∷ bytes) is_stderr w h = rw h refl

  -- What the build leaves: still building, and an image that has a name, if any.
  receive-In :
      (app : App) (rel : Release) (image : String) (msgs : List BuildMessage) (end : Option String)
      (w : World W)
      → In (building app rel) w
      → In (building app rel) (receive svc caller image msgs end w).1
  unfolding receive
  receive-In app rel image [] none w h = h
  receive-In app rel image [] (some e) w h = h
  receive-In app rel image (msg ∷ msgs) end w h =
      elim (Option-cases (sink svc caller msg.data_bytes msg.is_stderr w).0) [
        | inl q ↦
            rw (q, receive)
              (receive-In app rel (image_after svc caller image msg.image_id) msgs end
                (sink svc caller msg.data_bytes msg.is_stderr w).1
                (sink-In app rel msg.data_bytes msg.is_stderr w h))
        | inr (x, q) ↦ rw (q, receive) (sink-In app rel msg.data_bytes msg.is_stderr w h)
      ]

  receive-image :
      (image : String) (msgs : List BuildMessage) (end : Option String) (w : World W) {id : String}
      → (receive svc caller image msgs end w).0 ≡ ok id
      → (id =ₛ "") ≡ false
  unfolding receive
  receive-image image [] (some e) w h = absurd (ground arith)
  receive-image image [] none w h = elim (Bool-cases (image =ₛ "")) [
    | inl b ↦ absurd (ground arith)
    | inr b ↦ ground arith
  ]
  receive-image image (msg ∷ msgs) end w h =
      elim (Option-cases (sink svc caller msg.data_bytes msg.is_stderr w).0) [
        | inl q ↦
            receive-image (image_after svc caller image msg.image_id) msgs end
              (sink svc caller msg.data_bytes msg.is_stderr w).1 (rw (q, receive) at h)
        | inr (x, q) ↦ absurd (ground arith)
      ]

  -- The world once the executor has been asked for the build.
  asked : BuildRequest → World W → World W
  asked breq w = at svc caller w (svc.open_build breq w.outside).1 (build_opened breq)

  asked-In :
      (app : App) (rel : Release) (w : World W)
      → In (building app rel) w
      → In (building app rel) (asked (build_request app rel req.commit_sha) w)
  unfolding asked build_request
  asked-In app rel w h = rw h (
      ground
        (arith, eq_iff app.id app.id, eq_iff rel.id rel.id, eq_iff req.commit_sha req.commit_sha))

  image_build-In :
      (app : App) (rel : Release) (w : World W)
      → In (building app rel) w
      → In (building app rel) (image_build svc caller (build_request app rel req.commit_sha) w).1
  unfolding image_build asked
  image_build-In app rel w h =
      let breq = build_request app rel req.commit_sha in
      elim (Result-cases (svc.open_build breq w.outside).0) [
        | inr (x, q) ↦ rw (q, image_build) (asked-In app rel w h)
        | inl (stream, q) ↦
            rw (q, image_build)
              (receive-In app rel "" stream.0 stream.1 (asked breq w) (asked-In app rel w h))
      ]

  image_build-image :
      (breq : BuildRequest) (w : World W) {id : String}
      → (image_build svc caller breq w).0 ≡ ok id
      → (id =ₛ "") ≡ false
  unfolding image_build
  image_build-image breq w h = elim (Result-cases (svc.open_build breq w.outside).0) [
    | inr (x, q) ↦ absurd (ground arith)
    | inl (stream, q) ↦ receive-image "" stream.0 stream.1 _ (rw (q, image_build) at h)
  ]

  build-Settled :
      (app : App) (rel : Release) (params : Params) (w : World W)
      → In (building app rel) w
      → Ends (build svc caller req app rel params w)
  unfolding build
  build-Settled app rel params w h =
      let led = image_build-In app rel w h in
      elim (Result-cases (image_build svc caller (build_request app rel req.commit_sha) w).0) [
        | inr (x, q) ↦
            rw (q, build)
              (completed-broken req svc caller total _ params _ _
                (seal_failed-building app rel _ _ led))
        | inl (image, q) ↦
            rw (q, build) (finish-Settled app rel image _ _ (image_build-image _ w q) led)
      ]

  accept-Settled :
      (app : App) (rel : Release) (params : Params) (w : World W)
      → In (fresh app rel) w
      → Ends (accept svc caller req app rel params w)
  unfolding accept
  accept-Settled app rel params w h =
      elim (Option-cases (sending svc caller (accepted rel.id req.app_id req.commit_sha) w).0) [
        | inl q ↦
            rw (q, accept)
              (build-Settled app rel params _ (
                rw (h, q)
                  (ground (
                    arith,
                    eq_iff rel.id rel.id,
                    eq_iff req.app_id req.app_id,
                    eq_iff req.commit_sha req.commit_sha,
                  ))))
        | inr (x, q) ↦
            rw (q, accept)
              (completed-broken req svc caller total _ params _ _
                (seal_failed-unheard rel _ _ (rw (h, q) refl)))
      ]

  open_release-Settled :
      (app : App) (params : Params) (w : World W)
      → In (known app) w
      → Ends (open_release svc caller req app params w)
  unfolding open_release
  open_release-Settled app params w h =
      elim (Result-cases (svc.start_release req.app_id req.commit_sha w.outside).0) [
        | inl (rel, q) ↦
            rw (q, open_release)
              (accept-Settled app rel _ _ (
                rw (h, q)
                  (ground
                    (arith, eq_iff req.app_id req.app_id, eq_iff req.commit_sha req.commit_sha))))
        | inr (x, q) ↦
            rw (q, open_release)
              (failure-closed req svc caller total
                (rw (h, q)
                  (ground
                    (arith, eq_iff req.app_id req.app_id, eq_iff req.commit_sha req.commit_sha)))
                refl (record_action-Recorded svc caller total action _ params failure _ _))
      ]

  denied-Settled :
      (target : String) (params : Params) (cause : String) (w : World W)
      → w.trace ≡ []
      → Ends (denied svc caller action target params cause w)
  unfolding denied
  denied-Settled target params cause w h =
      start-closed req svc caller total (rw h refl) refl
        (record_action-Recorded svc caller total action target params denied_outcome cause w)

  -- `Deploy` from an empty trace, whatever the services answer: the calls keep the order of `Phases.next`, in which the client
  -- hears of success only after a rollout without an error or with one that holds a `SkippedError`, which may be that of
  -- the app itself; the last is the one audit record, and the deployment is closed as a success exactly if
  -- `Deploy` returns `nil`.
  pub deploy-Settled : (w : World W) → w.trace ≡ [] → Ends (deploy svc caller req w)
  unfolding deploy
  deploy-Settled w h = elim (Bool-cases (valid_commit_sha req.commit_sha)) [
    | inr b ↦ rw b (denied-Settled (app_target req.app_id) _ (bad_sha svc req.commit_sha) w h)
    | inl b ↦ rw b (elim (Result-cases (svc.get_app req.app_id w.outside).0) [
      | inl (app, q) ↦
          rw (q, deploy)
            (open_release-Settled app _ _
              (rw (h, q) (ground (arith, eq_iff req.app_id req.app_id))))
      | inr (x, q) ↦
          rw (q, deploy)
            (failure-closed req svc caller total
              (rw (h, q) (ground (arith, eq_iff req.app_id req.app_id))) refl
              (record_action-Recorded svc caller total action _ _ failure _ _))
    ])
  ]
