-- ===== src/Api/Deploying.antt =====
-- `Deploy` of internal/api/deploy.go, and `ImageBuild` of internal/execclient/build.go that it calls.
use panely.Kit.{
  ℕ, zero, suc, String, Bool, true, false, not, ◌&&◌, ◌||◌, Option, none, some, List, [], ◌∷◌, ◌++◌,
  ltb, leb, ◌==◌, ◌=ₛ◌, if◌then◌else◌, length, Result, ok, err,
}
use panely.Kit.Text.{codes}
use panely.Kit.Maps.{insert}
use panely.Kit.Text.{glue}
use panely.Records.{App, Release}
use panely.Audit.Record.{Bytes}
use panely.Api.Credentials.{CallerInfo}
use panely.Api.Handling.{
  BuildError, not_started, stream_broken, sink_failed, no_image, ApiError, send_failed,
  build_failed, rollout_failed, app_error, is_skipped, Params, failure, BuildRequest, BuildMessage,
  accepted, output, succeeded, release_started, release_failed, release_finished, build_opened,
  rolled_out, Services, World, Run, value_of, app_target, release_target, at, getting_app, sending,
  record_action, denied, completed,
}

-- `DeployRequest`.
pub record DeployRequest : Type 0 where
  pub app_id : String
  pub commit_sha : String

abbrev pub is_hex : ℕ → Bool
is_hex c = leb b'0' c && leb c b'9' || leb b'a' c && leb c b'f'

abbrev pub all_hex : List ℕ → Bool
all_hex [] = true
all_hex (c ∷ cs) = is_hex c && all_hex cs

-- `validateCommitSHA`: `^[0-9a-f]{40}$`.
unfoldable pub valid_commit_sha : String → Bool
valid_commit_sha sha = length (codes sha) == 40 && all_hex (codes sha)

abbrev pub max_release_detail : ℕ
max_release_detail = 4096

-- The bytes of `… (kısaltıldı)`.
abbrev pub cut_mark : Bytes
cut_mark =
    226 ∷ 128 ∷ 166 ∷ 32 ∷ 40 ∷ 107 ∷ 196 ∷ 177 ∷ 115 ∷ 97 ∷ 108 ∷ 116 ∷ 196 ∷ 177 ∷ 108 ∷ 100 ∷ 196
    ∷ 177 ∷ 41 ∷ []

-- The bytes of `istemciye sürüm bildirilemedi`.
abbrev pub unheard : Bytes
unheard =
    105 ∷ 115 ∷ 116 ∷ 101 ∷ 109 ∷ 99 ∷ 105 ∷ 121 ∷ 101 ∷ 32 ∷ 115 ∷ 195 ∷ 188 ∷ 114 ∷ 195 ∷ 188
    ∷ 109 ∷ 32 ∷ 98 ∷ 105 ∷ 108 ∷ 100 ∷ 105 ∷ 114 ∷ 105 ∷ 108 ∷ 101 ∷ 109 ∷ 101 ∷ 100 ∷ 105 ∷ []

abbrev pub take : ℕ → Bytes → Bytes
take zero b = []
take (suc n) [] = []
take (suc n) (x ∷ b) = x ∷ take n b

abbrev pub cut_detail : Bytes → Bytes
cut_detail detail =
    if ltb max_release_detail (length detail)
    then take max_release_detail detail ++ cut_mark
    else detail

-- `buildRequest`.
unfoldable pub build_request : App → Release → String → BuildRequest
build_request app rel sha = record {
  app_id = app.id;
  release_id = rel.id;
  host = app.git_host;
  owner = app.git_owner;
  repo = app.git_repo;
  commit_sha = sha;
  dockerfile_path = app.dockerfile_path;
  build_args = app.build_args;
}

abbrev pub is_empty : Bytes → Bool
is_empty [] = true
is_empty (x ∷ b) = false

abbrev pub bad_sha : {W : Type 0} → Services W → String → String
bad_sha svc sha =
    glue "commit_sha tam 40 haneli küçük harf onaltılık olmalı ("
      (glue (svc.quote sha) ") — dal veya etiket adı kabul edilmez")

abbrev pub action : String
action = "app.deploy"

module _ {W : Type 0} (svc : Services W) (caller : Option CallerInfo) where
  -- `sealFailed`.
  unfoldable pub seal_failed : Release → Bytes → World W → World W
  seal_failed rel detail w =
      let kept = cut_detail detail in
      let (e, outside) = svc.fail_release rel.app_id rel.id kept w.outside in
      at svc caller w outside (release_failed rel.app_id rel.id kept)

  -- `sealBuilt`.
  unfoldable pub seal_built : Release → String → Run W (Option ApiError)
  seal_built rel image w =
      let (e, outside) = svc.finish_release rel.app_id rel.id image w.outside in
      let w1 = at svc caller w outside (release_finished rel.app_id rel.id image e) in
      elim e [ some x ↦ (some (app_error x), w1) | none ↦ (none, w1) ]

  -- The sink that `Deploy` hands to the build.
  abbrev pub sink : Bytes → Bool → Run W (Option String)
  sink bytes is_stderr w =
      if is_empty bytes then (none, w) else sending svc caller (output bytes is_stderr) w

  abbrev pub image_after : String → String → String
  image_after image next = if next =ₛ "" then image else next

  -- The loop of `ImageBuild`, with the identity of the image so far.
  unfoldable pub receive :
      String → List BuildMessage → Option String → Run W (Result BuildError String)
  receive image [] (some e) w = (err (stream_broken e), w)
  receive image [] none w = ((if image =ₛ "" then err no_image else ok image), w)
  receive image (msg ∷ msgs) end w =
      let (e, w1) = sink msg.data_bytes msg.is_stderr w in
      elim e [
        | some x ↦ (err (sink_failed x), w1)
        | none ↦ receive (image_after image msg.image_id) msgs end w1
      ]

  -- `ImageBuild`.
  unfoldable pub image_build : BuildRequest → Run W (Result BuildError String)
  unfolding receive
  image_build req w =
      let (r, outside) = svc.open_build req w.outside in
      let w1 = at svc caller w outside (build_opened req) in
      elim r [ err e ↦ (err (not_started e), w1) | ok stream ↦ receive "" stream.0 stream.1 w1 ]

  module _ (req : DeployRequest) where
    -- From the answer of the rollout on, where it gave no error or one that holds a `SkippedError`.
    unfoldable pub announce : Release → String → Params → Run W (Option ApiError)
    announce rel image params w =
        let (e, w1) = sending svc caller (succeeded rel.id image) w in
        elim e [
          | some x ↦
              completed svc caller action (release_target req.app_id rel.id) params
                (some (send_failed x)) w1
          | none ↦ completed svc caller action (release_target req.app_id rel.id) params none w1
        ]

    -- From the rollout on.
    unfoldable pub move_traffic : App → Release → String → Params → Run W (Option ApiError)
    move_traffic app rel image params w =
        let (e, outside) = svc.run app (record rel { commit_sha = req.commit_sha }) w.outside in
        let w1 = at svc caller w outside (rolled_out app.id rel.id e) in
        elim e [
          | none ↦ announce rel image params w1
          | some x ↦
              if is_skipped x
              then announce rel image (insert "skipped_routes" (svc.explain x) params) w1
              else completed svc caller action (release_target req.app_id rel.id) params
                  (some (rollout_failed x)) w1
        ]

    -- From the image on.
    unfoldable pub finish : App → Release → String → Params → Run W (Option ApiError)
    finish app rel image params w =
        let (e, w1) = seal_built rel image w in
        elim e [
          | some x ↦
              completed svc caller action (release_target req.app_id rel.id) params (some x) w1
          | none ↦ move_traffic app rel image params w1
        ]

    -- From the build on.
    unfoldable pub build : App → Release → Params → Run W (Option ApiError)
    build app rel params w =
        let (r, w1) = image_build (build_request app rel req.commit_sha) w in
        elim r [
          | err x ↦
              completed svc caller action (release_target req.app_id rel.id) params
                (some (build_failed x)) (seal_failed rel (svc.describe x) w1)
          | ok image ↦ finish app rel image (insert "image_id" image params) w1
        ]

    -- From the opened release on.
    unfoldable pub accept : App → Release → Params → Run W (Option ApiError)
    accept app rel params w =
        let (e, w1) = sending svc caller (accepted rel.id req.app_id req.commit_sha) w in
        elim e [
          | some x ↦
              completed svc caller action (release_target req.app_id rel.id) params
                (some (send_failed x)) (seal_failed rel unheard w1)
          | none ↦ build app rel params w1
        ]

    -- From the app on.
    unfoldable pub open_release : App → Params → Run W (Option ApiError)
    open_release app params w =
        let (r, outside) = svc.start_release req.app_id req.commit_sha w.outside in
        let w1 = at svc caller w outside (release_started req.app_id req.commit_sha (value_of r)) in
        elim r [
          | err e ↦
              let (_, w2) =
                record_action svc caller action (app_target req.app_id) params failure
                  "sürüm açılamadı" w1 in
              (some (app_error e), w2)
          | ok rel ↦ accept app rel (insert "release_id" rel.id params) w1
        ]

    -- `Deploy`.
    unfoldable pub deploy : Run W (Option ApiError)
    deploy w =
        let params : Params = ("commit_sha", req.commit_sha) ∷ [] in
        if not (valid_commit_sha req.commit_sha)
        then denied svc caller action (app_target req.app_id) params (bad_sha svc req.commit_sha) w
        else let (r, w1) = getting_app svc caller req.app_id w in
          elim r [
            | err e ↦
                let (_, w2) =
                  record_action svc caller action (app_target req.app_id) params failure
                    "uygulama bulunamadı" w1 in
                (some (app_error e), w2)
            | ok app ↦
                open_release app
                  (insert "source"
                    (glue app.git_host (glue "/" (glue app.git_owner (glue "/" app.git_repo))))
                    params)
                  w1
          ]
