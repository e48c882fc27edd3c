-- ===== src/Api/Authz.antt =====
-- internal/api/authz.go: what a key may call. The two method names and the request types come
-- from the generated protobuf code; the names are parameters.
use panely.Kit.{
  String, Bool, true, false, Option, none, some, List, [], ◌∷◌, ◌=ₛ◌, if◌then◌else◌, Result, ok,
  err,
}
use panely.Connproto.Role.{Identity, role_admin, role_deploy, can_deploy}
use panely.Api.Credentials.{CallerInfo}

-- A request as the checks see it: a `DeployRequest` with its `AppId`, or any other message.
pub data Request : Type 0 where
  deploy_request : String → Request
  other_request : Request

pub data Status : Type 0 where
  unauthenticated : Status
  permission_denied : String → Status
  io_error : Status

-- A listed method: `nil` needs no look at the request.
pub data ScopeCheck : Type 0 where
  no_check : ScopeCheck
  app_check : ScopeCheck

-- The check of the `Deploy` entry.
abbrev pub run_check : ScopeCheck → Identity → Request → Bool
run_check no_check id req = true
run_check app_check id (deploy_request app) = can_deploy id app
run_check app_check id other_request = false

-- `scopedStream.RecvMsg` on the messages that are still to come.
unfoldable pub recv_msg :
    ScopeCheck → Identity → String → List Request → Result Status Request × List Request
recv_msg check id method [] = (err io_error, [])
recv_msg check id method (m ∷ ms) =
    if run_check check id m then (ok m, ms) else (err (permission_denied method), ms)

module _ (ping deploy : String) where
  -- `deployAllowed[method]`.
  unfoldable pub deploy_allowed : String → Option ScopeCheck
  deploy_allowed method =
      if method =ₛ ping then some no_check else if method =ₛ deploy then some app_check else none

  -- `authorize`, on the caller found in the context.
  unfoldable pub authorize : Option CallerInfo → String → Result Status (Identity × ScopeCheck)
  unfolding deploy_allowed
  authorize none method = err unauthenticated
  authorize (some info) method =
      if info.identity.role =ₛ role_admin
      then ok (info.identity, no_check)
      else if info.identity.role =ₛ role_deploy
      then (elim (deploy_allowed method) [
        | none ↦ err (permission_denied method)
        | some check ↦ ok (info.identity, check)
      ])
      else err (permission_denied method)

  -- `AuthzUnaryInterceptor` around a handler over the states `W`.
  unfoldable pub unary_interceptor :
      {A W : Type 0}
      → Option CallerInfo
      → String
      → (Request → W → Result Status A × W)
      → Request
      → W
      → Result Status A × W
  unfolding authorize
  unary_interceptor caller method handler req w = elim (authorize caller method) [
    | err e ↦ (err e, w)
    | ok (id, check) ↦
        if run_check check id req then handler req w else (err (permission_denied method), w)
  ]
