-- ===== src/Api/Tests.antt =====
-- Runs of the interceptor, and the theorems at concrete callers. The methods' names are those of
-- proto/kadran/v1/api.proto.
use panely.Kit.{ℕ, ◌≡◌, String, true, none, some, List, [], ◌∷◌, refl, Result, ok, err}
use panely.Connproto.Role.{
  role_deploy, check_role, can_deploy, check_deploy_apps, scan_apps, match_app_id,
}
use panely.Connproto.Preamble.{Codec, read, read_body, read_full}
use panely.Peercred.{server_handshake, allows}
use panely.Api.Credentials.{CallerInfo, handshake, client_policy}
use panely.Api.Authz.{
  Request, deploy_request, other_request, Status, permission_denied, app_check, authorize,
  unary_interceptor, recv_msg,
}
use panely.Api.Access.{Allowed, Permits, unary_interceptor-Allowed, recv_msg-Permits}

abbrev ping : String
ping = "/kadran.v1.KadranService/Ping"

abbrev deploy : String
deploy = "/kadran.v1.KadranService/Deploy"

abbrev ci_key : CallerInfo
ci_key = record {
  unix = record { pid = 7; uid = 1001; gid = 1001 };
  identity = record {
    fingerprint = "";
    source_ip = "";
    label = "";
    origin = "ssh";
    role = role_deploy;
    apps = "web" ∷ [];
  };
}

-- A handler that notes each request.
abbrev note : Request → List Request → Result Status (Unit {0}) × List Request
note req seen = (ok tt, req ∷ seen)

deploys :
    unary_interceptor ping deploy (some ci_key) deploy note (deploy_request "web") []
    ≡ (ok tt, deploy_request "web" ∷ [])
unfolding unary_interceptor can_deploy check_role check_deploy_apps scan_apps match_app_id
deploys = refl

refuses_other_app :
    unary_interceptor ping deploy (some ci_key) deploy note (deploy_request "api") []
    ≡ (err (permission_denied deploy), [])
unfolding unary_interceptor can_deploy check_role check_deploy_apps scan_apps match_app_id
refuses_other_app = refl

refuses_other_method :
    unary_interceptor ping deploy
      (some ci_key)
      "/kadran.v1.KadranService/GetApp"
      note
      other_request
      []
    ≡ (err (permission_denied "/kadran.v1.KadranService/GetApp"), [])
unfolding unary_interceptor
refuses_other_method = refl

unary_interceptor-Allowed_example :
    (Allowed ping deploy (some ci_key) deploy (deploy_request "web")
      → unary_interceptor ping deploy (some ci_key) deploy note (deploy_request "web") []
        ≡ note (deploy_request "web") [])
    × (¬ Allowed ping deploy (some ci_key) deploy (deploy_request "web")
        → (e : Status) × (unary_interceptor ping deploy
              (some ci_key)
              deploy
              note
              (deploy_request "web")
              []
            ≡ (err e, [])))
unary_interceptor-Allowed_example =
    unary_interceptor-Allowed ping deploy (some ci_key) deploy note (deploy_request "web") []

opened : authorize ping deploy (some ci_key) deploy ≡ ok (ci_key.identity, app_check)
unfolding authorize
opened = refl

received :
    recv_msg app_check ci_key.identity deploy (deploy_request "web" ∷ [])
    ≡ (ok (deploy_request "web"), [])
unfolding recv_msg can_deploy check_role check_deploy_apps scan_apps match_app_id
received = refl

recv_msg-Permits_example :
    (deploy_request "web" ∷ [] ≡ deploy_request "web" ∷ [])
    × Permits ping deploy ci_key.identity deploy (deploy_request "web")
recv_msg-Permits_example =
    recv_msg-Permits ping deploy ci_key deploy (deploy_request "web" ∷ []) opened received

nothing_written : (body : List ℕ) → none ≡ some body → ⊥
nothing_written body e = cc

-- A codec under which every body stands for the key above, and nothing is written.
abbrev reader : Codec
reader = record {
  marshal = λ _. none;
  unmarshal = λ _. some ci_key.identity;
  marshal_nonempty = λ id body e. absurd (nothing_written body e);
  unmarshal-marshal = λ id body e. absurd (nothing_written body e);
}

abbrev bytes : List ℕ
bytes = 0 ∷ 0 ∷ 0 ∷ 1 ∷ 123 ∷ 80 ∷ []

shakes :
    handshake reader (client_policy 1001) (some ci_key.unix) true true bytes ≡ ok (ci_key, 80 ∷ [])
unfolding handshake server_handshake allows read read_body read_full check_role check_deploy_apps
    scan_apps match_app_id
shakes = refl
