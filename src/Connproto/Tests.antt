-- ===== src/Connproto/Tests.antt =====
-- Runs of the checks and of the preamble, and the theorems at concrete callers.
use panely.Kit.{
  ◌<◌, ◌&&◌, ◌=ₛ◌, if◌then◌else◌, ℕ, ◌≡◌, ◌++◌, String, Bool, true, false, Option, none, some, List,
  [], ◌∷◌, refl, arith, length, ok, err, eq_iff, ◌↔◌,
}
use panely.Kit.Text.{split, join}
use panely.Connproto.Role.{
  Identity, match_app_id, scan_apps, check_deploy_apps, check_role, parse_deploy_scope,
  listed_twice, bad_name, comma, role_deploy,
}
use panely.Connproto.Scope.{IsScope, check_deploy_apps-IsScope, parse_deploy_scope-join}
use panely.Connproto.Preamble.{
  Codec, read, write, packet, read_body, read_full, with_origin, too_large, uint32,
}
use panely.Connproto.Wire.{IsBody, write-read, read-consumes}

abbrev web_api : List String
web_api = "web" ∷ "api" ∷ []

parses : parse_deploy_scope "web,api" ≡ ok web_api
unfolding parse_deploy_scope check_role check_deploy_apps scan_apps match_app_id split
parses = refl

refuses_twice : parse_deploy_scope "web,web" ≡ err (listed_twice "web")
unfolding parse_deploy_scope check_role check_deploy_apps scan_apps match_app_id split
refuses_twice = refl

refuses_wildcard : parse_deploy_scope "web,*" ≡ err (bad_name "*")
unfolding parse_deploy_scope check_role check_deploy_apps scan_apps match_app_id split
refuses_wildcard = refl

check_deploy_apps-IsScope_example : (check_deploy_apps web_api ≡ none) ↔ IsScope web_api
check_deploy_apps-IsScope_example = check_deploy_apps-IsScope web_api

parse_deploy_scope-join_example :
    (parse_deploy_scope "web,api" ≡ ok web_api)
    ↔ (IsScope web_api × (join comma web_api ≡ "web,api"))
parse_deploy_scope-join_example = parse_deploy_scope-join "web,api" web_api

abbrev someone : Identity
someone = record {
  fingerprint = "SHA256:x";
  source_ip = "";
  label = "";
  origin = "ssh";
  role = role_deploy;
  apps = web_api;
}

abbrev is_web_api : List String → Bool
is_web_api (a ∷ b ∷ []) = a =ₛ "web" && b =ₛ "api"
is_web_api _ = false

is_web_api-eq : (xs : List String) → is_web_api xs ≡ true → xs ≡ web_api
is_web_api-eq (a ∷ b ∷ []) h = ground (arith, eq_iff a "web", eq_iff b "api")
is_web_api-eq [] h = cc
is_web_api-eq (a ∷ []) h = cc
is_web_api-eq (a ∷ b ∷ c ∷ xs) h = cc

abbrev is_someone : Identity → Bool
is_someone id =
    id.fingerprint =ₛ "SHA256:x"
    && id.source_ip =ₛ ""
    && id.label =ₛ ""
    && id.origin =ₛ "ssh"
    && id.role =ₛ role_deploy
    && is_web_api id.apps

-- A codec that knows one identity: the laws can hold.
abbrev knows_one : Identity → Option (List ℕ)
knows_one id = if is_someone id then some (b'{' ∷ b'}' ∷ []) else none

knows_one_decodes :
    (id : Identity) (body : List ℕ) → knows_one id ≡ some body → some someone ≡ some id
knows_one_decodes id body h = ground (
  arith,
  eq_iff id.fingerprint "SHA256:x",
  eq_iff id.source_ip "",
  eq_iff id.label "",
  eq_iff id.origin "ssh",
  eq_iff id.role role_deploy,
  is_web_api-eq id.apps,
)

knows_one_nonempty : (id : Identity) (body : List ℕ) → knows_one id ≡ some body → 0 < length body
knows_one_nonempty id body h = ground arith

abbrev codec : Codec
codec = record {
  marshal = knows_one;
  unmarshal = λ _. some someone;
  marshal_nonempty = knows_one_nonempty;
  unmarshal-marshal = knows_one_decodes;
}

abbrev append_to : List ℕ → List ℕ → Option (List ℕ)
append_to p w = some (w ++ p)

abbrev sent : List ℕ
sent = 0 ∷ 0 ∷ 0 ∷ 2 ∷ b'{' ∷ b'}' ∷ []

writes : write codec append_to someone [] ≡ ok sent
unfolding write packet
writes = refl

reads : read codec (sent ++ 80 ∷ 82 ∷ []) ≡ ok (someone, 80 ∷ 82 ∷ [])
unfolding read read_body read_full
reads = refl

refuses_huge : read codec (1 ∷ 0 ∷ 0 ∷ 0 ∷ []) ≡ err (too_large 16777216)
unfolding read read_body
refuses_huge = refl

write-read_example :
    (p : List ℕ) × (append_to p [] ≡ some sent)
    × ((rest : List ℕ) → read codec (p ++ rest) ≡ ok (with_origin someone, rest))
write-read_example = write-read codec append_to someone [] sent writes

read-consumes_example :
    (a : ℕ) × (b : ℕ) × (c : ℕ) × (d : ℕ) × (body : List ℕ) × (sent ++ 80 ∷ 82 ∷ []
      ≡ a ∷ b ∷ c ∷ d ∷ body ++ 80 ∷ 82 ∷ [])
    × IsBody codec (uint32 a b c d) body someone
read-consumes_example = read-consumes codec (sent ++ 80 ∷ 82 ∷ []) reads
