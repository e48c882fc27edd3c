-- ===== src/Connproto/Role.antt =====
-- internal/connproto/role.go, with `Identity` of identity.go. `nil` as an `error` is `none`.
use Prim.Native.Char.{Char}
use panely.Kit.{
  ℕ, String, Bool, true, false, Option, none, some, List, [], ◌∷◌, ◌&&◌, ◌||◌, leb, ltb, ◌==◌, ◌=ₛ◌,
  if◌then◌else◌, length, contains, Result, ok, err,
}
use panely.Kit.Text.{codes, split}

-- `Identity`; the slice `Apps` is a list, `nil` and empty alike.
pub record Identity : Type 0 where
  pub fingerprint : String
  pub source_ip : String
  pub label : String
  pub origin : String
  pub role : String
  pub apps : List String

-- What `ErrInvalidRole` is wrapped with.
pub data RoleError : Type 0 where
  empty_scope : RoleError
  admin_with_scope : RoleError
  no_apps : RoleError
  too_many : ℕ → RoleError
  bad_name : String → RoleError
  listed_twice : String → RoleError
  unknown_role : String → RoleError

abbrev pub role_admin : String
role_admin = "admin"

abbrev pub role_deploy : String
role_deploy = "deploy"

abbrev pub max_deploy_apps : ℕ
max_deploy_apps = 32

abbrev pub is_lower : ℕ → Bool
is_lower c = leb b'a' c && leb c b'z'

abbrev pub is_tail : ℕ → Bool
is_tail c = is_lower c || leb b'0' c && leb c b'9' || c == b'-'

abbrev pub all_tail : List ℕ → Bool
all_tail [] = true
all_tail (c ∷ cs) = is_tail c && all_tail cs

abbrev pub matches : List ℕ → Bool
matches [] = false
matches (c ∷ cs) = is_lower c && leb (length cs) 31 && all_tail cs

-- `appIDPattern.MatchString`: `^[a-z][a-z0-9-]{0,31}$`.
unfoldable pub match_app_id : String → Bool
match_app_id s = matches (codes s)

-- The loop of `checkDeployApps` over the names, with the set `seen`.
unfoldable pub scan_apps : List String → List String → Option RoleError
scan_apps seen [] = none
scan_apps seen (app ∷ apps) =
    let rest = scan_apps (app ∷ seen) apps in
    if match_app_id app
    then (if contains seen app then some (listed_twice app) else rest)
    else some (bad_name app)

unfoldable pub check_deploy_apps : List String → Option RoleError
check_deploy_apps apps =
    if length apps == 0
    then some no_apps
    else if ltb max_deploy_apps (length apps)
    then some (too_many (length apps))
    else scan_apps [] apps

unfoldable pub check_role : Identity → Option RoleError
check_role id =
    if id.role =ₛ role_admin
    then (if length id.apps == 0 then none else some admin_with_scope)
    else if id.role =ₛ role_deploy
    then check_deploy_apps id.apps
    else some (unknown_role id.role)

abbrev pub is_none {ℓ} : {A : Type ℓ} → Option A → Bool
is_none none = true
is_none (some _) = false

unfoldable pub can_deploy : Identity → String → Bool
can_deploy id app =
    if is_none (check_role id)
    then (if id.role =ₛ role_admin
        then true
        else if id.role =ₛ role_deploy
        then contains id.apps app
        else false)
    else false

-- The scope `Identity{Role: RoleDeploy, Apps: apps}` that `ParseDeployScope` checks.
abbrev pub deploy_identity : List String → Identity
deploy_identity apps = record {
  fingerprint = "";
  source_ip = "";
  label = "";
  origin = "";
  role = role_deploy;
  apps = apps;
}

abbrev pub comma : Char
comma = ","

-- The result of the check, as the pair `(apps, err)` is returned.
abbrev pub or_apps : Option RoleError → List String → Result RoleError (List String)
or_apps none apps = ok apps
or_apps (some e) apps = err e

unfoldable pub parse_deploy_scope : String → Result RoleError (List String)
parse_deploy_scope s =
    if s =ₛ ""
    then err empty_scope
    else let apps = split comma s in or_apps (check_role (deploy_identity apps)) apps
