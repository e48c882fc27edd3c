-- ===== src/Connproto/Scope.antt =====
-- What the checks of internal/connproto/role.go accept: deploy scopes, stated on their own.
use panely.Kit.{
  Distinct, ne→str_eq, ◌≤◌, ◌≡◌, ◌≢◌, ◌↔◌, ◌⊎◌, inl, inr, refl, String, true, false, Option, none,
  some, List, [], ◌∷◌, arith, length, contains, All, eq_iff, Bool-cases, ok, ◌=ₛ◌,
}
use panely.Kit.Text.{codes, split, join, split-join, join-split, Avoids}
use panely.Connproto.Role.{
  RoleError, all_tail, Identity, match_app_id, scan_apps, check_deploy_apps, check_role, can_deploy,
  comma, parse_deploy_scope, max_deploy_apps, role_admin, role_deploy, deploy_identity, or_apps,
}

abbrev pub IsAppId : String → Type 0
IsAppId s = match_app_id s ≡ true

-- A deploy scope: between 1 and 32 well-formed names, none twice.
pub record IsScope (apps : List String) : Type 0 where
  pub some_app : apps ≢ []
  pub few : length apps ≤ max_deploy_apps
  pub named : All IsAppId apps
  pub distinct : Distinct apps

-- None of the names stands in the list of those seen.
abbrev Fresh : List String → List String → Type 0
Fresh seen apps = All (λ a. contains seen a ≡ false) apps

Fresh-split :
    (x : String) (seen apps : List String)
    → Fresh (x ∷ seen) apps
    → (contains apps x ≡ false) × Fresh seen apps
Fresh-split x seen [] h = (refl, tt)
Fresh-split x seen (a ∷ apps) h =
    ground (arith, Fresh-split x seen apps h.1, eq_iff a x, eq_iff x a)

Fresh-cons :
    (x : String) (seen apps : List String)
    → contains apps x ≡ false
    → Fresh seen apps
    → Fresh (x ∷ seen) apps
Fresh-cons x seen [] e h = tt
Fresh-cons x seen (a ∷ apps) e h = ground (arith, Fresh-cons x seen apps, eq_iff a x, eq_iff x a)

scan_apps-none :
    (seen apps : List String)
    → scan_apps seen apps ≡ none
    → All IsAppId apps × Distinct apps × Fresh seen apps
unfolding scan_apps
scan_apps-none seen [] h = (tt, tt, tt)
scan_apps-none seen (a ∷ apps) h =
    ground (arith, scan_apps-none (a ∷ seen) apps, Fresh-split a seen apps)

scan_apps-accepts :
    (seen apps : List String)
    → All IsAppId apps
    → Distinct apps
    → Fresh seen apps
    → scan_apps seen apps ≡ none
unfolding scan_apps
scan_apps-accepts seen [] n d f = refl
scan_apps-accepts seen (a ∷ apps) n d f =
    ground (arith, scan_apps-accepts (a ∷ seen) apps n.1 d.1, Fresh-cons a seen apps d.0 f.1)

-- `checkDeployApps` returns no error exactly for a deploy scope.
pub check_deploy_apps-IsScope :
    (apps : List String) → (check_deploy_apps apps ≡ none) ↔ IsScope apps
unfolding check_deploy_apps
check_deploy_apps-IsScope apps = (from apps, to apps)
  where
    from : (xs : List String) → check_deploy_apps xs ≡ none → IsScope xs
    from [] h = cc
    from (x ∷ xs) h = ground (arith, scan_apps-none [] (x ∷ xs))

    Fresh-nil : (xs : List String) → Fresh [] xs
    Fresh-nil [] = tt
    Fresh-nil (x ∷ xs) = (refl, Fresh-nil xs)

    to : (xs : List String) → IsScope xs → check_deploy_apps xs ≡ none
    to [] h = absurd (h.some_app refl)
    to (x ∷ xs) h =
        ground (arith, scan_apps-accepts [] (x ∷ xs) h.named h.distinct (Fresh-nil (x ∷ xs)))

-- What it takes to have the right to deploy `app`.
abbrev pub MayDeploy : Identity → String → Type 0
MayDeploy id app =
    ((id.role ≡ role_admin) × (id.apps ≡ []))
    ⊎ ((id.role ≡ role_deploy) × IsScope id.apps × (contains id.apps app ≡ true))

can_deploy-from : (id : Identity) (app : String) → can_deploy id app ≡ true → MayDeploy id app
unfolding can_deploy check_role
can_deploy-from id app h = ground (
  arith,
  eq_iff id.role role_admin,
  eq_iff id.role role_deploy,
  (check_deploy_apps-IsScope id.apps).0,
)

can_deploy-to : (id : Identity) (app : String) → MayDeploy id app → can_deploy id app ≡ true
unfolding can_deploy check_role
can_deploy-to id app (inl (r, e)) = rw (r, e) refl
can_deploy-to id app (inr (r, s, c)) = rw (r, (check_deploy_apps-IsScope id.apps).1 s, c) refl

-- `CanDeploy` says yes exactly to an admin without a scope, and to a deploy key whose scope is
-- well formed and lists the app; every other role or scope is refused.
pub can_deploy-MayDeploy :
    (id : Identity) (app : String) → (can_deploy id app ≡ true) ↔ MayDeploy id app
can_deploy-MayDeploy id app = (can_deploy-from id app, can_deploy-to id app)

all_tail-Avoids : (s : String) → all_tail (codes s) ≡ true → Avoids comma s
all_tail-Avoids String.[] h = refl
all_tail-Avoids (String.◌∷◌ c s) h = ground (arith, all_tail-Avoids s)

IsAppId-Avoids : (s : String) → IsAppId s → Avoids comma s
unfolding match_app_id
IsAppId-Avoids String.[] h = cc
IsAppId-Avoids (String.◌∷◌ c s) h = ground (arith, all_tail-Avoids s)

All-Avoids : (apps : List String) → All IsAppId apps → All (Avoids comma) apps
All-Avoids [] h = tt
All-Avoids (a ∷ apps) h = (IsAppId-Avoids a h.0, All-Avoids apps h.1)

check_role-deploy_identity :
    (apps : List String) → check_role (deploy_identity apps) ≡ check_deploy_apps apps
unfolding check_role
check_role-deploy_identity apps = refl

IsScope-join-ne : (apps : List String) → IsScope apps → join comma apps ≢ ""
unfolding join match_app_id
IsScope-join-ne [] h e = h.some_app refl
IsScope-join-ne (String.[] ∷ []) h e = cc
IsScope-join-ne (String.◌∷◌ c s ∷ []) h e = cc
IsScope-join-ne (String.[] ∷ (v ∷ vs)) h e = cc
IsScope-join-ne (String.◌∷◌ c s ∷ (v ∷ vs)) h e = cc

or_apps-ok :
    (o : Option RoleError) (ys : List String) {xs : List String}
    → or_apps o ys ≡ ok xs
    → (o ≡ none) × (ys ≡ xs)
or_apps-ok none ys h = ground arith
or_apps-ok (some e) ys h = cc

parse_deploy_scope-from :
    (s : String) (apps : List String)
    → parse_deploy_scope s ≡ ok apps
    → IsScope apps × (join comma apps ≡ s)
unfolding parse_deploy_scope
parse_deploy_scope-from s apps h = elim (Bool-cases (s =ₛ "")) [
  | inl e ↦ ground arith
  | inr e ↦
      let (c, q) =
        or_apps-ok (check_role (deploy_identity (split comma s))) (split comma s) (rw e at h) in
      rw (← q) (
        (check_deploy_apps-IsScope (split comma s)).0 (rw check_role-deploy_identity at c),
        join-split comma s,
      )
]

parse_deploy_scope-to :
    (s : String) (apps : List String)
    → IsScope apps
    → join comma apps ≡ s
    → parse_deploy_scope s ≡ ok apps
unfolding parse_deploy_scope
parse_deploy_scope-to s apps h e = rw (← e) (
    rw (
      ne→str_eq (join comma apps) "" (IsScope-join-ne apps h),
      split-join comma apps h.some_app (All-Avoids apps h.named),
      check_role-deploy_identity,
      (check_deploy_apps-IsScope apps).1 h,
    ))

-- `ParseDeployScope` returns the names `apps` exactly when they are a deploy scope and the text is
-- those names joined by commas.
pub parse_deploy_scope-join :
    (s : String) (apps : List String)
    → (parse_deploy_scope s ≡ ok apps) ↔ (IsScope apps × (join comma apps ≡ s))
parse_deploy_scope-join s apps =
    (parse_deploy_scope-from s apps, λ h. parse_deploy_scope-to s apps h.0 h.1)
