-- ===== src/Api/Access.antt =====
-- What the interceptors of internal/api/authz.go let through, behind the handshake of
-- credentials.go.
use mathlib.Core.Path.{ap₂, subst}
use panely.Kit.{
  Option-cases, String, true, Option, none, some, List, [], ◌∷◌, ◌=ₛ◌, ◌≡◌, inl, inr, refl, eq_iff,
  arith, Result, ok, err, Bool-cases,
}
use panely.Connproto.Role.{Identity, role_admin, role_deploy}
use panely.Connproto.Scope.{MayDeploy, can_deploy-MayDeploy}
use panely.Api.Credentials.{CallerInfo}
use panely.Api.Authz.{
  permission_denied, deploy_allowed, Request, Status, deploy_request, other_request, authorize,
  unary_interceptor, recv_msg, ScopeCheck, run_check, app_check, no_check,
}

-- A deploy key's calls: `Ping`, and `Deploy` for an app that it may deploy.
pub data Permits (ping deploy : String) (id : Identity) (method : String) : Request → Type 0 where
  admin_call : (req : Request) → id.role ≡ role_admin → Permits ping deploy id method req
  ping_call :
      (req : Request) → id.role ≡ role_deploy → method ≡ ping → Permits ping deploy id method req
  deploy_call :
      (app : String)
      → id.role ≡ role_deploy
      → method ≡ deploy
      → MayDeploy id app
      → Permits ping deploy id method (deploy_request app)

module _ (ping deploy : String) where
  checked-Permits :
      (check : ScopeCheck) (id : Identity) (method : String) (req : Request)
      → id.role ≡ role_deploy
      → deploy_allowed ping deploy method ≡ some check
      → run_check check id req ≡ true
      → Permits ping deploy id method req
  unfolding deploy_allowed
  checked-Permits no_check id method req r e h =
      ping_call req r (ground (arith, eq_iff method ping))
  checked-Permits app_check id method (deploy_request app) r e h =
      deploy_call app r (ground (arith, eq_iff method deploy)) ((can_deploy-MayDeploy id app).0 h)
  checked-Permits app_check id method other_request r e h = cc

  -- A caller that `authorize` accepts with a check, on a request that passes it, is permitted.
  authorize-Permits :
      (info : CallerInfo) (method : String) (req : Request) (id : Identity) (check : ScopeCheck)
      → authorize ping deploy (some info) method ≡ ok (id, check)
      → run_check check id req ≡ true
      → Permits ping deploy info.identity method req
  unfolding authorize
  authorize-Permits info method req id check h r =
      elim (Bool-cases (info.identity.role =ₛ role_admin)) [
        | inl a ↦ admin_call req ((eq_iff info.identity.role role_admin).0 a)
        | inr a ↦ elim (Bool-cases (info.identity.role =ₛ role_deploy)) [
          | inr d ↦ absurd (ground arith)
          | inl d ↦ elim (Option-cases (deploy_allowed ping deploy method)) [
            | inl n ↦ absurd (ground arith)
            | inr (c, e) ↦
                checked-Permits c info.identity method req
                  ((eq_iff info.identity.role role_deploy).0 d) e (ground arith)
          ]
        ]
      ]

  unary_interceptor-admits :
      {A W : Type 0} (info : CallerInfo) (method : String)
      (handler : Request → W → Result Status A × W) (req : Request) (w : W)
      → Permits ping deploy info.identity method req
      → unary_interceptor ping deploy (some info) method handler req w ≡ handler req w
  unfolding unary_interceptor deploy_allowed
  unary_interceptor-admits info method handler req w (admin_call _ r) = rw r
  unary_interceptor-admits info method handler req w (ping_call _ r m) = ground (
    arith,
    eq_iff method ping,
    eq_iff info.identity.role role_admin,
    eq_iff info.identity.role role_deploy,
  )
  unary_interceptor-admits info method handler _ w (deploy_call app r m d) = ground (
    arith,
    eq_iff method ping,
    eq_iff method deploy,
    eq_iff info.identity.role role_admin,
    eq_iff info.identity.role role_deploy,
    (can_deploy-MayDeploy info.identity app).1 d,
  )

  -- What a caller may send: nothing without an identity.
  abbrev pub Allowed : Option CallerInfo → String → Request → Type 0
  Allowed none method req = ⊥
  Allowed (some info) method req = Permits ping deploy info.identity method req

  unary_interceptor-refuses :
      {A W : Type 0} (caller : Option CallerInfo) (method : String)
      (handler : Request → W → Result Status A × W) (req : Request) (w : W)
      → ¬ Allowed caller method req
      → (e : Status) × (unary_interceptor ping deploy caller method handler req w ≡ (err e, w))
  unfolding unary_interceptor
  unary_interceptor-refuses caller method handler req w no_right =
      go (authorize ping deploy caller method) refl
    where
      refused :
          (id : Identity) (check : ScopeCheck)
          → authorize ping deploy caller method ≡ ok (id, check)
          → run_check check id req ≡ true
          → ⊥
      refused id check e r = no_right (
          elim caller
              as (λ c. authorize ping deploy c method ≡ ok (id, check) → Allowed c method req) [
                | none ↦ λ e. absurd (unfold authorize in ground arith)
                | some info ↦ λ e. authorize-Permits info method req id check e r
              ]
            e)

      go :
          (r : Result Status (Identity × ScopeCheck))
          → authorize ping deploy caller method ≡ r
          → (e : Status) × (unary_interceptor ping deploy caller method handler req w ≡ (err e, w))
      go (err e) a = (e, ground arith)
      go (ok (id, check)) a = (permission_denied method, ground (arith, refused id check a))

  -- A unary call reaches its handler exactly if the caller is an admin, or a deploy key that
  -- calls `Ping`, or `Deploy` for an app that it may deploy. Any other call returns an error and leaves
  -- the handler's state as it was.
  pub unary_interceptor-Allowed :
      {A W : Type 0} (caller : Option CallerInfo) (method : String)
      (handler : Request → W → Result Status A × W) (req : Request) (w : W)
      → (Allowed caller method req
          → unary_interceptor ping deploy caller method handler req w ≡ handler req w)
        × (¬ Allowed caller method req
            → (e : Status) × (unary_interceptor ping deploy caller method handler req w
                ≡ (err e, w)))
  unary_interceptor-Allowed none method handler req w =
      (λ h. absurd h, unary_interceptor-refuses none method handler req w)
  unary_interceptor-Allowed (some info) method handler req w = (
    unary_interceptor-admits info method handler req w,
    unary_interceptor-refuses (some info) method handler req w,
  )

  -- On a stream that `authorize` opened, `RecvMsg` hands out only the next message, and only one that the
  -- caller may send with this method.
  pub recv_msg-Permits :
      (info : CallerInfo) (method : String) (ms : List Request) {id : Identity} {check : ScopeCheck}
      {m : Request} {rest : List Request}
      → authorize ping deploy (some info) method ≡ ok (id, check)
      → recv_msg check id method ms ≡ (ok m, rest)
      → (ms ≡ m ∷ rest) × Permits ping deploy info.identity method m
  unfolding recv_msg
  recv_msg-Permits info method [] a h = absurd (ground arith)
  recv_msg-Permits info method (x ∷ ms) {id = id} {check = check} {m = m} {rest = rest} a h =
      elim (Bool-cases (run_check check id x)) [
        | inr e ↦ absurd (ground arith)
        | inl e ↦
            let (p, q) = same in
            (
              ap₂ ◌∷◌ p q,
              subst (λ y. Permits ping deploy info.identity method y) p
                  (authorize-Permits info method x id check a e),
            )
      ]
    where
      same : (x ≡ m) × (ms ≡ rest)
      same = ground arith
