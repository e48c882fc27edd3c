-- ===== src/Proxy/Routes.antt =====
-- What `BuildConfig` of internal/proxydrv/config.go lets through.
use panely.Kit.{
  ap, ◌∙◌, ◌≡◌, ◌≢◌, ◌↔◌, refl, String, true, false, none, some, List, [], ◌∷◌, arith, eq_iff,
  Result-cases, ok, map, All, Distinct, contains, ◌=ₛ◌, if◌then◌else◌, inl, inr, Bool-cases,
}
use panely.Kit.Maps.{lookup}
use panely.Kit.Sort.{sort_by}
use panely.Proxy.Config.{
  Netip, AppRoute, Route, Config, BuildOptions, has_upstreams, route_of, build_routes, build_config,
  finish,
}

-- The routes with a domain.
abbrev pub routed : List AppRoute → List AppRoute
routed [] = []
routed (r ∷ rs) = if r.domain =ₛ "" then routed rs else r ∷ routed rs

abbrev pub domains : List AppRoute → List String
domains = map (λ (r : AppRoute). r.domain)

abbrev pub HasUpstreams : AppRoute → Type 0
HasUpstreams r = has_upstreams r ≡ true

abbrev Unseen : List (String × String) → List AppRoute → Type 0
Unseen seen = All (λ (r : AppRoute). lookup r.domain seen ≡ none)

-- What makes the routes a configuration: each has an upstream, and no two have one domain.
pub record IsRoutable (rs : List AppRoute) : Type 0 where
  pub served : All HasUpstreams rs
  pub apart : Distinct (domains rs)

Unseen-split :
    (k v : String) (seen : List (String × String)) (rs : List AppRoute)
    → Unseen ((k, v) ∷ seen) rs
    → (contains (domains rs) k ≡ false) × Unseen seen rs
unfolding lookup
Unseen-split k v seen [] h = (refl, tt)
Unseen-split k v seen (r ∷ rs) h =
    ground (arith, Unseen-split k v seen rs h.1, eq_iff k r.domain, eq_iff r.domain k)

Unseen-cons :
    (k v : String) (seen : List (String × String)) (rs : List AppRoute)
    → contains (domains rs) k ≡ false
    → Unseen seen rs
    → Unseen ((k, v) ∷ seen) rs
unfolding lookup
Unseen-cons k v seen [] e h = tt
Unseen-cons k v seen (r ∷ rs) e h =
    ground (arith, Unseen-cons k v seen rs, eq_iff k r.domain, eq_iff r.domain k)

build_routes_sound :
    (seen : List (String × String)) (rs : List AppRoute) {out : List Route}
    → build_routes seen rs ≡ ok out
    → (out ≡ map route_of (routed rs))
      × All HasUpstreams (routed rs)
      × Distinct (domains (routed rs))
      × Unseen seen (routed rs)
unfolding build_routes
build_routes_sound seen [] h = ground arith
build_routes_sound seen (r ∷ rs) {out = out} h = elim (Bool-cases (r.domain =ₛ "")) [
  | inl e ↦ rw e (build_routes_sound seen rs (ground arith))
  | inr e ↦ elim (Result-cases (build_routes ((r.domain, r.app_id) ∷ seen) rs)) [
    | inr (x, q) ↦ absurd (ground arith)
    | inl (more, q) ↦
        let (same, up, apart, fresh) = build_routes_sound ((r.domain, r.app_id) ∷ seen) rs q in
        let (new, old) = Unseen-split r.domain r.app_id seen (routed rs) fresh in
        rw e (ground arith, (ground arith, up), (new, apart), (ground arith, old))
  ]
]

build_routes_complete :
    (seen : List (String × String)) (rs : List AppRoute)
    → IsRoutable (routed rs)
    → Unseen seen (routed rs)
    → build_routes seen rs ≡ ok (map route_of (routed rs))
unfolding build_routes
build_routes_complete seen [] h u = refl
build_routes_complete seen (r ∷ rs) h u = elim (Bool-cases (r.domain =ₛ "")) [
  | inl e ↦ rw e (
      build_routes_complete seen rs (record { served = rw e at h.served; apart = rw e at h.apart })
        (rw e at u))
  | inr e ↦
      let up : HasUpstreams r × All HasUpstreams (routed rs) = rw e at h.served in
      let apart : (contains (domains (routed rs)) r.domain ≡ false)
          × Distinct (domains (routed rs)) =
        rw e at h.apart in
      let fresh : (lookup r.domain seen ≡ none) × Unseen seen (routed rs) = rw e at u in
      ground (
        arith,
        build_routes_complete ((r.domain, r.app_id) ∷ seen) rs
            (record { served = up.1; apart = apart.1 })
            (Unseen-cons r.domain r.app_id seen (routed rs) apart.0 fresh.1),
      )
]

-- The routes of the one server, or none.
abbrev pub routes_of : Config → List Route
routes_of cfg = elim cfg.http [
  | none ↦ []
  | some app ↦ elim app.servers [ [] ↦ [] | (name, server) ∷ _ ↦ server.routes ]
]

Unseen-nil : (rs : List AppRoute) → Unseen [] rs
unfolding lookup
Unseen-nil [] = tt
Unseen-nil (r ∷ rs) = (refl, Unseen-nil rs)

module _ {Addr : Type 0} (netip : Netip Addr) where
  routes_of-finish : (opts : BuildOptions) (rs : List Route) → routes_of (finish netip opts rs) ≡ rs
  routes_of-finish opts [] = refl
  routes_of-finish opts (r ∷ rs) = refl

  -- The routes given, in the order of their apps, those without a domain left out.
  abbrev pub in_order : BuildOptions → List AppRoute
  in_order opts = routed (sort_by (λ (r : AppRoute). r.app_id) opts.routes)

  -- A configuration that is built serves exactly the routes with a domain, in the order of their apps.
  pub build_config-routes :
      (opts : BuildOptions) {cfg : Config}
      → build_config netip opts ≡ ok cfg
      → routes_of cfg ≡ map route_of (in_order opts)
  unfolding build_config
  build_config-routes opts {cfg = cfg} e = elim (Result-cases (build_routes [] sorted)) [
    | inr (x, q) ↦ absurd (ground arith)
    | inl (out, q) ↦
        let (same, up, apart, fresh) = build_routes_sound [] sorted q in
        let made : cfg ≡ finish netip opts out = ground arith in
        ap routes_of made ∙ routes_of-finish opts out ∙ same
  ]
    where
      sorted : List AppRoute
      sorted = sort_by (λ (r : AppRoute). r.app_id) opts.routes

  -- `BuildConfig` succeeds exactly if it is given an admin address, and every route with a domain has an upstream
  -- and a domain of its own. Its configuration then carries the admin block
  -- unchanged and serves exactly those routes, in the order of their apps.
  pub build_config-IsRoutable :
      (opts : BuildOptions)
      → ((opts.admin.listen ≢ "") × IsRoutable (in_order opts)) ↔ (
          (cfg : Config) × (build_config netip opts ≡ ok cfg)
          × (cfg.admin ≡ opts.admin)
          × (routes_of cfg ≡ map route_of (in_order opts)))
  unfolding build_config
  build_config-IsRoutable opts = (to, from)
    where
      sorted : List AppRoute
      sorted = sort_by (λ (r : AppRoute). r.app_id) opts.routes

      admin_kept : (rs : List Route) → (finish netip opts rs).admin ≡ opts.admin
      admin_kept [] = refl
      admin_kept (r ∷ rs) = refl

      to :
          (opts.admin.listen ≢ "") × IsRoutable (in_order opts)
          → (cfg : Config) × (build_config netip opts ≡ ok cfg)
            × (cfg.admin ≡ opts.admin)
            × (routes_of cfg ≡ map route_of (in_order opts))
      to (ne, h) = (
        finish netip opts (map route_of (routed sorted)),
        ground (
          arith,
          eq_iff opts.admin.listen "",
          build_routes_complete [] sorted h (Unseen-nil (routed sorted)),
        ),
        admin_kept (map route_of (routed sorted)),
        routes_of-finish opts (map route_of (routed sorted)),
      )

      from :
          (cfg : Config) × (build_config netip opts ≡ ok cfg)
            × (cfg.admin ≡ opts.admin)
            × (routes_of cfg ≡ map route_of (in_order opts))
          → (opts.admin.listen ≢ "") × IsRoutable (in_order opts)
      from (cfg, e, a, r) = elim (Result-cases (build_routes [] sorted)) [
        | inr (x, q) ↦ absurd (ground arith)
        | inl (out, q) ↦
            let (same, up, apart, fresh) = build_routes_sound [] sorted q in
            (ground (arith, eq_iff opts.admin.listen ""), record { served = up; apart = apart })
      ]
