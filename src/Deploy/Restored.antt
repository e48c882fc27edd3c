-- ===== src/Deploy/Restored.antt =====
-- What `Repair` of internal/deploy/reconcile.go does.
use panely.Kit.{
  ℕ, ◌≡◌, ◌≢◌, ◌⊎◌, refl, String, Bool, true, not, ◌&&◌, contains, Option, none, some, List, [],
  ◌∷◌, ◌++◌, map, arith, inl, inr, All, Option-cases, Result, Result-cases, ok, ◌∙◌,
}
use panely.Kit.Maps.{lookup}
use panely.Proxy.Config.{
  Netip, Admin, AppRoute, Config, Upstream, BuildOptions, new_upstream, has_upstreams, route_of,
}
use panely.Proxy.Live.{
  missing_hosts, valid_dial, valid_dials, live_upstreams, prepend, dials_of, routes_by_host,
  is_known_host,
}
use panely.Proxy.Routes.{build_config-routes, routes_of, in_order}
use panely.Proxy.Same.{contains-missing_hosts}
use panely.Deploy.World.{Env, World, Call, load}
use panely.Deploy.Reconcile.{ReconcileError, Plan, plan}
use panely.Deploy.Repair.{
  Repaired, build, kept_routes, keep_route, restore, repair_missing, repair_built, repair,
}
use panely.Deploy.Switch.{plan-trace}

module _ {W Addr : Type 0} (env : Env W) (netip : Netip Addr) (admin : Admin) where
  -- An address that `NewUpstream` has made.
  abbrev pub IsDialled : Upstream → Type 0
  IsDialled u = (ip : String) × (port : ℕ) × (new_upstream netip ip port ≡ ok u)

  prepend-IsDialled :
      (o : Option Upstream) (us : List Upstream)
      → ((u : Upstream) → o ≡ some u → IsDialled u)
      → All IsDialled us
      → All IsDialled (prepend netip o us)
  prepend-IsDialled none us f h = h
  prepend-IsDialled (some u) us f h = (f u refl, h)

  valid_dial-IsDialled :
      (dial : String) (u : Upstream) → valid_dial netip dial ≡ some u → IsDialled u
  valid_dial-IsDialled dial u e = elim (Option-cases (netip.parse_addr_port dial)) [
    | inl q ↦ absurd (ground arith)
    | inr ((addr, port), q) ↦ elim (Result-cases (new_upstream netip (netip.addr_text addr) port)) [
      | inr (x, z) ↦ absurd (ground arith)
      | inl (v, z) ↦ (netip.addr_text addr, port, ground arith)
    ]
  ]

  valid_dials-IsDialled : (ds : List String) → All IsDialled (valid_dials netip ds)
  unfolding valid_dials
  valid_dials-IsDialled [] = tt
  valid_dials-IsDialled (d ∷ ds) =
      prepend-IsDialled (valid_dial netip d) (valid_dials netip ds) (valid_dial-IsDialled d)
        (valid_dials-IsDialled ds)

  live_upstreams-IsDialled :
      (live : Option Config) (host : String) → All IsDialled (live_upstreams netip live host)
  unfolding live_upstreams
  live_upstreams-IsDialled live host =
      valid_dials-IsDialled (dials_of (lookup host (routes_by_host live)))

  -- A route that a repair may carry over.
  abbrev pub IsCarried : AppRoute → Type 0
  IsCarried r = (has_upstreams r ≡ true) × All IsDialled r.upstreams

  keep_route-IsCarried :
      (app_id domain : String) (us : List Upstream) (rest : List AppRoute)
      → All IsDialled us
      → All IsCarried rest
      → All IsCarried (keep_route env netip admin app_id domain us rest)
  keep_route-IsCarried app_id domain [] rest h k = k
  keep_route-IsCarried app_id domain (u ∷ us) rest h k = ((refl, h), k)

  -- A repair carries a live route over only with upstreams that `NewUpstream` accepts anew, and with one at least.
  pub kept_routes-IsCarried :
      (live : Config) (skipped : List (String × String))
      → All IsCarried (kept_routes env netip admin live skipped)
  unfolding kept_routes
  kept_routes-IsCarried live [] = tt
  kept_routes-IsCarried live ((app_id, domain) ∷ skipped) =
      keep_route-IsCarried app_id domain (live_upstreams netip (some live) domain)
        (kept_routes env netip admin live skipped) (live_upstreams-IsDialled (some live) domain)
        (kept_routes-IsCarried live skipped)

  -- Does the configuration wanted route this host, and the live one not?
  abbrev pub is_lost : Config → Config → String → Bool
  is_lost wanted live h =
      is_known_host (routes_by_host (some wanted)) h
      && not (is_known_host (routes_by_host (some live)) h)

  -- The options of a repair over these routes.
  abbrev pub repair_options : List AppRoute → BuildOptions
  repair_options routes = record { admin = admin; routes = routes; http_port = 0; https_port = 0 }

  -- Read in this world, the proxy was loaded once, because hosts planned were missing from the live configuration, with the
  -- routes planned and those carried over from it.
  pub record Restores (o : W) (before after : List Call) (r : Repaired) (p : Plan) : Type 0 where
    pub wanted : Config
    pub live : Config
    pub cfg : Config
    pub planned : build env netip admin p.routes ≡ ok wanted
    pub found : (env.current o).0 ≡ ok live
    pub once : after ≡ load cfg ∷ before
    pub lost : r.missing ≢ []
    pub exactly : (h : String) → contains r.missing h ≡ is_lost wanted live h
    pub routes :
        routes_of cfg
        ≡ map route_of (
            in_order netip
              (repair_options (p.routes ++ kept_routes env netip admin live p.skipped_domains)))

  restore-Restores :
      (p : Plan) (o : W) (cfg live : Config) (h : String) (hs : List String) (w : World W)
      → build env netip admin p.routes ≡ ok cfg
      → (env.current o).0 ≡ ok live
      → ((k : String) → contains (h ∷ hs) k ≡ is_lost cfg live k)
      → let (r, w') = restore env netip admin p live (h ∷ hs) w in
        (w'.trace ≡ w.trace) ⊎ Restores o w.trace w'.trace r.0 p
  unfolding restore
  restore-Restores p o wanted live h hs w b f m = elim (Result-cases (build env netip admin all)) [
    | inr (x, e) ↦ rw (e, restore) (inl refl)
    | inl (cfg, e) ↦
        rw (e, restore)
          (inr (record {
            wanted = wanted;
            live = live;
            cfg = cfg;
            planned = b;
            found = f;
            exactly = λ k. ground (arith, m k);
            once = ground arith;
            lost = ground arith;
            routes = build_config-routes netip (repair_options all) e;
          }))
  ]
    where
      all : List AppRoute
      all = p.routes ++ kept_routes env netip admin live p.skipped_domains

  repair_missing-Restores :
      (p : Plan) (o : W) (cfg live : Config) (hs : List String) (w : World W)
      → build env netip admin p.routes ≡ ok cfg
      → (env.current o).0 ≡ ok live
      → ((k : String) → contains hs k ≡ is_lost cfg live k)
      → let (r, w') = repair_missing env netip admin p cfg live hs w in
        (w'.trace ≡ w.trace) ⊎ Restores o w.trace w'.trace r.0 p
  unfolding repair_missing
  repair_missing-Restores p o cfg live [] w b f m = inl refl
  repair_missing-Restores p o cfg live (h ∷ hs) w b f m = restore-Restores p o cfg live h hs w b f m

  repair_built-Restores :
      (p : Plan) (cfg : Config) (w : World W)
      → build env netip admin p.routes ≡ ok cfg
      → let (r, w') = repair_built env netip admin p cfg w in
        (w'.trace ≡ w.trace) ⊎ Restores w.outside w.trace w'.trace r.0 p
  unfolding repair_built
  repair_built-Restores p cfg w b = elim (Result-cases read.0) [
    | inr (x, e) ↦ rw (e, repair_built) (inl refl)
    | inl (live, e) ↦
        rw (e, repair_built)
          (repair_missing-Restores p w.outside cfg live (missing_hosts (some cfg) (some live))
            (record w { outside = read.1 }) b e (contains-missing_hosts (some cfg) (some live)))
  ]
    where
      read : Result String Config × W
      read = env.current w.outside

  -- A repair makes no call that changes anything, or it loads the proxy once. Then the hosts that it reports missing, of which there
  -- is one at least, are exactly those that the configuration built from the plan routes and the live
  -- one, as read after the plan, does not; and the loaded one serves exactly the routes with
  -- a domain among those of the plan and those carried over from that live one for skipped apps.
  pub repair-Restores :
      (w : World W)
      → let (r, w') = repair env netip admin w in
        let (q, w1) = plan netip env admin w in
        (w'.trace ≡ w.trace)
        ⊎ ((p : Plan) × (q ≡ ok p) × Restores w1.outside w.trace w'.trace r.0 p)
  unfolding repair
  repair-Restores w = elim (Result-cases planned.0) [
    | inr (x, e) ↦ rw (e, repair) (inl same)
    | inl (p, e) ↦ elim (Result-cases (build env netip admin p.routes)) [
      | inr (x, q) ↦ rw (e, q, repair) (inl same)
      | inl (cfg, q) ↦
          rw (e, q, repair)
            (elim (repair_built-Restores p cfg planned.1 q) [
              | inl k ↦ inl (k ∙ same)
              | inr k ↦ inr (p, refl, rw same at k)
            ])
    ]
  ]
    where
      planned : Result ReconcileError Plan × World W
      planned = plan netip env admin w

      same : planned.1.trace ≡ w.trace
      same = plan-trace env netip admin w
