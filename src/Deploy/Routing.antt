-- ===== src/Deploy/Routing.antt =====
-- What `upstreamsFor` of internal/deploy/reconcile.go routes to.
use panely.Kit.{
  ◌∙◌, sym, ℕ, ◌+◌, ◌≡◌, ◌≢◌, ◌↔◌, refl, Bool, true, false, not, ◌&&◌, List, [], ◌∷◌, ◌=ₛ◌, leb,
  ◌==◌, arith, if◌then◌else◌, Bool-cases, inl, inr, Result, Result-cases, ok, err, length, map,
}
use panely.Records.{Deployment, Replica, is_routable}
use panely.Proxy.Config.{Netip, Upstream, new_upstream, ConfigError}
use panely.Deploy.Reconcile.{
  Why, bad_address, Tally, tally, by_index, upstreams_from, count_not_mine, count_not_up,
  count_extra, add_upstream, require_some,
}

-- A replica that takes traffic of the deployment: of its release, up, and within the wanted number.
abbrev pub serves : Deployment → Replica → Bool
serves d rep = rep.release_id =ₛ d.release_id && is_routable rep && not (leb d.replicas rep.index)

-- The replicas that take traffic, in the order of the listing.
abbrev pub serving : Deployment → List Replica → List Replica
serving d [] = []
serving d (rep ∷ reps) = if serves d rep then rep ∷ serving d reps else serving d reps

-- Addresses that are all there.
abbrev pub oks : List Upstream → List (Result ConfigError Upstream)
oks [] = []
oks (u ∷ us) = ok u ∷ oks us

not_oks :
    (x : ConfigError) (rs : List (Result ConfigError Upstream)) (us : List Upstream)
    → oks us ≢ err x ∷ rs
not_oks x rs [] p = cc
not_oks x rs (u ∷ us) p = cc

oks-tail :
    (r : Result ConfigError Upstream) (rs : List (Result ConfigError Upstream)) (us : List Upstream)
    → oks us ≡ r ∷ rs
    → (vs : List Upstream) × (oks vs ≡ rs)
oks-tail r rs [] p = absurd cc
oks-tail r rs (u ∷ us) p = (us, cc)

oks-inj : (us vs : List Upstream) → oks us ≡ oks vs → us ≡ vs
oks-inj [] [] p = refl
oks-inj [] (v ∷ vs) p = absurd cc
oks-inj (u ∷ us) [] p = absurd cc
oks-inj (u ∷ us) (v ∷ vs) p = cc (oks-inj us vs cc)

module _ {Addr : Type 0} (netip : Netip Addr) where
  -- The address of each replica that takes traffic, or why it is none.
  abbrev pub dials : Deployment → List Replica → List (Result ConfigError Upstream)
  dials d reps =
      map (λ (rep : Replica). new_upstream netip rep.ip_address d.container_port) (serving d reps)

  -- A tally that fits a listing: the upstreams are its dials, and each replica is counted once.
  abbrev Fits : Deployment → List Replica → Result Why Tally → Type 0
  Fits d reps (err why) = (us : List Upstream) → oks us ≢ dials d reps
  Fits d reps (ok t) =
      (oks t.ups ≡ dials d reps) × (length t.ups + t.not_mine + t.not_up + t.extra ≡ length reps)

  count_not_mine-Fits :
      (d : Deployment) (rep : Replica) (reps : List Replica) (r : Result Why Tally)
      → serves d rep ≡ false
      → Fits d reps r
      → Fits d (rep ∷ reps) (count_not_mine netip r)
  count_not_mine-Fits d rep reps (err why) e h = rw e h
  count_not_mine-Fits d rep reps (ok t) e h = rw e (h.0, omega (arith, h.1))

  count_not_up-Fits :
      (d : Deployment) (rep : Replica) (reps : List Replica) (r : Result Why Tally)
      → serves d rep ≡ false
      → Fits d reps r
      → Fits d (rep ∷ reps) (count_not_up netip r)
  count_not_up-Fits d rep reps (err why) e h = rw e h
  count_not_up-Fits d rep reps (ok t) e h = rw e (h.0, omega (arith, h.1))

  count_extra-Fits :
      (d : Deployment) (rep : Replica) (reps : List Replica) (r : Result Why Tally)
      → serves d rep ≡ false
      → Fits d reps r
      → Fits d (rep ∷ reps) (count_extra netip r)
  count_extra-Fits d rep reps (err why) e h = rw e h
  count_extra-Fits d rep reps (ok t) e h = rw e (h.0, omega (arith, h.1))

  add_upstream-Fits :
      (d : Deployment) (rep : Replica) (reps : List Replica) (u : Upstream) (r : Result Why Tally)
      → serves d rep ≡ true
      → new_upstream netip rep.ip_address d.container_port ≡ ok u
      → Fits d reps r
      → Fits d (rep ∷ reps) (add_upstream netip u r)
  add_upstream-Fits d rep reps u (err why) e q h = rw e (λ us p.
      let (vs, k) =
        oks-tail (new_upstream netip rep.ip_address d.container_port) (dials d reps) us p in
      h vs k)
  add_upstream-Fits d rep reps u (ok t) e q h = rw e (cc (h.0, q), omega (arith, h.1))

  not_dialled :
      (d : Deployment) (rep : Replica) (reps : List Replica) (x : ConfigError)
      → serves d rep ≡ true
      → new_upstream netip rep.ip_address d.container_port ≡ err x
      → Fits d (rep ∷ reps) (err (bad_address rep.index x))
  not_dialled d rep reps x e q us p = not_oks x (dials d reps) us (ground arith)

  tally-Fits : (d : Deployment) (reps : List Replica) → Fits d reps (tally netip d reps)
  unfolding tally
  tally-Fits d [] = (refl, refl)
  tally-Fits d (rep ∷ reps) = elim (Bool-cases (rep.release_id =ₛ d.release_id)) [
    | inr a ↦ rw a (count_not_mine-Fits d rep reps rest (ground arith) (tally-Fits d reps))
    | inl a ↦ elim (Bool-cases (is_routable rep)) [
      | inr b ↦ rw (a, b) (count_not_up-Fits d rep reps rest (ground arith) (tally-Fits d reps))
      | inl b ↦ elim (Bool-cases (leb d.replicas rep.index)) [
        | inl c ↦ rw (a, b, c) (count_extra-Fits d rep reps rest (ground arith) (tally-Fits d reps))
        | inr c ↦ elim (Result-cases (new_upstream netip rep.ip_address d.container_port)) [
          | inr (x, q) ↦ rw (a, b, c, q) (not_dialled d rep reps x (ground arith) q)
          | inl (u, q) ↦
              rw (a, b, c, q)
                (add_upstream-Fits d rep reps u rest (ground arith) q (tally-Fits d reps))
        ]
      ]
    ]
  ]
    where
      rest : Result Why Tally
      rest = tally netip d reps

  require_some-back :
      (d : Deployment) (n : ℕ) (t : Tally) (u : Upstream) (us : List Upstream)
      → t.ups ≡ u ∷ us
      → require_some netip d n (ok t) ≡ ok (u ∷ us)
  require_some-back d n t u us e = rw e refl

  require_some-ok :
      (d : Deployment) (n : ℕ) (t : Tally) (xs ups : List Upstream)
      → t.ups ≡ xs
      → require_some netip d n (ok t) ≡ ok ups
      → (ups ≢ []) × (ups ≡ t.ups)
  require_some-ok d n t [] ups e p = absurd (ground arith)
  require_some-ok d n t (x ∷ xs) [] e p = absurd (ground arith)
  require_some-ok d n t (x ∷ xs) (u ∷ us) e p = (λ q. cc, ground arith)

  -- `upstreamsFor` succeeds exactly if replicas are wanted, at least one replica of the active release is up within
  -- the wanted number, and each of those has an address that can be dialled; its upstreams
  -- are then those addresses, in the order of the indexes.
  pub upstreams_from-dials :
      (d : Deployment) (reps : List Replica) (ups : List Upstream)
      → (upstreams_from netip d (ok reps) ≡ ok ups)
        ↔ ((d.replicas ≢ 0) × (ups ≢ []) × (oks ups ≡ dials d (by_index reps)))
  unfolding upstreams_from
  upstreams_from-dials d reps ups = elim (Result-cases (tally netip d (by_index reps))) [
    | inr (why, e) ↦ (λ p. absurd (ground arith), λ (n, ne, p). absurd ((rw e at fits) ups p))
    | inl (t, e) ↦
        let all : (oks t.ups ≡ dials d (by_index reps))
            × (length t.ups + t.not_mine + t.not_up + t.extra ≡ length (by_index reps)) =
          rw e at fits in
        (λ p. over t e all.0 p, λ (n, ne, p). back t e n ne (oks-inj ups t.ups (p ∙ sym all.0)))
  ]
    where
      fits : Fits d (by_index reps) (tally netip d (by_index reps))
      fits = tally-Fits d (by_index reps)

      over :
          (t : Tally)
          → tally netip d (by_index reps) ≡ ok t
          → oks t.ups ≡ dials d (by_index reps)
          → upstreams_from netip d (ok reps) ≡ ok ups
          → (d.replicas ≢ 0) × (ups ≢ []) × (oks ups ≡ dials d (by_index reps))
      over t e all p = elim (Bool-cases (d.replicas == 0)) [
        | inl z ↦ absurd (ground arith)
        | inr z ↦
            let (ne, same) = require_some-ok d (length reps) t t.ups ups refl (rw (z, e) at p) in
            (ground arith, ne, rw same all)
      ]

      back :
          (t : Tally)
          → tally netip d (by_index reps) ≡ ok t
          → d.replicas ≢ 0
          → ups ≢ []
          → ups ≡ t.ups
          → upstreams_from netip d (ok reps) ≡ ok ups
      back t e n ne same = elim (Bool-cases (d.replicas == 0)) [
        | inl z ↦ absurd (ground arith)
        | inr z ↦ rw (z, e) (full t.ups ups refl same ne)
      ]
        where
          full :
              (xs us : List Upstream)
              → t.ups ≡ xs
              → us ≡ xs
              → us ≢ []
              → require_some netip d (length reps) (ok t) ≡ ok us
          full xs [] q k ne = absurd (ne refl)
          full xs (u ∷ us) q k ne = require_some-back d (length reps) t u us (q ∙ sym k)
