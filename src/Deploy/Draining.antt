-- ===== src/Deploy/Draining.antt =====
-- The draining of internal/deploy/rollout.go along the protocol: only other releases are stopped.
use panely.Kit.{
  ℕ, ◌≡◌, ◌≢◌, ◌⊎◌, refl, String, Option, List, [], ◌∷◌, ◌=ₛ◌, arith, eq_iff, ne→str_eq, Bool-cases,
  Option-cases, inl, inr, Result-cases, All, contains,
}
use panely.Kit.Sort.{sort_by-All}
use panely.Records.{App, Release, Replica}
use panely.Deploy.World.{Env, World, do_call, sleep, stop_release}
use panely.Deploy.Replicas.{stale_from, stale_releases}
use panely.Deploy.Rollout.{stop_all, drain_listed, drain_stale}
use panely.Deploy.Protocol.{Phase, loaded, drained, At}

-- What may be stopped: another release, with a name.
abbrev pub IsStale : String → String → Type 0
IsStale active r = (r ≢ active) × (r ≢ "")

stale_from-IsStale :
    (active : String) (seen : List String) (reps : List Replica)
    → All (IsStale active) (stale_from active seen reps)
unfolding stale_from
stale_from-IsStale active seen [] = tt
stale_from-IsStale active seen (rep ∷ reps) = elim (Bool-cases (rep.release_id =ₛ active)) [
  | inl a ↦ rw a (stale_from-IsStale active seen reps)
  | inr a ↦ rw a (elim (Bool-cases (rep.release_id =ₛ "")) [
    | inl b ↦ rw b (stale_from-IsStale active seen reps)
    | inr b ↦ rw b (elim (Bool-cases (contains seen rep.release_id)) [
      | inl c ↦ rw c (stale_from-IsStale active seen reps)
      | inr c ↦ rw c (
        (ground (arith, eq_iff rep.release_id active), ground (arith, eq_iff rep.release_id "")),
        stale_from-IsStale active (rep.release_id ∷ seen) reps,
      )
    ])
  ])
]

pub stale_releases-IsStale :
    (active : String) (reps : List Replica) → All (IsStale active) (stale_releases active reps)
unfolding stale_releases
stale_releases-IsStale active reps =
    sort_by-All (λ s. s) (IsStale active) (stale_from active [] reps)
      (stale_from-IsStale active [] reps)

module _ {W : Type 0} (env : Env W) where
  module _ (app : App) (rel : Release) (window : ℕ) where
    stop_all-drained :
        (ids : List String) (w : World W)
        → All (IsStale rel.id) ids
        → At app rel.id window drained w.trace
        → At app rel.id window drained (stop_all env app.id ids w).1.trace
    unfolding stop_all
    stop_all-drained [] w s h = h
    stop_all-drained (id ∷ ids) w s h = ground (
      arith,
      stop_all-drained ids (do_call env (stop_release app.id id) w).1 s.1
          (ground (arith, s.0, h, eq_iff app.id app.id, ne→str_eq id rel.id, ne→str_eq id "")),
    )

    -- A drain stops nothing, or waits and then stops stale releases only.
    pub drain_listed-drained :
        (ids : List String) (w : World W)
        → All (IsStale rel.id) ids
        → At app rel.id window loaded w.trace
        → (p : Phase) × At app rel.id window p (drain_listed env window app.id ids w).1.trace
          × ((p ≡ loaded) ⊎ (p ≡ drained))
    unfolding drain_listed
    drain_listed-drained [] w s h = (loaded, h, inl refl)
    drain_listed-drained (id ∷ ids) w s h = elim (Option-cases waited.0) [
      | inr (x, e) ↦ (drained, rw (e, drain_listed) over, inr refl)
      | inl e ↦
          (drained, rw (e, drain_listed) (stop_all-drained (id ∷ ids) waited.1 s over), inr refl)
    ]
      where
        waited : Option String × World W
        waited = do_call env (sleep window) w

        over : At app rel.id window drained waited.1.trace
        over = ground (arith, h)

    pub drain_stale-drained :
        (w : World W)
        → At app rel.id window loaded w.trace
        → (p : Phase) × At app rel.id window p (drain_stale env window app.id rel.id w).1.trace
          × ((p ≡ loaded) ⊎ (p ≡ drained))
    unfolding drain_stale
    drain_stale-drained w h = elim (Result-cases (env.list_replicas app.id w.outside).0) [
      | inr (x, e) ↦ (loaded, rw (e, drain_stale) h, inl refl)
      | inl (rs, e) ↦
          rw (e, drain_stale)
            (drain_listed-drained (stale_releases rel.id rs)
              (record w { outside = (env.list_replicas app.id w.outside).1 })
              (stale_releases-IsStale rel.id rs) h)
    ]
