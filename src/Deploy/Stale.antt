-- ===== src/Deploy/Stale.antt =====
-- What `staleReleases` of internal/deploy/rollout.go lists.
use panely.Kit.{
  ◌≡◌, refl, String, Bool, false, not, ◌&&◌, ◌||◌, List, [], ◌∷◌, ◌=ₛ◌, arith, eq_iff, contains,
  Distinct, Bool-cases, inl, inr,
}
use panely.Kit.Sorted.{contains-sort_by, sort_by-Distinct}
use panely.Records.{Replica}
use panely.Deploy.Replicas.{stale_from, stale_releases}

-- Does some replica of the listing belong to the release?
abbrev pub is_listed : String → List Replica → Bool
is_listed r [] = false
is_listed r (rep ∷ reps) = rep.release_id =ₛ r || is_listed r reps

contains-stale_from :
    (active : String) (seen : List String) (reps : List Replica) (r : String)
    → contains (stale_from active seen reps) r
      ≡ (is_listed r reps && not (r =ₛ active) && not (r =ₛ "") && not (contains seen r))
unfolding stale_from
contains-stale_from active seen [] r = refl
contains-stale_from active seen (rep ∷ reps) r =
    elim (Bool-cases (rep.release_id =ₛ active || rep.release_id =ₛ "")) [
      | inl e ↦
          rw e (ground (arith, contains-stale_from active seen reps r, eq_iff rep.release_id r))
      | inr e ↦ rw e (elim (Bool-cases (contains seen rep.release_id)) [
        | inl c ↦
            rw c (ground (arith, contains-stale_from active seen reps r, eq_iff rep.release_id r))
        | inr c ↦ rw c (
            ground (
              arith,
              contains-stale_from active (rep.release_id ∷ seen) reps r,
              eq_iff rep.release_id r,
            ))
      ])
    ]

stale_from-Distinct :
    (active : String) (seen : List String) (reps : List Replica)
    → Distinct (stale_from active seen reps)
unfolding stale_from
stale_from-Distinct active seen [] = tt
stale_from-Distinct active seen (rep ∷ reps) =
    elim (Bool-cases (rep.release_id =ₛ active || rep.release_id =ₛ "")) [
      | inl e ↦ rw e (stale_from-Distinct active seen reps)
      | inr e ↦ rw e (elim (Bool-cases (contains seen rep.release_id)) [
        | inl c ↦ rw c (stale_from-Distinct active seen reps)
        | inr c ↦ rw c (
          ground (
            arith,
            contains-stale_from active (rep.release_id ∷ seen) reps rep.release_id,
            eq_iff rep.release_id rep.release_id,
          ),
          stale_from-Distinct active (rep.release_id ∷ seen) reps,
        )
      ])
    ]

-- A release is stale exactly if a replica of it is listed, it is not the active one and it has a name;
-- and none is listed twice.
pub stale_releases-Distinct :
    (active : String) (reps : List Replica)
    → Distinct (stale_releases active reps)
      × ((r : String)
          → contains (stale_releases active reps) r
            ≡ (is_listed r reps && not (r =ₛ active) && not (r =ₛ "")))
unfolding stale_releases
stale_releases-Distinct active reps = (
  sort_by-Distinct (stale_from active [] reps) (stale_from-Distinct active [] reps),
  λ r.
      ground (
        arith,
        contains-sort_by r (stale_from active [] reps),
        contains-stale_from active [] reps r,
      ),
)
