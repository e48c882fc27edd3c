-- ===== src/Deploy/Steps.antt =====
-- The replicas of internal/deploy/rollout.go along the protocol: all before the switch.
use panely.Kit.{
  ◌||◌, ℕ, zero, suc, ◌+◌, ◌≡◌, ◌≤◌, ◌<◌, String, Bool, false, not, Option, none, List, [], ◌∷◌,
  ltb, ◌=ₛ◌, if◌then◌else◌, arith, eq_iff, Bool-cases, Option-cases, inl, inr, Result-cases,
}
use panely.Records.{App, Release, Replica}
use panely.Deploy.World.{Env, World, do_call, start_replica, stop_replica}
use panely.Deploy.Replicas.{
  create_one, create_from, ensure_from, stop_extra, ensure_replicas, is_present, replica_options,
}
use panely.Deploy.Protocol.{preparing, At}

module _ {W : Type 0} (env : Env W) where
  module _ (app : App) (rel : Release) (window : ℕ) where
    -- The trace of a world is still before the switch.
    abbrev pub Before : World W → Type 0
    Before w = At app rel.id window preparing w.trace

    created :
        (i : ℕ) (w : World W) → i < app.replicas → Before w → Before (create_one env app rel i w).1
    unfolding create_one replica_options
    created i w lt h = ground (arith, eq_iff app.id app.id, eq_iff rel.id rel.id)

    started :
        (i : ℕ) (w : World W)
        → i < app.replicas
        → Before w
        → Before (do_call env (start_replica app.id rel.id i) w).1
    started i w lt h = ground (arith, eq_iff app.id app.id, eq_iff rel.id rel.id)

    pub create_from-Before :
        (n i : ℕ) (w : World W)
        → i + n ≤ app.replicas
        → Before w
        → Before (create_from env app rel n i w).1
    unfolding create_from
    create_from-Before zero i w le h = h
    create_from-Before (suc n) i w le h = elim (Option-cases made.0) [
      | inr (x, e) ↦ rw (e, create_from) (created i w (omega arith) h)
      | inl e ↦
          rw (e, create_from)
            (elim (Option-cases begun.0) [
              | inr (x, q) ↦ rw (q, create_from) up
              | inl q ↦ rw (q, create_from) (create_from-Before n (i + 1) begun.1 (omega arith) up)
            ])
    ]
      where
        made : Option String × World W
        made = create_one env app rel i w

        begun : Option String × World W
        begun = do_call env (start_replica app.id rel.id i) made.1

        up : Before begun.1
        up = started i made.1 (omega arith) (created i w (omega arith) h)

    pub stop_extra-Before :
        (reps : List Replica) (w : World W) → Before w → Before (stop_extra env app rel reps w).1
    unfolding stop_extra
    stop_extra-Before [] w h = h
    stop_extra-Before (rep ∷ reps) w h =
        elim (Bool-cases (not (rep.release_id =ₛ rel.id) || ltb rep.index app.replicas)) [
          | inl e ↦ rw e (stop_extra-Before reps w h)
          | inr e ↦ rw e (elim (Option-cases stopped.0) [
            | inr (x, q) ↦ rw q (still e)
            | inl q ↦ rw q (stop_extra-Before reps stopped.1 (still e))
          ])
        ]
      where
        stopped : Option String × World W
        stopped = do_call env (stop_replica app.id rep.release_id rep.index) w

        still :
            (not (rep.release_id =ₛ rel.id) || ltb rep.index app.replicas) ≡ false
            → Before stopped.1
        still e = ground (arith, eq_iff app.id app.id)

    -- The missing replica of one round, if any.
    made_up : List Replica → ℕ → World W → Option String × World W
    made_up reps i w =
        if not (is_present rel.id i reps) then create_one env app rel i w else (none, w)

    made_up-Before :
        (reps : List Replica) (i : ℕ) (w : World W)
        → i < app.replicas
        → Before w
        → Before (made_up reps i w).1
    unfolding made_up
    made_up-Before reps i w lt h = elim (Bool-cases (is_present rel.id i reps)) [
      | inl e ↦ rw e h
      | inr e ↦ rw e (created i w lt h)
    ]

    pub ensure_from-Before :
        (reps : List Replica) (n i : ℕ) (recreated : Bool) (w : World W)
        → i + n ≤ app.replicas
        → Before w
        → Before (ensure_from env app rel reps n i recreated w).1
    unfolding ensure_from made_up
    ensure_from-Before reps zero i recreated w le h = h
    ensure_from-Before reps (suc n) i recreated w le h = elim (Option-cases made.0) [
      | inr (x, e) ↦ rw (e, ensure_from) made_ok
      | inl e ↦
          rw (e, ensure_from)
            (elim (Option-cases begun.0) [
              | inr (x, q) ↦ rw (q, ensure_from) up
              | inl q ↦
                  rw (q, ensure_from)
                    (ensure_from-Before reps n (i + 1) (recreated || not (is_present rel.id i reps))
                      begun.1 (omega arith) up)
            ])
    ]
      where
        made : Option String × World W
        made = made_up reps i w

        made_ok : Before made.1
        made_ok = made_up-Before reps i w (omega arith) h

        begun : Option String × World W
        begun = do_call env (start_replica app.id rel.id i) made.1

        up : Before begun.1
        up = started i made.1 (omega arith) made_ok

    pub ensure_replicas-Before : (w : World W) → Before w → Before (ensure_replicas env app rel w).1
    unfolding ensure_replicas
    ensure_replicas-Before w h = elim (Result-cases (env.list_replicas app.id w.outside).0) [
      | inr (x, e) ↦ rw (e, ensure_replicas) h
      | inl (rs, e) ↦
          rw (e, ensure_replicas)
            (elim (Option-cases (first rs).0.1) [
              | inr (x, q) ↦ rw (q, ensure_replicas) (up rs)
              | inl q ↦ rw (q, ensure_replicas) (stop_extra-Before rs (first rs).1 (up rs))
            ])
    ]
      where
        w1 : World W
        w1 = record w { outside = (env.list_replicas app.id w.outside).1 }

        first : List Replica → (Bool × Option String) × World W
        first rs = ensure_from env app rel rs app.replicas 0 false w1

        up : (rs : List Replica) → Before (first rs).1
        up rs = ensure_from-Before rs app.replicas 0 false w1 (omega arith) h
