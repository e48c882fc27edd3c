-- ===== src/Deploy/Replicas.antt =====
-- internal/deploy/rollout.go: how the replicas of a release are counted, made to run and stopped.
use panely.Kit.{
  ℕ, zero, suc, ◌+◌, String, Bool, false, Option, none, some, List, [], ◌∷◌, ◌++◌, ltb, leb, ◌==◌,
  ◌=ₛ◌, ◌||◌, ◌&&◌, if◌then◌else◌, not, ok, err, contains,
}
use panely.Kit.Sort.{sort_by}
use panely.Records.{
  App, Release, Replica, StoredVolume, VolumeMount, CreateReplicaOptions, ContainerState,
  is_routable,
}
use panely.Deploy.World.{
  Env, Run, create_replica, start_replica, stop_replica, do_call, listing, probing,
}

-- Why fewer replicas than wanted are ready.
pub data Reason : Type 0 where
  no_listing : String → Reason
  no_answer : List (ℕ × String) → Reason
  in_states : List ContainerState → Reason
  none_seen : Reason

pub record Ready : Type 0 where
  pub ready : ℕ
  pub states : List ContainerState
  pub unwell : List (ℕ × String)

-- The `switch` at the end of `readyCount`.
abbrev pub reason_of : List (ℕ × String) → List ContainerState → Reason
reason_of (u ∷ us) states = no_answer (u ∷ us)
reason_of [] (c ∷ cs) = in_states (c ∷ cs)
reason_of [] [] = none_seen

-- `replicaVolumes`.
unfoldable pub replica_volumes : List StoredVolume → List VolumeMount
replica_volumes [] = []
replica_volumes (v ∷ vs) =
    record { volume_name = v.name; mount_path = v.mount_path; read_only = v.read_only }
    ∷ replica_volumes vs

-- The options of `createReplica`; `copyEnv` gives an equal map.
unfoldable pub replica_options : App → Release → ℕ → CreateReplicaOptions
unfolding replica_volumes
replica_options app rel index = record {
  app_id = app.id;
  release_id = rel.id;
  index = index;
  commit_sha = rel.commit_sha;
  env = app.env;
  container_port = app.container_port;
  limits = record {
    memory_bytes = app.memory_bytes;
    cpu_millis = app.cpu_millis;
    blkio_weight = app.blkio_weight;
  };
  volumes = replica_volumes app.volumes;
}

-- The indexes of the listed replicas of a release: the set `present`.
abbrev pub is_present : String → ℕ → List Replica → Bool
is_present release_id i [] = false
is_present release_id i (rep ∷ reps) =
    rep.release_id =ₛ release_id && rep.index == i || is_present release_id i reps

-- The loop of `staleReleases`, with the set `seen`.
unfoldable pub stale_from : String → List String → List Replica → List String
stale_from active seen [] = []
stale_from active seen (rep ∷ reps) =
    let skip = stale_from active seen reps in
    let more = stale_from active (rep.release_id ∷ seen) reps in
    if rep.release_id =ₛ active || rep.release_id =ₛ ""
    then skip
    else if contains seen rep.release_id
    then skip
    else rep.release_id ∷ more

-- `staleReleases` on the listing.
unfoldable pub stale_releases : String → List Replica → List String
unfolding stale_from
stale_releases active reps = sort_by (λ s. s) (stale_from active [] reps)

module _ {W : Type 0} (env : Env W) where
  -- One round of the loop of `readyCount`.
  unfoldable pub measure_one : App → String → Replica → Ready → Run W Ready
  measure_one app release_id rep t w =
      if not (rep.release_id =ₛ release_id)
      then (t, w)
      else if leb app.replicas rep.index
      then (t, w)
      else if not (is_routable rep)
      then (record t { states = rep.state ∷ t.states }, w)
      else if app.health_path =ₛ ""
      then (record t { ready = t.ready + 1 }, w)
      else (let (e, w1) = probing env rep.ip_address app.container_port app.health_path w in
          elim e [
            | some why ↦ (record t { unwell = t.unwell ++ (rep.index, why) ∷ [] }, w1)
            | none ↦ (record t { ready = t.ready + 1 }, w1)
          ])

  unfoldable pub measure_all : App → String → List Replica → Ready → Run W Ready
  unfolding measure_one
  measure_all app release_id [] t w = (t, w)
  measure_all app release_id (rep ∷ reps) t w =
      let (t', w') = measure_one app release_id rep t w in measure_all app release_id reps t' w'

  abbrev pub nothing_ready : Ready
  nothing_ready = record { ready = 0; states = []; unwell = [] }

  -- `readyCount`.
  unfoldable pub ready_count : App → String → Run W (ℕ × Reason)
  unfolding measure_all
  ready_count app release_id w =
      let (reps, w1) = listing env app.id w in
      elim reps [
        | err e ↦ ((0, no_listing e), w1)
        | ok rs ↦
            let (t, w2) = measure_all app release_id rs nothing_ready w1 in
            ((t.ready, reason_of t.unwell t.states), w2)
      ]

  -- `createReplica`.
  unfoldable pub create_one : App → Release → ℕ → Run W (Option String)
  unfolding replica_options
  create_one app rel i w = do_call env (create_replica (replica_options app rel i)) w

  -- The first loop of `ensureReplicas` from index `i`, with the rounds left: whether a replica was
  -- created, and the error that ended it.
  unfoldable pub ensure_from :
      App → Release → List Replica → ℕ → ℕ → Bool → Run W (Bool × Option String)
  unfolding create_one
  ensure_from app rel reps zero i recreated w = ((recreated, none), w)
  ensure_from app rel reps (suc n) i recreated w =
      let missing = not (is_present rel.id i reps) in
      let (c, w1) = if missing then create_one app rel i w else (none, w) in
      elim c [
        | some e ↦ ((recreated, some e), w1)
        | none ↦
            let (s, w2) = do_call env (start_replica app.id rel.id i) w1 in
            elim s [
              | some e ↦ ((recreated || missing, some e), w2)
              | none ↦ ensure_from app rel reps n (i + 1) (recreated || missing) w2
            ]
      ]

  -- The second loop of `ensureReplicas`: replicas past the wanted number are stopped.
  unfoldable pub stop_extra : App → Release → List Replica → Run W (Option String)
  stop_extra app rel [] w = (none, w)
  stop_extra app rel (rep ∷ reps) w =
      if not (rep.release_id =ₛ rel.id) || ltb rep.index app.replicas
      then stop_extra app rel reps w
      else (let (e, w1) = do_call env (stop_replica app.id rep.release_id rep.index) w in
          elim e [ some why ↦ (some why, w1) | none ↦ stop_extra app rel reps w1 ])

  -- `ensureReplicas`: whether a replica was created, and the error.
  unfoldable pub ensure_replicas : App → Release → Run W (Bool × Option String)
  unfolding ensure_from stop_extra
  ensure_replicas app rel w =
      let (reps, w1) = listing env app.id w in
      elim reps [
        | err e ↦ ((false, some e), w1)
        | ok rs ↦
            let ((recreated, e), w2) = ensure_from app rel rs app.replicas 0 false w1 in
            elim e [
              | some why ↦ ((recreated, some why), w2)
              | none ↦ let (e', w3) = stop_extra app rel rs w2 in ((recreated, e'), w3)
            ]
      ]

  -- The loop of `Run`: every replica is created and started.
  unfoldable pub create_from : App → Release → ℕ → ℕ → Run W (Option String)
  unfolding create_one
  create_from app rel zero i w = (none, w)
  create_from app rel (suc n) i w =
      let (c, w1) = create_one app rel i w in
      elim c [
        | some e ↦ (some e, w1)
        | none ↦
            let (s, w2) = do_call env (start_replica app.id rel.id i) w1 in
            elim s [ some e ↦ (some e, w2) | none ↦ create_from app rel n (i + 1) w2 ]
      ]
