-- ===== src/Admit/Agree.antt =====
-- The checks of internal/api and those of internal/exec on the same values, one check at a time.
use panely.Kit.{
  ℕ, suc, ◌+◌, ◌≤◌, String, true, ◌≡◌, refl, Option, none, some, List, [], ◌∷◌, ◌++◌, arith, length,
  ap,
}
use panely.Records.{VolumeMount}
use panely.Deploy.Replicas.{replica_volumes}
use panely.Api.Deploying.{valid_commit_sha}
use panely.Admit.Checks.{Fault}
use panely.Admit.Patterns.{bytes}
use panely.Admit.Volumes.{AppVolume}
use panely.Admit.Volumes
use panely.Admit.Spec.{volumes_from_proto, stored_of}
use panely.Admit.Spec
use panely.Admit.Create.{volume_messages, match_commit_sha}
use panely.Admit.Create
use panely.Admit.Source

pub check_env-agree :
    (s t : ℕ) (es : List (String × String))
    → t ≤ s
    → Spec.check_env s es ≡ none
    → Create.check_env t es ≡ none
unfolding Spec.check_env Create.check_env
check_env-agree s t [] le h = ground arith
check_env-agree s t (e ∷ es) le h =
    let m = bytes e.0 + bytes e.1 in
    ground (arith, check_env-agree (s + (m + 1)) (t + m) es (omega arith))

pub validate_env-agree :
    (es : List (String × String)) → Spec.validate_env es ≡ none → Create.validate_env es ≡ none
unfolding Spec.validate_env Create.validate_env
validate_env-agree es h = ground (arith, check_env-agree 0 0 es (omega arith))

pub validate_mount_path-agree :
    (p : String) → Volumes.validate_mount_path p ≡ Create.validate_mount_path p
unfolding Volumes.validate_mount_path Create.validate_mount_path
validate_mount_path-agree p = refl

pub overlap_any-agree :
    (seen : List String) (p : String) → Volumes.overlap_any seen p ≡ Create.overlap_any seen p
unfolding Volumes.overlap_any Create.overlap_any Volumes.path_overlaps Create.path_overlaps
overlap_any-agree [] p = refl
overlap_any-agree (prev ∷ seen) p = rw (overlap_any-agree seen p)

in_volume-none : (name : String) (f : Option Fault) → Volumes.in_volume name f ≡ none → f ≡ none
in_volume-none name none e = refl
in_volume-none name (some x) e = absurd cc

-- The volumes that an app is stored with, as they reach the executor.
abbrev pub sent : List (Option AppVolume) → List (Option VolumeMount)
sent vols = volume_messages (replica_volumes (volumes_from_proto vols))

pub check_volumes-agree :
    (names seen : List String) (i j : ℕ) (vols : List (Option AppVolume))
    → Volumes.check_volumes names seen i vols ≡ none
    → Create.check_volumes seen j (sent vols) ≡ none
unfolding Volumes.check_volumes Create.check_volumes volume_messages replica_volumes
    volumes_from_proto
check_volumes-agree names seen i j [] h = refl
check_volumes-agree names seen i j (none ∷ vols) h = absurd cc
check_volumes-agree names seen i j (some v ∷ vols) h =
    let names' = v.name ∷ names in
    let seen' = seen ++ v.mount_path ∷ [] in
    ground (
      arith,
      validate_mount_path-agree v.mount_path,
      overlap_any-agree seen v.mount_path,
      in_volume-none v.name (Volumes.validate_mount_path v.mount_path),
      check_volumes-agree names' seen' (suc i) (suc j) vols,
    )

length-sent : (vols : List (Option AppVolume)) → length (sent vols) ≡ length vols
unfolding volume_messages replica_volumes volumes_from_proto
length-sent [] = refl
length-sent (v ∷ vols) = ap suc (length-sent vols)

pub validate_volumes-agree :
    (vols : List (Option AppVolume))
    → Volumes.validate_volumes vols ≡ none
    → Create.validate_volumes (sent vols) ≡ none
unfolding Volumes.validate_volumes Create.validate_volumes
validate_volumes-agree vols h = ground (arith, length-sent vols, check_volumes-agree [] [] 0 0 vols)

-- A full commit is one that the executor runs.
pub match_commit_sha-agree :
    (sha : String) → valid_commit_sha sha ≡ true → match_commit_sha sha ≡ true
unfolding valid_commit_sha match_commit_sha
match_commit_sha-agree sha h = ground arith

pub validate_dockerfile_path-agree :
    (p : String) → Spec.validate_dockerfile_path p ≡ Source.validate_dockerfile_path p
unfolding Spec.validate_dockerfile_path Source.validate_dockerfile_path
validate_dockerfile_path-agree p = refl
