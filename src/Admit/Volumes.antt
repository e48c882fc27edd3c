-- ===== src/Admit/Volumes.antt =====
-- internal/api/volumevalidate.go. A volume of the list may be `nil`, which is `none`.
use panely.Kit.{
  ℕ, suc, String, Bool, false, not, ◌||◌, Option, none, some, List, [], ◌∷◌, ◌++◌, ltb, ◌=ₛ◌,
  contains, if◌then◌else◌, length,
}
use panely.Kit.Text.{glue}
use panely.Admit.Checks.{
  Fault, missing, malformed, too_long, too_many, not_absolute, not_clean, reserved, twice,
  overlapping, no_volume, set_and_removed, of_volume, fault_if, ◌then◌,
}
use panely.Admit.Patterns.{bytes, has_prefix, match_volume_name}
use panely.Admit.Path.{is_abs, clean}

-- `AppVolume` of proto/kadran/v1/api.proto.
pub record AppVolume : Type 0 where
  pub name : String
  pub mount_path : String
  pub read_only : Bool

abbrev pub max_volumes : ℕ
max_volumes = 16

abbrev pub max_mount_path : ℕ
max_mount_path = 4096

abbrev pub forbidden_mount_roots : List String
forbidden_mount_roots = "/proc" ∷ "/sys" ∷ "/dev" ∷ []

-- Is the path a root, or under it?
abbrev pub is_under : String → String → Bool
is_under root p = p =ₛ root || has_prefix p (glue root "/")

-- The loop of `validateMountPath`.
abbrev pub under_root : List String → String → Option Fault
under_root [] p = none
under_root (root ∷ roots) p = fault_if (is_under root p) (reserved root p) then under_root roots p

-- `validateMountPath`.
unfoldable pub validate_mount_path : String → Option Fault
validate_mount_path p =
    fault_if (p =ₛ "") (missing "mount_path")
    then fault_if (ltb max_mount_path (bytes p)) (too_long "mount_path" (bytes p))
    then fault_if (not (is_abs p)) (not_absolute p)
    then fault_if (not (clean p =ₛ p)) (not_clean p (clean p))
    then fault_if (p =ₛ "/") (reserved "/" p)
    then under_root forbidden_mount_roots p

-- `pathOverlaps`.
unfoldable pub path_overlaps : String → String → Bool
path_overlaps a b = a =ₛ b || has_prefix a (glue b "/") || has_prefix b (glue a "/")

-- The loop over `seenPaths`.
unfoldable pub overlap_any : List String → String → Option Fault
overlap_any [] p = none
overlap_any (prev ∷ seen) p =
    fault_if (path_overlaps prev p) (overlapping prev p) then overlap_any seen p

abbrev pub in_volume : String → Option Fault → Option Fault
in_volume name none = none
in_volume name (some x) = some (of_volume name x)

-- The loop of `validateVolumes`, with the set `seenNames` and the paths so far.
unfoldable pub check_volumes :
    List String → List String → ℕ → List (Option AppVolume) → Option Fault
check_volumes names paths i [] = none
check_volumes names paths i (none ∷ vols) = some (no_volume i)
check_volumes names paths i (some v ∷ vols) =
    fault_if (not (match_volume_name v.name)) (malformed "volume name" v.name)
    then fault_if (contains names v.name) (twice v.name)
    then in_volume v.name (validate_mount_path v.mount_path)
    then overlap_any paths v.mount_path
    then check_volumes (v.name ∷ names) (paths ++ v.mount_path ∷ []) (suc i) vols

-- `validateVolumes`.
unfoldable pub validate_volumes : List (Option AppVolume) → Option Fault
validate_volumes vols =
    fault_if (ltb max_volumes (length vols)) (too_many "volumes" (length vols))
    then check_volumes [] [] 0 vols

-- `GetName`, which is empty on `nil`.
abbrev pub name_of : Option AppVolume → String
name_of none = ""
name_of (some v) = v.name

abbrev defines : List (Option AppVolume) → String → Bool
defines [] name = false
defines (v ∷ vols) name = name_of v =ₛ name || defines vols name

-- `validateVolumeRemove`.
unfoldable pub validate_volume_remove : List (Option AppVolume) → List String → Option Fault
validate_volume_remove vols [] = none
validate_volume_remove vols (name ∷ names) =
    fault_if (not (match_volume_name name)) (malformed "volume name" name)
    then fault_if (defines vols name) (set_and_removed name)
    then validate_volume_remove vols names
