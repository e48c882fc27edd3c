-- ===== src/Api/Arranged.antt =====
-- The checks on the volumes of an app, and the order in which they stand.
use panely.Kit.{
  ℕ, suc, ap, String, true, false, ◌≡◌, refl, none, List, [], ◌∷◌, ◌++◌, ◌=ₛ◌, arith, eq_iff,
  contains, All, All-zip, All-unzip, Pairs, length,
}
use panely.Kit.Sort.{sort_by-All, sort_by-Pairs, length-sort_by}
use panely.Records.{StoredVolume}
use panely.Admit.Patterns.{match_volume_name}
use panely.Admit.Volumes.{
  validate_mount_path, path_overlaps, overlap_any, check_volumes, validate_volumes,
}
use panely.Store.Apps.{sorted_volumes}
use panely.Api.Defining.{volumes_to_proto}

abbrev IsMountable : StoredVolume → Type 0
IsMountable v = (match_volume_name v.name ≡ true) × (validate_mount_path v.mount_path ≡ none)

-- The volumes can stand in one list.
abbrev Differ : StoredVolume → StoredVolume → Type 0
Differ v w = ((v.name =ₛ w.name) ≡ false) × (path_overlaps v.mount_path w.mount_path ≡ false)

-- The volume can follow the names and the paths that were met.
abbrev Open : List String → List String → StoredVolume → Type 0
Open set seen v = (contains set v.name ≡ false) × (overlap_any seen v.mount_path ≡ none)

Differ-sym : (v w : StoredVolume) → Differ v w → Differ w v
unfolding path_overlaps
Differ-sym v w d =
    let name = d.0 in
    let path = d.1 in
    (
      ground (arith, eq_iff v.name w.name, eq_iff w.name v.name),
      ground (arith, eq_iff v.mount_path w.mount_path, eq_iff w.mount_path v.mount_path),
    )

overlap_any-last :
    (seen : List String) (p q : String)
    → overlap_any (seen ++ p ∷ []) q ≡ none
    → (overlap_any seen q ≡ none) × (path_overlaps p q ≡ false)
unfolding overlap_any
overlap_any-last [] p q h = (refl, ground arith)
overlap_any-last (s ∷ seen) p q h =
    let rest = overlap_any-last seen p q (ground arith) in
    let first = rest.0 in (ground arith, rest.1)

overlap_any-append :
    (seen : List String) (p q : String)
    → overlap_any seen q ≡ none
    → path_overlaps p q ≡ false
    → overlap_any (seen ++ p ∷ []) q ≡ none
unfolding overlap_any
overlap_any-append [] p q h e = ground arith
overlap_any-append (s ∷ seen) p q h e = ground (arith, overlap_any-append seen p q)

Open-last :
    (set seen : List String) (v w : StoredVolume)
    → Open (v.name ∷ set) (seen ++ v.mount_path ∷ []) w
    → Open set seen w × Differ v w
Open-last set seen v w o =
    let name = o.0 in
    let (clear, apart) = overlap_any-last seen v.mount_path w.mount_path o.1 in
    ((ground arith, clear), (ground arith, apart))

Open-append :
    (set seen : List String) (v w : StoredVolume)
    → Open set seen w
    → Differ v w
    → Open (v.name ∷ set) (seen ++ v.mount_path ∷ []) w
Open-append set seen v w o d =
    let name = o.0 in
    let other = d.0 in (ground arith, overlap_any-append seen v.mount_path w.mount_path o.1 d.1)

check_volumes-one :
    (set seen : List String) (i : ℕ) (v : StoredVolume) (vs : List StoredVolume)
    → check_volumes set seen i (volumes_to_proto (v ∷ vs)) ≡ none
    → IsMountable v
      × Open set seen v
      × (check_volumes (v.name ∷ set) (seen ++ v.mount_path ∷ []) (suc i) (volumes_to_proto vs)
          ≡ none)
unfolding check_volumes volumes_to_proto
check_volumes-one set seen i v vs h =
    ((ground arith, ground arith), (ground arith, ground arith), ground arith)

check_volumes-Pairs :
    (set seen : List String) (i : ℕ) (vs : List StoredVolume)
    → check_volumes set seen i (volumes_to_proto vs) ≡ none
    → All IsMountable vs × Pairs Differ vs × All (Open set seen) vs
check_volumes-Pairs set seen i [] h = (tt, tt, tt)
check_volumes-Pairs set seen i (v ∷ vs) h =
    let (mountable, free, rest) = check_volumes-one set seen i v vs h in
    let (ms, ds, os) =
      check_volumes-Pairs (v.name ∷ set) (seen ++ v.mount_path ∷ []) (suc i) vs rest in
    let (still, differ) = All-unzip (Open-last set seen v) vs os in
    ((mountable, ms), (differ, ds), (free, still))

Pairs-check_volumes :
    (set seen : List String) (i : ℕ) (vs : List StoredVolume)
    → All IsMountable vs
    → Pairs Differ vs
    → All (Open set seen) vs
    → check_volumes set seen i (volumes_to_proto vs) ≡ none
unfolding check_volumes volumes_to_proto
Pairs-check_volumes set seen i [] ms ds os = refl
Pairs-check_volumes set seen i (v ∷ vs) ms ds os =
    let rest =
      Pairs-check_volumes (v.name ∷ set) (seen ++ v.mount_path ∷ []) (suc i) vs ms.1 ds.1
        (All-zip (Open-append set seen v) vs os.1 ds.0) in
    let (name, mount) = ms.0 in let (fresh, clear) = os.0 in ground arith

length-volumes_to_proto : (vs : List StoredVolume) → length (volumes_to_proto vs) ≡ length vs
unfolding volumes_to_proto
length-volumes_to_proto [] = refl
length-volumes_to_proto (v ∷ vs) = ap suc (length-volumes_to_proto vs)

All-Open : (vs : List StoredVolume) → All (Open [] []) vs
unfolding overlap_any
All-Open [] = tt
All-Open (v ∷ vs) = ((refl, refl), All-Open vs)

-- Volumes that the API accepts, it accepts when they are sorted.
pub validate_volumes-sorted :
    (vs : List StoredVolume)
    → validate_volumes (volumes_to_proto vs) ≡ none
    → validate_volumes (volumes_to_proto (sorted_volumes vs)) ≡ none
unfolding validate_volumes sorted_volumes
validate_volumes-sorted vs h =
    let key = λ (v : StoredVolume). v.name in
    let (ms, ds, _) = check_volumes-Pairs [] [] 0 vs (ground arith) in
    let sorted =
      Pairs-check_volumes [] [] 0 (sorted_volumes vs) (sort_by-All key IsMountable vs ms)
        (sort_by-Pairs key Differ Differ-sym vs ds) (All-Open (sorted_volumes vs)) in
    ground (
      arith,
      length-volumes_to_proto vs,
      length-volumes_to_proto (sorted_volumes vs),
      length-sort_by key vs,
      sorted,
    )
