-- ===== src/Admit/Apart.antt =====
-- The names and the mount points of volumes that `validateVolumes` of internal/api accepts.
use panely.Kit.{
  ℕ, suc, String, true, false, ◌||◌, ◌≡◌, ◌≢◌, refl, sym, ap, ◌∙◌, Option, none, some, List, [],
  ◌∷◌, ◌++◌, ◌=ₛ◌, arith, eq_iff, append-nil, contains, All, Distinct,
}
use panely.Kit.Text.{split, join, glue, join-split, split-ne-nil}
use panely.Admit.Patterns.{has_prefix}
use panely.Admit.Volumes.{
  AppVolume, path_overlaps, overlap_any, check_volumes, validate_volumes, name_of,
}

-- The pieces of `p` start with those of `q`: `p` is `q`, or it is inside `q`.
abbrev pub IsWithin : String → String → Type 0
IsWithin p q = (rest : List String) × (split "/" p ≡ split "/" q ++ rest)

abbrev pub AreApart : String → String → Type 0
AreApart p q = (¬ (IsWithin p q)) × (¬ (IsWithin q p))

glue_assoc : (a b c : String) → glue (glue a b) c ≡ glue a (glue b c)
glue_assoc String.[] b c = refl
glue_assoc (String.◌∷◌ x a) b c = ap (String.◌∷◌ x) (glue_assoc a b c)

join-append :
    (xs ys : List String) (y : String)
    → xs ≢ []
    → join "/" (xs ++ y ∷ ys) ≡ glue (join "/" xs) (String.◌∷◌ "/" (join "/" (y ∷ ys)))
unfolding join
join-append [] ys y ne = absurd (ne refl)
join-append (x ∷ []) ys y ne = refl
join-append (x ∷ (z ∷ xs)) ys y ne = rw (join-append (z ∷ xs) ys y (λ e. cc), glue_assoc x) refl

begins-glue : (q t : String) → has_prefix (glue q (String.◌∷◌ "/" t)) (glue q "/") ≡ true
begins-glue String.[] t = ground arith
begins-glue (String.◌∷◌ c q) t = let h = begins-glue q t in ground arith

within-has_prefix : (p q : String) → IsWithin p q → (p =ₛ q || has_prefix p (glue q "/")) ≡ true
within-has_prefix p q ([], e) =
    let same : p ≡ q =
      sym (join-split "/" p) ∙ ap (join "/") (e ∙ append-nil (split "/" q)) ∙ join-split "/" q in
    rw ((eq_iff p q).1 same)
within-has_prefix p q (y ∷ ys, e) =
    let t = join "/" (y ∷ ys) in
    let longer : p ≡ glue q (String.◌∷◌ "/" t) =
      sym (join-split "/" p)
      ∙ ap (join "/") e
      ∙ join-append (split "/" q) ys y (split-ne-nil "/" q)
      ∙ ap (λ x. glue x (String.◌∷◌ "/" t)) (join-split "/" q) in
    let h : has_prefix p (glue q "/") ≡ true = rw longer (begins-glue q t) in ground arith

apart : (p q : String) → path_overlaps p q ≡ false → AreApart p q
unfolding path_overlaps
apart p q h = (
  λ i. let e = within-has_prefix p q i in ground arith,
  λ i. let e = within-has_prefix q p i in ground (arith, eq_iff p q, eq_iff q p),
)

overlap_any-All :
    (seen : List String) (p : String) → overlap_any seen p ≡ none → All (λ q. AreApart q p) seen
unfolding overlap_any
overlap_any-All [] p h = tt
overlap_any-All (q ∷ seen) p h = (apart q p (ground arith), overlap_any-All seen p (ground arith))

abbrev pub mount_of : Option AppVolume → String
mount_of none = ""
mount_of (some v) = v.mount_path

abbrev pub names : List (Option AppVolume) → List String
names [] = []
names (v ∷ vols) = name_of v ∷ names vols

abbrev pub mounts : List (Option AppVolume) → List String
mounts [] = []
mounts (v ∷ vols) = mount_of v ∷ mounts vols

-- Each two of the paths are apart.
abbrev pub Separate : List String → Type 0
Separate [] = Unit
Separate (p ∷ ps) = All (AreApart p) ps × Separate ps

-- The paths so far are apart from each of the others.
abbrev FarFrom : List String → List String → Type 0
FarFrom seen ps = All (λ q. All (AreApart q) ps) seen

-- None of the names is in the set.
abbrev Unused : List String → List String → Type 0
Unused set ws = All (λ w. contains set w ≡ false) ws

FarFrom-cons :
    (seen ps : List String) (p : String)
    → All (λ q. AreApart q p) seen
    → FarFrom (seen ++ p ∷ []) ps
    → FarFrom seen (p ∷ ps) × All (AreApart p) ps
FarFrom-cons [] ps p near far = (tt, far.0)
FarFrom-cons (q ∷ seen) ps p near far =
    let (more, last) = FarFrom-cons seen ps p near.1 far.1 in (((near.0, far.0), more), last)

Unused-cons :
    (set ws : List String) (x : String)
    → Unused (x ∷ set) ws
    → Unused set ws × (contains ws x ≡ false)
Unused-cons set [] x all = (tt, refl)
Unused-cons set (w ∷ ws) x all =
    let (rest, fresh) = Unused-cons set ws x all.1 in
    let h = all.0 in ((ground arith, rest), ground (arith, eq_iff x w, eq_iff w x))

nothing-FarFrom : (seen : List String) → FarFrom seen []
nothing-FarFrom [] = tt
nothing-FarFrom (q ∷ seen) = (tt, nothing-FarFrom seen)

check_volumes-facts :
    (set seen : List String) (i : ℕ) (v : AppVolume) (vols : List (Option AppVolume))
    → check_volumes set seen i (some v ∷ vols) ≡ none
    → (contains set v.name ≡ false)
      × (overlap_any seen v.mount_path ≡ none)
      × (check_volumes (v.name ∷ set) (seen ++ v.mount_path ∷ []) (suc i) vols ≡ none)
unfolding check_volumes
check_volumes-facts set seen i v vols h = (ground arith, ground arith, ground arith)

check_volumes-Separate :
    (set seen : List String) (i : ℕ) (vols : List (Option AppVolume))
    → check_volumes set seen i vols ≡ none
    → Unused set (names vols)
      × Distinct (names vols)
      × FarFrom seen (mounts vols)
      × Separate (mounts vols)
check_volumes-Separate set seen i [] h = (tt, tt, nothing-FarFrom seen, tt)
check_volumes-Separate set seen i (none ∷ vols) h = absurd (unfold check_volumes in cc)
check_volumes-Separate set seen i (some v ∷ vols) h =
    let (fresh, over, rest) = check_volumes-facts set seen i v vols h in
    let (unused, once, far, sep) =
      check_volumes-Separate (v.name ∷ set) (seen ++ v.mount_path ∷ []) (suc i) vols rest in
    let (free, new) = Unused-cons set (names vols) v.name unused in
    let (further, last) =
      FarFrom-cons seen (mounts vols) v.mount_path (overlap_any-All seen v.mount_path over) far in
    ((fresh, free), (new, once), further, (last, sep))

-- Volumes that `validateVolumes` accepts have different names, and the mount path of none of them is, piece
-- by piece, that of another or inside it.
pub validate_volumes-Separate :
    (vols : List (Option AppVolume))
    → validate_volumes vols ≡ none
    → Distinct (names vols) × Separate (mounts vols)
unfolding validate_volumes
validate_volumes-Separate vols h =
    let (_, once, _, sep) = check_volumes-Separate [] [] 0 vols (ground arith) in (once, sep)
