-- ===== src/Admit/Inside.antt =====
-- Where a path that the API accepts leads: the pieces of a `dockerfile_path` and of a mount path.
use Prim.Native.Char.{Char, code}
use panely.Kit.{
  ℕ, zero, suc, String, Bool, true, false, not, ◌&&◌, ◌≡◌, ◌≢◌, ◌⊎◌, inl, inr, refl, sym, ap, ◌∙◌,
  none, List, [], ◌∷◌, ◌=ₛ◌, arith, eq_iff, All, Bool-cases, ne→str_eq, ◌==◌,
}
use panely.Kit.Text.{split, join, glue, avoids, Avoids, push_front, split-join}
use panely.Admit.Patterns.{has_prefix}
use panely.Admit.Path.{clean, is_abs, tidy, step, step_in, climb, or_dot}
use panely.Admit.Spec.{validate_dockerfile_path}
use panely.Admit.Volumes.{validate_mount_path}

-- A name of a file or a folder.
abbrev pub is_name : String → Bool
is_name w = not (w =ₛ "") && not (w =ₛ ".") && not (w =ₛ "..") && avoids "/" w

abbrev pub IsName : String → Type 0
IsName w = is_name w ≡ true

push_front-All :
    (sep c : Char) (ws : List String)
    → (code c == code sep) ≡ false
    → All (Avoids sep) ws
    → All (Avoids sep) (push_front c ws)
push_front-All sep c [] ne all = (ground arith, tt)
push_front-All sep c (w ∷ ws) ne all = let h = all.0 in (ground arith, all.1)

split-All : (sep : Char) (s : String) → All (Avoids sep) (split sep s)
unfolding split
split-All sep String.[] = (refl, tt)
split-All sep (String.◌∷◌ c s) = elim (Bool-cases (code c == code sep)) [
  | inl e ↦ rw e (refl, split-All sep s)
  | inr e ↦ rw e (push_front-All sep c (split sep s) e (split-All sep s))
]

step_in-All :
    (w : String) (t : ℕ × List String) → IsName w → All IsName t.1 → All IsName (step_in w t).1
step_in-All w (zero, names) h all = (h, all)
step_in-All w (suc ups, names) h all = all

step-All :
    (w : String) (t : ℕ × List String) → Avoids "/" w → All IsName t.1 → All IsName (step w t).1
step-All w t h all = ground (arith, step_in-All w t)

tidy-All : (ws : List String) → All (Avoids "/") ws → All IsName (tidy ws).1
unfolding tidy
tidy-All [] all = tt
tidy-All (w ∷ ws) all = step-All w (tidy ws) all.0 (tidy-All ws all.1)

avoiding : (ws : List String) → All IsName ws → All (Avoids "/") ws
avoiding [] all = tt
avoiding (w ∷ ws) all = let h = all.0 in (ground arith, avoiding ws all.1)

-- Names joined come back from a split.
split-join-names :
    (w : String) (ws : List String) → All IsName (w ∷ ws) → split "/" (join "/" (w ∷ ws)) ≡ w ∷ ws
split-join-names w ws all = split-join "/" (w ∷ ws) (λ e. cc) (avoiding (w ∷ ws) all)

or_dot-ne : (q p : String) → or_dot q ≡ p → p ≢ "." → (q ≡ p) × (q ≢ "")
or_dot-ne q p e ne = elim (Bool-cases (q =ₛ "")) [
  | inl b ↦ absurd (ne (ground (arith, e)))
  | inr b ↦ (ground (arith, e), λ z. ground (arith, eq_iff q ""))
]

clash : {b : Bool} → b ≡ true → b ≡ false → ⊥
clash e f = ground arith

-- A path of `..` and more after it starts with `../`.
prefix-up : (t : String) → has_prefix (or_dot (glue ".." (String.◌∷◌ "/" t))) "../" ≡ true
prefix-up t = rw (ne→str_eq (glue ".." (String.◌∷◌ "/" t)) "" (λ e. cc))

-- What is left of a path that is not rooted, when it is clean and does not start with `../`.
unrooted :
    (ups : ℕ) (names : List String) (p : String)
    → All IsName names
    → or_dot (join "/" (climb ups names)) ≡ p
    → p ≢ "."
    → has_prefix p "../" ≡ false
    → (p ≡ "..") ⊎ All IsName (split "/" p)
unfolding join
unrooted zero [] p all e dot up = absurd (dot (sym e))
unrooted zero (w ∷ ws) p all e dot up =
    let (q, _) = or_dot-ne (join "/" (w ∷ ws)) p e dot in
    inr (rw (sym q, split-join-names w ws all) all)
unrooted (suc ups) names p all e dot up =
    elim (climb ups names)
        as (λ c. or_dot (join "/" (".." ∷ c)) ≡ p → (p ≡ "..") ⊎ All IsName (split "/" p)) [
          | [] ↦ λ h. inl (sym h)
          | v ∷ vs ↦ λ h.
              absurd (clash (prefix-up (join "/" (v ∷ vs))) (ap (λ x. has_prefix x "../") h ∙ up))
        ]
      e

dockerfile_path-facts :
    (p : String)
    → validate_dockerfile_path p ≡ none
    → (p =ₛ "") ≡ false
    → (is_abs p ≡ false)
      × ((clean p =ₛ p) ≡ true)
      × ((p =ₛ ".") ≡ false)
      × (has_prefix p "../" ≡ false)
unfolding validate_dockerfile_path
dockerfile_path-facts p h e = (ground arith, ground arith, ground arith, ground arith)

clean-unrooted :
    (p : String)
    → is_abs p ≡ false
    → clean p ≡ or_dot (join "/" (climb (tidy (split "/" p)).0 (tidy (split "/" p)).1))
unfolding clean
clean-unrooted p e = rw e refl

clean-rooted : (p : String) → is_abs p ≡ true → clean p ≡ glue "/" (join "/" (tidy (split "/" p)).1)
unfolding clean
clean-rooted p e = rw e refl

names-tidy : (p : String) → All IsName (tidy (split "/" p)).1
names-tidy p = tidy-All (split "/" p) (split-All "/" p)

-- A `dockerfile_path` that `validateDockerfilePath` accepts is empty, or it is `..`, or each of its
-- slash-separated pieces is a name: not empty, not `.` and not `..`.
pub dockerfile_path-IsName :
    (p : String)
    → validate_dockerfile_path p ≡ none
    → (p ≡ "") ⊎ ((p ≡ "..") ⊎ All IsName (split "/" p))
dockerfile_path-IsName p h = elim (Bool-cases (p =ₛ "")) [
  | inl e ↦ inl ((eq_iff p "").0 e)
  | inr e ↦
      let (rel, same, dot, up) = dockerfile_path-facts p h e in
      let pieces = tidy (split "/" p) in
      let whole = sym (clean-unrooted p rel) ∙ (eq_iff (clean p) p).0 same in
      inr
        (unrooted pieces.0 pieces.1 p (names-tidy p) whole (λ d. clash ((eq_iff p ".").1 d) dot) up)
]

mount_path-facts :
    (p : String)
    → validate_mount_path p ≡ none
    → (is_abs p ≡ true) × ((clean p =ₛ p) ≡ true) × ((p =ₛ "/") ≡ false)
unfolding validate_mount_path
mount_path-facts p h = (ground arith, ground arith, ground arith)

rooted :
    (names : List String) (p : String)
    → All IsName names
    → glue "/" (join "/" names) ≡ p
    → (p =ₛ "/") ≡ false
    → (split "/" p ≡ "" ∷ names) × (names ≢ [])
unfolding split join
rooted [] p all e root = absurd (clash ((eq_iff p "/").1 (sym e)) root)
rooted (w ∷ ws) p all e root = (rw (sym e, split-join-names w ws all), λ z. cc)

-- A mount path that `validateMountPath` accepts is a slash followed by one name or more, joined by slashes.
pub mount_path-IsName :
    (p : String)
    → validate_mount_path p ≡ none
    → (names : List String) × (split "/" p ≡ "" ∷ names) × (names ≢ []) × All IsName names
mount_path-IsName p h =
    let (abs, same, root) = mount_path-facts p h in
    let names = (tidy (split "/" p)).1 in
    let whole = sym (clean-rooted p abs) ∙ (eq_iff (clean p) p).0 same in
    let (pieces, some_name) = rooted names p (names-tidy p) whole root in
    (names, pieces, some_name, names-tidy p)
