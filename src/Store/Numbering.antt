-- ===== src/Store/Numbering.antt =====
-- The numbers of the releases of internal/store/releases.go, and that a release that is closed stays as it is.
use panely.Kit.{
  ℕ, ◌+◌, ◌≡◌, ◌≤◌, ◌∙◌, sym, ap, refl, String, Bool, true, false, not, ◌&&◌, ◌||◌, Option, none,
  some, List, [], ◌∷◌, ◌==◌, ◌=ₛ◌, if◌then◌else◌, arith, eq_iff, All, Bool-cases, inl, inr,
}
use panely.Records.{App, Release, ReleaseStatus}
use panely.Store.Deployments.{Runs}
use panely.Store.Releases.{
  Tables, counter, bump, is_taken, find_release, is_building, is_picked, seal_rows, finish_release,
  fail_release, other_releases, other_apps, delete_app, release_id, start_release,
}

some_inj : {a b : Release} → some a ≡ some b → a ≡ b
some_inj e = cc

pub count_inj : {a b : ℕ} → some a ≡ some b → a ≡ b
count_inj e = cc

abbrev pub bumped : Bool → Option ℕ → Option ℕ
bumped b none = none
bumped b (some n) = some (if b then n + 1 else n)

pub counter-bump :
    (now : ℕ) (k j : String) (apps : List App)
    → counter j (bump now k apps) ≡ bumped (k =ₛ j) (counter j apps)
unfolding counter bump
counter-bump now k j [] = refl
counter-bump now k j (a ∷ apps) = elim (Bool-cases (a.id =ₛ k)) [
  | inl p ↦ elim (Bool-cases (a.id =ₛ j)) [
    | inl q ↦
        let same : (k =ₛ j) ≡ true =
          ground (arith, p, q, eq_iff a.id k, eq_iff a.id j, eq_iff k j) in
        rw (p, same) (rw q refl)
    | inr q ↦ rw p (rw q (counter-bump now k j apps))
  ]
  | inr p ↦ elim (Bool-cases (a.id =ₛ j)) [
    | inl q ↦
        let other : (k =ₛ j) ≡ false =
          ground (arith, p, q, eq_iff a.id k, eq_iff a.id j, eq_iff k j) in
        rw (p, other) (rw q refl)
    | inr q ↦ rw p (rw q (counter-bump now k j apps))
  ]
]

pub counter-other_apps :
    (k j : String) (apps : List App)
    → (k =ₛ j) ≡ false
    → counter j (other_apps k apps) ≡ counter j apps
unfolding counter other_apps
counter-other_apps k j [] e = refl
counter-other_apps k j (a ∷ apps) e =
    ground (arith, counter-other_apps k j apps, eq_iff a.id k, eq_iff a.id j, eq_iff k j)

pub find_release-other_releases :
    (k j i : String) (rs : List Release)
    → (k =ₛ j) ≡ false
    → find_release j i (other_releases k rs) ≡ find_release j i rs
unfolding find_release other_releases
find_release-other_releases k j i [] e = refl
find_release-other_releases k j i (r ∷ rs) e =
    ground (
      arith,
      find_release-other_releases k j i rs,
      eq_iff r.app_id k,
      eq_iff r.app_id j,
      eq_iff k j,
    )

pub find_release-seal_rows :
    (now : ℕ) (k i : String) (status : ReleaseStatus) (image detail : String) (j l : String)
    (rs : List Release) {r : Release}
    → find_release j l rs ≡ some r
    → is_building r ≡ false
    → find_release j l (seal_rows now k i status image detail rs) ≡ some r
unfolding find_release seal_rows
find_release-seal_rows now k i status image detail j l [] e b = absurd cc
find_release-seal_rows now k i status image detail j l (s ∷ rs) {r = r} e b =
    elim (Bool-cases (s.app_id =ₛ j && s.id =ₛ l)) [
      | inl a ↦
          let same : some s ≡ some r = rw a at e in
          let shut : is_building s ≡ false = rw (← some_inj same) at b in
          let missed : is_picked k i s ≡ false = ground (arith, shut) in rw missed (rw a same)
      | inr a ↦
          let rest = find_release-seal_rows now k i status image detail j l rs (rw a at e) b in
          elim (Bool-cases (is_picked k i s)) [
            | inl q ↦ rw q (rw a rest)
            | inr q ↦ rw q (rw a rest)
          ]
    ]

-- No release of an app that is not deleted carries a number that the app has not given out.
abbrev pub IsCounted : List App → Release → Type 0
IsCounted apps r = (n : ℕ) × (counter r.app_id apps ≡ some n) × (r.seq ≤ n)

pub data Op : Type 0 where
  starting : Runs → ℕ → String → String → Op
  finishing : Bool → ℕ → String → String → String → Op
  failing : Bool → ℕ → String → String → String → Op
  deleting : Runs → String → Op

module _ (digits : ℕ → String) where
  abbrev pub apply : Op → Tables → Tables
  apply (starting up now k sha) t = (start_release digits up now k sha t).1
  apply (finishing up now k i image) t = (finish_release up now k i image t).1
  apply (failing up now k i detail) t = (fail_release up now k i detail t).1
  apply (deleting up k) t = (delete_app up k t).1

  -- The tables after some calls.
  abbrev pub run : List Op → Tables → Tables
  run [] t = t
  run (op ∷ ops) t = run ops (apply op t)

  abbrev pub IsNumbered : Tables → Type 0
  IsNumbered t = All (λ r. IsCounted t.apps r × (r.id ≡ release_id digits r.seq)) t.releases

  -- The calls that leave an app in place.
  abbrev pub spares : String → Op → Bool
  spares k (deleting up j) = not (j =ₛ k)
  spares k op = true

  abbrev pub Spared : String → List Op → Type 0
  Spared k ops = All (λ op. spares k op ≡ true) ops

  pub bump-IsCounted :
      (now : ℕ) (k : String) (apps : List App) (r : Release)
      → IsCounted apps r
      → IsCounted (bump now k apps) r
  bump-IsCounted now k apps r (n, e, le) = (
    (if k =ₛ r.app_id then n + 1 else n),
    counter-bump now k r.app_id apps ∙ ap (bumped (k =ₛ r.app_id)) e,
    ground arith,
  )

  module _ (digits-inj : (n m : ℕ) → digits n ≡ digits m → n ≡ m) where
    release_id-inj : (n m : ℕ) → release_id digits n ≡ release_id digits m → n ≡ m
    release_id-inj n m e = digits-inj n m (cc (e))

    is_new :
        (k : String) (n : ℕ) (apps : List App) (r : Release)
        → counter k apps ≡ some n
        → IsCounted apps r × (r.id ≡ release_id digits r.seq)
        → r.app_id ≡ k
        → (r.id =ₛ release_id digits (n + 1) || r.seq == n + 1) ≡ false
    is_new k n apps r e h same =
        let (m, counted, le) = h.0 in
        let number : m ≡ n =
          count_inj (sym counted ∙ ap (λ (j : String). counter j apps) same ∙ e) in
        let below : r.seq ≤ n = omega (arith, number) in
        elim (Bool-cases (r.id =ₛ release_id digits (n + 1))) [
          | inl q ↦
              let meet =
                release_id-inj r.seq (n + 1)
                  (sym h.1 ∙ (eq_iff r.id (release_id digits (n + 1))).0 q) in
              absurd (omega (arith, meet))
          | inr q ↦ rw q (ground arith)
        ]

    -- The next number of an app is free.
    pub IsNumbered-is_taken :
        (k : String) (n : ℕ) (apps : List App) (rs : List Release)
        → counter k apps ≡ some n
        → All (λ r. IsCounted apps r × (r.id ≡ release_id digits r.seq)) rs
        → is_taken k (release_id digits (n + 1)) (n + 1) rs ≡ false
    unfolding is_taken
    IsNumbered-is_taken k n apps [] e h = refl
    IsNumbered-is_taken k n apps (r ∷ rs) e h =
        let rest = IsNumbered-is_taken k n apps rs e h.1 in
        elim (Bool-cases (r.app_id =ₛ k)) [
          | inr p ↦ rw (p, rest) refl
          | inl p ↦
              let other = is_new k n apps r e h.0 ((eq_iff r.app_id k).0 p) in
              rw (p, rest) (rw other refl)
        ]
