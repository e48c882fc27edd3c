-- ===== src/Store/Counting.antt =====
-- What `StartRelease`, the sealings and `DeleteApp` of internal/store do to the numbers of the releases.
use panely.Kit.{
  ℕ, ◌+◌, ◌^◌, ◌≡◌, ◌≢◌, ◌∙◌, sym, ap, refl, String, Bool, true, false, ◌&&◌, some, List, [], ◌∷◌,
  ltb, ◌=ₛ◌, arith, eq_iff, All, Bool-cases, Option-cases, inl, inr, Result, ok, err,
}
use panely.Records.{App, Release, ReleaseStatus}
use panely.Store.Deployments.{Runs, open_release}
use panely.Store.Releases.{
  Tables, ReleaseError, duplicate, not_started, not_counted, no_app, not_inserted, counter, bump,
  is_taken, find_release, is_picked, is_open_release, seal_rows, seal_release, other_releases,
  other_apps, delete_app, release_id, new_release, start_release,
}
use panely.Store.Numbering.{
  bumped, counter-bump, counter-other_apps, IsCounted, IsNumbered, bump-IsCounted,
  IsNumbered-is_taken,
}

-- A release that is found takes its keys.
find_release-is_taken :
    (k i : String) (n : ℕ) (rs : List Release) {r : Release}
    → find_release k i rs ≡ some r
    → is_taken k i n rs ≡ true
unfolding find_release is_taken
find_release-is_taken k i n [] e = absurd cc
find_release-is_taken k i n (s ∷ rs) e = elim (Bool-cases (s.app_id =ₛ k && s.id =ₛ i)) [
  | inl a ↦ ground (arith, a)
  | inr a ↦ let rest = find_release-is_taken k i n rs (rw a at e) in rw rest (ground arith)
]

All-map :
    {P Q : Release → Type 0} (f : (r : Release) → P r → Q r) (rs : List Release)
    → All P rs
    → All Q rs
All-map f [] h = tt
All-map f (r ∷ rs) h = (f r h.0, All-map f rs h.1)

err_inj : {x y : ReleaseError} → ◌≡◌ {A = Result ReleaseError Release} (err x) (err y) → x ≡ y
err_inj e = cc

and_true : (a b : Bool) → (a && b) ≡ true → (a ≡ true) × (b ≡ true)
and_true true b h = (refl, h)
and_true false b h = absurd cc

clash : ◌≢◌ {A = Bool} false true
clash e = cc (e)

self : (k : String) (n : ℕ) → bumped (k =ₛ k) (some n) ≡ some (n + 1)
self k n = ground (arith, eq_iff k k)

module _ (digits : ℕ → String) (digits-inj : (n m : ℕ) → digits n ≡ digits m → n ≡ m) where
  abbrev Fits : List App → Release → Type 0
  Fits apps r = IsCounted apps r × (r.id ≡ release_id digits r.seq)

  seal_rows-All :
      (apps : List App) (now : ℕ) (k i : String) (status : ReleaseStatus) (image detail : String)
      (rs : List Release)
      → All (Fits apps) rs
      → All (Fits apps) (seal_rows now k i status image detail rs)
  unfolding seal_rows
  seal_rows-All apps now k i status image detail [] h = tt
  seal_rows-All apps now k i status image detail (r ∷ rs) h =
      let rest = seal_rows-All apps now k i status image detail rs h.1 in
      elim (Bool-cases (is_picked k i r)) [ inl q ↦ rw q (h.0, rest) | inr q ↦ rw q (h.0, rest) ]

  other_releases-All :
      (k : String) (apps : List App) (rs : List Release)
      → All (Fits apps) rs
      → All (Fits (other_apps k apps)) (other_releases k rs)
  unfolding other_releases
  other_releases-All k apps [] h = tt
  other_releases-All k apps (r ∷ rs) h =
      let rest = other_releases-All k apps rs h.1 in
      let (n, counted, le) = h.0.0 in
      elim (Bool-cases (r.app_id =ₛ k)) [
        | inl q ↦ rw q rest
        | inr q ↦
            let apart : (k =ₛ r.app_id) ≡ false =
              ground (arith, q, eq_iff k r.app_id, eq_iff r.app_id k) in
            rw q (((n, counter-other_apps k r.app_id apps apart ∙ counted, le), h.0.1), rest)
      ]

  -- What the two sealings and the deletion do to the tables.
  pub seal_release-IsNumbered :
      (up : Bool) (now : ℕ) (k i : String) (status : ReleaseStatus) (image detail : String)
      (t : Tables)
      → IsNumbered digits t
      → IsNumbered digits (seal_release up now k i status image detail t).1
  unfolding seal_release
  seal_release-IsNumbered false now k i status image detail t h = h
  seal_release-IsNumbered true now k i status image detail t h =
      elim (Bool-cases (is_open_release k i t.releases)) [
        | inl q ↦ rw q (seal_rows-All t.apps now k i status image detail t.releases h)
        | inr q ↦ rw q h
      ]

  pub delete_app-IsNumbered :
      (up : Runs) (k : String) (t : Tables)
      → IsNumbered digits t
      → IsNumbered digits (delete_app up k t).1
  unfolding delete_app
  delete_app-IsNumbered up k t h = elim (Bool-cases (up.begin && up.select)) [
    | inr b ↦ rw b h
    | inl b ↦ rw b (elim (Option-cases (counter k t.apps)) [
      | inl q ↦ rw (q, delete_app) h
      | inr (n, q) ↦
          rw (q, delete_app)
            (elim (Option-cases (open_release k t.deployments)) [
              | inr (r, p) ↦ rw (p, delete_app) h
              | inl p ↦
                  rw (p, delete_app)
                    (elim (Bool-cases (up.update && up.commit)) [
                      | inl c ↦ rw c (other_releases-All k t.apps t.releases h)
                      | inr c ↦ rw c h
                    ])
            ])
    ])
  ]

  -- How a call of `StartRelease` goes: the tables stay, or a release of a free number is added.
  pub data Start (now : ℕ) (k sha : String) (t : Tables)
      : Result ReleaseError Release × Tables → Type 0 where
    stays : (x : ReleaseError) → x ≢ duplicate → Start now k sha t (err x, t)
    adds :
        (n : ℕ)
        → counter k t.apps ≡ some n
        → is_taken k (release_id digits (n + 1)) (n + 1) t.releases ≡ false
        → Start now k sha t (
          ok (new_release digits now k sha (n + 1)),
          record t {
            apps = bump now k t.apps;
            releases = new_release digits now k sha (n + 1) ∷ t.releases;
          },
        )

  pub start_release-Start :
      (up : Runs) (now : ℕ) (k sha : String) (t : Tables)
      → IsNumbered digits t
      → Start now k sha t (start_release digits up now k sha t)
  unfolding start_release
  start_release-Start up now k sha t h = elim (Bool-cases up.begin) [
    | inr b ↦ rw b (stays not_started (λ e. cc (e)))
    | inl b ↦ rw b (elim (Bool-cases up.update) [
      | inr c ↦ rw c (stays not_counted (λ e. cc (e)))
      | inl c ↦ rw c (elim (Option-cases (counter k t.apps)) [
        | inl q ↦ rw (q, start_release) (stays no_app (λ e. cc (e)))
        | inr (n, q) ↦
            let free = IsNumbered-is_taken digits digits-inj k n t.apps t.releases q h in
            rw (q, start_release)
              (elim (Bool-cases (ltb (n + 1) (2 ^ 32))) [
                | inr d ↦ rw d (stays not_counted (λ e. cc (e)))
                | inl d ↦
                    rw (d, free)
                      (elim (Bool-cases (up.insertion && up.commit)) [
                        | inr f ↦ rw f (stays not_inserted (λ e. cc (e)))
                        | inl f ↦ rw f (adds n q free)
                      ])
              ])
      ])
    ])
  ]

  pub Start-IsNumbered :
      {now : ℕ} {k sha : String} {t : Tables} {p : Result ReleaseError Release × Tables}
      → IsNumbered digits t
      → Start now k sha t p
      → IsNumbered digits p.1
  Start-IsNumbered h (stays x ne) = h
  Start-IsNumbered {now = now} {k = k} {t = t} h (adds n q free) = (
    ((n + 1, counter-bump now k k t.apps ∙ ap (bumped (k =ₛ k)) q ∙ self k n, omega arith), refl),
    All-map (λ r f. (bump-IsCounted digits now k t.apps r f.0, f.1)) t.releases h,
  )

  pub Start-ne-duplicate :
      {now : ℕ} {k sha : String} {t : Tables} {p : Result ReleaseError Release × Tables}
      → Start now k sha t p
      → p.0 ≢ err duplicate
  Start-ne-duplicate (stays x ne) e = ne (err_inj e)
  Start-ne-duplicate (adds n q free) e = cc (e)

  pub Start-find_release :
      {now : ℕ} {k sha : String} {t : Tables} {p : Result ReleaseError Release × Tables}
      (j i : String) {r : Release}
      → find_release j i t.releases ≡ some r
      → Start now k sha t p
      → find_release j i p.1.releases ≡ some r
  unfolding find_release
  Start-find_release j i e (stays x ne) = e
  Start-find_release {k = k} {t = t} j i e (adds n q free) =
      elim (Bool-cases (k =ₛ j && release_id digits (n + 1) =ₛ i)) [
        | inr a ↦ rw a e
        | inl a ↦
            let (b, c) = and_true (k =ₛ j) (release_id digits (n + 1) =ₛ i) a in
            let taken = find_release-is_taken j i (n + 1) t.releases e in
            let same : k ≡ j = (eq_iff k j).0 b in
            let name : release_id digits (n + 1) ≡ i = (eq_iff (release_id digits (n + 1)) i).0 c in
            absurd (
              clash (
                sym free
                ∙ ap (λ (l : String). is_taken l (release_id digits (n + 1)) (n + 1) t.releases)
                    same
                ∙ ap (λ (l : String). is_taken j l (n + 1) t.releases) name
                ∙ taken))
      ]
