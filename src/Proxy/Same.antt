-- ===== src/Proxy/Same.antt =====
-- What a successful comparison of internal/proxydrv/client.go says.
use panely.Kit.{
  ℕ, ◌+◌, ◌-◌, ◌≡◌, ◌≤◌, refl, String, true, not, ◌&&◌, Option, none, some, List, [], ◌∷◌, ◌==◌,
  ◌=ₛ◌, if◌then◌else◌, length, Result-cases, Option-cases, Bool-cases, inl, inr, ok, arith, eq_iff,
  contains,
}
use panely.Kit.Maps.{lookup, insert, lookup-insert}
use panely.Kit.Sorted.{contains-sort_by}
use panely.Proxy.Config.{Config}
use panely.Proxy.Live.{
  HostMap, routes_by_host, is_known_host, hosts_beyond, missing_hosts, count_up, count_down,
  count_of, same_strings, compare_hosts, extra_found, verify_applied, AdminSocket, load_config,
}

-- How often a text is in a list.
abbrev pub occurrences : String → List String → ℕ
occurrences s [] = 0
occurrences s (x ∷ xs) = if x =ₛ s then occurrences s xs + 1 else occurrences s xs

abbrev total : List (String × ℕ) → ℕ
total [] = 0
total ((s, n) ∷ count) = n + total count

total-insert :
    (s : String) (v : ℕ) (c : List (String × ℕ)) → total (insert s v c) + count_of s c ≡ total c + v
unfolding insert lookup
total-insert s v [] = ground arith
total-insert s v ((k, n) ∷ c) = ground (arith, total-insert s v c)

count_of-le : (s : String) (c : List (String × ℕ)) → count_of s c ≤ total c
unfolding lookup
count_of-le s [] = omega arith
count_of-le s ((k, n) ∷ c) = ground (arith, count_of-le s c)

count_of-insert :
    (s t : String) (v : ℕ) (c : List (String × ℕ))
    → count_of t (insert s v c) ≡ (if s =ₛ t then v else count_of t c)
count_of-insert s t v c = ground (arith, lookup-insert s t v c)

count_up-total :
    (a : List String) (c : List (String × ℕ)) → total (count_up a c) ≡ length a + total c
unfolding count_up
count_up-total [] c = omega arith
count_up-total (s ∷ a) c =
    omega
      (arith, count_up-total a (insert s (count_of s c + 1) c), total-insert s (count_of s c + 1) c)

count_up-count :
    (t : String) (a : List String) (c : List (String × ℕ))
    → count_of t (count_up a c) ≡ occurrences t a + count_of t c
unfolding count_up
count_up-count t [] c = omega arith
count_up-count t (s ∷ a) c = ground (
  arith,
  count_up-count t a (insert s (count_of s c + 1) c),
  count_of-insert s t (count_of s c + 1) c,
  eq_iff s t,
)

-- The counts that a walk leaves.
left : List String → List (String × ℕ) → List (String × ℕ)
left [] c = c
left (s ∷ b) c = left b (insert s (count_of s c - 1) c)

count_down-total :
    (b : List String) (c : List (String × ℕ))
    → count_down b c ≡ true
    → total c ≡ length b + total (left b c)
unfolding count_down left
count_down-total [] c h = omega arith
count_down-total (s ∷ b) c h = elim (Bool-cases (count_of s c == 0)) [
  | inl e ↦ absurd (ground arith)
  | inr e ↦ ground (
    arith,
    count_down-total b (insert s (count_of s c - 1) c),
    total-insert s (count_of s c - 1) c,
  )
]

count_down-count :
    (t : String) (b : List String) (c : List (String × ℕ))
    → count_down b c ≡ true
    → count_of t c ≡ occurrences t b + count_of t (left b c)
unfolding count_down left
count_down-count t [] c h = omega arith
count_down-count t (s ∷ b) c h = elim (Bool-cases (count_of s c == 0)) [
  | inl e ↦ absurd (ground arith)
  | inr e ↦ ground (
    arith,
    count_down-count t b (insert s (count_of s c - 1) c),
    count_of-insert s t (count_of s c - 1) c,
    eq_iff s t,
  )
]

-- Two lists that `sameStrings` finds the same hold each text as often.
pub same_strings-occurrences :
    (a b : List String) (t : String) → same_strings a b ≡ true → occurrences t a ≡ occurrences t b
unfolding same_strings lookup
same_strings-occurrences a b t h = elim (Bool-cases (length a == length b)) [
  | inr e ↦ absurd (ground arith)
  | inl e ↦
      let down : count_down b (count_up a []) ≡ true = rw e at h in
      let rest = left b (count_up a []) in
      let same : length a ≡ length b = ground arith in
      let none_left : total rest ≡ 0 =
        omega (arith, same, count_up-total a [], count_down-total b (count_up a []) down) in
      omega (
        arith,
        none_left,
        count_of-le t rest,
        count_up-count t a [],
        count_down-count t b (count_up a []) down,
      )
]

-- A host is beyond the other map exactly if it is in this one and not in that.
contains-hosts_beyond :
    (other m : HostMap) (h : String)
    → contains (hosts_beyond other m) h ≡ (is_known_host m h && not (is_known_host other h))
unfolding hosts_beyond lookup
contains-hosts_beyond other [] h = refl
contains-hosts_beyond other ((k, ds) ∷ m) h = elim (Bool-cases (k =ₛ h)) [
  | inl e ↦ ground (arith, contains-hosts_beyond other m h, eq_iff k h)
  | inr e ↦ ground (arith, contains-hosts_beyond other m h)
]

-- `MissingHosts` lists a host exactly if the configuration wanted routes it and the live one does not.
pub contains-missing_hosts :
    (want live : Option Config) (h : String)
    → contains (missing_hosts want live) h
      ≡ (is_known_host (routes_by_host want) h && not (is_known_host (routes_by_host live) h))
unfolding missing_hosts
contains-missing_hosts want live h = ground (
  arith,
  contains-sort_by h (hosts_beyond (routes_by_host live) (routes_by_host want)),
  contains-hosts_beyond (routes_by_host live) (routes_by_host want) h,
)

compare_hosts-same :
    (live m : HostMap) (h : String) (ds : List String)
    → compare_hosts live m ≡ none
    → lookup h m ≡ some ds
    → (fs : List String) × (lookup h live ≡ some fs) × (same_strings ds fs ≡ true)
unfolding compare_hosts lookup
compare_hosts-same live [] h ds e q = absurd (ground arith)
compare_hosts-same live ((k, es) ∷ m) h ds e q = elim (Option-cases (lookup k live)) [
  | inl n ↦ absurd (ground arith)
  | inr (found, y) ↦ elim (Bool-cases (same_strings es found)) [
    | inr d ↦ absurd (ground arith)
    | inl d ↦ elim (Bool-cases (k =ₛ h)) [
      | inl z ↦ (found, ground (arith, eq_iff k h), ground (arith, eq_iff k h))
      | inr z ↦ compare_hosts-same live m h ds (ground arith) (ground arith)
    ]
  ]
]

-- The two maps route the same hosts, and each to the same addresses as often.
pub record Agree (want live : HostMap) : Type 0 where
  pub hosts : (h : String) → is_known_host want h ≡ is_known_host live h
  pub dials :
      (h : String) (ds fs : List String)
      → lookup h want ≡ some ds
      → lookup h live ≡ some fs
      → (t : String) → occurrences t ds ≡ occurrences t fs

extra_found-none : (hs : List String) → extra_found hs ≡ none → hs ≡ []
extra_found-none [] e = refl
extra_found-none (h ∷ hs) e = absurd (ground arith)

verify_applied-Agree :
    (want live : Option Config)
    → verify_applied want live ≡ none
    → Agree (routes_by_host want) (routes_by_host live)
unfolding verify_applied
verify_applied-Agree want live e = elim (Option-cases (compare_hosts l m)) [
  | inr (d, q) ↦ absurd (ground arith)
  | inl q ↦
      let no_extra : hosts_beyond m l ≡ [] = extra_found-none (hosts_beyond m l) (ground arith) in
      record {
        hosts = λ h. known q no_extra h;
        dials = λ h ds fs x y t.
            let (gs, z, same) = compare_hosts-same l m h ds q x in
            same_strings-occurrences ds fs t (ground arith);
      }
]
  where
    m : HostMap
    m = routes_by_host want

    l : HostMap
    l = routes_by_host live

    known :
        compare_hosts l m ≡ none
        → hosts_beyond m l ≡ []
        → (h : String) → is_known_host m h ≡ is_known_host l h
    known q no_extra h = elim (Option-cases (lookup h m)) [
      | inl n ↦ ground (arith, contains-hosts_beyond m l h)
      | inr (ds, n) ↦ let (fs, z, same) = compare_hosts-same l m h ds q n in ground arith
    ]

module _ {W : Type 0} (socket : AdminSocket W) where
  -- `Load` returns nil only if the configuration was posted and the one read back afterwards agrees
  -- with it: it routes the same hosts, none missing and none more, and each to the same addresses as often.
  pub load_config-Agree :
      (cfg : Config) (w : W)
      → (load_config socket cfg w).0 ≡ none
      → ((socket.post cfg w).0 ≡ none)
        × ((found : Config) × ((socket.current (socket.post cfg w).1).0 ≡ ok found)
            × Agree (routes_by_host (some cfg)) (routes_by_host (some found)))
  unfolding load_config
  load_config-Agree cfg w e = elim (Option-cases (socket.post cfg w).0) [
    | inr (x, q) ↦ absurd (ground arith)
    | inl q ↦ elim (Result-cases (socket.current (socket.post cfg w).1).0) [
      | inr (x, y) ↦ absurd (ground arith)
      | inl (found, y) ↦ elim (Option-cases (verify_applied (some cfg) (some found))) [
        | inr (d, z) ↦ absurd (ground arith)
        | inl z ↦ (q, (found, y, verify_applied-Agree (some cfg) (some found) z))
      ]
    ]
  ]
