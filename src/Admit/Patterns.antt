-- ===== src/Admit/Patterns.antt =====
-- The patterns that internal/api and internal/exec match texts against, on code points, and the
-- functions of Go's `strings` that the checks use. The length of a Go string is its length in UTF-8.
use panely.Kit.{
  ℕ, ◌+◌, String, Bool, true, false, ◌&&◌, ◌||◌, List, [], ◌∷◌, leb, ltb, ◌==◌, length,
  if◌then◌else◌,
}
use panely.Kit.Text.{codes, split}
use panely.Connproto.Role.{is_lower, is_tail}

abbrev width : ℕ → ℕ
width c = if ltb c 128 then 1 else if ltb c 2048 then 2 else if ltb c 65536 then 3 else 4

abbrev size : List ℕ → ℕ
size [] = 0
size (c ∷ cs) = width c + size cs

-- `len(s)`.
unfoldable pub bytes : String → ℕ
bytes s = size (codes s)

-- `strings.ContainsRune(s, c)`, on the code points.
abbrev pub has : ℕ → List ℕ → Bool
has c [] = false
has c (d ∷ ds) = d == c || has c ds

abbrev pub begins : List ℕ → List ℕ → Bool
begins cs [] = true
begins [] (d ∷ ds) = false
begins (c ∷ cs) (d ∷ ds) = c == d && begins cs ds

-- `strings.HasPrefix(s, t)`.
abbrev pub has_prefix : String → String → Bool
has_prefix s t = begins (codes s) (codes t)

abbrev is_digit : ℕ → Bool
is_digit c = leb b'0' c && leb c b'9'

abbrev is_letter : ℕ → Bool
is_letter c = is_lower c || leb b'A' c && leb c b'Z'

abbrev is_alnum : ℕ → Bool
is_alnum c = is_letter c || is_digit c

abbrev is_plain : ℕ → Bool
is_plain c = is_lower c || is_digit c

abbrev is_segment : ℕ → Bool
is_segment c = is_alnum c || c == b'.' || c == b'_' || c == b'-'

abbrev all : (ℕ → Bool) → List ℕ → Bool
all test [] = true
all test (c ∷ cs) = test c && all test cs

-- A first character, and at most so many of others after it.
abbrev headed : (ℕ → Bool) → (ℕ → Bool) → ℕ → List ℕ → Bool
headed first next most [] = false
headed first next most (c ∷ cs) = first c && leb (length cs) most && all next cs

-- `volumeNamePat`: `^[a-z0-9][a-z0-9-]{0,63}$`.
unfoldable pub match_volume_name : String → Bool
match_volume_name s = headed is_plain is_tail 63 (codes s)

-- `releaseIDPattern`: `^[a-z0-9]{1,64}$`.
unfoldable pub match_release_id : String → Bool
match_release_id s = leb 1 (length (codes s)) && leb (length (codes s)) 64 && all is_plain (codes s)

-- `pathSegPattern`: `^[A-Za-z0-9][A-Za-z0-9._-]{0,99}$`.
unfoldable pub match_path_segment : String → Bool
match_path_segment s = headed is_alnum is_segment 99 (codes s)

-- `branchPattern`: `^[A-Za-z0-9][A-Za-z0-9._/-]{0,254}$`.
unfoldable pub match_branch : String → Bool
match_branch s = headed is_alnum (λ c. is_segment c || c == b'/') 254 (codes s)

abbrev key_codes : List ℕ → Bool
key_codes [] = false
key_codes (c ∷ cs) = (is_letter c || c == b'_') && all (λ d. is_alnum d || d == b'_') cs

-- `buildArgPattern` and `envKeyPattern`: `^[A-Za-z_][A-Za-z0-9_]*$`.
unfoldable pub match_env_key : String → Bool
match_env_key s = key_codes (codes s)

abbrev label_from : ℕ → List ℕ → Bool
label_from c [] = is_plain c
label_from c (d ∷ ds) = is_tail c && label_from d ds

-- `[a-z0-9]([a-z0-9-]*[a-z0-9])?`.
abbrev is_label : List ℕ → Bool
is_label [] = false
is_label (c ∷ cs) = is_plain c && label_from c cs

abbrev all_labels : List String → Bool
all_labels [] = true
all_labels (w ∷ ws) = is_label (codes w) && all_labels ws

-- `hostPattern`: labels between dots, two at least.
unfoldable pub match_host : String → Bool
match_host s = let pieces = split "." s in leb 2 (length pieces) && all_labels pieces
