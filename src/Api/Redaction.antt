-- ===== src/Api/Redaction.antt =====
-- internal/api/redact.go: which parameters of an audit record are hidden, by their keys. A key is the list of its
-- code points.
use panely.Kit.{
  ℕ, ◌+◌, String, Bool, true, false, not, ◌&&◌, ◌||◌, Option, none, some, List, [], ◌∷◌, leb, ◌==◌,
  if◌then◌else◌,
}
use panely.Kit.Text.{codes}

-- `audit.Redacted`.
abbrev pub redacted : String
redacted = "[REDACTED]"

abbrev pub sensitive_fragments : List String
sensitive_fragments =
    "password" ∷ "passwd" ∷ "pwd" ∷ "secret" ∷ "token" ∷ "apikey" ∷ "api_key" ∷ "credential"
    ∷ "auth" ∷ "session" ∷ "private" ∷ "signature" ∷ "salt" ∷ "dsn" ∷ "conn_str"
    ∷ "connection_string" ∷ "cert" ∷ "cookie" ∷ "license" ∷ []

abbrev pub sensitive_exact : List String
sensitive_exact = "key" ∷ "pass" ∷ "pin" ∷ "otp" ∷ "totp" ∷ "seed" ∷ []

abbrev pub is_upper : ℕ → Bool
is_upper r = leb b'A' r && leb r b'Z'

-- Is there a rune before this one that ends a word of a camelCase name?
abbrev pub ends_word : Option ℕ → Bool
ends_word none = false
ends_word (some p) = not (is_upper p) && not (p == b'_')

-- The loop of `normalizeKey`, with the rune before.
unfoldable pub normalize : Option ℕ → List ℕ → List ℕ
normalize prev [] = []
normalize prev (r ∷ rs) =
    let rest = normalize (some r) rs in
    if r == b'-' || r == b'.' || r == b' '
    then b'_' ∷ rest
    else if is_upper r
    then (if ends_word prev then b'_' ∷ ((r + 32) ∷ rest) else (r + 32) ∷ rest)
    else r ∷ rest

-- `normalizeKey`.
unfoldable pub normalize_key : List ℕ → List ℕ
unfolding normalize
normalize_key name = normalize none name

-- `strings.HasPrefix`, `strings.Contains` and `==` on code points.
abbrev pub starts : List ℕ → List ℕ → Bool
starts [] s = true
starts (p ∷ ps) [] = false
starts (p ∷ ps) (c ∷ s) = p == c && starts ps s

abbrev pub has_part : List ℕ → List ℕ → Bool
has_part part [] = starts part []
has_part part (c ∷ s) = starts part (c ∷ s) || has_part part s

abbrev pub same : List ℕ → List ℕ → Bool
same [] [] = true
same (a ∷ s) (b ∷ t) = a == b && same s t
same _ _ = false

abbrev pub push : ℕ → List (List ℕ) → List (List ℕ)
push c [] = (c ∷ []) ∷ []
push c (w ∷ ws) = (c ∷ w) ∷ ws

-- `strings.Split(norm, "_")`.
abbrev pub split_words : List ℕ → List (List ℕ)
split_words [] = [] ∷ []
split_words (c ∷ s) = let rest = split_words s in if c == b'_' then [] ∷ rest else push c rest

abbrev pub has_fragment : List String → List ℕ → Bool
has_fragment [] norm = false
has_fragment (f ∷ fs) norm = has_part (codes f) norm || has_fragment fs norm

abbrev pub is_exact : List String → List ℕ → Bool
is_exact [] part = false
is_exact (e ∷ es) part = same part (codes e) || is_exact es part

abbrev pub any_exact : List (List ℕ) → Bool
any_exact [] = false
any_exact (p ∷ ps) = is_exact sensitive_exact p || any_exact ps

-- `isSensitiveKey`.
unfoldable pub is_sensitive_key : String → Bool
unfolding normalize_key
is_sensitive_key name =
    let norm = normalize_key (codes name) in
    has_fragment sensitive_fragments norm || any_exact (split_words norm)

-- `redactSensitive`.
unfoldable pub redact_sensitive : List (String × String) → List (String × String)
redact_sensitive [] = []
redact_sensitive (e ∷ es) =
    let rest = redact_sensitive es in
    if is_sensitive_key e.0 then (e.0, redacted) ∷ rest else e ∷ rest
