-- ===== src/Admit/Path.antt =====
-- `path.IsAbs` and `path.Clean` of Go's standard library: slash-separated names, with empty ones and
-- `.` dropped, and `..` dropped with the name before it. A `..` that is left is dropped at a root.
use panely.Kit.{ℕ, zero, suc, String, Bool, ◌||◌, List, [], ◌∷◌, ◌=ₛ◌, if◌then◌else◌}
use panely.Kit.Text.{glue, split, join}
use panely.Admit.Patterns.{has_prefix}

-- `path.IsAbs`.
abbrev pub is_abs : String → Bool
is_abs p = has_prefix p "/"

abbrev pub is_skipped : String → Bool
is_skipped w = w =ₛ "" || w =ₛ "."

-- A name in front of names with so many `..` before them.
abbrev pub step_in : String → ℕ × List String → ℕ × List String
step_in w (zero, names) = (zero, w ∷ names)
step_in w (suc ups, names) = (ups, names)

abbrev pub step : String → ℕ × List String → ℕ × List String
step w tidied =
    if is_skipped w
    then tidied
    else if w =ₛ ".."
    then (suc tidied.0, tidied.1)
    else step_in w tidied

-- The names that are left, and how many `..` stand before them.
unfoldable pub tidy : List String → ℕ × List String
tidy [] = (0, [])
tidy (w ∷ ws) = step w (tidy ws)

abbrev pub climb : ℕ → List String → List String
climb zero names = names
climb (suc ups) names = ".." ∷ climb ups names

abbrev pub or_dot : String → String
or_dot p = if p =ₛ "" then "." else p

-- `path.Clean`.
unfoldable pub clean : String → String
unfolding tidy
clean p =
    let tidied = tidy (split "/" p) in
    if is_abs p then glue "/" (join "/" tidied.1) else or_dot (join "/" (climb tidied.0 tidied.1))
