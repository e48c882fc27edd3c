-- ===== src/Kit/Text.antt =====
-- Texts as code points, and `strings.Split` and `strings.Join` at a separator of one character.
use Prim.Native.Char.{Char, code}
use Prim.Native.Nat.{ℕ}
use Prim.Native.String.{String}
use mathlib.Core.Path.{◌≡◌, refl}
use mathlib.Core.Logic.{inl, inr, ◌≢◌}
use mathlib.Core.Bool.{Bool, true, not, ◌&&◌}
use mathlib.Core.List.{List, [], ◌∷◌}
use native.Mathlib.Omega.{arith}
use text.Mathlib.TextEquality.{codes_equal}
use panely.Kit.Tests.{◌==◌, if◌then◌else◌, Bool-cases}
use panely.Kit.Lists.{All}

abbrev pub codes : String → List ℕ
codes String.[] = []
codes (String.◌∷◌ c s) = code c ∷ codes s

-- One more character at the front of the first piece.
abbrev pub push_front : Char → List String → List String
push_front c [] = String.◌∷◌ c String.[] ∷ []
push_front c (w ∷ ws) = String.◌∷◌ c w ∷ ws

-- `strings.Split(s, sep)`: always at least one piece.
unfoldable pub split : Char → String → List String
split sep String.[] = String.[] ∷ []
split sep (String.◌∷◌ c s) =
    let rest = split sep s in if code c == code sep then String.[] ∷ rest else push_front c rest

-- `s + t`.
abbrev pub glue : String → String → String
glue String.[] t = t
glue (String.◌∷◌ c s) t = String.◌∷◌ c (glue s t)

-- `strings.Join(ws, sep)`.
unfoldable pub join : Char → List String → String
join sep [] = String.[]
join sep (w ∷ []) = w
join sep (w ∷ (v ∷ vs)) = glue w (String.◌∷◌ sep (join sep (v ∷ vs)))

-- Does the separator stay out of the text?
abbrev pub avoids : Char → String → Bool
avoids sep String.[] = true
avoids sep (String.◌∷◌ c s) = not (code c == code sep) && avoids sep s

abbrev pub Avoids : Char → String → Type 0
Avoids sep s = avoids sep s ≡ true

split-Avoids : (sep : Char) (w : String) → Avoids sep w → split sep w ≡ w ∷ []
unfolding split
split-Avoids sep String.[] h = refl
split-Avoids sep (String.◌∷◌ c s) h = ground (arith, split-Avoids sep s)

split-glue :
    (sep : Char) (w t : String)
    → Avoids sep w
    → split sep (glue w (String.◌∷◌ sep t)) ≡ w ∷ split sep t
unfolding split
split-glue sep String.[] t h = ground arith
split-glue sep (String.◌∷◌ c s) t h = ground (arith, split-glue sep s t)

-- Pieces without the separator come back from their join.
pub split-join :
    (sep : Char) (ws : List String) → ws ≢ [] → All (Avoids sep) ws → split sep (join sep ws) ≡ ws
unfolding join
split-join sep [] ne h = absurd (ne refl)
split-join sep (w ∷ []) ne h = split-Avoids sep w h.0
split-join sep (w ∷ (v ∷ vs)) ne h =
    ground (arith, split-glue sep w (join sep (v ∷ vs)), split-join sep (v ∷ vs) (λ e. cc) h.1)

join-push_front :
    (sep c : Char) (ws : List String) → join sep (push_front c ws) ≡ String.◌∷◌ c (join sep ws)
unfolding join
join-push_front sep c [] = refl
join-push_front sep c (w ∷ []) = refl
join-push_front sep c (w ∷ (v ∷ vs)) = refl

pub split-ne-nil : (sep : Char) (s : String) → split sep s ≢ []
unfolding split
split-ne-nil sep String.[] e = cc
split-ne-nil sep (String.◌∷◌ c s) e = ground arith

join-cons_nil :
    (sep : Char) (ws : List String)
    → ws ≢ []
    → join sep (String.[] ∷ ws) ≡ String.◌∷◌ sep (join sep ws)
unfolding join
join-cons_nil sep [] ne = absurd (ne refl)
join-cons_nil sep (w ∷ ws) ne = refl

char_eq : (c d : Char) → (code d == code c) ≡ true → c ≡ d
char_eq c d e = codes_equal c d (ground arith)

-- Joining the pieces of a text gives the text back.
pub join-split : (sep : Char) (s : String) → join sep (split sep s) ≡ s
unfolding split
join-split sep String.[] = unfold join in refl
join-split sep (String.◌∷◌ c s) = elim (Bool-cases (code c == code sep)) [
  | inl e ↦
      rw
        (e, join-cons_nil sep (split sep s) (split-ne-nil sep s), join-split sep s, char_eq sep c e)
  | inr e ↦ rw (e, join-push_front sep c (split sep s), join-split sep s)
]
