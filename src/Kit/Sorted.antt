-- ===== src/Kit/Sorted.antt =====
-- `sort.Strings` lists the same texts, and lists none twice that was listed once.
use Prim.Native.String.{String}
use mathlib.Core.Path.{◌≡◌, refl}
use mathlib.Core.Bool.{false, ◌||◌}
use mathlib.Core.List.{List, [], ◌∷◌}
use native.Mathlib.Omega.{arith}
use text.Mathlib.TextEquality.{eq_iff}
use panely.Kit.Tests.{◌=ₛ◌}
use panely.Kit.Lists.{contains, Distinct}
use panely.Kit.Sort.{sort_by, place}

contains-place :
    (x s : String) (xs : List String) → contains (place (λ t. t) x xs) s ≡ (x =ₛ s || contains xs s)
unfolding place
contains-place x s [] = refl
contains-place x s (y ∷ ys) = ground (arith, contains-place x s ys)

pub contains-sort_by :
    (s : String) (xs : List String) → contains (sort_by (λ t. t) xs) s ≡ contains xs s
unfolding sort_by
contains-sort_by s [] = refl
contains-sort_by s (x ∷ xs) =
    ground (arith, contains-place x s (sort_by (λ t. t) xs), contains-sort_by s xs)

place-Distinct :
    (x : String) (xs : List String)
    → contains xs x ≡ false
    → Distinct xs
    → Distinct (place (λ t. t) x xs)
unfolding place
place-Distinct x [] e h = (refl, tt)
place-Distinct x (y ∷ ys) e h =
    ground (arith, place-Distinct x ys, contains-place x y ys, eq_iff x y, eq_iff y x)

pub sort_by-Distinct : (xs : List String) → Distinct xs → Distinct (sort_by (λ t. t) xs)
unfolding sort_by
sort_by-Distinct [] h = tt
sort_by-Distinct (x ∷ xs) h =
    place-Distinct x (sort_by (λ t. t) xs) (ground (arith, contains-sort_by x xs))
      (sort_by-Distinct xs h.1)
