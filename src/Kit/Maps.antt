-- ===== src/Kit/Maps.antt =====
-- Go maps from texts, as association lists: assignment, `delete` and lookup.
use Prim.Native.String.{String}
use mathlib.Core.Path.{◌≡◌, refl}
use mathlib.Core.Bool.{Bool}
use mathlib.Core.List.{List, [], ◌∷◌}
use mathlib.Core.Option.{Option, none, some}
use native.Mathlib.Omega.{arith}
use text.Mathlib.TextEquality.{eq_iff}
use panely.Kit.Tests.{◌=ₛ◌, if◌then◌else◌}

module _ {ℓ} {Val : Type ℓ} where
  -- `m[key]`, and whether it is there.
  unfoldable pub lookup : String → List (String × Val) → Option Val
  lookup key [] = none
  lookup key (e ∷ rest) = if e.0 =ₛ key then some e.1 else lookup key rest

  -- `m[key] = new`: the entry is changed in its place, or added at the end.
  unfoldable pub insert : String → Val → List (String × Val) → List (String × Val)
  insert key new [] = (key, new) ∷ []
  insert key new (e ∷ rest) =
      let further = insert key new rest in if e.0 =ₛ key then (key, new) ∷ rest else e ∷ further

  -- `delete(m, key)`.
  unfoldable pub erase : String → List (String × Val) → List (String × Val)
  erase key [] = []
  erase key (e ∷ rest) = let fewer = erase key rest in if e.0 =ₛ key then fewer else e ∷ fewer

  -- The entries whose key passes the test.
  unfoldable pub keep : (String → Bool) → List (String × Val) → List (String × Val)
  keep test [] = []
  keep test (e ∷ rest) = let fewer = keep test rest in if test e.0 then e ∷ fewer else fewer

  pub lookup-keep :
      (test : String → Bool) (j : String) (es : List (String × Val))
      → lookup j (keep test es) ≡ (if test j then lookup j es else none)
  unfolding lookup keep
  lookup-keep test j [] = ground arith
  lookup-keep test j (e ∷ es) = ground (arith, lookup-keep test j es, eq_iff e.0 j)

  pub lookup-erase :
      (gone j : String) (es : List (String × Val))
      → lookup j (erase gone es) ≡ (if gone =ₛ j then none else lookup j es)
  unfolding lookup erase
  lookup-erase gone j [] = ground arith
  lookup-erase gone j (e ∷ es) =
      ground (arith, lookup-erase gone j es, eq_iff e.0 j, eq_iff e.0 gone, eq_iff gone j)

  pub lookup-insert :
      (key j : String) (new : Val) (es : List (String × Val))
      → lookup j (insert key new es) ≡ (if key =ₛ j then some new else lookup j es)
  unfolding lookup insert
  lookup-insert key j new [] = refl
  lookup-insert key j new (e ∷ es) =
      ground (arith, lookup-insert key j new es, eq_iff e.0 j, eq_iff e.0 key, eq_iff key j)

  pub insert-insert :
      (key : String) (new old : Val) (es : List (String × Val))
      → insert key new (insert key old es) ≡ insert key new es
  unfolding insert
  insert-insert key new old [] = ground (arith, eq_iff key key)
  insert-insert key new old (e ∷ es) = ground (arith, insert-insert key new old es, eq_iff key key)
