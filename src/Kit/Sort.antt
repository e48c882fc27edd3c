-- ===== src/Kit/Sort.antt =====
-- `sort.Slice` by a key that is a text, as an insertion sort, and `sort.Strings`.
use Prim.Native.Nat.{Ordering, suc}
use mathlib.Core.Path.{◌≡◌, refl, ap, ◌∙◌}
use native.Mathlib.Omega.{arith}
use Prim.Native.String.{String, compare}
use mathlib.Core.Bool.{Bool, true, false}
use mathlib.Core.List.{List, [], ◌∷◌, Perm}
use mathlib.Core.List.Perm
use mathlib.Core.Logic.{inl, inr}
use panely.Kit.Tests.{if◌then◌else◌, Bool-cases}
use panely.Kit.Lists.{All, Pairs, length}

-- `s < t`, byte by byte.
abbrev pub str_lt : String → String → Bool
str_lt s t = elim (compare s t) [ Ordering.lt ↦ true | _ ↦ false ]

module _ {ℓ} {A : Type ℓ} (key : A → String) where
  unfoldable pub place : A → List A → List A
  place x [] = x ∷ []
  place x (y ∷ ys) =
      let rest = place x ys in if str_lt (key y) (key x) then y ∷ rest else x ∷ (y ∷ ys)

  unfoldable pub sort_by : List A → List A
  unfolding place
  sort_by [] = []
  sort_by (x ∷ xs) = place x (sort_by xs)

  pub place-perm : (x : A) (xs : List A) → Perm (place x xs) (x ∷ xs)
  unfolding place
  place-perm x [] = Perm.refl (x ∷ [])
  place-perm x (y ∷ ys) = elim (Bool-cases (str_lt (key y) (key x))) [
    | inl e ↦ rw e (Perm.trans (Perm.cons y (place-perm x ys)) (Perm.swap x y ys))
    | inr e ↦ rw e (Perm.refl (x ∷ y ∷ ys))
  ]

  pub sort_by-perm : (xs : List A) → Perm (sort_by xs) xs
  unfolding sort_by
  sort_by-perm [] = Perm.refl []
  sort_by-perm (x ∷ xs) = Perm.trans (place-perm x (sort_by xs)) (Perm.cons x (sort_by-perm xs))

  place-All {κ} : (P : A → Type κ) (x : A) (xs : List A) → P x → All P xs → All P (place x xs)
  unfolding place
  place-All P x [] p h = (p, tt)
  place-All P x (y ∷ ys) p h = elim (Bool-cases (str_lt (key y) (key x))) [
    | inl e ↦ rw e (h.0, place-All P x ys p h.1)
    | inr e ↦ rw e (p, h)
  ]

  pub sort_by-All {κ} : (P : A → Type κ) (xs : List A) → All P xs → All P (sort_by xs)
  unfolding sort_by
  sort_by-All P [] h = tt
  sort_by-All P (x ∷ xs) h = place-All P x (sort_by xs) h.0 (sort_by-All P xs h.1)

  pub length-place : (x : A) (xs : List A) → length (place x xs) ≡ suc (length xs)
  unfolding place
  length-place x [] = refl
  length-place x (y ∷ ys) = ground (arith, length-place x ys)

  pub length-sort_by : (xs : List A) → length (sort_by xs) ≡ length xs
  unfolding sort_by
  length-sort_by [] = refl
  length-sort_by (x ∷ xs) = length-place x (sort_by xs) ∙ ap suc (length-sort_by xs)

  -- A symmetric relation holds of each two elements in any order.
  module _ {κ} (R : A → A → Type κ) (symmetric : (x y : A) → R x y → R y x) where
    place-Pairs : (x : A) (xs : List A) → All (R x) xs → Pairs R xs → Pairs R (place x xs)
    unfolding place
    place-Pairs x [] near far = (tt, tt)
    place-Pairs x (y ∷ ys) near far = elim (Bool-cases (str_lt (key y) (key x))) [
      | inl e ↦
          rw e (place-All (R y) x ys (symmetric x y near.0) far.0, place-Pairs x ys near.1 far.1)
      | inr e ↦ rw e (near, far)
    ]

    pub sort_by-Pairs : (xs : List A) → Pairs R xs → Pairs R (sort_by xs)
    unfolding sort_by
    sort_by-Pairs [] h = tt
    sort_by-Pairs (x ∷ xs) h =
        place-Pairs x (sort_by xs) (sort_by-All (R x) xs h.0) (sort_by-Pairs xs h.1)
