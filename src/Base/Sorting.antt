-- ===== src/Base/Sorting.antt =====
-- Selecting rows and putting them in order, as the queries do.
use mathlib.Core.Path.{◌≡◌, refl, ap, ◌∙◌}
use mathlib.Core.Bool.{Bool, true, false, ◌&&◌, ◌||◌}
use mathlib.Core.List.{List, [], ◌∷◌, ◌++◌}
use native.Mathlib.Omega.{arith}
use Prim.Native.Nat.{suc, ◌≤◌}
use fleet_api.Base.Lists.{length}
use fleet_api.Base.Tests.{if◌then◌else◌}

module _ {ℓ} {A : Type ℓ} where
  unfoldable pub select : (A → Bool) → List A → List A
  select p [] = []
  select p (x ∷ xs) = let rest = select p xs in if p x then x ∷ rest else rest

  unfoldable pub any : (A → Bool) → List A → Bool
  any p [] = false
  any p (x ∷ xs) = p x || any p xs

  -- `before x y` holds where `x` may stand before `y`
  unfoldable pub insert : (A → A → Bool) → A → List A → List A
  insert before x [] = x ∷ []
  insert before x (y ∷ ys) = if before x y then x ∷ y ∷ ys else y ∷ insert before x ys

  unfoldable pub sort : (A → A → Bool) → List A → List A
  unfolding insert
  sort before [] = []
  sort before (x ∷ xs) = insert before x (sort before xs)

  any-insert :
      (p : A → Bool) (before : A → A → Bool) (x : A) (ys : List A)
      → any p (insert before x ys) ≡ any p (x ∷ ys)
  unfolding any insert
  any-insert p before x [] = refl
  any-insert p before x (y ∷ ys) = ground (arith, any-insert p before x ys)

  pub any-sort :
      (p : A → Bool) (before : A → A → Bool) (xs : List A) → any p (sort before xs) ≡ any p xs
  unfolding any sort
  any-sort p before [] = refl
  any-sort p before (x ∷ xs) =
      any-insert p before x (sort before xs) ∙ ap (λ b. p x || b) (any-sort p before xs)

  pub any-select : (p q : A → Bool) (xs : List A) → any p (select q xs) ≡ any (λ x. q x && p x) xs
  unfolding any select
  any-select p q [] = refl
  any-select p q (x ∷ xs) = ground (arith, any-select p q xs)

  pub any-append : (p : A → Bool) (xs ys : List A) → any p (xs ++ ys) ≡ (any p xs || any p ys)
  unfolding any
  any-append p [] ys = refl
  any-append p (x ∷ xs) ys = ground (arith, any-append p xs ys)

-- each element stands before the next
abbrev pub InOrderBy {ℓ} : {A : Type ℓ} → (A → A → Bool) → List A → Type 0
InOrderBy before [] = Unit
InOrderBy before (x ∷ []) = Unit
InOrderBy before (x ∷ y ∷ ys) = (before x y ≡ true) × InOrderBy before (y ∷ ys)

module _ {ℓ} {A : Type ℓ} where
  length-insert :
      (before : A → A → Bool) (x : A) (ys : List A) → length (insert before x ys) ≡ suc (length ys)
  unfolding insert
  length-insert before x [] = refl
  length-insert before x (y ∷ ys) = ground (arith, length-insert before x ys)

  pub length-sort : (before : A → A → Bool) (xs : List A) → length (sort before xs) ≡ length xs
  unfolding sort
  length-sort before [] = refl
  length-sort before (x ∷ xs) =
      length-insert before x (sort before xs) ∙ ap suc (length-sort before xs)

  pub length-select-le : (p : A → Bool) (xs : List A) → length (select p xs) ≤ length xs
  unfolding select
  length-select-le p [] = omega arith
  length-select-le p (x ∷ xs) = ground (arith, length-select-le p xs)
