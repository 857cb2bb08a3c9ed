-- ===== src/Store/Table.antt =====
-- A table: a list of rows with a primary key, the newest row first. `find` is `session.get`.
use fleet_api.Base.{
  String, ◌≡◌, Option, none, some, List, [], ◌∷◌, ◌==◌, eq_iff, arith, is_some, if◌then◌else◌,
}

module _ {ℓ} {A : Type ℓ} (id_of : A → String) where
  unfoldable pub find : String → List A → Option A
  find k [] = none
  find k (x ∷ xs) = if id_of x == k then some x else find k xs

  -- the UPDATE of the row with the primary key of `y`
  unfoldable pub replace : A → List A → List A
  replace y [] = []
  replace y (x ∷ xs) = if id_of x == id_of y then y ∷ xs else x ∷ replace y xs

  pub id-find : (k : String) (xs : List A) (x : A) → find k xs ≡ some x → id_of x ≡ k
  unfolding find
  id-find k [] x h = cc
  id-find k (y ∷ xs) x h = ground (arith, eq_iff (id_of y) k, id-find k xs x)

  pub find-replace :
      (k : String) (y : A) (xs : List A)
      → find k (replace y xs)
        ≡ (if id_of y == k then (if is_some (find k xs) then some y else none) else find k xs)
  unfolding find replace
  find-replace k y [] = ground arith
  find-replace k y (x ∷ xs) = ground (
    arith,
    eq_iff (id_of x) (id_of y),
    eq_iff (id_of x) k,
    eq_iff (id_of y) k,
    find-replace k y xs,
  )
