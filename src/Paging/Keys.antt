-- ===== src/Paging/Keys.antt =====
-- Rows in the order of distinct keys.
use fleet_api.Base.{
  ◌≡◌, ◌≢◌, inl, inr, Bool, true, false, List, [], ◌∷◌, All, Bool-cases, select, sort, insert,
}

-- A strict total order, as a test.
pub record IsOrder {K : Type 0} (lt : K → K → Bool) : Type 0 where
  pub irrefl : (a : K) → lt a a ≡ false
  pub trans : (a b c : K) → lt a b ≡ true → lt b c ≡ true → lt a c ≡ true
  pub connex : (a b : K) → lt a b ≡ false → lt b a ≡ false → a ≡ b

module _ {A K : Type 0} (key : A → K) where
  -- no row has the key
  abbrev pub IsFree : K → List A → Type 0
  IsFree k xs = All (λ x. key x ≢ k) xs

  abbrev pub HasDistinctKeys : List A → Type 0
  HasDistinctKeys [] = Unit
  HasDistinctKeys (x ∷ xs) = IsFree (key x) xs × HasDistinctKeys xs

pub All-insert :
    {A : Type 0} (P : A → Type 0) (before : A → A → Bool) (x : A) (ys : List A)
    → P x
    → All P ys
    → All P (insert before x ys)
unfolding insert
All-insert P before x [] h hs = (h, tt)
All-insert P before x (y ∷ ys) h hs = elim (Bool-cases (before x y)) [
  | inl e ↦ rw e (h, hs)
  | inr e ↦ rw e (hs.0, All-insert P before x ys h hs.1)
]

pub All-sort :
    {A : Type 0} (P : A → Type 0) (before : A → A → Bool) (xs : List A)
    → All P xs
    → All P (sort before xs)
unfolding sort
All-sort P before [] h = tt
All-sort P before (x ∷ xs) h = All-insert P before x (sort before xs) h.0 (All-sort P before xs h.1)

pub All-select :
    {A : Type 0} (P : A → Type 0) (p : A → Bool) (xs : List A) → All P xs → All P (select p xs)
unfolding select
All-select P p [] h = tt
All-select P p (x ∷ xs) h = elim (Bool-cases (p x)) [
  | inl e ↦ rw e (h.0, All-select P p xs h.1)
  | inr e ↦ rw e (All-select P p xs h.1)
]

pub HasDistinctKeys-select :
    {A K : Type 0} (key : A → K) (p : A → Bool) (xs : List A)
    → HasDistinctKeys key xs
    → HasDistinctKeys key (select p xs)
unfolding select
HasDistinctKeys-select key p [] h = tt
HasDistinctKeys-select key p (x ∷ xs) h = elim (Bool-cases (p x)) [
  | inl e ↦ rw e (All-select _ p xs h.0, HasDistinctKeys-select key p xs h.1)
  | inr e ↦ rw e (HasDistinctKeys-select key p xs h.1)
]
