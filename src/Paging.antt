-- ===== src/Paging.antt =====
-- Cursor pagination, which `list_tasks` of tasks/crud.py and `list_workflows` of workflows/service.py
-- write the same way: order the rows by a key, drop those up to the cursor's key, fetch one row more
-- than the limit, and give the last key out as the next cursor.
pub mod Keys
pub mod Walk
use fleet_api.Base.{
  ℕ, zero, suc, Bool, true, false, not, Option, none, some, List, [], ◌∷◌, length, ltb,
  if◌then◌else◌, select, sort,
}

abbrev pub take {ℓ} : {A : Type ℓ} → ℕ → List A → List A
take zero xs = []
take (suc n) [] = []
take (suc n) (x ∷ xs) = x ∷ take n xs

abbrev pub last {ℓ} : {A : Type ℓ} → List A → Option A
last [] = none
last (x ∷ []) = some x
last (x ∷ y ∷ ys) = last (y ∷ ys)

-- What a call returns: the items, the key of the next cursor, `has_more` and `total_count`.
pub record Page (A K : Type 0) : Type 0 where
  pub items : List A
  pub next_key : Option K
  pub has_more : Bool
  pub total_count : ℕ

module _ {A K : Type 0} (key : A → K) (lt : K → K → Bool) where
  -- ORDER BY: `a` stands before `b` unless its key is greater
  abbrev pub comes_first : A → A → Bool
  comes_first a b = not (lt (key b) (key a))

  -- WHERE key > cursor
  abbrev pub is_after : Option K → A → Bool
  is_after none a = true
  is_after (some k) a = lt k (key a)

  abbrev next_of : Option A → Option K
  next_of none = none
  next_of (some a) = some (key a)

  -- the page, from the rows that LIMIT limit + 1 has fetched
  unfoldable pub cut : ℕ → ℕ → List A → Page A K
  cut limit total fetched =
      if ltb limit (length fetched)
      then record {
        items = take limit fetched;
        next_key = next_of (last (take limit fetched));
        has_more = true;
        total_count = total;
      }
      else record { items = fetched; next_key = none; has_more = false; total_count = total }

  -- `rows` have passed the filters
  unfoldable pub get_page : ℕ → Option K → List A → Page A K
  unfolding cut
  get_page limit cursor rows =
      cut limit (length rows) (take (suc limit) (select (is_after cursor) (sort comes_first rows)))

  -- A client that asks for page after page, `pages` of them at most.
  unfoldable pub walk : ℕ → ℕ → Option K → List A → List (List A)
  walk zero limit cursor rows = []
  walk (suc pages) limit cursor rows =
      let page = get_page limit cursor rows in
      page.items ∷ (elim page.next_key [ none ↦ [] | some k ↦ walk pages limit (some k) rows ])
