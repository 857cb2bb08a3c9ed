-- ===== src/Paging/Walk.antt =====
-- A client that follows the cursors sees every row once, in order.
use mathlib.Core.List.{append_assoc, append-nil}
use fleet_api.Base.{
  ℕ, zero, suc, ◌≤◌, ◌<◌, ◌≡◌, ◌≢◌, refl, sym, ap, ◌∙◌, subst, ◌⊎◌, inl, inr, Bool, true, false,
  Option, none, some, List, [], ◌∷◌, ◌++◌, All, Bool-cases, arith, select, sort, insert, length,
  ltb, length-append, length-sort,
}
use fleet_api.Paging.{take, last, comes_first, is_after, cut, get_page, walk}
use fleet_api.Paging.Keys.{IsOrder, IsFree, HasDistinctKeys, All-insert, All-sort}

abbrev pub concat {ℓ} : {A : Type ℓ} → List (List A) → List A
concat [] = []
concat (xs ∷ xss) = xs ++ concat xss

module _ {A : Type 0} where
  -- a list is short, or goes on after its first m + 1 items
  split_at :
      (m : ℕ) (xs : List A)
      → (length xs ≤ suc m)
        ⊎ ((front : List A) × (x : A) × (y : A) × (rest : List A) × (xs ≡ front ++ x ∷ y ∷ rest)
            × (length front ≡ m))
  split_at m [] = inl (omega arith)
  split_at zero (x ∷ []) = inl (omega arith)
  split_at zero (x ∷ y ∷ rest) = inr ([], x, y, rest, refl, refl)
  split_at (suc m) (z ∷ xs) = elim (split_at m xs) [
    | inl short ↦ inl (omega arith)
    | inr (front, x, y, rest, e, n) ↦ inr (z ∷ front, x, y, rest, ap (λ l. z ∷ l) e, ap suc n)
  ]

  take-all : (n : ℕ) (xs : List A) → length xs ≤ n → take n xs ≡ xs
  take-all zero [] h = refl
  take-all zero (x ∷ xs) h = absurd (omega arith)
  take-all (suc n) [] h = refl
  take-all (suc n) (x ∷ xs) h = ap (λ l. x ∷ l) (take-all n xs (omega arith))

  take-append :
      (front : List A) (x : A) (rest : List A)
      → take (suc (length front)) (front ++ x ∷ rest) ≡ front ++ x ∷ []
  take-append [] x rest = refl
  take-append (z ∷ front) x rest = ap (λ l. z ∷ l) (take-append front x rest)

  last-append : (front : List A) (x : A) → last (front ++ x ∷ []) ≡ some x
  last-append [] x = refl
  last-append (z ∷ []) x = refl
  last-append (z ∷ w ∷ front) x = last-append (w ∷ front) x

module _ {A K : Type 0} (key : A → K) (lt : K → K → Bool) where
  abbrev pub IsAbove : K → List A → Type 0
  IsAbove k xs = All (λ y. lt k (key y) ≡ true) xs

  abbrev pub IsAscending : List A → Type 0
  IsAscending [] = Unit
  IsAscending (x ∷ xs) = IsAbove (key x) xs × IsAscending xs

module _ {A K : Type 0} (key : A → K) (lt : K → K → Bool) (order : IsOrder lt) where
  IsAbove-trans :
      (j k : K) (xs : List A) → lt j k ≡ true → IsAbove key lt k xs → IsAbove key lt j xs
  IsAbove-trans j k [] h hs = tt
  IsAbove-trans j k (x ∷ xs) h hs = (order.trans j k (key x) h hs.0, IsAbove-trans j k xs h hs.1)

  lt_of_first : (x y : A) → key y ≢ key x → lt (key y) (key x) ≡ false → lt (key x) (key y) ≡ true
  lt_of_first x y ne h = elim (Bool-cases (lt (key x) (key y))) [
    | inl e ↦ e
    | inr e ↦ absurd (ne (order.connex (key y) (key x) h e))
  ]

  insert-IsAscending :
      (x : A) (ys : List A)
      → IsFree key (key x) ys
      → IsAscending key lt ys
      → IsAscending key lt (insert (comes_first key lt) x ys)
  unfolding insert
  insert-IsAscending x [] f h = (tt, tt)
  insert-IsAscending x (y ∷ ys) f h = elim (Bool-cases (lt (key y) (key x))) [
    | inl e ↦ rw e (All-insert _ (comes_first key lt) x ys e h.0, insert-IsAscending x ys f.1 h.1)
    | inr e ↦
        let first = lt_of_first x y f.0 e in
        rw e ((first, IsAbove-trans (key x) (key y) ys first h.0), h)
  ]

  pub sort-IsAscending :
      (xs : List A) → HasDistinctKeys key xs → IsAscending key lt (sort (comes_first key lt) xs)
  unfolding sort
  sort-IsAscending [] h = tt
  sort-IsAscending (x ∷ xs) h =
      insert-IsAscending x (sort (comes_first key lt) xs) (All-sort _ (comes_first key lt) xs h.0)
        (sort-IsAscending xs h.1)

  select-above :
      (k : K) (xs : List A) → IsAbove key lt k xs → select (is_after key lt (some k)) xs ≡ xs
  unfolding select
  select-above k [] h = refl
  select-above k (x ∷ xs) h = rw h.0 (ap (λ l. x ∷ l) (select-above k xs h.1))

  above_last :
      (x : A) (front : List A) (y : A) (rest : List A)
      → IsAbove key lt (key x) (front ++ y ∷ rest)
      → lt (key x) (key y) ≡ true
  above_last x [] y rest h = h.0
  above_last x (z ∷ front) y rest h = above_last x front y rest h.1

  lt_antisym : (a b : K) → lt a b ≡ true → lt b a ≡ false
  lt_antisym a b h = elim (Bool-cases (lt b a)) [
    | inl e ↦ cc (order.trans a b a h e, order.irrefl a)
    | inr e ↦ e
  ]

  -- the rows after the key of one of them
  pub select-after :
      (front : List A) (x : A) (rest : List A)
      → IsAscending key lt (front ++ x ∷ rest)
      → select (is_after key lt (some (key x))) (front ++ x ∷ rest) ≡ rest
  unfolding select
  select-after [] x rest h = rw (order.irrefl (key x)) (select-above (key x) rest h.0)
  select-after (z ∷ front) x rest h =
      rw (lt_antisym (key z) (key x) (above_last z front x rest h.0))
        (select-after front x rest h.1)

  cut-short :
      (m total : ℕ) (rest : List A)
      → length rest ≤ suc m
      → cut key lt (suc m) total rest
        ≡ record { items = rest; next_key = none; has_more = false; total_count = total }
  unfolding cut
  cut-short m total rest h =
      let fits : ltb (suc m) (length rest) ≡ false = ground arith in rw fits refl

  cut-long :
      (m total : ℕ) (front : List A) (x y : A)
      → length front ≡ m
      → cut key lt (suc m) total (front ++ x ∷ y ∷ []) ≡ record {
        items = front ++ x ∷ [];
        next_key = some (key x);
        has_more = true;
        total_count = total;
      }
  unfolding cut
  cut-long m total front x y n =
      let long : ltb (suc m) (length (front ++ x ∷ y ∷ [])) ≡ true =
        ground (arith, length-append front (x ∷ y ∷ [])) in
      let items : take (suc m) (front ++ x ∷ y ∷ []) ≡ front ++ x ∷ [] =
        ap (λ k. take (suc k) (front ++ x ∷ y ∷ [])) (sym n) ∙ take-append front x (y ∷ []) in
      rw (long, items, last-append front x) refl

  module _ (m : ℕ) (rows : List A) (distinct : HasDistinctKeys key rows) where
    abbrev listed : List A
    listed = sort (comes_first key lt) rows

    -- the pages together are what is left, and none is longer than the limit
    abbrev pub Covers : List (List A) → List A → Type 0
    Covers pages rest = (concat pages ≡ rest) × All (λ p. length p ≤ suc m) pages

    module _ (cursor : Option K) where
      short_page :
          (rest : List A)
          → select (is_after key lt cursor) listed ≡ rest
          → length rest ≤ suc m
          → get_page key lt (suc m) cursor rows
            ≡ record { items = rest; next_key = none; has_more = false; total_count = length rows }
      unfolding get_page
      short_page rest e h =
          ap (λ l. cut key lt (suc m) (length rows) (take (suc (suc m)) l)) e
          ∙ ap (cut key lt (suc m) (length rows)) (take-all (suc (suc m)) rest (omega arith))
          ∙ cut-short m (length rows) rest h

      full_page :
          (front : List A) (x y : A) (rest : List A)
          → select (is_after key lt cursor) listed ≡ front ++ x ∷ y ∷ rest
          → length front ≡ m
          → get_page key lt (suc m) cursor rows ≡ record {
            items = front ++ x ∷ [];
            next_key = some (key x);
            has_more = true;
            total_count = length rows;
          }
      unfolding get_page
      full_page front x y rest e n =
          let regroup : (l : List A) → front ++ x ∷ y ∷ l ≡ (front ++ x ∷ []) ++ y ∷ l =
            λ l. sym (append_assoc front (x ∷ []) (y ∷ l)) in
          let len : length (front ++ x ∷ []) ≡ suc m =
            omega (arith, length-append front (x ∷ [])) in
          let fetched : take (suc (suc m)) (front ++ x ∷ y ∷ rest) ≡ front ++ x ∷ y ∷ [] =
            ap (take (suc (suc m))) (regroup rest)
            ∙ ap (λ k. take (suc k) ((front ++ x ∷ []) ++ y ∷ rest)) (sym len)
            ∙ take-append (front ++ x ∷ []) y rest
            ∙ sym (regroup []) in
          ap (λ l. cut key lt (suc m) (length rows) (take (suc (suc m)) l)) e
          ∙ ap (cut key lt (suc m) (length rows)) fetched
          ∙ cut-long m (length rows) front x y n

    walk_lem :
        (fuel : ℕ) (cursor : Option K) (seen rest : List A)
        → listed ≡ seen ++ rest
        → select (is_after key lt cursor) listed ≡ rest
        → length rest < fuel
        → Covers (walk key lt fuel (suc m) cursor rows) rest
    unfolding walk
    walk_lem zero cursor seen rest whole e h = absurd (omega arith)
    walk_lem (suc fuel) cursor seen rest whole e h = elim (split_at m rest) [
      | inl short ↦ rw (short_page cursor rest e short) (append-nil rest, (short, tt))
      | inr (front, x, y, more, eq, n) ↦
          let whole' : listed ≡ (seen ++ front) ++ x ∷ y ∷ more =
            whole ∙ ap (λ l. seen ++ l) eq ∙ sym (append_assoc seen front (x ∷ y ∷ more)) in
          let after : select (is_after key lt (some (key x))) listed ≡ y ∷ more =
            ap (select (is_after key lt (some (key x)))) whole'
            ∙ select-after (seen ++ front) x (y ∷ more)
                (subst (IsAscending key lt) whole' (sort-IsAscending rows distinct)) in
          let whole'' : listed ≡ ((seen ++ front) ++ x ∷ []) ++ y ∷ more =
            whole' ∙ sym (append_assoc (seen ++ front) (x ∷ []) (y ∷ more)) in
          let (covered, bounded) =
            walk_lem fuel (some (key x)) ((seen ++ front) ++ x ∷ []) (y ∷ more) whole'' after
              (omega (arith, ap length eq, length-append front (x ∷ y ∷ more))) in
          rw (full_page cursor front x y more (e ∙ eq) n) (
            append_assoc front (x ∷ []) (concat (walk key lt fuel (suc m) (some (key x)) rows))
                ∙ ap (λ l. front ++ x ∷ l) covered
                ∙ sym eq,
            (omega (arith, length-append front (x ∷ [])), bounded),
          )
    ]

    select-all : (xs : List A) → select (is_after key lt none) xs ≡ xs
    unfolding select
    select-all [] = refl
    select-all (x ∷ xs) = ap (λ l. x ∷ l) (select-all xs)

    -- More calls than there are rows are enough for a client to get every row once and in order, in
    -- pages no longer than the limit.
    pub walk-Covers :
        (fuel : ℕ) → length rows < fuel → Covers (walk key lt fuel (suc m) none rows) listed
    walk-Covers fuel h =
        walk_lem fuel none [] listed refl (select-all listed)
          (omega (arith, length-sort (comes_first key lt) rows))
