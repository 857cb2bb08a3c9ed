-- ===== src/Store/Events.antt =====
-- The table `task_events`: the query for a task's highest sequence number, and the order of the rows.
use fleet_api.Base.{
  ℕ, ◌+◌, max, ◌<◌, ◌≡◌, refl, String, Bool, true, false, not, ◌&&◌, ◌||◌, List, [], ◌∷◌, ◌++◌,
  ◌==◌, eqb, if◌then◌else◌, arith, eq_iff, Bool-cases, inl, inr,
}
use fleet_api.Task.Row.{TaskEvent}

-- `select(func.coalesce(func.max(TaskEvent.sequence), 0)).where(TaskEvent.task_id == task_id)`
unfoldable pub max_sequence : String → List TaskEvent → ℕ
max_sequence task_id [] = 0
max_sequence task_id (e ∷ es) =
    let rest = max_sequence task_id es in if e.task_id == task_id then max e.sequence rest else rest

-- Each of the new rows has a number above all that its task had before, in the old rows too.
abbrev pub InOrder : List TaskEvent → List TaskEvent → Type 0
InOrder old [] = Unit
InOrder old (e ∷ es) = (max_sequence e.task_id (es ++ old) < e.sequence) × InOrder old es

-- the task has an event with the number
unfoldable pub has_number : String → ℕ → List TaskEvent → Bool
has_number task_id n [] = false
has_number task_id n (e ∷ es) = e.task_id == task_id && eqb e.sequence n || has_number task_id n es

-- The unique index over (task_id, sequence) takes the new rows, the last one first in the list.
unfoldable pub are_numbers_free : List TaskEvent → List TaskEvent → Bool
unfolding has_number
are_numbers_free [] old = true
are_numbers_free (e ∷ es) old =
    not (has_number e.task_id e.sequence (es ++ old)) && are_numbers_free es old

-- A number above all that a task has is free.
pub has_number-above :
    (k : String) (n : ℕ) (es : List TaskEvent) → max_sequence k es < n → has_number k n es ≡ false
unfolding max_sequence has_number
has_number-above k n [] h = refl
has_number-above k n (e ∷ es) h = ground (arith, has_number-above k n es)

pub has_number-next :
    (k : String) (es : List TaskEvent) → has_number k (max_sequence k es + 1) es ≡ false
has_number-next k es = has_number-above k (max_sequence k es + 1) es (omega arith)

-- Rows in order are rows that the index takes.
pub InOrder-are_numbers_free :
    (old new : List TaskEvent) → InOrder old new → are_numbers_free new old ≡ true
unfolding are_numbers_free
InOrder-are_numbers_free old [] h = refl
InOrder-are_numbers_free old (e ∷ es) h =
    rw (has_number-above e.task_id e.sequence (es ++ old) h.0, InOrder-are_numbers_free old es h.1)
      refl

has_number-append_right :
    (k : String) (n : ℕ) (new old : List TaskEvent)
    → has_number k n old ≡ true
    → has_number k n (new ++ old) ≡ true
unfolding has_number
has_number-append_right k n [] old h = h
has_number-append_right k n (e ∷ es) old h = ground (arith, has_number-append_right k n es old)

pub has_number-append_left :
    (k : String) (n : ℕ) (new old : List TaskEvent)
    → has_number k n new ≡ true
    → has_number k n (new ++ old) ≡ true
unfolding has_number
has_number-append_left k n [] old h = cc
has_number-append_left k n (e ∷ es) old h = ground (arith, has_number-append_left k n es old)

-- The index refuses new rows one of which has a task's number that is there already.
pub are_numbers_free-taken :
    (k : String) (n : ℕ) (new old : List TaskEvent)
    → has_number k n new ≡ true
    → has_number k n old ≡ true
    → are_numbers_free new old ≡ false
unfolding are_numbers_free has_number
are_numbers_free-taken k n [] old h g = cc
are_numbers_free-taken k n (e ∷ es) old h g =
    elim (Bool-cases (e.task_id == k && eqb e.sequence n)) [
      | inl same ↦
          let id : e.task_id ≡ k = (eq_iff e.task_id k).0 (ground arith) in
          let number : e.sequence ≡ n = ground arith in
          rw (id, number, has_number-append_right k n es old g) refl
      | inr other ↦ rw (are_numbers_free-taken k n es old (ground arith) g) (ground arith)
    ]
