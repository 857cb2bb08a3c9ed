-- ===== src/Streamer/Retries.antt =====
-- The retries of one event.
use fleet_api.Base.{
  ℕ, zero, suc, ◌+◌, ◌≤◌, ◌<◌, ◌≡◌, ◌∙◌, sym, ap, ◌⊎◌, inl, inr, refl, true, false, arith,
  Bool-cases, min, ◌*◌,
}
use fleet_api.Streamer.{Response, Delivery, post_rounds, post_with_retries, is_final}

-- The first final response among `rounds` attempts from number a on, and the loop's report of it.
pub record Succeeds (server : ℕ → Response) (rounds a : ℕ) (d : Delivery) : Type 0 where
  pub at_attempt : ℕ
  pub in_time : at_attempt < rounds
  pub final : is_final (server (a + at_attempt)) ≡ true
  pub before : (j : ℕ) → j < at_attempt → is_final (server (a + j)) ≡ false
  pub attempts : d.attempts ≡ at_attempt + 1
  pub answered : d.is_answered ≡ true

pub record GivesUp (server : ℕ → Response) (rounds a : ℕ) (d : Delivery) : Type 0 where
  pub none_final : (j : ℕ) → j < rounds → is_final (server (a + j)) ≡ false
  pub attempts : d.attempts ≡ rounds
  pub unanswered : d.is_answered ≡ false

module _ (server : ℕ → Response) where
  shift : (a j : ℕ) → is_final (server (a + 1 + j)) ≡ is_final (server (a + suc j))
  shift a j = let same : a + 1 + j ≡ a + suc j = omega arith in ap (λ n. is_final (server n)) same

  before_next :
      (a n : ℕ)
      → is_final (server a) ≡ false
      → ((j : ℕ) → j < n → is_final (server (a + 1 + j)) ≡ false)
      → (j : ℕ) → j < suc n
      → is_final (server (a + j)) ≡ false
  before_next a n f h zero lt =
      let same : a + 0 ≡ a = omega arith in ap (λ n. is_final (server n)) same ∙ f
  before_next a n f h (suc j) lt = sym (shift a j) ∙ h j (omega (arith, lt))

  rounds_lem :
      (rounds a b : ℕ)
      → Succeeds server rounds a (post_rounds server rounds a b)
        ⊎ GivesUp server rounds a (post_rounds server rounds a b)
  unfolding post_rounds
  rounds_lem zero a b = inr (record {
    none_final = λ j lt. absurd (omega (arith, lt));
    attempts = refl;
    unanswered = refl;
  })
  rounds_lem (suc r) a b = elim (Bool-cases (is_final (server a))) [
    | inl f ↦ inl (record {
      at_attempt = 0;
      in_time = omega arith;
      final = let same : a + 0 ≡ a = omega arith in ap (λ n. is_final (server n)) same ∙ f;
      before = λ j lt. absurd (omega (arith, lt));
      attempts = rw f refl;
      answered = rw f refl;
    })
    | inr f ↦ elim (rounds_lem r (a + 1) (min (b * 2) 16)) [
      | inl s ↦ inl (record {
        at_attempt = suc s.at_attempt;
        in_time = omega (arith, s.in_time);
        final = sym (shift a s.at_attempt) ∙ s.final;
        before = before_next a s.at_attempt f s.before;
        attempts = rw (f, s.attempts) (omega arith);
        answered = rw f s.answered;
      })
      | inr g ↦ inr (record {
        none_final = before_next a r f g.none_final;
        attempts = rw (f, g.attempts) (omega arith);
        unanswered = rw f g.unanswered;
      })
    ]
  ]

  -- The whole backoff is at most 15 seconds.
  backoff_bound : (post_with_retries server).waited ≤ 15
  unfolding post_with_retries post_rounds
  backoff_bound = ground arith

  -- An event is posted until the first response below 500, five times at most, with at most 15 seconds
  -- of sleep; it is given up exactly if none of the five attempts has such a response.
  pub post_with_retries_lem :
      (Succeeds server 5 0 (post_with_retries server)
        ⊎ GivesUp server 5 0 (post_with_retries server))
      × ((post_with_retries server).waited ≤ 15)
  unfolding post_with_retries
  post_with_retries_lem = (rounds_lem 5 0 1, backoff_bound)
