-- ===== src/Workflows/Identifier.antt =====
-- Which workflow identifiers pass.
use fleet_api.Base.{
  ℕ, ◌≤◌, String, ◌≡◌, ◌↔◌, refl, sym, ap, ◌∙◌, ◌⊎◌, inl, inr, Bool, true, ◌&&◌, List, [], ◌∷◌,
  ◌++◌, All, length, leb, ok, require, Bool-cases, arith, ◌==◌, eq_iff,
}
use fleet_api.Base.Chars.{codes, is_alphanumeric, is_id_char, newline, before_end, all_chars}
use fleet_api.Errors.{ErrorCode, invalid_input}
use fleet_api.Workflows.{validate_workflow_id, is_id_match, id_body}

-- a letter or digit, then letters, digits and hyphens, 128 characters at most
abbrev pub StartsWell : List ℕ → Type 0
StartsWell [] = ⊥
StartsWell (c ∷ cs) = is_alphanumeric c ≡ true

pub record IsIdentifier (cs : List ℕ) : Type 0 where
  pub starts : StartsWell cs
  pub chars : All (λ c. is_id_char c ≡ true) cs
  pub short : length cs ≤ 128

before_end-cases : (cs : List ℕ) → (cs ≡ before_end cs) ⊎ (cs ≡ before_end cs ++ newline ∷ [])
unfolding before_end
before_end-cases [] = inl refl
before_end-cases (c ∷ []) = elim (Bool-cases (leb c newline && leb newline c)) [
  | inl e ↦ inr (rw e (ground arith))
  | inr e ↦ inl (rw e refl)
]
before_end-cases (c ∷ d ∷ cs) = elim (before_end-cases (d ∷ cs)) [
  | inl e ↦ inl (ap (λ l. c ∷ l) e)
  | inr e ↦ inr (ap (λ l. c ∷ l) e)
]

before_end-newline : (cs : List ℕ) → before_end (cs ++ newline ∷ []) ≡ cs
unfolding before_end
before_end-newline [] = refl
before_end-newline (c ∷ []) = refl
before_end-newline (c ∷ d ∷ cs) = ap (λ l. c ∷ l) (before_end-newline (d ∷ cs))

before_end-chars : (cs : List ℕ) → All (λ c. is_id_char c ≡ true) cs → before_end cs ≡ cs
unfolding before_end
before_end-chars [] h = refl
before_end-chars (c ∷ []) h = ground arith
before_end-chars (c ∷ d ∷ cs) h = ap (λ l. c ∷ l) (before_end-chars (d ∷ cs) h.1)

all_chars-All : (p : ℕ → Bool) (cs : List ℕ) → all_chars p cs ≡ true → All (λ c. p c ≡ true) cs
unfolding all_chars
all_chars-All p [] h = tt
all_chars-All p (c ∷ cs) h = (ground arith, all_chars-All p cs (ground arith))

All-all_chars : (p : ℕ → Bool) (cs : List ℕ) → All (λ c. p c ≡ true) cs → all_chars p cs ≡ true
unfolding all_chars
All-all_chars p [] h = refl
All-all_chars p (c ∷ cs) h = rw (h.0, All-all_chars p cs h.1) refl

id_body-IsIdentifier : (cs : List ℕ) → id_body cs ≡ true → IsIdentifier cs
id_body-IsIdentifier [] h = cc
id_body-IsIdentifier (c ∷ cs) h = record {
  starts = ground arith;
  chars = (ground arith, all_chars-All is_id_char cs (ground arith));
  short = ground arith;
}

IsIdentifier-id_body : (cs : List ℕ) → IsIdentifier cs → id_body cs ≡ true
IsIdentifier-id_body [] h = absurd h.starts
IsIdentifier-id_body (c ∷ cs) h =
    ground (arith, All-all_chars is_id_char cs h.chars.1, h.starts, h.short)

-- the test for the empty text says nothing that the pattern does not
validate_workflow_id-eq :
    (s : String) → validate_workflow_id s ≡ require (is_id_match (codes s)) invalid_input
unfolding validate_workflow_id is_id_match before_end
validate_workflow_id-eq s = elim (Bool-cases (s == "")) [
  | inl e ↦
      let empty : s ≡ "" = (eq_iff s "").0 e in
      rw e (sym (ap (λ t. require (is_id_match (codes t)) invalid_input) empty))
  | inr e ↦ rw e refl
]

require-eq-ok : (b : Bool) (e : ErrorCode) → require b e ≡ ok tt → b ≡ true
require-eq-ok b e h = ground arith

is_id_match-IsIdentifier :
    (cs : List ℕ)
    → is_id_match cs ≡ true
    → (body : List ℕ) × IsIdentifier body × ((cs ≡ body) ⊎ (cs ≡ body ++ newline ∷ []))
unfolding is_id_match
is_id_match-IsIdentifier cs h =
    (before_end cs, id_body-IsIdentifier (before_end cs) h, before_end-cases cs)

IsIdentifier-is_id_match :
    (cs body : List ℕ)
    → IsIdentifier body
    → (cs ≡ body) ⊎ (cs ≡ body ++ newline ∷ [])
    → is_id_match cs ≡ true
unfolding is_id_match
IsIdentifier-is_id_match cs body h (inl e) =
    ap id_body (ap before_end e ∙ before_end-chars body h.chars) ∙ IsIdentifier-id_body body h
IsIdentifier-is_id_match cs body h (inr e) =
    ap id_body (ap before_end e ∙ before_end-newline body) ∙ IsIdentifier-id_body body h

-- An identifier passes, and so does one with a newline after it; nothing else passes.
pub validate_workflow_id_lem :
    (s : String)
    → (validate_workflow_id s ≡ ok tt) ↔ (
        (body : List ℕ) × IsIdentifier body × ((codes s ≡ body) ⊎ (codes s ≡ body ++ newline ∷ [])))
validate_workflow_id_lem s = (
  λ h.
      is_id_match-IsIdentifier (codes s)
        (require-eq-ok (is_id_match (codes s)) invalid_input (sym (validate_workflow_id-eq s) ∙ h)),
  λ (body, h, e).
      validate_workflow_id-eq s
      ∙ ap (λ b. require b invalid_input) (IsIdentifier-is_id_match (codes s) body h e),
)
