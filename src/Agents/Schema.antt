-- ===== src/Agents/Schema.antt =====
-- The validators of `RegisterAgentRequest` in src/fleet_api/agents/schemas.py. `strip` is Python's
-- `str.strip`, `b64decode` is `base64.b64decode`, and `size` the length of bytes; `none` is a
-- ValueError, which the server answers with 422.
use fleet_api.Base.{
  ℕ, String, Bool, false, not, ◌&&◌, ◌||◌, Option, none, some, List, [], ◌∷◌, length, is_some, leb,
  ltb, ◌==◌, if◌then◌else◌,
}
use fleet_api.Base.Chars.{codes, is_alphanumeric, is_id_char, before_end, all_chars}
use fleet_api.Registry.{Registration}

abbrev pub starts_well : List ℕ → Bool
starts_well [] = false
starts_well (c ∷ cs) = is_alphanumeric c && all_chars is_id_char cs

-- `_AGENT_ID_PATTERN.match(v)`
unfoldable pub is_agent_id_match : List ℕ → Bool
unfolding all_chars before_end
is_agent_id_match cs = starts_well (before_end cs)

module _ (strip : String → String) where
  -- `not v or not v.strip()`
  abbrev pub is_blank : String → Bool
  is_blank v = v == "" || strip v == ""

  unfoldable pub validate_agent_id : String → Option String
  unfolding is_agent_id_match
  validate_agent_id v =
      if is_blank v
      then none
      else if ltb 128 (length (codes v))
      then none
      else if not (is_agent_id_match (codes v))
      then none
      else some v

  module _ {Bytes : Type 0} (b64decode : String → Option Bytes) (size : Bytes → ℕ) where
    abbrev pub has_key_size : Option Bytes → Bool
    has_key_size none = false
    has_key_size (some decoded) = leb (size decoded) 32 && leb 32 (size decoded)

    unfoldable pub validate_public_key : String → Option String
    validate_public_key v =
        if is_blank v then none else if has_key_size (b64decode v) then some v else none

    -- the schema passes the body of a registration
    unfoldable pub is_accepted_body : Registration → Bool
    is_accepted_body r =
        is_some (validate_agent_id r.agent_id) && is_some (validate_public_key r.public_key)
