-- ===== src/Cursors.antt =====
-- The cursors of tasks/responses.py and workflows/service.py: keys as JSON in base64.
pub mod Trips
use fleet_api.Base.{ℕ, String, ◌≡◌, Option, none, some, Result, ok, err, ◌>>=◌, or_raise}
use fleet_api.Errors.{Reply, Failure, api, uncaught, invalid_input}
use fleet_api.Json.{Json, Dict, empty, entry, str, obj, stamp, get}

-- What the code takes from Python's libraries: `json`, `base64`, `str` on JSON that is no text, and
-- `datetime.fromisoformat`. `Text` is the type of the texts that go through them; `none` is a
-- ValueError.
pub record Codec : Type 1 where
  pub Text : Type 0
  pub dumps : Json → Text
  pub loads : Text → Option Json
  pub b64encode : Text → Text
  pub b64decode : Text → Option Text
  pub text_of : Json → String
  pub fromisoformat : String → Option ℕ

-- what the documentation of `json` and `base64` promises
pub record IsCodec (c : Codec) : Type 0 where
  pub loads_dumps : (j : Json) → c.loads (c.dumps j) ≡ some j
  pub b64decode_b64encode : (t : c.Text) → c.b64decode (c.b64encode t) ≡ some t

-- the place of a task in the listing
pub record TaskKey : Type 0 where
  pub created_at : ℕ
  pub id : String

module _ (c : Codec) where
  open c use {Text, dumps, loads, b64encode, b64decode, text_of, fromisoformat}

  -- `str(value)`
  abbrev pub as_text : Json → String
  as_text (str s) = s
  as_text j = text_of j

  -- `datetime.fromisoformat(str(value))`
  abbrev pub as_time : Json → Option ℕ
  as_time (stamp t) = some t
  as_time (str s) = fromisoformat s
  as_time j = fromisoformat (text_of j)

  -- `data[key]`: a missing key is `missing`, and JSON that is no object a TypeError, `other`
  abbrev pub subscript : Failure → Failure → String → Json → Reply Json
  subscript missing other key (obj d) = or_raise (get key d) missing
  subscript missing other key j = err other

  abbrev parse_cursor : Text → Reply Json
  parse_cursor cursor = do
    json ← or_raise (b64decode cursor) (api invalid_input)
    or_raise (loads json) (api invalid_input)

  unfoldable pub encode_cursor : String → Text
  encode_cursor workflow_id = b64encode (dumps (obj (entry "id" (str workflow_id) empty)))

  -- A TypeError is not caught here.
  unfoldable pub decode_cursor : Text → Reply String
  unfolding get
  decode_cursor cursor = do
    j ← parse_cursor cursor
    value ← subscript (api invalid_input) uncaught "id" j
    ok (as_text value)

  unfoldable pub encode_task_cursor : TaskKey → Text
  encode_task_cursor k =
      b64encode
        (dumps (obj (entry "id" (str k.id) (entry "created_at" (stamp k.created_at) empty))))

  unfoldable pub decode_task_cursor : Text → Reply TaskKey
  unfolding get
  decode_task_cursor cursor = do
    j ← parse_cursor cursor
    id ← subscript (api invalid_input) (api invalid_input) "id" j
    created ← subscript (api invalid_input) (api invalid_input) "created_at" j
    created_at ← or_raise (as_time created) (api invalid_input)
    ok (record { created_at = created_at; id = as_text id })
