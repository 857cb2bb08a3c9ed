-- ===== src/Cursors/Trips.antt =====
-- A cursor that was given out reads back.
use fleet_api.Base.{String, Bool, true, false, ◌≡◌, refl, ok, err}
use fleet_api.Errors.{Failure, api, uncaught, invalid_input}
use fleet_api.Json.{Json, null, bool, num, real, stamp, str, arr, obj}
use fleet_api.Cursors.{
  Codec, IsCodec, subscript, TaskKey, encode_cursor, decode_cursor, encode_task_cursor,
  decode_task_cursor,
}

abbrev pub is_object : Json → Bool
is_object (obj d) = true
is_object j = false

subscript-no_object :
    (c : Codec) (missing other : Failure) (key : String) (j : Json)
    → is_object j ≡ false
    → subscript c missing other key j ≡ err other
subscript-no_object c missing other key (obj d) n = cc
subscript-no_object c missing other key null n = refl
subscript-no_object c missing other key (bool b) n = refl
subscript-no_object c missing other key (num k) n = refl
subscript-no_object c missing other key (real s) n = refl
subscript-no_object c missing other key (stamp t) n = refl
subscript-no_object c missing other key (str s) n = refl
subscript-no_object c missing other key (arr l) n = refl

module _ (c : Codec) (h : IsCodec c) where
  open c use {Text, dumps, b64encode}

  -- Every workflow cursor that the server gives out is read back as the identifier it was made from.
  pub decode_cursor-encode_cursor : (k : String) → decode_cursor c (encode_cursor c k) ≡ ok k
  unfolding decode_cursor encode_cursor
  decode_cursor-encode_cursor k = rw (h.b64decode_b64encode _) (rw (h.loads_dumps _) refl)

  -- Every task cursor that the server gives out is read back as the key it was made from.
  pub decode_task_cursor-encode_task_cursor :
      (k : TaskKey) → decode_task_cursor c (encode_task_cursor c k) ≡ ok k
  unfolding decode_task_cursor encode_task_cursor
  decode_task_cursor-encode_task_cursor k = rw (h.b64decode_b64encode _) (rw (h.loads_dumps _) refl)

  -- A cursor that holds JSON but no object: the task listing calls it invalid, and the workflow
  -- listing ends with an exception that nothing handles.
  pub decode-no_object :
      (j : Json)
      → is_object j ≡ false
      → (decode_task_cursor c (b64encode (dumps j)) ≡ err (api invalid_input))
        × (decode_cursor c (b64encode (dumps j)) ≡ err uncaught)
  unfolding decode_cursor decode_task_cursor
  decode-no_object j n = (
    rw (h.b64decode_b64encode (dumps j))
        (rw (h.loads_dumps j) (rw (subscript-no_object c _ _ "id" j n) refl)),
    rw (h.b64decode_b64encode (dumps j))
        (rw (h.loads_dumps j) (rw (subscript-no_object c _ _ "id" j n) refl)),
  )
