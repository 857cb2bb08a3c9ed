-- ===== src/Json/Defs.antt =====
-- JSON values and dictionaries, in the order of insertion.
use fleet_api.Base.{
  ℕ, zero, suc, String, Bool, true, false, not, ◌||◌, Option, none, some, ◌==◌, if◌then◌else◌,
}
use fleet_api.Base.Int.{ℤ, pos, negsuc}

mutual
  -- `num` holds an integer, `real` the text of any other number, and `stamp` a time as
  -- `isoformat()` prints it.
  pub data Json : Type 0 where
    null : Json
    bool : Bool → Json
    num : ℤ → Json
    real : String → Json
    stamp : ℕ → Json
    str : String → Json
    arr : Items → Json
    obj : Dict → Json

  pub data Items : Type 0 where
    nil : Items
    cons : Json → Items → Items

  pub data Dict : Type 0 where
    empty : Dict
    entry : String → Json → Dict → Dict

-- `d.get(key)`, and the test `key in d`
unfoldable pub get : String → Dict → Option Json
get key empty = none
get key (entry k v d) = if k == key then some v else get key d

-- `d[key] = value` keeps the place of a key that is there
unfoldable pub put : String → Json → Dict → Dict
put key value empty = entry key value empty
put key value (entry k v d) = if k == key then entry k value d else entry k v (put key value d)

-- `d.update(other)`
unfoldable pub update : Dict → Dict → Dict
update d empty = d
update d (entry k v other) = update (put k v d) other

-- `if d:`
abbrev pub is_truthy_dict : Dict → Bool
is_truthy_dict empty = false
is_truthy_dict (entry _ _ _) = true

abbrev pub optional_str : Option String → Json
optional_str none = null
optional_str (some s) = str s

abbrev pub or_null : Option Json → Json
or_null none = null
or_null (some j) = j

-- `if j:`; a float is zero where its text is one of two
unfoldable pub is_truthy : Json → Bool
is_truthy null = false
is_truthy (bool b) = b
is_truthy (num (pos zero)) = false
is_truthy (num (pos (suc n))) = true
is_truthy (num (negsuc n)) = true
is_truthy (real text) = not (text == "0.0" || text == "-0.0")
is_truthy (stamp t) = true
is_truthy (str text) = not (text == "")
is_truthy (arr nil) = false
is_truthy (arr (cons j js)) = true
is_truthy (obj d) = is_truthy_dict d

-- a value that is present and not None
abbrev pub present : Option Json → Option Json
present none = none
present (some null) = none
present (some j) = some j
