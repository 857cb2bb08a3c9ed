-- ===== src/Json/Laws.antt =====
-- Lookups after an assignment and after an update.
use fleet_api.Base.{
  String, ◌≡◌, refl, Option, none, some, ◌==◌, eq_iff, eq_refl, arith, if◌then◌else◌,
}
use fleet_api.Json.Defs.{Json, obj, Dict, empty, entry, get, put}

pub get-put :
    (key j : String) (v : Json) (d : Dict)
    → get j (put key v d) ≡ (if key == j then some v else get j d)
unfolding get put
get-put key j v empty = refl
get-put key j v (entry k w d) =
    ground (arith, eq_iff key j, eq_iff k key, eq_iff k j, get-put key j v d)

pub get-put_self : (key : String) (v : Json) (d : Dict) → get key (put key v d) ≡ some v
get-put_self key v d = simp (get-put, eq_refl)

-- the value under a key of what may be an object
abbrev pub in_object : String → Option Json → Option Json
in_object key (some (obj d)) = get key d
in_object key _ = none
