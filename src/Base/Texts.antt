-- ===== src/Base/Texts.antt =====
-- Prefixes and splits of texts.
use Prim.Native.Char.{code, Char}
use Prim.Native.String.{String, ◌++◌}
use Prim.Native.String.append
use mathlib.Core.Path.{◌≡◌, refl, ap, ◌∙◌}
use mathlib.Core.Bool.{Bool, true, false, ◌&&◌}
use mathlib.Core.Option.{Option, none, some}
use native.Mathlib.Omega.{arith}
use fleet_api.Base.Tests.{leb, if◌then◌else◌}

abbrev same_char : Char → Char → Bool
same_char c d = leb (code c) (code d) && leb (code d) (code c)

-- `s[len(prefix):]` where `s.startswith(prefix)`
unfoldable pub drop_prefix : String → String → Option String
drop_prefix String.[] s = some s
drop_prefix (String.◌∷◌ c p) String.[] = none
drop_prefix (String.◌∷◌ c p) (String.◌∷◌ d s) = if same_char c d then drop_prefix p s else none

same_char_refl : (c : Char) → same_char c c ≡ true
same_char_refl c = ground arith

pub drop_prefix-append : (p s : String) → drop_prefix p (p ++ s) ≡ some s
unfolding drop_prefix
drop_prefix-append String.[] s = ap some (append.nil s)
drop_prefix-append (String.◌∷◌ c p) s =
    ap (drop_prefix (String.◌∷◌ c p)) (append.cons c p s)
    ∙ rw (same_char_refl c) (drop_prefix-append p s)

abbrev pub is_colon : Char → Bool
is_colon c = leb (code c) b':' && leb b':' (code c)

abbrev cons_first : Char → Option (String × String) → Option (String × String)
cons_first c none = none
cons_first c (some (a, b)) = some (String.◌∷◌ c a, b)

-- `s.split(":", 1)` where there is a colon
unfoldable pub split_colon : String → Option (String × String)
split_colon String.[] = none
split_colon (String.◌∷◌ c s) =
    let rest = split_colon s in if is_colon c then some (String.[], s) else cons_first c rest

abbrev pub has_colon : String → Bool
has_colon String.[] = false
has_colon (String.◌∷◌ c s) = if is_colon c then true else has_colon s

neither :
    (first rest : Bool) → (if first then true else rest) ≡ false → (first ≡ false) × (rest ≡ false)
neither true rest h = cc
neither false rest h = (refl, h)

-- A colon that comes first is the one at which the text is split.
pub split_colon-append :
    (a b : String) → has_colon a ≡ false → split_colon (a ++ (":" ++ b)) ≡ some (a, b)
unfolding split_colon
split_colon-append String.[] b h =
    ap split_colon
      (append.nil (":" ++ b) ∙ (append.cons ":" "" b ∙ ap (λ t. String.◌∷◌ ":" t) (append.nil b)))
split_colon-append (String.◌∷◌ c a) b h =
    let (plain, none_left) = neither (is_colon c) (has_colon a) h in
    ap split_colon (append.cons c a (":" ++ b))
    ∙ rw plain (rw (split_colon-append a b none_left) refl)
