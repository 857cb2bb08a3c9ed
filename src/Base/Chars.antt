-- ===== src/Base/Chars.antt =====
-- Texts as lists of code points, and the order of such lists.
use Prim.Native.Char.{code}
use Prim.Native.Nat.{ℕ}
use Prim.Native.String.{String}
use mathlib.Core.Bool.{Bool, true, ◌&&◌, ◌||◌}
use mathlib.Core.List.{List, [], ◌∷◌}
use fleet_api.Base.Tests.{leb, if◌then◌else◌}

abbrev pub codes : String → List ℕ
codes String.[] = []
codes (String.◌∷◌ c s) = code c ∷ codes s

-- [a-zA-Z0-9]
abbrev pub is_alphanumeric : ℕ → Bool
is_alphanumeric c = leb b'a' c && leb c b'z' || leb b'A' c && leb c b'Z' || leb b'0' c && leb c b'9'

-- [a-zA-Z0-9\-]
abbrev pub is_id_char : ℕ → Bool
is_id_char c = is_alphanumeric c || leb c b'-' && leb b'-' c

abbrev pub newline : ℕ
newline = 10

-- `$` matches at the end, and before a newline at the end: what stands before it
unfoldable pub before_end : List ℕ → List ℕ
before_end [] = []
before_end (c ∷ []) = if leb c newline && leb newline c then [] else c ∷ []
before_end (c ∷ d ∷ cs) = c ∷ before_end (d ∷ cs)

unfoldable pub all_chars : (ℕ → Bool) → List ℕ → Bool
all_chars p [] = true
all_chars p (c ∷ cs) = p c && all_chars p cs
