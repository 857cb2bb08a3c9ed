-- ===== src/Examples/Collation.antt =====
-- Instances of the parameters: an order of texts, and the libraries for cursors and signatures.
use Prim.Native.Char.{code}
use Prim.Native.Nat.{Ordering}
use Prim.Native.Nat.{compare as compare_ℕ}
use Prim.Native.String.{String, ◌++◌}
use fleet_api.Base.{
  ℕ, zero, suc, ◌≡◌, refl, ap, ◌∙◌, Bool, true, false, none, some, List, [], ◌∷◌, ltb,
  if◌then◌else◌, arith, ◌==◌, eq_refl, eq_iff, Bool-cases, inl, inr, subst,
}
use fleet_api.Base.Chars.{codes}
use text.Mathlib.TextPositions.{compare_self}
use text.Mathlib.TextEquality.{codes_equal}
use fleet_api.Json.{Json}
use fleet_api.Paging.Keys.{IsOrder}
use fleet_api.Cursors.{Codec, IsCodec}
use fleet_api.Auth.{Crypto, IsCrypto, aware}

abbrev before : List ℕ → List ℕ → Bool
before [] [] = false
before [] (_ ∷ _) = true
before (_ ∷ _) [] = false
before (m ∷ ms) (n ∷ ns) =
    let rest = before ms ns in if ltb m n then true else if ltb n m then false else rest

before_irrefl : (ms : List ℕ) → before ms ms ≡ false
before_irrefl [] = refl
before_irrefl (m ∷ ms) = ground (arith, before_irrefl ms)

before_trans : (ks ms ns : List ℕ) → before ks ms ≡ true → before ms ns ≡ true → before ks ns ≡ true
before_trans [] [] ns h j = cc
before_trans [] (m ∷ ms) [] h j = cc
before_trans [] (m ∷ ms) (n ∷ ns) h j = refl
before_trans (k ∷ ks) [] ns h j = cc
before_trans (k ∷ ks) (m ∷ ms) [] h j = cc
before_trans (k ∷ ks) (m ∷ ms) (n ∷ ns) h j = ground (arith, before_trans ks ms ns)

before_connex : (ms ns : List ℕ) → before ms ns ≡ false → before ns ms ≡ false → ms ≡ ns
before_connex [] [] h j = refl
before_connex [] (n ∷ ns) h j = cc
before_connex (m ∷ ms) [] h j = cc
before_connex (m ∷ ms) (n ∷ ns) h j = ground (arith, before_connex ms ns)

abbrev pub collates : String → String → Bool
collates s t = before (codes s) (codes t)

codes_same : (s t : String) → codes s ≡ codes t → s ≡ t
codes_same String.[] String.[] h = refl
codes_same String.[] (String.◌∷◌ d t) h = cc
codes_same (String.◌∷◌ c s) String.[] h = cc
codes_same (String.◌∷◌ c s) (String.◌∷◌ d t) h =
    let first : code c ≡ code d = cc in
    let rest : codes s ≡ codes t = cc in
    let same =
      codes_equal c d
        (subst (λ n. compare_ℕ (code c) n ≡ Ordering.eq) first (compare_self (code c))) in
    ap (λ e. String.◌∷◌ e s) same ∙ ap (λ u. String.◌∷◌ d u) (codes_same s t rest)

pub collates-IsOrder : IsOrder collates
collates-IsOrder = record {
  irrefl = λ s. before_irrefl (codes s);
  trans = λ s t u. before_trans (codes s) (codes t) (codes u);
  connex = λ s t h j. codes_same s t (before_connex (codes s) (codes t) h j);
}

abbrev pub codec : Codec
codec = record {
  Text = Json;
  dumps = λ j. j;
  loads = λ t. some t;
  b64encode = λ t. t;
  b64decode = λ t. some t;
  text_of = λ j. "?";
  fromisoformat = λ s. none;
}

pub codec-IsCodec : IsCodec codec
codec-IsCodec = record { loads_dumps = λ j. refl; b64decode_b64encode = λ t. refl }

abbrev marks : ℕ → String
marks zero = ""
marks (suc n) = String.◌∷◌ "I" (marks n)

abbrev count : String → ℕ
count String.[] = 0
count (String.◌∷◌ _ s) = suc (count s)

count-marks : (n : ℕ) → count (marks n) ≡ n
count-marks zero = refl
count-marks (suc n) = ap suc (count-marks n)

abbrev signature : String → String → String
signature k m = String.◌∷◌ "S" (k ++ m)

abbrev pub crypto : Crypto
crypto = record {
  Bytes = String;
  PublicKey = String;
  PrivateKey = String;
  encode = λ s. s;
  sha256_hexdigest = λ b. b;
  b64encode = λ b. b;
  b64decode = λ s. some s;
  isoformat = marks;
  fromisoformat = λ s. some (aware (count s));
  from_public_bytes = λ b. some b;
  public_of = λ k. k;
  sign = signature;
  verify = λ k s m. s == signature k m;
}

filled : (k m : String) → (signature k m == "") ≡ false
filled k m = elim (Bool-cases (signature k m == "")) [
  | inl e ↦
      let n : suc (count (k ++ m)) ≡ 0 = ap count ((eq_iff (signature k m) "").0 e) in
      absurd (omega (arith, n))
  | inr e ↦ e
]

pub crypto-IsCrypto : IsCrypto crypto
crypto-IsCrypto = record {
  b64decode_b64encode = λ b. refl;
  fromisoformat_isoformat = λ t. ap (λ n. some (aware n)) (count-marks t);
  verify_sign = λ k m. eq_refl (signature k m);
  sign_not_empty = filled;
}
