-- ===== src/Text/Hex.antt =====
-- What the program uses of Go's package `encoding/hex`, and that what is encoded decodes again. A
-- byte slice is a list of numbers below 256.
use Prim.Native.Char.{Char, code}
use Prim.Native.String.{count}
use text.Mathlib.TextLemmas.{length-cons}
use merkle_evidence_vault.Prelude.{
  List, Option, String, [], ap, arith, if◌then◌else◌, leb, length, none, refl, some, ℕ, ◌%◌, ◌&&◌,
  ◌*◌, ◌+◌, ◌-◌, ◌/◌, ◌<◌, ◌∷◌, ◌≡◌,
}
use merkle_evidence_vault.Text.Decimal.{char_at, char_at-Follows}

digit_of : ℕ → Char
unfolding char_at
digit_of d = char_at "0123456789abcdef" d

-- hex.EncodeToString
unfoldable pub encode_hex : List ℕ → String
unfolding digit_of
encode_hex [] = ""
encode_hex (b ∷ bs) =
    String.◌∷◌ (digit_of (b / 16)) (String.◌∷◌ (digit_of (b % 16)) (encode_hex bs))

-- A digit's value; letters of both cases are digits.
digit_value : ℕ → Option ℕ
digit_value c =
    if leb b'0' c && leb c b'9'
    then some (c - b'0')
    else if leb b'a' c && leb c b'f'
    then some (c - b'a' + 10)
    else if leb b'A' c && leb c b'F'
    then some (c - b'A' + 10)
    else none

joined : Option ℕ → Option ℕ → Option (List ℕ) → Option (List ℕ)
joined none low rest = none
joined (some h) none rest = none
joined (some h) (some l) none = none
joined (some h) (some l) (some bs) = some ((h * 16 + l) ∷ bs)

-- hex.DecodeString, with `none` for its errors: an odd length and a character that is no digit.
unfoldable pub decode_hex : String → Option (List ℕ)
unfolding joined digit_value
decode_hex String.[] = some []
decode_hex (String.◌∷◌ c String.[]) = none
decode_hex (String.◌∷◌ c (String.◌∷◌ d s)) =
    joined (digit_value (code c)) (digit_value (code d)) (decode_hex s)

hex_tests :
    (encode_hex (0 ∷ 171 ∷ 255 ∷ []) ≡ "00abff")
    × (decode_hex "00aBfF" ≡ some (0 ∷ 171 ∷ 255 ∷ []))
    × (decode_hex "0" ≡ none)
    × (decode_hex "0g" ≡ none)
unfolding encode_hex decode_hex
hex_tests = (refl, refl, refl, refl)

-- Every element is a byte.
abbrev pub AreBytes : List ℕ → Type 0
AreBytes [] = Unit
AreBytes (b ∷ bs) = (b < 256) × AreBytes bs

digit_value-digit_of : (d : ℕ) → d < 16 → digit_value (code (digit_of d)) ≡ some d
unfolding digit_of digit_value
digit_value-digit_of d h =
    char_at-Follows (λ c. digit_value (code c)) some "0123456789abcdef" d (ground arith) h

pub decode_hex-encode_hex : (bs : List ℕ) → AreBytes bs → decode_hex (encode_hex bs) ≡ some bs
unfolding encode_hex decode_hex
decode_hex-encode_hex [] h = refl
decode_hex-encode_hex (b ∷ bs) (byte, later) =
    rw
      (
        digit_value-digit_of (b / 16) (omega arith),
        digit_value-digit_of (b % 16) (omega arith),
        decode_hex-encode_hex bs later,
      )
      (ground arith)

pub count-encode_hex : (bs : List ℕ) → count (encode_hex bs) ≡ 2 * length bs
unfolding encode_hex
count-encode_hex [] = refl
count-encode_hex (b ∷ bs) =
    let low = length-cons (digit_of (b % 16)) (encode_hex bs) in
    let high = length-cons (digit_of (b / 16)) (String.◌∷◌ (digit_of (b % 16)) (encode_hex bs)) in
    omega (arith, count-encode_hex bs)

pub encode_hex-inj :
    (xs bs : List ℕ) → AreBytes xs → AreBytes bs → encode_hex xs ≡ encode_hex bs → xs ≡ bs
encode_hex-inj xs bs ha hb same =
    let left = decode_hex-encode_hex xs ha in
    let right = decode_hex-encode_hex bs hb in let middle = ap decode_hex same in cc
