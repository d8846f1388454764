-- ===== src/Text.antt =====
-- What the program uses of Go's packages `strings`, `unicode` and `strconv`. A Go string that holds
-- UTF-8 is a `String`; the functions walk its characters.
pub mod Laws
pub mod Cuts
pub mod Decimal
pub mod Hex
pub mod Utf8
use Prim.Native.Char.{Char, code}
use Prim.Native.String
use mathlib.Core.Option
use merkle_evidence_vault.Prelude.{
  Bool, List, Option, String, [], false, if◌then◌else◌, leb, ltb, map, none, some, true, ℕ, ◌&&◌,
  ◌*◌, ◌++◌, ◌+◌, ◌-◌, ◌==◌, ◌=ℕ◌, ◌^◌, ◌||◌, ◌∷◌, string_key,
}
use merkle_evidence_vault.Prelude.Int.{negsuc, pos, ℤ, int_key}

-- unicode.IsSpace
unfoldable pub is_space : Char → Bool
is_space c =
    let r = code c in
    leb 9 r && leb r 13
    || r =ℕ 32
    || r =ℕ 0x85
    || r =ℕ 0xA0
    || r =ℕ 0x1680
    || leb 0x2000 r && leb r 0x200a
    || r =ℕ 0x2028
    || r =ℕ 0x2029
    || r =ℕ 0x202f
    || r =ℕ 0x205f
    || r =ℕ 0x3000

module _ (p : Char → Bool) where
  -- strings.TrimLeftFunc
  unfoldable pub trim_left : String → String
  trim_left String.[] = ""
  trim_left (String.◌∷◌ c s) = if p c then trim_left s else String.◌∷◌ c s

  -- What is kept of `c` and a trimmed rest.
  abbrev pub keep : Char → String → String
  keep c String.[] = if p c then "" else String.◌∷◌ c ""
  keep c (String.◌∷◌ d s) = String.◌∷◌ c (String.◌∷◌ d s)

  -- strings.TrimRightFunc
  unfoldable pub trim_right : String → String
  trim_right String.[] = ""
  trim_right (String.◌∷◌ c s) = keep c (trim_right s)

  unfoldable pub trim : String → String
  unfolding trim_left trim_right
  trim s = trim_right (trim_left s)

-- strings.TrimSpace
unfoldable pub trim_space : String → String
unfolding trim is_space
trim_space s = trim is_space s

unfoldable pub is_slash : Char → Bool
is_slash c = code c =ℕ b'/'

-- strings.Trim(s, "/")
unfoldable pub trim_slashes : String → String
unfolding trim is_slash
trim_slashes s = trim is_slash s

-- The rest of a text behind a prefix: strings.CutPrefix.
unfoldable pub cut_prefix : String → String → Option String
cut_prefix String.[] s = some s
cut_prefix (String.◌∷◌ c p) String.[] = none
cut_prefix (String.◌∷◌ c p) (String.◌∷◌ d s) = if code c =ℕ code d then cut_prefix p s else none

-- The start of a text before a suffix: strings.CutSuffix.
unfoldable pub cut_suffix : String → String → Option String
cut_suffix p String.[] = if "" == p then some "" else none
cut_suffix p (String.◌∷◌ c s) =
    let rest = Option.map (λ (t : String). String.◌∷◌ c t) (cut_suffix p s) in
    if String.◌∷◌ c s == p then some "" else rest

abbrev pub is_some {ℓ} : {A : Type ℓ} → Option A → Bool
is_some none = false
is_some (some a) = true

abbrev pub or_else {ℓ} : {A : Type ℓ} → A → Option A → A
or_else a none = a
or_else a (some b) = b

-- strings.HasPrefix, strings.HasSuffix, strings.TrimPrefix, strings.TrimSuffix
abbrev pub has_prefix : String → String → Bool
has_prefix s p = is_some (cut_prefix p s)

abbrev pub has_suffix : String → String → Bool
has_suffix s p = is_some (cut_suffix p s)

abbrev pub trim_prefix : String → String → String
trim_prefix s p = or_else s (cut_prefix p s)

abbrev pub trim_suffix : String → String → String
trim_suffix s p = or_else s (cut_suffix p s)

-- The number that decimal digits spell after those that make `n`; `none` at any other character.
unfoldable pub digits_from : ℕ → String → Option ℕ
digits_from n String.[] = some n
digits_from n (String.◌∷◌ c s) =
    if leb b'0' (code c) && leb (code c) b'9'
    then digits_from (n * 10 + (code c - b'0')) s
    else none

unfoldable pub digits : String → Option ℕ
unfolding digits_from
digits String.[] = none
digits (String.◌∷◌ c s) = digits_from 0 (String.◌∷◌ c s)

abbrev in_range : Bool → ℕ → Option ℤ
in_range false n = if ltb n (2 ^ 63) then some (pos n) else none
in_range true n = if leb n (2 ^ 63) then some (if n =ℕ 0 then pos 0 else negsuc (n - 1)) else none

abbrev signed : Bool → Option ℕ → Option ℤ
signed minus none = none
signed minus (some n) = in_range minus n

-- strconv.ParseInt(s, 10, 64), with `none` for its errors
unfoldable pub parse_int : String → Option ℤ
unfolding digits
parse_int String.[] = none
parse_int (String.◌∷◌ c s) =
    if code c =ℕ b'-'
    then signed true (digits s)
    else if code c =ℕ b'+'
    then signed false (digits s)
    else signed false (digits (String.◌∷◌ c s))

-- What is before and behind the first character with a code: strings.Cut.
unfoldable pub cut : ℕ → String → Option (String × String)
cut sep String.[] = none
cut sep (String.◌∷◌ c s) =
    let rest = Option.map (λ (p : String × String). (String.◌∷◌ c p.0, p.1)) (cut sep s) in
    if code c =ℕ sep then some ("", s) else rest

-- A character put at the start of the first part.
abbrev onto_first : Char → List String → List String
onto_first c [] = String.◌∷◌ c "" ∷ []
onto_first c (part ∷ parts) = String.◌∷◌ c part ∷ parts

-- strings.Split, for a separator of one character
unfoldable pub split : ℕ → String → List String
split sep String.[] = "" ∷ []
split sep (String.◌∷◌ c s) =
    let rest = split sep s in if code c =ℕ sep then "" ∷ rest else onto_first c rest

-- strings.Contains
unfoldable pub contains : String → String → Bool
contains String.[] part = has_prefix "" part
contains (String.◌∷◌ c s) part =
    let later = contains s part in has_prefix (String.◌∷◌ c s) part || later

abbrev pub mem_string : String → List String → Bool
mem_string s [] = false
mem_string s (t ∷ ts) = s == t || mem_string s ts

-- strconv.ParseBool, with `none` for its error
unfoldable pub parse_bool : String → Option Bool
parse_bool s =
    if mem_string s ("1" ∷ "t" ∷ "T" ∷ "TRUE" ∷ "true" ∷ "True" ∷ [])
    then some true
    else if mem_string s ("0" ∷ "f" ∷ "F" ∷ "FALSE" ∷ "false" ∷ "False" ∷ [])
    then some false
    else none

-- One text behind the other.
unfoldable pub concat : List String → String
concat [] = ""
concat (s ∷ ss) = String.◌++◌ s (concat ss)
