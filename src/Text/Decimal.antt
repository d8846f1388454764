-- ===== src/Text/Decimal.antt =====
-- The decimal text of a natural number, as fmt prints it with %d, and what ParseInt reads.
use Prim.Native.Char.{Char, code, nul}
use Prim.Native.String.{count}
use mathlib.Core.Path.{subst}
use text.Mathlib.TextLemmas.{length-cons, length-nil}
use merkle_evidence_vault.Prelude.{
  String, ap, arith, false, if◌then◌else◌, refl, some, suc, sym, zero, ℕ, ◌%◌, ◌*◌, ◌+◌, ◌-◌, ◌/◌,
  ◌<◌, ◌=ℕ◌, ◌^◌, ◌∙◌, ◌≡◌, ◌≢◌,
}
use merkle_evidence_vault.Prelude.Int.{pos}
use merkle_evidence_vault.Text.{
  digits, digits_from, is_slash, keep, parse_int, trim, trim_left, trim_right, trim_slashes,
}

unfoldable pub char_at : String → ℕ → Char
char_at String.[] i = nul
char_at (String.◌∷◌ c s) zero = c
char_at (String.◌∷◌ c s) (suc i) = char_at s i

-- The characters of a text have the values, by f, that g gives to the numbers from b on.
abbrev pub Follows {ℓ} : {A : Type ℓ} → (Char → A) → (ℕ → A) → ℕ → String → Type ℓ
Follows f g b String.[] = Unit
Follows f g b (String.◌∷◌ c s) = (f c ≡ g b) × Follows f g (suc b) s

char_at-from {ℓ} :
    {A : Type ℓ} (f : Char → A) (g : ℕ → A) (b : ℕ) (s : String) (i : ℕ)
    → Follows f g b s
    → i < count s
    → f (char_at s i) ≡ g (b + i)
unfolding char_at
char_at-from f g b String.[] i up h = absurd (omega (arith, length-nil))
char_at-from f g b (String.◌∷◌ c s) zero (same, up) h =
    let here : b + 0 ≡ b = omega arith in rw here same
char_at-from f g b (String.◌∷◌ c s) (suc i) (same, up) h =
    let next : b + suc i ≡ suc b + i = omega arith in
    rw next (char_at-from f g (suc b) s i up (omega (arith, length-cons c s)))

pub char_at-Follows {ℓ} :
    {A : Type ℓ} (f : Char → A) (g : ℕ → A) (s : String) (i : ℕ)
    → Follows f g 0 s
    → i < count s
    → f (char_at s i) ≡ g i
char_at-Follows f g s i up h =
    subst (λ j. f (char_at s i) ≡ g j) (omega arith) (char_at-from f g 0 s i up h)

digit : ℕ → Char
unfolding char_at
digit d = char_at "0123456789" d

code-digit : (d : ℕ) → d < 10 → code (digit d) ≡ b'0' + d
unfolding digit
code-digit d h = char_at-Follows code (λ i. b'0' + i) "0123456789" d (ground arith) h

-- The digits of n before `out`; the first argument bounds their number.
emit : ℕ → ℕ → String → String
emit zero n out = out
emit (suc rounds) n out =
    let rest = emit rounds (n / 10) (String.◌∷◌ (digit (n % 10)) out) in
    if n =ℕ 0 then out else rest

printed : ℕ → ℕ → String
unfolding emit digit
printed rounds n = if n =ℕ 0 then "0" else emit rounds n ""

-- A `uint64` has at most 20 digits.
unfoldable pub decimal : ℕ → String
unfolding printed
decimal n = printed 20 n

digits_from-emit :
    (rounds n : ℕ) (out : String)
    → n < 10 ^ rounds
    → digits_from 0 (emit rounds n out) ≡ digits_from n out
unfolding digits_from emit
digits_from-emit zero n out h = let empty : n ≡ 0 = omega arith in rw empty refl
digits_from-emit (suc rounds) n out h =
    let rest = digits_from-emit rounds (n / 10) (String.◌∷◌ (digit (n % 10)) out) (omega arith) in
    let last = code-digit (n % 10) (omega arith) in ground arith

digits_from-zero : digits_from 0 "0" ≡ some 0
unfolding digits_from
digits_from-zero = refl

digits_from-nil : (n : ℕ) → digits_from n "" ≡ some n
unfolding digits_from
digits_from-nil n = refl

digits_from-printed : (rounds n : ℕ) → n < 10 ^ rounds → digits_from 0 (printed rounds n) ≡ some n
unfolding printed
digits_from-printed rounds n h =
    let read = digits_from-emit rounds n "" h in
    grind (arith, read, digits_from-zero, digits_from-nil n)

pub digits_from-decimal : (n : ℕ) → n < 2 ^ 63 → digits_from 0 (decimal n) ≡ some n
unfolding decimal
digits_from-decimal n h = digits_from-printed 20 n (omega arith)

digits_from-step :
    (m n : ℕ) (c : Char) (s : String)
    → digits_from m (String.◌∷◌ c s) ≡ some n
    → (is_slash c ≡ false) × (digits_from (m * 10 + (code c - b'0')) s ≡ some n)
unfolding digits_from is_slash
digits_from-step m n c s h = (ground arith, ground arith)

trim_left-digits : (m n : ℕ) (s : String) → digits_from m s ≡ some n → trim_left is_slash s ≡ s
unfolding trim_left
trim_left-digits m n String.[] h = refl
trim_left-digits m n (String.◌∷◌ c s) h = rw ((digits_from-step m n c s h).0) refl

trim_right-digits : (m n : ℕ) (s : String) → digits_from m s ≡ some n → trim_right is_slash s ≡ s
unfolding trim_right
trim_right-digits m n String.[] h = refl
trim_right-digits m n (String.◌∷◌ c s) h =
    let (solid, later) = digits_from-step m n c s h in
    rw (trim_right-digits (m * 10 + (code c - b'0')) n s later) (kept s solid)
  where
    kept : (t : String) → is_slash c ≡ false → keep is_slash c t ≡ String.◌∷◌ c t
    kept String.[] solid = rw solid refl
    kept (String.◌∷◌ d t) solid = refl

pub trim_slashes-digits : (n : ℕ) (s : String) → digits_from 0 s ≡ some n → trim_slashes s ≡ s
unfolding trim_slashes trim
trim_slashes-digits n s h = rw (trim_left-digits 0 n s h) (trim_right-digits 0 n s h)

pub parse_int-digits :
    (n : ℕ) (s : String)
    → s ≢ ""
    → digits_from 0 s ≡ some n
    → n < 2 ^ 63
    → parse_int s ≡ some (pos n)
unfolding parse_int digits digits_from
parse_int-digits n String.[] named h room = absurd (named refl)
parse_int-digits n (String.◌∷◌ c s) named h room = ground arith

pub decimal-ne-nil : (n : ℕ) → 0 < n → n < 2 ^ 63 → decimal n ≢ ""
decimal-ne-nil n positive room empty =
    let spelt = ap (digits_from 0) (sym empty) ∙ digits_from-decimal n room in
    grind (arith, spelt, digits_from-nil 0)
