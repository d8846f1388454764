-- ===== src/Text/Utf8.antt =====
-- The UTF-8 bytes of a text, as Rust's `str::as_bytes` gives them.
use Prim.Native.Char.{code}
use text.Mathlib.TextEquality.{Char-path}
use merkle_evidence_vault.Prelude.{
  Bool-cases, List, String, [], ap, arith, false, if◌then◌else◌, inl, inr, length, length-append,
  ltb, refl, sym, true, ℕ, ◌%◌, ◌*◌, ◌++◌, ◌+◌, ◌-◌, ◌/◌, ◌<◌, ◌∙◌, ◌∷◌, ◌≡◌,
}

unfoldable utf8_char : ℕ → List ℕ
utf8_char n =
    if ltb n 128
    then n ∷ []
    else if ltb n 2048
    then (192 + n / 64) ∷ (128 + n % 64) ∷ []
    else if ltb n 65536
    then (224 + n / 4096) ∷ (128 + n / 64 % 64) ∷ (128 + n % 64) ∷ []
    else (240 + n / 262144) ∷ (128 + n / 4096 % 64) ∷ (128 + n / 64 % 64) ∷ (128 + n % 64) ∷ []

unfoldable pub utf8 : String → List ℕ
unfolding utf8_char
utf8 String.[] = []
utf8 (String.◌∷◌ c s) = utf8_char (code c) ++ utf8 s

two_bytes : ℕ → List ℕ → ℕ × List ℕ
two_bytes a [] = (0, [])
two_bytes a (b ∷ rest) = ((a - 192) * 64 + (b - 128), rest)

three_bytes : ℕ → List ℕ → ℕ × List ℕ
three_bytes a [] = (0, [])
three_bytes a (b ∷ []) = (0, [])
three_bytes a (b ∷ c ∷ rest) = ((a - 224) * 4096 + (b - 128) * 64 + (c - 128), rest)

four_bytes : ℕ → List ℕ → ℕ × List ℕ
four_bytes a [] = (0, [])
four_bytes a (b ∷ []) = (0, [])
four_bytes a (b ∷ c ∷ []) = (0, [])
four_bytes a (b ∷ c ∷ d ∷ rest) =
    ((a - 240) * 262144 + (b - 128) * 4096 + (c - 128) * 64 + (d - 128), rest)

-- The first character of what `utf8` gives, and the rest.
read_char : List ℕ → ℕ × List ℕ
unfolding two_bytes three_bytes four_bytes
read_char [] = (0, [])
read_char (a ∷ rest) =
    if ltb a 128
    then (a, rest)
    else if ltb a 224
    then two_bytes a rest
    else if ltb a 240
    then three_bytes a rest
    else four_bytes a rest

read_char-utf8_char : (n : ℕ) (rest : List ℕ) → read_char (utf8_char n ++ rest) ≡ (n, rest)
unfolding read_char utf8_char two_bytes three_bytes four_bytes
read_char-utf8_char n rest = elim (Bool-cases (ltb n 128)) [
  | inl one ↦ rw (one, read_char, one) refl
  | inr more ↦ elim (Bool-cases (ltb n 2048)) [
    | inl two ↦
        let first : ltb (192 + n / 64) 128 ≡ false = ground arith in
        let second : ltb (192 + n / 64) 224 ≡ true = ground arith in
        let value : (192 + n / 64 - 192) * 64 + (128 + n % 64 - 128) ≡ n = omega arith in
        rw (more, two, read_char, first, second, value) refl
    | inr more' ↦ elim (Bool-cases (ltb n 65536)) [
      | inl three ↦
          let first : ltb (224 + n / 4096) 128 ≡ false = ground arith in
          let second : ltb (224 + n / 4096) 224 ≡ false = ground arith in
          let third : ltb (224 + n / 4096) 240 ≡ true = ground arith in
          let value : (224 + n / 4096 - 224) * 4096
                + (128 + n / 64 % 64 - 128) * 64
                + (128 + n % 64 - 128)
              ≡ n =
            omega arith in
          rw (more, more', three, read_char, first, second, third, value) refl
      | inr four ↦
          let first : ltb (240 + n / 262144) 128 ≡ false = ground arith in
          let second : ltb (240 + n / 262144) 224 ≡ false = ground arith in
          let third : ltb (240 + n / 262144) 240 ≡ false = ground arith in
          let value : (240 + n / 262144 - 240) * 262144
                + (128 + n / 4096 % 64 - 128) * 4096
                + (128 + n / 64 % 64 - 128) * 64
                + (128 + n % 64 - 128)
              ≡ n =
            omega arith in
          rw (more, more', four, read_char, first, second, third, value) refl
    ]
  ]
]

utf8_char-filled : (n : ℕ) → 0 < length (utf8_char n)
unfolding utf8_char
utf8_char-filled n = ground arith

-- Texts with the same bytes are the same.
pub utf8-inj : (s t : String) → utf8 s ≡ utf8 t → s ≡ t
unfolding utf8
utf8-inj String.[] String.[] e = refl
utf8-inj String.[] (String.◌∷◌ d t) e =
    let sizes = ap length e in
    absurd (omega (arith, utf8_char-filled (code d), length-append (utf8_char (code d)) (utf8 t)))
utf8-inj (String.◌∷◌ c s) String.[] e =
    let sizes = ap length e in
    absurd (omega (arith, utf8_char-filled (code c), length-append (utf8_char (code c)) (utf8 s)))
utf8-inj (String.◌∷◌ c s) (String.◌∷◌ d t) e =
    let pair =
      sym (read_char-utf8_char (code c) (utf8 s))
      ∙ ap read_char e
      ∙ read_char-utf8_char (code d) (utf8 t) in
    let heads = Char-path c d (ap (λ (p : ℕ × List ℕ). p.0) pair) in
    let tails = utf8-inj s t (ap (λ (p : ℕ × List ℕ). p.1) pair) in
    λ i. String.◌∷◌ (heads i) (tails i)
