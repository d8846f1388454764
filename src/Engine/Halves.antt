-- ===== src/Engine/Halves.antt =====
-- The loop of `largest_pow2_less_than`: where it ends, and with what.
use native.Mathlib.Nat.{pow-succ', one-le-pow, pow-le-pow_right}
use merkle_evidence_vault.Prelude.{
  =ℕ_iff, Bool-cases, ap, arith, inl, inr, ltb, ltb→lt, lt→ltb, none, refl, some, suc, true, zero,
  ℕ, ◌%◌, ◌*◌, ◌+◌, ◌/◌, ◌<◌, ◌=ℕ◌, ◌^◌, ◌≡◌, ◌≢◌, ◌≤◌, ◌⊎◌,
}
use merkle_evidence_vault.Engine.{double_while, largest_pow2_less_than, word_size}

pub pow_suc : (h : ℕ) → 2 ^ suc h ≡ 2 * 2 ^ h
pow_suc h = pow-succ' 2 h

pub pow_pos : (h : ℕ) → 1 ≤ 2 ^ h
pow_pos h = one-le-pow h 2 (omega arith)

-- From a power of two up to 2^63 the loop ends, at the first power from there on that is no less than n.
double_while-ends :
    (fuel j n : ℕ)
    → j ≤ 63
    → 64 ≤ j + fuel
    → n ≤ 2 ^ 63
    → (m : ℕ) × (double_while fuel (2 ^ j) n ≡ some (2 ^ m))
      × (n ≤ 2 ^ m)
      × ((m ≡ j) ⊎ (2 ^ m < 2 * n))
unfolding double_while
double_while-ends zero j n small enough fits = absurd (omega arith)
double_while-ends (suc fuel) j n small enough fits = elim (Bool-cases (ltb (2 ^ j) n)) [
  | inr done ↦ (j, rw done refl, ground arith, inl refl)
  | inl more ↦
      let below = ltb→lt (2 ^ j) n more in
      let step = pow_suc j in
      let not_last : j ≢ 63 = λ e. let last = ap (λ (i : ℕ). 2 ^ i) e in omega arith in
      let shifted : 2 ^ j * 2 % 2 ^ 64 ≡ 2 ^ suc j = omega arith in
      let (m, ends, above, least) =
        double_while-ends fuel (suc j) n (omega arith) (omega arith) fits in
      (
        m,
        rw (more, shifted) ends,
        above,
        inr (elim least [
          | inl same ↦ let last = ap (λ (i : ℕ). 2 ^ i) same in omega arith
          | inr less ↦ less
        ]),
      )
]

-- Once the shift has lost the bit, the loop does not end.
double_while-stuck : (fuel n : ℕ) → 0 < n → double_while fuel 0 n ≡ none
unfolding double_while
double_while-stuck zero n positive = refl
double_while-stuck (suc fuel) n positive =
    rw (lt→ltb 0 n positive) (double_while-stuck fuel n positive)

double_while-lost : (fuel j n : ℕ) → j ≤ 63 → 2 ^ 63 < n → double_while fuel (2 ^ j) n ≡ none
unfolding double_while
double_while-lost zero j n small large = refl
double_while-lost (suc fuel) j n small large =
    let bound : 2 ^ j ≤ 2 ^ 63 = pow-le-pow_right (omega arith) small in
    let more : ltb (2 ^ j) n ≡ true = lt→ltb (2 ^ j) n (omega arith) in
    elim (Bool-cases (j =ℕ 63)) [
      | inl last ↦
          let here : 2 ^ j * 2 % 2 ^ 64 ≡ 0 =
            let same = ap (λ (i : ℕ). 2 ^ i) ((=ℕ_iff j 63).0 last) in omega arith in
          rw (more, here) (double_while-stuck fuel n (omega arith))
      | inr before ↦
          let lower : suc j ≤ 63 = ground arith in
          let bound' : 2 ^ suc j ≤ 2 ^ 63 = pow-le-pow_right (omega arith) lower in
          let shifted : 2 ^ j * 2 % 2 ^ 64 ≡ 2 ^ suc j = omega (arith, pow_suc j) in
          rw (more, shifted) (double_while-lost fuel (suc j) n lower large)
    ]

-- With enough rounds, the result is the power of two with 2^h < n ≤ 2^(h+1).
largest_pow2-found :
    (fuel n : ℕ)
    → 64 ≤ fuel
    → 2 ≤ n
    → n ≤ 2 ^ 63
    → (h : ℕ) × (largest_pow2_less_than fuel n ≡ some (2 ^ h)) × (2 ^ h < n) × (n ≤ 2 * 2 ^ h)
unfolding largest_pow2_less_than
largest_pow2-found fuel n enough two fits =
    go (double_while-ends fuel 0 n (omega arith) (omega arith) fits)
  where
    go :
        (m : ℕ) × (double_while fuel 1 n ≡ some (2 ^ m)) × (n ≤ 2 ^ m) × ((m ≡ 0) ⊎ (2 ^ m < 2 * n))
        → (h : ℕ) × (largest_pow2_less_than fuel n ≡ some (2 ^ h)) × (2 ^ h < n) × (n ≤ 2 * 2 ^ h)
    go (zero, stops, above, least) = absurd (omega arith)
    go (suc h, stops, above, inl same) = absurd (omega arith)
    go (suc h, stops, above, inr less) =
        let half : 2 ^ suc h / 2 ≡ 2 ^ h = omega (arith, pow_suc h) in
        (h, rw (stops, half) refl, omega (arith, pow_suc h), omega (arith, pow_suc h))

-- For n from 2 to 2^63, the loop on 64-bit words ends within 64 rounds, and the result is the power of
-- two with 2^h < n ≤ 2^(h+1).
pub largest_pow2_less_than-ends :
    (n : ℕ)
    → 2 ≤ n
    → n ≤ 2 ^ 63
    → (h : ℕ) × (largest_pow2_less_than word_size n ≡ some (2 ^ h)) × (2 ^ h < n) × (n ≤ 2 * 2 ^ h)
largest_pow2_less_than-ends n = largest_pow2-found word_size n (omega arith)

-- For a greater n it never ends.
pub largest_pow2_less_than-lost : (n fuel : ℕ) → 2 ^ 63 < n → largest_pow2_less_than fuel n ≡ none
unfolding largest_pow2_less_than
largest_pow2_less_than-lost n fuel large = rw (double_while-lost fuel 0 n (omega arith) large) refl
