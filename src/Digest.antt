-- ===== src/Digest.antt =====
-- Digests: what the program relies on of SHA-256, and collisions of a hash function.
use merkle_evidence_vault.Prelude.{
  Bool-cases, List, [], arith, inl, inr, length, refl, ℕ, ◌++◌, ◌=ℕ◌, ◌∷◌, ◌≡◌, ◌≢◌, ◌⊎◌,
}
use merkle_evidence_vault.Text.Hex.{AreBytes}

-- A hash function with digests of 32 bytes.
pub record IsDigest (sha256 : List ℕ → List ℕ) : Type 0 where
  pub bytes : (b : List ℕ) → AreBytes (sha256 b)
  pub size : (b : List ℕ) → length (sha256 b) ≡ 32

-- Two inputs, both among those that `P` names, with the same digest. As digests are bounded, some two
-- inputs always collide: a statement names a finite number of inputs, those that the code has hashed.
pub record Collision (sha256 : List ℕ → List ℕ) (P : List ℕ → Type 0) : Type 0 where
  pub first : List ℕ
  pub second : List ℕ
  pub first_in : P first
  pub second_in : P second
  pub differ : first ≢ second
  pub same : sha256 first ≡ sha256 second

pub bytes_cases : (xs ys : List ℕ) → (xs ≡ ys) ⊎ (xs ≢ ys)
bytes_cases [] [] = inl refl
bytes_cases [] (y ∷ ys) = inr (λ e. cc)
bytes_cases (x ∷ xs) [] = inr (λ e. cc)
bytes_cases (x ∷ xs) (y ∷ ys) = elim (Bool-cases (x =ℕ y)) [
  | inl head ↦ elim (bytes_cases xs ys) [
    | inl tail ↦ inl (ground arith)
    | inr differ ↦ inr (λ e. differ (cc))
  ]
  | inr head ↦ inr (λ e. ground arith)
]

-- Inputs with the same digest are the same, or are a collision.
pub equal_or_collide :
    {sha256 : List ℕ → List ℕ} (P : List ℕ → Type 0) (a b : List ℕ)
    → P a
    → P b
    → sha256 a ≡ sha256 b
    → (a ≡ b) ⊎ Collision sha256 P
equal_or_collide P a b pa pb same = elim (bytes_cases a b) [
  | inl equal ↦ inl equal
  | inr differ ↦ inr (record {
    first = a;
    second = b;
    first_in = pa;
    second_in = pb;
    differ = differ;
    same = same;
  })
]

pub append_inj {ℓ} :
    {A : Type ℓ} (xs ys xs' ys' : List A)
    → xs ++ ys ≡ xs' ++ ys'
    → length xs ≡ length xs'
    → (xs ≡ xs') × (ys ≡ ys')
append_inj [] ys [] ys' e size = (refl, e)
append_inj [] ys (x' ∷ xs') ys' e size = absurd (omega arith)
append_inj (x ∷ xs) ys [] ys' e size = absurd (omega arith)
append_inj (x ∷ xs) ys (x' ∷ xs') ys' e size =
    let (heads, tails) = append_inj xs ys xs' ys' (cc) (omega arith) in (cc, tails)
