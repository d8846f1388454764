-- ===== src/Prelude/Sorted.antt =====
-- Predicates on all elements of a list, and strictly sorted lists of integers.
use mathlib.Core.List.{List, [], ◌∷◌, ◌++◌, reverse, reverse-cons}
use Prim.Native.Nat.{◌+◌, ◌<◌}
use merkle_evidence_vault.Prelude.Int.{neg_part, pos_part, ℤ}

abbrev pub All {ℓ κ} : {A : Type ℓ} → (A → Type κ) → List A → Type κ
All P [] = Unit
All P (x ∷ xs) = P x × All P xs

infix 50 ◌<ℤ◌
abbrev pub ◌<ℤ◌ : ℤ → ℤ → Type 0
a <ℤ b = pos_part a + neg_part b < pos_part b + neg_part a

-- Each element is below all that follow it.
abbrev pub IsIncreasing : List ℤ → Type 0
IsIncreasing [] = Unit
IsIncreasing (x ∷ xs) = All (λ y. x <ℤ y) xs × IsIncreasing xs

pub All-append_last {ℓ κ} :
    {A : Type ℓ} (P : A → Type κ) (xs : List A) (a : A) → All P xs → P a → All P (xs ++ a ∷ [])
All-append_last P [] a h p = (p, tt)
All-append_last P (x ∷ xs) a (q, h) p = (q, All-append_last P xs a h p)

pub All-map {ℓ κ μ} :
    {A : Type ℓ} (P : A → Type κ) (Q : A → Type μ) (xs : List A)
    → ((x : A) → P x → Q x)
    → All P xs
    → All Q xs
All-map P Q [] f h = tt
All-map P Q (x ∷ xs) f (p, h) = (f x p, All-map P Q xs f h)

pub IsIncreasing-append_last :
    (xs : List ℤ) (a : ℤ) → IsIncreasing xs → All (λ y. y <ℤ a) xs → IsIncreasing (xs ++ a ∷ [])
IsIncreasing-append_last [] a h b = (tt, tt)
IsIncreasing-append_last (x ∷ xs) a (lt, h) (p, b) =
    (All-append_last (λ y. x <ℤ y) xs a lt p, IsIncreasing-append_last xs a h b)

-- Each element is above all that follow it.
abbrev pub IsDecreasing : List ℤ → Type 0
IsDecreasing [] = Unit
IsDecreasing (x ∷ xs) = All (λ y. y <ℤ x) xs × IsDecreasing xs

pub IsDecreasing-append_last :
    (xs : List ℤ) (a : ℤ) → IsDecreasing xs → All (λ y. a <ℤ y) xs → IsDecreasing (xs ++ a ∷ [])
IsDecreasing-append_last [] a h b = (tt, tt)
IsDecreasing-append_last (x ∷ xs) a (lt, h) (p, b) =
    (All-append_last (λ y. y <ℤ x) xs a lt p, IsDecreasing-append_last xs a h b)

pub All-reverse {ℓ κ} : {A : Type ℓ} (P : A → Type κ) (xs : List A) → All P xs → All P (reverse xs)
All-reverse P [] h = tt
All-reverse P (x ∷ xs) (p, h) =
    rw reverse-cons (All-append_last P (reverse xs) x (All-reverse P xs h) p)

pub IsDecreasing-reverse : (xs : List ℤ) → IsIncreasing xs → IsDecreasing (reverse xs)
IsDecreasing-reverse [] h = tt
IsDecreasing-reverse (x ∷ xs) (lt, h) = rw reverse-cons (
    IsDecreasing-append_last (reverse xs) x (IsDecreasing-reverse xs h)
      (All-reverse (λ y. x <ℤ y) xs lt))
