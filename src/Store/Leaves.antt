-- ===== src/Store/Leaves.antt =====
-- The view of a store that the Merkle log is about: which leaf index each evidence id has.
-- `IsLog leaf log` is the specification, an append-only list: the id at position j of `log` has
-- index j, and no other id has an index.
use merkle_evidence_vault.Prelude.{
  Bool-cases, List, Option, String, [], ap, arith, eq_iff, get_elem?, if◌then◌else◌, inl, inr,
  length, none, refl, some, suc, sym, zero, ℕ, ◌++◌, ◌<◌, ◌==◌, ◌∙◌, ◌∷◌, ◌≡◌, ◌⊎◌, string_key,
}
use merkle_evidence_vault.Prelude.Int.{pos, ℤ, int_key}

abbrev pub Leaves : Type 0
Leaves = String → Option ℤ

-- One id gets an index.
abbrev pub place : String → ℤ → Leaves → Leaves
place id i leaf k = if id == k then some i else leaf k

pub record IsLog (leaf : Leaves) (log : List String) : Type 0 where
  pub logged :
      (k : String) (i : ℤ) → leaf k ≡ some i → (j : ℕ) × (i ≡ pos j) × (get_elem? log j ≡ some k)
  pub placed : (j : ℕ) (k : String) → get_elem? log j ≡ some k → leaf k ≡ some (pos j)

pub get_elem?-append_last {ℓ} :
    {A : Type ℓ} (xs : List A) (a : A) → get_elem? (xs ++ a ∷ []) (length xs) ≡ some a
get_elem?-append_last [] a = refl
get_elem?-append_last (x ∷ xs) a = get_elem?-append_last xs a

pub get_elem?-append_left {ℓ} :
    {A : Type ℓ} (xs ys : List A) (j : ℕ) {a : A}
    → get_elem? xs j ≡ some a
    → get_elem? (xs ++ ys) j ≡ some a
get_elem?-append_left [] ys j h = cc
get_elem?-append_left (x ∷ xs) ys zero h = h
get_elem?-append_left (x ∷ xs) ys (suc j) h = get_elem?-append_left xs ys j h

-- An element of a list with one more at its end is an old one or the new one.
pub get_elem?-append_inv {ℓ} :
    {A : Type ℓ} (xs : List A) (b : A) (j : ℕ) {a : A}
    → get_elem? (xs ++ b ∷ []) j ≡ some a
    → (get_elem? xs j ≡ some a) ⊎ ((j ≡ length xs) × (b ≡ a))
get_elem?-append_inv [] b zero h = inr (refl, ground arith)
get_elem?-append_inv [] b (suc j) h = cc
get_elem?-append_inv (x ∷ xs) b zero h = inl h
get_elem?-append_inv (x ∷ xs) b (suc j) h = elim (get_elem?-append_inv xs b j h) [
  | inl old ↦ inl old
  | inr (e, same) ↦ inr (ap suc e, same)
]

pub get_elem?-lt {ℓ} :
    {A : Type ℓ} (xs : List A) (j : ℕ) {a : A} → get_elem? xs j ≡ some a → j < length xs
get_elem?-lt [] j h = cc
get_elem?-lt (x ∷ xs) zero h = omega arith
get_elem?-lt (x ∷ xs) (suc j) h = omega (arith, get_elem?-lt xs j h)

pub get_elem?-some {ℓ} :
    {A : Type ℓ} (xs : List A) (j : ℕ) → j < length xs → (a : A) × (get_elem? xs j ≡ some a)
get_elem?-some [] j h = elim h [ ]
get_elem?-some (x ∷ xs) zero h = (x, refl)
get_elem?-some (x ∷ xs) (suc j) h = get_elem?-some xs j (omega arith)

pub IsLog-nil : IsLog (λ k. none) []
IsLog-nil = record { logged = λ k i h. cc; placed = λ j k h. cc }

-- The log depends on the view alone.
pub IsLog-ext :
    {leaf leaf' : Leaves} {log : List String}
    → ((k : String) → leaf' k ≡ leaf k)
    → IsLog leaf log
    → IsLog leaf' log
IsLog-ext same h = record {
  logged = λ k i e. h.logged k i (sym (same k) ∙ e);
  placed = λ j k e. same k ∙ h.placed j k e;
}

-- Giving the next index to an id that has none appends the id to the log.
pub IsLog-place :
    {leaf : Leaves} (log : List String) (id : String)
    → leaf id ≡ none
    → IsLog leaf log
    → IsLog (place id (pos (length log)) leaf) (log ++ id ∷ [])
IsLog-place {leaf} log id pending h = record { logged = logged; placed = placed }
  where
    logged :
        (k : String) (i : ℤ)
        → place id (pos (length log)) leaf k ≡ some i
        → (j : ℕ) × (i ≡ pos j) × (get_elem? (log ++ id ∷ []) j ≡ some k)
    logged k i e = elim (Bool-cases (id == k)) [
      | inl same ↦
          (length log, ground arith, get_elem?-append_last log id ∙ ap some ((eq_iff id k).0 same))
      | inr other ↦
          let (j, ij, at) = h.logged k i (ground arith) in
          (j, ij, get_elem?-append_left log (id ∷ []) j at)
    ]

    old :
        (j : ℕ) (k : String)
        → get_elem? log j ≡ some k
        → place id (pos (length log)) leaf k ≡ some (pos j)
    old j k e = elim (Bool-cases (id == k)) [
      | inl same ↦ let q = (eq_iff id k).0 same in let l = h.placed j k e in cc (pending, ap leaf q)
      | inr other ↦ let l = h.placed j k e in ground arith
    ]

    placed :
        (j : ℕ) (k : String)
        → get_elem? (log ++ id ∷ []) j ≡ some k
        → place id (pos (length log)) leaf k ≡ some (pos j)
    placed j k e = elim (get_elem?-append_inv log id j e) [
      | inl at ↦ old j k at
      | inr (at, same) ↦ ground (arith, (eq_iff id k).1 same)
    ]

-- No two ids share a leaf index.
pub IsLog-injective :
    {leaf : Leaves} {log : List String} {i : ℤ} (k k' : String)
    → IsLog leaf log
    → leaf k ≡ some i
    → leaf k' ≡ some i
    → k ≡ k'
IsLog-injective {log} {i} k k' h e e' =
    let (j, ij, at) = h.logged k i e in let (j', ij', at') = h.logged k' i e' in ground arith
