-- ===== src/Vault/Interleaved/Shelf.antt =====
-- The stored checkpoints of a server whose requests interleave.
use mathlib.Core.Path.{subst}
use mathlib.Core.List.{Memᴰ}
use merkle_evidence_vault.Prelude.{
  Bool-cases, List, Option-cases, [], ap, arith, if◌then◌else◌, inl, inr, none, refl, some, sym, ℕ,
  ◌++◌, ◌==◌, ◌∙◌, ◌∷◌, ◌≡◌, ◌≢◌, ◌≤◌, string_key,
}
use merkle_evidence_vault.Prelude.Int.{eqb_ℤ_iff, pos, ℤ, ◌≤ℤ◌, int_key}
use merkle_evidence_vault.Prelude.Dict.{lookup, lookup-insert}
use merkle_evidence_vault.Prelude.Sorted.{All, All-append_last, All-map, ◌<ℤ◌}
use merkle_evidence_vault.Vault.{CheckpointResponse, VaultState}
use merkle_evidence_vault.Vault.Checkpoint.{store_checkpoint}
use merkle_evidence_vault.Vault.Steps.{SameHeads}

-- A tree size of a log of length n that is not empty.
abbrev pub InRange : ℕ → ℤ → Type 0
InRange n size = (pos 0 <ℤ size) × (size ≤ℤ pos n)

abbrev pub Distinct : List ℤ → Type 0
Distinct [] = Unit
Distinct (x ∷ xs) = All (λ y. x ≢ y) xs × Distinct xs

-- Each checkpoint is filed under its own tree size, which is one of the log's, and the order has
-- exactly the tree sizes with a checkpoint, each once.
pub record IsShelf {S : Type 0} (st : VaultState S) (n : ℕ) : Type 0 where
  pub filed :
      (s : ℤ) (cp : CheckpointResponse)
      → lookup s st.checkpoint_history ≡ some cp
      → (cp.tree_size ≡ s) × InRange n s
  pub listed :
      (s : ℤ) (cp : CheckpointResponse)
      → lookup s st.checkpoint_history ≡ some cp
      → Memᴰ s st.checkpoint_order
  pub known : All (λ s. lookup s st.checkpoint_history ≢ none) st.checkpoint_order
  pub distinct : Distinct st.checkpoint_order

Memᴰ-append_left {ℓ} : {A : Type ℓ} {a : A} (xs ys : List A) → Memᴰ a xs → Memᴰ a (xs ++ ys)
Memᴰ-append_left [] ys m = elim m [ ]
Memᴰ-append_left (x ∷ xs) ys (Memᴰ.head same) = Memᴰ.head same
Memᴰ-append_left (x ∷ xs) ys (Memᴰ.tail later) = Memᴰ.tail (Memᴰ-append_left xs ys later)

Memᴰ-append_last {ℓ} : {A : Type ℓ} (xs : List A) (a : A) → Memᴰ a (xs ++ a ∷ [])
Memᴰ-append_last [] a = Memᴰ.head refl
Memᴰ-append_last (x ∷ xs) a = Memᴰ.tail (Memᴰ-append_last xs a)

Distinct-append_last :
    (xs : List ℤ) (a : ℤ) → Distinct xs → All (λ y. y ≢ a) xs → Distinct (xs ++ a ∷ [])
Distinct-append_last [] a d b = (tt, tt)
Distinct-append_last (x ∷ xs) a (out, d) (p, b) =
    (All-append_last (λ y. x ≢ y) xs a out p, Distinct-append_last xs a d b)

pub IsShelf-grow :
    {S : Type 0} (st st' : VaultState S) (n m : ℕ)
    → n ≤ m
    → SameHeads st' st
    → IsShelf st n
    → IsShelf st' m
IsShelf-grow st st' n m le same h = record {
  filed = λ s cp e.
      let (own, (low, high)) = h.filed s cp (rw same.history at e) in (own, (low, omega arith));
  listed = λ s cp e. rw same.order (h.listed s cp (rw same.history at e));
  known = rw (same.order, same.history) h.known;
  distinct = rw same.order h.distinct;
}

module _ {S : Type 0} (cp : CheckpointResponse) (st : VaultState S) (n : ℕ) where
  law :
      (s : ℤ)
      → lookup s (store_checkpoint cp st).checkpoint_history
        ≡ (if cp.tree_size == s then some cp else lookup s st.checkpoint_history)
  unfolding store_checkpoint
  law s = lookup-insert cp.tree_size s cp st.checkpoint_history

  filed-store :
      InRange n cp.tree_size
      → IsShelf st n
      → (s : ℤ) (c : CheckpointResponse)
      → lookup s (store_checkpoint cp st).checkpoint_history ≡ some c
      → (c.tree_size ≡ s) × InRange n s
  filed-store range h s c e = elim (Bool-cases (cp.tree_size == s)) [
    | inl same ↦
        let at = law s in
        let own = (eqb_ℤ_iff cp.tree_size s).0 same in
        let here : cp ≡ c = ground arith in
        (ap (λ r. r.tree_size) (sym here) ∙ own, subst (InRange n) own range)
    | inr other ↦ let at = law s in h.filed s c (ground arith)
  ]

  known-store :
      (s : ℤ)
      → lookup s st.checkpoint_history ≢ none
      → lookup s (store_checkpoint cp st).checkpoint_history ≢ none
  known-store s held = let at = law s in λ e. ground arith

  -- The tree sizes that are listed with a checkpoint of a size that has none yet are others.
  others :
      (order : List ℤ)
      → lookup cp.tree_size st.checkpoint_history ≡ none
      → All (λ s. lookup s st.checkpoint_history ≢ none) order
      → All (λ y. y ≢ cp.tree_size) order
  others order missing =
      All-map (λ s. lookup s st.checkpoint_history ≢ none) (λ y. y ≢ cp.tree_size) order
        (λ s held same. held (ap (λ k. lookup k st.checkpoint_history) same ∙ missing))

  listed-new :
      lookup cp.tree_size st.checkpoint_history ≡ none
      → IsShelf st n
      → (s : ℤ) (c : CheckpointResponse)
      → lookup s (store_checkpoint cp st).checkpoint_history ≡ some c
      → Memᴰ s (st.checkpoint_order ++ cp.tree_size ∷ [])
  listed-new missing h s c e = elim (Bool-cases (cp.tree_size == s)) [
    | inl same ↦
        subst (λ k. Memᴰ k (st.checkpoint_order ++ cp.tree_size ∷ []))
          ((eqb_ℤ_iff cp.tree_size s).0 same) (Memᴰ-append_last st.checkpoint_order cp.tree_size)
    | inr other ↦
        let at = law s in
        Memᴰ-append_left st.checkpoint_order (cp.tree_size ∷ []) (h.listed s c (ground arith))
  ]

  listed-old :
      (old : CheckpointResponse)
      → lookup cp.tree_size st.checkpoint_history ≡ some old
      → IsShelf st n
      → (s : ℤ) (c : CheckpointResponse)
      → lookup s (store_checkpoint cp st).checkpoint_history ≡ some c
      → Memᴰ s st.checkpoint_order
  listed-old old there h s c e = elim (Bool-cases (cp.tree_size == s)) [
    | inl same ↦
        subst (λ k. Memᴰ k st.checkpoint_order) ((eqb_ℤ_iff cp.tree_size s).0 same)
          (h.listed cp.tree_size old there)
    | inr other ↦ let at = law s in h.listed s c (ground arith)
  ]

  known-order :
      (order : List ℤ)
      → All (λ s. lookup s st.checkpoint_history ≢ none) order
      → All (λ s. lookup s (store_checkpoint cp st).checkpoint_history ≢ none) order
  known-order order =
      All-map (λ s. lookup s st.checkpoint_history ≢ none)
        (λ s. lookup s (store_checkpoint cp st).checkpoint_history ≢ none) order known-store

  pub order-new :
      lookup cp.tree_size st.checkpoint_history ≡ none
      → (store_checkpoint cp st).checkpoint_order ≡ st.checkpoint_order ++ cp.tree_size ∷ []
  unfolding store_checkpoint
  order-new missing = rw missing refl

  order-old :
      (old : CheckpointResponse)
      → lookup cp.tree_size st.checkpoint_history ≡ some old
      → (store_checkpoint cp st).checkpoint_order ≡ st.checkpoint_order
  unfolding store_checkpoint
  order-old old there = rw there refl

  held-own : lookup cp.tree_size (store_checkpoint cp st).checkpoint_history ≢ none
  held-own =
      let at = law cp.tree_size in
      let same = (eqb_ℤ_iff cp.tree_size cp.tree_size).1 refl in λ e. ground arith

  -- Storing a checkpoint keeps the shelf, whether one of its size was stored or not.
  pub store_checkpoint-IsShelf :
      InRange n cp.tree_size → IsShelf st n → IsShelf (store_checkpoint cp st) n
  store_checkpoint-IsShelf range h =
      elim (Option-cases (lookup cp.tree_size st.checkpoint_history)) [
        | inl missing ↦ record {
          filed = filed-store range h;
          listed = λ s c e. rw (order-new missing) (listed-new missing h s c e);
          known = rw (order-new missing) (
              All-append_last (λ s. lookup s (store_checkpoint cp st).checkpoint_history ≢ none)
                st.checkpoint_order cp.tree_size (known-order st.checkpoint_order h.known)
                held-own);
          distinct = rw (order-new missing) (
              Distinct-append_last st.checkpoint_order cp.tree_size h.distinct
                (others st.checkpoint_order missing h.known));
        }
        | inr (old, there) ↦ record {
          filed = filed-store range h;
          listed = λ s c e. rw (order-old old there) (listed-old old there h s c e);
          known = rw (order-old old there) (known-order st.checkpoint_order h.known);
          distinct = rw (order-old old there) h.distinct;
        }
      ]
