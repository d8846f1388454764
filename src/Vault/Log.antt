-- ===== src/Vault/Log.antt =====
-- The map and the counter of the process beside the append-only log of Store/Leaves.antt, and the tree
-- size that a checkpoint is built for.
use mathlib.Core.List.{Memᴰ}
use merkle_evidence_vault.Prelude.{
  List, Option, Option-cases, String, [], arith, inl, inr, length, none, refl, some, suc, zero, ℕ,
  ◌<◌, ◌^◌, ◌∷◌, ◌≡◌, ◌≢◌, string_key,
}
use merkle_evidence_vault.Prelude.Int.{add64_pos, negsuc, pos, ℤ, ◌≤ℤ◌, int_key}
use merkle_evidence_vault.Prelude.Dict.{Dict, lookup}
use merkle_evidence_vault.Store.{Evidence}
use merkle_evidence_vault.Store.Leaves.{IsLog, get_elem?-lt, get_elem?-some}
use merkle_evidence_vault.Store.Memory.{
  MemStore, assign_found, assign_next_pending_leaf, first_pending,
}
use merkle_evidence_vault.Store.Memory.View.{leaf_at, leaf_of}
use merkle_evidence_vault.Store.Memory.Progress.{Covers}
use merkle_evidence_vault.Vault.{VaultState}
use merkle_evidence_vault.Vault.Checkpoint.{max_leaf, max_with, size_of_max, tree_size}
use merkle_evidence_vault.Vault.Committer.{memory_found, memory_round}

-- The process's own map and counter, as a store in memory.
abbrev pub as_store : {S : Type 0} → VaultState S → MemStore
as_store st = record { ev = st.store_map; audits = []; next = st.next }

pub memory_round-assign :
    {S : Type 0} (order : List String) (st : VaultState S)
    → as_store (memory_round order st) ≡ (assign_next_pending_leaf order (as_store st)).0
unfolding memory_round assign_next_pending_leaf
memory_round-assign order st = go (first_pending order st.store_map)
  where
    go :
        (found : Option (String × Evidence))
        → as_store (memory_found found st) ≡ (assign_found found (as_store st)).0
    go none = refl
    go (some (k, e)) = refl

-- The greatest leaf index is no less than the start value and than any index of a visited key.
max_leaf-ge : (m : ℤ) (order : List String) (ev : Dict String Evidence) → m ≤ℤ max_leaf m order ev
unfolding max_leaf
max_leaf-ge m [] ev = omega arith
max_leaf-ge m (k ∷ order) ev = ground (arith, max_leaf-ge (max_with m (lookup k ev)) order ev)

max_leaf-ge_leaf :
    (m : ℤ) (order : List String) (ev : Dict String Evidence) (k : String) (i : ℤ)
    → Memᴰ k order
    → leaf_of ev k ≡ some i
    → i ≤ℤ max_leaf m order ev
unfolding max_leaf leaf_of
max_leaf-ge_leaf m [] ev k i h e = elim h [ ]
max_leaf-ge_leaf m (j ∷ order) ev k i (Memᴰ.head same) e =
    ground (arith, max_leaf-ge (max_with m (lookup j ev)) order ev)
max_leaf-ge_leaf m (j ∷ order) ev k i (Memᴰ.tail later) e =
    max_leaf-ge_leaf (max_with m (lookup j ev)) order ev k i later e

-- It is no greater than a bound of the start value and of all indices.
max_leaf-le :
    (m b : ℤ) (order : List String) (ev : Dict String Evidence)
    → m ≤ℤ b
    → ((k : String) (i : ℤ) → leaf_of ev k ≡ some i → i ≤ℤ b)
    → max_leaf m order ev ≤ℤ b
unfolding max_leaf leaf_of
max_leaf-le m b [] ev low h = low
max_leaf-le m b (k ∷ order) ev low h =
    max_leaf-le (max_with m (lookup k ev)) b order ev (max_with-le (lookup k ev) (h k)) h
  where
    max_with-le :
        (o : Option Evidence) → ((i : ℤ) → leaf_at o ≡ some i → i ≤ℤ b) → max_with m o ≤ℤ b
    max_with-le none g = low
    max_with-le (some e) g = elim (Option-cases e.leaf_index) [
      | inl pending ↦ rw (pending, max_with) low
      | inr (i, leaf) ↦ let at = g i leaf in ground arith
    ]

module _ (order : List String) (ev : Dict String Evidence) (log : List String)
    (held : IsLog (leaf_of ev) log) (covers : Covers ev order) where
  leaf-lt : (k : String) (i : ℤ) → leaf_of ev k ≡ some i → (j : ℕ) × (i ≡ pos j) × (j < length log)
  leaf-lt k i e = let (j, ij, at) = held.logged k i e in (j, ij, get_elem?-lt log j at)

  max_leaf-length : (n : ℕ) → length log ≡ suc n → max_leaf (negsuc 0) order ev ≡ pos n
  max_leaf-length n size =
      let (k, at) = get_elem?-some log n (omega arith) in
      let leaf = held.placed n k at in
      let here : lookup k ev ≢ none = unfold leaf_of in λ missing. ground arith in
      let low = max_leaf-ge_leaf (negsuc 0) order ev k (pos n) (covers k here) leaf in
      let high =
        max_leaf-le (negsuc 0) (pos n) order ev (omega arith)
          (λ j i e. let (q, iq, lt) = leaf-lt j i e in rw iq (omega arith)) in
      ground arith

  max_leaf-nil : length log ≡ 0 → max_leaf (negsuc 0) order ev ≡ negsuc 0
  max_leaf-nil size =
      let low = max_leaf-ge (negsuc 0) order ev in
      let high =
        max_leaf-le (negsuc 0) (negsuc 0) order ev (omega arith)
          (λ j i e. let (q, iq, lt) = leaf-lt j i e in absurd (omega arith)) in
      ground arith

  -- The tree size is the number of committed records, if the visit covers the map and this number
  -- is an `int64`.
  pub tree_size-length : length log < 2 ^ 63 → tree_size order ev ≡ pos (length log)
  unfolding tree_size
  tree_size-length room = go (length log) refl
    where
      go : (n : ℕ) → length log ≡ n → size_of_max (max_leaf (negsuc 0) order ev) ≡ pos (length log)
      go zero size = rw (max_leaf-nil size, size) refl
      go (suc n) size = rw (max_leaf-length n size, size) (ground (arith, add64_pos n 1))
