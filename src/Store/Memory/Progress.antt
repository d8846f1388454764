-- ===== src/Store/Memory/Progress.antt =====
-- Rounds of `AssignNextPendingLeaf` over the store in memory.
use mathlib.Core.List.{Memᴰ}
use merkle_evidence_vault.Prelude.{
  Bool, Bool-cases, List, Option, Option-cases, String, [], arith, eq_iff, false, if◌then◌else◌,
  inl, inr, length, none, refl, some, sym, true, ℕ, ◌+◌, ◌<◌, ◌==◌, ◌↔◌, ◌∷◌, ◌≡◌, ◌≢◌, ◌≤◌, ◌⊎◌,
  string_key,
}
use merkle_evidence_vault.Prelude.Int.{ℤ}
use merkle_evidence_vault.Prelude.Dict.{Dict, insert, lookup, lookup-insert}
use merkle_evidence_vault.Store.{Evidence}
use merkle_evidence_vault.Store.Memory.{
  MemStore, assign_found, assign_next_pending_leaf, first_pending, with_leaf,
}
use merkle_evidence_vault.Store.Memory.View.{first_pending-none, first_pending-some, leaf_of}

-- A visit of the map meets every key that the map holds.
abbrev pub Covers : Dict String Evidence → List String → Type 0
Covers ev order = (k : String) → lookup k ev ≢ none → Memᴰ k order

abbrev is_pending : Option Evidence → Bool
is_pending none = false
is_pending (some e) = elim e.leaf_index [ none ↦ true | some i ↦ false ]

-- The number of pending keys among the given ones.
unfoldable pub pending_in : List String → Dict String Evidence → ℕ
pending_in [] ev = 0
pending_in (k ∷ ks) ev = (if is_pending (lookup k ev) then 1 else 0) + pending_in ks ev

module _ (k : String) (e : Evidence) (i : ℤ) (ev : Dict String Evidence) (at : lookup k ev ≡ some e)
    (pending : e.leaf_index ≡ none) where
  pending_in-le :
      (ks : List String) → pending_in ks (insert k (with_leaf e i) ev) ≤ pending_in ks ev
  unfolding pending_in
  pending_in-le [] = omega arith
  pending_in-le (j ∷ ks) =
      ground (arith, pending_in-le ks, lookup-insert k j (with_leaf e i) ev, eq_iff k j)

  -- Committing a key lowers the number of pending ones.
  pending_in-lt :
      (ks : List String)
      → Memᴰ k ks
      → pending_in ks (insert k (with_leaf e i) ev) < pending_in ks ev
  unfolding pending_in
  pending_in-lt [] m = elim m [ ]
  pending_in-lt (j ∷ ks) (Memᴰ.head same) =
      ground (arith, pending_in-le ks, lookup-insert k j (with_leaf e i) ev, eq_iff k j)
  pending_in-lt (j ∷ ks) (Memᴰ.tail later) =
      ground (arith, pending_in-lt ks later, lookup-insert k j (with_leaf e i) ev, eq_iff k j)

-- The rounds of the committer, each with its own visit of the map.
unfoldable pub rounds : List (List String) → MemStore → MemStore
rounds [] m = m
rounds (order ∷ visits) m = rounds visits (assign_next_pending_leaf order m).0

abbrev pub AllCover : Dict String Evidence → List (List String) → Type 0
AllCover ev [] = Unit
AllCover ev (order ∷ visits) = Covers ev order × AllCover ev visits

-- If nothing that the map holds is pending, no given key is.
pending_in-zero :
    (ks : List String) (ev : Dict String Evidence)
    → ((k : String) (e : Evidence) → lookup k ev ≡ some e → e.leaf_index ≢ none)
    → pending_in ks ev ≡ 0
unfolding pending_in
pending_in-zero [] ev h = refl
pending_in-zero (k ∷ ks) ev h = elim (Option-cases (lookup k ev)) [
  | inl missing ↦ ground (arith, pending_in-zero ks ev h)
  | inr (e, at) ↦ ground (arith, pending_in-zero ks ev h, h k e at)
]

-- If no given key is pending, each of them that the map holds has an index.
leaf_of-pending_in-zero :
    (ks : List String) (ev : Dict String Evidence) (k : String)
    → pending_in ks ev ≡ 0
    → Memᴰ k ks
    → lookup k ev ≢ none
    → (i : ℤ) × (leaf_of ev k ≡ some i)
unfolding pending_in leaf_of
leaf_of-pending_in-zero [] ev k h m held = elim m [ ]
leaf_of-pending_in-zero (j ∷ ks) ev k h (Memᴰ.head same) held = elim (Option-cases (lookup k ev)) [
  | inl missing ↦ absurd (held missing)
  | inr (e, at) ↦ elim (Option-cases e.leaf_index) [
    | inl pending ↦ absurd (ground arith)
    | inr (i, leaf) ↦ (i, ground arith)
  ]
]
leaf_of-pending_in-zero (j ∷ ks) ev k h (Memᴰ.tail later) held =
    leaf_of-pending_in-zero ks ev k (ground arith) later held

-- A round neither adds a key to the map nor removes one.
held-assign :
    (order : List String) (m : MemStore) (j : String)
    → (lookup j (assign_next_pending_leaf order m).0.ev ≢ none) ↔ (lookup j m.ev ≢ none)
unfolding assign_next_pending_leaf
held-assign order m j = go (first_pending order m.ev) refl
  where
    go :
        (found : Option (String × Evidence))
        → first_pending order m.ev ≡ found
        → (lookup j (assign_found found m).0.ev ≢ none) ↔ (lookup j m.ev ≢ none)
    go none e = ((λ h. h), (λ h. h))
    go (some (k, v)) e =
        let at = first_pending-some order m.ev k v e in
        let law = lookup-insert k j (with_leaf v m.next) m.ev in
        ((λ h. ground (arith, eq_iff k j)), (λ h. ground (arith, eq_iff k j)))

-- A round over a covering visit commits a pending key, unless none is left.
pending_in-assign :
    (keys order : List String) (m : MemStore)
    → Covers m.ev keys
    → Covers m.ev order
    → (pending_in keys (assign_next_pending_leaf order m).0.ev < pending_in keys m.ev)
      ⊎ (pending_in keys (assign_next_pending_leaf order m).0.ev ≡ 0)
unfolding assign_next_pending_leaf
pending_in-assign keys order m all visit = go (first_pending order m.ev) refl
  where
    go :
        (found : Option (String × Evidence))
        → first_pending order m.ev ≡ found
        → (pending_in keys (assign_found found m).0.ev < pending_in keys m.ev)
          ⊎ (pending_in keys (assign_found found m).0.ev ≡ 0)
    go none e = inr (
        pending_in-zero keys m.ev
          (λ k v at. first_pending-none order m.ev k v e (visit k (λ n. cc)) at))
    go (some (k, v)) e =
        let (at, pending) = first_pending-some order m.ev k v e in
        inl (pending_in-lt k v m.next m.ev at pending keys (all k (λ n. cc)))

-- Once as many rounds have passed as there were pending keys, each over a visit that covers the
-- map, every id that the store held has a leaf index.
pub rounds_commit_all :
    (keys : List String) (visits : List (List String)) (m : MemStore)
    → Covers m.ev keys
    → AllCover m.ev visits
    → pending_in keys m.ev ≤ length visits
    → (k : String) → lookup k m.ev ≢ none
    → (i : ℤ) × (leaf_of (rounds visits m).ev k ≡ some i)
unfolding rounds
rounds_commit_all keys [] m all cover enough k held =
    leaf_of-pending_in-zero keys m.ev k (omega arith) (all k held) held
rounds_commit_all keys (order ∷ visits) m all (visit, cover) enough k held =
    rounds_commit_all keys visits (assign_next_pending_leaf order m).0
      (λ j h. all j ((held-assign order m j).0 h)) (AllCover-assign visits cover)
      (fewer (pending_in-assign keys order m all visit)) k ((held-assign order m k).1 held)
  where
    AllCover-assign :
        (vs : List (List String))
        → AllCover m.ev vs
        → AllCover (assign_next_pending_leaf order m).0.ev vs
    AllCover-assign [] c = tt
    AllCover-assign (v ∷ vs) (c, cs) =
        ((λ j h. c j ((held-assign order m j).0 h)), AllCover-assign vs cs)

    fewer :
        (pending_in keys (assign_next_pending_leaf order m).0.ev < pending_in keys m.ev)
          ⊎ (pending_in keys (assign_next_pending_leaf order m).0.ev ≡ 0)
        → pending_in keys (assign_next_pending_leaf order m).0.ev ≤ length visits
    fewer (inl lt) = omega arith
    fewer (inr done) = omega arith

-- The keys of a map, in its own order, are a covering visit.
abbrev pub keys : Dict String Evidence → List String
keys [] = []
keys ((k, e) ∷ ev) = k ∷ keys ev

pub Covers-keys : (ev : Dict String Evidence) → Covers ev (keys ev)
unfolding lookup
Covers-keys [] k held = absurd (held refl)
Covers-keys ((j, e) ∷ ev) k held = elim (Bool-cases (j == k)) [
  | inl same ↦ Memᴰ.head (sym ((eq_iff j k).0 same))
  | inr other ↦ Memᴰ.tail (Covers-keys ev k (λ missing. held (ground arith)))
]
