-- ===== src/Vault/History.antt =====
-- The checkpoint history that clients see.
use mathlib.Core.Path.{subst}
use mathlib.Core.List.{Memᴰ, reverse, reverse-cons}
use merkle_evidence_vault.Prelude.{
  List, Option-cases, String, [], ap, arith, inl, inr, length, map, none, refl, some, sym, ℕ, ◌++◌,
  ◌↔◌, ◌∙◌, ◌∷◌, ◌≡◌, ◌⊎◌, string_key,
}
use merkle_evidence_vault.Prelude.Int.{ℤ, int_key}
use merkle_evidence_vault.Prelude.Sorted.{All, All-reverse, IsDecreasing, IsDecreasing-reverse}
use merkle_evidence_vault.Prelude.Dict.{Dict, lookup, lookup-insert_missing}
use merkle_evidence_vault.Store.{StoreApi}
use merkle_evidence_vault.Vault.{CheckpointResponse, VaultState}
use merkle_evidence_vault.Vault.Checkpoint.{
  build_for, history_entries, history_entry, new_checkpoint, tree_size,
}
use merkle_evidence_vault.Vault.Steps.{
  Effect, Event, after, builds, effect, keeps, run, step, step-SameHeads,
}
use merkle_evidence_vault.Vault.Heads.{IsStored, IsValid, build_latest_checkpoint-cases}

map-sizes :
    (history : Dict ℤ CheckpointResponse) (n : ℕ) (sizes : List ℤ)
    → All (IsStored history n) sizes
    → map (λ cp. cp.tree_size) (map (λ s. history_entry (lookup s history)) sizes) ≡ sizes
map-sizes history n [] h = refl
map-sizes history n (s ∷ sizes) (k, h) =
    let head : (history_entry (lookup s history)).tree_size ≡ s = rw k.found k.same_size in
    cc (map-sizes history n sizes h)

Memᴰ-append_last {ℓ} :
    {A : Type ℓ} (a : A) (xs : List A) (x : A) → (Memᴰ a xs ⊎ (a ≡ x)) → Memᴰ a (xs ++ x ∷ [])
Memᴰ-append_last a [] x (inl m) = elim m [ ]
Memᴰ-append_last a [] x (inr e) = Memᴰ.head e
Memᴰ-append_last a (y ∷ xs) x (inl (Memᴰ.head e)) = Memᴰ.head e
Memᴰ-append_last a (y ∷ xs) x (inl (Memᴰ.tail m)) = Memᴰ.tail (Memᴰ-append_last a xs x (inl m))
Memᴰ-append_last a (y ∷ xs) x (inr e) = Memᴰ.tail (Memᴰ-append_last a xs x (inr e))

Memᴰ-reverse {ℓ} : {A : Type ℓ} (a : A) (xs : List A) → Memᴰ a xs → Memᴰ a (reverse xs)
Memᴰ-reverse a [] m = elim m [ ]
Memᴰ-reverse a (x ∷ xs) (Memᴰ.head e) = rw reverse-cons (Memᴰ-append_last a (reverse xs) x (inr e))
Memᴰ-reverse a (x ∷ xs) (Memᴰ.tail m) =
    rw reverse-cons (Memᴰ-append_last a (reverse xs) x (inl (Memᴰ-reverse a xs m)))

entry-listed :
    (history : Dict ℤ CheckpointResponse) (cp : CheckpointResponse) (size : ℤ) (sizes : List ℤ)
    → lookup size history ≡ some cp
    → Memᴰ size sizes
    → Memᴰ cp (map (λ s. history_entry (lookup s history)) sizes)
entry-listed history cp size [] found m = elim m [ ]
entry-listed history cp size (s ∷ sizes) found (Memᴰ.head e) =
    Memᴰ.head (sym (ap (λ k. history_entry (lookup k history)) (sym e) ∙ ap history_entry found))
entry-listed history cp size (s ∷ sizes) found (Memᴰ.tail m) =
    Memᴰ.tail (entry-listed history cp size sizes found m)

entry-stored :
    (history : Dict ℤ CheckpointResponse) (cp : CheckpointResponse) (n : ℕ) (sizes : List ℤ)
    → All (IsStored history n) sizes
    → Memᴰ cp (map (λ s. history_entry (lookup s history)) sizes)
    → lookup cp.tree_size history ≡ some cp
entry-stored history cp n [] h m = elim m [ ]
entry-stored history cp n (s ∷ sizes) (k, h) (Memᴰ.head e) =
    let same : cp ≡ k.cp = e ∙ ap history_entry k.found in
    let size : cp.tree_size ≡ s = ap (λ c. c.tree_size) same ∙ k.same_size in
    ap (λ x. lookup x history) size ∙ k.found ∙ ap some (sym same)
entry-stored history cp n (s ∷ sizes) (k, h) (Memᴰ.tail m) = entry-stored history cp n sizes h m

-- In a valid state, the entries that the history lists are exactly the stored checkpoints; their tree sizes
-- are those of the order of storing, reversed, and go strictly down.
pub history_entries-latest_first :
    {S : Type 0} (st : VaultState S) (log : List String) (cp : CheckpointResponse)
    → IsValid st log
    → ((lookup cp.tree_size st.checkpoint_history ≡ some cp) ↔ Memᴰ cp (history_entries st))
      × (map (λ c. c.tree_size) (history_entries st) ≡ reverse st.checkpoint_order)
      × IsDecreasing (map (λ c. c.tree_size) (history_entries st))
unfolding history_entries
history_entries-latest_first st log cp v =
    let history = st.checkpoint_history in
    let order = st.checkpoint_order in
    let stored = All-reverse (IsStored history (length log)) order v.history.stored in
    let same = map-sizes history (length log) (reverse order) stored in
    (
      (
        λ found.
            entry-listed history cp cp.tree_size (reverse order) found
              (Memᴰ-reverse cp.tree_size order (v.history.listed cp.tree_size cp found)),
        λ m. entry-stored history cp (length log) (reverse order) stored m,
      ),
      same,
      subst IsDecreasing (sym same) (IsDecreasing-reverse order v.history.increasing),
    )

module _ (api : StoreApi) where
  open api use {State}

  after-keeps_checkpoint :
      (eff : Effect) (st : VaultState State) (size : ℤ) (cp : CheckpointResponse)
      → lookup size st.checkpoint_history ≡ some cp
      → lookup size (after eff st).checkpoint_history ≡ some cp
  unfolding build_for new_checkpoint
  after-keeps_checkpoint keeps st size cp h = h
  after-keeps_checkpoint (builds host order ctx) st size cp h =
      elim (build_latest_checkpoint-cases host order ctx st) [
        | inl same ↦ rw same h
        | inr more ↦ rw more (
            go (tree_size order st.store_map)
              (Option-cases (lookup (tree_size order st.store_map) st.checkpoint_history)))
      ]
    where
      go :
          (n : ℤ)
          → (lookup n st.checkpoint_history ≡ none)
            ⊎ ((c : CheckpointResponse) × (lookup n st.checkpoint_history ≡ some c))
          → lookup size (build_for host n st).0.checkpoint_history ≡ some cp
      go n (inl missing) = ground (
        arith,
        lookup-insert_missing n size (new_checkpoint host n) cp st.checkpoint_history missing h,
      )
      go n (inr (c, at)) = ground arith

  -- Where the requests and the rounds of the committer come one after the other, each at its end before the
  -- next begins, a checkpoint that is stored stays as it is, whatever the events that follow, with a store
  -- or without one.
  pub run-keeps_checkpoint :
      (es : List Event) (st : VaultState State) (size : ℤ) (cp : CheckpointResponse)
      → lookup size st.checkpoint_history ≡ some cp
      → lookup size (run api es st).checkpoint_history ≡ some cp
  unfolding run
  run-keeps_checkpoint [] st size cp h = h
  run-keeps_checkpoint (e ∷ es) st size cp h =
      run-keeps_checkpoint es (step api e st) size cp
        (rw (step-SameHeads api e st).history (after-keeps_checkpoint (effect e) st size cp h))
