-- ===== src/Vault/Heads.antt =====
-- The checkpoints that the API has handed out, in a server without a store.
use mathlib.Core.List.{Memᴰ}
use mathlib.Core.Path.{subst}
use merkle_evidence_vault.Prelude.{
  Bool-cases, List, Option, String, [], ap, append-nil, append_assoc, arith, false, inl, inr,
  length, length-append, none, refl, some, suc, sym, zero, ℕ, ◌++◌, ◌+◌, ◌<◌, ◌==◌, ◌^◌, ◌∙◌, ◌∷◌,
  ◌≡◌, ◌≤◌, ◌⊎◌, string_key,
}
use merkle_evidence_vault.Prelude.Int.{eqb_ℤ, eqb_ℤ_iff, pos, ℤ, ◌≤ℤ◌, int_key}
use merkle_evidence_vault.Prelude.Sorted.{
  All, All-append_last, All-map, IsIncreasing, IsIncreasing-append_last, ◌<ℤ◌,
}
use merkle_evidence_vault.Prelude.Dict.{Dict, insert, lookup, lookup-insert, lookup-insert_missing}
use merkle_evidence_vault.Vault.{CheckpointResponse, Host, VaultState, has_checkpoint_access}
use merkle_evidence_vault.Vault.Checkpoint.{
  build_for, build_latest_checkpoint, finish_checkpoint, new_checkpoint, store_checkpoint,
  tree_size,
}
use merkle_evidence_vault.Store.Memory.Log.{Holds, Holds-new_memory_store}
use merkle_evidence_vault.Vault.Steps.{
  Effect, Event, SameHeads, after, builds, effect, keeps, run, start, step, step-SameHeads,
}
use merkle_evidence_vault.Vault.Log.{as_store, tree_size-length}
use merkle_evidence_vault.Vault.Runs.{
  AllProper, Draws, Visits, appended, length-appended, step-Holds, step-store,
}
use merkle_evidence_vault.Store.{StoreApi}
use merkle_evidence_vault.Http.{Context}

-- A tree size between 1 and n, with a stored checkpoint that is for this size.
pub record IsStored (history : Dict ℤ CheckpointResponse) (n : ℕ) (size : ℤ) : Type 0 where
  pub cp : CheckpointResponse
  pub found : lookup size history ≡ some cp
  pub same_size : cp.tree_size ≡ size
  pub positive : pos 0 <ℤ size
  pub within : size ≤ℤ pos n

-- The order lists exactly the sizes that have a stored checkpoint, by growing tree size, none beyond the
-- log's length, and each checkpoint is filed under its own tree size.
pub record IsHistory {S : Type 0} (st : VaultState S) (n : ℕ) : Type 0 where
  pub stored : All (IsStored st.checkpoint_history n) st.checkpoint_order
  pub increasing : IsIncreasing st.checkpoint_order
  pub listed :
      (s : ℤ) (cp : CheckpointResponse)
      → lookup s st.checkpoint_history ≡ some cp
      → Memᴰ s st.checkpoint_order
  pub keyed :
      (s : ℤ) (cp : CheckpointResponse)
      → lookup s st.checkpoint_history ≡ some cp
      → cp.tree_size ≡ s

IsStored-grow :
    (history : Dict ℤ CheckpointResponse) (n m : ℕ) (size : ℤ)
    → n ≤ m
    → IsStored history n size
    → IsStored history m size
IsStored-grow history n m size le s = record {
  cp = s.cp;
  found = s.found;
  same_size = s.same_size;
  positive = s.positive;
  within = omega arith;
}

-- Storing a checkpoint of a size that the history lacks keeps what is stored.
IsStored-insert :
    (history : Dict ℤ CheckpointResponse) (n : ℕ) (cp : CheckpointResponse) (size : ℤ)
    → lookup cp.tree_size history ≡ none
    → IsStored history n size
    → IsStored (insert cp.tree_size cp history) n size
IsStored-insert history n cp size missing s = record {
  cp = s.cp;
  found = lookup-insert_missing cp.tree_size size cp s.cp history missing s.found;
  same_size = s.same_size;
  positive = s.positive;
  within = s.within;
}

IsStored-new :
    (history : Dict ℤ CheckpointResponse) (n : ℕ) (cp : CheckpointResponse)
    → cp.tree_size ≡ pos n
    → 0 < n
    → IsStored (insert cp.tree_size cp history) n cp.tree_size
IsStored-new history n cp size positive = record {
  cp = cp;
  found = ground (
    arith,
    lookup-insert cp.tree_size cp.tree_size cp history,
    eqb_ℤ_iff cp.tree_size cp.tree_size,
  );
  same_size = refl;
  positive = ground arith;
  within = ground arith;
}

-- What a server without a store keeps true, beside the log that it holds.
pub record IsValid {S : Type 0} (st : VaultState S) (log : List String) : Type 0 where
  pub no_store : st.store ≡ none
  pub held : Holds (as_store st) log
  pub history : IsHistory st (length log)

pub IsValid-start : {S : Type 0} → IsValid {S = S} start []
IsValid-start = record {
  no_store = refl;
  held = Holds-new_memory_store;
  history = record {
    stored = tt;
    increasing = tt;
    listed = λ s cp e. absurd (unfold lookup in cc);
    keyed = λ s cp e. unfold lookup in cc;
  };
}

keyed-insert :
    (history : Dict ℤ CheckpointResponse) (cp : CheckpointResponse)
    → ((s : ℤ) (c : CheckpointResponse) → lookup s history ≡ some c → c.tree_size ≡ s)
    → (s : ℤ) (c : CheckpointResponse) → lookup s (insert cp.tree_size cp history) ≡ some c
    → c.tree_size ≡ s
keyed-insert history cp h s c e = elim (Bool-cases (eqb_ℤ cp.tree_size s)) [
  | inl same ↦
      let law = lookup-insert cp.tree_size s cp history in
      let here : cp ≡ c = ground arith in
      ap (λ r. r.tree_size) (sym here) ∙ (eqb_ℤ_iff cp.tree_size s).0 same
  | inr other ↦ let law = lookup-insert cp.tree_size s cp history in h s c (ground arith)
]

Memᴰ-append_left : (s : ℤ) (xs ys : List ℤ) → Memᴰ s xs → Memᴰ s (xs ++ ys)
Memᴰ-append_left s [] ys m = elim m [ ]
Memᴰ-append_left s (x ∷ xs) ys (Memᴰ.head e) = Memᴰ.head e
Memᴰ-append_left s (x ∷ xs) ys (Memᴰ.tail m) = Memᴰ.tail (Memᴰ-append_left s xs ys m)

Memᴰ-append_last : (s : ℤ) (xs : List ℤ) → Memᴰ s (xs ++ s ∷ [])
Memᴰ-append_last s [] = Memᴰ.head refl
Memᴰ-append_last s (x ∷ xs) = Memᴰ.tail (Memᴰ-append_last s xs)

listed-insert :
    (history : Dict ℤ CheckpointResponse) (cp : CheckpointResponse) (order : List ℤ)
    → ((s : ℤ) (c : CheckpointResponse) → lookup s history ≡ some c → Memᴰ s order)
    → (s : ℤ) (c : CheckpointResponse) → lookup s (insert cp.tree_size cp history) ≡ some c
    → Memᴰ s (order ++ cp.tree_size ∷ [])
listed-insert history cp order h s c e = elim (Bool-cases (eqb_ℤ cp.tree_size s)) [
  | inl same ↦
      subst (λ k. Memᴰ k (order ++ cp.tree_size ∷ [])) ((eqb_ℤ_iff cp.tree_size s).0 same)
        (Memᴰ-append_last cp.tree_size order)
  | inr other ↦
      let law = lookup-insert cp.tree_size s cp history in
      Memᴰ-append_left s order (cp.tree_size ∷ []) (h s c (ground arith))
]

-- A new checkpoint goes to the end of the order, after all smaller tree sizes.
store_checkpoint-IsHistory :
    {S : Type 0} (cp : CheckpointResponse) (st : VaultState S) (n : ℕ)
    → cp.tree_size ≡ pos n
    → 0 < n
    → lookup cp.tree_size st.checkpoint_history ≡ none
    → IsHistory st n
    → IsHistory (store_checkpoint cp st) n
unfolding store_checkpoint
store_checkpoint-IsHistory cp st n size positive missing h = rw missing (record {
  stored =
      All-append_last (IsStored (insert cp.tree_size cp st.checkpoint_history) n)
        st.checkpoint_order cp.tree_size
        (All-map (IsStored st.checkpoint_history n)
          (IsStored (insert cp.tree_size cp st.checkpoint_history) n) st.checkpoint_order
          (λ s. IsStored-insert st.checkpoint_history n cp s missing) h.stored)
        (IsStored-new st.checkpoint_history n cp size positive);
  increasing = IsIncreasing-append_last st.checkpoint_order cp.tree_size h.increasing (
      All-map (IsStored st.checkpoint_history n) (λ y. y <ℤ cp.tree_size) st.checkpoint_order below
        h.stored);
  listed = λ k c e. listed-insert st.checkpoint_history cp st.checkpoint_order h.listed k c e;
  keyed = λ k c e. keyed-insert st.checkpoint_history cp h.keyed k c e;
})
  where
    below : (s : ℤ) → IsStored st.checkpoint_history n s → s <ℤ cp.tree_size
    below s k = elim (Bool-cases (eqb_ℤ cp.tree_size s)) [
      | inl same ↦
          let e = (eqb_ℤ_iff cp.tree_size s).0 same in
          cc (ap (λ z. lookup z st.checkpoint_history) e, missing, k.found)
      | inr other ↦ let le = k.within in ground arith
    ]

IsHistory-grow :
    {S : Type 0} (st st' : VaultState S) (n m : ℕ)
    → n ≤ m
    → SameHeads st' st
    → IsHistory st n
    → IsHistory st' m
IsHistory-grow st st' n m le same h = record {
  stored =
      rw (same.history, same.order)
        (All-map (IsStored st.checkpoint_history n) (IsStored st.checkpoint_history m)
          st.checkpoint_order (λ s. IsStored-grow st.checkpoint_history n m s le) h.stored);
  increasing = rw same.order h.increasing;
  listed = λ s cp e. rw same.order (h.listed s cp (rw same.history at e));
  keyed = λ s cp e. h.keyed s cp (rw same.history at e);
}

finish_checkpoint-IsHistory :
    {S : Type 0} (host : Host) (n : ℕ) (found : Option CheckpointResponse) (st : VaultState S)
    → lookup (pos n) st.checkpoint_history ≡ found
    → 0 < n
    → IsHistory st n
    → IsHistory (finish_checkpoint host (pos n) found st).0 n
unfolding finish_checkpoint new_checkpoint
finish_checkpoint-IsHistory host n (some cp) st e positive h = h
finish_checkpoint-IsHistory host n none st e positive h =
    store_checkpoint-IsHistory (new_checkpoint host (pos n)) st n refl positive e h

build_for-IsHistory :
    {S : Type 0} (host : Host) (n : ℕ) (st : VaultState S)
    → IsHistory st n
    → IsHistory (build_for host (pos n) st).0 n
unfolding build_for
build_for-IsHistory host zero st h = h
build_for-IsHistory host (suc n) st h =
    let positive : (pos (suc n) == pos 0) ≡ false = ground arith in
    rw (positive, build_for)
      (finish_checkpoint-IsHistory host (suc n) (lookup (pos (suc n)) st.checkpoint_history) st refl
        (omega arith) h)

pub build_latest_checkpoint-cases :
    {S : Type 0} (host : Host) (order : List String) (ctx : Context) (st : VaultState S)
    → ((build_latest_checkpoint host order ctx st).0 ≡ st)
      ⊎ ((build_latest_checkpoint host order ctx st).0
          ≡ (build_for host (tree_size order st.store_map) st).0)
unfolding build_latest_checkpoint
build_latest_checkpoint-cases host order ctx st = elim (Bool-cases (has_checkpoint_access ctx)) [
  | inl access ↦ inr (rw access)
  | inr denied ↦ inl (rw denied)
]

-- Building a checkpoint for the current tree size keeps the history in order.
after-IsHistory :
    {S : Type 0} (eff : Effect) (st : VaultState S) (log : List String)
    → Visits eff st
    → length log < 2 ^ 63
    → Holds (as_store st) log
    → IsHistory st (length log)
    → IsHistory (after eff st) (length log)
after-IsHistory keeps st log visits room held h = h
after-IsHistory (builds host order ctx) st log visits room held h =
    elim (build_latest_checkpoint-cases host order ctx st) [
      | inl same ↦ subst (λ s. IsHistory s (length log)) (sym same) h
      | inr more ↦
          subst (λ s. IsHistory s (length log)) (sym more)
            (rw (tree_size-length order st.store_map log held.is_log visits room)
              (build_for-IsHistory host (length log) st h))
    ]

module _ (api : StoreApi) where
  open api use {State}

  pub step-IsValid :
      (e : Event) (st : VaultState State) (log : List String)
      → Draws e st
      → Visits (effect e) st
      → suc (length log) < 2 ^ 63
      → IsValid st log
      → IsValid (step api e st) (log ++ appended api e st)
  step-IsValid e st log draws visits room v = record {
    no_store = step-store api e st v.no_store;
    held = step-Holds api e st log v.no_store draws room v.held;
    history =
        IsHistory-grow (after (effect e) st) (step api e st) (length log)
          (length (log ++ appended api e st)) (omega (arith, length-append log (appended api e st)))
          (step-SameHeads api e st)
          (after-IsHistory (effect e) st log visits (omega arith) v.held v.history);
  }

  -- Whatever the requests and the rounds of the committer, one after the other and fewer than 2^63 of
  -- them, a server without a store goes from a valid state to a valid one, whose log extends the log that it had: leaf
  -- indices are the positions in an append-only list, the counter is its length, and the
  -- order of the checkpoints lists exactly the sizes that have a stored one, growing and within it. The drawn ids are new, and a loop over the map visits
  -- all of it.
  pub run-IsValid :
      (es : List Event) (st : VaultState State) (log : List String)
      → AllProper api es st
      → length log + length es < 2 ^ 63
      → IsValid st log
      → (more : List String) × IsValid (run api es st) (log ++ more)
  unfolding run
  run-IsValid [] st log proper room v = ([], rw append-nil v)
  run-IsValid (e ∷ es) st log (draws, visits, later) room v =
      let short = length-appended api e st in
      let size = length-append log (appended api e st) in
      let (more, valid) =
        run-IsValid es (step api e st) (log ++ appended api e st) later (omega arith)
          (step-IsValid e st log draws visits (omega arith) v) in
      (appended api e st ++ more, rw (← append_assoc log (appended api e st) more) valid)
