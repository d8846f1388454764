-- ===== src/Vault/Runs.antt =====
-- The API without a store, as the shipped main function runs it: what its events do to the log.
use merkle_evidence_vault.Prelude.{
  List, Option, String, [], append-nil, arith, inl, inr, length, none, some, suc, ℕ, ◌++◌, ◌<◌, ◌^◌,
  ◌∷◌, ◌≡◌, ◌≤◌, ◌⊎◌, string_key,
}
use merkle_evidence_vault.Prelude.Dict.{lookup}
use merkle_evidence_vault.Http.{Request, new_response}
use merkle_evidence_vault.Store.{StoreApi}
use merkle_evidence_vault.Store.Memory.{
  MemStore, assign_next_pending_leaf, first_pending, save_evidence,
}
use merkle_evidence_vault.Store.Memory.History.{log_found-append}
use merkle_evidence_vault.Store.Memory.Log.{Holds, assign-Holds, log_found, save_evidence-Holds}
use merkle_evidence_vault.Store.Memory.Progress.{Covers}
use merkle_evidence_vault.Vault.{VaultState}
use merkle_evidence_vault.Vault.Ingest.{get_audit, get_evidence, get_proof, ingest}
use merkle_evidence_vault.Vault.Checkpoint.{get_checkpoints_history, get_checkpoints_latest}
use merkle_evidence_vault.Vault.Verify.{verify_checkpoint_by_tree_size, verify_latest_checkpoint}
use merkle_evidence_vault.Vault.Committer.{commit_round, with_store}
use merkle_evidence_vault.Vault.Steps.{
  Effect, Event, builds, commit, effect, keeps, post_evidence, read_audit, step,
}
use merkle_evidence_vault.Vault.Log.{as_store, memory_round-assign}

-- What the runtime provides: a drawn UUID is new, and a loop over the map meets all its keys.
abbrev pub Draws : {S : Type 0} → Event → VaultState S → Type 0
Draws (post_evidence id now now' req) st = lookup id st.store_map ≡ none
Draws _ st = Unit

abbrev pub Visits : {S : Type 0} → Effect → VaultState S → Type 0
Visits (builds host order ctx) st = Covers st.store_map order
Visits keeps st = Unit

module _ (api : StoreApi) where
  open api use {State}

  abbrev pub AllProper : List Event → VaultState State → Type 0
  AllProper [] st = Unit
  AllProper (e ∷ es) st = Draws e st × Visits (effect e) st × AllProper es (step api e st)

  -- Without a store an event leaves the server without a store.
  pub step-store :
      (e : Event) (st : VaultState State) → st.store ≡ none → (step api e st).store ≡ none
  unfolding step ingest get_evidence get_proof get_audit get_checkpoints_latest
      get_checkpoints_history verify_latest_checkpoint verify_checkpoint_by_tree_size commit_round
  step-store (post_evidence id now now' req) st h = ground arith
  step-store e st h = ground arith

  -- What the event appends to the log: the record that a committer's round finds.
  abbrev pub appended : Event → VaultState State → List String
  appended (commit visit order) st = log_found (first_pending order st.store_map) []
  appended _ st = []

  pub length-appended : (e : Event) (st : VaultState State) → length (appended e st) ≤ 1
  length-appended (commit visit order) st = ground arith
  length-appended (read_audit req) st = omega arith
  length-appended _ st = omega arith

  abbrev SameStore : VaultState State → VaultState State → Type 0
  SameStore st st' = as_store st ≡ as_store st'

  -- An ingest saves the drawn id, or changes nothing.
  ingest-as_store :
      (id : String) (now now' : ℕ) (req : Request) (st : VaultState State)
      → SameStore (ingest api id now now' req new_response st).0 st
        ⊎ (as_store (ingest api id now now' req new_response st).0
            ≡ (save_evidence id (as_store st)).0)
  unfolding ingest save_evidence
  ingest-as_store id now now' req st = ground arith

  -- All events but an ingest and a round leave the map and the counter alone.
  abbrev Reads : Event → Type 0
  Reads (post_evidence id now now' req) = ⊥
  Reads (commit visit order) = ⊥
  Reads _ = Unit

  step-as_store :
      (e : Event) (st : VaultState State) → st.store ≡ none → Reads e → SameStore (step api e st) st
  unfolding step get_evidence get_proof get_audit get_checkpoints_latest get_checkpoints_history
      verify_latest_checkpoint verify_checkpoint_by_tree_size
  step-as_store (post_evidence id now now' req) st h r = absurd r
  step-as_store (commit visit order) st h r = absurd r
  step-as_store e st h r = ground arith

  pub commit-as_store :
      (visit order : List String) (st : VaultState State)
      → st.store ≡ none
      → as_store (commit_round api visit order st)
        ≡ (assign_next_pending_leaf order (as_store st)).0
  unfolding commit_round
  commit-as_store visit order st h = go st.store h
    where
      go :
          (o : Option State)
          → o ≡ none
          → as_store (with_store api visit order o st)
            ≡ (assign_next_pending_leaf order (as_store st)).0
      go none e = memory_round-assign order st
      go (some s) e = cc

  Holds-same : (s s' : MemStore) (log : List String) → s' ≡ s → Holds s log → Holds s' (log ++ [])
  Holds-same s s' log same h = rw (append-nil, same) h

  pub step-Holds :
      (e : Event) (st : VaultState State) (log : List String)
      → st.store ≡ none
      → Draws e st
      → suc (length log) < 2 ^ 63
      → Holds (as_store st) log
      → Holds (as_store (step api e st)) (log ++ appended e st)
  unfolding step
  step-Holds (post_evidence id now now' req) st log none_now fresh room h =
      elim (ingest-as_store id now now' req st) [
        | inl same ↦
            Holds-same (as_store st) (as_store (ingest api id now now' req new_response st).0) log
              same h
        | inr saved ↦ rw (append-nil, saved) (save_evidence-Holds id (as_store st) log fresh h)
      ]
  step-Holds (commit visit order) st log none_now fresh room h =
      rw
        (
          commit-as_store visit order st none_now,
          ← log_found-append (first_pending order st.store_map) log,
        )
        (assign-Holds order (as_store st) log room h)
  step-Holds e st log none_now fresh room h =
      Holds-same (as_store st) (as_store (step api e st)) log (step-as_store e st none_now tt) h
