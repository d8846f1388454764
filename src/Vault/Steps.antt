-- ===== src/Vault/Steps.antt =====
-- The vault's API at work: the requests and the rounds of the committer, one after the other.
use merkle_evidence_vault.Prelude.{List, Option, String, [], arith, none, refl, some, ℕ, ◌∷◌, ◌≡◌}
use merkle_evidence_vault.Prelude.Int.{pos}
use merkle_evidence_vault.Http.{Context, Request, Response, new_response}
use merkle_evidence_vault.Store.{StoreApi}
use merkle_evidence_vault.Vault.{Host, VaultState}
use merkle_evidence_vault.Vault.Ingest.{get_audit, get_evidence, get_proof, ingest}
use merkle_evidence_vault.Vault.Checkpoint.{
  build_latest_checkpoint, get_checkpoints_history, get_checkpoints_latest,
}
use merkle_evidence_vault.Vault.Verify.{verify_checkpoint_by_tree_size, verify_latest_checkpoint}
use merkle_evidence_vault.Vault.Committer.{commit_round}

-- An event carries what the handler takes from outside. GetCheckpointsLatest,
-- GetCheckpointsHistory and VerifyLatestCheckpoint change the state by building a checkpoint, the
-- history only behind its own guard, which is the builder's too.
pub data Event : Type 0 where
  post_evidence : (id : String) (now now' : ℕ) → Request → Event
  read_evidence read_proof read_audit : Request → Event
  checkpoints_latest checkpoints_history verify_latest : Host → List String → Request → Event
  verify_size : Host → Request → Event
  commit : (visit order : List String) → Event

abbrev or_unchanged : {S : Type 0} → VaultState S → Option (VaultState S × Response) → VaultState S
or_unchanged st none = st
or_unchanged st (some (st', w)) = st'

module _ (api : StoreApi) where
  open api use {State}

  -- The state that an event leaves. A handler that panics has changed nothing.
  unfoldable pub step : Event → VaultState State → VaultState State
  step (post_evidence id now now' req) st = (ingest api id now now' req new_response st).0
  step (read_evidence req) st = or_unchanged st (get_evidence api req new_response st)
  step (read_proof req) st = or_unchanged st (get_proof req new_response st)
  step (read_audit req) st = (get_audit req new_response st).0
  step (checkpoints_latest host order req) st =
      (get_checkpoints_latest host order req new_response st).0
  step (checkpoints_history host order req) st =
      (get_checkpoints_history host order req new_response st).0
  step (verify_latest host order req) st =
      (verify_latest_checkpoint host order req new_response st).0
  step (verify_size host req) st = (verify_checkpoint_by_tree_size host req new_response st).0
  step (commit visit order) st = commit_round api visit order st

  unfoldable pub run : List Event → VaultState State → VaultState State
  run [] st = st
  run (e ∷ es) st = run es (step e st)

-- The state of a server that has just started. The shipped main function never calls store.Init, so
-- there is no store.
abbrev pub start : {S : Type 0} → VaultState S
start = record {
  store_map = [];
  next = pos 0;
  audits = [];
  checkpoint_history = [];
  checkpoint_order = [];
  store = none;
}

-- How an event acts on the part of the state that is about checkpoints: it builds one, or leaves it.
pub data Effect : Type 0 where
  builds : Host → List String → Context → Effect
  keeps : Effect

abbrev pub effect : Event → Effect
effect (checkpoints_latest host order req) = builds host order req.context
effect (checkpoints_history host order req) = builds host order req.context
effect (verify_latest host order req) = builds host order req.context
effect _ = keeps

abbrev pub after : {S : Type 0} → Effect → VaultState S → VaultState S
after (builds host order ctx) st = (build_latest_checkpoint host order ctx st).0
after keeps st = st

-- The two fields about checkpoints are what the effect makes of them.
pub record SameHeads {S : Type 0} (st st' : VaultState S) : Type 0 where
  pub history : st.checkpoint_history ≡ st'.checkpoint_history
  pub order : st.checkpoint_order ≡ st'.checkpoint_order

module _ (api : StoreApi) where
  open api use {State}

  pub step-SameHeads :
      (e : Event) (st : VaultState State) → SameHeads (step api e st) (after (effect e) st)
  unfolding step ingest get_evidence get_proof get_audit get_checkpoints_latest
      get_checkpoints_history verify_latest_checkpoint verify_checkpoint_by_tree_size commit_round
  step-SameHeads (post_evidence id now now' req) st = ground arith
  step-SameHeads (read_evidence req) st = ground arith
  step-SameHeads (read_proof req) st = ground arith
  step-SameHeads (read_audit req) st = ground arith
  step-SameHeads (checkpoints_latest host order req) st = record { history = refl; order = refl }
  step-SameHeads (checkpoints_history host order req) st = ground arith
  step-SameHeads (verify_latest host order req) st = record { history = refl; order = refl }
  step-SameHeads (verify_size host req) st = ground arith
  step-SameHeads (commit visit order) st = ground arith
