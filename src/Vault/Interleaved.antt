-- ===== src/Vault/Interleaved.antt =====
-- services/vault-api/handler/ingest.go, buildLatestCheckpoint: requests at once. The function holds
-- the mutex three times, and between them other requests and the committer run. A request in flight
-- is in one of four phases, and a turn takes it over one critical section to the next phase.
pub mod Alone
pub mod Shelf
pub mod Safe
pub mod Runs
pub mod Lost
mod Tests
use merkle_evidence_vault.Prelude.{
  List, Option, String, [], get_elem?, if◌then◌else◌, none, set, some, ℕ, ◌==◌, ◌∷◌, string_key,
}
use merkle_evidence_vault.Prelude.Int.{pos, ℤ, int_key}
use merkle_evidence_vault.Prelude.Dict.{lookup}
use merkle_evidence_vault.Http.{Context}
use merkle_evidence_vault.Store.{StoreApi}
use merkle_evidence_vault.Vault.{CheckpointResponse, Host, VaultState, has_checkpoint_access}
use merkle_evidence_vault.Vault.Checkpoint.{
  Built, built, new_checkpoint, refused, store_checkpoint, tree_size,
}
use merkle_evidence_vault.Vault.Steps.{Event, step}

-- Before the tree size is read; with it; with a checkpoint that is signed and not stored; answered.
pub data Phase : Type 0 where
  entered : Host → List String → Context → Phase
  sized : Host → ℤ → Phase
  signed : CheckpointResponse → Phase
  answered : Built → Phase

-- The second critical section looks for a stored checkpoint; without one the request goes to the
-- signing service.
unfoldable pub look_up : Host → ℤ → Option CheckpointResponse → Phase
look_up host size (some cp) = answered (built cp)
look_up host size none = signed (new_checkpoint host size)

unfoldable pub advance : {S : Type 0} → Phase → VaultState S → Phase × VaultState S
unfolding look_up
advance (entered host order ctx) st = (
  if has_checkpoint_access ctx
      then sized host (tree_size order st.store_map)
      else answered (refused 403),
  st,
)
advance (sized host size) st = (
  if size == pos 0
      then answered (refused 404)
      else look_up host size (lookup size st.checkpoint_history),
  st,
)
advance (signed cp) st = (answered (built cp), store_checkpoint cp st)
advance (answered b) st = (answered b, st)

-- The server with its requests in flight, the latest first.
pub record World (S : Type 0) : Type 0 where
  pub vault : VaultState S
  pub requests : List Phase

-- What happens next: an event that builds no checkpoint, the arrival of a request that does, or a
-- turn of the request at an index.
pub data Action : Type 0 where
  event : Event → Action
  arrive : Host → List String → Context → Action
  turn : ℕ → Action

unfoldable pub take_turn : {S : Type 0} → ℕ → Option Phase → World S → World S
take_turn i none w = w
take_turn i (some p) w =
    let (p', st) = advance p w.vault in record { vault = st; requests = set w.requests i p' }

module _ (api : StoreApi) where
  open api use {State}

  unfoldable pub act : Action → World State → World State
  unfolding take_turn
  act (event e) w = record w { vault = step api e w.vault }
  act (arrive host order ctx) w = record w { requests = entered host order ctx ∷ w.requests }
  act (turn i) w = take_turn i (get_elem? w.requests i) w

  unfoldable pub act_all : List Action → World State → World State
  act_all [] w = w
  act_all (a ∷ more) w = act_all more (act a w)
