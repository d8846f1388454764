-- ===== src/Vault/Interleaved/Alone.antt =====
-- A request that no other interrupts.
use merkle_evidence_vault.Prelude.{
  Bool, Bool-cases, List, Option, String, false, if◌then◌else◌, inl, inr, none, not, refl, some,
  suc, true, zero, ℕ, ◌==◌, ◌≡◌, string_key,
}
use merkle_evidence_vault.Prelude.Int.{pos, ℤ, int_key}
use merkle_evidence_vault.Http.{Context}
use merkle_evidence_vault.Vault.{CheckpointResponse, Host, VaultState, has_checkpoint_access}
use merkle_evidence_vault.Vault.Checkpoint.{
  Built, build_for, build_latest_checkpoint, finish_checkpoint, refused, tree_size,
}
use merkle_evidence_vault.Vault.Interleaved.{Phase, advance, answered, entered, look_up, sized}
use merkle_evidence_vault.Prelude.Dict.{lookup}

-- So many turns, one after the other.
unfoldable pub advance_times : {S : Type 0} → ℕ → Phase → VaultState S → Phase × VaultState S
advance_times zero p st = (p, st)
advance_times (suc n) p st = let (p', st') = advance p st in advance_times n p' st'

answered-stays :
    {S : Type 0} (n : ℕ) (b : Built) (st : VaultState S)
    → advance_times n (answered b) st ≡ (answered b, st)
unfolding advance_times advance
answered-stays zero b st = refl
answered-stays (suc n) b st = answered-stays n b st

-- What a request answers, and what it makes of the state.
abbrev pub outcome : {S : Type 0} → VaultState S × Built → Phase × VaultState S
outcome (st, b) = (answered b, st)

looked_up-outcome :
    {S : Type 0} (host : Host) (size : ℤ) (found : Option CheckpointResponse) (st : VaultState S)
    → advance_times 1 (look_up host size found) st ≡ outcome (finish_checkpoint host size found st)
unfolding advance_times advance finish_checkpoint
looked_up-outcome host size none st = refl
looked_up-outcome host size (some cp) st = refl

guarded-outcome :
    {S : Type 0} (empty : Bool) (host : Host) (size : ℤ) (found : Option CheckpointResponse)
    (st : VaultState S)
    → advance_times 1 (if empty then answered (refused 404) else look_up host size found) st
      ≡ outcome (if empty then (st, refused 404) else finish_checkpoint host size found st)
guarded-outcome true host size found st = answered-stays 1 (refused 404) st
guarded-outcome false host size found st = looked_up-outcome host size found st

sized-outcome :
    {S : Type 0} (host : Host) (size : ℤ) (st : VaultState S)
    → advance_times 2 (sized host size) st ≡ outcome (build_for host size st)
unfolding advance_times advance build_for
sized-outcome host size st =
    guarded-outcome (size == pos 0) host size (lookup size st.checkpoint_history) st

admitted-outcome :
    {S : Type 0} (denied : Bool) (host : Host) (size : ℤ) (st : VaultState S)
    → advance_times 2 (if not denied then sized host size else answered (refused 403)) st
      ≡ outcome (if denied then (st, refused 403) else build_for host size st)
admitted-outcome true host size st = answered-stays 2 (refused 403) st
admitted-outcome false host size st = sized-outcome host size st

-- A request whose three critical sections follow one another answers what the sequential function
-- answers, and leaves the state that it leaves.
pub entered-outcome :
    {S : Type 0} (host : Host) (order : List String) (ctx : Context) (st : VaultState S)
    → advance_times 3 (entered host order ctx) st
      ≡ outcome (build_latest_checkpoint host order ctx st)
unfolding advance_times advance build_latest_checkpoint
entered-outcome host order ctx st = elim (Bool-cases (has_checkpoint_access ctx)) [
  | inl access ↦
      let size = tree_size order st.store_map in rw access (admitted-outcome false host size st)
  | inr denied ↦
      let size = tree_size order st.store_map in rw denied (admitted-outcome true host size st)
]
