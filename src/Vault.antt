-- ===== src/Vault.antt =====
-- services/vault-api/handler/ingest.go: the state of the vault's API, and what its handlers share.
--
-- The package's variables (`storeMap`, `next`, `audits`, `checkpointHistory`, `checkpointOrder`) and
-- the current store are one record. A handler is a function of the state and the response writer to
-- their new values. What a handler takes from its surroundings is an argument: the order in which a
-- loop visits a map (`order`), the clock, a fresh UUID, and the `Host`.
pub mod Ingest
pub mod Checkpoint
pub mod Verify
pub mod Committer
pub mod Steps
pub mod Log
pub mod Runs
pub mod Heads
pub mod History
pub mod Latest
pub mod Access
pub mod Audit
pub mod Signing
pub mod Interleaved
pub mod Paths
pub mod Progress
pub mod Bounds
mod Tests
use Prim.Native.String
use merkle_evidence_vault.Prelude.{
  Bool, List, Option, String, [], false, none, some, suc, zero, ℕ, ◌++◌, ◌==◌, ◌||◌, ◌∷◌,
  string_key,
}
use merkle_evidence_vault.Prelude.Int.{ℤ, int_key}
use merkle_evidence_vault.Prelude.Dict.{Dict}
use merkle_evidence_vault.Http.{Context}
use merkle_evidence_vault.Store.{Evidence}

-- The handler's `auditEntry`.
pub record AuditRecord : Type 0 where
  pub id : String
  pub actor : String
  pub timestamp : ℕ

-- `checkpointResponse`
pub record CheckpointResponse : Type 0 where
  pub tree_size : ℤ
  pub root_hash : String
  pub signature : String
  pub key_ref : String

-- `store` is `store.Current()`, none while no store is initialised. The handler's `evidenceRecord`
-- has the fields of the store's `Evidence`.
pub record VaultState (S : Type 0) : Type 0 where
  pub store_map : Dict String Evidence
  pub next : ℤ
  pub audits : List AuditRecord
  pub checkpoint_history : Dict ℤ CheckpointResponse
  pub checkpoint_order : List ℤ
  pub store : Option S

-- What the process can ask of the outside: its environment, the signing service at a URL (the
-- status and the decoded body of its answer, none where the call fails or the body does not
-- decode), the JSON text of a checkpoint's payload, base64 and Ed25519 verification.
pub record Host : Type 0 where
  pub getenv : String → String
  pub post : String → String → Option (ℕ × Option (Dict String String))
  pub marshal_payload : ℤ → String → String
  pub decode_base64 : String → Option (List ℕ)
  pub ed25519_verify : List ℕ → String → List ℕ → Bool

-- RolesFromContext and SubjectFromContext of services/vault-api/middleware/jwt.go.
unfoldable pub roles_from_context : Context → List String
roles_from_context ctx = elim ctx.roles [ none ↦ [] | some rs ↦ rs ]

unfoldable pub subject_from_context : Context → String
subject_from_context ctx = elim ctx.subject [ none ↦ "" | some s ↦ s ]

abbrev pub has_role : String → List String → Bool
has_role role [] = false
has_role role (r ∷ rs) = r == role || has_role role rs

-- The loop of `hasCheckpointAccess`.
unfoldable pub access_role : List String → Bool
access_role [] = false
access_role (r ∷ rs) = r == "auditor" || r == "ingester" || access_role rs

unfoldable pub has_checkpoint_access : Context → Bool
unfolding access_role roles_from_context
has_checkpoint_access ctx = access_role (roles_from_context ctx)

-- strings.Repeat
unfoldable pub repeat : String → ℕ → String
repeat s zero = ""
repeat s (suc n) = String.◌++◌ s (repeat s n)

-- strings.Repeat("0", 64), the root hash of every checkpoint and proof.
unfoldable pub zero_root : String
unfolding repeat
zero_root = repeat "0" 64
