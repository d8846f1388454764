-- ===== src/Domain/Merkle.antt =====
-- services/vault-api/domain/merkle/interface.go: the interface to a Merkle engine and its proofs;
-- domain/checkpoint/types.go: the signed tree head; and internal/merklerpc/client.go: the client in the
-- place of an engine. No handler uses them.
use merkle_evidence_vault.Prelude.{List, Result, String, err, ℕ}
use merkle_evidence_vault.Prelude.Int.{ℤ}

pub record InclusionProof : Type 0 where
  pub leaf_index : ℤ
  pub tree_size : ℤ
  pub root : String
  pub path : List String

pub record ConsistencyProof : Type 0 where
  pub old_size : ℤ
  pub new_size : ℤ
  pub path : List String

-- An engine with its state: each call takes the state to the new one, and a value or an error.
pub record Engine : Type 1 where
  pub State : Type 0
  pub append_leaf : List ℕ → State → State × Result (ℤ × List ℕ)
  pub inclusion_proof : ℤ → State → State × Result InclusionProof
  pub consistency_proof : ℤ → ℤ → State → State × Result ConsistencyProof
  pub tree_size : State → State × Result ℤ
  pub root : State → State × Result (List ℕ)

-- `published_at` is a time.
pub record SignedTreeHead : Type 0 where
  pub tree_size : ℤ
  pub root_hash : String
  pub published_at : ℕ
  pub key_id : String
  pub signature : String

abbrev not_implemented : {A : Type 0} → Unit {0} → Unit {0} × Result A
not_implemented client = (client, err "not implemented")

-- merklerpc.Client: every call fails. The code gives the two proofs the type `interface{}`.
abbrev pub client : Engine
client = record {
  State = Unit {0};
  append_leaf = λ leaf. not_implemented;
  inclusion_proof = λ leaf_index. not_implemented;
  consistency_proof = λ old_size new_size. not_implemented;
  tree_size = not_implemented;
  root = not_implemented;
}
