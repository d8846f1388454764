-- ===== src/Drill.antt =====
-- services/verifier-cli/cmd/verifier/main.go: the restore drill, on an input that is read and decoded.
-- Drill/Command.antt has the file and the command around it.
pub mod Laws
pub mod Command
mod Tests
use merkle_evidence_vault.Prelude.{
  Bool, List, String, [], false, if◌then◌else◌, not, true, ℕ, ◌&&◌, ◌++◌, ◌==◌, ◌∷◌, string_key,
}
use merkle_evidence_vault.Prelude.Int.{pos, ℤ, int_key}

-- An evidence proof in the drill's input.
pub record DrillProof : Type 0 where
  pub id : String
  pub http_code : ℤ
  pub root : String

-- The state before the backup, or after the restore.
pub record DrillSide : Type 0 where
  pub tree_size : ℤ
  pub root_hash : String
  pub verified : Bool
  pub proofs : List DrillProof

pub record DrillInput : Type 0 where
  pub expected_root : String
  pub before : DrillSide
  pub after : DrillSide

pub record DrillOutput : Type 0 where
  pub pass : Bool
  pub latest_root_matches : Bool
  pub checkpoint_signatures : Bool
  pub sample_proofs_verify : Bool
  pub failures : List String

-- A proof that the loops pass over: the others break off with `proofsOK = false`.
abbrev pub proof_ok : DrillProof → Bool
proof_ok p = p.http_code == pos 200 && not (p.root == "")

unfoldable pub proofs_ok : List DrillProof → Bool
proofs_ok [] = true
proofs_ok (p ∷ ps) = let rest = proofs_ok ps in if proof_ok p then rest else false

abbrev is_filled : List DrillProof → Bool
is_filled [] = false
is_filled (_ ∷ _) = true

unfoldable pub sample_proofs : List DrillProof → List DrillProof → Bool
sample_proofs before after =
    if is_filled before && is_filled after then proofs_ok before && proofs_ok after else false

-- `out.Failures = append(out.Failures, …)` where a check failed.
abbrev failure : Bool → String → List String
failure true message = []
failure false message = message ∷ []

unfoldable pub verify_drill : DrillInput → DrillOutput
verify_drill input =
    let root = not (input.expected_root == "") && input.after.root_hash == input.expected_root in
    let signatures = input.before.verified && input.after.verified in
    let proofs = sample_proofs input.before.proofs input.after.proofs in
    record {
      pass = root && signatures && proofs;
      latest_root_matches = root;
      checkpoint_signatures = signatures;
      sample_proofs_verify = proofs;
      failures =
          failure root "latest root hash mismatch after restore"
          ++ failure signatures "checkpoint signature verification failed"
          ++ failure proofs "sample evidence proof verification failed";
    }

-- The exit status of a drill whose report is written.
unfoldable pub exit_status : DrillOutput → ℕ
exit_status out = if out.pass then 0 else 1
