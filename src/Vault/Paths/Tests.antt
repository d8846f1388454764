-- ===== src/Vault/Paths/Tests.antt =====
-- The paths at concrete inputs: a server that has committed the record "a".
use merkle_evidence_vault.Prelude.{
  [], arith, eq_iff, refl, replicate, some, true, ◌∷◌, ◌≡◌, string_key,
}
use merkle_evidence_vault.Prelude.Int.{pos, int_key}
use merkle_evidence_vault.Prelude.Dict.{lookup}
use merkle_evidence_vault.Http.{Request, Response, new_response}
use merkle_evidence_vault.Text.{parse_int, trim_space}
use merkle_evidence_vault.Text.Decimal.{decimal}
use merkle_evidence_vault.Vault.{has_checkpoint_access, roles_from_context}
use merkle_evidence_vault.Vault.Ingest.{get_proof}
use merkle_evidence_vault.Vault.Verify.{verify_checkpoint_by_tree_size}
use merkle_evidence_vault.Vault.Tests.{ask, committed, committed-IsValid, host, two_heads}
use merkle_evidence_vault.Vault.Paths.{IsProofAnswer, get_proof-IsProofAnswer, proof_path}
use merkle_evidence_vault.Vault.Paths.Sizes.{
  IsConfigured, IsSizeAnswer, verify_checkpoint_by_tree_size-decimal, verify_path,
}

decimal_tests :
    (decimal 0 ≡ "0") × (decimal 1204 ≡ "1204") × (parse_int (decimal 907) ≡ some (pos 907))
unfolding decimal parse_int
decimal_tests = (refl, refl, refl)

abbrev proof_request : Request
proof_request = record (ask []) { path = proof_path "a" }

get_proof-IsProofAnswer_example :
    (w : Response) × (get_proof proof_request new_response committed ≡ some (committed, w))
    × IsProofAnswer ("a" ∷ []) "a" w
get_proof-IsProofAnswer_example =
    get_proof-IsProofAnswer proof_request "a" committed ("a" ∷ []) (λ e. cc) refl
      committed-IsValid.held.is_log (omega arith)

abbrev size_request : Request
size_request = record (ask ("auditor" ∷ [])) { path = verify_path (decimal 2) }

auditor_reads : has_checkpoint_access size_request.context ≡ true
unfolding has_checkpoint_access roles_from_context
auditor_reads = refl

host-IsConfigured : IsConfigured host (replicate 32 0)
unfolding trim_space
host-IsConfigured = record {
  set = λ e. (let same = (eq_iff "k" "").1 e in ground arith);
  decodes = refl;
  sized = refl;
}

verify_checkpoint_by_tree_size-decimal_example :
    (w : Response) × (verify_checkpoint_by_tree_size host size_request new_response two_heads
      ≡ (two_heads, w))
    × IsSizeAnswer host (replicate 32 0) (lookup (pos 2) two_heads.checkpoint_history) w
verify_checkpoint_by_tree_size-decimal_example =
    verify_checkpoint_by_tree_size-decimal host (replicate 32 0) size_request two_heads 2
      host-IsConfigured auditor_reads (omega arith) (omega arith) refl
