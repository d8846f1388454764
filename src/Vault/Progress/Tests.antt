-- ===== src/Vault/Progress/Tests.antt =====
-- Two rounds of the committer over two pending records.
use merkle_evidence_vault.Prelude.{
  List, String, [], arith, length, none, refl, some, ◌∷◌, ◌≡◌, ◌≢◌, ◌≤◌, string_key,
}
use merkle_evidence_vault.Prelude.Int.{pos, int_key}
use merkle_evidence_vault.Prelude.Dict.{lookup}
use merkle_evidence_vault.Http.{Request, Response, new_response, sent_status}
use merkle_evidence_vault.Store.Memory.{MemStore, memory_api}
use merkle_evidence_vault.Store.Memory.Progress.{Covers, Covers-keys, pending_in}
use merkle_evidence_vault.Vault.{VaultState}
use merkle_evidence_vault.Vault.Ingest.{get_proof}
use merkle_evidence_vault.Vault.Tests.{ask, committed}
use merkle_evidence_vault.Vault.Paths.{proof_path}
use merkle_evidence_vault.Vault.Steps.{run}
use merkle_evidence_vault.Vault.Progress.{commits, run-proofs}

abbrev two_pending : VaultState MemStore
two_pending = record committed {
  store_map =
      ("a", record { id = "a"; leaf_index = none })
      ∷ ("b", record { id = "b"; leaf_index = none })
      ∷ [];
  next = pos 0;
}

abbrev both_visits : List (List String)
both_visits = ("a" ∷ "b" ∷ []) ∷ ("a" ∷ "b" ∷ []) ∷ []

covered : Covers two_pending.store_map ("a" ∷ "b" ∷ [])
covered = Covers-keys two_pending.store_map

enough_rounds : pending_in ("a" ∷ "b" ∷ []) two_pending.store_map ≤ length both_visits
unfolding pending_in lookup
enough_rounds = omega arith

holds_b : lookup "b" two_pending.store_map ≢ none
unfolding lookup
holds_b e = cc

abbrev asks_b : Request
asks_b = record (ask []) { path = proof_path "b" }

run-proofs_example :
    (w : Response) × (get_proof asks_b new_response
        (run memory_api (commits both_visits) two_pending)
      ≡ some (run memory_api (commits both_visits) two_pending, w))
    × (sent_status w ≡ 200)
run-proofs_example =
    run-proofs memory_api ("a" ∷ "b" ∷ []) both_visits two_pending "b" asks_b refl covered
      (covered, (covered, tt)) enough_rounds holds_b (λ e. cc) refl
