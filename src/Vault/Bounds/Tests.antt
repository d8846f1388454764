-- ===== src/Vault/Bounds/Tests.antt =====
-- The bound after an ingest and a round.
use merkle_evidence_vault.Prelude.{arith, ℕ, ◌≡◌, ◌≤◌}
use merkle_evidence_vault.Prelude.Int.{pos}
use merkle_evidence_vault.Prelude.Sorted.{All}
use merkle_evidence_vault.Store.Memory.{memory_api}
use merkle_evidence_vault.Vault.Steps.{run, start}
use merkle_evidence_vault.Vault.Bounds.{IsWithin, run-next_bound, stored_sizes}
use merkle_evidence_vault.Vault.Tests.{first_events, first_events-AllProper}

run-next_bound_example :
    (n : ℕ) × ((run memory_api first_events start).next ≡ pos n)
    × (n ≤ 1)
    × All (IsWithin n) (stored_sizes (run memory_api first_events start).checkpoint_history)
run-next_bound_example = run-next_bound memory_api first_events first_events-AllProper (omega arith)
