-- ===== src/Store.antt =====
-- services/vault-api/store/store.go: the evidence store behind the API.
--
-- `Evidence` and `AuditEntry` are the two structs. `StoreApi` is the interface `Store`: a type of
-- states with the five operations, each of which returns the new state beside its value or error.
-- A client takes such a record as a parameter. Memory.antt is the implementation in memory,
-- Postgres.antt the one in Postgres.
pub mod Leaves
pub mod Memory
pub mod Postgres
pub mod Current
use merkle_evidence_vault.Prelude.{List, Option, Result, String, ℕ}
use merkle_evidence_vault.Prelude.Int.{ℤ}

-- `leaf_index` is `*int64`, nil while the evidence is pending. The pointed-to integer is never
-- written through, so a copy of the struct is as good as the shared one.
pub record Evidence : Type 0 where
  pub id : String
  pub leaf_index : Option ℤ

-- `timestamp` is an instant, in the clock's units.
pub record AuditEntry : Type 0 where
  pub id : String
  pub resource_id : String
  pub actor : String
  pub timestamp : ℕ

-- `assign_next_pending_leaf` takes the order in which the runtime happens to visit a map's keys.
pub record StoreApi : Type 1 where
  pub State : Type 0
  pub save_evidence : String → State → State × Result (Unit {0})
  pub assign_next_pending_leaf : List String → State → State × Result (Option Evidence)
  pub get_evidence : String → State → State × Result Evidence
  pub save_audit : AuditEntry → State → State × Result (Unit {0})
  pub list_audits : ℤ → State → State × Result (List AuditEntry)
