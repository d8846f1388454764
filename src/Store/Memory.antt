-- ===== src/Store/Memory.antt =====
-- services/vault-api/store/store.go, `memStore`: the store in memory. A Go map is visited in no fixed
-- order, so an operation that ranges over the map takes the order of this visit, a list of keys.
pub mod View
pub mod Log
pub mod History
pub mod Progress
mod Tests
use merkle_evidence_vault.Prelude.{
  List, Option, Result, String, [], err, if◌then◌else◌, length, ltb, none, ok, some, take, ℕ, ◌++◌,
  ◌=ℕ◌, ◌||◌, ◌∷◌, string_key,
}
use merkle_evidence_vault.Prelude.Int.{add64, negsuc, pos, ℤ, int_key}
use merkle_evidence_vault.Prelude.Dict.{Dict, insert, lookup}
use merkle_evidence_vault.Store.{AuditEntry, Evidence, StoreApi}

pub record MemStore : Type 0 where
  pub ev : Dict String Evidence
  pub audits : List AuditEntry
  pub next : ℤ

abbrev pub new_memory_store : MemStore
new_memory_store = record { ev = []; audits = []; next = pos 0 }

unfoldable pub save_evidence : String → MemStore → MemStore × Result (Unit {0})
save_evidence id m =
    (record m { ev = insert id (record { id = id; leaf_index = none }) m.ev }, ok tt)

-- The `LeafIndex == nil` test of the loops, at the value that the map holds for a visited key.
abbrev pub pending_at : Option Evidence → Option Evidence
pending_at none = none
pending_at (some e) = elim e.leaf_index [ none ↦ some e | some i ↦ none ]

-- `for k, e := range m { if e.LeafIndex == nil { … } }`: the first pending entry of the visit.
unfoldable pub first_pending : List String → Dict String Evidence → Option (String × Evidence)
first_pending [] ev = none
first_pending (k ∷ order) ev =
    let rest = first_pending order ev in
    elim (pending_at (lookup k ev)) [ none ↦ rest | some e ↦ some (k, e) ]

abbrev pub with_leaf : Evidence → ℤ → Evidence
with_leaf e i = record e { leaf_index = some i }

unfoldable pub assign_found :
    Option (String × Evidence) → MemStore → MemStore × Result (Option Evidence)
assign_found none m = (m, ok none)
assign_found (some (k, e)) m = (
  record m { ev = insert k (with_leaf e m.next) m.ev; next = add64 m.next (pos 1) },
  ok (some (with_leaf e m.next)),
)

unfoldable pub assign_next_pending_leaf :
    List String → MemStore → MemStore × Result (Option Evidence)
unfolding assign_found
assign_next_pending_leaf order m = assign_found (first_pending order m.ev) m

found_or_error : Option Evidence → Result Evidence
found_or_error none = err "not found"
found_or_error (some e) = ok e

unfoldable pub get_evidence : String → MemStore → MemStore × Result Evidence
unfolding found_or_error
get_evidence id m = (m, found_or_error (lookup id m.ev))

unfoldable pub save_audit : AuditEntry → MemStore → MemStore × Result (Unit {0})
save_audit a m = (record m { audits = m.audits ++ a ∷ [] }, ok tt)

-- The number of rounds of the copying loop: a limit that is not positive, or that is greater than
-- the number of entries, is replaced by that number.
abbrev audit_limit : ℤ → ℕ → ℕ
audit_limit (negsuc n) size = size
audit_limit (pos n) size = if n =ℕ 0 || ltb size n then size else n

unfoldable pub list_audits : ℤ → MemStore → MemStore × Result (List AuditEntry)
list_audits limit m = (m, ok (take (audit_limit limit (length m.audits)) m.audits))

abbrev pub memory_api : StoreApi
memory_api = record {
  State = MemStore;
  save_evidence = save_evidence;
  assign_next_pending_leaf = assign_next_pending_leaf;
  get_evidence = get_evidence;
  save_audit = save_audit;
  list_audits = list_audits;
}
