-- ===== src/Store/Memory/Tests.antt =====
-- The store in memory at concrete inputs.
use merkle_evidence_vault.Prelude.{
  List, String, [], arith, eq_iff, none, refl, some, ◌++◌, ◌∷◌, ◌≡◌, ◌≢◌, ◌≤◌, string_key,
}
use merkle_evidence_vault.Prelude.Int.{add64, pos, int_key}
use merkle_evidence_vault.Prelude.Dict.{insert, lookup}
use merkle_evidence_vault.Store.{AuditEntry}
use merkle_evidence_vault.Store.Leaves.{IsLog-ext, IsLog-nil, IsLog-place}
use merkle_evidence_vault.Store.Memory.{
  MemStore, assign_next_pending_leaf, first_pending, list_audits, new_memory_store, save_audit,
  save_evidence,
}
use merkle_evidence_vault.Store.Memory.View.{leaf_of}
use merkle_evidence_vault.Store.Memory.Log.{Holds, Holds-new_memory_store}
use merkle_evidence_vault.Store.Memory.History.{
  AllFresh, Op, apply, assign, audit, run, run-Holds, save,
}
use merkle_evidence_vault.Store.Memory.Progress.{pending_in, rounds}

memory : Unit {0}
unfolding run apply rounds save_evidence assign_next_pending_leaf first_pending save_audit lookup
    insert leaf_of add64 list_audits
memory = tt

abbrev entry : AuditEntry
entry = record { id = "x"; resource_id = "a"; actor = "alice"; timestamp = 7 }

abbrev ops : List Op
ops = save "a" ∷ save "b" ∷ assign ("b" ∷ "a" ∷ []) ∷ audit entry ∷ assign ("b" ∷ "a" ∷ []) ∷ []

abbrev reached : MemStore
reached = run ops new_memory_store

-- The visit meets b first, so b gets the first index.
indices : (leaf_of reached.ev "b" ≡ some (pos 0)) × (leaf_of reached.ev "a" ≡ some (pos 1))
unfolding memory
indices = (refl, refl)

ops-AllFresh : AllFresh ops new_memory_store
unfolding memory
ops-AllFresh = (refl, (refl, (tt, (tt, (tt, tt)))))

run-Holds_example : (more : List String) × Holds reached ([] ++ more)
run-Holds_example =
    run-Holds ops new_memory_store [] ops-AllFresh (omega arith) Holds-new_memory_store

abbrev one_committed : MemStore
one_committed = record {
  ev =
      ("b", record { id = "b"; leaf_index = some (pos 0) })
      ∷ ("a", record { id = "a"; leaf_index = none })
      ∷ [];
  audits = [];
  next = pos 1;
}

one_committed-Holds : Holds one_committed ("b" ∷ [])
unfolding leaf_of lookup
one_committed-Holds = record {
  is_log =
      IsLog-ext (λ k. ground (arith, eq_iff "b" k, eq_iff "a" k))
        (IsLog-place [] "b" refl IsLog-nil);
  next = refl;
}

later-AllFresh : AllFresh (save "c" ∷ assign ("a" ∷ "b" ∷ "c" ∷ []) ∷ []) one_committed
unfolding memory
later-AllFresh = (refl, (tt, tt))

b_index : leaf_of one_committed.ev "b" ≡ some (pos 0)
unfolding memory
b_index = refl

abbrev two_pending : MemStore
two_pending = record {
  ev =
      ("a", record { id = "a"; leaf_index = none })
      ∷ ("b", record { id = "b"; leaf_index = none })
      ∷ [];
  audits = [];
  next = pos 0;
}

two_held : lookup "b" two_pending.ev ≢ none
unfolding lookup
two_held = λ e. cc

two_counted : pending_in ("a" ∷ "b" ∷ []) two_pending.ev ≤ 2
unfolding pending_in lookup
two_counted = omega arith
