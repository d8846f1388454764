-- ===== src/Store/Memory/Log.antt =====
-- The store in memory beside an append-only log of evidence ids.
use merkle_evidence_vault.Prelude.{
  List, Option, String, [], arith, eq_iff, length, length-append, none, refl, some, suc, ◌++◌, ◌<◌,
  ◌^◌, ◌∷◌, ◌≡◌, string_key,
}
use merkle_evidence_vault.Prelude.Dict.{lookup, lookup-insert}
use merkle_evidence_vault.Store.{Evidence}
use merkle_evidence_vault.Prelude.Int.{add64_pos, pos}
use merkle_evidence_vault.Store.Leaves.{IsLog, IsLog-ext, IsLog-nil, IsLog-place}
use merkle_evidence_vault.Store.Memory.{
  MemStore, assign_found, assign_next_pending_leaf, first_pending, new_memory_store, save_evidence,
  with_leaf,
}
use merkle_evidence_vault.Store.Memory.View.{first_pending-some, leaf_of, leaf_of-insert}

-- The store holds the log, and its counter is the log's length.
pub record Holds (m : MemStore) (log : List String) : Type 0 where
  pub is_log : IsLog (leaf_of m.ev) log
  pub next : m.next ≡ pos (length log)

pub Holds-new_memory_store : Holds new_memory_store []
unfolding leaf_of lookup
Holds-new_memory_store = record { is_log = IsLog-nil; next = refl }

-- Saving an id that the store does not hold leaves every leaf index as it is.
pub leaf_of-save_evidence :
    (id : String) (m : MemStore) (k : String)
    → lookup id m.ev ≡ none
    → leaf_of (save_evidence id m).0.ev k ≡ leaf_of m.ev k
unfolding save_evidence leaf_of
leaf_of-save_evidence id m k fresh =
    ground (arith, lookup-insert id k (record { id = id; leaf_index = none }) m.ev, eq_iff id k)

-- The log after a round: the found id, if any, is appended.
abbrev pub log_found : Option (String × Evidence) → List String → List String
log_found none log = log
log_found (some (k, e)) log = log ++ k ∷ []

assign_found-Holds :
    (order : List String) (found : Option (String × Evidence)) (m : MemStore) (log : List String)
    → first_pending order m.ev ≡ found
    → suc (length log) < 2 ^ 63
    → Holds m log
    → Holds (assign_found found m).0 (log_found found log)
unfolding assign_found
assign_found-Holds order none m log e room h = h
assign_found-Holds order (some (k, e)) m log found room h = record {
  is_log =
      IsLog-ext (λ j. ground (arith, leaf_of-insert m.ev k j (with_leaf e m.next)))
        (IsLog-place log k pending h.is_log);
  next = ground (arith, add64_pos (length log) 1, length-append log (k ∷ []));
}
  where
    pending : leaf_of m.ev k ≡ none
    pending = unfold leaf_of in ground (arith, first_pending-some order m.ev k e)

-- A round of the committer appends the id that it finds, if any, and nothing else, provided that
-- the counter is below the largest `int64`.
pub assign-Holds :
    (order : List String) (m : MemStore) (log : List String)
    → suc (length log) < 2 ^ 63
    → Holds m log
    → Holds (assign_next_pending_leaf order m).0 (log_found (first_pending order m.ev) log)
unfolding assign_next_pending_leaf
assign-Holds order m log room h =
    assign_found-Holds order (first_pending order m.ev) m log refl room h

pub save_evidence-Holds :
    (id : String) (m : MemStore) (log : List String)
    → lookup id m.ev ≡ none
    → Holds m log
    → Holds (save_evidence id m).0 log
save_evidence-Holds id m log fresh h = record {
  is_log = IsLog-ext (λ k. leaf_of-save_evidence id m k fresh) h.is_log;
  next = unfold save_evidence in h.next;
}
