-- ===== src/Store/Postgres/Runs.antt =====
-- The store in Postgres under a sequence of operations.
use merkle_evidence_vault.Prelude.{
  List, Option, Result, String, [], append-nil, append_assoc, arith, err, inl, inr, length,
  length-append, none, ok, some, ◌++◌, ◌+◌, ◌<◌, ◌^◌, ◌∷◌, ◌≤◌,
}
use merkle_evidence_vault.Store.{AuditEntry, Evidence}
use merkle_evidence_vault.Store.Leaves.{IsLog}
use merkle_evidence_vault.Store.Postgres.{
  Database, pg_assign_next_pending_leaf, pg_save_audit, pg_save_evidence,
}
use merkle_evidence_vault.Store.Postgres.Documented.{IsPostgres, Rows, leaf_in}
use merkle_evidence_vault.Store.Postgres.Log.{
  Assigned, IsLog-SameRows, pg_assign-Assigned, pg_save_evidence-IsLog,
}

-- The operations that change the store; `save_entry` carries the UUID that an entry without an id
-- gets.
pub data Operation : Type 0 where
  save : String → Operation
  assign : Operation
  save_entry : String → AuditEntry → Operation

module _ (db : Database) where
  open db use {State}

  unfoldable pub perform : Operation → State → State
  perform (save id) st = (pg_save_evidence db id st).0
  perform assign st = (pg_assign_next_pending_leaf db st).0
  perform (save_entry uuid a) st = (pg_save_audit db uuid a st).0

  unfoldable pub perform_all : List Operation → State → State
  perform_all [] st = st
  perform_all (op ∷ ops) st = perform_all ops (perform op st)

module _ (db : Database) (pg : IsPostgres db) where
  open db use {State}
  open pg use {rows}

  -- At most one id is appended.
  IsExtended : List String → Rows → Type 0
  IsExtended log table =
      (more : List String) × (length more ≤ 1) × IsLog (leaf_in table) (log ++ more)

  Assigned-IsExtended :
      (log : List String) (table : Rows) (r : Result (Option Evidence))
      → Assigned log table r
      → IsExtended log table
  unfolding IsExtended
  Assigned-IsExtended log table (ok none) h = ([], omega arith, rw append-nil h)
  Assigned-IsExtended log table (ok (some ev)) (h, leaf) = (ev.id ∷ [], omega arith, h)
  Assigned-IsExtended log table (err e) (inl h) = ([], omega arith, rw append-nil h)
  Assigned-IsExtended log table (err e) (inr (id, h)) = (id ∷ [], omega arith, h)

  perform-IsExtended :
      (op : Operation) (st : State) (log : List String)
      → length log < 2 ^ 63
      → IsLog (leaf_in (rows st)) log
      → IsExtended log (rows (perform db op st))
  unfolding perform IsExtended pg_save_audit
  perform-IsExtended (save id) st log room h =
      ([], omega arith, rw append-nil (pg_save_evidence-IsLog db pg log id st h))
  perform-IsExtended assign st log room h =
      Assigned-IsExtended log (rows (pg_assign_next_pending_leaf db st).0)
        (pg_assign_next_pending_leaf db st).1 (pg_assign-Assigned db pg log st room h)
  perform-IsExtended (save_entry uuid a) st log room h = (
    [],
    omega arith,
    rw append-nil
        (IsLog-SameRows (rows st) (rows (pg_save_audit db uuid a st).0) log (pg.audit_law _ st) h),
  )

  -- Whatever the operations of one server, fewer than 2^63 of them, and whichever of their statements
  -- fail, a table that holds a log ends with one that holds an extension of this log. An id may be
  -- saved again.
  pub perform_all-IsLog :
      (ops : List Operation) (st : State) (log : List String)
      → length log + length ops < 2 ^ 63
      → IsLog (leaf_in (rows st)) log
      → (more : List String) × IsLog (leaf_in (rows (perform_all db ops st))) (log ++ more)
  unfolding perform_all IsExtended
  perform_all-IsLog [] st log room h = ([], rw append-nil h)
  perform_all-IsLog (op ∷ ops) st log room h =
      let (one, short, held) = perform-IsExtended op st log (omega arith) h in
      let size = length-append log one in
      let (more, ends) = perform_all-IsLog ops (perform db op st) (log ++ one) (omega arith) held in
      (one ++ more, rw (← append_assoc log one more) ends)
