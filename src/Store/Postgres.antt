-- ===== src/Store/Postgres.antt =====
-- services/vault-api/store/store.go, `pgStore`: the store in Postgres.
--
-- `Database` is what the code reaches through pgxpool: one operation for each statement that it
-- sends. An operation takes the state of the database and returns the new one beside the answer; a
-- statement in a transaction takes and returns the transaction too. A query for many rows answers with
-- the rows that `Next` yields, each an entry or the error of its `Scan`.
pub mod Documented
pub mod Log
pub mod Runs
pub mod Race
mod Table
mod Tests
use merkle_evidence_vault.Prelude.{
  List, Option, Result, String, [], err, if◌then◌else◌, none, ok, some, ◌==◌, ◌∷◌, string_key,
}
use merkle_evidence_vault.Prelude.Int.{add64, pos, ℤ, int_key}
use merkle_evidence_vault.Store.{AuditEntry, Evidence, StoreApi}

pub record Database : Type 1 where
  pub State : Type 0
  pub Tx : Type 0
  pub create_tables : State → State × Result (Unit {0})
  pub insert_evidence : String → State → State × Result (Unit {0})
  pub begin : State → State × Result Tx
  pub select_pending : Tx → State → (Tx × State) × Result String
  pub select_max : Tx → State → (Tx × State) × Result (Option ℤ)
  pub update_leaf : ℤ → String → Tx → State → (Tx × State) × Result (Unit {0})
  pub commit : Tx → State → State × Result (Unit {0})
  pub rollback : Tx → State → State
  pub select_leaf : String → State → State × Result (Option ℤ)
  pub insert_audit : AuditEntry → State → State × Result (Unit {0})
  pub select_audits : ℤ → State → State × Result (List (Result AuditEntry))

-- `tmp`: 0 for a table without leaf indices, else the greatest one and 1.
unfoldable pub next_leaf : Option ℤ → ℤ
next_leaf none = pos 0
next_leaf (some max) = add64 max (pos 1)

abbrev assigned : String → ℤ → Evidence
assigned id i = record { id = id; leaf_index = some i }

-- The loop over the rows: the first error of a Scan ends it.
unfoldable pub scan_rows : List (Result AuditEntry) → Result (List AuditEntry)
scan_rows [] = ok []
scan_rows (err e ∷ rows) = err e
scan_rows (ok a ∷ rows) = elim (scan_rows rows) [ ok res ↦ ok (a ∷ res) | err e ↦ err e ]

unfoldable pub scanned : Result (List (Result AuditEntry)) → Result (List AuditEntry)
unfolding scan_rows
scanned (err e) = err e
scanned (ok rows) = scan_rows rows

module _ (db : Database) where
  open db use {State, Tx}

  unfoldable pub ensure_schema : State → State × Result (Unit {0})
  ensure_schema st = db.create_tables st

  unfoldable pub pg_save_evidence : String → State → State × Result (Unit {0})
  pg_save_evidence id st = db.insert_evidence id st

  -- The answer to Commit. The deferred Rollback runs whatever it was.
  unfoldable pub after_commit :
      String → ℤ → Tx → State → Result (Unit {0}) → State × Result (Option Evidence)
  after_commit id i tx st (err e) = (db.rollback tx st, err e)
  after_commit id i tx st (ok done) = (db.rollback tx st, ok (some (assigned id i)))

  -- The answer to UPDATE.
  unfoldable pub after_update :
      String → ℤ → (Tx × State) → Result (Unit {0}) → State × Result (Option Evidence)
  unfolding after_commit
  after_update id i (tx, st) (err e) = (db.rollback tx st, err e)
  after_update id i (tx, st) (ok done) =
      let (st', r) = db.commit tx st in after_commit id i tx st' r

  -- The answer to the query for the greatest leaf index.
  unfoldable pub after_max :
      String → (Tx × State) → Result (Option ℤ) → State × Result (Option Evidence)
  unfolding after_update
  after_max id (tx, st) (err e) = (db.rollback tx st, err e)
  after_max id (tx, st) (ok max) =
      let (at, r) = db.update_leaf (next_leaf max) id tx st in after_update id (next_leaf max) at r

  -- The answer to the query for a pending record, an error also where there is none.
  unfoldable pub after_pending : (Tx × State) → Result String → State × Result (Option Evidence)
  unfolding after_max
  after_pending (tx, st) (err e) = (db.rollback tx st, ok none)
  after_pending (tx, st) (ok id) = let (at, r) = db.select_max tx st in after_max id at r

  unfoldable pub after_begin : State → Result Tx → State × Result (Option Evidence)
  unfolding after_pending
  after_begin st (err e) = (st, err e)
  after_begin st (ok tx) = let (at, r) = db.select_pending tx st in after_pending at r

  unfoldable pub pg_assign_next_pending_leaf : State → State × Result (Option Evidence)
  unfolding after_begin
  pg_assign_next_pending_leaf st = let (st', r) = db.begin st in after_begin st' r

  abbrev found_leaf : String → Result (Option ℤ) → Result Evidence
  found_leaf id (err e) = err e
  found_leaf id (ok li) = ok (record { id = id; leaf_index = li })

  unfoldable pub pg_get_evidence : String → State → State × Result Evidence
  pg_get_evidence id st = let (st', r) = db.select_leaf id st in (st', found_leaf id r)

  -- `uuid` is the fresh one that an entry without an id gets.
  unfoldable pub pg_save_audit : String → AuditEntry → State → State × Result (Unit {0})
  pg_save_audit uuid a st = db.insert_audit (record a { id = if a.id == "" then uuid else a.id }) st

  unfoldable pub pg_list_audits : ℤ → State → State × Result (List AuditEntry)
  unfolding scanned
  pg_list_audits limit st = let (st', r) = db.select_audits limit st in (st', scanned r)

  -- The store as an implementation of the interface, with the UUIDs that it draws all `uuid`.
  abbrev pub postgres_api : String → StoreApi
  postgres_api uuid = record {
    State = State;
    save_evidence = pg_save_evidence;
    assign_next_pending_leaf = λ order st. pg_assign_next_pending_leaf st;
    get_evidence = pg_get_evidence;
    save_audit = pg_save_audit uuid;
    list_audits = pg_list_audits;
  }
