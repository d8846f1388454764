-- ===== src/Store/Postgres/Tests.antt =====
-- The store in Postgres on a table in memory.
use merkle_evidence_vault.Prelude.{
  Bool-cases, List, String, [], arith, eq_iff, inl, inr, none, ok, refl, some, ◌++◌, ◌==◌, ◌∷◌, ◌≡◌,
  ◌≢◌, string_key,
}
use merkle_evidence_vault.Prelude.Int.{pos, int_key}
use merkle_evidence_vault.Prelude.Dict.{insert, lookup}
use merkle_evidence_vault.Store.{Evidence}
use merkle_evidence_vault.Store.Leaves.{IsLog, IsLog-ext, IsLog-nil}
use merkle_evidence_vault.Store.Postgres.{after_max, next_leaf, pg_assign_next_pending_leaf}
use merkle_evidence_vault.Store.Postgres.Documented.{leaf_in}
use merkle_evidence_vault.Store.Postgres.Runs.{
  Operation, assign, perform_all, perform_all-IsLog, save,
}
use merkle_evidence_vault.Store.Postgres.Race.{both_assign, both_assign-duplicate}
use merkle_evidence_vault.Store.Postgres.Table.{
  Table, max_index, pending_id, table_db, table_db-IsPostgres,
}

abbrev two_pending : Table
two_pending = ("a", none) ∷ ("b", none) ∷ []

no_index : (k : String) → leaf_in (table_db-IsPostgres.rows two_pending) k ≡ none
unfolding lookup
no_index k = elim (Bool-cases ("a" == k)) [
  | inl a ↦ rw a refl
  | inr not_a ↦ elim (Bool-cases ("b" == k)) [
    | inl b ↦ rw (not_a, b) refl
    | inr not_b ↦ rw (not_a, not_b) refl
  ]
]

two_pending-IsLog : IsLog (leaf_in (table_db-IsPostgres.rows two_pending)) []
two_pending-IsLog = IsLog-ext no_index IsLog-nil

assigns_a :
    (pg_assign_next_pending_leaf table_db two_pending).1
    ≡ ok (some (record { id = "a"; leaf_index = some (pos 0) }))
unfolding pg_assign_next_pending_leaf pending_id lookup max_index next_leaf
assigns_a = refl

abbrev operations : List Operation
operations = save "c" ∷ assign ∷ save "c" ∷ assign ∷ []

perform_all-IsLog_example :
    (more : List String) × IsLog
      (leaf_in (table_db-IsPostgres.rows (perform_all table_db operations two_pending)))
      ([] ++ more)
perform_all-IsLog_example =
    perform_all-IsLog table_db table_db-IsPostgres operations two_pending [] (omega arith)
      two_pending-IsLog

abbrev zeroth : String → Evidence
zeroth id = record { id = id; leaf_index = some (pos 0) }

both_succeed :
    ((both_assign table_db "a" "b" none none two_pending).1 ≡ ok (some (zeroth "a")))
    × ((both_assign table_db "a" "b" none none two_pending).2 ≡ ok (some (zeroth "b")))
unfolding both_assign after_max lookup insert max_index next_leaf
both_succeed = (refl, refl)

pending_rows :
    (table_db-IsPostgres.rows two_pending "a" ≡ some none)
    × (table_db-IsPostgres.rows two_pending "b" ≡ some none)
unfolding lookup
pending_rows = (refl, refl)

a_not_b : ◌≢◌ {A = String} "a" "b"
a_not_b = ground (arith, eq_iff "a" "b")

both_assign-duplicate_example :
    ((zeroth "a").leaf_index ≡ some (pos 0))
    × ((zeroth "b").leaf_index ≡ some (pos 0))
    × ((l : List String)
        → ¬ IsLog
            (leaf_in
              (table_db-IsPostgres.rows (both_assign table_db "a" "b" none none two_pending).0))
            l)
both_assign-duplicate_example =
    both_assign-duplicate table_db table_db-IsPostgres "a" "b" none none two_pending [] (zeroth "a")
      (zeroth "b") refl refl (omega arith) two_pending-IsLog pending_rows.0 pending_rows.1 a_not_b
      both_succeed.0 both_succeed.1
