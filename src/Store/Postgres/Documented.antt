-- ===== src/Store/Postgres/Documented.antt =====
-- What the code relies on of Postgres, by its documentation, at its default isolation level, Read
-- Committed: a statement sees what is committed when it starts, and its own transaction's writes.
--
-- `rows` is the committed table `evidence`: none for an id without a row, and for a row its
-- `leaf_index`. `written` is what an open transaction has updated. A statement that fails has changed
-- nothing, except that a failed INSERT or COMMIT may have been carried out before the connection was
-- lost.
use merkle_evidence_vault.Prelude.{
  Option, Result, String, err, if◌then◌else◌, none, ok, some, ◌==◌, ◌≡◌, ◌≢◌, ◌⊎◌, string_key,
}
use merkle_evidence_vault.Prelude.Int.{ℤ, ◌≤ℤ◌}
use merkle_evidence_vault.Store.Postgres.{Database}
use merkle_evidence_vault.Store.{AuditEntry}
use merkle_evidence_vault.Store.Leaves.{Leaves}

abbrev pub Rows : Type 0
Rows = String → Option (Option ℤ)

abbrev pub SameRows : Rows → Rows → Type 0
SameRows before after = (k : String) → after k ≡ before k

-- INSERT … ON CONFLICT DO NOTHING
abbrev pub inserted : String → Rows → Rows
inserted id rows k =
    if id == k then elim (rows id) [ none ↦ some none | some li ↦ some li ] else rows k

-- UPDATE evidence SET leaf_index = i WHERE id = …
abbrev pub updated : Option (String × ℤ) → Rows → Rows
updated none rows k = rows k
updated (some (id, i)) rows k =
    if id == k then elim (rows k) [ none ↦ none | some li ↦ some (some i) ] else rows k

abbrev pub Carried : Result (Unit {0}) → (Rows → Rows) → Rows → Rows → Type 0
Carried (ok done) change before after = SameRows (change before) after
Carried (err e) change before after = SameRows before after ⊎ SameRows (change before) after

abbrev pub IsPending : Rows → Result String → Type 0
IsPending rows (ok id) = rows id ≡ some none
IsPending rows (err e) = Unit

abbrev pub IsMax : Rows → Result (Option ℤ) → Type 0
IsMax rows (err e) = Unit
IsMax rows (ok none) = (k : String) (i : ℤ) → rows k ≢ some (some i)
IsMax rows (ok (some max)) =
    (k : String) × (rows k ≡ some (some max))
    × ((k' : String) (i : ℤ) → rows k' ≡ some (some i) → i ≤ℤ max)

module _ (db : Database) where
  open db use {State, Tx}

  abbrev pub Begun : (Tx → Option (String × ℤ)) → Result Tx → Type 0
  Begun written (ok tx) = written tx ≡ none
  Begun written (err e) = Unit

  abbrev pub HasWritten : (Tx → Option (String × ℤ)) → String → ℤ → Tx → Result (Unit {0}) → Type 0
  HasWritten written id i tx (ok done) = written tx ≡ some (id, i)
  HasWritten written id i tx (err e) = Unit

  pub record IsPostgres : Type 0 where
    pub rows : State → Rows
    pub written : Tx → Option (String × ℤ)
    pub insert_law :
        (id : String) (st : State)
        → Carried
            (db.insert_evidence id st).1
            (inserted id)
            (rows st)
            (rows (db.insert_evidence id st).0)
    pub begin_law :
        (st : State) → Begun written (db.begin st).1 × SameRows (rows st) (rows (db.begin st).0)
    pub pending_law :
        (tx : Tx) (st : State)
        → IsPending (rows st) (db.select_pending tx st).1
          × (written (db.select_pending tx st).0.0 ≡ written tx)
          × SameRows (rows st) (rows (db.select_pending tx st).0.1)
    pub max_law :
        (tx : Tx) (st : State)
        → written tx ≡ none
        → IsMax (rows st) (db.select_max tx st).1
          × (written (db.select_max tx st).0.0 ≡ none)
          × SameRows (rows st) (rows (db.select_max tx st).0.1)
    pub update_law :
        (i : ℤ) (id : String) (tx : Tx) (st : State)
        → HasWritten written id i (db.update_leaf i id tx st).0.0 (db.update_leaf i id tx st).1
          × SameRows (rows st) (rows (db.update_leaf i id tx st).0.1)
    pub commit_law :
        (tx : Tx) (st : State)
        → Carried (db.commit tx st).1 (updated (written tx)) (rows st) (rows (db.commit tx st).0)
    pub rollback_law : (tx : Tx) (st : State) → SameRows (rows st) (rows (db.rollback tx st))
    pub audit_law :
        (a : AuditEntry) (st : State) → SameRows (rows st) (rows (db.insert_audit a st).0)

abbrev pub index_of : Option (Option ℤ) → Option ℤ
index_of none = none
index_of (some li) = li

-- The leaf index of an id, none also where there is no row.
abbrev pub leaf_in : Rows → Leaves
leaf_in rows k = index_of (rows k)
