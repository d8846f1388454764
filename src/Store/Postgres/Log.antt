-- ===== src/Store/Postgres/Log.antt =====
-- The store in Postgres beside an append-only log of evidence ids.
use mathlib.Core.Path.{subst}
use merkle_evidence_vault.Prelude.{
  Bool-cases, List, Option, Result, String, [], ap, arith, eq_iff, err, inl, inr, length, none, ok,
  refl, some, sym, ◌++◌, ◌<◌, ◌==◌, ◌^◌, ◌∙◌, ◌∷◌, ◌≡◌, ◌⊎◌, string_key,
}
use merkle_evidence_vault.Prelude.Int.{add64_pos, pos, ℤ, int_key}
use merkle_evidence_vault.Store.Leaves.{
  IsLog, IsLog-ext, IsLog-place, get_elem?-lt, get_elem?-some, place,
}
use merkle_evidence_vault.Store.Postgres.{
  Database, after_begin, after_commit, after_max, after_pending, after_update, next_leaf,
  pg_assign_next_pending_leaf, pg_save_evidence,
}
use merkle_evidence_vault.Store.Postgres.Documented.{
  Carried, IsMax, IsPending, IsPostgres, Rows, SameRows, Begun, HasWritten, index_of, inserted,
  leaf_in, updated,
}
use merkle_evidence_vault.Store.{Evidence}

index_of-some : (o : Option (Option ℤ)) (i : ℤ) → index_of o ≡ some i → o ≡ some (some i)
index_of-some none i h = cc
index_of-some (some li) i h = ap some h

pub IsLog-SameRows :
    (before after : Rows) (log : List String)
    → SameRows before after
    → IsLog (leaf_in before) log
    → IsLog (leaf_in after) log
IsLog-SameRows before after log same = IsLog-ext (λ k. ap index_of (same k))

-- A statement that inserts a row changes no leaf index.
inserted-leaf :
    (id : String) (rows : Rows) (k : String) → leaf_in (inserted id rows) k ≡ leaf_in rows k
inserted-leaf id rows k = elim (Bool-cases (id == k)) [
  | inl same ↦
      let e = (eq_iff id k).0 same in rw same (go (rows id) ∙ ap (λ j. index_of (rows j)) e)
  | inr other ↦ rw other refl
]
  where
    go :
        (o : Option (Option ℤ))
        → index_of (elim o [ none ↦ some none | some li ↦ some li ]) ≡ index_of o
    go none = refl
    go (some li) = refl

-- The greatest leaf index and 1 is the length of the log.
pub next_leaf-length :
    (rows : Rows) (log : List String) (max : Option ℤ)
    → IsLog (leaf_in rows) log
    → IsMax rows (ok max)
    → length log < 2 ^ 63
    → next_leaf max ≡ pos (length log)
unfolding next_leaf
next_leaf-length rows [] none h m room = refl
next_leaf-length rows (k ∷ log) none h m room =
    absurd (m k (pos 0) (index_of-some (rows k) (pos 0) (h.placed 0 k refl)))
next_leaf-length rows [] (some max) h (k, at, most) room =
    let (j, ij, e) = h.logged k max (ap index_of at) in cc
next_leaf-length rows (k ∷ log) (some max) h (k', at, most) room =
    let (j, ij, e) = h.logged k' max (ap index_of at) in
    let (last, there) = get_elem?-some (k ∷ log) (length log) (omega arith) in
    let le =
      most last (pos (length log))
        (index_of-some (rows last) (pos (length log)) (h.placed (length log) last there)) in
    let lt = get_elem?-lt (k ∷ log) j e in
    let same : j ≡ length log = ground arith in
    rw (ij, same) (add64_pos (length log) 1 (omega arith) ∙ ap pos (omega arith))

-- An update of a pending row with the next index appends its id to the log.
updated-IsLog :
    (rows : Rows) (log : List String) (id : String)
    → IsLog (leaf_in rows) log
    → rows id ≡ some none
    → IsLog (leaf_in (updated (some (id, pos (length log))) rows)) (log ++ id ∷ [])
updated-IsLog rows log id h pending = IsLog-ext same (IsLog-place log id (ap index_of pending) h)
  where
    same :
        (k : String)
        → leaf_in (updated (some (id, pos (length log))) rows) k
          ≡ place id (pos (length log)) (leaf_in rows) k
    same k = elim (Bool-cases (id == k)) [
      | inl here ↦
          let at : rows k ≡ some none = ap rows (sym ((eq_iff id k).0 here)) ∙ pending in
          rw (here, at) refl
      | inr other ↦ rw other refl
    ]

IsPending-SameRows :
    (before after : Rows) (r : Result String)
    → SameRows before after
    → IsPending before r
    → IsPending after r
IsPending-SameRows before after (err e) same p = tt
IsPending-SameRows before after (ok id) same p = same id ∙ p

IsMax-SameRows :
    (before after : Rows) (r : Result (Option ℤ))
    → SameRows before after
    → IsMax before r
    → IsMax after r
IsMax-SameRows before after (err e) same m = tt
IsMax-SameRows before after (ok none) same m = λ k i e. m k i (sym (same k) ∙ e)
IsMax-SameRows before after (ok (some max)) same (k, at, most) =
    (k, same k ∙ at, λ k' i e. most k' i (sym (same k') ∙ e))

-- What a call of AssignNextPendingLeaf makes of the log: an answer with a record appends the record's
-- id, whose index is the next one; one without leaves the log; an error leaves it or, where the
-- answer to COMMIT was lost, appends an id.
abbrev pub Assigned : List String → Rows → Result (Option Evidence) → Type 0
Assigned log rows (ok none) = IsLog (leaf_in rows) log
Assigned log rows (ok (some ev)) =
    IsLog (leaf_in rows) (log ++ ev.id ∷ []) × (ev.leaf_index ≡ some (pos (length log)))
Assigned log rows (err e) =
    IsLog (leaf_in rows) log ⊎ ((id : String) × IsLog (leaf_in rows) (log ++ id ∷ []))

module _ (db : Database) (pg : IsPostgres db) (log : List String) where
  open db use {State, Tx}
  open pg use {rows, written}

  rolled_back-IsLog :
      (tx : Tx) (st : State) (l : List String)
      → IsLog (leaf_in (rows st)) l
      → IsLog (leaf_in (rows (db.rollback tx st))) l
  rolled_back-IsLog tx st l =
      IsLog-SameRows (rows st) (rows (db.rollback tx st)) l (pg.rollback_law tx st)

  after_commit-Assigned :
      (id : String) (tx : Tx) (before : Rows) (st : State) (r : Result (Unit {0}))
      → Carried r (updated (some (id, pos (length log)))) before (rows st)
      → IsLog (leaf_in before) log
      → before id ≡ some none
      → Assigned log
          (rows (after_commit db id (pos (length log)) tx st r).0)
          (after_commit db id (pos (length log)) tx st r).1
  unfolding after_commit
  after_commit-Assigned id tx before st (ok done) c h pending = (
    rolled_back-IsLog tx st (log ++ id ∷ []) (
        IsLog-SameRows (updated (some (id, pos (length log))) before) (rows st) (log ++ id ∷ []) c
          (updated-IsLog before log id h pending)),
    refl,
  )
  after_commit-Assigned id tx before st (err e) (inl same) h pending =
      inl (rolled_back-IsLog tx st log (IsLog-SameRows before (rows st) log same h))
  after_commit-Assigned id tx before st (err e) (inr done) h pending = inr (
    id,
    rolled_back-IsLog tx st (log ++ id ∷ []) (
        IsLog-SameRows (updated (some (id, pos (length log))) before) (rows st) (log ++ id ∷ [])
          done (updated-IsLog before log id h pending)),
  )

  after_update-Assigned :
      (id : String) (tx : Tx) (st : State) (r : Result (Unit {0}))
      → HasWritten db written id (pos (length log)) tx r
      → IsLog (leaf_in (rows st)) log
      → rows st id ≡ some none
      → Assigned log
          (rows (after_update db id (pos (length log)) (tx, st) r).0)
          (after_update db id (pos (length log)) (tx, st) r).1
  unfolding after_update
  after_update-Assigned id tx st (err e) w h pending = inl (rolled_back-IsLog tx st log h)
  after_update-Assigned id tx st (ok done) w h pending =
      after_commit-Assigned id tx (rows st) (db.commit tx st).0 (db.commit tx st).1
        (subst (λ o. Carried (db.commit tx st).1 (updated o) (rows st) (rows (db.commit tx st).0)) w
          (pg.commit_law tx st))
        h pending

  after_max-Assigned :
      (id : String) (tx : Tx) (st : State) (r : Result (Option ℤ))
      → IsMax (rows st) r
      → length log < 2 ^ 63
      → IsLog (leaf_in (rows st)) log
      → rows st id ≡ some none
      → Assigned log (rows (after_max db id (tx, st) r).0) (after_max db id (tx, st) r).1
  unfolding after_max
  after_max-Assigned id tx st (err e) m room h pending = inl (rolled_back-IsLog tx st log h)
  after_max-Assigned id tx st (ok max) m room h pending =
      let i = pos (length log) in
      let ((tx', st'), r) = db.update_leaf i id tx st in
      let (wrote, same) = pg.update_law i id tx st in
      rw (next_leaf-length (rows st) log max h m room) (
        after_update-Assigned id tx' st' r wrote (IsLog-SameRows (rows st) (rows st') log same h)
          (same id ∙ pending))

  after_pending-Assigned :
      (tx : Tx) (st : State) (r : Result String)
      → IsPending (rows st) r
      → written tx ≡ none
      → length log < 2 ^ 63
      → IsLog (leaf_in (rows st)) log
      → Assigned log (rows (after_pending db (tx, st) r).0) (after_pending db (tx, st) r).1
  unfolding after_pending
  after_pending-Assigned tx st (err e) p w room h = rolled_back-IsLog tx st log h
  after_pending-Assigned tx st (ok id) p w room h =
      let ((tx', st'), r) = db.select_max tx st in
      let (max, none_yet, same) = pg.max_law tx st w in
      after_max-Assigned id tx' st' r (IsMax-SameRows (rows st) (rows st') r same max) room
        (IsLog-SameRows (rows st) (rows st') log same h) (same id ∙ p)

  after_begin-Assigned :
      (st : State) (r : Result Tx)
      → Begun db written r
      → length log < 2 ^ 63
      → IsLog (leaf_in (rows st)) log
      → Assigned log (rows (after_begin db st r).0) (after_begin db st r).1
  unfolding after_begin
  after_begin-Assigned st (err e) b room h = inl h
  after_begin-Assigned st (ok tx) b room h =
      let ((tx', st'), r) = db.select_pending tx st in
      let (pending, wrote, same) = pg.pending_law tx st in
      after_pending-Assigned tx' st' r (IsPending-SameRows (rows st) (rows st') r same pending)
        (wrote ∙ b) room (IsLog-SameRows (rows st) (rows st') log same h)

  -- AssignNextPendingLeaf on a database that holds a log, with no other transaction beside it: an
  -- answer with a record means that the record's id was appended to the log, and that its leaf index
  -- is its place in it; an answer without one leaves the log; after an error the log is as it was, or
  -- has one id more, where the answer to COMMIT was lost.
  pub pg_assign-Assigned :
      (st : State)
      → length log < 2 ^ 63
      → IsLog (leaf_in (rows st)) log
      → Assigned log
          (rows (pg_assign_next_pending_leaf db st).0)
          (pg_assign_next_pending_leaf db st).1
  unfolding pg_assign_next_pending_leaf
  pg_assign-Assigned st room h =
      let (st', r) = db.begin st in
      let (b, same) = pg.begin_law st in
      after_begin-Assigned st' r b room (IsLog-SameRows (rows st) (rows st') log same h)

  -- Saving evidence leaves the log, also for an id that the table has.
  pub pg_save_evidence-IsLog :
      (id : String) (st : State)
      → IsLog (leaf_in (rows st)) log
      → IsLog (leaf_in (rows (pg_save_evidence db id st).0)) log
  unfolding pg_save_evidence
  pg_save_evidence-IsLog id st h = go (db.insert_evidence id st).1 (pg.insert_law id st)
    where
      st' : State
      st' = (db.insert_evidence id st).0

      done : SameRows (inserted id (rows st)) (rows st') → IsLog (leaf_in (rows st')) log
      done c = IsLog-ext (λ k. ap index_of (c k) ∙ inserted-leaf id (rows st) k) h

      go :
          (r : Result (Unit {0}))
          → Carried r (inserted id) (rows st) (rows st')
          → IsLog (leaf_in (rows st')) log
      go (ok u) c = done c
      go (err e) (inl same) = IsLog-SameRows (rows st) (rows st') log same h
      go (err e) (inr c) = done c
