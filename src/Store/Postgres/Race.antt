-- ===== src/Store/Postgres/Race.antt =====
-- Two calls of AssignNextPendingLeaf at once: two servers on one database, each with its committer.
--
-- The query for the greatest leaf index takes no lock, so it misses what the other transaction has
-- not committed. FOR UPDATE SKIP LOCKED only keeps the two from the same pending record.
use mathlib.Core.Path.{subst}
use merkle_evidence_vault.Prelude.{
  Bool-cases, List, Option, Result, String, ap, arith, eq_iff, err, inl, inr, length, none, ok,
  refl, some, sym, ◌<◌, ◌==◌, ◌^◌, ◌∙◌, ◌≡◌, ◌≢◌, string_key,
}
use merkle_evidence_vault.Prelude.Int.{pos, ℤ, int_key}
use merkle_evidence_vault.Store.{Evidence}
use merkle_evidence_vault.Store.Leaves.{IsLog, IsLog-injective}
use merkle_evidence_vault.Store.Postgres.{
  Database, after_commit, after_max, after_update, next_leaf,
}
use merkle_evidence_vault.Store.Postgres.Documented.{
  Carried, IsMax, IsPostgres, Rows, SameRows, HasWritten, index_of, leaf_in, updated,
}
use merkle_evidence_vault.Store.Postgres.Log.{IsLog-SameRows, next_leaf-length}

module _ (db : Database) where
  open db use {State, Tx}

  -- The rest of two calls of which each has picked its record: both ask for the greatest leaf index
  -- before either writes.
  unfoldable pub both_assign :
      (a b : String) → Tx → Tx → State → State × Result (Option Evidence) × Result (Option Evidence)
  both_assign a b ta tb st =
      let ((ta', st1), ma) = db.select_max ta st in
      let ((tb', st2), mb) = db.select_max tb st1 in
      let (st3, ra) = after_max db a (ta', st2) ma in
      let (st4, rb) = after_max db b (tb', st3) mb in (st4, ra, rb)

module _ (db : Database) (pg : IsPostgres db) where
  open db use {State, Tx}
  open pg use {rows, written}

  -- What is known of a call that answers with a record.
  record IsDone (id : String) (st st' : State) (m : Result (Option ℤ)) (ev : Evidence)
      : Type 0 where
    max : Option ℤ
    asked : m ≡ ok max
    answer : ev ≡ record { id = id; leaf_index = some (next_leaf max) }
    after : SameRows (updated (some (id, next_leaf max)) (rows st)) (rows st')

  after_commit-rows :
      (id : String) (i : ℤ) (tx : Tx) (before : Rows) (st : State) (r : Result (Unit {0}))
      (ev : Evidence)
      → Carried r (updated (some (id, i))) before (rows st)
      → (after_commit db id i tx st r).1 ≡ ok (some ev)
      → SameRows (updated (some (id, i)) before) (rows (after_commit db id i tx st r).0)
        × (ev ≡ record { id = id; leaf_index = some i })
  unfolding after_commit
  after_commit-rows id i tx before st (err e) ev c h = cc
  after_commit-rows id i tx before st (ok done) ev c h =
      ((λ k. pg.rollback_law tx st k ∙ c k), ground arith)

  after_update-rows :
      (id : String) (i : ℤ) (tx : Tx) (st : State) (r : Result (Unit {0})) (ev : Evidence)
      → HasWritten db written id i tx r
      → (after_update db id i (tx, st) r).1 ≡ ok (some ev)
      → SameRows (updated (some (id, i)) (rows st)) (rows (after_update db id i (tx, st) r).0)
        × (ev ≡ record { id = id; leaf_index = some i })
  unfolding after_update
  after_update-rows id i tx st (err e) ev w h = cc
  after_update-rows id i tx st (ok done) ev w h =
      after_commit-rows id i tx (rows st) (db.commit tx st).0 (db.commit tx st).1 ev
        (subst (λ o. Carried (db.commit tx st).1 (updated o) (rows st) (rows (db.commit tx st).0)) w
          (pg.commit_law tx st))
        h

  updated-SameRows :
      (id : String) (i : ℤ) (before after : Rows)
      → SameRows before after
      → SameRows (updated (some (id, i)) before) (updated (some (id, i)) after)
  updated-SameRows id i before after same k = rw (same k) refl

  after_max-IsDone :
      (id : String) (tx : Tx) (st : State) (m : Result (Option ℤ)) (ev : Evidence)
      → (after_max db id (tx, st) m).1 ≡ ok (some ev)
      → IsDone id st (after_max db id (tx, st) m).0 m ev
  unfolding after_max
  after_max-IsDone id tx st (err e) ev h = cc
  after_max-IsDone id tx st (ok max) ev h =
      let i = next_leaf max in
      let ((tx', st'), r) = db.update_leaf i id tx st in
      let (wrote, same) = pg.update_law i id tx st in
      let (after, answer) = after_update-rows id i tx' st' r ev wrote h in
      record {
        max = max;
        asked = refl;
        answer = answer;
        after = λ k. after k ∙ updated-SameRows id i (rows st) (rows st') same k;
      }

  updated-here :
      (id : String) (i : ℤ) (table : Rows)
      → table id ≡ some none
      → updated (some (id, i)) table id ≡ some (some i)
  updated-here id i table pending = rw ((eq_iff id id).1 refl, pending) refl

  updated-other :
      (id k : String) (i : ℤ) (table : Rows) → id ≢ k → updated (some (id, i)) table k ≡ table k
  updated-other id k i table differs = elim (Bool-cases (id == k)) [
    | inl same ↦ absurd (differs ((eq_iff id k).0 same))
    | inr other ↦ rw other refl
  ]

  -- If two transactions that have picked different pending records of a table that holds a log ask
  -- for the greatest index before either writes, and both calls succeed, then both records get the
  -- log's length as their leaf index, and the table is no log any more.
  pub both_assign-duplicate :
      (a b : String) (ta tb : Tx) (st : State) (log : List String) (ea eb : Evidence)
      → written ta ≡ none
      → written tb ≡ none
      → length log < 2 ^ 63
      → IsLog (leaf_in (rows st)) log
      → rows st a ≡ some none
      → rows st b ≡ some none
      → a ≢ b
      → (both_assign db a b ta tb st).1 ≡ ok (some ea)
      → (both_assign db a b ta tb st).2 ≡ ok (some eb)
      → (ea.leaf_index ≡ some (pos (length log)))
        × (eb.leaf_index ≡ some (pos (length log)))
        × ((l : List String) → ¬ IsLog (leaf_in (rows (both_assign db a b ta tb st).0)) l)
  unfolding both_assign
  both_assign-duplicate a b ta tb st log ea eb wa wb room h pa pb differs da db' =
      let ((ta', st1), ma) = db.select_max ta st in
      let ((tb', st2), mb) = db.select_max tb st1 in
      let st3 = (after_max db a (ta', st2) ma).0 in
      let st4 = (after_max db b (tb', st3) mb).0 in
      let (max_a, wa', same1) = pg.max_law ta st wa in
      let (max_b, wb', same2) = pg.max_law tb st1 wb in
      let i = pos (length log) in
      let done_a = after_max-IsDone a ta' st2 ma ea da in
      let done_b = after_max-IsDone b tb' st3 mb eb db' in
      let ia : next_leaf done_a.max ≡ i =
        next_leaf-length (rows st) log done_a.max h (subst (IsMax (rows st)) done_a.asked max_a)
          room in
      let ib : next_leaf done_b.max ≡ i =
        next_leaf-length (rows st1) log done_b.max (IsLog-SameRows (rows st) (rows st1) log same1 h)
          (subst (IsMax (rows st1)) done_b.asked max_b) room in
      let at2 : (k : String) → rows st2 k ≡ rows st k = λ k. same2 k ∙ same1 k in
      let a3 : rows st3 a ≡ some (some i) =
        done_a.after a
        ∙ updated-here a (next_leaf done_a.max) (rows st2) (at2 a ∙ pa)
        ∙ ap (λ n. some (some n)) ia in
      let b3 : rows st3 b ≡ some none =
        done_a.after b ∙ updated-other a b (next_leaf done_a.max) (rows st2) differs ∙ at2 b ∙ pb in
      let a4 : rows st4 a ≡ some (some i) =
        done_b.after a
        ∙ updated-other b a (next_leaf done_b.max) (rows st3) (λ e. differs (sym e))
        ∙ a3 in
      let b4 : rows st4 b ≡ some (some i) =
        done_b.after b
        ∙ updated-here b (next_leaf done_b.max) (rows st3) b3
        ∙ ap (λ n. some (some n)) ib in
      (
        ap (λ e. e.leaf_index) done_a.answer ∙ ap some ia,
        ap (λ e. e.leaf_index) done_b.answer ∙ ap some ib,
        (λ l held. differs (IsLog-injective a b held (ap index_of a4) (ap index_of b4))),
      )
