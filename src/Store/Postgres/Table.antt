-- ===== src/Store/Postgres/Table.antt =====
-- A database of one table, which shows that the documented behaviour can be met. A transaction is
-- what it has updated, and no statement fails but the query for a pending record of a table without
-- one.
use mathlib.Core.List.{Memᴰ}
use merkle_evidence_vault.Prelude.{
  Bool-cases, List, Option, Option-cases, Result, String, [], ap, arith, eq_iff, err, if◌then◌else◌,
  inl, inr, none, ok, refl, some, sym, ◌==◌, ◌∙◌, ◌∷◌, ◌≡◌, ◌≢◌, string_key,
}
use merkle_evidence_vault.Prelude.Int.{ltb_ℤ, ℤ, ◌≤ℤ◌}
use merkle_evidence_vault.Prelude.Dict.{Dict, insert, lookup, lookup-insert}
use merkle_evidence_vault.Store.Postgres.{Database}
use merkle_evidence_vault.Store.Postgres.Documented.{
  IsMax, IsPending, IsPostgres, index_of, inserted, updated,
}

abbrev pub Table : Type 0
Table = Dict String (Option ℤ)

abbrev pub greater : Option ℤ → Option ℤ → Option ℤ
greater none m = m
greater (some i) none = some i
greater (some i) (some j) = some (if ltb_ℤ i j then j else i)

-- The greatest leaf index of the ids.
unfoldable pub max_index : List String → Table → Option ℤ
max_index [] t = none
max_index (k ∷ ks) t = greater (index_of (lookup k t)) (max_index ks t)

abbrev pub ids : Table → List String
ids [] = []
ids ((k, li) ∷ t) = k ∷ ids t

unfoldable pub pending_id : Table → Result String
pending_id [] = err "no rows in result set"
pending_id ((k, none) ∷ t) = ok k
pending_id ((k, some i) ∷ t) = pending_id t

abbrev pub add_row : String → Table → Table
add_row id t = elim (lookup id t) [ none ↦ insert id none t | some li ↦ t ]

abbrev pub set_index : Option (String × ℤ) → Table → Table
set_index none t = t
set_index (some (id, i)) t = elim (lookup id t) [ none ↦ t | some li ↦ insert id (some i) t ]

-- The query answers with an id whose row it has looked up.
abbrev pub checked : Table → Result String → Result String
checked t (err e) = err e
checked t (ok id) = elim (lookup id t) [
  | none ↦ err "no rows in result set"
  | some li ↦ elim li [ none ↦ ok id | some i ↦ err "no rows in result set" ]
]

abbrev pub table_db : Database
table_db = record {
  State = Table;
  Tx = Option (String × ℤ);
  create_tables = λ t. (t, ok tt);
  insert_evidence = λ id t. (add_row id t, ok tt);
  begin = λ t. (t, ok none);
  select_pending = λ tx t. ((tx, t), checked t (pending_id t));
  select_max = λ tx t. ((tx, t), ok (max_index (ids t) t));
  update_leaf = λ i id tx t. ((some (id, i), t), ok tt);
  commit = λ tx t. (set_index tx t, ok tt);
  rollback = λ tx t. t;
  select_leaf = λ id t. (t, elim (lookup id t) [ none ↦ err "no rows" | some li ↦ ok li ]);
  insert_audit = λ a t. (t, ok tt);
  select_audits = λ limit t. (t, ok []);
}

pub add_row-inserted :
    (id : String) (t : Table) (k : String)
    → lookup k (add_row id t) ≡ inserted id (λ j. lookup j t) k
add_row-inserted id t k = elim (Option-cases (lookup id t)) [
  | inl missing ↦ ground (arith, lookup-insert id k none t)
  | inr (li, there) ↦ ground (arith, eq_iff id k)
]

pub set_index-updated :
    (tx : Option (String × ℤ)) (t : Table) (k : String)
    → lookup k (set_index tx t) ≡ updated tx (λ j. lookup j t) k
set_index-updated none t k = refl
set_index-updated (some (id, i)) t k = elim (Option-cases (lookup id t)) [
  | inl missing ↦ ground (arith, eq_iff id k)
  | inr (li, there) ↦ ground (arith, eq_iff id k, lookup-insert id k (some i) t)
]

pub checked-IsPending : (t : Table) (r : Result String) → IsPending (λ j. lookup j t) (checked t r)
checked-IsPending t (err e) = tt
checked-IsPending t (ok id) = go (lookup id t) refl
  where
    go : (o : Option (Option ℤ)) → lookup id t ≡ o → IsPending (λ j. lookup j t) (checked t (ok id))
    go none e = rw (e, checked) tt
    go (some none) e = rw (e, checked) e
    go (some (some i)) e = rw (e, checked) tt

ids-lookup : (t : Table) (k : String) (li : Option ℤ) → lookup k t ≡ some li → Memᴰ k (ids t)
unfolding lookup
ids-lookup [] k li h = cc
ids-lookup ((j, lj) ∷ t) k li h = elim (Bool-cases (j == k)) [
  | inl same ↦ Memᴰ.head (sym ((eq_iff j k).0 same))
  | inr other ↦ Memᴰ.tail (ids-lookup t k li (ground arith))
]

-- What the greatest index of some ids is.
abbrev pub IsGreatest : List String → Table → Option ℤ → Type 0
IsGreatest ks t none = (k : String) → Memᴰ k ks → (i : ℤ) → lookup k t ≢ some (some i)
IsGreatest ks t (some max) =
    (k : String) × (lookup k t ≡ some (some max))
    × ((k' : String) → Memᴰ k' ks → (i : ℤ) → lookup k' t ≡ some (some i) → i ≤ℤ max)

-- A bound for the indices of some ids is one for those of one more.
module _ (k : String) (ks : List String) (t : Table) (b : ℤ)
    (tail : (k' : String) → Memᴰ k' ks → (i : ℤ) → lookup k' t ≡ some (some i) → i ≤ℤ b) where
  bound-cons :
      ((i : ℤ) → lookup k t ≡ some (some i) → i ≤ℤ b)
      → (k' : String) → Memᴰ k' (k ∷ ks)
      → (i : ℤ) → lookup k' t ≡ some (some i)
      → i ≤ℤ b
  bound-cons head k' (Memᴰ.head same) i at = head i (ap (λ x. lookup x t) (sym same) ∙ at)
  bound-cons head k' (Memᴰ.tail later) i at = tail k' later i at

none-cons :
    (k : String) (ks : List String) (t : Table)
    → ((i : ℤ) → lookup k t ≢ some (some i))
    → IsGreatest ks t none
    → IsGreatest (k ∷ ks) t none
none-cons k ks t head g k' (Memᴰ.head same) i at = head i (ap (λ x. lookup x t) (sym same) ∙ at)
none-cons k ks t head g k' (Memᴰ.tail later) i at = g k' later i at

greater-IsGreatest :
    (k : String) (ks : List String) (t : Table) (o : Option (Option ℤ)) (m : Option ℤ)
    → lookup k t ≡ o
    → IsGreatest ks t m
    → IsGreatest (k ∷ ks) t (greater (index_of o) m)
greater-IsGreatest k ks t none none e g = none-cons k ks t (λ i at. cc) g
greater-IsGreatest k ks t (some none) none e g = none-cons k ks t (λ i at. cc) g
greater-IsGreatest k ks t none (some b) e (j, at, most) =
    (j, at, bound-cons k ks t b most (λ i at'. absurd (ground arith)))
greater-IsGreatest k ks t (some none) (some b) e (j, at, most) =
    (j, at, bound-cons k ks t b most (λ i at'. absurd (ground arith)))
greater-IsGreatest k ks t (some (some i)) none e g =
    (k, e, bound-cons k ks t i (λ k' m i' at. absurd (g k' m i' at)) (λ i' at. ground arith))
greater-IsGreatest k ks t (some (some i)) (some b) e (j, at, most) = elim (Bool-cases (ltb_ℤ i b)) [
  | inl less ↦ rw less (j, at, bound-cons k ks t b most (λ i' at'. ground arith))
  | inr more ↦ rw more (
    k,
    e,
    bound-cons k ks t i (λ k' m i' at'. let le = most k' m i' at' in ground arith)
        (λ i' at'. ground arith),
  )
]

pub max_index-IsGreatest : (ks : List String) (t : Table) → IsGreatest ks t (max_index ks t)
unfolding max_index
max_index-IsGreatest [] t = λ k m. elim m [ ]
max_index-IsGreatest (k ∷ ks) t =
    greater-IsGreatest k ks t (lookup k t) (max_index ks t) refl (max_index-IsGreatest ks t)

pub greatest-IsMax :
    (t : Table) (m : Option ℤ) → IsGreatest (ids t) t m → IsMax (λ j. lookup j t) (ok m)
greatest-IsMax t none g = λ k i at. g k (ids-lookup t k (some i) at) i at
greatest-IsMax t (some max) (k, at, most) =
    (k, at, λ k' i at'. most k' (ids-lookup t k' (some i) at') i at')

abbrev pub table_db-IsPostgres : IsPostgres table_db
table_db-IsPostgres = record {
  rows = λ t k. lookup k t;
  written = λ tx. tx;
  insert_law = λ id t k. add_row-inserted id t k;
  begin_law = λ t. (refl, λ k. refl);
  pending_law = λ tx t. (checked-IsPending t (pending_id t), refl, λ k. refl);
  max_law = λ tx t none_yet. (
    greatest-IsMax t (max_index (ids t) t) (max_index-IsGreatest (ids t) t),
    none_yet,
    λ k. refl,
  );
  update_law = λ i id tx t. (refl, λ k. refl);
  commit_law = λ tx t k. set_index-updated tx t k;
  rollback_law = λ tx t k. refl;
  audit_law = λ a t k. refl;
}
