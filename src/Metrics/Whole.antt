-- ===== src/Metrics/Whole.antt =====
-- What the page of the counters relies on.
use Prim.Native.String
use mathlib.Core.Path.{subst}
use text.Mathlib.TextLemmas.{cons-append, nil-append}
use merkle_evidence_vault.Prelude.{
  Bool, Bool-cases, List, Option-cases, String, [], ap, arith, eq_iff, false, if◌then◌else◌, inl,
  inr, length, none, refl, some, sym, true, ℕ, ◌==◌, ◌∙◌, ◌∷◌, ◌≡◌, ◌⊎◌, string_key,
}
use merkle_evidence_vault.Prelude.Dict.{
  Dict, insert, lookup, lookup-insert, lookup-insert_self, lookup-nil,
}
use merkle_evidence_vault.Text.{cut}
use merkle_evidence_vault.Text.Cuts.{cut-append}
use merkle_evidence_vault.Metrics.{
  HttpMetrics, Observation, add_at, add_to_buckets, buckets_at, classify_operation,
  classify_status_class, duration_buckets, new_bucket_counters, no_metrics, observe,
}
use merkle_evidence_vault.Metrics.Laws.{observe_all}

-- The page's needs: every operation with buckets has a count, its buckets are as many as the bounds,
-- and the keys by operation and status have the separator.
pub record IsWhole (m : HttpMetrics) : Type 0 where
  pub counted :
      (op : String) (cs : List ℕ)
      → lookup op m.duration_buckets_by_op ≡ some cs
      → (n : ℕ) × (lookup op m.duration_count_by_operation ≡ some n)
  pub sized :
      (op : String) (cs : List ℕ)
      → lookup op m.duration_buckets_by_op ≡ some cs
      → length cs ≡ length duration_buckets
  pub parted :
      (k : String) (n : ℕ)
      → lookup k m.requests_by_operation_status ≡ some n
      → (p : String × String) × (cut b'|' k ≡ some p)

IsWhole-no_metrics : IsWhole no_metrics
IsWhole-no_metrics = record {
  counted = λ op cs e. absurd (ground (arith, lookup-nil {V = List ℕ} op));
  sized = λ op cs e. absurd (ground (arith, lookup-nil {V = List ℕ} op));
  parted = λ k n e. absurd (ground (arith, lookup-nil {V = ℕ} k));
}

lookup-insert_inv :
    {A : Type 0} (k j : String) (v w : A) (d : Dict String A)
    → lookup j (insert k v d) ≡ some w
    → ((k ≡ j) × (v ≡ w)) ⊎ (lookup j d ≡ some w)
lookup-insert_inv k j v w d e = elim (Bool-cases (k == j)) [
  | inl same ↦ let at = lookup-insert k j v d in inl ((eq_iff k j).0 same, ground arith)
  | inr differs ↦ let at = lookup-insert k j v d in inr (ground arith)
]

lookup-insert_known :
    {A : Type 0} (k j : String) (v : A) (d : Dict String A)
    → (k ≡ j) ⊎ ((w : A) × (lookup j d ≡ some w))
    → (w : A) × (lookup j (insert k v d) ≡ some w)
lookup-insert_known k j v d (inl same) =
    (v, subst (λ i. lookup i (insert k v d) ≡ some v) same (lookup-insert_self k v d))
lookup-insert_known k j v d (inr (w, found)) = elim (Bool-cases (k == j)) [
  | inl same ↦ (v, rw (lookup-insert k j v d, same) refl)
  | inr differs ↦ (w, rw (lookup-insert k j v d, differs) found)
]

length-add_to_buckets :
    (micros : ℕ) (bounds counters : List ℕ)
    → length counters ≡ length bounds
    → length (add_to_buckets micros bounds counters) ≡ length bounds
unfolding add_to_buckets
length-add_to_buckets micros [] counters same = same
length-add_to_buckets micros (bound ∷ bounds) [] same = same
length-add_to_buckets micros (bound ∷ bounds) (n ∷ counters) same =
    omega (arith, length-add_to_buckets micros bounds counters (omega arith))

length-buckets_at :
    (op : String) (m : HttpMetrics) → IsWhole m → length (buckets_at op m) ≡ length duration_buckets
unfolding new_bucket_counters
length-buckets_at op m whole = elim (Option-cases (lookup op m.duration_buckets_by_op)) [
  | inl missing ↦ rw missing refl
  | inr (cs, found) ↦ rw found (whole.sized op cs found)
]

classify_operation-unparted :
    (method path : String) → cut b'|' (classify_operation method path) ≡ none
unfolding classify_operation cut
classify_operation-unparted method path = chosen _ _
  where
    chosen :
        (ingests reads : Bool)
        → cut b'|' (if ingests then "ingest" else if reads then "proof" else "other") ≡ none
    chosen true reads = refl
    chosen false true = refl
    chosen false false = refl

cut-key :
    (op class : String)
    → cut b'|' op ≡ none
    → cut b'|' (String.◌++◌ op (String.◌++◌ "|" class)) ≡ some (op, class)
cut-key op class whole =
    rw (cons-append "|" "" class, nil-append class) (cut-append b'|' "|" op class refl whole)

observe-IsWhole : (o : Observation) (m : HttpMetrics) → IsWhole m → IsWhole (observe o m)
unfolding observe add_at
observe-IsWhole o m whole =
    let op = classify_operation o.method o.path in
    let class = classify_status_class o.status in
    let buckets = add_to_buckets o.micros duration_buckets (buckets_at op m) in
    record {
      counted = λ k cs e.
          lookup-insert_known op k _ m.duration_count_by_operation
            (elim (lookup-insert_inv op k buckets cs m.duration_buckets_by_op e) [
              | inl (same, _) ↦ inl same
              | inr old ↦ inr (whole.counted k cs old)
            ]);
      sized = λ k cs e. elim (lookup-insert_inv op k buckets cs m.duration_buckets_by_op e) [
        | inl (_, same) ↦
            ap length (sym same)
            ∙ length-add_to_buckets o.micros duration_buckets (buckets_at op m)
                (length-buckets_at op m whole)
        | inr old ↦ whole.sized k cs old
      ];
      parted = λ k n e.
          elim (lookup-insert_inv (String.◌++◌ op (String.◌++◌ "|" class)) k _ n
            m.requests_by_operation_status e) [
              | inl (same, _) ↦ (
                (op, class),
                ap (cut b'|') (sym same)
                    ∙ cut-key op class (classify_operation-unparted o.method o.path),
              )
              | inr old ↦ whole.parted k n old
            ];
    }

pub observe_all-IsWhole : (os : List Observation) → IsWhole (observe_all os)
unfolding observe_all
observe_all-IsWhole [] = IsWhole-no_metrics
observe_all-IsWhole (o ∷ os) = observe-IsWhole o (observe_all os) (observe_all-IsWhole os)
