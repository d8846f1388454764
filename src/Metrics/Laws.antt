-- ===== src/Metrics/Laws.antt =====
-- What the counters hold after a sequence of requests.
use merkle_evidence_vault.Prelude.{
  Bool-cases, List, String, [], ap, arith, eq_iff, if◌then◌else◌, inl, inr, leb, length, map, refl,
  ℕ, ◌%◌, ◌&&◌, ◌+◌, ◌==◌, ◌^◌, ◌∙◌, ◌∷◌, ◌≡◌, string_key,
}
use merkle_evidence_vault.Prelude.Dict.{Dict, insert, lookup, lookup-insert, lookup-nil}
use merkle_evidence_vault.Prelude.Int.{eqb_ℤ, eqb_ℤ_iff, ℤ, int_key}
use merkle_evidence_vault.Text.{or_else}
use merkle_evidence_vault.Metrics.{
  HttpMetrics, Observation, add_at, add_to_buckets, add_u64, buckets_at, classify_operation,
  duration_buckets, new_bucket_counters, no_metrics, observe,
}

-- The requests, the latest first.
unfoldable pub observe_all : List Observation → HttpMetrics
observe_all [] = no_metrics
observe_all (o ∷ os) = observe o (observe_all os)

abbrev operation : Observation → String
operation o = classify_operation o.method o.path

-- The number of requests of an operation, their durations, and the number of those that took at most
-- so long.
abbrev pub seen : String → List Observation → ℕ
seen op [] = 0
seen op (o ∷ os) = if operation o == op then 1 + seen op os else seen op os

abbrev pub time_spent : String → List Observation → ℕ
time_spent op [] = 0
time_spent op (o ∷ os) = if operation o == op then o.micros + time_spent op os else time_spent op os

abbrev pub seen_within : String → ℕ → List Observation → ℕ
seen_within op bound [] = 0
seen_within op bound (o ∷ os) =
    if operation o == op && leb o.micros bound
    then 1 + seen_within op bound os
    else seen_within op bound os

at-add_at :
    (k j : String) (n : ℕ) (d : Dict String ℕ)
    → or_else 0 (lookup j (add_at k n d))
      ≡ (if k == j then add_u64 (or_else 0 (lookup k d)) n else or_else 0 (lookup j d))
unfolding add_at
at-add_at k j n d = ground (arith, lookup-insert k j (add_u64 (or_else 0 (lookup k d)) n) d)

counter-add_at :
    (k op : String) (n f : ℕ) (d : Dict String ℕ)
    → or_else 0 (lookup op d) ≡ f % 2 ^ 64
    → or_else 0 (lookup op (add_at k n d)) ≡ (if k == op then n + f else f) % 2 ^ 64
counter-add_at k op n f d h = elim (Bool-cases (k == op)) [
  | inl same ↦
      let at : or_else 0 (lookup k d) ≡ f % 2 ^ 64 =
        ap (λ i. or_else 0 (lookup i d)) ((eq_iff k op).0 same) ∙ h in
      rw (at-add_at k op n d, same) (omega arith)
  | inr differs ↦ rw (at-add_at k op n d, differs) h
]

-- After any requests, the counters of the process and of an operation are, modulo 2^64, the number of
-- the requests, the number of those of the operation, and the microseconds that the latter took.
pub observe_all-counts :
    (op : String) (os : List Observation)
    → ((observe_all os).requests_total ≡ length os % 2 ^ 64)
      × (or_else 0 (lookup op (observe_all os).duration_count_by_operation) ≡ seen op os % 2 ^ 64)
      × (or_else 0 (lookup op (observe_all os).duration_sum_by_operation)
          ≡ time_spent op os % 2 ^ 64)
unfolding observe_all observe
observe_all-counts op [] = (refl, rw lookup-nil refl, rw lookup-nil refl)
observe_all-counts op (o ∷ os) =
    let (total, counted, spent) = observe_all-counts op os in
    let m = observe_all os in
    let same = eq_iff (operation o) op in
    (
      omega arith,
      counter-add_at (operation o) op 1 (seen op os) m.duration_count_by_operation counted,
      counter-add_at (operation o) op o.micros (time_spent op os) m.duration_sum_by_operation spent,
    )

-- The number of requests that were answered with a status.
abbrev pub with_status : ℤ → List Observation → ℕ
with_status code [] = 0
with_status code (o ∷ os) =
    if eqb_ℤ o.status code then 1 + with_status code os else with_status code os

counter-add_status :
    (k code : ℤ) (f : ℕ) (d : Dict ℤ ℕ)
    → or_else 0 (lookup code d) ≡ f % 2 ^ 64
    → or_else 0 (lookup code (add_at k 1 d)) ≡ (if eqb_ℤ k code then 1 + f else f) % 2 ^ 64
unfolding add_at
counter-add_status k code f d h = elim (Bool-cases (eqb_ℤ k code)) [
  | inl same ↦
      let at : or_else 0 (lookup k d) ≡ f % 2 ^ 64 =
        ap (λ i. or_else 0 (lookup i d)) ((eqb_ℤ_iff k code).0 same) ∙ h in
      rw (lookup-insert k code (add_u64 (or_else 0 (lookup k d)) 1) d, same) (omega arith)
  | inr differs ↦ rw (lookup-insert k code (add_u64 (or_else 0 (lookup k d)) 1) d, differs) h
]

-- After any requests, the counter of a status is, modulo 2^64, the number of the requests that were
-- answered with it.
pub observe_all-statuses :
    (code : ℤ) (os : List Observation)
    → or_else 0 (lookup code (observe_all os).requests_by_status) ≡ with_status code os % 2 ^ 64
unfolding observe_all observe
observe_all-statuses code [] = rw lookup-nil refl
observe_all-statuses code (o ∷ os) =
    counter-add_status o.status code (with_status code os) (observe_all os).requests_by_status
      (observe_all-statuses code os)

-- The buckets where each holds a count modulo 2^64.
abbrev counted_within : (ℕ → ℕ) → List ℕ → List ℕ
counted_within count bounds = map (λ bound. count bound % 2 ^ 64) bounds

add_to_buckets-counted :
    (micros : ℕ) (count : ℕ → ℕ) (bounds : List ℕ)
    → add_to_buckets micros bounds (counted_within count bounds)
      ≡ counted_within (λ bound. if leb micros bound then 1 + count bound else count bound) bounds
unfolding add_to_buckets
add_to_buckets-counted micros count [] = refl
add_to_buckets-counted micros count (bound ∷ bounds) =
    let rest = add_to_buckets-counted micros count bounds in
    let head : (if leb micros bound then add_u64 (count bound % 2 ^ 64) 1 else count bound % 2 ^ 64)
        ≡ (if leb micros bound then 1 + count bound else count bound) % 2 ^ 64 =
      elim (Bool-cases (leb micros bound)) [
        | inl within ↦ rw within (omega arith)
        | inr longer ↦ rw longer refl
      ] in
    λ i. head i ∷ rest i

buckets-insert :
    (k op : String) (micros : ℕ) (d : Dict String (List ℕ)) (count : ℕ → ℕ) (new bounds : List ℕ)
    → or_else new (lookup op d) ≡ counted_within count bounds
    → or_else new (lookup op (insert k (add_to_buckets micros bounds (or_else new (lookup k d))) d))
      ≡ counted_within
          (λ bound. if k == op && leb micros bound then 1 + count bound else count bound)
          bounds
buckets-insert k op micros d count new bounds h =
    let added = add_to_buckets micros bounds (or_else new (lookup k d)) in
    elim (Bool-cases (k == op)) [
      | inl same ↦
          let at : or_else new (lookup k d) ≡ counted_within count bounds =
            ap (λ i. or_else new (lookup i d)) ((eq_iff k op).0 same) ∙ h in
          rw (lookup-insert k op added d, same)
            (ap (add_to_buckets micros bounds) at ∙ add_to_buckets-counted micros count bounds)
      | inr differs ↦ rw (lookup-insert k op added d, differs) h
    ]

-- After any requests, each bucket of an operation holds, modulo 2^64, the number of its requests
-- that took at most as long as the bucket's bound: the buckets are cumulative.
pub observe_all-buckets :
    (op : String) (os : List Observation)
    → buckets_at op (observe_all os)
      ≡ map (λ bound. seen_within op bound os % 2 ^ 64) duration_buckets
unfolding observe_all observe
observe_all-buckets op [] = rw lookup-nil (unfold new_bucket_counters in refl)
observe_all-buckets op (o ∷ os) =
    buckets-insert (operation o) op o.micros (observe_all os).duration_buckets_by_op
      (λ bound. seen_within op bound os) (new_bucket_counters duration_buckets) duration_buckets
      (observe_all-buckets op os)
