-- ===== src/Metrics.antt =====
-- services/vault-api/middleware/metrics.go: the counters of the vault's API, and what the middleware
-- Metrics adds to them for a request.
--
-- The package's variables are one record. A counter is a `uint64`. A key of `by_status` is the number
-- whose decimal text the code takes. The bounds of the buckets are in microseconds: the code divides a
-- duration by a million and compares it with the bound in seconds, and the float of such a quotient is
-- at most the float of the bound exactly where the duration is at most the bound.
pub mod Laws
pub mod Page
pub mod Whole
pub mod Shown
mod Tests
use Prim.Native.String
use merkle_evidence_vault.Prelude.{
  Key, List, String, [], if◌then◌else◌, leb, map, ℕ, ◌%◌, ◌&&◌, ◌++◌, ◌+◌, ◌==◌, ◌^◌, ◌∷◌,
  string_key,
}
use merkle_evidence_vault.Prelude.Int.{ltb_ℤ, pos, ℤ, int_key}
use merkle_evidence_vault.Prelude.Dict.{Dict, insert, lookup}
use merkle_evidence_vault.Http.{Response}
use merkle_evidence_vault.Text.{has_prefix, has_suffix, or_else}

pub record HttpMetrics : Type 0 where
  pub requests_total : ℕ
  pub request_duration_micros : ℕ
  pub requests_by_status : Dict ℤ ℕ
  pub requests_by_operation_status : Dict String ℕ
  pub duration_sum_by_operation : Dict String ℕ
  pub duration_count_by_operation : Dict String ℕ
  pub duration_buckets_by_op : Dict String (List ℕ)

abbrev pub no_metrics : HttpMetrics
no_metrics = record {
  requests_total = 0;
  request_duration_micros = 0;
  requests_by_status = [];
  requests_by_operation_status = [];
  duration_sum_by_operation = [];
  duration_count_by_operation = [];
  duration_buckets_by_op = [];
}

-- The status that statusRecorder keeps: the code of the last call of WriteHeader, and 200 without one. A
-- write that sends the header by itself does not pass through the recorder.
abbrev pub recorded_status : Response → ℕ
recorded_status w = or_else 200 w.last_code

-- A request that the next handler has answered, with the recorded status and the microseconds that it
-- took.
pub record Observation : Type 0 where
  pub method : String
  pub path : String
  pub status : ℤ
  pub micros : ℕ

abbrev pub duration_buckets : List ℕ
duration_buckets =
    10000 ∷ 25000 ∷ 50000 ∷ 100000 ∷ 250000 ∷ 500000 ∷ 1000000 ∷ 2500000 ∷ 5000000 ∷ []

unfoldable pub classify_operation : String → String → String
classify_operation method path =
    if method == "POST" && path == "/api/v1/evidence"
    then "ingest"
    else if method == "GET" && has_prefix path "/api/v1/evidence/" && has_suffix path "/proof"
    then "proof"
    else "other"

unfoldable pub classify_status_class : ℤ → String
classify_status_class status =
    if ltb_ℤ (pos 499) status
    then "5xx"
    else if ltb_ℤ (pos 399) status
    then "4xx"
    else if ltb_ℤ (pos 299) status
    then "3xx"
    else "2xx"

-- atomic.AddUint64
abbrev pub add_u64 : ℕ → ℕ → ℕ
add_u64 n m = (n + m) % 2 ^ 64

-- LoadOrStore of a new counter, and an addition to the one that is there then.
unfoldable pub add_at : {K : Type 0} → ⦃key : Key K⦄ → K → ℕ → Dict K ℕ → Dict K ℕ
add_at k n counters = insert k (add_u64 (or_else 0 (lookup k counters)) n) counters

unfoldable pub new_bucket_counters : List ℕ → List ℕ
new_bucket_counters bounds = map (λ bound. 0) bounds

-- The loop over the bounds: a bucket counts the durations up to its bound.
unfoldable pub add_to_buckets : ℕ → List ℕ → List ℕ → List ℕ
add_to_buckets micros [] counters = counters
add_to_buckets micros (bound ∷ bounds) [] = []
add_to_buckets micros (bound ∷ bounds) (n ∷ counters) =
    (if leb micros bound then add_u64 n 1 else n) ∷ add_to_buckets micros bounds counters

abbrev pub buckets_at : String → HttpMetrics → List ℕ
buckets_at op m =
    or_else (new_bucket_counters duration_buckets) (lookup op m.duration_buckets_by_op)

unfoldable pub observe : Observation → HttpMetrics → HttpMetrics
observe o m =
    let op = classify_operation o.method o.path in
    let class = classify_status_class o.status in
    record {
      requests_total = add_u64 m.requests_total 1;
      request_duration_micros = add_u64 m.request_duration_micros o.micros;
      requests_by_status = add_at o.status 1 m.requests_by_status;
      requests_by_operation_status =
          add_at (String.◌++◌ op (String.◌++◌ "|" class)) 1 m.requests_by_operation_status;
      duration_sum_by_operation = add_at op o.micros m.duration_sum_by_operation;
      duration_count_by_operation = add_at op 1 m.duration_count_by_operation;
      duration_buckets_by_op =
          insert op (add_to_buckets o.micros duration_buckets (buckets_at op m))
            m.duration_buckets_by_op;
    }
