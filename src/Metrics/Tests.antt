-- ===== src/Metrics/Tests.antt =====
-- The counters at concrete inputs.
use merkle_evidence_vault.Prelude.{List, [], map, none, refl, ◌%◌, ◌^◌, ◌∷◌, ◌≡◌, string_key}
use merkle_evidence_vault.Prelude.Int.{pos, int_key}
use merkle_evidence_vault.Prelude.Dict.{lookup}
use merkle_evidence_vault.Text.{cut_prefix, cut_suffix}
use merkle_evidence_vault.Metrics.{
  Observation, buckets_at, classify_operation, classify_status_class, duration_buckets, no_metrics,
}
use merkle_evidence_vault.Metrics.Page.{Floats, Orders, page, range}
use merkle_evidence_vault.Metrics.Laws.{observe_all, observe_all-buckets, seen_within}

abbrev two_requests : List Observation
two_requests =
    record { method = "GET"; path = "/api/v1/evidence/7/proof"; status = pos 404; micros = 30000 }
    ∷ record { method = "POST"; path = "/api/v1/evidence"; status = pos 202; micros = 700 }
    ∷ []

class_tests :
    (classify_operation "GET" "/api/v1/evidence/7/proof" ≡ "proof")
    × (classify_operation "POST" "/api/v1/evidence" ≡ "ingest")
    × (classify_operation "GET" "/healthz" ≡ "other")
    × (classify_status_class (pos 404) ≡ "4xx")
unfolding classify_operation classify_status_class cut_prefix cut_suffix
class_tests = (refl, refl, refl, refl)

observe_all-buckets_example :
    buckets_at "proof" (observe_all two_requests)
    ≡ map (λ bound. seen_within "proof" bound two_requests % 2 ^ 64) duration_buckets
observe_all-buckets_example = observe_all-buckets "proof" two_requests

abbrev floats : Floats
floats = record {
  seconds = λ micros. "0.1";
  average = λ micros total. "0.1";
  bound = λ le. "1";
  itoa = λ status. "404";
}

abbrev orders : Orders
orders = record {
  statuses = pos 404 ∷ [];
  operation_statuses = "proof|4xx" ∷ [];
  buckets = "ingest" ∷ "proof" ∷ [];
  sums = "proof" ∷ [];
  counts = "ingest" ∷ [];
}

-- Buckets without a counter make the handler panic.
panics :
    page floats orders (record no_metrics { duration_buckets_by_op = ("proof", []) ∷ [] }) ≡ none
unfolding page lookup range
panics = refl
