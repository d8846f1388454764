-- ===== src/Metrics/Page.antt =====
-- services/vault-api/middleware/metrics.go: MetricsHandler, the page of the counters.
--
-- The result is `none` where the code panics: at a missing counter, a counter slice that is too short,
-- and a key without "|". The order in which each `Range` visits its map is an argument.
use Prim.Native.String
use merkle_evidence_vault.Prelude.{Key, List, Option, String, [], none, some, ℕ, ◌∷◌, string_key}
use merkle_evidence_vault.Prelude.Int.{ℤ, int_key}
use merkle_evidence_vault.Prelude.Dict.{Dict, lookup}
use merkle_evidence_vault.Text.{concat, cut}
use merkle_evidence_vault.Text.Decimal.{decimal}
use merkle_evidence_vault.Http.{Response, set_header, write_text}
use merkle_evidence_vault.Metrics.{HttpMetrics, duration_buckets}

-- Floats as text: `%f` of microseconds in seconds, and of such a sum divided by a count, `%g` of a
-- bucket's bound, and the decimal text of a status.
pub record Floats : Type 0 where
  pub seconds : ℕ → String
  pub average : ℕ → ℕ → String
  pub bound : ℕ → String
  pub itoa : ℤ → String

-- The orders of the five loops.
pub record Orders : Type 0 where
  pub statuses : List ℤ
  pub operation_statuses : List String
  pub buckets : List String
  pub sums : List String
  pub counts : List String

-- Two texts that are written one after the other.
unfoldable pub then_text : Option String → Option String → Option String
then_text none rest = none
then_text (some s) none = none
then_text (some s) (some t) = some (String.◌++◌ s t)

unfoldable pub heading : String → String → String → Option String
unfolding concat
heading name kind help =
    some (concat ("# HELP " ∷ name ∷ " " ∷ help ∷ "\n# TYPE " ∷ name ∷ " " ∷ kind ∷ "\n" ∷ []))

unfoldable pub sample : String → List (String × String) → String → String
unfolding concat
sample name [] value = concat (name ∷ " " ∷ value ∷ "\n" ∷ [])
sample name ((k, v) ∷ []) value = concat (name ∷ "{" ∷ k ∷ "=\"" ∷ v ∷ "\"} " ∷ value ∷ "\n" ∷ [])
sample name ((k, v) ∷ (k', v') ∷ rest) value =
    concat (name ∷ "{" ∷ k ∷ "=\"" ∷ v ∷ "\"," ∷ k' ∷ "=\"" ∷ v' ∷ "\"} " ∷ value ∷ "\n" ∷ [])

abbrev pub entry : {K A : Type 0} → (K → A → Option String) → K → Option A → Option String
entry body k none = some ""
entry body k (some v) = body k v

-- A `Range` in a given order.
unfoldable pub range :
    {K A : Type 0} → ⦃key : Key K⦄ → (K → A → Option String) → Dict K A → List K → Option String
unfolding then_text
range body m [] = some ""
range body m (k ∷ order) = then_text (entry body k (lookup k m)) (range body m order)

abbrev pub status_line : Floats → ℤ → ℕ → Option String
status_line f status count =
    some
      (sample "vault_api_http_requests_by_status" (("status", f.itoa status) ∷ []) (decimal count))

abbrev pub operation_line : String → ℕ → Option String
operation_line k count = elim (cut b'|' k) [
  | none ↦ none
  | some (operation, class) ↦ some (
      sample "vault_api_http_requests_operation_total"
        (("operation", operation) ∷ ("status_class", class) ∷ []) (decimal count))
]

abbrev pub bucket_sample : String → String → ℕ → String
bucket_sample op bound count =
    sample "vault_api_http_request_duration_seconds_bucket" (("operation", op) ∷ ("le", bound) ∷ [])
      (decimal count)

unfoldable pub bucket_lines : Floats → String → List ℕ → List ℕ → Option String
unfolding then_text
bucket_lines f op [] counters = some ""
bucket_lines f op (le ∷ bounds) [] = none
bucket_lines f op (le ∷ bounds) (n ∷ counters) =
    then_text (some (bucket_sample op (f.bound le) n)) (bucket_lines f op bounds counters)

abbrev pub infinity_line : String → Option ℕ → Option String
infinity_line op none = none
infinity_line op (some count) = some (bucket_sample op "+Inf" count)

unfoldable pub operation_buckets : Floats → HttpMetrics → String → List ℕ → Option String
unfolding bucket_lines then_text
operation_buckets f m op counters =
    then_text (bucket_lines f op duration_buckets counters)
      (infinity_line op (lookup op m.duration_count_by_operation))

abbrev pub sum_line : Floats → String → ℕ → Option String
sum_line f op micros = some (
    sample "vault_api_http_request_duration_seconds_sum_by_operation" (("operation", op) ∷ [])
      (f.seconds micros))

abbrev pub count_line : String → ℕ → Option String
count_line op count = some (
    sample "vault_api_http_request_duration_seconds_count_by_operation" (("operation", op) ∷ [])
      (decimal count))

-- One after the other.
unfoldable pub all_texts : List (Option String) → Option String
unfolding then_text
all_texts [] = some ""
all_texts (s ∷ rest) = then_text s (all_texts rest)

-- What the handler writes, piece by piece.
unfoldable pub page_parts : Floats → Orders → HttpMetrics → List (Option String)
unfolding heading range operation_buckets sample
page_parts f orders m =
    heading "vault_api_http_requests_total" "counter"
      "Total number of HTTP requests handled by vault-api."
    ∷ some (sample "vault_api_http_requests_total" [] (decimal m.requests_total))
    ∷ heading "vault_api_http_request_duration_seconds_sum" "counter"
        "Sum of request durations in seconds."
    ∷ some (
        sample "vault_api_http_request_duration_seconds_sum" []
          (f.seconds m.request_duration_micros))
    ∷ heading "vault_api_http_request_duration_seconds_avg" "gauge"
        "Average request duration in seconds."
    ∷ some (
        sample "vault_api_http_request_duration_seconds_avg" []
          (f.average m.request_duration_micros m.requests_total))
    ∷ heading "vault_api_http_requests_by_status" "counter" "HTTP requests by status code."
    ∷ range (status_line f) m.requests_by_status orders.statuses
    ∷ heading "vault_api_http_requests_operation_total" "counter"
        "HTTP requests partitioned by operation and status class."
    ∷ range operation_line m.requests_by_operation_status orders.operation_statuses
    ∷ heading "vault_api_http_request_duration_seconds_bucket" "counter"
        "Cumulative request duration histogram buckets by operation."
    ∷ range (operation_buckets f m) m.duration_buckets_by_op orders.buckets
    ∷ heading "vault_api_http_request_duration_seconds_sum_by_operation" "counter"
        "Sum of request durations in seconds by operation."
    ∷ range (sum_line f) m.duration_sum_by_operation orders.sums
    ∷ heading "vault_api_http_request_duration_seconds_count_by_operation" "counter"
        "Number of observed requests by operation."
    ∷ range count_line m.duration_count_by_operation orders.counts
    ∷ []

unfoldable pub page : Floats → Orders → HttpMetrics → Option String
unfolding all_texts page_parts
page f orders m = all_texts (page_parts f orders m)

-- A panic in a handler ends the request without an answer.
unfoldable pub metrics_handler : Floats → Orders → HttpMetrics → Response → Option Response
unfolding page write_text set_header
metrics_handler f orders m w = elim (page f orders m) [
  | none ↦ none
  | some text ↦ some (write_text text (set_header "Content-Type" "text/plain; version=0.0.4" w))
]
