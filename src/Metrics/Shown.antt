-- ===== src/Metrics/Shown.antt =====
-- The page of the counters, and the counters that it reads.
use Prim.Native.String
use merkle_evidence_vault.Prelude.{
  Key, List, Option, String, [], arith, length, none, refl, some, ℕ, ◌∷◌, ◌≡◌, string_key,
}
use merkle_evidence_vault.Prelude.Int.{int_key}
use merkle_evidence_vault.Prelude.Sorted.{All}
use merkle_evidence_vault.Prelude.Dict.{Dict, lookup}
use merkle_evidence_vault.Http.{new_response, set_header, write_text}
use merkle_evidence_vault.Metrics.{HttpMetrics, Observation, duration_buckets}
use merkle_evidence_vault.Metrics.Laws.{observe_all}
use merkle_evidence_vault.Metrics.Page.{
  Floats, Orders, all_texts, bucket_lines, bucket_sample, count_line, entry, heading, infinity_line,
  metrics_handler, operation_buckets, operation_line, page, page_parts, range, status_line,
  sum_line, then_text,
}
use merkle_evidence_vault.Metrics.Whole.{IsWhole, observe_all-IsWhole}

abbrev pub IsText : Option String → Type 0
IsText o = (s : String) × (o ≡ some s)

then_text-IsText : (a b : Option String) → IsText a → IsText b → IsText (then_text a b)
unfolding then_text
then_text-IsText a b (s, ea) (t, eb) = (String.◌++◌ s t, rw (ea, eb) refl)

range-IsText :
    {K A : Type 0} ⦃key : Key K⦄ (body : K → A → Option String) (m : Dict K A) (order : List K)
    → ((k : K) (a : A) → lookup k m ≡ some a → IsText (body k a))
    → IsText (range body m order)
unfolding range
range-IsText body m [] h = ("", refl)
range-IsText {A = A} body m (k ∷ order) h =
    then_text-IsText (entry body k (lookup k m)) (range body m order) (shown (lookup k m) refl)
      (range-IsText body m order h)
  where
    shown : (found : Option A) → lookup k m ≡ found → IsText (entry body k found)
    shown none e = ("", refl)
    shown (some a) e = h k a e

bucket_lines-IsText :
    (f : Floats) (op : String) (bounds counters : List ℕ)
    → length counters ≡ length bounds
    → IsText (bucket_lines f op bounds counters)
unfolding bucket_lines then_text
bucket_lines-IsText f op [] counters same = ("", refl)
bucket_lines-IsText f op (le ∷ bounds) [] same = absurd (omega arith)
bucket_lines-IsText f op (le ∷ bounds) (n ∷ counters) same =
    then_text-IsText (some (bucket_sample op (f.bound le) n)) (bucket_lines f op bounds counters)
      (bucket_sample op (f.bound le) n, refl)
      (bucket_lines-IsText f op bounds counters (omega arith))

operation_buckets-IsText :
    (f : Floats) (m : HttpMetrics) (op : String) (cs : List ℕ)
    → IsWhole m
    → lookup op m.duration_buckets_by_op ≡ some cs
    → IsText (operation_buckets f m op cs)
unfolding operation_buckets
operation_buckets-IsText f m op cs whole found =
    let (n, counted) = whole.counted op cs found in
    then_text-IsText (bucket_lines f op duration_buckets cs)
      (infinity_line op (lookup op m.duration_count_by_operation))
      (bucket_lines-IsText f op duration_buckets cs (whole.sized op cs found))
      (rw (counted, infinity_line) (_, refl))

operation_line-IsText :
    (m : HttpMetrics) (k : String) (n : ℕ)
    → IsWhole m
    → lookup k m.requests_by_operation_status ≡ some n
    → IsText (operation_line k n)
operation_line-IsText m k n whole found =
    let (p, parts) = whole.parted k n found in rw (operation_line, parts) (_, refl)

all_texts-IsText : (os : List (Option String)) → All IsText os → IsText (all_texts os)
unfolding all_texts
all_texts-IsText [] h = ("", refl)
all_texts-IsText (o ∷ os) (first, rest) =
    then_text-IsText o (all_texts os) first (all_texts-IsText os rest)

pub page-IsText :
    (f : Floats) (orders : Orders) (m : HttpMetrics) → IsWhole m → IsText (page f orders m)
unfolding page page_parts heading
page-IsText f orders m whole =
    let statuses =
      range-IsText (status_line f) m.requests_by_status orders.statuses (λ k n found. (_, refl)) in
    let operations =
      range-IsText operation_line m.requests_by_operation_status orders.operation_statuses
        (λ k n found. operation_line-IsText m k n whole found) in
    let buckets =
      range-IsText (operation_buckets f m) m.duration_buckets_by_op orders.buckets
        (λ op cs found. operation_buckets-IsText f m op cs whole found) in
    let sums =
      range-IsText (sum_line f) m.duration_sum_by_operation orders.sums (λ k n found. (_, refl)) in
    let counts =
      range-IsText count_line m.duration_count_by_operation orders.counts
        (λ k n found. (_, refl)) in
    all_texts-IsText (page_parts f orders m) (
      (_, refl),
      (
        (_, refl),
        (
          (_, refl),
          (
            (_, refl),
            (
              (_, refl),
              (
                (_, refl),
                (
                  (_, refl),
                  (
                    statuses,
                    (
                      (_, refl),
                      (
                        operations,
                        ((_, refl), (buckets, ((_, refl), (sums, ((_, refl), (counts, tt)))))),
                      ),
                    ),
                  ),
                ),
              ),
            ),
          ),
        ),
      ),
    )

-- After any requests and whatever the orders of the loops, the handler answers with the page: the
-- code meets no missing counter, no short list of buckets and no key without its separator.
pub metrics_handler-answers :
    (f : Floats) (orders : Orders) (os : List Observation)
    → (text : String) × (page f orders (observe_all os) ≡ some text)
      × (metrics_handler f orders (observe_all os) new_response
          ≡ some (
              write_text text (set_header "Content-Type" "text/plain; version=0.0.4" new_response)))
unfolding metrics_handler
metrics_handler-answers f orders os =
    let (text, shown) = page-IsText f orders (observe_all os) (observe_all-IsWhole os) in
    (text, shown, rw (shown, metrics_handler) refl)
