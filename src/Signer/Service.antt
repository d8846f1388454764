-- ===== src/Signer/Service.antt =====
-- services/checkpoint-svc/cmd/checkpoint/main.go and metrics/metrics.go: the start of the signing
-- service, the page of its counters, and what it answers to a request. The log entries, and the loop
-- of the ticker, which does nothing else, are left out.
use Prim.Native.String
use merkle_evidence_vault.Prelude.{
  List, Option, String, [], if◌then◌else◌, none, some, ℕ, ◌+◌, ◌==◌, ◌∷◌, string_key,
}
use merkle_evidence_vault.Prelude.Int.{negsuc, pos, ℤ, int_key}
use merkle_evidence_vault.Text.{concat}
use merkle_evidence_vault.Text.Decimal.{decimal}
use merkle_evidence_vault.Http.{Response, set_header, write_text}
use merkle_evidence_vault.Signer.{
  Made, Platform, SignMetrics, Signer, choose_signer, failed, made, sign_endpoint,
}

-- `%d` of an `int64`
unfoldable pub int_text : ℤ → String
unfolding decimal
int_text (pos n) = decimal n
int_text (negsuc n) = String.◌++◌ "-" (decimal (n + 1))

unfoldable pub counters_page : SignMetrics → String
unfolding concat int_text decimal
counters_page m = concat (
    "# HELP checkpoint_svc_sign_requests_total Total number of /sign requests.\n"
    ∷ "# TYPE checkpoint_svc_sign_requests_total counter\ncheckpoint_svc_sign_requests_total "
    ∷ decimal m.requests
    ∷ "\n# HELP checkpoint_svc_sign_failures_total Total number of failed /sign requests.\n"
    ∷ "# TYPE checkpoint_svc_sign_failures_total counter\ncheckpoint_svc_sign_failures_total "
    ∷ decimal m.failures
    ∷ "\n# HELP checkpoint_svc_last_sign_success_unixtime "
    ∷ "Unix timestamp of the latest successful sign operation.\n"
    ∷ "# TYPE checkpoint_svc_last_sign_success_unixtime gauge\n"
    ∷ "checkpoint_svc_last_sign_success_unixtime "
    ∷ int_text m.last_success
    ∷ "\n"
    ∷ [])

-- `metrics.Handler`
unfoldable pub counters_handler : SignMetrics → Response → Response
unfolding counters_page
counters_handler m w =
    write_text (counters_page m) (set_header "Content-Type" "text/plain; version=0.0.4" w)

-- The service once `main` has started: the seconds between two ticks, and the signer with the address
-- that is listened on, none where there is no signer.
pub record Service : Type 0 where
  pub interval : ℕ
  pub listening : Option (Signer × String)

abbrev with_signer : String → Made Signer → Option (Signer × String)
with_signer addr (failed e) = none
with_signer addr (made s) = some (s, addr)

unfoldable pub start_service : Platform → String → String → Service
start_service p key_path addr = record {
  interval = if p.getenv "CHECKPOINT_INTERVAL_SECONDS" == "" then 300 else 60;
  listening = with_signer addr (choose_signer p key_path);
}

module _ (p : Platform) (not_found : Response → Response) where
  -- A request to the service, none where nothing listens. `not_found` is the answer of net/http to a
  -- path without a handler.
  unfoldable pub answer :
      Service
      → ℤ
      → (method path : String) → Option (List ℕ)
      → Response
      → SignMetrics
      → Option (SignMetrics × Response)
  unfolding counters_handler sign_endpoint
  answer service now method path body w m = elim service.listening [
    | none ↦ none
    | some (s, addr) ↦ some (
        if path == "/metrics"
        then (m, counters_handler m w)
        else if path == "/sign"
        then sign_endpoint p s now method body w m
        else (m, not_found w))
  ]
