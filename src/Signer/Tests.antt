-- ===== src/Signer/Tests.antt =====
-- The signers at concrete inputs.
use merkle_evidence_vault.Prelude.{
  List, [], if◌then◌else◌, none, refl, replicate, some, true, ◌==◌, ◌∷◌, ◌≡◌, ◌⊎◌, string_key,
}
use merkle_evidence_vault.Prelude.Int.{negsuc, pos, int_key}
use merkle_evidence_vault.Http.{new_response}
use merkle_evidence_vault.Text.{concat}
use merkle_evidence_vault.Text.Decimal.{decimal}
use merkle_evidence_vault.Signer.Service.{answer, counters_page, int_text}
use merkle_evidence_vault.Signer.{
  Platform, SignMetrics, Signer, choose_signer, kms, kms_ref, made, new_kms_signer, sign_endpoint,
}
use merkle_evidence_vault.Signer.Laws.{
  IsKms, IsReady, SignAnswer, SignRequest, choose_signer-IsReady, sign_endpoint-answer,
}

-- A platform with a KMS key; a signature is the payload behind a zero.
abbrev platform : Platform
platform = record {
  decode_base64 = λ text. some (replicate 64 7);
  encode_base64 = λ bytes. "sig";
  ed25519_sign = λ key bytes. 0 ∷ bytes;
  getenv = λ name. if name == "KMS_PROVIDER" then "local-hsm-emulator" else "key-1";
  read_file = λ path. none;
}

abbrev emulator : Signer
emulator =
    kms "local-hsm-emulator" "key-1"
      (some (record { priv = replicate 64 7; key_ref = "local-hsm-emulator:key-1" }))

chosen : choose_signer platform "f" ≡ made emulator
unfolding choose_signer new_kms_signer kms_ref
chosen = refl

choose_signer-IsReady_example :
    IsReady emulator
    × ((platform.getenv "KMS_PROVIDER" ≡ "")
        ⊎ (platform.getenv "KMS_KEY_ID" ≡ "")
        ⊎ IsKms platform (platform.getenv "KMS_PROVIDER") (platform.getenv "KMS_KEY_ID") emulator)
choose_signer-IsReady_example = choose_signer-IsReady platform "f" emulator chosen

abbrev zero_metrics : SignMetrics
zero_metrics = record { requests = 0; failures = 0; last_success = pos 0 }

sign_endpoint-answer_example :
    SignAnswer platform emulator true
      (some (5 ∷ []))
      (sign_endpoint platform emulator (pos 9) "POST" (some (5 ∷ [])) new_response zero_metrics).1
sign_endpoint-answer_example =
    sign_endpoint-answer platform emulator refl (pos 9) "POST" (some (5 ∷ [])) zero_metrics

abbrev requests : List SignRequest
requests =
    record { now = pos 9; method = "GET"; body = none }
    ∷ record { now = pos 10; method = "POST"; body = some (5 ∷ []) }
    ∷ []

page_test :
    counters_page (record { requests = 12; failures = 0; last_success = negsuc 1 })
    ≡ concat (
        "# HELP checkpoint_svc_sign_requests_total Total number of /sign requests.\n"
        ∷ "# TYPE checkpoint_svc_sign_requests_total counter\n"
        ∷ "checkpoint_svc_sign_requests_total 12\n"
        ∷ "# HELP checkpoint_svc_sign_failures_total Total number of failed /sign requests.\n"
        ∷ "# TYPE checkpoint_svc_sign_failures_total counter\n"
        ∷ "checkpoint_svc_sign_failures_total 0\n"
        ∷ "# HELP checkpoint_svc_last_sign_success_unixtime Unix timestamp of the latest "
        ∷ "successful sign operation.\n"
        ∷ "# TYPE checkpoint_svc_last_sign_success_unixtime gauge\n"
        ∷ "checkpoint_svc_last_sign_success_unixtime -2\n" ∷ [])
unfolding counters_page int_text decimal concat
page_test = refl

-- Without a signer nothing listens, not even for the counters.
silent :
    (answer platform
      (λ w. w)
      (record { interval = 300; listening = none })
      (pos 9)
      "GET"
      "/metrics"
      none
      new_response
      zero_metrics)
    ≡ none
unfolding answer
silent = refl
