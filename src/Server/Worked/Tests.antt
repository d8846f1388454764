-- ===== src/Server/Worked/Tests.antt =====
-- A server that takes an upload, commits it, and shows its counters.
use merkle_evidence_vault.Prelude.{
  List, String, [], arith, length, refl, some, ◌<◌, ◌^◌, ◌∷◌, string_key,
}
use merkle_evidence_vault.Prelude.Dict.{lookup}
use merkle_evidence_vault.Http.{Request}
use merkle_evidence_vault.Store.Memory.{memory_api}
use merkle_evidence_vault.Vault.Steps.{Event, start}
use merkle_evidence_vault.Vault.Runs.{AllProper}
use merkle_evidence_vault.Vault.Heads.{IsValid}
use merkle_evidence_vault.Auth.Tests.{get_audit_request, production, service}
use merkle_evidence_vault.Metrics.{no_metrics}
use merkle_evidence_vault.Server.{routes}
use merkle_evidence_vault.Server.Tests.{get_metrics, supplies, whole_paths}
use merkle_evidence_vault.Server.Worked.{
  Work, events, request, round, route_events, work_all, work_all-IsValid,
}

abbrev post_upload : Request
post_upload = record get_audit_request {
  method = "POST";
  path = "/api/v1/evidence";
  body = some (record { content_type = "text/plain"; payload = 1 ∷ [] });
}

abbrev works : List Work
works = request supplies post_upload ∷ round [] ("a" ∷ []) ∷ request supplies get_metrics ∷ []

abbrev works_events : List Event
works_events = events memory_api whole_paths service production works

works-AllProper : AllProper memory_api works_events start
unfolding route_events routes lookup
works-AllProper = (refl, tt, (tt, tt, tt))

few_events : length works_events < 2 ^ 63
unfolding route_events routes
few_events = omega arith

work_all-IsValid_example :
    (log : List String) × IsValid
      (work_all memory_api whole_paths service production works (start, no_metrics)).0
      log
work_all-IsValid_example =
    work_all-IsValid memory_api whole_paths service production works works-AllProper few_events
