-- ===== src/Server/Tests.antt =====
-- The server at concrete inputs: a production environment, and a router that compares whole paths.
use mathlib.Core.List.{Memᴰ}
use merkle_evidence_vault.Prelude.{
  Bool, List, Option, String, [], false, if◌then◌else◌, none, refl, some, true, ◌&&◌, ◌==◌, ◌||◌,
  ◌∷◌, ◌≡◌, string_key,
}
use merkle_evidence_vault.Http.{Request, Response, set_header, write_header}
use merkle_evidence_vault.Store.Memory.{memory_api}
use merkle_evidence_vault.Vault.Steps.{start}
use merkle_evidence_vault.Auth.Startup.{app_env_of, load_startup_auth_config}
use merkle_evidence_vault.Auth.Tests.{get_audit_request, production, service, starts}
use merkle_evidence_vault.Metrics.Page.{Floats, Orders}
use merkle_evidence_vault.Text.Decimal.{decimal}
use merkle_evidence_vault.Metrics.{HttpMetrics, Observation, no_metrics}
use merkle_evidence_vault.Text.{trim_space}
use merkle_evidence_vault.Auth.{first_non_empty_env}
use merkle_evidence_vault.Prelude.Dict.{insert, lookup, lookup-insert}
use merkle_evidence_vault.Server.{
  Route, Router, Supplies, chosen, metrics_page, plain, read_audit, routes, security_headers, serve,
}
use merkle_evidence_vault.Server.Observed.{sent, serve_all}
use merkle_evidence_vault.Prelude.Int.{int_key}
use merkle_evidence_vault.Vault.{Host, VaultState}
use merkle_evidence_vault.Server.Guarded.{IsGuarded, serve-IsGuarded}
use merkle_evidence_vault.Server.Headers.{IsProtected, KeepsHeader, serve-IsProtected}

abbrev pub fits : String → String → Route → Bool
fits method path r = (r.method == "" || r.method == method) && r.pattern == path

abbrev pub first_fit : List Route → String → String → Option Route
first_fit [] method path = none
first_fit (r ∷ rs) method path =
    let rest = first_fit rs method path in if fits method path r then some r else rest

abbrev pub whole_paths : Router
whole_paths = record { choose = first_fit; no_route = λ method path w. write_header 404 w }

abbrev pub offline : Host
offline = record {
  getenv = λ name. "";
  post = λ url payload. none;
  marshal_payload = λ size root. root;
  decode_base64 = λ text. none;
  ed25519_verify = λ key payload sig. false;
}

abbrev pub plain_texts : Floats
plain_texts = record {
  seconds = decimal;
  average = λ micros count. decimal micros;
  bound = decimal;
  itoa = λ status. "";
}

abbrev pub no_visits : Orders
no_visits = record { statuses = []; operation_statuses = []; buckets = []; sums = []; counts = [] }

abbrev pub supplies : Supplies
supplies = record {
  id = "a";
  now = 1;
  now' = 2;
  order = [];
  host = offline;
  floats = plain_texts;
  visits = no_visits;
  micros = 5;
}

abbrev audit_route : Route
audit_route = record {
  method = "GET";
  pattern = "/api/v1/audit";
  guarded = true;
  operation = read_audit;
}

chosen_route : chosen memory_api whole_paths service production get_audit_request ≡ some audit_route
unfolding routes
chosen_route = refl

listed : Memᴰ audit_route routes
unfolding routes
listed = Memᴰ.tail (Memᴰ.tail (Memᴰ.tail (Memᴰ.tail (Memᴰ.tail (Memᴰ.tail (Memᴰ.head refl))))))

is_production : (load_startup_auth_config production).is_prod_startup ≡ true
unfolding load_startup_auth_config app_env_of trim_space first_non_empty_env lookup
is_production = refl

serve-IsGuarded_example :
    IsGuarded memory_api whole_paths service production no_metrics read_audit supplies
      get_audit_request start
      (
        (serve memory_api whole_paths service production supplies get_audit_request
            (start, no_metrics)).0.0,
        (serve memory_api whole_paths service production supplies get_audit_request
            (start, no_metrics)).1,
      )
serve-IsGuarded_example =
    serve-IsGuarded memory_api whole_paths service production audit_route supplies get_audit_request
      start no_metrics starts is_production chosen_route listed refl

-- A router whose answer sets the headers that http.Error sets.
abbrev error_text : Response → Response
error_text w = write_header 404 (
    set_header "X-Content-Type-Options" "nosniff"
      (set_header "Content-Type" "text/plain; charset=utf-8" w))

abbrev http_errors : Router
http_errors = record { choose = first_fit; no_route = λ method path w. error_text w }

http_errors-KeepsHeader :
    (name : String)
    → ("Content-Type" == name) ≡ false
    → ("X-Content-Type-Options" == name) ≡ false
    → KeepsHeader http_errors name
unfolding set_header write_header
http_errors-KeepsHeader name plain other method path w secure =
    let typed = insert "Content-Type" "text/plain; charset=utf-8" w.headers in
    rw
      (
        lookup-insert "X-Content-Type-Options" name "nosniff" typed,
        other,
        lookup-insert "Content-Type" name "text/plain; charset=utf-8" w.headers,
        plain,
      )
      secure

http_errors-sets_again : KeepsHeader http_errors "X-Content-Type-Options"
unfolding set_header write_header security_headers
http_errors-sets_again method path w secure =
    let typed = insert "Content-Type" "text/plain; charset=utf-8" w.headers in
    rw (lookup-insert "X-Content-Type-Options" "X-Content-Type-Options" "nosniff" typed)
      (unfold lookup insert in refl)

abbrev lost_request : Request
lost_request = record get_audit_request { path = "/nowhere" }

serve-IsProtected_example :
    IsProtected
      (serve memory_api http_errors service production supplies lost_request (start, no_metrics)).1
serve-IsProtected_example =
    serve-IsProtected memory_api http_errors service production supplies lost_request start
      no_metrics
      (
        http_errors-KeepsHeader "X-Frame-Options" refl refl,
        (
          http_errors-sets_again,
          (
            http_errors-KeepsHeader "Referrer-Policy" refl refl,
            (http_errors-KeepsHeader "Content-Security-Policy" refl refl, tt),
          ),
        ),
      )

abbrev pub get_metrics : Request
get_metrics = record get_audit_request { path = "/metrics" }

abbrev metrics_route : Route
metrics_route = record {
  method = "";
  pattern = "/metrics";
  guarded = false;
  operation = metrics_page;
}

abbrev before_metrics : List (Supplies × Request)
before_metrics = (supplies, get_metrics) ∷ (supplies, get_audit_request) ∷ []

abbrev sent_before : List Observation
sent_before = sent memory_api whole_paths service production before_metrics start

abbrev served_before : VaultState memory_api.State × HttpMetrics
served_before = serve_all memory_api whole_paths service production before_metrics start
