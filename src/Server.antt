-- ===== src/Server.antt =====
-- services/vault-api/cmd/server/main.go: the routes of the vault's API, with the middlewares in front
-- of them, and services/vault-api/middleware/security_headers.go, auth.go and ratelimit.go.
--
-- The router is the package chi: `Router` chooses a route for a request, and answers where there is
-- none. What the handlers take from their surroundings is in `Supplies`.
pub mod Guarded
pub mod Headers
pub mod Observed
pub mod Start
pub mod Worked
mod Tests
use mathlib.Core.Option
use merkle_evidence_vault.Prelude.{
  Bool, List, Option, String, [], false, if◌then◌else◌, map, none, not, some, true, ℕ, ◌&&◌, ◌||◌,
  ◌∷◌,
}
use merkle_evidence_vault.Prelude.Int.{pos}
use merkle_evidence_vault.Text.{is_some}
use merkle_evidence_vault.Http.{
  Request, Response, new_response, set_header, write_header, write_text,
}
use merkle_evidence_vault.Store.{StoreApi}
use merkle_evidence_vault.Vault.{Host, VaultState}
use merkle_evidence_vault.Vault.Ingest.{get_audit, get_evidence, get_proof, ingest}
use merkle_evidence_vault.Vault.Checkpoint.{get_checkpoints_history, get_checkpoints_latest}
use merkle_evidence_vault.Vault.Verify.{verify_checkpoint_by_tree_size, verify_latest_checkpoint}
use merkle_evidence_vault.Auth.{Env}
use merkle_evidence_vault.Auth.Token.{Jwt}
use merkle_evidence_vault.Auth.Middleware.{authorize, jwt, jwt_config}
use merkle_evidence_vault.Metrics.{HttpMetrics, Observation, observe, recorded_status}
use merkle_evidence_vault.Metrics.Page.{Floats, Orders, metrics_handler}

pub data Operation : Type 0 where
  healthz readyz metrics_page : Operation
  post_evidence read_evidence read_proof : Operation
  read_audit checkpoints_history checkpoints_latest verify_latest verify_by_size : Operation

-- `guarded` is set where the route is made `With(middleware.JWT)`. An empty method is any.
pub record Route : Type 0 where
  pub method : String
  pub pattern : String
  pub guarded : Bool
  pub operation : Operation

abbrev plain : String → String → Operation → Route
plain method pattern op = record {
  method = method;
  pattern = pattern;
  guarded = false;
  operation = op;
}

abbrev with_jwt : String → String → Operation → Route
with_jwt method pattern op = record {
  method = method;
  pattern = pattern;
  guarded = true;
  operation = op;
}

unfoldable pub routes : List Route
routes =
    plain "GET" "/healthz" healthz
    ∷ plain "GET" "/readyz" readyz
    ∷ plain "" "/metrics" metrics_page
    ∷ plain "POST" "/api/v1/evidence" post_evidence
    ∷ plain "GET" "/api/v1/evidence/{id}" read_evidence
    ∷ plain "GET" "/api/v1/evidence/{id}/proof" read_proof
    ∷ with_jwt "GET" "/api/v1/audit" read_audit
    ∷ with_jwt "GET" "/api/v1/checkpoints" checkpoints_history
    ∷ with_jwt "GET" "/api/v1/checkpoints/latest" checkpoints_latest
    ∷ with_jwt "GET" "/api/v1/checkpoints/latest/verify" verify_latest
    ∷ with_jwt "GET" "/api/v1/checkpoints/{treeSize}/verify" verify_by_size
    ∷ []

-- The router's choice among the routes for a method and a path, and its own answer without one.
pub record Router : Type 0 where
  pub choose : List Route → String → String → Option Route
  pub no_route : String → String → Response → Response

-- A drawn UUID, the clock, a visit of the map, the outside, and the texts of floats and the visits of
-- the maps for the metrics page.
pub record Supplies : Type 0 where
  pub id : String
  pub now : ℕ
  pub now' : ℕ
  pub order : List String
  pub host : Host
  pub floats : Floats
  pub visits : Orders
  pub micros : ℕ

unfoldable pub security_headers : Response → Response
unfolding set_header
security_headers w = set_header "Referrer-Policy" "no-referrer" (
    set_header "X-Frame-Options" "DENY" (
      set_header "X-Content-Type-Options" "nosniff" (
        set_header "Content-Security-Policy"
          "default-src 'self'; script-src 'self'; style-src 'self' 'unsafe-inline'; img-src 'self' data:; connect-src 'self'; object-src 'none'; frame-ancestors 'none'; base-uri 'self'; form-action 'self'"
          w)))

-- RateLimit passes the request on.
abbrev pub rate_limit :
    {S : Type 0} → (Request → Response → S → S × Response) → Request → Response → S → S × Response
rate_limit next req w st = next req w st

-- Auth is another name of the middleware JWT.
abbrev pub auth :
    {S : Type 0} (j : Jwt) (env : Env)
    → (Request → Response → S → S × Response)
    → Request
    → Response
    → S
    → S × Response
auth j env next req w st = jwt j env (jwt_config j env) next req w st

-- A handler that panics has changed nothing; the connection is closed.
abbrev or_closed : {S : Type 0} → Response → S → Option (S × Response) → S × Response
or_closed w st none = (st, w)
or_closed w st (some r) = r

module _ (api : StoreApi) where
  open api use {State}

  unfoldable pub handle :
      HttpMetrics
      → Operation
      → Supplies
      → Request
      → Response
      → VaultState State
      → VaultState State × Response
  unfolding metrics_handler
  handle m healthz s req w st = (st, write_text "{\"status\":\"ok\"}" (write_header 200 w))
  handle m readyz s req w st = (st, write_text "{\"status\":\"ready\"}" (write_header 200 w))
  handle m metrics_page s req w st =
      or_closed w st (Option.map (λ w'. (st, w')) (metrics_handler s.floats s.visits m w))
  handle m post_evidence s req w st = ingest api s.id s.now s.now' req w st
  handle m read_evidence s req w st = or_closed w st (get_evidence api req w st)
  handle m read_proof s req w st = or_closed w st (get_proof req w st)
  handle m read_audit s req w st = get_audit req w st
  handle m checkpoints_history s req w st = get_checkpoints_history s.host s.order req w st
  handle m checkpoints_latest s req w st = get_checkpoints_latest s.host s.order req w st
  handle m verify_latest s req w st = verify_latest_checkpoint s.host s.order req w st
  handle m verify_by_size s req w st = verify_checkpoint_by_tree_size s.host req w st

  -- Where a handler of the table panics: a path that is too short, and counters that are missing.
  abbrev pub handler_panics : HttpMetrics → Operation → Supplies → Request → VaultState State → Bool
  handler_panics m read_evidence s req st = not (is_some (get_evidence api req new_response st))
  handler_panics m read_proof s req st = not (is_some (get_proof req new_response st))
  handler_panics m metrics_page s req st =
      not (is_some (metrics_handler s.floats s.visits m new_response))
  handler_panics m _ s req st = false

  module _ (router : Router) (j : Jwt) (env : Env) where
    -- A guarded route goes through the middleware JWT, whose configuration is made at the start.
    unfoldable pub serve_route :
        HttpMetrics
        → Option Route
        → Supplies
        → Request
        → Response
        → VaultState State
        → VaultState State × Response
    unfolding handle
    serve_route m none s req w st = (st, router.no_route req.method req.path w)
    serve_route m (some r) s req w st =
        if r.guarded
        then jwt j env (jwt_config j env) (handle m r.operation s) req w st
        else handle m r.operation s req w st

    abbrev pub chosen : Request → Option Route
    chosen req = router.choose routes req.method req.path

    -- Whether a request ends with a panic of its handler, which no context or writer has a part in.
    unfoldable pub panics :
        HttpMetrics → Option Route → Supplies → Request → VaultState State → Bool
    panics m none s req st = false
    panics m (some r) s req st =
        let passes = is_some (authorize j env (jwt_config j env) req.authorization) in
        (not r.guarded || passes) && handler_panics m r.operation s req st

    -- A request, from the outermost middleware inwards: the security headers, then the metrics, which
    -- do not count a request whose handler panics.
    unfoldable pub serve :
        Supplies
        → Request
        → VaultState State × HttpMetrics
        → (VaultState State × HttpMetrics) × Response
    unfolding serve_route security_headers
    serve s req (st, m) =
        let (st', w) = serve_route m (chosen req) s req (security_headers new_response) st in
        let seen : Observation = record {
          method = req.method;
          path = req.path;
          status = pos (recorded_status w);
          micros = s.micros;
        } in
        ((st', if panics m (chosen req) s req st then m else observe seen m), w)
