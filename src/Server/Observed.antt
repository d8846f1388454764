-- ===== src/Server/Observed.antt =====
-- The middleware Metrics and the page of the counters, over requests to the server one after the other. The
-- recorder keeps the code of the last call of WriteHeader; what is sent is the first status written.
use merkle_evidence_vault.Prelude.{
  Bool-cases, List, Option, Option-cases, String, [], ap, arith, if◌then◌else◌, inl, inr, none,
  refl, some, ℕ, ◌∷◌, ◌≡◌, string_key,
}
use merkle_evidence_vault.Http.{
  Request, Response, encode, new_response, sent_status, set_header, write_header, write_text,
}
use merkle_evidence_vault.Store.{StoreApi}
use merkle_evidence_vault.Vault.{VaultState}
use merkle_evidence_vault.Vault.Ingest.{get_audit, get_evidence, get_proof, ingest}
use merkle_evidence_vault.Vault.Checkpoint.{get_checkpoints_history, get_checkpoints_latest}
use merkle_evidence_vault.Vault.Verify.{verify_checkpoint_by_tree_size, verify_latest_checkpoint}
use merkle_evidence_vault.Metrics.{HttpMetrics, Observation, no_metrics, observe, recorded_status}
use merkle_evidence_vault.Metrics.Page.{metrics_handler, page}
use merkle_evidence_vault.Server.{
  Operation, Route, Router, Supplies, chosen, handle, healthz, metrics_page, panics, readyz,
  security_headers, serve, serve_route,
}
use merkle_evidence_vault.Prelude.Int.{pos, int_key}
use merkle_evidence_vault.Auth.{Env}
use merkle_evidence_vault.Auth.Token.{Jwt}
use merkle_evidence_vault.Auth.Middleware.{authorize, jwt, jwt_config}

-- Nothing is written yet.
abbrev pub IsFresh : Response → Type 0
IsFresh w = (w.status ≡ none) × (w.last_code ≡ none)

abbrev pub IsAgreed : Response → Type 0
IsAgreed w = recorded_status w ≡ sent_status w

IsFresh-IsAgreed : (w : Response) → IsFresh w → IsAgreed w
IsFresh-IsAgreed w (status, code) = rw (status, code) refl

module _ (api : StoreApi) where
  open api use {State}

  handle-IsAgreed :
      (m : HttpMetrics) (op : Operation) (s : Supplies) (req : Request) (w : Response)
      (st : VaultState State)
      → IsFresh w
      → IsAgreed (handle api m op s req w st).1
  unfolding handle metrics_handler ingest get_evidence get_proof get_audit get_checkpoints_latest
      get_checkpoints_history verify_latest_checkpoint verify_checkpoint_by_tree_size set_header
      write_header write_text encode
  handle-IsAgreed m healthz s req w st (status, code) = rw status refl
  handle-IsAgreed m readyz s req w st (status, code) = rw status refl
  handle-IsAgreed m metrics_page s req w st (status, code) =
      elim (Option-cases (page s.floats s.visits m)) [
        | inl panics ↦ rw (handle, metrics_handler, panics, status, code) refl
        | inr (text, shown) ↦ rw (handle, metrics_handler, shown, status, code) refl
      ]
  handle-IsAgreed m op s req w st (status, code) = ground arith

  jwt-IsAgreed :
      (j : Jwt) (env : Env) (m : HttpMetrics) (op : Operation) (s : Supplies) (req : Request)
      (w : Response) (st : VaultState State)
      → IsFresh w
      → IsAgreed (jwt j env (jwt_config j env) (handle api m op s) req w st).1
  unfolding jwt write_header
  jwt-IsAgreed j env m op s req w st fresh =
      elim (Option-cases (authorize j env (jwt_config j env) req.authorization)) [
        | inl denied ↦ rw (denied, jwt, fresh.0) refl
        | inr (ctx, passed) ↦
            rw (passed, jwt) (handle-IsAgreed m op s (record req { context = ctx }) w st fresh)
      ]

-- The router's own answers write the header at most once.
abbrev pub WritesOnce : Router → Type 0
WritesOnce router =
    (method path : String) (w : Response) → IsFresh w → IsAgreed (router.no_route method path w)

module _ (api : StoreApi) (router : Router) (j : Jwt) (env : Env) where
  open api use {State}

  -- Requests one after the other on a started server, the last one first.
  unfoldable pub serve_all :
      List (Supplies × Request) → VaultState State → VaultState State × HttpMetrics
  serve_all [] st = (st, no_metrics)
  serve_all ((s, req) ∷ earlier) st = (serve api router j env s req (serve_all earlier st)).0

  -- What the client has seen of them, less those whose handler panicked.
  unfoldable pub sent : List (Supplies × Request) → VaultState State → List Observation
  unfolding serve_all
  sent [] st = []
  sent ((s, req) ∷ earlier) st =
      let (st', m) = serve_all earlier st in
      let rest = sent earlier st in
      if panics api router j env m (chosen api router j env req) s req st'
      then rest
      else record {
        method = req.method;
        path = req.path;
        status = pos (sent_status (serve api router j env s req (st', m)).1);
        micros = s.micros;
      }
        ∷ rest

module _ (api : StoreApi) (router : Router) (j : Jwt) (env : Env) (once : WritesOnce router) where
  open api use {State}

  serve_route-IsAgreed :
      (m : HttpMetrics) (o : Option Route) (s : Supplies) (req : Request) (w : Response)
      (st : VaultState State)
      → IsFresh w
      → IsAgreed (serve_route api router j env m o s req w st).1
  unfolding serve_route
  serve_route-IsAgreed m none s req w st fresh = once req.method req.path w fresh
  serve_route-IsAgreed m (some r) s req w st fresh = elim (Bool-cases r.guarded) [
    | inl guarded ↦ rw guarded (jwt-IsAgreed api j env m r.operation s req w st fresh)
    | inr free ↦ rw free (handle-IsAgreed api m r.operation s req w st fresh)
  ]

  -- The metrics count each answer of the server, errors included, under the status that the client is
  -- sent, if the router's own answers write the header at most once; a request whose handler panics is
  -- not counted.
  pub serve-sent_status :
      (s : Supplies) (req : Request) (st : VaultState State) (m : HttpMetrics)
      → (serve api router j env s req (st, m)).0.1 ≡ (
          if panics api router j env m (chosen api router j env req) s req st
          then m
          else observe
              (record {
                method = req.method;
                path = req.path;
                status = pos (sent_status (serve api router j env s req (st, m)).1);
                micros = s.micros;
              })
              m)
  unfolding serve security_headers set_header
  serve-sent_status s req st m =
      let w =
        (serve_route api router j env m (chosen api router j env req) s req
          (security_headers new_response) st).1 in
      let agreed =
        serve_route-IsAgreed m (chosen api router j env req) s req (security_headers new_response)
          st (refl, refl) in
      ap
        (λ (code : ℕ).
          if panics api router j env m (chosen api router j env req) s req st
          then m
          else observe
              (record {
                method = req.method;
                path = req.path;
                status = pos code;
                micros = s.micros;
              })
              m)
        agreed
