-- ===== src/Server/Headers.antt =====
-- The headers that every answer carries.
use merkle_evidence_vault.Prelude.Sorted.{All}
use merkle_evidence_vault.Prelude.{
  Bool-cases, List, Option, Option-cases, String, [], arith, false, inl, inr, none, refl, some,
  ◌==◌, ◌∙◌, ◌∷◌, ◌≡◌, string_key,
}
use merkle_evidence_vault.Prelude.Dict.{insert, lookup, lookup-insert}
use merkle_evidence_vault.Http.{
  Request, Response, encode, new_response, set_header, write_header, write_text,
}
use merkle_evidence_vault.Store.{StoreApi}
use merkle_evidence_vault.Vault.{VaultState}
use merkle_evidence_vault.Vault.Ingest.{get_audit, get_evidence, get_proof, ingest}
use merkle_evidence_vault.Vault.Checkpoint.{get_checkpoints_history, get_checkpoints_latest}
use merkle_evidence_vault.Vault.Verify.{verify_checkpoint_by_tree_size, verify_latest_checkpoint}
use merkle_evidence_vault.Auth.Middleware.{authorize, jwt, jwt_config}
use merkle_evidence_vault.Auth.{Env}
use merkle_evidence_vault.Auth.Token.{Jwt}
use merkle_evidence_vault.Metrics.{HttpMetrics}
use merkle_evidence_vault.Metrics.Page.{metrics_handler, page}
use merkle_evidence_vault.Server.{
  Operation, Route, Router, Supplies, chosen, handle, healthz, metrics_page, panics, readyz,
  security_headers, serve, serve_route,
}

module _ (api : StoreApi) (name : String) (other : ("Content-Type" == name) ≡ false) where
  open api use {State}

  -- No handler sets another header than Content-Type.
  handle-header :
      (m : HttpMetrics) (op : Operation) (s : Supplies) (req : Request) (w : Response)
      (st : VaultState State)
      → lookup name (handle api m op s req w st).1.headers ≡ lookup name w.headers
  unfolding handle metrics_handler ingest get_evidence get_proof get_audit get_checkpoints_latest
      get_checkpoints_history verify_latest_checkpoint verify_checkpoint_by_tree_size set_header
      write_header write_text encode
  handle-header m healthz s req w st = refl
  handle-header m readyz s req w st = refl
  handle-header m metrics_page s req w st = elim (Option-cases (page s.floats s.visits m)) [
    | inl panics ↦ rw (handle, metrics_handler, panics) refl
    | inr (text, shown) ↦
        rw (handle, metrics_handler, shown)
          (ground (arith, lookup-insert "Content-Type" name "text/plain; version=0.0.4" w.headers))
  ]
  handle-header m op s req w st =
      ground (arith, lookup-insert "Content-Type" name "application/json" w.headers)

  jwt-header :
      (j : Jwt) (env : Env) (m : HttpMetrics) (op : Operation) (s : Supplies) (req : Request)
      (w : Response) (st : VaultState State)
      → lookup name (jwt j env (jwt_config j env) (handle api m op s) req w st).1.headers
        ≡ lookup name w.headers
  unfolding jwt write_header
  jwt-header j env m op s req w st =
      elim (Option-cases (authorize j env (jwt_config j env) req.authorization)) [
        | inl denied ↦ rw (denied, jwt) refl
        | inr (ctx, passed) ↦
            rw (passed, jwt) (handle-header m op s (record req { context = ctx }) w st)
      ]

-- A header has the value that SecurityHeaders gives it.
abbrev pub IsSecure : String → Response → Type 0
IsSecure name w = lookup name w.headers ≡ lookup name (security_headers new_response).headers

-- The router's own answers keep this value of a header, or set it again.
abbrev pub KeepsHeader : Router → String → Type 0
KeepsHeader router name =
    (method path : String) (w : Response)
    → IsSecure name w
    → IsSecure name (router.no_route method path w)

module _ (api : StoreApi) (router : Router) (j : Jwt) (env : Env) (name : String)
    (other : ("Content-Type" == name) ≡ false) (keeps : KeepsHeader router name) where
  open api use {State}

  serve_route-header :
      (m : HttpMetrics) (o : Option Route) (s : Supplies) (req : Request) (w : Response)
      (st : VaultState State)
      → IsSecure name w
      → IsSecure name (serve_route api router j env m o s req w st).1
  unfolding serve_route
  serve_route-header m none s req w st secure = keeps req.method req.path w secure
  serve_route-header m (some r) s req w st secure = elim (Bool-cases r.guarded) [
    | inl guarded ↦ rw guarded (jwt-header api name other j env m r.operation s req w st ∙ secure)
    | inr free ↦ rw free (handle-header api name other m r.operation s req w st ∙ secure)
  ]

  serve-header :
      (s : Supplies) (req : Request) (st : VaultState State) (m : HttpMetrics)
      → IsSecure name (serve api router j env s req (st, m)).1
  unfolding serve
  serve-header s req st m =
      serve_route-header m (chosen api router j env req) s req (security_headers new_response) st
        refl

-- The names of the headers that SecurityHeaders sets.
abbrev pub protections : List String
protections =
    "X-Frame-Options" ∷ "X-Content-Type-Options" ∷ "Referrer-Policy" ∷ "Content-Security-Policy"
    ∷ []

-- The protections that a browser reads.
abbrev pub IsProtected : Response → Type 0
IsProtected w =
    (lookup "X-Frame-Options" w.headers ≡ some "DENY")
    × (lookup "X-Content-Type-Options" w.headers ≡ some "nosniff")
    × (lookup "Referrer-Policy" w.headers ≡ some "no-referrer")
    × (lookup "Content-Security-Policy" w.headers
        ≡ some
            "default-src 'self'; script-src 'self'; style-src 'self' 'unsafe-inline'; img-src 'self' data:; connect-src 'self'; object-src 'none'; frame-ancestors 'none'; base-uri 'self'; form-action 'self'")

-- Every answer of the server, errors included, carries the headers X-Frame-Options,
-- X-Content-Type-Options, Referrer-Policy and Content-Security-Policy with the values of
-- SecurityHeaders, if the router's own answers keep, or set again, these values of the four headers.
pub serve-IsProtected :
    (api : StoreApi) (router : Router) (j : Jwt) (env : Env) (s : Supplies) (req : Request)
    (st : VaultState api.State) (m : HttpMetrics)
    → All (KeepsHeader router) protections
    → IsProtected (serve api router j env s req (st, m)).1
unfolding security_headers set_header lookup insert
serve-IsProtected api router j env s req st m (frame, (sniff, (referrer, (policy, _)))) =
    let kept =
      λ (name : String) (keeps : KeepsHeader router name)
          (other : ("Content-Type" == name) ≡ false).
        serve-header api router j env name other keeps s req st m in
    (
      kept "X-Frame-Options" frame refl,
      kept "X-Content-Type-Options" sniff refl,
      kept "Referrer-Policy" referrer refl,
      kept "Content-Security-Policy" policy refl,
    )
