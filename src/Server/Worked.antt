-- ===== src/Server/Worked.antt =====
-- The server at work: requests through the router and the middlewares, and the rounds of the committer that
-- main starts, beside the events of Vault/Steps.antt.
mod Tests
use mathlib.Core.Path.{subst}
use merkle_evidence_vault.Vault.Committer.{commit_round}
use merkle_evidence_vault.Vault.Runs.{AllProper}
use merkle_evidence_vault.Vault.Heads.{IsValid, IsValid-start, run-IsValid}
use merkle_evidence_vault.Auth.{Env}
use merkle_evidence_vault.Auth.Token.{Jwt}
use merkle_evidence_vault.Auth.Middleware.{authorize, jwt, jwt_config}
use merkle_evidence_vault.Prelude.{
  Bool-cases, List, Option, Option-cases, String, [], ap, arith, if◌then◌else◌, inl, inr, length,
  none, refl, some, sym, ◌++◌, ◌<◌, ◌^◌, ◌∙◌, ◌∷◌, ◌≡◌,
}
use merkle_evidence_vault.Http.{Context, Request, Response, new_response}
use merkle_evidence_vault.Store.{StoreApi}
use merkle_evidence_vault.Vault.{VaultState}
use merkle_evidence_vault.Vault.Ingest.{get_audit, get_evidence, get_proof, ingest}
use merkle_evidence_vault.Vault.Checkpoint.{get_checkpoints_history, get_checkpoints_latest}
use merkle_evidence_vault.Vault.Verify.{verify_checkpoint_by_tree_size, verify_latest_checkpoint}
use merkle_evidence_vault.Vault.Steps.{Event, commit, run, start, step, verify_size}
use merkle_evidence_vault.Metrics.{HttpMetrics, no_metrics}
use merkle_evidence_vault.Metrics.Page.{metrics_handler, page}
use merkle_evidence_vault.Server.{
  Operation, Route, Router, Supplies, checkpoints_history, checkpoints_latest, chosen, handle,
  healthz, metrics_page, panics, post_evidence, read_audit, read_evidence, read_proof, readyz,
  security_headers, serve, serve_route, verify_by_size, verify_latest,
}

-- The event that an operation is for the vault's state.
abbrev pub event_of : Operation → Supplies → Request → List Event
event_of Operation.healthz s req = []
event_of Operation.readyz s req = []
event_of Operation.metrics_page s req = []
event_of Operation.post_evidence s req = Event.post_evidence s.id s.now s.now' req ∷ []
event_of Operation.read_evidence s req = Event.read_evidence req ∷ []
event_of Operation.read_proof s req = Event.read_proof req ∷ []
event_of Operation.read_audit s req = Event.read_audit req ∷ []
event_of Operation.checkpoints_history s req = Event.checkpoints_history s.host s.order req ∷ []
event_of Operation.checkpoints_latest s req = Event.checkpoints_latest s.host s.order req ∷ []
event_of Operation.verify_latest s req = Event.verify_latest s.host s.order req ∷ []
event_of Operation.verify_by_size s req = Event.verify_size s.host req ∷ []

module _ (api : StoreApi) where
  open api use {State}

  -- What a handler makes of the state does not depend on the response writer.
  handle-run :
      (m : HttpMetrics) (op : Operation) (s : Supplies) (req : Request) (w : Response)
      (st : VaultState State)
      → (handle api m op s req w st).0 ≡ run api (event_of op s req) st
  unfolding handle metrics_handler run step ingest get_evidence get_proof get_audit
      get_checkpoints_latest get_checkpoints_history verify_latest_checkpoint
      verify_checkpoint_by_tree_size
  handle-run m Operation.healthz s req w st = refl
  handle-run m Operation.readyz s req w st = refl
  handle-run m Operation.metrics_page s req w st = elim (Option-cases (page s.floats s.visits m)) [
    | inl panics ↦ rw (handle, metrics_handler, panics) refl
    | inr (text, shown) ↦ rw (handle, metrics_handler, shown) refl
  ]
  handle-run m op s req w st = ground arith

-- A request with what it takes from outside, or a round of the committer.
pub data Work : Type 0 where
  request : Supplies → Request → Work
  round : (visit order : List String) → Work

module _ (api : StoreApi) (router : Router) (j : Jwt) (env : Env) where
  open api use {State}

  abbrev pub work : Work → VaultState State × HttpMetrics → VaultState State × HttpMetrics
  work (request s req) (st, m) = (serve api router j env s req (st, m)).0
  work (round visit order) (st, m) = (commit_round api visit order st, m)

  unfoldable pub work_all :
      List Work → VaultState State × HttpMetrics → VaultState State × HttpMetrics
  work_all [] now = now
  work_all (w ∷ ws) now = work_all ws (work w now)

  -- The events of a request: the operation's with the context of the token, or none where there is no
  -- route or the middleware JWT refuses.
  abbrev pub passed_events : Operation → Supplies → Request → Option Context → List Event
  passed_events op s req none = []
  passed_events op s req (some ctx) = event_of op s (record req { context = ctx })

  unfoldable pub route_events : Option Route → Supplies → Request → List Event
  route_events none s req = []
  route_events (some r) s req =
      if r.guarded
      then passed_events r.operation s req (authorize j env (jwt_config j env) req.authorization)
      else event_of r.operation s req

  abbrev pub work_events : Work → List Event
  work_events (request s req) = route_events (chosen api router j env req) s req
  work_events (round visit order) = Event.commit visit order ∷ []

  abbrev pub events : List Work → List Event
  events [] = []
  events (w ∷ ws) = work_events w ++ events ws

  serve_route-run :
      (m : HttpMetrics) (o : Option Route) (s : Supplies) (req : Request) (w : Response)
      (st : VaultState State)
      → (serve_route api router j env m o s req w st).0 ≡ run api (route_events o s req) st
  unfolding serve_route route_events jwt run
  serve_route-run m none s req w st = refl
  serve_route-run m (some r) s req w st = elim (Bool-cases r.guarded) [
    | inr free ↦ rw free (handle-run api m r.operation s req w st)
    | inl guarded ↦ elim (Option-cases (authorize j env (jwt_config j env) req.authorization)) [
      | inl denied ↦ rw (guarded, denied, jwt) refl
      | inr (ctx, passed) ↦
          rw (guarded, passed, jwt)
            (handle-run api m r.operation s (record req { context = ctx }) w st)
    ]
  ]

  work-run :
      (w : Work) (st : VaultState State) (m : HttpMetrics)
      → (work w (st, m)).0 ≡ run api (work_events w) st
  unfolding serve run step
  work-run (request s req) st m =
      serve_route-run m (chosen api router j env req) s req (security_headers new_response) st
  work-run (round visit order) st m = refl

  run-append :
      (es fs : List Event) (st : VaultState State)
      → run api (es ++ fs) st ≡ run api fs (run api es st)
  unfolding run
  run-append [] fs st = refl
  run-append (e ∷ es) fs st = run-append es fs (step api e st)

  pub work_all-run :
      (ws : List Work) (now : VaultState State × HttpMetrics)
      → (work_all ws now).0 ≡ run api (events ws) now.0
  unfolding work_all run
  work_all-run [] now = refl
  work_all-run (w ∷ ws) now =
      work_all-run ws (work w now)
      ∙ ap (run api (events ws)) (work-run w now.0 now.1)
      ∙ sym (run-append (work_events w) (events ws) now.0)

  -- A started server keeps its records, counter and checkpoints valid through any requests to its routes,
  -- with any tokens, and any rounds of the committer, one after the other and fewer than 2^63 of those that
  -- reach the vault's state: leaf indices are the positions in an append-only list, the counter is its
  -- length, and the order of the checkpoints lists exactly the sizes that have a stored one, growing and
  -- within it. The drawn ids are new, and a loop over the map visits all of it.
  pub work_all-IsValid :
      (ws : List Work)
      → AllProper api (events ws) start
      → length (events ws) < 2 ^ 63
      → (log : List String) × IsValid (work_all ws (start, no_metrics)).0 log
  work_all-IsValid ws proper room =
      let (log, valid) = run-IsValid api (events ws) start [] proper (omega arith) IsValid-start in
      (log, subst (λ st. IsValid st log) (sym (work_all-run ws (start, no_metrics))) valid)
