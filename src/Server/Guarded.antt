-- ===== src/Server/Guarded.antt =====
-- Which requests reach the handlers of the audit log and of the checkpoints.
use mathlib.Core.List.{Memᴰ}
use mathlib.Core.Path.{subst}
use merkle_evidence_vault.Prelude.{
  Bool, List, Option, [], arith, false, inl, inr, none, not, refl, some, sym, true, ◌||◌, ◌∷◌, ◌≡◌,
  ◌⊎◌,
}
use merkle_evidence_vault.Prelude.Sorted.{All}
use merkle_evidence_vault.Http.{Context, Request, Response, new_response, write_header}
use merkle_evidence_vault.Store.{StoreApi}
use merkle_evidence_vault.Vault.{VaultState}
use merkle_evidence_vault.Auth.{Env}
use merkle_evidence_vault.Auth.Startup.{
  StartupAuthConfig, load_startup_auth_config, validate_auth_startup_config,
}
use merkle_evidence_vault.Auth.Token.{Jwt}
use merkle_evidence_vault.Auth.Middleware.{authorize, jwt, jwt_config}
use merkle_evidence_vault.Auth.Laws.{IsSafeStart, validate_auth_startup_config-IsSafeStart}
use merkle_evidence_vault.Auth.Verified.{IsPassed, authorize-IsGenuine}
use merkle_evidence_vault.Metrics.{HttpMetrics}
use merkle_evidence_vault.Server.{
  Operation, Route, Router, Supplies, checkpoints_history, checkpoints_latest, chosen, handle,
  read_audit, routes, security_headers, serve, serve_route, verify_by_size, verify_latest,
}

-- The operations on the audit log and on checkpoints.
abbrev pub is_sensitive : Operation → Bool
is_sensitive read_audit = true
is_sensitive checkpoints_history = true
is_sensitive checkpoints_latest = true
is_sensitive verify_latest = true
is_sensitive verify_by_size = true
is_sensitive _ = false

-- What a sensitive operation of the table of routes has in front.
abbrev IsCovered : Route → Type 0
IsCovered r = (not (is_sensitive r.operation) || r.guarded) ≡ true

routes-IsCovered : All IsCovered routes
unfolding routes
routes-IsCovered =
    (refl, (refl, (refl, (refl, (refl, (refl, (refl, (refl, (refl, (refl, (refl, tt)))))))))))

All-Memᴰ {ℓ κ} : {A : Type ℓ} (P : A → Type κ) (xs : List A) (a : A) → All P xs → Memᴰ a xs → P a
All-Memᴰ P [] a h m = elim m [ ]
All-Memᴰ P (x ∷ xs) a (p, h) (Memᴰ.head same) = subst P (sym same) p
All-Memᴰ P (x ∷ xs) a (p, h) (Memᴰ.tail later) = All-Memᴰ P xs a h later

-- A production server whose start passed its check takes no test tokens.
test_tokens-off :
    (j : Jwt) (env : Env)
    → validate_auth_startup_config env ≡ none
    → (load_startup_auth_config env).is_prod_startup ≡ true
    → (jwt_config j env).policy.enable_test_jwt ≡ false
unfolding jwt_config load_startup_auth_config
test_tokens-off j env starts prod =
    go (load_startup_auth_config env).policy.enable_test_jwt refl
      ((validate_auth_startup_config-IsSafeStart env).0 starts)
  where
    cfg : StartupAuthConfig
    cfg = load_startup_auth_config env

    go :
        (b : Bool)
        → cfg.policy.enable_test_jwt ≡ b
        → IsSafeStart cfg.policy.enable_test_jwt cfg
        → cfg.policy.enable_test_jwt ≡ false
    go false e safe = e
    go true e safe = let (not_prod, dev) = subst (λ x. IsSafeStart x cfg) e safe in cc

module _ (api : StoreApi) (router : Router) (j : Jwt) (env : Env) where
  open api use {State}

  -- The two ways in which a guarded request ends: an empty 401 that changes nothing, or the handler
  -- with the context of a genuine token.
  abbrev pub IsGuarded :
      HttpMetrics
      → Operation
      → Supplies
      → Request
      → VaultState State
      → VaultState State × Response
      → Type 0
  IsGuarded m op s req st answer =
      (answer ≡ (st, write_header 401 (security_headers new_response)))
      ⊎ ((ctx : Context) × IsPassed j env req.authorization ctx
          × (answer
              ≡ handle api m op s (record req { context = ctx }) (security_headers new_response)
                  st))

  -- In a production server whose start passed its check, a request that the router takes to a handler
  -- of the audit log or of checkpoints is refused with an empty 401 and changes nothing, or carries a
  -- genuine token, and the handler sees the subject and the roles of this token. The router chooses
  -- among the routes that it is given.
  pub serve-IsGuarded :
      (r : Route) (s : Supplies) (req : Request) (st : VaultState State) (m : HttpMetrics)
      → validate_auth_startup_config env ≡ none
      → (load_startup_auth_config env).is_prod_startup ≡ true
      → chosen api router j env req ≡ some r
      → Memᴰ r routes
      → is_sensitive r.operation ≡ true
      → IsGuarded m r.operation s req st
          ((serve api router j env s req (st, m)).0.0, (serve api router j env s req (st, m)).1)
  unfolding serve jwt
  serve-IsGuarded r s req st m starts prod choice listed sensitive =
      let guarded : r.guarded ≡ true =
        let covered = All-Memᴰ IsCovered routes r routes-IsCovered listed in ground arith in
      let off = test_tokens-off j env starts prod in
      rw (choice, serve_route, guarded)
        (go (authorize j env (jwt_config j env) req.authorization) refl off)
    where
      w : Response
      w = security_headers new_response

      go :
          (o : Option Context)
          → authorize j env (jwt_config j env) req.authorization ≡ o
          → (jwt_config j env).policy.enable_test_jwt ≡ false
          → IsGuarded m r.operation s req st
              (jwt j env (jwt_config j env) (handle api m r.operation s) req w st)
      go none e off = inl (rw (e, jwt) refl)
      go (some ctx) e off =
          inr (ctx, authorize-IsGenuine j env req.authorization ctx off e, rw (e, jwt) refl)
