-- ===== src/Auth/Middleware.antt =====
-- services/vault-api/middleware/jwt.go: the middleware JWT, less its log entries and the waits
-- between attempts. `jwt_config` is what runs once, when a route is set up, `jwt` what runs for each
-- request.
use merkle_evidence_vault.Prelude.{
  Bool, List, Option, String, [], if◌then◌else◌, none, not, some, suc, zero, ℕ, ◌&&◌, ◌++◌, ◌==◌,
  ◌||◌, ◌∷◌, string_key,
}
use merkle_evidence_vault.Prelude.Int.{negsuc, pos, ℤ, int_key}
use merkle_evidence_vault.Http.{Context, Request, Response, write_header}
use merkle_evidence_vault.Text.{contains, is_some, or_else, trim_space}
use merkle_evidence_vault.Auth.{
  Env, ResolvedAuthPolicy, parse_csv_env_default, parse_int_env_default, resolve_auth_policy,
}
use merkle_evidence_vault.Auth.Startup.{app_env_of, audience_of, is_empty, issuer_of}
use merkle_evidence_vault.Auth.Token.{
  Jwt, Token, extract_bearer_token, has_minimum_rbac_roles, is_blank, parse_roles,
  validate_standard_claims,
}

pub record JwtConfig (K : Type 0) : Type 0 where
  pub policy : ResolvedAuthPolicy
  pub jwks_url : String
  pub required_issuer : String
  pub required_audience : List String
  pub allowed_algs : List String
  pub clock_skew : ℤ
  pub max_token_ttl_seconds : ℤ
  pub strict_config_valid : Bool
  pub jwks : Option K

-- The loop over the attempts to load the keys, from the attempt `i` on: the first success ends it.
unfoldable pub load_keys : {K : Type 0} → (ℕ → Option K) → (i left : ℕ) → Option K
load_keys fetch i zero = none
load_keys fetch i (suc left) = elim (fetch i) [
  | none ↦ load_keys fetch (suc i) left
  | some keys ↦ some keys
]

-- The rounds of a loop that counts an `int64` up from 0 to this bound.
abbrev rounds_to : ℤ → ℕ
rounds_to (pos n) = n
rounds_to (negsuc n) = 0

abbrev default_algs : List String
default_algs = "RS256" ∷ "RS384" ∷ "RS512" ∷ "ES256" ∷ "ES384" ∷ "ES512" ∷ "EdDSA" ∷ []

-- The two checks that clear `strictConfigValid`.
unfoldable pub config_valid : ResolvedAuthPolicy → String → String → List String → Bool
config_valid policy jwks_url issuer audience =
    not (policy.jwks_required && jwks_url == "")
    && not (policy.enforce_required_claim && (issuer == "" || is_empty audience))

module _ (j : Jwt) (env : Env) where
  open j use {Keys, F}

  unfoldable pub jwt_config : JwtConfig Keys
  jwt_config =
      let jwks_url = trim_space (env.getenv "JWKS_URL") in
      let policy = resolve_auth_policy env (app_env_of env) jwks_url in
      let attempts = parse_int_env_default env "JWT_JWKS_MAX_ATTEMPTS" (pos 12) in
      record {
        policy = policy;
        jwks_url = jwks_url;
        required_issuer = issuer_of env;
        required_audience = audience_of env;
        allowed_algs = parse_csv_env_default env "JWT_ALLOWED_ALGS" default_algs;
        clock_skew = parse_int_env_default env "JWT_CLOCK_SKEW_SECONDS" (pos 60);
        max_token_ttl_seconds = parse_int_env_default env "JWT_MAX_TOKEN_TTL_SECONDS" (pos 0);
        strict_config_valid = config_valid policy jwks_url (issuer_of env) (audience_of env);
        jwks =
            if policy.jwks_required && not (jwks_url == "")
            then load_keys j.fetch 0 (rounds_to attempts)
            else none;
      }

  -- The context for a request with a parsed token, none where it is refused.
  unfoldable pub authorize_token : JwtConfig Keys → Option (Token F) → Option Context
  authorize_token cfg none = none
  authorize_token cfg (some t) =
      let roles = parse_roles t.claims.roles in
      if not t.valid
      then none
      else if cfg.policy.require_kid && is_blank t.kid
      then none
      else if not (
          validate_standard_claims j t.claims cfg.required_issuer cfg.required_audience
            (j.times_second cfg.clock_skew) (j.times_second cfg.max_token_ttl_seconds))
      then none
      else if cfg.policy.require_roles && not (has_minimum_rbac_roles roles)
      then none
      else some (record { roles = some roles; subject = some (or_else "" t.claims.sub) })

  -- The roles of a test token: those that its text names.
  unfoldable pub test_roles : String → List String
  test_roles lower =
      (if contains lower "auditor" then "auditor" ∷ [] else [])
      ++ (if contains lower "ingest" || contains lower "ingester" then "ingester" ∷ [] else [])

  unfoldable pub authorize_test : JwtConfig Keys → String → Option Context
  authorize_test cfg token =
      if not cfg.policy.enable_test_jwt
      then none
      else some (record { roles = some (test_roles (env.to_lower token)); subject = some token })

  unfoldable pub authorize_keys : JwtConfig Keys → String → Option Keys → Option Context
  unfolding authorize_test authorize_token
  authorize_keys cfg token (some keys) = authorize_token cfg (j.parse keys cfg.allowed_algs token)
  authorize_keys cfg token none = authorize_test cfg token

  unfoldable pub authorize_bearer : JwtConfig Keys → Option String → Option Context
  unfolding authorize_keys
  authorize_bearer cfg none = none
  authorize_bearer cfg (some token) =
      if cfg.policy.jwks_required
        && (not cfg.strict_config_valid || (not (cfg.jwks_url == "") && not (is_some cfg.jwks)))
      then none
      else authorize_keys cfg token cfg.jwks

  -- The context that the next handler gets, none where the request is refused.
  unfoldable pub authorize : JwtConfig Keys → String → Option Context
  unfolding authorize_bearer
  authorize cfg authorization = authorize_bearer cfg (extract_bearer_token env authorization)

  unfoldable pub jwt :
      {S : Type 0}
      → JwtConfig Keys
      → (Request → Response → S → S × Response)
      → Request
      → Response
      → S
      → S × Response
  jwt cfg next req w st = elim (authorize cfg req.authorization) [
    | none ↦ (st, write_header 401 w)
    | some ctx ↦ next (record req { context = ctx }) w st
  ]
