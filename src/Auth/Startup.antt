-- ===== src/Auth/Startup.antt =====
-- services/vault-api/middleware/jwt.go: loadStartupAuthConfig and ValidateAuthStartupConfig, less
-- the log entry. The configuration keeps the fields that the check reads.
use merkle_evidence_vault.Prelude.{
  Bool, List, Option, String, [], false, if◌then◌else◌, none, not, some, true, ◌&&◌, ◌==◌, ◌||◌,
  ◌∷◌, string_key,
}
use merkle_evidence_vault.Text.{trim_space}
use merkle_evidence_vault.Auth.{
  Env, ResolvedAuthPolicy, first_non_empty_env, parse_bool_env_default,
  parse_csv_env_first_non_empty, resolve_auth_policy,
}

pub record StartupAuthConfig : Type 0 where
  pub policy : ResolvedAuthPolicy
  pub policy_name : String
  pub app_env : String
  pub deployment : String
  pub allow_insecure_dev : Bool
  pub is_prod_startup : Bool
  pub jwks_url : String
  pub jwt_issuer : String
  pub jwt_audience : List String
  pub has_jwks_url : Bool
  pub has_jwt_issuer : Bool
  pub has_jwt_audience : Bool
  pub has_required_jwt_vars : Bool

abbrev pub is_empty : List String → Bool
is_empty [] = true
is_empty (_ ∷ _) = false

unfoldable pub app_env_of : Env → String
app_env_of env =
    env.to_lower
      (trim_space (first_non_empty_env env ("ENV" ∷ "APP_ENV" ∷ "ENVIRONMENT" ∷ "DEPLOY_ENV" ∷ [])))

unfoldable pub issuer_of : Env → String
issuer_of env = trim_space (first_non_empty_env env ("JWT_ISSUER" ∷ "JWT_REQUIRED_ISSUER" ∷ []))

unfoldable pub audience_of : Env → List String
audience_of env = parse_csv_env_first_non_empty env ("JWT_AUDIENCE" ∷ "JWT_REQUIRED_AUDIENCE" ∷ [])

unfoldable pub load_startup_auth_config : Env → StartupAuthConfig
load_startup_auth_config env =
    let app_env = app_env_of env in
    let deployment = env.to_lower (trim_space (env.getenv "DEPLOYMENT")) in
    let policy_name = env.to_lower (trim_space (env.getenv "AUTH_POLICY")) in
    let jwks_url = trim_space (env.getenv "JWKS_URL") in
    let policy = resolve_auth_policy env app_env jwks_url in
    record {
      policy = policy;
      policy_name = if policy_name == "" then policy.mode else policy_name;
      app_env = app_env;
      deployment = deployment;
      allow_insecure_dev = parse_bool_env_default env "ALLOW_INSECURE_DEV" false;
      is_prod_startup =
          app_env == "prod"
          || app_env == "production"
          || deployment == "prod"
          || deployment == "production";
      jwks_url = jwks_url;
      jwt_issuer = issuer_of env;
      jwt_audience = audience_of env;
      has_jwks_url = not (jwks_url == "");
      has_jwt_issuer = not (issuer_of env == "");
      has_jwt_audience = not (is_empty (audience_of env));
      has_required_jwt_vars =
          not (jwks_url == "") && not (issuer_of env == "") && not (is_empty (audience_of env));
    }

pub data StartupError : Type 0 where
  dev_outside_dev dev_in_production : StartupError
  missing_jwt_vars : (mode : String) → StartupError

-- The three guards in turn; none where the configuration passes.
unfoldable pub validate_config : StartupAuthConfig → Option StartupError
validate_config cfg =
    if cfg.policy.mode == "dev" && not (cfg.app_env == "dev" || cfg.allow_insecure_dev)
    then some dev_outside_dev
    else if cfg.is_prod_startup && cfg.policy.mode == "dev"
    then some dev_in_production
    else if (cfg.policy.mode == "jwks_strict" || cfg.policy.mode == "jwks_rbac")
        && not cfg.has_required_jwt_vars
    then some (missing_jwt_vars cfg.policy.mode)
    else none

unfoldable pub validate_auth_startup_config : Env → Option StartupError
validate_auth_startup_config env = validate_config (load_startup_auth_config env)
