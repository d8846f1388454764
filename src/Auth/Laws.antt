-- ===== src/Auth/Laws.antt =====
-- What the JWT middleware guarantees.
use Prim.Native.String
use merkle_evidence_vault.Prelude.{
  Bool, Bool-cases, List, Option-cases, String, [], arith, eq_iff, false, inl, inr, none, not, refl,
  some, true, ◌&&◌, ◌==◌, ◌↔◌, ◌∷◌, ◌≡◌, ◌≢◌, ◌⊎◌, string_key,
}
use merkle_evidence_vault.Auth.{
  Env, ResolvedAuthPolicy, dev_policy, first_non_empty_env, is_test_jwt_allowed_env,
  parse_bool_env_default, parse_csv_env_first_non_empty, policy_of, rbac_policy, requested_mode,
  resolve_auth_policy, strict_policy,
}
use merkle_evidence_vault.Auth.Startup.{
  StartupAuthConfig, app_env_of, audience_of, is_empty, issuer_of, load_startup_auth_config,
  validate_auth_startup_config, validate_config,
}
use merkle_evidence_vault.Text.{parse_bool, trim_space}

-- A resolved policy is one of three.
abbrev IsResolved : String → ResolvedAuthPolicy → Type 0
IsResolved jwks_url p =
    (source : String) × ((p ≡ dev_policy source)
      ⊎ (p ≡ rbac_policy source)
      ⊎ (p ≡ strict_policy jwks_url source))

policy_of-IsResolved :
    (allowed : Bool) (jwks_url mode source : String)
    → IsResolved jwks_url (policy_of allowed jwks_url mode source)
unfolding policy_of
policy_of-IsResolved allowed jwks_url mode source = elim (Bool-cases (mode == "dev")) [
  | inl dev ↦ elim (Bool-cases allowed) [
    | inl granted ↦ (source, inl (rw (dev, granted)))
    | inr denied ↦ (String.◌++◌ source "_downgraded_non_dev", inr (inr (rw (dev, denied))))
  ]
  | inr not_dev ↦ elim (Bool-cases (mode == "jwks_rbac")) [
    | inl rbac ↦ (source, inr (inl (rw (not_dev, rbac))))
    | inr not_rbac ↦ elim (Bool-cases (mode == "jwks_strict")) [
      | inl strict ↦ (source, inr (inr (rw (not_dev, not_rbac, strict))))
      | inr unknown ↦ ("invalid_auth_policy_default", inr (inr (rw (not_dev, not_rbac, unknown))))
    ]
  ]
]

pub resolve_auth_policy-IsResolved :
    (env : Env) (app_env jwks_url : String)
    → IsResolved jwks_url (resolve_auth_policy env app_env jwks_url)
unfolding resolve_auth_policy
resolve_auth_policy-IsResolved env app_env jwks_url =
    let (mode, source) = requested_mode env jwks_url in
    policy_of-IsResolved (is_test_jwt_allowed_env env app_env) jwks_url mode source

-- What a configuration that may start has: with test tokens it is not a production one, and says
-- that it is for development; without them the URL of the keys, the issuer and an audience are set.
abbrev pub IsSafeStart : Bool → StartupAuthConfig → Type 0
IsSafeStart true cfg =
    (cfg.is_prod_startup ≡ false) × ((cfg.app_env ≡ "dev") ⊎ (cfg.allow_insecure_dev ≡ true))
IsSafeStart false cfg = (cfg.jwks_url ≢ "") × (cfg.jwt_issuer ≢ "") × (cfg.jwt_audience ≢ [])

is_empty_iff : (xs : List String) → (is_empty xs ≡ true) ↔ (xs ≡ [])
is_empty_iff [] = ground arith
is_empty_iff (x ∷ xs) = ground arith

validate_config-IsSafeStart :
    (cfg : StartupAuthConfig)
    → IsResolved cfg.jwks_url cfg.policy
    → cfg.has_required_jwt_vars
      ≡ (not (cfg.jwks_url == "") && not (cfg.jwt_issuer == "") && not (is_empty cfg.jwt_audience))
    → (validate_config cfg ≡ none) ↔ IsSafeStart cfg.policy.enable_test_jwt cfg
unfolding validate_config
validate_config-IsSafeStart cfg (source, inl dev) vars =
    rw dev (ground (arith, eq_iff cfg.app_env "dev"))
validate_config-IsSafeStart cfg (source, inr (inl rbac)) vars =
    rw (rbac, vars)
      (ground
        (arith, eq_iff cfg.jwks_url "", eq_iff cfg.jwt_issuer "", is_empty_iff cfg.jwt_audience))
validate_config-IsSafeStart cfg (source, inr (inr strict)) vars =
    rw (strict, vars)
      (ground
        (arith, eq_iff cfg.jwks_url "", eq_iff cfg.jwt_issuer "", is_empty_iff cfg.jwt_audience))

pub validate_auth_startup_config-IsSafeStart :
    (env : Env)
    → (validate_auth_startup_config env ≡ none)
      ↔ IsSafeStart
          (load_startup_auth_config env).policy.enable_test_jwt
          (load_startup_auth_config env)
unfolding validate_auth_startup_config load_startup_auth_config
validate_auth_startup_config-IsSafeStart env =
    validate_config-IsSafeStart (load_startup_auth_config env)
      (resolve_auth_policy-IsResolved env (app_env_of env) (trim_space (env.getenv "JWKS_URL")))
      refl

-- The environment's name, and the deployment's.
abbrev pub stage : Env → String
stage env =
    env.to_lower
      (trim_space (first_non_empty_env env ("ENV" ∷ "APP_ENV" ∷ "ENVIRONMENT" ∷ "DEPLOY_ENV" ∷ [])))

abbrev pub deployed_as : Env → String
deployed_as env = env.to_lower (trim_space (env.getenv "DEPLOYMENT"))

-- What the environment says where the server may start, with test tokens and without them.
abbrev pub IsSafeEnv : Bool → Env → Type 0
IsSafeEnv true env =
    (stage env ≢ "prod")
    × (stage env ≢ "production")
    × (deployed_as env ≢ "prod")
    × (deployed_as env ≢ "production")
    × ((stage env ≡ "dev")
        ⊎ (parse_bool (trim_space (env.to_lower (env.getenv "ALLOW_INSECURE_DEV"))) ≡ some true))
IsSafeEnv false env =
    (trim_space (env.getenv "JWKS_URL") ≢ "")
    × (trim_space (first_non_empty_env env ("JWT_ISSUER" ∷ "JWT_REQUIRED_ISSUER" ∷ [])) ≢ "")
    × (parse_csv_env_first_non_empty env ("JWT_AUDIENCE" ∷ "JWT_REQUIRED_AUDIENCE" ∷ []) ≢ [])

parse_bool-blank : (v : String) → v ≡ "" → parse_bool v ≡ none
unfolding parse_bool
parse_bool-blank v e = rw e refl

parse_bool_env_default_iff :
    (env : Env) (name : String)
    → (parse_bool_env_default env name false ≡ true)
      ↔ (parse_bool (trim_space (env.to_lower (env.getenv name))) ≡ some true)
unfolding parse_bool_env_default
parse_bool_env_default_iff env name =
    let v = trim_space (env.to_lower (env.getenv name)) in
    elim (Option-cases (parse_bool v)) [
      | inl bad ↦ ground arith
      | inr (b, good) ↦ ground (arith, eq_iff v "", parse_bool-blank v)
    ]

IsSafeEnv-iff :
    (env : Env) (tests : Bool)
    → IsSafeStart tests (load_startup_auth_config env) ↔ IsSafeEnv tests env
unfolding load_startup_auth_config app_env_of issuer_of audience_of
IsSafeEnv-iff env true = ground (
  arith,
  eq_iff (stage env) "prod",
  eq_iff (stage env) "production",
  eq_iff (deployed_as env) "prod",
  eq_iff (deployed_as env) "production",
  parse_bool_env_default_iff env "ALLOW_INSECURE_DEV",
)
IsSafeEnv-iff env false = (λ h. h, λ h. h)

-- The server's start passes its check exactly where its environment is safe. Where the policy that
-- the settings resolve to takes test tokens, the name of the environment, and that of the deployment, are
-- not `prod` or `production`, and the environment is `dev` or ALLOW_INSECURE_DEV parses as true; where it
-- takes none, the URL of the keys, the issuer and an audience are all set.
pub validate_auth_startup_config_iff :
    (env : Env)
    → (validate_auth_startup_config env ≡ none)
      ↔ IsSafeEnv
          (resolve_auth_policy env (stage env) (trim_space (env.getenv "JWKS_URL"))).enable_test_jwt
          env
unfolding load_startup_auth_config app_env_of
validate_auth_startup_config_iff env =
    let tests =
      (resolve_auth_policy env (stage env) (trim_space (env.getenv "JWKS_URL"))).enable_test_jwt in
    let (started, safe) = validate_auth_startup_config-IsSafeStart env in
    let (says, back) = IsSafeEnv-iff env tests in (λ h. says (started h), λ h. safe (back h))
