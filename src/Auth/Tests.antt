-- ===== src/Auth/Tests.antt =====
-- The JWT middleware at concrete inputs: a production environment with the policy `jwks_rbac`, and a
-- service whose keys accept the token "good".
use merkle_evidence_vault.Prelude.{
  Option, String, [], false, if◌then◌else◌, ltb, none, refl, some, true, ℕ, ◌+◌, ◌==◌, ◌=ℕ◌, ◌↔◌,
  ◌∷◌, ◌≡◌, string_key,
}
use merkle_evidence_vault.Prelude.Int.{ltb_ℤ, pos, int_key}
use merkle_evidence_vault.Prelude.Dict.{Dict, lookup}
use merkle_evidence_vault.Http.{Context, Request, Response, new_response, no_context, write_header}
use merkle_evidence_vault.Text.{or_else, parse_bool, split, trim_space}
use merkle_evidence_vault.Auth.{
  Env, first_non_empty_env, is_test_jwt_allowed_env, parse_bool_env_default, parse_csv_env,
  parse_csv_env_first_non_empty, parse_int_env_default, policy_of, requested_mode,
  resolve_auth_policy, trimmed_parts,
}
use merkle_evidence_vault.Auth.Startup.{
  app_env_of, audience_of, issuer_of, load_startup_auth_config, validate_auth_startup_config,
  validate_config,
}
use merkle_evidence_vault.Auth.Token.{Jwt, Token, many}
use merkle_evidence_vault.Auth.Middleware.{jwt, jwt_config, load_keys}
use merkle_evidence_vault.Auth.Laws.{IsSafeEnv, stage, validate_auth_startup_config_iff}
use merkle_evidence_vault.Auth.Gate.{jwt-fail_closed}

abbrev pub env_of : Dict String String → Env
env_of settings = record {
  getenv = λ name. or_else "" (lookup name settings);
  to_lower = λ s. s;
  equal_fold = λ s t. s == t;
}

abbrev pub production : Env
production = env_of (
    ("ENV", "prod")
    ∷ ("AUTH_POLICY", "jwks_rbac")
    ∷ ("JWKS_URL", "https://keys")
    ∷ ("JWT_ISSUER", "issuer")
    ∷ ("JWT_AUDIENCE", "vault, other")
    ∷ [])

abbrev pub good_token : Token ℕ
good_token = record {
  valid = true;
  kid = some "key-1";
  claims = record {
    sub = some "alice";
    roles = some (many (some "auditor" ∷ none ∷ []));
    iat = some 100;
    exp = some 200;
    verify_expires_at = λ now required. ltb_ℤ now (pos 200);
    verify_issued_at = λ now required. ltb_ℤ (pos 100) now;
    verify_not_before = λ now required. true;
    verify_issuer = λ issuer required. issuer == "issuer";
    verify_audience = λ aud required. aud == "other";
  };
}

abbrev pub jwt_with : (ℕ → Option ℕ) → Jwt
jwt_with fetch = record {
  F = ℕ;
  Keys = ℕ;
  less = ltb;
  int64_of = pos;
  unix_at = λ d. pos 150;
  unix_sub = λ a b. pos 0;
  times_second = λ d. d;
  negated = λ d. d;
  fetch = fetch;
  parse = λ keys algs token. if token == "good" then some good_token else none;
}

-- The keys load at the second attempt.
abbrev pub service : Jwt
service = jwt_with (λ n. if n =ℕ 0 then none else some n)

abbrev pub alice : Context
alice = record { roles = some ("auditor" ∷ []); subject = some "alice" }

loaded : (jwt_config service production).jwks ≡ some 1
unfolding jwt_config resolve_auth_policy policy_of requested_mode is_test_jwt_allowed_env
    parse_bool_env_default app_env_of first_non_empty_env trim_space lookup load_keys
    parse_int_env_default
loaded = refl

asks_for_role : (jwt_config service production).policy.require_roles ≡ true
unfolding jwt_config resolve_auth_policy policy_of requested_mode is_test_jwt_allowed_env
    parse_bool_env_default app_env_of first_non_empty_env trim_space lookup
asks_for_role = refl

validate_auth_startup_config_iff_example :
    (validate_auth_startup_config production ≡ none)
    ↔ IsSafeEnv
        (resolve_auth_policy production
          (stage production)
          (trim_space (production.getenv "JWKS_URL"))).enable_test_jwt
        production
validate_auth_startup_config_iff_example = validate_auth_startup_config_iff production

pub starts : validate_auth_startup_config production ≡ none
unfolding resolve_auth_policy policy_of requested_mode is_test_jwt_allowed_env
    parse_bool_env_default app_env_of first_non_empty_env trim_space lookup load_startup_auth_config
    validate_auth_startup_config validate_config issuer_of audience_of parse_csv_env_first_non_empty
    parse_csv_env trimmed_parts split parse_bool
starts = refl

abbrev pub get_audit_request : Request
get_audit_request = record {
  method = "GET";
  path = "/api/v1/audit";
  authorization = "Bearer good";
  body = none;
  context = no_context;
}

abbrev count_calls : Request → Response → ℕ → ℕ × Response
count_calls req w calls = (calls + 1, w)

no_keys_off : (jwt_config (jwt_with (λ n. none)) production).policy.enable_test_jwt ≡ false
unfolding jwt_config resolve_auth_policy policy_of requested_mode is_test_jwt_allowed_env
    parse_bool_env_default app_env_of first_non_empty_env trim_space lookup
no_keys_off = refl

jwt-fail_closed_example :
    jwt
      (jwt_with (λ n. none))
      production
      (jwt_config (jwt_with (λ n. none)) production)
      count_calls
      get_audit_request
      new_response
      0
    ≡ (0, write_header 401 new_response)
jwt-fail_closed_example =
    jwt-fail_closed (jwt_with (λ n. none)) production count_calls get_audit_request new_response 0
      (λ n. refl) no_keys_off
