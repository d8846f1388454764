-- ===== src/Auth.antt =====
-- services/vault-api/middleware/jwt.go: the environment that the JWT middleware reads, and the
-- authentication policy that it resolves from it. Auth/Startup.antt has the check at the server's
-- start, Auth/Token.antt the checks of a token, Auth/Middleware.antt the middleware.
--
-- `Env` is the process's environment with the two functions of `strings` that fold case, which are
-- tables of Unicode.
pub mod Startup
pub mod Token
pub mod Middleware
pub mod Laws
pub mod Verified
pub mod Gate
pub mod Tests
use Prim.Native.String
use merkle_evidence_vault.Prelude.{
  Bool, List, String, [], false, if◌then◌else◌, none, not, some, true, ◌++◌, ◌==◌, ◌||◌, ◌∷◌,
  string_key,
}
use merkle_evidence_vault.Prelude.Int.{negsuc, pos, ℤ, int_key}
use merkle_evidence_vault.Text.{mem_string, or_else, parse_bool, parse_int, split, trim_space}

pub record Env : Type 0 where
  pub getenv : String → String
  pub to_lower : String → String
  pub equal_fold : String → String → Bool

unfoldable pub first_non_empty_env : Env → List String → String
first_non_empty_env env [] = ""
first_non_empty_env env (name ∷ names) =
    let rest = first_non_empty_env env names in
    let v = trim_space (env.getenv name) in if v == "" then rest else v

unfoldable pub parse_bool_env_default : Env → String → Bool → Bool
parse_bool_env_default env name fallback =
    let v = trim_space (env.to_lower (env.getenv name)) in
    if v == "" then fallback else or_else fallback (parse_bool v)

abbrev not_negative : ℤ → ℤ → ℤ
not_negative fallback (pos n) = pos n
not_negative fallback (negsuc n) = fallback

unfoldable pub parse_int_env_default : Env → String → ℤ → ℤ
parse_int_env_default env name fallback =
    let v = trim_space (env.getenv name) in
    if v == ""
    then fallback
    else elim (parse_int v) [ none ↦ fallback | some n ↦ not_negative fallback n ]

-- The loop that keeps the parts that are not blank.
unfoldable pub trimmed_parts : List String → List String
trimmed_parts [] = []
trimmed_parts (p ∷ parts) =
    let rest = trimmed_parts parts in let s = trim_space p in if s == "" then rest else s ∷ rest

unfoldable pub parse_csv_env : Env → String → List String
parse_csv_env env name =
    let v = trim_space (env.getenv name) in if v == "" then [] else trimmed_parts (split b',' v)

abbrev or_values : List String → List String → List String
or_values [] others = others
or_values (v ∷ vals) others = v ∷ vals

unfoldable pub parse_csv_env_first_non_empty : Env → List String → List String
parse_csv_env_first_non_empty env [] = []
parse_csv_env_first_non_empty env (name ∷ names) =
    or_values (parse_csv_env env name) (parse_csv_env_first_non_empty env names)

unfoldable pub parse_csv_env_default : Env → String → List String → List String
parse_csv_env_default env name defaults = or_values (parse_csv_env env name) defaults

unfoldable pub is_test_jwt_allowed_env : Env → String → Bool
is_test_jwt_allowed_env env app_env =
    if parse_bool_env_default env "ALLOW_INSECURE_DEV" false
    then true
    else mem_string app_env ("" ∷ "dev" ∷ "development" ∷ "local" ∷ "test" ∷ "ci" ∷ [])

pub record ResolvedAuthPolicy : Type 0 where
  pub mode : String
  pub source : String
  pub enable_test_jwt : Bool
  pub jwks_required : Bool
  pub enforce_required_claim : Bool
  pub require_kid : Bool
  pub require_roles : Bool

-- The mode that AUTH_POLICY names, or the one that the older settings stand for, and its source.
unfoldable pub requested_mode : Env → String → String × String
requested_mode env jwks_url =
    let mode = env.to_lower (trim_space (env.getenv "AUTH_POLICY")) in
    if not (mode == "")
    then (mode, "explicit_auth_policy")
    else if parse_bool_env_default env "JWT_REQUIRE_ROLES" false
    then ("jwks_rbac", "legacy_jwt_require_roles")
    else if not (trim_space jwks_url == "")
        || parse_bool_env_default env "JWT_REQUIRE_KID" false
        || parse_bool_env_default env "JWT_ENFORCE_REQUIRED_CLAIMS" false
    then ("jwks_strict", "legacy_jwks_settings")
    else if parse_bool_env_default env "ENABLE_TEST_JWT" false
    then ("dev", "legacy_enable_test_jwt")
    else ("jwks_strict", "default_strict")

abbrev pub strict_policy : String → String → ResolvedAuthPolicy
strict_policy jwks_url source = record {
  mode = "jwks_strict";
  source = source;
  enable_test_jwt = false;
  jwks_required = not (trim_space jwks_url == "");
  enforce_required_claim = true;
  require_kid = true;
  require_roles = false;
}

abbrev pub rbac_policy : String → ResolvedAuthPolicy
rbac_policy source = record {
  mode = "jwks_rbac";
  source = source;
  enable_test_jwt = false;
  jwks_required = true;
  enforce_required_claim = true;
  require_kid = true;
  require_roles = true;
}

abbrev pub dev_policy : String → ResolvedAuthPolicy
dev_policy source = record {
  mode = "dev";
  source = source;
  enable_test_jwt = true;
  jwks_required = false;
  enforce_required_claim = false;
  require_kid = false;
  require_roles = false;
}

-- The `switch` over the mode.
unfoldable pub policy_of : Bool → String → String → String → ResolvedAuthPolicy
policy_of allowed jwks_url mode source =
    if mode == "dev"
    then (if allowed
        then dev_policy source
        else strict_policy jwks_url (String.◌++◌ source "_downgraded_non_dev"))
    else if mode == "jwks_rbac"
    then rbac_policy source
    else if mode == "jwks_strict"
    then strict_policy jwks_url source
    else strict_policy jwks_url "invalid_auth_policy_default"

unfoldable pub resolve_auth_policy : Env → String → String → ResolvedAuthPolicy
resolve_auth_policy env app_env jwks_url =
    let (mode, source) = requested_mode env jwks_url in
    policy_of (is_test_jwt_allowed_env env app_env) jwks_url mode source
