-- ===== src/CiKeys/Tests.antt =====
-- The CI key server and the API at concrete inputs. The signatures are the subjects themselves: the
-- machine signs only the three tokens of the program.
use merkle_evidence_vault.Prelude.{
  Bool, Bool-cases, List, Option, String, [], ap, arith, eq_iff, false, if◌then◌else◌, inl, inr,
  ltb, map, none, not, refl, some, sym, true, ℕ, ◌&&◌, ◌++◌, ◌==◌, ◌∷◌, ◌≡◌, string_key,
}
use merkle_evidence_vault.Prelude.Int.{ltb_ℤ, pos, int_key}
use merkle_evidence_vault.Prelude.Dict.{lookup}
use merkle_evidence_vault.Text.{cut, mem_string, or_else, parse_int, trim_space}
use merkle_evidence_vault.Auth.{
  Env, first_non_empty_env, is_test_jwt_allowed_env, parse_bool_env_default, parse_int_env_default,
  policy_of, requested_mode, resolve_auth_policy,
}
use merkle_evidence_vault.Auth.Token.{Jwt, Token}
use merkle_evidence_vault.Auth.Middleware.{authorize, jwt_config, load_keys}
use merkle_evidence_vault.Auth.Startup.{app_env_of}
use merkle_evidence_vault.CiKeys.{
  Machine, Unsigned, announce, line, lines, listener, make_dirs, make_token, make_tokens, print,
  run_ci, serve_on, settings, unsigned, write_file,
}
use merkle_evidence_vault.Auth.Verified.{IsBearer}
use merkle_evidence_vault.CiKeys.Settings.{IsCiEnv}
use merkle_evidence_vault.CiKeys.Accepted.{
  Carries, IsInTime, Verifies, make_tokens-authorized, roles_claim,
}

is_one : String → List String → Bool
is_one role [] = false
is_one role (r ∷ []) = r == role
is_one role (r ∷ s ∷ roles) = false

is_one-equal : (role : String) (roles : List String) → is_one role roles ≡ true → roles ≡ role ∷ []
unfolding is_one
is_one-equal role [] h = ground arith
is_one-equal role (r ∷ []) h = ap (λ x. x ∷ []) ((eq_iff r role).0 h)
is_one-equal role (r ∷ s ∷ roles) h = ground arith

sign_named : String → Option (List String) → Option String
unfolding is_one
sign_named sub none = if sub == "ci-no-roles" then some "ci-no-roles" else none
sign_named sub (some roles) =
    if sub == "ci-ingester" && is_one "ingester" roles
    then some "ci-ingester"
    else if sub == "ci-auditor" && is_one "auditor" roles
    then some "ci-auditor"
    else none

abbrev machine : Machine ℕ
machine = record {
  generate_key = some 7;
  modulus = λ k. k ∷ [];
  exponent = λ k. 1 ∷ [];
  raw_url_encode = λ b. "AQ";
  marshal = λ j. "{}";
  signed_string = λ k u. sign_named u.claims.sub u.claims.roles;
  now = pos 100;
  in_an_hour = pos 3700;
  getenv = λ name. "";
  listen = λ addr. if addr == ":0" then some "[::]:8081" else none;
  split_host_port = λ addr. some ("::", "8081");
}

abbrev made : String × String × String
made = ("ci-ingester", "ci-auditor", "ci-no-roles")

made_test : make_tokens machine 7 ≡ some made
unfolding make_tokens make_token unsigned sign_named
made_test = refl

run_ci_test :
    run_ci machine
    ≡ write_file "scripts/jwks.json" "{}"
        ∷ make_dirs "scripts"
        ∷ write_file "scripts/ci_jwks_env.txt" (lines (settings made "8081"))
        ∷ map (λ s. print (line s)) (settings made "8081")
      ++ serve_on "8081" "{}" ∷ []
unfolding run_ci make_tokens make_token unsigned sign_named listener announce
run_ci_test = refl

-- A token whose methods do what the package says.
abbrev token_of : Unsigned → Token ℕ
token_of u = record {
  valid = true;
  kid = some u.kid;
  claims = record {
    sub = some u.claims.sub;
    roles = roles_claim u.claims.roles;
    iat = none;
    exp = none;
    verify_expires_at = λ n required. ltb_ℤ n u.claims.exp;
    verify_issued_at = λ n required. not (ltb_ℤ n u.claims.iat);
    verify_not_before = λ n required. not required;
    verify_issuer = λ iss required. iss == u.claims.iss;
    verify_audience = λ a required. mem_string a u.claims.aud;
  };
}

token_of-Carries : (u : Unsigned) → Carries (token_of u) u
token_of-Carries u = record {
  valid = refl;
  kid = refl;
  sub = refl;
  roles = refl;
  expires = λ n h. h;
  issued = λ n h. ground arith;
  started = λ n. refl;
  issuer = (eq_iff u.claims.iss u.claims.iss).1 refl;
  audience = λ a h. h;
}

parse_named : String → Option (Token ℕ)
parse_named s =
    if s == "ci-ingester"
    then some (token_of (unsigned machine "ci-ingester" (some ("ingester" ∷ []))))
    else if s == "ci-auditor"
    then some (token_of (unsigned machine "ci-auditor" (some ("auditor" ∷ []))))
    else if s == "ci-no-roles"
    then some (token_of (unsigned machine "ci-no-roles" none))
    else none

abbrev jwt_package : Jwt
jwt_package = record {
  F = ℕ;
  Keys = ℕ;
  less = ltb;
  int64_of = pos;
  unix_at = λ d. pos 200;
  unix_sub = λ a b. pos 0;
  times_second = λ d. d;
  negated = λ d. d;
  fetch = λ n. some 7;
  parse = λ keys algs s. parse_named s;
}

abbrev ci_env : Env
ci_env = record {
  getenv = λ name. or_else "" (lookup name (("AUTH_POLICY", "jwks_rbac") ∷ settings made "8081"));
  to_lower = λ s. s;
  equal_fold = λ s t. s == t;
}

ci_env-IsCiEnv : IsCiEnv ci_env made "8081"
unfolding lookup settings
ci_env-IsCiEnv = record {
  from_file = (refl, (refl, (refl, (refl, (refl, (refl, tt))))));
  no_issuer = refl;
  no_audience = refl;
  no_ttl = refl;
}

in_time : IsInTime machine jwt_package ci_env made "8081" ci_env-IsCiEnv
unfolding jwt_config parse_int_env_default trim_space lookup
in_time = record {
  unexpired = refl;
  begun = omega arith;
  zero_seconds = refl;
  alive = refl;
  signed = omega arith;
}

-- What the machine signs is parsed.
abbrev Parsed : String → Option (List String) → String → Type 0
Parsed sub roles s =
    (t : Token ℕ) × (parse_named s ≡ some t) × Carries t (unsigned machine sub roles)

Parsed-named :
    (name sub : String) (known roles : Option (List String)) (s : String)
    → sub ≡ name
    → roles ≡ known
    → some name ≡ some s
    → parse_named name ≡ some (token_of (unsigned machine name known))
    → Parsed sub roles s
Parsed-named name sub known roles s same_sub same_roles same_text parsed =
    let text : s ≡ name = sym (ap (or_else name) same_text) in
    rw (same_sub, same_roles, text)
      (
        token_of (unsigned machine name known),
        parsed,
        token_of-Carries (unsigned machine name known),
      )

Parsed-some :
    (sub : String) (roles : List String) (s : String)
    → sign_named sub (some roles) ≡ some s
    → Parsed sub (some roles) s
unfolding sign_named parse_named
Parsed-some sub roles s h = elim (Bool-cases (sub == "ci-ingester" && is_one "ingester" roles)) [
  | inl ingester ↦
      Parsed-named "ci-ingester" sub (some ("ingester" ∷ [])) (some roles) s
        ((eq_iff sub "ci-ingester").0 (ground arith))
        (ap some (is_one-equal "ingester" roles (ground arith))) (ground arith) refl
  | inr differs ↦
      Parsed-named "ci-auditor" sub (some ("auditor" ∷ [])) (some roles) s
        ((eq_iff sub "ci-auditor").0 (ground arith))
        (ap some (is_one-equal "auditor" roles (ground arith))) (ground arith) refl
]

Parsed-none : (sub s : String) → sign_named sub none ≡ some s → Parsed sub none s
unfolding sign_named parse_named
Parsed-none sub s h =
    Parsed-named "ci-no-roles" sub none none s ((eq_iff sub "ci-no-roles").0 (ground arith)) refl
      (ground arith) refl

machine-Verifies : Verifies machine jwt_package ci_env made "8081" ci_env-IsCiEnv 7 7
unfolding unsigned
machine-Verifies sub none s signed begun unexpired = Parsed-none sub s signed
machine-Verifies sub (some roles) s signed begun unexpired = Parsed-some sub roles s signed

asks_roles : (jwt_config jwt_package ci_env).policy.require_roles ≡ true
unfolding jwt_config resolve_auth_policy policy_of requested_mode is_test_jwt_allowed_env
    parse_bool_env_default app_env_of first_non_empty_env trim_space lookup
asks_roles = refl

no_roles-IsBearer : IsBearer jwt_package ci_env "Bearer ci-no-roles" "ci-no-roles"
unfolding trim_space cut
no_roles-IsBearer = (
  "Bearer",
  "ci-no-roles",
  refl,
  refl,
  refl,
  λ e. (let same = (eq_iff "ci-no-roles" "").1 e in ground arith),
)

auditor-IsBearer : IsBearer jwt_package ci_env "Bearer ci-auditor" "ci-auditor"
unfolding trim_space cut
auditor-IsBearer = (
  "Bearer",
  "ci-auditor",
  refl,
  refl,
  refl,
  λ e. (let same = (eq_iff "ci-auditor" "").1 e in ground arith),
)

ingester-IsBearer : IsBearer jwt_package ci_env "Bearer ci-ingester" "ci-ingester"
unfolding trim_space cut
ingester-IsBearer = (
  "Bearer",
  "ci-ingester",
  refl,
  refl,
  refl,
  λ e. (let same = (eq_iff "ci-ingester" "").1 e in ground arith),
)

loaded_test : (jwt_config jwt_package ci_env).jwks ≡ some 7
unfolding jwt_config resolve_auth_policy policy_of requested_mode is_test_jwt_allowed_env
    parse_bool_env_default parse_int_env_default app_env_of first_non_empty_env trim_space lookup
    load_keys parse_int settings
loaded_test = refl

make_tokens-authorized_example :
    (authorize jwt_package ci_env (jwt_config jwt_package ci_env) "Bearer ci-ingester"
      ≡ some (record { roles = some ("ingester" ∷ []); subject = some "ci-ingester" }))
    × (authorize jwt_package ci_env (jwt_config jwt_package ci_env) "Bearer ci-auditor"
        ≡ some (record { roles = some ("auditor" ∷ []); subject = some "ci-auditor" }))
    × (authorize jwt_package ci_env (jwt_config jwt_package ci_env) "Bearer ci-no-roles" ≡ none)
make_tokens-authorized_example =
    make_tokens-authorized machine jwt_package ci_env made "8081" ci_env-IsCiEnv 7 7
      "Bearer ci-ingester" "Bearer ci-auditor" "Bearer ci-no-roles" made_test machine-Verifies
      in_time asks_roles loaded_test ingester-IsBearer auditor-IsBearer no_roles-IsBearer
