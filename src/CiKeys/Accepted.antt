-- ===== src/CiKeys/Accepted.antt =====
-- The vault's API behind the settings that the CI key server writes: which of its tokens the JWT
-- middleware accepts.
use merkle_evidence_vault.Prelude.{
  Bool, List, Option, String, [], ap, arith, false, if◌then◌else◌, map, none, not, refl, some, true,
  ◌&&◌, ◌∙◌, ◌∷◌, ◌≡◌,
}
use merkle_evidence_vault.Prelude.Int.{ltb_ℤ, pos, ℤ, ◌≤ℤ◌}
use merkle_evidence_vault.Text.{mem_string, or_else, trim_space}
use merkle_evidence_vault.Auth.{Env}
use merkle_evidence_vault.Auth.Token.{
  Jwt, RolesClaim, Token, any_audience, has_minimum_rbac_roles, is_blank, many, parse_roles,
  strings_of, validate_standard_claims,
}
use merkle_evidence_vault.Auth.Middleware.{
  authorize, authorize_bearer, authorize_keys, authorize_token, config_valid, jwt_config,
}
use merkle_evidence_vault.Auth.Verified.{IsBearer, IsBearer-extract_bearer_token}
use merkle_evidence_vault.CiKeys.Settings.{IsCiEnv, required-ci, ttl-ci}
use merkle_evidence_vault.CiKeys.{Machine, Unsigned, make_token, make_tokens, unsigned}
use merkle_evidence_vault.Http.{Context}

-- The claim `roles` as the package jwt decodes it: null is read as a missing claim.
abbrev pub roles_claim : Option (List String) → Option RolesClaim
roles_claim none = none
roles_claim (some roles) = some (many (map some roles))

-- A parsed token carries the header and the claims that it was signed with, and the methods of its
-- claims do what the package jwt says of them: it expires at `exp`, is issued at `iat`, and there is
-- no `nbf`.
pub record Carries {F : Type 0} (t : Token F) (u : Unsigned) : Type 0 where
  pub valid : t.valid ≡ true
  pub kid : t.kid ≡ some u.kid
  pub sub : t.claims.sub ≡ some u.claims.sub
  pub roles : t.claims.roles ≡ roles_claim u.claims.roles
  pub expires : (n : ℤ) → ltb_ℤ n u.claims.exp ≡ true → t.claims.verify_expires_at n true ≡ true
  pub issued : (n : ℤ) → u.claims.iat ≤ℤ n → t.claims.verify_issued_at n false ≡ true
  pub started : (n : ℤ) → t.claims.verify_not_before n false ≡ true
  pub issuer : t.claims.verify_issuer u.claims.iss true ≡ true
  pub audience :
      (a : String) → mem_string a u.claims.aud ≡ true → t.claims.verify_audience a true ≡ true

strings_of-map : (roles : List String) → strings_of (map some roles) ≡ roles
unfolding strings_of
strings_of-map [] = refl
strings_of-map (role ∷ roles) = ap (λ rs. role ∷ rs) (strings_of-map roles)

parse_roles-claim :
    (roles : Option (List String)) → parse_roles (roles_claim roles) ≡ or_else [] roles
unfolding parse_roles
parse_roles-claim none = refl
parse_roles-claim (some roles) = strings_of-map roles

module _ {K : Type 0} (m : Machine K) (j : Jwt) (env : Env) (tokens : String × String × String)
    (port : String) (ci : IsCiEnv env tokens port) where
  open j use {Keys, F}

  -- The clock of the API is not before the signing, and not an hour after it, also when the skew that
  -- the API allows is added or taken away; a duration of zero seconds is zero.
  pub record IsInTime : Type 0 where
    pub unexpired : ltb_ℤ (j.unix_at (pos 0)) m.in_an_hour ≡ true
    pub begun : m.now ≤ℤ j.unix_at (pos 0)
    pub zero_seconds : j.times_second (pos 0) ≡ pos 0
    pub alive :
        ltb_ℤ (j.unix_at (j.negated (j.times_second (jwt_config j env).clock_skew))) m.in_an_hour
        ≡ true
    pub signed : m.now ≤ℤ j.unix_at (j.times_second (jwt_config j env).clock_skew)

  -- The context of a caller, or the refusal of one without a role where the policy asks for one.
  abbrev pub granted : String → List String → Option Context
  granted sub roles =
      if (jwt_config j env).policy.require_roles && not (has_minimum_rbac_roles roles)
      then none
      else some (record { roles = some roles; subject = some sub })

  no_kid : (asked : Bool) → (asked && is_blank (some "ci-test-key")) ≡ false
  unfolding trim_space
  no_kid true = refl
  no_kid false = refl

  standard-Carries :
      (t : Token F) (sub : String) (roles : Option (List String))
      → IsInTime
      → Carries t (unsigned m sub roles)
      → is_blank (some sub) ≡ false
      → validate_standard_claims j t.claims "ci-jwks"
          ("vault-api" ∷ [])
          (j.times_second (jwt_config j env).clock_skew)
          (pos 0)
        ≡ true
  unfolding validate_standard_claims unsigned any_audience
  standard-Carries t sub roles time carries named =
      let alive =
        carries.expires (j.unix_at (j.negated (j.times_second (jwt_config j env).clock_skew)))
          time.alive in
      let issued =
        carries.issued (j.unix_at (j.times_second (jwt_config j env).clock_skew)) time.signed in
      let started = carries.started (j.unix_at (j.times_second (jwt_config j env).clock_skew)) in
      rw
        (
          carries.sub,
          named,
          alive,
          issued,
          started,
          carries.issuer,
          carries.audience "vault-api" refl,
        )
        refl

  authorize_token-Carries :
      (t : Token F) (sub : String) (roles : Option (List String))
      → IsInTime
      → Carries t (unsigned m sub roles)
      → is_blank (some sub) ≡ false
      → authorize_token j env (jwt_config j env) (some t) ≡ granted sub (or_else [] roles)
  unfolding authorize_token unsigned
  authorize_token-Carries t sub roles time carries named =
      let (issuer, audience) = required-ci j env tokens port ci in
      let standard = standard-Carries t sub roles time carries named in
      let kid = no_kid (jwt_config j env).policy.require_kid in
      let listed = ap parse_roles carries.roles ∙ parse_roles-claim roles in
      rw
        (
          carries.valid,
          carries.kid,
          kid,
          issuer,
          audience,
          ttl-ci j env tokens port ci,
          time.zero_seconds,
          standard,
          listed,
          carries.sub,
        )
        refl

  made_tokens :
      (priv : K)
      → make_tokens m priv ≡ some tokens
      → (m.signed_string priv (unsigned m "ci-ingester" (some ("ingester" ∷ []))) ≡ some tokens.0)
        × (m.signed_string priv (unsigned m "ci-auditor" (some ("auditor" ∷ []))) ≡ some tokens.1)
        × (m.signed_string priv (unsigned m "ci-no-roles" none) ≡ some tokens.2)
  unfolding make_tokens make_token
  made_tokens priv made = ground arith

  -- With the keys that the API has loaded, the package jwt parses the tokens of the server, if the
  -- time is between `iat` and `exp`, as the parser checks itself.
  abbrev pub Verifies : K → Keys → Type 0
  Verifies priv keys =
      (sub : String) (roles : Option (List String)) (s : String)
      → m.signed_string priv (unsigned m sub roles) ≡ some s
      → m.now ≤ℤ j.unix_at (pos 0)
      → ltb_ℤ (j.unix_at (pos 0)) m.in_an_hour ≡ true
      → (t : Token F) × (j.parse keys (jwt_config j env).allowed_algs s ≡ some t)
        × Carries t (unsigned m sub roles)

  authorize_keys-signed :
      (priv : K) (keys : Keys) (s sub : String) (roles : Option (List String))
      → IsInTime
      → Verifies priv keys
      → is_blank (some sub) ≡ false
      → m.signed_string priv (unsigned m sub roles) ≡ some s
      → authorize_keys j env (jwt_config j env) s (some keys) ≡ granted sub (or_else [] roles)
  unfolding authorize_keys
  authorize_keys-signed priv keys s sub roles time verifies named signed =
      let (t, parsed, carries) = verifies sub roles s signed time.begun time.unexpired in
      rw parsed (authorize_token-Carries t sub roles time carries named)

  -- The keys are loaded only where their URL is set, which is the last of the checks of the configuration.
  config_valid-loaded :
      (keys : Keys)
      → (jwt_config j env).jwks ≡ some keys
      → (jwt_config j env).strict_config_valid ≡ true
  unfolding jwt_config config_valid
  config_valid-loaded keys loaded =
      let (issuer, audience) = required-ci j env tokens port ci in
      rw (issuer, audience) (ground arith)

  authorize-loaded :
      (authorization token : String) (keys : Keys)
      → (jwt_config j env).jwks ≡ some keys
      → IsBearer j env authorization token
      → authorize j env (jwt_config j env) authorization
        ≡ authorize_keys j env (jwt_config j env) token (some keys)
  unfolding authorize authorize_bearer
  authorize-loaded authorization token keys loaded bearer =
      let found = IsBearer-extract_bearer_token j env authorization token bearer in
      let valid = config_valid-loaded keys loaded in
      rw (found, authorize_bearer, valid, loaded) (ground arith)

  -- An API that is started with the settings of the file, asks for roles, and has loaded the keys
  -- that verify the server's tokens, accepts a request behind the ingester's or the auditor's token, each
  -- with its one role and its subject, and refuses the one behind the token without roles, at a time that
  -- is not an hour after the signing, with the skew that it allows or without.
  pub make_tokens-authorized :
      (priv : K) (keys : Keys) (ingest audit bare : String)
      → make_tokens m priv ≡ some tokens
      → Verifies priv keys
      → IsInTime
      → (jwt_config j env).policy.require_roles ≡ true
      → (jwt_config j env).jwks ≡ some keys
      → IsBearer j env ingest tokens.0
      → IsBearer j env audit tokens.1
      → IsBearer j env bare tokens.2
      → (authorize j env (jwt_config j env) ingest
          ≡ some (record { roles = some ("ingester" ∷ []); subject = some "ci-ingester" }))
        × (authorize j env (jwt_config j env) audit
            ≡ some (record { roles = some ("auditor" ∷ []); subject = some "ci-auditor" }))
        × (authorize j env (jwt_config j env) bare ≡ none)
  unfolding trim_space has_minimum_rbac_roles
  make_tokens-authorized priv keys ingest audit bare made verifies time asks loaded first second
        third =
      let (ingester, auditor, no_roles) = made_tokens priv made in
      let accept = authorize_keys-signed priv keys in
      let refused = accept tokens.2 "ci-no-roles" none time verifies refl no_roles in
      (
        authorize-loaded ingest tokens.0 keys loaded first
            ∙ accept tokens.0 "ci-ingester" (some ("ingester" ∷ [])) time verifies refl ingester
            ∙ rw asks refl,
        authorize-loaded audit tokens.1 keys loaded second
            ∙ accept tokens.1 "ci-auditor" (some ("auditor" ∷ [])) time verifies refl auditor
            ∙ rw asks refl,
        authorize-loaded bare tokens.2 keys loaded third ∙ refused ∙ rw asks refl,
      )
