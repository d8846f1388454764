-- ===== src/Auth/Verified.antt =====
-- Which requests the JWT middleware lets pass, where test tokens are off.
use mathlib.Core.List.{Memᴰ}
use merkle_evidence_vault.Prelude.{
  Bool, Bool-cases, List, Option, String, [], ap, arith, eq_iff, false, inl, inr, none, not, refl,
  some, sym, true, ◌&&◌, ◌==◌, ◌||◌, ◌∙◌, ◌∷◌, ◌≡◌, ◌≢◌, string_key,
}
use merkle_evidence_vault.Http.{Context}
use merkle_evidence_vault.Text.{cut, or_else, trim_space}
use merkle_evidence_vault.Auth.{Env}
use merkle_evidence_vault.Auth.Startup.{app_env_of, is_empty, issuer_of}
use merkle_evidence_vault.Auth.Token.{
  Jwt, Token, any_audience, extract_bearer_token, has_minimum_rbac_roles, is_blank, parse_roles,
  validate_standard_claims,
}
use merkle_evidence_vault.Auth.Middleware.{
  JwtConfig, authorize, authorize_bearer, authorize_keys, authorize_test, authorize_token,
  config_valid, jwt_config,
}
use merkle_evidence_vault.Auth.Laws.{resolve_auth_policy-IsResolved}

module _ (j : Jwt) (env : Env) where
  open j use {Keys, F}

  -- What is known of a token that passed, and of the context that the next handler gets.
  pub record IsGenuine (cfg : JwtConfig Keys) (t : Token F) (ctx : Context) : Type 0 where
    pub valid : t.valid ≡ true
    pub kid : is_blank t.kid ≡ false
    pub issuer : t.claims.verify_issuer cfg.required_issuer true ≡ true
    pub audience :
        (aud : String) × Memᴰ aud cfg.required_audience × (t.claims.verify_audience aud true ≡ true)
    pub alive :
        t.claims.verify_expires_at (j.unix_at (j.negated (j.times_second cfg.clock_skew))) true
        ≡ true
    pub sub : is_blank t.claims.sub ≡ false
    pub subject : ctx.subject ≡ t.claims.sub
    pub roles : ctx.roles ≡ some (parse_roles t.claims.roles)
    pub granted :
        (not cfg.policy.require_roles || has_minimum_rbac_roles (parse_roles t.claims.roles)) ≡ true

  any_audience-Memᴰ :
      (verify : String → Bool → Bool) (auds : List String)
      → any_audience verify auds ≡ true
      → (aud : String) × Memᴰ aud auds × (verify aud true ≡ true)
  unfolding any_audience
  any_audience-Memᴰ verify [] h = absurd (ground arith)
  any_audience-Memᴰ verify (aud ∷ auds) h = elim (Bool-cases (verify aud true)) [
    | inl accepted ↦ (aud, Memᴰ.head refl, accepted)
    | inr not_accepted ↦
        let (found, m, accepted) = any_audience-Memᴰ verify auds (ground arith) in
        (found, Memᴰ.tail m, accepted)
  ]

  sub-known : (s : Option String) → is_blank s ≡ false → some (or_else "" s) ≡ s
  sub-known none h = absurd (ground arith)
  sub-known (some s) h = refl

  pub authorize_token-IsGenuine :
      (cfg : JwtConfig Keys) (t : Token F) (ctx : Context)
      → authorize_token j env cfg (some t) ≡ some ctx
      → cfg.policy.require_kid ≡ true
      → cfg.required_issuer ≢ ""
      → is_empty cfg.required_audience ≡ false
      → IsGenuine cfg t ctx
  unfolding authorize_token validate_standard_claims
  authorize_token-IsGenuine cfg t ctx h needs_kid issuer audience =
      let named = sub-known t.claims.sub in
      let no_issuer = eq_iff cfg.required_issuer "" in
      record {
        valid = ground arith;
        kid = ground arith;
        issuer = ground arith;
        audience = any_audience-Memᴰ t.claims.verify_audience cfg.required_audience (ground arith);
        alive = ground arith;
        sub = ground arith;
        subject = ground arith;
        roles = ground arith;
        granted = ground arith;
      }

  -- A request passes without test tokens only with a token that the loaded keys parse.
  authorize_keys-passed :
      (cfg : JwtConfig Keys) (token : String) (ctx : Context) (o : Option Keys)
      → cfg.policy.enable_test_jwt ≡ false
      → authorize_keys j env cfg token o ≡ some ctx
      → (keys : Keys) × (t : Token F) × (o ≡ some keys)
        × (j.parse keys cfg.allowed_algs token ≡ some t)
        × (authorize_token j env cfg (some t) ≡ some ctx)
  unfolding authorize_keys authorize_test
  authorize_keys-passed cfg token ctx none off h = absurd (ground arith)
  authorize_keys-passed cfg token ctx (some keys) off h =
      go (j.parse keys cfg.allowed_algs token) refl
    where
      go :
          (o : Option (Token F))
          → j.parse keys cfg.allowed_algs token ≡ o
          → (k : Keys) × (t : Token F) × (some keys ≡ some k)
            × (j.parse k cfg.allowed_algs token ≡ some t)
            × (authorize_token j env cfg (some t) ≡ some ctx)
      go none e = absurd (unfold authorize_token in ground arith)
      go (some t) e = (keys, t, refl, e, ap (authorize_token j env cfg) (sym e) ∙ h)

  -- The keys are loaded for a policy that requires them only.
  jwks-required :
      (keys : Keys)
      → (jwt_config j env).jwks ≡ some keys
      → (jwt_config j env).policy.jwks_required ≡ true
  unfolding jwt_config
  jwks-required keys h = ground arith

  enforced :
      (jwt_config j env).policy.enable_test_jwt ≡ false
      → ((jwt_config j env).policy.require_kid ≡ true)
        × ((jwt_config j env).policy.enforce_required_claim ≡ true)
  unfolding jwt_config
  enforced off =
      let jwks_url = trim_space (env.getenv "JWKS_URL") in
      let (source, cases) = resolve_auth_policy-IsResolved env (app_env_of env) jwks_url in
      elim cases [
        | inl dev ↦ absurd (ground arith)
        | inr (inl rbac) ↦ (rw rbac refl, rw rbac refl)
        | inr (inr strict) ↦ (rw strict refl, rw strict refl)
      ]

  claims_configured :
      (jwt_config j env).strict_config_valid ≡ true
      → (jwt_config j env).policy.enforce_required_claim ≡ true
      → ((jwt_config j env).required_issuer ≢ "")
        × (is_empty (jwt_config j env).required_audience ≡ false)
  unfolding jwt_config config_valid
  claims_configured valid enforces = ground (arith, eq_iff (issuer_of env) "")

  authorize_bearer-passed :
      (cfg : JwtConfig Keys) (token : String) (ctx : Context)
      → authorize_bearer j env cfg (some token) ≡ some ctx
      → (authorize_keys j env cfg token cfg.jwks ≡ some ctx)
        × ((cfg.policy.jwks_required && not cfg.strict_config_valid) ≡ false)
  unfolding authorize_bearer
  authorize_bearer-passed cfg token ctx h = (ground arith, ground arith)

  -- The header is a scheme that is "Bearer" without case, a space, and the token, up to white space
  -- around the header and around the token, which is not empty.
  abbrev pub IsBearer : String → String → Type 0
  IsBearer authorization token =
      (scheme : String) × (rest : String) × (cut b' ' (trim_space authorization)
        ≡ some (scheme, rest))
      × (env.equal_fold scheme "Bearer" ≡ true)
      × (trim_space rest ≡ token)
      × (token ≢ "")

  extract_bearer_token-IsBearer :
      (authorization token : String)
      → extract_bearer_token env authorization ≡ some token
      → IsBearer authorization token
  unfolding extract_bearer_token
  extract_bearer_token-IsBearer authorization token h =
      go (cut b' ' (trim_space authorization)) refl
    where
      go :
          (o : Option (String × String))
          → cut b' ' (trim_space authorization) ≡ o
          → IsBearer authorization token
      go none e = absurd (ground arith)
      go (some (scheme, rest)) e =
          let blank = eq_iff (trim_space rest) "" in
          (scheme, rest, e, ground arith, ground arith, ground arith)

  pub IsBearer-extract_bearer_token :
      (authorization token : String)
      → IsBearer authorization token
      → extract_bearer_token env authorization ≡ some token
  unfolding extract_bearer_token
  IsBearer-extract_bearer_token authorization token (scheme, rest, e, bearer, text, filled) =
      let blank = eq_iff token "" in
      let set : (token == "") ≡ false = ground arith in
      rw (e, extract_bearer_token, bearer, text, set) refl

  -- How a request passes: its token parses under the loaded keys, and is genuine.
  abbrev pub IsPassed : String → Context → Type 0
  IsPassed authorization ctx =
      (token : String) × (keys : Keys) × (t : Token F) × IsBearer authorization token
      × ((jwt_config j env).jwks ≡ some keys)
      × (j.parse keys (jwt_config j env).allowed_algs token ≡ some t)
      × IsGenuine (jwt_config j env) t ctx

  pub authorize-IsGenuine :
      (authorization : String) (ctx : Context)
      → (jwt_config j env).policy.enable_test_jwt ≡ false
      → authorize j env (jwt_config j env) authorization ≡ some ctx
      → IsPassed authorization ctx
  unfolding authorize
  authorize-IsGenuine authorization ctx off = go (extract_bearer_token env authorization) refl
    where
      cfg : JwtConfig Keys
      cfg = jwt_config j env

      go :
          (o : Option String)
          → extract_bearer_token env authorization ≡ o
          → authorize_bearer j env cfg o ≡ some ctx
          → IsPassed authorization ctx
      go none e h = absurd (unfold authorize_bearer in ground arith)
      go (some token) e h =
          let (passed, strict) = authorize_bearer-passed cfg token ctx h in
          let (keys, t, loaded, parsed, accepted) =
            authorize_keys-passed cfg token ctx cfg.jwks off passed in
          let (kid, enforces) = enforced off in
          let required = jwks-required keys loaded in
          let (issuer, audience) = claims_configured (ground arith) enforces in
          (
            token,
            keys,
            t,
            extract_bearer_token-IsBearer authorization token e,
            loaded,
            parsed,
            authorize_token-IsGenuine cfg t ctx accepted kid issuer audience,
          )
