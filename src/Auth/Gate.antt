-- ===== src/Auth/Gate.antt =====
-- The JWT middleware in front of a handler: when it lets nothing pass, and what the handlers of
-- checkpoints can count on.
use merkle_evidence_vault.Prelude.{
  Bool, List, Option, Option-cases, String, [], arith, false, if◌then◌else◌, inl, inr, none, refl,
  some, suc, true, zero, ℕ, ◌∷◌, ◌≡◌,
}
use merkle_evidence_vault.Http.{Context, Request, Response, write_header}
use merkle_evidence_vault.Text.{trim_space}
use merkle_evidence_vault.Vault.{access_role, has_checkpoint_access, roles_from_context}
use merkle_evidence_vault.Auth.{Env}
use merkle_evidence_vault.Auth.Startup.{app_env_of}
use merkle_evidence_vault.Auth.Token.{Jwt, has_minimum_rbac_roles, parse_roles}
use merkle_evidence_vault.Auth.Middleware.{authorize, jwt, jwt_config, load_keys}
use merkle_evidence_vault.Auth.Laws.{resolve_auth_policy-IsResolved}
use merkle_evidence_vault.Auth.Verified.{authorize-IsGenuine}

load_keys-none :
    {K : Type 0} (fetch : ℕ → Option K) (i left : ℕ)
    → ((n : ℕ) → fetch n ≡ none)
    → load_keys fetch i left ≡ none
unfolding load_keys
load_keys-none fetch i zero fails = refl
load_keys-none fetch i (suc left) fails =
    rw (fails i, load_keys) (load_keys-none fetch (suc i) left fails)

if_none : {K : Type 0} (b : Bool) (o : Option K) → o ≡ none → (if b then o else none) ≡ none
if_none true o h = h
if_none false o h = refl

access_role-min_roles : (roles : List String) → access_role roles ≡ has_minimum_rbac_roles roles
unfolding access_role has_minimum_rbac_roles
access_role-min_roles [] = refl
access_role-min_roles (role ∷ roles) = let rest = access_role-min_roles roles in ground arith

module _ (j : Jwt) (env : Env) where
  open j use {Keys, F}

  jwks-none : ((n : ℕ) → j.fetch n ≡ none) → (jwt_config j env).jwks ≡ none
  unfolding jwt_config
  jwks-none fails = if_none _ _ (load_keys-none j.fetch 0 _ fails)

  -- If the keys never load and test tokens are off, every request is refused with an empty 401, and
  -- neither the state changes nor does the next handler run.
  pub jwt-fail_closed :
      {S : Type 0} (next : Request → Response → S → S × Response) (req : Request) (w : Response)
      (st : S)
      → ((n : ℕ) → j.fetch n ≡ none)
      → (jwt_config j env).policy.enable_test_jwt ≡ false
      → jwt j env (jwt_config j env) next req w st ≡ (st, write_header 401 w)
  unfolding jwt
  jwt-fail_closed next req w st fails off =
      elim (Option-cases (authorize j env (jwt_config j env) req.authorization)) [
        | inl refused ↦ rw (refused, jwt) refl
        | inr (ctx, passed) ↦
            let (token, keys, t, bearer, loaded, parsed, genuine) =
              authorize-IsGenuine j env req.authorization ctx off passed in
            let missing = jwks-none fails in absurd (ground arith)
      ]

  requires-off :
      (jwt_config j env).policy.require_roles ≡ true
      → (jwt_config j env).policy.enable_test_jwt ≡ false
  unfolding jwt_config
  requires-off rbac =
      let jwks_url = trim_space (env.getenv "JWKS_URL") in
      let (source, cases) = resolve_auth_policy-IsResolved env (app_env_of env) jwks_url in
      elim cases [
        | inl dev ↦ absurd (ground arith)
        | inr (inl rbac') ↦ rw rbac' refl
        | inr (inr strict) ↦ rw strict refl
      ]

  -- Under the policy `jwks_rbac`, every request that the middleware lets pass has a role that the
  -- handlers of checkpoints accept.
  pub authorize-checkpoint_access :
      (authorization : String) (ctx : Context)
      → (jwt_config j env).policy.require_roles ≡ true
      → authorize j env (jwt_config j env) authorization ≡ some ctx
      → has_checkpoint_access ctx ≡ true
  unfolding has_checkpoint_access roles_from_context
  authorize-checkpoint_access authorization ctx rbac passed =
      let (token, keys, t, bearer, loaded, parsed, genuine) =
        authorize-IsGenuine j env authorization ctx (requires-off rbac) passed in
      let same = access_role-min_roles (parse_roles t.claims.roles) in
      let granted = genuine.granted in rw genuine.roles (ground arith)
