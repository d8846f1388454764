-- ===== src/CiKeys/Settings.antt =====
-- What the JWT middleware reads from the settings that the CI key server writes.
use merkle_evidence_vault.Prelude.Sorted.{All}
use merkle_evidence_vault.Prelude.{String, [], refl, ◌∷◌, ◌≡◌}
use merkle_evidence_vault.Prelude.Int.{pos}
use merkle_evidence_vault.Text.{split, trim_space}
use merkle_evidence_vault.Auth.{
  Env, first_non_empty_env, parse_csv_env, parse_csv_env_first_non_empty, parse_int_env_default,
  trimmed_parts,
}
use merkle_evidence_vault.Auth.Startup.{audience_of, issuer_of}
use merkle_evidence_vault.Auth.Token.{Jwt}
use merkle_evidence_vault.Auth.Middleware.{jwt_config}
use merkle_evidence_vault.CiKeys.{settings}

-- The environment of an API that is started with the settings of the file.
pub record IsCiEnv (env : Env) (tokens : String × String × String) (port : String) : Type 0 where
  pub from_file : All (λ s. env.getenv s.0 ≡ s.1) (settings tokens port)
  pub no_issuer : env.getenv "JWT_ISSUER" ≡ ""
  pub no_audience : env.getenv "JWT_AUDIENCE" ≡ ""
  pub no_ttl : env.getenv "JWT_MAX_TOKEN_TTL_SECONDS" ≡ ""

module _ (j : Jwt) (env : Env) (tokens : String × String × String) (port : String)
    (ci : IsCiEnv env tokens port) where
  open j use {Keys, F}

  issuer-ci : issuer_of env ≡ "ci-jwks"
  unfolding issuer_of first_non_empty_env settings trim_space
  issuer-ci = let (_, (_, (_, (_, (issuer, _))))) = ci.from_file in rw (ci.no_issuer, issuer) refl

  audience-ci : audience_of env ≡ "vault-api" ∷ []
  unfolding audience_of parse_csv_env_first_non_empty parse_csv_env trimmed_parts settings
      trim_space split
  audience-ci =
      let (_, (_, (_, (_, (_, (audience, _)))))) = ci.from_file in
      rw (ci.no_audience, audience) refl

  pub required-ci :
      ((jwt_config j env).required_issuer ≡ "ci-jwks")
      × ((jwt_config j env).required_audience ≡ "vault-api" ∷ [])
  unfolding jwt_config
  required-ci = (issuer-ci, audience-ci)

  pub ttl-ci : (jwt_config j env).max_token_ttl_seconds ≡ pos 0
  unfolding jwt_config parse_int_env_default trim_space
  ttl-ci = rw ci.no_ttl refl
