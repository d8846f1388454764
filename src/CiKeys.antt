-- ===== src/CiKeys.antt =====
-- scripts/ci_jwks.go: the server that gives the end-to-end tests a key, three tokens signed with it,
-- and the settings under which the vault's API accepts them. The log entries are left out.
pub mod Settings
pub mod Accepted
mod Tests
use Prim.Native.String
use merkle_evidence_vault.Prelude.{
  List, Option, String, [], if◌then◌else◌, map, none, some, ℕ, ◌++◌, ◌==◌, ◌∷◌, string_key,
}
use merkle_evidence_vault.Prelude.Int.{ℤ}
use merkle_evidence_vault.Http.{
  Json, Response, arr, items, object, set_header, str, write_header, write_text,
}

-- The claims of a token; `roles` is none for a nil slice, which JSON writes as null.
pub record CiClaims : Type 0 where
  pub sub : String
  pub roles : Option (List String)
  pub aud : List String
  pub iat : ℤ
  pub exp : ℤ
  pub iss : String

-- A token before it is signed.
pub record Unsigned : Type 0 where
  pub alg : String
  pub kid : String
  pub claims : CiClaims

-- What the program takes from outside, `none` and false where a call returns an error: RSA keys of
-- 2048 bits with the bytes of their modulus and exponent, base64, JSON, the signing of a token, the
-- clock in seconds, now and in an hour, the environment, files, and the network. The address of a
-- listener is a text.
pub record Machine (K : Type 0) : Type 0 where
  pub generate_key : Option K
  pub modulus : K → List ℕ
  pub exponent : K → List ℕ
  pub raw_url_encode : List ℕ → String
  pub marshal : Json → String
  pub signed_string : K → Unsigned → Option String
  pub now : ℤ
  pub in_an_hour : ℤ
  pub getenv : String → String
  pub listen : String → Option String
  pub split_host_port : String → Option (String × String)

-- What the program does, in order. An error of the first three is only logged.
pub data Effect : Type 0 where
  write_file : (path text : String) → Effect
  make_dirs : (path : String) → Effect
  print : (text : String) → Effect
  serve_on : (port jwks : String) → Effect
  fatal : (reason : String) → Effect

module _ {K : Type 0} (m : Machine K) where
  unfoldable pub make_jwk : K → Json
  make_jwk priv = object (
      ("kty", str "RSA")
      ∷ ("kid", str "ci-test-key")
      ∷ ("use", str "sig")
      ∷ ("alg", str "RS256")
      ∷ ("n", str (m.raw_url_encode (m.modulus priv)))
      ∷ ("e", str (m.raw_url_encode (m.exponent priv)))
      ∷ [])

  unfoldable pub jwks : K → Json
  unfolding make_jwk
  jwks priv = object (("keys", arr (items (make_jwk priv ∷ []))) ∷ [])

  unfoldable pub unsigned : String → Option (List String) → Unsigned
  unsigned sub roles = record {
    alg = "RS256";
    kid = "ci-test-key";
    claims = record {
      sub = sub;
      roles = roles;
      aud = "vault-api" ∷ [];
      iat = m.now;
      exp = m.in_an_hour;
      iss = "ci-jwks";
    };
  }

  unfoldable pub make_token : K → String → Option (List String) → Option String
  unfolding unsigned
  make_token priv sub roles = m.signed_string priv (unsigned sub roles)

  infixl 5 ◌>>=◌
  abbrev ◌>>=◌ : {A B : Type 0} → Option A → (A → Option B) → Option B
  none >>= f = none
  some a >>= f = f a

  -- The tokens of the ingester, the auditor and the caller without roles.
  unfoldable pub make_tokens : K → Option (String × String × String)
  unfolding make_token
  make_tokens priv = do
    ingester ← make_token priv "ci-ingester" (some ("ingester" ∷ []))
    auditor ← make_token priv "ci-auditor" (some ("auditor" ∷ []))
    no_roles ← make_token priv "ci-no-roles" none
    some (ingester, auditor, no_roles)

  -- The address that is listened on: the port of the environment, or any port.
  unfoldable pub listener : Option String
  listener =
      let port = m.getenv "CI_JWKS_PORT" in
      elim (m.listen (String.◌++◌ ":" (if port == "" then "0" else port))) [
        | none ↦ m.listen ":0"
        | some addr ↦ some addr
      ]

-- The settings in the file for the tests, and one of them as a line.
unfoldable pub settings : String × String × String → String → List (String × String)
settings (ingester, auditor, no_roles) port =
    ("E2E_INGESTER_TOKEN", ingester)
    ∷ ("E2E_AUDITOR_TOKEN", auditor)
    ∷ ("E2E_NO_ROLES_TOKEN", no_roles)
    ∷ ("JWKS_URL", String.◌++◌ "http://localhost:" (String.◌++◌ port "/jwks.json"))
    ∷ ("JWT_REQUIRED_ISSUER", "ci-jwks")
    ∷ ("JWT_REQUIRED_AUDIENCE", "vault-api")
    ∷ []

unfoldable pub line : String × String → String
line (name, value) = String.◌++◌ name (String.◌++◌ "=" (String.◌++◌ value "\n"))

unfoldable pub lines : List (String × String) → String
unfolding line
lines [] = ""
lines (s ∷ rest) = String.◌++◌ (line s) (lines rest)

-- What follows once the address is known.
unfoldable pub announce : String × String × String → String → Option (String × String) → List Effect
unfolding settings lines line
announce tokens jwks_text none = fatal "failed to parse listener address" ∷ []
announce tokens jwks_text (some (host, port)) =
    write_file "scripts/ci_jwks_env.txt" (lines (settings tokens port))
      ∷ map (λ s. print (line s)) (settings tokens port)
    ++ serve_on port jwks_text ∷ []

module _ {K : Type 0} (m : Machine K) where
  unfoldable pub listen_and_announce : String × String × String → String → List Effect
  unfolding announce listener
  listen_and_announce tokens jwks_text = elim (listener m) [
    | none ↦ fatal "failed to listen on fallback port" ∷ []
    | some addr ↦ announce tokens jwks_text (m.split_host_port addr)
  ]

  unfoldable pub with_tokens : K → Option (String × String × String) → List Effect
  unfolding listen_and_announce jwks
  with_tokens priv none = fatal "failed to sign token" ∷ []
  with_tokens priv (some tokens) =
      let jwks_text = m.marshal (jwks m priv) in
      write_file "scripts/jwks.json" jwks_text
      ∷ make_dirs "scripts"
      ∷ listen_and_announce tokens jwks_text

  unfoldable pub with_key : Option K → List Effect
  unfolding with_tokens make_tokens
  with_key none = fatal "failed to generate key" ∷ []
  with_key (some priv) = with_tokens priv (make_tokens m priv)

  -- `main`
  unfoldable pub run_ci : List Effect
  unfolding with_key
  run_ci = with_key m.generate_key

-- The two handlers.
unfoldable pub serve_jwks : String → Response → Response
unfolding write_text set_header
serve_jwks jwks_text w = write_text jwks_text (set_header "Content-Type" "application/json" w)

unfoldable pub serve_health : Response → Response
unfolding write_text write_header
serve_health w = write_text "ok" (write_header 200 w)
