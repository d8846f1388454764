-- ===== src/Auth/Token.antt =====
-- services/vault-api/middleware/jwt.go: what the middleware JWT does with a token.
--
-- `Jwt` is what the code takes from outside: the packages jwt and keyfunc, the clock, and floats. A
-- `Claims` is the map of claims with the methods that the package has on it.
use merkle_evidence_vault.Prelude.{
  Bool, List, Option, String, [], false, if◌then◌else◌, none, not, some, true, ℕ, ◌&&◌, ◌==◌, ◌||◌,
  ◌∷◌, string_key,
}
use merkle_evidence_vault.Prelude.Int.{ltb_ℤ, pos, ℤ, int_key}
use merkle_evidence_vault.Text.{cut, trim_space}
use merkle_evidence_vault.Auth.{Env}
use merkle_evidence_vault.Auth.Startup.{is_empty}

-- The claim `roles`, by the types that the code tells apart: a list (of any values or of
-- strings) whose elements are strings or something else, a string, or another value.
pub data RolesClaim : Type 0 where
  many : List (Option String) → RolesClaim
  one : String → RolesClaim
  other : RolesClaim

-- `sub`, `iat` and `exp` are none where the claim is missing or has another type. The arguments of
-- the methods are the package's: the value to compare with, and whether the claim is required.
pub record Claims (F : Type 0) : Type 0 where
  pub sub : Option String
  pub roles : Option RolesClaim
  pub iat : Option F
  pub exp : Option F
  pub verify_expires_at : ℤ → Bool → Bool
  pub verify_issued_at : ℤ → Bool → Bool
  pub verify_not_before : ℤ → Bool → Bool
  pub verify_issuer : String → Bool → Bool
  pub verify_audience : String → Bool → Bool

-- A parsed token: `Valid`, the header `kid` where it is a string, and the claims.
pub record Token (F : Type 0) : Type 0 where
  pub valid : Bool
  pub kid : Option String
  pub claims : Claims F

-- `fetch n` is the result of the attempt n+1 to load the keys, none where it fails; `parse` is none
-- where it returns an error. A duration is a number of nanoseconds: `unix_at d` is `now.Add(d).Unix()`, and
-- `unix_sub a b` is `time.Unix(a, 0).Sub(time.Unix(b, 0))`. `times_second` is the product of a
-- duration with a second, `negated` the negation of a duration.
pub record Jwt : Type 1 where
  pub F : Type 0
  pub Keys : Type 0
  pub less : F → F → Bool
  pub int64_of : F → ℤ
  pub unix_at : ℤ → ℤ
  pub unix_sub : ℤ → ℤ → ℤ
  pub times_second : ℤ → ℤ
  pub negated : ℤ → ℤ
  pub fetch : ℕ → Option Keys
  pub parse : Keys → List String → String → Option (Token F)

-- The token behind "Bearer", which is compared without case.
unfoldable pub extract_bearer_token : Env → String → Option String
extract_bearer_token env authorization = elim (cut b' ' (trim_space authorization)) [
  | none ↦ none
  | some (scheme, rest) ↦
      if env.equal_fold scheme "Bearer" && not (trim_space rest == "")
      then some (trim_space rest)
      else none
]

unfoldable pub strings_of : List (Option String) → List String
strings_of [] = []
strings_of (none ∷ vs) = strings_of vs
strings_of (some s ∷ vs) = s ∷ strings_of vs

unfoldable pub parse_roles : Option RolesClaim → List String
parse_roles none = []
parse_roles (some (many vs)) = strings_of vs
parse_roles (some (one s)) = s ∷ []
parse_roles (some other) = []

unfoldable pub has_minimum_rbac_roles : List String → Bool
has_minimum_rbac_roles [] = false
has_minimum_rbac_roles (role ∷ roles) =
    let rest = has_minimum_rbac_roles roles in role == "auditor" || role == "ingester" || rest

abbrev pub is_blank : Option String → Bool
is_blank none = true
is_blank (some s) = trim_space s == ""

unfoldable pub any_audience : (String → Bool → Bool) → List String → Bool
any_audience verify [] = false
any_audience verify (aud ∷ auds) =
    let rest = any_audience verify auds in if verify aud true then true else rest

abbrev is_positive : ℤ → Bool
is_positive d = ltb_ℤ (pos 0) d

module _ (j : Jwt) where
  open j use {F}

  -- The token's lifetime, from `iat` to `exp`, is at most the given one.
  unfoldable pub ttl_ok : ℤ → Option F → Option F → Bool
  ttl_ok max_token_ttl none exp = false
  ttl_ok max_token_ttl (some issued) none = false
  ttl_ok max_token_ttl (some issued) (some expires) =
      not (j.less expires issued)
      && not (ltb_ℤ max_token_ttl (j.unix_sub (j.int64_of expires) (j.int64_of issued)))

  unfoldable pub validate_standard_claims : Claims F → String → List String → ℤ → ℤ → Bool
  validate_standard_claims claims issuer audiences skew max_token_ttl =
      not (is_blank claims.sub)
      && claims.verify_expires_at (j.unix_at (j.negated skew)) true
      && claims.verify_issued_at (j.unix_at skew) false
      && claims.verify_not_before (j.unix_at skew) false
      && (issuer == "" || claims.verify_issuer issuer true)
      && (is_empty audiences || any_audience claims.verify_audience audiences)
      && (not (is_positive max_token_ttl) || ttl_ok max_token_ttl claims.iat claims.exp)
