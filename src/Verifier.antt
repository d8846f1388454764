-- ===== src/Verifier.antt =====
-- services/verifier-cli/verifier/crypto.go: VerifySTH and SHA256Hex.
pub mod Laws
mod Tests
use merkle_evidence_vault.Prelude.{
  Bool, List, Option, String, false, if◌then◌else◌, length, none, some, ℕ, ◌=ℕ◌,
}
use merkle_evidence_vault.Text.Hex.{decode_hex, encode_hex}

-- Go's packages crypto/ed25519 and crypto/sha256. `verify` is what ed25519.Verify answers for a
-- public key of 32 bytes; it panics on a key of another length.
pub record Crypto : Type 0 where
  pub verify : List ℕ → List ℕ → List ℕ → Bool
  pub sha256 : List ℕ → List ℕ

-- ed25519.Verify, `none` where it panics.
unfoldable pub ed25519_verify : Crypto → List ℕ → List ℕ → List ℕ → Option Bool
ed25519_verify c key msg sig = if length key =ℕ 32 then some (c.verify key msg sig) else none

unfoldable pub verify_sth : Crypto → String → List ℕ → String → Option Bool
unfolding ed25519_verify
verify_sth c pub_hex msg sig_hex = elim (decode_hex pub_hex) [
  | none ↦ some false
  | some key ↦ elim (decode_hex sig_hex) [
    | none ↦ some false
    | some sig ↦ ed25519_verify c key msg sig
  ]
]

unfoldable pub sha256_hex : Crypto → List ℕ → String
sha256_hex c b = encode_hex (c.sha256 b)
