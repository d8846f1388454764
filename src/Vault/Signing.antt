-- ===== src/Vault/Signing.antt =====
-- Checkpoints that the signing service signs, in front of the verification endpoint.
use merkle_evidence_vault.Prelude.{List, String, false, some, true, ℕ, ◌==◌, ◌≡◌, string_key}
use merkle_evidence_vault.Prelude.Int.{int_key}
use merkle_evidence_vault.Prelude.Dict.{Dict, lookup}
use merkle_evidence_vault.Vault.{Host}

abbrev pub signing_url : Host → String
signing_url host = host.getenv "CHECKPOINT_SIGNING_URL"

-- What the signing service does with a payload: a 200 whose body has the base64 text of a signature
-- that verifies for this payload.
pub record Signs (host : Host) (key : List ℕ) (payload : String) : Type 0 where
  pub got : Dict String String
  pub text : String
  pub raw : List ℕ
  pub answered : host.post (signing_url host) payload ≡ some (200, some got)
  pub has_signature : lookup "signature" got ≡ some text
  pub filled : (text == "") ≡ false
  pub decodes : host.decode_base64 text ≡ some raw
  pub verifies : host.ed25519_verify key payload raw ≡ true

-- The service is configured, and signs every payload with the private key of `key`.
pub record SigningService (host : Host) (key : List ℕ) : Type 0 where
  pub configured : (signing_url host == "") ≡ false
  pub signs : (payload : String) → Signs host key payload
