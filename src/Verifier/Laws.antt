-- ===== src/Verifier/Laws.antt =====
-- What VerifySTH answers for keys and signatures that are encoded in hex.
use merkle_evidence_vault.Prelude.{List, if◌then◌else◌, length, none, refl, some, ℕ, ◌=ℕ◌, ◌≡◌}
use merkle_evidence_vault.Text.Hex.{AreBytes, decode_hex-encode_hex, encode_hex}
use merkle_evidence_vault.Verifier.{Crypto, ed25519_verify, verify_sth}

-- For a key and a signature that are the hex text of bytes, VerifySTH answers what Ed25519 answers
-- for these bytes if the key has 32 of them, and panics otherwise.
pub verify_sth-encode_hex :
    (c : Crypto) (key msg sig : List ℕ)
    → AreBytes key
    → AreBytes sig
    → verify_sth c (encode_hex key) msg (encode_hex sig)
      ≡ (if length key =ℕ 32 then some (c.verify key msg sig) else none)
unfolding verify_sth ed25519_verify
verify_sth-encode_hex c key msg sig kb sb =
    rw (verify_sth, decode_hex-encode_hex key kb, decode_hex-encode_hex sig sb) refl
