-- ===== src/Verifier/Tests.antt =====
-- VerifySTH at concrete inputs, with a verifier that looks at the length of the signature.
use merkle_evidence_vault.Prelude.{[], false, length, none, refl, replicate, some, ◌=ℕ◌, ◌≡◌}
use merkle_evidence_vault.Text.Hex.{decode_hex, encode_hex}
use merkle_evidence_vault.Verifier.{Crypto, ed25519_verify, sha256_hex, verify_sth}

abbrev crypto : Crypto
crypto = record { verify = λ key msg sig. length sig =ℕ 64; sha256 = λ b. replicate 32 (length b) }

verify_sth_tests :
    (verify_sth crypto "0g" [] "" ≡ some false)
    × (verify_sth crypto "00" [] "0" ≡ some false)
    × (verify_sth crypto "00" [] "" ≡ none)
    × (sha256_hex crypto [] ≡ encode_hex (replicate 32 0))
unfolding verify_sth ed25519_verify decode_hex sha256_hex
verify_sth_tests = (refl, refl, refl, refl)
