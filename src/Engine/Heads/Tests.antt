-- ===== src/Engine/Heads/Tests.antt =====
-- Signed tree heads and the health server at concrete inputs.
use merkle_evidence_vault.Prelude.{
  List, String, [], arith, get_elem?, if◌then◌else◌, length, none, refl, replicate, some, sym, ℕ,
  ◌%◌, ◌&&◌, ◌=ℕ◌, ◌∙◌, ◌∷◌, ◌≡◌, ◌⊎◌,
}
use merkle_evidence_vault.Text.{cut_prefix, or_else}
use merkle_evidence_vault.Text.Utf8.{utf8}
use merkle_evidence_vault.Digest.{Collision}
use merkle_evidence_vault.Verifier.{Crypto}
use merkle_evidence_vault.Engine.Shape.{Logged}
use merkle_evidence_vault.Engine.{append, new_tree, root}
use merkle_evidence_vault.Engine.Checkpoint.{Dalek, to_be_bytes}
use merkle_evidence_vault.Engine.Heads.{signed_bytes-binds}
use merkle_evidence_vault.Engine.Health.{handle_client}
use merkle_evidence_vault.Engine.Root.{append_all}
use merkle_evidence_vault.Engine.Tests.{one, roots_agree, sum_digest, sum_digest-IsDigest, two}

abbrev two_root : String
two_root = "0400000000000000000000000000000000000000000000000000000000000000"

root_two : root sum_digest (append_all sum_digest (one ∷ two ∷ []) new_tree) ≡ some two_root
unfolding root append_all append
root_two = refl

signed_bytes-binds_example :
    (◌≡◌ {A = ℕ} 2 2)
    × ((◌≡◌ {A = List (List ℕ)} (one ∷ two ∷ []) (two ∷ one ∷ []))
        ⊎ Collision sum_digest
            (λ x. Logged sum_digest (one ∷ two ∷ []) x ⊎ Logged sum_digest (two ∷ one ∷ []) x))
signed_bytes-binds_example =
    signed_bytes-binds sum_digest sum_digest-IsDigest (one ∷ two ∷ []) (two ∷ one ∷ []) 2 2 two_root
      two_root (omega arith) (omega arith) root_two (sym roots_agree ∙ root_two) (omega arith)
      (omega arith) refl

-- Key pairs that are a byte, whose signatures name the key.
abbrev byte_keys : Dalek
byte_keys = record {
  Keypair = ℕ;
  from_bytes = λ b. if length b =ℕ 64 then some 7 else none;
  public = λ kp. replicate 32 (kp % 256);
  sign = λ kp msg. replicate 64 (kp % 256);
}

abbrev byte_crypto : Crypto
byte_crypto = record {
  verify =
      λ key msg sig. length sig =ℕ 64 && or_else 0 (get_elem? sig 0) =ℕ or_else 0 (get_elem? key 0);
  sha256 = sum_digest;
}

to_be_bytes_test : to_be_bytes 66051 ≡ 0 ∷ 0 ∷ 0 ∷ 0 ∷ 0 ∷ 1 ∷ 2 ∷ 3 ∷ []
unfolding to_be_bytes
to_be_bytes_test = refl

utf8_test : utf8 "aé€" ≡ 97 ∷ 195 ∷ 169 ∷ 226 ∷ 130 ∷ 172 ∷ []
unfolding utf8
utf8_test = refl

health_tests :
    (handle_client "0.5" "GET /healthz HTTP/1.1"
      ≡ "HTTP/1.1 200 OK\r\nContent-Type: text/plain\r\nContent-Length: 3\r\nConnection: close\r\n\r\nok\n")
    × (handle_client "0.5" "POST / HTTP/1.1"
        ≡ "HTTP/1.1 404 Not Found\r\nContent-Type: text/plain\r\nContent-Length: 10\r\nConnection: close\r\n\r\nnot found\n")
unfolding handle_client cut_prefix
health_tests = (refl, refl)
