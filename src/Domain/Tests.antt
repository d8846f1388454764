-- ===== src/Domain/Tests.antt =====
-- The domain types at concrete inputs, with a digest that holds the payload's length.
use merkle_evidence_vault.Prelude.{
  List, [], arith, if◌then◌else◌, length, none, refl, replicate, some, ℕ, ◌%◌, ◌==◌, ◌∷◌, ◌≡◌,
  string_key,
}
use merkle_evidence_vault.Prelude.Int.{pos, int_key}
use merkle_evidence_vault.Text.Hex.{encode_hex}
use merkle_evidence_vault.Http.{str}
use merkle_evidence_vault.Digest.{IsDigest}
use merkle_evidence_vault.Domain.Evidence.{leaf_data, new_evidence}
use merkle_evidence_vault.Domain.Bundle.{
  Codec, Decodes, Manifest, marshal_manifest, read, unmarshal_manifest,
  unmarshal_manifest-marshal_manifest, unsupported_version,
}

abbrev digest_of : List ℕ → List ℕ
digest_of payload = length payload % 256 ∷ replicate 31 0

digest_of-IsDigest : IsDigest digest_of
digest_of-IsDigest = record { bytes = λ payload. ground arith; size = λ payload. refl }

leaf_data_test :
    leaf_data (new_evidence (λ b. 171 ∷ []) 5 "id" "text/plain" [] "bob") ≡ "ab:text/plain"
unfolding leaf_data new_evidence encode_hex
leaf_data_test = refl

same_leaf :
    leaf_data (new_evidence digest_of 5 "a" "text/plain" (1 ∷ []) "bob")
    ≡ leaf_data (new_evidence digest_of 6 "b" "text/plain" (2 ∷ []) "eve")
unfolding leaf_data new_evidence
same_leaf = refl

abbrev draft : Manifest
draft = record {
  version = "0";
  created_at = 7;
  created_by = "alice";
  tree_size = pos 2;
  root_hash = "";
  leaf_range = record { first = pos 0; last = pos 1 };
  evidence_count = pos 2;
  entries = str "a" ∷ [];
  checkpoint = record { filename = ""; key_id = ""; signature = "" };
}

-- A codec that knows one manifest, the one of the present version.
abbrev codec : Codec
codec = record {
  marshal = λ m. if m.version == "1" then some (1 ∷ []) else none;
  unmarshal = λ b. some (record draft { version = "1" });
}

codec-Decodes : Decodes codec (marshal_manifest codec draft).0
unfolding marshal_manifest
codec-Decodes b wrote = refl

wrote_draft : (marshal_manifest codec draft).1 ≡ some (1 ∷ [])
unfolding marshal_manifest
wrote_draft = refl

refuses_draft :
    unmarshal_manifest (record codec { unmarshal = λ b. some draft }) [] ≡ unsupported_version
unfolding unmarshal_manifest
refuses_draft = refl

unmarshal_manifest-marshal_manifest_example :
    (unmarshal_manifest codec (1 ∷ []) ≡ read (marshal_manifest codec draft).0)
    × (record (marshal_manifest codec draft).0 { version = draft.version } ≡ draft)
unmarshal_manifest-marshal_manifest_example =
    unmarshal_manifest-marshal_manifest codec draft (1 ∷ []) codec-Decodes wrote_draft
