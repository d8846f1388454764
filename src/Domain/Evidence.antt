-- ===== src/Domain/Evidence.antt =====
-- services/vault-api/domain/evidence/types.go: Evidence, NewEvidence and LeafData.
use Prim.Native.String
use Prim.Native.String.{count}
use text.Mathlib.TextLemmas.{append_cancel_left, append_inj}
use merkle_evidence_vault.Prelude.{List, Option, String, [], arith, none, ℕ, ◌≡◌}
use merkle_evidence_vault.Prelude.Int.{ℤ}
use merkle_evidence_vault.Prelude.Dict.{Dict}
use merkle_evidence_vault.Digest.{IsDigest}
use merkle_evidence_vault.Text.Hex.{count-encode_hex, decode_hex-encode_hex, encode_hex}

pub record Evidence : Type 0 where
  pub id : String
  pub content_type : String
  pub content_hash : String
  pub payload_ref : String
  pub labels : Dict String String
  pub ingested_at : ℕ
  pub ingested_by : String
  pub leaf_index : Option ℤ

-- `sha256` is sha256.Sum256, and `now` the clock.
unfoldable pub new_evidence : (List ℕ → List ℕ) → ℕ → String → String → List ℕ → String → Evidence
new_evidence sha256 now id content_type payload ingested_by = record {
  id = id;
  content_type = content_type;
  content_hash = encode_hex (sha256 payload);
  payload_ref = "";
  labels = [];
  ingested_at = now;
  ingested_by = ingested_by;
  leaf_index = none;
}

-- The bytes of the leaf, as a text.
unfoldable pub leaf_data : Evidence → String
leaf_data e = String.◌++◌ e.content_hash (String.◌++◌ ":" e.content_type)

module _ (sha256 : List ℕ → List ℕ) (digest : IsDigest sha256) where
  -- Where digests have 32 bytes, two new records with the same leaf have the same content type, and
  -- payloads with the same digest.
  pub leaf_data-binds :
      (now now' : ℕ) (id id' content_type content_type' : String) (payload payload' : List ℕ)
      (by by' : String)
      → leaf_data (new_evidence sha256 now id content_type payload by)
        ≡ leaf_data (new_evidence sha256 now' id' content_type' payload' by')
      → (sha256 payload ≡ sha256 payload') × (content_type ≡ content_type')
  unfolding leaf_data new_evidence
  leaf_data-binds now now' id id' content_type content_type' payload payload' by by' same =
      let size = digest.size payload in
      let size' = digest.size payload' in
      let long : count (encode_hex (sha256 payload)) ≡ count (encode_hex (sha256 payload')) =
        omega (arith, count-encode_hex (sha256 payload), count-encode_hex (sha256 payload')) in
      let (hashes, types) = append_inj same long in
      let left = decode_hex-encode_hex (sha256 payload) (digest.bytes payload) in
      let right = decode_hex-encode_hex (sha256 payload') (digest.bytes payload') in
      (cc, append_cancel_left ":" content_type content_type' types)
