-- ===== src/Engine/Complete.antt =====
-- Inclusion proofs in a log of any size: the audit paths of RFC 6962, with the index whose bits are the sides
-- that the path takes.
use merkle_evidence_vault.Prelude.{
  List, String, ap, eq_iff, get_elem?, refl, some, sym, true, ℕ, ◌^◌, ◌∙◌, ◌≡◌, ◌≤◌,
}
use merkle_evidence_vault.Text.{or_else}
use merkle_evidence_vault.Text.Hex.{encode_hex}
use merkle_evidence_vault.Digest.{IsDigest}
use merkle_evidence_vault.Engine.{new_tree, root, verify}
use merkle_evidence_vault.Engine.Shape.{IsRfc, Tree, hash_of, payloads, size}
use merkle_evidence_vault.Engine.Root.{append_all}
use merkle_evidence_vault.Engine.Paths.{audit_path}
use merkle_evidence_vault.Engine.Position.{root-hash_of}
use merkle_evidence_vault.Engine.Sides.{climb-path_index, path_index}

module _ (sha256 : List ℕ → List ℕ) (digest : IsDigest sha256) where
  -- In a log of any number of payloads up to 2^63, the audit path of RFC 6962 for an index is accepted
  -- with the payload there, against the log's root, whatever tree size the proof states, if it states the
  -- index whose bits are the sides that the path takes.
  pub verify-path_index :
      (t : Tree) (root_hex : String) (i n : ℕ) (p : List ℕ)
      → IsRfc t
      → size t ≤ 2 ^ 63
      → root sha256 (append_all sha256 (payloads t) new_tree) ≡ some root_hex
      → get_elem? (payloads t) i ≡ some p
      → verify sha256
          (record {
            leaf_index = path_index sha256 t i;
            tree_size = n;
            path = audit_path sha256 t i;
          })
          p
          root_hex
        ≡ true
  unfolding verify
  verify-path_index t root_hex i n p rfc fits rooted at =
      let text : root_hex ≡ encode_hex (hash_of sha256 t) =
        ap (or_else "") (sym rooted ∙ root-hash_of sha256 digest t rfc fits) in
      rw (text, climb-path_index sha256 t i p at)
        ((eq_iff (encode_hex (hash_of sha256 t)) (encode_hex (hash_of sha256 t))).1 refl)
