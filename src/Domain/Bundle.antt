-- ===== src/Domain/Bundle.antt =====
-- services/vault-api/domain/bundle/format.go: the manifest of an export bundle, and the version that
-- MarshalManifest writes and UnmarshalManifest asks for.
use merkle_evidence_vault.Prelude.{
  List, Option, String, if◌then◌else◌, none, refl, some, ℕ, ◌==◌, ◌≡◌, string_key,
}
use merkle_evidence_vault.Prelude.Int.{ℤ}
use merkle_evidence_vault.Http.{Json}

abbrev bundle_version : String
bundle_version = "1"

pub record LeafRange : Type 0 where
  pub first : ℤ
  pub last : ℤ

pub record CheckpointRef : Type 0 where
  pub filename : String
  pub key_id : String
  pub signature : String

pub record Manifest : Type 0 where
  pub version : String
  pub created_at : ℕ
  pub created_by : String
  pub tree_size : ℤ
  pub root_hash : String
  pub leaf_range : LeafRange
  pub evidence_count : ℤ
  pub entries : List Json
  pub checkpoint : CheckpointRef

-- json.Marshal and json.Unmarshal at this type, `none` where they return an error.
pub record Codec : Type 0 where
  pub marshal : Manifest → Option (List ℕ)
  pub unmarshal : List ℕ → Option Manifest

-- The error of UnmarshalManifest: the decoder's, or ErrUnsupportedVersion.
pub data Read : Type 0 where
  read : Manifest → Read
  bad_json unsupported_version : Read

-- The manifest behind the pointer after the call, and the bytes.
unfoldable pub marshal_manifest : Codec → Manifest → Manifest × Option (List ℕ)
marshal_manifest c m =
    let m' : Manifest = record m { version = bundle_version } in (m', c.marshal m')

abbrev versioned : Manifest → Read
versioned m = if m.version == bundle_version then read m else unsupported_version

unfoldable pub unmarshal_manifest : Codec → List ℕ → Read
unmarshal_manifest c b = elim (c.unmarshal b) [ none ↦ bad_json | some m ↦ versioned m ]

-- The decoder gives back what the encoder wrote for a manifest.
abbrev pub Decodes : Codec → Manifest → Type 0
Decodes c m = (b : List ℕ) → c.marshal m ≡ some b → c.unmarshal b ≡ some m

-- The bytes that MarshalManifest writes are read back, whatever the manifest's version was before,
-- as the manifest that the call leaves behind; this has the version 1, and each of its other fields
-- is as before. It relies on JSON giving back what it wrote for this manifest.
pub unmarshal_manifest-marshal_manifest :
    (c : Codec) (m : Manifest) (b : List ℕ)
    → Decodes c (marshal_manifest c m).0
    → (marshal_manifest c m).1 ≡ some b
    → (unmarshal_manifest c b ≡ read (marshal_manifest c m).0)
      × (record (marshal_manifest c m).0 { version = m.version } ≡ m)
unfolding marshal_manifest unmarshal_manifest
unmarshal_manifest-marshal_manifest c m b decodes wrote =
    (rw (unmarshal_manifest, decodes b wrote) refl, refl)
