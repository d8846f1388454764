-- ===== src/Engine/Checkpoint.antt =====
-- services/merkle-engine/src/checkpoint.rs: SignedTreeHead and SignerWrapper. The key pairs of the package
-- ed25519_dalek are a parameter.
use merkle_evidence_vault.Prelude.{
  List, Option, String, [], none, some, ℕ, ◌%◌, ◌++◌, ◌/◌, ◌^◌, ◌∷◌,
}
use merkle_evidence_vault.Text.Hex.{decode_hex, encode_hex}
use merkle_evidence_vault.Text.Utf8.{utf8}

pub record SignedTreeHead : Type 0 where
  pub tree_size : ℕ
  pub root_hash : String
  pub signature : String
  pub key_id : String

-- Keypair::from_bytes, `none` for its errors; the bytes of the public key; and Signer::sign, as bytes.
pub record Dalek : Type 1 where
  pub Keypair : Type 0
  pub from_bytes : List ℕ → Option Keypair
  pub public : Keypair → List ℕ
  pub sign : Keypair → List ℕ → List ℕ

-- u64::to_be_bytes
unfoldable pub to_be_bytes : ℕ → List ℕ
to_be_bytes n =
    n / 2 ^ 56 % 256
    ∷ n / 2 ^ 48 % 256
    ∷ n / 2 ^ 40 % 256
    ∷ n / 2 ^ 32 % 256
    ∷ n / 2 ^ 24 % 256
    ∷ n / 2 ^ 16 % 256
    ∷ n / 2 ^ 8 % 256
    ∷ n % 256
    ∷ []

-- What a signature is over.
unfoldable pub signed_bytes : ℕ → String → List ℕ
unfolding to_be_bytes utf8
signed_bytes tree_size root_hash = to_be_bytes tree_size ++ utf8 root_hash

module _ (dalek : Dalek) where
  open dalek use {Keypair}

  -- SignerWrapper::from_seed_hex, `none` for its errors. The code concatenates the seed and an empty slice.
  unfoldable pub from_seed_hex : String → Option Keypair
  unfolding decode_hex
  from_seed_hex seed_hex = elim (decode_hex seed_hex) [
    | none ↦ none
    | some seed ↦ dalek.from_bytes (seed ++ [])
  ]

  unfoldable pub sign_sth : (List ℕ → List ℕ) → Keypair → ℕ → String → SignedTreeHead
  unfolding signed_bytes encode_hex
  sign_sth sha256 kp tree_size root_hash = record {
    tree_size = tree_size;
    root_hash = root_hash;
    signature = encode_hex (dalek.sign kp (signed_bytes tree_size root_hash));
    key_id = encode_hex (sha256 (dalek.public kp));
  }
