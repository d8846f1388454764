-- ===== src/Engine/Heads.antt =====
-- The tree heads that services/merkle-engine/src/checkpoint.rs signs, in front of VerifySTH of
-- services/verifier-cli/verifier/crypto.go.
mod Tests
use merkle_evidence_vault.Prelude.{
  List, String, [], ap, arith, get_elem?, length, length-append, none, refl, some, sym, true, ℕ,
  ◌%◌, ◌*◌, ◌++◌, ◌+◌, ◌/◌, ◌<◌, ◌^◌, ◌∙◌, ◌∷◌, ◌≡◌, ◌≢◌, ◌≤◌, ◌⊎◌,
}
use merkle_evidence_vault.Text.{or_else}
use merkle_evidence_vault.Text.Hex.{AreBytes, decode_hex-encode_hex, encode_hex}
use merkle_evidence_vault.Text.Utf8.{utf8, utf8-inj}
use merkle_evidence_vault.Digest.{Collision, IsDigest, append_inj}
use merkle_evidence_vault.Verifier.{Crypto}
use merkle_evidence_vault.Engine.Shape.{Logged, size}
use merkle_evidence_vault.Engine.{new_tree, root, verify}
use merkle_evidence_vault.Engine.Root.{append_all}
use merkle_evidence_vault.Engine.Binding.{root-binds}
use merkle_evidence_vault.Engine.Checkpoint.{Dalek, from_seed_hex, signed_bytes, to_be_bytes}

-- The two packages' Ed25519 agree, as RFC 8032 says: public keys have 32 bytes, the other side accepts
-- what a key pair has signed, and from_bytes takes 64 bytes only.
pub record IsEd25519 (dalek : Dalek) (c : Crypto) : Type 0 where
  pub key_size : (kp : dalek.Keypair) → length (dalek.public kp) ≡ 32
  pub key_bytes : (kp : dalek.Keypair) → AreBytes (dalek.public kp)
  pub signature_bytes : (kp : dalek.Keypair) (msg : List ℕ) → AreBytes (dalek.sign kp msg)
  pub accepts :
      (kp : dalek.Keypair) (msg : List ℕ)
      → c.verify (dalek.public kp) msg (dalek.sign kp msg) ≡ true
  pub pair_size : (b : List ℕ) → length b ≢ 64 → dalek.from_bytes b ≡ none

-- The number that bytes stand for, the first the most significant.
abbrev pub big_endian : ℕ → List ℕ → ℕ
big_endian n [] = n
big_endian n (b ∷ bs) = big_endian (n * 256 + b) bs

module _ (dalek : Dalek) (c : Crypto) (ed25519 : IsEd25519 dalek c) where
  open dalek use {Keypair}

  -- A seed of 32 bytes makes no signer: the key pair is read from the seed alone.
  pub from_seed_hex-seed :
      (seed : List ℕ)
      → AreBytes seed
      → length seed ≡ 32
      → from_seed_hex dalek (encode_hex seed) ≡ none
  unfolding from_seed_hex
  from_seed_hex-seed seed bytes size =
      rw (from_seed_hex, decode_hex-encode_hex seed bytes)
        (ed25519.pair_size (seed ++ []) (λ e. let total = length-append seed [] in omega arith))

to_be_bytes-inj : (n m : ℕ) → n < 2 ^ 64 → m < 2 ^ 64 → to_be_bytes n ≡ to_be_bytes m → n ≡ m
unfolding to_be_bytes
to_be_bytes-inj n m small small' e =
    let at : (i : ℕ)
        → or_else 0 (get_elem? (to_be_bytes n) i) ≡ or_else 0 (get_elem? (to_be_bytes m) i) =
      λ i. ap (λ xs. or_else 0 (get_elem? xs i)) e in
    let b0 : n / 2 ^ 56 % 256 ≡ m / 2 ^ 56 % 256 = at 0 in
    let b1 : n / 2 ^ 48 % 256 ≡ m / 2 ^ 48 % 256 = at 1 in
    let b2 : n / 2 ^ 40 % 256 ≡ m / 2 ^ 40 % 256 = at 2 in
    let b3 : n / 2 ^ 32 % 256 ≡ m / 2 ^ 32 % 256 = at 3 in
    let b4 : n / 2 ^ 24 % 256 ≡ m / 2 ^ 24 % 256 = at 4 in
    let b5 : n / 2 ^ 16 % 256 ≡ m / 2 ^ 16 % 256 = at 5 in
    let b6 : n / 2 ^ 8 % 256 ≡ m / 2 ^ 8 % 256 = at 6 in
    let b7 : n % 256 ≡ m % 256 = at 7 in omega arith

-- Two tree heads whose signatures are over the same bytes have the same tree size and the same root, for
-- tree sizes below 2^64.
signed_bytes-inj :
    (tree_size tree_size' : ℕ) (root_hash root_hash' : String)
    → tree_size < 2 ^ 64
    → tree_size' < 2 ^ 64
    → signed_bytes tree_size root_hash ≡ signed_bytes tree_size' root_hash'
    → (tree_size ≡ tree_size') × (root_hash ≡ root_hash')
unfolding signed_bytes
signed_bytes-inj n m r s small small' e =
    let (sizes, roots) =
      append_inj (to_be_bytes n) (utf8 r) (to_be_bytes m) (utf8 s) e (unfold to_be_bytes in refl) in
    (to_be_bytes-inj n m small small' sizes, utf8-inj r s roots)

-- The bytes that the engine signs for a log commit to it: where the bytes for two logs of at most 2^63
-- payloads are the same, the stated tree sizes are the same, and the logs are, in order, or among the inputs
-- that the two tree hashes of RFC 6962 are computed from there are two with the same digest.
pub signed_bytes-binds :
    (sha256 : List ℕ → List ℕ) (digest : IsDigest sha256) (ps qs : List (List ℕ))
    (tree_size tree_size' : ℕ) (root_hash root_hash' : String)
    → length ps ≤ 2 ^ 63
    → length qs ≤ 2 ^ 63
    → root sha256 (append_all sha256 ps new_tree) ≡ some root_hash
    → root sha256 (append_all sha256 qs new_tree) ≡ some root_hash'
    → tree_size < 2 ^ 64
    → tree_size' < 2 ^ 64
    → signed_bytes tree_size root_hash ≡ signed_bytes tree_size' root_hash'
    → (tree_size ≡ tree_size')
      × ((ps ≡ qs) ⊎ Collision sha256 (λ x. Logged sha256 ps x ⊎ Logged sha256 qs x))
signed_bytes-binds sha256 digest ps qs n m r s fp fq rooted rooted' small small' e =
    let (sizes, roots) = signed_bytes-inj n m r s small small' e in
    (sizes, root-binds sha256 digest ps qs fp fq (rooted ∙ ap some roots ∙ sym rooted'))
