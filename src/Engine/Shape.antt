-- ===== src/Engine/Shape.antt =====
-- The specification of the tree: the Merkle tree hash of RFC 6962, as a binary tree with the payloads
-- at its leaves.
use merkle_evidence_vault.Prelude.{
  List, [], arith, inl, inr, length, length-append, refl, suc, zero, ℕ, ◌++◌, ◌<◌, ◌^◌, ◌∷◌, ◌≡◌,
  ◌≤◌, ◌⊎◌,
}
use merkle_evidence_vault.Text.Hex.{AreBytes}
use merkle_evidence_vault.Digest.{Collision, IsDigest, append_inj, equal_or_collide}
use merkle_evidence_vault.Engine.{leaf_hash, node_hash}

pub data Tree : Type 0 where
  leaf : List ℕ → Tree
  node : Tree → Tree → Tree

abbrev pub payloads : Tree → List (List ℕ)
payloads (leaf payload) = payload ∷ []
payloads (node a b) = payloads a ++ payloads b

abbrev pub size : Tree → ℕ
size t = length (payloads t)

-- RFC 6962: the left part of n leaves has the greatest power of two below n.
abbrev pub IsRfc : Tree → Type 0
IsRfc (leaf payload) = Unit
IsRfc (node a b) = (h : ℕ) × (size a ≡ 2 ^ h) × (size b ≤ 2 ^ h) × IsRfc a × IsRfc b

-- All leaves are at the depth h.
abbrev pub IsPerfect : ℕ → Tree → Type 0
IsPerfect zero (leaf payload) = Unit
IsPerfect zero (node a b) = ⊥
IsPerfect (suc h) (leaf payload) = ⊥
IsPerfect (suc h) (node a b) = IsPerfect h a × IsPerfect h b

pub size-pos : (t : Tree) → 0 < size t
size-pos (leaf payload) = omega arith
size-pos (node a b) = omega (arith, size-pos a, length-append (payloads a) (payloads b))

module _ (sha256 : List ℕ → List ℕ) where
  abbrev pub hash_of : Tree → List ℕ
  hash_of (leaf payload) = leaf_hash sha256 payload
  hash_of (node a b) = node_hash sha256 (hash_of a) (hash_of b)

  module _ (digest : IsDigest sha256) where
    pub length-hash_of : (t : Tree) → length (hash_of t) ≡ 32
    unfolding leaf_hash node_hash
    length-hash_of (leaf payload) = digest.size (0 ∷ payload)
    length-hash_of (node a b) = digest.size (1 ∷ (hash_of a ++ hash_of b))

    pub AreBytes-hash_of : (t : Tree) → AreBytes (hash_of t)
    unfolding leaf_hash node_hash
    AreBytes-hash_of (leaf payload) = digest.bytes (0 ∷ payload)
    AreBytes-hash_of (node a b) = digest.bytes (1 ∷ (hash_of a ++ hash_of b))

  -- The inputs that the hash of a tree is computed from.
  abbrev pub Hashes : Tree → List ℕ → Type 0
  Hashes (leaf payload) x = x ≡ 0 ∷ payload
  Hashes (node a b) x = (x ≡ 1 ∷ (hash_of a ++ hash_of b)) ⊎ Hashes a x ⊎ Hashes b x

  -- The inputs that the tree hash of a log, by RFC 6962, is computed from.
  abbrev pub Logged : List (List ℕ) → List ℕ → Type 0
  Logged ps x = (t : Tree) × IsRfc t × (payloads t ≡ ps) × Hashes t x

  abbrev pub AllHashed : (List ℕ → Type 0) → Tree → Type 0
  AllHashed P (leaf payload) = P (0 ∷ payload)
  AllHashed P (node a b) = P (1 ∷ (hash_of a ++ hash_of b)) × AllHashed P a × AllHashed P b

  pub Hashes-AllHashed :
      (P : List ℕ → Type 0) (t : Tree) → ((x : List ℕ) → Hashes t x → P x) → AllHashed P t
  Hashes-AllHashed P (leaf payload) h = h (0 ∷ payload) refl
  Hashes-AllHashed P (node a b) h = (
    h (1 ∷ (hash_of a ++ hash_of b)) (inl refl),
    Hashes-AllHashed P a (λ x k. h x (inr (inl k))),
    Hashes-AllHashed P b (λ x k. h x (inr (inr k))),
  )

  module _ (P : List ℕ → Type 0) where
    -- Equal hashes of leaves and nodes, up to a collision.
    pub leaf_hash-inj :
        (p q : List ℕ)
        → P (0 ∷ p)
        → P (0 ∷ q)
        → leaf_hash sha256 p ≡ leaf_hash sha256 q
        → (p ≡ q) ⊎ Collision sha256 P
    unfolding leaf_hash
    leaf_hash-inj p q kp kq e = elim (equal_or_collide P (0 ∷ p) (0 ∷ q) kp kq e) [
      | inl same ↦ inl (cc)
      | inr found ↦ inr found
    ]

    pub leaf_hash-ne-node_hash :
        (p a b : List ℕ)
        → P (0 ∷ p)
        → P (1 ∷ (a ++ b))
        → leaf_hash sha256 p ≡ node_hash sha256 a b
        → Collision sha256 P
    unfolding leaf_hash node_hash
    leaf_hash-ne-node_hash p a b kp kn e =
        elim (equal_or_collide P (0 ∷ p) (1 ∷ (a ++ b)) kp kn e) [
          | inl same ↦ absurd (ground arith)
          | inr found ↦ found
        ]

    pub node_hash-inj :
        (a b a' b' : List ℕ)
        → P (1 ∷ (a ++ b))
        → P (1 ∷ (a' ++ b'))
        → length a ≡ length a'
        → node_hash sha256 a b ≡ node_hash sha256 a' b'
        → ((a ≡ a') × (b ≡ b')) ⊎ Collision sha256 P
    unfolding node_hash
    node_hash-inj a b a' b' k k' size e =
        elim (equal_or_collide P (1 ∷ (a ++ b)) (1 ∷ (a' ++ b')) k k' e) [
          | inl same ↦ inl (append_inj a b a' b' (cc) size)
          | inr found ↦ inr found
        ]
