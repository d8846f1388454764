-- ===== src/Engine.antt =====
-- services/merkle-engine/src: the Merkle tree (tree.rs), the inclusion proofs (proof.rs) and the
-- service's shim (rpc.rs); Engine/Checkpoint.antt has the signed tree heads (checkpoint.rs), and
-- Engine/Health.antt the health server (main.rs).
--
-- A `usize` is a natural number; the one operation that can leave its 64 bits, the shift of
-- `largest_pow2_less_than`, is computed modulo 2^64. The recursion and the loop run on fuel; `none` means
-- that the fuel ran out or that the code panics.
pub mod Shape
pub mod Halves
pub mod Root
pub mod Binding
pub mod Member
pub mod Paths
pub mod Sides
pub mod Position
pub mod Unbalanced
pub mod Complete
pub mod Checkpoint
pub mod Heads
pub mod Health
mod Tests
use mathlib.Core.Option
use merkle_evidence_vault.Prelude.{
  Bool, List, Option, String, [], false, get_elem?, if◌then◌else◌, length, ltb, map, none, some,
  suc, true, zero, ℕ, ◌%◌, ◌*◌, ◌++◌, ◌+◌, ◌-◌, ◌/◌, ◌==◌, ◌=ℕ◌, ◌^◌, ◌∷◌, string_key,
}
use merkle_evidence_vault.Text.Hex.{encode_hex}

-- The state of the loop: `while k < n { k <<= 1; }`
unfoldable pub double_while : ℕ → ℕ → ℕ → Option ℕ
double_while zero k n = none
double_while (suc fuel) k n =
    let rest = double_while fuel (k * 2 % 2 ^ 64) n in if ltb k n then rest else some k

unfoldable pub largest_pow2_less_than : ℕ → ℕ → Option ℕ
unfolding double_while
largest_pow2_less_than fuel n = Option.map (λ (k : ℕ). k / 2) (double_while fuel 1 n)

-- A shift by one bit can happen 64 times before nothing is left to shift.
abbrev pub word_size : ℕ
word_size = 64

module _ (sha256 : List ℕ → List ℕ) where
  unfoldable pub leaf_hash : List ℕ → List ℕ
  leaf_hash payload = sha256 (0 ∷ payload)

  unfoldable pub node_hash : List ℕ → List ℕ → List ℕ
  node_hash left right = sha256 (1 ∷ (left ++ right))

  abbrev pub joined_hash : Option (List ℕ) → Option (List ℕ) → Option (List ℕ)
  joined_hash none right = none
  joined_hash (some l) none = none
  joined_hash (some l) (some r) = some (node_hash l r)

  unfoldable pub subtree_hash : ℕ → List (List ℕ) → ℕ → ℕ → Option (List ℕ)
  unfolding largest_pow2_less_than node_hash
  subtree_hash zero leaves lo hi = none
  subtree_hash (suc fuel) leaves lo hi = elim (hi - lo =ℕ 1) [
    | true ↦ get_elem? leaves lo
    | false ↦ elim (largest_pow2_less_than word_size (hi - lo)) [
      | none ↦ none
      | some k ↦
          joined_hash (subtree_hash fuel leaves lo (lo + k)) (subtree_hash fuel leaves (lo + k) hi)
    ]
  ]

-- `MerkleTree`
pub record MerkleTree : Type 0 where
  pub leaves : List (List ℕ)

abbrev pub new_tree : MerkleTree
new_tree = record { leaves = [] }

-- `MerkleEngineService`
pub record MerkleEngineService : Type 0 where
  pub tree : MerkleTree

abbrev pub new_service : MerkleEngineService
new_service = record { tree = new_tree }

module _ (sha256 : List ℕ → List ℕ) where
  -- The new tree and the index of the new leaf.
  unfoldable pub append : List ℕ → MerkleTree → MerkleTree × ℕ
  unfolding leaf_hash
  append payload t =
      let leaves = t.leaves ++ leaf_hash sha256 payload ∷ [] in
      (record { leaves = leaves }, length leaves - 1)

  -- The recursion's depth is less than the number of leaves.
  unfoldable pub root : MerkleTree → Option String
  unfolding subtree_hash encode_hex
  root t =
      if length t.leaves =ℕ 0
      then some ""
      else Option.map encode_hex
          (subtree_hash sha256 (length t.leaves) t.leaves 0 (length t.leaves))

  -- The loop of `InclusionProof::verify`.
  unfoldable pub climb : ℕ → List ℕ → List (List ℕ) → List ℕ
  unfolding node_hash
  climb index cur [] = cur
  climb index cur (sibling ∷ path) =
      climb (index / 2)
        (if index % 2 =ℕ 0 then node_hash sha256 cur sibling else node_hash sha256 sibling cur) path

-- `InclusionProof`
pub record InclusionProof : Type 0 where
  pub leaf_index : ℕ
  pub tree_size : ℕ
  pub path : List (List ℕ)

unfoldable pub verify : (List ℕ → List ℕ) → InclusionProof → List ℕ → String → Bool
unfolding climb leaf_hash encode_hex
verify sha256 p payload root_hex =
    encode_hex (climb sha256 p.leaf_index (leaf_hash sha256 payload) p.path) == root_hex
