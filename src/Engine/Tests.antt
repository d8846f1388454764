-- ===== src/Engine/Tests.antt =====
-- The engine at concrete inputs, with a hash that adds the bytes up: it has collisions, and digests of
-- 32 bytes.
use mathlib.Core.List.{Memᴰ}
use merkle_evidence_vault.Prelude.{
  List, String, [], arith, false, get_elem?, refl, replicate, some, true, ℕ, ◌%◌, ◌*◌, ◌+◌, ◌<◌,
  ◌^◌, ◌∷◌, ◌≡◌, ◌≤◌, ◌⊎◌,
}
use merkle_evidence_vault.Digest.{Collision, IsDigest}
use merkle_evidence_vault.Engine.{
  InclusionProof, append, largest_pow2_less_than, new_tree, root, verify, word_size,
}
use merkle_evidence_vault.Engine.Shape.{IsRfc, Logged, Tree, leaf, node, payloads}
use merkle_evidence_vault.Engine.Halves.{largest_pow2_less_than-ends}
use merkle_evidence_vault.Engine.Root.{append_all}
use merkle_evidence_vault.Engine.Binding.{root-binds}
use merkle_evidence_vault.Engine.Member.{AreDigests, Checked, verify-member}
use merkle_evidence_vault.Engine.Paths.{audit_path}
use merkle_evidence_vault.Engine.Sides.{path_index}
use merkle_evidence_vault.Engine.Complete.{verify-path_index}
use merkle_evidence_vault.Engine.Position.{Rechecked, verify-audit_path, verify-position}
use merkle_evidence_vault.Engine.Unbalanced.{Crossed, verify-last_payload}

abbrev pub total : List ℕ → ℕ
total [] = 0
total (b ∷ bs) = b + total bs

abbrev pub sum_digest : List ℕ → List ℕ
sum_digest b = total b % 256 ∷ replicate 31 0

pub sum_digest-IsDigest : IsDigest sum_digest
sum_digest-IsDigest = record { bytes = λ b. ground arith; size = λ b. refl }

abbrev pub one : List ℕ
one = 1 ∷ []

abbrev pub two : List ℕ
two = 2 ∷ []

abbrev three : List ℕ
three = 3 ∷ []

abbrev four : List ℕ
four = 4 ∷ []

abbrev three_tree : Tree
three_tree = node (node (leaf one) (leaf two)) (leaf three)

abbrev four_tree : Tree
four_tree = node (node (leaf one) (leaf two)) (node (leaf three) (leaf four))

three_tree-IsRfc : IsRfc three_tree
three_tree-IsRfc = (1, refl, omega arith, (0, refl, omega arith, tt, tt), tt)

four_tree-IsRfc : IsRfc four_tree
four_tree-IsRfc =
    (1, refl, omega arith, (0, refl, omega arith, tt, tt), (0, refl, omega arith, tt, tt))

abbrev three_root : String
three_root = "0800000000000000000000000000000000000000000000000000000000000000"

abbrev pub four_root : String
four_root = "0d00000000000000000000000000000000000000000000000000000000000000"

largest_pow2_less_than_tests :
    (largest_pow2_less_than word_size 2 ≡ some 1)
    × (largest_pow2_less_than word_size 5 ≡ some 4)
    × (largest_pow2_less_than word_size 8 ≡ some 4)
    × (largest_pow2_less_than word_size 9 ≡ some 8)
unfolding largest_pow2_less_than
largest_pow2_less_than_tests = (refl, refl, refl, refl)

root_none : root sum_digest new_tree ≡ some ""
unfolding root
root_none = refl

root_three :
    root sum_digest (append_all sum_digest (payloads three_tree) new_tree) ≡ some three_root
unfolding root append_all append
root_three = refl

root_four : root sum_digest (append_all sum_digest (payloads four_tree) new_tree) ≡ some four_root
unfolding root append_all append
root_four = refl

-- The hash of the sum does not see the order of two payloads.
pub roots_agree :
    root sum_digest (append_all sum_digest (one ∷ two ∷ []) new_tree)
    ≡ root sum_digest (append_all sum_digest (two ∷ one ∷ []) new_tree)
unfolding root append_all append
roots_agree = refl

abbrev third_proof : InclusionProof
third_proof = record {
  leaf_index = 2;
  tree_size = 4;
  path = sum_digest (4 ∷ []) ∷ sum_digest (4 ∷ []) ∷ [];
}

third_proof-accepted : verify sum_digest third_proof three four_root ≡ true
unfolding verify
third_proof-accepted = refl

third_proof-AreDigests : AreDigests third_proof.path
third_proof-AreDigests = (refl, (refl, tt))

other_payload-refused : verify sum_digest third_proof one four_root ≡ false
unfolding verify
other_payload-refused = refl

largest_pow2_less_than-ends_example :
    (h : ℕ) × (largest_pow2_less_than word_size 6 ≡ some (2 ^ h)) × (2 ^ h < 6) × (6 ≤ 2 * 2 ^ h)
largest_pow2_less_than-ends_example = largest_pow2_less_than-ends 6 (omega arith) (omega arith)

root-binds_example :
    (◌≡◌ {A = List (List ℕ)} (one ∷ two ∷ []) (two ∷ one ∷ []))
    ⊎ Collision sum_digest
        (λ x. Logged sum_digest (one ∷ two ∷ []) x ⊎ Logged sum_digest (two ∷ one ∷ []) x)
root-binds_example =
    root-binds sum_digest sum_digest-IsDigest (one ∷ two ∷ []) (two ∷ one ∷ []) (omega arith)
      (omega arith) roots_agree

verify-member_example :
    Memᴰ three (payloads four_tree)
    ⊎ Collision sum_digest
        (λ x. Logged sum_digest (payloads four_tree) x ⊎ Checked sum_digest third_proof three x)
verify-member_example =
    verify-member sum_digest sum_digest-IsDigest third_proof three (payloads four_tree) four_root
      (omega arith) (omega arith) third_proof-AreDigests root_four third_proof-accepted

verify-audit_path_example :
    verify sum_digest
      (record { leaf_index = 1; tree_size = 4; path = audit_path sum_digest four_tree 1 })
      two
      four_root
    ≡ true
verify-audit_path_example =
    verify-audit_path sum_digest sum_digest-IsDigest 2 four_tree four_root 1 4 two (omega arith)
      four_tree-IsRfc refl root_four refl

verify-position_example :
    (get_elem? (payloads four_tree) 2 ≡ some three)
    ⊎ Collision sum_digest (λ x.
      Checked sum_digest third_proof three x
      ⊎ Rechecked sum_digest sum_digest-IsDigest four_tree third_proof x)
verify-position_example =
    verify-position sum_digest sum_digest-IsDigest 2 four_tree four_root third_proof three
      (omega arith) four_tree-IsRfc refl root_four third_proof-AreDigests refl (omega arith)
      third_proof-accepted

verify-last_payload_example :
    ((verify sum_digest
          (record { leaf_index = 2; tree_size = 3; path = audit_path sum_digest three_tree 2 })
          three
          three_root
        ≡ false)
      ⊎ Collision sum_digest
          (Crossed sum_digest sum_digest-IsDigest (node (leaf one) (leaf two)) three))
    × (verify sum_digest
          (record { leaf_index = 7; tree_size = 3; path = audit_path sum_digest three_tree 2 })
          three
          three_root
        ≡ true)
verify-last_payload_example =
    verify-last_payload sum_digest sum_digest-IsDigest (node (leaf one) (leaf two)) three three_root
      7 3 three_tree-IsRfc (omega arith) (omega arith) root_three refl

-- The last of three payloads is on the right: the index for its path is 1.
sides_test :
    (path_index sum_digest three_tree 2 ≡ 1)
    × (path_index sum_digest three_tree 1 ≡ 1)
    × (path_index sum_digest four_tree 2 ≡ 2)
unfolding path_index audit_path
sides_test = (refl, refl, refl)

verify-path_index_example :
    verify sum_digest
      (record {
        leaf_index = path_index sum_digest three_tree 2;
        tree_size = 3;
        path = audit_path sum_digest three_tree 2;
      })
      three
      three_root
    ≡ true
verify-path_index_example =
    verify-path_index sum_digest sum_digest-IsDigest three_tree three_root 2 3 three
      three_tree-IsRfc (omega arith) root_three refl
