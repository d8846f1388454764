-- ===== src/Engine/Root.antt =====
-- The root of a log that is appended payload by payload, beside the Merkle tree hash of RFC 6962.
use merkle_evidence_vault.Prelude.{
  Bool-cases, List, Option, String, [], ap, append-nil, append_assoc, arith, drop, false, get_elem?,
  inl, inr, length, length-append, length-drop, length-map, length-take, map, refl, some, suc, sym,
  take, take-append-drop, zero, ℕ, ◌*◌, ◌++◌, ◌+◌, ◌-◌, ◌<◌, ◌=ℕ◌, ◌^◌, ◌∙◌, ◌∷◌, ◌≡◌, ◌≤◌,
}
use merkle_evidence_vault.Engine.{
  MerkleTree, append, joined_hash, leaf_hash, new_tree, root, subtree_hash,
}
use merkle_evidence_vault.Engine.Shape.{IsRfc, Tree, hash_of, leaf, node, payloads}
use merkle_evidence_vault.Engine.Halves.{largest_pow2_less_than-ends, pow_pos}
use merkle_evidence_vault.Text.Hex.{encode_hex}

-- The tree after the payloads are appended, the first one first.
unfoldable pub append_all : (List ℕ → List ℕ) → List (List ℕ) → MerkleTree → MerkleTree
append_all sha256 [] t = t
append_all sha256 (p ∷ ps) t = append_all sha256 ps ((append sha256 p t).0)

module _ (sha256 : List ℕ → List ℕ) where
  append_all-leaves :
      (ps : List (List ℕ)) (t : MerkleTree)
      → (append_all sha256 ps t).leaves ≡ t.leaves ++ map (leaf_hash sha256) ps
  unfolding append_all append
  append_all-leaves [] t = sym (append-nil t.leaves)
  append_all-leaves (p ∷ ps) t =
      append_all-leaves ps ((append sha256 p t).0)
      ∙ append_assoc t.leaves (leaf_hash sha256 p ∷ []) (map (leaf_hash sha256) ps)

  get_elem?-middle :
      (ps qs : List (List ℕ)) (p : List ℕ)
      → get_elem? (map (leaf_hash sha256) (ps ++ p ∷ qs)) (length ps) ≡ some (leaf_hash sha256 p)
  get_elem?-middle [] qs p = refl
  get_elem?-middle (q ∷ ps) qs p = get_elem?-middle ps qs p

  -- The tree of a part of the payloads, whose hash is the result.
  abbrev IsPart : List (List ℕ) → Option (List ℕ) → Type 0
  IsPart part o = (t : Tree) × (payloads t ≡ part) × IsRfc t × (o ≡ some (hash_of sha256 t))

  single-IsPart :
      (pre part post : List (List ℕ))
      → length part ≡ 1
      → IsPart part (get_elem? (map (leaf_hash sha256) (pre ++ (part ++ post))) (length pre))
  single-IsPart pre [] post one = absurd (omega arith)
  single-IsPart pre (p ∷ []) post one = (leaf p, refl, tt, get_elem?-middle pre post p)
  single-IsPart pre (p ∷ q ∷ part) post one = absurd (omega arith)

  joined-IsPart :
      (h : ℕ) (part : List (List ℕ)) (l r : Option (List ℕ))
      → 2 ^ h < length part
      → length part ≤ 2 * 2 ^ h
      → IsPart (take (2 ^ h) part) l
      → IsPart (drop (2 ^ h) part) r
      → IsPart part (joined_hash sha256 l r)
  joined-IsPart h part l r below above (a, left, rfc_a, ea) (b, right, rfc_b, eb) =
      let size_l = ap length left ∙ length-take (2 ^ h) part in
      let size_r = ap length right ∙ length-drop (2 ^ h) part in
      (
        node a b,
        ap (λ xs. xs ++ payloads b) left
            ∙ ap (λ xs. take (2 ^ h) part ++ xs) right
            ∙ take-append-drop (2 ^ h) part,
        (h, omega arith, omega arith, rfc_a, rfc_b),
        rw (ea, eb) refl,
      )

  regroup :
      (pre part l r post : List (List ℕ))
      → l ++ r ≡ part
      → (pre ++ (part ++ post) ≡ pre ++ (l ++ (r ++ post)))
        × (pre ++ (part ++ post) ≡ (pre ++ l) ++ (r ++ post))
  regroup pre part l r post split =
      let inner : pre ++ (part ++ post) ≡ pre ++ (l ++ (r ++ post)) =
        rw (← split, append_assoc l r post) refl in
      (inner, inner ∙ sym (append_assoc pre l (r ++ post)))

  -- The recursion on a part of the leaves, with what is before and behind it, ends with the hash of
  -- the part's tree.
  subtree_hash-IsPart :
      (fuel : ℕ) (pre part post : List (List ℕ)) (leaves : List (List ℕ)) (lo hi : ℕ)
      → leaves ≡ map (leaf_hash sha256) (pre ++ (part ++ post))
      → lo ≡ length pre
      → hi ≡ lo + length part
      → 0 < length part
      → length part ≤ fuel
      → length part ≤ 2 ^ 63
      → IsPart part (subtree_hash sha256 fuel leaves lo hi)
  unfolding subtree_hash
  subtree_hash-IsPart zero pre part post leaves lo hi el elo ehi pos enough fits =
      absurd (omega arith)
  subtree_hash-IsPart (suc fuel) pre part post leaves lo hi el elo ehi pos enough fits =
      elim (Bool-cases (hi - lo =ℕ 1)) [
        | inl one ↦ rw (one, subtree_hash, el, elo) (single-IsPart pre part post (ground arith))
        | inr many ↦
            let two : 2 ≤ length part = ground arith in
            let width : hi - lo ≡ length part = omega arith in
            let (h, found, below, above) = largest_pow2_less_than-ends (length part) two fits in
            let l = take (2 ^ h) part in
            let r = drop (2 ^ h) part in
            let split = take-append-drop (2 ^ h) part in
            let (first, second) = regroup pre part l r post split in
            let size_l = length-take (2 ^ h) part in
            let size_r = length-drop (2 ^ h) part in
            let some_l = pow_pos h in
            let left : IsPart l (subtree_hash sha256 fuel leaves lo (lo + 2 ^ h)) =
              subtree_hash-IsPart fuel pre l (r ++ post) leaves lo (lo + 2 ^ h)
                (el ∙ ap (map (leaf_hash sha256)) first) elo (omega arith) (omega arith)
                (omega arith) (omega arith) in
            let right : IsPart r (subtree_hash sha256 fuel leaves (lo + 2 ^ h) hi) =
              subtree_hash-IsPart fuel (pre ++ l) r post leaves (lo + 2 ^ h) hi
                (el ∙ ap (map (leaf_hash sha256)) second) (omega (arith, length-append pre l))
                (omega arith) (omega arith) (omega arith) (omega arith) in
            rw (many, subtree_hash, width, found) (joined-IsPart h part _ _ below above left right)
      ]

  pub root-tree :
      (ps : List (List ℕ))
      → 0 < length ps
      → length ps ≤ 2 ^ 63
      → (t : Tree) × (payloads t ≡ ps)
        × IsRfc t
        × (root sha256 (append_all sha256 ps new_tree) ≡ some (encode_hex (hash_of sha256 t)))
  unfolding root
  root-tree ps filled fits =
      let grown = append_all sha256 ps new_tree in
      let held = append_all-leaves ps new_tree in
      let count : length grown.leaves ≡ length ps =
        ap length held ∙ length-map ps (leaf_hash sha256) in
      let (t, same, rfc, hashed) =
        subtree_hash-IsPart (length grown.leaves) [] ps [] grown.leaves 0 (length grown.leaves)
          (held ∙ ap (map (leaf_hash sha256)) (sym (append-nil ps))) refl (omega arith)
          (omega arith) (omega arith) fits in
      let some_leaf : (length grown.leaves =ℕ 0) ≡ false = ground arith in
      (t, same, rfc, rw (some_leaf, root, hashed) refl)

  -- The root of a log by the specification: the empty text, or the hex text of the hash of an RFC 6962
  -- tree with exactly these payloads, in order.
  pub data IsRoot (ps : List (List ℕ)) (o : Option String) : Type 0 where
    empty : ps ≡ [] → o ≡ some "" → IsRoot ps o
    hashed :
        (t : Tree)
        → payloads t ≡ ps
        → IsRfc t
        → o ≡ some (encode_hex (hash_of sha256 t))
        → IsRoot ps o

  pub root-IsRoot :
      (ps : List (List ℕ))
      → length ps ≤ 2 ^ 63
      → IsRoot ps (root sha256 (append_all sha256 ps new_tree))
  unfolding root append_all
  root-IsRoot [] fits = empty refl refl
  root-IsRoot (p ∷ ps) fits =
      let (t, same, rfc, found) = root-tree (p ∷ ps) (omega arith) fits in hashed t same rfc found
