-- ===== src/Engine/Sides.antt =====
-- The sides that an audit path of RFC 6962 takes, as the bits of an index for the loop of `verify`.
use merkle_evidence_vault.Prelude.{
  Bool-cases, List, [], ap, arith, get_elem?, if◌then◌else◌, inl, inr, length, length-append, ltb,
  ltb→lt, refl, some, suc, sym, zero, ℕ, ◌++◌, ◌+◌, ◌-◌, ◌<◌, ◌^◌, ◌∙◌, ◌∷◌, ◌≡◌, ◌≤◌,
}
use merkle_evidence_vault.Text.{or_else}
use merkle_evidence_vault.Engine.{climb, leaf_hash}
use merkle_evidence_vault.Engine.Shape.{IsPerfect, Tree, hash_of, leaf, node, payloads, size}
use merkle_evidence_vault.Engine.Halves.{pow_suc}
use merkle_evidence_vault.Engine.Paths.{
  audit_path, climb-append_last, climb-high, get_elem?-left, get_elem?-right, halved-high,
  halved-low, length-audit_path, size-perfect,
}

module _ (sha256 : List ℕ → List ℕ) where
  -- From the leaf upwards, a bit is set where the path comes from the right.
  unfoldable pub path_index : Tree → ℕ → ℕ
  path_index (leaf p) i = 0
  path_index (node a b) i =
      let left = path_index a i in
      let right = path_index b (i - size a) in
      if ltb i (size a) then left else right + 2 ^ length (audit_path sha256 b (i - size a))

  path_index-lt : (t : Tree) (i : ℕ) → path_index t i < 2 ^ length (audit_path sha256 t i)
  unfolding path_index audit_path
  path_index-lt (leaf p) i = omega arith
  path_index-lt (node a b) i = elim (Bool-cases (ltb i (size a))) [
    | inl left ↦
        let m = length (audit_path sha256 a i) in
        let longer = length-append (audit_path sha256 a i) (hash_of sha256 b ∷ []) in
        let grown : length (audit_path sha256 a i ++ hash_of sha256 b ∷ []) ≡ suc m = omega arith in
        rw (left, grown) (omega (arith, path_index-lt a i, pow_suc m))
    | inr right ↦
        let j = i - size a in
        let m = length (audit_path sha256 b j) in
        let longer = length-append (audit_path sha256 b j) (hash_of sha256 a ∷ []) in
        let grown : length (audit_path sha256 b j ++ hash_of sha256 a ∷ []) ≡ suc m = omega arith in
        rw (right, grown) (omega (arith, path_index-lt b j, pow_suc m))
  ]

  -- The audit path of a leaf, with this index, leads from its hash to the tree's.
  pub climb-path_index :
      (t : Tree) (i : ℕ) (p : List ℕ)
      → get_elem? (payloads t) i ≡ some p
      → climb sha256 (path_index t i) (leaf_hash sha256 p) (audit_path sha256 t i)
        ≡ hash_of sha256 t
  unfolding path_index audit_path
  climb-path_index (leaf q) zero p at =
      unfold climb in ap (leaf_hash sha256) (ap (or_else []) (sym at))
  climb-path_index (leaf q) (suc i) p at = absurd (cc)
  climb-path_index (node a b) i p at =
      let cur = leaf_hash sha256 p in
      elim (Bool-cases (ltb i (size a))) [
        | inl left ↦
            let path = audit_path sha256 a i in
            let at' =
              sym (get_elem?-left sha256 (payloads a) (payloads b) i (ltb→lt i (size a) left))
              ∙ at in
            rw left (
              climb-append_last sha256 (path_index a i) cur (hash_of sha256 b) path
              ∙ rw
                  (
                    halved-low (length path) (path_index a i) (path_index-lt a i),
                    climb-path_index a i p at',
                  )
                  refl)
        | inr right ↦
            let beyond : size a ≤ i = ground arith in
            let j = i - size a in
            let path = audit_path sha256 b j in
            let m = length path in
            let bound = path_index-lt b j in
            let at' = sym (get_elem?-right sha256 (payloads a) (payloads b) i beyond) ∙ at in
            let inner : climb sha256 (path_index b j + 2 ^ m) cur path ≡ hash_of sha256 b =
              climb-high sha256 (path_index b j) m cur path refl ∙ climb-path_index b j p at' in
            rw right (
              climb-append_last sha256 (path_index b j + 2 ^ m) cur (hash_of sha256 a) path
              ∙ rw (halved-high m (path_index b j + 2 ^ m) (omega arith) (omega arith), inner) refl)
      ]

  -- In a perfect tree this index is the leaf's own.
  pub path_index-same : (h : ℕ) (t : Tree) (i : ℕ) → IsPerfect h t → i < 2 ^ h → path_index t i ≡ i
  unfolding path_index
  path_index-same zero (leaf p) i perfect h = omega arith
  path_index-same zero (node a b) i perfect h = elim perfect [ ]
  path_index-same (suc m) (leaf p) i perfect h = elim perfect [ ]
  path_index-same (suc m) (node a b) i (pa, pb) h =
      let size_a = size-perfect sha256 m a pa in
      let j = i - size a in
      elim (Bool-cases (ltb i (size a))) [
        | inl left ↦
            let within = ltb→lt i (size a) left in rw left (path_index-same m a i pa (omega arith))
        | inr right ↦
            let beyond : size a ≤ i = ground arith in
            let long = length-audit_path sha256 m b j pb in
            let below = path_index-same m b j pb (omega (arith, pow_suc m)) in
            rw (right, long, below) (omega arith)
      ]

  -- In a perfect tree, the audit path of a leaf leads from its hash to the tree's.
  pub climb-audit_path :
      (h : ℕ) (t : Tree) (i : ℕ) (p : List ℕ)
      → IsPerfect h t
      → get_elem? (payloads t) i ≡ some p
      → i < 2 ^ h
      → climb sha256 i (leaf_hash sha256 p) (audit_path sha256 t i) ≡ hash_of sha256 t
  climb-audit_path h t i p perfect at bound =
      ap (λ k. climb sha256 k (leaf_hash sha256 p) (audit_path sha256 t i))
        (sym (path_index-same h t i perfect bound))
      ∙ climb-path_index t i p at
