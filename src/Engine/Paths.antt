-- ===== src/Engine/Paths.antt =====
-- The audit paths of RFC 6962, and what the loop of `verify` makes of one.
use merkle_evidence_vault.Prelude.{
  Bool, List, [], arith, get_elem?, if◌then◌else◌, length, length-append, ltb, refl, suc, zero, ℕ,
  ◌%◌, ◌*◌, ◌++◌, ◌+◌, ◌-◌, ◌/◌, ◌<◌, ◌=ℕ◌, ◌^◌, ◌∷◌, ◌≡◌, ◌≤◌,
}
use merkle_evidence_vault.Engine.{climb, node_hash}
use merkle_evidence_vault.Engine.Shape.{IsPerfect, Tree, hash_of, leaf, node, payloads, size}
use merkle_evidence_vault.Engine.Halves.{pow_suc}

-- What is left of an index after some halvings.
abbrev pub halved : ℕ → ℕ → ℕ
halved zero i = i
halved (suc m) i = halved m (i / 2)

pub halved-low : (m i : ℕ) → i < 2 ^ m → halved m i ≡ 0
halved-low zero i h = omega arith
halved-low (suc m) i h = halved-low m (i / 2) (omega (arith, pow_suc m))

pub halved-high : (m i : ℕ) → 2 ^ m ≤ i → i < 2 * 2 ^ m → halved m i ≡ 1
halved-high zero i low high = omega arith
halved-high (suc m) i low high =
    halved-high m (i / 2) (omega (arith, pow_suc m)) (omega (arith, pow_suc m))

module _ (sha256 : List ℕ → List ℕ) where
  -- PATH(m, D[n]) of RFC 6962: the siblings from the leaf upwards.
  unfoldable pub audit_path : Tree → ℕ → List (List ℕ)
  audit_path (leaf p) i = []
  audit_path (node a b) i =
      let left = audit_path a i in
      let right = audit_path b (i - size a) in
      if ltb i (size a) then left ++ hash_of sha256 b ∷ [] else right ++ hash_of sha256 a ∷ []

  abbrev pub step : Bool → List ℕ → List ℕ → List ℕ
  step left cur sibling =
      if left then node_hash sha256 cur sibling else node_hash sha256 sibling cur

  pub climb-append_last :
      (i : ℕ) (cur s : List ℕ) (path : List (List ℕ))
      → climb sha256 i cur (path ++ s ∷ [])
        ≡ step (halved (length path) i % 2 =ℕ 0) (climb sha256 i cur path) s
  unfolding climb
  climb-append_last i cur s [] = refl
  climb-append_last i cur s (r ∷ path) = climb-append_last (i / 2) (step (i % 2 =ℕ 0) cur r) s path

  -- The bits of the index above the path's length do not matter.
  pub climb-high :
      (i m : ℕ) (cur : List ℕ) (path : List (List ℕ))
      → length path ≡ m
      → climb sha256 (i + 2 ^ m) cur path ≡ climb sha256 i cur path
  unfolding climb
  climb-high i m cur [] e = refl
  climb-high i zero cur (s ∷ path) e = absurd (omega arith)
  climb-high i (suc m) cur (s ∷ path) e =
      let parity : (i + 2 ^ suc m) % 2 ≡ i % 2 = omega (arith, pow_suc m) in
      let half : (i + 2 ^ suc m) / 2 ≡ i / 2 + 2 ^ m = omega (arith, pow_suc m) in
      rw (parity, half) (climb-high (i / 2) m (step (i % 2 =ℕ 0) cur s) path (omega arith))

  pub length-audit_path : (h : ℕ) (t : Tree) (i : ℕ) → IsPerfect h t → length (audit_path t i) ≡ h
  unfolding audit_path
  length-audit_path zero (leaf p) i perfect = refl
  length-audit_path zero (node a b) i perfect = elim perfect [ ]
  length-audit_path (suc h) (leaf p) i perfect = elim perfect [ ]
  length-audit_path (suc h) (node a b) i (pa, pb) =
      let left = length-audit_path h a i pa in
      let right = length-audit_path h b (i - size a) pb in
      let grown_left = length-append (audit_path a i) (hash_of sha256 b ∷ []) in
      let grown_right = length-append (audit_path b (i - size a)) (hash_of sha256 a ∷ []) in
      ground arith

  pub size-perfect : (h : ℕ) (t : Tree) → IsPerfect h t → size t ≡ 2 ^ h
  size-perfect zero (leaf p) perfect = refl
  size-perfect zero (node a b) perfect = elim perfect [ ]
  size-perfect (suc h) (leaf p) perfect = elim perfect [ ]
  size-perfect (suc h) (node a b) (pa, pb) = omega (
    arith,
    size-perfect h a pa,
    size-perfect h b pb,
    pow_suc h,
    length-append (payloads a) (payloads b),
  )

  pub get_elem?-left :
      (xs ys : List (List ℕ)) (i : ℕ) → i < length xs → get_elem? (xs ++ ys) i ≡ get_elem? xs i
  get_elem?-left [] ys i h = absurd (omega arith)
  get_elem?-left (x ∷ xs) ys zero h = refl
  get_elem?-left (x ∷ xs) ys (suc i) h = get_elem?-left xs ys i (omega arith)

  pub get_elem?-right :
      (xs ys : List (List ℕ)) (i : ℕ)
      → length xs ≤ i
      → get_elem? (xs ++ ys) i ≡ get_elem? ys (i - length xs)
  get_elem?-right [] ys i h = let e : i - 0 ≡ i = omega arith in rw e refl
  get_elem?-right (x ∷ xs) ys zero h = absurd (omega arith)
  get_elem?-right (x ∷ xs) ys (suc i) h =
      let e : suc i - suc (length xs) ≡ i - length xs = omega arith in
      rw e (get_elem?-right xs ys i (omega arith))
