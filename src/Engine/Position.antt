-- ===== src/Engine/Position.antt =====
-- Inclusion proofs in a log of 2^h payloads, with the audit paths of RFC 6962.
use mathlib.Core.Path.{subst}
use native.Mathlib.Nat.{pow-le-pow_right}
use merkle_evidence_vault.Prelude.{
  Bool, Bool-cases, List, String, [], ap, arith, eq_iff, false, get_elem?, inl, inr, length,
  length-append, ltb, ltb→lt, refl, some, suc, sym, true, zero, ℕ, ◌%◌, ◌*◌, ◌++◌, ◌-◌, ◌/◌, ◌<◌,
  ◌=ℕ◌, ◌^◌, ◌∙◌, ◌∷◌, ◌≡◌, ◌≤◌, ◌⊎◌,
}
use merkle_evidence_vault.Text.Hex.{encode_hex}
use merkle_evidence_vault.Digest.{Collision, IsDigest, append_inj}
use merkle_evidence_vault.Engine.{InclusionProof, climb, leaf_hash, new_tree, root, verify}
use merkle_evidence_vault.Engine.Shape.{
  IsPerfect, IsRfc, Tree, hash_of, leaf, leaf_hash-inj, length-hash_of, node, node_hash-inj,
  payloads, size, size-pos,
}
use merkle_evidence_vault.Engine.Halves.{pow_pos, pow_suc}
use merkle_evidence_vault.Engine.Root.{append_all, root-tree}
use merkle_evidence_vault.Engine.Member.{
  AllClimbed, AreDigests, Checked, Climbs-AllClimbed, hash_step, length-hash_step, step_input,
  verify-climb,
}
use merkle_evidence_vault.Engine.Paths.{audit_path, length-audit_path}
use merkle_evidence_vault.Engine.Sides.{climb-audit_path}
use merkle_evidence_vault.Text.{or_else}
use merkle_evidence_vault.Store.Leaves.{get_elem?-lt, get_elem?-some}

pow-le : (g k : ℕ) → g ≤ k → 2 ^ g ≤ 2 ^ k
pow-le g k h = pow-le-pow_right (omega arith) h

-- Powers of two less than a factor of two apart are the same.
pow-near : (g k : ℕ) → 2 ^ k < 2 * 2 ^ g → 2 ^ g < 2 * 2 ^ k → g ≡ k
pow-near g k low high = elim (Bool-cases (ltb g k)) [
  | inl below ↦ let lt = ltb→lt g k below in absurd (omega (arith, pow-le (suc g) k lt, pow_suc g))
  | inr beyond ↦ elim (Bool-cases (ltb k g)) [
    | inl above ↦
        let gt = ltb→lt k g above in absurd (omega (arith, pow-le (suc k) g gt, pow_suc k))
    | inr neither ↦ ground arith
  ]
]

-- The RFC 6962 tree of 2^h payloads is perfect.
IsRfc-IsPerfect : (t : Tree) (h : ℕ) → IsRfc t → size t ≡ 2 ^ h → IsPerfect h t
IsRfc-IsPerfect (leaf p) zero rfc e = tt
IsRfc-IsPerfect (leaf p) (suc h) rfc e = absurd (omega (arith, pow_suc h, pow_pos h))
IsRfc-IsPerfect (node a b) zero rfc e =
    absurd (omega (arith, size-pos a, size-pos b, length-append (payloads a) (payloads b)))
IsRfc-IsPerfect (node a b) (suc h) (g, size_a, size_b, ra, rb) e =
    let total = length-append (payloads a) (payloads b) in
    let some_b = size-pos b in
    let double = pow_suc h in
    let same : g ≡ h = pow-near g h (omega arith) (omega arith) in
    let power = ap (λ (k : ℕ). 2 ^ k) same in
    (IsRfc-IsPerfect a h ra (omega arith), IsRfc-IsPerfect b h rb (omega arith))

-- There is one RFC 6962 tree for a list of payloads.
pub IsRfc-unique : (t u : Tree) → IsRfc t → IsRfc u → payloads t ≡ payloads u → t ≡ u
IsRfc-unique (leaf p) (leaf q) rt ru e = ap leaf (cc)
IsRfc-unique (leaf p) (node a b) rt ru e =
    let sizes = ap length e in
    absurd (omega (arith, size-pos a, size-pos b, length-append (payloads a) (payloads b)))
IsRfc-unique (node a b) (leaf q) rt ru e =
    let sizes = ap length e in
    absurd (omega (arith, size-pos a, size-pos b, length-append (payloads a) (payloads b)))
IsRfc-unique (node a b) (node a' b') (g, sa, sb, ra, rb) (g', sa', sb', ra', rb') e =
    let sizes = ap length e in
    let total = length-append (payloads a) (payloads b) in
    let total' = length-append (payloads a') (payloads b') in
    let some_b = size-pos b in
    let some_b' = size-pos b' in
    let same : g ≡ g' = pow-near g g' (omega arith) (omega arith) in
    let power = ap (λ (k : ℕ). 2 ^ k) same in
    let (left, right) =
      append_inj (payloads a) (payloads b) (payloads a') (payloads b') e (omega arith) in
    let one = IsRfc-unique a a' ra ra' left in
    let two = IsRfc-unique b b' rb rb' right in λ i. node (one i) (two i)

module _ (sha256 : List ℕ → List ℕ) (digest : IsDigest sha256) where
  -- Two paths of one length and one index that end at the same hash start at the same hash.
  climb-inj :
      (P : List ℕ → Type 0) (i : ℕ) (cur cur' : List ℕ) (path path' : List (List ℕ))
      → AllClimbed sha256 P i cur path
      → AllClimbed sha256 P i cur' path'
      → length cur ≡ 32
      → length cur' ≡ 32
      → AreDigests path
      → AreDigests path'
      → length path ≡ length path'
      → climb sha256 i cur path ≡ climb sha256 i cur' path'
      → (cur ≡ cur') ⊎ Collision sha256 P
  unfolding climb
  climb-inj P i cur cur' [] [] kc kc' sc sc' h h' same e = inl e
  climb-inj P i cur cur' [] (s ∷ path) kc kc' sc sc' h h' same e = absurd (omega arith)
  climb-inj P i cur cur' (s ∷ path) [] kc kc' sc sc' h h' same e = absurd (omega arith)
  climb-inj P i cur cur' (s ∷ path) (s' ∷ path') (ks, kc) (ks', kc') sc sc' (ss, h) (ss', h') same
        e =
      let left = i % 2 =ℕ 0 in
      elim (climb-inj P (i / 2) (hash_step sha256 left cur s) (hash_step sha256 left cur' s') path
        path' kc kc' (length-hash_step sha256 digest left cur s)
        (length-hash_step sha256 digest left cur' s') h h' (omega arith) e) [
          | inr found ↦ inr found
          | inl equal ↦ back left ks ks' equal
        ]
    where
      back :
          (left : Bool)
          → P (step_input sha256 left cur s)
          → P (step_input sha256 left cur' s')
          → hash_step sha256 left cur s ≡ hash_step sha256 left cur' s'
          → (cur ≡ cur') ⊎ Collision sha256 P
      back true k k' equal = elim (node_hash-inj sha256 P cur s cur' s' k k' (sc ∙ sym sc') equal) [
        | inl (first, second) ↦ inl first
        | inr found ↦ inr found
      ]
      back false k k' equal =
          elim (node_hash-inj sha256 P s cur s' cur' k k' (ss ∙ sym ss') equal) [
            | inl (first, second) ↦ inl second
            | inr found ↦ inr found
          ]

  AreDigests-append_last :
      (path : List (List ℕ)) (s : List ℕ)
      → AreDigests path
      → length s ≡ 32
      → AreDigests (path ++ s ∷ [])
  AreDigests-append_last [] s h e = (e, tt)
  AreDigests-append_last (r ∷ path) s (er, h) e = (er, AreDigests-append_last path s h e)

  AreDigests-audit_path : (t : Tree) (i : ℕ) → AreDigests (audit_path sha256 t i)
  unfolding audit_path
  AreDigests-audit_path (leaf p) i = tt
  AreDigests-audit_path (node a b) i = elim (Bool-cases (ltb i (size a))) [
    | inl left ↦ rw left (
        AreDigests-append_last (audit_path sha256 a i) (hash_of sha256 b)
          (AreDigests-audit_path a i) (length-hash_of sha256 digest b))
    | inr right ↦ rw right (
        AreDigests-append_last (audit_path sha256 b (i - size a)) (hash_of sha256 a)
          (AreDigests-audit_path b (i - size a)) (length-hash_of sha256 digest a))
  ]

  -- The root of the log of an RFC 6962 tree is the tree's hash.
  pub root-hash_of :
      (t : Tree)
      → IsRfc t
      → size t ≤ 2 ^ 63
      → root sha256 (append_all sha256 (payloads t) new_tree) ≡ some (encode_hex (hash_of sha256 t))
  root-hash_of t rfc fits =
      let (u, same, rfc', found) = root-tree sha256 (payloads t) (size-pos t) fits in
      found ∙ ap (λ v. some (encode_hex (hash_of sha256 v))) (IsRfc-unique u t rfc' rfc same)

  -- In a log of 2^h payloads, h at most 63, the audit path of RFC 6962 for an index is accepted with the
  -- payload there, against the log's root, whatever tree size the proof states.
  pub verify-audit_path :
      (h : ℕ) (t : Tree) (root_hex : String) (i n : ℕ) (p : List ℕ)
      → h ≤ 63
      → IsRfc t
      → size t ≡ 2 ^ h
      → root sha256 (append_all sha256 (payloads t) new_tree) ≡ some root_hex
      → get_elem? (payloads t) i ≡ some p
      → verify sha256
          (record { leaf_index = i; tree_size = n; path = audit_path sha256 t i })
          p
          root_hex
        ≡ true
  unfolding verify
  verify-audit_path h t root_hex i n p small rfc full rooted at =
      let bound = pow-le h 63 small in
      let text : root_hex ≡ encode_hex (hash_of sha256 t) =
        ap (or_else "") (sym rooted ∙ root-hash_of t rfc (omega arith)) in
      let within = get_elem?-lt (payloads t) i at in
      let ends = climb-audit_path sha256 h t i p (IsRfc-IsPerfect t h rfc full) at (omega arith) in
      rw (text, ends)
        ((eq_iff (encode_hex (hash_of sha256 t)) (encode_hex (hash_of sha256 t))).1 refl)

  -- The inputs that the check of the audit path of RFC 6962 hashes, for the proof's index and the payload
  -- there.
  abbrev pub Rechecked : Tree → InclusionProof → List ℕ → Type 0
  Rechecked t proof x =
      (q : List ℕ) × (get_elem? (payloads t) proof.leaf_index ≡ some q)
      × Checked sha256 (record proof { path = audit_path sha256 t proof.leaf_index }) q x

  -- In a log of 2^h payloads, h at most 63, a proof with h siblings and an index of the log that is
  -- accepted for a payload, against the log's root, shows that the payload is the one at this index; or
  -- among the inputs that its check and the check of the log's own audit path for this index hash, there
  -- are two with the same digest.
  pub verify-position :
      (h : ℕ) (t : Tree) (root_hex : String) (proof : InclusionProof) (p : List ℕ)
      → h ≤ 63
      → IsRfc t
      → size t ≡ 2 ^ h
      → root sha256 (append_all sha256 (payloads t) new_tree) ≡ some root_hex
      → AreDigests proof.path
      → length proof.path ≡ h
      → proof.leaf_index < size t
      → verify sha256 proof p root_hex ≡ true
      → (get_elem? (payloads t) proof.leaf_index ≡ some p)
        ⊎ Collision sha256 (λ x. Checked sha256 proof p x ⊎ Rechecked t proof x)
  verify-position h t root_hex proof p small rfc full rooted digests long within accepted =
      let P : List ℕ → Type 0 = λ x. Checked sha256 proof p x ⊎ Rechecked t proof x in
      let bound = pow-le h 63 small in
      let perfect = IsRfc-IsPerfect t h rfc full in
      let i = proof.leaf_index in
      let text : root_hex ≡ encode_hex (hash_of sha256 t) =
        ap (or_else "") (sym rooted ∙ root-hash_of t rfc (omega arith)) in
      let ends =
        verify-climb sha256 digest proof p t
          (subst (λ s. verify sha256 proof p s ≡ true) text accepted) in
      let (q, at) = get_elem?-some (payloads t) i within in
      let genuine = climb-audit_path sha256 h t i q perfect at (omega arith) in
      let path = audit_path sha256 t i in
      let kc = Climbs-AllClimbed sha256 P i (leaf_hash sha256 p) proof.path (λ x k. inl (inr k)) in
      let kc' =
        Climbs-AllClimbed sha256 P i (leaf_hash sha256 q) path (λ x k. inr (q, at, inr k)) in
      elim (climb-inj P i (leaf_hash sha256 p) (leaf_hash sha256 q) proof.path path kc kc'
        (length-hash_of sha256 digest (leaf p)) (length-hash_of sha256 digest (leaf q)) digests
        (AreDigests-audit_path t i) (long ∙ sym (length-audit_path sha256 h t i perfect))
        (ends ∙ sym genuine)) [
          | inr found ↦ inr found
          | inl same ↦
              elim (leaf_hash-inj sha256 P p q (inl (inl refl)) (inr (q, at, inl refl)) same) [
                | inr found ↦ inr found
                | inl equal ↦ inl (at ∙ ap some (sym equal))
              ]
        ]
