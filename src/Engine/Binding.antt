-- ===== src/Engine/Binding.antt =====
-- The payloads behind a root of services/merkle-engine/src/tree.rs.
use Prim.Native.String.{count}
use merkle_evidence_vault.Prelude.{
  List, ap, arith, inl, inr, length, sym, ℕ, ◌^◌, ◌∙◌, ◌≡◌, ◌≢◌, ◌≤◌, ◌⊎◌,
}
use merkle_evidence_vault.Text.{or_else}
use merkle_evidence_vault.Text.Hex.{count-encode_hex, encode_hex, encode_hex-inj}
use merkle_evidence_vault.Digest.{Collision, IsDigest}
use merkle_evidence_vault.Engine.{new_tree, root}
use merkle_evidence_vault.Engine.Shape.{
  AllHashed, AreBytes-hash_of, Hashes-AllHashed, Logged, Tree, hash_of, leaf, leaf_hash-inj,
  leaf_hash-ne-node_hash, length-hash_of, node, node_hash-inj, payloads,
}
use merkle_evidence_vault.Engine.Root.{append_all, empty, hashed, root-IsRoot}

module _ (sha256 : List ℕ → List ℕ) (digest : IsDigest sha256) where
  pub hash_of-inj :
      (P : List ℕ → Type 0) (t u : Tree)
      → AllHashed sha256 P t
      → AllHashed sha256 P u
      → hash_of sha256 t ≡ hash_of sha256 u
      → (t ≡ u) ⊎ Collision sha256 P
  hash_of-inj P (leaf p) (leaf q) kt ku e = elim (leaf_hash-inj sha256 P p q kt ku e) [
    | inl same ↦ inl (ap leaf same)
    | inr found ↦ inr found
  ]
  hash_of-inj P (leaf p) (node a b) kt (ku, _, _) e =
      inr (leaf_hash-ne-node_hash sha256 P p (hash_of sha256 a) (hash_of sha256 b) kt ku e)
  hash_of-inj P (node a b) (leaf q) (kt, _, _) ku e =
      inr (leaf_hash-ne-node_hash sha256 P q (hash_of sha256 a) (hash_of sha256 b) ku kt (sym e))
  hash_of-inj P (node a b) (node a' b') (kt, ka, kb) (ku, ka', kb') e =
      elim (node_hash-inj sha256 P (hash_of sha256 a) (hash_of sha256 b) (hash_of sha256 a')
        (hash_of sha256 b') kt ku
        (length-hash_of sha256 digest a ∙ sym (length-hash_of sha256 digest a')) e) [
          | inr found ↦ inr found
          | inl (ea, eb) ↦ both (hash_of-inj P a a' ka ka' ea) (hash_of-inj P b b' kb kb' eb)
        ]
    where
      both :
          (a ≡ a') ⊎ Collision sha256 P
          → (b ≡ b') ⊎ Collision sha256 P
          → (node a b ≡ node a' b') ⊎ Collision sha256 P
      both (inr found) right = inr found
      both (inl ea) (inr found) = inr found
      both (inl ea) (inl eb) = inl (λ i. node (ea i) (eb i))

  -- The empty text is no root of a tree.
  hash_of-ne-nil : (t : Tree) → encode_hex (hash_of sha256 t) ≢ ""
  hash_of-ne-nil t e =
      let digits = ap count e in
      omega (arith, count-encode_hex (hash_of sha256 t), length-hash_of sha256 digest t)

  -- Two logs of at most 2^63 payloads with the same root are the same log, of the same length and in the
  -- same order, or among the inputs that the two tree hashes of RFC 6962 are computed from there are two
  -- with the same digest.
  pub root-binds :
      (ps qs : List (List ℕ))
      → length ps ≤ 2 ^ 63
      → length qs ≤ 2 ^ 63
      → root sha256 (append_all sha256 ps new_tree) ≡ root sha256 (append_all sha256 qs new_tree)
      → (ps ≡ qs) ⊎ Collision sha256 (λ x. Logged sha256 ps x ⊎ Logged sha256 qs x)
  root-binds ps qs fp fq e = elim (root-IsRoot sha256 ps fp) [
    | empty np hp ↦ elim (root-IsRoot sha256 qs fq) [
      | empty nq hq ↦ inl (np ∙ sym nq)
      | hashed u pu ru hu ↦ absurd (hash_of-ne-nil u (sym (ap (or_else "") (sym hp ∙ e ∙ hu))))
    ]
    | hashed t pt rt ht ↦ elim (root-IsRoot sha256 qs fq) [
      | empty nq hq ↦ absurd (hash_of-ne-nil t (ap (or_else "") (sym ht ∙ e ∙ hq)))
      | hashed u pu ru hu ↦
          let P : List ℕ → Type 0 = λ x. Logged sha256 ps x ⊎ Logged sha256 qs x in
          let kt = Hashes-AllHashed sha256 P t (λ x k. inl (t, rt, pt, k)) in
          let ku = Hashes-AllHashed sha256 P u (λ x k. inr (u, ru, pu, k)) in
          elim (hash_of-inj P t u kt ku (
            encode_hex-inj (hash_of sha256 t) (hash_of sha256 u) (AreBytes-hash_of sha256 digest t)
              (AreBytes-hash_of sha256 digest u) (ap (or_else "") (sym ht ∙ e ∙ hu)))) [
                | inl same ↦ inl (sym pt ∙ ap payloads same ∙ pu)
                | inr found ↦ inr found
              ]
    ]
  ]
