-- ===== src/Engine/Unbalanced.antt =====
-- Inclusion proofs in a log of 2^h + 1 payloads: `verify` takes the directions from the bits of the
-- index, and not from the shape of the tree, in which the last payload stands alone on the right.
use merkle_evidence_vault.Prelude.{
  Bool-cases, List, String, [], ap, arith, eq_iff, false, inl, inr, length-append, refl, some, suc,
  sym, true, zero, ℕ, ◌%◌, ◌<◌, ◌==◌, ◌=ℕ◌, ◌^◌, ◌∙◌, ◌∷◌, ◌≡◌, ◌≤◌, ◌⊎◌, string_key,
}
use merkle_evidence_vault.Text.{or_else}
use merkle_evidence_vault.Text.Hex.{encode_hex, encode_hex-inj}
use merkle_evidence_vault.Digest.{Collision, IsDigest}
use merkle_evidence_vault.Engine.{climb, leaf_hash, new_tree, node_hash, root, verify}
use merkle_evidence_vault.Engine.Shape.{
  AllHashed, AreBytes-hash_of, Hashes, Hashes-AllHashed, IsRfc, Tree, hash_of, leaf,
  leaf_hash-ne-node_hash, length-hash_of, node, node_hash-inj, payloads, size,
}
use merkle_evidence_vault.Engine.Halves.{pow_suc}
use merkle_evidence_vault.Engine.Root.{append_all}
use merkle_evidence_vault.Engine.Member.{hash_step}
use merkle_evidence_vault.Engine.Paths.{audit_path}
use merkle_evidence_vault.Engine.Position.{root-hash_of}

power-even : (h n : ℕ) → n ≡ 2 ^ h → 2 ≤ n → n % 2 ≡ 0
power-even zero n e two = absurd (omega arith)
power-even (suc h) n e two = omega (arith, pow_suc h)

module _ (sha256 : List ℕ → List ℕ) (digest : IsDigest sha256) where
  last-path :
      (a : Tree) (p : List ℕ) → audit_path sha256 (node a (leaf p)) (size a) ≡ hash_of sha256 a ∷ []
  unfolding audit_path
  last-path a p = ground arith

  climb-one :
      (i : ℕ) (cur s : List ℕ) → climb sha256 i cur (s ∷ []) ≡ hash_step sha256 (i % 2 =ℕ 0) cur s
  unfolding climb
  climb-one i cur s = refl

  -- A leaf and a tree of two leaves and more have different hashes.
  leaf-ne-node :
      (P : List ℕ → Type 0) (a : Tree) (p : List ℕ)
      → P (0 ∷ p)
      → AllHashed sha256 P a
      → 2 ≤ size a
      → leaf_hash sha256 p ≡ hash_of sha256 a
      → Collision sha256 P
  leaf-ne-node P (leaf q) p kp ka two e = absurd (omega arith)
  leaf-ne-node P (node b c) p kp (ka, _, _) two e =
      leaf_hash-ne-node_hash sha256 P p (hash_of sha256 b) (hash_of sha256 c) kp ka e

  swapped :
      (P : List ℕ → Type 0) (a : Tree) (p : List ℕ)
      → AllHashed sha256 P (node a (leaf p))
      → AllHashed sha256 P (node (leaf p) a)
      → 2 ≤ size a
      → node_hash sha256 (leaf_hash sha256 p) (hash_of sha256 a)
        ≡ node_hash sha256 (hash_of sha256 a) (leaf_hash sha256 p)
      → Collision sha256 P
  swapped P a p (kt, ka, kp) (ku, _, _) two e =
      elim (node_hash-inj sha256 P (leaf_hash sha256 p) (hash_of sha256 a) (hash_of sha256 a)
        (leaf_hash sha256 p) ku kt
        (length-hash_of sha256 digest (leaf p) ∙ sym (length-hash_of sha256 digest a)) e) [
          | inl (same, other) ↦ leaf-ne-node P a p kp ka two same
          | inr found ↦ found
        ]

  -- The inputs that the tree hashes are computed from of the log, and of the log with the last payload put
  -- first, as `verify` does with an even index.
  abbrev pub Crossed : Tree → List ℕ → List ℕ → Type 0
  Crossed a p x = Hashes sha256 (node a (leaf p)) x ⊎ Hashes sha256 (node (leaf p) a) x

  -- Where the tree of a log has at least two payloads on the left and a single one, its last, on the
  -- right, `verify` refuses the last payload with its own index and its audit path of RFC 6962, unless two
  -- of the inputs of the tree hashes of the log, and of the log with the last payload put first, have the
  -- same digest; and it accepts the same path for it with any odd index.
  pub verify-last_payload :
      (a : Tree) (p : List ℕ) (root_hex : String) (odd n : ℕ)
      → IsRfc (node a (leaf p))
      → 2 ≤ size a
      → size a < 2 ^ 63
      → root sha256 (append_all sha256 (payloads (node a (leaf p))) new_tree) ≡ some root_hex
      → odd % 2 ≡ 1
      → ((verify sha256
              (record {
                leaf_index = size a;
                tree_size = n;
                path = audit_path sha256 (node a (leaf p)) (size a);
              })
              p
              root_hex
            ≡ false)
          ⊎ Collision sha256 (Crossed a p))
        × (verify sha256
              (record {
                leaf_index = odd;
                tree_size = n;
                path = audit_path sha256 (node a (leaf p)) (size a);
              })
              p
              root_hex
            ≡ true)
  unfolding verify
  verify-last_payload a p root_hex odd n (h, full, one, rfc, last) two fits rooted parity =
      let t = node a (leaf p) in
      let even = power-even h (size a) full two in
      let total = length-append (payloads a) (payloads (leaf p)) in
      let text : root_hex ≡ encode_hex (hash_of sha256 t) =
        ap (or_else "")
          (sym rooted ∙ root-hash_of sha256 digest t (h, full, one, rfc, last) (omega arith)) in
      let same = (eq_iff (encode_hex (hash_of sha256 t)) (encode_hex (hash_of sha256 t))).1 refl in
      let genuine : climb sha256 (size a) (leaf_hash sha256 p) (audit_path sha256 t (size a))
          ≡ node_hash sha256 (leaf_hash sha256 p) (hash_of sha256 a) =
        rw (last-path a p, climb-one (size a) (leaf_hash sha256 p) (hash_of sha256 a), even) refl in
      let forged : climb sha256 odd (leaf_hash sha256 p) (audit_path sha256 t (size a))
          ≡ hash_of sha256 t =
        rw (last-path a p, climb-one odd (leaf_hash sha256 p) (hash_of sha256 a), parity) refl in
      let crossed = node (leaf p) a in
      let refused : (encode_hex (hash_of sha256 crossed) == encode_hex (hash_of sha256 t) ≡ false)
          ⊎ Collision sha256 (Crossed a p) =
        elim (Bool-cases (encode_hex (hash_of sha256 crossed) == encode_hex (hash_of sha256 t))) [
          | inr differs ↦ inl differs
          | inl accepted ↦ inr (
              swapped (Crossed a p) a p (Hashes-AllHashed sha256 (Crossed a p) t (λ x k. inl k))
                (Hashes-AllHashed sha256 (Crossed a p) crossed (λ x k. inr k)) two
                (encode_hex-inj (hash_of sha256 crossed) (hash_of sha256 t)
                  (AreBytes-hash_of sha256 digest crossed) (AreBytes-hash_of sha256 digest t)
                  ((eq_iff (encode_hex (hash_of sha256 crossed)) (encode_hex (hash_of sha256 t))).0
                    accepted)))
        ] in
      (rw (genuine, text) refused, rw (forged, text) same)
