-- ===== src/Engine/Member.antt =====
-- What an accepted inclusion proof shows.
use mathlib.Core.List.{Memᴰ}
use mathlib.Core.Path.{subst}
use merkle_evidence_vault.Prelude.{
  Bool, List, String, [], ap, eq_iff, false, if◌then◌else◌, inl, inr, length, refl, some, sym, true,
  ℕ, ◌%◌, ◌++◌, ◌/◌, ◌<◌, ◌=ℕ◌, ◌^◌, ◌∙◌, ◌∷◌, ◌≡◌, ◌≤◌, ◌⊎◌,
}
use merkle_evidence_vault.Prelude.Sorted.{All}
use merkle_evidence_vault.Text.{or_else}
use merkle_evidence_vault.Text.Hex.{AreBytes, encode_hex, encode_hex-inj}
use merkle_evidence_vault.Digest.{Collision, IsDigest}
use merkle_evidence_vault.Engine.{
  InclusionProof, climb, leaf_hash, new_tree, node_hash, root, verify,
}
use merkle_evidence_vault.Engine.Shape.{
  AllHashed, AreBytes-hash_of, Hashes-AllHashed, Logged, Tree, hash_of, leaf, leaf_hash-inj,
  leaf_hash-ne-node_hash, length-hash_of, node, node_hash-inj, payloads, size,
}
use merkle_evidence_vault.Engine.Root.{append_all, root-tree}

pub data IsSubtree (u : Tree) : Tree → Type 0 where
  here : (t : Tree) → u ≡ t → IsSubtree u t
  on_left : (a b : Tree) → IsSubtree u a → IsSubtree u (node a b)
  on_right : (a b : Tree) → IsSubtree u b → IsSubtree u (node a b)

IsSubtree-trans : (u v t : Tree) → IsSubtree u v → IsSubtree v t → IsSubtree u t
IsSubtree-trans u v t s (here _ e) = subst (IsSubtree u) e s
IsSubtree-trans u v _ s (on_left a b r) = on_left a b (IsSubtree-trans u v a s r)
IsSubtree-trans u v _ s (on_right a b r) = on_right a b (IsSubtree-trans u v b s r)

pub mem_left {ℓ} : {A : Type ℓ} (x : A) (xs ys : List A) → Memᴰ x xs → Memᴰ x (xs ++ ys)
mem_left x [] ys h = elim h [ ]
mem_left x (z ∷ xs) ys (Memᴰ.head e) = Memᴰ.head e
mem_left x (z ∷ xs) ys (Memᴰ.tail h) = Memᴰ.tail (mem_left x xs ys h)

pub mem_right {ℓ} : {A : Type ℓ} (x : A) (xs ys : List A) → Memᴰ x ys → Memᴰ x (xs ++ ys)
mem_right x [] ys h = h
mem_right x (z ∷ xs) ys h = Memᴰ.tail (mem_right x xs ys h)

IsSubtree-payload : (p : List ℕ) (t : Tree) → IsSubtree (leaf p) t → Memᴰ p (payloads t)
IsSubtree-payload p t (here _ e) = subst (λ v. Memᴰ p (payloads v)) e (Memᴰ.head refl)
IsSubtree-payload p _ (on_left a b s) =
    mem_left p (payloads a) (payloads b) (IsSubtree-payload p a s)
IsSubtree-payload p _ (on_right a b s) =
    mem_right p (payloads a) (payloads b) (IsSubtree-payload p b s)

-- The siblings are digests, as their type [u8; 32] says.
abbrev pub AreDigests : List (List ℕ) → Type 0
AreDigests path = All (λ sibling. length sibling ≡ 32) path

module _ (sha256 : List ℕ → List ℕ) where
  abbrev pub hash_step : Bool → List ℕ → List ℕ → List ℕ
  hash_step left cur sibling =
      if left then node_hash sha256 cur sibling else node_hash sha256 sibling cur

  -- What a step of a proof hashes.
  abbrev pub step_input : Bool → List ℕ → List ℕ → List ℕ
  step_input true cur sibling = 1 ∷ (cur ++ sibling)
  step_input false cur sibling = 1 ∷ (sibling ++ cur)

  -- The inputs that a proof's steps hash, and those that its check for a payload hashes.
  abbrev pub Climbs : ℕ → List ℕ → List (List ℕ) → List ℕ → Type 0
  Climbs i cur [] x = ⊥
  Climbs i cur (s ∷ path) x =
      (x ≡ step_input (i % 2 =ℕ 0) cur s) ⊎ Climbs (i / 2) (hash_step (i % 2 =ℕ 0) cur s) path x

  abbrev pub Checked : InclusionProof → List ℕ → List ℕ → Type 0
  Checked proof payload x =
      (x ≡ 0 ∷ payload) ⊎ Climbs proof.leaf_index (leaf_hash sha256 payload) proof.path x

  abbrev pub AllClimbed : (List ℕ → Type 0) → ℕ → List ℕ → List (List ℕ) → Type 0
  AllClimbed P i cur [] = Unit
  AllClimbed P i cur (s ∷ path) =
      P (step_input (i % 2 =ℕ 0) cur s) × AllClimbed P (i / 2) (hash_step (i % 2 =ℕ 0) cur s) path

  pub Climbs-AllClimbed :
      (P : List ℕ → Type 0) (i : ℕ) (cur : List ℕ) (path : List (List ℕ))
      → ((x : List ℕ) → Climbs i cur path x → P x)
      → AllClimbed P i cur path
  Climbs-AllClimbed P i cur [] h = tt
  Climbs-AllClimbed P i cur (s ∷ path) h = (
    h (step_input (i % 2 =ℕ 0) cur s) (inl refl),
    Climbs-AllClimbed P (i / 2) (hash_step (i % 2 =ℕ 0) cur s) path (λ x k. h x (inr k)),
  )

  AllHashed-IsSubtree :
      (P : List ℕ → Type 0) (u t : Tree)
      → IsSubtree u t
      → AllHashed sha256 P t
      → AllHashed sha256 P u
  AllHashed-IsSubtree P u t (here _ e) k = subst (AllHashed sha256 P) (sym e) k
  AllHashed-IsSubtree P u _ (on_left a b r) (k, ka, kb) = AllHashed-IsSubtree P u a r ka
  AllHashed-IsSubtree P u _ (on_right a b r) (k, ka, kb) = AllHashed-IsSubtree P u b r kb

module _ (sha256 : List ℕ → List ℕ) (digest : IsDigest sha256) where
  pub length-hash_step : (left : Bool) (cur s : List ℕ) → length (hash_step sha256 left cur s) ≡ 32
  unfolding node_hash
  length-hash_step true cur s = digest.size (1 ∷ (cur ++ s))
  length-hash_step false cur s = digest.size (1 ∷ (s ++ cur))

  AreBytes-hash_step : (left : Bool) (cur s : List ℕ) → AreBytes (hash_step sha256 left cur s)
  unfolding node_hash
  AreBytes-hash_step true cur s = digest.bytes (1 ∷ (cur ++ s))
  AreBytes-hash_step false cur s = digest.bytes (1 ∷ (s ++ cur))

  pub AreBytes-climb :
      (i : ℕ) (cur : List ℕ) (path : List (List ℕ))
      → AreBytes cur
      → AreBytes (climb sha256 i cur path)
  unfolding climb
  AreBytes-climb i cur [] h = h
  AreBytes-climb i cur (s ∷ path) h =
      AreBytes-climb (i / 2) (hash_step sha256 (i % 2 =ℕ 0) cur s) path
        (AreBytes-hash_step (i % 2 =ℕ 0) cur s)

  -- The child of a node that a step of the proof comes from.
  abbrev pub child : Bool → Tree → Tree → Tree
  child left a b = if left then a else b

  pub hash_step-inv :
      (P : List ℕ → Type 0) (left : Bool) (cur s : List ℕ) (t : Tree)
      → P (step_input sha256 left cur s)
      → AllHashed sha256 P t
      → length cur ≡ 32
      → length s ≡ 32
      → hash_step sha256 left cur s ≡ hash_of sha256 t
      → ((a : Tree) × (b : Tree) × (t ≡ node a b) × (cur ≡ hash_of sha256 (child left a b)))
        ⊎ Collision sha256 P
  hash_step-inv P true cur s (leaf p) ks kt size_cur size_s e =
      inr (leaf_hash-ne-node_hash sha256 P p cur s kt ks (sym e))
  hash_step-inv P false cur s (leaf p) ks kt size_cur size_s e =
      inr (leaf_hash-ne-node_hash sha256 P p s cur kt ks (sym e))
  hash_step-inv P true cur s (node a b) ks (kt, _, _) size_cur size_s e =
      elim (node_hash-inj sha256 P cur s (hash_of sha256 a) (hash_of sha256 b) ks kt
        (size_cur ∙ sym (length-hash_of sha256 digest a)) e) [
          | inl (same, other) ↦ inl (a, b, refl, same)
          | inr found ↦ inr found
        ]
  hash_step-inv P false cur s (node a b) ks (kt, _, _) size_cur size_s e =
      elim (node_hash-inj sha256 P s cur (hash_of sha256 a) (hash_of sha256 b) ks kt
        (size_s ∙ sym (length-hash_of sha256 digest a)) e) [
          | inl (other, same) ↦ inl (a, b, refl, same)
          | inr found ↦ inr found
        ]

  child-IsSubtree : (left : Bool) (a b : Tree) → IsSubtree (child left a b) (node a b)
  child-IsSubtree true a b = on_left a b (here a refl)
  child-IsSubtree false a b = on_right a b (here b refl)

  -- A path that ends at the hash of a tree starts at the hash of a part of it.
  climb-IsSubtree :
      (P : List ℕ → Type 0) (i : ℕ) (cur : List ℕ) (path : List (List ℕ)) (t : Tree)
      → AllClimbed sha256 P i cur path
      → AllHashed sha256 P t
      → length cur ≡ 32
      → AreDigests path
      → climb sha256 i cur path ≡ hash_of sha256 t
      → ((u : Tree) × IsSubtree u t × (cur ≡ hash_of sha256 u)) ⊎ Collision sha256 P
  unfolding climb
  climb-IsSubtree P i cur [] t kc kt size h e = inl (t, here t refl, e)
  climb-IsSubtree P i cur (s ∷ path) t (ks, kc) kt size (size_s, h) e =
      let left = i % 2 =ℕ 0 in
      elim (climb-IsSubtree P (i / 2) (hash_step sha256 left cur s) path t kc kt
        (length-hash_step left cur s) h e) [
          | inr found ↦ inr found
          | inl (u, sub, here_u) ↦
              elim (hash_step-inv P left cur s u ks (AllHashed-IsSubtree sha256 P u t sub kt) size
                size_s here_u) [
                  | inr found ↦ inr found
                  | inl (a, b, parent, same) ↦ inl (
                    child left a b,
                    IsSubtree-trans (child left a b) u t
                        (subst (IsSubtree (child left a b)) (sym parent) (child-IsSubtree left a b))
                        sub,
                    same,
                  )
                ]
        ]

  leaf-subtree :
      (P : List ℕ → Type 0) (p : List ℕ) (u t : Tree)
      → P (0 ∷ p)
      → AllHashed sha256 P u
      → IsSubtree u t
      → leaf_hash sha256 p ≡ hash_of sha256 u
      → Memᴰ p (payloads t) ⊎ Collision sha256 P
  leaf-subtree P p (leaf q) t kp ku sub e = elim (leaf_hash-inj sha256 P p q kp ku e) [
    | inl same ↦ inl (IsSubtree-payload p t (subst (λ x. IsSubtree (leaf x) t) (sym same) sub))
    | inr found ↦ inr found
  ]
  leaf-subtree P p (node a b) t kp (ku, _, _) sub e =
      inr (leaf_hash-ne-node_hash sha256 P p (hash_of sha256 a) (hash_of sha256 b) kp ku e)

  -- The hash at the end of an accepted proof is the tree's.
  pub verify-climb :
      (proof : InclusionProof) (payload : List ℕ) (t : Tree)
      → verify sha256 proof payload (encode_hex (hash_of sha256 t)) ≡ true
      → climb sha256 proof.leaf_index (leaf_hash sha256 payload) proof.path ≡ hash_of sha256 t
  unfolding verify leaf_hash
  verify-climb proof payload t accepted =
      let end = climb sha256 proof.leaf_index (leaf_hash sha256 payload) proof.path in
      encode_hex-inj end (hash_of sha256 t)
        (AreBytes-climb proof.leaf_index (leaf_hash sha256 payload) proof.path
          (digest.bytes (0 ∷ payload)))
        (AreBytes-hash_of sha256 digest t)
        ((eq_iff (encode_hex end) (encode_hex (hash_of sha256 t))).0 accepted)

  -- A proof that is accepted for a payload, against the root of a log of at most 2^63 payloads that is
  -- not empty, shows that the payload is one of the log, whatever index and tree size it states; or among
  -- the inputs that the tree hash of RFC 6962 of the log and the check of the proof hash, there are two
  -- with the same digest.
  pub verify-member :
      (proof : InclusionProof) (payload : List ℕ) (ps : List (List ℕ)) (root_hex : String)
      → 0 < length ps
      → length ps ≤ 2 ^ 63
      → AreDigests proof.path
      → root sha256 (append_all sha256 ps new_tree) ≡ some root_hex
      → verify sha256 proof payload root_hex ≡ true
      → Memᴰ payload ps
        ⊎ Collision sha256 (λ x. Logged sha256 ps x ⊎ Checked sha256 proof payload x)
  verify-member proof payload ps root_hex filled fits digests rooted accepted =
      let P : List ℕ → Type 0 = λ x. Logged sha256 ps x ⊎ Checked sha256 proof payload x in
      let (t, same, rfc, known) = root-tree sha256 ps filled fits in
      let kt = Hashes-AllHashed sha256 P t (λ x k. inl (t, rfc, same, k)) in
      let start = leaf_hash sha256 payload in
      let kc = Climbs-AllClimbed sha256 P proof.leaf_index start proof.path (λ x k. inr (inr k)) in
      let text : root_hex ≡ encode_hex (hash_of sha256 t) = ap (or_else "") (sym rooted ∙ known) in
      let accepted' = subst (λ s. verify sha256 proof payload s ≡ true) text accepted in
      let ends = verify-climb proof payload t accepted' in
      elim (climb-IsSubtree P proof.leaf_index start proof.path t kc kt
        (length-hash_of sha256 digest (leaf payload)) digests ends) [
          | inr found ↦ inr found
          | inl (u, sub, begin) ↦
              subst (λ xs. Memᴰ payload xs ⊎ Collision sha256 P) same
                (leaf-subtree P payload u t (inr (inl refl))
                  (AllHashed-IsSubtree sha256 P u t sub kt) sub begin)
        ]
