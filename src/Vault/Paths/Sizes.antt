-- ===== src/Vault/Paths/Sizes.antt =====
-- The path under which a client asks for the verification of a checkpoint, and the tree size that
-- VerifyCheckpointByTreeSize reads from it.
use Prim.Native.String
use text.Mathlib.TextLemmas.{append_assoc as text_append_assoc}
use merkle_evidence_vault.Prelude.{
  List, Option, Option-cases, String, [], arith, eq_iff, false, inl, inr, length, none, ok, refl,
  some, sym, true, ℕ, ◌<◌, ◌=ℕ◌, ◌^◌, ◌∷◌, ◌≡◌, ◌≢◌, string_key,
}
use merkle_evidence_vault.Prelude.Int.{pos, int_key}
use merkle_evidence_vault.Prelude.Dict.{lookup}
use merkle_evidence_vault.Text.{digits_from, has_prefix, has_suffix, trim_space}
use merkle_evidence_vault.Text.Cuts.{cut_prefix-append, cut_suffix-append}
use merkle_evidence_vault.Text.Decimal.{
  decimal, decimal-ne-nil, digits_from-decimal, parse_int-digits, trim_slashes-digits,
}
use merkle_evidence_vault.Http.{
  Request, Response, bool, encode, int, new_response, object, sent_status, set_header, str,
  write_header,
}
use merkle_evidence_vault.Vault.{CheckpointResponse, Host, VaultState, has_checkpoint_access}
use merkle_evidence_vault.Vault.Verify.{
  checkpoints_prefix, public_key, signature_verdict, size_part, verify_checkpoint_by_tree_size,
  verify_checkpoint_response, verify_size, verify_stored, verify_with,
}

abbrev pub verify_path : String → String
verify_path size = String.◌++◌ checkpoints_prefix (String.◌++◌ size "/verify")

verify_path-prefixed : (s : String) → has_prefix (verify_path s) checkpoints_prefix ≡ true
verify_path-prefixed s = rw (cut_prefix-append checkpoints_prefix (String.◌++◌ s "/verify")) refl

verify_path-suffixed : (s : String) → has_suffix (verify_path s) "/verify" ≡ true
verify_path-suffixed s =
    rw
      (
        sym (text_append_assoc checkpoints_prefix s "/verify"),
        cut_suffix-append "/verify" (String.◌++◌ checkpoints_prefix s),
      )
      refl

size_part-verify_path :
    (s : String) (n : ℕ) → digits_from 0 s ≡ some n → size_part (verify_path s) ≡ s
unfolding size_part
size_part-verify_path s n h =
    rw
      (
        cut_prefix-append checkpoints_prefix (String.◌++◌ s "/verify"),
        cut_suffix-append "/verify" s,
      )
      (trim_slashes-digits n s h)

-- The answer about what is stored under a tree size, by the verification key: nothing is stored; or the
-- stored checkpoint's signature does not decode; or it does, and the answer tells whether it verifies.
pub data IsSizeAnswer (host : Host) (key : List ℕ)
    : Option CheckpointResponse → Response → Type 0 where
  missing : {w : Response} → w.status ≡ some 404 → w.body ≡ [] → IsSizeAnswer host key none w
  undecodable :
      {cp : CheckpointResponse} {w : Response}
      → host.decode_base64 cp.signature ≡ none
      → sent_status w ≡ 200
      → w.body
        ≡ object (
            ("verified", bool false)
            ∷ ("reason", str "checkpoint signature is not base64")
            ∷ ("tree_size", int cp.tree_size)
            ∷ ("root_hash", str cp.root_hash)
            ∷ ("key_ref", str cp.key_ref)
            ∷ [])
          ∷ []
      → IsSizeAnswer host key (some cp) w
  judged :
      {cp : CheckpointResponse} {w : Response} {sig : List ℕ}
      → host.decode_base64 cp.signature ≡ some sig
      → sent_status w ≡ 200
      → w.body
        ≡ object (
            (
              "verified",
              bool (host.ed25519_verify key (host.marshal_payload cp.tree_size cp.root_hash) sig),
            )
            ∷ ("tree_size", int cp.tree_size)
            ∷ ("root_hash", str cp.root_hash)
            ∷ ("signature", str cp.signature)
            ∷ ("key_ref", str cp.key_ref)
            ∷ [])
          ∷ []
      → IsSizeAnswer host key (some cp) w

-- The setting of the environment is the base64 text of a key of 32 bytes.
pub record IsConfigured (host : Host) (key : List ℕ) : Type 0 where
  pub set : trim_space (host.getenv "CHECKPOINT_VERIFY_PUBLIC_KEY_B64") ≢ ""
  pub decodes :
      host.decode_base64 (trim_space (host.getenv "CHECKPOINT_VERIFY_PUBLIC_KEY_B64")) ≡ some key
  pub sized : length key ≡ 32

public_key-known : (host : Host) (key : List ℕ) → IsConfigured host key → public_key host ≡ ok key
unfolding public_key
public_key-known host key c =
    let blank = eq_iff (trim_space (host.getenv "CHECKPOINT_VERIFY_PUBLIC_KEY_B64")) "" in
    let there = c.decodes in let room = c.sized in let set = c.set in ground arith

verify_stored-IsSizeAnswer :
    (host : Host) (key : List ℕ) (o : Option CheckpointResponse)
    → IsConfigured host key
    → IsSizeAnswer host key o (verify_stored host o new_response)
unfolding verify_stored verify_checkpoint_response verify_with signature_verdict encode set_header
    write_header
verify_stored-IsSizeAnswer host key none c = missing refl refl
verify_stored-IsSizeAnswer host key (some cp) c =
    let known = public_key-known host key c in
    elim (Option-cases (host.decode_base64 cp.signature)) [
      | inl bad ↦
          undecodable bad (rw (known, verify_with) refl)
            (rw (known, verify_with, signature_verdict, bad) refl)
      | inr (sig, good) ↦
          judged good (rw (known, verify_with) refl)
            (rw (known, verify_with, signature_verdict, good) refl)
    ]

-- A caller with a checkpoint role who asks for a tree size that is positive and fits an `int64`, in
-- decimal, of a server whose verification key is configured, gets an empty 404 where no checkpoint is stored
-- under exactly this size, and with status 200 the checkpoint that is stored under it and whether its
-- signature verifies under the key, or that the signature is not base64; the state stays.
pub verify_checkpoint_by_tree_size-decimal :
    {S : Type 0} (host : Host) (key : List ℕ) (req : Request) (st : VaultState S) (n : ℕ)
    → IsConfigured host key
    → has_checkpoint_access req.context ≡ true
    → 0 < n
    → n < 2 ^ 63
    → req.path ≡ verify_path (decimal n)
    → (w : Response) × (verify_checkpoint_by_tree_size host req new_response st ≡ (st, w))
      × IsSizeAnswer host key (lookup (pos n) st.checkpoint_history) w
unfolding verify_checkpoint_by_tree_size verify_size
verify_checkpoint_by_tree_size-decimal host key req st n c access positive room path =
    let s = decimal n in
    let spelt = digits_from-decimal n room in
    let read = parse_int-digits n s (decimal-ne-nil n positive room) spelt room in
    let counted : (n =ℕ 0) ≡ false = ground arith in
    (
      verify_stored host (lookup (pos n) st.checkpoint_history) new_response,
      rw
          (
            access,
            path,
            verify_path-prefixed s,
            verify_path-suffixed s,
            size_part-verify_path s n spelt,
            read,
            counted,
          )
          refl,
      verify_stored-IsSizeAnswer host key (lookup (pos n) st.checkpoint_history) c,
    )
