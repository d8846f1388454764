-- ===== src/Vault/Verify.antt =====
-- services/vault-api/handler/ingest.go: verifyCheckpointResponse, VerifyLatestCheckpoint and
-- VerifyCheckpointByTreeSize.
use merkle_evidence_vault.Prelude.{
  Bool, List, Option, Result, String, [], err, false, if◌then◌else◌, length, none, not, ok, some, ℕ,
  ◌==◌, ◌=ℕ◌, ◌||◌, ◌∷◌, string_key,
}
use merkle_evidence_vault.Prelude.Int.{negsuc, pos, ℤ, int_key}
use merkle_evidence_vault.Prelude.Dict.{lookup}
use merkle_evidence_vault.Text.{
  cut_prefix, cut_suffix, has_prefix, has_suffix, parse_int, trim_prefix, trim_slashes, trim_space,
  trim_suffix,
}
use merkle_evidence_vault.Http.{
  Json, Request, Response, bool, encode, int, object, set_header, str, write_header,
}
use merkle_evidence_vault.Vault.{CheckpointResponse, Host, VaultState, has_checkpoint_access}
use merkle_evidence_vault.Vault.Checkpoint.{Built, build_latest_checkpoint, built, refused}

-- `json.Marshal` of the payload, a struct of an integer and a text, does not fail; the branch that
-- answers 500 is left out.
abbrev pub unavailable : String → Json
unavailable reason = object (("verified", bool false) ∷ ("reason", str reason) ∷ [])

abbrev pub not_base64 : CheckpointResponse → Json
not_base64 cp = object (
    ("verified", bool false)
    ∷ ("reason", str "checkpoint signature is not base64")
    ∷ ("tree_size", int cp.tree_size)
    ∷ ("root_hash", str cp.root_hash)
    ∷ ("key_ref", str cp.key_ref)
    ∷ [])

abbrev pub verdict : Bool → CheckpointResponse → Json
verdict verified cp = object (
    ("verified", bool verified)
    ∷ ("tree_size", int cp.tree_size)
    ∷ ("root_hash", str cp.root_hash)
    ∷ ("signature", str cp.signature)
    ∷ ("key_ref", str cp.key_ref)
    ∷ [])

-- The public key of the environment: 32 bytes, or the reason why there is none.
unfoldable pub public_key : Host → Result (List ℕ)
unfolding trim_space
public_key host =
    let b64 = trim_space (host.getenv "CHECKPOINT_VERIFY_PUBLIC_KEY_B64") in
    if b64 == ""
    then err "missing CHECKPOINT_VERIFY_PUBLIC_KEY_B64"
    else elim (host.decode_base64 b64) [
      | none ↦ err "invalid CHECKPOINT_VERIFY_PUBLIC_KEY_B64"
      | some raw ↦
          if length raw =ℕ 32 then ok raw else err "invalid CHECKPOINT_VERIFY_PUBLIC_KEY_B64"
    ]

unfoldable pub signature_verdict : Host → List ℕ → CheckpointResponse → Json
signature_verdict host key cp = elim (host.decode_base64 cp.signature) [
  | none ↦ not_base64 cp
  | some sig ↦
      verdict (host.ed25519_verify key (host.marshal_payload cp.tree_size cp.root_hash) sig) cp
]

unfoldable pub verify_with : Host → Result (List ℕ) → Response → CheckpointResponse → Response
verify_with host (err reason) w cp = encode (unavailable reason) (write_header 503 w)
verify_with host (ok key) w cp =
    encode (signature_verdict host key cp) (set_header "Content-Type" "application/json" w)

unfoldable pub verify_checkpoint_response : Host → Response → CheckpointResponse → Response
unfolding verify_with signature_verdict
verify_checkpoint_response host w cp = verify_with host (public_key host) w cp

unfoldable pub verify_built : Host → Built → Response → Response
verify_built host (refused code) w = write_header code w
verify_built host (built cp) w = verify_checkpoint_response host w cp

unfoldable pub verify_latest_checkpoint :
    {S : Type 0} → Host → List String → Request → Response → VaultState S → VaultState S × Response
unfolding verify_built
verify_latest_checkpoint host order req w st =
    let (st', r) = build_latest_checkpoint host order req.context st in (st', verify_built host r w)

unfoldable pub verify_stored : Host → Option CheckpointResponse → Response → Response
verify_stored host none w = write_header 404 w
verify_stored host (some cp) w = verify_checkpoint_response host w cp

-- The tree size in the path, `err` with the status where the path has none.
abbrev pub checkpoints_prefix : String
checkpoints_prefix = "/api/v1/checkpoints/"

unfoldable pub size_part : String → String
unfolding trim_slashes cut_prefix cut_suffix
size_part path = trim_slashes (trim_suffix (trim_prefix path checkpoints_prefix) "/verify")

unfoldable pub verify_size : {S : Type 0} → Host → Option ℤ → Response → VaultState S → Response
verify_size host none w st = write_header 400 w
verify_size host (some (negsuc n)) w st = write_header 400 w
verify_size host (some (pos n)) w st =
    if n =ℕ 0
    then write_header 400 w
    else verify_stored host (lookup (pos n) st.checkpoint_history) w

unfoldable pub verify_checkpoint_by_tree_size :
    {S : Type 0} → Host → Request → Response → VaultState S → VaultState S × Response
unfolding verify_size verify_stored verify_checkpoint_response size_part has_checkpoint_access
    write_header parse_int cut_prefix cut_suffix
verify_checkpoint_by_tree_size host req w st =
    if not (has_checkpoint_access req.context)
    then (st, write_header 403 w)
    else if not (has_prefix req.path checkpoints_prefix) || not (has_suffix req.path "/verify")
    then (st, write_header 404 w)
    else (st, verify_size host (parse_int (size_part req.path)) w st)
