-- ===== src/Signer.antt =====
-- services/checkpoint-svc/signer/signer.go, metrics/metrics.go and cmd/checkpoint/main.go: the
-- signers, the choice of one at start, the /sign endpoint and its counters.
pub mod Laws
pub mod Service
mod Tests
use Prim.Native.String
use merkle_evidence_vault.Prelude.{
  List, Option, String, [], if◌then◌else◌, length, none, not, some, ℕ, ◌%◌, ◌&&◌, ◌++◌, ◌+◌, ◌==◌,
  ◌=ℕ◌, ◌^◌, ◌∷◌, string_key,
}
use merkle_evidence_vault.Prelude.Int.{ℤ}
use merkle_evidence_vault.Http.{Response, encode, object, set_header, str, write_header}

-- The process's surroundings: base64, Ed25519 signing with a private key, the environment, and the
-- reading of a file, none where it fails.
pub record Platform : Type 0 where
  pub decode_base64 : String → Option (List ℕ)
  pub encode_base64 : List ℕ → String
  pub ed25519_sign : List ℕ → List ℕ → List ℕ
  pub getenv : String → String
  pub read_file : String → Option String

-- The errors, by what they say; `no_backend` is the one of a KMSSigner without a signer.
pub data SignerError : Type 0 where
  bad_base64 bad_key_size missing_kms_key unreadable_key no_backend : SignerError
  unsupported_provider : String → SignerError

pub data Made {ℓ} (A : Type ℓ) : Type ℓ where
  made : A → Made A
  failed : SignerError → Made A

pub record LocalSigner : Type 0 where
  pub priv : List ℕ
  pub key_ref : String

-- The implementations of `Signer`. A KMSSigner holds its provider, its key id and the signer behind
-- it, which may be nil, and is a LocalSigner wherever the constructor made it.
pub data Signer : Type 0 where
  local : LocalSigner → Signer
  kms : String → String → Option LocalSigner → Signer

abbrev sized : List ℕ → Made LocalSigner
sized dec =
    if length dec =ℕ 64
    then made (record { priv = dec; key_ref = "local:file-or-env" })
    else failed bad_key_size

unfoldable pub new_local_signer_from_base64 : Platform → String → Made LocalSigner
new_local_signer_from_base64 p b64 = elim (p.decode_base64 b64) [
  | none ↦ failed bad_base64
  | some dec ↦ sized dec
]

abbrev with_ref : String → Made LocalSigner → Made LocalSigner
with_ref ref (failed e) = failed e
with_ref ref (made s) = made (if ref == "" then s else record s { key_ref = ref })

unfoldable pub new_local_signer_from_base64_with_ref : Platform → String → String → Made LocalSigner
unfolding new_local_signer_from_base64
new_local_signer_from_base64_with_ref p b64 ref = with_ref ref (new_local_signer_from_base64 p b64)

-- fmt.Sprintf("%s:%s", provider, keyid)
unfoldable pub kms_ref : String → String → String
kms_ref provider keyid = String.◌++◌ provider (String.◌++◌ ":" keyid)

abbrev as_kms : String → String → Made LocalSigner → Made Signer
as_kms provider keyid (failed e) = failed e
as_kms provider keyid (made s) = made (kms provider keyid (some s))

unfoldable pub new_kms_signer : Platform → String → String → Made Signer
unfolding new_local_signer_from_base64_with_ref
new_kms_signer p provider keyid =
    let b64 = p.getenv "KMS_PRIVATE_KEY_B64" in
    if provider == "local-hsm-emulator"
    then (if b64 == ""
        then failed missing_kms_key
        else as_kms provider keyid
            (new_local_signer_from_base64_with_ref p b64 (kms_ref provider keyid)))
    else failed (unsupported_provider provider)

sign_local : Platform → LocalSigner → List ℕ → Made (List ℕ)
sign_local p s b = made (p.ed25519_sign s.priv b)

unfoldable pub sign : Platform → Signer → List ℕ → Made (List ℕ)
unfolding sign_local
sign p (local s) b = sign_local p s b
sign p (kms provider keyid none) b = failed no_backend
sign p (kms provider keyid (some s)) b = sign_local p s b

unfoldable pub key_ref : Signer → String
unfolding kms_ref
key_ref (local s) = s.key_ref
key_ref (kms provider keyid s) = kms_ref provider keyid

abbrev pub as_local : Made LocalSigner → Made Signer
as_local (failed e) = failed e
as_local (made s) = made (local s)

abbrev pub from_file : Platform → String → Option String → Made Signer
from_file p path none = failed unreadable_key
from_file p path (some text) =
    as_local (new_local_signer_from_base64_with_ref p text (String.◌++◌ "local:file:" path))

-- The choice in `main`: the KMS where both of its variables are set, else the key of the
-- environment, else the key file. A failure of the chosen one is not made up for by the next.
unfoldable pub choose_signer : Platform → String → Made Signer
choose_signer p key_path =
    let provider = p.getenv "KMS_PROVIDER" in
    let keyid = p.getenv "KMS_KEY_ID" in
    let b64 = p.getenv "CHECKPOINT_PRIVATE_KEY_B64" in
    if not (provider == "") && not (keyid == "")
    then new_kms_signer p provider keyid
    else if not (b64 == "")
    then as_local
        (new_local_signer_from_base64_with_ref p b64 "local:env:CHECKPOINT_PRIVATE_KEY_B64")
    else from_file p key_path (p.read_file key_path)

-- metrics.go: two `uint64` counters and a time stamp.
pub record SignMetrics : Type 0 where
  pub requests : ℕ
  pub failures : ℕ
  pub last_success : ℤ

abbrev pub inc_u64 : ℕ → ℕ
inc_u64 n = (n + 1) % 2 ^ 64

unfoldable pub inc_sign_requests : SignMetrics → SignMetrics
inc_sign_requests m = record m { requests = inc_u64 m.requests }

unfoldable pub inc_sign_failures : SignMetrics → SignMetrics
inc_sign_failures m = record m { failures = inc_u64 m.failures }

unfoldable pub record_sign_success : ℤ → SignMetrics → SignMetrics
record_sign_success now m = record m { last_success = now }

unfoldable pub signed_answer :
    Platform → Signer → ℤ → Made (List ℕ) → Response → SignMetrics → SignMetrics × Response
signed_answer p s now (failed e) w m = (inc_sign_failures m, write_header 500 w)
signed_answer p s now (made sig) w m = (
  record_sign_success now m,
  encode (object (("signature", str (p.encode_base64 sig)) ∷ ("key_ref", str (key_ref s)) ∷ [])) (
      set_header "X-Checkpoint-Key-Ref" (key_ref s)
        (set_header "Content-Type" "application/json" w)),
)

-- The /sign endpoint. `body` is what reading the request's body gives, none where it fails.
unfoldable pub sign_endpoint :
    Platform
    → Signer
    → ℤ
    → String
    → Option (List ℕ)
    → Response
    → SignMetrics
    → SignMetrics × Response
unfolding signed_answer
sign_endpoint p s now method body w m =
    let m' = inc_sign_requests m in
    if not (method == "POST") then (m', write_header 405 w) else elim body [
      | none ↦ (m', write_header 400 w)
      | some b ↦ signed_answer p s now (sign p s b) w m'
    ]
