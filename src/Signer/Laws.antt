-- ===== src/Signer/Laws.antt =====
-- What the signers and the /sign endpoint guarantee.
use Prim.Native.String
use merkle_evidence_vault.Prelude.{
  Bool, List, Option, Option-cases, String, [], arith, eq_iff, false, inl, inr, length, none, refl,
  some, true, ℕ, ◌%◌, ◌+◌, ◌<◌, ◌==◌, ◌^◌, ◌∙◌, ◌∷◌, ◌≡◌, ◌⊎◌, string_key,
}
use merkle_evidence_vault.Signer.{
  LocalSigner, Platform, SignMetrics, Signer, as_local, choose_signer, from_file, inc_sign_failures,
  inc_sign_requests, inc_u64, key_ref, kms, local, made, new_kms_signer,
  new_local_signer_from_base64_with_ref, record_sign_success, sign, sign_endpoint,
}
use merkle_evidence_vault.Prelude.Int.{ℤ}
use merkle_evidence_vault.Http.{
  Response, encode, new_response, object, sent_status, set_header, str, write_header,
}

-- A signer with a private key of 64 bytes.
abbrev pub IsReady : Signer → Type 0
IsReady (local s) = length s.priv ≡ 64
IsReady (kms provider keyid none) = ⊥
IsReady (kms provider keyid (some s)) = length s.priv ≡ 64

new_local-ready :
    (p : Platform) (b64 ref : String) (s : LocalSigner)
    → new_local_signer_from_base64_with_ref p b64 ref ≡ made s
    → length s.priv ≡ 64
unfolding new_local_signer_from_base64_with_ref
new_local-ready p b64 ref s h = ground arith

-- The KMS signer over the key that KMS_PRIVATE_KEY_B64 holds.
abbrev pub IsKms : Platform → String → String → Signer → Type 0
IsKms p provider keyid s =
    (l : LocalSigner) × (s ≡ kms provider keyid (some l))
    × (p.decode_base64 (p.getenv "KMS_PRIVATE_KEY_B64") ≡ some l.priv)

new_kms_signer-IsReady :
    (p : Platform) (provider keyid : String) (s : Signer)
    → new_kms_signer p provider keyid ≡ made s
    → IsReady s × IsKms p provider keyid s
unfolding new_kms_signer new_local_signer_from_base64_with_ref
new_kms_signer-IsReady p provider keyid (local l) h = ground arith
new_kms_signer-IsReady p provider keyid (kms a b none) h = ground arith
new_kms_signer-IsReady p provider keyid (kms a b (some l)) h =
    (ground arith, (l, ground arith, ground arith))

as_local-IsReady :
    (p : Platform) (b64 ref : String) (s : Signer)
    → as_local (new_local_signer_from_base64_with_ref p b64 ref) ≡ made s
    → IsReady s
unfolding new_local_signer_from_base64_with_ref
as_local-IsReady p b64 ref (local l) h = ground arith
as_local-IsReady p b64 ref (kms a b o) h = ground arith

from_file-IsReady :
    (p : Platform) (path : String) (file : Option String) (s : Signer)
    → from_file p path file ≡ made s
    → IsReady s
from_file-IsReady p path none s h = cc
from_file-IsReady p path (some text) s h =
    as_local-IsReady p text (String.◌++◌ "local:file:" path) s h

-- The signer that the service starts with has a private key of 64 bytes, whichever source it comes
-- from; with both KMS variables set it is the KMS signer of this provider and this key id, over the key
-- that KMS_PRIVATE_KEY_B64 decodes to.
pub choose_signer-IsReady :
    (p : Platform) (path : String) (s : Signer)
    → choose_signer p path ≡ made s
    → IsReady s
      × ((p.getenv "KMS_PROVIDER" ≡ "")
          ⊎ (p.getenv "KMS_KEY_ID" ≡ "")
          ⊎ IsKms p (p.getenv "KMS_PROVIDER") (p.getenv "KMS_KEY_ID") s)
unfolding choose_signer
choose_signer-IsReady p path s h =
    let provider = p.getenv "KMS_PROVIDER" in
    let keyid = p.getenv "KMS_KEY_ID" in
    let b64 = p.getenv "CHECKPOINT_PRIVATE_KEY_B64" in
    ground (
      arith,
      eq_iff provider "",
      eq_iff keyid "",
      new_kms_signer-IsReady p provider keyid s,
      as_local-IsReady p b64 "local:env:CHECKPOINT_PRIVATE_KEY_B64" s,
      from_file-IsReady p path (p.read_file path) s,
    )

-- The private key behind a signer.
abbrev pub private_key : Signer → List ℕ
private_key (local s) = s.priv
private_key (kms provider keyid none) = []
private_key (kms provider keyid (some s)) = s.priv

sign-ready :
    (p : Platform) (s : Signer) (b : List ℕ)
    → IsReady s
    → sign p s b ≡ made (p.ed25519_sign (private_key s) b)
unfolding sign
sign-ready p (local l) b h = refl
sign-ready p (kms x y none) b h = absurd h
sign-ready p (kms x y (some l)) b h = refl

-- A request to the endpoint.
pub record SignRequest : Type 0 where
  pub now : ℤ
  pub method : String
  pub body : Option (List ℕ)

unfoldable pub serve : Platform → Signer → List SignRequest → SignMetrics → SignMetrics
serve p s [] m = m
serve p s (r ∷ rs) m = serve p s rs (sign_endpoint p s r.now r.method r.body new_response m).0

-- The answer, by the method's test and the body.
abbrev pub SignAnswer : Platform → Signer → Bool → Option (List ℕ) → Response → Type 0
SignAnswer p s false body w = w ≡ write_header 405 new_response
SignAnswer p s true none w = w ≡ write_header 400 new_response
SignAnswer p s true (some b) w =
    (sent_status w ≡ 200)
    × (w.body
        ≡ object (
            ("signature", str (p.encode_base64 (p.ed25519_sign (private_key s) b)))
            ∷ ("key_ref", str (key_ref s))
            ∷ [])
          ∷ [])

module _ (p : Platform) (s : Signer) (ready : IsReady s) where
  -- The endpoint of a service with a ready signer: a POST whose body is read gets the signature of
  -- exactly these bytes and the signer's reference, with status 200; any other method gets an empty
  -- 405, and a POST whose body cannot be read an empty 400.
  pub sign_endpoint-answer :
      (now : ℤ) (method : String) (body : Option (List ℕ)) (m : SignMetrics)
      → SignAnswer p s (method == "POST") body (sign_endpoint p s now method body new_response m).1
  unfolding sign_endpoint
  sign_endpoint-answer now method body m = go (method == "POST") refl body
    where
      go :
          (post : Bool)
          → (method == "POST") ≡ post
          → (given : Option (List ℕ))
          → SignAnswer p s post given (sign_endpoint p s now method given new_response m).1
      go false e given = rw (e, sign_endpoint) refl
      go true e none = rw (e, sign_endpoint) refl
      go true e (some b) =
          rw (e, sign_endpoint, sign-ready p s b ready) (unfold set_header encode in (refl, refl))

  sign_endpoint-metrics :
      (r : SignRequest) (m : SignMetrics)
      → ((sign_endpoint p s r.now r.method r.body new_response m).0.requests ≡ inc_u64 m.requests)
        × ((sign_endpoint p s r.now r.method r.body new_response m).0.failures ≡ m.failures)
  unfolding sign_endpoint inc_sign_requests inc_sign_failures record_sign_success
  sign_endpoint-metrics r m = elim (Option-cases r.body) [
    | inl unread ↦ ground arith
    | inr (b, read) ↦ ground (arith, sign-ready p s b ready)
  ]

  -- A ready signer never fails: the failure counter stays as it is, and the request counter counts
  -- every request, whatever its method, modulo 2^64.
  pub serve-metrics :
      (rs : List SignRequest) (m : SignMetrics)
      → m.requests < 2 ^ 64
      → ((serve p s rs m).requests ≡ (m.requests + length rs) % 2 ^ 64)
        × ((serve p s rs m).failures ≡ m.failures)
  unfolding serve
  serve-metrics [] m small = (omega arith, refl)
  serve-metrics (r ∷ rs) m small =
      let m' = (sign_endpoint p s r.now r.method r.body new_response m).0 in
      let (requests, failures) = sign_endpoint-metrics r m in
      let (more, same) = serve-metrics rs m' (omega arith) in (omega arith, same ∙ failures)
