-- ===== src/Vault/Ingest.antt =====
-- services/vault-api/handler/ingest.go: Ingest, GetAudit, GetEvidence and GetProof.
use Prim.Native.String.{len}
use mathlib.Core.Option
use text.Mathlib.Text.{get?}
use merkle_evidence_vault.Prelude.{
  List, Option, Result, String, [], err, if◌then◌else◌, ltb, none, ok, some, ℕ, ◌++◌, ◌∷◌,
  string_key,
}
use merkle_evidence_vault.Prelude.Int.{add64, pos, ℤ, int_key}
use merkle_evidence_vault.Prelude.Dict.{insert, lookup}
use merkle_evidence_vault.Text.{cut_suffix, trim_suffix}
use merkle_evidence_vault.Http.{
  Context, IngestRequest, Items, Json, Request, Response, arr, cons, encode, int, nil, null, object,
  set_header, str, write_header,
}
use merkle_evidence_vault.Store.{Evidence, StoreApi}
use merkle_evidence_vault.Vault.{
  AuditRecord, VaultState, has_role, roles_from_context, subject_from_context, zero_root,
}

abbrev json_header : Response → Response
json_header w = set_header "Content-Type" "application/json" w

-- `r.URL.Path[len("/api/v1/evidence/"):]`, in bytes; none where Go panics, or where the cut would
-- fall inside a character.
unfoldable pub evidence_id : String → Option String
evidence_id path = get? path 17 (len path)

module _ (api : StoreApi) where
  open api use {State, save_evidence, save_audit, get_evidence as store_get_evidence}

  -- `_ = s.SaveEvidence(…)`, `_ = s.SaveAudit(…)`: the errors are dropped.
  save_to_store : String → String → ℕ → Option State → Option State
  save_to_store id actor now none = none
  save_to_store id actor now (some s) =
      let s' = (save_evidence id s).0 in
      some (save_audit (record { id = ""; resource_id = id; actor = actor; timestamp = now }) s').0

  -- The handler behind its two guards. `now` and `now'` are the two readings of the clock.
  accept : String → ℕ → ℕ → Context → Response → VaultState State → VaultState State × Response
  unfolding save_to_store
  accept id now now' ctx w st =
      let actor = subject_from_context ctx in
      (
        record st {
          store_map = insert id (record { id = id; leaf_index = none }) st.store_map;
          audits = st.audits ++ record { id = id; actor = actor; timestamp = now } ∷ [];
          store = save_to_store id actor now' st.store;
        },
        encode (object (("id", str id) ∷ ("content_hash", str "") ∷ ("status", str "pending") ∷ []))
            (write_header 202 (json_header w)),
      )

  unfoldable pub ingest_payload :
      String → ℕ → ℕ → Context → List ℕ → Response → VaultState State → VaultState State × Response
  unfolding accept
  ingest_payload id now now' ctx [] w st = (st, write_header 400 w)
  ingest_payload id now now' ctx (_ ∷ _) w st = accept id now now' ctx w st

  unfoldable pub ingest_decoded :
      String
      → ℕ
      → ℕ
      → Context
      → Option IngestRequest
      → Response
      → VaultState State
      → VaultState State × Response
  unfolding ingest_payload
  ingest_decoded id now now' ctx none w st = (st, write_header 400 w)
  ingest_decoded id now now' ctx (some body) w st = ingest_payload id now now' ctx body.payload w st

  -- `id` is the UUID that the handler draws.
  unfoldable pub ingest :
      String → ℕ → ℕ → Request → Response → VaultState State → VaultState State × Response
  unfolding ingest_decoded set_header write_header encode
  ingest id now now' req w st = ingest_decoded id now now' req.context req.body w st

  abbrev leaf_json : Option ℤ → Json
  leaf_json none = null
  leaf_json (some i) = int i

  evidence_answer : Option (Option ℤ) → Response → Response
  evidence_answer none w = write_header 404 w
  evidence_answer (some leaf) w =
      encode (object (("leaf_index", leaf_json leaf) ∷ [])) (json_header w)

  abbrev result_leaf : Result Evidence → Option (Option ℤ)
  result_leaf (ok e) = some e.leaf_index
  result_leaf (err m) = none

  abbrev record_leaf : Option Evidence → Option (Option ℤ)
  record_leaf none = none
  record_leaf (some e) = some e.leaf_index

  -- The store answers if there is one, and the map of the process otherwise.
  evidence_of : String → Option State → Response → VaultState State → VaultState State × Response
  unfolding evidence_answer
  evidence_of id none w st = (st, evidence_answer (record_leaf (lookup id st.store_map)) w)
  evidence_of id (some s) w st =
      let (s', r) = store_get_evidence id s in
      (record st { store = some s' }, evidence_answer (result_leaf r) w)

  unfoldable pub get_evidence :
      Request → Response → VaultState State → Option (VaultState State × Response)
  unfolding evidence_of evidence_id set_header write_header encode
  get_evidence req w st = Option.map (λ id. evidence_of id st.store w st) (evidence_id req.path)

-- `if len(id) > 6 && id[len(id)-6:] == "/proof" { … }`
unfoldable pub proof_id : String → String
unfolding cut_suffix
proof_id id = if ltb 6 (len id) then trim_suffix id "/proof" else id

unfoldable pub proof_answer : Option Evidence → Response → Response
proof_answer none w = write_header 404 w
proof_answer (some e) w = elim e.leaf_index [
  | none ↦ write_header 404 w
  | some i ↦
      encode
        (object (
          ("leaf_index", int i)
          ∷ ("tree_size", int (add64 i (pos 1)))
          ∷ ("root", str zero_root)
          ∷ ("path", arr nil)
          ∷ []))
        (json_header w)
]

unfoldable pub get_proof :
    {S : Type 0} → Request → Response → VaultState S → Option (VaultState S × Response)
unfolding proof_answer proof_id evidence_id zero_root set_header write_header encode
get_proof req w st =
    Option.map (λ id. (st, proof_answer (lookup (proof_id id) st.store_map) w))
      (evidence_id req.path)

audit_items : List AuditRecord → Items
audit_items [] = nil
audit_items (a ∷ audits) =
    cons (object (("action", str "ingest") ∷ ("resource_id", str a.id) ∷ [])) (audit_items audits)

-- `entries` is a nil slice, which encodes as null, until the first entry is appended.
audit_json : List AuditRecord → Json
audit_json [] = null
audit_json (a ∷ audits) = arr (audit_items (a ∷ audits))

unfoldable pub get_audit :
    {S : Type 0} → Request → Response → VaultState S → VaultState S × Response
unfolding audit_json audit_items set_header write_header encode
get_audit req w st =
    if has_role "auditor" (roles_from_context req.context)
    then (st, encode (object (("entries", audit_json st.audits) ∷ [])) (json_header w))
    else (st, write_header 403 w)
