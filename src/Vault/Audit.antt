-- ===== src/Vault/Audit.antt =====
-- The audit log of the process, and what an ingest adds to it.
use merkle_evidence_vault.Prelude.{
  Bool, Bool-cases, List, Option, String, [], ap, append-nil, append_assoc, arith, false,
  if◌then◌else◌, inl, inr, none, refl, some, sym, true, ℕ, ◌++◌, ◌∙◌, ◌∷◌, ◌≡◌, string_key,
}
use merkle_evidence_vault.Prelude.Int.{int_key}
use merkle_evidence_vault.Prelude.Dict.{lookup, lookup-insert_self}
use merkle_evidence_vault.Http.{
  IngestRequest, Request, Response, encode, new_response, sent_status, set_header, write_header,
}
use merkle_evidence_vault.Store.{StoreApi}
use merkle_evidence_vault.Vault.{AuditRecord, VaultState, subject_from_context}
use merkle_evidence_vault.Vault.Ingest.{
  get_audit, get_evidence, get_proof, ingest, ingest_decoded, ingest_payload,
}
use merkle_evidence_vault.Vault.Checkpoint.{get_checkpoints_history, get_checkpoints_latest}
use merkle_evidence_vault.Vault.Verify.{verify_checkpoint_by_tree_size, verify_latest_checkpoint}
use merkle_evidence_vault.Vault.Committer.{commit_round}
use merkle_evidence_vault.Vault.Steps.{Event, post_evidence, read_audit, run, step}

abbrev is_filled : List ℕ → Bool
is_filled [] = false
is_filled (_ ∷ _) = true

-- A request that decodes and has a payload.
abbrev has_payload : Option IngestRequest → Bool
has_payload none = false
has_payload (some body) = is_filled body.payload

-- Refused: an empty 400, and nothing changed. Accepted: a 202, the id recorded as pending, and one
-- more audit entry, with the caller's subject.
abbrev pub IngestOutcome :
    {S : Type 0} → Bool → String → ℕ → Request → VaultState S → VaultState S × Response → Type 0
IngestOutcome false id now req st (st', w) = (st' ≡ st) × (w ≡ write_header 400 new_response)
IngestOutcome true id now req st (st', w) =
    (sent_status w ≡ 202)
    × (lookup id st'.store_map ≡ some (record { id = id; leaf_index = none }))
    × (st'.audits
        ≡ st.audits
          ++ record { id = id; actor = subject_from_context req.context; timestamp = now } ∷ [])
    × (st'.checkpoint_history ≡ st.checkpoint_history)
    × (st'.checkpoint_order ≡ st.checkpoint_order)
    × (st'.next ≡ st.next)

module _ (api : StoreApi) (id : String) (now now' : ℕ) (req : Request)
    (st : VaultState api.State) where
  ingest_payload-outcome :
      (payload : List ℕ)
      → IngestOutcome
          (is_filled payload)
          id
          now
          req
          st
          (ingest_payload api id now now' req.context payload new_response st)
  unfolding ingest_payload
  ingest_payload-outcome [] = (refl, refl)
  ingest_payload-outcome (b ∷ payload) = (
    unfold set_header write_header encode in refl,
    lookup-insert_self id (record { id = id; leaf_index = none }) st.store_map,
    refl,
    refl,
    refl,
    refl,
  )

  ingest_decoded-outcome :
      (body : Option IngestRequest)
      → IngestOutcome
          (has_payload body)
          id
          now
          req
          st
          (ingest_decoded api id now now' req.context body new_response st)
  unfolding ingest_decoded
  ingest_decoded-outcome none = (refl, refl)
  ingest_decoded-outcome (some body) = ingest_payload-outcome body.payload

  -- Ingest answers 400 with an empty body, and changes nothing, where the request's body does not
  -- decode or has no payload. It answers 202 to any other request, stores a pending record under the
  -- drawn id, appends an audit entry with this id and the caller's subject, and leaves the
  -- checkpoints and the counter of leaf indices.
  pub ingest-outcome :
      IngestOutcome
        (has_payload req.body)
        id
        now
        req
        st
        (ingest api id now now' req new_response st)
  unfolding ingest
  ingest-outcome = ingest_decoded-outcome req.body

-- The audit entries of the accepted ingests among the events, in order.
abbrev pub ingested : List Event → List AuditRecord
ingested [] = []
ingested (post_evidence id now now' req ∷ es) =
    if has_payload req.body
    then record { id = id; actor = subject_from_context req.context; timestamp = now } ∷ ingested es
    else ingested es
ingested (_ ∷ es) = ingested es

module _ (api : StoreApi) where
  open api use {State}

  ingest-audits :
      (id : String) (now now' : ℕ) (req : Request) (st : VaultState State)
      → (ingest api id now now' req new_response st).0.audits
        ≡ st.audits ++ ingested (post_evidence id now now' req ∷ [])
  ingest-audits id now now' req st =
      go (has_payload req.body) (ingest api id now now' req new_response st)
        (ingest-outcome api id now now' req st)
    where
      added : List AuditRecord
      added = record { id = id; actor = subject_from_context req.context; timestamp = now } ∷ []

      go :
          (b : Bool) (r : VaultState State × Response)
          → IngestOutcome b id now req st r
          → r.0.audits ≡ st.audits ++ (if b then added else [])
      go false r h = ap (λ s. s.audits) h.0 ∙ sym (append-nil st.audits)
      go true r h = h.2

  step-audits :
      (e : Event) (st : VaultState State) → (step api e st).audits ≡ st.audits ++ ingested (e ∷ [])
  unfolding step ingest get_evidence get_proof get_audit get_checkpoints_latest
      get_checkpoints_history verify_latest_checkpoint verify_checkpoint_by_tree_size commit_round
  step-audits (post_evidence id now now' req) st = ingest-audits id now now' req st
  step-audits e st =
      let same : (step api e st).audits ≡ st.audits = ground arith in
      same ∙ sym (append-nil st.audits)

  ingested-cons :
      (e : Event) (es : List Event) → ingested (e ∷ es) ≡ ingested (e ∷ []) ++ ingested es
  ingested-cons (post_evidence id now now' req) es = elim (Bool-cases (has_payload req.body)) [
    | inl filled ↦ rw filled refl
    | inr empty ↦ rw empty refl
  ]
  ingested-cons (read_audit req) es = refl
  ingested-cons e es = refl

  -- Whatever the events, the entries of the audit log that were there are kept as they are, and one entry
  -- for each accepted ingest is added behind them, with its id, its caller's subject and its time, in the
  -- order of the ingests.
  pub run-audits :
      (es : List Event) (st : VaultState State) → (run api es st).audits ≡ st.audits ++ ingested es
  unfolding run
  run-audits [] st = sym (append-nil st.audits)
  run-audits (e ∷ es) st =
      run-audits es (step api e st)
      ∙ ap (λ (l : List AuditRecord). l ++ ingested es) (step-audits e st)
      ∙ append_assoc st.audits (ingested (e ∷ [])) (ingested es)
      ∙ ap (λ (l : List AuditRecord). st.audits ++ l) (sym (ingested-cons e es))
