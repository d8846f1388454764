-- ===== src/Vault/Progress.antt =====
-- The rounds of the committer in a server without a store, and the requests for proofs after them.
mod Tests
use Prim.Native.String
use merkle_evidence_vault.Prelude.{
  List, Option, String, [], ap, length, none, refl, some, ◌++◌, ◌∙◌, ◌∷◌, ◌≡◌, ◌≢◌, ◌≤◌, string_key,
}
use merkle_evidence_vault.Prelude.Dict.{lookup}
use merkle_evidence_vault.Prelude.Int.{ℤ}
use merkle_evidence_vault.Http.{Request, Response, encode, new_response, sent_status, set_header}
use merkle_evidence_vault.Store.{Evidence, StoreApi}
use merkle_evidence_vault.Store.Memory.View.{leaf_at, leaf_of}
use merkle_evidence_vault.Store.Memory.Progress.{
  AllCover, Covers, pending_in, rounds, rounds_commit_all,
}
use merkle_evidence_vault.Vault.{VaultState}
use merkle_evidence_vault.Vault.Ingest.{evidence_id, get_proof, proof_answer}
use merkle_evidence_vault.Vault.Committer.{commit_round}
use merkle_evidence_vault.Vault.Steps.{Event, commit, run, step}
use merkle_evidence_vault.Vault.Log.{as_store}
use merkle_evidence_vault.Vault.Runs.{commit-as_store, step-store}
use merkle_evidence_vault.Vault.Paths.{evidence_id-path, proof_id-suffixed, proof_path}

-- Rounds of the committer, each with its own visit of the map.
abbrev pub commits : List (List String) → List Event
commits [] = []
commits (order ∷ visits) = commit [] order ∷ commits visits

module _ (api : StoreApi) where
  open api use {State}

  run-rounds :
      (visits : List (List String)) (st : VaultState State)
      → st.store ≡ none
      → as_store (run api (commits visits) st) ≡ rounds visits (as_store st)
  unfolding run step rounds
  run-rounds [] st alone = refl
  run-rounds (order ∷ visits) st alone =
      run-rounds visits (commit_round api [] order st) (step-store api (commit [] order) st alone)
      ∙ ap (rounds visits) (commit-as_store api [] order st alone)

  -- In a process without a store, where nothing but rounds of the committer happens, once as many rounds
  -- have passed as there were pending records, each over a visit that covers the map, every record that the process held is
  -- committed: a request for its proof under its path, for an id that is not empty, is answered by 200
  -- and changes nothing.
  pub run-proofs :
      (ids : List String) (visits : List (List String)) (st : VaultState State) (id : String)
      (req : Request)
      → st.store ≡ none
      → Covers st.store_map ids
      → AllCover st.store_map visits
      → pending_in ids st.store_map ≤ length visits
      → lookup id st.store_map ≢ none
      → id ≢ ""
      → req.path ≡ proof_path id
      → (w : Response) × (get_proof req new_response (run api (commits visits) st)
          ≡ some (run api (commits visits) st, w))
        × (sent_status w ≡ 200)
  unfolding get_proof proof_answer leaf_of encode set_header
  run-proofs ids visits st id req alone all cover enough held named path =
      let committed = run api (commits visits) st in
      let read = ap evidence_id path ∙ evidence_id-path (String.◌++◌ id "/proof") in
      let same = proof_id-suffixed id named in
      let (i, leaf) = rounds_commit_all ids visits (as_store st) all cover enough id held in
      let leaf' : leaf_of committed.store_map id ≡ some i =
        ap (λ m. leaf_of m.ev id) (run-rounds visits st alone) ∙ leaf in
      (
        proof_answer (lookup id committed.store_map) new_response,
        rw (read, same) refl,
        answered (lookup id committed.store_map) i leaf',
      )
    where
      answered :
          (found : Option Evidence) (i : ℤ)
          → leaf_at found ≡ some i
          → sent_status (proof_answer found new_response) ≡ 200
      answered none i leaf = absurd (cc)
      answered (some e) i leaf = rw (leaf, proof_answer) refl
