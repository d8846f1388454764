-- ===== src/Vault/Paths.antt =====
-- The paths that the handlers read: what a client puts into a path comes out of it, and what
-- GetProof answers under such a path.
pub mod Sizes
mod Tests
use Prim.Native.String
use Prim.Native.String.{len}
use Prim.Native.String.len as len_laws
use mathlib.Core.Path.{subst}
use text.Mathlib.Text.{get?}
use text.Mathlib.TextLemmas.{append-nil as text_append-nil}
use text.Mathlib.TextPositions.{get?-append_middle, len-append as text_len-append, len_utf8-pos}
use merkle_evidence_vault.Prelude.{
  List, Option, Option-cases, String, [], ap, arith, get_elem?, inl, inr, length, ltb, none, refl,
  some, true, ℕ, ◌+◌, ◌<◌, ◌^◌, ◌∙◌, ◌∷◌, ◌≡◌, ◌≢◌, string_key,
}
use merkle_evidence_vault.Prelude.Int.{add64_pos, pos, int_key}
use merkle_evidence_vault.Prelude.Dict.{Dict, lookup}
use merkle_evidence_vault.Text.Cuts.{cut_suffix-append}
use merkle_evidence_vault.Http.{
  Request, Response, arr, encode, int, new_response, nil, object, sent_status, set_header, str,
  write_header,
}
use merkle_evidence_vault.Store.{Evidence}
use merkle_evidence_vault.Store.Leaves.{IsLog, get_elem?-lt}
use merkle_evidence_vault.Store.Memory.View.{leaf_of}
use merkle_evidence_vault.Vault.{VaultState, zero_root}
use merkle_evidence_vault.Vault.Ingest.{evidence_id, get_proof, proof_answer, proof_id}

-- The path of an evidence record, and that of its proof.
abbrev pub evidence_path : String → String
evidence_path id = String.◌++◌ "/api/v1/evidence/" id

abbrev pub proof_path : String → String
proof_path id = evidence_path (String.◌++◌ id "/proof")

pub evidence_id-path : (id : String) → evidence_id (evidence_path id) ≡ some id
unfolding evidence_id
evidence_id-path id = rw (text_len-append "/api/v1/evidence/" id) (
    subst (λ s. get? (String.◌++◌ "/api/v1/evidence/" s) 17 (17 + len id) ≡ some id)
      (text_append-nil id) (get?-append_middle "/api/v1/evidence/" id ""))

len-pos : (id : String) → id ≢ "" → 0 < len id
len-pos String.[] named = absurd (named refl)
len-pos (String.◌∷◌ c s) named =
    let (k, size) = len_utf8-pos c in rw (len_laws.cons c s, size) (omega arith)

pub proof_id-suffixed : (id : String) → id ≢ "" → proof_id (String.◌++◌ id "/proof") ≡ id
unfolding proof_id
proof_id-suffixed id named =
    let positive = len-pos id named in
    let long : ltb 6 (len (String.◌++◌ id "/proof")) ≡ true =
      rw (text_len-append id "/proof") (ground arith) in
    rw (long, cut_suffix-append "/proof" id) refl

-- A proof's answer, by the log: the position of the id, or 404.
pub data IsProofAnswer (log : List String) (id : String) (w : Response) : Type 0 where
  not_committed :
      ((j : ℕ) → get_elem? log j ≢ some id)
      → sent_status w ≡ 404
      → w.body ≡ []
      → IsProofAnswer log id w
  committed_at :
      (j : ℕ)
      → get_elem? log j ≡ some id
      → sent_status w ≡ 200
      → w.body
        ≡ object (
            ("leaf_index", int (pos j))
            ∷ ("tree_size", int (pos (j + 1)))
            ∷ ("root", str zero_root)
            ∷ ("path", arr nil)
            ∷ [])
          ∷ []
      → IsProofAnswer log id w

proof_answer-IsProofAnswer :
    (log : List String) (id : String) (ev : Dict String Evidence)
    → IsLog (leaf_of ev) log
    → length log < 2 ^ 63
    → IsProofAnswer log id (proof_answer (lookup id ev) new_response)
unfolding proof_answer leaf_of encode set_header write_header
proof_answer-IsProofAnswer log id ev held room = go (lookup id ev) refl
  where
    absent : leaf_of ev id ≡ none → (j : ℕ) → get_elem? log j ≢ some id
    absent pending j at = let placed = held.placed j id at in cc

    go :
        (found : Option Evidence)
        → lookup id ev ≡ found
        → IsProofAnswer log id (proof_answer found new_response)
    go none e = not_committed (absent (rw e refl)) refl refl
    go (some r) e = elim (Option-cases r.leaf_index) [
      | inl pending ↦ rw (pending, proof_answer) (not_committed (absent (rw e pending)) refl refl)
      | inr (i, leaf) ↦
          let (j, ij, at) = held.logged id i (rw e leaf) in
          let bound = get_elem?-lt log j at in
          let next = add64_pos j 1 (omega arith) in
          rw (leaf, ij, next) (committed_at j at refl refl)
    ]

-- A client that asks for the proof of an id that is not empty, under its path, gets the position of
-- the id in the log that the map holds, if its length is an `int64`: 200 with this position and one
-- more as the tree size, a root of zeros and no path, or 404 with an empty body where the id has no
-- position. The state stays.
pub get_proof-IsProofAnswer :
    {S : Type 0} (req : Request) (id : String) (st : VaultState S) (log : List String)
    → id ≢ ""
    → req.path ≡ proof_path id
    → IsLog (leaf_of st.store_map) log
    → length log < 2 ^ 63
    → (w : Response) × (get_proof req new_response st ≡ some (st, w)) × IsProofAnswer log id w
unfolding get_proof
get_proof-IsProofAnswer req id st log named path held room =
    let read = ap evidence_id path ∙ evidence_id-path (String.◌++◌ id "/proof") in
    let same = proof_id-suffixed id named in
    (
      proof_answer (lookup id st.store_map) new_response,
      rw (read, same) refl,
      proof_answer-IsProofAnswer log id st.store_map held room,
    )
