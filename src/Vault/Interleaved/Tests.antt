-- ===== src/Vault/Interleaved/Tests.antt =====
-- Requests that interleave, at concrete inputs.
use merkle_evidence_vault.Prelude.{
  List, String, [], ap, arith, eq_iff, false, get_elem?, none, refl, some, ℕ, ◌++◌, ◌∷◌, ◌≡◌, ◌≢◌,
  string_key,
}
use merkle_evidence_vault.Prelude.Int.{add64, pos, ℤ, int_key}
use merkle_evidence_vault.Prelude.Dict.{insert, lookup}
use merkle_evidence_vault.Http.{Context, Request, no_context}
use merkle_evidence_vault.Store.Memory.{MemStore, first_pending, memory_api}
use merkle_evidence_vault.Store.Memory.Log.{Holds-new_memory_store}
use merkle_evidence_vault.Store.Memory.Progress.{Covers, Covers-keys}
use merkle_evidence_vault.Vault.{
  CheckpointResponse, Host, VaultState, has_checkpoint_access, repeat, roles_from_context,
  subject_from_context,
}
use merkle_evidence_vault.Vault.Checkpoint.{
  answer_or, built, from_service, new_checkpoint, service_answer, store_checkpoint, stub_signature,
  tree_size,
}
use merkle_evidence_vault.Vault.Ingest.{ingest}
use merkle_evidence_vault.Vault.Committer.{commit_round}
use merkle_evidence_vault.Vault.Steps.{commit, post_evidence, start, step}
use merkle_evidence_vault.Vault.Interleaved.{
  Action, World, act, act_all, advance, answered, arrive, event, look_up, signed, take_turn, turn,
}
use merkle_evidence_vault.Vault.Interleaved.Shelf.{IsShelf}
use merkle_evidence_vault.Vault.Interleaved.Safe.{IsSafe}
use merkle_evidence_vault.Vault.Interleaved.Runs.{AreProper, act_all-IsSafe}
use merkle_evidence_vault.Vault.Interleaved.Lost.{turns-replace}

world : Unit {0}
unfolding act act_all advance take_turn step ingest commit_round has_checkpoint_access
    roles_from_context tree_size lookup insert first_pending add64 new_checkpoint service_answer
    from_service look_up store_checkpoint subject_from_context
world = tt

-- A server that signs nothing, and one whose signing service answers.
abbrev signing : String → Host
signing url = record {
  getenv = λ name. url;
  post = λ url payload. some (200, some (("signature", "sig") ∷ []));
  marshal_payload = λ size root. root;
  decode_base64 = λ text. none;
  ed25519_verify = λ key payload sig. false;
}

abbrev auditor : Context
auditor = record { roles = some ("auditor" ∷ []); subject = some "alice" }

abbrev upload : Request
upload = record {
  method = "POST";
  path = "/api/v1/evidence";
  authorization = "";
  body = some (record { content_type = "text/plain"; payload = 1 ∷ 2 ∷ [] });
  context = no_context;
}

abbrev empty_world : World MemStore
empty_world = record { vault = start; requests = [] }

-- Two requests for the first tree size. The signing service answers one of them.
abbrev two_requests : List Action
two_requests =
    event (post_evidence "a" 1 1 upload)
    ∷ event (commit [] ("a" ∷ []))
    ∷ arrive (signing "") ("a" ∷ []) auditor
    ∷ arrive (signing "u") ("a" ∷ []) auditor
    ∷ turn 0
    ∷ turn 1
    ∷ turn 0
    ∷ turn 1
    ∷ []

abbrev committed : VaultState MemStore
committed = record {
  store_map = ("a", record { id = "a"; leaf_index = some (pos 0) }) ∷ [];
  next = pos 1;
  audits = record { id = "a"; actor = ""; timestamp = 1 } ∷ [];
  checkpoint_history = [];
  checkpoint_order = [];
  store = none;
}

abbrev both_signed : World MemStore
both_signed = record {
  vault = committed;
  requests =
      signed (new_checkpoint (signing "u") (pos 1))
      ∷ signed (new_checkpoint (signing "") (pos 1))
      ∷ [];
}

reached : act_all memory_api two_requests empty_world ≡ both_signed
unfolding world
reached = refl

visit : Covers committed.store_map ("a" ∷ [])
visit = Covers-keys committed.store_map

IsShelf-start : {S : Type 0} → IsShelf {S = S} start 0
unfolding lookup
IsShelf-start = record { filed = λ s cp e. cc; listed = λ s cp e. cc; known = tt; distinct = tt }

empty_world-IsSafe : IsSafe empty_world []
empty_world-IsSafe = record {
  no_store = refl;
  held = Holds-new_memory_store;
  shelf = IsShelf-start;
  flights = tt;
}

two_requests-AreProper : AreProper memory_api two_requests empty_world
unfolding world
two_requests-AreProper = ((refl, refl), ((refl, tt), (tt, (tt, (visit, (visit, (tt, (tt, tt))))))))

act_all-IsSafe_example :
    (more : List String) × IsSafe (act_all memory_api two_requests empty_world) ([] ++ more)
act_all-IsSafe_example =
    act_all-IsSafe memory_api two_requests empty_world [] two_requests-AreProper (omega arith)
      empty_world-IsSafe

abbrev stub : CheckpointResponse
stub = new_checkpoint (signing "") (pos 1)

abbrev real : CheckpointResponse
real = new_checkpoint (signing "u") (pos 1)

one_size : stub.tree_size ≡ real.tree_size
unfolding new_checkpoint
one_size = refl

stub-signature : stub.signature ≡ stub_signature
unfolding new_checkpoint from_service stub_signature service_answer
stub-signature = refl

real-signature : real.signature ≡ "sig"
unfolding new_checkpoint from_service service_answer answer_or lookup
real-signature = refl

other_text : stub_signature ≢ "sig"
unfolding stub_signature repeat
other_text e = let same = (eq_iff stub_signature "sig").1 e in ground arith

other_stamp : stub ≢ real
other_stamp e = other_text (cc (ap (λ c. c.signature) e, stub-signature, real-signature))

turns-replace_example :
    (lookup real.tree_size (act memory_api (turn 0) both_signed).vault.checkpoint_history
      ≡ some real)
    × (get_elem? (act_all memory_api (turn 0 ∷ turn 1 ∷ []) both_signed).requests 0
        ≡ some (answered (built real)))
    × (lookup real.tree_size
          (act_all memory_api (turn 0 ∷ turn 1 ∷ []) both_signed).vault.checkpoint_history
        ≡ some stub)
    × (lookup real.tree_size
          (act_all memory_api (turn 0 ∷ turn 1 ∷ []) both_signed).vault.checkpoint_history
        ≢ some real)
turns-replace_example =
    turns-replace memory_api 0 1 real stub both_signed (omega arith) refl refl one_size other_stamp

abbrev for_size : ℕ → CheckpointResponse
for_size n = record { tree_size = pos n; root_hash = ""; signature = "s"; key_ref = "" }

abbrev sizes_signed : World MemStore
sizes_signed = record {
  vault = committed;
  requests = signed (for_size 1) ∷ signed (for_size 2) ∷ [];
}

nothing_stored : (s : ℤ) → lookup s sizes_signed.vault.checkpoint_history ≡ none
unfolding lookup
nothing_stored s = refl
