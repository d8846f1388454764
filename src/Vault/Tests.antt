-- ===== src/Vault/Tests.antt =====
-- The API at concrete inputs.
use mathlib.Core.List.{reverse}
use mathlib.Core.List.{Memᴰ}
use merkle_evidence_vault.Prelude.{
  Bool-cases, List, String, [], arith, eq_iff, false, if◌then◌else◌, inl, inr, length, map, none,
  ok, refl, replicate, some, sym, true, ◌++◌, ◌==◌, ◌=ℕ◌, ◌↔◌, ◌∷◌, ◌≡◌, string_key,
}
use merkle_evidence_vault.Prelude.Int.{add64, eqb_ℤ, eqb_ℤ_iff, pos, ℤ, int_key}
use merkle_evidence_vault.Prelude.Dict.{insert, lookup, lookup-insert_self}
use merkle_evidence_vault.Http.{Request, new_response, no_context}
use merkle_evidence_vault.Text.{trim_space}
use merkle_evidence_vault.Store.Leaves.{IsLog, IsLog-ext, IsLog-nil, IsLog-place}
use merkle_evidence_vault.Store.Memory.{
  MemStore, assign_next_pending_leaf, first_pending, memory_api,
}
use merkle_evidence_vault.Store.Memory.View.{leaf_of}
use merkle_evidence_vault.Store.Memory.Progress.{Covers, Covers-keys}
use merkle_evidence_vault.Vault.{
  CheckpointResponse, Host, VaultState, has_checkpoint_access, roles_from_context,
  subject_from_context,
}
use merkle_evidence_vault.Vault.Ingest.{get_audit, get_evidence, get_proof, ingest}
use merkle_evidence_vault.Vault.Checkpoint.{
  answer_or, build_latest_checkpoint, built, from_service, get_checkpoints_latest, history_entries,
  new_checkpoint, service_answer, tree_size,
}
use merkle_evidence_vault.Vault.Verify.{
  public_key, verify_checkpoint_by_tree_size, verify_latest_checkpoint,
}
use merkle_evidence_vault.Vault.Committer.{commit_round}
use merkle_evidence_vault.Vault.Steps.{Event, commit, post_evidence, run, start, step}
use merkle_evidence_vault.Vault.Runs.{AllProper}
use merkle_evidence_vault.Vault.Heads.{IsValid, IsValid-start, run-IsValid}
use merkle_evidence_vault.Prelude.Sorted.{IsDecreasing}
use merkle_evidence_vault.Vault.History.{history_entries-latest_first, run-keeps_checkpoint}
use merkle_evidence_vault.Vault.Latest.{
  IsAnswer, IsUnsigned, build_latest_checkpoint-IsAnswer, build_latest_checkpoint-repeat,
}
use merkle_evidence_vault.Vault.Access.{Lacks}
use merkle_evidence_vault.Vault.Audit.{IngestOutcome, ingest-outcome, run-audits}

vault : Unit {0}
unfolding step run ingest get_audit get_proof get_evidence commit_round build_latest_checkpoint
    get_checkpoints_latest verify_latest_checkpoint verify_checkpoint_by_tree_size
    has_checkpoint_access roles_from_context subject_from_context tree_size lookup insert
    first_pending add64 new_checkpoint service_answer from_service answer_or public_key trim_space
    leaf_of
vault = tt

abbrev upload : Request
upload = record {
  method = "POST";
  path = "/api/v1/evidence";
  authorization = "";
  body = some (record { content_type = "text/plain"; payload = 1 ∷ 2 ∷ [] });
  context = no_context;
}

abbrev pub ask : List String → Request
ask roles = record {
  method = "GET";
  path = "/api/v1/checkpoints/latest";
  authorization = "";
  body = none;
  context = record { roles = some roles; subject = some "alice" };
}

-- A signing service whose signatures are 64 bytes, and a verifier that looks at their length.
abbrev pub host : Host
host = record {
  getenv = λ name. if name == "CHECKPOINT_SIGNING_URL" then "u" else "k";
  post = λ url payload. some (200, some (("signature", "sig") ∷ []));
  marshal_payload = λ size root. root;
  decode_base64 = λ text. if text == "k" then some (replicate 32 0) else some (replicate 64 1);
  ed25519_verify = λ key payload sig. length sig =ℕ 64;
}

abbrev pub offline : Host
offline = record {
  getenv = λ name. "";
  post = λ url payload. none;
  marshal_payload = λ size root. root;
  decode_base64 = λ text. none;
  ed25519_verify = λ key payload sig. false;
}

abbrev pub committed : VaultState MemStore
committed = record {
  store_map = ("a", record { id = "a"; leaf_index = some (pos 0) }) ∷ [];
  next = pos 1;
  audits = record { id = "a"; actor = ""; timestamp = 1 } ∷ [];
  checkpoint_history = [];
  checkpoint_order = [];
  store = none;
}

abbrev pub first_events : List Event
first_events = post_evidence "a" 1 1 upload ∷ commit [] ("a" ∷ []) ∷ []

reached : run memory_api first_events start ≡ committed
unfolding vault
reached = refl

pub committed-IsValid : IsValid committed ("a" ∷ [])
unfolding leaf_of lookup
committed-IsValid = record {
  no_store = refl;
  held = record {
    is_log = IsLog-ext (λ k. ground (arith, eq_iff "a" k)) (IsLog-place [] "a" refl IsLog-nil);
    next = refl;
  };
  history = record {
    stored = tt;
    increasing = tt;
    listed = λ s cp e. absurd (cc);
    keyed = λ s cp e. cc;
  };
}

visit : Covers committed.store_map ("a" ∷ [])
visit = Covers-keys committed.store_map

pub first_events-AllProper : AllProper memory_api first_events start
unfolding vault
first_events-AllProper = (refl, tt, (tt, tt, tt))

run-IsValid_example :
    (more : List String) × IsValid (run memory_api first_events start) ([] ++ more)
run-IsValid_example =
    run-IsValid memory_api first_events start [] first_events-AllProper (omega arith) IsValid-start

abbrev stamp : CheckpointResponse
stamp = record { tree_size = pos 1; root_hash = ""; signature = "s"; key_ref = "" }

abbrev second_stamp : CheckpointResponse
second_stamp = record { tree_size = pos 2; root_hash = ""; signature = "t"; key_ref = "" }

abbrev stamped : VaultState MemStore
stamped = record committed {
  checkpoint_history = insert (pos 1) stamp [];
  checkpoint_order = pos 1 ∷ [];
}

run-keeps_checkpoint_example :
    lookup (pos 1) (run memory_api (commit [] ("a" ∷ []) ∷ []) stamped).checkpoint_history
    ≡ some stamp
run-keeps_checkpoint_example =
    run-keeps_checkpoint memory_api (commit [] ("a" ∷ []) ∷ []) stamped (pos 1) stamp
      (lookup-insert_self (pos 1) stamp [])

granted : has_checkpoint_access (ask ("auditor" ∷ [])).context ≡ true
unfolding vault
granted = refl

build_latest_checkpoint-IsAnswer_example :
    IsAnswer committed
      (build_latest_checkpoint offline ("a" ∷ []) (ask ("auditor" ∷ [])).context committed).0
      1
      (build_latest_checkpoint offline ("a" ∷ []) (ask ("auditor" ∷ [])).context committed).1
build_latest_checkpoint-IsAnswer_example =
    build_latest_checkpoint-IsAnswer offline ("a" ∷ []) (ask ("auditor" ∷ [])).context committed
      ("a" ∷ []) granted visit (omega arith) committed-IsValid

first_answer :
    (build_latest_checkpoint host ("a" ∷ []) (ask ("auditor" ∷ [])).context committed).1
    ≡ built (new_checkpoint host (pos 1))
unfolding vault
first_answer = refl

build_latest_checkpoint-repeat_example :
    build_latest_checkpoint offline
      ("a" ∷ [])
      (ask ("auditor" ∷ [])).context
      (build_latest_checkpoint host ("a" ∷ []) (ask ("auditor" ∷ [])).context committed).0
    ≡ (
      (build_latest_checkpoint host ("a" ∷ []) (ask ("auditor" ∷ [])).context committed).0,
      built (new_checkpoint host (pos 1)),
    )
build_latest_checkpoint-repeat_example =
    build_latest_checkpoint-repeat host offline ("a" ∷ []) ("a" ∷ []) (ask ("auditor" ∷ [])).context
      (ask ("auditor" ∷ [])).context committed ("a" ∷ []) (new_checkpoint host (pos 1)) granted
      visit visit (omega arith) committed-IsValid first_answer

offline-IsUnsigned : IsUnsigned offline (pos 1)
unfolding vault
offline-IsUnsigned = refl

-- Two checkpoints, of tree sizes 1 and 2.
abbrev pub two_heads : VaultState MemStore
two_heads = record {
  store_map =
      ("a", record { id = "a"; leaf_index = some (pos 0) })
      ∷ ("b", record { id = "b"; leaf_index = some (pos 1) })
      ∷ [];
  next = pos 2;
  audits = [];
  checkpoint_history = (pos 1, stamp) ∷ (pos 2, second_stamp) ∷ [];
  checkpoint_order = pos 1 ∷ pos 2 ∷ [];
  store = none;
}

two_heads-IsLog : IsLog (leaf_of two_heads.store_map) ("a" ∷ "b" ∷ [])
unfolding leaf_of lookup
two_heads-IsLog =
    IsLog-ext (λ k. ground (arith, eq_iff "a" k, eq_iff "b" k, eq_iff "a" "b"))
      (IsLog-place ("a" ∷ []) "b" refl (IsLog-place [] "a" refl IsLog-nil))

two_heads-keyed :
    (s : ℤ) (cp : CheckpointResponse)
    → lookup s two_heads.checkpoint_history ≡ some cp
    → cp.tree_size ≡ s
unfolding lookup
two_heads-keyed s cp e = ground (arith, eqb_ℤ_iff (pos 1) s, eqb_ℤ_iff (pos 2) s)

two_heads-listed :
    (s : ℤ) (cp : CheckpointResponse)
    → lookup s two_heads.checkpoint_history ≡ some cp
    → Memᴰ s two_heads.checkpoint_order
unfolding lookup
two_heads-listed s cp e = elim (Bool-cases (eqb_ℤ (pos 1) s)) [
  | inl one ↦ Memᴰ.head (sym ((eqb_ℤ_iff (pos 1) s).0 one))
  | inr other ↦ Memᴰ.tail (Memᴰ.head (ground (arith, eqb_ℤ_iff (pos 1) s, eqb_ℤ_iff (pos 2) s)))
]

two_heads-IsValid : IsValid two_heads ("a" ∷ "b" ∷ [])
unfolding lookup
two_heads-IsValid = record {
  no_store = refl;
  held = record { is_log = two_heads-IsLog; next = refl };
  history = record {
    stored = (
      record {
        cp = stamp;
        found = refl;
        same_size = refl;
        positive = omega arith;
        within = omega arith;
      },
      (
        record {
          cp = second_stamp;
          found = refl;
          same_size = refl;
          positive = omega arith;
          within = omega arith;
        },
        tt,
      ),
    );
    increasing = ((omega arith, tt), (tt, tt));
    keyed = two_heads-keyed;
    listed = two_heads-listed;
  };
}

history_entries-latest_first_example :
    ((lookup second_stamp.tree_size two_heads.checkpoint_history ≡ some second_stamp)
      ↔ Memᴰ second_stamp (history_entries two_heads))
    × (map (λ cp. cp.tree_size) (history_entries two_heads) ≡ reverse (pos 1 ∷ pos 2 ∷ []))
    × IsDecreasing (map (λ cp. cp.tree_size) (history_entries two_heads))
history_entries-latest_first_example =
    history_entries-latest_first two_heads ("a" ∷ "b" ∷ []) second_stamp two_heads-IsValid

run-audits_example :
    (run memory_api first_events start).audits
    ≡ [] ++ record { id = "a"; actor = ""; timestamp = 1 } ∷ []
unfolding subject_from_context
run-audits_example = run-audits memory_api first_events start

ingest-outcome_example :
    IngestOutcome true "b" 2 upload committed
      (ingest memory_api "b" 2 3 upload new_response committed)
ingest-outcome_example = ingest-outcome memory_api "b" 2 3 upload committed

outsider : Lacks "auditor" ("viewer" ∷ []) × Lacks "ingester" ("viewer" ∷ [])
outsider = ground (arith, eq_iff "viewer" "auditor", eq_iff "viewer" "ingester")

lacking :
    (role : String)
    → Lacks role ("viewer" ∷ [])
    → Lacks role (roles_from_context (ask ("viewer" ∷ [])).context)
unfolding roles_from_context
lacking role l = l

-- The store has committed "a" as 0; saving "b" to it failed.
abbrev store_of_a : MemStore
store_of_a = record {
  ev = ("a", record { id = "a"; leaf_index = some (pos 0) }) ∷ [];
  audits = [];
  next = pos 1;
}

abbrev split_brain : VaultState MemStore
split_brain = record {
  store_map =
      ("a", record { id = "a"; leaf_index = some (pos 0) })
      ∷ ("b", record { id = "b"; leaf_index = none })
      ∷ [];
  next = pos 0;
  audits = [];
  checkpoint_history = [];
  checkpoint_order = [];
  store = some store_of_a;
}

nothing_pending : assign_next_pending_leaf ("a" ∷ []) store_of_a ≡ (store_of_a, ok none)
unfolding vault assign_next_pending_leaf
nothing_pending = refl

b_pending :
    first_pending ("a" ∷ "b" ∷ []) split_brain.store_map
    ≡ some ("b", record { id = "b"; leaf_index = none })
unfolding vault
b_pending = refl

a_taken : leaf_of split_brain.store_map "a" ≡ some (pos 0)
unfolding vault
a_taken = refl
