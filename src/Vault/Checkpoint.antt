-- ===== src/Vault/Checkpoint.antt =====
-- services/vault-api/handler/ingest.go: buildLatestCheckpoint, GetCheckpointsLatest and
-- GetCheckpointsHistory. The code takes the mutex three times, once to read the tree size, once to
-- look for a stored checkpoint and once to store a new one; each is a function here.
use mathlib.Core.List.{reverse}
use merkle_evidence_vault.Prelude.{
  List, Option, String, [], if◌then◌else◌, map, none, not, some, ℕ, ◌++◌, ◌==◌, ◌=ℕ◌, ◌∷◌,
  string_key,
}
use merkle_evidence_vault.Prelude.Int.{add64, ltb_ℤ, negsuc, pos, ℤ, int_key}
use merkle_evidence_vault.Prelude.Dict.{Dict, insert, lookup}
use merkle_evidence_vault.Http.{
  Context, Fields, Json, Request, Response, arr, encode, end, field, int, items, obj, object,
  set_header, str, write_header,
}
use merkle_evidence_vault.Text.{is_some}
use merkle_evidence_vault.Store.{Evidence}
use merkle_evidence_vault.Vault.{
  CheckpointResponse, Host, VaultState, has_checkpoint_access, repeat, zero_root,
}

-- One round of the loop for the greatest leaf index.
abbrev pub max_with : ℤ → Option Evidence → ℤ
max_with m none = m
max_with m (some e) = elim e.leaf_index [ none ↦ m | some i ↦ if ltb_ℤ m i then i else m ]

unfoldable pub max_leaf : ℤ → List String → Dict String Evidence → ℤ
max_leaf m [] ev = m
max_leaf m (k ∷ order) ev = max_leaf (max_with m (lookup k ev)) order ev

abbrev pub size_of_max : ℤ → ℤ
size_of_max (negsuc n) = pos 0
size_of_max (pos n) = add64 (pos n) (pos 1)

unfoldable pub tree_size : List String → Dict String Evidence → ℤ
unfolding max_leaf
tree_size order ev = size_of_max (max_leaf (negsuc 0) order ev)

unfoldable pub stub_signature : String
unfolding repeat
stub_signature = repeat "a" 64

-- A field of the signing service's answer, where it is there and is not empty.
unfoldable pub answer_or : String → String → Dict String String → String
answer_or default key got = elim (lookup key got) [
  | none ↦ default
  | some s ↦ if s == "" then default else s
]

-- What the answer makes of a default: a failed call, a status other than 200 and a body that does
-- not decode leave it.
unfoldable pub from_service : String → String → Option (ℕ × Option (Dict String String)) → String
from_service default key none = default
from_service default key (some (code, none)) = default
from_service default key (some (code, some got)) =
    if code =ℕ 200 then answer_or default key got else default

unfoldable pub service_answer : Host → ℤ → Option (ℕ × Option (Dict String String))
service_answer host size =
    let svc = host.getenv "CHECKPOINT_SIGNING_URL" in
    if svc == "" then none else host.post svc (host.marshal_payload size zero_root)

-- The checkpoint for a tree size that has none yet.
unfoldable pub new_checkpoint : Host → ℤ → CheckpointResponse
new_checkpoint host size =
    let answer = service_answer host size in
    record {
      tree_size = size;
      root_hash = zero_root;
      signature = from_service stub_signature "signature" answer;
      key_ref = from_service "local:dev-default" "key_ref" answer;
    }

pub data Built : Type 0 where
  refused : ℕ → Built
  built : CheckpointResponse → Built

-- The last critical section: the order gets a tree size that it does not have, and the history
-- is written in any case.
unfoldable pub store_checkpoint : {S : Type 0} → CheckpointResponse → VaultState S → VaultState S
store_checkpoint cp st = record st {
  checkpoint_order =
      if is_some (lookup cp.tree_size st.checkpoint_history)
      then st.checkpoint_order
      else st.checkpoint_order ++ cp.tree_size ∷ [];
  checkpoint_history = insert cp.tree_size cp st.checkpoint_history;
}

unfoldable pub finish_checkpoint :
    {S : Type 0} → Host → ℤ → Option CheckpointResponse → VaultState S → VaultState S × Built
finish_checkpoint host size (some cp) st = (st, built cp)
finish_checkpoint host size none st =
    let cp = new_checkpoint host size in (store_checkpoint cp st, built cp)

-- What follows once the tree size is known.
unfoldable pub build_for : {S : Type 0} → Host → ℤ → VaultState S → VaultState S × Built
unfolding finish_checkpoint store_checkpoint
build_for host size st =
    if size == pos 0
    then (st, refused 404)
    else finish_checkpoint host size (lookup size st.checkpoint_history) st

unfoldable pub build_latest_checkpoint :
    {S : Type 0} → Host → List String → Context → VaultState S → VaultState S × Built
unfolding build_for
build_latest_checkpoint host order ctx st =
    if not (has_checkpoint_access ctx)
    then (st, refused 403)
    else build_for host (tree_size order st.store_map) st

-- `key_ref` is left out where it is empty.
abbrev key_ref_fields : String → Fields
key_ref_fields k = if k == "" then end else field "key_ref" (str k) end

unfoldable pub checkpoint_json : CheckpointResponse → Json
checkpoint_json cp = obj (
    field "tree_size" (int cp.tree_size) (
      field "root_hash" (str cp.root_hash)
        (field "signature" (str cp.signature) (key_ref_fields cp.key_ref))))

checkpoint_answer : Built → Response → Response
checkpoint_answer (refused code) w = write_header code w
checkpoint_answer (built cp) w =
    encode (checkpoint_json cp) (set_header "Content-Type" "application/json" w)

unfoldable pub get_checkpoints_latest :
    {S : Type 0} → Host → List String → Request → Response → VaultState S → VaultState S × Response
unfolding checkpoint_answer checkpoint_json build_latest_checkpoint write_header encode set_header
get_checkpoints_latest host order req w st =
    let (st', r) = build_latest_checkpoint host order req.context st in (st', checkpoint_answer r w)

-- A missing key reads as the zero value of the struct.
abbrev pub history_entry : Option CheckpointResponse → CheckpointResponse
history_entry none = record { tree_size = pos 0; root_hash = ""; signature = ""; key_ref = "" }
history_entry (some cp) = cp

-- The loop from the last index down, as the reversed order.
unfoldable pub history_entries : {S : Type 0} → VaultState S → List CheckpointResponse
history_entries st =
    map (λ size. history_entry (lookup size st.checkpoint_history)) (reverse st.checkpoint_order)

unfoldable pub get_checkpoints_history :
    {S : Type 0} → Host → List String → Request → Response → VaultState S → VaultState S × Response
unfolding build_latest_checkpoint history_entries checkpoint_json write_header encode set_header
get_checkpoints_history host order req w st =
    if not (has_checkpoint_access req.context)
    then (st, write_header 403 w)
    else (let st' = (build_latest_checkpoint host order req.context st).0 in
        (
          st',
          encode
              (object (("entries", arr (items (map checkpoint_json (history_entries st')))) ∷ []))
              (set_header "Content-Type" "application/json" w),
        ))
