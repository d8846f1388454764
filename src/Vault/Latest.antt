-- ===== src/Vault/Latest.antt =====
-- What a request for the latest checkpoint answers, and what stays of it.
use mathlib.Core.Path.{subst}
use merkle_evidence_vault.Prelude.{
  Bool-cases, List, Option, String, ap, arith, false, inl, inr, length, map, none, refl, some, suc,
  true, zero, ℕ, ◌<◌, ◌==◌, ◌^◌, ◌∙◌, ◌≡◌, string_key,
}
use merkle_evidence_vault.Prelude.Int.{pos, ℤ, int_key}
use merkle_evidence_vault.Prelude.Dict.{insert, lookup, lookup-insert_self}
use merkle_evidence_vault.Vault.{CheckpointResponse, Host, VaultState, has_checkpoint_access}
use merkle_evidence_vault.Vault.Checkpoint.{
  Built, build_for, build_latest_checkpoint, built, finish_checkpoint, new_checkpoint, refused,
  store_checkpoint, stub_signature, tree_size,
}
use merkle_evidence_vault.Vault.Heads.{IsHistory, IsValid}
use merkle_evidence_vault.Http.{Context}
use merkle_evidence_vault.Store.Memory.Progress.{Covers}
use merkle_evidence_vault.Vault.Log.{tree_size-length}
use merkle_evidence_vault.Store.{StoreApi}
use merkle_evidence_vault.Vault.Steps.{Event, run}
use merkle_evidence_vault.Vault.History.{run-keeps_checkpoint}

-- The answer to a caller who may see checkpoints, by the length of the log.
pub data IsAnswer {S : Type 0} (st st' : VaultState S) (n : ℕ) : Built → Type 0 where
  nothing_yet : n ≡ 0 → st' ≡ st → IsAnswer st st' n (refused 404)
  current :
      (cp : CheckpointResponse)
      → 0 < n
      → cp.tree_size ≡ pos n
      → lookup (pos n) st'.checkpoint_history ≡ some cp
      → st'.store_map ≡ st.store_map
      → IsAnswer st st' n (built cp)

finish_checkpoint-IsAnswer :
    {S : Type 0} (host : Host) (n : ℕ) (found : Option CheckpointResponse) (st : VaultState S)
    → lookup (pos n) st.checkpoint_history ≡ found
    → 0 < n
    → IsHistory st n
    → IsAnswer st
        (finish_checkpoint host (pos n) found st).0
        n
        (finish_checkpoint host (pos n) found st).1
unfolding finish_checkpoint store_checkpoint
finish_checkpoint-IsAnswer host n (some cp) st e positive h =
    current cp positive (h.keyed (pos n) cp e) e refl
finish_checkpoint-IsAnswer host n none st e positive h =
    let cp = new_checkpoint host (pos n) in
    let size : cp.tree_size ≡ pos n = unfold new_checkpoint in refl in
    current cp positive size
      (subst (λ z. lookup z (insert cp.tree_size cp st.checkpoint_history) ≡ some cp) size
        (lookup-insert_self cp.tree_size cp st.checkpoint_history))
      refl

build_for-IsAnswer :
    {S : Type 0} (host : Host) (n : ℕ) (st : VaultState S)
    → IsHistory st n
    → IsAnswer st (build_for host (pos n) st).0 n (build_for host (pos n) st).1
unfolding build_for
build_for-IsAnswer host zero st h = nothing_yet refl refl
build_for-IsAnswer host (suc n) st h =
    let positive : (pos (suc n) == pos 0) ≡ false = ground arith in
    rw (positive, build_for)
      (finish_checkpoint-IsAnswer host (suc n) (lookup (pos (suc n)) st.checkpoint_history) st refl
        (omega arith) h)

-- A caller with a checkpoint role gets 404 exactly while nothing is committed, and otherwise the
-- checkpoint of the current log: its tree size is the log's length, and it is stored under it.
pub build_latest_checkpoint-IsAnswer :
    {S : Type 0} (host : Host) (order : List String) (ctx : Context) (st : VaultState S)
    (log : List String)
    → has_checkpoint_access ctx ≡ true
    → Covers st.store_map order
    → length log < 2 ^ 63
    → IsValid st log
    → IsAnswer st
        (build_latest_checkpoint host order ctx st).0
        (length log)
        (build_latest_checkpoint host order ctx st).1
unfolding build_latest_checkpoint
build_latest_checkpoint-IsAnswer host order ctx st log access covers room v =
    rw (access, tree_size-length order st.store_map log v.held.is_log covers room)
      (build_for-IsAnswer host (length log) st v.history)

-- A size that is in the history is answered from there.
build_latest_checkpoint-stored :
    {S : Type 0} (host : Host) (order : List String) (ctx : Context) (st : VaultState S) (n : ℕ)
    (cp : CheckpointResponse)
    → has_checkpoint_access ctx ≡ true
    → tree_size order st.store_map ≡ pos n
    → 0 < n
    → lookup (pos n) st.checkpoint_history ≡ some cp
    → build_latest_checkpoint host order ctx st ≡ (st, built cp)
unfolding build_latest_checkpoint build_for finish_checkpoint
build_latest_checkpoint-stored host order ctx st n cp access size positive found =
    let nonzero : (pos n == pos 0) ≡ false = ground arith in rw (access, size, nonzero, found) refl

IsAnswer-built :
    {S : Type 0} (st st' : VaultState S) (n : ℕ) (r : Built) (cp : CheckpointResponse)
    → IsAnswer st st' n r
    → r ≡ built cp
    → (0 < n) × (lookup (pos n) st'.checkpoint_history ≡ some cp) × (st'.store_map ≡ st.store_map)
IsAnswer-built st st' n _ cp (nothing_yet z same) e = cc
IsAnswer-built st st' n _ cp (current c positive size found map) e = (positive, ground arith, map)

built-access :
    {S : Type 0} (host : Host) (order : List String) (ctx : Context) (st : VaultState S)
    (cp : CheckpointResponse)
    → (build_latest_checkpoint host order ctx st).1 ≡ built cp
    → has_checkpoint_access ctx ≡ true
unfolding build_latest_checkpoint
built-access host order ctx st cp e = elim (Bool-cases (has_checkpoint_access ctx)) [
  | inl access ↦ access
  | inr denied ↦ cc (rw denied at e)
]

-- A request for the latest checkpoint that directly follows an answered one, with another visit of the map
-- and another answer of the signing service, gets the same checkpoint and changes nothing.
pub build_latest_checkpoint-repeat :
    {S : Type 0} (host host' : Host) (order order' : List String) (ctx ctx' : Context)
    (st : VaultState S) (log : List String) (cp : CheckpointResponse)
    → has_checkpoint_access ctx' ≡ true
    → Covers st.store_map order
    → Covers st.store_map order'
    → length log < 2 ^ 63
    → IsValid st log
    → (build_latest_checkpoint host order ctx st).1 ≡ built cp
    → build_latest_checkpoint host' order' ctx' (build_latest_checkpoint host order ctx st).0
      ≡ ((build_latest_checkpoint host order ctx st).0, built cp)
build_latest_checkpoint-repeat host host' order order' ctx ctx' st log cp access covers covers' room
      v e =
    let answer =
      build_latest_checkpoint-IsAnswer host order ctx st log (built-access host order ctx st cp e)
        covers room v in
    let (positive, found, same) =
      IsAnswer-built st (build_latest_checkpoint host order ctx st).0 (length log)
        (build_latest_checkpoint host order ctx st).1 cp answer e in
    build_latest_checkpoint-stored host' order' ctx' (build_latest_checkpoint host order ctx st).0
      (length log) cp access
      (ap (tree_size order') same
        ∙ tree_size-length order' st.store_map log v.held.is_log covers' room)
      positive found

-- The answers that leave the default signature: no service is configured, the call fails, its
-- status is not 200, its body does not decode, or has no signature.
abbrev pub IsUnsigned : Host → ℤ → Type 0
IsUnsigned host size = (new_checkpoint host size).signature ≡ stub_signature

-- If the signing service fails once, at the first request for a tree size, the placeholder signature
-- is what the history holds for this size from then on, whatever follows.
pub stub_signature-stays :
    (api : StoreApi) (host : Host) (n : ℕ) (st : VaultState api.State) (es : List Event)
    → 0 < n
    → lookup (pos n) st.checkpoint_history ≡ none
    → IsUnsigned host (pos n)
    → (cp : CheckpointResponse) × (lookup
          (pos n)
          (run api es (build_for host (pos n) st).0).checkpoint_history
        ≡ some cp)
      × (cp.signature ≡ stub_signature)
unfolding build_for finish_checkpoint store_checkpoint
stub_signature-stays api host n st es positive missing unsigned =
    let cp = new_checkpoint host (pos n) in
    let nonzero : (pos n == pos 0) ≡ false = ground arith in
    let size : cp.tree_size ≡ pos n = unfold new_checkpoint in refl in
    (
      cp,
      run-keeps_checkpoint api es (build_for host (pos n) st).0 (pos n) cp (
          rw (nonzero, build_for, missing)
            (subst (λ z. lookup z (insert cp.tree_size cp st.checkpoint_history) ≡ some cp) size
              (lookup-insert_self cp.tree_size cp st.checkpoint_history))),
      unsigned,
    )
