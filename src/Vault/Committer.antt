-- ===== src/Vault/Committer.antt =====
-- services/vault-api/handler/ingest.go: one round of the goroutine that StartCommitter starts. The
-- sleep between the rounds is left to the steps of Vault/Steps.antt.
use merkle_evidence_vault.Prelude.{List, Option, Result, String, err, none, ok, some, string_key}
use merkle_evidence_vault.Prelude.Int.{add64, pos, int_key}
use merkle_evidence_vault.Prelude.Dict.{insert, lookup}
use merkle_evidence_vault.Store.{Evidence, StoreApi}
use merkle_evidence_vault.Store.Memory.{first_pending}
use merkle_evidence_vault.Vault.{VaultState}

-- The loop over the map of the process: its first pending record gets `next`.
unfoldable pub memory_found :
    {S : Type 0} → Option (String × Evidence) → VaultState S → VaultState S
memory_found none st = st
memory_found (some (k, e)) st = record st {
  store_map = insert k (record e { leaf_index = some st.next }) st.store_map;
  next = add64 st.next (pos 1);
}

unfoldable pub memory_round : {S : Type 0} → List String → VaultState S → VaultState S
unfolding memory_found
memory_round order st = memory_found (first_pending order st.store_map) st

-- `if m, ok := storeMap[ev.ID]; ok { m.LeafIndex = ev.LeafIndex }`
unfoldable pub copy_leaf : {S : Type 0} → Evidence → Option Evidence → VaultState S → VaultState S
copy_leaf ev none st = st
copy_leaf ev (some m) st = record st {
  store_map = insert ev.id (record m { leaf_index = ev.leaf_index }) st.store_map;
}

-- After the store's answer: an entry that it committed is copied, and ends the round; an error, or
-- nothing pending, goes on to the loop.
unfoldable pub after_store :
    {S : Type 0} → List String → Result (Option Evidence) → VaultState S → VaultState S
unfolding copy_leaf
after_store order (err m) st = memory_round order st
after_store order (ok none) st = memory_round order st
after_store order (ok (some ev)) st = copy_leaf ev (lookup ev.id st.store_map) st

module _ (api : StoreApi) where
  open api use {State, assign_next_pending_leaf as store_assign}

  unfoldable pub with_store :
      List String → List String → Option State → VaultState State → VaultState State
  with_store visit order none st = memory_round order st
  with_store visit order (some s) st =
      let (s', r) = store_assign visit s in after_store order r (record st { store = some s' })

  -- `visit` is the order in which the store meets its entries, `order` that of the process's map.
  unfoldable pub commit_round : List String → List String → VaultState State → VaultState State
  unfolding with_store after_store memory_round
  commit_round visit order st = with_store visit order st.store st
