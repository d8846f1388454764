-- ===== src/Vault/Access.antt =====
-- Who may see checkpoints.
use merkle_evidence_vault.Prelude.{List, String, [], arith, eq_iff, false, ◌↔◌, ◌∷◌, ◌≡◌, ◌≢◌}
use merkle_evidence_vault.Prelude.Sorted.{All}
use merkle_evidence_vault.Http.{Request, Response, new_response, write_header}
use merkle_evidence_vault.Vault.{
  Host, VaultState, access_role, has_checkpoint_access, roles_from_context,
}
use merkle_evidence_vault.Vault.Checkpoint.{
  build_latest_checkpoint, get_checkpoints_history, get_checkpoints_latest,
}
use merkle_evidence_vault.Vault.Verify.{verify_checkpoint_by_tree_size, verify_latest_checkpoint}

-- No role is the given one.
abbrev pub Lacks : String → List String → Type 0
Lacks role rs = All (λ r. r ≢ role) rs

access_role-Lacks :
    (rs : List String) → (access_role rs ≡ false) ↔ (Lacks "auditor" rs × Lacks "ingester" rs)
unfolding access_role
access_role-Lacks [] = ground arith
access_role-Lacks (r ∷ rs) =
    let (to, from) = access_role-Lacks rs in ground (arith, eq_iff r "auditor", eq_iff r "ingester")

-- An answer that is an empty 403 beside the old state.
abbrev pub IsForbidden : {S : Type 0} → VaultState S → VaultState S × Response → Type 0
IsForbidden st r = r ≡ (st, write_header 403 new_response)

-- The handlers of checkpoints refuse a caller with neither role: the answer is an empty 403, and the
-- state is what it was.
pub checkpoints-IsForbidden :
    {S : Type 0} (host : Host) (order : List String) (req : Request) (st : VaultState S)
    → Lacks "auditor" (roles_from_context req.context)
    → Lacks "ingester" (roles_from_context req.context)
    → IsForbidden st (get_checkpoints_latest host order req new_response st)
      × IsForbidden st (get_checkpoints_history host order req new_response st)
      × IsForbidden st (verify_latest_checkpoint host order req new_response st)
      × IsForbidden st (verify_checkpoint_by_tree_size host req new_response st)
unfolding get_checkpoints_latest get_checkpoints_history verify_latest_checkpoint
    verify_checkpoint_by_tree_size build_latest_checkpoint
checkpoints-IsForbidden host order req st no_auditor no_ingester =
    (rw denied, rw denied, rw denied, rw denied)
  where
    denied : has_checkpoint_access req.context ≡ false
    denied =
        unfold has_checkpoint_access in
        (access_role-Lacks (roles_from_context req.context)).1 (no_auditor, no_ingester)
