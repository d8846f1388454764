-- ===== src/Vault/Bounds.antt =====
-- The counter of leaf indices and the tree sizes of a server without a store.
mod Tests
use mathlib.Core.Option
use mathlib.Core.List.{Memᴰ}
use mathlib.Core.Path.{subst}
use merkle_evidence_vault.Prelude.Dict.{Dict, lookup}
use merkle_evidence_vault.Prelude.{
  Bool-cases, List, Option, String, [], append-nil, append_assoc, arith, inl, inr, length,
  length-append, refl, some, suc, sym, ℕ, ◌++◌, ◌+◌, ◌<◌, ◌^◌, ◌∷◌, ◌≡◌, ◌≤◌, string_key,
}
use merkle_evidence_vault.Prelude.Int.{eqb_ℤ, eqb_ℤ_iff, pos, ℤ, ◌≤ℤ◌, int_key}
use merkle_evidence_vault.Prelude.Sorted.{All, All-map, ◌<ℤ◌}
use merkle_evidence_vault.Store.{StoreApi}
use merkle_evidence_vault.Vault.{CheckpointResponse, VaultState}
use merkle_evidence_vault.Vault.Steps.{Event, commit, read_audit, run, start, step}
use merkle_evidence_vault.Vault.Runs.{AllProper, appended, length-appended}
use merkle_evidence_vault.Vault.Heads.{IsStored, IsValid, IsValid-start, step-IsValid}

-- The rounds of the committer among the events.
abbrev pub commit_count : List Event → ℕ
commit_count [] = 0
commit_count (commit visit order ∷ es) = suc (commit_count es)
commit_count (e ∷ es) = commit_count es

-- A size that a checkpoint may have in a log of n leaves.
abbrev pub IsWithin : ℕ → ℤ → Type 0
IsWithin n size = (pos 0 <ℤ size) × (size ≤ℤ pos n)

-- The tree sizes that have a stored checkpoint.
abbrev pub stored_sizes : Dict ℤ CheckpointResponse → List ℤ
stored_sizes [] = []
stored_sizes ((size, cp) ∷ history) = size ∷ stored_sizes history

All-stored_sizes :
    (P : ℤ → Type 0) (history : Dict ℤ CheckpointResponse)
    → ((size : ℤ) (cp : CheckpointResponse) → lookup size history ≡ some cp → P size)
    → All P (stored_sizes history)
unfolding lookup
All-stored_sizes P [] h = tt
All-stored_sizes P ((size, cp) ∷ history) h = (
  h size cp (ground (arith, eqb_ℤ_iff size size)),
  All-stored_sizes P history (λ s c found. elim (Bool-cases (eqb_ℤ size s)) [
    | inl same ↦ h s cp (rw same refl)
    | inr other ↦ h s c (rw other found)
  ]),
)

All-Memᴰ : (P : ℤ → Type 0) (xs : List ℤ) (a : ℤ) → All P xs → Memᴰ a xs → P a
All-Memᴰ P [] a h m = elim m [ ]
All-Memᴰ P (x ∷ xs) a (p, h) (Memᴰ.head same) = subst P (sym same) p
All-Memᴰ P (x ∷ xs) a (p, h) (Memᴰ.tail later) = All-Memᴰ P xs a h later

module _ (api : StoreApi) where
  open api use {State}

  -- Only a round of the committer appends to the log, at most one id.
  commit_count-appended :
      (e : Event) (es : List Event) (st : VaultState State)
      → length (appended api e st) + commit_count es ≤ commit_count (e ∷ es)
  commit_count-appended (commit visit order) es st =
      omega (arith, length-appended api (commit visit order) st)
  commit_count-appended (read_audit req) es st = omega arith
  commit_count-appended e es st = omega arith

  run-commit_count :
      (es : List Event) (st : VaultState State) (log : List String)
      → AllProper api es st
      → length log + length es < 2 ^ 63
      → IsValid st log
      → (more : List String) × IsValid (run api es st) (log ++ more)
        × (length more ≤ commit_count es)
  unfolding run
  run-commit_count [] st log proper room v = ([], rw append-nil v, omega arith)
  run-commit_count (e ∷ es) st log (draws, visits, later) room v =
      let short = length-appended api e st in
      let size = length-append log (appended api e st) in
      let (more, valid, few) =
        run-commit_count es (step api e st) (log ++ appended api e st) later (omega arith)
          (step-IsValid api e st log draws visits (omega arith) v) in
      let grown = length-append (appended api e st) more in
      (
        appended api e st ++ more,
        rw (← append_assoc log (appended api e st) more) valid,
        omega (arith, commit_count-appended e es st),
      )

  -- Fewer than 2^63 events after its start, a server without a store has a counter of leaf indices that is
  -- no negative number and at most the number of the committer's rounds, and every stored checkpoint has
  -- a positive tree size up to this counter. The drawn ids are new, and a loop over the map visits all of
  -- it.
  pub run-next_bound :
      (es : List Event)
      → AllProper api es start
      → length es < 2 ^ 63
      → (n : ℕ) × ((run api es start).next ≡ pos n)
        × (n ≤ commit_count es)
        × All (IsWithin n) (stored_sizes (run api es start).checkpoint_history)
  run-next_bound es proper room =
      let (more, valid, few) = run-commit_count es start [] proper (omega arith) IsValid-start in
      (
        length more,
        valid.held.next,
        few,
        All-stored_sizes (IsWithin (length more)) (run api es start).checkpoint_history
            (λ size cp found.
              All-Memᴰ (IsWithin (length more)) (run api es start).checkpoint_order size
                (All-map (IsStored (run api es start).checkpoint_history (length more))
                  (IsWithin (length more)) (run api es start).checkpoint_order
                  (λ size s. (s.positive, s.within)) valid.history.stored)
                (valid.history.listed size cp found)),
      )
