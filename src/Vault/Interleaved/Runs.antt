-- ===== src/Vault/Interleaved/Runs.antt =====
-- Interleavings of requests, ingests and rounds of the committer.
use mathlib.Core.Path.{subst}
use merkle_evidence_vault.Prelude.{
  List, Option, String, [], append-nil, append_assoc, arith, get_elem?, length, length-append, none,
  refl, some, suc, sym, ℕ, ◌++◌, ◌+◌, ◌<◌, ◌^◌, ◌∙◌, ◌∷◌, ◌≡◌, ◌≤◌,
}
use merkle_evidence_vault.Prelude.Sorted.{All-map}
use merkle_evidence_vault.Store.{StoreApi}
use merkle_evidence_vault.Store.Memory.Log.{Holds}
use merkle_evidence_vault.Vault.Steps.{Event, SameHeads, after, effect, keeps, step, step-SameHeads}
use merkle_evidence_vault.Vault.Runs.{Draws, appended, length-appended, step-Holds, step-store}
use merkle_evidence_vault.Vault.Interleaved.{
  Action, Phase, World, act, act_all, advance, arrive, event, take_turn, turn,
}
use merkle_evidence_vault.Vault.Interleaved.Shelf.{IsShelf-grow}
use merkle_evidence_vault.Vault.Interleaved.Safe.{
  All-get, All-set, Covered, IsFlight, IsFlight-grow, IsSafe, advance-IsFlight, advance-IsShelf,
  advance-as_store, advance-store,
}

-- A finished turn leaves the server safe.
take_turn-IsSafe :
    {S : Type 0} (i : ℕ) (o : Option Phase) (w : World S) (log : List String)
    → get_elem? w.requests i ≡ o
    → Covered o w.vault
    → length log < 2 ^ 63
    → IsSafe w log
    → IsSafe (take_turn i o w) log
unfolding take_turn
take_turn-IsSafe i none w log e covers room h = h
take_turn-IsSafe i (some p) w log e covers room h =
    let f = All-get (IsFlight (length log)) w.requests i p h.flights e in
    record {
      no_store = advance-store p w.vault ∙ h.no_store;
      held = subst (λ m. Holds m log) (sym (advance-as_store p w.vault)) h.held;
      shelf = advance-IsShelf p w.vault (length log) f h.shelf;
      flights =
          All-set (IsFlight (length log)) w.requests i (advance p w.vault).0 h.flights
            (advance-IsFlight p w.vault log covers room h.held h.shelf f);
    }

module _ (api : StoreApi) where
  open api use {State}

  -- What the runtime provides; an `event` is one that builds no checkpoint.
  abbrev pub IsProper : Action → World State → Type 0
  IsProper (event e) w = (effect e ≡ keeps) × Draws e w.vault
  IsProper (arrive host order ctx) w = Unit
  IsProper (turn i) w = Covered (get_elem? w.requests i) w.vault

  abbrev pub AreProper : List Action → World State → Type 0
  AreProper [] w = Unit
  AreProper (a ∷ more) w = IsProper a w × AreProper more (act api a w)

  -- What an action appends to the log.
  abbrev added : Action → World State → List String
  added (event e) w = appended api e w.vault
  added _ w = []

  length-added : (a : Action) (w : World State) → length (added a w) ≤ 1
  length-added (event e) w = length-appended api e w.vault
  length-added (arrive host order ctx) w = omega arith
  length-added (turn i) w = omega arith

  event-IsSafe :
      (e : Event) (w : World State) (log : List String)
      → effect e ≡ keeps
      → Draws e w.vault
      → suc (length log) < 2 ^ 63
      → IsSafe w log
      → IsSafe (act api (event e) w) (log ++ appended api e w.vault)
  unfolding act
  event-IsSafe e w log quiet draws room h =
      let n = length log in
      let m = length (log ++ appended api e w.vault) in
      let le : n ≤ m = omega (arith, length-append log (appended api e w.vault)) in
      record {
        no_store = step-store api e w.vault h.no_store;
        held = step-Holds api e w.vault log h.no_store draws room h.held;
        shelf =
            IsShelf-grow w.vault (step api e w.vault) n m le
              (subst (λ f. SameHeads (step api e w.vault) (after f w.vault)) quiet
                (step-SameHeads api e w.vault))
              h.shelf;
        flights =
            All-map (IsFlight n) (IsFlight m) w.requests (λ p. IsFlight-grow n m p le) h.flights;
      }

  act-IsSafe :
      (a : Action) (w : World State) (log : List String)
      → IsProper a w
      → suc (length log) < 2 ^ 63
      → IsSafe w log
      → IsSafe (act api a w) (log ++ added a w)
  unfolding act
  act-IsSafe (event e) w log (quiet, draws) room h = event-IsSafe e w log quiet draws room h
  act-IsSafe (arrive host order ctx) w log proper room h =
      rw append-nil (record {
        no_store = h.no_store;
        held = h.held;
        shelf = h.shelf;
        flights = (tt, h.flights);
      })
  act-IsSafe (turn i) w log proper room h =
      rw append-nil (take_turn-IsSafe i (get_elem? w.requests i) w log refl proper (omega arith) h)

  -- However the critical sections of the requests, the ingests and the rounds of the committer
  -- interleave, fewer than 2^63 of them, a server without a store stays safe, and its log only grows:
  -- each stored checkpoint is filed under its own tree size, which is one of the log's, the order
  -- lists each tree size with a checkpoint once, and so do the answers keep to the log.
  pub act_all-IsSafe :
      (actions : List Action) (w : World State) (log : List String)
      → AreProper actions w
      → length log + length actions < 2 ^ 63
      → IsSafe w log
      → (more : List String) × IsSafe (act_all api actions w) (log ++ more)
  unfolding act_all
  act_all-IsSafe [] w log proper room h = ([], rw append-nil h)
  act_all-IsSafe (a ∷ actions) w log (proper, later) room h =
      let short = length-added a w in
      let size = length-append log (added a w) in
      let (more, safe) =
        act_all-IsSafe actions (act api a w) (log ++ added a w) later (omega arith)
          (act-IsSafe a w log proper (omega arith) h) in
      (added a w ++ more, rw (← append_assoc log (added a w) more) safe)
