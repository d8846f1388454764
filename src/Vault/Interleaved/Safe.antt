-- ===== src/Vault/Interleaved/Safe.antt =====
-- Requests that interleave in any way, in a server without a store.
use mathlib.Core.Path.{subst}
use merkle_evidence_vault.Prelude.{
  Bool-cases, List, Option, String, [], arith, get_elem?, inl, inr, length, none, refl, set, some,
  suc, sym, zero, ℕ, ◌<◌, ◌==◌, ◌^◌, ◌∷◌, ◌≡◌, ◌≤◌, string_key,
}
use merkle_evidence_vault.Prelude.Int.{pos, ℤ, ◌≤ℤ◌, int_key}
use merkle_evidence_vault.Prelude.Dict.{lookup}
use merkle_evidence_vault.Prelude.Sorted.{All}
use merkle_evidence_vault.Store.Memory.Log.{Holds}
use merkle_evidence_vault.Store.Memory.Progress.{Covers}
use merkle_evidence_vault.Vault.{CheckpointResponse, Host, VaultState, has_checkpoint_access}
use merkle_evidence_vault.Vault.Checkpoint.{built, new_checkpoint, refused, store_checkpoint}
use merkle_evidence_vault.Vault.Log.{as_store, tree_size-length}
use merkle_evidence_vault.Vault.Interleaved.{
  Phase, World, advance, answered, entered, look_up, signed, sized,
}
use merkle_evidence_vault.Vault.Interleaved.Shelf.{InRange, IsShelf, store_checkpoint-IsShelf}

-- What a request in flight holds is about the log as it was, which is a prefix of the log.
abbrev pub IsFlight : ℕ → Phase → Type 0
IsFlight n (entered host order ctx) = Unit
IsFlight n (sized host size) = (pos 0 ≤ℤ size) × (size ≤ℤ pos n)
IsFlight n (signed cp) = InRange n cp.tree_size
IsFlight n (answered (refused code)) = Unit
IsFlight n (answered (built cp)) = InRange n cp.tree_size

pub record IsSafe {S : Type 0} (w : World S) (log : List String) : Type 0 where
  pub no_store : w.vault.store ≡ none
  pub held : Holds (as_store w.vault) log
  pub shelf : IsShelf w.vault (length log)
  pub flights : All (IsFlight (length log)) w.requests

-- A loop over the map meets all its keys; a turn of any phase but the first has no such loop.
abbrev pub Covered : {S : Type 0} → Option Phase → VaultState S → Type 0
Covered (some (entered host order ctx)) st = Covers st.store_map order
Covered _ st = Unit

pub IsFlight-grow : (n m : ℕ) (p : Phase) → n ≤ m → IsFlight n p → IsFlight m p
IsFlight-grow n m (entered host order ctx) le h = tt
IsFlight-grow n m (sized host size) le (low, high) = (low, omega arith)
IsFlight-grow n m (signed cp) le (low, high) = (low, omega arith)
IsFlight-grow n m (answered (refused code)) le h = tt
IsFlight-grow n m (answered (built cp)) le (low, high) = (low, omega arith)

pub All-set {ℓ κ} :
    {A : Type ℓ} (P : A → Type κ) (xs : List A) (i : ℕ) (a : A)
    → All P xs
    → P a
    → All P (set xs i a)
All-set P [] i a h p = tt
All-set P (x ∷ xs) zero a (q, h) p = (p, h)
All-set P (x ∷ xs) (suc i) a (q, h) p = (q, All-set P xs i a h p)

pub All-get {ℓ κ} :
    {A : Type ℓ} (P : A → Type κ) (xs : List A) (i : ℕ) (a : A)
    → All P xs
    → get_elem? xs i ≡ some a
    → P a
All-get P [] i a h e = cc
All-get P (x ∷ xs) zero a (p, h) e = subst P (ground arith) p
All-get P (x ∷ xs) (suc i) a (p, h) e = All-get P xs i a h e

pub advance-as_store :
    {S : Type 0} (p : Phase) (st : VaultState S) → as_store (advance p st).1 ≡ as_store st
unfolding advance store_checkpoint
advance-as_store (entered host order ctx) st = refl
advance-as_store (sized host size) st = refl
advance-as_store (signed cp) st = refl
advance-as_store (answered b) st = refl

pub advance-store : {S : Type 0} (p : Phase) (st : VaultState S) → (advance p st).1.store ≡ st.store
unfolding advance store_checkpoint
advance-store (entered host order ctx) st = refl
advance-store (sized host size) st = refl
advance-store (signed cp) st = refl
advance-store (answered b) st = refl

pub advance-IsShelf :
    {S : Type 0} (p : Phase) (st : VaultState S) (n : ℕ)
    → IsFlight n p
    → IsShelf st n
    → IsShelf (advance p st).1 n
unfolding advance
advance-IsShelf (entered host order ctx) st n f h = h
advance-IsShelf (sized host size) st n f h = h
advance-IsShelf (signed cp) st n f h = store_checkpoint-IsShelf cp st n f h
advance-IsShelf (answered b) st n f h = h

look_up-IsFlight :
    {S : Type 0} (host : Host) (size : ℤ) (st : VaultState S) (n : ℕ)
    (found : Option CheckpointResponse)
    → lookup size st.checkpoint_history ≡ found
    → InRange n size
    → IsShelf st n
    → IsFlight n (look_up host size found)
unfolding look_up new_checkpoint
look_up-IsFlight host size st n none e range h = range
look_up-IsFlight host size st n (some cp) e range h =
    let (own, filed) = h.filed size cp e in subst (InRange n) (sym own) range

pub advance-IsFlight :
    {S : Type 0} (p : Phase) (st : VaultState S) (log : List String)
    → Covered (some p) st
    → length log < 2 ^ 63
    → Holds (as_store st) log
    → IsShelf st (length log)
    → IsFlight (length log) p
    → IsFlight (length log) (advance p st).0
unfolding advance
advance-IsFlight (entered host order ctx) st log covers room held h f =
    elim (Bool-cases (has_checkpoint_access ctx)) [
      | inl access ↦
          rw (access, tree_size-length order st.store_map log held.is_log covers room)
            (omega arith, omega arith)
      | inr denied ↦ rw denied tt
    ]
advance-IsFlight (sized host size) st log covers room held h (low, high) =
    elim (Bool-cases (size == pos 0)) [
      | inl empty ↦ rw empty tt
      | inr filled ↦ rw filled (
          look_up-IsFlight host size st (length log) (lookup size st.checkpoint_history) refl
            (ground arith, high) h)
    ]
advance-IsFlight (signed cp) st log covers room held h f = f
advance-IsFlight (answered b) st log covers room held h f = f
