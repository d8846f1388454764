-- ===== src/Store/Memory/History.antt =====
-- The store in memory under a sequence of operations.
use merkle_evidence_vault.Prelude.{
  List, Option, String, [], ap, append-nil, append_assoc, arith, if◌then◌else◌, length,
  length-append, ltb, none, ok, refl, some, suc, sym, take, ℕ, ◌++◌, ◌+◌, ◌<◌, ◌^◌, ◌∙◌, ◌∷◌, ◌≡◌,
  ◌≤◌, string_key,
}
use merkle_evidence_vault.Prelude.Dict.{lookup}
use merkle_evidence_vault.Store.{AuditEntry, Evidence}
use merkle_evidence_vault.Store.Memory.{
  MemStore, assign_found, assign_next_pending_leaf, first_pending, list_audits, new_memory_store,
  save_audit, save_evidence,
}
use merkle_evidence_vault.Store.Memory.Log.{Holds, assign-Holds, log_found, save_evidence-Holds}
use merkle_evidence_vault.Prelude.Int.{negsuc, pos, int_key}

-- The operations that change the store; `assign` carries the order of the visit.
pub data Op : Type 0 where
  save : String → Op
  assign : List String → Op
  audit : AuditEntry → Op

unfoldable pub apply : Op → MemStore → MemStore
apply (save id) m = (save_evidence id m).0
apply (assign order) m = (assign_next_pending_leaf order m).0
apply (audit a) m = (save_audit a m).0

unfoldable pub run : List Op → MemStore → MemStore
run [] m = m
run (op ∷ ops) m = run ops (apply op m)

-- An id is saved only where the store does not hold it: the callers draw fresh UUIDs.
abbrev pub IsFresh : Op → MemStore → Type 0
IsFresh (save id) m = lookup id m.ev ≡ none
IsFresh _ m = Unit

abbrev pub AllFresh : List Op → MemStore → Type 0
AllFresh [] m = Unit
AllFresh (op ∷ ops) m = IsFresh op m × AllFresh ops (apply op m)

-- What an operation appends to the log.
appended : Op → MemStore → List String
appended (save id) m = []
appended (assign order) m = log_found (first_pending order m.ev) []
appended (audit a) m = []

pub log_found-append :
    (found : Option (String × Evidence)) (log : List String)
    → log_found found log ≡ log ++ log_found found []
log_found-append none log = sym (append-nil log)
log_found-append (some (k, e)) log = refl

length-appended : (op : Op) (m : MemStore) → length (appended op m) ≤ 1
unfolding appended
length-appended (save id) m = omega arith
length-appended (assign order) m = ground arith
length-appended (audit a) m = omega arith

apply-Holds :
    (op : Op) (m : MemStore) (log : List String)
    → IsFresh op m
    → suc (length log) < 2 ^ 63
    → Holds m log
    → Holds (apply op m) (log ++ appended op m)
unfolding apply appended
apply-Holds (save id) m log fresh room h = rw append-nil (save_evidence-Holds id m log fresh h)
apply-Holds (assign order) m log fresh room h =
    rw (← log_found-append (first_pending order m.ev) log) (assign-Holds order m log room h)
apply-Holds (audit a) m log fresh room h =
    rw append-nil (unfold save_audit in record { is_log = h.is_log; next = h.next })

-- Whatever the operations, fewer than 2^63 of them and every saved id fresh, a store that holds a
-- log ends with a store that holds an extension of this log.
pub run-Holds :
    (ops : List Op) (m : MemStore) (log : List String)
    → AllFresh ops m
    → length log + length ops < 2 ^ 63
    → Holds m log
    → (more : List String) × Holds (run ops m) (log ++ more)
unfolding run
run-Holds [] m log fresh room h = ([], rw append-nil h)
run-Holds (op ∷ ops) m log (fresh, later) room h =
    let short = length-appended op m in
    let size = length-append log (appended op m) in
    let (more, held) =
      run-Holds ops (apply op m) (log ++ appended op m) later (omega arith)
        (apply-Holds op m log fresh (omega arith) h) in
    (appended op m ++ more, rw (← append_assoc log (appended op m) more) held)

-- The audit entries among the operations, in order.
abbrev pub audited : List Op → List AuditEntry
audited [] = []
audited (audit a ∷ ops) = a ∷ audited ops
audited (_ ∷ ops) = audited ops

audits-run : (ops : List Op) (m : MemStore) → (run ops m).audits ≡ m.audits ++ audited ops
unfolding run apply save_evidence assign_next_pending_leaf save_audit
audits-run [] m = sym (append-nil m.audits)
audits-run (save id ∷ ops) m = audits-run ops (save_evidence id m).0
audits-run (assign order ∷ ops) m =
    audits-run ops (assign_next_pending_leaf order m).0
    ∙ ap (λ (l : List AuditEntry). l ++ audited ops)
        (audits-assign_found (first_pending order m.ev))
  where
    audits-assign_found :
        (found : Option (String × Evidence)) → (assign_found found m).0.audits ≡ m.audits
    audits-assign_found none = refl
    audits-assign_found (some (k, e)) = refl
audits-run (audit a ∷ ops) m =
    audits-run ops (save_audit a m).0 ∙ append_assoc m.audits (a ∷ []) (audited ops)

take-all {ℓ} : {A : Type ℓ} (xs : List A) → take (length xs) xs ≡ xs
take-all [] = refl
take-all (x ∷ xs) = ap (λ l. x ∷ l) (take-all xs)

-- Whatever the other operations do, the audit entries saved since the empty store come back in the
-- order of saving: all of them for a limit that is not positive or passes their number, otherwise
-- the oldest `limit` ones.
pub list_audits-run :
    (ops : List Op) (n : ℕ)
    → ((list_audits (negsuc n) (run ops new_memory_store)).1 ≡ ok (audited ops))
      × ((list_audits (pos 0) (run ops new_memory_store)).1 ≡ ok (audited ops))
      × ((list_audits (pos (suc n)) (run ops new_memory_store)).1
          ≡ ok (
              take
                (if ltb (length (audited ops)) (suc n) then length (audited ops) else suc n)
                (audited ops)))
unfolding list_audits
list_audits-run ops n =
    let all = take-all (audited ops) in
    rw (audits-run ops new_memory_store) (ap ok all, ap ok all, ground arith)
