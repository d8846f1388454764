-- ===== src/Store/Memory/View.antt =====
-- What the store in memory holds, seen as a table of leaf indices, and what its operations do to it.
use merkle_evidence_vault.Prelude.{
  String, ◌≡◌, Option, none, some, List, [], ◌∷◌, arith, if◌then◌else◌, string_key, ◌==◌,
}
use mathlib.Core.List.{Memᴰ}
use merkle_evidence_vault.Prelude.{◌≢◌}
use merkle_evidence_vault.Prelude.Int.{ℤ}
use merkle_evidence_vault.Prelude.Dict.{Dict, lookup, insert, lookup-insert}
use merkle_evidence_vault.Store.{Evidence}
use merkle_evidence_vault.Store.Leaves.{Leaves}
use merkle_evidence_vault.Store.Memory.{first_pending}

abbrev pub leaf_at : Option Evidence → Option ℤ
leaf_at none = none
leaf_at (some e) = e.leaf_index

unfoldable pub leaf_of : Dict String Evidence → Leaves
leaf_of ev k = leaf_at (lookup k ev)

pub leaf_of-insert :
    (ev : Dict String Evidence) (k j : String) (e : Evidence)
    → leaf_of (insert k e ev) j ≡ (if k == j then e.leaf_index else leaf_of ev j)
unfolding leaf_of
leaf_of-insert ev k j e = ground (arith, lookup-insert k j e ev)

-- The entry that the loop finds is in the map, and pending.
pub first_pending-some :
    (order : List String) (ev : Dict String Evidence) (k : String) (e : Evidence)
    → first_pending order ev ≡ some (k, e)
    → (lookup k ev ≡ some e) × (e.leaf_index ≡ none)
unfolding first_pending
first_pending-some [] ev k e h = cc
first_pending-some (j ∷ order) ev k e h = ground (arith, first_pending-some order ev k e)

-- If the loop finds nothing, no key that it visited is pending.
pub first_pending-none :
    (order : List String) (ev : Dict String Evidence) (k : String) (e : Evidence)
    → first_pending order ev ≡ none
    → Memᴰ k order
    → lookup k ev ≡ some e
    → e.leaf_index ≢ none
unfolding first_pending
first_pending-none [] ev k e h m at = elim m [ ]
first_pending-none (j ∷ order) ev k e h (Memᴰ.head same) at = ground arith
first_pending-none (j ∷ order) ev k e h (Memᴰ.tail later) at =
    first_pending-none order ev k e (ground arith) later at
