-- ===== src/Prelude/Dict.antt =====
-- Go's maps, as association lists without repeated keys. An assignment to a present key keeps the
-- key's place and replaces its value.
use merkle_evidence_vault.Prelude.Tests.{if◌then◌else◌}
use merkle_evidence_vault.Prelude.Keys.{Key, ◌==◌}
use mathlib.Core.Path.{◌≡◌, refl}
use mathlib.Core.Option.{Option, none, some}
use mathlib.Core.List.{List, [], ◌∷◌}
use native.Mathlib.Omega.{arith}

abbrev pub Dict {ℓ} : Type 0 → Type ℓ → Type ℓ
Dict K V = List (K × V)

module _ {ℓ} {K : Type 0} {V : Type ℓ} ⦃key : Key K⦄ where
  -- m[k], with `none` for a missing key
  unfoldable pub lookup : K → Dict K V → Option V
  lookup k [] = none
  lookup k ((held, v) ∷ rest) = if held == k then some v else lookup k rest

  pub lookup-nil : (k : K) → lookup k [] ≡ none
  unfolding lookup
  lookup-nil k = refl

  -- m[k] = v
  unfoldable pub insert : K → V → Dict K V → Dict K V
  insert k v [] = (k, v) ∷ []
  insert k v ((held, old) ∷ rest) =
      if held == k then (held, v) ∷ rest else (held, old) ∷ insert k v rest

  -- A look-up after an assignment finds the assigned value under its key, and what was there under
  -- any other.
  pub lookup-insert :
      (k j : K) (new : V) (m : Dict K V)
      → lookup j (insert k new m) ≡ (if k == j then some new else lookup j m)
  unfolding lookup insert
  lookup-insert k j new [] = refl
  lookup-insert k j new ((held, old) ∷ rest) =
      let later = lookup-insert k j new rest in
      ground (arith, later, key.same_iff k j, key.same_iff held k, key.same_iff held j)

  -- An assignment to a key that was missing leaves what was there.
  pub lookup-insert_missing :
      (k j : K) (v w : V) (m : Dict K V)
      → lookup k m ≡ none
      → lookup j m ≡ some w
      → lookup j (insert k v m) ≡ some w
  lookup-insert_missing k j v w m missing at =
      ground (arith, key.same_iff k j, lookup-insert k j v m)

  pub lookup-insert_self : (k : K) (v : V) (m : Dict K V) → lookup k (insert k v m) ≡ some v
  lookup-insert_self k v m = ground (arith, key.same_iff k k, lookup-insert k k v m)
