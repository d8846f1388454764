-- ===== src/Vault/Interleaved/Lost.antt =====
-- What goes wrong when two requests build checkpoints at once.
use mathlib.Core.Path.{subst}
use merkle_evidence_vault.Prelude.{
  List, [], ap, append_assoc, arith, get_elem?, get_elem?-set_ne, get_elem?-set_self, none, refl,
  set, some, sym, ℕ, ◌++◌, ◌∙◌, ◌∷◌, ◌≡◌, ◌≢◌, string_key,
}
use merkle_evidence_vault.Prelude.Int.{eqb_ℤ_iff, ℤ, int_key}
use merkle_evidence_vault.Prelude.Dict.{lookup, lookup-insert}
use merkle_evidence_vault.Store.{StoreApi}
use merkle_evidence_vault.Store.Leaves.{get_elem?-lt}
use merkle_evidence_vault.Prelude.Sorted.{IsIncreasing, ◌<ℤ◌}
use merkle_evidence_vault.Vault.Interleaved.Shelf.{order-new}
use merkle_evidence_vault.Vault.{CheckpointResponse, VaultState}
use merkle_evidence_vault.Vault.Checkpoint.{built, store_checkpoint}
use merkle_evidence_vault.Vault.Interleaved.{World, act, act_all, advance, answered, signed, turn}

-- The world after a signed request has taken its turn.
abbrev stored : {S : Type 0} → ℕ → CheckpointResponse → World S → World S
stored i cp w = record {
  vault = store_checkpoint cp w.vault;
  requests = set w.requests i (answered (built cp));
}

some-inj : {a b : CheckpointResponse} → some a ≡ some b → a ≡ b
some-inj e = cc

module _ (api : StoreApi) where
  open api use {State}

  turn-stored :
      (i : ℕ) (cp : CheckpointResponse) (w : World State)
      → get_elem? w.requests i ≡ some (signed cp)
      → act api (turn i) w ≡ stored i cp w
  unfolding act advance
  turn-stored i cp w e = rw e refl

  found-own :
      {S : Type 0} (cp : CheckpointResponse) (st : VaultState S)
      → lookup cp.tree_size (store_checkpoint cp st).checkpoint_history ≡ some cp
  unfolding store_checkpoint
  found-own cp st = ground (
    arith,
    lookup-insert cp.tree_size cp.tree_size cp st.checkpoint_history,
    eqb_ℤ_iff cp.tree_size cp.tree_size,
  )

  -- If two requests have signed different checkpoints of the same tree size, the first one's is stored and
  -- answered, and then the second one's takes its place: the history no longer has the checkpoint
  -- that the first caller was given.
  pub turns-replace :
      (i j : ℕ) (cp cp' : CheckpointResponse) (w : World State)
      → i ≢ j
      → get_elem? w.requests i ≡ some (signed cp)
      → get_elem? w.requests j ≡ some (signed cp')
      → cp'.tree_size ≡ cp.tree_size
      → cp' ≢ cp
      → (lookup cp.tree_size (act api (turn i) w).vault.checkpoint_history ≡ some cp)
        × (get_elem? (act_all api (turn i ∷ turn j ∷ []) w).requests i ≡ some (answered (built cp)))
        × (lookup cp.tree_size (act_all api (turn i ∷ turn j ∷ []) w).vault.checkpoint_history
            ≡ some cp')
        × (lookup cp.tree_size (act_all api (turn i ∷ turn j ∷ []) w).vault.checkpoint_history
            ≢ some cp)
  unfolding act_all
  turns-replace i j cp cp' w differ at at' same other =
      let st = stored i cp w in
      let at2 : get_elem? st.requests j ≡ some (signed cp') =
        get_elem?-set_ne w.requests (answered (built cp)) differ ∙ at' in
      let after : act api (turn j) (act api (turn i) w) ≡ stored j cp' st =
        ap (act api (turn j)) (turn-stored i cp w at) ∙ turn-stored j cp' st at2 in
      let now_there : lookup cp.tree_size (stored j cp' st).vault.checkpoint_history ≡ some cp' =
        subst (λ s. lookup s (stored j cp' st).vault.checkpoint_history ≡ some cp') same
          (found-own cp' st.vault) in
      (
        rw (turn-stored i cp w at) (found-own cp w.vault),
        rw after (
            get_elem?-set_ne st.requests (answered (built cp')) (λ e. differ (sym e))
            ∙ get_elem?-set_self w.requests i (answered (built cp)) (get_elem?-lt w.requests i at)),
        rw after now_there,
        rw after (λ e. other (some-inj (sym now_there ∙ e))),
      )

  not-IsIncreasing : (order : List ℤ) (m n : ℤ) → n <ℤ m → ¬ IsIncreasing (order ++ m ∷ n ∷ [])
  not-IsIncreasing [] m n lt ((up, _), _) = omega arith
  not-IsIncreasing (s ∷ order) m n lt (_, more) = not-IsIncreasing order m n lt more

  -- If two requests have signed checkpoints of different tree sizes, neither stored before, and the
  -- larger one is stored first, then the order is no longer one of growing tree sizes, so that the
  -- history does not list the latest checkpoint first.
  pub turns-disorder :
      (i j : ℕ) (cp cp' : CheckpointResponse) (w : World State)
      → i ≢ j
      → get_elem? w.requests i ≡ some (signed cp)
      → get_elem? w.requests j ≡ some (signed cp')
      → cp.tree_size <ℤ cp'.tree_size
      → lookup cp.tree_size w.vault.checkpoint_history ≡ none
      → lookup cp'.tree_size w.vault.checkpoint_history ≡ none
      → ((act_all api (turn j ∷ turn i ∷ []) w).vault.checkpoint_order
          ≡ w.vault.checkpoint_order ++ cp'.tree_size ∷ cp.tree_size ∷ [])
        × ¬ IsIncreasing (act_all api (turn j ∷ turn i ∷ []) w).vault.checkpoint_order
  unfolding act_all
  turns-disorder i j cp cp' w differ at at' lt missing missing' =
      let st = stored j cp' w in
      let at2 : get_elem? st.requests i ≡ some (signed cp) =
        get_elem?-set_ne w.requests (answered (built cp')) (λ e. differ (sym e)) ∙ at in
      let after : act api (turn i) (act api (turn j) w) ≡ stored i cp st =
        ap (act api (turn i)) (turn-stored j cp' w at') ∙ turn-stored i cp st at2 in
      let missing2 : lookup cp.tree_size st.vault.checkpoint_history ≡ none =
        unfold store_checkpoint in
        ground (
          arith,
          lookup-insert cp'.tree_size cp.tree_size cp' w.vault.checkpoint_history,
          eqb_ℤ_iff cp'.tree_size cp.tree_size,
        ) in
      let order : (stored i cp st).vault.checkpoint_order
          ≡ w.vault.checkpoint_order ++ cp'.tree_size ∷ cp.tree_size ∷ [] =
        order-new cp st.vault 0 missing2
        ∙ ap (λ (l : List ℤ). l ++ cp.tree_size ∷ []) (order-new cp' w.vault 0 missing')
        ∙ append_assoc w.vault.checkpoint_order (cp'.tree_size ∷ []) (cp.tree_size ∷ []) in
      (
        rw after order,
        rw (after, order) (not-IsIncreasing w.vault.checkpoint_order cp'.tree_size cp.tree_size lt),
      )
