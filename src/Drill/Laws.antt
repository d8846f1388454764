-- ===== src/Drill/Laws.antt =====
-- What a passed restore drill has checked.
use merkle_evidence_vault.Prelude.{List, [], arith, eq_iff, refl, true, ◌↔◌, ◌∷◌, ◌≡◌, ◌≢◌}
use merkle_evidence_vault.Prelude.Int.{eqb_ℤ_iff, pos}
use merkle_evidence_vault.Prelude.Sorted.{All}
use merkle_evidence_vault.Drill.{
  DrillInput, DrillProof, exit_status, proofs_ok, sample_proofs, verify_drill,
}

-- A proof that was answered by 200 with a root.
abbrev pub IsSound : DrillProof → Type 0
IsSound p = (p.http_code ≡ pos 200) × (p.root ≢ "")

-- What the drill promises of a restored system.
pub record IsRestored (input : DrillInput) : Type 0 where
  pub expects : input.expected_root ≢ ""
  pub same_root : input.after.root_hash ≡ input.expected_root
  pub verified_before : input.before.verified ≡ true
  pub verified_after : input.after.verified ≡ true
  pub some_before : input.before.proofs ≢ []
  pub some_after : input.after.proofs ≢ []
  pub sound_before : All IsSound input.before.proofs
  pub sound_after : All IsSound input.after.proofs

proofs_ok_iff : (ps : List DrillProof) → (proofs_ok ps ≡ true) ↔ All IsSound ps
unfolding proofs_ok
proofs_ok_iff [] = ground arith
proofs_ok_iff (p ∷ ps) =
    let (to, from) = proofs_ok_iff ps in
    ground (arith, eq_iff p.root "", eqb_ℤ_iff p.http_code (pos 200))

sample_proofs_iff :
    (before after : List DrillProof)
    → (sample_proofs before after ≡ true)
      ↔ ((before ≢ []) × (after ≢ []) × All IsSound before × All IsSound after)
unfolding sample_proofs
sample_proofs_iff [] after = ground arith
sample_proofs_iff (p ∷ ps) [] = ground arith
sample_proofs_iff (p ∷ ps) (q ∷ qs) =
    let (to, from) = proofs_ok_iff (p ∷ ps) in
    let (to', from') = proofs_ok_iff (q ∷ qs) in
    (
      (λ h. ((λ e. cc), (λ e. cc), to (ground arith), to' (ground arith))),
      (λ (n, n', h, h'). rw (from h, from' h') refl),
    )

-- The drill passes exactly where the restored system has the expected root, both signatures
-- verified, and both sides have proofs, each answered by 200 with a root.
pub verify_drill-pass_iff :
    (input : DrillInput) → ((verify_drill input).pass ≡ true) ↔ IsRestored input
unfolding verify_drill sample_proofs
verify_drill-pass_iff input =
    let (to, from) = sample_proofs_iff input.before.proofs input.after.proofs in
    (
      (λ h.
          let (some_before, some_after, sound_before, sound_after) = to (ground arith) in
          record {
            expects = ground (arith, eq_iff input.expected_root "");
            same_root = ground (arith, eq_iff input.after.root_hash input.expected_root);
            verified_before = ground arith;
            verified_after = ground arith;
            some_before = some_before;
            some_after = some_after;
            sound_before = sound_before;
            sound_after = sound_after;
          }),
      (λ r.
          let proofs = from (r.some_before, r.some_after, r.sound_before, r.sound_after) in
          ground (
            arith,
            r.expects,
            eq_iff input.expected_root "",
            eq_iff input.after.root_hash input.expected_root,
          )),
    )

-- The list of failures tells exactly the checks that failed: it is empty exactly where the drill
-- passes, and the exit status is 0 exactly then.
pub verify_drill-failures_iff :
    (input : DrillInput)
    → (((verify_drill input).failures ≡ []) ↔ ((verify_drill input).pass ≡ true))
      × ((exit_status (verify_drill input) ≡ 0) ↔ ((verify_drill input).pass ≡ true))
unfolding verify_drill exit_status
verify_drill-failures_iff input = ground arith
