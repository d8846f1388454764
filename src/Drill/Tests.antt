-- ===== src/Drill/Tests.antt =====
-- The restore drill at concrete inputs.
use merkle_evidence_vault.Prelude.{[], eq_iff, none, ok, refl, some, true, ◌↔◌, ◌∷◌, ◌≡◌, ◌≢◌}
use merkle_evidence_vault.Prelude.Int.{pos}
use merkle_evidence_vault.Drill.{DrillInput, DrillSide, proofs_ok, sample_proofs, verify_drill}
use merkle_evidence_vault.Drill.Command.{
  Files, Flags, IsPassedRun, main, main-passes_iff, verify_drill_file, write_report,
}

abbrev side : DrillSide
side = record {
  tree_size = pos 3;
  root_hash = "r";
  verified = true;
  proofs = record { id = "a"; http_code = pos 200; root = "r" } ∷ [];
}

abbrev good : DrillInput
good = record { expected_root = "r"; before = side; after = side }

abbrev lost_proof : DrillInput
lost_proof = record good {
  after = record side { proofs = record { id = "a"; http_code = pos 404; root = "" } ∷ [] };
}

drill_tests :
    ((verify_drill good).pass ≡ true)
    × ((verify_drill lost_proof).failures ≡ "sample evidence proof verification failed" ∷ [])
unfolding verify_drill sample_proofs proofs_ok
drill_tests = (refl, refl)

abbrev good_files : Files
good_files = record {
  read_file = λ path. ok [];
  unmarshal = λ b. ok good;
  marshal_indent = λ out. "{}";
  write_file = λ path text. none;
}

abbrev drill_flags : Flags
drill_flags = record { bundle = ""; public_key = ""; drill_input = "in.json"; output = "out.json" }

command_tests :
    ((main good_files drill_flags).saved ≡ some ("out.json", "{}"))
    × ((main (record good_files { write_file = λ path text. some "full" }) drill_flags).stderr
        ≡ "failed writing output: full" ∷ [])
    × ((main good_files (record drill_flags { drill_input = "" })).status ≡ 2)
unfolding main verify_drill_file write_report
command_tests = (refl, refl, refl)

-- A bundle that is only a name is "verified": the code's check is a stub.
bundle_test :
    (main good_files
      (record drill_flags { drill_input = ""; bundle = "missing.evb"; public_key = "k" })).status
    ≡ 0
unfolding main
bundle_test = refl

named : drill_flags.drill_input ≢ ""
named e = let same = (eq_iff "in.json" "").1 e in cc

main-passes_iff_example :
    ((main good_files drill_flags).status ≡ 0) ↔ IsPassedRun good_files drill_flags
main-passes_iff_example = main-passes_iff good_files drill_flags named
