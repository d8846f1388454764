-- ===== src/Drill/Command.antt =====
-- services/verifier-cli/cmd/verifier/main.go: verifyDrill on a file, and the command main with its
-- flags, its output and its exit status. The file system and `encoding/json` are parameters.
use Prim.Native.String
use mathlib.Core.Path.{subst}
use merkle_evidence_vault.Prelude.{
  List, eq_iff, refl, arith, true, false, inl, inr, sym, ap, ◌∙◌, Result, err, ok, ◌>>=◌, Option,
  String, [], if◌then◌else◌, none, not, some, ℕ, ◌==◌, ◌||◌, ◌↔◌, ◌∷◌, ◌≡◌, ◌≢◌, ◌⊎◌, string_key,
}
use merkle_evidence_vault.Text.{concat}
use merkle_evidence_vault.Drill.{DrillInput, DrillOutput, exit_status, verify_drill}
use merkle_evidence_vault.Drill.Laws.{IsRestored, verify_drill-pass_iff}

-- os.ReadFile, json.Unmarshal into drillInput, json.MarshalIndent and os.WriteFile, which answers with
-- the text of its error, if any.
pub record Files : Type 0 where
  pub read_file : String → Result (List ℕ)
  pub unmarshal : List ℕ → Result DrillInput
  pub marshal_indent : DrillOutput → String
  pub write_file : String → String → Option String

pub record Flags : Type 0 where
  pub bundle : String
  pub public_key : String
  pub drill_input : String
  pub output : String

-- A run of the command: the lines on both outputs, the file that is written, and the exit status.
pub record Run : Type 0 where
  pub stdout : List String
  pub stderr : List String
  pub saved : Option (String × String)
  pub status : ℕ

-- fmt.Errorf("<text>: %w", err)
abbrev wrap_error {ℓ} : {A : Type ℓ} → String → Result A → Result A
wrap_error text (ok a) = ok a
wrap_error text (err e) = err (String.◌++◌ text e)

unfoldable pub verify_drill_file : Files → String → Result DrillOutput
unfolding verify_drill
verify_drill_file files path = wrap_error "read drill input: " (files.read_file path) >>= λ b.
    wrap_error "parse drill input: " (files.unmarshal b) >>= λ input. ok (verify_drill input)

abbrev failed_run : List String → ℕ → Run
failed_run lines status = record { stdout = []; stderr = lines; saved = none; status = status }

-- The report is printed, and the status tells whether the drill passed.
abbrev pub report : String → Option (String × String) → DrillOutput → Run
report text saved out = record {
  stdout = text ∷ [];
  stderr = [];
  saved = saved;
  status = exit_status out;
}

unfoldable pub write_report : Files → String → DrillOutput → Run
unfolding exit_status
write_report files output out =
    let text = files.marshal_indent out in
    if output == "" then report text none out else elim (files.write_file output text) [
      | some e ↦ failed_run (String.◌++◌ "failed writing output: " e ∷ []) 1
      | none ↦ report text (some (output, text)) out
    ]

abbrev usage : List String
usage =
    "usage: verifier-cli --bundle <file> --public-key <file>"
    ∷ "   or: verifier-cli --drill-input <json> [--output <json>]" ∷ []

-- The check of a bundle is not written yet in the code.
abbrev pub stub_run : String → String → Run
stub_run bundle public_key = record {
  stdout = concat ("verifying " ∷ bundle ∷ " with key " ∷ public_key ∷ " (stub)" ∷ []) ∷ [];
  stderr = [];
  saved = none;
  status = 0;
}

unfoldable pub main : Files → Flags → Run
unfolding verify_drill_file write_report
main files flags =
    if not (flags.drill_input == "")
    then elim (verify_drill_file files flags.drill_input) [
      | err e ↦ failed_run (e ∷ []) 1
      | ok out ↦ write_report files flags.output out
    ]
    else if flags.bundle == "" || flags.public_key == ""
    then failed_run usage 2
    else stub_run flags.bundle flags.public_key

-- A drill that is run to its end with success: the file is read and decodes, the drill passes, and the
-- report is written where a path is given.
pub record IsPassedRun (files : Files) (flags : Flags) : Type 0 where
  pub content : List ℕ
  pub input : DrillInput
  pub reads : files.read_file flags.drill_input ≡ ok content
  pub decodes : files.unmarshal content ≡ ok input
  pub restored : IsRestored input
  pub writes :
      (flags.output ≡ "")
      ⊎ (files.write_file flags.output (files.marshal_indent (verify_drill input)) ≡ none)

Result-cases : {A : Type 0} (r : Result A) → ((a : A) × (r ≡ ok a)) ⊎ ((e : String) × (r ≡ err e))
Result-cases (ok a) = inl (a, refl)
Result-cases (err e) = inr (e, refl)

ok_inj : {A : Type 0} (a b : A) → ok a ≡ ok b → a ≡ b
ok_inj a b e = cc

module _ (files : Files) (flags : Flags) where
  abbrev report_text : DrillInput → String
  report_text input = files.marshal_indent (verify_drill input)

  abbrev IsWritten : DrillInput → Type 0
  IsWritten input = (flags.output ≡ "") ⊎ (files.write_file flags.output (report_text input) ≡ none)

  -- The report is written and the drill passed exactly where the status is 0.
  write_report-status :
      (input : DrillInput)
      → ((write_report files flags.output (verify_drill input)).status ≡ 0)
        ↔ (((verify_drill input).pass ≡ true) × IsWritten input)
  unfolding write_report exit_status
  write_report-status input = ground (arith, eq_iff flags.output "")

  failed-status :
      (e : String)
      → (flags.drill_input == "") ≡ false
      → verify_drill_file files flags.drill_input ≡ err e
      → (main files flags).status ≡ 1
  unfolding main
  failed-status e asked fails = rw (main, asked, fails) refl

  report-status :
      (input : DrillInput)
      → (flags.drill_input == "") ≡ false
      → verify_drill_file files flags.drill_input ≡ ok (verify_drill input)
      → (main files flags).status ≡ (write_report files flags.output (verify_drill input)).status
  unfolding main
  report-status input asked runs = rw (main, asked, runs) refl

  -- With a drill input, the command ends with the status 0 exactly where the file is read and decodes, the
  -- drill passes, and the report is written where a path is given for it.
  pub main-passes_iff :
      flags.drill_input ≢ "" → ((main files flags).status ≡ 0) ↔ IsPassedRun files flags
  unfolding verify_drill_file
  main-passes_iff drill =
      let asked : (flags.drill_input == "") ≡ false = ground (arith, eq_iff flags.drill_input "") in
      elim (Result-cases (files.read_file flags.drill_input)) [
        | inr (e, fails) ↦
            let ends =
              failed-status (String.◌++◌ "read drill input: " e) asked
                (rw (verify_drill_file, fails) refl) in
            ((λ h. absurd (omega arith)), (λ r. let reads = r.reads in absurd (cc)))
        | inl (b, reads) ↦ elim (Result-cases (files.unmarshal b)) [
          | inr (e, fails) ↦
              let ends =
                failed-status (String.◌++◌ "parse drill input: " e) asked
                  (rw (verify_drill_file, reads, fails) refl) in
              (
                (λ h. absurd (omega arith)),
                (λ r.
                    let same_content : r.content ≡ b = ok_inj r.content b (sym r.reads ∙ reads) in
                    let again = ap files.unmarshal (sym same_content) ∙ r.decodes in absurd (cc)),
              )
          | inl (input, decodes) ↦
              let ends = report-status input asked (rw (verify_drill_file, reads, decodes) refl) in
              let (to, from) = write_report-status input in
              let (passes, passed) = verify_drill-pass_iff input in
              (
                (λ h.
                    let (pass, writes) = to (sym ends ∙ h) in
                    record {
                      content = b;
                      input = input;
                      reads = reads;
                      decodes = decodes;
                      restored = passes pass;
                      writes = writes;
                    }),
                (λ r.
                    let same_content = ok_inj r.content b (sym r.reads ∙ reads) in
                    let same_input : r.input ≡ input =
                      ok_inj r.input input
                        (sym r.decodes ∙ ap files.unmarshal same_content ∙ decodes) in
                    ends
                    ∙ from (
                      passed (subst IsRestored same_input r.restored),
                      subst IsWritten same_input r.writes,
                    )),
              )
        ]
      ]
