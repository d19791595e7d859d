-- ===== src/Tests/Witnesses.antt =====
-- Each theorem at a concrete input.
use fv.Dashboard.Summary.{summarize}
use fv.Dashboard.Totals.{total, sum_of, gaps_of, summarize-total}
use fv.Dashboard.Manifest.{Loaded, read_manifest}
use fv.Agreement.Obligations.{read_manifest-load_manifest}
use fv.Agreement.Whole.{inputs_of, build_dashboard-read_manifest}
use fv.Prelude.{
  arith, List, [], ◌∷◌, true, false, none, some, ◌≡◌, refl, contains, all, map, leb, length, nat_eq,
  String,
}
use fv.Prelude.Errors.{ok, raise}
use fv.Json.{get, has, obj}
use fv.Gate.Schema.{unhashable}
use fv.Gate.Execution.{nothing_seen}
use fv.Gate.Record.{validate_record}
use fv.Gate.Sharing.{index_records, find_record}
use fv.Gate.Run.{expectations, passed, failed, verdict, exit_code}
use fv.Gate.Manifest.{expand}
use fv.Gate.Distinct.{distinct, texts_in, each_execution-distinct}
use fv.Gate.Backing.{backed, each_execution-backed}
use fv.Gate.Closure.{expand_closed}
use fv.Gate.Declared.{declarable, load_manifest-distinct}
use fv.Gate.Verdict.{exit_code-verdict}
use fv.Gate.Indexed.{records_of, last_of, index_records_lem}
use fv.Gate.Unhashable.{validate_record-raise}
use fv.Dashboard.Record.{judge_record}
use fv.Dashboard.Claim as View
use fv.Dashboard.Claim.{Row, evaluate_claim, view}
use fv.Dashboard.Coverage.{cohort_coverage}
use fv.Dashboard.Run as Board
use fv.Dashboard.Run.{build_dashboard, apply_dependency_coverage}
use fv.Dashboard.Gaps.{cohort_coverage-gaps}
use fv.Dashboard.Dependencies.{apply_dependency_coverage-passed}
use fv.Agreement.Record.{view_of, judge_record-validate_record}
use fv.Agreement.Apart.{Verified}
use fv.Agreement.Claim.{Matched, evaluate_claim-judge_claim}
use fv.Agreement.Run.{build_dashboard-gate}
use fv.Tests.Data.{
  sole_value, sole_manifest, record_value, runtime, repo, run, inputs, execution_with, context,
  manifest_value, manifest, unhashable_fields, slots, rows,
}
use fv.Tests.Runs.{
  sole_loaded, record_valid, executions_valid, gate_verified, claim_judged, manifest_loaded,
  expanded,
}

matched : Matched run inputs
matched = record {
  kinds = refl;
  targets = refl;
  manifest = refl;
  evidence = λ cid spec h. absurd (cc);
}

build_dashboard-gate_example :
    (found : List Row) × (shown : Board.Verdict) × (build_dashboard runtime inputs
        (record_value ∷ [])
        ("INV-1" ∷ [])
      ≡ ok (found, shown))
    × (Board.exit_code shown ≡ 0)
build_dashboard-gate_example =
    build_dashboard-gate runtime run inputs (record_value ∷ []) ("INV-1" ∷ "INV-1" ∷ [])
      ("INV-1" ∷ []) matched gate_verified refl (λ c h. ground arith) refl

judge_record-validate_record_example :
    judge_record runtime (view_of (expectations run "INV-1")) record_value ≡ ok []
judge_record-validate_record_example =
    judge_record-validate_record runtime repo (expectations run "INV-1") refl record_value
      record_valid

evaluate_claim-judge_claim_example :
    (row : Row) × (evaluate_claim runtime inputs (index_records (record_value ∷ [])) [] "INV-1"
      ≡ ok row)
    × (row.status ≡ View.passed)
evaluate_claim-judge_claim_example =
    evaluate_claim-judge_claim runtime run inputs (index_records (record_value ∷ [])) [] [] "INV-1"
      matched (λ v h. h) claim_judged refl

each_execution-backed_example : all (backed runtime repo) (execution_with "PASS" ∷ []) ≡ true
each_execution-backed_example =
    each_execution-backed runtime context repo (execution_with "PASS" ∷ []) 0 nothing_seen
      executions_valid

each_execution-distinct_example :
    (distinct (texts_in "tool" (execution_with "PASS" ∷ [])) ≡ true)
    × (distinct (texts_in "raw_output_path" (execution_with "PASS" ∷ [])) ≡ true)
each_execution-distinct_example =
    each_execution-distinct runtime context repo (execution_with "PASS" ∷ []) executions_valid

expand_closed_example : contains (expand manifest ("SYS-1" ∷ [])) "INV-1" ≡ true
expand_closed_example =
    expand_closed manifest_value manifest ("SYS-1" ∷ []) "SYS-1" "INV-1" manifest_loaded
      (rw expanded refl) refl refl

load_manifest-distinct_example :
    (distinct manifest.required ≡ true)
    × (all declarable manifest.required ≡ true)
    × (map (λ (c, kind). c) manifest.kinds ≡ manifest.required)
load_manifest-distinct_example = load_manifest-distinct manifest_value manifest manifest_loaded

exit_code-verdict_example :
    (nat_eq (exit_code (verdict run (index_records []) (("A", passed) ∷ ("B", failed) ∷ []))) 1
      ≡ true)
    × (nat_eq (exit_code (verdict run (index_records []) (("A", passed) ∷ ("B", failed) ∷ []))) 0
        ≡ false)
    × (nat_eq (exit_code (verdict run (index_records []) (("A", passed) ∷ ("B", failed) ∷ []))) 3
        ≡ false)
exit_code-verdict_example =
    exit_code-verdict run (index_records []) (("A", passed) ∷ ("B", failed) ∷ [])

index_records_lem_example :
    (contains (index_records (record_value ∷ record_value ∷ [])).duplicates "INV-1"
      ≡ leb 2 (length (records_of "INV-1" (record_value ∷ record_value ∷ []))))
    × (find_record "INV-1" (index_records (record_value ∷ record_value ∷ [])).by_claim
        ≡ last_of none (records_of "INV-1" (record_value ∷ record_value ∷ [])))
index_records_lem_example = index_records_lem (record_value ∷ record_value ∷ []) "INV-1"

apply_dependency_coverage-passed_example :
    map (λ row. View.is_passed row.status) (apply_dependency_coverage rows) ≡ false ∷ false ∷ []
apply_dependency_coverage-passed_example = apply_dependency_coverage-passed rows

cohort_coverage-gaps_example :
    contains (cohort_coverage ("kani" ∷ "tla" ∷ []) (some slots)).1 "kani" ≡ true
cohort_coverage-gaps_example = cohort_coverage-gaps ("kani" ∷ "tla" ∷ []) (some slots) "kani"

validate_record-raise_example :
    (validate_record runtime (expectations run "INV-1") (obj unhashable_fields) ≡ raise unhashable)
    × (judge_record runtime (view inputs "INV-1") (obj unhashable_fields) ≡ raise unhashable)
unfolding get has
validate_record-raise_example =
    validate_record-raise runtime (expectations run "INV-1") (view inputs "INV-1") unhashable_fields
      refl refl

build_dashboard-read_manifest_example :
    (l : Loaded) × (found : List Row) × (shown : Board.Verdict) × (read_manifest sole_value ≡ ok l)
    × (build_dashboard runtime (inputs_of l (some "m1")) (record_value ∷ []) ("INV-1" ∷ [])
        ≡ ok (found, shown))
    × (Board.exit_code shown ≡ 0)
build_dashboard-read_manifest_example =
    build_dashboard-read_manifest runtime run sole_value sole_manifest (record_value ∷ [])
      ("INV-1" ∷ "INV-1" ∷ []) ("INV-1" ∷ []) sole_loaded refl refl refl gate_verified refl
      (λ c h. ground arith) refl

read_manifest-load_manifest_example :
    (l : Loaded) × (read_manifest manifest_value ≡ ok l)
    × (l.required ≡ manifest.required)
    × (l.kinds ≡ manifest.kinds)
    × (map {B = String × List String} (λ (c, spec). (c, spec.depends_on)) l.system_claims
        ≡ manifest.depends)
    × (map {B = String × List String} (λ (c, spec). (c, spec.required_evidence)) l.system_claims
        ≡ manifest.evidence)
read_manifest-load_manifest_example =
    read_manifest-load_manifest manifest_value manifest manifest_loaded

summarize-total_example :
    (total (summarize rows).counts ≡ length rows)
    × (sum_of (λ b. b.pass) (summarize rows).by_kind ≡ (summarize rows).counts.pass)
    × (sum_of (λ b. b.fail) (summarize rows).by_kind ≡ (summarize rows).counts.fail)
    × (sum_of (λ b. b.gap) (summarize rows).by_kind ≡ gaps_of (summarize rows).counts)
summarize-total_example = summarize-total rows
