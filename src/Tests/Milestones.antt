-- ===== src/Tests/Milestones.antt =====
-- Runs of the panel's contract, and each theorem on it at a concrete input.
use fv.Prelude.{true, false, ◌&&◌, not, [], ◌∷◌, ◌++◌, ◌≡◌, refl, any, all, is_nil, ◌==◌, String}
use fv.Prelude.Errors.{ok}
use fv.Json.{Value, str, arr, obj, end, field, of_list, get}
use fv.Text.{codes, lines, sorted, split_lines, is_line_end, prefix_of, eq_codes, is_alnum}
use fv.Text.Strip.{join_lines}
use fv.Panel.Untrusted.{opening, closing, wrap_untrusted, split_brief, parse_acceptance_ids}
use fv.Panel.Guard.{is_pass, is_fail, model_criteria, g1_status, milestone_verdict_guard}
use fv.Panel.Fenced.{forges, fenced_lines, wrap_untrusted-forges}
use fv.Panel.Milestone.{
  no_repeat, evaluated, accepted, milestone_verdict_guard-pass, milestone_verdict_guard-fail,
}
use fv.Panel.Criteria.{tags, fresh_onto, parse_acceptance_ids-tags}

-- A synthesis that evaluates one criterion.
abbrev synthesis : String → String → Value
synthesis id verdict = obj (
    field "verdict" (str "PASS") (
      field "criteria"
        (arr (of_list (obj (field "id" (str id) (field "verdict" (str verdict) end)) ∷ []))) end))

passing :
    is_pass
      (milestone_verdict_guard
        ("INV-1" ∷ [])
        (("INV-1", "PASS") ∷ [])
        (synthesis "INV-1" "PASS")).verdict
    ≡ true
unfolding milestone_verdict_guard get sorted
passing = refl

-- The panel cannot hide a FAIL of the gate.
failing :
    is_fail
      (milestone_verdict_guard
        ("INV-1" ∷ [])
        (("INV-1", "FAIL") ∷ [])
        (synthesis "INV-2" "PASS")).verdict
    ≡ true
unfolding milestone_verdict_guard get sorted
failing = refl

abbrev task : String
task = "- [AC:A1] the tally is written once\n* [AC:A-2] no ballot is lost\n- [x] done"

task_ids : parse_acceptance_ids task ≡ ok (codes "A1" ∷ codes "A-2" ∷ [])
unfolding parse_acceptance_ids lines is_alnum prefix_of eq_codes
task_ids = refl

abbrev brief : String
brief = "  the task\n===FV_ROOT-EVIDENCE===\na log\n"

brief_split : split_brief brief ≡ (codes "the task", codes "a log")
unfolding split_brief lines eq_codes join_lines
brief_split = refl

wrap_untrusted-forges_example :
    (split_lines [] false (wrap_untrusted "r1" brief)
      ≡ opening "r1" ∷ (fenced_lines (lines brief) ++ closing "r1" ∷ []))
    × (any forges (fenced_lines (lines brief)) ≡ false)
unfolding is_line_end
wrap_untrusted-forges_example = wrap_untrusted-forges "r1" brief refl

milestone_verdict_guard-pass_example :
    is_pass
      (milestone_verdict_guard
        ("INV-1" ∷ [])
        (("INV-1", "PASS") ∷ [])
        (synthesis "INV-1" "FAIL")).verdict
    ≡ (not (is_nil {A = String} ("INV-1" ∷ []))
        && (no_repeat (evaluated (model_criteria (synthesis "INV-1" "FAIL")))
            && all
                (accepted (("INV-1", "PASS") ∷ []) (model_criteria (synthesis "INV-1" "FAIL")))
                ("INV-1" ∷ [])))
milestone_verdict_guard-pass_example =
    milestone_verdict_guard-pass ("INV-1" ∷ []) (("INV-1", "PASS") ∷ []) (synthesis "INV-1" "FAIL")

milestone_verdict_guard-fail_example :
    is_fail
      (milestone_verdict_guard
        ("INV-1" ∷ [])
        (("INV-1", "FAIL") ∷ [])
        (synthesis "INV-1" "PASS")).verdict
    ≡ any (λ cid. g1_status (("INV-1", "FAIL") ∷ []) cid == "FAIL") ("INV-1" ∷ [])
milestone_verdict_guard-fail_example =
    milestone_verdict_guard-fail ("INV-1" ∷ []) (("INV-1", "FAIL") ∷ []) (synthesis "INV-1" "PASS")

parse_acceptance_ids-tags_example :
    ((codes "A1" ∷ codes "A-2" ∷ []) ≡ tags (lines task))
    × (fresh_onto [] (codes "A1" ∷ codes "A-2" ∷ []) ≡ true)
parse_acceptance_ids-tags_example =
    parse_acceptance_ids-tags task (codes "A1" ∷ codes "A-2" ∷ []) task_ids
