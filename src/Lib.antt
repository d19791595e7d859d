-- ===== src/Lib.antt =====
-- The two programs that judge execution evidence, scripts/check_evidence_records.py (Gate B) and
-- scripts/coverage_dashboard.py, the headless runner
-- scripts/pyramid_run.py, the contract of the panels skills/fv-panel/panel_contract.py, and the
-- conformance bridge scripts/itf_replay.py.
--
-- Both read evidence records, JSON objects that say of a claim which command ran on which sources
-- and with what result, and a manifest of obligations: invariants, witnesses and system claims. The
-- gate validates each record against the repository, judges the required claims and ends with a
-- verdict and an exit status (0 VERIFIED, 1 FAILED, 3 INCOMPLETE). The dashboard shows the same
-- judgement without reading the repository: it imports the gate's constants and text rules, has
-- rules of its own on executions, and adds gaps of coverage between tools and between claims.
--
-- The runner executes the layers of verification of a crate, its own commands or those of a plan of
-- the project, and ends with a verdict over the required layers (0 VERIFIED, 1 FAILED, 2 ERROR,
-- 3 INCOMPLETE).
--
-- The panels let models adjudicate a milestone over texts that are not trusted; the contract fences
-- these texts, and lets a milestone pass only on statuses that the gate gives.
--
-- The conformance bridge replays the states of a trace against an adapter, a program that answers
-- each line with a line of its own, and reports the first step that differs.
--
-- Prelude      names of the libraries, Boolean tests, lists of texts, computations that raise.
-- Json         the values of json.loads and Python's questions about them: truth, dict.get, ==. A
--              finite float is a fraction with a power of two below; NaN and infinities are left
--              out.
-- Text         the identifier patterns of the gate as automata on code points, str.strip,
--              str.splitlines, the substring tests, and sorted on texts.
-- Gate         check_evidence_records.py:
--   Schema       its constants, the messages as a data type of defects, and the parameters: what
--                json.loads and the digits of re give, and what paths and files the repository has
--   Fields       the rules that read record text alone
--   Artifact     _contained_path_defect, _read_artifact, _pass_artifact_defects
--   Execution    _execution_defects; the two sets of _Cohort are passed from one execution on
--   Cohort       _cohort_defects, _coverage_defects
--   Record       validate_record; a set lookup of an array or an object raises TypeError
--   Sharing      the index of main, cited_artifact_index, shared_artifact_defects,
--                _assumed_evidence
--   Run          the loop of main over the claims, the verdict and its text
--   Manifest     load_manifest, and the expansion of the required claims in main
--   Accepted, Entry, Backing, Distinct, Closure, Declared, Indexed, Verdict, Unhashable: lemmas
-- Dashboard    coverage_dashboard.py:
--   Execution    _execution_defects, _derivation_defects
--   Record       validate_record
--   Coverage     executions_of, non_passing_executions, cohort_coverage
--   Claim        evaluate_claim
--   Manifest     _id_list, load_manifest: read_ids, read_manifest
--   Run          apply_dependency_coverage, compute_verdict, build_dashboard
--   Summary      summarize: the counts by status and by kind of obligation
--   Gaps, Dependencies, Totals: lemmas
-- Pyramid      scripts/pyramid_run.py:
--   Order        PROFILES, plan_layer_order, the required layers of main, aggregate_verdict
--   Plan         parse_plan, _plan_execution, _plan_cwd, _plan_env
--   Machine      run_cmd and what a run meets: commands, tools, files
--   Floors       modules_below_bar, fuzz_surface_check, floors_layer
--   Layers       the closures of main and the layers one after the other
--   Run          the choice of the plan, the verdict and the exit status of main
--   Support      the commands that a passed layer rests on
--   Effects, Baseline, Trail, Course: what each layer does to the state; Surfaces, Required,
--                Verified, Complete, Blocked, Parsed: lemmas
-- Panel        skills/fv-panel/panel_contract.py:
--   Untrusted    wrap_untrusted, split_brief, parse_acceptance_ids
--   Guard        milestone_verdict_guard
--   Backed       the statuses that gate_b_status takes from the gate's report
--   Fenced, Milestone, Criteria: lemmas
-- Replay       scripts/itf_replay.py: decode_itf_value, encode_value
--   Lines        parse_state_line and the line of bindings
--   Steps        replay_trace
--   Parsed, Conformant: lemmas
-- Recall       scripts/recall_score.py: matches, score
--   BlindSpot, Union: lemmas
-- Agreement    what the gate accepts the dashboard accepts: Execution, Cohort, Record, Claim, Run for
--              records, Manifest, Loaders, Obligations for manifests, Whole for both; Verified, Apart
--              and Scope are about the gate's verdict.
-- Tests        concrete values, runs on them, and each theorem at a concrete input.
--
-- The programs mutate sets, dictionaries and rows in loops; here each loop is a recursion that
-- passes them on. Every loop runs over a list that is given, so there is no fuel. What a command of
-- the runner does is a parameter, a function of the commands before it and of the command. The dictionary of
-- records and the index of artifacts are association lists. A text of an error message is a
-- constructor with the values that the message shows.
--
-- Not modelled: reading files and the command line, the recomputation of the source snapshot and
-- of the intent (a run is given their values), the hint in the message on a stale snapshot, the
-- stores of version 4 (scripts/fv_evidence_v4.py), the dashboard's counts by evidence class and its
-- rendering, the reading of .fv/floors.json and the patterns that count tests (the runner is given
-- their results), the archive of gate_b_status, the prompts and schemas of the panels, the process
-- of an adapter (it is given by the lines that it prints), a child of the runner whose output is
-- no text (the runner ends with a traceback there), the scores of a single voice, and the
-- other scripts, most of which run tools or write files.
pub mod Prelude
pub mod Json
pub mod Text
pub mod Gate
pub mod Dashboard
pub mod Panel
pub mod Pyramid
pub mod Recall
pub mod Replay
pub mod Agreement
pub mod Tests
