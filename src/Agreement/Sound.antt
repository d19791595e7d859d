-- ===== src/Agreement/Sound.antt =====
-- A record that the gate accepts and that PASSes: its result, its waiver, its executions and its
-- tools, as the dashboard reads them.
use fv.Gate.Artifact.{text_of}
use fv.Prelude.{
  ℕ, true, false, Option, some, List, [], ◌∷◌, ◌≡◌, refl, arith, append-eq-nil, is_nil, Bool-cases,
  Option-cases, concat_map, when, inl, inr, eq_iff, suc, is_nil-append, ◌⊎◌, when-eq-nil,
  nil_of_is_nil,
}
use fv.Prelude.Errors.{ok}
use fv.Json.{Value, Fields, get, has, as_obj, as_list, obj, truthy, str}
use fv.Gate.Schema.{Runtime, Repo, in_set, results}
use fv.Gate.Fields.{is_text, is_schema_v3}
use fv.Gate.Cohort.{cohort_context}
use fv.Gate.Execution.{nothing_seen}
use fv.Gate.Record.{Expectations}
use fv.Gate.Sharing.{
  assumed_evidence, execution_sources, is_assumed, execution_source, record_class,
}
use fv.Gate.Run.{sound_status, is_passed}
use fv.Dashboard.Claim as View
use fv.Dashboard.Claim.{
  Row, Inputs, SystemClaim, view, record_status, record_row, with_cohort, with_evidence, finish_row,
  evaluate_claim, assumed_slots, is_system_claim,
}
use fv.Dashboard.Coverage.{
  Slot, slots, executions_of, non_passing_executions, cohort_coverage, slot,
}
use fv.Gate.Accepted.{Accepted}
use fv.Agreement.Cohort.{cohort_clean, array_cases}
use fv.Agreement.Record.{cohort_passed}
use fv.Agreement.Passing.{slots_of, slots_found, executions_pass, coverage_lem}

-- The assumed executions of the view are those of the gate.
source-slot :
    (i : ℕ) (x : Value) → is_nil (View.assumed_slot (slot i x)) ≡ is_nil (execution_source i x)
source-slot i x = ground arith

sources-slots :
    (xs : List Value) (i : ℕ)
    → is_nil (concat_map View.assumed_slot (slots i xs)) ≡ is_nil (execution_sources i xs)
sources-slots [] i = refl
sources-slots (x ∷ xs) i =
    rw (is_nil-append, is_nil-append, source-slot i x, sources-slots xs (suc i)) refl

pub executions_of_lem :
    (r b : Fields) → as_obj (get "bindings" r) ≡ some b → executions_of (obj r) ≡ slots_of b
unfolding executions_of
executions_of_lem r b h = rw (h, executions_of) refl

listed-has :
    (b : Fields) {xs : List Value}
    → as_list (get "executions" b) ≡ some xs
    → has "executions" b ≡ true
unfolding get has
listed-has b h = ground arith

v3_of_list :
    (r b : Fields) {xs : List Value}
    → as_obj (get "bindings" r) ≡ some b
    → as_list (get "executions" b) ≡ some xs
    → is_schema_v3 (get "bindings" r) ≡ true
unfolding is_schema_v3
v3_of_list r b h listed = rw (h, is_schema_v3, listed-has b listed) (ground arith)

-- A record whose result is neither FAIL nor INCOMPLETE, and is of the set, PASSes.
result_passes :
    (v : Value)
    → in_set v results ≡ ok true
    → is_text "FAIL" v ≡ false
    → is_text "INCOMPLETE" v ≡ false
    → is_text "PASS" v ≡ true
unfolding in_set
result_passes (str s) h not_fail not_incomplete = ground (
  arith,
  eq_iff "PASS" s,
  eq_iff s "PASS",
  eq_iff "FAIL" s,
  eq_iff s "FAIL",
  eq_iff "INCOMPLETE" s,
  eq_iff s "INCOMPLETE",
)
result_passes _ h not_fail not_incomplete = ground arith

-- What a passing status says of the record.
pub record SoundPass (r : Fields) : Type 0 where
  pub result : is_text "PASS" (get "result" r) ≡ true
  pub excused : (is_nil (assumed_evidence r) ≡ true) ⊎ (truthy (get "waiver" r) ≡ true)
  pub not_fail : is_text "FAIL" (get "result" r) ≡ false
  pub not_incomplete : is_text "INCOMPLETE" (get "result" r) ≡ false

pub sound_pass :
    (r : Fields)
    → in_set (get "result" r) results ≡ ok true
    → is_passed (sound_status r) ≡ true
    → SoundPass r
unfolding sound_status
sound_pass r judged h =
    let fail : is_text "FAIL" (get "result" r) ≡ false = ground arith in
    let incomplete : is_text "INCOMPLETE" (get "result" r) ≡ false = ground arith in
    record {
      result = result_passes (get "result" r) judged fail incomplete;
      excused = ground arith;
      not_fail = fail;
      not_incomplete = incomplete;
    }

-- No assumed class in the record: none in its executions, and not its own.
pub assumed_lem :
    (r b : Fields)
    → as_obj (get "bindings" r) ≡ some b
    → is_nil (assumed_evidence r) ≡ true
    → (is_assumed (get "evidence_class" r) ≡ false) × (is_nil (assumed_slots (slots_of b)) ≡ true)
unfolding assumed_evidence
assumed_lem r b h empty =
    let (own, rest) =
      append-eq-nil
        (when (is_assumed (get "evidence_class" r))
          (record_class (text_of (get "evidence_class" r))))
        _ (nil_of_is_nil _ empty) in
    (
      when-eq-nil (is_assumed (get "evidence_class" r)) _ own,
      (elim (Option-cases (as_list (get "executions" b))) [
        | inl absent ↦ rw (absent, slots_of) refl
        | inr (xs, found) ↦
            let listed : execution_sources 0 xs ≡ [] = rw (h, found) at rest in
            rw (slots_found b xs found, sources-slots xs 0, listed) refl
      ]),
    )

no_tools : (cohort : Option (List Slot)) → (cohort_coverage [] cohort).1 ≡ []
unfolding cohort_coverage
no_tools cohort = refl

module _ (rt : Runtime) (e : Expectations) (repo : Repo) (rooted : e.repo ≡ some repo) (v : Value)
    (a : Accepted rt e v) (pass : is_text "PASS" (get "result" a.fields) ≡ true) where
  pub no_failing_slot : non_passing_executions (slots_of a.bindings) ≡ []
  unfolding non_passing_executions
  no_failing_slot = elim (array_cases (as_list (get "executions" a.bindings))) [
    | inl absent ↦ rw (absent, slots_of) refl
    | inr (inl empty) ↦ rw (slots_found a.bindings [] empty) refl
    | inr (inr (x, xs, found)) ↦
        let v3 = v3_of_list a.fields a.bindings a.has_bindings found in
        let c =
          cohort_context (get "claim_id" a.fields) (get "result" a.fields) a.bindings
            e.obligation_kind in
        let passed =
          cohort_passed rt repo e rooted a.fields a.bindings (rw v3 at a.bound.repository) in
        let each = (cohort_clean rt repo c a.bindings x xs found passed).0 in
        rw
          (
            slots_found a.bindings (x ∷ xs) found,
            executions_pass rt repo c pass (x ∷ xs) 0 0 nothing_seen each,
          )
          refl
  ]

  -- The tools that the expectations require leave no gap.
  pub no_evidence_gap : (cohort_coverage e.required_evidence (slots_of a.bindings)).1 ≡ []
  no_evidence_gap = elim (Bool-cases (is_nil e.required_evidence)) [
    | inl none_required ↦ rw (nil_of_is_nil _ none_required) (no_tools (slots_of a.bindings))
    | inr some_required ↦
        coverage_lem a.bindings e.required_evidence (rw (pass, some_required) at a.bound.coverage)
  ]
