-- ===== src/Agreement/Claim.antt =====
-- One claim: where the gate's status is a PASS the row of the dashboard PASSes.
use fv.Prelude.{
  String, true, false, Option, some, List, [], ◌∷◌, ◌++◌, ◌≡◌, refl, sym, ap, ◌∙◌, arith,
  if◌then◌else◌, append-eq-nil, is_nil, Bool-cases, Option-cases, contains, inl, inr,
}
use fv.Prelude.Errors.{ok, ◌>>=◌, >>=-eq-ok, ok-injective}
use fv.Json.{Value}
use fv.Gate.Schema.{Defect, Runtime, Repo}
use fv.Gate.Cohort.{fields_of}
use fv.Gate.Record.{Expectations, validate_record}
use fv.Gate.Sharing.{Index, find_record, shared_artifact_defects}
use fv.Gate.Run.{
  Run, Status, invalid, sound_status, judge_claim, expectations, is_passed, lookup, or_nil,
}
use fv.Dashboard.Claim as View
use fv.Dashboard.Claim.{
  Row, Inputs, SystemClaim, view, record_status, record_row, with_cohort, with_evidence, finish_row,
  evaluate_claim, is_system_claim,
}
use fv.Dashboard.Coverage.{executions_of, non_passing_executions, cohort_coverage}
use fv.Gate.Accepted.{Accepted, accepted}
use fv.Agreement.Record.{view_of, judge_record-validate_record}
use fv.Agreement.Sound.{
  SoundPass, sound_pass, assumed_lem, executions_of_lem, no_failing_slot, no_evidence_gap,
}

-- The two programs are given the same manifest.
pub record Matched (run : Run) (inputs : Inputs) : Type 0 where
  pub kinds : inputs.kinds ≡ run.kinds
  pub targets : inputs.required_targets ≡ run.required_targets
  pub manifest : inputs.manifest ≡ run.manifest
  pub evidence :
      (cid : String) (spec : SystemClaim)
      → lookup cid inputs.system_claims ≡ some spec
      → or_nil (lookup cid run.evidence) ≡ spec.required_evidence

-- A claim that PASSes at the gate: its only record, accepted, with no artifact shared.
pub record ClaimPasses (rt : Runtime) (run : Run) (ix : Index) (cited : List (String × String))
    (cid : String) : Type 0 where
  pub single : contains ix.duplicates cid ≡ false
  pub value : Value
  pub found : find_record cid ix.by_claim ≡ some value
  pub valid : validate_record rt (expectations run cid) value ≡ ok []
  pub unshared : shared_artifact_defects cid value cited ≡ []
  pub sound : is_passed (sound_status (fields_of value)) ≡ true

if_valid_parts :
    (d : List Defect) (s : Status)
    → is_passed (if is_nil d then s else invalid d) ≡ true
    → (d ≡ []) × (is_passed s ≡ true)
if_valid_parts [] s h = (refl, h)
if_valid_parts (x ∷ d) s h = absurd (cc)

not_passed : {s t : Status} → is_passed t ≡ false → t ≡ s → ¬ (is_passed s ≡ true)
not_passed {s} {t} h e pass = cc

module _ (rt : Runtime) (run : Run) (ix : Index) (cited : List (String × String))
    (cid : String) where
  recorded_passes :
      (v : Value) {s : Status}
      → contains ix.duplicates cid ≡ false
      → find_record cid ix.by_claim ≡ some v
      → (validate_record rt (expectations run cid) v >>= λ defects. ok (
          if is_nil (defects ++ shared_artifact_defects cid v cited)
          then sound_status (fields_of v)
          else invalid (defects ++ shared_artifact_defects cid v cited)))
        ≡ ok s
      → is_passed s ≡ true
      → ClaimPasses rt run ix cited cid
  recorded_passes v single found h pass =
      let (defects, q, h1) = >>=-eq-ok (validate_record rt (expectations run cid) v) _ h in
      let (clean, sound) =
        if_valid_parts (defects ++ shared_artifact_defects cid v cited) (sound_status (fields_of v))
          (ap is_passed (ok-injective h1) ∙ pass) in
      let (valid, unshared) = append-eq-nil defects (shared_artifact_defects cid v cited) clean in
      record {
        single = single;
        value = v;
        found = found;
        valid = q ∙ ap ok valid;
        unshared = unshared;
        sound = sound;
      }

  pub claim_passes :
      {s : Status}
      → judge_claim rt run ix cited cid ≡ ok s
      → is_passed s ≡ true
      → ClaimPasses rt run ix cited cid
  unfolding judge_claim
  claim_passes h pass = elim (Bool-cases (contains ix.duplicates cid)) [
    | inl twice ↦ absurd (not_passed refl (ok-injective (rw (twice, judge_claim) at h)) pass)
    | inr single ↦ elim (Option-cases (find_record cid ix.by_claim)) [
      | inl absent ↦
          absurd (not_passed refl (ok-injective (rw (single, absent, judge_claim) at h)) pass)
      | inr (v, found) ↦ recorded_passes v single found (rw (single, found, judge_claim) at h) pass
    ]
  ]

module _ (inputs : Inputs) (cid : String) (row : Row) (passes : row.status ≡ View.passed)
    (whole : non_passing_executions row.executions ≡ []) where
  with_cohort_passes : (kind : Option String) → (with_cohort kind row).status ≡ View.passed
  unfolding with_cohort
  with_cohort_passes kind = rw (whole, passes) refl

  with_evidence_passes :
      (kind : Option String) (spec : SystemClaim)
      → (cohort_coverage spec.required_evidence row.executions).1 ≡ []
      → (with_evidence (some spec) (with_cohort kind row)).status ≡ View.passed
  unfolding with_evidence with_cohort
  with_evidence_passes kind spec covered = rw (covered, whole, passes) refl

  finish_row_passes :
      ((spec : SystemClaim)
        → lookup cid inputs.system_claims ≡ some spec
        → (cohort_coverage spec.required_evidence row.executions).1 ≡ [])
      → (finish_row inputs cid row).status ≡ View.passed
  unfolding finish_row with_evidence
  finish_row_passes covered =
      let kind = lookup cid inputs.kinds in
      elim (Bool-cases (is_system_claim kind)) [
        | inr plain ↦ rw (plain, finish_row) (with_cohort_passes kind)
        | inl system ↦ elim (Option-cases (lookup cid inputs.system_claims)) [
          | inl undeclared ↦ rw (system, undeclared, finish_row) (with_cohort_passes kind)
          | inr (spec, declared) ↦
              rw (system, declared, finish_row)
                (with_evidence_passes kind spec (covered spec declared))
        ]
      ]

module _ (rt : Runtime) (e : Expectations) (repo : Repo) (rooted : e.repo ≡ some repo) (v : Value)
    (a : Accepted rt e v) (s : SoundPass a.fields) where
  record_status_lem : View.record_status a.fields (executions_of v) ≡ View.passed
  unfolding View.record_status
  record_status_lem =
      rw
        (
          a.is_record,
          executions_of_lem a.fields a.bindings a.has_bindings,
          s.not_fail,
          s.not_incomplete,
        )
        (elim s.excused [
          | inl unassumed ↦
              let (own, slots) = assumed_lem a.fields a.bindings a.has_bindings unassumed in
              rw (own, slots) refl
          | inr waived ↦ rw waived (ground arith)
        ])

  non_passing_lem : non_passing_executions (executions_of v) ≡ []
  non_passing_lem =
      rw (a.is_record, executions_of_lem a.fields a.bindings a.has_bindings)
        (no_failing_slot rt e repo rooted v a s.result)

  gaps_lem : (cohort_coverage e.required_evidence (executions_of v)).1 ≡ []
  gaps_lem =
      rw (a.is_record, executions_of_lem a.fields a.bindings a.has_bindings)
        (no_evidence_gap rt e repo rooted v a s.result)

  -- The finished row of the record PASSes, whatever its obligation's kind.
  pub finished_lem :
      (inputs : Inputs) (cid : String)
      → ((spec : SystemClaim)
          → lookup cid inputs.system_claims ≡ some spec
          → e.required_evidence ≡ spec.required_evidence)
      → (finish_row inputs cid (record_row cid v [])).status ≡ View.passed
  unfolding record_row
  finished_lem inputs cid same =
      finish_row_passes inputs cid (record_row cid v []) row_passes row_whole
        (λ spec declared. row_covered spec (same spec declared))
    where
      fields_same : fields_of v ≡ a.fields
      fields_same = ap fields_of a.is_record

      row_passes : (record_row cid v []).status ≡ View.passed
      row_passes = ap (λ r. View.record_status r (executions_of v)) fields_same ∙ record_status_lem

      row_whole : non_passing_executions (record_row cid v []).executions ≡ []
      row_whole = non_passing_lem

      row_covered :
          (spec : SystemClaim)
          → e.required_evidence ≡ spec.required_evidence
          → (cohort_coverage spec.required_evidence (record_row cid v []).executions).1 ≡ []
      row_covered spec q = rw q at gaps_lem

view_lem :
    (run : Run) (inputs : Inputs) (cid : String)
    → Matched run inputs
    → view inputs cid ≡ view_of (expectations run cid)
view_lem run inputs cid m = λ i. record {
  obligation_kind = lookup cid (m.kinds i);
  required_targets = m.targets i;
  manifest = m.manifest i;
}

-- Where the gate's status of a claim is a PASS, the dashboard evaluates it to a row that PASSes,
-- if both were given the same manifest and the dashboard's index of artifacts shares no more.
pub evaluate_claim-judge_claim :
    (rt : Runtime) (run : Run) (inputs : Inputs) (ix : Index)
    (cited cited' : List (String × String)) (cid : String) {s : Status}
    → Matched run inputs
    → ((v : Value)
        → shared_artifact_defects cid v cited ≡ []
        → shared_artifact_defects cid v cited' ≡ [])
    → judge_claim rt run ix cited cid ≡ ok s
    → is_passed s ≡ true
    → (row : Row) × (evaluate_claim rt inputs ix cited' cid ≡ ok row) × (row.status ≡ View.passed)
unfolding evaluate_claim
evaluate_claim-judge_claim rt run inputs ix cited cited' cid m fewer h pass =
    let p = claim_passes rt run ix cited cid h pass in
    let e = expectations run cid in
    let a = accepted rt e p.value p.valid in
    let s =
      sound_pass a.fields a.judged
        (ap (λ r. is_passed (sound_status r)) (sym (ap fields_of a.is_record)) ∙ p.sound) in
    let judged = judge_record-validate_record rt run.repo e refl p.value p.valid in
    (
      finish_row inputs cid (record_row cid p.value []),
      rw
          (
            p.single,
            p.found,
            evaluate_claim,
            view_lem run inputs cid m,
            judged,
            fewer p.value p.unshared,
          )
          refl,
      finished_lem rt e run.repo refl p.value a s inputs cid
          (λ spec declared. m.evidence cid spec declared),
    )
