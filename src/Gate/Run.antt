-- ===== src/Gate/Run.antt =====
-- `main` of scripts/check_evidence_records.py from the records on: the judgement of each required
-- claim and the verdict of the run.
use fv.Prelude.{
  ℕ, String, ◌<>◌, Bool, true, false, ◌&&◌, not, Option, none, some, List, [], ◌∷◌, ◌++◌, ◌==◌,
  if◌then◌else◌, is_nil, any, map, concat_map, dedup, contains,
}
use fv.Prelude.Errors.{Result, ok, ◌>>=◌}
use fv.Json.{Value, Fields, get, truthy}
use fv.Text.{sorted}
use fv.Gate.Schema.{Defect, Runtime, Repo, TypeError}
use fv.Gate.Fields.{is_text}
use fv.Gate.Artifact.{text_of}
use fv.Gate.Cohort.{fields_of}
use fv.Gate.Record.{Expectations, validate_record}
use fv.Gate.Sharing.{
  Index, Source, find_record, index_records, bindings_of, cited_artifact_index,
  shared_artifact_defects, assumed_evidence,
}

-- `per_claim[…]["status"]`
pub data Status : Type 0 where
  passed passed_waived failed incomplete missing_record duplicate_record : Status
  invalid : List Defect → Status
  unwaived_assumption : List Source → Status

-- What a run of the gate is given, beside the records and the required claims.
pub record Run : Type 0 where
  pub repo : Repo
  pub snapshot : Option String
  pub intent : Option String
  pub manifest : Option String
  pub snapshot_exact : Bool
  pub intent_path : Option String
  pub required_targets : Option (List String)
  pub kinds : List (String × String)
  pub evidence : List (String × List String)
  -- `recomputed`, `pinned` or `unbound`.
  pub binding : String

abbrev pub lookup {ℓ} : {A : Type ℓ} → String → List (String × A) → Option A
lookup k [] = none
lookup k ((j, v) ∷ rest) = if j == k then some v else lookup k rest

abbrev pub or_nil {ℓ} : {A : Type ℓ} → Option (List A) → List A
or_nil none = []
or_nil (some xs) = xs

-- The arguments of `validate_record` for one claim.
abbrev pub expectations : Run → String → Expectations
expectations run cid = record {
  snapshot = run.snapshot;
  intent = run.intent;
  manifest = run.manifest;
  snapshot_exact = run.snapshot_exact;
  repo = some run.repo;
  obligation_kind = lookup cid run.kinds;
  required_evidence = or_nil (lookup cid run.evidence);
  intent_path = run.intent_path;
  required_targets = run.required_targets;
}

-- The status of a record without defects.
unfoldable pub sound_status : Fields → Status
sound_status r =
    if is_text "FAIL" (get "result" r)
    then failed
    else if is_text "INCOMPLETE" (get "result" r)
    then incomplete
    else if not (is_nil (assumed_evidence r)) && not (truthy (get "waiver" r))
    then unwaived_assumption (assumed_evidence r)
    else if truthy (get "waiver" r)
    then passed_waived
    else passed

-- The body of the loop over the required claims.
unfoldable pub judge_claim :
    Runtime → Run → Index → List (String × String) → String → Result TypeError Status
judge_claim rt run ix cited cid = elim (contains ix.duplicates cid) [
  | true ↦ ok duplicate_record
  | false ↦ elim (find_record cid ix.by_claim) [
    | none ↦ ok missing_record
    | some v ↦ do
      defects ← validate_record rt (expectations run cid) v
      let found = defects ++ shared_artifact_defects cid v cited
      ok (if is_nil found then sound_status (fields_of v) else invalid found)
  ]
]

unfoldable pub judge_claims :
    Runtime
    → Run
    → Index
    → List (String × String)
    → List String
    → Result TypeError (List (String × Status))
judge_claims rt run ix cited [] = ok []
judge_claims rt run ix cited (cid ∷ rest) = do
  status ← judge_claim rt run ix cited cid
  others ← judge_claims rt run ix cited rest
  ok ((cid, status) ∷ others)

pub data Verdict : Type 0 where
  failed_run incomplete_run : Verdict
  -- The profiles, the binding and the waived claims.
  verified : List String → String → List String → Verdict

abbrev pub is_failed : Status → Bool
is_failed failed = true
is_failed _ = false

abbrev pub is_passed : Status → Bool
is_passed passed = true
is_passed passed_waived = true
is_passed _ = false

abbrev pub is_waived : Status → Bool
is_waived passed_waived = true
is_waived _ = false

-- An entry that puts a line on the list `incomplete`.
abbrev pub is_incomplete : Status → Bool
is_incomplete s = not (is_failed s) && not (is_passed s)

abbrev pub profile_of : List (String × Value) → String → String
profile_of by_claim cid = elim (find_record cid by_claim) [
  | none ↦ ""
  | some v ↦ elim (bindings_of v) [ none ↦ "" | some b ↦ text_of (get "profile" b) ]
]

abbrev pub waived_claims : List (String × Status) → List String
waived_claims entries = concat_map (λ (cid, s). if is_waived s then cid ∷ [] else []) entries

unfoldable pub verdict : Run → Index → List (String × Status) → Verdict
verdict run ix entries =
    if any (λ (cid, s). is_failed s) entries
    then failed_run
    else if is_nil entries
    then incomplete_run
    else if any (λ (cid, s). is_incomplete s) entries
    then incomplete_run
    else verified (sorted (dedup (map (λ (cid, s). profile_of ix.by_claim cid) entries)))
        run.binding (sorted (waived_claims entries))

-- The exit status.
abbrev pub exit_code : Verdict → ℕ
exit_code failed_run = 1
exit_code incomplete_run = 3
exit_code (verified profiles binding waived) = 0

abbrev pub join : String → List String → String
join sep [] = ""
join sep (s ∷ []) = s
join sep (s ∷ t ∷ ts) = s <> (sep <> join sep (t ∷ ts))

-- The text of the verdict. An unqualified scope means that the gate recomputed both bindings.
unfoldable pub verdict_text : Verdict → String
verdict_text failed_run = "FAILED"
verdict_text incomplete_run = "INCOMPLETE"
verdict_text (verified profiles binding waived) =
    "VERIFIED[profile="
    <> (join "/" profiles
        <> ((if binding == "recomputed" then "" else "; binding=" <> binding)
            <> ("]" <> (if is_nil waived then "" else " (waived: " <> (join "," waived <> ")")))))

-- The judged claims are the required ones, sorted and each once.
unfoldable pub gate :
    Runtime → Run → List Value → List String → Result TypeError (List (String × Status) × Verdict)
gate rt run records required_claims = do
  let required = sorted (dedup required_claims)
  let ix = index_records records
  entries ← judge_claims rt run ix (cited_artifact_index required ix.by_claim) required
  ok (entries, verdict run ix entries)
