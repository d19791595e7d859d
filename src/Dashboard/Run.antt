-- ===== src/Dashboard/Run.antt =====
-- `apply_dependency_coverage`, `compute_verdict` and `build_dashboard` of
-- scripts/coverage_dashboard.py.
use fv.Prelude.{
  ℕ, String, Bool, true, false, not, Option, none, some, List, [], ◌∷◌, ◌==◌, if◌then◌else◌, is_nil,
  any, filter, map, concat_map, dedup,
}
use fv.Prelude.Errors.{Result, ok, ◌>>=◌}
use fv.Json.{Value}
use fv.Text.{sorted}
use fv.Gate.Schema.{Runtime, TypeError}
use fv.Gate.Sharing.{Index, index_records, cited_artifact_index}
use fv.Gate.Run.{or_nil, profile_of}
use fv.Dashboard.Claim.{
  Status, passed, failed, dependency_gap, Row, Inputs, is_passed, demote, is_system_claim,
  evaluate_claim,
}

unfoldable pub evaluate_claims :
    Runtime → Inputs → Index → List (String × String) → List String → Result TypeError (List Row)
evaluate_claims rt inputs ix cited [] = ok []
evaluate_claims rt inputs ix cited (cid ∷ rest) = do
  row ← evaluate_claim rt inputs ix cited cid
  rows ← evaluate_claims rt inputs ix cited rest
  ok (row ∷ rows)

-- `status_by_claim.get(claim)`: the last row of a claim counts.
abbrev pub status_of : String → List Row → Option Status
status_of cid [] = none
status_of cid (row ∷ rows) = elim (status_of cid rows) [
  | some s ↦ some s
  | none ↦ if row.claim_id == cid then some row.status else none
]

abbrev pub is_gap : Option Status → Bool
is_gap none = false
is_gap (some s) = not (is_passed s)

abbrev pub is_unevaluated : Option Status → Bool
is_unevaluated none = true
is_unevaluated (some s) = false

-- The loop's body, on the statuses from before the loop.
unfoldable pub cover_dependencies : List Row → Row → Row
cover_dependencies before row =
    let depends_on = or_nil row.depends_on in
    let gaps = filter (λ d. is_gap (status_of d before)) depends_on in
    if is_system_claim row.obligation_kind
    then record row {
      dependency_gaps = gaps;
      dependencies_not_evaluated = filter (λ d. is_unevaluated (status_of d before)) depends_on;
      status = demote (not (is_nil gaps)) dependency_gap row.status;
    }
    else row

-- `apply_dependency_coverage`
unfoldable pub apply_dependency_coverage : List Row → List Row
apply_dependency_coverage rows = map (cover_dependencies rows) rows

-- `status in GAP_STATUSES`
abbrev pub in_gap_statuses : Status → Bool
in_gap_statuses passed = false
in_gap_statuses failed = false
in_gap_statuses _ = true

abbrev pub is_failed : Status → Bool
is_failed failed = true
is_failed _ = false

pub data Verdict : Type 0 where
  failed_view incomplete_view : Verdict
  -- The profiles and the waived claims.
  covered : List String → List String → Verdict

abbrev pub waived_rows : List Row → List String
waived_rows rows = concat_map (λ row. if row.waived then row.claim_id ∷ [] else []) rows

-- `compute_verdict`
unfoldable pub compute_verdict : List Row → Index → List String → Verdict
compute_verdict rows ix required =
    if is_nil required
    then incomplete_view
    else if any (λ row. is_failed row.status) rows
    then failed_view
    else if any (λ row. in_gap_statuses row.status) rows
    then incomplete_view
    else covered (sorted (dedup (map (λ row. profile_of ix.by_claim row.claim_id) rows)))
        (sorted (waived_rows rows))

abbrev pub exit_code : Verdict → ℕ
exit_code failed_view = 1
exit_code incomplete_view = 3
exit_code (covered profiles waived) = 0

-- `build_dashboard`: the rows and the verdict.
unfoldable pub build_dashboard :
    Runtime → Inputs → List Value → List String → Result TypeError (List Row × Verdict)
build_dashboard rt inputs records required = do
  let ix = index_records records
  rows ← evaluate_claims rt inputs ix (cited_artifact_index required ix.by_claim) required
  let covered_rows = apply_dependency_coverage rows
  ok (covered_rows, compute_verdict covered_rows ix required)
