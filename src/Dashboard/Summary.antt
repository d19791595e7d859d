-- ===== src/Dashboard/Summary.antt =====
-- The counts of `summarize` of scripts/coverage_dashboard.py: of the rows by status and by kind of
-- obligation.
use fv.Prelude.{ℕ, suc, String, Option, none, some, List, [], ◌∷◌, ◌==◌, if◌then◌else◌}
use fv.Dashboard.Claim.{
  Status, passed, failed, incomplete, missing_record, duplicate_record, invalid,
  unwaived_assumption, evidence_gap, dependency_gap, Row, is_passed,
}
use fv.Dashboard.Run.{is_failed}

-- `counts`
pub record Counts : Type 0 where
  pub pass : ℕ
  pub fail : ℕ
  pub incomplete : ℕ
  pub missing : ℕ
  pub duplicate : ℕ
  pub invalid : ℕ
  pub unwaived_assumption : ℕ
  pub evidence_gap : ℕ
  pub dependency_gap : ℕ

-- `counts[status_key[row["status"]]] += 1`
unfoldable pub add_status : Status → Counts → Counts
add_status passed c = record c { pass = suc c.pass }
add_status failed c = record c { fail = suc c.fail }
add_status incomplete c = record c { incomplete = suc c.incomplete }
add_status missing_record c = record c { missing = suc c.missing }
add_status duplicate_record c = record c { duplicate = suc c.duplicate }
add_status invalid c = record c { invalid = suc c.invalid }
add_status unwaived_assumption c = record c { unwaived_assumption = suc c.unwaived_assumption }
add_status evidence_gap c = record c { evidence_gap = suc c.evidence_gap }
add_status dependency_gap c = record c { dependency_gap = suc c.dependency_gap }

-- A value of `by_kind`.
pub record Bucket : Type 0 where
  pub pass : ℕ
  pub fail : ℕ
  pub gap : ℕ

unfoldable pub add_row : Status → Bucket → Bucket
add_row s b =
    if is_passed s
    then record b { pass = suc b.pass }
    else if is_failed s
    then record b { fail = suc b.fail }
    else record b { gap = suc b.gap }

-- `row.get("obligation_kind") or "unknown"`
abbrev pub kind_of : Option String → String
kind_of none = "unknown"
kind_of (some k) = if k == "" then "unknown" else k

-- `by_kind.setdefault(…)` and the count in the bucket that it returns.
unfoldable pub add_kind : String → Status → List (String × Bucket) → List (String × Bucket)
add_kind kind s [] = (kind, add_row s (record { pass = 0; fail = 0; gap = 0 })) ∷ []
add_kind kind s ((k, b) ∷ rest) =
    let others = add_kind kind s rest in
    if k == kind then (k, add_row s b) ∷ rest else (k, b) ∷ others

pub record Summary : Type 0 where
  pub counts : Counts
  pub by_kind : List (String × Bucket)

-- The loop over the rows.
unfoldable pub summarize_from : Summary → List Row → Summary
summarize_from m [] = m
summarize_from m (row ∷ rows) =
    summarize_from
      (record {
        counts = add_status row.status m.counts;
        by_kind = add_kind (kind_of row.obligation_kind) row.status m.by_kind;
      })
      rows

abbrev pub no_counts : Counts
no_counts = record {
  pass = 0;
  fail = 0;
  incomplete = 0;
  missing = 0;
  duplicate = 0;
  invalid = 0;
  unwaived_assumption = 0;
  evidence_gap = 0;
  dependency_gap = 0;
}

-- `summarize`, from `counts` and `by_obligation_kind`.
unfoldable pub summarize : List Row → Summary
summarize rows = summarize_from (record { counts = no_counts; by_kind = [] }) rows
