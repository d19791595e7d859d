-- ===== src/Dashboard/Totals.antt =====
-- The counts of `summarize` add up.
use fv.Prelude.{
  ℕ, suc, ◌+◌, String, List, [], ◌∷◌, ◌≡◌, refl, sym, ◌∙◌, arith, length, if◌then◌else◌,
}
use fv.Dashboard.Claim.{Status, Row, is_passed}
use fv.Dashboard.Run.{is_failed}
use fv.Dashboard.Summary.{
  Counts, add_status, Bucket, add_row, kind_of, add_kind, Summary, summarize_from, no_counts,
  summarize,
}

-- The rows that neither PASS nor FAIL.
abbrev pub gaps_of : Counts → ℕ
gaps_of c =
    c.incomplete
    + (c.missing
        + (c.duplicate
            + (c.invalid + (c.unwaived_assumption + (c.evidence_gap + c.dependency_gap)))))

abbrev pub sum_of : (Bucket → ℕ) → List (String × Bucket) → ℕ
sum_of f [] = 0
sum_of f ((k, b) ∷ rest) = f b + sum_of f rest

-- The buckets of the kinds hold what the counts hold.
record Even (m : Summary) : Type 0 where
  passes : sum_of (λ b. b.pass) m.by_kind ≡ m.counts.pass
  fails : sum_of (λ b. b.fail) m.by_kind ≡ m.counts.fail
  gaps : sum_of (λ b. b.gap) m.by_kind ≡ gaps_of m.counts

sum_pass :
    (kind : String) (s : Status) (bs : List (String × Bucket))
    → sum_of (λ b. b.pass) (add_kind kind s bs)
      ≡ (if is_passed s then 1 else 0) + sum_of (λ b. b.pass) bs
unfolding add_kind add_row
sum_pass kind s [] = ground arith
sum_pass kind s ((k, b) ∷ rest) = ground (arith, sum_pass kind s rest)

sum_fail :
    (kind : String) (s : Status) (bs : List (String × Bucket))
    → sum_of (λ b. b.fail) (add_kind kind s bs)
      ≡ (if is_failed s then 1 else 0) + sum_of (λ b. b.fail) bs
unfolding add_kind add_row
sum_fail kind s [] = ground arith
sum_fail kind s ((k, b) ∷ rest) = ground (arith, sum_fail kind s rest)

sum_gap :
    (kind : String) (s : Status) (bs : List (String × Bucket))
    → sum_of (λ b. b.gap) (add_kind kind s bs)
      ≡ (if is_passed s then 0 else if is_failed s then 0 else 1) + sum_of (λ b. b.gap) bs
unfolding add_kind add_row
sum_gap kind s [] = ground arith
sum_gap kind s ((k, b) ∷ rest) = ground (arith, sum_gap kind s rest)

status_counted :
    (s : Status) (c : Counts)
    → ((add_status s c).pass ≡ (if is_passed s then 1 else 0) + c.pass)
      × ((add_status s c).fail ≡ (if is_failed s then 1 else 0) + c.fail)
      × (gaps_of (add_status s c)
          ≡ (if is_passed s then 0 else if is_failed s then 0 else 1) + gaps_of c)
unfolding add_status
status_counted s c = (ground arith, ground arith, ground arith)

abbrev pub total : Counts → ℕ
total c = c.pass + (c.fail + gaps_of c)

counted : (s : Status) (c : Counts) → total (add_status s c) ≡ suc (total c)
counted s c =
    let (passes, fails, gaps) = status_counted s c in rw (passes, fails, gaps) (ground arith)

summed :
    (rows : List Row) (m : Summary)
    → total (summarize_from m rows).counts ≡ total m.counts + length rows
unfolding summarize_from
summed [] m = omega arith
summed (row ∷ rows) m =
    let rest = summed rows (record {
      counts = add_status row.status m.counts;
      by_kind = add_kind (kind_of row.obligation_kind) row.status m.by_kind;
    }) in
    rest ∙ rw (counted row.status m.counts) (omega arith)

evened : (rows : List Row) (m : Summary) → Even m → Even (summarize_from m rows)
unfolding summarize_from
evened [] m e = e
evened (row ∷ rows) m e =
    let (passes, fails, gaps) = status_counted row.status m.counts in
    let kind = kind_of row.obligation_kind in
    evened rows
      (record {
        counts = add_status row.status m.counts;
        by_kind = add_kind kind row.status m.by_kind;
      })
      (record {
        passes = sum_pass kind row.status m.by_kind ∙ rw e.passes (sym passes);
        fails = sum_fail kind row.status m.by_kind ∙ rw e.fails (sym fails);
        gaps = sum_gap kind row.status m.by_kind ∙ rw e.gaps (sym gaps);
      })

-- For every list of rows, the counts by status add up to the number of rows, and the counts by kind
-- of obligation add up to them: the passes and the fails of all kinds to those of the run, and their
-- gaps to the rows of the seven other statuses.
pub summarize-total :
    (rows : List Row)
    → (total (summarize rows).counts ≡ length rows)
      × (sum_of (λ b. b.pass) (summarize rows).by_kind ≡ (summarize rows).counts.pass)
      × (sum_of (λ b. b.fail) (summarize rows).by_kind ≡ (summarize rows).counts.fail)
      × (sum_of (λ b. b.gap) (summarize rows).by_kind ≡ gaps_of (summarize rows).counts)
unfolding summarize
summarize-total rows =
    let start : Summary = record { counts = no_counts; by_kind = [] } in
    let even = evened rows start (record { passes = refl; fails = refl; gaps = refl }) in
    (summed rows start ∙ omega arith, even.passes, even.fails, even.gaps)
