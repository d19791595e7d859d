-- ===== src/Dashboard/Gaps.antt =====
-- Which tools `cohort_coverage` reports as gaps.
use fv.Prelude.{
  contains-filter, String, false, ◌&&◌, not, Option, none, some, List, [], ◌∷◌, ◌==◌, ◌≡◌, refl,
  arith, is_nil, any, contains, Bool-cases, inl, inr, if◌then◌else◌,
}
use fv.Dashboard.Coverage.{
  Slot, is_pass, observed, first_result, coverage_of, cohort_slots, cohort_coverage,
}

first_result-any :
    (rs : List (Option String)) → any is_pass rs ≡ false → (first_result rs == "PASS") ≡ false
first_result-any [] h = refl
first_result-any (none ∷ rs) h = first_result-any rs h
first_result-any (some r ∷ rs) h = ground (arith, first_result-any rs)

coverage_of_lem :
    (t : String) (ss : List Slot) → (coverage_of t ss == "PASS") ≡ any is_pass (observed t ss)
unfolding coverage_of
coverage_of_lem t ss = coverage_result (observed t ss)
  where
    coverage_result :
        (rs : List (Option String))
        → ((if is_nil rs
              then "no-execution"
              else if any is_pass rs
              then "PASS"
              else first_result rs)
            == "PASS")
          ≡ any is_pass rs
    coverage_result [] = refl
    coverage_result (r ∷ rs) = elim (Bool-cases (any is_pass (r ∷ rs))) [
      | inl found ↦ rw found refl
      | inr absent ↦ rw (absent, first_result-any (r ∷ rs) absent) refl
    ]

-- A tool is among the gaps of a cohort if and only if it is required and none of the cohort's
-- executions of that tool has the result PASS, whether the cohort has other executions of it, none
-- at all, or is no cohort.
pub cohort_coverage-gaps :
    (required_evidence : List String) (cohort : Option (List Slot)) (t : String)
    → contains (cohort_coverage required_evidence cohort).1 t
      ≡ (contains required_evidence t && not (any is_pass (observed t (cohort_slots cohort))))
unfolding cohort_coverage
cohort_coverage-gaps required_evidence cohort t =
    rw
      (
        contains-filter (λ u. not (coverage_of u (cohort_slots cohort) == "PASS")) required_evidence
            t,
        coverage_of_lem t (cohort_slots cohort),
      )
      refl
