-- ===== src/Dashboard/Dependencies.antt =====
-- What `apply_dependency_coverage` does to the rows of a view.
use fv.Prelude.{
  String, Bool, ◌&&◌, ◌||◌, not, List, [], ◌∷◌, ◌≡◌, refl, ap₂, sym, arith, is_nil, filter, all,
  map,
}
use fv.Gate.Run.{or_nil}
use fv.Dashboard.Claim.{Row, is_passed, is_system_claim}
use fv.Dashboard.Run.{status_of, is_gap, cover_dependencies, apply_dependency_coverage}

is_nil-filter :
    (p : String → Bool) (ds : List String) → is_nil (filter p ds) ≡ all (λ d. not (p d)) ds
is_nil-filter p [] = refl
is_nil-filter p (d ∷ ds) = ground (arith, is_nil-filter p ds)

-- A row PASSes behind the loop, where these are the rows before it.
abbrev pub stays_passed : List Row → Row → Bool
stays_passed before row =
    is_passed row.status
    && (not (is_system_claim row.obligation_kind)
        || all (λ d. not (is_gap (status_of d before))) (or_nil row.depends_on))

cover_dependencies-passed :
    (before : List Row) (row : Row)
    → is_passed (cover_dependencies before row).status ≡ stays_passed before row
unfolding cover_dependencies
cover_dependencies-passed before row =
    rw (sym (is_nil-filter (λ d. is_gap (status_of d before)) (or_nil row.depends_on)))
      (ground arith)

cover_each :
    (before rows : List Row)
    → map (λ row. is_passed row.status) (map (cover_dependencies before) rows)
      ≡ map (stays_passed before) rows
cover_each before [] = refl
cover_each before (row ∷ rows) =
    ap₂ (λ b bs. b ∷ bs) (cover_dependencies-passed before row) (cover_each before rows)

-- The rows that PASS behind the loop over the dependencies are, in order, those that PASSed before
-- it and that are not a system claim, or have no dependency whose row, from before the loop, does
-- not PASS; a dependency without a row does not count against them.
pub apply_dependency_coverage-passed :
    (rows : List Row)
    → map (λ row. is_passed row.status) (apply_dependency_coverage rows)
      ≡ map (stays_passed rows) rows
unfolding apply_dependency_coverage
apply_dependency_coverage-passed rows = cover_each rows rows
