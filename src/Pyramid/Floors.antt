-- ===== src/Pyramid/Floors.antt =====
-- The `floors` layer of scripts/pyramid_run.py: its three checks and their aggregation.
use fv.Prelude.{
  ℕ, ◌+◌, ◌*◌, String, Bool, true, false, not, Option, none, some, List, [], ◌∷◌, ◌++◌,
  if◌then◌else◌, is_nil, any, filter, leb,
}
use fv.Gate.Run.{lookup, join}
use fv.Pyramid.Order.{Status, passed, failed, skipped, not_applicable, is_failed, is_passed}
use fv.Pyramid.Machine.{
  Log, SourceFile, Combo, Floors, Machine, succeeds, run_cmd, crate_command, run_batch, batch_from,
  keyed,
}

-- The report of a layer: its status, and the durations among its details.
pub record Report : Type 0 where
  pub status : Status
  pub durations : List (String × ℕ)

-- The command of a combo of the feature matrix.
abbrev pub combo_command : Bool → Combo → List String
combo_command workspace combo =
    "cargo" ∷ "check" ∷ "--quiet" ∷ []
    ++ (if workspace then "--workspace" ∷ [] else [])
    ++ (if combo.no_default_features then "--no-default-features" ∷ [] else [])
    ++ (if is_nil combo.features then [] else "--features" ∷ join "," combo.features ∷ [])
    ++ (if combo.release then "--release" ∷ [] else [])

-- `feature_matrix`
unfoldable pub feature_matrix : Machine → Floors → Log → Log × Status
feature_matrix m cfg log =
    if is_nil cfg.matrix
    then (if m.workspace
        then (let (log', o) =
              run_cmd m log (crate_command ("cargo" ∷ "check" ∷ "--workspace" ∷ "--quiet" ∷ [])) in
            (log', if succeeds o then passed else failed))
        else (log, not_applicable))
    else (let b =
          run_batch m
            (keyed (λ combo. crate_command (combo_command m.workspace combo)) (λ combo. none)
              cfg.matrix)
            (batch_from log) in
        (b.log, if b.all_passed then passed else failed))

-- `count_tests`, from the counts of the patterns.
abbrev pub count_tests : Bool → SourceFile → ℕ
count_tests property_only file =
    if property_only then file.property_tests else file.property_tests + file.test_functions

-- A public module with fewer tests than the bar asks for.
abbrev pub below_bar : Floors → SourceFile → Bool
below_bar cfg file = not (leb cfg.min_per_module (count_tests cfg.require_property_tests file))

-- `modules_below_bar`
unfoldable pub modules_below_bar : Machine → Floors → Status
modules_below_bar m cfg = elim m.sources [
  | none ↦ not_applicable
  | some files ↦
      let public_modules = filter (λ f. f.public_api) files in
      if is_nil public_modules
      then not_applicable
      else if any (below_bar cfg) public_modules
      then failed
      else passed
]

-- `durations.get(surface, 0) < min_seconds`, in tenths of a second.
abbrev pub falls_short : List (String × ℕ) → ℕ → String → Bool
falls_short durations min_seconds surface =
    not (leb (10 * min_seconds) (elim (lookup surface durations) [ none ↦ 0 | some d ↦ d ]))

-- `fuzz_surface_check`
unfoldable pub fuzz_surface_check : Machine → Floors → Option Report → Status
fuzz_surface_check m cfg fuzz =
    if is_nil cfg.surfaces
    then not_applicable
    else if any (λ s. not (m.target_exists s)) cfg.surfaces
    then failed
    else elim fuzz [
      | none ↦ skipped
      | some report ↦
          if not (is_passed report.status)
          then skipped
          else if any (falls_short report.durations cfg.min_seconds) cfg.surfaces
          then failed
          else passed
    ]

abbrev pub is_skipped : Status → Bool
is_skipped skipped = true
is_skipped _ = false

-- `floors_layer`
unfoldable pub floors_layer : Machine → Floors → Option Report → Log → Log × Status
unfolding feature_matrix modules_below_bar fuzz_surface_check
floors_layer m cfg fuzz log =
    let (log', matrix) = feature_matrix m cfg log in
    let statuses = matrix ∷ modules_below_bar m cfg ∷ fuzz_surface_check m cfg fuzz ∷ [] in
    (
      log',
      if any is_failed statuses
          then failed
          else if any is_skipped statuses
          then skipped
          else passed,
    )
