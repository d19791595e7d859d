-- ===== src/Pyramid/Blocked.antt =====
-- A types failure.
use fv.Prelude.{
  String, Bool, true, false, ◌||◌, Option, none, some, List, [], ◌∷◌, ◌++◌, ◌≡◌, refl, sym, ◌∙◌, ap,
  subst, arith, any, contains, map, ◌==◌, ◌&&◌, eq_iff, Bool-cases, inl, inr, if◌then◌else◌,
}
use fv.Gate.Run.{lookup}
use fv.Pyramid.Order.{
  Profile, Status, failed_run, is_failed, not_run, profile_layers, plan_layer_order, status_of,
  aggregate_verdict, tested, bounded, proved,
}
use fv.Pyramid.Plan.{Layer}
use fv.Pyramid.Machine.{Machine}
use fv.Pyramid.Floors.{Report}
use fv.Pyramid.Layers.{
  Setup, Run, State, start, names, plain, record_layer, record_not_run, types_failed, run_layers,
  layers_behind,
}
use fv.Pyramid.Run.{statuses, planned, required_of, run_of, run_plan}
use fv.Pyramid.Effects.{Effect, kept, idle, reports}
use fv.Pyramid.Trail.{lookup-put, reports-recorded, status_of-statuses}
use fv.Pyramid.Course.{after_types, types-Effect}
use fv.Pyramid.Required.{contains-append, contains-plan_layer_order, contains-required_layers}

-- What is looked up behind a mark on the layers that have not run.
abbrev marked : Option Report → Bool → Option Report
marked (some report) listed = some report
marked none listed = if listed then some (plain not_run) else none

module _ (r : Run) where
  blocked-log : (layers : List String) (st : State) → (record_not_run r layers st).log ≡ st.log
  unfolding record_not_run
  blocked-log [] st = refl
  blocked-log (layer ∷ rest) st = blocked-log rest _ ∙ by_found (lookup layer st.layers)
    where
      by_found :
          (found : Option Report)
          → (elim found as (λ x. State) [
            | none ↦ record_layer layer (plain not_run) st
            | some report ↦ st
          ]).log
            ≡ st.log
      by_found none = refl
      by_found (some report) = refl

  mark_one :
      (layer l : String) (st : State)
      → lookup l
          (elim (lookup layer st.layers) as (λ x. State) [
            | none ↦ record_layer layer (plain not_run) st
            | some report ↦ st
          ]).layers
        ≡ marked (lookup l st.layers) (layer == l)
  mark_one layer l st = by_found (lookup layer st.layers) refl
    where
      unlisted : (found : Option Report) → found ≡ marked found false
      unlisted none = refl
      unlisted (some report) = refl

      listed :
          (report : Report)
          → lookup layer st.layers ≡ some report
          → (same : Bool) → (same ≡ true → layer ≡ l)
          → lookup l st.layers ≡ marked (lookup l st.layers) same
      listed report e false same = unlisted (lookup l st.layers)
      listed report e true same =
          let at = sym (ap (λ x. lookup x st.layers) (same refl)) ∙ e in
          at ∙ sym (ap (λ found. marked found true) at)

      fresh :
          lookup layer st.layers ≡ none
          → (same : Bool) → (same ≡ true → layer ≡ l)
          → (if same then some (plain not_run) else lookup l st.layers)
            ≡ marked (lookup l st.layers) same
      fresh e false same = unlisted (lookup l st.layers)
      fresh e true same =
          let at = sym (ap (λ x. lookup x st.layers) (same refl)) ∙ e in
          sym (ap (λ found. marked found true) at)

      by_found :
          (found : Option Report)
          → lookup layer st.layers ≡ found
          → lookup l
              (elim found as (λ x. State) [
                | none ↦ record_layer layer (plain not_run) st
                | some report ↦ st
              ]).layers
            ≡ marked (lookup l st.layers) (layer == l)
      by_found none e =
          lookup-put layer l (plain not_run) st.layers ∙ fresh e (layer == l) (eq_iff layer l).0
      by_found (some report) e = listed report e (layer == l) (eq_iff layer l).0

  marked_twice :
      (found : Option Report) (a b : Bool) → marked (marked found a) b ≡ marked found (a || b)
  marked_twice (some report) a b = refl
  marked_twice none true b = refl
  marked_twice none false b = refl

  blocked-lookup :
      (layers : List String) (l : String) (st : State)
      → lookup l (record_not_run r layers st).layers
        ≡ marked (lookup l st.layers) (contains layers l)
  unfolding record_not_run
  blocked-lookup [] l st = unmarked (lookup l st.layers)
    where
      unmarked : (found : Option Report) → found ≡ marked found false
      unmarked none = refl
      unmarked (some report) = refl
  blocked-lookup (layer ∷ rest) l st =
      blocked-lookup rest l _
      ∙ (ap (λ found. marked found (contains rest l)) (mark_one layer l st)
          ∙ marked_twice (lookup l st.layers) (layer == l) (contains rest l))

  -- The layers behind types do not run.
  stopped :
      types_failed (after_types r) ≡ true
      → run_layers r
        ≡ record_not_run r (plan_layer_order (r.required ++ names r.plan)) (after_types r)
  unfolding run_layers
  stopped bad =
      ap
        (λ b.
          if b
          then record_not_run r (plan_layer_order (r.required ++ names r.plan)) (after_types r)
          else layers_behind r (after_types r))
        bad

  -- Only types has a report at first.
  no_report : (l : String) → ("types" == l) ≡ false → lookup l (after_types r).layers ≡ none
  no_report l other = by_effect (types-Effect r)
    where
      absent :
          (found : Option Report)
          → (elim found [ none ↦ false | some report ↦ true ]) ≡ false
          → found ≡ none
      absent none h = refl
      absent (some report) h = absurd (cc)

      by_effect : Effect r "types" start (after_types r) → lookup l (after_types r).layers ≡ none
      by_effect (kept same old) = ap (λ (st : State). lookup l st.layers) same
      by_effect (idle same off undeclared) = ap (λ (st : State). lookup l st.layers) same
      by_effect (reports own) =
          absent (lookup l (after_types r).layers)
            (reports-recorded r "types" l start (after_types r) own ∙ ap (λ b. b || false) other)

aggregate_failed :
    (profile : Profile) (required : List String) (found : List (String × Status))
    → any is_failed (map (status_of found) required) ≡ true
    → aggregate_verdict profile required found ≡ failed_run
unfolding aggregate_verdict
aggregate_failed profile required found h = rw (h, aggregate_verdict) refl

any_failed :
    (f : String → Status) (required : List String)
    → is_failed (f "types") ≡ true
    → contains required "types" ≡ true
    → any is_failed (map f required) ≡ true
any_failed f [] bad h = absurd (cc)
any_failed f (x ∷ xs) bad h = elim (Bool-cases (x == "types")) [
  | inl same ↦
      ap (λ b. b || any is_failed (map f xs))
        (subst (λ y. is_failed (f y) ≡ true) (sym ((eq_iff x "types").0 same)) bad)
  | inr other ↦ or_true (is_failed (f x)) (any_failed f xs bad (ground arith))
]
  where
    or_true : (a : Bool) {b : Bool} → b ≡ true → (a || b) ≡ true
    or_true a h = ground arith

module _ (setup : Setup) (m : Machine) (plan : List (String × Layer)) where
  types_required : contains (required_of setup m plan) "types" ≡ true
  types_required =
      contains-required_layers setup.profile m.has_fuzz (planned plan) "types"
      ∙ by_profile setup.profile
    where
      by_profile :
          (p : Profile)
          → ((contains (profile_layers p) "types" || m.has_fuzz && "fuzz" == "types")
              || contains (planned plan) "types")
            ≡ true
      by_profile tested = refl
      by_profile bounded = refl
      by_profile proved = refl

  -- If types fails, then the run FAILs, no command runs behind those of types, and each other
  -- layer that gates the verdict or that the plan declares is reported as not run.
  pub run_plan-blocked :
      types_failed (after_types (run_of setup m plan)) ≡ true
      → ((run_plan setup m plan).1 ≡ failed_run)
        × ((run_plan setup m plan).0.log ≡ (after_types (run_of setup m plan)).log)
        × ((l : String)
            → (contains (required_of setup m plan) l || contains (names plan) l) ≡ true
            → ("types" == l) ≡ false
            → lookup l (run_plan setup m plan).0.layers ≡ some (plain not_run))
  unfolding run_plan
  run_plan-blocked bad =
      let r = run_of setup m plan in
      let layers = plan_layer_order (r.required ++ names plan) in
      let same = stopped r bad in
      let after = after_types r in
      (
        aggregate_failed setup.profile r.required (statuses (run_layers r)) (
            any_failed (status_of (statuses (run_layers r))) r.required types_status
              types_required),
        ap (λ (st : State). st.log) same ∙ blocked-log r layers after,
        λ l h other.
            ap (λ (st : State). lookup l st.layers) same
            ∙ (blocked-lookup r layers l after
                ∙ (ap (λ found. marked found (contains layers l)) (no_report r l other)
                    ∙ ap (λ b. if b then some (plain not_run) else none)
                        (contains-plan_layer_order (r.required ++ names plan) l
                          ∙ (contains-append r.required (names plan) l ∙ h)))),
      )
    where
      by_found :
          (found : Option Report) (listed : Bool)
          → (elim found [ none ↦ false | some report ↦ is_failed report.status ]) ≡ true
          → is_failed (elim (marked found listed) [ none ↦ not_run | some report ↦ report.status ])
            ≡ true
      by_found none listed h = absurd (cc)
      by_found (some report) listed h = h

      types_status :
          is_failed (status_of (statuses (run_layers (run_of setup m plan))) "types") ≡ true
      types_status =
          let r = run_of setup m plan in
          let layers = plan_layer_order (r.required ++ names plan) in
          ap is_failed (
            status_of-statuses (run_layers r).layers "types"
            ∙ ap
                (λ (found : Option Report). elim found [
                  | none ↦ not_run
                  | some report ↦ report.status
                ])
                (ap (λ (st : State). lookup "types" st.layers) (stopped r bad)
                  ∙ blocked-lookup r layers "types" (after_types r)))
          ∙ by_found (lookup "types" (after_types r).layers) (contains layers "types") bad
