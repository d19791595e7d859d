-- ===== src/Pyramid/Complete.antt =====
-- Each required or declared layer has a report; behind a types failure it says that it did not run.
use fv.Prelude.{
  String, Bool, true, false, ◌&&◌, ◌||◌, not, List, [], ◌∷◌, ◌++◌, ◌≡◌, sym, ◌∙◌, ap, arith,
  contains, ◌==◌, contains-filter, if◌then◌else◌,
}
use fv.Pyramid.Order.{Profile, tested, bounded, proved, profile_layers, layer_order}
use fv.Pyramid.Plan.{Layer}
use fv.Pyramid.Machine.{Machine}
use fv.Pyramid.Layers.{Setup, names, types_failed}
use fv.Pyramid.Run.{planned, required_of, run_of, run_plan}
use fv.Pyramid.Effects.{recorded}
use fv.Pyramid.Trail.{Trail-recorded_own, wanted}
use fv.Pyramid.Course.{after_types, course, custom, run-Trail}
use fv.Pyramid.Required.{contains-append, contains-plan_layer_order, contains-required_layers}
use fv.Pyramid.Verified.{floors_required}

profile-layer_order :
    (p : Profile) (l : String)
    → contains (profile_layers p) l ≡ true
    → contains layer_order l ≡ true
profile-layer_order tested l h = ground arith
profile-layer_order bounded l h = ground arith
profile-layer_order proved l h = ground arith

planned-names :
    (plan : List (String × Layer)) (l : String)
    → contains (planned plan) l ≡ true
    → contains (names plan) l ≡ true
planned-names [] l h = h
planned-names ((name, spec) ∷ rest) l h = by_required spec.required (planned-names rest l) h
  where
    by_required :
        (b : Bool)
        → (contains (planned rest) l ≡ true → contains (names rest) l ≡ true)
        → contains ((if b then name ∷ [] else []) ++ planned rest) l ≡ true
        → (name == l || contains (names rest) l) ≡ true
    by_required true below h = ground arith
    by_required false below h = ground arith

contains-custom :
    (xs : List String) (l : String)
    → (contains layer_order l || contains xs l) ≡ true
    → contains (layer_order ++ custom xs) l ≡ true
contains-custom xs l h =
    contains-append layer_order (custom xs) l
    ∙ (ap (λ b. contains layer_order l || b)
          (contains-filter (λ layer. not (contains layer_order layer)) xs l)
        ∙ by_parts (contains layer_order l) (contains xs l) h)
  where
    by_parts : (a b : Bool) → (a || b) ≡ true → (a || (b && not a)) ≡ true
    by_parts a b h = ground arith

module _ (setup : Setup) (m : Machine) (plan : List (String × Layer)) where
  known_layer :
      (l : String)
      → wanted (run_of setup m plan) l ≡ true
      → (contains layer_order l || contains (names plan) l) ≡ true
  known_layer l h =
      by_parts (contains (profile_layers setup.profile) l) m.has_fuzz ("fuzz" == l)
        (contains (planned plan) l) (contains (names plan) l) (contains layer_order l)
        (profile-layer_order setup.profile l) fuzz-layer_order (planned-names plan l)
        (sym (
            ap (λ b. b || contains (names plan) l)
              (contains-required_layers setup.profile m.has_fuzz (planned plan) l))
          ∙ h)
    where
      fuzz-layer_order : ("fuzz" == l) ≡ true → contains layer_order l ≡ true
      fuzz-layer_order h = ground arith

      by_parts :
          (own fuzz is_fuzz asked named order : Bool)
          → (own ≡ true → order ≡ true)
          → (is_fuzz ≡ true → order ≡ true)
          → (asked ≡ true → named ≡ true)
          → (((own || fuzz && is_fuzz) || asked) || named) ≡ true
          → (order || named) ≡ true
      by_parts own fuzz is_fuzz asked named order f g k h = ground arith

  -- Each layer that gates the verdict or that the plan declares has a report at the end of the
  -- run, whether types failed or not.
  pub run_plan-recorded :
      (l : String)
      → (contains (required_of setup m plan) l || contains (names plan) l) ≡ true
      → recorded l (run_plan setup m plan).0 ≡ true
  unfolding run_plan
  run_plan-recorded l h =
      let r = run_of setup m plan in
      Trail-recorded_own r (course r (types_failed (after_types r))) l
        (run-Trail r (floors_required setup m plan)) (on_course (types_failed (after_types r))) h
    where
      or_true : (b : Bool) → (b || true) ≡ true
      or_true b = ground arith

      on_course : (b : Bool) → contains (course (run_of setup m plan) b) l ≡ true
      on_course true =
          ap (λ b. "types" == l || b)
            (contains-plan_layer_order (required_of setup m plan ++ names plan) l
              ∙ (contains-append (required_of setup m plan) (names plan) l ∙ h))
          ∙ or_true ("types" == l)
      on_course false = contains-custom (names plan) l (known_layer l h)
