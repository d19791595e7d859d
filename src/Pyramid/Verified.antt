-- ===== src/Pyramid/Verified.antt =====
-- What an exit status of 0 says of each required layer, and which layers have a report.
use fv.Prelude.{String, true, ◌&&◌, ◌||◌, List, ◌≡◌, refl, ◌∙◌, contains, ◌==◌}
use fv.Pyramid.Order.{Profile, tested, bounded, proved, profile_layers}
use fv.Pyramid.Plan.{Layer}
use fv.Pyramid.Machine.{Machine}
use fv.Pyramid.Layers.{Setup}
use fv.Pyramid.Run.{planned, required_of}
use fv.Pyramid.Required.{contains-required_layers}
use fv.Pyramid.Surfaces.{Surfaces}

module _ (setup : Setup) (m : Machine) (plan : List (String × Layer)) where
  pub floors_required : contains (required_of setup m plan) "floors" ≡ true
  floors_required =
      contains-required_layers setup.profile m.has_fuzz (planned plan) "floors"
      ∙ by_profile setup.profile
    where
      by_profile :
          (p : Profile)
          → ((contains (profile_layers p) "floors" || m.has_fuzz && "fuzz" == "floors")
              || contains (planned plan) "floors")
            ≡ true
      by_profile tested = refl
      by_profile bounded = refl
      by_profile proved = refl
