-- ===== src/Pyramid/Required.antt =====
-- The layers that gate the verdict.
use fv.Prelude.{
  String, Bool, true, false, ◌&&◌, ◌||◌, not, List, [], ◌∷◌, ◌++◌, ◌≡◌, refl, arith, contains,
  filter, dedup, ◌==◌, contains-filter, ◌∙◌, ap, ap₂,
}
use fv.Text.{sorted}
use fv.Text.Sorting.{contains-sorted, contains-dedup}
use fv.Pyramid.Order.{
  Profile, tested, bounded, proved, profile_layers, layer_order, plan_layer_order, own_layers,
  required_layers,
}

pub contains-append :
    (xs ys : List String) (l : String) → contains (xs ++ ys) l ≡ (contains xs l || contains ys l)
contains-append [] ys l = refl
contains-append (x ∷ xs) ys l = ground (arith, contains-append xs ys l)

-- The order loses no layer and adds none.
pub contains-plan_layer_order :
    (names : List String) (l : String) → contains (plan_layer_order names) l ≡ contains names l
unfolding plan_layer_order
contains-plan_layer_order names l =
    let others = filter (λ name. not (contains layer_order name)) (dedup names) in
    let known = filter (λ name. contains names name) layer_order in
    contains-append known (sorted others) l
    ∙ (ap₂ (λ a b. a || b) (contains-filter (λ name. contains names name) layer_order l)
          (contains-sorted others l
            ∙ (contains-filter (λ name. not (contains layer_order name)) (dedup names) l
                ∙ ap (λ b. b && not (contains layer_order l)) (contains-dedup names l)))
        ∙ by_parts (contains layer_order l) (contains names l))
  where
    by_parts : (a b : Bool) → (a && b || b && not a) ≡ b
    by_parts a b = ground arith

contains-own_layers :
    (profile : Profile) (has_fuzz : Bool) (l : String)
    → contains (own_layers profile has_fuzz) l
      ≡ (contains (profile_layers profile) l || has_fuzz && "fuzz" == l)
unfolding own_layers
contains-own_layers tested true l = ground arith
contains-own_layers tested false l = ground arith
contains-own_layers bounded true l = ground arith
contains-own_layers bounded false l = ground arith
contains-own_layers proved true l = ground arith
contains-own_layers proved false l = ground arith

-- A layer gates the verdict exactly if the profile or the plan requires it, or if it is fuzz and
-- there are harnesses: a plan can only add to what the profile requires.
pub contains-required_layers :
    (profile : Profile) (has_fuzz : Bool) (planned : List String) (l : String)
    → contains (required_layers profile has_fuzz planned) l
      ≡ ((contains (profile_layers profile) l || has_fuzz && "fuzz" == l) || contains planned l)
unfolding required_layers
contains-required_layers profile has_fuzz [] l = contains-own_layers profile has_fuzz l ∙ or_false _
  where
    or_false : (b : Bool) → b ≡ (b || false)
    or_false b = ground arith
contains-required_layers profile has_fuzz (p ∷ ps) l =
    let own = own_layers profile has_fuzz in
    contains-plan_layer_order (own ++ p ∷ ps) l
    ∙ (contains-append own (p ∷ ps) l
        ∙ ap (λ b. b || contains (p ∷ ps) l) (contains-own_layers profile has_fuzz l))
