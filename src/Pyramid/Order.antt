-- ===== src/Pyramid/Order.antt =====
-- The profiles of scripts/pyramid_run.py, the order of the layers, the layers that gate the verdict
-- and the aggregation of their statuses.
use fv.Prelude.{
  ℕ, String, Bool, true, false, ◌&&◌, not, none, some, List, [], ◌∷◌, ◌++◌, if◌then◌else◌, is_nil,
  any, filter, contains, dedup, map,
}
use fv.Text.{sorted}
use fv.Gate.Run.{lookup}

pub data Profile : Type 0 where
  tested bounded proved : Profile

-- `PROFILES`
abbrev pub profile_layers : Profile → List String
profile_layers tested = "types" ∷ "lints" ∷ "proptests" ∷ "floors" ∷ []
profile_layers bounded = "types" ∷ "lints" ∷ "proptests" ∷ "floors" ∷ "kani" ∷ []
profile_layers proved = "types" ∷ "lints" ∷ "proptests" ∷ "floors" ∷ "kani" ∷ "verus" ∷ "lean" ∷ []

-- `LAYER_ORDER`
abbrev pub layer_order : List String
layer_order = "types" ∷ "lints" ∷ "proptests" ∷ "fuzz" ∷ "floors" ∷ "kani" ∷ "verus" ∷ "lean" ∷ []

-- `PLAN_RESERVED_LAYERS`
abbrev pub reserved_layers : List String
reserved_layers = "floors" ∷ []

-- `PLAN_LAYERS`
abbrev pub plan_layers : List String
plan_layers = filter (λ name. not (contains reserved_layers name)) layer_order

-- The layers of the pyramid in its order, then the others in lexical order. The text of a set is
-- taken in the order in which its members first come.
unfoldable pub plan_layer_order : List String → List String
plan_layer_order names =
    filter (λ name. contains names name) layer_order
    ++ sorted (filter (λ name. not (contains layer_order name)) (dedup names))

-- `required.insert(3, "fuzz")`
abbrev pub insert_fuzz : List String → List String
insert_fuzz (a ∷ b ∷ c ∷ rest) = a ∷ b ∷ c ∷ "fuzz" ∷ rest
insert_fuzz short = short ++ "fuzz" ∷ []

-- The layers that the profile requires, and fuzz exactly if there are harnesses.
unfoldable pub own_layers : Profile → Bool → List String
own_layers profile has_fuzz =
    let own = profile_layers profile in
    if has_fuzz && not (contains own "fuzz") then insert_fuzz own else own

-- The required layers of `main`: these and those that the plan requires, `planned`.
unfoldable pub required_layers : Profile → Bool → List String → List String
unfolding own_layers plan_layer_order
required_layers profile has_fuzz planned =
    let own = own_layers profile has_fuzz in
    if is_nil planned then own else plan_layer_order (own ++ planned)

pub data Status : Type 0 where
  passed failed skipped not_applicable not_run : Status

abbrev pub is_failed : Status → Bool
is_failed failed = true
is_failed _ = false

-- `s == TERMINAL_OK`
abbrev pub is_passed : Status → Bool
is_passed passed = true
is_passed _ = false

pub data Verdict : Type 0 where
  failed_run incomplete_run : Verdict
  verified : Profile → Verdict

abbrev pub exit_code : Verdict → ℕ
exit_code failed_run = 1
exit_code incomplete_run = 3
exit_code (verified profile) = 0

-- `statuses.get(layer, "not_run")`
unfoldable pub status_of : List (String × Status) → String → Status
status_of statuses layer = elim (lookup layer statuses) [ none ↦ not_run | some s ↦ s ]

unfoldable pub aggregate_verdict : Profile → List String → List (String × Status) → Verdict
unfolding status_of
aggregate_verdict profile required statuses =
    let gating = map (status_of statuses) required in
    if any is_failed gating
    then failed_run
    else if any (λ s. not (is_passed s)) gating
    then incomplete_run
    else verified profile
