-- ===== src/Pyramid/Parsed.antt =====
-- What a plan that `parse_plan` accepts looks like: its ids of tools and of layers.
use mathlib.Core.List.{append_assoc, append-nil}
use fv.Prelude.{
  ℕ, suc, String, Bool, true, false, ◌&&◌, ◌||◌, not, Option, none, some, List, [], ◌∷◌, ◌++◌, ◌≡◌,
  refl, sym, ◌∙◌, ap, subst, arith, contains, concat_map, map, ◌==◌, eq_iff, Bool-cases,
  Option-cases, inl, inr, if◌then◌else◌, is_nil,
}
use fv.Prelude.Errors.{Result, ok, raise, >>=-eq-ok, ok-injective}
use fv.Json.{Value, Fields, as_obj, get, str_with}
use fv.Text.{evidence_tool_id}
use fv.Gate.Distinct.{distinct}
use fv.Pyramid.Order.{plan_layers, reserved_layers, plan_layer_order}
use fv.Pyramid.Plan.{
  Root, PlanError, Execution, Layer, Origins, not_plannable, malformed_layer, keys, claim_tools,
  plan_layer, plan_layers_from, check_names, parse_layers, parse_plan, plan_schema, schema_of,
  no_unknown, unknown_keys, top_keys, unknown_top_keys, unsupported_schema,
}
use fv.Pyramid.Layers.{names}
use fv.Pyramid.Required.{contains-append, contains-plan_layer_order}

abbrev tool_list : Option String → List String
tool_list none = []
tool_list (some tool) = tool ∷ []

abbrev tool_of : Execution → List String
tool_of e = tool_list e.evidence_tool

-- The evidence tools of a plan.
abbrev pub tools : List (String × Layer) → List String
tools layers = concat_map (λ (name, layer). concat_map tool_of layer.executions) layers

-- A layer of the pyramid that is not reserved, or one whose id matches the pattern.
abbrev pub plannable : String → Bool
plannable name =
    contains plan_layers name || (not (contains reserved_layers name) && evidence_tool_id name)

abbrev claimed : Origins → List String
claimed origins = map (λ (t, o). t) origins

distinct-snoc :
    (xs : List String) (t : String)
    → distinct xs ≡ true
    → contains xs t ≡ false
    → distinct (xs ++ t ∷ []) ≡ true
distinct-snoc [] t d h = refl
distinct-snoc (x ∷ xs) t d h =
    ground (arith, distinct-snoc xs t, contains-append xs (t ∷ []) x, eq_iff x t, eq_iff t x)

claimed-snoc :
    (origins : Origins) (tool layer : String) (index : ℕ)
    → claimed (origins ++ (tool, (layer, index)) ∷ []) ≡ claimed origins ++ tool ∷ []
claimed-snoc [] tool layer index = refl
claimed-snoc (o ∷ origins) tool layer index =
    ap (λ ts. o.0 ∷ ts) (claimed-snoc origins tool layer index)

claim_tools-distinct :
    (layer : String) (index : ℕ) (es : List Execution) (origins : Origins) {origins' : Origins}
    → claim_tools layer index es origins ≡ ok origins'
    → distinct (claimed origins) ≡ true
    → (claimed origins' ≡ claimed origins ++ concat_map tool_of es)
      × (distinct (claimed origins') ≡ true)
unfolding claim_tools
claim_tools-distinct layer index [] origins h d =
    subst (λ (o : Origins). (claimed o ≡ claimed origins ++ []) × (distinct (claimed o) ≡ true))
      (ok-injective h) (sym (append-nil (claimed origins)), d)
claim_tools-distinct layer index (e ∷ es) origins {origins'} h d =
    elim (Option-cases (e.evidence_tool)) [
      | inl untooled ↦
          let (grown, apart) =
            claim_tools-distinct layer (suc index) es origins (rw (untooled, claim_tools) at h) d in
          (
            grown
                ∙ ap (λ t. claimed origins ++ (tool_list t ++ concat_map tool_of es))
                    (sym untooled),
            apart,
          )
      | inr (tool, named) ↦ elim (Bool-cases (contains (claimed origins) tool)) [
        | inl twice ↦ absurd (cc (rw (named, twice, claim_tools) at h))
        | inr fresh ↦
            let one = claimed-snoc origins tool layer index in
            let (grown, apart) =
              claim_tools-distinct layer (suc index) es (origins ++ (tool, (layer, index)) ∷ [])
                (rw (named, fresh, claim_tools) at h)
                (ap distinct one ∙ distinct-snoc (claimed origins) tool d fresh) in
            (
              grown
                  ∙ (ap (λ ts. ts ++ concat_map tool_of es) one
                      ∙ (append_assoc (claimed origins) (tool ∷ []) (concat_map tool_of es)
                          ∙ ap (λ t. claimed origins ++ (tool_list t ++ concat_map tool_of es))
                              (sym named))),
              apart,
            )
      ]
    ]

layers_from-distinct :
    (root : Root) (declared : Fields) (order : List String) (origins : Origins)
    {layers : List (String × Layer)}
    → plan_layers_from root declared order origins ≡ ok layers
    → distinct (claimed origins) ≡ true
    → (distinct (claimed origins ++ tools layers) ≡ true) × (names layers ≡ order)
unfolding plan_layers_from
layers_from-distinct root declared [] origins h d =
    subst (λ layers. (distinct (claimed origins ++ tools layers) ≡ true) × (names layers ≡ []))
      (ok-injective h) (ap distinct (append-nil (claimed origins)) ∙ d, refl)
layers_from-distinct root declared (name ∷ order) origins h d =
    let (layer, q1, h1) = >>=-eq-ok (plan_layer root name (get name declared)) _ h in
    let (origins', q2, h2) = >>=-eq-ok (claim_tools name 0 layer.executions origins) _ h1 in
    let (rest, q3, h3) = >>=-eq-ok (plan_layers_from root declared order origins') _ h2 in
    let (grown, apart) = claim_tools-distinct name 0 layer.executions origins q2 d in
    let (all_apart, same) = layers_from-distinct root declared order origins' q3 apart in
    subst
      (λ layers.
        (distinct (claimed origins ++ tools layers) ≡ true) × (names layers ≡ name ∷ order))
      (ok-injective h3)
      (
        ap distinct (
              sym (
                ap (λ ts. ts ++ tools rest) grown
                ∙ append_assoc (claimed origins) (concat_map tool_of layer.executions)
                    (tools rest)))
            ∙ all_apart,
        ap (λ ns. name ∷ ns) same,
      )

check_step :
    (known reserved matches : Bool) (e e' : PlanError) (rest : Result PlanError (Unit {0}))
    → (if known then rest else if reserved then raise e else if not matches then raise e' else rest)
      ≡ ok tt
    → ((known || (not reserved && matches)) ≡ true) × (rest ≡ ok tt)
check_step true reserved matches e e' rest h = (refl, h)
check_step false true matches e e' rest h = absurd (cc)
check_step false false false e e' rest h = absurd (cc)
check_step false false true e e' rest h = (refl, h)

check_names-plannable :
    (layers : List String) (l : String)
    → check_names layers ≡ ok tt
    → contains layers l ≡ true
    → plannable l ≡ true
unfolding check_names
check_names-plannable [] l h at = absurd (cc)
check_names-plannable (x ∷ xs) l h at =
    let (first, rest) =
      check_step (contains plan_layers x) (contains reserved_layers x) (evidence_tool_id x)
        (not_plannable x) (malformed_layer x) (check_names xs) h in
    elim (Bool-cases (x == l)) [
      | inl same ↦ subst (λ y. plannable y ≡ true) ((eq_iff x l).0 same) first
      | inr other ↦ check_names-plannable xs l rest (by_other (x == l) other at)
    ]
  where
    by_other : (a : Bool) {b : Bool} → a ≡ false → (a || b) ≡ true → b ≡ true
    by_other a h k = ground arith

-- The layers of a plan: no evidence tool is declared twice, each id is one that a plan may
-- declare, and the ids are those of the object in the order of the pyramid.
pub record WellFormed (declared : Fields) (layers : List (String × Layer)) : Type 0 where
  pub apart : distinct (tools layers) ≡ true
  pub plannable_ids : (l : String) → contains (names layers) l ≡ true → plannable l ≡ true
  pub ordered : names layers ≡ plan_layer_order (keys declared)

parse_layers-WellFormed :
    (root : Root) (v : Value) {layers : List (String × Layer)}
    → parse_layers root v ≡ ok layers
    → (declared : Fields) × (as_obj v ≡ some declared) × WellFormed declared layers
unfolding parse_layers
parse_layers-WellFormed root v {layers} h = elim (Option-cases (as_obj v)) [
  | inl bare ↦ absurd (cc (rw (bare, parse_layers) at h))
  | inr (declared, shape) ↦ elim (Bool-cases (is_nil (keys declared))) [
    | inl empty ↦ absurd (cc (rw (shape, empty, parse_layers) at h))
    | inr some_layer ↦
        let (checked, q, h1) =
          >>=-eq-ok (check_names (keys declared)) _ (rw (shape, some_layer, parse_layers) at h) in
        let (apart, same) =
          layers_from-distinct root declared (plan_layer_order (keys declared)) [] h1 refl in
        (
          declared,
          shape,
          record {
            apart = apart;
            plannable_ids = λ l at. check_names-plannable (keys declared) l q (
                sym (ap (λ ns. contains ns l) same ∙ contains-plan_layer_order (keys declared) l)
                ∙ at);
            ordered = same;
          },
        )
  ]
]

-- The layers of a plan that is accepted are well formed: no evidence tool is declared twice, in
-- whatever layers, each layer is one that a plan may declare, and they are the declared ones in
-- the order of the pyramid.
pub parse_plan-WellFormed :
    (root : Root) (document : Value) {layers : List (String × Layer)}
    → parse_plan root document ≡ ok layers
    → (d declared : Fields) × (as_obj document ≡ some d)
      × (as_obj (get "layers" d) ≡ some declared)
      × WellFormed declared layers
unfolding parse_plan
parse_plan-WellFormed root document {layers} h = elim (Option-cases (as_obj document)) [
  | inl bare ↦ absurd (cc (rw (bare, parse_plan) at h))
  | inr (d, shape) ↦
      let (known, q, h1) =
        >>=-eq-ok (no_unknown (unknown_keys top_keys d) unknown_top_keys) _
          (rw (shape, parse_plan) at h) in
      let (declared, inner, good) = parse_layers-WellFormed root (get "layers" d) (
        by_schema (str_with (λ s. s == plan_schema) (schema_of d))
          (unsupported_schema (schema_of d)) h1) in
      (d, declared, shape, inner, good)
]
  where
    by_schema :
        (b : Bool) (e : PlanError) {parsed : Result PlanError (List (String × Layer))}
        → (if b then parsed else raise e) ≡ ok layers
        → parsed ≡ ok layers
    by_schema true e h = h
    by_schema false e h = absurd (cc)
