-- ===== src/Pyramid/Plan.antt =====
-- `parse_plan` of scripts/pyramid_run.py and what it is made of, from the parsed JSON on. What a
-- declared working directory resolves to is a parameter.
use fv.Prelude.{
  ℕ, suc, String, Bool, true, false, ◌||◌, not, Option, none, some, List, [], ◌∷◌, ◌++◌, ◌==◌,
  if◌then◌else◌, is_nil, filter, contains, map,
}
use fv.Prelude.Errors.{Result, ok, raise, ◌>>=◌, ◌>>◌}
use fv.Json.{
  pos, Value, str, bool, int, Fields, end, field, find_field, get, as_str, as_list, as_obj, is_null,
  str_with,
}
use fv.Text.{codes, sorted, blank, evidence_tool_id, mem}
use fv.Pyramid.Order.{plan_layers, reserved_layers, plan_layer_order}

-- What `Path` says of a relative directory: `none` where `resolve` raises a ValueError.
pub record Root : Type 0 where
  pub is_absolute : String → Bool
  -- `".." in Path(raw).parts`
  pub climbs : String → Bool
  pub resolves : String → Bool
  -- The resolved directory is the root or below it.
  pub inside : String → Bool
  pub is_dir : String → Bool
  -- `resolved.relative_to(root).as_posix() or "."`
  pub relative : String → String

-- The messages of `PlanError`, each with the place and the values that it names;
-- `unreadable` is that of `load_plan`; `unresolvable` is the ValueError of `Path.resolve`, which is
-- no PlanError.
pub data PlanError : Type 0 where
  plan_not_object bad_layers unreadable : PlanError
  unknown_top_keys : List String → PlanError
  unsupported_schema : Value → PlanError
  not_plannable malformed_layer : String → PlanError
  layer_not_object bad_required bad_executions : String → PlanError
  unknown_layer_keys : String → List String → PlanError
  execution_not_object bad_argv bad_timeout bad_tool : String → ℕ → PlanError
  unknown_execution_keys : String → ℕ → List String → PlanError
  bad_word : String → ℕ → ℕ → PlanError
  bad_cwd absolute_cwd cwd_climbs cwd_escapes cwd_not_dir unresolvable : String → ℕ → PlanError
  env_not_object : String → ℕ → PlanError
  bad_env_name bad_env_value : String → ℕ → String → PlanError
  repeated_tool : String → String → ℕ → PlanError

pub record Execution : Type 0 where
  pub argv : List String
  pub cwd : String
  pub timeout_seconds : ℕ
  pub env : List (String × String)
  pub evidence_tool : Option String

pub record Layer : Type 0 where
  pub required : Bool
  pub executions : List Execution

abbrev pub keys : Fields → List String
keys end = []
keys (field k v d) = k ∷ keys d

-- `sorted(set(d) - set(allowed))`: the keys of an object are distinct.
abbrev pub unknown_keys : List String → Fields → List String
unknown_keys allowed d = sorted (filter (λ k. not (contains allowed k)) (keys d))

-- `"\0" in s`
has_nul : String → Bool
has_nul s = mem 0 (codes s)

-- `_plan_cwd`
unfoldable pub plan_cwd : Root → String → ℕ → Value → Result PlanError String
plan_cwd root layer index raw = elim (as_str raw) [
  | none ↦ raise (bad_cwd layer index)
  | some cwd ↦
      if blank cwd
      then raise (bad_cwd layer index)
      else if root.is_absolute cwd
      then raise (absolute_cwd layer index)
      else if root.climbs cwd
      then raise (cwd_climbs layer index)
      else if not (root.resolves cwd)
      then raise (unresolvable layer index)
      else if not (root.inside cwd)
      then raise (cwd_escapes layer index)
      else if not (root.is_dir cwd)
      then raise (cwd_not_dir layer index)
      else ok (root.relative cwd)
]

-- The name of a variable is a non-empty text without `=` and NUL, its value a text without NUL.
unfoldable pub plan_env_fields : String → ℕ → Fields → Result PlanError (List (String × String))
unfolding has_nul
plan_env_fields layer index end = ok []
plan_env_fields layer index (field name v d) =
    if name == "" || mem b'=' (codes name) || has_nul name
    then raise (bad_env_name layer index name)
    else elim (as_str v) [
      | none ↦ raise (bad_env_value layer index name)
      | some value ↦
          if has_nul value
          then raise (bad_env_value layer index name)
          else (plan_env_fields layer index d >>= λ rest. ok ((name, value) ∷ rest))
    ]

-- `_plan_env`
unfoldable pub plan_env : String → ℕ → Value → Result PlanError (List (String × String))
unfolding plan_env_fields
plan_env layer index raw = if is_null raw then ok [] else elim (as_obj raw) [
  | none ↦ raise (env_not_object layer index)
  | some d ↦ plan_env_fields layer index d
]

-- The words of `argv`.
unfoldable pub plan_words : String → ℕ → ℕ → List Value → Result PlanError (List String)
unfolding has_nul
plan_words layer index position [] = ok []
plan_words layer index position (v ∷ vs) = elim (as_str v) [
  | none ↦ raise (bad_word layer index position)
  | some word ↦
      if word == "" || has_nul word
      then raise (bad_word layer index position)
      else (plan_words layer index (suc position) vs >>= λ rest. ok (word ∷ rest))
]

-- `argv` of an execution.
unfoldable pub plan_argv : String → ℕ → Value → Result PlanError (List String)
unfolding plan_words
plan_argv layer index raw = elim (as_list raw) [
  | none ↦ raise (bad_argv layer index)
  | some vs ↦ if is_nil vs then raise (bad_argv layer index) else plan_words layer index 0 vs
]

-- `timeout_seconds` of an execution: a positive int and no Boolean.
unfoldable pub plan_timeout : String → ℕ → Value → Result PlanError ℕ
plan_timeout layer index (int (pos (suc n))) = ok (suc n)
plan_timeout layer index _ = raise (bad_timeout layer index)

-- `evidence_tool` of an execution.
unfoldable pub plan_tool : String → ℕ → Value → Result PlanError (Option String)
plan_tool layer index raw = if is_null raw then ok none else elim (as_str raw) [
  | none ↦ raise (bad_tool layer index)
  | some tool ↦ if blank tool then raise (bad_tool layer index) else ok (some tool)
]

abbrev pub execution_keys : List String
execution_keys = "argv" ∷ "cwd" ∷ "timeout_seconds" ∷ "env" ∷ "evidence_tool" ∷ []

abbrev pub no_unknown : {E : Type 0} → List String → (List String → E) → Result E (Unit {0})
no_unknown unknown error = if is_nil unknown then ok tt else raise (error unknown)

-- `_plan_execution`
unfoldable pub plan_execution : Root → String → ℕ → Value → Result PlanError Execution
unfolding plan_argv plan_timeout plan_tool plan_cwd plan_env
plan_execution root layer index raw = elim (as_obj raw) [
  | none ↦ raise (execution_not_object layer index)
  | some d ↦ do
    no_unknown (unknown_keys execution_keys d) (unknown_execution_keys layer index)
    argv ← plan_argv layer index (get "argv" d)
    timeout ← plan_timeout layer index (get "timeout_seconds" d)
    tool ← plan_tool layer index (get "evidence_tool" d)
    cwd ← plan_cwd root layer index (get "cwd" d)
    env ← plan_env layer index (get "env" d)
    ok (record {
      argv = argv;
      cwd = cwd;
      timeout_seconds = timeout;
      env = env;
      evidence_tool = tool;
    })
]

unfoldable pub plan_executions : Root → String → ℕ → List Value → Result PlanError (List Execution)
unfolding plan_execution
plan_executions root layer index [] = ok []
plan_executions root layer index (v ∷ vs) = do
  execution ← plan_execution root layer index v
  rest ← plan_executions root layer (suc index) vs
  ok (execution ∷ rest)

-- `tool_origin`: the layer and the position that declare a tool.
abbrev pub Origins : Type 0
Origins = List (String × (String × ℕ))

-- The loop over the tools of a layer.
unfoldable pub claim_tools : String → ℕ → List Execution → Origins → Result PlanError Origins
claim_tools layer index [] origins = ok origins
claim_tools layer index (execution ∷ rest) origins = elim execution.evidence_tool [
  | none ↦ claim_tools layer (suc index) rest origins
  | some tool ↦ elim (contains (map (λ (t, o). t) origins) tool) [
    | true ↦ raise (repeated_tool tool layer index)
    | false ↦ claim_tools layer (suc index) rest (origins ++ (tool, (layer, index)) ∷ [])
  ]
]

abbrev pub layer_keys : List String
layer_keys = "required" ∷ "executions" ∷ []

-- `required` of a layer.
unfoldable pub plan_required : String → Value → Result PlanError Bool
plan_required layer (bool b) = ok b
plan_required layer _ = raise (bad_required layer)

-- The body of the loop over the layers, up to the tools.
unfoldable pub plan_layer : Root → String → Value → Result PlanError Layer
unfolding plan_executions plan_required
plan_layer root layer spec = elim (as_obj spec) [
  | none ↦ raise (layer_not_object layer)
  | some d ↦ do
    no_unknown (unknown_keys layer_keys d) (unknown_layer_keys layer)
    required ← plan_required layer (get "required" d)
    elim (as_list (get "executions" d)) [
      | none ↦ raise (bad_executions layer)
      | some vs ↦
          if is_nil vs
          then raise (bad_executions layer)
          else (plan_executions root layer 0 vs >>= λ executions.
              ok (record { required = required; executions = executions }))
    ]
]

-- The loop over the layers, which come in their order.
unfoldable pub plan_layers_from :
    Root → Fields → List String → Origins → Result PlanError (List (String × Layer))
unfolding plan_layer claim_tools
plan_layers_from root declared [] origins = ok []
plan_layers_from root declared (name ∷ names) origins = do
  layer ← plan_layer root name (get name declared)
  origins' ← claim_tools name 0 layer.executions origins
  rest ← plan_layers_from root declared names origins'
  ok ((name, layer) ∷ rest)

-- The ids of the layers: one of the pyramid, but a reserved one, or one that matches
-- `PLAN_CUSTOM_ID`, which is the pattern of an evidence tool.
unfoldable pub check_names : List String → Result PlanError (Unit {0})
check_names [] = ok tt
check_names (name ∷ names) =
    let rest = check_names names in
    if contains plan_layers name
    then rest
    else if contains reserved_layers name
    then raise (not_plannable name)
    else if not (evidence_tool_id name)
    then raise (malformed_layer name)
    else rest

abbrev pub plan_schema : String
plan_schema = "fv-verification-plan/v1"

-- `document.get("schema", PLAN_SCHEMA)`
abbrev pub schema_of : Fields → Value
schema_of d = elim (find_field "schema" d) [ none ↦ str plan_schema | some v ↦ v ]

abbrev pub top_keys : List String
top_keys = "schema" ∷ "layers" ∷ []

-- `parse_plan` behind the check of the schema.
unfoldable pub parse_layers : Root → Value → Result PlanError (List (String × Layer))
unfolding plan_layers_from check_names
parse_layers root v = elim (as_obj v) [
  | none ↦ raise bad_layers
  | some declared ↦
      if is_nil (keys declared)
      then raise bad_layers
      else (check_names (keys declared)
          >> plan_layers_from root declared (plan_layer_order (keys declared)) [])
]

-- The layers of a plan: `parse_plan`, whose result has the schema and the source beside them.
unfoldable pub parse_plan : Root → Value → Result PlanError (List (String × Layer))
unfolding parse_layers
parse_plan root document = elim (as_obj document) [
  | none ↦ raise plan_not_object
  | some d ↦
      no_unknown (unknown_keys top_keys d) unknown_top_keys
      >> (if str_with (λ s. s == plan_schema) (schema_of d)
          then parse_layers root (get "layers" d)
          else raise (unsupported_schema (schema_of d)))
]
