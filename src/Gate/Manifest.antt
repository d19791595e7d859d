-- ===== src/Gate/Manifest.antt =====
-- `load_manifest` of scripts/check_evidence_records.py and what it is made of, and the choice of
-- the required claims in `main`.
use fv.Prelude.{
  ℕ, suc, String, Bool, not, none, some, List, [], ◌∷◌, ◌++◌, ◌==◌, if◌then◌else◌, is_nil, filter,
  contains, map,
}
use fv.Prelude.Errors.{Result, ok, raise, ◌>>=◌, ◌>>◌}
use fv.Json.{Value, arr, nil, Fields, find_field, get, as_str, as_list, as_obj}
use fv.Text.{obligation_id, producer_claim_id, evidence_tool_id}
use fv.Gate.Run.{lookup, or_nil}

-- The messages of `ManifestError`.
pub data ManifestError : Type 0 where
  manifest_not_object : ManifestError
  not_an_array : String → ManifestError
  entry_not_object : String → ℕ → ManifestError
  malformed_id unusable_id : String → ℕ → Value → ManifestError
  repeated_id : String → String → String → ManifestError
  ids_not_array : String → String → ManifestError
  malformed_entry : String → String → ℕ → Value → ManifestError
  repeated_entry : String → String → String → ManifestError
  undeclared : String → String → ManifestError
  bad_kind : String → String → String → ManifestError

-- `manifest.get(collection, [])`
abbrev pub collection_of : String → Fields → Value
collection_of name manifest = elim (find_field name manifest) [ none ↦ arr nil | some v ↦ v ]

-- One entry of a collection.
unfoldable pub obligation_entry : String → ℕ → Value → Result ManifestError (String × Fields)
obligation_entry collection index v = elim (as_obj v) [
  | none ↦ raise (entry_not_object collection index)
  | some item ↦ elim (as_str (get "id" item)) [
    | none ↦ raise (malformed_id collection index (get "id" item))
    | some claim_id ↦
        if not (obligation_id claim_id)
        then raise (malformed_id collection index (get "id" item))
        else if not (producer_claim_id claim_id)
        then raise (unusable_id collection index (get "id" item))
        else ok (claim_id, item)
  ]
]

unfoldable pub entries_from :
    String → ℕ → List Value → Result ManifestError (List (String × Fields))
entries_from collection index [] = ok []
entries_from collection index (v ∷ vs) = do
  entry ← obligation_entry collection index v
  rest ← entries_from collection (suc index) vs
  ok (entry ∷ rest)

-- `_obligation_entries`
unfoldable pub obligation_entries : Fields → String → Result ManifestError (List (String × Fields))
obligation_entries manifest collection = elim (as_list (collection_of collection manifest)) [
  | none ↦ raise (not_an_array collection)
  | some vs ↦ entries_from collection 0 vs
]

-- The loop of `_id_list`, with the ids so far.
unfoldable pub ids_from :
    String
    → String
    → (String → Bool)
    → List String
    → ℕ
    → List Value
    → Result ManifestError (List String)
ids_from claim_id name pattern_of ids index [] = ok ids
ids_from claim_id name pattern_of ids index (v ∷ vs) = elim (as_str v) [
  | none ↦ raise (malformed_entry claim_id name index v)
  | some entry ↦
      let rest = ids_from claim_id name pattern_of (ids ++ entry ∷ []) (suc index) vs in
      if not (pattern_of entry)
      then raise (malformed_entry claim_id name index v)
      else if contains ids entry
      then raise (repeated_entry claim_id name entry)
      else rest
]

-- `_id_list`
unfoldable pub id_list :
    String → String → Value → (String → Bool) → Result ManifestError (List String)
id_list claim_id name v pattern_of = elim (as_list v) [
  | none ↦ raise (ids_not_array claim_id name)
  | some vs ↦
      if is_nil vs
      then raise (ids_not_array claim_id name)
      else ids_from claim_id name pattern_of [] 0 vs
]

abbrev pub dependency_kinds : List String
dependency_kinds = "invariant" ∷ "witness" ∷ []

-- The loop of `_validate_system_claim` over the dependencies.
unfoldable pub check_dependencies :
    String → List (String × String) → List String → Result ManifestError (Unit {0})
check_dependencies claim_id kinds [] = ok tt
check_dependencies claim_id kinds (d ∷ ds) =
    let rest = check_dependencies claim_id kinds ds in
    elim (lookup d kinds) [
      | none ↦ raise (undeclared claim_id d)
      | some kind ↦
          if contains dependency_kinds kind then rest else raise (bad_kind claim_id d kind)
    ]

-- `_validate_system_claim`: the dependencies and the required evidence.
unfoldable pub validate_system_claim :
    String → Fields → List (String × String) → Result ManifestError (List String × List String)
validate_system_claim claim_id claim kinds = do
  dependencies ← id_list claim_id "depends_on" (get "depends_on" claim) obligation_id
  check_dependencies claim_id kinds dependencies
  evidence ← id_list claim_id "required_evidence" (get "required_evidence" claim) evidence_tool_id
  ok (dependencies, evidence)

-- The obligations of the collections so far: the kind and the item of each, in order.
pub record Declared : Type 0 where
  pub required : List String
  pub kinds : List (String × String)
  pub system_claims : List (String × Fields)

-- The loop's body. The ids of `kinds` and of `required` are the same.
unfoldable pub declare :
    String → String → Declared → List (String × Fields) → Result ManifestError Declared
declare collection kind d [] = ok d
declare collection kind d ((claim_id, item) ∷ rest) =
    let next =
      declare collection kind
        (record {
          required = d.required ++ claim_id ∷ [];
          kinds = d.kinds ++ (claim_id, kind) ∷ [];
          system_claims =
              if kind == "system_claim"
              then d.system_claims ++ (claim_id, item) ∷ []
              else d.system_claims;
        })
        rest in
    elim (lookup claim_id d.kinds) [
      | some before ↦ raise (repeated_id collection claim_id before)
      | none ↦ next
    ]

abbrev pub collections : List (String × String)
collections =
    ("invariants", "invariant") ∷ ("witnesses", "witness") ∷ ("system_claims", "system_claim") ∷ []

unfoldable pub declare_all :
    Fields → List (String × String) → Declared → Result ManifestError Declared
declare_all manifest [] d = ok d
declare_all manifest ((collection, kind) ∷ rest) d = do
  entries ← obligation_entries manifest collection
  d' ← declare collection kind d entries
  declare_all manifest rest d'

-- What `load_manifest` returns.
pub record Manifest : Type 0 where
  pub required : List String
  pub kinds : List (String × String)
  pub evidence : List (String × List String)
  pub depends : List (String × List String)

unfoldable pub resolve :
    List (String × String)
    → List (String × Fields)
    → Result ManifestError (List (String × (List String × List String)))
resolve kinds [] = ok []
resolve kinds ((claim_id, item) ∷ rest) = do
  lists ← validate_system_claim claim_id item kinds
  others ← resolve kinds rest
  ok ((claim_id, lists) ∷ others)

abbrev pub no_obligations : Declared
no_obligations = record { required = []; kinds = []; system_claims = [] }

-- `load_manifest`, from the parsed JSON.
unfoldable pub load_manifest : Value → Result ManifestError Manifest
load_manifest v = elim (as_obj v) [
  | none ↦ raise manifest_not_object
  | some manifest ↦ do
    d ← declare_all manifest collections no_obligations
    claims ← resolve d.kinds d.system_claims
    ok (record {
      required = d.required;
      kinds = d.kinds;
      evidence = map (λ (c, lists). (c, lists.1)) claims;
      depends = map (λ (c, lists). (c, lists.0)) claims;
    })
]

-- The dependencies of a required system claim that are not required yet.
abbrev pub added_by : Manifest → List String → String → List String
added_by m required cid = elim (lookup cid m.kinds) [
  | none ↦ []
  | some kind ↦
      if kind == "system_claim"
      then filter (λ d. not (contains required d)) (or_nil (lookup cid m.depends))
      else []
]

-- The loop over the claims that were required, which appends to the list of those.
unfoldable pub expand_from : Manifest → List String → List String → List String
expand_from m [] required = required
expand_from m (cid ∷ cids) required = expand_from m cids (required ++ added_by m required cid)

-- A required system claim drags its dependencies into the required set.
unfoldable pub expand : Manifest → List String → List String
unfolding expand_from
expand m required = expand_from m required required
