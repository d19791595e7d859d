-- ===== src/Dashboard/Manifest.antt =====
-- `_id_list` and `load_manifest` of scripts/coverage_dashboard.py, from the parsed JSON.
use fv.Prelude.{
  ℕ, suc, String, not, none, some, List, [], ◌∷◌, ◌++◌, ◌==◌, if◌then◌else◌, is_nil, contains,
}
use fv.Prelude.Errors.{Result, ok, raise, ◌>>=◌}
use fv.Json.{Value, Fields, get, as_str, as_list, as_obj}
use fv.Text.{obligation_id, producer_claim_id, blank}
use fv.Gate.Run.{lookup}
use fv.Gate.Manifest.{collection_of, collections}
use fv.Dashboard.Claim.{SystemClaim}

-- The messages of the dashboard's `ManifestError`.
pub data ReadError : Type 0 where
  unreadable : ReadError
  unreadable_collection : String → ReadError
  no_usable_id : String → ℕ → ReadError
  outside_obligations outside_producer : String → ℕ → String → ReadError
  declared_before : String → String → String → ReadError
  no_ids : String → String → ReadError
  unusable_entry : String → String → Value → ReadError

-- The loop of `_id_list`, with the ids so far: an id that is there already is skipped.
unfoldable pub collect_ids :
    String → String → List String → List Value → Result ReadError (List String)
collect_ids claim_id name ids [] = ok ids
collect_ids claim_id name ids (v ∷ vs) = elim (as_str v) [
  | none ↦ raise (unusable_entry claim_id name v)
  | some entry ↦
      let rest =
        collect_ids claim_id name (if contains ids entry then ids else ids ++ entry ∷ []) vs in
      if blank entry then raise (unusable_entry claim_id name v) else rest
]

-- `_id_list`
unfoldable pub read_ids : String → String → Value → Result ReadError (List String)
read_ids claim_id name v = elim (as_list v) [
  | none ↦ raise (no_ids claim_id name)
  | some vs ↦ if is_nil vs then raise (no_ids claim_id name) else collect_ids claim_id name [] vs
]

-- What a system claim declares.
unfoldable pub read_claim : String → Fields → Result ReadError SystemClaim
read_claim claim_id item = do
  depends_on ← read_ids claim_id "depends_on" (get "depends_on" item)
  required_evidence ← read_ids claim_id "required_evidence" (get "required_evidence" item)
  ok (record { depends_on = depends_on; required_evidence = required_evidence })

-- What `load_manifest` returns.
pub record Loaded : Type 0 where
  pub required : List String
  pub kinds : List (String × String)
  pub system_claims : List (String × SystemClaim)

-- An id that is new is required, under its kind.
unfoldable pub require : String → String → Fields → Loaded → Result ReadError Loaded
require claim_id kind item l =
    let required = l.required ++ claim_id ∷ [] in
    let kinds = l.kinds ++ (claim_id, kind) ∷ [] in
    if kind == "system_claim"
    then (do
      spec ← read_claim claim_id item
      ok (record {
        required = required;
        kinds = kinds;
        system_claims = l.system_claims ++ (claim_id, spec) ∷ [];
      }))
    else ok (record { required = required; kinds = kinds; system_claims = l.system_claims })

-- The rules on an id that is a text, and what follows it.
unfoldable pub read_named : String → String → ℕ → Fields → String → Loaded → Result ReadError Loaded
read_named collection kind index item claim_id l =
    if blank claim_id
    then raise (no_usable_id collection index)
    else if not (obligation_id claim_id)
    then raise (outside_obligations collection index claim_id)
    else if not (producer_claim_id claim_id)
    then raise (outside_producer collection index claim_id)
    else (elim (lookup claim_id l.kinds) [
      | some before ↦ raise (declared_before collection claim_id before)
      | none ↦ require claim_id kind item l
    ])

-- The body of the loop over the entries of a collection.
unfoldable pub read_entry : String → String → ℕ → Value → Loaded → Result ReadError Loaded
read_entry collection kind index v l = elim (as_obj v) [
  | none ↦ raise (no_usable_id collection index)
  | some item ↦ elim (as_str (get "id" item)) [
    | none ↦ raise (no_usable_id collection index)
    | some claim_id ↦ read_named collection kind index item claim_id l
  ]
]

unfoldable pub read_entries : String → String → ℕ → List Value → Loaded → Result ReadError Loaded
read_entries collection kind index [] l = ok l
read_entries collection kind index (v ∷ vs) l = do
  next ← read_entry collection kind index v l
  read_entries collection kind (suc index) vs next

unfoldable pub read_collections : Fields → List (String × String) → Loaded → Result ReadError Loaded
read_collections manifest [] l = ok l
read_collections manifest ((collection, kind) ∷ rest) l =
    elim (as_list (collection_of collection manifest)) [
      | none ↦ raise (unreadable_collection collection)
      | some vs ↦ do next ← read_entries collection kind 0 vs l; read_collections manifest rest next
    ]

abbrev pub nothing_loaded : Loaded
nothing_loaded = record { required = []; kinds = []; system_claims = [] }

-- `load_manifest`
unfoldable pub read_manifest : Value → Result ReadError Loaded
read_manifest v = elim (as_obj v) [
  | none ↦ raise unreadable
  | some manifest ↦ read_collections manifest collections nothing_loaded
]
