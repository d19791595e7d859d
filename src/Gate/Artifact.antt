-- ===== src/Gate/Artifact.antt =====
-- The reads of a raw artifact: containment in the repository, the digest, the PASS trailer and
-- the marker of the evidence class.
use fv.Prelude.{
  ℕ, String, Bool, false, ◌&&◌, ◌||◌, not, Option, none, some, List, [], ◌∷◌, if◌then◌else◌, is_nil,
  any, filter, when,
}
use fv.Json.{Value, null, Fields, get, as_str, as_obj}
use fv.Text.{occurs, lines, is_trailer, is_line}
use fv.Gate.Schema.{
  Defect, not_relative_path, escapes_root, unresolvable, hash_mismatch, bad_trailer, marker_absent,
  marker_unknown, pass_markers, pass_trailer, Runtime, Repo,
}
use fv.Gate.Fields.{nonempty_str, nonblank_str, is_text}

-- The text of a value that is known to be one.
abbrev pub text_of : Value → String
text_of v = elim (as_str v) [ none ↦ "" | some s ↦ s ]

-- `_contained_path_defect`, as a list of at most one defect.
unfoldable pub contained_path_defect : Repo → Value → String → List Defect
unfolding nonblank_str
contained_path_defect repo v field =
    if not (nonblank_str v)
    then not_relative_path field v ∷ []
    else if repo.is_absolute (text_of v) || repo.has_parent (text_of v)
    then escapes_root field v ∷ []
    else if not (repo.inside (text_of v))
    then escapes_root field v ∷ []
    else []

-- `_read_artifact`: the defects, and the text if the stored hash is the file's.
unfoldable pub read_artifact : Repo → Value → Value → List Defect × Option String
unfolding nonblank_str
read_artifact repo relative expected =
    if not (nonblank_str relative)
    then (unresolvable relative ∷ [], none)
    else if repo.is_absolute (text_of relative) || not (repo.inside (text_of relative))
    then (escapes_root "raw_output_path" relative ∷ [], none)
    else (elim (repo.file (text_of relative)) [
      | none ↦ (unresolvable relative ∷ [], none)
      | some a ↦
          if is_text a.digest expected
          then ([], some a.text)
          else (hash_mismatch expected a.digest ∷ [], none)
    ])

-- The trailers are one line, the canonical one, and it is the last line.
abbrev pub sole_trailer : Runtime → List (List ℕ) → Bool
sole_trailer rt ls = elim (filter (is_trailer rt.is_decimal) ls) [
  | [] ↦ false
  | t ∷ more ↦ is_nil more && is_line pass_trailer t
]

abbrev pub last_is_trailer : List (List ℕ) → Bool
last_is_trailer [] = false
last_is_trailer (l ∷ []) = is_line pass_trailer l
last_is_trailer (_ ∷ l ∷ ls) = last_is_trailer (l ∷ ls)

-- Neither a declared marker nor a pattern of the class occurs in the text.
unfoldable pub marker_defects : String → Value → Value → List Defect
marker_defects text klass pass_marker =
    if nonempty_str pass_marker
    then when (not (occurs (text_of pass_marker) text)) marker_absent
    else (elim (as_str klass) [
      | none ↦ marker_unknown klass ∷ []
      | some k ↦ elim (pass_markers k) [
        | none ↦ marker_unknown klass ∷ []
        | some alternatives ↦ when (not (any (λ m. occurs m text) alternatives)) marker_absent
      ]
    ])

-- `_pass_artifact_defects`
unfoldable pub pass_artifact_defects : Runtime → String → Value → Value → List Defect
unfolding marker_defects
pass_artifact_defects rt text klass pass_marker =
    if not (sole_trailer rt (lines text) && last_is_trailer (lines text))
    then bad_trailer ∷ []
    else marker_defects text klass pass_marker

-- `configuration.get(key)`, where the configuration is an object.
abbrev pub configured : String → Fields → Value
configured key b = elim (as_obj (get "configuration" b)) [ none ↦ null | some c ↦ get key c ]

-- `_raw_artifact_defects`, from the record's class and its bindings.
unfoldable pub raw_artifact_defects : Runtime → Repo → Value → Fields → List Defect
unfolding read_artifact pass_artifact_defects
raw_artifact_defects rt repo klass b =
    let (defects, text) = read_artifact repo (get "raw_output_path" b) (get "raw_output_hash" b) in
    elim text [
      | none ↦ defects
      | some t ↦ pass_artifact_defects rt t klass (configured "pass_marker" b)
    ]
