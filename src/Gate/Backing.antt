-- ===== src/Gate/Backing.antt =====
-- What stands behind the executions of a cohort that the gate accepts: a file of the repository.
use fv.Prelude.{
  ℕ, suc, String, Bool, true, false, ◌&&◌, ◌||◌, not, Option, none, some, List, [], ◌∷◌, ◌≡◌, refl,
  arith, any, all, when, when-eq-nil, if◌then◌else◌, Option-cases, Bool-cases, inl, inr,
}
use fv.Prelude.Errors.{ok}
use fv.Json.{Value, str, Fields, get, as_str, as_obj, str_with, obj}
use fv.Text.{blank, occurs, lines}
use fv.Gate.Schema.{marker_unknown, marker_absent, Runtime, Repo, Artifact, pass_markers}
use fv.Gate.Fields.{is_text, nonempty_str, nonblank_str}
use fv.Gate.Artifact.{
  text_of, sole_trailer, last_is_trailer, marker_defects, pass_artifact_defects, read_artifact,
}
use fv.Gate.Execution.{Seen, Cohort, output_defects}
use fv.Gate.Cohort.{each_execution}
use fv.Gate.Entry.{each_accepted}

abbrev some_marker : String → Option (List String) → Bool
some_marker t none = false
some_marker t (some alternatives) = any (λ m. occurs m t) alternatives

-- The text holds the declared marker, or else one of the class's.
abbrev pub marked : String → Value → Value → Bool
marked t klass pass_marker =
    if nonempty_str pass_marker
    then occurs (text_of pass_marker) t
    else str_with (λ k. some_marker t (pass_markers k)) klass

-- The text ends with its only trailer, and is marked.
abbrev pub shows_pass : Runtime → String → Value → Value → Bool
shows_pass rt t klass pass_marker =
    sole_trailer rt (lines t) && last_is_trailer (lines t) && marked t klass pass_marker

abbrev pub backed_by : Runtime → Repo → Fields → String → Artifact → Bool
backed_by rt repo x p a =
    not (repo.is_absolute p)
    && repo.inside p
    && is_text a.digest (get "raw_output_hash" x)
    && (not (is_text "PASS" (get "result" x))
        || shows_pass rt a.text (get "evidence_class" x) (get "pass_marker" x))

-- The execution names a file of the repository, by a relative path that stays inside, with the
-- digest that it states; if its result is PASS, the file shows it.
abbrev pub backed : Runtime → Repo → Value → Bool
backed rt repo v = elim (as_obj v) [
  | none ↦ false
  | some x ↦ elim (as_str (get "raw_output_path" x)) [
    | none ↦ false
    | some p ↦ elim (repo.file p) [ none ↦ false | some a ↦ backed_by rt repo x p a ]
  ]
]

class_marker :
    (t k : String) (found : Option (List String))
    → (elim found [
      | none ↦ marker_unknown (str k) ∷ []
      | some alternatives ↦ when (not (any (λ m. occurs m t) alternatives)) marker_absent
    ])
      ≡ []
    → some_marker t found ≡ true
class_marker t k none h = absurd (cc)
class_marker t k (some alternatives) h = ground arith

class_shown :
    (t : String) (klass : Value)
    → (elim (as_str klass) [
      | none ↦ marker_unknown klass ∷ []
      | some k ↦ elim (pass_markers k) [
        | none ↦ marker_unknown klass ∷ []
        | some alternatives ↦ when (not (any (λ m. occurs m t) alternatives)) marker_absent
      ]
    ])
      ≡ []
    → str_with (λ k. some_marker t (pass_markers k)) klass ≡ true
class_shown t (str k) h = class_marker t k (pass_markers k) h
class_shown t _ h = absurd (cc)

marker_shown :
    (t : String) (klass pass_marker : Value)
    → marker_defects t klass pass_marker ≡ []
    → marked t klass pass_marker ≡ true
unfolding marker_defects
marker_shown t klass pass_marker h = elim (Bool-cases (nonempty_str pass_marker)) [
  | inl declared ↦
      rw (declared, marked)
        (ground (
          arith,
          when-eq-nil (not (occurs (text_of pass_marker) t)) marker_absent
              (rw (declared, marker_defects) at h),
        ))
  | inr free ↦ rw (free, marked) (class_shown t klass (rw (free, marker_defects) at h))
]

and_third : (a b c : Bool) → (a && b) ≡ true → c ≡ true → (a && b && c) ≡ true
and_third a b c h k = ground arith

shown :
    (rt : Runtime) (t : String) (klass pass_marker : Value)
    → pass_artifact_defects rt t klass pass_marker ≡ []
    → shows_pass rt t klass pass_marker ≡ true
unfolding pass_artifact_defects
shown rt t klass pass_marker h =
    elim (Bool-cases (sole_trailer rt (lines t) && last_is_trailer (lines t))) [
      | inl trailed ↦
          and_third (sole_trailer rt (lines t)) (last_is_trailer (lines t))
            (marked t klass pass_marker) trailed
            (marker_shown t klass pass_marker (rw (trailed, pass_artifact_defects) at h))
      | inr bare ↦ absurd (cc (rw (bare, pass_artifact_defects) at h))
    ]

-- The file that is read.
record Read (repo : Repo) (path expected : Value) (t : String) : Type 0 where
  name : String
  file : Artifact
  is_name : as_str path ≡ some name
  relative : repo.is_absolute name ≡ false
  contained : repo.inside name ≡ true
  found : repo.file name ≡ some file
  hashed : is_text file.digest expected ≡ true
  whole : file.text ≡ t

read :
    (repo : Repo) (path expected : Value)
    → ((read_artifact repo path expected).0 ≡ [])
    → (t : String) × ((read_artifact repo path expected).1 ≡ some t) × Read repo path expected t
unfolding read_artifact nonblank_str
read repo (str p) expected h = elim (Bool-cases (blank p)) [
  | inl empty ↦ absurd (cc (rw (empty, read_artifact) at h))
  | inr full ↦ elim (Bool-cases (repo.is_absolute p || not (repo.inside p))) [
    | inl outside ↦ absurd (cc (rw (full, outside, read_artifact) at h))
    | inr contained ↦ elim (Option-cases (repo.file p)) [
      | inl absent ↦ absurd (cc (rw (full, contained, absent, read_artifact) at h))
      | inr (a, found) ↦ elim (Bool-cases (is_text a.digest expected)) [
        | inr other ↦ absurd (cc (rw (full, contained, found, other, read_artifact) at h))
        | inl hashed ↦ (
          a.text,
          rw (full, contained, found, hashed, read_artifact) refl,
          record {
            name = p;
            file = a;
            is_name = refl;
            relative = ground arith;
            contained = ground arith;
            found = found;
            hashed = hashed;
            whole = refl;
          },
        )
      ]
    ]
  ]
]
read repo _ expected h = absurd (cc)

read_quiet :
    (repo : Repo) (path expected : Value) {t : String}
    → (read_artifact repo path expected).1 ≡ some t
    → (read_artifact repo path expected).0 ≡ []
unfolding read_artifact
read_quiet repo path expected h = ground arith

module _ (rt : Runtime) (repo : Repo) (x : Fields) where
  output_quiet :
      output_defects rt repo x ≡ []
      → (read_artifact repo (get "raw_output_path" x) (get "raw_output_hash" x)).0 ≡ []
  unfolding output_defects
  output_quiet h =
      elim (Option-cases
        (read_artifact repo (get "raw_output_path" x) (get "raw_output_hash" x)).1) [
          | inl unread ↦ rw (unread, output_defects) at h
          | inr (t, text) ↦ read_quiet repo (get "raw_output_path" x) (get "raw_output_hash" x) text
        ]

  pass_shown :
      (t : String)
      → (if is_text "PASS" (get "result" x)
          then pass_artifact_defects rt t (get "evidence_class" x) (get "pass_marker" x)
          else [])
        ≡ []
      → (not (is_text "PASS" (get "result" x))
          || shows_pass rt t (get "evidence_class" x) (get "pass_marker" x))
        ≡ true
  pass_shown t h = elim (Bool-cases (is_text "PASS" (get "result" x))) [
    | inl pass ↦ rw pass (shown rt t (get "evidence_class" x) (get "pass_marker" x) (rw pass at h))
    | inr other ↦ rw other refl
  ]

  output_backed : output_defects rt repo x ≡ [] → backed rt repo (obj x) ≡ true
  unfolding output_defects
  output_backed h =
      let (t, text, r) =
        read repo (get "raw_output_path" x) (get "raw_output_hash" x) (output_quiet h) in
      rw (r.is_name, r.found, backed, r.relative, r.contained, r.hashed, r.whole)
        (pass_shown t (rw (text, output_defects) at h))

-- Every execution of a cohort that the gate accepts is backed by a file of the repository: its
-- path is relative and stays inside the root, the stored digest is the file's, and where its
-- result is PASS the file ends with its only trailer, an exit status of 0, and holds the declared
-- marker, or one of the execution's class if none is declared.
pub each_execution-backed :
    (rt : Runtime) (c : Cohort) (repo : Repo) (xs : List Value) (index : ℕ) (seen : Seen)
    → each_execution rt c repo xs index seen ≡ ok []
    → all (backed rt repo) xs ≡ true
each_execution-backed rt c repo [] index seen h = refl
each_execution-backed rt c repo (x ∷ xs) index seen h =
    let (seen', a, rest) = each_accepted rt c repo x xs index seen h in
    rw (a.is_object, output_backed rt repo a.fields a.output)
      (each_execution-backed rt c repo xs (suc index) seen' rest)
