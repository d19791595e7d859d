-- ===== src/Gate/Distinct.antt =====
-- In a cohort that the gate accepts, no two executions share a tool or an artifact.
use fv.Gate.Artifact.{read_artifact}
use fv.Gate.Fields.{nonblank_str}
use fv.Text.{blank}
use fv.Prelude.{
  ℕ, suc, String, Bool, true, false, ◌&&◌, not, none, some, List, [], ◌∷◌, ◌==◌, ◌≡◌, refl, sym, ap,
  ◌∙◌, arith, contains, concat_map, eq_iff, subst, Bool-cases, Option-cases, inl, inr, map,
}
use fv.Prelude.Errors.{ok}
use fv.Json.{Value, str, Fields, get, as_str, as_obj, obj}
use fv.Gate.Schema.{Runtime, Repo}
use fv.Gate.Execution.{
  Seen, nothing_seen, Cohort, tool_defects, see_tool, path_defects, see_path, first_index,
  output_defects,
}
use fv.Gate.Cohort.{each_execution}
use fv.Gate.Entry.{each_accepted}

-- No text twice.
abbrev pub distinct : List String → Bool
distinct [] = true
distinct (x ∷ xs) = not (contains xs x) && distinct xs

abbrev pub text_in : String → Value → List String
text_in name v = elim (as_obj v) [
  | none ↦ []
  | some x ↦ elim (as_str (get name x)) [ none ↦ [] | some s ↦ s ∷ [] ]
]

-- The texts under one name in the executions.
abbrev pub texts_in : String → List Value → List String
texts_in name = concat_map (text_in name)

tool_step :
    (seen : Seen) (v : Value)
    → tool_defects seen v ≡ []
    → (s : String) × (as_str v ≡ some s)
      × (contains seen.tools s ≡ false)
      × ((see_tool seen v).tools ≡ s ∷ seen.tools)
unfolding tool_defects see_tool
tool_step seen (str s) h = (s, refl, ground arith, ground arith)
tool_step seen _ h = absurd (cc)

see_path_tools : (seen : Seen) (v : Value) (i : ℕ) → (see_path seen v i).tools ≡ seen.tools
unfolding see_path
see_path_tools seen v i = ground arith

text_in_lem :
    {v : Value} {x : Fields} {s : String} (name : String)
    → v ≡ obj x
    → as_str (get name x) ≡ some s
    → text_in name v ≡ s ∷ []
text_in_lem name p q = rw (p, q, text_in) refl

-- The texts seen so far are not met again, and those met are distinct.
abbrev Apart : List String → List String → Type 0
Apart seen ts =
    ((t : String) → contains seen t ≡ true → contains ts t ≡ false) × (distinct ts ≡ true)

grow :
    (seen ts : List String) (s : String)
    → contains seen s ≡ false
    → Apart (s ∷ seen) ts
    → Apart seen (s ∷ ts)
grow seen ts s fresh (later, apart) = (unmet, rw (later s (ground (arith, eq_iff s s)), apart) refl)
  where
    unmet : (t : String) → contains seen t ≡ true → contains (s ∷ ts) t ≡ false
    unmet t m = elim (Bool-cases (s == t)) [
      | inl same ↦
          absurd
            (cc (rw fresh at (subst (λ u. contains seen u ≡ true) (sym ((eq_iff s t).0 same)) m)))
      | inr other ↦ rw other (later t (rw other m))
    ]

path_names : List (String × ℕ) → List String
path_names ps = map (λ (p, i). p) ps

first_index-contains :
    (p : String) (ps : List (String × ℕ))
    → first_index p ps ≡ none
    → contains (path_names ps) p ≡ false
unfolding path_names
first_index-contains p [] h = refl
first_index-contains p ((q, i) ∷ ps) h = ground (arith, first_index-contains p ps)

-- The artifact of an accepted execution is a text that is not blank, and it is new.
path_step :
    (c : Cohort) (seen : Seen) (v run_id : Value) (i : ℕ)
    → nonblank_str v ≡ true
    → path_defects c seen v run_id ≡ []
    → (p : String) × (as_str v ≡ some p)
      × (contains (path_names seen.paths) p ≡ false)
      × (path_names (see_path seen v i).paths ≡ p ∷ path_names seen.paths)
unfolding nonblank_str path_defects see_path path_names blank
path_step c seen (str p) run_id i named h = elim (Bool-cases (p == "")) [
  | inl empty ↦ absurd (cc (subst (λ t. not (blank t) ≡ true) ((eq_iff p "").0 empty) named))
  | inr full ↦ elim (Option-cases (first_index p seen.paths)) [
    | inl fresh ↦
        (p, refl, first_index-contains p seen.paths fresh, rw (full, fresh, see_path) refl)
    | inr (j, old) ↦ absurd (cc (rw (full, old, path_defects) at h))
  ]
]
path_step c seen _ run_id i named h = absurd (cc)

output_named :
    (rt : Runtime) (repo : Repo) (x : Fields)
    → output_defects rt repo x ≡ []
    → nonblank_str (get "raw_output_path" x) ≡ true
unfolding output_defects read_artifact
output_named rt repo x h = ground arith

see_path-see_tool :
    (seen : Seen) (t v : Value) (i : ℕ)
    → (see_path (see_tool seen t) v i).paths ≡ (see_path seen v i).paths
unfolding see_tool see_path
see_path-see_tool seen t v i = ground arith

module _ (rt : Runtime) (c : Cohort) (repo : Repo) where
  tools-Apart :
      (xs : List Value) (index : ℕ) (seen : Seen)
      → each_execution rt c repo xs index seen ≡ ok []
      → Apart seen.tools (texts_in "tool" xs)
  tools-Apart [] index seen h = (λ t m. refl, refl)
  tools-Apart (x ∷ xs) index seen h =
      let (seen', a, rest) = each_accepted rt c repo x xs index seen h in
      let (s, is_text, fresh, grown) = tool_step seen (get "tool" a.fields) a.entry.tool in
      let tools' : seen'.tools ≡ s ∷ seen.tools =
        ap (λ q. q.tools) a.next
        ∙ (see_path_tools (see_tool seen (get "tool" a.fields)) _ index ∙ grown) in
      rw (text_in_lem "tool" a.is_object is_text) (
        grow seen.tools (texts_in "tool" xs) s fresh (
          subst (λ ts. Apart ts (texts_in "tool" xs)) tools'
            (tools-Apart xs (suc index) seen' rest)))

  paths-Apart :
      (xs : List Value) (index : ℕ) (seen : Seen)
      → each_execution rt c repo xs index seen ≡ ok []
      → Apart (path_names seen.paths) (texts_in "raw_output_path" xs)
  paths-Apart [] index seen h = (λ t m. refl, refl)
  paths-Apart (x ∷ xs) index seen h =
      let (seen', a, rest) = each_accepted rt c repo x xs index seen h in
      let path = get "raw_output_path" a.fields in
      let named = output_named rt repo a.fields a.output in
      let (p, is_text, fresh, grown) =
        path_step c seen path (get "run_id" a.fields) index named a.entry.path in
      let paths' : path_names seen'.paths ≡ p ∷ path_names seen.paths =
        ap (λ q. path_names q.paths) a.next
        ∙ (ap path_names (see_path-see_tool seen (get "tool" a.fields) path index) ∙ grown) in
      rw (text_in_lem "raw_output_path" a.is_object is_text) (
        grow (path_names seen.paths) (texts_in "raw_output_path" xs) p fresh (
          subst (λ ts. Apart ts (texts_in "raw_output_path" xs)) paths'
            (paths-Apart xs (suc index) seen' rest)))

  -- The executions of a cohort that the gate accepts name distinct tools and distinct artifacts.
  pub each_execution-distinct :
      (xs : List Value)
      → each_execution rt c repo xs 0 nothing_seen ≡ ok []
      → (distinct (texts_in "tool" xs) ≡ true) × (distinct (texts_in "raw_output_path" xs) ≡ true)
  each_execution-distinct xs h =
      ((tools-Apart xs 0 nothing_seen h).1, (paths-Apart xs 0 nothing_seen h).1)
