-- ===== src/Agreement/Passing.antt =====
-- Beneath a record that PASSes at the gate every execution PASSes, and the tools that a system
-- claim requires are among them: the dashboard finds no gap.
use fv.Gate.Entry.{each_accepted, ExecutionAccepted}
use fv.Prelude.{
  ℕ, suc, String, Bool, true, not, Option, none, some, List, [], ◌∷◌, ◌++◌, ◌≡◌, refl, arith,
  if◌then◌else◌, is_nil, filter, Bool-cases, any, contains, concat_map, ◌==◌, when, inl, inr, ◌⊎◌,
  ◌||◌, Option-cases,
}
use fv.Prelude.Errors.{ok}
use fv.Json.{Value, Fields, get, as_str, as_list}
use fv.Gate.Schema.{Defect, Runtime, Repo}
use fv.Gate.Execution.{Seen, Cohort, tool_defects, result_defects}
use fv.Gate.Cohort.{each_execution, passing_tool, passing_tools, coverage_defects}
use fv.Dashboard.Coverage.{
  Slot, slot, slots, slot_passes, is_pass, observed, coverage_of, cohort_coverage, is_some,
  first_result, cohort_slots,
}

tool_is_text : (seen : Seen) (v : Value) → tool_defects seen v ≡ [] → is_some (as_str v) ≡ true
unfolding tool_defects
tool_is_text seen v h = ground arith

result_is_pass :
    (v : Value) (judged : Bool) → result_defects true v judged ≡ [] → is_pass (as_str v) ≡ true
unfolding result_defects
result_is_pass v judged h = ground arith

module _ (rt : Runtime) (repo : Repo) (c : Cohort) (pass : c.record_pass ≡ true) where
  execution_passes :
      (v : Value) (index i : ℕ) (seen : Seen) {seen' : Seen}
      → ExecutionAccepted rt c repo v index seen seen'
      → slot_passes (slot i v) ≡ true
  execution_passes v index i seen a =
      rw
        (
          a.is_object,
          tool_is_text seen (get "tool" a.fields) a.entry.tool,
          result_is_pass (get "result" a.fields) a.judged (rw pass at a.entry.result),
        )
        refl

  pub executions_pass :
      (xs : List Value) (index i : ℕ) (seen : Seen)
      → each_execution rt c repo xs index seen ≡ ok []
      → filter (λ s. not (slot_passes s)) (slots i xs) ≡ []
  executions_pass [] index i seen h = refl
  executions_pass (x ∷ xs) index i seen h =
      let (seen', first, rest) = each_accepted rt c repo x xs index seen h in
      rw (execution_passes x index i seen first) (executions_pass xs (suc index) (suc i) seen' rest)

nil_of_when : (xs : List String) (d : Defect) → when (not (is_nil xs)) d ≡ [] → xs ≡ []
nil_of_when [] d h = refl
nil_of_when (x ∷ xs) d h = absurd (cc)

-- A tool with a passing execution is observed to PASS.
passing_observed :
    (t : String) (v : Value) (i : ℕ)
    → contains (passing_tool v) t ≡ true
    → any is_pass (observed t (slot i v ∷ [])) ≡ true
passing_observed t v i h = ground arith

contains-append :
    (xs ys : List String) (t : String)
    → contains (xs ++ ys) t ≡ true
    → (contains xs t ≡ true) ⊎ (contains ys t ≡ true)
contains-append [] ys t h = inr h
contains-append (x ∷ xs) ys t h = ground (arith, contains-append xs ys t)

observed-cons :
    (t : String) (s : Slot) (ss : List Slot)
    → any is_pass (observed t (s ∷ ss))
      ≡ (any is_pass (observed t (s ∷ [])) || any is_pass (observed t ss))
observed-cons t s ss = ground arith

observed_pass :
    (t : String) (xs : List Value) (i : ℕ)
    → contains (concat_map passing_tool xs) t ≡ true
    → any is_pass (observed t (slots i xs)) ≡ true
observed_pass t [] i h = absurd (cc)
observed_pass t (x ∷ xs) i h =
    elim (contains-append (passing_tool x) (concat_map passing_tool xs) t h) [
      | inl here ↦
          rw (observed-cons t (slot i x) (slots (suc i) xs), passing_observed t x i here) refl
      | inr there ↦
          rw (observed-cons t (slot i x) (slots (suc i) xs), observed_pass t xs (suc i) there)
            (ground arith)
    ]

observed_result :
    (rs : List (Option String))
    → any is_pass rs ≡ true
    → ((if is_nil rs then "no-execution" else if any is_pass rs then "PASS" else first_result rs)
        == "PASS")
      ≡ true
observed_result [] h = absurd (cc)
observed_result (r ∷ rs) h = rw h refl

pass_covered :
    (t : String) (ss : List Slot)
    → any is_pass (observed t ss) ≡ true
    → (coverage_of t ss == "PASS") ≡ true
unfolding coverage_of
pass_covered t ss h = observed_result (observed t ss) h

-- The executions of the bindings, as the view reads them.
abbrev pub slots_of : Fields → Option (List Slot)
slots_of b = elim (as_list (get "executions" b)) [ none ↦ none | some xs ↦ some (slots 0 xs) ]

pub slots_found :
    (b : Fields) (xs : List Value)
    → as_list (get "executions" b) ≡ some xs
    → slots_of b ≡ some (slots 0 xs)
slots_found b xs found = rw (found, slots_of) refl

tool_covered :
    (b : Fields) (t : String)
    → contains (passing_tools b) t ≡ true
    → (coverage_of t (cohort_slots (slots_of b)) == "PASS") ≡ true
unfolding passing_tools
tool_covered b t h = elim (Option-cases (as_list (get "executions" b))) [
  | inl absent ↦ absurd (cc (rw (absent, passing_tools) at h))
  | inr (xs, found) ↦
      rw (slots_found b xs found)
        (pass_covered t (slots 0 xs) (observed_pass t xs 0 (rw (found, passing_tools) at h)))
]

gaps_covered :
    (b : Fields) (required : List String)
    → filter (λ t. not (contains (passing_tools b) t)) required ≡ []
    → filter (λ t. not (coverage_of t (cohort_slots (slots_of b)) == "PASS")) required ≡ []
gaps_covered b [] h = refl
gaps_covered b (t ∷ ts) h = elim (Bool-cases (contains (passing_tools b) t)) [
  | inl covered ↦ rw (tool_covered b t covered) (gaps_covered b ts (rw covered at h))
  | inr missing ↦ absurd (cc (rw missing at h))
]

-- Where the gate misses no required tool the view has no gap.
pub coverage_lem :
    (b : Fields) (required : List String)
    → coverage_defects b required ≡ []
    → (cohort_coverage required (slots_of b)).1 ≡ []
unfolding coverage_defects cohort_coverage
coverage_lem b required h = gaps_covered b required (nil_of_when _ _ h)
