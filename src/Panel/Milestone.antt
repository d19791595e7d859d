-- ===== src/Panel/Milestone.antt =====
-- When the guard lets a milestone PASS, and when it FAILs.
use fv.Prelude.{
  length, String, Bool, true, false, ◌&&◌, ◌||◌, not, Option, List, [], ◌∷◌, ◌≡◌, refl, sym, ◌∙◌,
  ap, ap₂, subst, arith, map, any, all, is_nil, contains, dedup, dedup_onto, ◌==◌, eq_iff,
  Bool-cases, inl, inr, if◌then◌else◌,
}
use fv.Json.{Value}
use fv.Text.{sorted}
use fv.Text.Sorting.{sorted-length}
use fv.Panel.Guard.{
  Verdict, pass, fail, incomplete, contested, pass_statuses, model_disputes, model_criteria,
  model_verdict, repeated, duplicate_ids, g1_status, covered, is_one_of, judge, is_pass, is_fail,
  is_incomplete, is_contested, overall, milestone_verdict_guard,
}

all_member :
    (p : String → Bool) (xs : List String) (x : String)
    → all p xs ≡ true
    → contains xs x ≡ true
    → p x ≡ true
all_member p [] x h k = absurd (cc)
all_member p (y ∷ ys) x h k = elim (Bool-cases (y == x)) [
  | inl same ↦ subst (λ z. p z ≡ true) ((eq_iff y x).0 same) (ground arith)
  | inr other ↦ all_member p ys x (ground arith) (ground arith)
]

all-dedup_onto :
    (p : String → Bool) (seen xs : List String)
    → (all p seen && all p (dedup_onto seen xs)) ≡ (all p seen && all p xs)
all-dedup_onto p seen [] = refl
all-dedup_onto p seen (x ∷ xs) = elim (Bool-cases (contains seen x)) [
  | inl old ↦ rw (old, dedup_onto) (ground (arith, all_member p seen x, all-dedup_onto p seen xs))
  | inr new ↦ rw (new, dedup_onto) (ground (arith, all-dedup_onto p (x ∷ seen) xs))
]

all-dedup : (p : String → Bool) (xs : List String) → all p (dedup xs) ≡ all p xs
all-dedup p xs = all-dedup_onto p [] xs

any-all : (p : String → Bool) (xs : List String) → any p xs ≡ not (all (λ x. not (p x)) xs)
any-all p [] = refl
any-all p (x ∷ xs) = ground (arith, any-all p xs)

any-dedup : (p : String → Bool) (xs : List String) → any p (dedup xs) ≡ any p xs
any-dedup p xs =
    any-all p (dedup xs) ∙ (ap not (all-dedup (λ x. not (p x)) xs) ∙ sym (any-all p xs))

is_nil-dedup : (xs : List String) → is_nil (dedup xs) ≡ is_nil xs
is_nil-dedup [] = refl
is_nil-dedup (x ∷ xs) = refl

all-map :
    (p : Verdict → Bool) (f : String → Verdict) (xs : List String)
    → all p (map f xs) ≡ all (λ x. p (f x)) xs
all-map p f [] = refl
all-map p f (x ∷ xs) = ap (λ b. p (f x) && b) (all-map p f xs)

any-map :
    (p : Verdict → Bool) (f : String → Verdict) (xs : List String)
    → any p (map f xs) ≡ any (λ x. p (f x)) xs
any-map p f [] = refl
any-map p f (x ∷ xs) = ap (λ b. p (f x) || b) (any-map p f xs)

any_some :
    (f : String → Verdict) (xs : List String)
    → (not (is_nil xs) && any is_fail (map f xs)) ≡ any is_fail (map f xs)
any_some f [] = refl
any_some f (x ∷ xs) = refl

all_pass :
    (vs : List Verdict)
    → all is_pass vs
      ≡ (not (any is_fail vs) && (not (any is_incomplete vs) && not (any is_contested vs)))
all_pass [] = refl
all_pass (pass ∷ vs) = all_pass vs
all_pass (fail ∷ vs) = refl
all_pass (incomplete ∷ vs) = ground arith
all_pass (contested ∷ vs) = ground arith

overall_pass :
    (required duplicates : List String) (vs : List Verdict)
    → is_pass (overall required duplicates vs)
      ≡ (not (is_nil required) && (is_nil duplicates && all is_pass vs))
unfolding overall
overall_pass required duplicates vs =
    by_tests (is_nil required) (any is_fail vs) (is_nil duplicates) (any is_incomplete vs)
      (any is_contested vs)
    ∙ ap (λ b. not (is_nil required) && (is_nil duplicates && b)) (sym (all_pass vs))
  where
    by_tests :
        (a b c d e : Bool)
        → is_pass (
            if a
            then incomplete
            else if b
            then fail
            else if not c
            then incomplete
            else if d
            then incomplete
            else if e
            then contested
            else pass)
          ≡ (not a && (c && (not b && (not d && not e))))
    by_tests a b c d e = ground arith

overall_fail :
    (required duplicates : List String) (vs : List Verdict)
    → is_fail (overall required duplicates vs) ≡ (not (is_nil required) && any is_fail vs)
unfolding overall
overall_fail required duplicates vs =
    by_tests (is_nil required) (any is_fail vs) (is_nil duplicates) (any is_incomplete vs)
      (any is_contested vs)
  where
    by_tests :
        (a b c d e : Bool)
        → is_fail (
            if a
            then incomplete
            else if b
            then fail
            else if not c
            then incomplete
            else if d
            then incomplete
            else if e
            then contested
            else pass)
          ≡ (not a && b)
    by_tests a b c d e = ground arith

judge_pass :
    (g1 : String) (mv : Option Value)
    → is_pass (judge g1 mv)
      ≡ (contains pass_statuses g1 && (covered mv && not (is_one_of model_disputes mv)))
unfolding judge
judge_pass g1 mv =
    by_tests (contains pass_statuses g1) (g1 == "FAIL") (covered mv) (is_one_of model_disputes mv)
  where
    by_tests :
        (a b c d : Bool)
        → is_pass (elim (if a then pass else if b then fail else incomplete) [
          | fail ↦ fail
          | pass ↦ if not c then incomplete else if d then contested else pass
          | incomplete ↦ incomplete
          | contested ↦ contested
        ])
          ≡ (a && (c && not d))
    by_tests true b c d = ground arith
    by_tests false true c d = refl
    by_tests false false c d = refl

judge_fail : (g1 : String) (mv : Option Value) → is_fail (judge g1 mv) ≡ (g1 == "FAIL")
unfolding judge
judge_fail g1 mv =
    by_tests (contains pass_statuses g1) (g1 == "FAIL") (covered mv) (is_one_of model_disputes mv)
      no_pass
  where
    no_pass : (g1 == "FAIL") ≡ true → contains pass_statuses g1 ≡ false
    no_pass h = rw ((eq_iff g1 "FAIL").0 h) refl

    by_tests :
        (a b c d : Bool)
        → (b ≡ true → a ≡ false)
        → is_fail (elim (if a then pass else if b then fail else incomplete) [
          | fail ↦ fail
          | pass ↦ if not c then incomplete else if d then contested else pass
          | incomplete ↦ incomplete
          | contested ↦ contested
        ])
          ≡ b
    by_tests true b c d h = ground arith
    by_tests false true c d h = refl
    by_tests false false c d h = refl

-- The ids of the criteria that the panel evaluated, in its order.
abbrev pub evaluated : List (String × Value) → List String
evaluated criteria = map (λ (id, v). id) criteria

-- No id has the same id behind it.
abbrev pub no_repeat : List String → Bool
no_repeat [] = true
no_repeat (id ∷ rest) = not (contains rest id) && no_repeat rest

all-fresh :
    (seen : List String) (id : String) (ids : List String)
    → all (λ x. not (contains (id ∷ seen) x)) ids
      ≡ (not (contains ids id) && all (λ x. not (contains seen x)) ids)
all-fresh seen id [] = refl
all-fresh seen id (x ∷ xs) = ground (arith, eq_iff id x, eq_iff x id, all-fresh seen id xs)

is_nil-repeated :
    (seen ids : List String)
    → is_nil (repeated seen ids) ≡ (all (λ x. not (contains seen x)) ids && no_repeat ids)
unfolding repeated
is_nil-repeated seen [] = refl
is_nil-repeated seen (id ∷ rest) = elim (Bool-cases (contains seen id)) [
  | inl old ↦ rw (old, repeated) refl
  | inr new ↦
      rw (new, repeated) (ground (arith, is_nil-repeated (id ∷ seen) rest, all-fresh seen id rest))
]

is_nil-sorted : (xs : List String) → is_nil (sorted xs) ≡ is_nil xs
is_nil-sorted xs = by_length (sorted xs) xs (sorted-length xs)
  where
    by_length : (ys xs : List String) → length ys ≡ length xs → is_nil ys ≡ is_nil xs
    by_length [] [] h = refl
    by_length (y ∷ ys) (x ∷ xs) h = refl
    by_length [] (x ∷ xs) h = absurd (omega arith)
    by_length (y ∷ ys) [] h = absurd (omega arith)

is_nil-duplicate_ids :
    (criteria : List (String × Value))
    → is_nil (duplicate_ids criteria) ≡ no_repeat (evaluated criteria)
unfolding duplicate_ids
is_nil-duplicate_ids criteria =
    is_nil-sorted (dedup (repeated [] (evaluated criteria)))
    ∙ (is_nil-dedup (repeated [] (evaluated criteria))
        ∙ (is_nil-repeated [] (evaluated criteria)
            ∙ ap (λ b. b && no_repeat (evaluated criteria)) (none_seen (evaluated criteria))))
  where
    none_seen : (ids : List String) → all (λ x. not (contains [] x)) ids ≡ true
    none_seen [] = refl
    none_seen (id ∷ rest) = none_seen rest

-- A criterion that the gate PASSes, the panel evaluated, and the panel does not dispute.
abbrev pub accepted : List (String × String) → List (String × Value) → String → Bool
accepted statuses criteria cid =
    contains pass_statuses (g1_status statuses cid)
    && (covered (model_verdict cid criteria)
        && not (is_one_of model_disputes (model_verdict cid criteria)))

-- A milestone PASSes exactly if some criterion is required, no id comes twice among the
-- criteria that the panel evaluated, and the gate PASSes each required criterion, which the panel
-- evaluated without dispute.
pub milestone_verdict_guard-pass :
    (required : List String) (statuses : List (String × String)) (synthesis : Value)
    → is_pass (milestone_verdict_guard required statuses synthesis).verdict ≡ (
        not (is_nil required)
        && (no_repeat (evaluated (model_criteria synthesis))
            && all (accepted statuses (model_criteria synthesis)) required))
unfolding milestone_verdict_guard
milestone_verdict_guard-pass required statuses synthesis =
    let criteria = model_criteria synthesis in
    let verdict_of =
      λ (cid : String). judge (g1_status statuses cid) (model_verdict cid criteria) in
    overall_pass (dedup required) (duplicate_ids criteria) (map verdict_of (dedup required))
    ∙ (ap₂ (λ a b. not a && (is_nil (duplicate_ids criteria) && b)) (is_nil-dedup required)
          (all-map is_pass verdict_of (dedup required)
            ∙ (all-dedup (λ cid. is_pass (verdict_of cid)) required ∙ λ i.
                all (λ cid. judge_pass (g1_status statuses cid) (model_verdict cid criteria) i)
                  required))
        ∙ ap (λ b. not (is_nil required) && (b && all (accepted statuses criteria) required))
            (is_nil-duplicate_ids criteria))

-- A milestone FAILs exactly if the gate FAILs a required criterion, whatever the panel returns.
pub milestone_verdict_guard-fail :
    (required : List String) (statuses : List (String × String)) (synthesis : Value)
    → is_fail (milestone_verdict_guard required statuses synthesis).verdict
      ≡ any (λ cid. g1_status statuses cid == "FAIL") required
unfolding milestone_verdict_guard
milestone_verdict_guard-fail required statuses synthesis =
    let criteria = model_criteria synthesis in
    let verdict_of =
      λ (cid : String). judge (g1_status statuses cid) (model_verdict cid criteria) in
    overall_fail (dedup required) (duplicate_ids criteria) (map verdict_of (dedup required))
    ∙ (any_some verdict_of (dedup required)
        ∙ (any-map is_fail verdict_of (dedup required)
            ∙ (any-dedup (λ cid. is_fail (verdict_of cid)) required ∙ λ i.
                any (λ cid. judge_fail (g1_status statuses cid) (model_verdict cid criteria) i)
                  required)))

-- A milestone that PASSes and a required criterion: it is accepted.
pub guard-accepted :
    (required : List String) (statuses : List (String × String)) (synthesis : Value) (cid : String)
    → is_pass (milestone_verdict_guard required statuses synthesis).verdict ≡ true
    → contains required cid ≡ true
    → accepted statuses (model_criteria synthesis) cid ≡ true
guard-accepted required statuses synthesis cid h at =
    all_member (accepted statuses (model_criteria synthesis)) required cid
      (last_part (is_nil required) (no_repeat (evaluated (model_criteria synthesis)))
        (sym (milestone_verdict_guard-pass required statuses synthesis) ∙ h))
      at
  where
    last_part : (a b : Bool) {c : Bool} → (not a && (b && c)) ≡ true → c ≡ true
    last_part false true h = h
    last_part false false h = absurd (cc)
    last_part true b h = absurd (cc)
