-- ===== src/Tests/Panels.antt =====
-- A panel of two voices over two planted defects, and the theorems on its score.
use fv.Prelude.{String, List, some, [], ◌∷◌, ◌≤◌, ◌≡◌, refl, contains, any, map, length, ◌&&◌, not}
use fv.Json.{pos}
use fv.Text.{sorted}
use fv.Recall.{Defect, Detection, score, matches}
use fv.Recall.BlindSpot.{caught_in, score-blind}
use fv.Recall.Union.{score-union}

abbrev overflow : Defect
overflow = record { id = "D1"; file = "src/a.py"; category = "bounds"; line = pos 40 }

abbrev leak : Defect
leak = record { id = "D2"; file = "src/b.py"; category = "leak"; line = pos 7 }

abbrev near : Detection
near = record { file = "a.py"; category = " bounds "; line = some (pos 43) }

abbrev far : Detection
far = record { file = "b.py"; category = "leak"; line = some (pos 70) }

abbrev planted : List Defect
planted = overflow ∷ leak ∷ []

abbrev panel : List (String × List Detection)
panel = ("a", near ∷ []) ∷ ("b", far ∷ near ∷ []) ∷ []

-- The detection three lines off hits, the one sixty three lines off does not.
one_missed : score (λ cs. cs) (pos 5) planted panel ≡ record {
  defect_count = 2;
  shared_blind_spot = "D2" ∷ [];
  union_caught = "D1" ∷ [];
  caught_by = ("D1", "a" ∷ "b" ∷ []) ∷ ("D2", []) ∷ [];
}
unfolding score sorted
one_missed = refl

score-blind_example : contains (score (λ cs. cs) (pos 5) planted panel).shared_blind_spot "D2" ≡ (
    contains (map (λ d. d.id) planted) "D2"
    && not (any (λ (voice, dets). caught_in (matches (λ cs. cs) (pos 5)) planted "D2" dets) panel))
score-blind_example = score-blind (λ cs. cs) (pos 5) planted panel "D2"

score-union_example :
    (contains (score (λ cs. cs) (pos 5) planted panel).union_caught "D1" ≡ (
      contains (map (λ d. d.id) planted) "D1"
      && any (λ (voice, dets). caught_in (matches (λ cs. cs) (pos 5)) planted "D1" dets) panel))
    × (length (score (λ cs. cs) (pos 5) planted panel).union_caught
        ≤ (score (λ cs. cs) (pos 5) planted panel).defect_count)
score-union_example = score-union (λ cs. cs) (pos 5) planted panel "D1"
