-- ===== src/Gate/Unhashable.antt =====
-- Where both programs end with an exception: a class that is an array or an object.
use fv.Prelude.{Bool, true, false, not, [], ◌≡◌, refl, filter}
use fv.Prelude.Errors.{raise}
use fv.Json.{Value, Fields, get, has, arr, obj}
use fv.Gate.Schema.{Runtime, unhashable, in_set, top_fields, evidence_classes}
use fv.Gate.Record.{Expectations, validate_present, validate_record}
use fv.Dashboard.Record as Board
use fv.Dashboard.Record.{View, judge_record}

-- An array or an object: no value of Python's that a set can look up.
abbrev pub is_container : Value → Bool
is_container (arr _) = true
is_container (obj _) = true
is_container _ = false

in_set-container :
    (v : Value) → is_container v ≡ true → in_set v evidence_classes ≡ raise unhashable
unfolding in_set
in_set-container (arr vs) h = refl
in_set-container (obj d) h = refl
in_set-container _ h = absurd (cc)

-- A record that is an object with all the fields of a record, and whose class is an array or an
-- object, is not reported by either program: its validation raises TypeError, whatever the rest of
-- the record, the expectations and the repository hold.
pub validate_record-raise :
    (rt : Runtime) (e : Expectations) (w : View) (r : Fields)
    → filter (λ f. not (has f r)) top_fields ≡ []
    → is_container (get "evidence_class" r) ≡ true
    → (validate_record rt e (obj r) ≡ raise unhashable)
      × (judge_record rt w (obj r) ≡ raise unhashable)
unfolding validate_record judge_record validate_present Board.judge_present
validate_record-raise rt e w r whole container =
    let raised = in_set-container (get "evidence_class" r) container in
    (rw (whole, raised) refl, rw (whole, raised) refl)
