-- ===== src/Tests/Traces.antt =====
-- A trace of two states, and each theorem on replays at a concrete input.
use fv.Prelude.{true, none, some, [], ◌∷◌, ◌++◌, ◌≡◌, refl, map}
use fv.Prelude.Errors.{raise}
use fv.Json.{pos, negsuc, str}
use fv.Text.{codes, eq_codes}
use fv.Replay.{truth, integer, text, unspaced, encode_value, decode_itf_value}
use fv.Replay.Lines.{State, bindings, parse_state_line}
use fv.Replay.Steps.{mismatch, replay_from, replay_trace}
use fv.Replay.Parsed.{texts, parse_state_line-bindings}
use fv.Replay.Conformant.{
  is_ok, report_all, replies_of, echo, replay_from-report_all, replay_trace-echo,
}

abbrev first : State
first = (codes "count", integer (pos 120)) ∷ (codes "phase", text (codes "open")) ∷ []

abbrev second : State
second = (codes "count", integer (negsuc 0)) ∷ (codes "phase", truth true) ∷ []

-- Output does not hide a reply; the first variable that differs is named.
diverges :
    replay_trace (first ∷ []) (codes "OUT voted" ∷ codes "STATE count=12 phase=shut" ∷ [])
    ≡ raise (mismatch 0 (codes "count") (codes "120") (some (codes "12")))
unfolding replay_trace encode_value
diverges = refl

parse_state_line-bindings_example :
    parse_state_line (codes "STATE " ++ bindings first) ≡ texts first
unfolding unspaced encode_value eq_codes
parse_state_line-bindings_example = parse_state_line-bindings first refl refl

replay_from-report_all_example :
    is_ok (replay_from 0 (first ∷ second ∷ []) (codes "OUT x" ∷ echo first ∷ echo second ∷ []))
    ≡ report_all (first ∷ second ∷ []) (replies_of (codes "OUT x" ∷ echo first ∷ echo second ∷ []))
replay_from-report_all_example =
    replay_from-report_all 0 (first ∷ second ∷ []) (codes "OUT x" ∷ echo first ∷ echo second ∷ [])

replay_trace-echo_example :
    is_ok (replay_trace (first ∷ second ∷ []) (map echo (first ∷ second ∷ []))) ≡ true
unfolding unspaced encode_value eq_codes
replay_trace-echo_example = replay_trace-echo (first ∷ second ∷ []) refl

-- A text is decoded if it has no white space.
decoded : decode_itf_value (λ v. none) (str "open") ≡ some (text (codes "open"))
unfolding decode_itf_value unspaced
decoded = refl

spaced : decode_itf_value (λ v. none) (str "half open") ≡ none
unfolding decode_itf_value unspaced
spaced = refl
