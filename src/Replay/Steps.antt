-- ===== src/Replay/Steps.antt =====
-- `replay_trace` of scripts/itf_replay.py. An adapter is given by the lines that it prints, in their
-- order, up to the end of its output.
use fv.Prelude.{
  ℕ, suc, Bool, true, false, not, Option, none, some, List, [], ◌∷◌, ◌++◌, if◌then◌else◌, nat_eq,
}
use fv.Prelude.Errors.{Result, ok, raise, ◌>>=◌, ◌>>◌}
use fv.Text.{codes, prefix_of, eq_codes}
use fv.Replay.{encode_value}
use fv.Replay.Lines.{Bindings, State, find, bindings, parse_state_line}

-- A divergence with its step; the end of the output has none.
pub data Divergence : Type 0 where
  closed_stdout : Divergence
  adapter_error : ℕ → List ℕ → Divergence
  protocol_violation : ℕ → List ℕ → Divergence
  -- The variable, what the trace has and what the adapter replied.
  mismatch : ℕ → List ℕ → List ℕ → Option (List ℕ) → Divergence

abbrev pub is_out : List ℕ → Bool
is_out line = prefix_of (codes "OUT ") line

-- `read_reply`: the lines of output in front of the reply are passed over.
unfoldable pub read_reply : List (List ℕ) → Result Divergence (List ℕ × List (List ℕ))
unfolding prefix_of
read_reply [] = raise closed_stdout
read_reply (line ∷ rest) = elim (is_out line) [ true ↦ read_reply rest | false ↦ ok (line, rest) ]

-- `got.get(name) == expected`
abbrev pub same : Option (List ℕ) → List ℕ → Bool
same none expected = false
same (some got) expected = eq_codes got expected

-- The loop over the variables.
unfoldable pub check_vars : ℕ → Bindings → State → Result Divergence (Unit {0})
unfolding eq_codes
check_vars k got [] = ok tt
check_vars k got ((name, value) ∷ rest) =
    let next = check_vars k got rest in
    if same (find name got) (encode_value value)
    then next
    else raise (mismatch k name (encode_value value) (find name got))

-- The checks on a reply.
unfoldable pub check_reply : ℕ → State → List ℕ → Result Divergence (Unit {0})
unfolding check_vars parse_state_line prefix_of
check_reply k state reply =
    if prefix_of (codes "ERR ") reply
    then raise (adapter_error k reply)
    else if not (prefix_of (codes "STATE ") reply)
    then raise (protocol_violation k reply)
    else check_vars k (parse_state_line reply) state

-- The line that is sent for a step.
unfoldable pub step_line : ℕ → State → List ℕ
step_line k state = (if nat_eq k 0 then codes "INIT " else codes "EXPECT ") ++ bindings state

-- The loop over the states from a step on: the lines that are sent, if no step diverges.
unfoldable pub replay_from : ℕ → List State → List (List ℕ) → Result Divergence (List (List ℕ))
unfolding read_reply check_reply step_line
replay_from k [] replies = ok (codes "END" ∷ [])
replay_from k (state ∷ states) replies = do
  reply ← read_reply replies
  check_reply k state reply.0
  sent ← replay_from (suc k) states reply.1
  ok (step_line k state ∷ sent)

-- `replay_trace`, without the line of the variables, of an adapter that reads what it is sent and
-- exits within 30 seconds of the END: the exceptions of the pipe and of the wait are outside the model.
unfoldable pub replay_trace : List State → List (List ℕ) → Result Divergence (List (List ℕ))
unfolding replay_from
replay_trace states replies = replay_from 0 states replies
