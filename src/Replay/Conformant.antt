-- ===== src/Replay/Conformant.antt =====
-- Which adapters a replay accepts.
use mathlib.Core.List.{append_assoc}
use fv.Prelude.{
  split_not, split_and, join_and, ℕ, suc, Bool, true, false, ◌&&◌, not, some, List, [], ◌∷◌, ◌++◌,
  ◌≡◌, refl, sym, ◌∙◌, ap, ap₂, subst, filter, all, map, if◌then◌else◌, Bool-cases, inl, inr, arith,
}
use fv.Prelude.Errors.{Result, ok, raise, ◌>>=◌, ◌>>◌}
use fv.Text.{codes, prefix_of, eq_codes}
use fv.Replay.{encode_value}
use fv.Replay.Lines.{Bindings, State, find, bindings, parse_state_line}
use fv.Replay.Steps.{
  Divergence, adapter_error, protocol_violation, mismatch, is_out, read_reply, same, check_vars,
  check_reply, step_line, replay_from, replay_trace,
}
use fv.Replay.Parsed.{plain_state, distinct_names, texts, named, parse_state_line-bindings}

abbrev pub is_ok {ℓ} : {E : Type 0} {A : Type ℓ} → Result E A → Bool
is_ok (ok value) = true
is_ok (raise thrown) = false

-- A reply reports a state, with each variable at the text of its value.
abbrev pub reports : State → List ℕ → Bool
reports state reply =
    prefix_of (codes "STATE ") reply
    && all (λ (name, value). same (find name (parse_state_line reply)) (encode_value value)) state

-- The replies report the states one by one; what comes behind them is not looked at.
abbrev pub report_all : List State → List (List ℕ) → Bool
report_all [] replies = true
report_all (state ∷ states) [] = false
report_all (state ∷ states) (reply ∷ replies) = reports state reply && report_all states replies

-- The lines that are no output.
abbrev pub replies_of : List (List ℕ) → List (List ℕ)
replies_of lines = filter (λ line. not (is_out line)) lines

check_vars-is_ok :
    (k : ℕ) (got : Bindings) (state : State)
    → is_ok (check_vars k got state)
      ≡ all (λ (name, value). same (find name got) (encode_value value)) state
unfolding check_vars
check_vars-is_ok k got [] = refl
check_vars-is_ok k got ((name, value) ∷ rest) =
    by_same (same (find name got) (encode_value value)) (check_vars-is_ok k got rest)
  where
    by_same :
        (b : Bool) {c : Bool}
        → is_ok (check_vars k got rest) ≡ c
        → is_ok (
            if b
            then check_vars k got rest
            else raise (mismatch k name (encode_value value) (find name got)))
          ≡ (b && c)
    by_same true h = h
    by_same false h = refl

no_error :
    (reply : List ℕ)
    → prefix_of (codes "STATE ") reply ≡ true
    → prefix_of (codes "ERR ") reply ≡ false
unfolding prefix_of
no_error [] h = refl
no_error (c ∷ cs) h = ground arith

check_reply-is_ok :
    (k : ℕ) (state : State) (reply : List ℕ)
    → is_ok (check_reply k state reply) ≡ reports state reply
unfolding check_reply
check_reply-is_ok k state reply =
    by_head (prefix_of (codes "ERR ") reply) (prefix_of (codes "STATE ") reply) (no_error reply)
      (check_vars-is_ok k (parse_state_line reply) state)
  where
    by_head :
        (e s : Bool) {c : Bool}
        → (s ≡ true → e ≡ false)
        → is_ok (check_vars k (parse_state_line reply) state) ≡ c
        → is_ok (
            if e
            then raise (adapter_error k reply)
            else if not s
            then raise (protocol_violation k reply)
            else check_vars k (parse_state_line reply) state)
          ≡ (s && c)
    by_head false true f h = h
    by_head false false f h = refl
    by_head true true f h = absurd (cc (f refl))
    by_head true false f h = refl

bind-is_ok {ℓ κ} :
    {A : Type ℓ} {B : Type κ} (first : Result Divergence A) (next : Result Divergence B)
    → is_ok (first >>= λ _. next) ≡ (is_ok first && is_ok next)
bind-is_ok (ok value) next = refl
bind-is_ok (raise thrown) next = refl

-- A trace is conformant exactly if the replies that the adapter gives are, one by one, STATE lines
-- with each variable of the trace at its value. Output lines are passed over, whatever they say, and a
-- STATE line may have more variables.
pub replay_from-report_all :
    (k : ℕ) (states : List State) (lines : List (List ℕ))
    → is_ok (replay_from k states lines) ≡ report_all states (replies_of lines)
unfolding replay_from read_reply
replay_from-report_all k [] lines = refl
replay_from-report_all k (state ∷ states) [] = refl
replay_from-report_all k (state ∷ states) (line ∷ lines) =
    by_out (is_out line) (replay_from-report_all k (state ∷ states) lines)
      (replay_from-report_all (suc k) states lines)
  where
    step_ok :
        is_ok (replay_from (suc k) states lines) ≡ report_all states (replies_of lines)
        → is_ok (
            check_reply k state line
            >> (replay_from (suc k) states lines >>= λ sent. ok (step_line k state ∷ sent)))
          ≡ (reports state line && report_all states (replies_of lines))
    step_ok rest =
        bind-is_ok (check_reply k state line)
          (replay_from (suc k) states lines >>= λ sent. ok (step_line k state ∷ sent))
        ∙ ap₂ (λ a b. a && b) (check_reply-is_ok k state line)
            (sent_ok (replay_from (suc k) states lines) ∙ rest)
      where
        sent_ok :
            (later : Result Divergence (List (List ℕ)))
            → is_ok (later >>= λ sent. ok (step_line k state ∷ sent)) ≡ is_ok later
        sent_ok (ok value) = refl
        sent_ok (raise thrown) = refl

    by_out :
        (b : Bool)
        → is_ok (replay_from k (state ∷ states) lines)
          ≡ report_all (state ∷ states) (replies_of lines)
        → is_ok (replay_from (suc k) states lines) ≡ report_all states (replies_of lines)
        → is_ok (
            (elim b [ true ↦ read_reply lines | false ↦ ok (line, lines) ])
            >>= λ (reply : List ℕ × List (List ℕ)).
                check_reply k state reply.0
                >> (replay_from (suc k) states reply.1 >>= λ sent. ok (step_line k state ∷ sent)))
          ≡ report_all
              (state ∷ states)
              (if not b then line ∷ replies_of lines else replies_of lines)
    by_out true output rest = output
    by_out false output rest = step_ok rest

-- The line of an adapter that is where the trace is.
abbrev pub echo : State → List ℕ
echo state = codes "STATE " ++ bindings state

same_refl : (cs : List ℕ) → eq_codes cs cs ≡ true
unfolding eq_codes
same_refl [] = refl
same_refl (c ∷ cs) = ground (arith, same_refl cs)

find-append :
    (name value : List ℕ) (out : Bindings) (rest : Bindings)
    → named name out ≡ false
    → find name (out ++ (name, value) ∷ rest) ≡ some value
find-append name value [] rest h = rw (same_refl name) refl
find-append name value ((j, w) ∷ out) rest h = elim (Bool-cases (eq_codes j name)) [
  | inl found ↦ absurd (cc (rw (found, named) at h))
  | inr other ↦ rw (other, find) (find-append name value out rest (rw (other, named) at h))
]

all_found :
    (out : Bindings) (state : State)
    → distinct_names out state ≡ true
    → all (λ (name, value). same (find name (out ++ texts state)) (encode_value value)) state ≡ true
all_found out [] d = refl
all_found out ((name, value) ∷ rest) d =
    let (fresh, later) = split_not (named name out) d in
    let word = encode_value value in
    join_and (ap (λ f. same f word) (find-append name word out (texts rest) fresh) ∙ same_refl word)
      (subst (λ bs. all (λ (name, value). same (find name bs) (encode_value value)) rest ≡ true)
        (append_assoc out ((name, word) ∷ []) (texts rest))
        (all_found (out ++ (name, word) ∷ []) rest later))

echo-reports :
    (state : State)
    → plain_state state ≡ true
    → distinct_names [] state ≡ true
    → reports state (echo state) ≡ true
unfolding prefix_of
echo-reports state h d =
    subst (λ bs. all (λ (name, value). same (find name bs) (encode_value value)) state ≡ true)
      (sym (parse_state_line-bindings state h d)) (all_found [] state d)

-- A state that the protocol can carry.
abbrev pub portable : State → Bool
portable state = plain_state state && distinct_names [] state

report_all-echo :
    (states : List State)
    → all portable states ≡ true
    → report_all states (replies_of (map echo states)) ≡ true
unfolding prefix_of
report_all-echo [] h = refl
report_all-echo (state ∷ states) h =
    let (own, rest) = split_and (portable state) h in
    let (good, apart) = split_and (plain_state state) own in
    join_and (echo-reports state good apart) (report_all-echo states rest)

-- An adapter that reports each state of the trace on a line is conformant, whatever the trace, if its
-- names and texts have no white space, its names no `=`, and no state names a variable twice.
pub replay_trace-echo :
    (states : List State)
    → all portable states ≡ true
    → is_ok (replay_trace states (map echo states)) ≡ true
unfolding replay_trace
replay_trace-echo states h =
    replay_from-report_all 0 states (map echo states) ∙ report_all-echo states h
