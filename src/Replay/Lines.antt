-- ===== src/Replay/Lines.antt =====
-- The lines of the protocol: the bindings that are sent and `parse_state_line`.
use fv.Prelude.{
  ℕ, true, false, Option, none, some, List, [], ◌∷◌, ◌++◌, is_nil, if◌then◌else◌, nat_eq,
}
use fv.Text.{is_space, eq_codes}
use fv.Replay.{Scalar, encode_value}

-- `line.split()`, from the word so far.
unfoldable pub tokens : List ℕ → List ℕ → List (List ℕ)
unfolding is_space
tokens word [] = if is_nil word then [] else word ∷ []
tokens word (c ∷ cs) = elim (is_space c) [
  | true ↦ let rest = tokens [] cs in if is_nil word then rest else word ∷ rest
  | false ↦ tokens (word ++ c ∷ []) cs
]

-- `tok.partition("=")`, without the separator.
unfoldable pub partition : List ℕ → List ℕ × List ℕ
partition [] = ([], [])
partition (c ∷ cs) =
    let (name, value) = partition cs in if nat_eq c b'=' then ([], cs) else (c ∷ name, value)

-- A dict of texts by names, in the order of insertion.
abbrev pub Bindings : Type 0
Bindings = List (List ℕ × List ℕ)

abbrev pub find {ℓ} : {A : Type ℓ} → List ℕ → List (List ℕ × A) → Option A
find k [] = none
find k ((j, v) ∷ rest) = if eq_codes j k then some v else find k rest

-- `out[name] = val`
abbrev pub insert {ℓ} : {A : Type ℓ} → List ℕ → A → List (List ℕ × A) → List (List ℕ × A)
insert k v [] = (k, v) ∷ []
insert k v ((j, w) ∷ rest) = elim (eq_codes j k) [
  | true ↦ (j, v) ∷ rest
  | false ↦ (j, w) ∷ insert k v rest
]

unfoldable pub parse_tokens : Bindings → List (List ℕ) → Bindings
unfolding partition
parse_tokens out [] = out
parse_tokens out (tok ∷ toks) =
    let (name, value) = partition tok in parse_tokens (insert name value out) toks

abbrev pub behind_first : List (List ℕ) → List (List ℕ)
behind_first [] = []
behind_first (t ∷ ts) = ts

unfoldable pub parse_state_line : List ℕ → Bindings
unfolding tokens parse_tokens
parse_state_line line = parse_tokens [] (behind_first (tokens [] line))

-- A state of a trace: the variables in their order, each with its value.
abbrev pub State : Type 0
State = List (List ℕ × Scalar)

abbrev pub binding : List ℕ × Scalar → List ℕ
binding (name, value) = name ++ b'=' ∷ encode_value value

-- `" ".join(f"{n}={encode_value(state[n])}" for n in vars_)`
unfoldable pub bindings : State → List ℕ
bindings [] = []
bindings (b ∷ []) = binding b
bindings (b ∷ c ∷ rest) = binding b ++ b' ' ∷ bindings (c ∷ rest)
