-- ===== src/Replay/Parsed.antt =====
-- The line of a state parses back.
use mathlib.Core.List.{append_assoc, append-nil}
use fv.Prelude.{
  split_not, split_and, ℕ, zero, suc, ◌+◌, Bool, true, false, ◌&&◌, not, none, some, List, [], ◌∷◌,
  ◌++◌, ◌≡◌, refl, sym, ◌∙◌, ap, is_nil, if◌then◌else◌, nat_eq, leb, all, map, arith, Bool-cases,
  inl, inr,
}
use Prim.Native.Nat.{◌/◌, ◌%◌}
use fv.Json.{pos, negsuc}
use fv.Text.{codes, is_space, eq_codes}
use fv.Replay.{Scalar, truth, integer, text, unspaced, digits, encode_value}
use fv.Replay.Lines.{
  tokens, partition, Bindings, behind_first, find, insert, parse_tokens, parse_state_line, State,
  binding, bindings,
}

-- A character that is no white space joins the word.
token_step :
    (word : List ℕ) (c : ℕ) (cs : List ℕ)
    → is_space c ≡ false
    → tokens word (c ∷ cs) ≡ tokens (word ++ c ∷ []) cs
unfolding tokens
token_step word c cs h =
    ap
      (λ b. elim b [
        | true ↦ (if is_nil word then tokens [] cs else word ∷ tokens [] cs)
        | false ↦ tokens (word ++ c ∷ []) cs
      ])
      h

-- A word ends at a space.
token-space :
    (word cs rest : List ℕ)
    → unspaced cs ≡ true
    → is_nil (word ++ cs) ≡ false
    → tokens word (cs ++ b' ' ∷ rest) ≡ (word ++ cs) ∷ tokens [] rest
unfolding tokens unspaced is_space
token-space [] [] rest h k = absurd (cc)
token-space (w ∷ ws) [] rest h k = ap (λ x. x ∷ tokens [] rest) (sym (append-nil (w ∷ ws)))
token-space word (c ∷ cs) rest h k =
    let (goes, behind) = split_not (is_space c) h in
    let one = append_assoc word (c ∷ []) cs in
    token_step word c (cs ++ b' ' ∷ rest) goes
    ∙ (token-space (word ++ c ∷ []) cs rest behind (ap is_nil one ∙ k)
        ∙ ap (λ x. x ∷ tokens [] rest) one)

-- A word ends at the end of the line.
token-end :
    (word cs : List ℕ)
    → unspaced cs ≡ true
    → is_nil (word ++ cs) ≡ false
    → tokens word cs ≡ (word ++ cs) ∷ []
unfolding tokens unspaced
token-end [] [] h k = absurd (cc)
token-end (w ∷ ws) [] h k = ap (λ x. x ∷ []) (sym (append-nil (w ∷ ws)))
token-end word (c ∷ cs) h k =
    let (goes, behind) = split_not (is_space c) h in
    let one = append_assoc word (c ∷ []) cs in
    token_step word c cs goes
    ∙ (token-end (word ++ c ∷ []) cs behind (ap is_nil one ∙ k) ∙ ap (λ x. x ∷ []) one)

-- A name has neither white space nor `=` in it.
abbrev pub plain_name : List ℕ → Bool
plain_name cs = unspaced cs && all (λ c. not (nat_eq c b'=')) cs

partition-name :
    (name value : List ℕ)
    → all (λ c. not (nat_eq c b'=')) name ≡ true
    → partition (name ++ b'=' ∷ value) ≡ (name, value)
unfolding partition
partition-name [] value h = refl
partition-name (c ∷ cs) value h =
    let (other, rest) = split_not (nat_eq c b'=') h in
    let below = partition (cs ++ b'=' ∷ value) in
    ap (λ b. if b then ([], cs ++ b'=' ∷ value) else (c ∷ below.0, below.1)) other
    ∙ ap (λ (p : List ℕ × List ℕ). (c ∷ p.0, p.1)) (partition-name cs value rest)

digit-is_space : (d : ℕ) → leb d 9 ≡ true → is_space (48 + d) ≡ false
unfolding is_space
digit-is_space d h = ground arith

remainder_small : (n : ℕ) → leb (n % 10) 9 ≡ true
remainder_small n = ground arith

unspaced-append :
    (xs ys : List ℕ) → unspaced xs ≡ true → unspaced ys ≡ true → unspaced (xs ++ ys) ≡ true
unfolding unspaced
unspaced-append [] ys h k = k
unspaced-append (c ∷ cs) ys h k =
    let (goes, rest) = split_not (is_space c) h in
    ap (λ b. not b && unspaced (cs ++ ys)) goes ∙ unspaced-append cs ys rest k

digits-unspaced : (fuel n : ℕ) → unspaced (digits fuel n) ≡ true
unfolding digits unspaced
digits-unspaced zero n = ap (λ b. not b && true) (digit-is_space (n % 10) (remainder_small n))
digits-unspaced (suc fuel) n =
    by_size (leb n 9) (ap (λ b. not b && true) (digit-is_space (n % 10) (remainder_small n)))
      (digits-unspaced fuel (n / 10))
  where
    by_size :
        (b : Bool)
        → unspaced ((48 + n % 10) ∷ []) ≡ true
        → unspaced (digits fuel (n / 10)) ≡ true
        → unspaced (if b then (48 + n % 10) ∷ [] else digits fuel (n / 10) ++ (48 + n % 10) ∷ [])
          ≡ true
    by_size true last front = last
    by_size false last front =
        unspaced-append (digits fuel (n / 10)) ((48 + n % 10) ∷ []) front last

-- A value of the protocol: its text, if it is one, has no white space.
abbrev pub plain_value : Scalar → Bool
plain_value (text cs) = unspaced cs
plain_value _ = true

encode_value-unspaced : (v : Scalar) → plain_value v ≡ true → unspaced (encode_value v) ≡ true
unfolding encode_value unspaced is_space
encode_value-unspaced (truth true) h = refl
encode_value-unspaced (truth false) h = refl
encode_value-unspaced (integer (pos n)) h = digits-unspaced n n
encode_value-unspaced (integer (negsuc n)) h = digits-unspaced (suc n) (suc n)
encode_value-unspaced (text cs) h = h

-- A state whose names and values the protocol can carry.
abbrev pub plain_state : State → Bool
plain_state [] = true
plain_state ((name, value) ∷ rest) = (plain_name name && plain_value value) && plain_state rest

abbrev pub named : List ℕ → Bindings → Bool
named name out = elim (find name out) [ none ↦ false | some value ↦ true ]

-- No name of the state is bound already or comes twice.
abbrev pub distinct_names : Bindings → State → Bool
distinct_names out [] = true
distinct_names out ((name, value) ∷ rest) =
    not (named name out) && distinct_names (out ++ (name, encode_value value) ∷ []) rest

-- The texts of the values.
abbrev pub texts : State → Bindings
texts [] = []
texts ((name, value) ∷ rest) = (name, encode_value value) ∷ texts rest

binding-unspaced :
    (name : List ℕ) (value : Scalar)
    → plain_name name ≡ true
    → plain_value value ≡ true
    → unspaced (binding (name, value)) ≡ true
unfolding unspaced is_space
binding-unspaced name value h k =
    unspaced-append name (b'=' ∷ encode_value value) (split_and (unspaced name) h).0
      (encode_value-unspaced value k)

not_nil : (xs ys : List ℕ) (y : ℕ) → is_nil (xs ++ y ∷ ys) ≡ false
not_nil [] ys y = refl
not_nil (x ∷ xs) ys y = refl

tokens-bindings :
    (state : State) → plain_state state ≡ true → tokens [] (bindings state) ≡ map binding state
unfolding bindings tokens
tokens-bindings [] h = refl
tokens-bindings ((name, value) ∷ []) h =
    let (own, _) = split_and (plain_name name && plain_value value) h in
    let (n, v) = split_and (plain_name name) own in
    token-end [] (binding (name, value)) (binding-unspaced name value n v)
      (not_nil name (encode_value value) b'=')
tokens-bindings ((name, value) ∷ next ∷ rest) h =
    let (own, behind) = split_and (plain_name name && plain_value value) h in
    let (n, v) = split_and (plain_name name) own in
    token-space [] (binding (name, value)) (bindings (next ∷ rest))
      (binding-unspaced name value n v) (not_nil name (encode_value value) b'=')
    ∙ ap (λ ts. binding (name, value) ∷ ts) (tokens-bindings (next ∷ rest) behind)

insert-fresh :
    (name value : List ℕ) (out : Bindings)
    → named name out ≡ false
    → insert name value out ≡ out ++ (name, value) ∷ []
insert-fresh name value [] h = refl
insert-fresh name value ((j, w) ∷ rest) h = elim (Bool-cases (eq_codes j name)) [
  | inl same ↦ absurd (cc (rw (same, named) at h))
  | inr other ↦
      rw (other, insert)
        (ap (λ r. (j, w) ∷ r) (insert-fresh name value rest (rw (other, named) at h)))
]

parse_tokens-binding :
    (out : Bindings) (state : State)
    → plain_state state ≡ true
    → distinct_names out state ≡ true
    → parse_tokens out (map binding state) ≡ out ++ texts state
unfolding parse_tokens
parse_tokens-binding out [] h d = sym (append-nil out)
parse_tokens-binding out ((name, value) ∷ rest) h d =
    let (own, behind) = split_and (plain_name name && plain_value value) h in
    let (fresh, later) = split_not (named name out) d in
    let word = encode_value value in
    ap (λ (p : List ℕ × List ℕ). parse_tokens (insert p.0 p.1 out) (map binding rest))
      (partition-name name word (split_and (unspaced name) (split_and (plain_name name) own).0).1)
    ∙ (ap (λ o. parse_tokens o (map binding rest)) (insert-fresh name word out fresh)
        ∙ (parse_tokens-binding (out ++ (name, word) ∷ []) rest behind later
            ∙ append_assoc out ((name, word) ∷ []) (texts rest)))

-- A line that lists the values of a state under distinct names parses back to the texts of those values,
-- if the names have no white space and no `=` and the values no white space.
pub parse_state_line-bindings :
    (state : State)
    → plain_state state ≡ true
    → distinct_names [] state ≡ true
    → parse_state_line (codes "STATE " ++ bindings state) ≡ texts state
unfolding parse_state_line unspaced is_space
parse_state_line-bindings state h d =
    ap (λ ts. parse_tokens [] (behind_first ts))
      (token-space [] (codes "STATE") (bindings state) refl refl
        ∙ ap (λ ts. codes "STATE" ∷ ts) (tokens-bindings state h))
    ∙ parse_tokens-binding [] state h d
