-- ===== src/Replay.antt =====
-- The conformance bridge scripts/itf_replay.py: the values of a trace, the lines of the protocol
-- between the runner and an adapter, and the replay of a trace. Texts are given by their code points.
pub mod Lines
pub mod Steps
pub mod Parsed
pub mod Conformant
use fv.Prelude.{
  ℕ, zero, suc, ◌+◌, Bool, true, false, ◌&&◌, not, Option, none, some, List, [], ◌∷◌, ◌++◌, leb,
  all, if◌then◌else◌,
}
use Prim.Native.Nat.{◌/◌, ◌%◌}
use fv.Json.{ℤ, pos, negsuc, Value, null, bool, int, str, obj, Fields, has, get}
use fv.Text.{codes, is_space}

-- What `decode_itf_value` returns.
pub data Scalar : Type 0 where
  truth : Bool → Scalar
  integer : ℤ → Scalar
  text : List ℕ → Scalar

-- `not any(c.isspace() for c in s)`
unfoldable pub unspaced : List ℕ → Bool
unfolding is_space
unspaced cs = all (λ c. not (is_space c)) cs

-- `decode_itf_value`, `none` for a ValueError, where `int_of v` is `int(v)`.
unfoldable pub decode_itf_value : (Value → Option ℤ) → Value → Option Scalar
unfolding unspaced
decode_itf_value int_of (obj d) = elim (has "#bigint" d) [
  | false ↦ none
  | true ↦ elim (int_of (get "#bigint" d)) [ none ↦ none | some z ↦ some (integer z) ]
]
decode_itf_value int_of (bool b) = some (truth b)
decode_itf_value int_of (int z) = some (integer z)
decode_itf_value int_of (str s) = if unspaced (codes s) then some (text (codes s)) else none
decode_itf_value int_of _ = none

-- The decimal digits of a number; the number itself is fuel enough.
unfoldable pub digits : ℕ → ℕ → List ℕ
digits zero n = (48 + n % 10) ∷ []
digits (suc fuel) n =
    let front = digits fuel (n / 10) in
    if leb n 9 then (48 + n % 10) ∷ [] else front ++ (48 + n % 10) ∷ []

-- `encode_value`
unfoldable pub encode_value : Scalar → List ℕ
unfolding digits
encode_value (truth true) = codes "true"
encode_value (truth false) = codes "false"
encode_value (integer (pos n)) = digits n n
encode_value (integer (negsuc n)) = b'-' ∷ digits (suc n) (suc n)
encode_value (text cs) = cs
