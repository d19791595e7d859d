-- ===== src/Text.antt =====
-- Text: the identifier grammars of scripts/check_evidence_records.py, Python's white space
-- and line ends, and substring tests, over the code points of a text.
pub mod Sorting
pub mod Scope
pub mod Blank
pub mod Strip
use Prim.Native.Nat.{◌/◌, ◌%◌}
use mathlib.Core.List.{reverse}
use fv.Prelude.{
  ℕ, String, code, Bool, true, false, ◌&&◌, ◌||◌, List, [], ◌∷◌, Option, none, some, nat_eq, leb,
  all, length, ◌==◌, zero, suc, ◌<>◌, if◌then◌else◌,
}

-- `String` has its own `[]` and `∷`.
abbrev pub codes : String → List ℕ
codes String.[] = []
codes (String.◌∷◌ c s) = code c ∷ codes s

abbrev between : ℕ → ℕ → ℕ → Bool
between lo hi c = leb lo c && leb c hi

abbrev pub mem : ℕ → List ℕ → Bool
mem c [] = false
mem c (x ∷ xs) = nat_eq c x || mem c xs

-- `[A-Za-z0-9]`
unfoldable pub is_alnum : ℕ → Bool
is_alnum c = between b'A' b'Z' c || between b'a' b'z' c || between b'0' b'9' c

-- `[A-Za-z0-9][A-Za-z0-9…]*`, where `extra` holds the characters that `…` adds.
identifier : List ℕ → List ℕ → Bool
unfolding is_alnum
identifier extra [] = false
identifier extra (c ∷ cs) = is_alnum c && all (λ d. is_alnum d || mem d extra) cs

-- `OBLIGATION_ID.fullmatch`
unfoldable pub obligation_id : String → Bool
unfolding identifier
obligation_id s = identifier (b'.' ∷ b'_' ∷ b':' ∷ b'-' ∷ []) (codes s)

-- `PRODUCER_CLAIM_ID.fullmatch`
unfoldable pub producer_claim_id : String → Bool
unfolding identifier
producer_claim_id s = identifier (b'.' ∷ b'_' ∷ b'-' ∷ []) (codes s)

-- `EVIDENCE_TOOL_ID.fullmatch`
unfoldable pub evidence_tool_id : String → Bool
unfolding identifier
evidence_tool_id s = identifier (b'.' ∷ b'_' ∷ b':' ∷ b'+' ∷ b'/' ∷ b'-' ∷ []) (codes s)

-- `PROFILE_ID.fullmatch`
unfoldable pub profile_id : String → Bool
unfolding identifier
profile_id s = identifier (b'.' ∷ b'_' ∷ b'+' ∷ b'/' ∷ b'-' ∷ []) (codes s)

is_hex : ℕ → Bool
is_hex c = between b'0' b'9' c || between b'a' b'f' c

-- `re.fullmatch(r"[0-9a-f]{64}", s)`
unfoldable pub sha256_hex : String → Bool
unfolding is_hex
sha256_hex s = nat_eq (length (codes s)) 64 && all is_hex (codes s)

-- The white space that `str.strip` removes.
unfoldable pub is_space : ℕ → Bool
is_space c =
    between 9 13 c
    || between 28 32 c
    || mem c (133 ∷ 160 ∷ 0x1680 ∷ 0x2028 ∷ 0x2029 ∷ [])
    || between 0x2000 0x200A c
    || mem c (0x202F ∷ 0x205F ∷ 0x3000 ∷ [])

-- `not s.strip()`
unfoldable pub blank : String → Bool
unfolding is_space
blank s = all is_space (codes s)

-- `text.split()`, from the word so far.
unfoldable pub words_from : String → String → List String
unfolding is_space
words_from word String.[] = if word == "" then [] else word ∷ []
words_from word (String.◌∷◌ c s) = elim (is_space (code c)) [
  | true ↦ let rest = words_from "" s in if word == "" then rest else word ∷ rest
  | false ↦ words_from (word <> String.◌∷◌ c String.[]) s
]

unfoldable pub words : String → List String
unfolding words_from
words text = words_from "" text

-- The text at a position, the last one from there on.
abbrev pick : List String → ℕ → String
pick [] n = ""
pick (s ∷ []) n = s
pick (s ∷ t ∷ ts) zero = s
pick (s ∷ t ∷ ts) (suc n) = pick (t ∷ ts) n

abbrev digit : ℕ → String
digit = pick ("0" ∷ "1" ∷ "2" ∷ "3" ∷ "4" ∷ "5" ∷ "6" ∷ "7" ∷ "8" ∷ "9" ∷ [])

-- The decimal text of a number; the number itself is fuel enough, as a division by 10 shrinks it.
decimal_from : ℕ → ℕ → String
decimal_from zero n = digit n
decimal_from (suc fuel) n =
    let front = decimal_from fuel (n / 10) in if leb n 9 then digit n else front <> digit (n % 10)

-- `str(n)`
unfoldable pub decimal : ℕ → String
unfolding decimal_from
decimal n = decimal_from n n

unfoldable pub prefix_of : List ℕ → List ℕ → Bool
prefix_of [] cs = true
prefix_of (x ∷ xs) [] = false
prefix_of (x ∷ xs) (c ∷ cs) = nat_eq x c && prefix_of xs cs

infix_of : List ℕ → List ℕ → Bool
infix_of xs [] = prefix_of xs []
infix_of xs (c ∷ cs) = prefix_of xs (c ∷ cs) || infix_of xs cs

-- `part in s`
unfoldable pub occurs : String → String → Bool
unfolding infix_of prefix_of
occurs part s = infix_of (codes part) (codes s)

-- `s.startswith(part)`
unfoldable pub starts_with : String → String → Bool
unfolding prefix_of
starts_with s part = prefix_of (codes part) (codes s)

-- `s.endswith(part)`
unfoldable pub ends_with : String → String → Bool
unfolding prefix_of
ends_with s part = prefix_of (reverse (codes part)) (reverse (codes s))

-- `s <= t`, by code points.
le_codes : List ℕ → List ℕ → Bool
le_codes [] ds = true
le_codes (c ∷ cs) [] = false
le_codes (c ∷ cs) (d ∷ ds) = elim (nat_eq c d) [ true ↦ le_codes cs ds | false ↦ leb c d ]

pub insert_sorted : String → List String → List String
insert_sorted s [] = s ∷ []
insert_sorted s (t ∷ ts) = elim (le_codes (codes s) (codes t)) [
  | true ↦ s ∷ t ∷ ts
  | false ↦ t ∷ insert_sorted s ts
]

-- `sorted(texts)`
unfoldable pub sorted : List String → List String
unfolding insert_sorted le_codes
sorted [] = []
sorted (s ∷ ts) = insert_sorted s (sorted ts)

-- The lines of `str.splitlines`, from the reversed text of the line so far. A carriage return
-- takes the line feed behind it along.
unfoldable pub is_line_end : ℕ → Bool
is_line_end c = between 10 13 c || between 28 30 c || mem c (133 ∷ 0x2028 ∷ 0x2029 ∷ [])

unfoldable pub split_lines : List ℕ → Bool → List ℕ → List (List ℕ)
unfolding is_line_end
split_lines acc after_cr [] = elim acc [ [] ↦ [] | c ∷ cs ↦ reverse (c ∷ cs) ∷ [] ]
split_lines acc after_cr (c ∷ cs) = elim (after_cr && nat_eq c 10) [
  | true ↦ split_lines acc false cs
  | false ↦ elim (is_line_end c) [
    | true ↦ reverse acc ∷ split_lines [] (nat_eq c 13) cs
    | false ↦ split_lines (c ∷ acc) false cs
  ]
]

-- `text.splitlines()`, each line as its code points.
unfoldable pub lines : String → List (List ℕ)
unfolding split_lines
lines text = split_lines [] false (codes text)

-- What is left of a line behind a prefix.
unfoldable pub strip_prefix : List ℕ → List ℕ → Option (List ℕ)
strip_prefix [] cs = some cs
strip_prefix (x ∷ xs) [] = none
strip_prefix (x ∷ xs) (c ∷ cs) = elim (nat_eq x c) [ true ↦ strip_prefix xs cs | false ↦ none ]

unfoldable pub eq_codes : List ℕ → List ℕ → Bool
eq_codes [] [] = true
eq_codes (x ∷ xs) (c ∷ cs) = nat_eq x c && eq_codes xs cs
eq_codes _ _ = false

-- `\d* ---`
digits_then_end : (ℕ → Bool) → List ℕ → Bool
unfolding eq_codes
digits_then_end is_decimal [] = false
digits_then_end is_decimal (c ∷ cs) = elim (is_decimal c) [
  | true ↦ digits_then_end is_decimal cs
  | false ↦ eq_codes (c ∷ cs) (codes " ---")
]

digits_end : (ℕ → Bool) → List ℕ → Bool
unfolding digits_then_end
digits_end is_decimal [] = false
digits_end is_decimal (c ∷ cs) = is_decimal c && digits_then_end is_decimal cs

-- `re.fullmatch(r"--- fv-evidence: exit=\d+ ---", line)`
unfoldable pub is_trailer : (ℕ → Bool) → List ℕ → Bool
unfolding digits_end strip_prefix
is_trailer is_decimal line = elim (strip_prefix (codes "--- fv-evidence: exit=") line) [
  | none ↦ false
  | some rest ↦ digits_end is_decimal rest
]

-- The line is this text.
unfoldable pub is_line : String → List ℕ → Bool
unfolding eq_codes
is_line s line = eq_codes line (codes s)
