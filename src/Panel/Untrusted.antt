-- ===== src/Panel/Untrusted.antt =====
-- `wrap_untrusted`, `split_brief` and `parse_acceptance_ids` of skills/fv-panel/panel_contract.py. A
-- text that is made is given by its code points.
use fv.Prelude.{
  ℕ, String, Bool, true, false, ◌&&◌, ◌||◌, Option, none, some, List, [], ◌∷◌, ◌++◌, if◌then◌else◌,
  is_nil, map, any,
}
use fv.Prelude.Errors.{Result, ok, raise}
use fv.Text.{codes, lines, prefix_of, strip_prefix, eq_codes, is_alnum, mem}
use fv.Text.Strip.{lstrip, strip, join_lines}

-- `EVIDENCE_DELIMITER`
abbrev pub delimiter : List ℕ
delimiter = codes "===FV_ROOT-EVIDENCE==="

-- `_DELIM_RE.match(line)`, for a text without line ends.
unfoldable pub is_delimiter : List ℕ → Bool
unfolding strip
is_delimiter line = eq_codes (strip line) delimiter

-- A line that looks like an end of a fence, a mark of the task or the delimiter.
unfoldable pub is_marker : List ℕ → Bool
unfolding lstrip strip is_delimiter
is_marker line =
    prefix_of (codes "<<<UNTRUSTED") (lstrip line)
    || prefix_of (codes "<<<END-UNTRUSTED") (lstrip line)
    || (eq_codes (strip line) (codes "=== TASK (trusted instruction) ===")
        || eq_codes (strip line) (codes "=== END TASK ==="))
    || is_delimiter line

unfoldable pub neutralise : List ℕ → List ℕ
unfolding is_marker
neutralise line = if is_marker line then codes "ESCAPED: " ++ line else line

abbrev pub opening : String → List ℕ
opening label = codes "<<<UNTRUSTED-ARTIFACT label=" ++ codes label ++ codes ">>>"

abbrev pub closing : String → List ℕ
closing label = codes "<<<END-UNTRUSTED-ARTIFACT label=" ++ codes label ++ codes ">>>"

unfoldable pub wrap_untrusted : String → String → List ℕ
unfolding neutralise join_lines lines
wrap_untrusted label text =
    let body = join_lines (map neutralise (lines text)) in
    opening label ++ (10 ∷ (body ++ (10 ∷ closing label)))

-- The lines in front of the first delimiter, and those behind it if there is one.
unfoldable pub split_at : List (List ℕ) → List (List ℕ) × Option (List (List ℕ))
unfolding is_delimiter
split_at [] = ([], none)
split_at (line ∷ rest) =
    let (before, after) = split_at rest in
    if is_delimiter line then ([], some rest) else (line ∷ before, after)

-- `split_brief`: the trusted task and the untrusted evidence.
unfoldable pub split_brief : String → List ℕ × List ℕ
unfolding split_at
split_brief text =
    let (before, after) = split_at (lines text) in
    elim after [
      | none ↦ (strip (codes text), [])
      | some evidence ↦ (strip (join_lines before), strip (join_lines evidence))
    ]

-- The longest prefix of characters of an id, and what follows it.
unfoldable pub span_id : List ℕ → List ℕ × List ℕ
span_id [] = ([], [])
span_id (c ∷ cs) =
    let (id, rest) = span_id cs in
    if is_alnum c || mem c (b'_' ∷ b'.' ∷ b'-' ∷ []) then (c ∷ id, rest) else ([], c ∷ cs)

-- `[-*+]?`
abbrev pub drop_bullet : List ℕ → List ℕ
drop_bullet [] = []
drop_bullet (c ∷ cs) = if mem c (b'-' ∷ b'*' ∷ b'+' ∷ []) then cs else c ∷ cs

-- An id starts with a letter or a digit and ends at `]`.
abbrev pub closed_id : List ℕ × List ℕ → Option (List ℕ)
closed_id ([], rest) = none
closed_id (c ∷ id, []) = none
closed_id (c ∷ id, d ∷ rest) =
    if is_alnum c && prefix_of (b']' ∷ []) (d ∷ rest) then some (c ∷ id) else none

-- `_ACCEPTANCE_ID_RE.match(line)`: the id.
unfoldable pub acceptance_id : List ℕ → Option (List ℕ)
unfolding lstrip span_id strip_prefix
acceptance_id line = elim (strip_prefix (codes "[AC:") (lstrip (drop_bullet (lstrip line)))) [
  | none ↦ none
  | some rest ↦ closed_id (span_id rest)
]

abbrev pub has_codes : List (List ℕ) → List ℕ → Bool
has_codes ids id = any (λ other. eq_codes other id) ids

-- The loop over the lines: the ids and the repeated ids so far.
unfoldable pub collect_ids :
    List (List ℕ) → List (List ℕ) → List (List ℕ) → List (List ℕ) × List (List ℕ)
unfolding acceptance_id
collect_ids ids dups [] = (ids, dups)
collect_ids ids dups (line ∷ rest) = elim (acceptance_id line) [
  | none ↦ collect_ids ids dups rest
  | some id ↦ elim (has_codes ids id) [
    | true ↦ collect_ids ids (dups ++ id ∷ []) rest
    | false ↦ collect_ids (ids ++ id ∷ []) dups rest
  ]
]

-- `parse_acceptance_ids`: the ValueError holds the repeated ids, here in the order of the task.
unfoldable pub parse_acceptance_ids : String → Result (List (List ℕ)) (List (List ℕ))
unfolding collect_ids
parse_acceptance_ids task =
    let (ids, dups) = collect_ids [] [] (lines task) in if is_nil dups then ok ids else raise dups
