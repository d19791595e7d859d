-- ===== src/Panel/Fenced.antt =====
-- What is in a fence: no line of it looks like an end of the fence or like a mark of the task.
use mathlib.Core.List.{reverse, reverse_aux, append_assoc}
use fv.Prelude.{
  split_not, split_and, join_and, ℕ, String, Bool, true, false, ◌&&◌, ◌||◌, not, List, [], ◌∷◌,
  ◌++◌, ◌≡◌, refl, sym, ◌∙◌, ap, ap₂, arith, if◌then◌else◌, map, all, any, nat_eq,
}
use fv.Text.{codes, lines, split_lines, is_line_end, prefix_of, eq_codes}
use fv.Text.Strip.{lstrip, rstrip, strip, join_lines, keep}
use fv.Panel.Untrusted.{
  delimiter, is_delimiter, is_marker, neutralise, opening, closing, wrap_untrusted,
}

-- A text without line ends.
abbrev pub one_line : List ℕ → Bool
one_line cs = all (λ c. not (is_line_end c)) cs

-- A character that ends no line joins the line.
split_step :
    (acc : List ℕ) (c : ℕ) (cs : List ℕ)
    → is_line_end c ≡ false
    → split_lines acc false (c ∷ cs) ≡ split_lines (c ∷ acc) false cs
unfolding split_lines
split_step acc c cs goes =
    ap
      (λ b. elim b [
        | true ↦ reverse acc ∷ split_lines [] (nat_eq c 13) cs
        | false ↦ split_lines (c ∷ acc) false cs
      ])
      goes

-- A line ends at the first line feed.
split-line :
    (acc l r : List ℕ)
    → one_line l ≡ true
    → split_lines acc false (l ++ 10 ∷ r) ≡ reverse_aux acc l ∷ split_lines [] false r
unfolding split_lines
split-line acc [] r h = refl
split-line acc (c ∷ cs) r h =
    let (goes, rest) = split_not (is_line_end c) h in
    split_step acc c (cs ++ 10 ∷ r) goes ∙ split-line (c ∷ acc) cs r rest

-- The last line needs no line feed.
split-last :
    (acc : List ℕ) (c : ℕ) (cs : List ℕ)
    → one_line (c ∷ cs) ≡ true
    → split_lines acc false (c ∷ cs) ≡ reverse_aux acc (c ∷ cs) ∷ []
unfolding split_lines
split-last acc c [] h = split_step acc c [] (split_not (is_line_end c) h).0
split-last acc c (d ∷ ds) h =
    let (goes, rest) = split_not (is_line_end c) h in
    split_step acc c (d ∷ ds) goes ∙ split-last (c ∷ acc) d ds rest

one_line-reverse_aux :
    (acc l : List ℕ) → one_line acc ≡ true → one_line l ≡ true → one_line (reverse_aux acc l) ≡ true
one_line-reverse_aux [] l h k = k
one_line-reverse_aux (c ∷ acc) l h k =
    let (goes, rest) = split_not (is_line_end c) h in
    one_line-reverse_aux acc (c ∷ l) rest (ap (λ b. not b && one_line l) goes ∙ k)

lines_step :
    (acc : List ℕ) (c : ℕ) (cs : List ℕ) (swallow ends : Bool)
    → is_line_end c ≡ ends
    → one_line acc ≡ true
    → ((acc : List ℕ) (after_cr : Bool)
        → one_line acc ≡ true
        → all one_line (split_lines acc after_cr cs) ≡ true)
    → all one_line (elim swallow [
      | true ↦ split_lines acc false cs
      | false ↦ elim ends [
        | true ↦ reverse acc ∷ split_lines [] (nat_eq c 13) cs
        | false ↦ split_lines (c ∷ acc) false cs
      ]
    ])
      ≡ true
lines_step acc c cs true ends e h behind = behind acc false h
lines_step acc c cs false true e h behind =
    join_and (one_line-reverse_aux acc [] h refl) (behind [] (nat_eq c 13) refl)
lines_step acc c cs false false e h behind =
    behind (c ∷ acc) false (ap (λ b. not b && one_line acc) e ∙ h)

-- No line has a line end in it.
split_lines-one_line :
    (cs acc : List ℕ) (after_cr : Bool)
    → one_line acc ≡ true
    → all one_line (split_lines acc after_cr cs) ≡ true
unfolding split_lines
split_lines-one_line [] [] after_cr h = refl
split_lines-one_line [] (c ∷ acc) after_cr h =
    join_and (one_line-reverse_aux (c ∷ acc) [] h refl) refl
split_lines-one_line (c ∷ cs) acc after_cr h =
    lines_step acc c cs (after_cr && nat_eq c 10) (is_line_end c) refl h (split_lines-one_line cs)

-- What opens a mark of a fence; a line that is a mark of the task or the delimiter of evidence.
abbrev pub fence_marks : List String
fence_marks = "<<<UNTRUSTED" ∷ "<<<END-UNTRUSTED" ∷ []

abbrev pub line_marks : List String
line_marks =
    "=== TASK (trusted instruction) ===" ∷ "=== END TASK ===" ∷ "===FV_ROOT-EVIDENCE===" ∷ []

-- A line that could be taken for a mark: behind white space it starts as a mark of a fence, or
-- between white space it is another mark.
abbrev pub forges : List ℕ → Bool
forges line =
    any (λ mark. prefix_of (codes mark) (lstrip line)) fence_marks
    || any (λ mark. eq_codes (strip line) (codes mark)) line_marks

-- A line as it stands in a fence.
abbrev pub fenced : List ℕ → List ℕ
fenced line = if forges line then codes "ESCAPED: " ++ line else line

is_marker-forges : (line : List ℕ) → is_marker line ≡ forges line
unfolding is_marker is_delimiter
is_marker-forges line = ground arith

neutralise-fenced : (line : List ℕ) → neutralise line ≡ fenced line
unfolding neutralise
neutralise-fenced line =
    ap (λ b. if b then codes "ESCAPED: " ++ line else line) (is_marker-forges line)

-- A line that is marked as escaped does not look like a marker.
escaped : (tail : List ℕ) → is_marker (codes "ESCAPED: " ++ tail) ≡ false
unfolding is_marker eq_codes prefix_of
escaped tail = by_rest (rstrip (codes "SCAPED: " ++ tail))
  where
    by_rest :
        (rest : List ℕ)
        → ((eq_codes (keep b'E' rest) (codes "=== TASK (trusted instruction) ===")
              || eq_codes (keep b'E' rest) (codes "=== END TASK ==="))
            || eq_codes (keep b'E' rest) delimiter)
          ≡ false
    by_rest [] = refl
    by_rest (d ∷ ds) = refl

neutralise-is_marker : (line : List ℕ) → is_marker (neutralise line) ≡ false
unfolding neutralise
neutralise-is_marker line = by_look (is_marker line) refl
  where
    by_look :
        (b : Bool)
        → is_marker line ≡ b
        → is_marker (if b then codes "ESCAPED: " ++ line else line) ≡ false
    by_look true looks = escaped line
    by_look false plain = plain

one_line-append :
    (xs ys : List ℕ) → one_line xs ≡ true → one_line ys ≡ true → one_line (xs ++ ys) ≡ true
one_line-append [] ys h k = k
one_line-append (c ∷ cs) ys h k =
    let (goes, rest) = split_not (is_line_end c) h in
    join_and (ap not goes) (one_line-append cs ys rest k)

one_line-neutralise : (line : List ℕ) → one_line line ≡ true → one_line (neutralise line) ≡ true
unfolding neutralise is_line_end
one_line-neutralise line h = by_look (is_marker line)
  where
    by_look : (b : Bool) → one_line (if b then codes "ESCAPED: " ++ line else line) ≡ true
    by_look true = h
    by_look false = h

neutralised-one_line :
    (ls : List (List ℕ)) → all one_line ls ≡ true → all one_line (map neutralise ls) ≡ true
neutralised-one_line [] h = refl
neutralised-one_line (l ∷ ls) h =
    let (first, rest) = split_and (one_line l) h in
    join_and (one_line-neutralise l first) (neutralised-one_line ls rest)

neutralised-is_marker : (ls : List (List ℕ)) → any is_marker (map neutralise ls) ≡ false
neutralised-is_marker [] = refl
neutralised-is_marker (l ∷ ls) = or_false (neutralise-is_marker l) (neutralised-is_marker ls)
  where
    or_false : {a b : Bool} → a ≡ false → b ≡ false → (a || b) ≡ false
    or_false h k = ground arith

-- The lines of a text with lines joined by line feeds.
split-join_lines :
    (l : List ℕ) (ls : List (List ℕ)) (r : List ℕ)
    → all one_line (l ∷ ls) ≡ true
    → split_lines [] false (join_lines (l ∷ ls) ++ 10 ∷ r) ≡ l ∷ (ls ++ split_lines [] false r)
unfolding join_lines
split-join_lines l [] r h = split-line [] l r (split_and (one_line l) h).0
split-join_lines l (m ∷ ms) r h =
    let (first, rest) = split_and (one_line l) h in
    ap (split_lines [] false) (append_assoc l (10 ∷ join_lines (m ∷ ms)) (10 ∷ r))
    ∙ (split-line [] l (join_lines (m ∷ ms) ++ 10 ∷ r) first
        ∙ ap (λ ls. l ∷ ls) (split-join_lines m ms r rest))

-- The lines between the two marks of a fence: none of the text at all is one empty line.
abbrev pub lines_between : List (List ℕ) → List (List ℕ)
lines_between [] = [] ∷ []
lines_between (l ∷ ls) = neutralise l ∷ map neutralise ls

fence_lines :
    (ls : List (List ℕ)) (r : List ℕ)
    → all one_line ls ≡ true
    → split_lines [] false (join_lines (map neutralise ls) ++ 10 ∷ r)
      ≡ lines_between ls ++ split_lines [] false r
unfolding join_lines
fence_lines [] r h = split-line [] [] r refl
fence_lines (l ∷ ls) r h =
    split-join_lines (neutralise l) (map neutralise ls) r (neutralised-one_line (l ∷ ls) h)

between-is_marker : (ls : List (List ℕ)) → any is_marker (lines_between ls) ≡ false
unfolding is_marker lstrip strip prefix_of eq_codes
between-is_marker [] = refl
between-is_marker (l ∷ ls) = neutralised-is_marker (l ∷ ls)

wrapped :
    (label text : String)
    → one_line (codes label) ≡ true
    → (split_lines [] false (wrap_untrusted label text)
        ≡ opening label ∷ (lines_between (lines text) ++ closing label ∷ []))
      × (any is_marker (lines_between (lines text)) ≡ false)
unfolding wrap_untrusted lines is_line_end
wrapped label text h =
    let body = join_lines (map neutralise (lines text)) in
    let ends = one_line-append (codes label) (codes ">>>") h refl in
    (
      split-line [] (opening label) (body ++ 10 ∷ closing label) ends
          ∙ ap (λ ls. opening label ∷ ls)
              (fence_lines (lines text) (closing label)
                  (split_lines-one_line (codes text) [] false refl)
                ∙ ap (λ ls. lines_between (lines text) ++ ls)
                    (split-last [] b'<'
                      (codes "<<END-UNTRUSTED-ARTIFACT label=" ++ codes label ++ codes ">>>")
                      ends)),
      between-is_marker (lines text),
    )

-- The lines of a text as they stand in a fence: a text without a line is an empty line.
abbrev pub fenced_lines : List (List ℕ) → List (List ℕ)
fenced_lines [] = [] ∷ []
fenced_lines (l ∷ ls) = map fenced (l ∷ ls)

map-neutralise : (ls : List (List ℕ)) → map neutralise ls ≡ map fenced ls
map-neutralise [] = refl
map-neutralise (l ∷ ls) = ap₂ (λ m ms. m ∷ ms) (neutralise-fenced l) (map-neutralise ls)

lines_between-fenced_lines : (ls : List (List ℕ)) → lines_between ls ≡ fenced_lines ls
lines_between-fenced_lines [] = refl
lines_between-fenced_lines (l ∷ ls) = map-neutralise (l ∷ ls)

any-forges : (ls : List (List ℕ)) → any forges ls ≡ any is_marker ls
any-forges [] = refl
any-forges (l ∷ ls) = ap₂ (λ a b. a || b) (sym (is_marker-forges l)) (any-forges ls)

-- Under a label without line ends, the lines of a wrapped text are the opening mark, the lines of
-- the text, and the closing mark. A line of the text stands there as it is, but for one that could
-- be taken for a mark: it stands behind `ESCAPED: `. None of the lines between the marks could then
-- be taken for a mark, which is a line that starts, behind white space, with `<<<UNTRUSTED` or
-- `<<<END-UNTRUSTED`, or that is, between white space, a mark of the task or the delimiter of
-- evidence.
pub wrap_untrusted-forges :
    (label text : String)
    → one_line (codes label) ≡ true
    → (split_lines [] false (wrap_untrusted label text)
        ≡ opening label ∷ (fenced_lines (lines text) ++ closing label ∷ []))
      × (any forges (fenced_lines (lines text)) ≡ false)
wrap_untrusted-forges label text h =
    let (split, unmarked) = wrapped label text h in
    let same = lines_between-fenced_lines (lines text) in
    (
      split ∙ ap (λ ls. opening label ∷ (ls ++ closing label ∷ [])) same,
      any-forges (fenced_lines (lines text)) ∙ (ap (any is_marker) (sym same) ∙ unmarked),
    )
