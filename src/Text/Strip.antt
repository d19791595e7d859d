-- ===== src/Text/Strip.antt =====
-- `lstrip`, `strip` and `"\n".join` on the code points of a text.
use fv.Prelude.{ℕ, List, [], ◌∷◌, ◌++◌, if◌then◌else◌}
use fv.Text.{is_space}

-- `text.lstrip()`
unfoldable pub lstrip : List ℕ → List ℕ
unfolding is_space
lstrip [] = []
lstrip (c ∷ cs) = let rest = lstrip cs in if is_space c then rest else c ∷ cs

-- A character in front of what is left of the text behind it.
abbrev pub keep : ℕ → List ℕ → List ℕ
keep c [] = if is_space c then [] else c ∷ []
keep c (d ∷ ds) = c ∷ d ∷ ds

-- `text.rstrip()`
unfoldable pub rstrip : List ℕ → List ℕ
unfolding is_space
rstrip [] = []
rstrip (c ∷ cs) = keep c (rstrip cs)

-- `text.strip()`
unfoldable pub strip : List ℕ → List ℕ
unfolding lstrip rstrip
strip cs = rstrip (lstrip cs)

-- `"\n".join(lines)`
unfoldable pub join_lines : List (List ℕ) → List ℕ
join_lines [] = []
join_lines (l ∷ []) = l
join_lines (l ∷ m ∷ ls) = l ++ 10 ∷ join_lines (m ∷ ls)
