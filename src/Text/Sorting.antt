-- ===== src/Text/Sorting.antt =====
-- `sorted` and `dict.fromkeys` keep the members of a list of texts.
use fv.Prelude.{
  suc, ◌∙◌, ap, length, String, ◌||◌, List, [], ◌∷◌, ◌≡◌, refl, arith, contains, dedup, dedup_onto,
  ◌==◌, eq_iff, Bool-cases, inl, inr,
}
use fv.Text.{sorted, insert_sorted}

contains-insert_sorted :
    (s c : String) (xs : List String) → contains (insert_sorted s xs) c ≡ (s == c || contains xs c)
unfolding insert_sorted
contains-insert_sorted s c [] = refl
contains-insert_sorted s c (x ∷ xs) = ground (arith, contains-insert_sorted s c xs)

pub contains-sorted : (xs : List String) (c : String) → contains (sorted xs) c ≡ contains xs c
unfolding sorted
contains-sorted [] c = refl
contains-sorted (x ∷ xs) c =
    ground (arith, contains-insert_sorted x c (sorted xs), contains-sorted xs c)

contains-dedup_onto :
    (seen xs : List String) (c : String)
    → (contains seen c || contains (dedup_onto seen xs) c) ≡ (contains seen c || contains xs c)
contains-dedup_onto seen [] c = refl
contains-dedup_onto seen (x ∷ xs) c = elim (Bool-cases (contains seen x)) [
  | inl old ↦ rw (old, dedup_onto) (ground (arith, eq_iff x c, contains-dedup_onto seen xs c))
  | inr new ↦ rw (new, dedup_onto) (ground (arith, contains-dedup_onto (x ∷ seen) xs c))
]

pub contains-dedup : (xs : List String) (c : String) → contains (dedup xs) c ≡ contains xs c
contains-dedup xs c = contains-dedup_onto [] xs c

insert_sorted-length :
    (s : String) (xs : List String) → length (insert_sorted s xs) ≡ suc (length xs)
unfolding insert_sorted
insert_sorted-length s [] = refl
insert_sorted-length s (x ∷ xs) = ground (arith, insert_sorted-length s xs)

pub sorted-length : (xs : List String) → length (sorted xs) ≡ length xs
unfolding sorted
sorted-length [] = refl
sorted-length (x ∷ xs) = insert_sorted-length x (sorted xs) ∙ ap suc (sorted-length xs)
