-- ===== src/Panel/Criteria.antt =====
-- The ids of acceptance criteria that `parse_acceptance_ids` returns.
use mathlib.Core.List.{append_assoc, append-nil}
use fv.Prelude.{
  ℕ, String, Bool, true, false, ◌&&◌, not, none, some, List, [], ◌∷◌, ◌++◌, ◌≡◌, refl, sym, ◌∙◌, ap,
  Bool-cases, Option-cases, inl, inr, is_nil, concat_map,
}
use fv.Prelude.Errors.{ok, ok-injective}
use fv.Text.{lines}
use fv.Panel.Untrusted.{acceptance_id, has_codes, collect_ids, parse_acceptance_ids}

abbrev tag : List ℕ → List (List ℕ)
tag line = elim (acceptance_id line) [ none ↦ [] | some id ↦ id ∷ [] ]

-- The ids that the lines of a task are tagged with, in their order.
abbrev pub tags : List (List ℕ) → List (List ℕ)
tags = concat_map tag

-- No text is among those seen or comes twice.
abbrev pub fresh_onto : List (List ℕ) → List (List ℕ) → Bool
fresh_onto seen [] = true
fresh_onto seen (id ∷ ids) = not (has_codes seen id) && fresh_onto (seen ++ id ∷ []) ids

snoc-not_nil : {A : Type 0} (xs : List A) (x : A) → is_nil (xs ++ x ∷ []) ≡ false
snoc-not_nil [] x = refl
snoc-not_nil (y ∷ ys) x = refl

-- Repeated ids stay on the list.
collect-repeated :
    (ids dups ls : List (List ℕ)) → is_nil dups ≡ false → is_nil (collect_ids ids dups ls).1 ≡ false
unfolding collect_ids
collect-repeated ids dups [] h = h
collect-repeated ids dups (line ∷ rest) h = elim (Option-cases (acceptance_id line)) [
  | inl plain ↦ rw (plain, collect_ids) (collect-repeated ids dups rest h)
  | inr (id, tagged) ↦ elim (Bool-cases (has_codes ids id)) [
    | inl again ↦
        rw (tagged, again, collect_ids)
          (collect-repeated ids (dups ++ id ∷ []) rest (snoc-not_nil dups id))
    | inr new ↦ rw (tagged, new, collect_ids) (collect-repeated (ids ++ id ∷ []) dups rest h)
  ]
]

collect-tags :
    (ids ls : List (List ℕ))
    → is_nil (collect_ids ids [] ls).1 ≡ true
    → ((collect_ids ids [] ls).0 ≡ ids ++ tags ls) × (fresh_onto ids (tags ls) ≡ true)
unfolding collect_ids
collect-tags ids [] h = (sym (append-nil ids), refl)
collect-tags ids (line ∷ rest) h = elim (Option-cases (acceptance_id line)) [
  | inl plain ↦ rw (plain, collect_ids, tag) (collect-tags ids rest (rw (plain, collect_ids) at h))
  | inr (id, tagged) ↦ elim (Bool-cases (has_codes ids id)) [
    | inl again ↦
        absurd (cc (collect-repeated ids (id ∷ []) rest refl, rw (tagged, again, collect_ids) at h))
    | inr new ↦
        let (grown, fresh) =
          collect-tags (ids ++ id ∷ []) rest (rw (tagged, new, collect_ids) at h) in
        rw (tagged, new, collect_ids, tag) (grown ∙ append_assoc ids (id ∷ []) (tags rest), fresh)
  ]
]

-- If the ids of a task parse, they are the tags of its lines in their order, and none comes twice.
pub parse_acceptance_ids-tags :
    (task : String) (ids : List (List ℕ))
    → parse_acceptance_ids task ≡ ok ids
    → (ids ≡ tags (lines task)) × (fresh_onto [] ids ≡ true)
unfolding parse_acceptance_ids
parse_acceptance_ids-tags task ids h =
    elim (Bool-cases (is_nil (collect_ids [] [] (lines task)).1)) [
      | inr twice ↦ absurd (cc (rw (twice, parse_acceptance_ids) at h))
      | inl once ↦
          let (same, fresh) = collect-tags [] (lines task) once in
          let all_ids = sym (ok-injective (rw (once, parse_acceptance_ids) at h)) ∙ same in
          (all_ids, ap (fresh_onto []) all_ids ∙ fresh)
    ]
