-- ===== src/Json.antt =====
-- The values that `json.loads` returns, and Python's questions about them: `isinstance`,
-- truth, `dict.get`, `in`, `==`.
use fv.Prelude.{
  ℕ, suc, ◌-◌, ◌*◌, ◌^◌, String, Bool, true, false, ◌&&◌, not, Option, none, some, List, [], ◌∷◌,
  nat_eq, ◌==◌, if◌then◌else◌,
}

-- `negsuc n` is -(n + 1).
pub data ℤ : Type 0 where
  pos : ℕ → ℤ
  negsuc : ℕ → ℤ

-- `float m k` is the finite float m / 2 ^ k.
mutual
  pub data Value : Type 0 where
    null : Value
    bool : Bool → Value
    int : ℤ → Value
    float : ℤ → ℕ → Value
    str : String → Value
    arr : Values → Value
    obj : Fields → Value

  pub data Values : Type 0 where
    nil : Values
    cons : Value → Values → Values

  pub data Fields : Type 0 where
    end : Fields
    field : String → Value → Fields → Fields

abbrev pub items : Values → List Value
items nil = []
items (cons v vs) = v ∷ items vs

abbrev pub of_list : List Value → Values
of_list [] = nil
of_list (v ∷ vs) = cons v (of_list vs)

abbrev pub find_field : String → Fields → Option Value
find_field k end = none
find_field k (field j v r) = if j == k then some v else find_field k r

abbrev pub or_null : Option Value → Value
or_null none = null
or_null (some v) = v

-- `d.get(k)`; also `d[k]`, where the key is known to be there.
unfoldable pub get : String → Fields → Value
get k d = or_null (find_field k d)

-- `k in d`
unfoldable pub has : String → Fields → Bool
has k d = elim (find_field k d) [ none ↦ false | some _ ↦ true ]

abbrev pub as_str : Value → Option String
as_str (str s) = some s
as_str _ = none

abbrev pub as_list : Value → Option (List Value)
as_list (arr vs) = some (items vs)
as_list _ = none

abbrev pub as_obj : Value → Option Fields
as_obj (obj d) = some d
as_obj _ = none

abbrev pub is_null : Value → Bool
is_null null = true
is_null _ = false

abbrev pub is_bool : Value → Bool
is_bool (bool _) = true
is_bool _ = false

-- `isinstance(v, int)`: a Boolean is an int.
abbrev pub is_int : Value → Bool
is_int (bool _) = true
is_int (int _) = true
is_int _ = false

-- `isinstance(v, str) and p(v)`
abbrev pub str_with : (String → Bool) → Value → Bool
str_with p (str s) = p s
str_with p _ = false

abbrev pub is_zero : ℤ → Bool
is_zero (pos n) = nat_eq n 0
is_zero (negsuc n) = false

-- `bool(v)`
abbrev pub truthy : Value → Bool
truthy null = false
truthy (bool b) = b
truthy (int z) = not (is_zero z)
truthy (float m k) = not (is_zero m)
truthy (str s) = not (s == "")
truthy (arr nil) = false
truthy (arr (cons _ _)) = true
truthy (obj end) = false
truthy (obj (field _ _ _)) = true

-- `v in ("", [], {})`
abbrev pub is_empty : Value → Bool
is_empty (str s) = s == ""
is_empty (arr nil) = true
is_empty (obj end) = true
is_empty _ = false

-- The integer z * 2 ^ k.
abbrev scaled : ℤ → ℕ → ℤ
scaled (pos n) k = pos (n * 2 ^ k)
scaled (negsuc n) k = negsuc (suc n * 2 ^ k - 1)

abbrev eq_ℤ : ℤ → ℤ → Bool
eq_ℤ (pos a) (pos b) = nat_eq a b
eq_ℤ (negsuc a) (negsuc b) = nat_eq a b
eq_ℤ _ _ = false

-- `v == m / 2 ^ k`. A Boolean is 0 or 1.
abbrev eq_number : ℤ → ℕ → Value → Bool
eq_number m k (bool b) = eq_ℤ m (scaled (pos (if b then 1 else 0)) k)
eq_number m k (int z) = eq_ℤ m (scaled z k)
eq_number m k (float n j) = eq_ℤ (scaled m j) (scaled n k)
eq_number m k _ = false

abbrev count_fields : Fields → ℕ
count_fields end = 0
count_fields (field k v d) = suc (count_fields d)

-- `v == w`. Two dicts are equal if they have the same keys, at equal values.
unfoldable mutual
  pub py_eq : Value → Value → Bool
  py_eq null w = is_null w
  py_eq (bool b) w = eq_number (pos (if b then 1 else 0)) 0 w
  py_eq (int z) w = eq_number z 0 w
  py_eq (float m k) w = eq_number m k w
  py_eq (str s) w = str_with (λ t. s == t) w
  py_eq (arr vs) w = elim (as_list w) [ none ↦ false | some ws ↦ eq_values vs ws ]
  py_eq (obj d) w = elim (as_obj w) [
    | none ↦ false
    | some e ↦ nat_eq (count_fields d) (count_fields e) && eq_fields d e
  ]

  eq_values : Values → List Value → Bool
  eq_values nil ws = elim ws [ [] ↦ true | _ ∷ _ ↦ false ]
  eq_values (cons v vs) ws = elim ws [ [] ↦ false | w ∷ rest ↦ py_eq v w && eq_values vs rest ]

  eq_fields : Fields → Fields → Bool
  eq_fields end e = true
  eq_fields (field k v d) e =
      elim (find_field k e) [ none ↦ false | some w ↦ py_eq v w ] && eq_fields d e
