-- ===== src/Dbs/Helpers.antt =====
-- internal/dbs/helppers.go: numbers, patterns, equality and order of values. An Option Bool is none
-- where Go panics: on `==` between two values of one type that has no equality.
use josefina.Prelude.{
  ℕ, Bool, true, false, not, Option, none, some, [], ◌∷◌, ◌&&◌, ◌||◌, ◌==◌, ltb, if◌then◌else◌,
}
use josefina.Prelude.Eq.{◌=?◌, bytes_eq}
use mathlib.Core.List.{reverse}
use josefina.Store.Bytes.{Bytes}
use josefina.Dbs.Value.{
  is_negative, int_beq, Float64, Value, Fields, nil, time, text, bool, signed, unsigned, float,
  json, raw_map, json_list, items, between, no_values, value, no_fields, field, no_maps, map_of,
}

-- Go's order of strings: byte by byte.
unfoldable pub bytes_lt : Bytes → Bytes → Bool
bytes_lt [] [] = false
bytes_lt [] (y ∷ ys) = true
bytes_lt (x ∷ xs) [] = false
bytes_lt (x ∷ xs) (y ∷ ys) = ltb x y || (x == y && bytes_lt xs ys)

-- strings.HasPrefix, strings.HasSuffix and strings.Contains
unfoldable pub has_prefix : Bytes → Bytes → Bool
has_prefix s [] = true
has_prefix [] (p ∷ ps) = false
has_prefix (c ∷ s) (p ∷ ps) = c == p && has_prefix s ps

unfoldable pub has_suffix : Bytes → Bytes → Bool
unfolding has_prefix
has_suffix s p = has_prefix (reverse s) (reverse p)

unfoldable pub contains_text : Bytes → Bytes → Bool
unfolding has_prefix
contains_text [] p = has_prefix [] p
contains_text (c ∷ s) p = has_prefix (c ∷ s) p || contains_text s p

-- '*'
abbrev pub star : ℕ
star = 42

unfoldable pub trim_left : Bytes → Bytes
trim_left [] = []
trim_left (c ∷ s) = let rest = trim_left s in if c == star then rest else c ∷ s

-- strings.Trim(s, "*")
unfoldable pub trim : Bytes → Bytes
unfolding trim_left
trim s = reverse (trim_left (reverse (trim_left s)))

unfoldable pub match_like_star : Bytes → Bytes → Bool
match_like_star val pattern_text =
    if pattern_text =? (star ∷ [])
    then true
    else let starts = has_prefix pattern_text (star ∷ []) in
      let ends = has_suffix pattern_text (star ∷ []) in
      let core = trim pattern_text in
      if core =? []
      then true
      else if starts && ends
      then contains_text val core
      else if starts
      then has_suffix val core
      else if ends
      then has_prefix val core
      else val =? pattern_text

-- The kinds of reflect that the comparisons tell apart.
pub data NumKind : Type 0 where
  signed_int unsigned_int floating : NumKind

abbrev pub is_signed_int_kind : NumKind → Bool
is_signed_int_kind signed_int = true
is_signed_int_kind _ = false

abbrev pub is_unsigned_int_kind : NumKind → Bool
is_unsigned_int_kind unsigned_int = true
is_unsigned_int_kind _ = false

pub data Order : Type 0 where
  less same more : Order

-- numberToInt64, where only the sign of the number is used
abbrev pub negative_int : {F : Type 0} → Value F → Bool
negative_int (signed _ n) = is_negative n
negative_int _ = false

module _ (fl : Float64) where
  open fl use {F, of_signed, of_unsigned, lt, eq}

  unfoldable pub number_to_float64 : Value F → Option (F × NumKind)
  number_to_float64 (signed _ n) = some (of_signed n, signed_int)
  number_to_float64 (unsigned _ n) = some (of_unsigned n, unsigned_int)
  number_to_float64 (float _ x) = some (x, floating)
  number_to_float64 _ = none

  -- `a == b` on interface values: equal types and equal values.
  unfoldable pub go_eq : Value F → Value F → Option Bool
  go_eq nil nil = some true
  go_eq (time a) (time b) = some (a == b)
  go_eq (text a) (text b) = some (a =? b)
  go_eq (bool true) (bool b) = some b
  go_eq (bool false) (bool b) = some (not b)
  go_eq (signed w a) (signed x b) = some (w == x && int_beq a b)
  go_eq (unsigned w a) (unsigned x b) = some (w == x && a == b)
  go_eq (float w a) (float x b) = some (w == x && eq a b)
  go_eq (json _) (json _) = none
  go_eq (raw_map _) (raw_map _) = none
  go_eq (json_list _) (json_list _) = none
  go_eq (items _) (items _) = none
  go_eq (between a b) (between c d) =
      let seconds = go_eq b d in
      elim (go_eq a c) [ none ↦ none | some false ↦ some false | some true ↦ seconds ]
  go_eq _ _ = some false

  -- A signed number below 0 is not compared with an unsigned one.
  unfoldable pub mixed_signs : Value F → NumKind → Value F → NumKind → Bool
  mixed_signs a ka b kb =
      (is_signed_int_kind ka && is_unsigned_int_kind kb && negative_int a)
      || (is_unsigned_int_kind ka && is_signed_int_kind kb && negative_int b)

  -- The fallback of equalsAny: only types that have an equality.
  unfoldable pub comparable_eq : Value F → Value F → Option Bool
  unfolding go_eq
  comparable_eq nil b = some false
  comparable_eq (json _) b = some false
  comparable_eq (raw_map _) b = some false
  comparable_eq (json_list _) b = some false
  comparable_eq (items _) b = some false
  comparable_eq a b = go_eq a b

  unfoldable pub equals_any : Value F → Value F → Option Bool
  unfolding number_to_float64 comparable_eq
  equals_any (time a) (time b) = some (a == b)
  equals_any (time a) b = some false
  equals_any (text a) (text b) = some (a =? b)
  equals_any (text a) b = some false
  equals_any a b = elim (number_to_float64 a) [
    | none ↦ comparable_eq a b
    | some (x, _) ↦ elim (number_to_float64 b) [ none ↦ some false | some (y, _) ↦ some (eq x y) ]
  ]

  unfoldable pub order_of : Bool → Bool → Order
  order_of below above = if below then less else if above then more else same

  unfoldable pub compare_numbers : Value F → Value F → Option Order
  unfolding number_to_float64 mixed_signs order_of
  compare_numbers a b = elim (number_to_float64 a) [
    | none ↦ none
    | some (x, ka) ↦ elim (number_to_float64 b) [
      | none ↦ none
      | some (y, kb) ↦ if mixed_signs a ka b kb then none else some (order_of (lt x y) (lt y x))
    ]
  ]

  unfoldable pub compare_any_ordered : Value F → Value F → Option Order
  unfolding compare_numbers order_of
  compare_any_ordered (time a) (time b) = some (order_of (ltb a b) (ltb b a))
  compare_any_ordered (time a) b = none
  compare_any_ordered (text a) (text b) = some (order_of (bytes_lt a b) (bytes_lt b a))
  compare_any_ordered (text a) b = none
  compare_any_ordered a b = compare_numbers a b

  unfoldable pub lookup_field : Bytes → Fields F → Option (Value F)
  lookup_field k no_fields = none
  lookup_field k (field j v fs) = if j =? k then some v else lookup_field k fs

  both_ends : Option (Value F) → Option (Value F) → Option (Value F × Value F)
  both_ends (some a) (some b) = some (a, b)
  both_ends _ _ = none

  -- An et.Json is no map[string]any, so it gives no range.
  unfoldable pub get_between_range : Value F → Option (Value F × Value F)
  unfolding both_ends lookup_field
  get_between_range (between a b) = some (a, b)
  get_between_range (raw_map m) =
      both_ends (lookup_field (109 ∷ 105 ∷ 110 ∷ []) m) (lookup_field (109 ∷ 97 ∷ 120 ∷ []) m)
  get_between_range (items (value a (value b no_values))) = some (a, b)
  get_between_range (json_list (map_of a (map_of b no_maps))) = some (json a, json b)
  get_between_range _ = none
