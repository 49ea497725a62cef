-- ===== src/Dbs/Operators.antt =====
-- internal/dbs/condition.go: the tests applyOpEq to applyOpNotBetween of a value against s.Value.
--
-- Some of them write the unwrapped operand back to s.Value: a test yields its answer and the new
-- s.Value. None is a panic of Go. Go ranges over a map in a random order:
-- `first` says which entry is taken where a test takes one only. It is written back in place of the
-- map, so that no later test ranges over the same map.
use josefina.Prelude.{
  ℕ, zero, suc, Bool, true, false, not, Option, none, some, ◌&&◌, ◌||◌, ◌==◌, ltb, if◌then◌else◌,
}
use josefina.Store.Bytes.{Bytes}
use josefina.Dbs.Value.{
  Float64, Value, Values, Fields, Maps, nil, time, text, signed, unsigned, float, json, raw_map,
  json_list, items, no_values, value, no_fields, field, no_maps, map_of,
}
use josefina.Dbs.Helpers.{
  bytes_lt, match_like_star, Order, less, more, mixed_signs, number_to_float64, go_eq, equals_any,
  compare_any_ordered, get_between_range,
}

unfoldable pub is_nil : {F : Type 0} → Value F → Bool
is_nil nil = true
is_nil _ = false

-- The order that a test asks for, on each type that has one.
pub record Comparison (F : Type 0) : Type 0 where
  pub times : ℕ → ℕ → Bool
  pub texts : Bytes → Bytes → Bool
  pub floats : F → F → Bool

abbrev pub not_more : Order → Bool
not_more more = false
not_more _ = true

abbrev pub not_less : Order → Bool
not_less less = false
not_less _ = true

unfoldable pub negate : Option Bool → Option Bool
negate none = none
negate (some b) = some (not b)

module _ (fl : Float64) where
  open fl use {F, lt, le, first}

  unfoldable pub first_eq : Maps F → Value F → Option Bool
  unfolding go_eq
  first_eq no_maps val = some false
  first_eq (map_of no_fields ms) val = first_eq ms val
  first_eq (map_of (field _ v _) ms) val = go_eq fl val v

  unfoldable pub eq_operand : Value F → Value F → Option Bool
  unfolding first_eq go_eq
  eq_operand (json_list ms) val = first_eq ms val
  eq_operand s val = go_eq fl val s

  unfoldable pub apply_op_eq : Value F → Value F → Option Bool
  unfolding is_nil eq_operand
  apply_op_eq s val = if is_nil val then some false else eq_operand s val

  unfoldable pub apply_op_neg : Value F → Value F → Option Bool
  unfolding apply_op_eq negate
  apply_op_neg s val = negate (apply_op_eq s val)

  abbrev pub less_than : Comparison F
  less_than = record { times = λ a b. ltb a b; texts = λ a b. bytes_lt a b; floats = λ a b. lt a b }

  abbrev pub less_or_equal : Comparison F
  less_or_equal = record {
    times = λ a b. ltb a b || a == b;
    texts = λ a b. not (bytes_lt b a);
    floats = λ a b. le a b;
  }

  abbrev pub more_than : Comparison F
  more_than = record { times = λ a b. ltb b a; texts = λ a b. bytes_lt b a; floats = λ a b. lt b a }

  abbrev pub more_or_equal : Comparison F
  more_or_equal = record {
    times = λ a b. ltb b a || a == b;
    texts = λ a b. not (bytes_lt a b);
    floats = λ a b. le b a;
  }

  unfoldable pub ordered_time : Comparison F → ℕ → Value F → Bool
  ordered_time c b (time a) = c.times a b
  ordered_time c b _ = false

  unfoldable pub ordered_text : Comparison F → Bytes → Value F → Bool
  ordered_text c b (text a) = c.texts a b
  ordered_text c b _ = false

  unfoldable pub ordered_number : Comparison F → Value F → Value F → Bool
  unfolding number_to_float64 mixed_signs
  ordered_number c s val = elim (number_to_float64 fl val) [
    | none ↦ false
    | some (x, ka) ↦ elim (number_to_float64 fl s) [
      | none ↦ false
      | some (y, kb) ↦ if mixed_signs fl val ka s kb then false else c.floats x y
    ]
  ]

  -- The switch on the type of s.Value, the first argument after the comparison: a list is
  -- replaced by its first value and tested again.
  unfoldable mutual
    unfolding ordered_time ordered_text ordered_number

    pub ordered : Comparison F → Value F → Value F → Bool × Value F
    ordered c (time b) val = (ordered_time c b val, time b)
    ordered c (text b) val = (ordered_text c b val, text b)
    ordered c (signed w b) val = (ordered_number c (signed w b) val, signed w b)
    ordered c (unsigned w b) val = (ordered_number c (unsigned w b) val, unsigned w b)
    ordered c (float w b) val = (ordered_number c (float w b) val, float w b)
    ordered c (json_list ms) val = ordered_maps c (json_list ms) ms val
    ordered c (items (value v vs)) val = ordered c v val
    ordered c s val = (false, s)

    pub ordered_maps : Comparison F → Value F → Maps F → Value F → Bool × Value F
    ordered_maps c s no_maps val = (false, s)
    ordered_maps c s (map_of no_fields ms) val = ordered_maps c s ms val
    ordered_maps c s (map_of (field k v fs) ms) val =
        ordered_first c s (first (field k v fs)) (field k v fs) val

    -- The entry at this place, or the last.
    pub ordered_first : Comparison F → Value F → ℕ → Fields F → Value F → Bool × Value F
    ordered_first c s n no_fields val = (false, s)
    ordered_first c s zero (field _ v _) val = ordered c v val
    ordered_first c s (suc n) (field _ v no_fields) val = ordered c v val
    ordered_first c s (suc n) (field _ v (field k w fs)) val =
        ordered_first c s n (field k w fs) val

  unfoldable pub apply_ordered : Comparison F → Value F → Value F → Bool × Value F
  unfolding is_nil ordered
  apply_ordered c s val = if is_nil val then (false, s) else ordered c s val

  unfoldable pub apply_op_less : Value F → Value F → Bool × Value F
  unfolding apply_ordered
  apply_op_less = apply_ordered less_than

  unfoldable pub apply_op_less_eq : Value F → Value F → Bool × Value F
  unfolding apply_ordered
  apply_op_less_eq = apply_ordered less_or_equal

  unfoldable pub apply_op_more : Value F → Value F → Bool × Value F
  unfolding apply_ordered
  apply_op_more = apply_ordered more_than

  unfoldable pub apply_op_more_eq : Value F → Value F → Bool × Value F
  unfolding apply_ordered
  apply_op_more_eq = apply_ordered more_or_equal

  unfoldable pub like_text : Bytes → Value F → Bool
  unfolding match_like_star
  like_text b (text a) = match_like_star a b
  like_text b _ = false

  unfoldable mutual
    unfolding like_text

    pub like : Value F → Value F → Bool × Value F
    like (text b) val = (like_text b val, text b)
    like (json fs) val = like_first (json fs) (first fs) fs val
    like (raw_map fs) val = like_first (raw_map fs) (first fs) fs val
    like (json_list ms) val = like_maps (json_list ms) ms val
    like (items (value v vs)) val = like v val
    like s val = (false, s)

    pub like_maps : Value F → Maps F → Value F → Bool × Value F
    like_maps s no_maps val = (false, s)
    like_maps s (map_of no_fields ms) val = like_maps s ms val
    like_maps s (map_of (field k v fs) ms) val =
        like_first s (first (field k v fs)) (field k v fs) val

    pub like_first : Value F → ℕ → Fields F → Value F → Bool × Value F
    like_first s n no_fields val = (false, s)
    like_first s zero (field _ v _) val = like v val
    like_first s (suc n) (field _ v no_fields) val = like v val
    like_first s (suc n) (field _ v (field k w fs)) val = like_first s n (field k w fs) val

  unfoldable pub apply_op_like : Value F → Value F → Bool × Value F
  unfolding is_nil like
  apply_op_like s val = if is_nil val then (false, s) else like s val

  either_one : Option Bool → Option Bool → Option Bool
  either_one none rest = none
  either_one (some true) rest = some true
  either_one (some false) rest = rest

  unfoldable pub in_values : Values F → Value F → Option Bool
  unfolding either_one equals_any
  in_values no_values val = some false
  in_values (value v vs) val = either_one (equals_any fl val v) (in_values vs val)

  unfoldable pub in_maps : Maps F → Value F → Option Bool
  unfolding either_one equals_any
  in_maps no_maps val = some false
  in_maps (map_of m ms) val = either_one (equals_any fl val (json m)) (in_maps ms val)

  unfoldable pub in_operand : Value F → Value F → Option Bool
  unfolding in_values in_maps
  in_operand (items vs) val = in_values vs val
  in_operand (json_list ms) val = in_maps ms val
  in_operand s val = some false

  unfoldable pub apply_op_in : Value F → Value F → Option Bool
  unfolding is_nil in_operand
  apply_op_in s val = if is_nil val then some false else in_operand s val

  unfoldable pub apply_op_not_in : Value F → Value F → Option Bool
  unfolding apply_op_in negate
  apply_op_not_in s val = negate (apply_op_in s val)

  unfoldable pub apply_op_is : Value F → Value F → Option Bool
  unfolding is_nil equals_any
  apply_op_is s val =
      if is_nil val && is_nil s
      then some true
      else if is_nil val || is_nil s
      then some false
      else equals_any fl val s

  unfoldable pub apply_op_null : Value F → Bool
  unfolding is_nil
  apply_op_null val = is_nil val

  unfoldable pub apply_op_not_null : Value F → Bool
  unfolding apply_op_null
  apply_op_not_null val = not (apply_op_null val)

  unfoldable pub within : Value F → Value F × Value F → Bool
  unfolding is_nil compare_any_ordered
  within val (lower, upper) =
      if is_nil lower || is_nil upper then false else elim (compare_any_ordered fl val lower) [
        | none ↦ false
        | some c1 ↦ elim (compare_any_ordered fl val upper) [
          | none ↦ false
          | some c2 ↦ not_less c1 && not_more c2
        ]
      ]

  unfoldable pub apply_op_between : Value F → Value F → Bool
  unfolding is_nil get_between_range within
  apply_op_between s val =
      if is_nil val
      then false
      else elim (get_between_range fl s) [ none ↦ false | some range ↦ within val range ]

  unfoldable pub apply_op_not_between : Value F → Value F → Bool
  unfolding apply_op_between
  apply_op_not_between s val = not (apply_op_between s val)
