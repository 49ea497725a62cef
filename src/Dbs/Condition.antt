-- ===== src/Dbs/Condition.antt =====
-- internal/dbs/condition.go: operators, connectors, conditions and their application.
use josefina.Prelude.{
  ℕ, zero, suc, Bool, true, false, Option, none, some, List, [], ◌∷◌, ◌&&◌, ◌==◌, ◌+◌, ◌-◌, ◌*◌,
  ltb, leb, if◌then◌else◌,
}
use josefina.Prelude.Eq.{◌=?◌, bytes_eq}
use josefina.Store.Bytes.{Bytes}
use josefina.Dbs.Value.{
  ℤ, pos, negsuc, Float64, Value, Fields, Maps, text, json, raw_map, json_list, no_maps, map_of,
}
use josefina.Dbs.Helpers.{lookup_field}
use josefina.Dbs.Operators.{
  apply_op_eq, apply_op_neg, apply_op_less, apply_op_less_eq, apply_op_more, apply_op_more_eq,
  apply_op_like, apply_op_in, apply_op_not_in, apply_op_is, apply_op_null, apply_op_not_null,
  apply_op_between, apply_op_not_between,
}

pub data Operator : Type 0 where
  op_eq op_neg op_less op_less_eq op_more op_more_eq op_like op_in op_not_in op_is op_is_not :
      Operator
  op_null op_not_null op_between op_not_between : Operator

-- NaC, And and Or
pub data Connector : Type 0 where
  nac and or : Connector

-- Its four fields; `operand` is Value and `path` is Field.
pub record Condition (F : Type 0) : Type 0 where
  pub path : Bytes
  pub operator : Operator
  pub operand : Value F
  pub connector : Connector

unfoldable pub condition : {F : Type 0} → Bytes → Value F → Operator → Condition F
condition name v op = record { path = name; operator = op; operand = v; connector = nac }

module _ (fl : Float64) where
  open fl use {F}

  -- A test that leaves s.Value as it is.
  unfoldable pub keep : Value F → Option Bool → Option (Bool × Value F)
  keep s none = none
  keep s (some b) = some (b, s)

  unfoldable pub apply_operator : Operator → Value F → Value F → Option (Bool × Value F)
  unfolding keep apply_op_eq apply_op_neg apply_op_less apply_op_less_eq apply_op_more
      apply_op_more_eq apply_op_like apply_op_in apply_op_not_in apply_op_is apply_op_null
      apply_op_not_null apply_op_between apply_op_not_between
  apply_operator op_eq s val = keep s (apply_op_eq fl s val)
  apply_operator op_neg s val = keep s (apply_op_neg fl s val)
  apply_operator op_less s val = some (apply_op_less fl s val)
  apply_operator op_less_eq s val = some (apply_op_less_eq fl s val)
  apply_operator op_more s val = some (apply_op_more fl s val)
  apply_operator op_more_eq s val = some (apply_op_more_eq fl s val)
  apply_operator op_like s val = some (apply_op_like fl s val)
  apply_operator op_in s val = keep s (apply_op_in fl s val)
  apply_operator op_not_in s val = keep s (apply_op_not_in fl s val)
  apply_operator op_is s val = keep s (apply_op_is fl s val)
  apply_operator op_null s val = some (apply_op_null fl val, s)
  apply_operator op_not_null s val = some (apply_op_not_null fl val, s)
  apply_operator op_between s val = some (apply_op_between fl s val, s)
  apply_operator op_not_between s val = some (apply_op_not_between fl s val, s)
  apply_operator op_is_not s val = some (false, s)

  unfoldable pub with_operand : Condition F → Bool × Value F → Bool × Condition F
  with_operand c (answer, v) = (answer, record c { operand = v })

  -- ApplyToValue: the answer, and the condition with the s.Value that the test leaves.
  unfoldable pub apply_to_value : Condition F → Value F → Option (Bool × Condition F)
  unfolding apply_operator with_operand
  apply_to_value c val = elim (apply_operator c.operator c.operand val) [
    | none ↦ none
    | some r ↦ some (with_operand c r)
  ]

  digits : ℕ → Bytes → Option ℕ
  digits n [] = some n
  digits n (c ∷ cs) =
      let rest = digits (n * 10 + (c - 48)) cs in if leb 48 c && ltb c 58 then rest else none

  some_digits : Bytes → Option ℕ
  unfolding digits
  some_digits [] = none
  some_digits (c ∷ cs) = digits 0 (c ∷ cs)

  -- An int: outside of it strconv.Atoi errs.
  to_int : Bool → ℕ → Option ℤ
  to_int false n = if ltb n 9223372036854775808 then some (pos n) else none
  to_int true zero = some (pos 0)
  to_int true (suc n) = if ltb n 9223372036854775808 then some (negsuc n) else none

  unsigned_part : Bool → Option ℕ → Option ℤ
  unfolding to_int
  unsigned_part minus none = none
  unsigned_part minus (some n) = to_int minus n

  -- strconv.Atoi: a sign may stand before the digits.
  unfoldable pub atoi : Bytes → Option ℤ
  unfolding some_digits unsigned_part
  atoi [] = none
  atoi (c ∷ cs) =
      if c == 45
      then unsigned_part true (some_digits cs)
      else if c == 43
      then unsigned_part false (some_digits cs)
      else unsigned_part false (some_digits (c ∷ cs))

  -- What one field of the path does: a panic, no field, a value, or the next data and array.
  pub data Visit : Type 0 where
    broken missing : Visit
    found : Value F → Visit
    onward : Fields F → Maps F → Visit

  visit_value : Fields F → Maps F → Value F → Visit
  visit_value data_in array (json m) = onward m array
  visit_value data_in array (raw_map m) = onward m array
  visit_value data_in array (json_list ms) = onward data_in ms
  visit_value data_in array v = found v

  visit_field : Bytes → Fields F → Maps F → Visit
  unfolding visit_value lookup_field
  visit_field name data_in array = elim (lookup_field fl name data_in) [
    | none ↦ missing
    | some v ↦ visit_value data_in array v
  ]

  nth : Maps F → ℕ → Option (Fields F)
  nth no_maps _ = none
  nth (map_of m ms) zero = some m
  nth (map_of m ms) (suc n) = nth ms n

  -- `len(array) > idx` holds of a negative idx, and array[idx] panics.
  visit : Bytes → Fields F → Maps F → Visit
  unfolding atoi nth visit_field
  visit name data_in array = elim (atoi name) [
    | none ↦ visit_field name data_in array
    | some (negsuc _) ↦ broken
    | some (pos i) ↦ elim (nth array i) [
      | none ↦ visit_field name data_in array
      | some m ↦ onward m no_maps
    ]
  ]

  -- fieldValue after the path is split: a panic, or the value if the path leads to one.
  unfoldable pub field_value : List Bytes → Fields F → Maps F → Option (Option (Value F))
  unfolding visit
  field_value [] data_in array = some none
  field_value (name ∷ names) data_in array = elim (visit name data_in array) [
    | broken ↦ none
    | missing ↦ some none
    | found v ↦ some (some v)
    | onward m ms ↦ field_value names m ms
  ]

  -- ApplyToData. `split` is strs.Split at ">".
  unfoldable pub apply_to_data :
      (Bytes → List Bytes) → Condition F → Fields F → Option (Bool × Condition F)
  unfolding field_value apply_to_value
  apply_to_data split c item = elim (field_value (split c.path) item no_maps) [
    | none ↦ none
    | some none ↦ some (false, c)
    | some (some val) ↦ apply_to_value c val
  ]

  add_key : Bytes → Bool → List Bytes → List Bytes
  add_key key answer rest = if answer then key ∷ rest else rest

  apply_to_keys : Condition F → List Bytes → Option (List Bytes × Condition F)
  unfolding apply_to_value add_key
  apply_to_keys c [] = some ([], c)
  apply_to_keys c (key ∷ keys) = elim (apply_to_value c (text key)) [
    | none ↦ none
    | some (answer, c1) ↦ elim (apply_to_keys c1 keys) [
      | none ↦ none
      | some (rest, c2) ↦ some (add_key key answer rest, c2)
    ]
  ]

  unfoldable pub apply_to_index : Condition F → List Bytes → Option (List Bytes × Condition F)
  unfolding apply_to_keys
  apply_to_index c keys =
      let result = apply_to_keys c keys in if c.path =? [] then some ([], c) else result
