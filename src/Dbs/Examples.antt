-- ===== src/Dbs/Examples.antt =====
-- The theorems on conditions at small documents, with numbers in place of float64.
mod Models
mod Commands
mod Json
mod Files
use josefina.Prelude.{
  ℕ, Bool, true, false, some, List, [], ◌∷◌, ◌≡◌, refl, ltb, leb, ◌==◌, ◌&&◌, arith, All,
}
use josefina.Store.Bytes.{Bytes}
use josefina.Dbs.Value.{
  between, unsigned, Float64, Fields, text, items, value, no_values, field, no_fields,
}
use josefina.Dbs.Helpers.{bytes_lt}
use josefina.Dbs.Condition.{Condition, and, op_eq, op_less, op_like, apply_to_data, apply_to_value}
use josefina.Dbs.Where.{validate_item, add_or}
use josefina.Dbs.Facts.{answer_of, Answers, validate_item-all_and, validate_item-add_or}
use josefina.Dbs.Build.{to_operator, operator_str, to_operator-operator_str}
use josefina.Dbs.Operators.{apply_op_between, apply_op_more_eq, apply_op_less_eq}
use josefina.Dbs.Bounds.{IsOrdered, is_scalar, apply_op_between-bounds}

abbrev no_floats : Float64
no_floats = record {
  F = ℕ;
  of_signed = λ n. 0;
  of_unsigned = λ n. n;
  first = λ entries. 1;
  lt = ltb;
  le = leb;
  eq = λ a b. a == b;
}

abbrev no_split : Bytes → List Bytes
no_split path = path ∷ []

-- name < "z"
abbrev in_list : Condition ℕ
in_list = record {
  path = 110 ∷ [];
  operator = op_less;
  operand = items (value (text (122 ∷ [])) no_values);
  connector = and;
}

-- name = "z"
abbrev exact : Condition ℕ
exact = record { path = 110 ∷ []; operator = op_eq; operand = text (122 ∷ []); connector = and }

-- {n: "b"}
abbrev document : Fields ℕ
document = field (110 ∷ []) (text (98 ∷ [])) no_fields

abbrev answer : Condition ℕ → Bool
answer c = elim c.operator [ op_less ↦ true | _ ↦ false ]

answers : All (Answers no_floats no_split document answer) (exact ∷ in_list ∷ [])
unfolding bytes_lt Answers apply_to_data apply_to_value
answers = (refl, (refl, tt))

validate_item-all_and_example :
    answer_of (validate_item no_floats no_split (exact ∷ in_list ∷ []) document) ≡ some false
validate_item-all_and_example =
    validate_item-all_and no_floats no_split document answer exact (in_list ∷ []) answers

validate_item-add_or_example :
    answer_of (validate_item no_floats no_split (add_or (exact ∷ []) in_list) document)
    ≡ answer_of (validate_item no_floats no_split (exact ∷ []) document)
unfolding bytes_lt Answers apply_to_data apply_to_value add_or
validate_item-add_or_example =
    validate_item-add_or no_floats no_split document answer exact [] in_list (refl, tt)
      (refl, (refl, tt))

no_floats-IsOrdered : IsOrdered no_floats
no_floats-IsOrdered = record { le_not_lt = λ x y. ground arith; asymmetric = λ x y h. ground arith }

apply_op_between-bounds_example :
    apply_op_between no_floats (between (unsigned 0 3) (unsigned 0 9)) (unsigned 0 5) ≡ (
      (apply_op_more_eq no_floats (unsigned 0 3) (unsigned 0 5)).0
      && (apply_op_less_eq no_floats (unsigned 0 9) (unsigned 0 5)).0)
unfolding is_scalar
apply_op_between-bounds_example =
    apply_op_between-bounds no_floats (unsigned 0 3) (unsigned 0 9) (unsigned 0 5)
      no_floats-IsOrdered refl refl
