-- ===== src/Dbs/Build.antt =====
-- internal/dbs/condition.go: ToOperator, Operator.Str and the constructors of conditions.
use josefina.Prelude.{◌≡◌, refl, none, some, List, [], ◌∷◌, String}
use josefina.Prelude.Eq.{bytes_eq, string_eq}
use josefina.Prelude.Assoc
use josefina.Store.Bytes.{Bytes}
use josefina.Dbs.Value.{Value, Values, nil, items, between}
use josefina.Dbs.Condition.{
  Operator, op_eq, op_neg, op_less, op_less_eq, op_more, op_more_eq, op_like, op_in, op_not_in,
  op_is, op_is_not, op_null, op_not_null, op_between, op_not_between, Condition, condition,
}

abbrev pub operators : List (String × Operator)
operators =
    ("eq", op_eq)
    ∷ ("neg", op_neg)
    ∷ ("less", op_less)
    ∷ ("less_eq", op_less_eq)
    ∷ ("more", op_more)
    ∷ ("more_eq", op_more_eq)
    ∷ ("like", op_like)
    ∷ ("in", op_in)
    ∷ ("not_in", op_not_in)
    ∷ ("is", op_is)
    ∷ ("is_not", op_is_not)
    ∷ ("null", op_null)
    ∷ ("not_null", op_not_null)
    ∷ ("between", op_between)
    ∷ ("not_between", op_not_between)
    ∷ []

unfoldable pub to_operator : String → Operator
to_operator s = elim (Assoc.lookup s operators) [ none ↦ op_eq | some op ↦ op ]

-- Operator.Str
unfoldable pub operator_str : Operator → String
operator_str op_eq = "eq"
operator_str op_neg = "neg"
operator_str op_less = "less"
operator_str op_less_eq = "less_eq"
operator_str op_more = "more"
operator_str op_more_eq = "more_eq"
operator_str op_like = "like"
operator_str op_in = "in"
operator_str op_not_in = "not_in"
operator_str op_is = "is"
operator_str op_is_not = "is_not"
operator_str op_null = "null"
operator_str op_not_null = "not_null"
operator_str op_between = "between"
operator_str op_not_between = "not_between"

-- The name of an operator is read back as the operator.
pub to_operator-operator_str : (op : Operator) → to_operator (operator_str op) ≡ op
unfolding to_operator operator_str Assoc.lookup
to_operator-operator_str op_eq = refl
to_operator-operator_str op_neg = refl
to_operator-operator_str op_less = refl
to_operator-operator_str op_less_eq = refl
to_operator-operator_str op_more = refl
to_operator-operator_str op_more_eq = refl
to_operator-operator_str op_like = refl
to_operator-operator_str op_in = refl
to_operator-operator_str op_not_in = refl
to_operator-operator_str op_is = refl
to_operator-operator_str op_is_not = refl
to_operator-operator_str op_null = refl
to_operator-operator_str op_not_null = refl
to_operator-operator_str op_between = refl
to_operator-operator_str op_not_between = refl

module _ {F : Type 0} where
  unfoldable pub eq_to : Bytes → Value F → Condition F
  unfolding condition
  eq_to name v = condition name v op_eq

  unfoldable pub neg_to : Bytes → Value F → Condition F
  unfolding condition
  neg_to name v = condition name v op_neg

  unfoldable pub less_to : Bytes → Value F → Condition F
  unfolding condition
  less_to name v = condition name v op_less

  unfoldable pub less_eq_to : Bytes → Value F → Condition F
  unfolding condition
  less_eq_to name v = condition name v op_less_eq

  unfoldable pub more_to : Bytes → Value F → Condition F
  unfolding condition
  more_to name v = condition name v op_more

  unfoldable pub more_eq_to : Bytes → Value F → Condition F
  unfolding condition
  more_eq_to name v = condition name v op_more_eq

  unfoldable pub like_to : Bytes → Value F → Condition F
  unfolding condition
  like_to name v = condition name v op_like

  unfoldable pub in_list : Bytes → Values F → Condition F
  unfolding condition
  in_list name vs = condition name (items vs) op_in

  unfoldable pub not_in_list : Bytes → Values F → Condition F
  unfolding condition
  not_in_list name vs = condition name (items vs) op_not_in

  unfoldable pub is_same : Bytes → Value F → Condition F
  unfolding condition
  is_same name v = condition name v op_is

  unfoldable pub is_not_same : Bytes → Value F → Condition F
  unfolding condition
  is_not_same name v = condition name v op_is_not

  unfoldable pub is_null : Bytes → Condition F
  unfolding condition
  is_null name = condition name nil op_null

  unfoldable pub is_not_null : Bytes → Condition F
  unfolding condition
  is_not_null name = condition name nil op_not_null

  unfoldable pub is_between : Bytes → Value F → Value F → Condition F
  unfolding condition
  is_between name lower upper = condition name (between lower upper) op_between

  unfoldable pub is_not_between : Bytes → Value F → Value F → Condition F
  unfolding condition
  is_not_between name lower upper = condition name (between lower upper) op_not_between
