-- ===== src/Dbs/Json.antt =====
-- internal/dbs/condition.go and internal/dbs/where.go: conditions and lists of them as JSON.
--
-- `lowcase` is strs.Lowcase, and `sub k m` is m.Json(k) of the library of et.Json.
pub mod RoundTrip
use josefina.Prelude.{Option, none, some, List, [], ◌∷◌, if◌then◌else◌}
use Prim.Native.String.{String}
use josefina.Prelude.Eq.{◌=?◌, bytes_eq}
use josefina.Prelude.Assoc
use Prim.Native.Char.{code}
use josefina.Store.Bytes.{Bytes}
use josefina.Dbs.Value.{Float64, Value, Fields, no_fields, field, json, nil}
use josefina.Dbs.Helpers.{lookup_field}
use josefina.Dbs.Condition.{Operator, op_eq, Connector, nac, and, or, Condition, condition}
use josefina.Dbs.Build.{operators, operator_str}
use josefina.Dbs.Where.{with_connector, add}

-- The bytes of a string of ASCII characters
abbrev pub ascii : String → Bytes
ascii String.[] = []
ascii (String.◌∷◌ c s) = code c ∷ ascii s

abbrev by_bytes : List (String × Operator) → List (Bytes × Operator)
by_bytes [] = []
by_bytes ((name, op) ∷ rest) = (ascii name, op) ∷ by_bytes rest

-- ToOperator, of the bytes of the name
unfoldable pub operator_of : Bytes → Operator
operator_of name = elim (Assoc.lookup name (by_bytes operators)) [ none ↦ op_eq | some op ↦ op ]

-- Connector.Str
unfoldable pub connector_str : Connector → String
connector_str nac = ""
connector_str and = "and"
connector_str or = "or"

module _ {F : Type 0} where
  abbrev pub single : Bytes → Value F → Fields F
  single k v = field k v no_fields

  unfoldable pub to_json : Condition F → Fields F
  unfolding operator_str connector_str
  to_json c =
      let test = single c.path (json (single (ascii (operator_str c.operator)) c.operand)) in
      elim c.connector [
        | nac ↦ test
        | and ↦ single (ascii (connector_str and)) (json test)
        | or ↦ single (ascii (connector_str or)) (json test)
      ]

  -- The conditions of a list, each as JSON: Wheres.ToJson
  unfoldable pub to_jsons : List (Condition F) → List (Fields F)
  unfolding to_json
  to_jsons [] = []
  to_jsons (c ∷ cs) = to_json c ∷ to_jsons cs

  unfoldable pub set_connector : Connector → Option (Condition F) → Option (Condition F)
  unfolding with_connector
  set_connector k none = none
  set_connector k (some c) = some (with_connector k c)

  unfoldable pub add_read : List (Condition F) → Option (Condition F) → List (Condition F)
  unfolding add
  add_read cs none = cs
  add_read cs (some c) = add cs c

  -- The list that Where, And and Or make of conditions.
  unfoldable pub add_all : List (Condition F) → List (Condition F) → List (Condition F)
  unfolding add
  add_all cs [] = cs
  add_all cs (d ∷ ds) = add_all (add cs d) ds

module _ (fl : Float64) where
  open fl use {F}

  -- m[k], nil where the key is missing
  unfoldable pub value_at : Bytes → Fields F → Value F
  unfolding lookup_field
  value_at k m = elim (lookup_field fl k m) [ none ↦ nil | some v ↦ v ]

  -- The first operator in the map of a field.
  unfoldable pub first_test : Bytes → Fields F → Option (Condition F)
  unfolding value_at operator_of condition
  first_test name no_fields = none
  first_test name (field k v rest) =
      some (condition name (value_at k (field k v rest)) (operator_of k))

module _ (fl : Float64) (lowcase : Bytes → Bytes) (sub : Bytes → Fields fl.F → Fields fl.F) where
  open fl use {F}

  -- getWhere, with the fields that are left of those of `all`
  unfoldable pub get_where : Fields F → Fields F → Option (Condition F)
  unfolding first_test
  get_where all no_fields = none
  get_where all (field name v rest) =
      let others = get_where all rest in
      elim (first_test fl name (sub name all)) [ none ↦ others | some c ↦ some c ]

  -- Every branch of the loop returns in its first round.
  unfoldable pub to_condition : Fields F → Option (Condition F)
  unfolding get_where set_connector connector_str
  to_condition no_fields = none
  to_condition (field k v rest) =
      let all = field k v rest in
      if lowcase k =? ascii (connector_str and)
      then set_connector and (get_where (sub k all) (sub k all))
      else if lowcase k =? ascii (connector_str or)
      then set_connector or (get_where (sub k all) (sub k all))
      else get_where all all

  unfoldable pub add_jsons : List (Condition F) → List (Fields F) → List (Condition F)
  unfolding to_condition add_read
  add_jsons cs [] = cs
  add_jsons cs (j ∷ js) = add_jsons (add_read cs (to_condition j)) js

  -- The conditions of ByJson
  unfoldable pub by_json : List (Fields F) → List (Condition F)
  unfolding add_jsons
  by_json js = add_jsons [] js
