-- ===== src/Dbs/Examples/Json.antt =====
-- The theorem on the JSON of a query, at two conditions, and a condition that is not read back.
use josefina.Prelude.{ℕ, none, List, [], ◌∷◌, ◌≡◌, refl, ap, if◌then◌else◌}
use josefina.Prelude.Eq.{◌=?◌, bytes_eq, beq_refl, beq_apart}
use josefina.Store.Bytes.{Bytes}
use josefina.Dbs.Value.{Value, Fields, no_fields, field, json, text}
use josefina.Dbs.Condition.{Condition, condition, op_eq, op_like, nac, or}
use josefina.Dbs.Build.{operator_str}
use josefina.Dbs.Json.{
  ascii, to_json, to_jsons, add_all, to_condition, by_json, get_where, first_test, set_connector,
  connector_str,
}
use josefina.Dbs.Json.RoundTrip.{Library, by_json-to_jsons}
use josefina.Dbs.Examples.{no_floats}

-- Lowcase of a text of lower case, and Json of a document
abbrev same : Bytes → Bytes
same b = b

abbrev map_in : Value ℕ → Fields ℕ
map_in (json m) = m
map_in _ = no_fields

abbrev map_at : Bytes → Fields ℕ → Fields ℕ
map_at k no_fields = no_fields
map_at k (field j v rest) = if j =? k then map_in v else map_at k rest

library : Library same map_at
library = record {
  gives = λ k m rest. ap (λ b. if b then m else map_at k rest) (beq_refl k);
  and_kept = refl;
  or_kept = refl;
}

-- city = "a", or name like "b"
abbrev two : List (Condition ℕ)
two =
    record { path = ascii "city"; operator = op_eq; operand = text (ascii "a"); connector = nac }
    ∷ record { path = ascii "name"; operator = op_like; operand = text (ascii "b"); connector = or }
    ∷ []

by_json-to_jsons_example :
    by_json no_floats same map_at (to_jsons (add_all [] two)) ≡ add_all [] two
by_json-to_jsons_example =
    by_json-to_jsons no_floats same map_at library two
      ((beq_apart refl, beq_apart refl), ((beq_apart refl, beq_apart refl), tt))

-- A test: a condition on a field of the name "and" is not read back.
to_condition_lost :
    to_condition no_floats same map_at (to_json (condition (ascii "and") (text (ascii "a")) op_eq))
    ≡ none
unfolding to_condition to_json condition operator_str connector_str get_where first_test
    set_connector
to_condition_lost = refl
