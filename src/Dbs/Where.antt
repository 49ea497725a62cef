-- ===== src/Dbs/Where.antt =====
-- internal/dbs/where.go: the list of conditions and the item test of Run.
use josefina.Prelude.{Bool, true, false, Option, none, some, List, [], ◌∷◌, ◌++◌, ◌&&◌, ◌||◌}
use josefina.Store.Bytes.{Bytes}
use josefina.Dbs.Value.{Float64, Fields}
use josefina.Dbs.Condition.{Connector, nac, and, or, Condition, apply_to_data}

unfoldable pub with_connector : {F : Type 0} → Connector → Condition F → Condition F
with_connector k c = record c { connector = k }

-- The connector that Add gives: And in place of NaC, but for the first condition.
unfoldable pub added : {F : Type 0} → List (Condition F) → Connector → Connector
added [] k = k
added (_ ∷ _) nac = and
added (_ ∷ _) k = k

unfoldable pub add : {F : Type 0} → List (Condition F) → Condition F → List (Condition F)
unfolding with_connector added
add cs c = cs ++ with_connector (added cs c.connector) c ∷ []

unfoldable pub add_and : {F : Type 0} → List (Condition F) → Condition F → List (Condition F)
unfolding with_connector add
add_and cs c = add cs (with_connector and c)

unfoldable pub add_or : {F : Type 0} → List (Condition F) → Condition F → List (Condition F)
unfolding with_connector add
add_or cs c = add cs (with_connector or c)

-- ok of validateItem after a condition, from ok before it and the condition's answer.
unfoldable pub connect : Connector → Bool → Bool → Bool
connect nac before answer = before
connect and before answer = before && answer
connect or before answer = before || answer

module _ (fl : Float64) (split : Bytes → List Bytes) where
  open fl use {F}

  -- The loop of validateItem after its first round, entered with `ok` true: the last `ok`, and the
  -- conditions with the operands that the tests leave. It stops when ok is false.
  unfoldable pub validate_rest : List (Condition F) → Fields F → Option (Bool × List (Condition F))
  unfolding apply_to_data connect
  validate_rest [] item = some (true, [])
  validate_rest (c ∷ cs) item =
      let rest = validate_rest cs item in
      elim (apply_to_data fl split c item) [
        | none ↦ none
        | some (answer, c1) ↦ elim (connect c.connector true answer) [
          | false ↦ some (false, c1 ∷ cs)
          | true ↦ elim rest [ none ↦ none | some (last, cs1) ↦ some (last, c1 ∷ cs1) ]
        ]
      ]

  -- validateItem, up to addResult: with no condition ok stays false.
  unfoldable pub validate_item : List (Condition F) → Fields F → Option (Bool × List (Condition F))
  unfolding validate_rest apply_to_data
  validate_item [] item = some (false, [])
  validate_item (c ∷ cs) item =
      let rest = validate_rest cs item in
      elim (apply_to_data fl split c item) [
        | none ↦ none
        | some (false, c1) ↦ some (false, c1 ∷ cs)
        | some (true, c1) ↦ elim rest [ none ↦ none | some (last, cs1) ↦ some (last, c1 ∷ cs1) ]
      ]
