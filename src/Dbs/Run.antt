-- ===== src/Dbs/Run.antt =====
-- internal/dbs/where.go: a query on a model, and Select and Hidden of helppers.go.
--
-- The owner of the query is the model that the step changes. A condition holds no query in place of
-- its value. Where Go ranges over a map, the entries come in the order of the list. The calls of the
-- function that Run hands to Iterate are taken whole, one after the other: the workers of a query with
-- several make them at the same time, and then a row can also be lost in an append. `same` is
-- Go's == on two values. The pages of a query are at least 1 and its limits not negative.
pub mod Query
mod Loops
pub mod Rows
pub mod Hidden
use josefina.Prelude.{
  ℕ, zero, suc, ◌+◌, ◌-◌, ◌*◌, Bool, true, false, not, ◌||◌, Option, none, some, List, [], ◌∷◌,
  ◌++◌, if◌then◌else◌, ltb, map, length,
}
use josefina.Prelude.Eq.{◌=?◌, bytes_eq, listed}
use josefina.Prelude.Assoc.{lookup, insert}
use josefina.Store.Result.{Result, ok, err, panic}
use josefina.Store.Bytes.{Bytes}
use josefina.Dbs.Value.{Value, nil, text, Float64, Fields, no_fields, field}
use josefina.Dbs.Condition.{Condition, apply_to_index}
use josefina.Dbs.Where.{validate_item}
use josefina.Dbs.Model.{Model, index_field}
use josefina.Dbs.Step.{Step, pure, lift, continue, ◌>>=◌, ◌>>◌}
use josefina.Dbs.Tx.{Tx, get_recors}
use josefina.Dbs.Objects.{KeyStore, Doc, Ids, value_of, or_else, on_store, store, get, get_index}

-- The document as the conditions read it.
unfoldable pub fields_of : {F : Type 0} → Doc F → Fields F
fields_of [] = no_fields
fields_of ((name, v) ∷ d) = field name v (fields_of d)

unfoldable pub select : {F : Type 0} → List Bytes → Doc F → Doc F
select [] object = []
select {F = F} (key ∷ keys) object =
    let rest : Doc F = select keys object in
    elim (lookup key object) [ none ↦ rest | some val ↦ insert key val rest ]

unfoldable pub hide : {F : Type 0} → List Bytes → Doc F → Doc F
hide keys [] = []
hide keys ((key, value) ∷ object) =
    let rest = hide keys object in if listed key keys then rest else (key, value) ∷ rest

pub record Wheres (F : Type 0) : Type 0 where
  pub selects : List Bytes
  pub hidden : List Bytes
  pub keys : List (Bytes × List Bytes)
  pub asc : List (Bytes × Bool)
  pub offset : ℕ
  pub limit : ℕ
  pub conditions : List (Condition F)
  pub workers : ℕ

unfoldable pub go_on {ℓ} :
    {Q : Type ℓ} → Result (Bool × Q) → (Q → Result (Bool × Q)) → Result (Bool × Q)
go_on (ok (true, q)) f = f q
go_on (ok (false, q)) f = ok (false, q)
go_on (err e) f = err e
go_on panic f = panic

unfoldable pub go_late {ℓ} :
    {Q : Type ℓ} → Result (Bool × Q) → (Bool × Q → Result (Bool × Q)) → Result (Bool × Q)
go_late (ok r) f = f r
go_late (err e) f = err e
go_late panic f = panic

unfoldable pub go_on_or {ℓ} :
    {Q : Type ℓ}
    → Result (Bool × Q)
    → (Q → Result (Bool × Q))
    → (Bool × Q → Result (Bool × Q))
    → Result (Bool × Q)
go_on_or (ok (true, q)) f late = f q
go_on_or (ok (false, q)) f late = late (false, q)
go_on_or (err e) f late = err e
go_on_or panic f late = panic

module _ {F : Type 0} where
  unfoldable pub new_where : Wheres F
  new_where = record {
    selects = [];
    hidden = [];
    keys = [];
    asc = [];
    offset = 0;
    limit = 0;
    conditions = [];
    workers = 1;
  }

  unfoldable pub set_owner : {S : Type 0} → Model F S → Wheres F → Wheres F
  set_owner m w = record w {
    hidden = m.hidden;
    workers = if ltb w.workers (length m.indexes) then length m.indexes else w.workers;
  }

  unfoldable pub select_fields : List Bytes → Wheres F → Wheres F
  select_fields fields w = record w { selects = w.selects ++ fields }

  unfoldable pub hide_fields : List Bytes → Wheres F → Wheres F
  hide_fields fields w = record w { hidden = w.hidden ++ fields }

  unfoldable pub ascending : Bytes → Wheres F → Wheres F
  ascending name w = record w { asc = insert name true w.asc }

  unfoldable pub descending : Bytes → Wheres F → Wheres F
  descending name w = record w { asc = insert name false w.asc }

  unfoldable pub order : Bytes → Wheres F → Bool
  order name w = or_else true (lookup name w.asc)

  unfoldable pub set_limit : ℕ → ℕ → Wheres F → Wheres F
  set_limit page rows w = record w { limit = rows; offset = (page - 1) * rows }

  unfoldable pub shown : Wheres F → Doc F → Doc F
  unfolding select hide
  shown w item = elim w.selects [ [] ↦ hide w.hidden item | (f ∷ fs) ↦ select (f ∷ fs) item ]

  -- addResult: whether the query goes on, and its rows.
  unfoldable pub add_result : Wheres F → Doc F → List (Doc F) → Bool × List (Doc F)
  unfolding shown
  add_result w item rows = (ltb (length rows + 1) w.limit, rows ++ shown w item ∷ [])

  -- The items one by one, up to an error or until `visit` does not go on.
  unfoldable pub each {ℓ} :
      {Q : Type ℓ} → (Doc F → Q → Result (Bool × Q)) → List (Result (Doc F)) → Q → Result (Bool × Q)
  unfolding go_on
  each visit [] q = ok (true, q)
  each visit (err e ∷ records) q = err e
  each visit (panic ∷ records) q = panic
  each visit (ok item ∷ records) q = go_on (visit item q) (each visit records)

  -- The calls of the other workers after one has stopped: the last decides whether the query goes on.
  unfoldable pub late_calls {ℓ} :
      {Q : Type ℓ}
      → (Doc F → Q → Result (Bool × Q))
      → ℕ
      → List (Result (Doc F))
      → Bool × Q
      → Result (Bool × Q)
  unfolding go_late
  late_calls visit zero records r = ok r
  late_calls visit (suc n) [] r = ok r
  late_calls visit (suc n) (err e ∷ records) r = err e
  late_calls visit (suc n) (panic ∷ records) r = panic
  late_calls visit (suc n) (ok item ∷ records) r =
      go_late (visit item r.1) (late_calls visit n records)

  -- Iterate over records in the order of the calls, with `late` calls after the first that stops.
  unfoldable pub iterate {ℓ} :
      {Q : Type ℓ}
      → (Doc F → Q → Result (Bool × Q))
      → ℕ
      → List (Result (Doc F))
      → Q
      → Result (Bool × Q)
  unfolding go_on_or late_calls
  iterate visit late [] q = ok (true, q)
  iterate visit late (err e ∷ records) q = err e
  iterate visit late (panic ∷ records) q = panic
  iterate visit late (ok item ∷ records) q =
      go_on_or (visit item q) (iterate visit late records) (late_calls visit late records)

  -- The rows at the end of a loop: of the query where it has stopped, else what comes after it.
  unfoldable pub rows_after {ℓ} :
      {Q : Type ℓ}
      → Result (Bool × Q)
      → (Q → List (Doc F))
      → (Q → Result (List (Doc F)))
      → Result (List (Doc F))
  rows_after (ok (true, q)) rows f = f q
  rows_after (ok (false, q)) rows f = ok (rows q)
  rows_after (err e) rows f = err e
  rows_after panic rows f = panic

  unfoldable pub visit_all : Wheres F → Doc F → List (Doc F) → Result (Bool × List (Doc F))
  unfolding add_result
  visit_all w item rows = ok (add_result w item rows)

  -- Run with no condition, over the records and then the documents of the transaction.
  unfoldable pub run_all :
      Wheres F → List (Doc F) → List (Result (Doc F)) × ℕ → Result (List (Doc F))
  unfolding iterate each visit_all rows_after
  run_all w cache records =
      rows_after (iterate (visit_all w) records.1 records.0 []) (λ rows. rows)
        (λ rows. rows_after (each (visit_all w) (map ok cache) rows) (λ rows. rows) ok)

module _ (fl : Float64) (split : Bytes → List Bytes) where
  open fl use {F}

  -- validateItem after the test: what it does to the rows, beside the conditions, whose operands the
  -- test may have changed.
  unfoldable pub tested :
      Wheres F
      → Doc F
      → List (Doc F)
      → Option (Bool × List (Condition F))
      → Result (Bool × (List (Doc F) × List (Condition F)))
  unfolding add_result
  tested w item rows none = panic
  tested w item rows (some (false, cs)) = ok (true, (rows, cs))
  tested w item rows (some (true, cs)) =
      let added = add_result w item rows in ok (added.0, (added.1, cs))

  unfoldable pub visit_valid :
      Wheres F
      → Doc F
      → List (Doc F) × List (Condition F)
      → Result (Bool × (List (Doc F) × List (Condition F)))
  unfolding tested
  visit_valid w item q = tested w item q.0 (validate_item fl split q.1 (fields_of item))

  -- The rest of Run with conditions: over the items, and then the records, unless each condition
  -- has an index.
  unfoldable pub run_items :
      Wheres F
      → List (Condition F)
      → Bool
      → List (Doc F)
      → List (Result (Doc F)) × ℕ
      → Result (List (Doc F))
  unfolding iterate each visit_valid rows_after
  run_items w cs only_keys items records =
      rows_after (each (visit_valid w) (map ok items) ([], cs)) (λ q. q.0)
        (λ q.
          let more =
            rows_after (iterate (visit_valid w) records.1 records.0 q) (λ q. q.0) (λ q. ok q.0) in
          if only_keys then ok q.0 else more)
