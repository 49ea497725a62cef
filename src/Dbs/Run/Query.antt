-- ===== src/Dbs/Run/Query.antt =====
-- internal/dbs/where.go: Run, from the indexes of a model and its records.
use josefina.Prelude.{
  ℕ, ltb, Bool, true, false, ◌||◌, Option, none, some, List, [], ◌∷◌, ◌++◌, if◌then◌else◌,
}
use josefina.Prelude.Eq.{bytes_eq}
use josefina.Prelude.Assoc.{lookup, insert}
use josefina.Store.Result.{Result, ok, err, panic}
use josefina.Store.Bytes.{Bytes}
use josefina.Dbs.Value.{Value, text, Float64}
use josefina.Dbs.Condition.{Condition, apply_to_index}
use josefina.Dbs.Model.{Model, index_field}
use josefina.Dbs.Step.{Step, pure, lift, continue, ◌>>=◌, ◌>>◌}
use josefina.Dbs.Tx.{Tx, get_recors}
use josefina.Dbs.Objects.{KeyStore, Doc, Ids, value_of, or_else, on_store, store, get, get_index}
use josefina.Dbs.Run.{Wheres, order, run_all, run_items}

module _ (fl : Float64) (split : Bytes → List Bytes) {S : Type 0} (k : KeyStore S (Float64.F fl))
    (same : Value (Float64.F fl) → Value (Float64.F fl) → Bool) where
  open fl use {F}

  -- The keys that the conditions leave of the indexes: whether each condition has one, the keys by
  -- field, and the conditions after it.
  unfoldable pub by_index :
      Wheres F
      → Model F S
      → List (Condition F)
      → List (Bytes × List Bytes)
      → Result (Bool × (List (Bytes × List Bytes) × List (Condition F)))
  by_index w m [] found = ok (true, (found, []))
  by_index w m (c ∷ cs) found =
      let rest : List (Bytes × List Bytes)
          → Result (Bool × (List (Bytes × List Bytes) × List (Condition F))) =
        by_index w m cs in
      elim (lookup c.path m.stores) [
        | none ↦ elim (rest found) [
          | ok (only, (found1, cs1)) ↦ ok (false, (found1, c ∷ cs1))
          | err e ↦ err e
          | panic ↦ panic
        ]
        | some index ↦
            elim (apply_to_index fl c
              (or_else (KeyStore.keys k (order c.path w) 0 0 index) (lookup c.path found))) [
                | none ↦ panic
                | some (keys, c1) ↦ elim (rest (insert c.path keys found)) [
                  | ok (only, (found1, cs1)) ↦ ok (only, (found1, c1 ∷ cs1))
                  | err e ↦ err e
                  | panic ↦ panic
                ]
              ]
      ]

  holds_id : Value F → List (Doc F) → Bool
  holds_id index [] = false
  holds_id index (item ∷ items) = same (value_of item index_field) index || holds_id index items

  -- addItem, of an item with an id
  unfoldable pub add_new : Value F → Doc F → List (Doc F) → List (Doc F)
  unfolding holds_id
  add_new (text []) item items = items
  add_new index item items = if holds_id index items then items else items ++ item ∷ []

  unfoldable pub add_item : Doc F → List (Doc F) → List (Doc F)
  unfolding add_new
  add_item item items = elim (lookup index_field item) [
    | none ↦ items
    | some index ↦ add_new index item items
  ]

  add_found : Option (Doc F) → List (Doc F) → List (Doc F)
  unfolding add_item
  add_found none items = items
  add_found (some item) items = add_item item items

  add_ids : Ids → List (Doc F) → Step (Model F S) (List (Doc F))
  unfolding get add_found
  add_ids [] items = pure items
  add_ids ((idx, b) ∷ index) items = get k idx >>= λ found. add_ids index (add_found found items)

  add_keys : Bytes → List Bytes → List (Doc F) → Step (Model F S) (List (Doc F))
  unfolding get_index add_ids
  add_keys name [] items = pure items
  add_keys name (key ∷ keys) items =
      get_index k name key >>= λ found. add_ids (or_else [] found) items >>= add_keys name keys

  unfoldable pub add_fields :
      List (Bytes × List Bytes) → List (Doc F) → Step (Model F S) (List (Doc F))
  unfolding add_keys
  add_fields [] items = pure items
  add_fields ((name, keys) ∷ found) items = add_keys name keys items >>= add_fields found

  unfoldable pub add_cached : List (Doc F) → List (Doc F) → List (Doc F)
  unfolding add_item
  add_cached [] items = items
  add_cached (item ∷ cache) items = add_cached cache (add_item item items)

  -- One worker makes no call after it has stopped.
  unfoldable pub late_of : ℕ → List (Result (Doc F)) × ℕ → List (Result (Doc F)) × ℕ
  late_of workers (records, late) = (records, if ltb 1 workers then late else 0)

  -- The records of Iterate, and how many calls come after the first that stops.
  unfoldable pub records_of_model : Wheres F → Step (Model F S) (List (Result (Doc F)) × ℕ)
  unfolding store on_store late_of
  records_of_model w = do
    store k index_field
    on_store k index_field (λ s. (
      ok (
          late_of w.workers
            (KeyStore.records k (order index_field w) w.offset w.limit w.workers s)),
      s,
    ))

  unfoldable pub run_indexed :
      Wheres F
      → List (Doc F)
      → List (Result (Doc F)) × ℕ
      → Bool × (List (Bytes × List Bytes) × List (Condition F))
      → Step (Model F S) (List (Doc F))
  unfolding add_fields add_cached run_items
  run_indexed w cache records (only_keys, (found, cs)) = add_fields found [] >>= λ items.
      lift (run_items fl split w cs only_keys (add_cached cache items) records)

  unfoldable pub run_on :
      Wheres F
      → List (Doc F)
      → List (Result (Doc F)) × ℕ
      → List (Condition F)
      → Step (Model F S) (List (Doc F))
  unfolding run_all by_index run_indexed
  run_on w cache records [] m = (run_all w cache records, m)
  run_on w cache records (c ∷ cs) m =
      continue (by_index w m (c ∷ cs) w.keys) (run_indexed w cache records) m

  -- Run, in a transaction
  unfoldable pub run : Tx (Doc F) → Wheres F → Step (Model F S) (List (Doc F))
  unfolding records_of_model run_on
  run tx w m =
      continue (records_of_model w m).0
        (λ records. run_on w (get_recors m.from tx) records w.conditions) (records_of_model w m).1

  unfoldable pub one : Tx (Doc F) → Wheres F → Step (Model F S) (Doc F)
  unfolding run
  one tx w = run tx w >>= λ rows. elim rows [ [] ↦ pure [] | (d ∷ ds) ↦ pure d ]
