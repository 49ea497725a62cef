-- ===== src/Dbs/Examples/Commands.antt =====
-- The theorems on queries and commands, at the store in memory and numbers in place of float64.
use josefina.Prelude.{
  ℕ, Bool, true, false, none, [], ◌∷◌, ◌++◌, ◌≡◌, ◌≤◌, ◌⊎◌, refl, All, List, map, ◌+◌,
}
use josefina.Prelude.Eq.{bytes_eq, bytes_beq, listed}
use josefina.Prelude.Assoc.{lookup, insert, contains}
use josefina.Store.Result.{Result, ok, err, panic, Error}
use josefina.Store.Bytes.{Bytes}
use josefina.Dbs.Value.{Value, text}
use josefina.Dbs.Model.{Model, index_field}
use josefina.Dbs.Tx.{new_transaction, insert_command, pending}
use josefina.Dbs.Objects
use josefina.Dbs.Objects.{KeyStore, Doc, value_of}
use josefina.Dbs.Run.{Wheres, new_where, shown}
use josefina.Dbs.Run.Query.{run, records_of_model}
use josefina.Dbs.Run.Rows.{run-rows}
use josefina.Dbs.Cmd.{Session, Cmd, Around, execute_insert}
use josefina.Dbs.Cmd.Build.{new_cmd, insert_cmd}
use josefina.Dbs.Cmd.Insert.{IsFresh, AreReferred, execute_insert-checks}
use josefina.Dbs.Cmd.Adds.{execute_insert-adds}
use josefina.Dbs.Cmd.Execute.{execute_update}
use josefina.Dbs.Cmd.Execute.Hidden.{IsNothing, execute_update-hidden}
use josefina.Dbs.Examples.{no_floats, no_split}
use josefina.Dbs.Examples.Models.{
  Memory, memory, sprint, some_from, some_doc, some_id, name_a, name_b, indexed_model, put_model,
  two_pending, refusing,
}

abbrev same_text : Value ℕ → Value ℕ → Bool
same_text (text s) (text t) = bytes_beq s t
same_text _ _ = false

abbrev text_of : Value ℕ → Bytes
text_of (text t) = t
text_of _ = []

-- The nodes count their calls.
abbrev around : Around ℕ Memory ℕ
around = record {
  k = memory;
  same = same_text;
  sprint = sprint;
  val_str = λ d name. text_of (value_of d name);
  gen_key = λ from w. (ok some_id, w);
  is_existed = λ from field key w. (ok true, w);
  run_trigger = λ trigger old new s. (ok new, s);
  outside = refusing;
}

-- The row of the document under its id, without the hidden fields
abbrev some_row : Doc ℕ
some_row = insert index_field (text some_id) some_doc

-- Two documents, and two workers, one of which still calls after the other has stopped
abbrev other_row : Doc ℕ
other_row = insert index_field (text (106 ∷ [])) some_doc

abbrev two_docs : Model ℕ Memory
two_docs = (josefina.Dbs.Objects.put_object memory sprint (106 ∷ []) some_doc put_model).1

abbrev racing : KeyStore Memory ℕ
racing = record memory { records = λ asc offset limit workers s. (map (λ e. ok e.1) s.0, 1) }

abbrev two_workers : Wheres ℕ
two_workers = record new_where { workers = 2 }

run-rows_example :
    (records : List (Result (Doc ℕ)) × ℕ) × ((records_of_model no_floats no_split racing same_text
        two_workers two_docs).0
      ≡ ok records)
    × ((2 ≤ 1 + records.1) ⊎ (2 ≤ 0 + records.1))
    × All (λ d. (item : Doc ℕ) × (d ≡ shown two_workers item)) (some_row ∷ other_row ∷ [])
unfolding run records_of_model new_where contains josefina.Dbs.Objects.put_object value_of lookup
    insert listed
run-rows_example =
    run-rows no_floats no_split two_workers racing same_text two_pending two_docs
      (some_row ∷ other_row ∷ []) refl

-- A model with a required and unique field and a foreign key
abbrev checked_model : Model ℕ Memory
checked_model = record indexed_model {
  required = name_a ∷ [];
  unique = name_a ∷ [];
  foreign_keys =
      (
        name_b,
        record {
          to = some_from;
          keys = (name_b, name_a) ∷ [];
          selects = [];
          on_delete_cascade = true;
          on_update_cascade = true;
        },
      )
      ∷ [];
}

abbrev checked_session : Session ℕ Memory ℕ
checked_session = record { model = checked_model; tx = two_pending; world = 0 }

abbrev some_cmd : Cmd ℕ Memory ℕ
some_cmd = insert_cmd some_doc (new_cmd checked_model)

execute_insert-checks_example :
    All (λ name. contains name some_doc ≡ true) checked_model.required
    × All (IsFresh around some_doc checked_model.stores) checked_model.unique
    × AreReferred around some_doc checked_model.foreign_keys 0
unfolding execute_insert contains lookup value_of insert_cmd new_cmd
execute_insert-checks_example = execute_insert-checks around some_cmd [] checked_session refl

execute_insert-adds_example :
    (((execute_insert around some_cmd checked_session).0 ≡ ok [])
      × (idx : Bytes) × (new : Doc ℕ) × ((execute_insert around some_cmd
            checked_session).1.tx.transactions
          ≡ two_pending.transactions
            ++ new_transaction some_from insert_command idx new pending ∷ []))
    ⊎ ((((e : Error) × ((execute_insert around some_cmd checked_session).0 ≡ err e))
          ⊎ ((execute_insert around some_cmd checked_session).0 ≡ panic))
        × ((execute_insert around some_cmd checked_session).1.tx ≡ two_pending))
unfolding insert_cmd new_cmd
execute_insert-adds_example =
    execute_insert-adds around checked_session some_cmd refl refl refl refl

-- A model with a document, and its id hidden
abbrev hiding_session : Session ℕ Memory ℕ
hiding_session = record {
  model = record put_model { hidden = index_field ∷ [] };
  tx = two_pending;
  world = 0;
}

no_text : (d : Doc ℕ) → lookup index_field d ≡ none → text_of (value_of d index_field) ≡ []
unfolding value_of
no_text d h = rw h refl

execute_update-hidden_example :
    ((execute_update no_floats no_split around some_cmd hiding_session).1.tx ≡ two_pending)
    × IsNothing (execute_update no_floats no_split around some_cmd hiding_session).0
unfolding listed new_where insert_cmd new_cmd
execute_update-hidden_example =
    execute_update-hidden no_floats no_split around no_text some_cmd hiding_session refl refl
