-- ===== src/Dbs/Cmd.antt =====
-- internal/dbs/cmd.go: the commands on a model.
--
-- The model of a command and its transaction are the state of its steps, besides the world `W` behind
-- what belongs to other parts: the virtual machine of the triggers, the functions set on a command,
-- and the node that knows another model. `sprint` is fmt.Sprintf("%v", _), `val_str` reads a field
-- as a text as ValStr("", name) does, and `gen_key` is GenKey: these are of other libraries. A
-- trigger is given the documents and gives back the new one, which it may change in place; one after
-- a change does not change it, since the transaction holds the same map. IsEmpty holds of a document
-- without fields. The models are not nil.
pub mod Build
pub mod Insert
pub mod Adds
pub mod Execute
use josefina.Prelude.{
  ℕ, Bool, true, false, not, ◌||◌, Option, none, some, List, map, [], ◌∷◌, ◌++◌, if◌then◌else◌,
}
use josefina.Prelude.Eq.{◌=?◌, bytes_eq}
use josefina.Prelude.Assoc.{lookup, insert, contains}
use josefina.Store.Result.{
  Result, ok, err, panic, Error, not_data, field_required, store_not_found, record_exists,
  foreign_key_not_found, violate_foreign_key, record_not_found, primary_keys_not_found,
}
use josefina.Store.Bytes.{Bytes}
use josefina.Dbs.Value.{Value, text, Float64}
use josefina.Dbs.Condition.{Condition}
use josefina.Dbs.Build.{eq_to}
use josefina.Dbs.Where.{add}
use josefina.Dbs.Model.{Model, Detail, Trigger, From, index_field}
use josefina.Dbs.Step.{Step, pure, lift, modify, continue, ◌>>=◌, ◌>>◌}
use josefina.Dbs.Tx.{
  Tx, Outside, Command, insert_command, update_command, delete_command, upsert_command,
  add_transaction, commit,
}
use josefina.Dbs.Objects.{KeyStore, Doc, value_of}
use josefina.Dbs.Run.{Wheres, set_owner}
use josefina.Dbs.Run.Query.{run}

-- What a command changes.
pub record Session (F S W : Type 0) : Type 0 where
  pub model : Model F S
  pub tx : Tx (Doc F)
  pub world : W

-- A trigger or a function: it sees the transaction, the old document and the new one.
abbrev pub Hook : Type 0 → Type 0 → Type 0 → Type 0
Hook F S W = Doc F → Doc F → Step (Session F S W) (Doc F)

pub record Cmd (F S W : Type 0) : Type 0 where
  pub data_of : Doc F
  pub command : Option Command
  pub wheres : Wheres F
  pub before_trigger_inserts : List Trigger
  pub before_trigger_updates : List Trigger
  pub before_trigger_deletes : List Trigger
  pub after_trigger_inserts : List Trigger
  pub after_trigger_updates : List Trigger
  pub after_trigger_deletes : List Trigger
  pub before_inserts : List (Hook F S W)
  pub after_inserts : List (Hook F S W)
  pub before_updates : List (Hook F S W)
  pub after_updates : List (Hook F S W)
  pub before_deletes : List (Hook F S W)
  pub after_deletes : List (Hook F S W)

pub record Around (F S W : Type 0) : Type 0 where
  pub k : KeyStore S F
  pub same : Value F → Value F → Bool
  pub sprint : Value F → Bytes
  pub val_str : Doc F → Bytes → Bytes
  pub gen_key : From → Step W Bytes
  pub is_existed : From → Bytes → Bytes → Step W Bool
  pub run_trigger : Trigger → Hook F S W
  pub outside : Outside (Doc F) W

module _ {F S W : Type 0} (a : Around F S W) where
  open a use {k, same, sprint, val_str, gen_key, is_existed, run_trigger, outside}

  unfoldable pub in_world {ℓ} : {A : Type ℓ} → Step W A → Step (Session F S W) A
  in_world f s = ((f s.world).0, record s { world = (f s.world).1 })

  unfoldable pub run_hooks : List (Hook F S W) → Hook F S W
  run_hooks [] old new = pure new
  run_hooks (hook ∷ hooks) old new = hook old new >>= run_hooks hooks old

  -- The triggers of a command, and then its functions
  unfoldable pub run_around : List Trigger → List (Hook F S W) → Hook F S W
  unfolding run_hooks
  run_around triggers fns = run_hooks (map run_trigger triggers ++ fns)

  -- tx.addTransaction: its error is not looked at.
  unfoldable pub log_change : Command → Bytes → Doc F → Step (Session F S W) (Unit {0})
  log_change c idx new s =
      let m = (add_transaction outside s.model.from c idx new (s.tx, s.world)).1 in
      (ok tt, record s { tx = m.0; world = m.1 })

  unfoldable pub check_required : List Bytes → Doc F → Result (Unit {0})
  check_required [] new = ok tt
  check_required (name ∷ names) new =
      let rest = check_required names new in if contains name new then rest else err field_required

  unfoldable check_store : Option S → Bytes → Result (Unit {0}) → Result (Unit {0})
  check_store none key rest = err store_not_found
  check_store (some source) key rest =
      if KeyStore.is_exist k key source then err record_exists else rest

  unfoldable pub check_unique : List Bytes → List (Bytes × S) → Doc F → Result (Unit {0})
  unfolding check_store
  check_unique [] stores new = ok tt
  check_unique (name ∷ names) stores new =
      let rest = check_unique names stores new in
      if contains name new
      then check_store (lookup name stores) (sprint (value_of new name)) rest
      else err field_required

  unfoldable pub check_exists : Bool → Step (Session F S W) (Unit {0})
  check_exists true = pure tt
  check_exists false = lift (err violate_foreign_key)

  unfoldable pub check_foreign_key : From → Option Bytes → Bytes → Step (Session F S W) (Unit {0})
  unfolding in_world check_exists
  check_foreign_key to none key = lift (err foreign_key_not_found)
  check_foreign_key to (some fk) key = in_world (is_existed to fk key) >>= check_exists

  unfoldable pub check_foreign : List (Bytes × Detail) → Doc F → Step (Session F S W) (Unit {0})
  unfolding check_foreign_key
  check_foreign [] new = pure tt
  check_foreign ((name, detail) ∷ keys) new =
      let rest = check_foreign keys new in
      if contains name new
      then (check_foreign_key detail.to (lookup name detail.keys) (sprint (value_of new name))
          >> rest)
      else lift (err field_required)

  -- The id of a new document, and the document with it.
  unfoldable pub with_key : Doc F → Bytes → Step (Session F S W) (Bytes × Doc F)
  with_key new key = pure (key, insert index_field (text key) new)

  unfoldable pub take_key : Doc F → Step (Session F S W) (Bytes × Doc F)
  unfolding in_world with_key
  take_key new s =
      if val_str new index_field =? []
      then (in_world (gen_key s.model.from) >>= with_key new) s
      else (ok (val_str new index_field, new), s)

  unfoldable pub insert_new : Cmd F S W → Bytes × Doc F → Step (Session F S W) (Doc F)
  unfolding run_around log_change
  insert_new c (idx, new) = do
    new1 ← run_around c.before_trigger_inserts c.before_inserts [] new
    log_change insert_command idx new1
    new2 ← run_around c.after_trigger_inserts c.after_inserts [] new1
    pure []

  -- The checks of executeInsert, in their order.
  unfoldable pub check_insert : Cmd F S W → Step (Session F S W) (Unit {0})
  unfolding check_required check_unique check_foreign
  check_insert c s =
      (lift (check_required s.model.required c.data_of)
          >> (lift (check_unique s.model.unique s.model.stores c.data_of)
              >> check_foreign s.model.foreign_keys c.data_of))
        s

  unfoldable pub insert_data : Cmd F S W → Doc F → Step (Session F S W) (Doc F)
  unfolding check_insert take_key insert_new
  insert_data c [] = lift (err not_data)
  insert_data c (f ∷ new) = check_insert c >> take_key (f ∷ new) >>= insert_new c

  unfoldable pub execute_insert : Cmd F S W → Step (Session F S W) (Doc F)
  unfolding insert_data
  execute_insert c = insert_data c c.data_of

  put_all : Doc F → Doc F → Doc F
  put_all [] new = new
  put_all ((name, v) ∷ changed) new = put_all changed (insert name v new)

  unfoldable pub update_one : Cmd F S W → Doc F → Step (Session F S W) (Doc F)
  unfolding run_around log_change put_all
  update_one c old = do
    new ← run_around c.before_trigger_updates c.before_updates old (put_all c.data_of old)
    log_change update_command (val_str old index_field) new
    run_around c.after_trigger_updates c.after_updates old new

  unfoldable pub delete_one : Cmd F S W → Doc F → Step (Session F S W) (Doc F)
  unfolding run_around log_change
  delete_one c old = do
    before ← run_around c.before_trigger_deletes c.before_deletes old []
    log_change delete_command (val_str old index_field) old
    after ← run_around c.after_trigger_deletes c.after_deletes old []
    pure old

  -- The items of an update or delete, up to the first without an id.
  unfoldable pub each_item :
      (Doc F → Step (Session F S W) (Doc F)) → List (Doc F) → Step (Session F S W) (List (Doc F))
  each_item one [] = pure []
  each_item one (old ∷ items) =
      let rest = each_item one items in
      if val_str old index_field =? []
      then lift (err record_not_found)
      else (one old >>= λ new. rest >>= λ news. pure (new ∷ news))
