-- ===== src/Dbs/Cmd/Build.antt =====
-- internal/dbs/cmd.go: a new command, with the triggers of its model, and the calls that build it up.
use josefina.Prelude.{none, some, List, [], ◌∷◌, ◌++◌}
use josefina.Store.Bytes.{Bytes}
use josefina.Dbs.Condition.{Condition}
use josefina.Dbs.Where.{add, add_and, add_or}
use josefina.Dbs.Model.{Model, Trigger}
use josefina.Dbs.Tx.{insert_command, update_command, delete_command, upsert_command}
use josefina.Dbs.Objects.{Doc}
use josefina.Dbs.Run.{Wheres, new_where, set_owner, select_fields}
use josefina.Dbs.Cmd.{Cmd, Hook}

unfoldable pub new_trigger : Bytes → Bytes → Trigger
new_trigger name definition = record { name = name; definition = definition }

module _ {F S W : Type 0} where
  -- newCmd: the command is the empty text until one of Insert, Update, Delete and Upsert is called.
  unfoldable pub new_cmd : Model F S → Cmd F S W
  unfolding new_where
  new_cmd m = record {
    data_of = [];
    command = none;
    wheres = new_where;
    before_trigger_inserts = m.before_inserts;
    before_trigger_updates = m.before_updates;
    before_trigger_deletes = m.before_deletes;
    after_trigger_inserts = m.after_inserts;
    after_trigger_updates = m.after_updates;
    after_trigger_deletes = m.after_deletes;
    before_inserts = [];
    after_inserts = [];
    before_updates = [];
    after_updates = [];
    before_deletes = [];
    after_deletes = [];
  }

  unfoldable pub insert_cmd : Doc F → Cmd F S W → Cmd F S W
  insert_cmd new c = record c { command = some insert_command; data_of = new }

  unfoldable pub update_cmd : Doc F → Cmd F S W → Cmd F S W
  update_cmd new c = record c { command = some update_command; data_of = new }

  unfoldable pub delete_cmd : Cmd F S W → Cmd F S W
  delete_cmd c = record c { command = some delete_command }

  unfoldable pub upsert_cmd : Doc F → Cmd F S W → Cmd F S W
  upsert_cmd new c = record c { command = some upsert_command; data_of = new }

  -- Where, And and Or
  unfoldable pub where_cmd : Condition F → Cmd F S W → Cmd F S W
  unfolding add
  where_cmd con c = record c {
    wheres = record c.wheres { conditions = add c.wheres.conditions con };
  }

  unfoldable pub and_cmd : Condition F → Cmd F S W → Cmd F S W
  unfolding add_and
  and_cmd con c = record c {
    wheres = record c.wheres { conditions = add_and c.wheres.conditions con };
  }

  unfoldable pub or_cmd : Condition F → Cmd F S W → Cmd F S W
  unfolding add_or
  or_cmd con c = record c {
    wheres = record c.wheres { conditions = add_or c.wheres.conditions con };
  }

  unfoldable pub before_insert_fn : Hook F S W → Cmd F S W → Cmd F S W
  before_insert_fn fn c = record c { before_inserts = c.before_inserts ++ fn ∷ [] }

  unfoldable pub after_insert_fn : Hook F S W → Cmd F S W → Cmd F S W
  after_insert_fn fn c = record c { after_inserts = c.after_inserts ++ fn ∷ [] }

  unfoldable pub before_update_fn : Hook F S W → Cmd F S W → Cmd F S W
  before_update_fn fn c = record c { before_updates = c.before_updates ++ fn ∷ [] }

  unfoldable pub after_update_fn : Hook F S W → Cmd F S W → Cmd F S W
  after_update_fn fn c = record c { after_updates = c.after_updates ++ fn ∷ [] }

  unfoldable pub before_delete_fn : Hook F S W → Cmd F S W → Cmd F S W
  before_delete_fn fn c = record c { before_deletes = c.before_deletes ++ fn ∷ [] }

  unfoldable pub after_delete_fn : Hook F S W → Cmd F S W → Cmd F S W
  after_delete_fn fn c = record c { after_deletes = c.after_deletes ++ fn ∷ [] }

  unfoldable pub before_insert : Bytes → Bytes → Cmd F S W → Cmd F S W
  unfolding new_trigger
  before_insert name definition c = record c {
    before_trigger_inserts = c.before_trigger_inserts ++ new_trigger name definition ∷ [];
  }

  unfoldable pub after_insert : Bytes → Bytes → Cmd F S W → Cmd F S W
  unfolding new_trigger
  after_insert name definition c = record c {
    after_trigger_inserts = c.after_trigger_inserts ++ new_trigger name definition ∷ [];
  }

  unfoldable pub before_update : Bytes → Bytes → Cmd F S W → Cmd F S W
  unfolding new_trigger
  before_update name definition c = record c {
    before_trigger_updates = c.before_trigger_updates ++ new_trigger name definition ∷ [];
  }

  unfoldable pub after_update : Bytes → Bytes → Cmd F S W → Cmd F S W
  unfolding new_trigger
  after_update name definition c = record c {
    after_trigger_updates = c.after_trigger_updates ++ new_trigger name definition ∷ [];
  }

  unfoldable pub before_delete : Bytes → Bytes → Cmd F S W → Cmd F S W
  unfolding new_trigger
  before_delete name definition c = record c {
    before_trigger_deletes = c.before_trigger_deletes ++ new_trigger name definition ∷ [];
  }

  unfoldable pub after_delete : Bytes → Bytes → Cmd F S W → Cmd F S W
  unfolding new_trigger
  after_delete name definition c = record c {
    after_trigger_deletes = c.after_trigger_deletes ++ new_trigger name definition ∷ [];
  }

  -- Insert, Update, Delete, Upsert and Selects of a model
  unfoldable pub model_insert : Doc F → Model F S → Cmd F S W
  unfolding new_cmd insert_cmd
  model_insert new m = insert_cmd new (new_cmd m)

  unfoldable pub model_update : Doc F → Model F S → Cmd F S W
  unfolding new_cmd update_cmd
  model_update new m = update_cmd new (new_cmd m)

  unfoldable pub model_delete : Model F S → Cmd F S W
  unfolding new_cmd delete_cmd
  model_delete m = delete_cmd (new_cmd m)

  unfoldable pub model_upsert : Doc F → Model F S → Cmd F S W
  unfolding new_cmd upsert_cmd
  model_upsert new m = upsert_cmd new (new_cmd m)

unfoldable pub model_selects : {F S : Type 0} → List Bytes → Model F S → Wheres F
unfolding new_where set_owner select_fields
model_selects fields m = select_fields fields (set_owner m new_where)
