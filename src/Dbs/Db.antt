-- ===== src/Dbs/Db.antt =====
-- internal/dbs/db.go: the databases by name, and the schemas and models in them.
--
-- The databases are the entries of the variable `dbs`; `normalize` is utility.Normalize, `valid_str` is
-- utility.ValidStr, `join` is strs.Append with "/", and `data_path` is the path that the environment gives.
pub mod Names
use josefina.Prelude.{
  ℕ, Bool, true, false, not, Option, none, some, List, [], ◌∷◌, ◌++◌, if◌then◌else◌, map,
}
use josefina.Prelude.Eq.{bytes_eq}
use josefina.Prelude.Assoc.{lookup, insert}
use josefina.Store.Result.{Result, ok, err, panic, arg_required}
use josefina.Store.Bytes.{Bytes}
use josefina.Dbs.Model.{Model, From}
use josefina.Dbs.Define.{Schema, new_model, get_model}
use josefina.Dbs.Step.{Step, continue}

pub record Db (F S : Type 0) : Type 0 where
  pub name : Bytes
  pub version : Bytes
  pub path : Bytes
  pub schemas : List (Bytes × Schema F S)
  pub is_strict : Bool
  pub is_debug : Bool

-- '/'
abbrev slash : ℕ
slash = 47

module _ {F S : Type 0} (valid_str : Bytes → Bool) (normalize : Bytes → Bytes)
    (join : Bytes → Bytes → Bytes) where
  set_model_debug : Bool → Bytes × Model F S → Bytes × Model F S
  set_model_debug debug (name, m) = (name, record m { is_debug = debug })

  set_schema_debug : Bool → Bytes × Schema F S → Bytes × Schema F S
  unfolding set_model_debug
  set_schema_debug debug (name, sch) =
      (name, record sch { models = map (set_model_debug debug) sch.models })

  unfoldable pub set_debug : Bool → Db F S → Db F S
  unfolding set_schema_debug
  set_debug debug db = record db {
    is_debug = debug;
    schemas = map (set_schema_debug debug) db.schemas;
  }

  found_schema : Bytes → Option (Schema F S) → Db F S → Schema F S × Db F S
  found_schema name (some sch) db = (sch, db)
  found_schema name none db =
      let sch : Schema F S = record {
        database = db.name;
        name = name;
        path = join db.path name;
        models = [];
      } in
      (sch, record db { schemas = insert name sch db.schemas })

  -- getSchema: the schema of the normalised name, made where there is none.
  unfoldable pub get_schema : Bytes → Db F S → Schema F S × Db F S
  unfolding found_schema
  get_schema name db = found_schema (normalize name) (lookup (normalize name) db.schemas) db

  -- getModel of a database
  unfoldable pub get_db_model : Bytes → Bytes → Db F S → Result (Model F S) × Db F S
  unfolding get_schema
  get_db_model schema name db =
      let found = get_schema schema db in (get_model valid_str normalize name found.0, found.1)

  -- NewModel: the schema that has changed stays in the database.
  unfoldable pub new_db_model : ℕ → Bytes → Bytes → Bool → ℕ → Db F S → Result (Model F S) × Db F S
  unfolding get_schema
  new_db_model address schema name is_core version db =
      let found = get_schema schema db in
      let made = new_model valid_str normalize address name is_core version found.0 in
      (made.0, record found.1 { schemas = insert (normalize schema) made.1 found.1.schemas })

  module _ (data_path version : Bytes) where
    unfoldable pub new_db : Bytes → Db F S
    new_db name = record {
      name = name;
      version = version;
      path = data_path ++ slash ∷ name;
      schemas = [];
      is_strict = false;
      is_debug = false;
    }

    unfoldable found_db : Bytes → Option (Db F S) → Step (List (Bytes × Db F S)) (Db F S)
    unfolding new_db
    found_db name (some db) dbs = (ok db, dbs)
    found_db name none dbs =
        if not (valid_str name)
        then (err arg_required, dbs)
        else (ok (new_db (normalize name)), insert (normalize name) (new_db (normalize name)) dbs)

    -- GetDb: the name is looked up as it is given, and a new database stands under its normalised name.
    unfoldable pub get_db : Bytes → Step (List (Bytes × Db F S)) (Db F S)
    unfolding found_db
    get_db name dbs = found_db name (lookup name dbs) dbs
