-- ===== src/Dbs/Define.antt =====
-- internal/dbs/define.go, newModel of internal/dbs/schema.go and newField of internal/dbs/field.go.
--
-- utility.ValidStr and utility.Normalize are arguments. A map of keys is the list of its entries in the
-- order of range. DefineForeignKeys takes two different models. DefineDetail is left out.
pub mod Details
pub mod Sound
pub mod Changes
use josefina.Prelude.{
  ℕ, Bool, true, false, Option, none, some, List, [], ◌∷◌, ◌++◌, not, if◌then◌else◌,
}
use josefina.Prelude.Eq.{bytes_eq, listed}
use josefina.Prelude.Assoc.{lookup, insert, contains}
use josefina.Store.Result.{Result, ok, err, panic, arg_required, field_not_found, model_not_found}
use josefina.Store.Bytes.{Bytes}
use josefina.Dbs.Value.{Value, nil, text, json_list, no_maps}
use josefina.Dbs.Model.{
  From, TypeField, tp_atrib, tp_rollup, tp_calc, TypeData, tp_key, tp_json, tp_bytes, Field, Detail,
  new_detail, Model, index_field,
}

-- append where slices.Index finds nothing
unfoldable pub add_name : Bytes → List Bytes → List Bytes
add_name name names = if listed name names then names else names ++ name ∷ []

unfoldable pub new_field :
    {F : Type 0} → (Bytes → Bool) → Bytes → TypeField → TypeData → Value F → Result (Field F)
new_field valid_str name tp_field tp_data v =
    if valid_str name
    then ok (record { name = name; type_field = tp_field; type_data = tp_data; default_value = v })
    else err arg_required

-- The name of a foreign key from `a` to `b`: "a_b_fk"
unfoldable pub foreign_key_name : Bytes → Bytes → Bytes
foreign_key_name a b = a ++ 95 ∷ (b ++ 95 ∷ 102 ∷ 107 ∷ [])

module _ {F S : Type 0} where
  unfoldable pub put_field : Bytes → Result (Field F) → Model F S → Result (Field F) × Model F S
  put_field name (ok fld) m = (ok fld, record m { fields = insert name fld m.fields })
  put_field name (err e) m = (err e, m)
  put_field name panic m = (panic, m)

module _ {F S : Type 0} (valid_str : Bytes → Bool) where
  unfoldable pub define_field :
      Bytes → TypeField → TypeData → Value F → Model F S → Result (Field F) × Model F S
  unfolding put_field new_field
  define_field name tp_field tp_data v m =
      if not (valid_str name) then (err arg_required, m) else elim (lookup name m.fields) [
        | some fld ↦
            put_field name
              (ok (record fld { type_field = tp_field; type_data = tp_data; default_value = v })) m
        | none ↦ put_field name (new_field valid_str name tp_field tp_data v) m
      ]

module _ {F S : Type 0} where
  -- The loop of the methods below: the first name that is no field ends it.
  unfoldable pub define_each :
      (Bytes → Model F S → Model F S) → List Bytes → Model F S → Result (Unit {0}) × Model F S
  define_each one [] m = (ok tt, m)
  define_each one (name ∷ names) m =
      let rest = define_each one names (one name m) in
      if contains name m.fields then rest else (err field_not_found, m)

  unfoldable pub add_index : Bytes → Model F S → Model F S
  unfolding add_name
  add_index name m = record m { indexes = add_name name m.indexes }

  unfoldable pub define_indexes : List Bytes → Model F S → Result (Unit {0}) × Model F S
  unfolding define_each add_index
  define_indexes = define_each add_index

  unfoldable pub add_unique : Bytes → Model F S → Model F S
  unfolding define_indexes
  add_unique name m =
      if listed name m.unique
      then m
      else (define_indexes (name ∷ []) (record m { unique = m.unique ++ name ∷ [] })).1

  unfoldable pub define_unique : List Bytes → Model F S → Result (Unit {0}) × Model F S
  unfolding define_each add_unique
  define_unique = define_each add_unique

  unfoldable pub add_required : Bytes → Model F S → Model F S
  unfolding define_indexes
  add_required name m =
      if listed name m.required
      then m
      else (define_indexes (name ∷ []) (record m { required = m.required ++ name ∷ [] })).1

  unfoldable pub define_required : List Bytes → Model F S → Result (Unit {0}) × Model F S
  unfolding define_each add_required
  define_required = define_each add_required

  unfoldable pub add_hidden : Bytes → Model F S → Model F S
  unfolding add_name
  add_hidden name m = record m { hidden = add_name name m.hidden }

  unfoldable pub define_hidden : List Bytes → Model F S → Result (Unit {0}) × Model F S
  unfolding define_each add_hidden
  define_hidden = define_each add_hidden

  unfoldable pub add_primary_key : Bytes → Model F S → Model F S
  unfolding define_required define_unique
  add_primary_key name m =
      if listed name m.primary_keys
      then m
      else let added = record m { primary_keys = m.primary_keys ++ name ∷ [] } in
        (define_unique (name ∷ []) (define_required (name ∷ []) added).1).1

  unfoldable pub define_primary_keys : List Bytes → Model F S → Result (Unit {0}) × Model F S
  unfolding define_each add_primary_key
  define_primary_keys = define_each add_primary_key

  -- The loop of DefineForeignKeys over the entries fk, pk.
  unfoldable pub require_keys :
      List (Bytes × Bytes) → Model F S × Model F S → Result (Unit {0}) × Model F S × Model F S
  unfolding define_required
  require_keys [] (m, to) = (ok tt, m, to)
  require_keys ((fk, pk) ∷ keys) (m, to) =
      let m1 = (define_required (pk ∷ []) m).1 in
      let rest = require_keys keys (m1, (define_required (fk ∷ []) to).1) in
      if not (contains pk m.fields)
      then (err field_not_found, m, to)
      else if not (contains fk to.fields)
      then (err field_not_found, m1, to)
      else rest

  unfoldable pub add_foreign_key :
      List (Bytes × Bytes)
      → Bool
      → Bool
      → Result (Unit {0}) × Model F S × Model F S
      → Result Detail × Model F S × Model F S
  unfolding foreign_key_name new_detail
  add_foreign_key keys on_delete on_update (ok u, m, to) =
      let detail = new_detail to.from keys [] on_delete on_update in
      let name = foreign_key_name m.from.name to.from.name in
      (ok detail, record m { foreign_keys = insert name detail m.foreign_keys }, to)
  add_foreign_key keys on_delete on_update (err e, m, to) = (err e, m, to)
  add_foreign_key keys on_delete on_update (panic, m, to) = (panic, m, to)

  unfoldable pub define_foreign_keys :
      Model F S
      → List (Bytes × Bytes)
      → Bool
      → Bool
      → Model F S
      → Result Detail × Model F S × Model F S
  unfolding require_keys add_foreign_key
  define_foreign_keys to keys on_delete on_update m =
      add_foreign_key keys on_delete on_update (require_keys keys (m, to))

module _ {F S : Type 0} (valid_str : Bytes → Bool) where
  unfoldable pub define_index_after : Result (Field F) × Model F S → Result (Field F) × Model F S
  unfolding define_indexes define_hidden
  define_index_after (ok fld, m) =
      (ok fld, (define_hidden (index_field ∷ []) (define_indexes (index_field ∷ []) m).1).1)
  define_index_after (err e, m) = (err e, m)
  define_index_after (panic, m) = (panic, m)

  unfoldable pub define_index_field : Model F S → Result (Field F) × Model F S
  unfolding define_index_after define_field
  define_index_field m =
      define_index_after (define_field valid_str index_field tp_atrib tp_key (text []) m)

  unfoldable pub define_atrib :
      Bytes → TypeData → Value F → Model F S → Result (Field F) × Model F S
  unfolding define_field
  define_atrib name tp_data v m = define_field valid_str name tp_atrib tp_data v m

  -- The rest of DefineRollup and of DefineCalc where the field is defined.
  unfoldable pub after_field :
      (Model F S → Model F S) → Result (Field F) × Model F S → Result (Unit {0}) × Model F S
  after_field f (ok fld, m) = (ok tt, f m)
  after_field f (err e, m) = (err e, m)
  after_field f (panic, m) = (panic, m)

  unfoldable pub define_rollup :
      Bytes → From → List (Bytes × Bytes) → List Bytes → Model F S → Result (Unit {0}) × Model F S
  unfolding define_field after_field new_detail
  define_rollup name to keys selects m =
      after_field
        (λ n. record n { rollups = insert name (new_detail to keys selects false false) n.rollups })
        (define_field valid_str name tp_rollup tp_json (json_list no_maps) m)

  unfoldable pub define_relation :
      From → List (Bytes × Bytes) → Bool → Bool → Model F S → Result (Unit {0}) × Model F S
  unfolding new_detail
  define_relation to keys on_delete on_update m = (
    ok tt,
    record m { relations = insert to.name (new_detail to keys [] on_delete on_update) m.relations },
  )

  unfoldable pub define_calc : Bytes → Bytes → Model F S → Result (Unit {0}) × Model F S
  unfolding define_field after_field
  define_calc name definition m =
      after_field (λ n. record n { calcs = insert name definition n.calcs })
        (define_field valid_str name tp_calc tp_bytes nil m)

abbrev pub blank : {F S : Type 0} → From → Bytes → ℕ → Bool → Model F S
blank from path version is_core = record {
  from = from;
  path = path;
  fields = [];
  indexes = [];
  primary_keys = [];
  foreign_keys = [];
  unique = [];
  required = [];
  hidden = [];
  details = [];
  rollups = [];
  relations = [];
  calcs = [];
  before_inserts = [];
  before_updates = [];
  before_deletes = [];
  after_inserts = [];
  after_updates = [];
  after_deletes = [];
  version = version;
  is_core = is_core;
  is_strict = false;
  is_debug = false;
  stores = [];
}

-- '/'
abbrev slash : ℕ
slash = 47

-- A schema holds its models under their names; `path` is strs.Append(s.db.Path, s.Name, "/"), of
-- another library.
pub record Schema (F S : Type 0) : Type 0 where
  pub database : Bytes
  pub name : Bytes
  pub path : Bytes
  pub models : List (Bytes × Model F S)

module _ {F S : Type 0} (valid_str : Bytes → Bool) (normalize : Bytes → Bytes) where
  add_model : Bytes → Result (Field F) × Model F S → Schema F S → Result (Model F S) × Schema F S
  add_model name (ok fld, m) s = (ok m, record s { models = insert name m s.models })
  add_model name (err e, m) s = (err e, s)
  add_model name (panic, m) s = (panic, s)

  -- `address` is that of the new From.
  unfoldable pub new_model : ℕ → Bytes → Bool → ℕ → Schema F S → Result (Model F S) × Schema F S
  unfolding define_index_field add_model
  new_model address name is_core version s =
      if not (valid_str name) then (err model_not_found, s) else elim (lookup name s.models) [
        | some m ↦ (ok m, s)
        | none ↦
            let from : From = record {
              address = address;
              database = s.database;
              schema = s.name;
              name = normalize name;
              host = [];
              is_init = false;
            } in
            add_model (normalize name)
              (define_index_field valid_str
                (blank from (s.path ++ slash ∷ normalize name) version is_core))
              s
      ]

  unfoldable pub get_model : Bytes → Schema F S → Result (Model F S)
  get_model name s = elim (lookup name s.models) [ none ↦ err model_not_found | some m ↦ ok m ]
