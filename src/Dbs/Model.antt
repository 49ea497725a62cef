-- ===== src/Dbs/Model.antt =====
-- The records of internal/dbs: from.go, field.go, detail.go, and the struct Model of model.go.
use josefina.Prelude.{ℕ, Bool, List, [], ◌∷◌, ◌++◌, if◌then◌else◌}
use josefina.Prelude.Eq.{◌=?◌, bytes_eq}
use josefina.Store.Bytes.{Bytes}
use josefina.Dbs.Value.{Value}

-- INDEX: "_idx"
abbrev pub index_field : Bytes
index_field = 95 ∷ 105 ∷ 100 ∷ 120 ∷ []

-- A *From; `address` is the pointer, by which `==` compares.
pub record From : Type 0 where
  pub address : ℕ
  pub database : Bytes
  pub schema : Bytes
  pub name : Bytes
  pub host : Bytes
  pub is_init : Bool

-- '.'
abbrev dot : ℕ
dot = 46

-- "prefix.", or nothing where the prefix is empty
unfoldable pub dotted : Bytes → Bytes → Bytes
dotted prefix rest = if prefix =? [] then rest else prefix ++ dot ∷ rest

unfoldable pub key : From → Bytes
unfolding dotted
key s = dotted s.database (dotted s.schema s.name)

pub data TypeField : Type 0 where
  tp_atrib tp_detail tp_rollup tp_calc tp_aggregation : TypeField

pub data TypeData : Type 0 where
  tp_any tp_bytes tp_int tp_float tp_key tp_text tp_memo : TypeData
  tp_auto_increment tp_json tp_date_time tp_boolean tp_geometry : TypeData

pub record Field (F : Type 0) : Type 0 where
  pub name : Bytes
  pub type_field : TypeField
  pub type_data : TypeData
  pub default_value : Value F

pub record Detail : Type 0 where
  pub to : From
  pub keys : List (Bytes × Bytes)
  pub selects : List Bytes
  pub on_delete_cascade : Bool
  pub on_update_cascade : Bool

unfoldable pub new_detail : From → List (Bytes × Bytes) → List Bytes → Bool → Bool → Detail
new_detail to keys selects on_delete on_update = record {
  to = to;
  keys = keys;
  selects = selects;
  on_delete_cascade = on_delete;
  on_update_cascade = on_update;
}

pub record Trigger : Type 0 where
  pub name : Bytes
  pub definition : Bytes

-- `S` is the type of an open store. The virtual machines of the triggers and the schema that the
-- model stands in are left out.
pub record Model (F S : Type 0) : Type 0 where
  pub from : From
  pub path : Bytes
  pub fields : List (Bytes × Field F)
  pub indexes : List Bytes
  pub primary_keys : List Bytes
  pub foreign_keys : List (Bytes × Detail)
  pub unique : List Bytes
  pub required : List Bytes
  pub hidden : List Bytes
  pub details : List (Bytes × Detail)
  pub rollups : List (Bytes × Detail)
  pub relations : List (Bytes × Detail)
  pub calcs : List (Bytes × Bytes)
  pub before_inserts : List Trigger
  pub before_updates : List Trigger
  pub before_deletes : List Trigger
  pub after_inserts : List Trigger
  pub after_updates : List Trigger
  pub after_deletes : List Trigger
  pub version : ℕ
  pub is_core : Bool
  pub is_strict : Bool
  pub is_debug : Bool
  pub stores : List (Bytes × S)
