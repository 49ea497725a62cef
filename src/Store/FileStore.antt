-- ===== src/Store/FileStore.antt =====
-- internal/store/store.go: the state of a store, its index, and the calls on its segments.
--
-- `active *segment` is always one of `segments`: it is an index into that list here. The snapshot is
-- the content of the file state-<name>.snap. `compactions` counts the goroutines that
-- `go s.Compact()` has started and that have not run yet (run_started of Compact.antt runs one), and `calls` lists the calls of the registered callbacks.
use josefina.Prelude.{ℕ, Bool, Option, List, [], ◌∷◌, ◌++◌, length, if◌then◌else◌}
use josefina.Prelude.Eq.{◌=?◌, bytes_eq}
use josefina.Prelude.Assoc
use josefina.Store.Bytes.{Bytes}
use josefina.Store.Segment.{Segment, RecordRef}

abbrev pub Index : Type 0
Index = List (Bytes × RecordRef)

-- A call of a callback that OnPut or OnDelete registered, by its number.
pub data Call : Type 0 where
  put_called : ℕ → Bytes → Bytes → Call
  delete_called : ℕ → Bytes → Call

pub record FileStore : Type 0 where
  pub wal : ℕ
  pub tomb_stones : ℕ
  pub max_segment : ℕ
  pub sync_on_write : Bool
  pub size : ℕ
  pub segments : List Segment
  pub active : ℕ
  pub index : Index
  pub keys : List Bytes
  pub snapshot : Option Bytes
  pub on_put : List ℕ
  pub on_delete : List ℕ
  pub compactions : ℕ
  pub calls : List Call

unfoldable pub count : FileStore → ℕ
count s = length s.index

unfoldable pub on_put_add : FileStore → ℕ → FileStore
on_put_add s fn = record s { on_put = s.on_put ++ fn ∷ [] }

unfoldable pub on_delete_add : FileStore → ℕ → FileStore
on_delete_add s fn = record s { on_delete = s.on_delete ++ fn ∷ [] }

unfoldable pub set_index : FileStore → Bytes → ℕ → ℕ → ℕ → FileStore
set_index s id seg_index offset data_len = record s {
  index =
      Assoc.insert id (record { segment = seg_index; offset = offset; length = data_len }) s.index;
  keys = s.keys ++ id ∷ [];
}

-- slices.Index and the append that cuts the first occurrence out
unfoldable pub cut_key : Bytes → List Bytes → List Bytes
cut_key id [] = []
cut_key id (k ∷ ks) = if k =? id then ks else k ∷ cut_key id ks

unfoldable pub delete_index : FileStore → Bytes → FileStore
unfolding cut_key
delete_index s id = record s { index = Assoc.remove id s.index; keys = cut_key id s.keys }
