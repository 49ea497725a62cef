-- ===== src/Store/Examples.antt =====
-- The theorems on the store at a new store and at small records.
mod Compaction
mod Restart
mod Lost
use josefina.Prelude.{
  some, none, true, [], ◌∷◌, ◌++◌, ◌≡◌, take, drop, refl, sym, sym, arith, All, if◌then◌else◌,
  length, append_assoc,
}
use josefina.Prelude.Eq.{bytes_eq}
use josefina.Prelude.Assoc.{lookup, contains, insert}
use josefina.Store.Result.{ok, err, panic, closed}
use josefina.Store.Bytes.{active, deleted, put_uint32, put_uint16}
use josefina.Store.Segment
use josefina.Store.Segment.Reads.{contents}
use josefina.Store.Rebuild.Scan.{encode_all, replay_segment}
use josefina.Store.Log.{refs_from, ref_from, value_of}
use josefina.Store.Segment.{
  Segment, RecordRef, loop, write_record, read, read_header, write, write_header, write_payload,
  new_record_header_at, sync,
}
use josefina.Store.Segment.Codec.{
  Entry, IsWritable, encode, encode_header, header_of, written, write_record-written,
}
use josefina.Store.Segment.RoundTrip.{read-write_record, read_grown}
use josefina.Store.FileStore.{FileStore, set_index}
use josefina.Store.Snapshot.{create_snapshot, try_load_snapshot}
use josefina.Store.Snapshot.RoundTrip.{
  IsFit, left_out, reload, phantoms, try_load_snapshot-create_snapshot,
  lookup-try_load_snapshot_empty,
}
use josefina.Store.Rebuild.{rebuild_segment, rebuild_indexes, reset_empty}
use josefina.Store.Rebuild.Torn.{rebuild_segment-replay_segment}
use josefina.Store.Ops
use josefina.Store.Ops.{
  put, delete, get_payload, append_record, active_segment, write_active, sync_active, rotate,
  trigger_compact, put_index, close_active,
}
use josefina.Store.Listing.{keys_page, sorted}
use josefina.Store.Listing.Unlisted.{keys-put}
use josefina.Store.Listing.Pages.{keys_page-take, keys_page-panic}
use josefina.Store.Invariant.{IsStore}
use josefina.Store.Invariant.Reading.{IsQuiet, get_payload-value_of}
use josefina.Store.Invariant.Recovery.{rebuild_indexes-lookup}
use josefina.Store.Invariant.Behaviour.{
  put-IsStore, delete-IsStore, get_payload-put, IsOpen, settle, IsStore-settle, All-settled,
}
use josefina.Store.Invariant.Rotation.{get_payload-new_segment}

abbrev pub new_file : Segment
new_file = josefina.Store.Segment.new_segment [] 0

abbrev pub new_store : FileStore
new_store = record {
  wal = 0;
  tomb_stones = 0;
  max_segment = 1024;
  sync_on_write = true;
  size = 0;
  segments = new_file ∷ [];
  active = 0;
  index = [];
  keys = [];
  snapshot = none;
  on_put = [];
  on_delete = [];
  compactions = 0;
  calls = [];
}

pub new_store-IsStore : IsStore new_store []
unfolding josefina.Store.Segment.new_segment refs_from lookup ref_from
new_store-IsStore = record {
  front = [];
  seg = new_file;
  logs = [];
  es = [];
  shape = record {
    listed = refl;
    at_end = refl;
    old = tt;
    current = record { bytes = refl; writable = tt; counted = refl };
    is_open = refl;
  };
  agrees = λ k. refl;
  history = refl;
}

new_store-IsQuiet : All IsQuiet new_store.segments
unfolding josefina.Store.Segment.new_segment
new_store-IsQuiet = (record { written = refl; is_open = refl }, tt)

abbrev word : Entry
word = record { id = 107 ∷ []; payload = 49 ∷ 50 ∷ []; status = active }

word-IsWritable : IsWritable word
word-IsWritable = record {
  named = omega arith;
  short_id = omega arith;
  short_payload = omega arith;
}

removal-IsWritable : IsWritable (record { id = 107 ∷ []; payload = []; status = deleted })
removal-IsWritable = record {
  named = omega arith;
  short_id = omega arith;
  short_payload = omega arith;
}

put-IsStore_example :
    ((put word.id (some word.payload) new_store).0 ≡ ok tt)
    × IsStore (put word.id (some word.payload) new_store).1 (word ∷ [])
put-IsStore_example = put-IsStore new_store [] 107 [] word.payload new_store-IsStore word-IsWritable

abbrev one_store : FileStore
one_store = (put word.id (some word.payload) new_store).1

delete-IsStore_example :
    ((delete word.id one_store).0 ≡ ok (contains word.id one_store.index))
    × IsStore (delete word.id one_store).1 (
        if contains word.id one_store.index
        then word ∷ record { id = word.id; payload = []; status = deleted } ∷ []
        else word ∷ [])
delete-IsStore_example =
    delete-IsStore one_store (word ∷ []) word.id put-IsStore_example.1 removal-IsWritable

abbrev word_ref : RecordRef
word_ref = record { segment = 0; offset = 0; length = 2 }

one_store-found :
    (All IsOpen one_store.segments)
    × (lookup word.id one_store.index ≡ some word_ref)
    × (one_store.active ≡ 0)
unfolding put append_record active_segment write_active sync_active rotate trigger_compact put_index
    sync write_record write write_header write_payload new_record_header_at put_uint16 put_uint32
    set_index loop josefina.Store.Segment.new_segment lookup insert contains
one_store-found = ((refl, tt), refl, refl)

get_payload-put_example : get_payload (settle one_store) word.id ≡ ok (some word.payload)
get_payload-put_example =
    get_payload-put new_store [] 107 [] word.payload word.id new_store-IsStore word-IsWritable
      one_store-found.0

settle-IsStore : IsStore (settle one_store) (word ∷ [])
settle-IsStore = IsStore-settle one_store (word ∷ []) put-IsStore_example.1

settle-IsQuiet : All IsQuiet (settle one_store).segments
unfolding settle
settle-IsQuiet = All-settled one_store.segments one_store-found.0

get_payload-value_of_example :
    get_payload (settle one_store) word.id ≡ ok (value_of (word ∷ []) word.id)
get_payload-value_of_example =
    get_payload-value_of (settle one_store) (word ∷ []) word.id settle-IsStore settle-IsQuiet

rebuild_indexes-lookup_example :
    lookup word.id (rebuild_indexes (settle one_store)).index
    ≡ lookup word.id (settle one_store).index
rebuild_indexes-lookup_example =
    rebuild_indexes-lookup (settle one_store) (word ∷ []) word.id settle-IsStore settle-IsQuiet

get_payload-new_segment_example : get_payload (Ops.new_segment one_store).1 word.id ≡ err closed
get_payload-new_segment_example =
    get_payload-new_segment one_store (word ∷ []) word.id word_ref put-IsStore_example.1
      one_store-found.1 (sym one_store-found.2)

-- A file that holds a record, and a second one but for its last byte.
abbrev torn_file : Segment
torn_file =
    josefina.Store.Segment.new_segment (encode_all (word ∷ []) ++ (encode_header word ++ 49 ∷ []))
      27

rebuild_segment-replay_segment_example :
    rebuild_segment torn_file 0 new_store ≡ replay_segment 0 0 (word ∷ []) (reset_empty new_store)
unfolding josefina.Store.Segment.new_segment encode
rebuild_segment-replay_segment_example =
    rebuild_segment-replay_segment torn_file 0 new_store (word ∷ []) word
      (encode_header word ++ 49 ∷ []) [] 50 (word-IsWritable, tt) word-IsWritable refl refl
      (append_assoc (encode_header word) (49 ∷ []) (50 ∷ []))

abbrev word_file : Segment
word_file = written new_file word.id word.payload active

read-write_record_example :
    (read (loop word_file) word_ref ≡ ok word.payload)
    × (read_header (loop word_file) word_ref ≡ ok (header_of word))
    × (word_file.size ≡ length (contents word_file))
unfolding josefina.Store.Segment.new_segment
read-write_record_example =
    read-write_record new_file word_file word.id word.payload active word_ref word-IsWritable refl
      refl (write_record-written new_file word.id word.payload active word-IsWritable refl)

abbrev grown_file : Segment
grown_file = record (loop word_file) { file = (loop word_file).file ++ 7 ∷ 8 ∷ [] }

read_grown_example : read grown_file word_ref ≡ ok word.payload
unfolding loop written josefina.Store.Segment.new_segment
read_grown_example =
    read_grown (loop word_file) grown_file (7 ∷ 8 ∷ []) word.payload word_ref refl refl
      read-write_record_example.0

abbrev listed_store : FileStore
listed_store = record new_store { keys = (98 ∷ []) ∷ (97 ∷ []) ∷ [] }

keys_page-take_example :
    (keys_page listed_store true 0 2).0 ≡ ok (take 2 (drop 0 (sorted true listed_store.keys)))
keys_page-take_example = keys_page-take listed_store true 0 2 (omega arith) (omega arith)

-- Two segments, and an entry in each.
abbrev shot_store : FileStore
shot_store = record new_store {
  segments = new_file ∷ new_file ∷ [];
  active = 1;
  index = (107 ∷ [], word_ref) ∷ (108 ∷ [], record { segment = 1; offset = 0; length = 2 }) ∷ [];
}

shot_store-fits : All IsFit shot_store.index
shot_store-fits = (
  record {
    short_id = omega arith;
    few_segments = omega arith;
    near = omega arith;
    short_data = omega arith;
  },
  (
    record {
      short_id = omega arith;
      few_segments = omega arith;
      near = omega arith;
      short_data = omega arith;
    },
    tt,
  ),
)

abbrev loaded_store : FileStore
loaded_store =
    phantoms (left_out 1 shot_store.index)
      (reload 1 shot_store.index (record (create_snapshot shot_store) { index = [] }))

try_load_snapshot-create_snapshot_example :
    try_load_snapshot (create_snapshot shot_store) ≡ ok loaded_store
try_load_snapshot-create_snapshot_example =
    try_load_snapshot-create_snapshot shot_store shot_store-fits (omega arith)

lookup-try_load_snapshot_empty_example :
    lookup [] loaded_store.index ≡ some (record { segment = 0; offset = 0; length = 0 })
unfolding left_out
lookup-try_load_snapshot_empty_example =
    lookup-try_load_snapshot_empty shot_store loaded_store shot_store-fits (omega arith)
      (omega arith) try_load_snapshot-create_snapshot_example

keys-put_example : (put word.id (some word.payload) listed_store).1.keys ≡ listed_store.keys
keys-put_example = keys-put word.id (some word.payload) listed_store
