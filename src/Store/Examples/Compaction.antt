-- ===== src/Store/Examples/Compaction.antt =====
-- The theorems on the compaction, on open and on the loop of rebuildIndex, at the store with one record and at a
-- file of any bytes.
use josefina.Prelude.{some, List, [], ◌∷◌, ◌≡◌, arith, All}
use josefina.Prelude.Eq.{bytes_eq}
use josefina.Store.Result.{ok}
use josefina.Store.Bytes.{Bytes, put_uint16, put_uint32}
use josefina.Store.Segment
use josefina.Store.Segment.{
  Segment, loop, sync, write_record, write, write_header, write_payload, new_record_header_at,
}
use josefina.Store.Segment.Codec.{Entry}
use josefina.Store.FileStore.{FileStore, set_index}
use josefina.Store.Log.{value_of}
use josefina.Store.Invariant.{IsStore}
use josefina.Store.Invariant.Behaviour.{settle}
use josefina.Prelude.Assoc.{lookup, contains, insert}
use josefina.Store.Ops.{
  put, get_payload, append_record, active_segment, write_active, sync_active, rotate,
  trigger_compact, put_index,
}
use josefina.Store.Rebuild.{reset_empty, rebuild_segment}
use josefina.Store.Rebuild.Ends.{Scans, rebuild_segment-Scans}
use josefina.Store.Compact.{compact, compact_keys, swap}
use josefina.Store.Compact.Loop.{IsShort}
use josefina.Store.Compact.Refines.{
  Compacted, copy_all-Compacted, compact-IsStore, get_payload-swap,
}
use josefina.Store.Examples.{
  word, one_store, settle-IsStore, settle-IsQuiet, new_store, word_file, torn_file,
}

one_store-IsShort : All IsShort (settle one_store).index
unfolding settle put append_record active_segment write_active sync_active rotate trigger_compact
    put_index sync write_record write write_header write_payload new_record_header_at put_uint16
    put_uint32 set_index loop josefina.Store.Segment.new_segment lookup insert contains
one_store-IsShort = (omega arith, tt)

compact-IsStore_example :
    (t : FileStore) × (live : List Entry) × (compact (settle one_store) ≡ ok t)
    × IsStore t live
    × ((k : Bytes) → value_of live k ≡ value_of (word ∷ []) k)
compact-IsStore_example =
    compact-IsStore (settle one_store) (word ∷ []) settle-IsStore settle-IsQuiet one_store-IsShort

abbrev copied : Compacted (settle one_store) (word ∷ [])
copied =
    copy_all-Compacted (settle one_store) (word ∷ []) settle-IsStore settle-IsQuiet
      one_store-IsShort

-- Between the copy and the swap the payload is replaced.
abbrev changed_store : FileStore
changed_store = (put word.id (some (51 ∷ [])) (settle one_store)).1

get_payload-swap_example :
    get_payload
      (settle (swap (compact_keys (settle one_store)) copied.result changed_store))
      word.id
    ≡ get_payload (settle one_store) word.id
get_payload-swap_example =
    get_payload-swap (settle one_store) changed_store (word ∷ []) copied.result word.id
      settle-IsStore settle-IsQuiet one_store-IsShort copied.returned

rebuild_segment-Scans_example :
    Scans torn_file 0 0 (reset_empty new_store) (rebuild_segment torn_file 0 new_store)
rebuild_segment-Scans_example = rebuild_segment-Scans torn_file 0 new_store

abbrev settled_file : Segment
settled_file = loop word_file
