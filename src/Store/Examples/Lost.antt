-- ===== src/Store/Examples/Lost.antt =====
-- A test of Compact followed by a restart, in a store with segments of 20 bytes.
use josefina.Prelude.{true, none, [], ◌∷◌, ◌≡◌, refl}
use josefina.Prelude.Eq.{bytes_eq}
use josefina.Prelude.Assoc.{lookup, insert, remove, contains}
use josefina.Store.Result.{Result, ok, panic, ◌>>=◌}
use josefina.Store.Bytes.{
  checksum, put_uint16, put_uint32, put_uint64, get_uint16, get_uint32, get_uint64,
}
use josefina.Store.Segment
use josefina.Store.Segment.{
  Segment, loop, read, read_header, read_at, write_record, write, write_header, write_payload,
  new_record_header_at, sync, header_size, record_size,
}
use josefina.Store.FileStore.{FileStore, set_index, delete_index}
use josefina.Store.Rebuild.{
  apply_record, build_index, rebuild_index, rebuild_segment, scan_loop, scan_record, check_payload,
  reset_empty,
}
use josefina.Store.Snapshot.{
  snapshot_entry, snapshot_entries, snapshot_payload, create_snapshot, read_bytes, read_number,
  load_entries, load_payload, load_snapshot, try_load_snapshot,
}
use josefina.Store.Ops
use josefina.Store.Ops.{
  put, put_index, append_record, active_segment, write_active, sync_active, rotate, trigger_compact,
  close_active, get_payload,
}
use josefina.Store.Listing.{sort_strings, insert_sorted}
use josefina.Store.Compact.{
  create_segment, make_room, write_copy, copy_from, copy_record, copy_keys, compact_keys, copy_all,
  swap, compact, run_started,
}
use josefina.Store.Compact
use josefina.Store.Open.{open_files, load_segments, load_files, last_active, unloaded, returned}
use josefina.Store.Invariant.Behaviour.{settle}
use josefina.Store.Durable.{reopen}
use josefina.Store.Durable.Actions.{
  putting, restarting, writing, compacting, perform, perform_all, after_delete,
}

-- Put of l and of k, each into a segment of its own, a restart, Compact and a restart.
abbrev compacted : Result FileStore
compacted = do
  s ← open_files 20 true [] none
  t ←
      perform_all
        (putting (108 ∷ []) (51 ∷ []) ∷ putting (107 ∷ []) (49 ∷ 50 ∷ []) ∷ restarting 20 true ∷ [])
        s
  u ← compact t
  reopen 20 true u

-- Compact leaves the old snapshot, whose references are to the old segments. The index that open loads
-- has no entry of k, whose record is now in the first segment.
k_is_lost : (do s ← compacted; get_payload s (107 ∷ [])) ≡ ok none
unfolding lookup insert remove contains checksum put_uint16 put_uint32 put_uint64 get_uint16
    get_uint32 get_uint64 Segment.new_segment Segment.close loop read read_header read_at
    write_record write write_header write_payload new_record_header_at sync header_size record_size
    set_index delete_index apply_record build_index rebuild_index rebuild_segment scan_loop
    scan_record check_payload reset_empty snapshot_entry snapshot_entries snapshot_payload
    create_snapshot read_bytes read_number load_entries load_payload load_snapshot try_load_snapshot
    Ops.new_segment put put_index append_record active_segment write_active sync_active rotate
    trigger_compact close_active get_payload sort_strings insert_sorted Compact.start create_segment
    make_room write_copy copy_from copy_record copy_keys compact_keys copy_all swap compact
    open_files load_segments load_files last_active unloaded returned reopen perform perform_all
    after_delete
k_is_lost = refl

-- Put of l and of k, a restart, and two Puts of k, the second of which starts a Compact. When it has
-- run, a restart loads a snapshot whose references are out of the segments: Get of k panics.
abbrev background : Result FileStore
background = do
  s ← open_files 20 true [] none
  t ←
      perform_all
        (putting (108 ∷ []) (51 ∷ [])
          ∷ putting (107 ∷ []) (49 ∷ 50 ∷ [])
          ∷ restarting 20 true
          ∷ putting (107 ∷ []) (49 ∷ 50 ∷ [])
          ∷ putting (107 ∷ []) (49 ∷ 50 ∷ [])
          ∷ writing
          ∷ compacting
          ∷ [])
        s
  reopen 20 true t

k_panics : (do s ← background; get_payload s (107 ∷ [])) ≡ panic
unfolding lookup insert remove contains checksum put_uint16 put_uint32 put_uint64 get_uint16
    get_uint32 get_uint64 Segment.new_segment Segment.close loop read read_header read_at
    write_record write write_header write_payload new_record_header_at sync header_size record_size
    set_index delete_index apply_record build_index rebuild_index rebuild_segment scan_loop
    scan_record check_payload reset_empty snapshot_entry snapshot_entries snapshot_payload
    create_snapshot read_bytes read_number load_entries load_payload load_snapshot try_load_snapshot
    Ops.new_segment put put_index append_record active_segment write_active sync_active rotate
    trigger_compact close_active get_payload sort_strings insert_sorted Compact.start create_segment
    make_room write_copy copy_from copy_record copy_keys compact_keys copy_all swap compact
    open_files load_segments load_files last_active unloaded returned reopen perform perform_all
    after_delete run_started settle
k_panics = refl
