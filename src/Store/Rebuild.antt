-- ===== src/Store/Rebuild.antt =====
-- rebuildIndex, buildIndex and rebuildIndexes of internal/store/store.go: the index from the files.
pub mod Scan
pub mod Torn
pub mod Ends
use josefina.Prelude.{
  ℕ, zero, suc, ◌+◌, Bool, Option, none, some, List, [], ◌∷◌, length, get_elem?, drop, ltb, ◌-◌,
  ◌==◌, if◌then◌else◌,
}
use josefina.Store.Result.{Result, ok, err, panic, ◌>>=◌, corrupted_record}
use josefina.Store.Bytes.{Bytes, active, deleted, checksum, get_uint32, get_uint16}
use josefina.Store.Segment.{Segment, RecordRef, read_at, first_byte}
use josefina.Store.FileStore.{FileStore, set_index, delete_index}

-- A record that the loop has read, and where the next one starts.
pub record Scanned : Type 0 where
  pub id : Bytes
  pub status : ℕ
  pub data_len : ℕ
  pub next : ℕ

-- The payload is read, and its checksum compared, only where it is not empty.
unfoldable pub check_payload : Segment → ℕ → ℕ → ℕ → Result Bytes
check_payload seg data_len crc off = if data_len == 0 then ok [] else do
  payload ← read_at seg data_len off
  if checksum payload == crc then ok payload else err corrupted_record

-- One round of the loop up to its `break`s: an error here is a `break` there. The length of an id is
-- an uint16, so it never passes maxIdLen.
unfoldable pub scan_record : Segment → ℕ → Result Scanned
scan_record seg offset = do
  fixed ← read_at seg 11 offset
  let data_len = get_uint32 fixed
  let crc = get_uint32 (drop 4 fixed)
  let id_len = get_uint16 (drop 8 fixed)
  if id_len == 0 then err corrupted_record else do
    id ← read_at seg id_len (offset + 10)
    status ← read_at seg 1 (offset + 10 + id_len)
    payload ← check_payload seg data_len crc (offset + 10 + id_len + 1)
    ok (record {
      id = id;
      status = first_byte status;
      data_len = data_len;
      next = offset + (11 + id_len + data_len);
    })

unfoldable pub apply_record : FileStore → ℕ → ℕ → Bytes → ℕ → ℕ → FileStore
apply_record s seg_index offset id status data_len =
    if status == active
    then set_index s id seg_index offset data_len
    else if status == deleted
    then delete_index s id
    else s

-- The loop; every record takes twelve bytes or more, so the length of the file is fuel enough.
unfoldable pub scan_loop : ℕ → Segment → ℕ → ℕ → FileStore → FileStore
scan_loop zero seg i offset s = s
scan_loop (suc fuel) seg i offset s = elim (scan_record seg offset) [
  | ok r ↦ scan_loop fuel seg i r.next (apply_record s i offset r.id r.status r.data_len)
  | _ ↦ s
]

unfoldable pub reset_empty : FileStore → FileStore
reset_empty s = if length s.index == 0 then record s { index = []; keys = [] } else s

unfoldable pub rebuild_segment : Segment → ℕ → FileStore → FileStore
rebuild_segment seg i s = scan_loop (suc (length seg.file)) seg i 0 (reset_empty s)

-- An index out of range panics.
unfoldable pub rebuild_index : FileStore → ℕ → Result FileStore
unfolding rebuild_segment
rebuild_index s i = elim (get_elem? s.segments i) [
  | none ↦ panic
  | some seg ↦ ok (rebuild_segment seg i s)
]

unfoldable pub build_index : FileStore → Result FileStore
build_index s = rebuild_index s (length s.segments - 1)

-- `for i := range s.segments`, with `left` the segments from `i` on
unfoldable pub rebuild_from : List Segment → ℕ → FileStore → FileStore
rebuild_from [] i s = s
rebuild_from (seg ∷ left) i s = rebuild_from left (suc i) (rebuild_segment seg i s)

unfoldable pub rebuild_indexes : FileStore → FileStore
unfolding rebuild_from
rebuild_indexes s = rebuild_from s.segments 0 (record s { index = [] })
