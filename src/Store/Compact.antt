-- ===== src/Store/Compact.antt =====
-- internal/store/compact.go: the rewrite of a store's live records into new segments.
--
-- Compact reads the index and copies the records without the lock for writes, then takes it for the
-- swap: these are two steps here, `copy_all` of the state that the copy sees and `swap` in the state
-- at that time. The directories are renamed without an error.
pub mod Copied
pub mod Source
pub mod Loop
pub mod Refines
use josefina.Prelude.{
  ℕ, ◌+◌, ◌-◌, ◌==◌, ◌%◌, ◌^◌, Option, none, some, List, [], ◌∷◌, ◌++◌, map, length, get_elem?,
  drop, ltb, if◌then◌else◌,
}
use josefina.Prelude.Eq.{bytes_eq}
use josefina.Prelude.Assoc.{lookup, insert}
use josefina.Store.Result.{Result, ok, err, panic, ◌>>=◌}
use josefina.Store.Bytes.{Bytes, active, get_uint16}
use josefina.Store.Segment
use josefina.Store.Segment.{Segment, RecordRef, fixed_header_size, read_at, write_record}
use josefina.Store.FileStore.{FileStore, Index}
use josefina.Store.Listing.{sort_strings}
use josefina.Store.Rebuild.{rebuild_indexes}

-- newSegments is `full` and then `current`; `index` is newIndex.
pub record Compaction : Type 0 where
  pub full : List Segment
  pub current : Segment
  pub index : Index

unfoldable pub start : Compaction
start = record { full = []; current = Segment.new_segment [] 0; index = [] }

-- createSegment
unfoldable pub create_segment : Compaction → Compaction
create_segment c = record c { full = c.full ++ c.current ∷ []; current = Segment.new_segment [] 0 }

unfoldable pub make_room : ℕ → ℕ → Compaction → Compaction
unfolding create_segment
make_room max_segment record_size c =
    if ltb max_segment (c.current.size + record_size) then create_segment c else c

unfoldable pub write_copy : Bytes → Bytes → Compaction → Result Compaction
write_copy id payload c = do
  (current, ref) ← write_record c.current id payload active
  ok (record {
    full = c.full;
    current = current;
    index = insert id (record ref { segment = length c.full }) c.index;
  })

-- The sum of fixedHeaderSize and idLen is an uint16.
unfoldable pub copy_from : ℕ → Segment → RecordRef → Bytes → Compaction → Result Compaction
unfolding make_room write_copy
copy_from max_segment old_seg ref id c = do
  fixed ← read_at old_seg fixed_header_size ref.offset
  let id_len = get_uint16 (drop 8 fixed)
  payload ← read_at old_seg ref.length (ref.offset + (fixed_header_size + id_len) % 2 ^ 16)
  write_copy id payload (make_room max_segment (fixed_header_size + id_len + length payload) c)

-- One round of the loop. The id is a key of the index, and its segment one of the store's.
unfoldable pub copy_record : FileStore → Bytes → Compaction → Result Compaction
unfolding copy_from
copy_record s id c = elim (lookup id s.index) [
  | none ↦ panic
  | some ref ↦ elim (get_elem? s.segments ref.segment) [
    | none ↦ panic
    | some old_seg ↦ copy_from s.max_segment old_seg ref id c
  ]
]

unfoldable pub copy_keys : FileStore → List Bytes → Compaction → Result Compaction
unfolding copy_record
copy_keys s [] c = ok c
copy_keys s (id ∷ ids) c = copy_record s id c >>= copy_keys s ids

-- The ids in their order.
unfoldable pub compact_keys : FileStore → List Bytes
compact_keys s = sort_strings (map (λ (p : Bytes × RecordRef). p.0) s.index)

unfoldable pub copy_all : FileStore → Result Compaction
unfolding copy_keys compact_keys
copy_all s = copy_keys s (compact_keys s) start

unfoldable pub swap : List Bytes → Compaction → FileStore → FileStore
swap keys c s = record s {
  index = c.index;
  keys = keys;
  segments = c.full ++ c.current ∷ [];
  active = length c.full;
  tomb_stones = 0;
}

-- Compact, where no other operation comes between its two steps.
unfoldable pub compact : FileStore → Result FileStore
unfolding copy_all swap
compact s = do c ← copy_all s; ok (swap (compact_keys s) c s)

-- A goroutine that `go s.Compact()` of appendRecord has started runs, with no other operation within
-- it; where none waits, nothing happens. The error of Compact is dropped.
unfoldable after_goroutine : Result FileStore → FileStore → Result FileStore
after_goroutine (ok t) s = ok t
after_goroutine (err e) s = ok s
after_goroutine panic s = panic

unfoldable pub run_started : FileStore → Result FileStore
unfolding compact after_goroutine
run_started s =
    let waiting = record s { compactions = s.compactions - 1 } in
    if s.compactions == 0 then ok s else after_goroutine (compact waiting) waiting

unfoldable pub prune : FileStore → Result FileStore
unfolding compact
prune s = do t ← compact s; ok (rebuild_indexes t)
