-- ===== src/Store/Snapshot.antt =====
-- CreateSnapshot and tryLoadSnapshot of internal/store/snapshot.go.
pub mod RoundTrip
use josefina.Prelude.{
  ℕ, zero, suc, ◌-◌, none, some, [], ◌∷◌, ◌++◌, length, take, drop, replicate, ltb, leb, ◌==◌,
  if◌then◌else◌,
}
use josefina.Prelude.Eq.{◌=?◌, bytes_eq}
use josefina.Store.Result.{
  Result, ok, err, invalid_snapshot, snapshot_corrupted, invalid_snapshot_magic,
}
use josefina.Store.Bytes.{
  Bytes, checksum, put_uint16, put_uint32, put_uint64, get_uint16, get_uint32, get_uint64,
}
use josefina.Store.Segment.{RecordRef}
use josefina.Store.FileStore.{FileStore, Index, set_index}

-- "SNAP"
abbrev pub magic : Bytes
magic = 83 ∷ 78 ∷ 65 ∷ 80 ∷ []

unfoldable pub snapshot_entry : Bytes → RecordRef → Bytes
snapshot_entry id ref =
    put_uint16 (length id)
    ++ (id ++ (put_uint32 ref.segment ++ (put_uint64 ref.offset ++ put_uint32 ref.length)))

-- Entries of the current segment are left out; the map is visited in the order of the list.
unfoldable pub snapshot_entries : ℕ → Index → Bytes
snapshot_entries current [] = []
snapshot_entries current ((id, ref) ∷ index) =
    let rest = snapshot_entries current index in
    if ref.segment == current then rest else snapshot_entry id ref ++ rest

unfoldable pub snapshot_payload : FileStore → Bytes
unfolding snapshot_entries
snapshot_payload s =
    magic
    ++ (put_uint16 1
        ++ (put_uint64 (length s.index) ++ snapshot_entries (length s.segments - 1) s.index))

-- The rename that ends the function replaces the snapshot as a whole.
unfoldable pub create_snapshot : FileStore → FileStore
create_snapshot s =
    let payload = snapshot_payload s in
    record s { snapshot = some (payload ++ put_uint32 (checksum payload)) }

-- bytes.Reader.Read into `n` fresh bytes: what is left, then zeros; and what is left after it.
unfoldable pub read_bytes : ℕ → Bytes → Bytes × Bytes
read_bytes n buf = (take n buf ++ replicate (n - length buf) 0, drop n buf)

-- binary.Read of a number of `n` bytes: where they are not there the variable keeps its 0, and the
-- reader is at its end.
unfoldable pub read_number : (Bytes → ℕ) → ℕ → Bytes → ℕ × Bytes
read_number get n buf = if leb n (length buf) then (get (take n buf), drop n buf) else (0, [])

-- An offset is an int64; it is not negative in a snapshot that CreateSnapshot wrote.
unfoldable pub load_entries : ℕ → Bytes → FileStore → FileStore
unfolding read_number read_bytes
load_entries zero buf s = s
load_entries (suc n) buf s =
    let (id_len, buf1) = read_number get_uint16 2 buf in
    let (id, buf2) = read_bytes id_len buf1 in
    let (seg_index, buf3) = read_number get_uint32 4 buf2 in
    let (offset, buf4) = read_number get_uint64 8 buf3 in
    let (data_len, buf5) = read_number get_uint32 4 buf4 in
    load_entries n buf5 (set_index s id seg_index offset data_len)

unfoldable pub load_payload : Bytes → FileStore → Result FileStore
load_payload payload s =
    let (found, buf1) = read_bytes 4 payload in
    let (version, buf2) = read_number get_uint16 2 buf1 in
    let (count, buf3) = read_number get_uint64 8 buf2 in
    if found =? magic
    then ok (load_entries count buf3 (record s { index = [] }))
    else err invalid_snapshot_magic

unfoldable pub load_snapshot : Bytes → FileStore → Result FileStore
load_snapshot content s =
    if ltb (length content) 10
    then err invalid_snapshot
    else let payload = take (length content - 4) content in
      let stored_crc = get_uint32 (drop (length content - 4) content) in
      if checksum payload == stored_crc then load_payload payload s else err snapshot_corrupted

-- A snapshot is optional.
unfoldable pub try_load_snapshot : FileStore → Result FileStore
try_load_snapshot s = elim s.snapshot [ none ↦ ok s | some content ↦ load_snapshot content s ]
