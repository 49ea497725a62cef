-- ===== src/Store/Segment.antt =====
-- internal/store/segment.go, and newRecordHeaderAt of internal/store/store.go: one data file.
--
-- `file` is what has reached the file. A write goes through the unbuffered channel `ch` to the
-- goroutine of `loop`; `pending` is the chunk that the goroutine has received and not yet written.
-- The calls of the operating system are taken to succeed, but for reads past the end and reads of a
-- closed file. Sizes and offsets (int64) are numbers: no file reaches 2^63 bytes.
pub mod Reads
pub mod Codec
pub mod RoundTrip
use josefina.Prelude.{
  ℕ, ◌+◌, ◌-◌, ◌%◌, ◌^◌, Bool, true, false, [], ◌∷◌, ◌++◌, length, take, drop, ltb, leb, ◌==◌, ◌||◌,
  if◌then◌else◌,
}
use josefina.Store.Result.{
  Result, ok, err, panic, ◌>>=◌, invalid_id_length, data_too_large, corrupted_record, eof, closed,
}
use josefina.Store.Bytes.{Bytes, checksum, put_uint32, put_uint16, get_uint32, get_uint16}

abbrev pub max_id_len : ℕ
max_id_len = 65535

abbrev pub fixed_header_size : ℕ
fixed_header_size = 11

abbrev pub max_uint32 : ℕ
max_uint32 = 2 ^ 32 - 1

pub record RecordHeader : Type 0 where
  pub data_len : ℕ
  pub crc : ℕ
  pub id_len : ℕ
  pub id : Bytes
  pub status : ℕ

unfoldable pub header_size : RecordHeader → ℕ
header_size h = fixed_header_size + h.id_len

unfoldable pub record_size : RecordHeader → ℕ
unfolding header_size
record_size h = header_size h + h.data_len

-- The header's fields, and its bytes; the ID field of the result is not set.
unfoldable pub new_record_header_at : Bytes → Bytes → ℕ → Result (RecordHeader × Bytes)
new_record_header_at id payload status =
    let id_len = length id in
    let data_len = length payload in
    if id_len == 0 || ltb max_id_len id_len
    then err invalid_id_length
    else if ltb max_uint32 data_len
    then err data_too_large
    else let h : RecordHeader = record {
      data_len = data_len % 2 ^ 32;
      crc = checksum payload;
      id_len = id_len % 2 ^ 16;
      id = [];
      status = status;
    } in
      ok (
        h,
        put_uint32 h.data_len ++ (put_uint32 h.crc ++ (put_uint16 h.id_len ++ (id ++ status ∷ []))),
      )

-- RecordRef: where a record lies.
pub record RecordRef : Type 0 where
  pub segment : ℕ
  pub offset : ℕ
  pub length : ℕ

pub record Segment : Type 0 where
  pub file : Bytes
  pub pending : Bytes
  pub size : ℕ
  pub is_closed : Bool

-- newSegment, over a file that holds `content`
unfoldable pub new_segment : Bytes → ℕ → Segment
new_segment content size = record { file = content; pending = []; size = size; is_closed = false }

-- One round of `loop`: the goroutine writes the chunk that it holds.
unfoldable pub loop : Segment → Segment
loop s = record s { file = s.file ++ s.pending; pending = [] }

-- Close waits for the goroutine, then closes the file; a second close of the channel panics.
unfoldable pub close : Segment → Result Segment
unfolding loop
close s = if s.is_closed then panic else ok (record (loop s) { is_closed = true })

-- Sync of a closed file is an error. It does not wait for the goroutine.
unfoldable pub sync : Segment → Result Segment
sync s = if s.is_closed then err closed else ok s

-- os.File.ReadAt of `n` bytes: all of them or an error, and no system call for none.
unfoldable pub read_at : Segment → ℕ → ℕ → Result Bytes
read_at s n off =
    if n == 0
    then ok []
    else if s.is_closed
    then err closed
    else if leb n (length (drop off s.file))
    then ok (take n (drop off s.file))
    else err eof

-- Write: the goroutine takes the next chunk only when it has written the one before.
unfoldable pub write : Segment → Bytes → Result Segment
unfolding loop
write s b = if s.is_closed then panic else ok (record (loop s) { pending = b })

unfoldable pub write_header : Segment → Bytes → Bytes → ℕ → Result (Segment × RecordRef)
unfolding header_size
write_header s id payload status = do
  (h, header) ← new_record_header_at id payload status
  t ← write s header
  ok (
    record t { size = s.size + header_size h },
    record { segment = 0; offset = s.size; length = h.data_len },
  )

-- `if len(data) > 0 { s.Write(data) }`
unfoldable pub write_payload : Segment → Bytes → Result Segment
write_payload s [] = ok s
write_payload s (b ∷ bs) = write s (b ∷ bs)

unfoldable pub write_record : Segment → Bytes → Bytes → ℕ → Result (Segment × RecordRef)
unfolding write_payload record_size
write_record s id payload status = do
  (h, header) ← new_record_header_at id payload status
  t ← write s header
  u ← write_payload t payload
  ok (
    record u { size = s.size + record_size h },
    record { segment = 0; offset = s.size; length = h.data_len },
  )

-- The first byte of a buffer of length one.
abbrev pub first_byte : Bytes → ℕ
first_byte [] = 0
first_byte (b ∷ _) = b

unfoldable pub read_header : Segment → RecordRef → Result RecordHeader
read_header s ref = do
  buf ← read_at s fixed_header_size ref.offset
  let data_len = get_uint32 buf
  let crc = get_uint32 (drop 4 buf)
  let id_len = get_uint16 (drop 8 buf)
  id ← read_at s id_len (ref.offset + 10)
  status ← read_at s 1 (ref.offset + 10 + id_len)
  ok (record {
    data_len = data_len;
    crc = crc;
    id_len = id_len;
    id = id;
    status = first_byte status;
  })

-- `read`: the payload of a record, if its checksum fits
unfoldable pub read : Segment → RecordRef → Result Bytes
read s ref = do
  header ← read_header s ref
  payload ← read_at s header.data_len (ref.offset + (fixed_header_size + header.id_len))
  if checksum payload == header.crc then ok payload else err corrupted_record
