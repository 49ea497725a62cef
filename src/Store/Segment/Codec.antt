-- ===== src/Store/Segment/Codec.antt =====
-- internal/store/segment.go: a record as a value, and its bytes.
use josefina.Prelude.{
  ℕ, ◌+◌, ◌≤◌, ◌<◌, ◌%◌, ◌^◌, ◌≡◌, refl, ◌∙◌, false, [], ◌∷◌, ◌++◌, length, take, drop,
  length-append, append_assoc, append-nil, arith,
}
use josefina.Store.Result.{ok}
use josefina.Store.Bytes.{
  Bytes, checksum, put_uint32, put_uint16, get_uint32, get_uint16, checksum-lt,
}
use josefina.Store.Segment.{
  Segment, RecordHeader, read_at, write_record, write, new_record_header_at, max_id_len, max_uint32,
  fixed_header_size,
}
use josefina.Store.Segment.Reads.{contents, read_at_tail, read_at_exact}

-- What one call of WriteRecord puts into the log.
pub record Entry : Type 0 where
  pub id : Bytes
  pub payload : Bytes
  pub status : ℕ

-- The lengths that newRecordHeaderAt accepts.
pub record IsWritable (e : Entry) : Type 0 where
  pub named : 0 < length e.id
  pub short_id : length e.id ≤ max_id_len
  pub short_payload : length e.payload ≤ max_uint32

unfoldable pub encode_header : Entry → Bytes
encode_header e =
    put_uint32 (length e.payload)
    ++ (put_uint32 (checksum e.payload) ++ (put_uint16 (length e.id) ++ (e.id ++ e.status ∷ [])))

unfoldable pub encode : Entry → Bytes
unfolding encode_header
encode e = encode_header e ++ e.payload

pub length-encode :
    (e : Entry) → length (encode e) ≡ fixed_header_size + length e.id + length e.payload
unfolding encode put_uint32 put_uint16
length-encode e =
    omega
      (arith, length-append (e.id ++ e.status ∷ []) e.payload, length-append e.id (e.status ∷ []))

abbrev pub header_of : Entry → RecordHeader
header_of e = record {
  data_len = length e.payload;
  crc = checksum e.payload;
  id_len = length e.id;
  id = e.id;
  status = e.status;
}

pub new_record_header_at-encode_header :
    (e : Entry)
    → IsWritable e
    → new_record_header_at e.id e.payload e.status
      ≡ ok (record (header_of e) { id = [] }, encode_header e)
unfolding new_record_header_at encode_header
new_record_header_at-encode_header e w = rw (id_fits, payload_fits) (ground arith)
  where
    id_fits : length e.id % 2 ^ 16 ≡ length e.id
    id_fits = omega arith

    payload_fits : length e.payload % 2 ^ 32 ≡ length e.payload
    payload_fits = omega arith

-- The file as it will be once the goroutine has caught up, read from an open descriptor.
abbrev pub at_rest : Segment → Segment
at_rest s = record s { file = contents s; pending = []; is_closed = false }

-- The segment after a call of WriteRecord: the last chunk is still with the goroutine.
unfoldable pub written : Segment → Bytes → Bytes → ℕ → Segment
written s id [] status = record {
  file = contents s;
  pending = encode_header (record { id = id; payload = []; status = status });
  size = s.size + (fixed_header_size + length id + 0);
  is_closed = false;
}
written s id (b ∷ bs) status = record {
  file = contents s ++ encode_header (record { id = id; payload = b ∷ bs; status = status });
  pending = b ∷ bs;
  size = s.size + (fixed_header_size + length id + length (b ∷ bs));
  is_closed = false;
}

pub write_record-written :
    (s : Segment) (id payload : Bytes) (status : ℕ)
    → IsWritable (record { id = id; payload = payload; status = status })
    → s.is_closed ≡ false
    → write_record s id payload status
      ≡ ok (
        written s id payload status,
        record { segment = 0; offset = s.size; length = length payload },
      )
unfolding write_record write written
write_record-written s id [] status w o =
    rw (new_record_header_at-encode_header (record { id = id; payload = []; status = status }) w, o)
write_record-written s id (b ∷ bs) status w o = rw (
  new_record_header_at-encode_header (record { id = id; payload = b ∷ bs; status = status }) w,
  o,
)

pub contents-written :
    (s : Segment) (id payload : Bytes) (status : ℕ)
    → contents (written s id payload status)
      ≡ contents s ++ encode (record { id = id; payload = payload; status = status })
unfolding written encode
contents-written s id [] status = rw append-nil
contents-written s id (b ∷ bs) status = simp append_assoc

pub size-written :
    (s : Segment) (id payload : Bytes) (status : ℕ)
    → (written s id payload status).size ≡ s.size + (fixed_header_size + length id + length payload)
unfolding written
size-written s id [] status = refl
size-written s id (b ∷ bs) status = refl

pub is_closed-written :
    (s : Segment) (id payload : Bytes) (status : ℕ)
    → (written s id payload status).is_closed ≡ false
unfolding written
is_closed-written s id [] status = refl
is_closed-written s id (b ∷ bs) status = refl

module _ (s : Segment) (pre post : Bytes) (e : Entry) (off : ℕ) (w : IsWritable e)
    (is_open : s.is_closed ≡ false) (placed : s.file ≡ pre ++ (encode e ++ post))
    (start : off ≡ length pre) where
  -- The bytes of the record behind its fixed fields.
  abbrev fixed : Bytes
  fixed =
      put_uint32 (length e.payload) ++ (put_uint32 (checksum e.payload) ++ put_uint16 (length e.id))

  -- Where the id, the status and the payload start.
  length-fixed : length fixed ≡ 10
  unfolding put_uint32 put_uint16
  length-fixed = refl

  id_start : off + 10 ≡ length (pre ++ fixed)
  id_start = omega (arith, length-append pre fixed, length-fixed)

  status_start : off + 10 + length e.id ≡ length ((pre ++ fixed) ++ e.id)
  status_start = omega (arith, id_start, length-append (pre ++ fixed) e.id)

  payload_start :
      off + (fixed_header_size + length e.id) ≡ length (((pre ++ fixed) ++ e.id) ++ (e.status ∷ []))
  payload_start =
      omega (arith, status_start, length-append ((pre ++ fixed) ++ e.id) (e.status ∷ []))

  placed_id : s.file ≡ (pre ++ fixed) ++ (e.id ++ ((e.status ∷ []) ++ (e.payload ++ post)))
  placed_id = placed ∙ (unfold encode in simp append_assoc)

  placed_status : s.file ≡ ((pre ++ fixed) ++ e.id) ++ ((e.status ∷ []) ++ (e.payload ++ post))
  placed_status = placed ∙ (unfold encode in simp append_assoc)

  placed_payload : s.file ≡ (((pre ++ fixed) ++ e.id) ++ (e.status ∷ [])) ++ (e.payload ++ post)
  placed_payload = placed ∙ (unfold encode in simp append_assoc)

  pub read_at_id : read_at s (length e.id) (off + 10) ≡ ok e.id
  read_at_id = read_at_exact s (pre ++ fixed) e.id _ _ _ is_open placed_id id_start refl

  pub read_at_status : read_at s 1 (off + 10 + length e.id) ≡ ok (e.status ∷ [])
  read_at_status =
      read_at_exact s ((pre ++ fixed) ++ e.id) (e.status ∷ []) _ _ _ is_open placed_status
        status_start refl

  pub read_at_payload :
      read_at s (length e.payload) (off + (fixed_header_size + length e.id)) ≡ ok e.payload
  read_at_payload =
      read_at_exact s (((pre ++ fixed) ++ e.id) ++ (e.status ∷ [])) e.payload post _ _ is_open
        placed_payload payload_start refl

  -- The eleven bytes that a reader takes first.
  abbrev head_bytes : Bytes
  head_bytes = take 11 (encode e ++ post)

  pub read_at_head : read_at s fixed_header_size off ≡ ok head_bytes
  read_at_head =
      read_at_tail s pre (encode e ++ post) fixed_header_size off is_open placed start
        (omega (arith, length-append (encode e) post, length-encode e))

  pub head_data_len : get_uint32 head_bytes ≡ length e.payload
  unfolding encode get_uint32 put_uint32 put_uint16
  head_data_len = omega (arith, w.short_payload)

  pub head_crc : get_uint32 (drop 4 head_bytes) ≡ checksum e.payload
  unfolding encode get_uint32 put_uint32 put_uint16
  head_crc = omega (arith, checksum-lt e.payload)

  pub head_id_len : get_uint16 (drop 8 head_bytes) ≡ length e.id
  unfolding encode get_uint16 put_uint32 put_uint16
  head_id_len = omega (arith, w.short_id)
