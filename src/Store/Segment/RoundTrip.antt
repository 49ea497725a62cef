-- ===== src/Store/Segment/RoundTrip.antt =====
-- internal/store/segment.go: WriteRecord followed by reads, and reads of a file that has grown.
use josefina.Prelude.{
  ℕ, ◌≡◌, ap, ◌∙◌, sym, subst, false, [], ◌++◌, length, length-append, append-nil, arith, ==_iff,
}
use josefina.Store.Result.{ok, Follows, Follows-refl, Follows-bind, ok-injective}
use josefina.Store.Bytes.{Bytes, checksum}
use josefina.Store.Segment.{Segment, RecordRef, read_at, read_header, read, write_record, loop}
use josefina.Store.Segment.Reads.{contents, read_at_grown}
use josefina.Store.Segment.Codec.{
  Entry, IsWritable, encode, header_of, read_at_head, read_at_id, read_at_status, read_at_payload,
  head_data_len, head_crc, head_id_len, written, write_record-written, contents-written,
  length-encode, size-written, is_closed-written,
}

module _ (s : Segment) (pre post : Bytes) (e : Entry) (ref : RecordRef) (w : IsWritable e)
    (is_open : s.is_closed ≡ false) (placed : s.file ≡ pre ++ (encode e ++ post))
    (start : ref.offset ≡ length pre) where
  pub read_header_placed : read_header s ref ≡ ok (header_of e)
  unfolding read_header
  read_header_placed = rw (
    read_at_head s pre post e ref.offset w is_open placed start,
    head_data_len s pre post e ref.offset w is_open placed start,
    head_crc s pre post e ref.offset w is_open placed start,
    head_id_len s pre post e ref.offset w is_open placed start,
    read_at_id s pre post e ref.offset w is_open placed start,
    read_at_status s pre post e ref.offset w is_open placed start,
  )

  pub read_placed : read s ref ≡ ok e.payload
  unfolding read
  read_placed =
      rw (read_header_placed, read_at_payload s pre post e ref.offset w is_open placed start)
        (ground (arith, ==_iff (checksum e.payload) (checksum e.payload)))

written_reads :
    (s : Segment) (id payload : Bytes) (status : ℕ)
    → IsWritable (record { id = id; payload = payload; status = status })
    → s.size ≡ length (contents s)
    → let e : Entry = record { id = id; payload = payload; status = status } in
      let t = written s id payload status in
      let ref : RecordRef = record { segment = 0; offset = s.size; length = length payload } in
      (read (loop t) ref ≡ ok payload)
      × (read_header (loop t) ref ≡ ok (header_of e))
      × (t.size ≡ length (contents t))
unfolding loop
written_reads s id payload status w z = (
  read_placed (loop t) (contents s) [] e ref w is_open placed z,
  read_header_placed (loop t) (contents s) [] e ref w is_open placed z,
  omega (
    arith,
    ap length (contents-written s id payload status),
    length-append (contents s) (encode e),
    length-encode e,
    size-written s id payload status,
  ),
)
  where
    e : Entry
    e = record { id = id; payload = payload; status = status }

    t : Segment
    t = written s id payload status

    ref : RecordRef
    ref = record { segment = 0; offset = s.size; length = length payload }

    is_open : (loop t).is_closed ≡ false
    is_open = is_closed-written s id payload status

    placed : (loop t).file ≡ contents s ++ (encode e ++ [])
    placed =
        contents-written s id payload status
        ∙ ap (λ b. contents s ++ b) (sym (append-nil (encode e)))

-- A record of valid lengths, written to an open segment whose size counts its bytes, is read back
-- by `read` and `read_header` once the goroutine has written it, and the size counts the bytes again.
pub read-write_record :
    (s t : Segment) (id payload : Bytes) (status : ℕ) (ref : RecordRef)
    → IsWritable (record { id = id; payload = payload; status = status })
    → s.is_closed ≡ false
    → s.size ≡ length (contents s)
    → write_record s id payload status ≡ ok (t, ref)
    → (read (loop t) ref ≡ ok payload)
      × (read_header (loop t) ref
          ≡ ok (header_of (record { id = id; payload = payload; status = status })))
      × (t.size ≡ length (contents t))
read-write_record s t id payload status ref w o z h =
    subst
      (λ (p : Segment × RecordRef).
        (read (loop p.0) p.1 ≡ ok payload)
        × (read_header (loop p.0) p.1
            ≡ ok (header_of (record { id = id; payload = payload; status = status })))
        × (p.0.size ≡ length (contents p.0)))
      (ok-injective (sym (write_record-written s id payload status w o) ∙ h))
      (written_reads s id payload status w z)

module _ (s t : Segment) (more : Bytes) (grown : t.file ≡ s.file ++ more)
    (is_open : t.is_closed ≡ false) where
  pub read_at-Follows : (n off : ℕ) → Follows (read_at s n off) (read_at t n off)
  read_at-Follows n off = record { at = λ b. read_at_grown s t more n off b grown is_open }

  pub read_header_grown : (ref : RecordRef) → Follows (read_header s ref) (read_header t ref)
  unfolding read_header
  read_header_grown ref = search (Follows-bind, Follows-refl, read_at-Follows)

  read-Follows : (ref : RecordRef) → Follows (read s ref) (read t ref)
  unfolding read
  read-Follows ref = search (Follows-bind, Follows-refl, read_at-Follows, read_header_grown)

-- What `read` returned from a file is what it returns after any bytes have been appended to it.
pub read_grown :
    (s t : Segment) (more payload : Bytes) (ref : RecordRef)
    → t.file ≡ s.file ++ more
    → t.is_closed ≡ false
    → read s ref ≡ ok payload
    → read t ref ≡ ok payload
read_grown s t more payload ref f o = (read-Follows s t more f o ref).at payload
