-- ===== src/Store/Rebuild/Scan.antt =====
-- internal/store/store.go: the loop of rebuildIndex over whole records.
use josefina.Prelude.{
  ℕ, zero, suc, ◌+◌, ◌<◌, ◌≡◌, ◌≢◌, ap, ◌∙◌, sym, false, List, [], ◌∷◌, ◌++◌, length, length-append,
  append_assoc, eq-nil_of_length, inl, inr, arith, All, ==_iff,
}
use josefina.Store.Result.{ok, Result-cases}
use josefina.Store.Bytes.{Bytes, checksum}
use josefina.Store.Segment.{Segment, read_at, fixed_header_size}
use josefina.Store.Segment.Codec.{
  Entry, IsWritable, encode, read_at_head, read_at_id, read_at_status, read_at_payload,
  head_data_len, head_crc, head_id_len, length-encode,
}
use josefina.Store.FileStore.{FileStore}
use josefina.Store.Rebuild.{Scanned, check_payload, scan_record, apply_record, scan_loop}

-- The bytes of a log.
abbrev pub encode_all : List Entry → Bytes
encode_all [] = []
encode_all (e ∷ es) = encode e ++ encode_all es

-- What the records of a log do to the store, the first of them at `offset` of segment `i`.
unfoldable pub replay_segment : ℕ → ℕ → List Entry → FileStore → FileStore
replay_segment i offset [] s = s
replay_segment i offset (e ∷ es) s =
    replay_segment i (offset + length (encode e)) es
      (apply_record s i offset e.id e.status (length e.payload))

module _ (s : Segment) (pre post : Bytes) (e : Entry) (off : ℕ) (w : IsWritable e)
    (is_open : s.is_closed ≡ false) (placed : s.file ≡ pre ++ (encode e ++ post))
    (start : off ≡ length pre) where
  check_payload_placed :
      check_payload s (length e.payload) (checksum e.payload) (off + 10 + length e.id + 1)
      ≡ ok e.payload
  unfolding check_payload
  check_payload_placed = ground (
    arith,
    eq-nil_of_length e.payload,
    ==_iff (checksum e.payload) (checksum e.payload),
    ap (λ o. read_at s (length e.payload) o) (later (length e.id))
        ∙ read_at_payload s pre post e off w is_open placed start,
  )
    where
      later : (n : ℕ) → off + 10 + n + 1 ≡ off + (fixed_header_size + n)
      later n = omega arith

  pub scan_record_placed :
      scan_record s off
      ≡ ok (record {
        id = e.id;
        status = e.status;
        data_len = length e.payload;
        next = off + length (encode e);
      })
  unfolding scan_record
  scan_record_placed =
      rw
        (
          read_at_head s pre post e off w is_open placed start,
          head_data_len s pre post e off w is_open placed start,
          head_crc s pre post e off w is_open placed start,
          head_id_len s pre post e off w is_open placed start,
          read_at_id s pre post e off w is_open placed start,
          read_at_status s pre post e off w is_open placed start,
          check_payload_placed,
        )
        (ground (arith, w.named, length-encode e))

scan_loop_step :
    (fuel : ℕ) (seg : Segment) (i off : ℕ) (s : FileStore) (r : Scanned)
    → scan_record seg off ≡ ok r
    → scan_loop (suc fuel) seg i off s
      ≡ scan_loop fuel seg i r.next (apply_record s i off r.id r.status r.data_len)
unfolding scan_loop
scan_loop_step fuel seg i off s r h = rw (h, scan_loop)

scan_loop_stop :
    (fuel : ℕ) (seg : Segment) (i off : ℕ) (s : FileStore)
    → ((r : Scanned) → scan_record seg off ≢ ok r)
    → scan_loop (suc fuel) seg i off s ≡ s
unfolding scan_loop
scan_loop_stop fuel seg i off s stop = elim (Result-cases (scan_record seg off)) [
  | inl (r, h) ↦ absurd (stop r h)
  | inr (inl (e, h)) ↦ rw (h, scan_loop)
  | inr (inr h) ↦ rw (h, scan_loop)
]

-- The loop over a file that holds `done`, then the records `es`, then bytes that are no record: it
-- does to the store what the records say, in their order, and stops.
pub scan_loop-replay_segment :
    (es : List Entry) (fuel : ℕ) (seg : Segment) (i off last : ℕ) (done torn : Bytes)
    (s : FileStore)
    → All IsWritable es
    → seg.is_closed ≡ false
    → seg.file ≡ done ++ (encode_all es ++ torn)
    → off ≡ length done
    → last ≡ off + length (encode_all es)
    → ((r : Scanned) → scan_record seg last ≢ ok r)
    → length (encode_all es) < fuel
    → scan_loop fuel seg i off s ≡ replay_segment i off es s
unfolding replay_segment
scan_loop-replay_segment es zero seg i off last done torn s w o f p l stop h = absurd (omega arith)
scan_loop-replay_segment [] (suc fuel) seg i off last done torn s w o f p l stop h =
    scan_loop_stop fuel seg i off s (rw at_end stop)
  where
    at_end : off ≡ last
    at_end = omega arith
scan_loop-replay_segment (e ∷ es) (suc fuel) seg i off last done torn s w o f p l stop h =
    scan_loop_step fuel seg i off s _ (scan_record_placed seg done _ e off w.0 o placed p)
    ∙ scan_loop-replay_segment es fuel seg i (off + length (encode e)) last (done ++ encode e) torn
        _ w.1 o (placed ∙ sym (append_assoc done (encode e) (encode_all es ++ torn)))
        (omega (arith, length-append done (encode e)))
        (omega (arith, length-append (encode e) (encode_all es))) stop
        (omega (arith, length-append (encode e) (encode_all es), length-encode e))
  where
    placed : seg.file ≡ done ++ (encode e ++ (encode_all es ++ torn))
    placed = f ∙ ap (λ b. done ++ b) (append_assoc (encode e) (encode_all es) torn)
