-- ===== src/Store/Rebuild/Torn.antt =====
-- internal/store/store.go: rebuildIndex on a file whose last record a crash has cut off.
use josefina.Prelude.{
  ℕ, zero, suc, ◌+◌, ◌≤◌, ◌≡◌, ◌≢◌, refl, ap, ◌∙◌, sym, false, List, [], ◌∷◌, ◌++◌, length, drop,
  length-append, append_assoc, append-nil, arith, All, ◌==◌,
}
use josefina.Store.Result.{
  ok, Follows, Follows-refl, Follows-bind, Follows-if, ok-injective, Ensures, Ensures-err,
  Ensures-bind, Ensures-if,
}
use josefina.Store.Bytes.{Bytes, get_uint16, get_uint32}
use josefina.Store.Segment.{Segment, read_at}
use josefina.Store.Segment.Reads.{read_at_bound}
use josefina.Store.Segment.RoundTrip.{read_at-Follows}
use josefina.Store.Segment.Codec.{Entry, IsWritable, encode}
use josefina.Store.FileStore.{FileStore}
use josefina.Store.Rebuild.Scan.{
  encode_all, replay_segment, scan_loop-replay_segment, scan_record_placed,
}
use josefina.Store.Rebuild.{Scanned, rebuild_segment, reset_empty, check_payload, scan_record}

module _ (s t : Segment) (more : Bytes) (grown : t.file ≡ s.file ++ more)
    (is_open : t.is_closed ≡ false) where
  reads_follow : (n off : ℕ) → Follows (read_at s n off) (read_at t n off)
  reads_follow = read_at-Follows s t more grown is_open

  check_payload-Follows :
      (n crc off : ℕ) → Follows (check_payload s n crc off) (check_payload t n crc off)
  unfolding check_payload
  check_payload-Follows n crc off = search (Follows-if, Follows-bind, Follows-refl, reads_follow)

  -- A record that the loop finds in a file, it finds there after any bytes have been appended.
  scan_record-Follows : (off : ℕ) → Follows (scan_record s off) (scan_record t off)
  unfolding scan_record
  scan_record-Follows off =
      search (Follows-if, Follows-bind, Follows-refl, reads_follow, check_payload-Follows) depth 9

check_payload_bound :
    (s : Segment) (n crc off : ℕ)
    → off ≤ length s.file
    → Ensures (λ _. off + n ≤ length s.file) (check_payload s n crc off)
unfolding check_payload
check_payload_bound s zero crc off p = record { at = λ _ _. omega arith }
check_payload_bound s (suc n) crc off p =
    Ensures-if (suc n == 0) _ _ (λ e. absurd (ground arith))
      λ _.
        Ensures-bind (read_at s (suc n) off) _
          λ payload h. record { at = λ _ _. read_at_bound s n off payload h }

abbrev next_of : Scanned → ℕ
next_of r = r.next

-- A record that the loop finds lies inside the file.
scan_record_bound :
    (s : Segment) (off : ℕ) → Ensures (λ r. r.next ≤ length s.file) (scan_record s off)
unfolding scan_record
scan_record_bound s off = Ensures-bind (read_at s 11 off) _ λ fixed _.
    let n = get_uint16 (drop 8 fixed) in
    let d = get_uint32 fixed in
    let c = get_uint32 (drop 4 fixed) in
    Ensures-if (n == 0) _ _ (λ _. Ensures-err _)
      λ _. Ensures-bind (read_at s n (off + 10)) _ λ id _.
        Ensures-bind (read_at s 1 (off + 10 + n)) _ λ st hs.
          Ensures-bind (check_payload s d c (off + 10 + n + 1)) _ λ payload hp.
            let status_read = read_at_bound s 0 (off + 10 + n) st hs in
            let inside = (check_payload_bound s d c (off + 10 + n + 1) status_read).at payload hp in
            record { at = λ r h. omega (arith, inside, ap next_of (ok-injective h)) }

-- A proper prefix of a record, at the end of a file, is not taken for a record.
scan_record_torn :
    (seg : Segment) (done torn missing : Bytes) (x : ℕ) (e : Entry) (off : ℕ)
    → IsWritable e
    → seg.is_closed ≡ false
    → seg.file ≡ done ++ torn
    → off ≡ length done
    → torn ++ (x ∷ missing) ≡ encode e
    → (r : Scanned) → scan_record seg off ≢ ok r
scan_record_torn seg done torn missing x e off w o f p q r h = absurd (
    omega (
      arith,
      (scan_record_bound seg off).at r h,
      ap next_of (ok-injective (sym found ∙ placed)),
      ap length f,
      length-append done torn,
      ap length q,
      length-append torn (x ∷ missing),
    ))
  where
    whole : Segment
    whole = record seg { file = done ++ (encode e ++ []) }

    grown : whole.file ≡ seg.file ++ (x ∷ missing)
    grown = rw (f, append_assoc, q, append-nil)

    found : scan_record whole off ≡ ok r
    found = (scan_record-Follows seg whole (x ∷ missing) grown o off).at r h

    placed :
        scan_record whole off
        ≡ ok (record {
          id = e.id;
          status = e.status;
          data_len = length e.payload;
          next = off + length (encode e);
        })
    placed = scan_record_placed whole done [] e off w o refl p

-- An open file that holds the records `es` and then `torn`, a proper prefix of one more record: the
-- loop of rebuildIndex, with the fuel that it is given, applies the records `es` in their order and
-- nothing else.
pub rebuild_segment-replay_segment :
    (seg : Segment) (i : ℕ) (s : FileStore) (es : List Entry) (e : Entry) (torn missing : Bytes)
    (x : ℕ)
    → All IsWritable es
    → IsWritable e
    → seg.is_closed ≡ false
    → seg.file ≡ encode_all es ++ torn
    → torn ++ (x ∷ missing) ≡ encode e
    → rebuild_segment seg i s ≡ replay_segment i 0 es (reset_empty s)
unfolding rebuild_segment
rebuild_segment-replay_segment seg i s es e torn missing x ws w o f q =
    scan_loop-replay_segment es (suc (length seg.file)) seg i 0 (length (encode_all es)) [] torn _
      ws o f refl (omega arith)
      (scan_record_torn seg (encode_all es) torn missing x e _ w o f refl q)
      (omega (arith, ap length f, length-append (encode_all es) torn))
