-- ===== src/Store/Rebuild/Ends.antt =====
-- rebuildIndex of internal/store/store.go: its loop comes to an end on every file.
use josefina.Prelude.{
  ℕ, zero, suc, ◌+◌, ◌-◌, ◌≤◌, ◌<◌, ◌≡◌, ◌≢◌, sym, ap, ◌∙◌, arith, length, drop, length-drop, inl,
  inr, ◌⊎◌, ◌==◌, if◌then◌else◌,
}
use josefina.Store.Result.{
  Result, ok, err, panic, Error, corrupted_record, ◌>>=◌, Ensures, Ensures-ok, Ensures-err,
  Ensures-bind, Ensures-if, Result-cases,
}
use josefina.Store.Bytes.{Bytes, get_uint32, get_uint16}
use josefina.Store.Segment.{Segment, read_at, first_byte}
use josefina.Store.FileStore.{FileStore}
use josefina.Store.Rebuild.{
  Scanned, check_payload, scan_record, apply_record, scan_loop, reset_empty, rebuild_segment,
}

-- The loop on one file from an offset on, with a store before and after: it stops at what it cannot
-- read as a record, and goes on after what it can.
pub data Scans (seg : Segment) (i : ℕ) : ℕ → FileStore → FileStore → Type 0 where
  stops :
      {off : ℕ} {s : FileStore} → ((r : Scanned) → scan_record seg off ≢ ok r) → Scans seg i off s s
  goes_on :
      {off : ℕ} {s t : FileStore} {r : Scanned}
      → scan_record seg off ≡ ok r
      → Scans seg i r.next (apply_record s i off r.id r.status r.data_len) t
      → Scans seg i off s t

read_at-inside :
    (seg : Segment) (n off : ℕ) (b : Bytes)
    → read_at seg (suc n) off ≡ ok b
    → off + suc n ≤ length seg.file
unfolding read_at
read_at-inside seg n off b h = ground (arith, length-drop off seg.file, h)

-- The steps of a round after the head is read, for the numbers that it holds.
module _ (seg : Segment) (off data_len crc id_len : ℕ) where
  abbrev scanned : Bytes → Bytes → Bytes → Result Scanned
  scanned id status payload = ok (record {
    id = id;
    status = first_byte status;
    data_len = data_len;
    next = off + (11 + id_len + data_len);
  })

  abbrev with_status : Bytes → Bytes → Result Scanned
  with_status id status =
      check_payload seg data_len crc (off + 10 + id_len + 1) >>= scanned id status

  abbrev with_id : Bytes → Result Scanned
  with_id id = read_at seg 1 (off + 10 + id_len) >>= with_status id

  IsNext : Scanned → Type 0
  IsNext r = off + 11 ≤ r.next

  with_id-IsNext : (id : Bytes) → Ensures IsNext (with_id id)
  unfolding IsNext
  with_id-IsNext id = Ensures-bind (read_at seg 1 (off + 10 + id_len)) (with_status id) (λ status _.
      Ensures-bind (check_payload seg data_len crc (off + 10 + id_len + 1)) (scanned id status)
        (λ payload _. Ensures-ok _ (omega arith)))

  after_head-IsNext :
      Ensures IsNext
        (if id_len == 0 then err corrupted_record else read_at seg id_len (off + 10) >>= with_id)
  after_head-IsNext =
      Ensures-if (id_len == 0) (err corrupted_record) (read_at seg id_len (off + 10) >>= with_id)
        (λ _. Ensures-err corrupted_record)
        (λ _. Ensures-bind (read_at seg id_len (off + 10)) with_id (λ id _. with_id-IsNext id))

fails :
    {A : Type 0} (m : Result A) (f : A → Result Scanned) (r : Scanned)
    → ((e : Error) × (m ≡ err e)) ⊎ (m ≡ panic)
    → (m >>= f) ≢ ok r
fails (ok a) f r (inl (e, g)) h = cc
fails (ok a) f r (inr g) h = cc
fails (err e) f r g h = cc
fails panic f r g h = cc

scan_record-next :
    (seg : Segment) (off : ℕ) (r : Scanned)
    → scan_record seg off ≡ ok r
    → (off + 11 ≤ r.next) × (off + 11 ≤ length seg.file)
unfolding scan_record IsNext
scan_record-next seg off r h = elim (Result-cases (read_at seg 11 off)) [
  | inl (fixed, e) ↦ (
    (after_head-IsNext seg off (get_uint32 fixed) (get_uint32 (drop 4 fixed))
          (get_uint16 (drop 8 fixed))).at
        r
        (ap
            (λ m. m >>= λ fixed.
              if get_uint16 (drop 8 fixed) == 0
              then err corrupted_record
              else read_at seg (get_uint16 (drop 8 fixed)) (off + 10)
                >>= with_id seg off (get_uint32 fixed) (get_uint32 (drop 4 fixed))
                    (get_uint16 (drop 8 fixed)))
            (sym e)
          ∙ h),
    read_at-inside seg 10 off fixed e,
  )
  | inr (inl (e, g)) ↦ absurd (fails (read_at seg 11 off) _ r (inl (e, g)) h)
  | inr (inr g) ↦ absurd (fails (read_at seg 11 off) _ r (inr g) h)
]

scan_loop-Scans :
    (fuel : ℕ) (seg : Segment) (i off : ℕ) (s : FileStore)
    → length seg.file - off < fuel
    → Scans seg i off s (scan_loop fuel seg i off s)
unfolding scan_loop
scan_loop-Scans zero seg i off s h = absurd (omega arith)
scan_loop-Scans (suc fuel) seg i off s h = elim (Result-cases (scan_record seg off)) [
  | inl (r, e) ↦
      let next = scan_record-next seg off r e in
      rw (e, scan_loop) (Scans.goes_on e (scan_loop-Scans fuel seg i r.next _ (omega arith)))
  | inr (inl (e, h)) ↦ rw (h, scan_loop) (Scans.stops (λ r g. absurd (cc)))
  | inr (inr h) ↦ rw (h, scan_loop) (Scans.stops (λ r g. absurd (cc)))
]

-- On every file, whatever its bytes, the loop of rebuildIndex comes to an end, and what it leaves is
-- the index that rebuild_segment returns.
pub rebuild_segment-Scans :
    (seg : Segment) (i : ℕ) (s : FileStore)
    → Scans seg i 0 (reset_empty s) (rebuild_segment seg i s)
unfolding rebuild_segment
rebuild_segment-Scans seg i s =
    scan_loop-Scans (suc (length seg.file)) seg i 0 (reset_empty s) (omega arith)
