-- ===== src/Store/Invariant/Write.antt =====
-- appendRecord as a whole: where the record goes, with and without a rotation.
use josefina.Prelude.{
  ℕ, suc, ◌⊎◌, ◌+◌, ◌-◌, List, [], ◌∷◌, ◌++◌, length, length-append, set, ◌≡◌, refl, ap, ◌∙◌, sym,
  true, false, inl, inr, Bool-cases, ltb, All-append, arith, set-append_at, none, append-nil,
}
use josefina.Store.Result.{ok}
use josefina.Store.Bytes.{Bytes}
use josefina.Store.Segment
use josefina.Store.Segment.{Segment, RecordRef}
use josefina.Store.Segment.Reads.{contents}
use josefina.Store.Segment.Codec.{
  Entry, IsWritable, encode, written, write_record-written, contents-written, size-written,
  is_closed-written, length-encode,
}
use josefina.Store.Rebuild.Scan.{encode_all}
use josefina.Store.FileStore.{FileStore}
use josefina.Store.Snapshot.{create_snapshot}
use josefina.Store.Exec.{Exec, ◌>>=◌, ◌>>◌, modify, pure, >>=-of_ok}
use josefina.Store.Ops.{
  append_record, active_segment, rotate, new_segment, write_active, sync_active, trigger_compact,
}
use josefina.Store.Log.{refs_from, ref_from, flat}
use josefina.Store.Log.Refs.{refs_from-append, flat-append}
use josefina.Store.Log.Refers.{encode_all-append}
use josefina.Store.Invariant.{IsLogged, Shape, length-AllLogged}
use josefina.Store.Invariant.Append.{
  Shape-same, active_segment-Shape, sync_active-Shape, rotated, new_segment-rotated, Shape-rotated,
  index-rotated, closed_seg,
}

pub IsLogged-written :
    (seg : Segment) (es : List Entry) (e : Entry)
    → IsLogged seg es
    → IsWritable e
    → IsLogged (written seg e.id e.payload e.status) (es ++ e ∷ [])
IsLogged-written seg es e l w = record {
  bytes =
      contents-written seg e.id e.payload e.status
      ∙ ap (λ b. b ++ encode e) l.bytes
      ∙ ap (λ b. encode_all es ++ b) (sym (append-nil (encode e)))
      ∙ sym (encode_all-append es (e ∷ []));
  writable = All-append IsWritable es (e ∷ []) l.writable (w, tt);
  counted = omega (
    arith,
    size-written seg e.id e.payload e.status,
    l.counted,
    ap length (contents-written seg e.id e.payload e.status),
    length-append (contents seg) (encode e),
    length-encode e,
  );
}

-- What appendRecord does once the active segment is the one to write to.
abbrev write_part : Entry → Segment → Exec RecordRef
write_part e target = do
  ref ← write_active e.id e.payload e.status target
  sync_active
  modify trigger_compact
  pure ref

abbrev write_phase : Entry → Exec RecordRef
write_phase e = do target ← active_segment; write_part e target

module _ (s : FileStore) (front : List Segment) (seg : Segment) (logs : List (List Entry))
    (es : List Entry) (h : Shape s front seg logs es) (e : Entry) (w : IsWritable e) where
  abbrev ref_of : RecordRef
  ref_of = record {
    segment = length logs;
    offset = length (encode_all es);
    length = length e.payload;
  }

  -- The state after the write to the active segment.
  pub appended : FileStore
  appended = record s { segments = set s.segments s.active (written seg e.id e.payload e.status) }

  segment_number : length s.segments - 1 ≡ length logs
  segment_number =
      omega (
        arith,
        ap length h.listed,
        length-append front (seg ∷ []),
        length-AllLogged front logs h.old,
      )

  record_start : seg.size ≡ length (encode_all es)
  record_start = h.current.counted ∙ ap length h.current.bytes

  write_active-appended : write_active e.id e.payload e.status seg s ≡ (ok ref_of, appended)
  unfolding write_active appended
  write_active-appended =
      rw (write_record-written seg e.id e.payload e.status w h.is_open, write_active)
        (rw (segment_number, record_start))

  Shape-appended : Shape appended front (written seg e.id e.payload e.status) logs (es ++ e ∷ [])
  unfolding appended
  Shape-appended = record {
    listed =
        ap (λ l. set l s.active (written seg e.id e.payload e.status)) h.listed
        ∙ set-append_at front [] seg (written seg e.id e.payload e.status) s.active h.at_end;
    at_end = h.at_end;
    old = h.old;
    current = IsLogged-written seg es e h.current w;
    is_open = is_closed-written seg e.id e.payload e.status;
  }

  write_part-appended : write_part e seg s ≡ (ok ref_of, trigger_compact appended)
  write_part-appended =
      >>=-of_ok (write_active e.id e.payload e.status seg) _ s appended ref_of write_active-appended
      ∙ >>=-of_ok sync_active _ appended appended tt (
          sync_active-Shape appended front (written seg e.id e.payload e.status) logs (es ++ e ∷ [])
            Shape-appended)

  pub index-appended : (trigger_compact appended).index ≡ s.index
  unfolding trigger_compact appended
  index-appended = ground arith

  snapshot-appended : (trigger_compact appended).snapshot ≡ s.snapshot
  unfolding trigger_compact appended
  snapshot-appended = ground arith

  pub Shape-triggered :
      Shape
        (trigger_compact appended)
        front
        (written seg e.id e.payload e.status)
        logs
        (es ++ e ∷ [])
  unfolding trigger_compact
  Shape-triggered = Shape-same (ground arith) (ground arith) Shape-appended

-- What appendRecord leaves: the record stands behind the records of a segment, the active one or a
-- fresh one, the reference says where, and the index is as it was.
pub record Appends (s t : FileStore) (logs : List (List Entry)) (es : List Entry) (e : Entry)
    (ref : RecordRef) : Type 0 where
  pub front : List Segment
  pub seg : Segment
  pub old : List (List Entry)
  pub before : List Entry
  pub shape : Shape t front seg old (before ++ e ∷ [])
  pub refs_kept :
      (k : Bytes) → refs_from 0 (old ++ before ∷ []) k none ≡ refs_from 0 (logs ++ es ∷ []) k none
  pub flat_kept : flat (old ++ before ∷ []) ≡ flat (logs ++ es ∷ [])
  pub ref_is : ref ≡ record {
    segment = length old;
    offset = length (encode_all before);
    length = length e.payload;
  }
  pub index_kept : t.index ≡ s.index

-- Which segments stand before the one written to, and what the snapshot holds: both as before, or the
-- segment that was active was closed first, and then a snapshot was taken.
abbrev pub Saves :
    FileStore → FileStore → List (List Entry) → List Entry → List (List Entry) → Type 0
Saves s t logs es old =
    ((old ≡ logs) × (t.snapshot ≡ s.snapshot))
    ⊎ ((u : FileStore) × (old ≡ logs ++ es ∷ [])
        × (t.snapshot ≡ (create_snapshot u).snapshot)
        × (u.index ≡ s.index)
        × (length u.segments ≡ suc (suc (length logs))))

pub rotate_no :
    (s : FileStore) (n c : ℕ) → ltb s.max_segment (c + n) ≡ false → rotate n c s ≡ (ok tt, s)
unfolding rotate
rotate_no s n c h = rw h

pub rotate_yes :
    (s t : FileStore) (n c : ℕ)
    → ltb s.max_segment (c + n) ≡ true
    → new_segment s ≡ (ok tt, t)
    → rotate n c s ≡ (ok tt, create_snapshot t)
unfolding rotate
rotate_yes s t n c h r = rw h (>>=-of_ok new_segment _ s t tt r)

module _ (s : FileStore) (front : List Segment) (seg : Segment) (logs : List (List Entry))
    (es : List Entry) (h : Shape s front seg logs es) (e : Entry) (w : IsWritable e) where
  write_phase-Appends :
      (ref : RecordRef) × (t : FileStore) × (write_phase e s ≡ (ok ref, t))
      × (a : Appends s t logs es e ref) × (a.old ≡ logs)
      × (t.snapshot ≡ s.snapshot)
  write_phase-Appends = (
    ref_of s front seg logs es h e w,
    trigger_compact (appended s front seg logs es h e w),
    >>=-of_ok active_segment (write_part e) s s seg (active_segment-Shape s front seg logs es h)
        ∙ write_part-appended s front seg logs es h e w,
    record {
      front = front;
      seg = written seg e.id e.payload e.status;
      old = logs;
      before = es;
      shape = Shape-triggered s front seg logs es h e w;
      refs_kept = λ k. refl;
      flat_kept = refl;
      ref_is = refl;
      index_kept = index-appended s front seg logs es h e w;
    },
    refl,
    snapshot-appended s front seg logs es h e w,
  )

-- A record that goes to a fresh segment.
Appends-rotated :
    {s u t : FileStore} {logs : List (List Entry)} {es : List Entry} {e : Entry} {ref : RecordRef}
    → u.index ≡ s.index
    → (a : Appends u t (logs ++ es ∷ []) [] e ref)
    → (b : Appends s t logs es e ref) × (b.old ≡ a.old)
unfolding ref_from
Appends-rotated {logs} {es} p a = (
  record {
    front = a.front;
    seg = a.seg;
    old = a.old;
    before = a.before;
    shape = a.shape;
    refs_kept = λ k. a.refs_kept k ∙ refs_from-append 0 (logs ++ es ∷ []) [] k none;
    flat_kept =
        a.flat_kept ∙ flat-append (logs ++ es ∷ []) [] ∙ append-nil (flat (logs ++ es ∷ []));
    ref_is = a.ref_is;
    index_kept = a.index_kept ∙ p;
  },
  refl,
)

pub Shape-create_snapshot :
    (s : FileStore) {front : List Segment} {seg : Segment} {logs : List (List Entry)}
    {es : List Entry}
    → Shape s front seg logs es
    → Shape (create_snapshot s) front seg logs es
unfolding create_snapshot
Shape-create_snapshot s h = Shape-same refl refl h

-- The segments that a rotation leaves.
length-rotated :
    (s : FileStore) (front : List Segment) (seg : Segment) (logs : List (List Entry))
    (es : List Entry) (h : Shape s front seg logs es)
    → length (rotated s front seg logs es h).segments ≡ suc (suc (length logs))
length-rotated s front seg logs es h =
    let t = rotated s front seg logs es h in
    omega (
      arith,
      ap length (Shape-rotated s front seg logs es h).listed,
      length-append (front ++ closed_seg s front seg logs es h ∷ [])
          (Segment.new_segment [] 0 ∷ []),
      length-append front (closed_seg s front seg logs es h ∷ []),
      length-AllLogged front logs h.old,
    )

pub index-create_snapshot : (s : FileStore) → (create_snapshot s).index ≡ s.index
unfolding create_snapshot
index-create_snapshot s = refl

module _ (s : FileStore) (front : List Segment) (seg : Segment) (logs : List (List Entry))
    (es : List Entry) (h : Shape s front seg logs es) (e : Entry) (w : IsWritable e) where
  -- From the test for a new segment on.
  rest_part-Appends :
      (n c : ℕ)
      → (ref : RecordRef) × (t : FileStore) × ((do rotate n c; write_phase e) s ≡ (ok ref, t))
        × (a : Appends s t logs es e ref) × Saves s t logs es a.old
  rest_part-Appends n c = elim (Bool-cases (ltb s.max_segment (c + n))) [
    | inr stays ↦
        let (ref, t, r, a, same, kept) = write_phase-Appends s front seg logs es h e w in
        (ref, t, >>=-of_ok (rotate n c) _ s s tt (rotate_no s n c stays) ∙ r, a, inl (same, kept))
    | inl full ↦
        let u = rotated s front seg logs es h in
        let (ref, t, r, a, same, kept) =
          write_phase-Appends (create_snapshot u) _ _ (logs ++ es ∷ []) []
            (Shape-create_snapshot u (Shape-rotated s front seg logs es h)) e w in
        let (b, of_a) =
          Appends-rotated (index-create_snapshot u ∙ index-rotated s front seg logs es h) a in
        (
          ref,
          t,
          >>=-of_ok (rotate n c) _ s (create_snapshot u) tt
                (rotate_yes s u n c full (new_segment-rotated s front seg logs es h))
              ∙ r,
          b,
          inr (
            u,
            of_a ∙ same,
            kept,
            index-rotated s front seg logs es h,
            length-rotated s front seg logs es h,
          ),
        )
  ]

-- In a store whose segments hold the records `logs` and then `es`, appendRecord of a record of valid
-- lengths succeeds, and puts it behind them.
pub append_record-Appends :
    (s : FileStore) (front : List Segment) (seg : Segment) (logs : List (List Entry))
    (es : List Entry) (e : Entry)
    → Shape s front seg logs es
    → IsWritable e
    → (ref : RecordRef) × (t : FileStore) × (append_record e.id e.payload e.status s ≡ (ok ref, t))
      × (a : Appends s t logs es e ref) × Saves s t logs es a.old
unfolding append_record
append_record-Appends s front seg logs es e h w =
    let n = length e.id + length e.payload + 11 in
    let s' : FileStore = record s { size = s.size + n } in
    let (ref, t, r, a, saves) =
      rest_part-Appends s' front seg logs es (Shape-same refl refl h) e w n seg.size in
    (
      ref,
      t,
      >>=-of_ok active_segment _ s s seg (active_segment-Shape s front seg logs es h) ∙ r,
      record {
        front = a.front;
        seg = a.seg;
        old = a.old;
        before = a.before;
        shape = a.shape;
        refs_kept = a.refs_kept;
        flat_kept = a.flat_kept;
        ref_is = a.ref_is;
        index_kept = a.index_kept;
      },
      saves,
    )
