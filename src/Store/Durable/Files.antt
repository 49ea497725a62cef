-- ===== src/Store/Durable/Files.antt =====
-- loadSegments of internal/store/store.go, on the files that a store leaves.
use josefina.Prelude.{
  ℕ, suc, ◌+◌, ◌-◌, ◌≤◌, Bool, List, [], ◌∷◌, ◌++◌, map, length, length-append, ◌≡◌, refl, ap, ◌∙◌,
  sym, append-nil, append_assoc, arith, ◌==◌, Bool-cases, inl, inr,
}
use mathlib.Core.List.{map-append}
use josefina.Prelude.Eq.{bytes_eq}
use josefina.Prelude.Distinct.{Distinct}
use josefina.Store.Result.{ok}
use josefina.Store.Bytes.{Bytes}
use josefina.Store.Segment
use josefina.Store.Segment.{Segment, loop}
use josefina.Store.Segment.Codec.{Entry, encode}
use josefina.Store.FileStore.{FileStore, Index, set_index, delete_index}
use josefina.Store.Rebuild.{apply_record, reset_empty}
use josefina.Store.Rebuild.Scan.{replay_segment}
use josefina.Store.Snapshot.RoundTrip.{reload}
use josefina.Store.Ops
use josefina.Store.Open.{returned, load_files, last_active, load_segments, unloaded}
use josefina.Store.Invariant.{IsLogged, AllLogged, Shape}
use josefina.Store.Invariant.Reading.{IsQuiet}
use josefina.Store.Durable.{on_disk}

abbrev opened : Bytes → Segment
opened content = Segment.new_segment content (length content)

-- The segment that open makes of the file of a segment.
abbrev pub stored : Segment → Segment
stored seg = opened (on_disk seg)

stored-IsLogged : (seg : Segment) (es : List Entry) → IsLogged seg es → IsLogged (stored seg) es
unfolding Segment.new_segment loop
stored-IsLogged seg es l = record {
  bytes = append-nil (seg.file ++ seg.pending) ∙ l.bytes;
  writable = l.writable;
  counted = ap length (sym (append-nil (seg.file ++ seg.pending)));
}

pub stored-IsQuiet : (seg : Segment) → IsQuiet (stored seg)
unfolding Segment.new_segment
stored-IsQuiet seg = record { written = refl; is_open = refl }

AllLogged-stored :
    (segs : List Segment) (logs : List (List Entry))
    → AllLogged segs logs
    → AllLogged (map stored segs) logs
AllLogged-stored [] [] h = tt
AllLogged-stored [] (es ∷ logs) h = absurd h
AllLogged-stored (seg ∷ segs) [] h = absurd h
AllLogged-stored (seg ∷ segs) (es ∷ logs) h =
    (stored-IsLogged seg es h.0, AllLogged-stored segs logs h.1)

-- What a change of the index and of the keys leaves as it was.
abbrev pub SameFiles : FileStore → FileStore → Type 0
SameFiles s t = (t.segments ≡ s.segments) × (t.active ≡ s.active) × (t.snapshot ≡ s.snapshot)

pub SameFiles-trans : (s t u : FileStore) → SameFiles s t → SameFiles t u → SameFiles s u
SameFiles-trans s t u p q = (q.0 ∙ p.0, q.1 ∙ p.1, q.2 ∙ p.2)

pub reload-SameFiles : (c : ℕ) (index : Index) (s : FileStore) → SameFiles s (reload c index s)
unfolding reload set_index
reload-SameFiles c [] s = (refl, refl, refl)
reload-SameFiles c ((id, ref) ∷ index) s = elim (Bool-cases (ref.segment == c)) [
  | inl here ↦ rw here (reload-SameFiles c index s)
  | inr there ↦ rw there (reload-SameFiles c index _)
]

apply_record-SameFiles :
    (s : FileStore) (i off : ℕ) (id : Bytes) (status n : ℕ)
    → SameFiles s (apply_record s i off id status n)
unfolding apply_record set_index delete_index
apply_record-SameFiles s i off id status n = (ground arith, ground arith, ground arith)

pub replay_segment-SameFiles :
    (es : List Entry) (i off : ℕ) (s : FileStore) → SameFiles s (replay_segment i off es s)
unfolding replay_segment
replay_segment-SameFiles [] i off s = (refl, refl, refl)
replay_segment-SameFiles (e ∷ es) i off s =
    let t = apply_record s i off e.id e.status (length e.payload) in
    SameFiles-trans s t (replay_segment i (off + length (encode e)) es t)
      (apply_record-SameFiles s i off e.id e.status (length e.payload))
      (replay_segment-SameFiles es i (off + length (encode e)) t)

pub reset_empty-kept :
    (s : FileStore)
    → SameFiles s (reset_empty s)
      × (Distinct s.index → Distinct (reset_empty s).index)
      × (length (reset_empty s).index ≤ length s.index)
unfolding reset_empty
reset_empty-kept s = elim (Bool-cases (length s.index == 0)) [
  | inl none_left ↦ rw none_left ((refl, refl, refl), (λ d. tt), omega arith)
  | inr some_left ↦ rw some_left ((refl, refl, refl), (λ d. d), omega arith)
]

load_files-opened :
    (files : List Bytes) (s : FileStore)
    → ((load_files files s).segments ≡ s.segments ++ map opened files)
      × ((load_files files s).index ≡ s.index)
      × ((load_files files s).snapshot ≡ s.snapshot)
unfolding load_files
load_files-opened [] s = (sym (append-nil s.segments), refl, refl)
load_files-opened (content ∷ files) s =
    let s' : FileStore = record s {
      segments = s.segments ++ opened content ∷ [];
      size = s.size + length content;
    } in
    let rest = load_files-opened files s' in
    (rest.0 ∙ append_assoc s.segments (opened content ∷ []) (map opened files), rest.1, rest.2)

last_active_at :
    (s : FileStore) (segs : List Segment)
    → s.segments ≡ segs
    → (n : ℕ) → length segs ≡ suc n
    → last_active s ≡ ok (record s { active = n })
unfolding last_active
last_active_at s [] h n l = absurd (omega arith)
last_active_at s (x ∷ segs) h n l =
    ap
      (λ (segs : List Segment). elim segs [
        | [] ↦ returned (Ops.new_segment s)
        | (seg ∷ segs) ↦ ok (record s { active = length (seg ∷ segs) - 1 })
      ])
      h
    ∙ ap (λ m. ok (record s { active = m })) (omega arith)

-- Where there is a file, the last one is the active segment.
last_active-ok :
    (s : FileStore) (front : List Segment) (seg : Segment)
    → s.segments ≡ front ++ seg ∷ []
    → last_active s ≡ ok (record s { active = length front })
unfolding last_active
last_active-ok s front seg h =
    last_active_at s s.segments refl (length front)
      (ap length h ∙ omega (arith, length-append front (seg ∷ [])))

map-stored : (segs : List Segment) → map opened (map on_disk segs) ≡ map stored segs
map-stored [] = refl
map-stored (seg ∷ segs) = ap (λ l. stored seg ∷ l) (map-stored segs)

length-map : (f : Segment → Segment) (segs : List Segment) → length (map f segs) ≡ length segs
length-map f [] = refl
length-map f (seg ∷ segs) = ap suc (length-map f segs)

-- What loadSegments makes of the files of a store.
pub loaded :
    (max_segment : ℕ) (sync_on_write : Bool) (s : FileStore) (front : List Segment) (seg : Segment)
    (logs : List (List Entry)) (es : List Entry)
    → Shape s front seg logs es
    → (t : FileStore) × (load_segments
          (map on_disk s.segments)
          (unloaded max_segment sync_on_write s.snapshot)
        ≡ ok t)
      × Shape t (map stored front) (stored seg) logs es
      × (t.index ≡ [])
      × (t.snapshot ≡ s.snapshot)
unfolding load_segments unloaded last_active_at Segment.new_segment
loaded max_segment sync_on_write s front seg logs es h =
    let empty = unloaded max_segment sync_on_write s.snapshot in
    let (segments, index, snapshot) = load_files-opened (map on_disk s.segments) empty in
    let listed =
      segments
      ∙ map-stored s.segments
      ∙ ap (map stored) h.listed
      ∙ map-append stored front (seg ∷ []) in
    (
      _,
      last_active-ok (load_files (map on_disk s.segments) empty) (map stored front) (stored seg)
          listed,
      record {
        listed = listed;
        at_end = refl;
        old = AllLogged-stored front logs h.old;
        current = stored-IsLogged seg es h.current;
        is_open = refl;
      },
      index,
      snapshot,
    )
