-- ===== src/Store/Invariant/Rotation.antt =====
-- internal/store/store.go: newSegment and the reads of the segment that was active.
use josefina.Prelude.{
  some, List, [], ◌∷◌, get_elem?, ◌≡◌, refl, ap, ◌∙◌, true, arith, append_assoc,
  get_elem?-append_at,
}
use josefina.Prelude.Eq.{bytes_eq}
use josefina.Prelude.Assoc.{lookup}
use josefina.Store.Result.{err, closed}
use josefina.Store.Bytes.{Bytes}
use josefina.Store.Segment
use josefina.Store.Segment.{Segment, RecordRef, read, read_header, read_at}
use josefina.Store.Segment.Codec.{Entry}
use josefina.Store.FileStore.{FileStore}
use josefina.Store.Ops.{get_payload, new_segment}
use josefina.Store.Invariant.{IsStore}
use josefina.Store.Invariant.Append.{
  rotated, closed_seg, rotated_listed, new_segment-rotated, index-rotated,
}

read_closed : (seg : Segment) (ref : RecordRef) → seg.is_closed ≡ true → read seg ref ≡ err closed
unfolding read read_header read_at
read_closed seg ref h = rw h

get_payload_closed :
    (s : FileStore) (k : Bytes) (ref : RecordRef) (seg : Segment)
    → lookup k s.index ≡ some ref
    → get_elem? s.segments ref.segment ≡ some seg
    → seg.is_closed ≡ true
    → get_payload s k ≡ err closed
unfolding get_payload
get_payload_closed s k ref seg i g c = ground (arith, read_closed seg ref c)

-- After newSegment, Get of any id whose record lies in the segment that was active fails with the
-- error of a closed file.
pub get_payload-new_segment :
    (s : FileStore) (log : List Entry) (k : Bytes) (ref : RecordRef)
    → IsStore s log
    → lookup k s.index ≡ some ref
    → ref.segment ≡ s.active
    → get_payload (new_segment s).1 k ≡ err closed
get_payload-new_segment s log k ref v i a =
    ap (λ t. get_payload t k)
      (ap (λ p. p.1) (new_segment-rotated s v.front v.seg v.logs v.es v.shape))
    ∙ get_payload_closed t k ref c
        (ap (lookup k) (index-rotated s v.front v.seg v.logs v.es v.shape) ∙ i)
        (ap (λ l. get_elem? l ref.segment)
            (rotated_listed s v.front v.seg v.logs v.es v.shape
              ∙ append_assoc v.front (c ∷ []) (Segment.new_segment [] 0 ∷ []))
          ∙ get_elem?-append_at v.front (Segment.new_segment [] 0 ∷ []) c ref.segment
              (a ∙ v.shape.at_end))
        refl
  where
    t : FileStore
    t = rotated s v.front v.seg v.logs v.es v.shape

    c : Segment
    c = closed_seg s v.front v.seg v.logs v.es v.shape
