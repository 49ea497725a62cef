-- ===== src/Store/Compact/Source.antt =====
-- internal/store/compact.go: the record that a copy reads.
use josefina.Prelude.{
  ◌+◌, ◌%◌, ◌^◌, ◌<◌, Option, none, some, List, [], ◌∷◌, ◌++◌, length, get_elem?, All, ◌≡◌, refl,
  sym, ap, ◌∙◌, subst, false, arith, append-nil,
}
use josefina.Prelude.Eq.{bytes_eq}
use josefina.Prelude.Assoc.{lookup}
use josefina.Store.Result.{ok}
use josefina.Store.Bytes.{Bytes}
use josefina.Store.Segment.{Segment, RecordRef, fixed_header_size, read_at}
use josefina.Store.Segment.Codec.{
  Entry, IsWritable, encode, read_at_head, head_id_len, read_at_payload,
}
use josefina.Store.Log.{value_of}
use josefina.Store.Log.Refers.{Refers, Located, refs-Refers, encode_all-append}
use josefina.Store.Rebuild.Scan.{encode_all}
use josefina.Store.FileStore.{FileStore}
use josefina.Store.Invariant.{IsStore, AllLogged, AllLogged-append}
use josefina.Store.Invariant.Reading.{IsQuiet, AllLogged-get, All-middle}
use josefina.Store.Compact.{Compaction, copy_from, copy_record, make_room, write_copy}

-- The entry of an id in the index leads to a record of the id, with the payload that the history
-- gives it.
pub record Source (s : FileStore) (log : List Entry) (id : Bytes) : Type 0 where
  pub ref : RecordRef
  pub seg : Segment
  pub entry : Entry
  pub pre : Bytes
  pub post : Bytes
  pub indexed : lookup id s.index ≡ some ref
  pub segment_there : get_elem? s.segments ref.segment ≡ some seg
  pub writable : IsWritable entry
  pub named : entry.id ≡ id
  pub is_open : seg.is_closed ≡ false
  pub placed : seg.file ≡ pre ++ (encode entry ++ post)
  pub starts : ref.offset ≡ length pre
  pub sized : ref.length ≡ length entry.payload
  pub holds : value_of log id ≡ some entry.payload

Located-Source :
    (s : FileStore) (log : List Entry) (id : Bytes) (ref : RecordRef) (payload : Bytes)
    (logs : List (List Entry))
    → lookup id s.index ≡ some ref
    → AllLogged s.segments logs
    → All IsQuiet s.segments
    → Located logs id ref payload
    → value_of log id ≡ some payload
    → Source s log id
Located-Source s log id ref payload logs i h q l e =
    let (seg, g, d, p) = AllLogged-get s.segments logs ref.segment _ h q l.in_log in
    record {
      ref = ref;
      seg = seg;
      entry = l.entry;
      pre = encode_all l.before;
      post = encode_all l.after;
      indexed = i;
      segment_there = g;
      writable = All-middle IsWritable l.before l.after l.entry d.writable;
      named = l.named;
      is_open = p.is_open;
      placed =
          sym (append-nil seg.file)
          ∙ ap (λ b. seg.file ++ b) (sym p.written)
          ∙ d.bytes
          ∙ encode_all-append l.before (l.entry ∷ l.after);
      starts = l.starts;
      sized = l.sized ∙ ap length (sym l.holds);
      holds = e ∙ ap some (sym l.holds);
    }

Refers-Source :
    (s : FileStore) (log : List Entry) (id : Bytes) (ref : RecordRef) (logs : List (List Entry))
    (r : Option RecordRef) (v : Option Bytes)
    → lookup id s.index ≡ some ref
    → lookup id s.index ≡ r
    → value_of log id ≡ v
    → AllLogged s.segments logs
    → All IsQuiet s.segments
    → Refers logs id r v
    → Source s log id
Refers-Source s log id ref logs none v i e n h q l = absurd (cc)
Refers-Source s log id ref logs (some r) none i e n h q l = absurd l
Refers-Source s log id ref logs (some r) (some payload) i e n h q l =
    Located-Source s log id r payload logs e h q l n

pub indexed-Source :
    (s : FileStore) (log : List Entry) (id : Bytes) (ref : RecordRef)
    → IsStore s log
    → All IsQuiet s.segments
    → lookup id s.index ≡ some ref
    → Source s log id
indexed-Source s log id ref v q i =
    Refers-Source s log id ref (v.logs ++ v.es ∷ []) _ _ i (v.agrees id)
      (sym (ap (λ l. value_of l id) v.history))
      (subst (λ x. AllLogged x (v.logs ++ v.es ∷ [])) (sym v.shape.listed)
        (AllLogged-append v.front v.logs v.seg v.es v.shape.old v.shape.current))
      q (refs-Refers (v.logs ++ v.es ∷ []) id)

-- What the copy reads of the record, where the id is short enough for the sum of its length and the
-- header's to fit into an uint16.
pub copy_record-Source :
    (s : FileStore) (log : List Entry) (id : Bytes) (c : Compaction) (src : Source s log id)
    → fixed_header_size + length id < 2 ^ 16
    → copy_record s id c
      ≡ write_copy id src.entry.payload
          (make_room s.max_segment (fixed_header_size + length id + length src.entry.payload) c)
unfolding copy_record copy_from
copy_record-Source s log id c src short =
    rw
      (
        src.indexed,
        copy_record,
        src.segment_there,
        read_at_head src.seg src.pre src.post src.entry src.ref.offset src.writable src.is_open
            src.placed src.starts,
        head_id_len src.seg src.pre src.post src.entry src.ref.offset src.writable src.is_open
            src.placed src.starts,
        src.named,
        no_wrap,
        payload,
      )
      refl
  where
    no_wrap : (fixed_header_size + length id) % 2 ^ 16 ≡ fixed_header_size + length id
    no_wrap = omega arith

    payload :
        read_at src.seg src.ref.length (src.ref.offset + (fixed_header_size + length id))
        ≡ ok src.entry.payload
    payload =
        (λ i.
          read_at src.seg (src.sized i)
            (src.ref.offset + (fixed_header_size + length (sym src.named i))))
        ∙ read_at_payload src.seg src.pre src.post src.entry src.ref.offset src.writable src.is_open
            src.placed src.starts
