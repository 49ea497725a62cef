-- ===== src/Store/Invariant/Fresh.antt =====
-- internal/store/store.go: Get right after Put.
use josefina.Prelude.{
  suc, some, List, [], ◌∷◌, map, length, get_elem?, get_elem?-append_at, ◌≡◌, refl, ap, ◌∙◌, sym,
  subst, inl, inr, arith,
}
use mathlib.Core.List.{map-append}
use josefina.Prelude.Eq.{bytes_eq}
use josefina.Prelude.Assoc.{lookup, insert_same}
use josefina.Store.Result.{Result, ok, err, Error}
use josefina.Store.Bytes.{Bytes, active}
use josefina.Store.Segment.{Segment, RecordRef, loop, read}
use josefina.Store.Segment.Codec.{Entry, IsWritable}
use josefina.Store.Segment.RoundTrip.{read_placed}
use josefina.Store.Rebuild.Scan.{encode_all}
use josefina.Store.FileStore.{FileStore}
use josefina.Store.Exec.{>>=-of_ok}
use josefina.Store.Ops.{append_record, put, put_index, get_payload}
use josefina.Store.Log.Refers.{encode_all-append}
use josefina.Store.Invariant.{IsStore, length-AllLogged}
use josefina.Store.Invariant.Write.{Appends, append_record-Appends}
use josefina.Store.Invariant.Update.{segments-put_index, index-put_index}
use josefina.Store.Invariant.Behaviour.{settle}
use josefina.Store.Invariant.Rejected.{
  new_record_header_at-cases, append_record-rejected, >>=-of_err,
}

-- The record that appendRecord has written is read from the segment, once that is written.
appended-read :
    (s t : FileStore) (logs : List (List Entry)) (es : List Entry) (e : Entry) (ref : RecordRef)
    (a : Appends s t logs es e ref)
    → IsWritable e
    → (get_elem? (map loop t.segments) ref.segment ≡ some (loop a.seg))
      × (read (loop a.seg) ref ≡ ok e.payload)
unfolding loop
appended-read s t logs es e ref a w = (
  ap (λ l. get_elem? (map loop l) ref.segment) a.shape.listed
      ∙ ap (λ l. get_elem? l ref.segment) (map-append loop a.front (a.seg ∷ []))
      ∙ get_elem?-append_at (map loop a.front) [] (loop a.seg) ref.segment at_end,
  read_placed (loop a.seg) (encode_all a.before) [] e ref w a.shape.is_open
      (a.shape.current.bytes ∙ encode_all-append a.before (e ∷ [])) (ap (λ r. r.offset) a.ref_is),
)
  where
    length-map : (xs : List Segment) → length (map loop xs) ≡ length xs
    length-map [] = refl
    length-map (x ∷ xs) = ap suc (length-map xs)

    at_end : ref.segment ≡ length (map loop a.front)
    at_end =
        ap (λ r. r.segment) a.ref_is
        ∙ sym (length-AllLogged a.front a.old a.shape.old)
        ∙ sym (length-map a.front)

err_not_ok : (r : Result (Unit {0})) (x : Error) → r ≡ err x → r ≡ ok tt → ⊥
err_not_ok r x e h = cc

get_payload_at :
    (s : FileStore) (k : Bytes) (ref : RecordRef) (seg : Segment) (payload : Bytes)
    → lookup k s.index ≡ some ref
    → get_elem? s.segments ref.segment ≡ some seg
    → read seg ref ≡ ok payload
    → get_payload s k ≡ ok (some payload)
unfolding get_payload
get_payload_at s k ref seg payload i g r = ground arith

-- Put that has succeeded in a well-formed store is read back by Get once the goroutine has written,
-- also where Put has closed a segment and started a new one.
pub get_payload-put_fresh :
    (s : FileStore) (log : List Entry) (id payload : Bytes)
    → IsStore s log
    → (put id (some payload) s).0 ≡ ok tt
    → get_payload (settle (put id (some payload) s).1) id ≡ ok (some payload)
unfolding put settle
get_payload-put_fresh s log [] payload v h = absurd (cc)
get_payload-put_fresh s log (c ∷ cs) payload v h =
    elim (new_record_header_at-cases (c ∷ cs) payload active) [
      | inr (x, bad) ↦
          let (t, r, kept) = append_record-rejected (c ∷ cs) payload active x bad s log v in
          let e = >>=-of_err (append_record (c ∷ cs) payload active) _ s t x r in
          absurd (err_not_ok (put (c ∷ cs) (some payload) s).0 x (ap (λ p. p.0) e) h)
      | inl w ↦
          let entry : Entry = record { id = c ∷ cs; payload = payload; status = active } in
          let (ref, t, r, a, saves) =
            append_record-Appends s v.front v.seg v.logs v.es entry v.shape w in
          let u = put_index (c ∷ cs) payload ref t in
          let (g, p) = appended-read s t v.logs v.es entry ref a w in
          subst (λ z. get_payload (settle z) (c ∷ cs) ≡ ok (some payload))
            (sym (ap (λ p. p.1) (>>=-of_ok (append_record (c ∷ cs) payload active) _ s t ref r)))
            (get_payload_at (settle u) (c ∷ cs) ref (loop a.seg) payload
              (ap (lookup (c ∷ cs)) (index-put_index s log v c cs payload t ref)
                ∙ insert_same (c ∷ cs) ref t.index)
              (ap (λ l. get_elem? (map loop l) ref.segment)
                  (segments-put_index s log v c cs payload t ref).0
                ∙ g)
              p)
    ]
