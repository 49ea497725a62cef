-- ===== src/Store/Invariant/Rejected.antt =====
-- Put and Delete of internal/store/store.go, with lengths that a record does not hold.
use josefina.Prelude.{
  ℕ, ◌+◌, Option, some, none, List, [], ◌∷◌, ◌++◌, length, ◌≡◌, refl, ap, ◌∙◌, sym, append-nil, ltb,
  ◌==◌, ◌||◌, inl, inr, ◌⊎◌, Bool-cases, arith, subst, true, false,
}
use josefina.Prelude.Eq.{bytes_eq}
use josefina.Prelude.Assoc.{contains}
use josefina.Store.Result.{err, Error, invalid_id_length, data_too_large}
use josefina.Store.Bytes.{Bytes, active, deleted}
use josefina.Store.Segment.{
  Segment, RecordRef, new_record_header_at, write_record, max_id_len, max_uint32,
}
use josefina.Store.Segment.Codec.{Entry, IsWritable}
use josefina.Store.FileStore.{FileStore}
use josefina.Store.Snapshot.{create_snapshot}
use josefina.Store.Exec.{Exec, continue, ◌>>=◌, ◌>>◌, modify, pure, >>=-of_ok}
use josefina.Store.Ops.{
  append_record, active_segment, rotate, write_active, sync_active, trigger_compact, put, delete,
  delete_found,
}
use josefina.Store.Log.{ref_from, flat}
use josefina.Store.Log.Refs.{refs_from-append, flat-append}
use josefina.Store.Invariant.{IsStore, Shape}
use josefina.Store.Invariant.Append.{
  Shape-same, active_segment-Shape, rotated, new_segment-rotated, Shape-rotated, index-rotated,
}
use josefina.Store.Invariant.Write.{
  rotate_no, rotate_yes, Shape-create_snapshot, index-create_snapshot,
}
use josefina.Store.Invariant.Behaviour.{put-IsStore, delete-IsStore}

-- The record has valid lengths, or newRecordHeaderAt fails.
pub new_record_header_at-cases :
    (id payload : Bytes) (status : ℕ)
    → IsWritable (record { id = id; payload = payload; status = status })
      ⊎ ((x : Error) × (new_record_header_at id payload status ≡ err x))
unfolding new_record_header_at
new_record_header_at-cases id payload status =
    elim (Bool-cases (length id == 0 || ltb max_id_len (length id))) [
      | inl bad_id ↦ inr (invalid_id_length, rw bad_id refl)
      | inr good_id ↦ elim (Bool-cases (ltb max_uint32 (length payload))) [
        | inl too_large ↦ inr (data_too_large, rw (good_id, too_large) refl)
        | inr fits ↦ inl (record {
          named = ground (arith, good_id);
          short_id = ground (arith, good_id);
          short_payload = ground (arith, fits);
        })
      ]
    ]

pub >>=-of_err {ℓ κ} :
    {A : Type ℓ} {B : Type κ} (m : Exec A) (f : A → Exec B) (s t : FileStore) (x : Error)
    → m s ≡ (err x, t)
    → (m >>= f) s ≡ (err x, t)
>>=-of_err m f s t x h = ap (λ p. continue p.0 f p.1) h

write_active-rejected :
    (id payload : Bytes) (status : ℕ) (seg : Segment) (s : FileStore) (x : Error)
    → new_record_header_at id payload status ≡ err x
    → write_active id payload status seg s ≡ (err x, s)
unfolding write_active write_record
write_active-rejected id payload status seg s x h = rw (h, write_active, write_record) refl

-- What is left where the record is rejected: a new segment may have been started.
abbrev Rejects : FileStore → FileStore → List Entry → Type 0
Rejects s t log = IsStore t log × (t.index ≡ s.index)

module _ (id payload : Bytes) (status : ℕ) (x : Error)
    (bad : new_record_header_at id payload status ≡ err x) where
  abbrev late_part : Exec RecordRef
  late_part = do
    target ← active_segment
    ref ← write_active id payload status target
    sync_active
    modify trigger_compact
    pure ref

  late_part-rejected :
      (s : FileStore) (front : List Segment) (seg : Segment) (logs : List (List Entry))
      (es : List Entry)
      → Shape s front seg logs es
      → late_part s ≡ (err x, s)
  late_part-rejected s front seg logs es h =
      >>=-of_ok active_segment _ s s seg (active_segment-Shape s front seg logs es h)
      ∙ >>=-of_err (write_active id payload status seg) _ s s x
          (write_active-rejected id payload status seg s x bad)

  pub append_record-rejected :
      (s : FileStore) (log : List Entry)
      → IsStore s log
      → (t : FileStore) × (append_record id payload status s ≡ (err x, t)) × Rejects s t log
  unfolding append_record ref_from
  append_record-rejected s log v =
      let n = length id + length payload + 11 in
      let s' : FileStore = record s { size = s.size + n } in
      let h : Shape s' v.front v.seg v.logs v.es = Shape-same refl refl v.shape in
      let first =
        >>=-of_ok active_segment _ s s v.seg
          (active_segment-Shape s v.front v.seg v.logs v.es v.shape) in
      elim (Bool-cases (ltb s'.max_segment (v.seg.size + n))) [
        | inr stays ↦ (
          s',
          first
              ∙ >>=-of_ok (rotate n v.seg.size) _ s' s' tt (rotate_no s' n v.seg.size stays)
              ∙ late_part-rejected s' v.front v.seg v.logs v.es h,
          (
            record {
              front = v.front;
              seg = v.seg;
              logs = v.logs;
              es = v.es;
              shape = h;
              agrees = v.agrees;
              history = v.history;
            },
            refl,
          ),
        )
        | inl full ↦
            let u = rotated s' v.front v.seg v.logs v.es h in
            let t = create_snapshot u in
            let g = Shape-create_snapshot u (Shape-rotated s' v.front v.seg v.logs v.es h) in
            let i = index-create_snapshot u ∙ index-rotated s' v.front v.seg v.logs v.es h in
            let all = v.logs ++ v.es ∷ [] in
            (
              t,
              first
                  ∙ >>=-of_ok (rotate n v.seg.size) _ s' t tt (
                      rotate_yes s' u n v.seg.size full
                        (new_segment-rotated s' v.front v.seg v.logs v.es h))
                  ∙ late_part-rejected t _ _ all [] g,
              (
                record {
                  front = _;
                  seg = _;
                  logs = all;
                  es = [];
                  shape = g;
                  agrees = λ k.
                      ap (josefina.Prelude.Assoc.lookup k) i
                      ∙ v.agrees k
                      ∙ sym (refs_from-append 0 all [] k none);
                  history = flat-append all [] ∙ append-nil (flat all) ∙ v.history;
                },
                i,
              ),
            )
      ]

-- Put keeps a store well formed, whatever it is called with.
pub put-keeps :
    (s : FileStore) (log : List Entry) (id : Bytes) (marshalled : Option Bytes)
    → IsStore s log
    → (log' : List Entry) × IsStore (put id marshalled s).1 log'
unfolding put
put-keeps s log [] marshalled v = (log, v)
put-keeps s log (c ∷ cs) none v = (log, v)
put-keeps s log (c ∷ cs) (some payload) v =
    elim (new_record_header_at-cases (c ∷ cs) payload active) [
      | inl w ↦ (_, (put-IsStore s log c cs payload v w).1)
      | inr (x, bad) ↦
          let (t, r, kept) = append_record-rejected (c ∷ cs) payload active x bad s log v in
          (
            log,
            subst (λ u. IsStore u log)
                (sym (ap (λ p. p.1) (>>=-of_err (append_record (c ∷ cs) payload active) _ s t x r)))
                kept.0,
          )
    ]

-- Delete too.
pub delete-keeps :
    (s : FileStore) (log : List Entry) (id : Bytes)
    → IsStore s log
    → (log' : List Entry) × IsStore (delete id s).1 log'
unfolding delete delete_found
delete-keeps s log id v = elim (new_record_header_at-cases id [] deleted) [
  | inl w ↦ (_, (delete-IsStore s log id v w).1)
  | inr (x, bad) ↦ elim (Bool-cases (contains id s.index)) [
    | inr missing ↦ (log, rw missing v)
    | inl found ↦
        let s' : FileStore = record s { tomb_stones = s.tomb_stones + 1 } in
        let v' : IsStore s' log = record {
          front = v.front;
          seg = v.seg;
          logs = v.logs;
          es = v.es;
          shape = Shape-same refl refl v.shape;
          agrees = v.agrees;
          history = v.history;
        } in
        let (t, r, kept) = append_record-rejected id [] deleted x bad s' log v' in
        (
          log,
          rw found (
              subst (λ u. IsStore u log)
                (sym (ap (λ p. p.1) (>>=-of_err (append_record id [] deleted) _ s' t x r))) kept.0),
        )
  ]
]
