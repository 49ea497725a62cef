-- ===== src/Store/Invariant/Update.antt =====
-- internal/store/store.go: Put and Delete, the history and the index.
use josefina.Prelude.{
  ℕ, ◌+◌, Option, some, none, List, [], ◌∷◌, ◌++◌, length, ◌≡◌, refl, ap, ◌∙◌, sym, append_assoc,
  arith, inl, inr, map, true,
}
use josefina.Prelude.Eq.{bytes_eq}
use josefina.Prelude.Assoc.{lookup, insert, remove, lookup-insert, lookup-remove}
use josefina.Store.Result.{ok}
use josefina.Store.Bytes.{Bytes, active, deleted}
use josefina.Store.Segment.{RecordRef}
use josefina.Store.Segment.Codec.{Entry, IsWritable}
use josefina.Store.Rebuild.Scan.{encode_all}
use josefina.Store.FileStore.{FileStore, delete_index, delete_called}
use josefina.Store.Exec.{>>=-of_ok}
use josefina.Store.Ops.{append_record, put, put_index, delete_found}
use josefina.Store.Log.{effect, refs_from, ref_from, flat}
use josefina.Store.Log.Refs.{refs_from-append, ref_from-append, flat-append}
use josefina.Store.Invariant.{IsStore, Agrees}
use josefina.Store.Invariant.Append.{Shape-same}
use josefina.Store.Invariant.Write.{Appends, Saves, append_record-Appends}

-- One more record at the end has its effect on what the records say.
pub refs_from-record :
    (old : List (List Entry)) (before : List Entry) (e : Entry) (k : Bytes)
    → refs_from 0 (old ++ (before ++ e ∷ []) ∷ []) k none
      ≡ effect e
          (record {
            segment = length old;
            offset = length (encode_all before);
            length = length e.payload;
          })
          k
          (refs_from 0 (old ++ before ∷ []) k none)
unfolding ref_from
refs_from-record old before e k =
    refs_from-append 0 old (before ++ e ∷ []) k none
    ∙ ref_from-append (0 + length old) 0 before (e ∷ []) k (refs_from 0 old k none)
    ∙ moved (omega arith) (omega arith) (sym (refs_from-append 0 old before k none))
  where
    moved :
        {n m o q : ℕ} {v w : Option RecordRef}
        → n ≡ m
        → o ≡ q
        → v ≡ w
        → effect e (record { segment = n; offset = o; length = length e.payload }) k v
          ≡ effect e (record { segment = m; offset = q; length = length e.payload }) k w
    moved f g h i =
        effect e (record { segment = f i; offset = g i; length = length e.payload }) k (h i)

pub flat-record :
    (old : List (List Entry)) (before : List Entry) (e : Entry)
    → flat (old ++ (before ++ e ∷ []) ∷ []) ≡ flat (old ++ before ∷ []) ++ e ∷ []
flat-record old before e =
    flat-append old (before ++ e ∷ [])
    ∙ sym (append_assoc (flat old) before (e ∷ []))
    ∙ ap (λ l. l ++ e ∷ []) (sym (flat-append old before))

Saves-kept :
    (s t u : FileStore) (logs : List (List Entry)) (es : List Entry) {old now : List (List Entry)}
    → now ≡ old
    → u.snapshot ≡ t.snapshot
    → Saves s t logs es old
    → Saves s u logs es now
Saves-kept s t u logs es p q (inl (same, kept)) = inl (p ∙ same, q ∙ kept)
Saves-kept s t u logs es p q (inr (w, same, kept, index, segments)) =
    inr (w, p ∙ same, q ∙ kept, index, segments)

-- A state with the segments that appendRecord left, whose index has taken in the record.
pub IsStore-record :
    {s t u : FileStore} {logs : List (List Entry)} {es : List Entry} {e : Entry} {ref : RecordRef}
    (a : Appends s t logs es e ref)
    → u.segments ≡ t.segments
    → u.active ≡ t.active
    → Agrees s (logs ++ es ∷ [])
    → ((k : Bytes) → lookup k u.index ≡ effect e ref k (lookup k t.index))
    → (log : List Entry) → flat (logs ++ es ∷ []) ≡ log
    → (v : IsStore u (log ++ e ∷ [])) × (v.logs ≡ a.old)
IsStore-record {t} {e} {ref} a p q agrees step log f = (
  record {
    front = a.front;
    seg = a.seg;
    logs = a.old;
    es = a.before ++ e ∷ [];
    shape = Shape-same p q a.shape;
    agrees = λ k. step k ∙ follows k ∙ sym (refs_from-record a.old a.before e k);
    history = flat-record a.old a.before e ∙ ap (λ l. l ++ e ∷ []) (a.flat_kept ∙ f);
  },
  refl,
)
  where
    place : RecordRef
    place = record {
      segment = length a.old;
      offset = length (encode_all a.before);
      length = length e.payload;
    }

    follows :
        (k : Bytes)
        → effect e ref k (lookup k t.index)
          ≡ effect e place k (refs_from 0 (a.old ++ a.before ∷ []) k none)
    follows k i =
        effect e (a.ref_is i) k ((ap (lookup k) a.index_kept ∙ agrees k ∙ sym (a.refs_kept k)) i)

module _ (s : FileStore) (log : List Entry) (v : IsStore s log) (c : ℕ) (cs payload : Bytes) where
  abbrev put_entry : Entry
  put_entry = record { id = c ∷ cs; payload = payload; status = active }

  lookup-put_index :
      (t : FileStore) (ref : RecordRef) (k : Bytes)
      → lookup k (put_index (c ∷ cs) payload ref t).index
        ≡ effect put_entry ref k (lookup k t.index)
  unfolding put_index effect
  lookup-put_index t ref k = ground (arith, lookup-insert (c ∷ cs) k ref t.index)

  pub segments-put_index :
      (t : FileStore) (ref : RecordRef)
      → ((put_index (c ∷ cs) payload ref t).segments ≡ t.segments)
        × ((put_index (c ∷ cs) payload ref t).active ≡ t.active)
        × ((put_index (c ∷ cs) payload ref t).snapshot ≡ t.snapshot)
  unfolding put_index
  segments-put_index t ref = (ground arith, ground arith, ground arith)

  pub index-put_index :
      (t : FileStore) (ref : RecordRef)
      → (put_index (c ∷ cs) payload ref t).index ≡ insert (c ∷ cs) ref t.index
  unfolding put_index
  index-put_index t ref = refl

  pub put-IsStore_at :
      IsWritable put_entry
      → (ref : RecordRef) × (u : FileStore) × (put (c ∷ cs) (some payload) s ≡ (ok tt, u))
        × (n : IsStore u (log ++ put_entry ∷ [])) × Saves s u v.logs v.es n.logs
        × (u.index ≡ insert (c ∷ cs) ref s.index)
  unfolding put
  put-IsStore_at w =
      let (ref, t, r, a, saves) =
        append_record-Appends s v.front v.seg v.logs v.es put_entry v.shape w in
      let (n, of_a) =
        IsStore-record a (segments-put_index t ref).0 (segments-put_index t ref).1 v.agrees
          (lookup-put_index t ref) log v.history in
      (
        ref,
        put_index (c ∷ cs) payload ref t,
        >>=-of_ok (append_record (c ∷ cs) payload active) _ s t ref r,
        n,
        Saves-kept s t (put_index (c ∷ cs) payload ref t) v.logs v.es of_a
            (segments-put_index t ref).2 saves,
        index-put_index t ref ∙ ap (insert (c ∷ cs) ref) a.index_kept,
      )

module _ (s : FileStore) (log : List Entry) (v : IsStore s log) (id : Bytes) where
  abbrev delete_entry : Entry
  delete_entry = record { id = id; payload = []; status = deleted }

  lookup-delete_index :
      (t : FileStore) (ref : RecordRef) (k : Bytes)
      → lookup k (delete_index t id).index ≡ effect delete_entry ref k (lookup k t.index)
  unfolding delete_index effect
  lookup-delete_index t ref k = ground (arith, lookup-remove id k t.index)

  segments-delete_index :
      (t : FileStore)
      → ((delete_index t id).segments ≡ t.segments) × ((delete_index t id).active ≡ t.active)
  unfolding delete_index
  segments-delete_index t = (refl, refl)

  pub delete_found-IsStore_at :
      IsWritable delete_entry
      → (u : FileStore) × (delete_found id s ≡ (ok true, u))
        × (n : IsStore u (log ++ delete_entry ∷ [])) × Saves s u v.logs v.es n.logs
        × (u.index ≡ remove id s.index)
  unfolding delete_found delete_index
  delete_found-IsStore_at w =
      let s' : FileStore = record s { tomb_stones = s.tomb_stones + 1 } in
      let (ref, t, r, a, saves) =
        append_record-Appends s' v.front v.seg v.logs v.es delete_entry
          (Shape-same refl refl v.shape) w in
      let d = delete_index t id in
      let (n, of_a) =
        IsStore-record a (segments-delete_index t).0 (segments-delete_index t).1 v.agrees
          (lookup-delete_index t ref) log v.history in
      (
        record d { calls = d.calls ++ map (λ fn. delete_called fn id) d.on_delete },
        >>=-of_ok (append_record id [] deleted) _ s' t ref r,
        n,
        Saves-kept s' t d v.logs v.es of_a refl saves,
        ap (remove id) a.index_kept,
      )
