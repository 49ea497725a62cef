-- ===== src/Store/Compact/Copied.antt =====
-- internal/store/compact.go: what holds of the new segments while the records are copied.
use josefina.Prelude.{
  ℕ, ◌+◌, none, some, List, [], ◌∷◌, ◌++◌, length, ltb, All, All-append, ◌≡◌, refl, sym, ap, ◌∙◌,
  false, Bool-cases, inl, inr, if◌then◌else◌, append-nil,
}
use josefina.Prelude.Eq.{◌=?◌, bytes_eq}
use josefina.Prelude.Assoc.{lookup, insert, lookup-insert}
use josefina.Store.Result.{ok}
use josefina.Store.Bytes.{Bytes, active}
use josefina.Store.Segment
use josefina.Store.Segment.{Segment, RecordRef}
use josefina.Store.Segment.Codec.{
  Entry, IsWritable, written, write_record-written, is_closed-written,
}
use josefina.Store.Log.{refs_from, ref_from, flat, effect}
use josefina.Store.Log.Refs.{refs_from-append, flat-append}
use josefina.Store.Rebuild.Scan.{encode_all}
use josefina.Store.Invariant.{IsLogged, AllLogged, AllLogged-append, length-AllLogged}
use josefina.Store.Invariant.Behaviour.{IsOpen}
use josefina.Store.Invariant.Write.{IsLogged-written}
use josefina.Store.Invariant.Update.{refs_from-record, flat-record}
use josefina.Store.Compact.{Compaction, start, create_segment, make_room, write_copy}

-- The new segments hold the records `live`, and the new index is the one that these mean.
pub record IsCopied (c : Compaction) (live : List Entry) : Type 0 where
  pub logs : List (List Entry)
  pub es : List Entry
  pub old : AllLogged c.full logs
  pub opened : All IsOpen c.full
  pub current : IsLogged c.current es
  pub is_open : c.current.is_closed ≡ false
  pub agrees : (k : Bytes) → lookup k c.index ≡ refs_from 0 (logs ++ es ∷ []) k none
  pub history : flat (logs ++ es ∷ []) ≡ live

fresh-IsLogged : IsLogged (Segment.new_segment [] 0) []
unfolding Segment.new_segment
fresh-IsLogged = record { bytes = refl; writable = tt; counted = refl }

pub start-IsCopied : IsCopied start []
unfolding start lookup refs_from ref_from Segment.new_segment
start-IsCopied = record {
  logs = [];
  es = [];
  old = tt;
  opened = tt;
  current = fresh-IsLogged;
  is_open = refl;
  agrees = λ k. refl;
  history = refl;
}

pub create_segment-IsCopied :
    (c : Compaction) (live : List Entry) → IsCopied c live → IsCopied (create_segment c) live
unfolding create_segment Segment.new_segment ref_from
create_segment-IsCopied c live v = record {
  logs = v.logs ++ v.es ∷ [];
  es = [];
  old = AllLogged-append c.full v.logs c.current v.es v.old v.current;
  opened = All-append IsOpen c.full (c.current ∷ []) v.opened (v.is_open, tt);
  current = fresh-IsLogged;
  is_open = refl;
  agrees = λ k. v.agrees k ∙ sym (refs_from-append 0 (v.logs ++ v.es ∷ []) [] k none);
  history =
      flat-append (v.logs ++ v.es ∷ []) [] ∙ append-nil (flat (v.logs ++ v.es ∷ [])) ∙ v.history;
}

pub make_room-IsCopied :
    (n m : ℕ) (c : Compaction) (live : List Entry)
    → IsCopied c live
    → IsCopied (make_room n m c) live
unfolding make_room
make_room-IsCopied n m c live v = elim (Bool-cases (ltb n (c.current.size + m))) [
  | inl full ↦ rw full (create_segment-IsCopied c live v)
  | inr room ↦ rw room v
]

-- The state that writing a copy leaves.
unfoldable pub copied : Bytes → Bytes → Compaction → Compaction
copied id payload c = record {
  full = c.full;
  current = written c.current id payload active;
  index =
      insert id
        (record { segment = length c.full; offset = c.current.size; length = length payload })
        c.index;
}

pub write_copy-IsCopied :
    (c : Compaction) (live : List Entry) (id payload : Bytes)
    → IsCopied c live
    → IsWritable (record { id = id; payload = payload; status = active })
    → (write_copy id payload c ≡ ok (copied id payload c))
      × IsCopied
          (copied id payload c)
          (live ++ record { id = id; payload = payload; status = active } ∷ [])
unfolding write_copy copied effect
write_copy-IsCopied c live id payload v w = (
  rw (write_record-written c.current id payload active w v.is_open) refl,
  record {
    logs = v.logs;
    es = v.es ++ e ∷ [];
    old = v.old;
    opened = v.opened;
    current = IsLogged-written c.current v.es e v.current w;
    is_open = is_closed-written c.current id payload active;
    agrees = λ k.
        lookup-insert id k ref c.index
        ∙ (λ i.
            if id =? k
            then some
                (record { segment = same_place i; offset = same_offset i; length = length payload })
            else v.agrees k i)
        ∙ sym (refs_from-record v.logs v.es e k);
    history = flat-record v.logs v.es e ∙ ap (λ l. l ++ e ∷ []) v.history;
  },
)
  where
    e : Entry
    e = record { id = id; payload = payload; status = active }

    ref : RecordRef
    ref = record { segment = length c.full; offset = c.current.size; length = length payload }

    same_place : length c.full ≡ length v.logs
    same_place = length-AllLogged c.full v.logs v.old

    same_offset : c.current.size ≡ length (encode_all v.es)
    same_offset = v.current.counted ∙ ap length v.current.bytes
