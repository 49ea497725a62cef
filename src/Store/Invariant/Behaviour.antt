-- ===== src/Store/Invariant/Behaviour.antt =====
-- internal/store/store.go: the operations as a client sees them.
use josefina.Prelude.{
  ℕ, some, none, List, [], ◌∷◌, ◌++◌, map, length, ◌≡◌, refl, ap, ◌∙◌, sym, subst, false, All,
  append-nil, suc, inl, inr, Bool-cases, if◌then◌else◌,
}
use mathlib.Core.List.{map-append}
use josefina.Prelude.Eq.{◌=?◌, bytes_eq}
use josefina.Prelude.Assoc.{contains}
use josefina.Store.Result.{ok}
use josefina.Store.Bytes.{Bytes, active, deleted}
use josefina.Store.Segment.{Segment, loop}
use josefina.Store.Segment.Codec.{Entry, IsWritable}
use josefina.Store.FileStore.{FileStore}
use josefina.Store.Ops.{put, delete, get_payload}
use josefina.Store.Log.{value_of, value_from, effect}
use josefina.Store.Log.Refs.{value_from-append}
use josefina.Store.Invariant.{IsStore, IsLogged, AllLogged}
use josefina.Store.Invariant.Reading.{IsQuiet, get_payload-value_of}
use josefina.Store.Invariant.Update.{put-IsStore_at, delete_found-IsStore_at}

-- Put of a non-empty id of at most 65535 bytes and a marshalled value below 4 GiB succeeds in a
-- store, and leaves a store whose history is one record longer.
pub put-IsStore :
    (s : FileStore) (log : List Entry) (c : ℕ) (cs payload : Bytes)
    → IsStore s log
    → IsWritable (record { id = c ∷ cs; payload = payload; status = active })
    → ((put (c ∷ cs) (some payload) s).0 ≡ ok tt)
      × IsStore
          (put (c ∷ cs) (some payload) s).1
          (log ++ record { id = c ∷ cs; payload = payload; status = active } ∷ [])
put-IsStore s log c cs payload v w =
    let (ref, u, r, k, saves, i) = put-IsStore_at s log v c cs payload w in
    (
      ap (λ p. p.0) r,
      subst
          (λ x. IsStore x (log ++ record { id = c ∷ cs; payload = payload; status = active } ∷ []))
          (sym (ap (λ p. p.1) r)) k,
    )

-- Delete answers whether the index has the id. If it has, the store is left with a history longer by
-- one record of the deletion, and if not, with the history that it had.
pub delete-IsStore :
    (s : FileStore) (log : List Entry) (id : Bytes)
    → IsStore s log
    → IsWritable (record { id = id; payload = []; status = deleted })
    → ((delete id s).0 ≡ ok (contains id s.index))
      × IsStore (delete id s).1 (
          if contains id s.index
          then log ++ record { id = id; payload = []; status = deleted } ∷ []
          else log)
unfolding delete
delete-IsStore s log id v w = elim (Bool-cases (contains id s.index)) [
  | inr missing ↦ rw missing (refl, v)
  | inl found ↦
      let (u, r, k, saves, i) = delete_found-IsStore_at s log v id w in
      rw found (
        ap (λ p. p.0) r,
        subst (λ x. IsStore x (log ++ record { id = id; payload = []; status = deleted } ∷ []))
            (sym (ap (λ p. p.1) r)) k,
      )
]

-- Every goroutine has written what it holds.
unfoldable pub settle : FileStore → FileStore
settle s = record s { segments = map loop s.segments }

IsLogged-loop : (seg : Segment) (es : List Entry) → IsLogged seg es → IsLogged (loop seg) es
unfolding loop
IsLogged-loop seg es l = record {
  bytes = append-nil (seg.file ++ seg.pending) ∙ l.bytes;
  writable = l.writable;
  counted = l.counted ∙ ap length (sym (append-nil (seg.file ++ seg.pending)));
}

AllLogged-loop :
    (segs : List Segment) (logs : List (List Entry))
    → AllLogged segs logs
    → AllLogged (map loop segs) logs
AllLogged-loop [] [] h = tt
AllLogged-loop [] (es ∷ logs) h = absurd h
AllLogged-loop (seg ∷ segs) [] h = absurd h
AllLogged-loop (seg ∷ segs) (es ∷ logs) h = (IsLogged-loop seg es h.0, AllLogged-loop segs logs h.1)

length-map : (f : Segment → Segment) (xs : List Segment) → length (map f xs) ≡ length xs
length-map f [] = refl
length-map f (x ∷ xs) = ap suc (length-map f xs)

is_closed-loop : (seg : Segment) → (loop seg).is_closed ≡ seg.is_closed
unfolding loop
is_closed-loop seg = refl

-- The goroutines change nothing of what the store means.
pub IsStore-settle : (s : FileStore) (log : List Entry) → IsStore s log → IsStore (settle s) log
unfolding settle
IsStore-settle s log v = record {
  front = map loop v.front;
  seg = loop v.seg;
  logs = v.logs;
  es = v.es;
  shape = record {
    listed = ap (map loop) v.shape.listed ∙ map-append loop v.front (v.seg ∷ []);
    at_end = v.shape.at_end ∙ sym (length-map loop v.front);
    old = AllLogged-loop v.front v.logs v.shape.old;
    current = IsLogged-loop v.seg v.es v.shape.current;
    is_open = is_closed-loop v.seg ∙ v.shape.is_open;
  };
  agrees = v.agrees;
  history = v.history;
}

pub logs-settle :
    (s : FileStore) (log : List Entry) (v : IsStore s log) → (IsStore-settle s log v).logs ≡ v.logs
unfolding IsStore-settle
logs-settle s log v = refl

abbrev pub IsOpen : Segment → Type 0
IsOpen seg = seg.is_closed ≡ false

pub All-settled : (segs : List Segment) → All IsOpen segs → All IsQuiet (map loop segs)
unfolding loop
All-settled [] h = tt
All-settled (seg ∷ segs) h = (record { written = refl; is_open = h.0 }, All-settled segs h.1)

-- Get after Put, once the goroutines have written: the id has the payload that was put, and every
-- other id what the history gave it, provided that no segment has been closed.
pub get_payload-put :
    (s : FileStore) (log : List Entry) (c : ℕ) (cs payload k : Bytes)
    → IsStore s log
    → IsWritable (record { id = c ∷ cs; payload = payload; status = active })
    → All IsOpen (put (c ∷ cs) (some payload) s).1.segments
    → get_payload (settle (put (c ∷ cs) (some payload) s).1) k
      ≡ ok (if (c ∷ cs) =? k then some payload else value_of log k)
unfolding value_of value_from effect
get_payload-put s log c cs payload k v w o =
    get_payload-value_of (settle t) (log ++ e ∷ []) k
      (IsStore-settle t _ (put-IsStore s log c cs payload v w).1)
      (unfold settle in All-settled t.segments o)
    ∙ ap ok (value_from-append log (e ∷ []) k none)
  where
    t : FileStore
    t = (put (c ∷ cs) (some payload) s).1

    e : Entry
    e = record { id = c ∷ cs; payload = payload; status = active }
