-- ===== src/Store/Invariant/Recovery.antt =====
-- internal/store/store.go: rebuildIndexes and the index of a store.
use josefina.Prelude.{
  ℕ, suc, List, [], ◌∷◌, ◌++◌, length, ◌≡◌, refl, ap, ◌∙◌, sym, subst, All, append-nil, arith,
  Bool-cases, inl, inr, ==_iff, ◌==◌, eq-nil_of_length,
}
use josefina.Prelude.Eq.{bytes_eq}
use josefina.Prelude.Assoc.{lookup, lookup-nil}
use josefina.Store.Bytes.{Bytes, put_uint32, put_uint16}
use josefina.Store.Segment.{Segment}
use josefina.Store.Segment.Codec.{Entry, encode}
use josefina.Store.Rebuild.{rebuild_segment, rebuild_from, rebuild_indexes, reset_empty}
use josefina.Store.Rebuild.Scan.{encode_all, replay_segment}
use josefina.Store.Rebuild.Torn.{rebuild_segment-replay_segment}
use josefina.Store.FileStore.{FileStore}
use josefina.Store.Log.{refs_from, ref_from}
use josefina.Store.Log.Refs.{lookup-replay_segment}
use josefina.Store.Invariant.{IsLogged, AllLogged, IsStore, AllLogged-append}
use josefina.Store.Invariant.Reading.{IsQuiet}

pub lookup-reset_empty :
    (s : FileStore) (k : Bytes) → lookup k (reset_empty s).index ≡ lookup k s.index
unfolding reset_empty
lookup-reset_empty s k = elim (Bool-cases (length s.index == 0)) [
  | inl none_left ↦
      rw none_left
        (ap (lookup k) (sym (eq-nil_of_length s.index ((==_iff (length s.index) 0).0 none_left))))
  | inr some_left ↦ rw some_left refl
]

-- A record that a file may be thought to break off before.
abbrev unwritten : Entry
unwritten = record { id = 0 ∷ []; payload = []; status = 1 }

-- A file that holds records and nothing else.
pub rebuild_segment-whole :
    (seg : Segment) (i : ℕ) (s : FileStore) (es : List Entry)
    → IsLogged seg es
    → IsQuiet seg
    → rebuild_segment seg i s ≡ replay_segment i 0 es (reset_empty s)
unfolding encode put_uint32 put_uint16
rebuild_segment-whole seg i s es l q =
    rebuild_segment-replay_segment seg i s es unwritten [] _ _ l.writable
      (record { named = omega arith; short_id = omega arith; short_payload = omega arith })
      q.is_open
      (sym (append-nil seg.file)
        ∙ ap (λ b. seg.file ++ b) (sym q.written)
        ∙ l.bytes
        ∙ sym (append-nil (encode_all es)))
      refl

rebuild_from-refs_from :
    (segs : List Segment) (logs : List (List Entry)) (i : ℕ) (s : FileStore) (k : Bytes)
    → AllLogged segs logs
    → All IsQuiet segs
    → lookup k (rebuild_from segs i s).index ≡ refs_from i logs k (lookup k s.index)
unfolding rebuild_from refs_from
rebuild_from-refs_from [] [] i s k l q = refl
rebuild_from-refs_from [] (x ∷ logs) i s k l q = absurd l
rebuild_from-refs_from (x ∷ segs) [] i s k l q = absurd l
rebuild_from-refs_from (seg ∷ segs) (es ∷ logs) i s k l q =
    rebuild_from-refs_from segs logs (suc i) (rebuild_segment seg i s) k l.1 q.1
    ∙ ap (refs_from (suc i) logs k) (
        ap (λ (t : FileStore). lookup k t.index) (rebuild_segment-whole seg i s es l.0 q.0)
        ∙ lookup-replay_segment es i 0 (reset_empty s) k
        ∙ ap (ref_from i 0 es k) (lookup-reset_empty s k))

-- In a store all of whose segments are open and written, rebuildIndexes leaves what the index says
-- of every id as it was.
pub rebuild_indexes-lookup :
    (s : FileStore) (log : List Entry) (k : Bytes)
    → IsStore s log
    → All IsQuiet s.segments
    → lookup k (rebuild_indexes s).index ≡ lookup k s.index
unfolding rebuild_indexes
rebuild_indexes-lookup s log k v q =
    rebuild_from-refs_from s.segments (v.logs ++ v.es ∷ []) 0 _ k
      (subst (λ x. AllLogged x (v.logs ++ v.es ∷ [])) (sym v.shape.listed)
        (AllLogged-append v.front v.logs v.seg v.es v.shape.old v.shape.current))
      q
    ∙ ap (refs_from 0 (v.logs ++ v.es ∷ []) k) (lookup-nil k)
    ∙ sym (v.agrees k)
