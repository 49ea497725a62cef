-- ===== src/Store/Log/Refs.antt =====
-- Laws of the specification, and the replay of a segment as a change of the index.
use josefina.Prelude.{
  ℕ, zero, suc, ◌+◌, Option, none, some, List, [], ◌∷◌, ◌++◌, length, length-append, ◌≡◌, refl, ap,
  ◌∙◌, sym, ◌==◌, if◌then◌else◌, arith, append_assoc,
}
use josefina.Prelude.Eq.{bytes_eq}
use josefina.Prelude.Assoc.{lookup, lookup-insert, lookup-remove}
use josefina.Store.Bytes.{Bytes}
use josefina.Store.Segment.{RecordRef}
use josefina.Store.Segment.Codec.{Entry, encode}
use josefina.Store.FileStore.{FileStore, set_index, delete_index}
use josefina.Store.Rebuild.{apply_record}
use josefina.Store.Rebuild.Scan.{encode_all, replay_segment}
use josefina.Store.Log.{effect, value_from, ref_from, refs_from, flat}

pub value_from-append :
    (xs ys : List Entry) (k : Bytes) (v : Option Bytes)
    → value_from (xs ++ ys) k v ≡ value_from ys k (value_from xs k v)
unfolding value_from
value_from-append [] ys k v = refl
value_from-append (x ∷ xs) ys k v = value_from-append xs ys k _

pub ref_from-append :
    (i off : ℕ) (xs ys : List Entry) (k : Bytes) (v : Option RecordRef)
    → ref_from i off (xs ++ ys) k v
      ≡ ref_from i (off + length (encode_all xs)) ys k (ref_from i off xs k v)
unfolding ref_from
ref_from-append i off [] ys k v = ap (λ o. ref_from i o ys k v) (omega arith)
ref_from-append i off (x ∷ xs) ys k v =
    ref_from-append i (off + length (encode x)) xs ys k _
    ∙ ap (λ o. ref_from i o ys k (ref_from i off (x ∷ xs) k v)) (further (encode x) (encode_all xs))
  where
    further : (a b : Bytes) → off + length a + length b ≡ off + length (a ++ b)
    further a b = omega (arith, length-append a b)

pub refs_from-append :
    (i : ℕ) (logs : List (List Entry)) (es : List Entry) (k : Bytes) (v : Option RecordRef)
    → refs_from i (logs ++ es ∷ []) k v ≡ ref_from (i + length logs) 0 es k (refs_from i logs k v)
unfolding refs_from
refs_from-append i [] es k v = ap (λ n. ref_from n 0 es k v) (omega arith)
refs_from-append i (l ∷ logs) es k v =
    refs_from-append (suc i) logs es k _
    ∙ ap (λ n. ref_from n 0 es k (refs_from i (l ∷ logs) k v)) (shift (length logs))
  where
    shift : (n : ℕ) → suc i + n ≡ i + suc n
    shift n = omega arith

pub flat-append :
    (logs : List (List Entry)) (es : List Entry) → flat (logs ++ es ∷ []) ≡ flat logs ++ es
flat-append [] es = josefina.Prelude.append-nil es
flat-append (l ∷ logs) es =
    ap (λ x. l ++ x) (flat-append logs es) ∙ sym (append_assoc l (flat logs) es)

-- One record, replayed at a place, has its effect on what the index says of every id.
pub lookup-apply_record :
    (s : FileStore) (i off : ℕ) (e : Entry) (k : Bytes)
    → lookup k (apply_record s i off e.id e.status (length e.payload)).index
      ≡ effect e
          (record { segment = i; offset = off; length = length e.payload })
          k
          (lookup k s.index)
unfolding apply_record set_index delete_index effect
lookup-apply_record s i off e k = ground (
  arith,
  lookup-insert e.id k (record { segment = i; offset = off; length = length e.payload }) s.index,
  lookup-remove e.id k s.index,
)

pub lookup-replay_segment :
    (es : List Entry) (i off : ℕ) (s : FileStore) (k : Bytes)
    → lookup k (replay_segment i off es s).index ≡ ref_from i off es k (lookup k s.index)
unfolding replay_segment ref_from
lookup-replay_segment [] i off s k = refl
lookup-replay_segment (e ∷ es) i off s k =
    lookup-replay_segment es i (off + length (encode e)) _ k
    ∙ ap (ref_from i (off + length (encode e)) es k) (lookup-apply_record s i off e k)
