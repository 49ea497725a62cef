-- ===== src/Store/Invariant/Reading.antt =====
-- internal/store/store.go: Get and the meaning of the history.
use josefina.Prelude.{
  ℕ, zero, suc, Option, none, some, List, [], ◌∷◌, ◌++◌, get_elem?, ◌≡◌, refl, ap, ◌∙◌, sym, subst,
  false, All, append-nil, arith,
}
use josefina.Prelude.Eq.{bytes_eq}
use josefina.Prelude.Assoc.{lookup}
use josefina.Store.Result.{ok}
use josefina.Store.Bytes.{Bytes}
use josefina.Store.Segment.{Segment, RecordRef, read}
use josefina.Store.Segment.Codec.{Entry, IsWritable}
use josefina.Store.Segment.RoundTrip.{read_placed}
use josefina.Store.Rebuild.Scan.{encode_all}
use josefina.Store.FileStore.{FileStore}
use josefina.Store.Ops.{get_payload}
use josefina.Store.Log.{refs_from, value_of}
use josefina.Store.Log.Refers.{Located, Refers, refs-Refers, encode_all-append}
use josefina.Store.Invariant.{IsLogged, AllLogged, IsStore, AllLogged-append}

-- The goroutine has written everything, and the descriptor is open.
pub record IsQuiet (seg : Segment) : Type 0 where
  pub written : seg.pending ≡ []
  pub is_open : seg.is_closed ≡ false

pub All-middle {ℓ κ} :
    {A : Type ℓ} (P : A → Type κ) (xs ys : List A) (y : A) → All P (xs ++ y ∷ ys) → P y
All-middle P [] ys y h = h.0
All-middle P (x ∷ xs) ys y h = All-middle P xs ys y h.1

-- The segment at the place of a log holds that log.
pub AllLogged-get :
    (segs : List Segment) (logs : List (List Entry)) (i : ℕ) (es : List Entry)
    → AllLogged segs logs
    → All IsQuiet segs
    → get_elem? logs i ≡ some es
    → (seg : Segment) × (get_elem? segs i ≡ some seg) × IsLogged seg es × IsQuiet seg
AllLogged-get [] [] i es h q g = absurd (cc)
AllLogged-get [] (x ∷ logs) i es h q g = absurd h
AllLogged-get (seg ∷ segs) [] i es h q g = absurd h
AllLogged-get (seg ∷ segs) (x ∷ logs) zero es h q g =
    (seg, refl, subst (IsLogged seg) (cc) h.0, q.0)
AllLogged-get (seg ∷ segs) (x ∷ logs) (suc i) es h q g = AllLogged-get segs logs i es h.1 q.1 g

read-Located :
    (seg : Segment) (k : Bytes) (ref : RecordRef) (payload : Bytes) (logs : List (List Entry))
    (l : Located logs k ref payload)
    → IsLogged seg (l.before ++ l.entry ∷ l.after)
    → IsQuiet seg
    → read seg ref ≡ ok payload
read-Located seg k ref payload logs l g q =
    read_placed seg (encode_all l.before) (encode_all l.after) l.entry ref
      (All-middle IsWritable l.before l.after l.entry g.writable) q.is_open
      (sym (append-nil seg.file)
        ∙ ap (λ b. seg.file ++ b) (sym q.written)
        ∙ g.bytes
        ∙ encode_all-append l.before (l.entry ∷ l.after))
      l.starts
    ∙ ap ok l.holds

get_payload_found :
    (s : FileStore) (k : Bytes) (ref : RecordRef) (seg : Segment) (payload : Bytes)
    → lookup k s.index ≡ some ref
    → get_elem? s.segments ref.segment ≡ some seg
    → read seg ref ≡ ok payload
    → get_payload s k ≡ ok (some payload)
unfolding get_payload
get_payload_found s k ref seg payload i g r = ground arith

lookup_cases :
    (segs : List Segment) (logs : List (List Entry)) (k : Bytes) (r : Option RecordRef)
    (v : Option Bytes) (s : FileStore)
    → s.segments ≡ segs
    → lookup k s.index ≡ r
    → AllLogged segs logs
    → All IsQuiet segs
    → Refers logs k r v
    → get_payload s k ≡ ok v
unfolding get_payload
lookup_cases segs logs k none none s e i h q l = rw (i, get_payload)
lookup_cases segs logs k none (some v) s e i h q l = absurd l
lookup_cases segs logs k (some r) none s e i h q l = absurd l
lookup_cases segs logs k (some r) (some v) s e i h q l =
    let (seg, g, d, p) = AllLogged-get segs logs r.segment _ h q l.in_log in
    get_payload_found s k r seg v i (ap (λ x. get_elem? x r.segment) e ∙ g)
      (read-Located seg k r v logs l d p)

-- In a store all of whose segments are open and written, Get hands on the payload that the history
-- gives the id, and finds nothing where the history gives it none.
pub get_payload-value_of :
    (s : FileStore) (log : List Entry) (k : Bytes)
    → IsStore s log
    → All IsQuiet s.segments
    → get_payload s k ≡ ok (value_of log k)
get_payload-value_of s log k v q =
    lookup_cases s.segments (v.logs ++ v.es ∷ []) k _ _ s refl (v.agrees k)
      (subst (λ x. AllLogged x (v.logs ++ v.es ∷ [])) (sym v.shape.listed)
        (AllLogged-append v.front v.logs v.seg v.es v.shape.old v.shape.current))
      q
      (subst
        (λ x.
          Refers (v.logs ++ v.es ∷ []) k (refs_from 0 (v.logs ++ v.es ∷ []) k none) (value_of x k))
        v.history (refs-Refers (v.logs ++ v.es ∷ []) k))
