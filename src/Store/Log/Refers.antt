-- ===== src/Store/Log/Refers.antt =====
-- The references of the specification and the records that they lead to.
use josefina.Prelude.{
  ℕ, suc, ◌+◌, Option, none, some, List, [], ◌∷◌, ◌++◌, length, length-append, get_elem?, ◌≡◌, refl,
  ap, ◌∙◌, sym, ◌==◌, inl, inr, Bool-cases, arith, append_assoc, get_elem?-append_at,
}
use josefina.Prelude.Eq.{◌=?◌, bytes_eq, bytes_beq_iff}
use josefina.Store.Bytes.{Bytes, active, deleted}
use josefina.Store.Segment.{RecordRef}
use josefina.Store.Segment.Codec.{Entry, encode}
use josefina.Store.Rebuild.Scan.{encode_all}
use josefina.Store.Log.{effect, value_from, value_of, ref_from, refs_from, flat}
use josefina.Store.Log.Refs.{value_from-append}

pub encode_all-append :
    (xs ys : List Entry) → encode_all (xs ++ ys) ≡ encode_all xs ++ encode_all ys
encode_all-append [] ys = refl
encode_all-append (x ∷ xs) ys =
    ap (λ b. encode x ++ b) (encode_all-append xs ys)
    ∙ sym (append_assoc (encode x) (encode_all xs) (encode_all ys))

-- A record for `k` with this payload stands where the reference says.
pub record Located (logs : List (List Entry)) (k : Bytes) (ref : RecordRef) (payload : Bytes)
    : Type 0 where
  pub before : List Entry
  pub after : List Entry
  pub entry : Entry
  pub in_log : get_elem? logs ref.segment ≡ some (before ++ entry ∷ after)
  pub starts : ref.offset ≡ length (encode_all before)
  pub named : entry.id ≡ k
  pub holds : entry.payload ≡ payload
  pub sized : ref.length ≡ length payload

abbrev pub Refers : List (List Entry) → Bytes → Option RecordRef → Option Bytes → Type 0
Refers logs k none none = Unit
Refers logs k (some ref) (some payload) = Located logs k ref payload
Refers logs k _ _ = ⊥

effect-Refers :
    (logs : List (List Entry)) (e : Entry) (ref : RecordRef) (k : Bytes) (r : Option RecordRef)
    (v : Option Bytes)
    → (e.id ≡ k → Located logs k ref e.payload)
    → Refers logs k r v
    → Refers logs k (effect e ref k r) (effect e e.payload k v)
unfolding effect
effect-Refers logs e ref k r v l h = elim (Bool-cases (e.id =? k)) [
  | inr other ↦ rw other h
  | inl same ↦ elim (Bool-cases (e.status == active)) [
    | inl put ↦ rw (same, put) (l ((bytes_beq_iff e.id k).0 same))
    | inr not_put ↦ elim (Bool-cases (e.status == deleted)) [
      | inl cut ↦ rw (same, not_put, cut) tt
      | inr not_cut ↦ rw (same, not_put, not_cut) h
    ]
  ]
]

ref_from-Refers :
    (logs : List (List Entry)) (i off : ℕ) (done es : List Entry) (k : Bytes) (r : Option RecordRef)
    (v : Option Bytes)
    → get_elem? logs i ≡ some (done ++ es)
    → off ≡ length (encode_all done)
    → Refers logs k r v
    → Refers logs k (ref_from i off es k r) (value_from es k v)
unfolding ref_from value_from
ref_from-Refers logs i off done [] k r v g o h = h
ref_from-Refers logs i off done (e ∷ es) k r v g o h =
    ref_from-Refers logs i (off + length (encode e)) (done ++ e ∷ []) es k _ _
      (g ∙ ap some (sym (append_assoc done (e ∷ []) es)))
      (omega (
        arith,
        ap length (encode_all-append done (e ∷ [])),
        length-append (encode_all done) (encode e ++ []),
        length-append (encode e) [],
      ))
      (effect-Refers logs e _ k r v
        (λ n. record {
          before = done;
          after = es;
          entry = e;
          in_log = g;
          starts = o;
          named = n;
          holds = refl;
          sized = refl;
        })
        h)

refs_from-Refers :
    (all done logs : List (List Entry)) (i : ℕ) (k : Bytes) (r : Option RecordRef)
    (v : Option Bytes)
    → all ≡ done ++ logs
    → i ≡ length done
    → Refers all k r v
    → Refers all k (refs_from i logs k r) (value_from (flat logs) k v)
unfolding refs_from value_from
refs_from-Refers all done [] i k r v a l h = h
refs_from-Refers all done (es ∷ logs) i k r v a l h = rw (value_from-append es (flat logs) k v) (
    refs_from-Refers all (done ++ es ∷ []) logs (suc i) k _ _
      (a ∙ sym (append_assoc done (es ∷ []) logs)) (omega (arith, length-append done (es ∷ [])))
      (ref_from-Refers all i 0 [] es k r v (rw a (get_elem?-append_at done logs es i l)) refl h))

-- Over all segments: an id that the history gives a payload has a reference to a record with it, and
-- an id that it gives none has no reference.
pub refs-Refers :
    (logs : List (List Entry)) (k : Bytes)
    → Refers logs k (refs_from 0 logs k none) (value_of (flat logs) k)
unfolding value_of
refs-Refers logs k = refs_from-Refers logs [] logs 0 k none none refl refl tt
