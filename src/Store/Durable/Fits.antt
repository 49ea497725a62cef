-- ===== src/Store/Durable/Fits.antt =====
-- internal/store: the entries of an index of a history of bounded length fit into a snapshot.
use josefina.Prelude.{
  ℕ, zero, suc, ◌^◌, ◌≤◌, ◌<◌, none, some, List, [], ◌∷◌, ◌++◌, length, length-append, get_elem?,
  ◌≡◌, refl, ap, ◌∙◌, sym, subst, arith, All, false, inl, inr, Option, Bool-cases,
}
use josefina.Prelude.Eq.{◌=?◌, bytes_eq, bytes_beq_iff, beq_refl}
use josefina.Prelude.Assoc.{lookup, contains}
use josefina.Prelude.Distinct.{Distinct, lookup-absent}
use josefina.Store.Bytes.{Bytes}
use josefina.Store.Segment.{RecordRef}
use josefina.Store.Segment.Codec.{Entry, IsWritable}
use josefina.Store.Rebuild.Scan.{encode_all}
use josefina.Store.FileStore.{Index}
use josefina.Store.Snapshot.RoundTrip.{IsFit, left_out}
use josefina.Store.Log.{refs_from, value_of, flat}
use josefina.Store.Log.Refers.{Located, Refers, refs-Refers, encode_all-append}
use josefina.Store.Invariant.Reading.{All-middle}

-- The bounds of a history that a snapshot can stand for.
pub record IsBounded (log : List Entry) : Type 0 where
  pub few : length log < 2 ^ 31
  pub short : length (encode_all log) < 2 ^ 63

get_elem?-lt {ℓ} :
    {A : Type ℓ} (xs : List A) (i : ℕ) (x : A) → get_elem? xs i ≡ some x → i < length xs
get_elem?-lt [] i x h = absurd (cc)
get_elem?-lt (y ∷ xs) zero x h = omega arith
get_elem?-lt (y ∷ xs) (suc i) x h = omega (arith, get_elem?-lt xs i x h)

-- The records of one segment are no more, and take no more bytes, than all of them.
part_of :
    (logs : List (List Entry)) (i : ℕ) (es : List Entry)
    → get_elem? logs i ≡ some es
    → length (encode_all es) ≤ length (encode_all (flat logs))
part_of [] i es h = absurd (cc)
part_of (x ∷ logs) zero es h =
    rw (part (cc), encode_all-append x (flat logs))
      (omega (arith, length-append (encode_all x) (encode_all (flat logs))))
  where
    part : x ≡ es → es ≡ x
    part h = sym h
part_of (x ∷ logs) (suc i) es h =
    rw (encode_all-append x (flat logs))
      (omega (arith, length-append (encode_all x) (encode_all (flat logs)), part_of logs i es h))

pub All-left {ℓ} : (P : Entry → Type ℓ) (xs ys : List Entry) → All P (xs ++ ys) → All P xs
All-left P [] ys h = tt
All-left P (y ∷ xs) ys h = (h.0, All-left P xs ys h.1)

All-right {ℓ} : (P : Entry → Type ℓ) (xs ys : List Entry) → All P (xs ++ ys) → All P ys
All-right P [] ys h = h
All-right P (y ∷ xs) ys h = All-right P xs ys h.1

All-part {ℓ} :
    (P : Entry → Type ℓ) (logs : List (List Entry)) (i : ℕ) (es : List Entry)
    → get_elem? logs i ≡ some es
    → All P (flat logs)
    → All P es
All-part P [] i es h w = absurd (cc)
All-part P (x ∷ logs) zero es h w = subst (All P) (cc) (All-left P x (flat logs) w)
All-part P (x ∷ logs) (suc i) es h w = All-part P logs i es h (All-right P x (flat logs) w)

Located-IsFit :
    (logs : List (List Entry)) (k : Bytes) (ref : RecordRef) (payload : Bytes)
    → Located logs k ref payload
    → length logs < 2 ^ 32
    → length (encode_all (flat logs)) < 2 ^ 63
    → All IsWritable (flat logs)
    → IsFit (k, ref) × (ref.segment < length logs)
Located-IsFit logs k ref payload l few short w = (
  record {
    short_id = omega (arith, writable.short_id, ap length l.named);
    few_segments = omega (arith, place);
    near = omega (
      arith,
      l.starts,
      part_of logs ref.segment _ l.in_log,
      ap length (encode_all-append l.before (l.entry ∷ l.after)),
      length-append (encode_all l.before) (encode_all (l.entry ∷ l.after)),
    );
    short_data = omega (arith, l.sized, writable.short_payload, ap length l.holds);
  },
  place,
)
  where
    place : ref.segment < length logs
    place = get_elem?-lt logs ref.segment _ l.in_log

    writable : IsWritable l.entry
    writable =
        All-middle IsWritable l.before l.after l.entry
          (All-part IsWritable logs ref.segment _ l.in_log w)

Refers-IsFit :
    (logs : List (List Entry)) (k : Bytes) (r : Option RecordRef) (v : Option Bytes)
    (ref : RecordRef)
    → Refers logs k r v
    → r ≡ some ref
    → length logs < 2 ^ 32
    → length (encode_all (flat logs)) < 2 ^ 63
    → All IsWritable (flat logs)
    → IsFit (k, ref) × (ref.segment < length logs)
Refers-IsFit logs k none v ref h e few short w = absurd (cc)
Refers-IsFit logs k (some r) none ref h e few short w = absurd h
Refers-IsFit logs k (some r) (some payload) ref h e few short w =
    subst (λ x. IsFit (k, x) × (x.segment < length logs)) (cc)
      (Located-IsFit logs k r payload h few short w)

behind_first :
    (id k : Bytes) (ref r : RecordRef) (index : Index)
    → contains id index ≡ false
    → lookup k index ≡ some r
    → lookup k ((id, ref) ∷ index) ≡ some r
unfolding lookup
behind_first id k ref r index c h = elim (Bool-cases (id =? k)) [
  | inr other ↦ rw other h
  | inl same ↦
      let e = ap (λ j. lookup j index) ((bytes_beq_iff id k).0 same) in
      let n = lookup-absent id index c in absurd (cc)
]

lookup-first :
    (id : Bytes) (ref : RecordRef) (index : Index) → lookup id ((id, ref) ∷ index) ≡ some ref
unfolding lookup
lookup-first id ref index = rw (beq_refl id) refl

entries-IsFit :
    (n : ℕ) (index : Index)
    → Distinct index
    → ((k : Bytes) (ref : RecordRef)
        → lookup k index ≡ some ref
        → IsFit (k, ref) × (ref.segment < n))
    → All IsFit index × (left_out n index ≡ 0)
unfolding left_out
entries-IsFit n [] d f = (tt, refl)
entries-IsFit n ((id, ref) ∷ index) d f =
    let rest = entries-IsFit n index d.1 (λ k r h. f k r (behind_first id k ref r index d.0 h)) in
    let first = f id ref (lookup-first id ref index) in
    ((first.0, rest.0), ground (arith, first.1, rest.1))

-- Every entry of the index of a history fits into a snapshot, and none is in a segment behind it.
pub index_fits :
    (logs : List (List Entry)) (index : Index)
    → Distinct index
    → ((k : Bytes) → lookup k index ≡ refs_from 0 logs k none)
    → length logs < 2 ^ 32
    → length (encode_all (flat logs)) < 2 ^ 63
    → All IsWritable (flat logs)
    → All IsFit index × (left_out (length logs) index ≡ 0)
index_fits logs index d agrees few short w = entries-IsFit (length logs) index d (λ k ref h.
    Refers-IsFit logs k (refs_from 0 logs k none) (value_of (flat logs) k) ref (refs-Refers logs k)
      (sym (agrees k) ∙ h) few short w)
