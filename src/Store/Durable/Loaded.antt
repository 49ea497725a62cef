-- ===== src/Store/Durable/Loaded.antt =====
-- internal/store: the index that open takes from a snapshot and from the records of a segment.
use josefina.Prelude.{
  ℕ, suc, ◌+◌, ◌≤◌, Option, none, some, List, [], ◌∷◌, length, ◌≡◌, refl, ap, ◌∙◌, sym, arith, true,
  false, ◌==◌, Bool-cases, inl, inr, if◌then◌else◌,
}
use josefina.Prelude.Eq.{◌=?◌, bytes_eq, bytes_beq_iff}
use josefina.Prelude.Assoc.{lookup, lookup-insert, contains}
use josefina.Prelude.Distinct.{
  Distinct, lookup-absent, insert-Distinct, remove-Distinct, length-insert, length-remove,
}
use josefina.Store.Bytes.{Bytes, active, deleted}
use josefina.Store.Segment.{RecordRef}
use josefina.Store.Segment.Codec.{Entry}
use josefina.Store.FileStore.{FileStore, Index, set_index, delete_index}
use josefina.Store.Rebuild.{apply_record}
use josefina.Store.Rebuild.Scan.{replay_segment}
use josefina.Store.Snapshot.RoundTrip.{reload, left_out}

abbrev pub or_else {ℓ} : {A : Type ℓ} → Option A → Option A → Option A
or_else none b = b
or_else (some a) b = some a

lookup-set_index :
    (s : FileStore) (id : Bytes) (ref : RecordRef) (k : Bytes)
    → lookup k (set_index s id ref.segment ref.offset ref.length).index
      ≡ (if id =? k then some ref else lookup k s.index)
unfolding set_index
lookup-set_index s id ref k = lookup-insert id k ref s.index

-- The entry that comes first, before those behind it.
entry_first :
    (id k : Bytes) (ref : RecordRef) (index : Index) (s : FileStore)
    → contains id index ≡ false
    → or_else (lookup k index) (if id =? k then some ref else lookup k s.index)
      ≡ or_else (lookup k ((id, ref) ∷ index)) (lookup k s.index)
unfolding lookup
entry_first id k ref index s h = elim (Bool-cases (id =? k)) [
  | inr other ↦ rw other refl
  | inl same ↦
      rw
        (
          same,
          ap (λ j. lookup j index) (sym ((bytes_beq_iff id k).0 same)),
          lookup-absent id index h,
        )
        refl
]

-- Where no entry is left out, what is loaded is the index.
pub lookup-reload :
    (current : ℕ) (index : Index) (s : FileStore) (k : Bytes)
    → Distinct index
    → left_out current index ≡ 0
    → lookup k (reload current index s).index ≡ or_else (lookup k index) (lookup k s.index)
unfolding reload left_out lookup
lookup-reload current [] s k d h = refl
lookup-reload current ((id, ref) ∷ index) s k d h = elim (Bool-cases (ref.segment == current)) [
  | inl here ↦ absurd (omega (arith, counted here))
  | inr there ↦ rw there (
      lookup-reload current index _ k d.1 (left there)
      ∙ ap (or_else (lookup k index)) (lookup-set_index s id ref k)
      ∙ entry_first id k ref index s d.0)
]
  where
    counted : ref.segment == current ≡ true → suc (left_out current index) ≡ 0
    counted c = ground arith

    left : ref.segment == current ≡ false → left_out current index ≡ 0
    left c = ground arith

pub reload-Distinct :
    (current : ℕ) (index : Index) (s : FileStore)
    → Distinct s.index
    → Distinct (reload current index s).index
unfolding reload set_index
reload-Distinct current [] s d = d
reload-Distinct current ((id, ref) ∷ index) s d = elim (Bool-cases (ref.segment == current)) [
  | inl here ↦ rw here (reload-Distinct current index s d)
  | inr there ↦ rw there (reload-Distinct current index _ (insert-Distinct id _ s.index d))
]

pub length-reload :
    (current : ℕ) (index : Index) (s : FileStore)
    → length (reload current index s).index ≤ length index + length s.index
unfolding reload set_index
length-reload current [] s = omega arith
length-reload current ((id, ref) ∷ index) s = elim (Bool-cases (ref.segment == current)) [
  | inl here ↦ rw here (omega (arith, length-reload current index s))
  | inr there ↦
      rw there (omega (arith, length-reload current index _, length-insert id ref s.index))
]

apply_record-Distinct :
    (s : FileStore) (i off : ℕ) (id : Bytes) (status n : ℕ)
    → Distinct s.index
    → Distinct (apply_record s i off id status n).index
unfolding apply_record set_index delete_index
apply_record-Distinct s i off id status n d = elim (Bool-cases (status == active)) [
  | inl put ↦ rw put (insert-Distinct id _ s.index d)
  | inr not_put ↦ elim (Bool-cases (status == deleted)) [
    | inl cut ↦ rw (not_put, cut) (remove-Distinct id s.index d)
    | inr not_cut ↦ rw (not_put, not_cut) d
  ]
]

length-apply_record :
    (s : FileStore) (i off : ℕ) (id : Bytes) (status n : ℕ)
    → length (apply_record s i off id status n).index ≤ suc (length s.index)
unfolding apply_record set_index delete_index
length-apply_record s i off id status n = ground (
  arith,
  length-insert id (record { segment = i; offset = off; length = n }) s.index,
  length-remove id s.index,
)

pub replay_segment-Distinct :
    (es : List Entry) (i off : ℕ) (s : FileStore)
    → Distinct s.index
    → Distinct (replay_segment i off es s).index
unfolding replay_segment
replay_segment-Distinct [] i off s d = d
replay_segment-Distinct (e ∷ es) i off s d =
    replay_segment-Distinct es i _ _ (apply_record-Distinct s i off e.id e.status _ d)

pub length-replay_segment :
    (es : List Entry) (i off : ℕ) (s : FileStore)
    → length (replay_segment i off es s).index ≤ length es + length s.index
unfolding replay_segment
length-replay_segment [] i off s = omega arith
length-replay_segment (e ∷ es) i off s = omega (
  arith,
  length-replay_segment es i _ (apply_record s i off e.id e.status (length e.payload)),
  length-apply_record s i off e.id e.status (length e.payload),
)
