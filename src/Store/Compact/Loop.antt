-- ===== src/Store/Compact/Loop.antt =====
-- internal/store/compact.go: the loop over the ids of the index.
use josefina.Prelude.{
  ◌+◌, ◌^◌, ◌<◌, Bool, true, false, Option, none, some, List, [], ◌∷◌, ◌++◌, map, length, All, ◌≡◌,
  refl, sym, ap, ◌∙◌, subst, arith, ◌||◌, if◌then◌else◌, Bool-cases, inl, inr, Option-cases, ◌⊎◌,
}
use mathlib.Core.Bool.{false≢true}
use josefina.Prelude.Eq.{listed, ◌=?◌, bytes_eq, bytes_beq_iff, beq_refl}
use josefina.Prelude.Assoc.{lookup, contains, contains-lookup-none, contains-lookup-some}
use josefina.Store.Result.{ok, ◌>>=◌}
use josefina.Store.Bytes.{Bytes, active}
use josefina.Store.Segment.{RecordRef, fixed_header_size}
use josefina.Store.Segment.Codec.{Entry, IsWritable}
use josefina.Store.Log.{value_of, value_from, effect}
use josefina.Store.Log.Refs.{value_from-append}
use josefina.Store.Log.Refers.{Refers, refs-Refers}
use josefina.Store.FileStore.{FileStore, Index}
use josefina.Store.Listing.{sort_strings, insert_sorted}
use josefina.Store.Invariant.{IsStore}
use josefina.Store.Invariant.Reading.{IsQuiet}
use josefina.Store.Compact.{Compaction, copy_keys, compact_keys, make_room}
use josefina.Store.Compact.Copied.{IsCopied, make_room-IsCopied, write_copy-IsCopied, copied}
use josefina.Store.Compact.Source.{indexed-Source, copy_record-Source}

-- An id and the fixed part of its record's header fit into an uint16 together.
abbrev pub IsShort : Bytes × RecordRef → Type 0
IsShort p = fixed_header_size + length p.0 < 2 ^ 16

listed-insert_sorted :
    (k id : Bytes) (ids : List Bytes) → listed k (insert_sorted id ids) ≡ (id =? k || listed k ids)
unfolding listed insert_sorted
listed-insert_sorted k id [] = refl
listed-insert_sorted k id (x ∷ ids) = ground (arith, listed-insert_sorted k id ids)

listed-sort_strings : (k : Bytes) (ids : List Bytes) → listed k (sort_strings ids) ≡ listed k ids
unfolding listed sort_strings
listed-sort_strings k [] = refl
listed-sort_strings k (id ∷ ids) =
    listed-insert_sorted k id (sort_strings ids)
    ∙ ap (λ b. id =? k || b) (listed-sort_strings k ids)

listed-names :
    (k : Bytes) (index : Index)
    → listed k (map (λ (p : Bytes × RecordRef). p.0) index) ≡ contains k index
unfolding listed contains
listed-names k [] = refl
listed-names k ((id, ref) ∷ index) = ground (arith, listed-names k index)

pub listed-compact_keys :
    (s : FileStore) (k : Bytes) → listed k (compact_keys s) ≡ contains k s.index
unfolding compact_keys
listed-compact_keys s k = listed-sort_strings k _ ∙ listed-names k s.index

contains-IsShort :
    (k : Bytes) (index : Index)
    → All IsShort index
    → contains k index ≡ true
    → fixed_header_size + length k < 2 ^ 16
unfolding contains
contains-IsShort k [] h e = absurd (false≢true e)
contains-IsShort k ((id, ref) ∷ index) h e = elim (Bool-cases (id =? k)) [
  | inl same ↦ subst (λ x. fixed_header_size + length x < 2 ^ 16) ((bytes_beq_iff id k).0 same) h.0
  | inr other ↦ contains-IsShort k index h.1 (sym (rw (contains, other) refl) ∙ e)
]

contains-indexed :
    (k : Bytes) (index : Index)
    → contains k index ≡ true
    → (ref : RecordRef) × (lookup k index ≡ some ref)
contains-indexed k index e = elim (Option-cases (lookup k index)) [
  | inl missing ↦ absurd (false≢true (sym (contains-lookup-none k index missing) ∙ e))
  | inr found ↦ found
]

Refers-none :
    (k : Bytes) (logs : List (List Entry)) (r : Option RecordRef) (v : Option Bytes)
    → Refers logs k r v
    → r ≡ none
    → v ≡ none
Refers-none k logs none none h e = refl
Refers-none k logs none (some p) h e = absurd h
Refers-none k logs (some r) none h e = refl
Refers-none k logs (some r) (some p) h e = absurd (cc)

-- An id that is not in the index has no payload in the history.
pub value_of-unlisted :
    (s : FileStore) (log : List Entry) (k : Bytes)
    → IsStore s log
    → contains k s.index ≡ false
    → value_of log k ≡ none
value_of-unlisted s log k v e =
    ap (λ l. value_of l k) (sym v.history)
    ∙ Refers-none k (v.logs ++ v.es ∷ []) _ _ (refs-Refers (v.logs ++ v.es ∷ []) k)
        (sym (v.agrees k) ∙ missing (Option-cases (lookup k s.index)))
  where
    missing :
        (lookup k s.index ≡ none) ⊎ ((ref : RecordRef) × (lookup k s.index ≡ some ref))
        → lookup k s.index ≡ none
    missing (inl n) = n
    missing (inr (ref, f)) = absurd (false≢true (sym e ∙ contains-lookup-some k s.index ref f))

value_of-copied :
    (log live : List Entry) (id payload k : Bytes)
    → value_of log id ≡ some payload
    → value_of (live ++ record { id = id; payload = payload; status = active } ∷ []) k
      ≡ (if id =? k then value_of log k else value_of live k)
unfolding value_of value_from effect
value_of-copied log live id payload k h =
    value_from-append live (record { id = id; payload = payload; status = active } ∷ []) k none
    ∙ copied_or_kept (Bool-cases (id =? k))
  where
    copied_or_kept :
        ((id =? k) ≡ true) ⊎ ((id =? k) ≡ false)
        → (if id =? k then some payload else value_of live k)
          ≡ (if id =? k then value_of log k else value_of live k)
    copied_or_kept (inl same) = rw same (sym h ∙ ap (value_of log) ((bytes_beq_iff id k).0 same))
    copied_or_kept (inr other) = rw other refl

-- A record that is copied first, and the copies of the ids after it.
copied_then :
    (b a : Bool) (x y : Option Bytes)
    → (if a then x else (if b then x else y)) ≡ (if b || a then x else y)
copied_then true true x y = refl
copied_then true false x y = refl
copied_then false true x y = refl
copied_then false false x y = refl

listed_later : (b a : Bool) → a ≡ true → (b || a) ≡ true
listed_later true a h = refl
listed_later false a h = h

-- What the copy of the ids `ids` has made of the compaction.
pub record Copies (s : FileStore) (log live : List Entry) (ids : List Bytes) (c : Compaction)
    : Type 0 where
  pub result : Compaction
  pub records : List Entry
  pub returned : copy_keys s ids c ≡ ok result
  pub is_copied : IsCopied result records
  pub means :
      (k : Bytes) → value_of records k ≡ (if listed k ids then value_of log k else value_of live k)

pub copy_keys-Copies :
    (s : FileStore) (log live : List Entry) (ids : List Bytes) (c : Compaction)
    → IsStore s log
    → All IsQuiet s.segments
    → All IsShort s.index
    → ((id : Bytes) → listed id ids ≡ true → contains id s.index ≡ true)
    → IsCopied c live
    → Copies s log live ids c
unfolding copy_keys listed
copy_keys-Copies s log live [] c v q h known d = record {
  result = c;
  records = live;
  returned = refl;
  is_copied = d;
  means = λ k. refl;
}
copy_keys-Copies s log live (id ∷ ids) c v q h known d =
    let there = known id (rw (beq_refl id) refl) in
    let short = contains-IsShort id s.index h there in
    let (ref, i) = contains-indexed id s.index there in
    let src = indexed-Source s log id ref v q i in
    let room =
      make_room s.max_segment (fixed_header_size + length id + length src.entry.payload) c in
    let w : IsWritable (record { id = id; payload = src.entry.payload; status = active }) = record {
      named = subst (λ x. 0 < length x) src.named src.writable.named;
      short_id = omega arith;
      short_payload = src.writable.short_payload;
    } in
    let (written, d1) =
      write_copy-IsCopied room live id src.entry.payload (make_room-IsCopied _ _ c live d) w in
    let rest =
      copy_keys-Copies s log
        (live ++ record { id = id; payload = src.entry.payload; status = active } ∷ []) ids
        (copied id src.entry.payload room) v q h
        (λ k e. known k (listed_later (id =? k) (listed k ids) e)) d1 in
    record {
      result = rest.result;
      records = rest.records;
      returned =
          ap (λ r. r >>= copy_keys s ids) (copy_record-Source s log id c src short ∙ written)
          ∙ rest.returned;
      is_copied = rest.is_copied;
      means = λ k.
          rest.means k
          ∙ ap (λ x. if listed k ids then value_of log k else x)
              (value_of-copied log live id src.entry.payload k src.holds)
          ∙ copied_then (id =? k) (listed k ids) (value_of log k) (value_of live k);
    }
