-- ===== src/Store/Iterate/Listed.antt =====
-- getRecords of internal/store/store.go, without an offset and a limit: every id of the index, once.
use josefina.Prelude.{
  ℕ, zero, suc, ◌<◌, Bool, true, false, Option, none, some, List, [], ◌∷◌, length, map, take, ◌≡◌,
  ◌≢◌, refl, ap, ◌∙◌, sym, arith, inl, inr, if◌then◌else◌, ◌==◌, leb, Bool-cases, eq-nil_of_length,
}
use mathlib.Core.List.{reverse, reverse-cons}
use josefina.Prelude.Eq.{bytes_eq, ◌=?◌, bytes_beq_iff}
use josefina.Prelude.Assoc.{lookup, contains}
use josefina.Prelude.Distinct.{Distinct}
use josefina.Store.Result.{Result, ok, err, panic}
use josefina.Store.Bytes.{Bytes}
use josefina.Store.Segment.{RecordRef}
use josefina.Store.FileStore.{FileStore, Index}
use josefina.Store.Listing.{insert_sorted, sort_strings, sorted, page, page_limit, get_records}
use josefina.Store.Listing.Pages.{page-take, length-sorted}
use josefina.Store.Iterate.Counts.{count, count-append}

abbrev pub ids : Index → List Bytes
ids index = map (λ (p : Bytes × RecordRef). p.0) index

count-insert_sorted :
    (k x : Bytes) (ks : List Bytes) → count k (insert_sorted x ks) ≡ count k (x ∷ ks)
unfolding insert_sorted count
count-insert_sorted k x [] = refl
count-insert_sorted k x (y ∷ ks) = ground (arith, count-insert_sorted k x ks)

count-sort_strings : (k : Bytes) (ks : List Bytes) → count k (sort_strings ks) ≡ count k ks
unfolding sort_strings count
count-sort_strings k [] = refl
count-sort_strings k (x ∷ ks) =
    count-insert_sorted k x (sort_strings ks) ∙ omega (arith, count-sort_strings k ks)

count-reverse : (k : Bytes) (ks : List Bytes) → count k (reverse ks) ≡ count k ks
unfolding count
count-reverse k [] = refl
count-reverse k (x ∷ ks) =
    ap (count k) (reverse-cons x ks)
    ∙ count-append k (reverse ks) (x ∷ [])
    ∙ omega (arith, count-reverse k ks)

pub count-sorted : (k : Bytes) (asc : Bool) (ks : List Bytes) → count k (sorted asc ks) ≡ count k ks
unfolding sorted
count-sorted k true ks = count-sort_strings k ks
count-sorted k false ks = count-reverse k (sort_strings ks) ∙ count-sort_strings k ks

take_all : (ks : List Bytes) (n : ℕ) → n ≡ length ks → take n ks ≡ ks
take_all [] zero h = refl
take_all [] (suc n) h = refl
take_all (k ∷ ks) zero h = absurd (omega arith)
take_all (k ∷ ks) (suc n) h = ap (λ l. k ∷ l) (take_all ks n (omega arith))

-- A key of a map is in it once.
pub count-Distinct :
    (k : Bytes) (index : Index)
    → Distinct index
    → count k (ids index) ≡ (if contains k index then 1 else 0)
unfolding count contains
count-Distinct k [] d = refl
count-Distinct k ((id, ref) ∷ index) d = elim (Bool-cases (id =? k)) [
  | inr other ↦ rw other (omega (arith, count-Distinct k index d.1))
  | inl same ↦ rw same (
      omega (
        arith,
        count-Distinct k index d.1
            ∙ ap (λ b. if b then 1 else 0)
                (ap (λ j. contains j index) (sym ((bytes_beq_iff id k).0 same)) ∙ d.0),
      ))
]

pub lookup-listed :
    (k : Bytes) (ks : List Bytes) (index : Index)
    → 0 < count k ks
    → lookup k (map (λ j. (j, lookup j index)) ks) ≡ some (lookup k index)
unfolding lookup count
lookup-listed k [] index h = absurd (omega arith)
lookup-listed k (x ∷ ks) index h = elim (Bool-cases (x =? k)) [
  | inl same ↦ rw same (ap (λ j. some (lookup j index)) ((bytes_beq_iff x k).0 same))
  | inr other ↦ rw other (lookup-listed k ks index (ground (arith, other)))
]

length-ids : (index : Index) → length (ids index) ≡ length index
length-ids [] = refl
length-ids (p ∷ index) = ap suc (length-ids index)

sorted-nil : (asc : Bool) → sorted asc [] ≡ []
unfolding sorted sort_strings
sorted-nil true = refl
sorted-nil false = refl

-- getRecords, where the ids are taken from the index, without an offset and a limit.
module _ (s : FileStore) (asc : Bool) where
  abbrev pub whole_keys : List Bytes
  whole_keys = sorted asc (ids s.index)

  abbrev pub whole : List Bytes → Result (List (Bytes × Option RecordRef) × List Bytes)
  whole found = ok (map (λ k. (k, lookup k s.index)) found, found)

  page_whole : page (page_limit (length s.index) 0) 0 whole_keys ≡ ok whole_keys
  unfolding page_limit
  page_whole =
      page-take (length s.index) 0 whole_keys (omega (arith, size))
      ∙ ap ok (take_all whole_keys (length s.index) (sym size))
    where
      size : length whole_keys ≡ length s.index
      size = length-sorted asc (ids s.index) ∙ length-ids s.index

  pub get_records-whole :
      length s.keys ≢ length s.index → (get_records s asc 0 0).0 ≡ whole whole_keys
  unfolding get_records
  get_records-whole apart = elim (Bool-cases (leb (length s.index) 0)) [
    | inl empty ↦ rw empty (
        ap whole (
          sym (
            ap (λ index. sorted asc (ids index)) (eq-nil_of_length s.index (ground arith))
            ∙ sorted-nil asc)))
    | inr some_left ↦
        rw (some_left, differs)
          (ap (λ r. elim r [ ok found ↦ whole found | err e ↦ err e | panic ↦ panic ]) page_whole)
  ]
    where
      differs : length s.index == length s.keys ≡ false
      differs = ground (arith, apart)

pub lookup-unlisted :
    (k : Bytes) (ks : List Bytes) (index : Index)
    → count k ks ≡ 0
    → lookup k (map (λ j. (j, lookup j index)) ks) ≡ none
unfolding lookup count
lookup-unlisted k [] index h = refl
lookup-unlisted k (x ∷ ks) index h = elim (Bool-cases (x =? k)) [
  | inl same ↦ absurd (ground (arith, same))
  | inr other ↦ rw other (lookup-unlisted k ks index (ground (arith, other)))
]
