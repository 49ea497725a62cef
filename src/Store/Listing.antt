-- ===== src/Store/Listing.antt =====
-- Keys and getRecords of internal/store/store.go: pages of the sorted ids.
--
-- An offset is a number, as every caller's is; a limit of 0 stands for every limit that is not
-- positive.
pub mod Pages
pub mod Unlisted
use josefina.Prelude.{
  ℕ, zero, suc, ◌+◌, Bool, true, false, Option, none, some, List, [], ◌∷◌, map, length, get_elem?,
  leb, ◌==◌, if◌then◌else◌,
}
use josefina.Prelude.Eq.{bytes_eq}
use josefina.Prelude.Assoc.{lookup}
use mathlib.Core.List.{reverse}
use josefina.Store.Result.{Result, ok, err, panic}
use josefina.Store.Bytes.{Bytes}
use josefina.Store.Segment.{RecordRef}
use josefina.Store.FileStore.{FileStore}
use josefina.Dbs.Helpers.{bytes_lt}

unfoldable pub insert_sorted : Bytes → List Bytes → List Bytes
unfolding bytes_lt
insert_sorted k [] = k ∷ []
insert_sorted k (x ∷ xs) =
    let rest = insert_sorted k xs in if bytes_lt x k then x ∷ rest else k ∷ x ∷ xs

-- sort.Strings
unfoldable pub sort_strings : List Bytes → List Bytes
unfolding insert_sorted
sort_strings [] = []
sort_strings (k ∷ ks) = insert_sorted k (sort_strings ks)

-- sort.Strings, or sort.Sort of sort.Reverse; equal ids are the same.
unfoldable pub sorted : Bool → List Bytes → List Bytes
unfolding sort_strings
sorted true ks = sort_strings ks
sorted false ks = reverse (sort_strings ks)

-- The loop: `limit` rounds that read s.keys[offset]; an index out of range panics.
unfoldable pub page : ℕ → ℕ → List Bytes → Result (List Bytes)
page zero offset ks = ok []
page (suc limit) offset ks =
    let rest = page limit (suc offset) ks in
    elim (get_elem? ks offset) [
      | none ↦ panic
      | some k ↦ elim rest [ ok rest_keys ↦ ok (k ∷ rest_keys) | err e ↦ err e | panic ↦ panic ]
    ]

unfoldable pub page_limit : ℕ → ℕ → ℕ
page_limit n limit = if limit == 0 then n else limit

-- Keys, and the store whose ids it has sorted.
unfoldable pub keys_page : FileStore → Bool → ℕ → ℕ → Result (List Bytes) × FileStore
unfolding page page_limit sorted
keys_page s asc offset limit =
    let n = length s.keys in
    if leb n offset
    then (ok [], s)
    else let ks = sorted asc s.keys in (page (page_limit n limit) offset ks, record s { keys = ks })

-- getRecords: the page of the ids, and the index entries of these.
unfoldable pub get_records :
    FileStore → Bool → ℕ → ℕ → Result (List (Bytes × Option RecordRef) × List Bytes) × FileStore
unfolding page page_limit sorted
get_records s asc offset limit =
    let n = length s.index in
    if leb n offset
    then (ok ([], []), s)
    else let known =
        if n == length s.keys then s.keys else map (λ (p : Bytes × RecordRef). p.0) s.index in
      let ks = sorted asc known in
      (
        elim (page (page_limit n limit) offset ks) [
          | ok found ↦ ok (map (λ k. (k, lookup k s.index)) found, found)
          | err e ↦ err e
          | panic ↦ panic
        ],
        record s { keys = ks },
      )
