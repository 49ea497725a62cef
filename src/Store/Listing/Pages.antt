-- ===== src/Store/Listing/Pages.antt =====
-- internal/store/store.go: the pages that Keys yields.
use josefina.Prelude.{
  ℕ, zero, suc, ◌+◌, ◌≤◌, ◌<◌, Bool, true, false, none, some, List, [], ◌∷◌, length, get_elem?,
  take, drop, ◌≡◌, refl, ap, ◌∙◌, arith, Option-cases, inl, inr, leb, length-append,
}
use mathlib.Core.List.{reverse, reverse-cons}
use josefina.Store.Result.{ok, panic}
use josefina.Store.Bytes.{Bytes}
use josefina.Store.FileStore.{FileStore}
use josefina.Store.Listing.{insert_sorted, sort_strings, sorted, page, page_limit, keys_page}

length-insert_sorted : (k : Bytes) (ks : List Bytes) → length (insert_sorted k ks) ≡ length ks + 1
unfolding insert_sorted
length-insert_sorted k [] = refl
length-insert_sorted k (x ∷ xs) = ground (arith, length-insert_sorted k xs)

length-sort_strings : (ks : List Bytes) → length (sort_strings ks) ≡ length ks
unfolding sort_strings
length-sort_strings [] = refl
length-sort_strings (k ∷ ks) =
    length-insert_sorted k (sort_strings ks)
    ∙ ap (λ n. n + 1) (length-sort_strings ks)
    ∙ (omega arith)

length-reverse : (ks : List Bytes) → length (reverse ks) ≡ length ks
length-reverse [] = refl
length-reverse (k ∷ ks) =
    ap length (reverse-cons k ks)
    ∙ omega (arith, length-append (reverse ks) (k ∷ []), length-reverse ks)

pub length-sorted : (asc : Bool) (ks : List Bytes) → length (sorted asc ks) ≡ length ks
unfolding sorted
length-sorted true ks = length-sort_strings ks
length-sorted false ks = length-reverse (sort_strings ks) ∙ length-sort_strings ks

get_elem?-drop :
    (ks : List Bytes) (i : ℕ)
    → i < length ks
    → (k : Bytes) × (get_elem? ks i ≡ some k) × (drop i ks ≡ k ∷ drop (suc i) ks)
get_elem?-drop [] i h = absurd (omega arith)
get_elem?-drop (k ∷ ks) zero h = (k, refl, refl)
get_elem?-drop (k ∷ ks) (suc i) h = get_elem?-drop ks i (omega arith)

get_elem?-none : (ks : List Bytes) (i : ℕ) → length ks ≤ i → get_elem? ks i ≡ none
get_elem?-none [] i h = refl
get_elem?-none (k ∷ ks) zero h = absurd (omega arith)
get_elem?-none (k ∷ ks) (suc i) h = get_elem?-none ks i (omega arith)

pub page-take :
    (n i : ℕ) (ks : List Bytes) → i + n ≤ length ks → page n i ks ≡ ok (take n (drop i ks))
unfolding page
page-take zero i ks h = refl
page-take (suc n) i ks h =
    let (k, e, d) = get_elem?-drop ks i (omega arith) in
    rw (page, e, page-take n (suc i) ks (omega arith), d) refl

page-panic : (n i : ℕ) (ks : List Bytes) → 0 < n → length ks < i + n → page n i ks ≡ panic
unfolding page
page-panic zero i ks z h = absurd (omega arith)
page-panic (suc zero) i ks z h = rw (page, get_elem?-none ks i (omega arith)) refl
page-panic (suc (suc n)) i ks z h = elim (Option-cases (get_elem? ks i)) [
  | inl e ↦ rw (page, e) refl
  | inr (k, e) ↦ rw (page, e, page-panic (suc n) (suc i) ks (omega arith) (omega arith)) refl
]

-- Keys at an offset and with a positive limit that end inside the ids yields that part of the sorted
-- ids.
pub keys_page-take :
    (s : FileStore) (asc : Bool) (offset limit : ℕ)
    → 0 < limit
    → offset + limit ≤ length s.keys
    → (keys_page s asc offset limit).0 ≡ ok (take limit (drop offset (sorted asc s.keys)))
unfolding keys_page page_limit
keys_page-take s asc offset limit z h =
    rw (outside, positive)
      (page-take limit offset (sorted asc s.keys) (omega (arith, length-sorted asc s.keys)))
  where
    outside : leb (length s.keys) offset ≡ false
    outside = ground arith

    positive : page_limit (length s.keys) limit ≡ limit
    positive = ground arith

-- Keys panics at an offset inside the ids and with a positive limit that reaches beyond their end.
pub keys_page-panic :
    (s : FileStore) (asc : Bool) (offset limit : ℕ)
    → offset < length s.keys
    → length s.keys < offset + limit
    → (keys_page s asc offset limit).0 ≡ panic
unfolding keys_page page_limit
keys_page-panic s asc offset limit i h =
    rw (outside, positive)
      (page-panic limit offset (sorted asc s.keys) (omega arith)
        (omega (arith, length-sorted asc s.keys)))
  where
    outside : leb (length s.keys) offset ≡ false
    outside = ground arith

    positive : page_limit (length s.keys) limit ≡ limit
    positive = ground arith
