-- ===== src/Store/Iterate/Whole.antt =====
-- getRecords and Iterate of internal/store/store.go, on a store: all ids of the history are visited.
use josefina.Prelude.{
  ℕ, ◌<◌, Bool, true, Option, none, some, List, [], ◌∷◌, ◌++◌, length, map, ◌≡◌, ◌≢◌, refl, ap, ◌∙◌,
  sym, arith, All, inl, inr, if◌then◌else◌, ltb, Bool-cases,
}
use josefina.Prelude.Eq.{bytes_eq}
use josefina.Prelude.Assoc.{lookup, contains, contains-lookup-none}
use josefina.Prelude.Distinct.{Distinct}
use josefina.Store.Result.{Result, ok, ok-injective}
use josefina.Store.Bytes.{Bytes}
use josefina.Store.Segment.{RecordRef}
use josefina.Store.Segment.Codec.{Entry}
use josefina.Store.FileStore.{FileStore}
use josefina.Store.Ops.{get_payload}
use josefina.Store.Log.{value_of, flat, refs_from}
use josefina.Store.Log.Refers.{Refers, refs-Refers}
use josefina.Store.Invariant.{IsStore}
use josefina.Store.Invariant.Reading.{IsQuiet, get_payload-value_of}
use josefina.Store.Durable.Performed.{value_of-absent}
use josefina.Store.Listing.{get_records}
use josefina.Store.Iterate.{Iteration, start, fetch, Steps}
use josefina.Store.Iterate.Counts.{count}
use josefina.Store.Iterate.Keeps.{called}
use josefina.Store.Iterate.Ends.{IsOver}
use josefina.Store.Iterate.Visits.{Steps-called}
use josefina.Store.Iterate.Listed.{
  ids, count-sorted, count-Distinct, lookup-listed, lookup-unlisted, whole_keys, whole,
  get_records-whole,
}

module _ (s : FileStore) (log : List Entry) (v : IsStore s log) (q : All IsQuiet s.segments) where
  -- An id of the index has a payload.
  abbrev HasPayload : Bytes → Type 0
  HasPayload k = (payload : Bytes) × (value_of log k ≡ some payload)

  Refers-payload :
      (logs : List (List Entry)) (k : Bytes) (r : Option RecordRef) (p : Option Bytes)
      → Refers logs k r p
      → r ≢ none
      → (payload : Bytes) × (p ≡ some payload)
  Refers-payload logs k r (some payload) h n = (payload, refl)
  Refers-payload logs k none none h n = absurd (n refl)
  Refers-payload logs k (some ref) none h n = absurd h

  listed_payload : (k : Bytes) → contains k s.index ≡ true → HasPayload k
  listed_payload k c =
      let all = v.logs ++ v.es ∷ [] in
      let (payload, e) =
        Refers-payload all k (refs_from 0 all k none) (value_of (flat all) k) (refs-Refers all k)
          (λ h. absurd (missing (v.agrees k ∙ h))) in
      (payload, ap (λ l. value_of l k) (sym v.history) ∙ e)
    where
      missing : lookup k s.index ≢ none
      missing h = let e = contains-lookup-none k s.index h in absurd (cc)

  pub fetch_found :
      (index : List (Bytes × Option RecordRef)) (fn : Bytes → Bytes → Result Bool) (k : Bytes)
      (payload : Bytes) (r : Option RecordRef)
      → lookup k index ≡ some (lookup k s.index)
      → lookup k s.index ≡ r
      → get_payload s k ≡ ok (some payload)
      → fetch index s.segments fn k ≡ ok (some payload)
  unfolding fetch get_payload
  fetch_found index fn k payload none i h g = let e = rw (h, get_payload) at g in absurd (cc)
  fetch_found index fn k payload (some ref) i h g =
      rw (i ∙ ap some h, fetch) (rw (h, get_payload) at g)

All-follows :
    (P Q : Bytes × Bytes → Type 0) (cs : List (Bytes × Bytes))
    → ((c : Bytes × Bytes) → P c → Q c)
    → All P cs
    → All Q cs
All-follows P Q [] f h = tt
All-follows P Q (c ∷ cs) f h = (f c h.0, All-follows P Q cs f h.1)

-- What getRecords hands to the workers of such a store, and the payloads of its history.
module _ (s : FileStore) (log : List Entry) (asc : Bool) (fn : Bytes → Bytes → Result Bool)
    (index : List (Bytes × Option RecordRef)) (keys : List Bytes) (v : IsStore s log)
    (q : All IsQuiet s.segments) (d : Distinct s.index) (apart : length s.keys ≢ length s.index)
    (records : (get_records s asc 0 0).0 ≡ ok (index, keys)) where
  same_records : ok (index, keys) ≡ whole s asc (whole_keys s asc)
  same_records = sym records ∙ get_records-whole s asc apart

  keys_are : keys ≡ whole_keys s asc
  keys_are = ap (λ p. p.1) (ok-injective same_records)

  index_is : index ≡ map (λ k. (k, lookup k s.index)) keys
  index_is =
      ap (λ p. p.0) (ok-injective same_records)
      ∙ ap (map (λ k. (k, lookup k s.index))) (sym keys_are)

  key_once : (k : Bytes) → count k keys ≡ (if contains k s.index then 1 else 0)
  key_once k = ap (count k) keys_are ∙ count-sorted k asc (ids s.index) ∙ count-Distinct k s.index d

  is_key : (k : Bytes) → 0 < count k keys → contains k s.index ≡ true
  is_key k h = elim (Bool-cases (contains k s.index)) [
    | inl found ↦ found
    | inr missing ↦ absurd (omega (arith, key_once k ∙ ap (λ b. if b then 1 else 0) missing))
  ]

  key_found :
      (k : Bytes)
      → 0 < count k keys
      → (payload : Bytes) × (value_of log k ≡ some payload)
        × (fetch index s.segments fn k ≡ ok (some payload))
  key_found k h =
      let (payload, e) = listed_payload s log v q k (is_key k h) in
      (
        payload,
        e,
        fetch_found s log v q index fn k payload (lookup k s.index)
            (ap (lookup k) index_is ∙ lookup-listed k keys s.index h) refl
            (get_payload-value_of s log k v q ∙ ap ok e),
      )

  fetched_value :
      (c : Bytes × Bytes)
      → fetch index s.segments fn c.0 ≡ ok (some c.1)
      → value_of log c.0 ≡ some c.1
  unfolding fetch
  fetched_value c h = elim (Bool-cases (ltb 0 (count c.0 keys))) [
    | inl is_one ↦ let (payload, e, f) = key_found c.0 (ground arith) in cc
    | inr not_one ↦
        let none_there =
          ap (lookup c.0) index_is ∙ lookup-unlisted c.0 keys s.index (ground arith) in
        let nothing = rw (none_there, fetch) at h in absurd (cc)
  ]

  count-value_of :
      (k : Bytes) → count k keys ≡ elim (value_of log k) [ none ↦ 0 | some payload ↦ 1 ]
  count-value_of k = elim (Bool-cases (contains k s.index)) [
    | inl found ↦
        let (payload, e) = listed_payload s log v q k found in
        key_once k
        ∙ ap (λ b. if b then 1 else 0) found
        ∙ ap (λ (o : Option Bytes). elim o [ none ↦ 0 | some payload ↦ 1 ]) (sym e)
    | inr missing ↦
        key_once k
        ∙ ap (λ b. if b then 1 else 0) missing
        ∙ ap (λ (o : Option Bytes). elim o [ none ↦ 0 | some payload ↦ 1 ])
            (sym (value_of-absent s log k v missing))
  ]

-- Iterate without an offset and a limit on a store all of whose segments are open and written, where
-- the ids are taken from the index and the callback goes on for every id that has a payload: when it
-- has returned, whatever the order of the steps and the number of the workers, it returns no error,
-- and it has called the callback once for every id that the history gives a payload and for no other,
-- each time with that payload.
pub Steps-value_of :
    (s : FileStore) (log : List Entry) (asc : Bool) (fn : Bytes → Bytes → Result Bool)
    (index : List (Bytes × Option RecordRef)) (keys : List Bytes) (workers n : ℕ) (t : Iteration)
    → IsStore s log
    → All IsQuiet s.segments
    → Distinct s.index
    → length s.keys ≢ length s.index
    → ((k payload : Bytes) → value_of log k ≡ some payload → fn k payload ≡ ok true)
    → (get_records s asc 0 0).0 ≡ ok (index, keys)
    → Steps index s.segments fn (start workers keys) n t
    → IsOver t
    → (t.failure ≡ none)
      × ((k : Bytes) → count k (called t) ≡ elim (value_of log k) [ none ↦ 0 | some payload ↦ 1 ])
      × All (λ (c : Bytes × Bytes). value_of log c.0 ≡ some c.1) t.calls
Steps-value_of s log asc fn index keys workers n t v q d apart goes_on records r over =
    let (no_error, counts, fetched) =
      Steps-called index s.segments fn keys fine workers n t r over in
    (
      no_error,
      λ k. counts k ∙ count-value_of s log asc fn index keys v q d apart records k,
      All-follows _ (λ c. value_of log c.0 ≡ some c.1) t.calls
          (fetched_value s log asc fn index keys v q d apart records) fetched,
    )
  where
    fine :
        (k : Bytes)
        → 0 < count k keys
        → (payload : Bytes) × (fetch index s.segments fn k ≡ ok (some payload))
          × (fn k payload ≡ ok true)
    fine k h =
        let (payload, e, f) = key_found s log asc fn index keys v q d apart records k h in
        (payload, f, goes_on k payload e)
