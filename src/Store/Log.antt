-- ===== src/Store/Log.antt =====
-- The specification of a store: a history of records, and the map from ids to payloads that it means.
pub mod Refs
pub mod Refers
use josefina.Prelude.{
  ℕ, suc, ◌+◌, Option, none, some, List, [], ◌∷◌, ◌++◌, length, ◌≡◌, refl, ◌==◌, if◌then◌else◌,
  get_elem?,
}
use josefina.Prelude.Eq.{◌=?◌, bytes_eq}
use josefina.Store.Bytes.{Bytes, active, deleted}
use josefina.Store.Segment.{RecordRef}
use josefina.Store.Segment.Codec.{Entry, encode}

-- What one record makes of the value `v` of the id `k`; `x` is what the record gives to its own id.
unfoldable pub effect {ℓ} : {A : Type ℓ} → Entry → A → Bytes → Option A → Option A
effect e x k v =
    if e.id =? k
    then (if e.status == active then some x else if e.status == deleted then none else v)
    else v

-- The payload of an id after a history that started from `v`.
unfoldable pub value_from : List Entry → Bytes → Option Bytes → Option Bytes
value_from [] k v = v
value_from (e ∷ es) k v = value_from es k (effect e e.payload k v)

-- The map that a history means.
unfoldable pub value_of : List Entry → Bytes → Option Bytes
unfolding value_from
value_of log k = value_from log k none

-- The place of the record that gives an id its value, over one segment, and over all.
unfoldable pub ref_from : ℕ → ℕ → List Entry → Bytes → Option RecordRef → Option RecordRef
ref_from i off [] k v = v
ref_from i off (e ∷ es) k v =
    ref_from i (off + length (encode e)) es k
      (effect e (record { segment = i; offset = off; length = length e.payload }) k v)

unfoldable pub refs_from : ℕ → List (List Entry) → Bytes → Option RecordRef → Option RecordRef
unfolding ref_from
refs_from i [] k v = v
refs_from i (es ∷ logs) k v = refs_from (suc i) logs k (ref_from i 0 es k v)

abbrev pub flat : List (List Entry) → List Entry
flat [] = []
flat (es ∷ logs) = es ++ flat logs
