-- ===== src/Store/Listing/Unlisted.antt =====
-- internal/store/store.go: Put and the ids that Keys lists.
use josefina.Prelude.{
  ℕ, ◌+◌, Bool, true, false, Option, some, none, [], ◌∷◌, ◌≡◌, refl, ◌∙◌, arith, inl, inr,
  Option-cases, get_elem?, length, if◌then◌else◌,
}
use josefina.Prelude.Eq.{bytes_eq}
use josefina.Store.Result.{Result, ok, err, panic, Result-cases}
use josefina.Store.Bytes.{Bytes, active}
use josefina.Store.Segment
use josefina.Store.Segment.{Segment, RecordRef, write_record}
use josefina.Store.FileStore.{FileStore}
use josefina.Store.Snapshot.{create_snapshot}
use josefina.Store.Exec.{Exec, pure, lift, modify, continue, ◌>>=◌, ◌>>◌}
use josefina.Store.Ops.{
  close_active, new_segment, active_segment, write_active, sync_active, trigger_compact, rotate,
  append_record, put_index, put,
}

-- A step that leaves the list of the ids as it was, whatever its result.
record KeepsKeys {ℓ} {A : Type ℓ} (m : Exec A) : Type ℓ where
  at : (s : FileStore) → (m s).1.keys ≡ s.keys

KeepsKeys-continue {ℓ κ} :
    {A : Type ℓ} {B : Type κ} (r : Result A) (f : A → Exec B) (s : FileStore)
    → ((a : A) → KeepsKeys (f a))
    → (continue r f s).1.keys ≡ s.keys
KeepsKeys-continue (ok a) f s h = (h a).at s
KeepsKeys-continue (err e) f s h = refl
KeepsKeys-continue panic f s h = refl

KeepsKeys-bind {ℓ κ} :
    {A : Type ℓ} {B : Type κ} (m : Exec A) (f : A → Exec B)
    → KeepsKeys m
    → ((a : A) → KeepsKeys (f a))
    → KeepsKeys (m >>= f)
KeepsKeys-bind m f k h = record { at = λ s. KeepsKeys-continue (m s).0 f (m s).1 h ∙ k.at s }

active_segment-KeepsKeys : KeepsKeys active_segment
unfolding active_segment
active_segment-KeepsKeys = record {
  at = λ s. elim (Option-cases (get_elem? s.segments s.active)) [
    | inl e ↦ rw (e, active_segment) refl
    | inr (seg, e) ↦ rw (e, active_segment) refl
  ];
}

close_active-KeepsKeys : (o : Option Segment) → KeepsKeys (close_active o)
unfolding close_active
close_active-KeepsKeys none = record { at = λ s. refl }
close_active-KeepsKeys (some seg) = record {
  at = λ s. elim (Result-cases (josefina.Store.Segment.close seg)) [
    | inl (a, e) ↦ rw (e, close_active) refl
    | inr (inl (a, e)) ↦ rw (e, close_active) refl
    | inr (inr e) ↦ rw (e, close_active) refl
  ];
}

new_segment-KeepsKeys : KeepsKeys new_segment
unfolding new_segment
new_segment-KeepsKeys = record {
  at = λ s. (close_active-KeepsKeys (get_elem? s.segments s.active)).at _;
}

keys-if {ℓ} :
    {A : Type ℓ} (b : Bool) (x y : A × FileStore) (s : FileStore)
    → x.1.keys ≡ s.keys
    → y.1.keys ≡ s.keys
    → (if b then x else y).1.keys ≡ s.keys
keys-if true x y s p q = p
keys-if false x y s p q = q

rotate-KeepsKeys : (n m : ℕ) → KeepsKeys (rotate n m)
unfolding rotate create_snapshot
rotate-KeepsKeys n m = record {
  at = λ s.
      keys-if _ ((new_segment >> modify create_snapshot) s) (ok tt, s) s
        ((KeepsKeys-bind new_segment (λ _. modify create_snapshot) new_segment-KeepsKeys
            (λ _. record { at = λ t. refl })).at
          s)
        refl;
}

write_active-KeepsKeys :
    (id payload : Bytes) (status : ℕ) (seg : Segment)
    → KeepsKeys (write_active id payload status seg)
unfolding write_active
write_active-KeepsKeys id payload status seg = record {
  at = λ s. elim (Result-cases (write_record seg id payload status)) [
    | inl ((t, ref), e) ↦ rw (e, write_active) refl
    | inr (inl (a, e)) ↦ rw (e, write_active) refl
    | inr (inr e) ↦ rw (e, write_active) refl
  ];
}

sync_active-KeepsKeys : KeepsKeys sync_active
unfolding sync_active
sync_active-KeepsKeys = record {
  at = λ s.
      keys-if _ _ (ok tt, s) s
        ((KeepsKeys-bind active_segment _ active_segment-KeepsKeys (λ seg.
            KeepsKeys-bind (lift (josefina.Store.Segment.sync seg)) _ (record { at = λ t. refl })
              (λ _. record { at = λ t. refl }))).at
          s)
        refl;
}

keys-trigger_compact : (s : FileStore) → (trigger_compact s).keys ≡ s.keys
unfolding trigger_compact
keys-trigger_compact s = ground arith

append_record-KeepsKeys :
    (id payload : Bytes) (status : ℕ) → KeepsKeys (append_record id payload status)
unfolding append_record
append_record-KeepsKeys id payload status =
    let n = length id + length payload + 11 in
    KeepsKeys-bind active_segment _ active_segment-KeepsKeys (λ current.
      KeepsKeys-bind (modify (λ s. record s { size = s.size + n })) _ (record { at = λ s. refl })
        (λ _. KeepsKeys-bind (rotate n current.size) _ (rotate-KeepsKeys n current.size) (λ _.
          KeepsKeys-bind active_segment _ active_segment-KeepsKeys (λ target.
            KeepsKeys-bind (write_active id payload status target) _
              (write_active-KeepsKeys id payload status target)
              (λ ref. KeepsKeys-bind sync_active _ sync_active-KeepsKeys (λ _.
                KeepsKeys-bind (modify trigger_compact) (λ _. pure ref)
                  (record { at = keys-trigger_compact }) (λ _. record { at = λ s. refl })))))))

keys-put_index :
    (id payload : Bytes) (ref : RecordRef) (s : FileStore)
    → (put_index id payload ref s).keys ≡ s.keys
unfolding put_index
keys-put_index id payload ref s = ground arith

-- Put, whatever it answers, leaves the list of ids from which Keys takes its pages as it was.
pub keys-put :
    (id : Bytes) (marshalled : Option Bytes) (s : FileStore) → (put id marshalled s).1.keys ≡ s.keys
unfolding put
keys-put [] marshalled s = refl
keys-put (c ∷ cs) none s = refl
keys-put (c ∷ cs) (some payload) s =
    (KeepsKeys-bind (append_record (c ∷ cs) payload active) _
        (append_record-KeepsKeys (c ∷ cs) payload active)
        (λ ref. record { at = keys-put_index (c ∷ cs) payload ref })).at
      s
