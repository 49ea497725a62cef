-- ===== src/Store/Ops.antt =====
-- The operations of internal/store/store.go that append to the log, and the reads by id.
--
-- The calls of the operating system succeed, but for those on a closed file. The locks are not
-- modelled: an operation is one step. The result of json.Marshal and the function json.Unmarshal are
-- arguments.
use josefina.Prelude.{
  ℕ, ◌+◌, ◌-◌, ◌/◌, ◌%◌, ◌^◌, Bool, true, false, Option, none, some, [], ◌∷◌, ◌++◌, map, length,
  get_elem?, set, ltb, if◌then◌else◌,
}
use josefina.Prelude.Eq.{bytes_eq}
use josefina.Prelude.Assoc
use josefina.Store.Result.{Result, ok, err, panic, id_is_required, marshal_failed}
use josefina.Store.Bytes.{Bytes, active, deleted}
use josefina.Store.Segment
use josefina.Store.Segment.{Segment, RecordRef, write_record, read}
use josefina.Store.FileStore.{FileStore, put_called, delete_called, delete_index}
use josefina.Store.Snapshot.{create_snapshot}
use josefina.Store.Exec.{Exec, pure, lift, modify, ◌>>=◌, ◌>>◌}

-- newSegment. `s.active` is nil only in a store that has no segment yet.
unfoldable pub close_active : Option Segment → Exec (Unit {0})
close_active none s = (ok tt, record s { active = length s.segments - 1 })
close_active (some seg) s = elim (Segment.close seg) [
  | ok closed ↦ (
    ok tt,
    record s { segments = set s.segments s.active closed; active = length s.segments - 1 },
  )
  | err e ↦ (err e, s)
  | panic ↦ (panic, s)
]

unfoldable pub new_segment : Exec (Unit {0})
new_segment s =
    close_active (get_elem? s.segments s.active)
      (record s { segments = s.segments ++ Segment.new_segment [] 0 ∷ [] })

-- What the active segment holds, in bytes; a store without one panics.
unfoldable pub active_segment : Exec Segment
active_segment s = elim (get_elem? s.segments s.active) [
  | none ↦ (panic, s)
  | some seg ↦ (ok seg, s)
]

unfoldable pub write_active : Bytes → Bytes → ℕ → Segment → Exec RecordRef
write_active id payload status seg s = elim (write_record seg id payload status) [
  | ok (t, ref) ↦ (
    ok (record ref { segment = length s.segments - 1 }),
    record s { segments = set s.segments s.active t },
  )
  | err e ↦ (err e, s)
  | panic ↦ (panic, s)
]

unfoldable pub sync_active : Exec (Unit {0})
sync_active s =
    if s.sync_on_write
    then (do seg ← active_segment; synced ← lift (Segment.sync seg); pure tt) s
    else (ok tt, s)

-- `int(float64(n) * 0.1)` is n / 10. The goroutine that is started runs by `run_started` of Compact.
unfoldable pub trigger_compact : FileStore → FileStore
trigger_compact s =
    if ltb (length s.index / 10) s.tomb_stones
    then record s { compactions = s.compactions + 1 }
    else s

unfoldable pub rotate : ℕ → ℕ → Exec (Unit {0})
rotate record_size current_size s =
    if ltb s.max_segment (current_size + record_size)
    then (do new_segment; modify create_snapshot) s
    else (ok tt, s)

unfoldable pub append_record : Bytes → Bytes → ℕ → Exec RecordRef
append_record id payload status = do
  let record_size = length id + length payload + 11
  current ← active_segment
  modify (λ s. record s { size = s.size + record_size })
  rotate record_size current.size
  target ← active_segment
  ref ← write_active id payload status target
  sync_active
  modify trigger_compact
  pure ref

-- The map entry, the counters and the callbacks of Put.
unfoldable pub put_index : Bytes → Bytes → RecordRef → FileStore → FileStore
put_index id payload ref s =
    let counted =
      if Assoc.contains id s.index
      then record s { tomb_stones = s.tomb_stones + 1 }
      else record s { wal = (s.wal + 1) % 2 ^ 64 } in
    record counted {
      index = Assoc.insert id ref s.index;
      calls = s.calls ++ map (λ fn. put_called fn id payload) s.on_put;
    }

unfoldable pub put : Bytes → Option Bytes → Exec (Unit {0})
unfolding put_index
put [] marshalled = lift (err id_is_required)
put (c ∷ cs) none = lift (err marshal_failed)
put (c ∷ cs) (some payload) = do
  ref ← append_record (c ∷ cs) payload active
  modify (put_index (c ∷ cs) payload ref)

unfoldable pub delete_found : Bytes → Exec Bool
delete_found id = do
  modify (λ s. record s { tomb_stones = s.tomb_stones + 1 })
  ref ← append_record id [] deleted
  modify (λ s. delete_index s id)
  modify (λ s. record s { calls = s.calls ++ map (λ fn. delete_called fn id) s.on_delete })
  pure true

unfoldable pub delete : Bytes → Exec Bool
unfolding delete_found
delete id s = if Assoc.contains id s.index then delete_found id s else (ok false, s)

unfoldable pub is_exist : FileStore → Bytes → Bool
is_exist s id = Assoc.contains id s.index

-- The payload that Get hands to json.Unmarshal; none where the id is not in the index.
unfoldable pub get_payload : FileStore → Bytes → Result (Option Bytes)
get_payload s id = elim (Assoc.lookup id s.index) [
  | none ↦ ok none
  | some ref ↦ elim (get_elem? s.segments ref.segment) [
    | none ↦ panic
    | some seg ↦ elim (read seg ref) [
      | ok payload ↦ ok (some payload)
      | err e ↦ err e
      | panic ↦ panic
    ]
  ]
]

-- Get, with json.Unmarshal as an argument
unfoldable pub get {ℓ} : {V : Type ℓ} → (Bytes → Result V) → FileStore → Bytes → Result (Option V)
unfolding get_payload
get unmarshal s id = elim (get_payload s id) [
  | ok none ↦ ok none
  | ok (some payload) ↦ elim (unmarshal payload) [
    | ok v ↦ ok (some v)
    | err e ↦ err e
    | panic ↦ panic
  ]
  | err e ↦ err e
  | panic ↦ panic
]

-- Close: a second call panics, as the channel of the segment is closed already.
unfoldable pub close : Exec (Unit {0})
close s = elim (get_elem? s.segments s.active) [
  | none ↦ (ok tt, s)
  | some seg ↦ elim (Segment.close seg) [
    | ok t ↦ (ok tt, record s { segments = set s.segments s.active t })
    | err e ↦ (err e, s)
    | panic ↦ (panic, s)
  ]
]

-- Empty: the files, the segments and the keys stay.
unfoldable pub empty : Exec (Unit {0})
empty = modify (λ s. record s { index = []; wal = 0; tomb_stones = 0 })
