-- ===== src/Store/Snapshot/RoundTrip.antt =====
-- internal/store/snapshot.go: tryLoadSnapshot on what CreateSnapshot wrote.
use josefina.Prelude.{
  ℕ, zero, suc, ◌+◌, ◌-◌, ◌^◌, ◌≤◌, ◌<◌, true, false, none, some, [], ◌∷◌, ◌++◌, length, take, drop,
  ltb, ◌==◌, if◌then◌else◌, ◌≡◌, refl, sym, ap, ◌∙◌, arith, All, Bool-cases, inl, inr,
  take-length_append, drop-length_append, length-append, append_assoc, append-nil,
}
use josefina.Prelude.Eq.{bytes_eq}
use josefina.Prelude.Assoc.{lookup, lookup-insert}
use josefina.Store.Result.{ok, ok-injective}
use josefina.Store.Bytes.{
  Bytes, checksum, checksum-lt, put_uint16, put_uint32, put_uint64, get_uint16, get_uint32,
  get_uint64, get_uint16-put_uint16, get_uint32-put_uint32, get_uint64-put_uint64,
}
use josefina.Store.Segment.{RecordRef}
use josefina.Store.FileStore.{FileStore, Index, set_index}
use josefina.Store.Snapshot.{
  magic, snapshot_entry, snapshot_entries, snapshot_payload, create_snapshot, read_bytes,
  read_number, load_entries, load_payload, load_snapshot, try_load_snapshot,
}

-- An entry whose numbers fit into the fields of a snapshot.
pub record IsFit (p : Bytes × RecordRef) : Type 0 where
  pub short_id : length p.0 < 2 ^ 16
  pub few_segments : p.1.segment < 2 ^ 32
  pub near : p.1.offset < 2 ^ 63
  pub short_data : p.1.length < 2 ^ 32

-- The entries outside the segment `current`, set in their order.
unfoldable pub reload : ℕ → Index → FileStore → FileStore
reload current [] s = s
reload current ((id, ref) ∷ index) s =
    let rest = reload current index s in
    let set_first = reload current index (set_index s id ref.segment ref.offset ref.length) in
    if ref.segment == current then rest else set_first

-- How many entries are in the segment `current`.
unfoldable pub left_out : ℕ → Index → ℕ
left_out current [] = 0
left_out current ((id, ref) ∷ index) =
    let rest = left_out current index in if ref.segment == current then suc rest else rest

-- `n` times an entry of the empty id at the start of the first segment.
unfoldable pub phantoms : ℕ → FileStore → FileStore
phantoms zero s = s
phantoms (suc n) s = phantoms n (set_index s [] 0 0 0)

read_uint16 :
    (v : ℕ) (rest : Bytes)
    → v < 2 ^ 16
    → read_number get_uint16 2 (put_uint16 v ++ rest) ≡ (v, rest)
unfolding read_number put_uint16
read_uint16 v rest h = ground (arith, get_uint16-put_uint16 v [] h)

read_uint32 :
    (v : ℕ) (rest : Bytes)
    → v < 2 ^ 32
    → read_number get_uint32 4 (put_uint32 v ++ rest) ≡ (v, rest)
unfolding read_number put_uint32
read_uint32 v rest h = ground (arith, get_uint32-put_uint32 v [] h)

read_uint64 :
    (v : ℕ) (rest : Bytes)
    → v < 2 ^ 64
    → read_number get_uint64 8 (put_uint64 v ++ rest) ≡ (v, rest)
unfolding read_number put_uint64
read_uint64 v rest h = ground (arith, get_uint64-put_uint64 v [] h)

read_id : (id rest : Bytes) → read_bytes (length id) (id ++ rest) ≡ (id, rest)
unfolding read_bytes
read_id id rest = rw (
  take-length_append id rest (length id) refl,
  drop-length_append id rest (length id) refl,
  none_missing,
  append-nil,
)
  where
    none_missing : length id - length (id ++ rest) ≡ 0
    none_missing = omega (arith, length-append id rest)

left_out-le : (current : ℕ) (index : Index) → left_out current index ≤ length index
unfolding left_out
left_out-le current [] = omega arith
left_out-le current ((id, ref) ∷ index) = ground (arith, left_out-le current index)

-- One round of the loop, from what its five reads yield.
load_entries-step :
    (n id_len seg_index offset data_len : ℕ) (id buf buf1 buf2 buf3 buf4 buf5 : Bytes)
    (s : FileStore)
    → read_number get_uint16 2 buf ≡ (id_len, buf1)
    → read_bytes id_len buf1 ≡ (id, buf2)
    → read_number get_uint32 4 buf2 ≡ (seg_index, buf3)
    → read_number get_uint64 8 buf3 ≡ (offset, buf4)
    → read_number get_uint32 4 buf4 ≡ (data_len, buf5)
    → load_entries (suc n) buf s ≡ load_entries n buf5 (set_index s id seg_index offset data_len)
unfolding load_entries read_bytes
load_entries-step n id_len seg_index offset data_len id buf buf1 buf2 buf3 buf4 buf5 s a b c d e =
    rw (a, ap (λ p. p.0) b, ap (λ p. p.1) b, c, d, e) refl

snapshot_entry-append :
    (id : Bytes) (ref : RecordRef) (rest : Bytes)
    → snapshot_entry id ref ++ rest
      ≡ put_uint16 (length id)
        ++ (id
            ++ (put_uint32 ref.segment
                ++ (put_uint64 ref.offset ++ (put_uint32 ref.length ++ rest))))
unfolding snapshot_entry
snapshot_entry-append id ref rest = simp append_assoc

load_entries-entry :
    (n : ℕ) (id : Bytes) (ref : RecordRef) (rest : Bytes) (s : FileStore)
    → IsFit (id, ref)
    → load_entries (suc n) (snapshot_entry id ref ++ rest) s
      ≡ load_entries n rest (set_index s id ref.segment ref.offset ref.length)
load_entries-entry n id ref rest s h =
    ap (λ b. load_entries (suc n) b s) (snapshot_entry-append id ref rest)
    ∙ load_entries-step n (length id) ref.segment ref.offset ref.length id _ _ _ _ _ rest s
        (read_uint16 (length id) _ h.short_id) (read_id id _)
        (read_uint32 ref.segment _ h.few_segments)
        (read_uint64 ref.offset _ (omega (arith, h.near)))
        (read_uint32 ref.length rest h.short_data)

load_entries-phantoms : (n : ℕ) (s : FileStore) → load_entries n [] s ≡ phantoms n s
unfolding load_entries read_number read_bytes phantoms
load_entries-phantoms zero s = refl
load_entries-phantoms (suc n) s = load_entries-phantoms n (set_index s [] 0 0 0)

-- A round on an entry that is not left out, where the rounds after it are known.
load_entries-kept :
    (current : ℕ) (index : Index) (id : Bytes) (ref : RecordRef) (n m : ℕ) (s : FileStore)
    → IsFit (id, ref)
    → n + left_out current index ≡ suc (length index) + m
    → ((k : ℕ)
        → k + left_out current index ≡ length index + m
        → load_entries k
            (snapshot_entries current index)
            (set_index s id ref.segment ref.offset ref.length)
          ≡ phantoms m (reload current index (set_index s id ref.segment ref.offset ref.length)))
    → load_entries n (snapshot_entry id ref ++ snapshot_entries current index) s
      ≡ phantoms m (reload current index (set_index s id ref.segment ref.offset ref.length))
load_entries-kept current index id ref zero m s h q rest =
    absurd (omega (arith, left_out-le current index))
load_entries-kept current index id ref (suc n) m s h q rest =
    load_entries-entry n id ref (snapshot_entries current index) s h ∙ rest n (omega arith)

-- What the loop does with the entries that CreateSnapshot wrote, and with the rounds that are left.
load_entries-snapshot_entries :
    (current : ℕ) (index : Index) (n m : ℕ) (s : FileStore)
    → All IsFit index
    → n + left_out current index ≡ length index + m
    → load_entries n (snapshot_entries current index) s ≡ phantoms m (reload current index s)
unfolding snapshot_entries reload left_out
load_entries-snapshot_entries current [] n m s _ e =
    ap (λ k. load_entries k [] s) count ∙ load_entries-phantoms m s
  where
    count : n ≡ m
    count = omega arith
load_entries-snapshot_entries current ((id, ref) ∷ index) n m s (h, hs) e =
    elim (Bool-cases (ref.segment == current)) [
      | inl here ↦
          rw here (
            load_entries-snapshot_entries current index n m s hs (omega (arith, counted_here here)))
      | inr there ↦ rw there (
          load_entries-kept current index id ref n m s h
            (ap (λ k. n + k) (sym (counted_there there)) ∙ e)
            (λ k q. load_entries-snapshot_entries current index k m _ hs q))
    ]
  where
    counted_here :
        ref.segment == current ≡ true
        → left_out current ((id, ref) ∷ index) ≡ suc (left_out current index)
    counted_here c = rw c

    counted_there :
        ref.segment == current ≡ false
        → left_out current ((id, ref) ∷ index) ≡ left_out current index
    counted_there c = rw c

-- The first bytes of a snapshot: the entries follow them.
load_payload-snapshot_payload :
    (s t : FileStore)
    → length s.index < 2 ^ 64
    → load_payload (snapshot_payload s) t
      ≡ ok (
          load_entries
            (length s.index)
            (snapshot_entries (length s.segments - 1) s.index)
            (record t { index = [] }))
unfolding load_payload snapshot_payload
load_payload-snapshot_payload s t h =
    let entries = snapshot_entries (length s.segments - 1) s.index in
    let count = put_uint64 (length s.index) in
    rw
      (
        read_id magic (put_uint16 1 ++ (count ++ entries)),
        read_uint16 1 (count ++ entries) (omega arith),
        read_uint64 (length s.index) entries h,
      )
      refl

load_snapshot-checked :
    (payload : Bytes) (t : FileStore)
    → 6 ≤ length payload
    → load_snapshot (payload ++ put_uint32 (checksum payload)) t ≡ load_payload payload t
unfolding load_snapshot
load_snapshot-checked payload t h = rw (long, cut_front, cut_back, crc_back) (ground arith)
  where
    total : length (payload ++ put_uint32 (checksum payload)) ≡ length payload + 4
    total = length-append payload (put_uint32 (checksum payload)) ∙ unfold put_uint32 in refl

    long : ltb (length (payload ++ put_uint32 (checksum payload))) 10 ≡ false
    long = ground (arith, total)

    crc_back : get_uint32 (put_uint32 (checksum payload)) ≡ checksum payload
    crc_back =
        ap get_uint32 (sym (append-nil (put_uint32 (checksum payload))))
        ∙ get_uint32-put_uint32 (checksum payload) [] (checksum-lt payload)

    cut_front :
        take
          (length (payload ++ put_uint32 (checksum payload)) - 4)
          (payload ++ put_uint32 (checksum payload))
        ≡ payload
    cut_front = take-length_append payload (put_uint32 (checksum payload)) _ (omega (arith, total))

    cut_back :
        drop
          (length (payload ++ put_uint32 (checksum payload)) - 4)
          (payload ++ put_uint32 (checksum payload))
        ≡ put_uint32 (checksum payload)
    cut_back = drop-length_append payload (put_uint32 (checksum payload)) _ (omega (arith, total))

long_payload : (u : FileStore) → 6 ≤ length (snapshot_payload u)
unfolding snapshot_payload put_uint16
long_payload u = omega arith

-- What a store loads from the snapshot of another.
pub try_load_snapshot-Taken :
    (u t : FileStore)
    → t.snapshot ≡ (create_snapshot u).snapshot
    → All IsFit u.index
    → length u.index < 2 ^ 64
    → try_load_snapshot t
      ≡ ok (
          phantoms
            (left_out (length u.segments - 1) u.index)
            (reload (length u.segments - 1) u.index (record t { index = [] })))
unfolding try_load_snapshot create_snapshot
try_load_snapshot-Taken u t taken fits h =
    ap (λ content. elim content [ none ↦ ok t | some bytes ↦ load_snapshot bytes t ]) taken
    ∙ load_snapshot-checked (snapshot_payload u) t (long_payload u)
    ∙ load_payload-snapshot_payload u t h
    ∙ ap ok (
        load_entries-snapshot_entries (length u.segments - 1) u.index (length u.index)
          (left_out (length u.segments - 1) u.index) _ fits refl)

-- A snapshot that has just been written, of an index with entries that fit into it, is loaded: the
-- index is that of the entries outside the last segment, and the empty id, once for every entry that
-- was left out.
pub try_load_snapshot-create_snapshot :
    (s : FileStore)
    → All IsFit s.index
    → length s.index < 2 ^ 64
    → try_load_snapshot (create_snapshot s)
      ≡ ok (
          phantoms
            (left_out (length s.segments - 1) s.index)
            (reload (length s.segments - 1) s.index (record (create_snapshot s) { index = [] })))
try_load_snapshot-create_snapshot s = try_load_snapshot-Taken s (create_snapshot s) refl

lookup-set_empty :
    (s : FileStore)
    → lookup [] (set_index s [] 0 0 0).index ≡ some (record { segment = 0; offset = 0; length = 0 })
unfolding set_index
lookup-set_empty s = lookup-insert [] [] (record { segment = 0; offset = 0; length = 0 }) s.index

lookup-phantoms :
    (n : ℕ) (s : FileStore)
    → lookup [] s.index ≡ some (record { segment = 0; offset = 0; length = 0 })
    → lookup [] (phantoms n s).index ≡ some (record { segment = 0; offset = 0; length = 0 })
unfolding phantoms
lookup-phantoms zero s h = h
lookup-phantoms (suc n) s h = lookup-phantoms n (set_index s [] 0 0 0) (lookup-set_empty s)

lookup-phantoms_positive :
    (n : ℕ) (s : FileStore)
    → 0 < n
    → lookup [] (phantoms n s).index ≡ some (record { segment = 0; offset = 0; length = 0 })
unfolding phantoms
lookup-phantoms_positive zero s h = absurd (omega arith)
lookup-phantoms_positive (suc n) s h = lookup-phantoms n (set_index s [] 0 0 0) (lookup-set_empty s)

-- If an entry of the index is in the last segment when the snapshot is written, the index that is
-- loaded from it has an entry of the empty id.
pub lookup-try_load_snapshot_empty :
    (s t : FileStore)
    → All IsFit s.index
    → length s.index < 2 ^ 64
    → 0 < left_out (length s.segments - 1) s.index
    → try_load_snapshot (create_snapshot s) ≡ ok t
    → lookup [] t.index ≡ some (record { segment = 0; offset = 0; length = 0 })
lookup-try_load_snapshot_empty s t fits h some_left e =
    ap (λ u. lookup [] u.index) (ok-injective (sym e ∙ try_load_snapshot-create_snapshot s fits h))
    ∙ lookup-phantoms_positive _ _ some_left
