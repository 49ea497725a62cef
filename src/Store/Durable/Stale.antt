-- ===== src/Store/Durable/Stale.antt =====
-- Compact of internal/store/compact.go followed by open of internal/store/store.go.
use josefina.Prelude.{ℕ, Bool, none, List, length, ◌≡◌, ap, ◌∙◌, sym, arith, All}
use josefina.Prelude.Eq.{bytes_eq}
use josefina.Prelude.Assoc.{lookup}
use josefina.Store.Result.{Result, ok, err, panic, ◌>>=◌, ok-injective}
use josefina.Store.Bytes.{Bytes}
use josefina.Store.Segment.Codec.{Entry}
use josefina.Store.FileStore.{FileStore}
use josefina.Store.Rebuild.{build_index, reset_empty}
use josefina.Store.Rebuild.Scan.{replay_segment}
use josefina.Store.Snapshot.{try_load_snapshot}
use josefina.Store.Open.{open_files}
use josefina.Store.Log.{refs_from, ref_from, value_of}
use josefina.Store.Log.Refs.{lookup-replay_segment}
use josefina.Store.Invariant.{IsStore}
use josefina.Store.Invariant.Append.{Shape-same}
use josefina.Store.Invariant.Reading.{IsQuiet}
use josefina.Store.Invariant.Recovery.{lookup-reset_empty}
use josefina.Store.Compact.{Compaction, compact, copy_all, compact_keys, swap}
use josefina.Store.Compact.Loop.{IsShort}
use josefina.Store.Compact.Refines.{compact-IsStore}
use josefina.Store.Durable.{Durable, reopen}
use josefina.Store.Durable.Files.{loaded}
use josefina.Store.Durable.Fits.{IsBounded}
use josefina.Store.Durable.Reopen.{preload, build_index-last, AllLogged-IsWritable, IsBounded-front}

swap-snapshot :
    (s t : FileStore) (r : Result Compaction)
    → (do c ← r; ok (swap (compact_keys s) c s)) ≡ ok t
    → t.snapshot ≡ s.snapshot
unfolding swap
swap-snapshot s t (ok c) h = ap (λ u. u.snapshot) (sym (ok-injective h))
swap-snapshot s t (err e) h = absurd (cc)
swap-snapshot s t panic h = absurd (cc)

compact-snapshot : (s t : FileStore) → compact s ≡ ok t → t.snapshot ≡ s.snapshot
unfolding compact
compact-snapshot s t h = swap-snapshot s t (copy_all s) h

-- What open makes of a well-formed store whose snapshot is that of another: the references of the
-- snapshot, changed by the records of the last segment.
stale_index :
    (s t : FileStore) (log live : List Entry) (max_segment : ℕ) (sync_on_write : Bool)
    (d : Durable s log) (v : IsStore t live)
    → IsBounded log
    → t.snapshot ≡ s.snapshot
    → (r : FileStore) × (reopen max_segment sync_on_write t ≡ ok r)
      × ((k : Bytes)
          → lookup k r.index ≡ ref_from (length v.logs) 0 v.es k (refs_from 0 d.store.logs k none))
unfolding reopen open_files
stale_index s t log live max_segment sync_on_write d v b kept =
    let w = d.store in
    let (l, load, h, index, snapshot) =
      loaded max_segment sync_on_write t v.front v.seg v.logs v.es v.shape in
    let b' = IsBounded-front w.logs w.es log w.history b in
    let (p, pre, (same, distinct, counted, agrees)) =
      preload l s.snapshot w.logs index (snapshot ∙ kept) d.saved (omega (arith, d.numbered, b.few))
        b'.few b'.short (AllLogged-IsWritable w.front w.logs w.shape.old) in
    (
      replay_segment (length v.logs) 0 v.es (reset_empty p),
      ap (λ m. m >>= λ loaded. do indexed ← try_load_snapshot loaded; build_index indexed) load
          ∙ ap (λ m. m >>= build_index) pre
          ∙ build_index-last p v.front v.seg v.logs v.es (Shape-same same.0 same.1 h),
      λ k.
          lookup-replay_segment v.es (length v.logs) 0 (reset_empty p) k
          ∙ ap (ref_from (length v.logs) 0 v.es k) (lookup-reset_empty p k ∙ agrees k),
    )

-- Compact followed by a restart, on a store that can be opened again, with all of its segments open and
-- written and ids below 65525 bytes: both succeed, and the history that Compact leaves gives every
-- id the payload that it had; but the index after the restart has the references into the segments
-- before Compact, all but the last, changed only by the records of the last segment that Compact made.
-- The history has fewer than 2^31 records, of less than 2^63 bytes.
pub reopen-compact :
    (s : FileStore) (log : List Entry) (max_segment : ℕ) (sync_on_write : Bool) (d : Durable s log)
    → IsBounded log
    → All IsQuiet s.segments
    → All IsShort s.index
    → (t : FileStore) × (r : FileStore) × (live : List Entry) × (v : IsStore t live) × (compact s
        ≡ ok t)
      × (reopen max_segment sync_on_write t ≡ ok r)
      × ((k : Bytes) → value_of live k ≡ value_of log k)
      × ((k : Bytes)
          → lookup k r.index ≡ ref_from (length v.logs) 0 v.es k (refs_from 0 d.store.logs k none))
reopen-compact s log max_segment sync_on_write d b q short =
    let (t, live, done, v, means) = compact-IsStore s log d.store q short in
    let (r, again, stale) =
      stale_index s t log live max_segment sync_on_write d v b (compact-snapshot s t done) in
    (t, r, live, v, done, again, means, stale)
