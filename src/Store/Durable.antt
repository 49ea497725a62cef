-- ===== src/Store/Durable.antt =====
-- internal/store: what keeps the data of a store over a restart. The files and the snapshot on the disk
-- mean the history, and open finds it there.
pub mod Loaded
pub mod Fits
pub mod Files
pub mod Reopen
pub mod Steps
pub mod Stale
pub mod Actions
pub mod Performed
pub mod History
use josefina.Prelude.{ℕ, suc, ◌≤◌, ◌⊎◌, Bool, Option, none, List, [], length, map, ◌≡◌}
use josefina.Prelude.Eq.{bytes_eq}
use josefina.Prelude.Assoc.{lookup}
use josefina.Prelude.Distinct.{Distinct}
use josefina.Store.Bytes.{Bytes}
use josefina.Store.Result.{Result}
use josefina.Store.Segment.{Segment, loop}
use josefina.Store.Segment.Codec.{Entry}
use josefina.Store.FileStore.{FileStore}
use josefina.Store.Snapshot.{create_snapshot}
use josefina.Store.Open.{open_files}
use josefina.Store.Log.{refs_from, flat}
use josefina.Store.Invariant.{IsStore}

-- The state in which a snapshot was taken: its index is that of the records `logs`, which are all of
-- the records outside the last segment.
pub record Taken (u : FileStore) (logs : List (List Entry)) : Type 0 where
  pub numbered : length u.segments ≡ suc (length logs)
  pub distinct : Distinct u.index
  pub agrees : (k : Bytes) → lookup k u.index ≡ refs_from 0 logs k none
  pub counted : length u.index ≤ length (flat logs)

-- The snapshot of a store that holds `logs` outside its last segment: a store of one segment has
-- none, any other the one that was taken when the last segment was made.
abbrev pub IsSaved : Option Bytes → List (List Entry) → Type 0
IsSaved content logs =
    ((content ≡ none) × (logs ≡ []))
    ⊎ ((u : FileStore) × (content ≡ (create_snapshot u).snapshot) × Taken u logs)

-- A store that can be opened again from its files.
pub record Durable (s : FileStore) (log : List Entry) : Type 0 where
  pub store : IsStore s log
  pub distinct : Distinct s.index
  pub counted : length s.index ≤ length log
  pub numbered : length store.logs ≤ length log
  pub saved : IsSaved s.snapshot store.logs

-- The content of the file of a segment once the goroutine has written what it holds.
abbrev pub on_disk : Segment → Bytes
on_disk seg = (loop seg).file

-- The process ends when the goroutines have written, and open is called on the files it leaves.
unfoldable pub reopen : ℕ → Bool → FileStore → Result FileStore
unfolding loop
reopen max_segment sync_on_write s =
    open_files max_segment sync_on_write (map on_disk s.segments) s.snapshot
