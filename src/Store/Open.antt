-- ===== src/Store/Open.antt =====
-- loadSegments and open of internal/store/store.go: a store from its files.
--
-- `files` are the contents of the data files in the order of their names, and `snapshot` is the content
-- of the snapshot, if there is one. `max_segment`, in bytes, and `sync_on_write` are what the
-- environment gives. The directories are there, and the names and paths are left out.
use josefina.Prelude.{ℕ, ◌+◌, ◌-◌, Bool, Option, List, [], ◌∷◌, ◌++◌, length}
use josefina.Store.Result.{Result, ok, err, panic, ◌>>=◌}
use josefina.Store.Bytes.{Bytes}
use josefina.Store.Segment
use josefina.Store.FileStore.{FileStore}
use josefina.Store.Ops
use josefina.Store.Rebuild.{build_index}
use josefina.Store.Snapshot.{try_load_snapshot}

unfoldable pub load_files : List Bytes → FileStore → FileStore
load_files [] s = s
load_files (content ∷ files) s = load_files files (record s {
  segments = s.segments ++ Segment.new_segment content (length content) ∷ [];
  size = s.size + length content;
})

-- What is left of a call that has succeeded
unfoldable pub returned : Result (Unit {0}) × FileStore → Result FileStore
returned (ok a, s) = ok s
returned (err e, s) = err e
returned (panic, s) = panic

unfoldable pub last_active : FileStore → Result FileStore
unfolding returned
last_active s = elim s.segments [
  | [] ↦ returned (Ops.new_segment s)
  | (seg ∷ segs) ↦ ok (record s { active = length (seg ∷ segs) - 1 })
]

unfoldable pub load_segments : List Bytes → FileStore → Result FileStore
unfolding load_files last_active
load_segments files s = last_active (load_files files s)

unfoldable pub unloaded : ℕ → Bool → Option Bytes → FileStore
unloaded max_segment sync_on_write snapshot = record {
  wal = 0;
  tomb_stones = 0;
  max_segment = max_segment;
  sync_on_write = sync_on_write;
  size = 0;
  segments = [];
  active = 0;
  index = [];
  keys = [];
  snapshot = snapshot;
  on_put = [];
  on_delete = [];
  compactions = 0;
  calls = [];
}

unfoldable pub open_files : ℕ → Bool → List Bytes → Option Bytes → Result FileStore
unfolding load_segments unloaded
open_files max_segment sync_on_write files snapshot = do
  loaded ← load_segments files (unloaded max_segment sync_on_write snapshot)
  indexed ← try_load_snapshot loaded
  build_index indexed
