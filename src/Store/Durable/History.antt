-- ===== src/Store/Durable/History.antt =====
-- internal/store/store.go: a sequence of Put, Delete and restarts in which no Compact gets to run, and
-- the map that it makes.
use josefina.Prelude.{ℕ, Bool, none, [], ◌≡◌, refl, arith, inl}
use josefina.Prelude.Eq.{bytes_eq}
use josefina.Prelude.Assoc.{lookup-nil}
use josefina.Store.Result.{ok}
use josefina.Store.Bytes.{Bytes}
use josefina.Store.Segment
use josefina.Store.Segment.{RecordRef, read_at}
use josefina.Store.Rebuild.{
  build_index, rebuild_index, rebuild_segment, scan_loop, scan_record, reset_empty,
}
use josefina.Store.Snapshot.{try_load_snapshot}
use josefina.Store.FileStore.{FileStore}
use josefina.Store.Ops
use josefina.Store.Ops.{put, delete}
use josefina.Store.Open.{returned, open_files, load_segments, load_files, last_active, unloaded}
use josefina.Store.Log.{refs_from, ref_from}
use josefina.Store.Durable.{Durable}

-- A store that is opened in an empty directory.
pub open_files-Durable :
    (max_segment : ℕ) (sync_on_write : Bool)
    → (s : FileStore) × (open_files max_segment sync_on_write [] none ≡ ok s) × Durable s []
unfolding open_files load_segments load_files last_active unloaded Ops.new_segment Ops.close_active
    returned try_load_snapshot build_index rebuild_index rebuild_segment scan_loop scan_record
    reset_empty read_at Segment.new_segment refs_from ref_from
open_files-Durable max_segment sync_on_write = (
  _,
  refl,
  record {
    store = record {
      front = [];
      seg = Segment.new_segment [] 0;
      logs = [];
      es = [];
      shape = record {
        listed = refl;
        at_end = refl;
        old = tt;
        current = record { bytes = refl; writable = tt; counted = refl };
        is_open = refl;
      };
      agrees = λ k. lookup-nil k;
      history = refl;
    };
    distinct = tt;
    counted = omega arith;
    numbered = omega arith;
    saved = inl (refl, refl);
  },
)
