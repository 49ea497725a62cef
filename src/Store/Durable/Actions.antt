-- ===== src/Store/Durable/Actions.antt =====
-- internal/store/store.go: sequences of Put, Delete, restarts and runs of Compact in the background.
use josefina.Prelude.{
  ℕ, ◌+◌, ◌==◌, ◌&&◌, Bool, true, Option, none, some, List, [], ◌∷◌, length, if◌then◌else◌,
}
use josefina.Prelude.Eq.{◌=?◌, bytes_eq}
use josefina.Store.Result.{Result, ok, err, panic, ◌>>=◌}
use josefina.Store.Bytes.{Bytes, active, deleted}
use josefina.Store.Segment.Codec.{IsWritable}
use josefina.Store.FileStore.{FileStore}
use josefina.Store.Ops.{put, delete}
use josefina.Store.Open.{returned}
use josefina.Store.Compact.{run_started}
use josefina.Store.Invariant.Behaviour.{settle}
use josefina.Store.Durable.{reopen}

-- What happens to a store: what a client does, the goroutines of the segments write what was handed
-- to them, and a goroutine that Put or Delete has started for Compact gets to run. A restart has the settings of the environment at that time; the goroutines that
-- have not run are gone then.
pub data Action : Type 0 where
  putting : Bytes → Bytes → Action
  deleting : Bytes → Action
  restarting : ℕ → Bool → Action
  writing : Action
  compacting : Action

unfoldable pub after_delete : Result Bool × FileStore → Result FileStore
after_delete (ok found, t) = ok t
after_delete (err e, t) = err e
after_delete (panic, t) = panic

unfoldable pub perform : Action → FileStore → Result FileStore
unfolding after_delete run_started settle
perform (putting id payload) s = returned (put id (some payload) s)
perform (deleting id) s = after_delete (delete id s)
perform (restarting max_segment sync_on_write) s = reopen max_segment sync_on_write s
perform writing s = ok (settle s)
perform compacting s = run_started s

unfoldable pub perform_all : List Action → FileStore → Result FileStore
unfolding perform
perform_all [] s = ok s
perform_all (a ∷ rest) s = perform a s >>= perform_all rest

-- Whether no goroutine of a Compact gets to run: at each of its chances none has been started.
unfoldable pub is_idle : Result FileStore → Bool
is_idle (ok s) = s.compactions == 0
is_idle (err e) = true
is_idle panic = true

unfoldable pub none_runs : List Action → Result FileStore → Bool
unfolding is_idle perform
none_runs [] r = true
none_runs (writing ∷ rest) r = none_runs rest (r >>= perform writing)
none_runs (compacting ∷ rest) r = is_idle r && none_runs rest (r >>= perform compacting)
none_runs (putting id payload ∷ rest) r = none_runs rest (r >>= perform (putting id payload))
none_runs (deleting id ∷ rest) r = none_runs rest (r >>= perform (deleting id))
none_runs (restarting max_segment sync_on_write ∷ rest) r =
    none_runs rest (r >>= perform (restarting max_segment sync_on_write))

-- What an action makes of the payload of an id, and what all of them do.
unfoldable pub outcome : Action → Bytes → Option Bytes → Option Bytes
outcome (putting id payload) k v = if id =? k then some payload else v
outcome (deleting id) k v = if id =? k then none else v
outcome (restarting max_segment sync_on_write) k v = v
outcome writing k v = v
outcome compacting k v = v

unfoldable pub expected : List Action → Bytes → Option Bytes → Option Bytes
unfolding outcome
expected [] k v = v
expected (a ∷ rest) k v = expected rest k (outcome a k v)

abbrev pub IsValid : Action → Type 0
IsValid (putting id payload) = IsWritable (record { id = id; payload = payload; status = active })
IsValid (deleting id) = IsWritable (record { id = id; payload = []; status = deleted })
IsValid (restarting max_segment sync_on_write) = Unit
IsValid writing = Unit
IsValid compacting = Unit

-- How many bytes the record of an action takes at most, and those of all.
abbrev pub bytes_of : Action → ℕ
bytes_of (putting id payload) = 11 + length id + length payload
bytes_of (deleting id) = 11 + length id
bytes_of (restarting max_segment sync_on_write) = 0
bytes_of writing = 0
bytes_of compacting = 0

abbrev pub all_bytes : List Action → ℕ
all_bytes [] = 0
all_bytes (a ∷ rest) = bytes_of a + all_bytes rest
