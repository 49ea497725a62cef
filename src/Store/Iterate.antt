-- ===== src/Store/Iterate.antt =====
-- Iterate of internal/store/store.go: the producer, the channel of the jobs and the workers, as steps
-- of which any that is possible may be the next.
--
-- `index` and `keys` are what getRecords returns, `segments` are those of the store, and `fn` is the
-- callback: what it returns depends on its arguments. A worker that panics ends the program.
pub mod Counts
pub mod Keeps
pub mod Kept
pub mod Ends
pub mod Manned
pub mod Goes
pub mod Visits
pub mod Listed
pub mod Whole
use josefina.Prelude.{
  ℕ, suc, ◌+◌, ◌<◌, Bool, true, false, Option, none, some, List, [], ◌∷◌, ◌++◌, length, get_elem?,
  set, replicate, ◌≡◌, ◌==◌, if◌then◌else◌,
}
use josefina.Prelude.Eq.{bytes_eq}
use josefina.Prelude.Assoc.{lookup}
use josefina.Store.Result.{Result, ok, err, panic, Error}
use josefina.Store.Bytes.{Bytes}
use josefina.Store.Segment.{Segment, RecordRef, read}

-- A worker waits for a job, or works on an id, or has returned.
pub data Worker : Type 0 where
  idle gone : Worker
  busy : Bytes → Worker

-- `todo` are the ids that the producer has not sent yet, `jobs` those in the channel. `calls` lists the
-- calls of the callback, and `dropped` the ids that have come to nothing without a call.
pub record Iteration : Type 0 where
  pub todo : List Bytes
  pub jobs : List Bytes
  pub closed : Bool
  pub cancelled : Bool
  pub failure : Option Error
  pub workers : List Worker
  pub calls : List (Bytes × Bytes)
  pub dropped : List Bytes

-- The capacity of the channel
abbrev pub capacity : ℕ
capacity = 1024

unfoldable pub start : ℕ → List Bytes → Iteration
start workers keys = record {
  todo = keys;
  jobs = [];
  closed = false;
  cancelled = false;
  failure = none;
  workers = replicate (if workers == 0 then 1 else workers) Worker.idle;
  calls = [];
  dropped = [];
}

-- setErr of an error that is not nil: the first one is kept, and all are cut off.
unfoldable pub set_err : Error → Iteration → Iteration
set_err e s = elim s.failure [
  | none ↦ record s { failure = some e; cancelled = true }
  | some first ↦ s
]

abbrev pub with_worker : ℕ → Worker → Iteration → Iteration
with_worker w worker s = record s { workers = set s.workers w worker }

-- What a worker does with what the callback returns.
unfoldable pub after_call : ℕ → Result Bool → Iteration → Result Iteration
unfolding set_err
after_call w (ok true) s = ok (with_worker w Worker.idle s)
after_call w (ok false) s = ok (with_worker w Worker.gone (record s { cancelled = true }))
after_call w (err e) s = ok (with_worker w Worker.gone (set_err e s))
after_call w panic s = panic

module _ (index : List (Bytes × Option RecordRef)) (segments : List Segment)
    (fn : Bytes → Bytes → Result Bool) where
  -- The data of an id; none where it is not in the index. An entry that is nil panics.
  unfoldable pub fetch : Bytes → Result (Option Bytes)
  fetch id = elim (lookup id index) [
    | none ↦ ok none
    | some none ↦ panic
    | some (some ref) ↦ elim (get_elem? segments ref.segment) [
      | none ↦ panic
      | some seg ↦ elim (read seg ref) [
        | ok payload ↦ ok (some payload)
        | err e ↦ err e
        | panic ↦ panic
      ]
    ]
  ]

  unfoldable pub after_fetch : ℕ → Bytes → Result (Option Bytes) → Iteration → Result Iteration
  unfolding after_call set_err
  after_fetch w id (ok none) s =
      ok (with_worker w Worker.idle (record s { dropped = id ∷ s.dropped }))
  after_fetch w id (ok (some payload)) s =
      after_call w (fn id payload) (record s { calls = s.calls ++ (id, payload) ∷ [] })
  after_fetch w id (err e) s =
      ok (with_worker w Worker.gone (set_err e (record s { dropped = id ∷ s.dropped })))
  after_fetch w id panic s = panic

  -- The work on one id
  unfoldable pub work : ℕ → Bytes → Iteration → Result Iteration
  unfolding fetch after_fetch
  work w id s = after_fetch w id (fetch id) s

  -- One step of the producer or of a worker. A `select` takes any of its cases that is ready; the
  -- `break` of the producer leaves the `select`, not the loop.
  pub data Step (s : Iteration) : Iteration → Type 0 where
    sends :
        (id : Bytes) (rest : List Bytes)
        → s.todo ≡ id ∷ rest
        → length s.jobs < capacity
        → Step s (record s { todo = rest; jobs = s.jobs ++ id ∷ [] })
    skips :
        (id : Bytes) (rest : List Bytes)
        → s.todo ≡ id ∷ rest
        → s.cancelled ≡ true
        → Step s (record s { todo = rest; dropped = id ∷ s.dropped })
    closes : s.todo ≡ [] → s.closed ≡ false → Step s (record s { closed = true })
    takes :
        (w : ℕ) (id : Bytes) (rest : List Bytes)
        → get_elem? s.workers w ≡ some Worker.idle
        → s.jobs ≡ id ∷ rest
        → Step s (record s { jobs = rest; workers = set s.workers w (Worker.busy id) })
    stops :
        (w : ℕ)
        → get_elem? s.workers w ≡ some Worker.idle
        → s.cancelled ≡ true
        → Step s (with_worker w Worker.gone s)
    returns :
        (w : ℕ)
        → get_elem? s.workers w ≡ some Worker.idle
        → s.jobs ≡ []
        → s.closed ≡ true
        → Step s (with_worker w Worker.gone s)
    works :
        (w : ℕ) (id : Bytes) {t : Iteration}
        → get_elem? s.workers w ≡ some (Worker.busy id)
        → work w id s ≡ ok t
        → Step s t

  -- `n` steps one after the other
  pub data Steps (s : Iteration) : ℕ → Iteration → Type 0 where
    here : Steps s 0 s
    there : {n : ℕ} {t u : Iteration} → Steps s n t → Step t u → Steps s (suc n) u
