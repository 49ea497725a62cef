-- ===== src/Store/Durable/Performed.antt =====
-- internal/store/store.go: one Put, Delete or restart, or the run of no Compact, and the history.
use josefina.Prelude.{
  suc, ◌+◌, ◌≤◌, Option, none, some, List, [], ◌∷◌, ◌++◌, length, length-append, ◌≡◌, refl, ap, ◌∙◌,
  sym, subst, arith, inl, inr, Bool, Bool-cases, true, false, ◌&&◌, if◌then◌else◌,
}
use josefina.Prelude.Eq.{◌=?◌, bytes_eq, bytes_beq_iff}
use josefina.Prelude.Assoc.{contains}
use josefina.Prelude.Distinct.{lookup-absent}
use josefina.Store.Result.{ok}
use josefina.Store.Bytes.{Bytes, active, deleted}
use josefina.Store.Segment.{RecordRef}
use josefina.Store.Segment.Codec.{Entry, length-encode, encode}
use josefina.Store.Rebuild.Scan.{encode_all}
use josefina.Store.FileStore.{FileStore}
use josefina.Store.Open.{returned}
use josefina.Store.Log.{value_of, value_from, effect}
use josefina.Store.Log.Refs.{value_from-append}
use josefina.Store.Log.Refers.{Refers, refs-Refers, encode_all-append}
use josefina.Store.Invariant.{IsStore}
use josefina.Store.Durable.{Durable}
use josefina.Store.Durable.Fits.{IsBounded}
use josefina.Store.Durable.Reopen.{reopen-Durable}
use josefina.Store.Invariant.Behaviour.{settle}
use josefina.Store.Durable.Steps.{settle-Durable, put-Durable, delete-Durable}
use josefina.Store.Compact.{run_started}
use josefina.Store.Durable.Actions.{
  Action, writing, compacting, is_idle, none_runs, putting, deleting, restarting, after_delete,
  perform, outcome, IsValid, bytes_of,
}

-- The history after an action: longer by at most one record, and with the outcome of the action.
pub record Follows (log log' : List Entry) (a : Action) : Type 0 where
  pub longer : length log' ≤ suc (length log)
  pub bigger : length (encode_all log') ≤ length (encode_all log) + bytes_of a
  pub means : (k : Bytes) → value_of log' k ≡ outcome a k (value_of log k)

value_of-record :
    (log : List Entry) (e : Entry) (k : Bytes)
    → value_of (log ++ e ∷ []) k ≡ effect e e.payload k (value_of log k)
unfolding value_of value_from
value_of-record log e k = value_from-append log (e ∷ []) k none

appended_bytes :
    (log : List Entry) (e : Entry)
    → length (encode_all (log ++ e ∷ []))
      ≡ length (encode_all log) + (11 + length e.id + length e.payload)
appended_bytes log e = omega (
  arith,
  ap length (encode_all-append log (e ∷ [])),
  length-append (encode_all log) (encode e ++ []),
  length-append (encode e) [],
  length-encode e,
)

put-Follows :
    (log : List Entry) (id payload : Bytes)
    → Follows log
        (log ++ record { id = id; payload = payload; status = active } ∷ [])
        (putting id payload)
unfolding effect outcome
put-Follows log id payload =
    let e : Entry = record { id = id; payload = payload; status = active } in
    record {
      longer = omega (arith, length-append log (e ∷ []));
      bigger = omega (arith, appended_bytes log e);
      means = λ k. value_of-record log e k;
    }

delete-Follows :
    (log : List Entry) (id : Bytes)
    → Follows log (log ++ record { id = id; payload = []; status = deleted } ∷ []) (deleting id)
unfolding effect outcome
delete-Follows log id =
    let e : Entry = record { id = id; payload = []; status = deleted } in
    record {
      longer = omega (arith, length-append log (e ∷ []));
      bigger = omega (arith, appended_bytes log e);
      means = λ k. value_of-record log e k;
    }

Refers-none :
    (logs : List (List Entry)) (k : Bytes) (r : Option RecordRef) (v : Option Bytes)
    → r ≡ none
    → Refers logs k r v
    → v ≡ none
Refers-none logs k none none e h = refl
Refers-none logs k none (some p) e h = absurd h
Refers-none logs k (some r) v e h = absurd (cc)

-- An id that the index does not have has no payload.
pub value_of-absent :
    (s : FileStore) (log : List Entry) (id : Bytes)
    → IsStore s log
    → contains id s.index ≡ false
    → value_of log id ≡ none
value_of-absent s log id v h =
    ap (λ l. value_of l id) (sym v.history)
    ∙ Refers-none (v.logs ++ v.es ∷ []) id _ _ (sym (v.agrees id) ∙ lookup-absent id s.index h)
        (refs-Refers (v.logs ++ v.es ∷ []) id)

nothing-Follows :
    (s : FileStore) (log : List Entry) (id : Bytes)
    → IsStore s log
    → contains id s.index ≡ false
    → Follows log log (deleting id)
unfolding outcome
nothing-Follows s log id v h = record {
  longer = omega arith;
  bigger = omega arith;
  means = λ k. elim (Bool-cases (id =? k)) [
    | inr other ↦ rw other refl
    | inl same ↦
        rw same
          (ap (value_of log) (sym ((bytes_beq_iff id k).0 same)) ∙ value_of-absent s log id v h)
  ];
}

run_started-idle : (s : FileStore) → is_idle (ok s) ≡ true → run_started s ≡ ok s
unfolding run_started is_idle
run_started-idle s h = rw h refl

and_true : (a b : Bool) → (a && b) ≡ true → (a ≡ true) × (b ≡ true)
and_true true b h = (refl, h)
and_true false b h = absurd (cc)

-- Whether the action, on this store, is the run of no Compact.
abbrev pub IsIdle : Action → FileStore → Type 0
IsIdle compacting s = is_idle (ok s) ≡ true
IsIdle writing s = Unit
IsIdle (putting id payload) s = Unit
IsIdle (deleting id) s = Unit
IsIdle (restarting max_segment sync_on_write) s = Unit

pub none_runs-IsIdle :
    (a : Action) (rest : List Action) (s : FileStore)
    → none_runs (a ∷ rest) (ok s) ≡ true
    → IsIdle a s × (none_runs rest (perform a s) ≡ true)
unfolding none_runs
none_runs-IsIdle compacting rest s h =
    and_true (is_idle (ok s)) (none_runs rest (perform compacting s)) h
none_runs-IsIdle writing rest s h = (tt, h)
none_runs-IsIdle (putting id payload) rest s h = (tt, h)
none_runs-IsIdle (deleting id) rest s h = (tt, h)
none_runs-IsIdle (restarting max_segment sync_on_write) rest s h = (tt, h)

-- One action on a store that can be opened again.
pub perform-Durable :
    (a : Action) (s : FileStore) (log : List Entry)
    → Durable s log
    → IsValid a
    → IsBounded log
    → IsIdle a s
    → (t : FileStore) × (log' : List Entry) × (perform a s ≡ ok t)
      × Durable t log'
      × Follows log log' a
unfolding perform after_delete outcome returned
perform-Durable (putting [] payload) s log d w b idle = absurd (omega (arith, w.named))
perform-Durable (putting (c ∷ cs) payload) s log d w b idle =
    let (t, r, n) = put-Durable s log c cs payload d w in
    (t, _, ap returned r, n, put-Follows log (c ∷ cs) payload)
perform-Durable (deleting id) s log d w b idle =
    let (t, r, n) = delete-Durable s log id d w in
    elim (Bool-cases (contains id s.index)) [
      | inl found ↦ (
        t,
        log ++ record { id = id; payload = []; status = deleted } ∷ [],
        ap after_delete r,
        subst
            (λ c.
              Durable t
                (if c then log ++ record { id = id; payload = []; status = deleted } ∷ [] else log))
            found n,
        delete-Follows log id,
      )
      | inr missing ↦ (
        t,
        log,
        ap after_delete r,
        subst
            (λ c.
              Durable t
                (if c then log ++ record { id = id; payload = []; status = deleted } ∷ [] else log))
            missing n,
        nothing-Follows s log id d.store missing,
      )
    ]
perform-Durable (restarting max_segment sync_on_write) s log d w b idle =
    let (t, r, n, q) = reopen-Durable s log max_segment sync_on_write d b in
    (t, log, r, n, record { longer = omega arith; bigger = omega arith; means = λ k. refl })
perform-Durable writing s log d w b idle = (
  settle s,
  log,
  refl,
  settle-Durable s log d,
  record { longer = omega arith; bigger = omega arith; means = λ k. refl },
)
perform-Durable compacting s log d w b idle = (
  s,
  log,
  run_started-idle s idle,
  d,
  record { longer = omega arith; bigger = omega arith; means = λ k. refl },
)
