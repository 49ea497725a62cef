-- ===== src/Store/Iterate/Goes.antt =====
-- Iterate of internal/store/store.go: something can go on as long as it has not returned.
use josefina.Prelude.{
  ℕ, zero, suc, ◌+◌, ◌*◌, ◌≤◌, ◌<◌, Bool, true, false, Option, none, some, List, [], ◌∷◌, ◌++◌,
  length, get_elem?, replicate, ◌≡◌, refl, ap, ◌∙◌, arith, inl, inr, ◌⊎◌, ◌==◌, ltb, Bool-cases,
}
use josefina.Prelude.Eq.{bytes_eq}
use josefina.Store.Result.{Result, ok, err, panic}
use josefina.Store.Bytes.{Bytes}
use josefina.Store.Segment.{Segment, RecordRef}
use josefina.Store.Iterate.{
  Worker, Iteration, start, after_call, fetch, after_fetch, work, Step, Steps, capacity,
}
use josefina.Store.Iterate.Counts.{total, total-positive, to_go}
use josefina.Store.Iterate.Keeps.{Holds}
use josefina.Store.Iterate.Kept.{Steps-Holds}
use josefina.Store.Iterate.Ends.{measure, IsOver, Steps-measure}
use josefina.Store.Iterate.Manned.{all_or_none, Steps-workers, start-workers}

module _ (index : List (Bytes × Option RecordRef)) (segments : List Segment)
    (fn : Bytes → Bytes → Result Bool) where
  -- A worker whose work panics: the index has a nil entry or one outside the segments, or the read or
  -- the callback panics.
  pub record Crashes (s : Iteration) : Type 0 where
    pub worker : ℕ
    pub id : Bytes
    pub at_work : get_elem? s.workers worker ≡ some (Worker.busy id)
    pub why :
        (fetch index segments fn id ≡ panic)
        ⊎ ((payload : Bytes) × (fetch index segments fn id ≡ ok (some payload))
            × (fn id payload ≡ panic))

  -- What may come next.
  abbrev pub GoesOn : Iteration → Type 0
  GoesOn s = ((t : Iteration) × Step index segments fn s t) ⊎ Crashes s

  module _ (s : Iteration) (w : ℕ) (id : Bytes)
      (g : get_elem? s.workers w ≡ some (Worker.busy id)) where
    abbrev with_call : Bytes → Iteration
    with_call payload = record s { calls = s.calls ++ (id, payload) ∷ [] }

    handed :
        (payload : Bytes)
        → fetch index segments fn id ≡ ok (some payload)
        → work index segments fn w id s ≡ after_call w (fn id payload) (with_call payload)
    unfolding work after_fetch
    handed payload f = ap (λ o. after_fetch index segments fn w id o s) f

    call_goes :
        (payload : Bytes) (r : Result Bool)
        → fetch index segments fn id ≡ ok (some payload)
        → fn id payload ≡ r
        → GoesOn s
    unfolding work after_fetch after_call
    call_goes payload (ok true) f h =
        inl
          (_, Step.works w id g (handed payload f ∙ ap (λ r. after_call w r (with_call payload)) h))
    call_goes payload (ok false) f h =
        inl
          (_, Step.works w id g (handed payload f ∙ ap (λ r. after_call w r (with_call payload)) h))
    call_goes payload (err x) f h =
        inl
          (_, Step.works w id g (handed payload f ∙ ap (λ r. after_call w r (with_call payload)) h))
    call_goes payload panic f h =
        inr (record { worker = w; id = id; at_work = g; why = inr (payload, f, h) })

    busy_goes : (o : Result (Option Bytes)) → fetch index segments fn id ≡ o → GoesOn s
    unfolding work after_fetch
    busy_goes (ok none) f =
        inl (_, Step.works w id g (ap (λ o. after_fetch index segments fn w id o s) f))
    busy_goes (ok (some payload)) f = call_goes payload (fn id payload) f refl
    busy_goes (err x) f =
        inl (_, Step.works w id g (ap (λ o. after_fetch index segments fn w id o s) f))
    busy_goes panic f = inr (record { worker = w; id = id; at_work = g; why = inl f })

  -- A worker that waits goes on with a job, and without one where the channel is closed.
  idle_goes :
      (s : Iteration) (w : ℕ) (jobs : List Bytes)
      → get_elem? s.workers w ≡ some Worker.idle
      → s.jobs ≡ jobs
      → (jobs ≡ [] → s.closed ≡ true)
      → GoesOn s
  idle_goes s w [] g j h = inl (_, Step.returns w g j (h refl))
  idle_goes s w (id ∷ rest) g j h = inl (_, Step.takes w id rest g j)

  worker_goes :
      (s : Iteration) (w : ℕ) (x : Worker)
      → get_elem? s.workers w ≡ some x
      → 0 < to_go x
      → (s.jobs ≡ [] → s.closed ≡ true)
      → GoesOn s
  worker_goes s w Worker.gone g p h = absurd (omega arith)
  worker_goes s w (Worker.busy id) g p h = busy_goes s w id g (fetch index segments fn id) refl
  worker_goes s w Worker.idle g p h = idle_goes s w s.jobs g refl h

  some_worker_goes :
      (s : Iteration) → 0 < total to_go s.workers → (s.jobs ≡ [] → s.closed ≡ true) → GoesOn s
  some_worker_goes s p h =
      let (w, x, g, q) = total-positive to_go s.workers p in worker_goes s w x g q h

  -- The producer, with something to send
  send_goes :
      (s : Iteration) (keys : List Bytes) (id : Bytes) (rest : List Bytes)
      → Holds index segments fn keys s
      → 0 < length s.workers
      → s.todo ≡ id ∷ rest
      → GoesOn s
  send_goes s keys id rest h manned e = elim (Bool-cases (ltb (length s.jobs) capacity)) [
    | inl room ↦ inl (_, Step.sends id rest e (ground arith))
    | inr full ↦ elim (Bool-cases s.cancelled) [
      | inl cut_off ↦ inl (_, Step.skips id rest e cut_off)
      | inr goes_on ↦ elim (Bool-cases (ltb 0 (total to_go s.workers))) [
        | inl at_work ↦
            some_worker_goes s (ground arith) (λ j. absurd (omega (arith, ap length j, many full)))
        | inr all_gone ↦
            let left = h.left goes_on (all_or_none s.workers manned (ground arith)) in
            absurd (omega (arith, ap length left.1, many full))
      ]
    ]
  ]
    where
      many : ltb (length s.jobs) capacity ≡ false → 1024 ≤ length s.jobs
      many full = ground arith

  all_sent : (s : Iteration) → s.todo ≡ [] → IsOver s ⊎ GoesOn s
  all_sent s e = elim (Bool-cases s.closed) [
    | inr open_yet ↦ inr (inl (_, Step.closes e open_yet))
    | inl shut ↦ elim (Bool-cases (ltb 0 (total to_go s.workers))) [
      | inl at_work ↦ inr (some_worker_goes s (ground arith) (λ j. shut))
      | inr all_gone ↦ inl (shut, ground arith)
    ]
  ]

  Holds-GoesOn :
      (s : Iteration) (keys todo : List Bytes)
      → Holds index segments fn keys s
      → 0 < length s.workers
      → s.todo ≡ todo
      → IsOver s ⊎ GoesOn s
  Holds-GoesOn s keys [] h manned e = all_sent s e
  Holds-GoesOn s keys (id ∷ rest) h manned e = inr (send_goes s keys id rest h manned e)

  start-measure :
      (workers : ℕ) (keys : List Bytes)
      → measure (start workers keys) ≤ 3 * length keys + workers + 2
  unfolding start total
  start-measure zero keys = omega arith
  start-measure (suc n) keys = rw positive (omega (arith, idle_total (suc n)))
    where
      positive : suc n == 0 ≡ false
      positive = ground arith

      idle_total : (n : ℕ) → total to_go (replicate n Worker.idle) ≡ n
      idle_total zero = refl
      idle_total (suc n) = omega (arith, idle_total n)

  -- Whatever the callback returns, after any steps of Iterate either it has returned, or a next step
  -- is possible, or a worker panics; and there are never more than three steps for each id, one for
  -- each worker, and two.
  pub Steps-GoesOn :
      (workers n : ℕ) (keys : List Bytes) (s : Iteration)
      → Steps index segments fn (start workers keys) n s
      → (IsOver s ⊎ GoesOn s) × (n ≤ 3 * length keys + workers + 2)
  Steps-GoesOn workers n keys s r = (
    Holds-GoesOn s keys s.todo (Steps-Holds index segments fn keys workers n s r)
        (omega (
          arith,
          start-workers index segments fn workers keys,
          Steps-workers index segments fn (start workers keys) s n r,
        ))
        refl,
    omega (
      arith,
      Steps-measure index segments fn (start workers keys) s n r,
      start-measure workers keys,
    ),
  )
