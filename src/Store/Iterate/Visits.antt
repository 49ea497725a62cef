-- ===== src/Store/Iterate/Visits.antt =====
-- Iterate of internal/store/store.go: with a callback that always goes on, every id is visited.
use josefina.Prelude.{
  ℕ, zero, suc, ◌≤◌, ◌<◌, Bool, true, false, Option, none, some, List, [], ◌∷◌, ◌++◌, get_elem?,
  ◌≡◌, refl, ap, ◌∙◌, sym, subst, arith, All,
}
use josefina.Prelude.Eq.{bytes_eq, beq_refl}
use josefina.Store.Result.{Result, ok, ok-injective}
use josefina.Store.Bytes.{Bytes}
use josefina.Store.Segment.{Segment, RecordRef}
use josefina.Store.Iterate.{
  Worker, Iteration, start, after_call, fetch, after_fetch, work, Step, Steps,
}
use josefina.Store.Iterate.Counts.{count, total, working, to_go}
use josefina.Store.Iterate.Keeps.{Holds, called}
use josefina.Store.Iterate.Kept.{Steps-Holds}
use josefina.Store.Iterate.Ends.{IsOver}
use josefina.Store.Iterate.Manned.{all_or_none, Steps-workers, start-workers}

total-at :
    (f : Worker → ℕ) (ws : List Worker) (w : ℕ) (x : Worker)
    → get_elem? ws w ≡ some x
    → f x ≤ total f ws
unfolding total
total-at f [] w x h = absurd (cc)
total-at f (y ∷ ws) zero x h = omega (arith, same (cc))
  where
    same : y ≡ x → f y ≡ f x
    same e = ap f e
total-at f (y ∷ ws) (suc w) x h = omega (arith, total-at f ws w x h)

nobody_works : (k : Bytes) (ws : List Worker) → total to_go ws ≡ 0 → total (working k) ws ≡ 0
unfolding total
nobody_works k [] h = refl
nobody_works k (Worker.gone ∷ ws) h = omega (arith, nobody_works k ws (omega arith))
nobody_works k (Worker.idle ∷ ws) h = absurd (omega arith)
nobody_works k (Worker.busy id ∷ ws) h = absurd (omega arith)

count-head : (k : Bytes) (ks : List Bytes) → 0 < count k (k ∷ ks)
unfolding count
count-head k ks = rw (beq_refl k) (omega arith)

-- How often each id was an argument of the callback, and with the data of the index.
module _ (index : List (Bytes × Option RecordRef)) (segments : List Segment)
    (fn : Bytes → Bytes → Result Bool) (keys : List Bytes)
    (fine : (k : Bytes)
      → 0 < count k keys
      → (payload : Bytes) × (fetch index segments fn k ≡ ok (some payload))
        × (fn k payload ≡ ok true)) where
  work-cancelled :
      (s t : Iteration) (w : ℕ) (id : Bytes)
      → 0 < count id keys
      → work index segments fn w id s ≡ ok t
      → t.cancelled ≡ s.cancelled
  unfolding work after_fetch after_call
  work-cancelled s t w id k e =
      let (payload, f, g) = fine id k in
      let s' : Iteration = record s { calls = s.calls ++ (id, payload) ∷ [] } in
      ap (λ u. u.cancelled)
        (ok-injective (
          sym e
          ∙ ap (λ o. after_fetch index segments fn w id o s) f
          ∙ ap (λ r. after_call w r s') g))

  Step-cancelled :
      (s t : Iteration)
      → Holds index segments fn keys s
      → Step index segments fn s t
      → s.cancelled ≡ false
      → t.cancelled ≡ false
  Step-cancelled s _ h (Step.sends id rest e room) c = c
  Step-cancelled s _ h (Step.skips id rest e d) c = c
  Step-cancelled s _ h (Step.closes e d) c = c
  Step-cancelled s _ h (Step.takes w id rest g j) c = c
  Step-cancelled s _ h (Step.stops w g d) c = c
  Step-cancelled s _ h (Step.returns w g j d) c = c
  Step-cancelled s t h (Step.works w id g e) c = work-cancelled s t w id in_keys e ∙ c
    where
      at_work : working id (Worker.busy id) ≡ 1
      at_work = rw (beq_refl id) refl

      in_keys : 0 < count id keys
      in_keys =
          omega (arith, at_work, h.counted id, total-at (working id) s.workers w (Worker.busy id) g)

  Steps-cancelled :
      (workers n : ℕ) (t : Iteration)
      → Steps index segments fn (start workers keys) n t
      → t.cancelled ≡ false
  unfolding start
  Steps-cancelled workers _ _ Steps.here = refl
  Steps-cancelled workers _ t (Steps.there {n} {t = s} r step) =
      Step-cancelled s t (Steps-Holds index segments fn keys workers n s r) step
        (Steps-cancelled workers n s r)

  nothing_dropped :
      (s : Iteration) (dropped : List Bytes)
      → s.dropped ≡ dropped
      → Holds index segments fn keys s
      → s.cancelled ≡ false
      → dropped ≡ []
  nothing_dropped s [] e h c = refl
  nothing_dropped s (k ∷ rest) e h c =
      let (payload, f, g) =
        fine k (omega (arith, h.counted k, ap (count k) e, count-head k rest)) in
      let unknown = subst (All (λ id. fetch index segments fn id ≡ ok none)) e (h.unknown c) in
      absurd (cc (unknown.0, f))

  -- Where every id is found and the callback always goes on: when Iterate has returned, whatever the
  -- order of the steps, it returns no error, and it has called the callback as often for each id as it
  -- is among the keys, each time with the data of the id.
  pub Steps-called :
      (workers n : ℕ) (s : Iteration)
      → Steps index segments fn (start workers keys) n s
      → IsOver s
      → (s.failure ≡ none)
        × ((k : Bytes) → count k (called s) ≡ count k keys)
        × All (λ (c : Bytes × Bytes). fetch index segments fn c.0 ≡ ok (some c.1)) s.calls
  unfolding count
  Steps-called workers n s r (shut, all_gone) =
      let h = Steps-Holds index segments fn keys workers n s r in
      let c = Steps-cancelled workers n s r in
      let manned = Steps-workers index segments fn (start workers keys) s n r in
      let left = h.left c (
        all_or_none s.workers (omega (arith, manned, start-workers index segments fn workers keys))
          all_gone) in
      (
        h.cut c,
        λ k. omega (
          arith,
          h.counted k,
          ap (count k) (h.sent_all shut),
          ap (count k) left.1,
          nobody_works k s.workers all_gone,
          ap (count k) (nothing_dropped s s.dropped refl h c),
        ),
        h.fetched,
      )
