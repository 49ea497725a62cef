-- ===== src/Store/Iterate/Kept.antt =====
-- Iterate of internal/store/store.go: every step keeps what holds.
use josefina.Prelude.{
  ℕ, ◌+◌, Bool, true, false, Option, none, some, List, [], ◌∷◌, ◌++◌, get_elem?, set, ◌≡◌, refl, ap,
  ◌∙◌, sym, subst, arith, All, All-append, inl, inr, Bool-cases, Option-cases,
}
use mathlib.Core.List.{map-append}
use josefina.Prelude.Eq.{bytes_eq}
use josefina.Store.Result.{Result, ok, err, panic, Error, ok-injective}
use josefina.Store.Bytes.{Bytes}
use josefina.Store.Segment.{Segment, RecordRef}
use josefina.Store.Iterate.{
  Worker, Iteration, start, set_err, with_worker, after_call, fetch, after_fetch, work, Step, Steps,
}
use josefina.Store.Iterate.Counts.{count, total, count-append, total-set, working, returned}
use josefina.Store.Iterate.Keeps.{called, places, Holds, start-Holds}

module _ (index : List (Bytes × Option RecordRef)) (segments : List Segment)
    (fn : Bytes → Bytes → Result Bool) where
  abbrev Fetched : Bytes × Bytes → Type 0
  Fetched c = fetch index segments fn c.0 ≡ ok (some c.1)

  abbrev Kept : List Bytes → Iteration → Type 0
  Kept = Holds index segments fn

  module _ (keys : List Bytes) where
    -- After a cancellation only these remain to be seen.
    cut_Holds :
        (s t : Iteration)
        → Kept keys s
        → t.todo ≡ s.todo
        → t.closed ≡ s.closed
        → ((k : Bytes) → places k t ≡ places k s)
        → All Fetched t.calls
        → t.cancelled ≡ true
        → Kept keys t
    cut_Holds s t h todo closed same calls c = record {
      counted = λ k. same k ∙ h.counted k;
      fetched = calls;
      sent_all = λ g. todo ∙ h.sent_all (sym closed ∙ g);
      left = λ g p. absurd (cc);
      unknown = λ g. absurd (cc);
      cut = λ g. absurd (cc);
    }

    set_err-kept :
        (e : Error) (s : Iteration)
        → (s.cancelled ≡ false → s.failure ≡ none)
        → ((set_err e s).todo ≡ s.todo)
          × ((set_err e s).closed ≡ s.closed)
          × ((set_err e s).calls ≡ s.calls)
          × ((set_err e s).cancelled ≡ true)
          × ((w : ℕ) (x : Worker) (k : Bytes)
              → places k (with_worker w x (set_err e s)) ≡ places k (with_worker w x s))
    unfolding set_err
    set_err-kept e s h = elim (Option-cases s.failure) [
      | inl first ↦ rw first (refl, refl, refl, refl, λ w x k. refl)
      | inr (f, later) ↦ rw later (refl, refl, refl, was_cut f later, λ w x k. refl)
    ]
      where
        was_cut : (f : Error) → s.failure ≡ some f → s.cancelled ≡ true
        was_cut f later = elim (Bool-cases s.cancelled) [
          | inl cut_off ↦ cut_off
          | inr goes_on ↦ absurd (cc (h goes_on, later))
        ]

    -- A worker that was working on `id` is `x` now, which works on nothing.
    worker_done :
        (s : Iteration) (w : ℕ) (id k : Bytes) (x : Worker)
        → get_elem? s.workers w ≡ some (Worker.busy id)
        → working k x ≡ 0
        → total (working k) (set s.workers w x) + count k (id ∷ []) ≡ total (working k) s.workers
    unfolding count
    worker_done s w id k x g z =
        omega (arith, total-set (working k) s.workers w (Worker.busy id) x g)

    dropped_places :
        (s : Iteration) (w : ℕ) (id k : Bytes) (x : Worker)
        → get_elem? s.workers w ≡ some (Worker.busy id)
        → working k x ≡ 0
        → places k (with_worker w x (record s { dropped = id ∷ s.dropped })) ≡ places k s
    unfolding count
    dropped_places s w id k x g z = omega (arith, worker_done s w id k x g z)

    called_places :
        (s : Iteration) (w : ℕ) (id payload k : Bytes) (x : Worker)
        → get_elem? s.workers w ≡ some (Worker.busy id)
        → working k x ≡ 0
        → places k (with_worker w x (record s { calls = s.calls ++ (id, payload) ∷ [] }))
          ≡ places k s
    called_places s w id payload k x g z = omega (
      arith,
      worker_done s w id k x g z,
      ap (count k) (map-append (λ (c : Bytes × Bytes). c.0) s.calls ((id, payload) ∷ [])),
      count-append k (called s) (id ∷ []),
    )

    after_call-Holds :
        (s t : Iteration) (w : ℕ) (id payload : Bytes) (r : Result Bool)
        → Kept keys s
        → get_elem? s.workers w ≡ some (Worker.busy id)
        → fetch index segments fn id ≡ ok (some payload)
        → after_call w r (record s { calls = s.calls ++ (id, payload) ∷ [] }) ≡ ok t
        → Kept keys t
    unfolding after_call
    after_call-Holds s t w id payload (ok true) h g f e =
        subst (Kept keys) (ok-injective e) (record {
          counted = λ k. called_places s w id payload k Worker.idle g refl ∙ h.counted k;
          fetched = All-append Fetched s.calls ((id, payload) ∷ []) h.fetched (f, tt);
          sent_all = h.sent_all;
          left = λ c p.
              h.left c
                (omega (arith, total-set returned s.workers w (Worker.busy id) Worker.idle g));
          unknown = h.unknown;
          cut = h.cut;
        })
    after_call-Holds s t w id payload (ok false) h g f e = subst (Kept keys) (ok-injective e) (
        cut_Holds s _ h refl refl (λ k. called_places s w id payload k Worker.gone g refl)
          (All-append Fetched s.calls ((id, payload) ∷ []) h.fetched (f, tt)) refl)
    after_call-Holds s t w id payload (err x) h g f e =
        let s' : Iteration = record s { calls = s.calls ++ (id, payload) ∷ [] } in
        let (todo, closed, calls, cancelled, same) = set_err-kept x s' h.cut in
        subst (Kept keys) (ok-injective e) (
          cut_Holds s (with_worker w Worker.gone (set_err x s')) h todo closed
            (λ k. same w Worker.gone k ∙ called_places s w id payload k Worker.gone g refl)
            (subst (All Fetched) (sym calls)
              (All-append Fetched s.calls ((id, payload) ∷ []) h.fetched (f, tt)))
            cancelled)
    after_call-Holds s t w id payload panic h g f e = absurd (cc)

    after_fetch-Holds :
        (s t : Iteration) (w : ℕ) (id : Bytes) (o : Result (Option Bytes))
        → Kept keys s
        → get_elem? s.workers w ≡ some (Worker.busy id)
        → fetch index segments fn id ≡ o
        → after_fetch index segments fn w id o s ≡ ok t
        → Kept keys t
    unfolding after_fetch
    after_fetch-Holds s t w id (ok none) h g f e = subst (Kept keys) (ok-injective e) (record {
      counted = λ k. dropped_places s w id k Worker.idle g refl ∙ h.counted k;
      fetched = h.fetched;
      sent_all = h.sent_all;
      left = λ c p.
          h.left c (omega (arith, total-set returned s.workers w (Worker.busy id) Worker.idle g));
      unknown = λ c. (f, h.unknown c);
      cut = h.cut;
    })
    after_fetch-Holds s t w id (ok (some payload)) h g f e =
        after_call-Holds s t w id payload (fn id payload) h g f e
    after_fetch-Holds s t w id (err x) h g f e =
        let s' : Iteration = record s { dropped = id ∷ s.dropped } in
        let (todo, closed, calls, cancelled, same) = set_err-kept x s' h.cut in
        subst (Kept keys) (ok-injective e) (
          cut_Holds s (with_worker w Worker.gone (set_err x s')) h todo closed
            (λ k. same w Worker.gone k ∙ dropped_places s w id k Worker.gone g refl)
            (subst (All Fetched) (sym calls) h.fetched) cancelled)
    after_fetch-Holds s t w id panic h g f e = absurd (cc)

    idle_taken :
        (s : Iteration) (w : ℕ) (id : Bytes) (rest : List Bytes) (k : Bytes)
        → get_elem? s.workers w ≡ some Worker.idle
        → s.jobs ≡ id ∷ rest
        → places k (record s { jobs = rest; workers = set s.workers w (Worker.busy id) })
          ≡ places k s
    unfolding count
    idle_taken s w id rest k g j =
        omega
          (arith, total-set (working k) s.workers w Worker.idle (Worker.busy id) g, ap (count k) j)

    idle_gone :
        (s : Iteration) (w : ℕ) (k : Bytes)
        → get_elem? s.workers w ≡ some Worker.idle
        → places k (with_worker w Worker.gone s) ≡ places k s
    idle_gone s w k g = omega (arith, total-set (working k) s.workers w Worker.idle Worker.gone g)

    sent_places :
        (s : Iteration) (id : Bytes) (rest : List Bytes) (k : Bytes)
        → s.todo ≡ id ∷ rest
        → places k (record s { todo = rest; jobs = s.jobs ++ id ∷ [] }) ≡ places k s
    unfolding count
    sent_places s id rest k e = omega (arith, ap (count k) e, count-append k s.jobs (id ∷ []))

    skipped_places :
        (s : Iteration) (id : Bytes) (rest : List Bytes) (k : Bytes)
        → s.todo ≡ id ∷ rest
        → places k (record s { todo = rest; dropped = id ∷ s.dropped }) ≡ places k s
    unfolding count
    skipped_places s id rest k e = omega (arith, ap (count k) e)

    Step-Holds : (s t : Iteration) → Kept keys s → Step index segments fn s t → Kept keys t
    unfolding work
    Step-Holds s _ h (Step.sends id rest e room) = record {
      counted = λ k. sent_places s id rest k e ∙ h.counted k;
      fetched = h.fetched;
      sent_all = λ c. absurd (cc (h.sent_all c, e));
      left = λ c p. absurd (cc (h.sent_all (h.left c p).0, e));
      unknown = h.unknown;
      cut = h.cut;
    }
    Step-Holds s _ h (Step.skips id rest e c) = record {
      counted = λ k. skipped_places s id rest k e ∙ h.counted k;
      fetched = h.fetched;
      sent_all = λ d. absurd (cc (h.sent_all d, e));
      left = λ d p. absurd (cc (c, d));
      unknown = λ d. absurd (cc (c, d));
      cut = h.cut;
    }
    Step-Holds s _ h (Step.closes e c) = record {
      counted = h.counted;
      fetched = h.fetched;
      sent_all = λ d. e;
      left = λ d p. (refl, (h.left d p).1);
      unknown = h.unknown;
      cut = h.cut;
    }
    Step-Holds s _ h (Step.takes w id rest g j) = record {
      counted = λ k. idle_taken s w id rest k g j ∙ h.counted k;
      fetched = h.fetched;
      sent_all = h.sent_all;
      left = λ c p. absurd (
          cc (
            (h.left c
                (omega (arith, total-set returned s.workers w Worker.idle (Worker.busy id) g))).1,
            j,
          ));
      unknown = h.unknown;
      cut = h.cut;
    }
    Step-Holds s _ h (Step.stops w g c) =
        cut_Holds s _ h refl refl (λ k. idle_gone s w k g) h.fetched c
    Step-Holds s _ h (Step.returns w g j c) = record {
      counted = λ k. idle_gone s w k g ∙ h.counted k;
      fetched = h.fetched;
      sent_all = h.sent_all;
      left = λ d p. (c, j);
      unknown = h.unknown;
      cut = h.cut;
    }
    Step-Holds s t h (Step.works w id g e) =
        after_fetch-Holds s t w id (fetch index segments fn id) h g refl e

    -- What holds at the start holds after any steps.
    pub Steps-Holds :
        (workers n : ℕ) (t : Iteration)
        → Steps index segments fn (start workers keys) n t
        → Kept keys t
    Steps-Holds workers _ _ Steps.here = start-Holds index segments fn workers keys
    Steps-Holds workers _ t (Steps.there r step) = Step-Holds _ t (Steps-Holds workers _ _ r) step
