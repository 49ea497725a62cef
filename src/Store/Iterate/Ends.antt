-- ===== src/Store/Iterate/Ends.antt =====
-- Iterate of internal/store/store.go: it comes to an end, whatever is done first.
use josefina.Prelude.{
  ℕ, ◌+◌, ◌*◌, ◌≤◌, ◌<◌, Bool, true, false, Option, none, some, List, [], ◌∷◌, ◌++◌, length,
  length-append, get_elem?, ◌≡◌, refl, ap, subst, arith, inl, inr, if◌then◌else◌, Option-cases,
}
use josefina.Prelude.Eq.{bytes_eq}
use josefina.Store.Result.{Result, ok, err, panic, Error, ok-injective}
use josefina.Store.Bytes.{Bytes}
use josefina.Store.Segment.{Segment, RecordRef}
use josefina.Store.Iterate.{
  Worker, Iteration, set_err, with_worker, after_call, fetch, after_fetch, work, Step, Steps,
}
use josefina.Store.Iterate.Counts.{total, total-set, to_go}

-- How many steps there may still be.
abbrev pub measure : Iteration → ℕ
measure s =
    3 * length s.todo + 2 * length s.jobs + total to_go s.workers + (if s.closed then 0 else 1)

-- wg.Wait has returned.
abbrev pub IsOver : Iteration → Type 0
IsOver s = (s.closed ≡ true) × (total to_go s.workers ≡ 0)

set_err-measure :
    (e : Error) (s : Iteration) (w : ℕ)
    → measure (with_worker w Worker.gone (set_err e s)) ≡ measure (with_worker w Worker.gone s)
unfolding set_err
set_err-measure e s w = elim (Option-cases s.failure) [
  | inl first ↦ rw first refl
  | inr (f, later) ↦ rw later refl
]

gone_after :
    (s : Iteration) (w : ℕ) (x y : Worker)
    → get_elem? s.workers w ≡ some x
    → to_go y < to_go x
    → measure (with_worker w y s) < measure s
gone_after s w x y g h = omega (arith, total-set to_go s.workers w x y g)

module _ (index : List (Bytes × Option RecordRef)) (segments : List Segment)
    (fn : Bytes → Bytes → Result Bool) where
  after_call-measure :
      (s t : Iteration) (w : ℕ) (id : Bytes) (r : Result Bool)
      → get_elem? s.workers w ≡ some (Worker.busy id)
      → after_call w r s ≡ ok t
      → measure t < measure s
  unfolding after_call
  after_call-measure s t w id (ok true) g e =
      subst (λ u. measure u < measure s) (ok-injective e)
        (gone_after s w (Worker.busy id) Worker.idle g (omega arith))
  after_call-measure s t w id (ok false) g e =
      subst (λ u. measure u < measure s) (ok-injective e)
        (gone_after s w (Worker.busy id) Worker.gone g (omega arith))
  after_call-measure s t w id (err x) g e =
      subst (λ u. measure u < measure s) (ok-injective e)
        (omega (
          arith,
          set_err-measure x s w,
          gone_after s w (Worker.busy id) Worker.gone g (omega arith),
        ))
  after_call-measure s t w id panic g e = absurd (cc)

  after_fetch-measure :
      (s t : Iteration) (w : ℕ) (id : Bytes) (o : Result (Option Bytes))
      → get_elem? s.workers w ≡ some (Worker.busy id)
      → after_fetch index segments fn w id o s ≡ ok t
      → measure t < measure s
  unfolding after_fetch
  after_fetch-measure s t w id (ok none) g e =
      subst (λ u. measure u < measure s) (ok-injective e)
        (gone_after s w (Worker.busy id) Worker.idle g (omega arith))
  after_fetch-measure s t w id (ok (some payload)) g e =
      after_call-measure (record s { calls = s.calls ++ (id, payload) ∷ [] }) t w id _ g e
  after_fetch-measure s t w id (err x) g e =
      subst (λ u. measure u < measure s) (ok-injective e)
        (omega (
          arith,
          set_err-measure x (record s { dropped = id ∷ s.dropped }) w,
          gone_after s w (Worker.busy id) Worker.gone g (omega arith),
        ))
  after_fetch-measure s t w id panic g e = absurd (cc)

  -- Every step leaves fewer.
  Step-measure : (s t : Iteration) → Step index segments fn s t → measure t < measure s
  unfolding work
  Step-measure s _ (Step.sends id rest e room) =
      omega (arith, ap length e, length-append s.jobs (id ∷ []))
  Step-measure s _ (Step.skips id rest e c) = omega (arith, ap length e)
  Step-measure s _ (Step.closes e c) = ground (arith, c)
  Step-measure s _ (Step.takes w id rest g j) =
      omega (arith, ap length j, total-set to_go s.workers w Worker.idle (Worker.busy id) g)
  Step-measure s _ (Step.stops w g c) = gone_after s w Worker.idle Worker.gone g (omega arith)
  Step-measure s _ (Step.returns w g j c) = gone_after s w Worker.idle Worker.gone g (omega arith)
  Step-measure s t (Step.works w id g e) =
      after_fetch-measure s t w id (fetch index segments fn id) g e

  pub Steps-measure :
      (s t : Iteration) (n : ℕ) → Steps index segments fn s n t → n + measure t ≤ measure s
  Steps-measure s _ _ Steps.here = omega arith
  Steps-measure s t _ (Steps.there {n} r step) =
      omega (arith, Steps-measure s _ n r, Step-measure _ t step)
