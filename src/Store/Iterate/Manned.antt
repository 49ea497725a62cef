-- ===== src/Store/Iterate/Manned.antt =====
-- Iterate of internal/store/store.go: there is always a worker, at work or returned.
use josefina.Prelude.{
  ℕ, zero, suc, ◌<◌, Bool, true, false, Option, none, some, List, [], ◌∷◌, ◌++◌, length, set, ◌≡◌,
  refl, ap, ◌∙◌, sym, arith, inl, inr, Option-cases,
}
use josefina.Prelude.Eq.{bytes_eq}
use josefina.Store.Result.{Result, ok, err, panic, Error, ok-injective}
use josefina.Store.Bytes.{Bytes}
use josefina.Store.Segment.{Segment, RecordRef}
use josefina.Store.Iterate.{
  Worker, Iteration, start, set_err, after_call, fetch, after_fetch, work, Step, Steps,
}
use josefina.Store.Iterate.Counts.{total, returned, to_go}

length-set : (ws : List Worker) (w : ℕ) (x : Worker) → length (set ws w x) ≡ length ws
length-set [] w x = refl
length-set (y ∷ ws) zero x = refl
length-set (y ∷ ws) (suc w) x = ap suc (length-set ws w x)

-- Who has returned or may go on: everyone.
pub all_or_none : (ws : List Worker) → 0 < length ws → total to_go ws ≡ 0 → 0 < total returned ws
unfolding total
all_or_none [] h z = absurd (omega arith)
all_or_none (Worker.gone ∷ ws) h z = omega arith
all_or_none (Worker.idle ∷ ws) h z = absurd (omega arith)
all_or_none (Worker.busy id ∷ ws) h z = absurd (omega arith)

set_err-workers : (e : Error) (s : Iteration) → (set_err e s).workers ≡ s.workers
unfolding set_err
set_err-workers e s = elim (Option-cases s.failure) [
  | inl first ↦ rw first refl
  | inr (f, later) ↦ rw later refl
]

module _ (index : List (Bytes × Option RecordRef)) (segments : List Segment)
    (fn : Bytes → Bytes → Result Bool) where
  after_call-workers :
      (s t : Iteration) (w : ℕ) (r : Result Bool)
      → after_call w r s ≡ ok t
      → length t.workers ≡ length s.workers
  unfolding after_call
  after_call-workers s t w (ok true) e =
      ap (λ u. length u.workers) (sym (ok-injective e)) ∙ length-set s.workers w Worker.idle
  after_call-workers s t w (ok false) e =
      ap (λ u. length u.workers) (sym (ok-injective e)) ∙ length-set s.workers w Worker.gone
  after_call-workers s t w (err x) e =
      ap (λ u. length u.workers) (sym (ok-injective e))
      ∙ length-set (set_err x s).workers w Worker.gone
      ∙ ap length (set_err-workers x s)
  after_call-workers s t w panic e = absurd (cc)

  after_fetch-workers :
      (s t : Iteration) (w : ℕ) (id : Bytes) (o : Result (Option Bytes))
      → after_fetch index segments fn w id o s ≡ ok t
      → length t.workers ≡ length s.workers
  unfolding after_fetch
  after_fetch-workers s t w id (ok none) e =
      ap (λ u. length u.workers) (sym (ok-injective e)) ∙ length-set s.workers w Worker.idle
  after_fetch-workers s t w id (ok (some payload)) e =
      after_call-workers (record s { calls = s.calls ++ (id, payload) ∷ [] }) t w _ e
  after_fetch-workers s t w id (err x) e =
      ap (λ u. length u.workers) (sym (ok-injective e))
      ∙ length-set (set_err x (record s { dropped = id ∷ s.dropped })).workers w Worker.gone
      ∙ ap length (set_err-workers x (record s { dropped = id ∷ s.dropped }))
  after_fetch-workers s t w id panic e = absurd (cc)

  Step-workers :
      (s t : Iteration) → Step index segments fn s t → length t.workers ≡ length s.workers
  unfolding work
  Step-workers s _ (Step.sends id rest e room) = refl
  Step-workers s _ (Step.skips id rest e c) = refl
  Step-workers s _ (Step.closes e c) = refl
  Step-workers s _ (Step.takes w id rest g j) = length-set s.workers w _
  Step-workers s _ (Step.stops w g c) = length-set s.workers w _
  Step-workers s _ (Step.returns w g j c) = length-set s.workers w _
  Step-workers s t (Step.works w id g e) =
      after_fetch-workers s t w id (fetch index segments fn id) e

  pub Steps-workers :
      (s t : Iteration) (n : ℕ)
      → Steps index segments fn s n t
      → length t.workers ≡ length s.workers
  Steps-workers s _ _ Steps.here = refl
  Steps-workers s t _ (Steps.there {n} r step) = Step-workers _ t step ∙ Steps-workers s _ n r

  pub start-workers : (workers : ℕ) (keys : List Bytes) → 0 < length (start workers keys).workers
  unfolding start
  start-workers zero keys = omega arith
  start-workers (suc n) keys = ground arith
