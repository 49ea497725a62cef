-- ===== src/Store/Iterate/Keeps.antt =====
-- Iterate of internal/store/store.go: what holds after any number of steps.
use josefina.Prelude.{
  ℕ, ◌+◌, ◌<◌, Bool, true, false, Option, none, some, List, [], map, ◌≡◌, refl, arith, All,
  if◌then◌else◌, ◌==◌,
}
use josefina.Prelude.Eq.{bytes_eq}
use josefina.Store.Result.{Result, ok}
use josefina.Store.Bytes.{Bytes}
use josefina.Store.Segment.{Segment, RecordRef}
use josefina.Store.Iterate.{Worker, Iteration, start, fetch}
use josefina.Store.Iterate.Counts.{count, total, total-replicate, working, returned}

abbrev pub called : Iteration → List Bytes
called s = map (λ (c : Bytes × Bytes). c.0) s.calls

-- How often an id is anywhere.
abbrev pub places : Bytes → Iteration → ℕ
places k s =
    count k s.todo
    + count k s.jobs
    + total (working k) s.workers
    + count k (called s)
    + count k s.dropped

module _ (index : List (Bytes × Option RecordRef)) (segments : List Segment)
    (fn : Bytes → Bytes → Result Bool) where
  abbrev Fetched : Bytes × Bytes → Type 0
  Fetched c = fetch index segments fn c.0 ≡ ok (some c.1)

  abbrev Unknown : Bytes → Type 0
  Unknown id = fetch index segments fn id ≡ ok none

  -- Every id of `keys` is in one place, the data of the calls are those of their ids, and as long as
  -- nothing was cancelled nothing was lost.
  pub record Holds (keys : List Bytes) (s : Iteration) : Type 0 where
    pub counted : (k : Bytes) → places k s ≡ count k keys
    pub fetched : All Fetched s.calls
    pub sent_all : s.closed ≡ true → s.todo ≡ []
    pub left :
        s.cancelled ≡ false → 0 < total returned s.workers → (s.closed ≡ true) × (s.jobs ≡ [])
    pub unknown : s.cancelled ≡ false → All Unknown s.dropped
    pub cut : s.cancelled ≡ false → s.failure ≡ none

  pub start-Holds : (workers : ℕ) (keys : List Bytes) → Holds keys (start workers keys)
  unfolding start count
  start-Holds workers keys = record {
    counted = λ k. omega (arith, total-replicate (working k) (at_least workers) Worker.idle refl);
    fetched = tt;
    sent_all = λ h. absurd (cc);
    left =
        λ c h. absurd (omega (arith, total-replicate returned (at_least workers) Worker.idle refl));
    unknown = λ h. tt;
    cut = λ h. refl;
  }
    where
      at_least : ℕ → ℕ
      at_least n = if n == 0 then 1 else n
