-- ===== src/Dbs/Run/Loops.antt =====
-- internal/dbs/where.go: what a loop of Run over items, and its call of Iterate, leave.
use josefina.Prelude.{ℕ, zero, suc, Bool, true, false, List, [], ◌∷◌, ◌≡◌, refl}
use josefina.Prelude.Eq.{bytes_eq}
use josefina.Store.Result.{Result, ok, err, panic, Ensures, Ensures-ok, Ensures-err}
use josefina.Dbs.Objects.{Doc}
use josefina.Dbs.Run.{each, go_on, rows_after, go_late, go_on_or, late_calls, iterate}

-- What each visit that goes on keeps, and what one that stops leaves.
module _ {ℓ} {Q : Type ℓ} (Going Done : Q → Type 0) where
  abbrev pub Leaves : Bool × Q → Type 0
  Leaves (true, q) = Going q
  Leaves (false, q) = Done q

  abbrev pub Fine : Result (Bool × Q) → Type 0
  Fine (ok r) = Leaves r
  Fine (err e) = Unit
  Fine panic = Unit

  go_on-Fine :
      (r : Result (Bool × Q)) (f : Q → Result (Bool × Q))
      → Fine r
      → ((q : Q) → Going q → Fine (f q))
      → Fine (go_on r f)
  unfolding go_on
  go_on-Fine (ok (true, q)) f h k = k q h
  go_on-Fine (ok (false, q)) f h k = h
  go_on-Fine (err e) f h k = h
  go_on-Fine panic f h k = h

  module _ {F : Type 0} (visit : Doc F → Q → Result (Bool × Q))
      (keeps : (item : Doc F) (q : Q) → Going q → Fine (visit item q)) where
    pub each-Fine :
        (records : List (Result (Doc F))) (q : Q) → Going q → Fine (each visit records q)
    unfolding each
    each-Fine [] q h = h
    each-Fine (err e ∷ records) q h = tt
    each-Fine (panic ∷ records) q h = tt
    each-Fine (ok item ∷ records) q h =
        go_on-Fine (visit item q) (each visit records) (keeps item q h) (each-Fine records)

  -- The calls of Iterate: `Within n` of a state after a stop, while `n` calls may still come.
  module _ (Within : ℕ → Q → Type 0) (Late : Q → Type 0) where
    abbrev pub IsLate : ℕ → Bool × Q → Type 0
    IsLate n (b, q) = Within n q × (b ≡ true → Late q)

    abbrev pub LateFine : ℕ → Result (Bool × Q) → Type 0
    LateFine n (ok r) = IsLate n r
    LateFine n (err e) = Unit
    LateFine n panic = Unit

    go_late-LateFine :
        (n : ℕ) (r : Result (Bool × Q)) (f : Bool × Q → Result (Bool × Q))
        → LateFine n r
        → ((r : Bool × Q) → IsLate n r → LateFine 0 (f r))
        → LateFine 0 (go_late r f)
    unfolding go_late
    go_late-LateFine n (ok (b, q)) f h k = k (b, q) h
    go_late-LateFine n (err e) f h k = tt
    go_late-LateFine n panic f h k = tt

    module _ {F : Type 0} (less : (n : ℕ) (q : Q) → Within n q → Within 0 q)
        (visit : Doc F → Q → Result (Bool × Q))
        (keeps : (item : Doc F) (q : Q) → Going q → Fine (visit item q))
        (keeps_late : (item : Doc F) (n : ℕ) (q : Q)
          → Within (suc n) q
          → LateFine n (visit item q)) where
      late_calls-LateFine :
          (n : ℕ) (records : List (Result (Doc F))) (r : Bool × Q)
          → IsLate n r
          → LateFine 0 (late_calls visit n records r)
      unfolding late_calls
      late_calls-LateFine zero records (b, q) h = h
      late_calls-LateFine (suc n) [] (b, q) h = (less (suc n) q h.0, h.1)
      late_calls-LateFine (suc n) (err e ∷ records) r h = tt
      late_calls-LateFine (suc n) (panic ∷ records) r h = tt
      late_calls-LateFine (suc n) (ok item ∷ records) r h =
          go_late-LateFine n (visit item r.1) (late_calls visit n records)
            (keeps_late item n r.1 h.0) (late_calls-LateFine n records)

      module _ (late : ℕ) (goes : (q : Q) → Going q → Within 0 q × Late q)
          (stops : (q : Q) → Done q → Within late q) where
        go_on_or-LateFine :
            (r : Result (Bool × Q)) (f : Q → Result (Bool × Q)) (g : Bool × Q → Result (Bool × Q))
            → Fine r
            → ((q : Q) → Going q → LateFine 0 (f q))
            → ((r : Bool × Q) → IsLate late r → LateFine 0 (g r))
            → LateFine 0 (go_on_or r f g)
        unfolding go_on_or
        go_on_or-LateFine (ok (true, q)) f g h k l = k q h
        go_on_or-LateFine (ok (false, q)) f g h k l = l (false, q) (stops q h, λ e. absurd (cc))
        go_on_or-LateFine (err e) f g h k l = tt
        go_on_or-LateFine panic f g h k l = tt

        pub iterate-LateFine :
            (records : List (Result (Doc F))) (q : Q)
            → Going q
            → LateFine 0 (iterate visit late records q)
        unfolding iterate
        iterate-LateFine [] q h = ((goes q h).0, λ e. (goes q h).1)
        iterate-LateFine (err e ∷ records) q h = tt
        iterate-LateFine (panic ∷ records) q h = tt
        iterate-LateFine (ok item ∷ records) q h =
            go_on_or-LateFine (visit item q) (iterate visit late records)
              (late_calls visit late records) (keeps item q h) (iterate-LateFine records)
              (late_calls-LateFine late records)

    -- What the loop leaves, for the end of it.
    pub rows_after-late :
        {F : Type 0} (P : List (Doc F) → Type 0) (r : Result (Bool × Q)) (rows : Q → List (Doc F))
        (f : Q → Result (List (Doc F)))
        → LateFine 0 r
        → ((q : Q) → Within 0 q → P (rows q))
        → ((q : Q) → Within 0 q → Late q → Ensures P (f q))
        → Ensures P (rows_after r rows f)
    unfolding rows_after
    rows_after-late P (ok (true, q)) rows f h stop go = go q h.0 (h.1 refl)
    rows_after-late P (ok (false, q)) rows f h stop go = Ensures-ok (rows q) (stop q h.0)
    rows_after-late P (err e) rows f h stop go = Ensures-err e
    rows_after-late P panic rows f h stop go = record { at = λ b h. cc }

  pub rows_after-Ensures :
      {F : Type 0} (P : List (Doc F) → Type 0) (r : Result (Bool × Q)) (rows : Q → List (Doc F))
      (f : Q → Result (List (Doc F)))
      → Fine r
      → ((q : Q) → Done q → P (rows q))
      → ((q : Q) → Going q → Ensures P (f q))
      → Ensures P (rows_after r rows f)
  unfolding rows_after
  rows_after-Ensures P (ok (true, q)) rows f h stop go = go q h
  rows_after-Ensures P (ok (false, q)) rows f h stop go = Ensures-ok (rows q) (stop q h)
  rows_after-Ensures P (err e) rows f h stop go = Ensures-err e
  rows_after-Ensures P panic rows f h stop go = record { at = λ b h. cc }
