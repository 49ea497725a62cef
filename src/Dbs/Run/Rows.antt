-- ===== src/Dbs/Run/Rows.antt =====
-- internal/dbs/where.go: the rows of a query, their number and their fields.
use josefina.Prelude.{
  ℕ, suc, ◌++◌, ◌+◌, ◌≤◌, ◌<◌, Bool, true, false, Option, none, some, List, [], ◌∷◌, ◌≡◌, ◌⊎◌, inl,
  inr, refl, arith, length, length-append, All, All-append, map, ltb, Bool-cases, if_elim,
}
use josefina.Prelude.Eq.{bytes_eq}
use josefina.Store.Result.{Result, ok, err, panic, Ensures, Ensures-ok, Ensures-err}
use josefina.Store.Bytes.{Bytes}
use josefina.Dbs.Value.{Value, Float64}
use josefina.Dbs.Condition.{Condition}
use josefina.Dbs.Where.{validate_item}
use josefina.Dbs.Model.{Model}
use josefina.Dbs.Step.{Step, continue, continue-ok}
use josefina.Dbs.Tx.{Tx, get_recors}
use josefina.Dbs.Objects.{KeyStore, Doc}
use josefina.Dbs.Run.{
  Wheres, shown, add_result, visit_all, tested, visit_valid, fields_of, run_all, run_items,
}
use josefina.Dbs.Run.Query.{
  by_index, add_fields, add_cached, records_of_model, run_indexed, run_on, run,
}
use josefina.Dbs.Run.Loops.{
  Leaves, Fine, each-Fine, rows_after-Ensures, LateFine, rows_after-late, iterate-LateFine,
}

no_more : (n a b : ℕ) → (n + 0 ≤ a) ⊎ (n + 0 ≤ b) → (n ≤ a) ⊎ (n ≤ b)
no_more n a b (inl h) = inl (omega arith)
no_more n a b (inr h) = inr (omega arith)

-- The rows of a query: at most one, or at most as many as its limit, each a document as shown; and
-- with `late` calls after the first that stops, of which `n` are still to come.
module _ {F : Type 0} (w : Wheres F) where
  abbrev IsRow : Doc F → Type 0
  IsRow d = (item : Doc F) × (d ≡ shown w item)

  abbrev pub AreRows : List (Doc F) → Type 0
  AreRows rows = ((length rows ≤ 1) ⊎ (length rows ≤ w.limit)) × All IsRow rows

  abbrev AreSoFar : List (Doc F) → Type 0
  AreSoFar rows = ((length rows ≡ 0) ⊎ (length rows < w.limit)) × All IsRow rows

  AreSoFar-AreRows : (rows : List (Doc F)) → AreSoFar rows → AreRows rows
  AreSoFar-AreRows rows (inl none_yet, shown_all) = (inl (omega arith), shown_all)
  AreSoFar-AreRows rows (inr below, shown_all) = (inr (omega arith), shown_all)

  below_one : (n m : ℕ) → m ≡ n + 1 → (n ≡ 0) ⊎ (n < w.limit) → (m ≤ 1) ⊎ (m ≤ w.limit)
  below_one n m e (inl z) = inl (omega arith)
  below_one n m e (inr b) = inr (omega arith)

  add_result-rows :
      (item : Doc F) (rows : List (Doc F))
      → AreSoFar rows
      → Leaves AreSoFar AreRows (add_result w item rows)
  unfolding add_result
  add_result-rows item rows h =
      let added = length-append rows (shown w item ∷ []) in
      let all = All-append IsRow rows (shown w item ∷ []) h.1 ((item, refl), tt) in
      elim (Bool-cases (ltb (length rows + 1) w.limit)) [
        | inl t ↦ rw t (inr (ground (arith, added)), all)
        | inr f ↦ rw f (below_one (length rows) _ added h.0, all)
      ]

  visit_all-Fine :
      (item : Doc F) (rows : List (Doc F))
      → AreSoFar rows
      → Fine AreSoFar AreRows (visit_all w item rows)
  unfolding visit_all
  visit_all-Fine item rows h = add_result-rows item rows h

  module _ (late : ℕ) where
    abbrev AreWithin : ℕ → List (Doc F) → Type 0
    AreWithin n rows =
        ((length rows + n ≤ 1 + late) ⊎ (length rows + n ≤ w.limit + late)) × All IsRow rows

    AreRows-AreWithin : (rows : List (Doc F)) → AreRows rows → AreWithin late rows
    AreRows-AreWithin rows (inl one, shown_all) = (inl (omega arith), shown_all)
    AreRows-AreWithin rows (inr many, shown_all) = (inr (omega arith), shown_all)

    fewer : (m n : ℕ) (rows : List (Doc F)) → n ≤ m → AreWithin m rows → AreWithin n rows
    fewer m n rows le (inl one, shown_all) = (inl (omega arith), shown_all)
    fewer m n rows le (inr many, shown_all) = (inr (omega arith), shown_all)

    one_more :
        (n : ℕ) (rows more : List (Doc F))
        → length more ≡ length rows + 1
        → AreWithin (suc n) rows
        → (length more + n ≤ 1 + late) ⊎ (length more + n ≤ w.limit + late)
    one_more n rows more e (inl one, shown_all) = inl (omega arith)
    one_more n rows more e (inr many, shown_all) = inr (omega arith)

    add_result-late :
        (item : Doc F) (n : ℕ) (rows : List (Doc F))
        → AreWithin (suc n) rows
        → AreWithin n (add_result w item rows).1
          × ((add_result w item rows).0 ≡ true → AreSoFar (add_result w item rows).1)
    unfolding add_result
    add_result-late item n rows h =
        let added = length-append rows (shown w item ∷ []) in
        let all = All-append IsRow rows (shown w item ∷ []) h.1 ((item, refl), tt) in
        (
          (one_more n rows (rows ++ shown w item ∷ []) added h, all),
          λ e. (inr (ground (arith, added, e)), all),
        )

    AreSoFar-AreWithin : (rows : List (Doc F)) → AreSoFar rows → AreWithin 0 rows
    AreSoFar-AreWithin rows h =
        fewer late 0 rows (omega arith) (AreRows-AreWithin rows (AreSoFar-AreRows rows h))

    AreRows-AreWithin-zero : (rows : List (Doc F)) → AreRows rows → AreWithin 0 rows
    AreRows-AreWithin-zero rows h = fewer late 0 rows (omega arith) (AreRows-AreWithin rows h)

  visit_all-late :
      (late : ℕ) (item : Doc F) (n : ℕ) (rows : List (Doc F))
      → AreWithin late (suc n) rows
      → LateFine AreSoFar AreRows (AreWithin late) AreSoFar n (visit_all w item rows)
  unfolding visit_all
  visit_all-late late item n rows h = add_result-late late item n rows h

  none_yet : AreSoFar []
  none_yet = (inl refl, tt)

  run_all-rows :
      (cache : List (Doc F)) (records : List (Result (Doc F)) × ℕ)
      → Ensures (AreWithin records.1 0) (run_all w cache records)
  unfolding run_all
  run_all-rows cache (records, late) =
      let go = AreSoFar-AreWithin late in
      rows_after-late AreSoFar AreRows (AreWithin late) AreSoFar (AreWithin late 0) _ _ _
        (iterate-LateFine AreSoFar AreRows (AreWithin late) AreSoFar
          (λ n rows h. fewer late n 0 rows (omega arith) h) (visit_all w) visit_all-Fine
          (visit_all-late late) late (λ rows h. (go rows h, h)) (AreRows-AreWithin late) records []
          none_yet)
        (λ rows h. h)
        (λ rows h l.
          rows_after-Ensures AreSoFar AreRows (AreWithin late 0) _ _ _
            (each-Fine AreSoFar AreRows (visit_all w) visit_all-Fine (map ok cache) rows l)
            (AreRows-AreWithin-zero late) (λ rows h. Ensures-ok rows (go rows h)))

module _ (fl : Float64) (split : Bytes → List Bytes) where
  open fl use {F}

  module _ (w : Wheres F) where
    abbrev HasSoFar : List (Doc F) × List (Condition F) → Type 0
    HasSoFar q = AreSoFar w q.0

    abbrev HasRows : List (Doc F) × List (Condition F) → Type 0
    HasRows q = AreRows w q.0

    with_conditions :
        (r : Bool × List (Doc F)) (cs : List (Condition F))
        → Leaves (AreSoFar w) (AreRows w) r
        → Leaves HasSoFar HasRows (r.0, (r.1, cs))
    with_conditions (true, rows) cs h = h
    with_conditions (false, rows) cs h = h

    tested-Fine :
        (item : Doc F) (rows : List (Doc F)) (answer : Option (Bool × List (Condition F)))
        → AreSoFar w rows
        → Fine HasSoFar HasRows (tested fl split w item rows answer)
    unfolding tested
    tested-Fine item rows none h = tt
    tested-Fine item rows (some (false, cs)) h = h
    tested-Fine item rows (some (true, cs)) h =
        with_conditions (add_result w item rows) cs (add_result-rows w item rows h)

    visit_valid-Fine :
        (item : Doc F) (q : List (Doc F) × List (Condition F))
        → HasSoFar q
        → Fine HasSoFar HasRows (visit_valid fl split w item q)
    unfolding visit_valid
    visit_valid-Fine item q h = tested-Fine item q.0 (validate_item fl split q.1 (fields_of item)) h

    module _ (late : ℕ) where
      abbrev HasWithin : ℕ → List (Doc F) × List (Condition F) → Type 0
      HasWithin n q = AreWithin w late n q.0

      has_fewer : (n : ℕ) (q : List (Doc F) × List (Condition F)) → HasWithin n q → HasWithin 0 q
      has_fewer n q h = fewer w late n 0 q.0 (omega arith) h

      abbrev IsVisit : ℕ → Result (Bool × (List (Doc F) × List (Condition F))) → Type 0
      IsVisit n r = LateFine HasSoFar HasRows HasWithin (HasWithin 0) n r

      tested-late :
          (item : Doc F) (n : ℕ) (rows : List (Doc F)) (answer : Option (Bool × List (Condition F)))
          → AreWithin w late (suc n) rows
          → IsVisit n (tested fl split w item rows answer)
      unfolding tested
      tested-late item n rows none h = tt
      tested-late item n rows (some (false, cs)) h = (
        fewer w late (suc n) n rows (omega arith) h,
        λ e. fewer w late (suc n) 0 rows (omega arith) h,
      )
      tested-late item n rows (some (true, cs)) h =
          let r = add_result-late w late item n rows h in
          (r.0, λ e. fewer w late n 0 (add_result w item rows).1 (omega arith) r.0)

      visit_valid-late :
          (item : Doc F) (n : ℕ) (q : List (Doc F) × List (Condition F))
          → HasWithin (suc n) q
          → IsVisit n (visit_valid fl split w item q)
      unfolding visit_valid
      visit_valid-late item n q h =
          tested-late item n q.0 (validate_item fl split q.1 (fields_of item)) h

    run_items-rows :
        (cs : List (Condition F)) (only_keys : Bool) (items : List (Doc F))
        (records : List (Result (Doc F)) × ℕ)
        → Ensures (AreWithin w records.1 0) (run_items fl split w cs only_keys items records)
    unfolding run_items
    run_items-rows cs only_keys items (records, late) =
        let go = λ (q : List (Doc F) × List (Condition F)) (h : HasSoFar q).
          AreSoFar-AreWithin w late q.0 h in
        rows_after-Ensures HasSoFar HasRows (AreWithin w late 0) _ _ _
          (each-Fine HasSoFar HasRows (visit_valid fl split w) visit_valid-Fine (map ok items)
            ([], cs) (none_yet w))
          (λ q h. AreRows-AreWithin-zero w late q.0 h)
          (λ q h. if_elim (Ensures (AreWithin w late 0)) only_keys _ _ (Ensures-ok q.0 (go q h)) (
            rows_after-late HasSoFar HasRows (HasWithin late) (HasWithin late 0)
              (AreWithin w late 0) _ _ _
              (iterate-LateFine HasSoFar HasRows (HasWithin late) (HasWithin late 0)
                (has_fewer late) (visit_valid fl split w) visit_valid-Fine (visit_valid-late late)
                late (λ q h. (go q h, go q h)) (λ q h. AreRows-AreWithin w late q.0 h) records q h)
              (λ q h. h) (λ q h l. Ensures-ok q.0 h)))

    module _ {S : Type 0} (k : KeyStore S F) (same : Value F → Value F → Bool) where
      abbrev EnsuresRows : ℕ → Result (List (Doc F)) × Model F S → Type 0
      EnsuresRows late r = Ensures (AreWithin w late 0) r.0

      continue-EnsuresRows {ℓ} :
          {A : Type ℓ} (late : ℕ) (r : Result A) (f : A → Step (Model F S) (List (Doc F)))
          (m : Model F S)
          → ((a : A) (n : Model F S) → EnsuresRows late (f a n))
          → EnsuresRows late (continue r f m)
      continue-EnsuresRows late (ok a) f m h = h a m
      continue-EnsuresRows late (err e) f m h = Ensures-err e
      continue-EnsuresRows late panic f m h = record { at = λ b h. cc }

      run_indexed-rows :
          (cache : List (Doc F)) (records : List (Result (Doc F)) × ℕ)
          (r : Bool × (List (Bytes × List Bytes) × List (Condition F))) (m : Model F S)
          → EnsuresRows records.1 (run_indexed fl split k same w cache records r m)
      unfolding run_indexed
      run_indexed-rows cache records (only_keys, (found, cs)) m =
          continue-EnsuresRows records.1 (add_fields fl split k same found [] m).0 _
            (add_fields fl split k same found [] m).1
            (λ items n.
              run_items-rows cs only_keys (add_cached fl split k same cache items) records)

      run_on-rows :
          (cache : List (Doc F)) (records : List (Result (Doc F)) × ℕ) (cs : List (Condition F))
          (m : Model F S)
          → EnsuresRows records.1 (run_on fl split k same w cache records cs m)
      unfolding run_on
      run_on-rows cache records [] m = run_all-rows w cache records
      run_on-rows cache records (c ∷ cs) m =
          continue-EnsuresRows records.1 (by_index fl split k same w m (c ∷ cs) w.keys) _ m
            (λ r n. run_indexed-rows cache records r n)

      -- A query that returns has read its records, and it has at most one row or at most as many as
      -- its limit, and besides at most as many as calls of Iterate's function came, of other workers,
      -- after the first that stopped. Each row is a document as the query shows it: its selected
      -- fields, or all but those hidden.
      pub run-rows :
          (tx : Tx (Doc F)) (m : Model F S) (rows : List (Doc F))
          → (run fl split k same tx w m).0 ≡ ok rows
          → (records : List (Result (Doc F)) × ℕ) × ((records_of_model fl split k same w m).0
              ≡ ok records)
            × ((length rows ≤ 1 + records.1) ⊎ (length rows ≤ w.limit + records.1))
            × All (λ d. (item : Doc F) × (d ≡ shown w item)) rows
      unfolding run
      run-rows tx m rows h =
          let read = records_of_model fl split k same w m in
          let (records, e, r) =
            continue-ok read.0
              (λ records. run_on fl split k same w (get_recors m.from tx) records w.conditions)
              read.1 rows h in
          let q = (run_on-rows (get_recors m.from tx) records w.conditions read.1).at rows r in
          (records, e, no_more (length rows) (1 + records.1) (w.limit + records.1) q.0, q.1)
