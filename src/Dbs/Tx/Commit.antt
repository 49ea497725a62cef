-- ===== src/Dbs/Tx/Commit.antt =====
-- internal/dbs/tx.go: what a commit leaves of the transaction and of the world.
use josefina.Prelude.{
  ℕ, suc, ◌≤◌, Option, none, some, List, [], ◌∷◌, ◌++◌, ◌≡◌, ◌≢◌, refl, sym, ap, ◌∙◌, arith, map,
  length, take, drop, get_elem?, set, append_assoc, get_elem?-append_at, set-append_at,
  length-append, inl, inr, ◌⊎◌,
}
use josefina.Store.Result.{Result, ok, err, panic}
use josefina.Dbs.Step.{Step, pure, continue, ◌>>◌}
use josefina.Dbs.Tx.{
  Transaction, Tx, Outside, processed, on_world, report, mark, change, set_status, perform,
  commit_from, commit,
}

module _ {D W : Type 0} (o : Outside D W) where
  abbrev pub done_with : Transaction D → Transaction D
  done_with t = record t { status = processed }

  report-transactions :
      (f : Option (Tx D → Step W (Unit {0}))) (s : Tx D × W)
      → (report o f s).1.0.transactions ≡ s.0.transactions
  unfolding report on_world
  report-transactions none s = refl
  report-transactions (some f) s = refl

  pub change-transactions : (s : Tx D × W) → (change o s).1.0.transactions ≡ s.0.transactions
  unfolding change
  change-transactions s =
      report-transactions (Outside.on_change o) (record s.0 { ended_at = Outside.now o s.1 }, s.1)

  change-quiet :
      (s : Tx D × W)
      → Outside.on_change o ≡ none
      → ((change o s).0 ≡ ok tt) × ((change o s).1.1 ≡ s.1)
  unfolding change report
  change-quiet s is_unset =
      let ended : Tx D × W = (record s.0 { ended_at = Outside.now o s.1 }, s.1) in
      (ap (λ f. (report o f ended).0) is_unset, ap (λ f. (report o f ended).1.1) is_unset)

  module _ (pre ts : List (Transaction D)) (t : Transaction D) (i : ℕ) (s : Tx D × W)
      (at : i ≡ length pre) (h : s.0.transactions ≡ pre ++ t ∷ ts) where
    finds : get_elem? s.0.transactions i ≡ some t
    finds = ap (λ l. get_elem? l i) h ∙ get_elem?-append_at pre ts t i at

    abbrev marked : Tx D × W
    marked = (record s.0 { transactions = set s.0.transactions i (done_with t) }, s.1)

    set_status-transactions :
        (set_status o i processed s).1.0.transactions ≡ pre ++ done_with t ∷ ts
    unfolding set_status mark
    set_status-transactions =
        ap (λ f. (mark o f i processed s).1.0.transactions) finds
        ∙ change-transactions marked
        ∙ ap (λ l. set l i (done_with t)) h
        ∙ set-append_at pre ts t (done_with t) i at

    set_status-quiet :
        Outside.on_change o ≡ none
        → ((set_status o i processed s).0 ≡ ok tt) × ((set_status o i processed s).1.1 ≡ s.1)
    unfolding set_status mark
    set_status-quiet is_unset = (
      ap (λ f. (mark o f i processed s).0) finds ∙ (change-quiet marked is_unset).0,
      ap (λ f. (mark o f i processed s).1.1) finds ∙ (change-quiet marked is_unset).1,
    )

  -- The transactions that `n` steps of a commit leave.
  abbrev pub committed : ℕ → List (Transaction D) → List (Transaction D)
  committed n ts = map done_with (take n ts) ++ drop n ts

  -- The runs of a commit: over `ts` it has set the first `n` to Processed, and all where it succeeds.
  pub record Commits (pre ts : List (Transaction D)) (m : Result (Unit {0}) × (Tx D × W))
      : Type 0 where
    pub count : ℕ
    pub count_le : count ≤ length ts
    pub all_done : m.0 ≡ ok tt → count ≡ length ts
    pub leaves : m.1.0.transactions ≡ pre ++ committed count ts

  continue-Commits :
      (pre ts : List (Transaction D)) (r : Result (Unit {0}))
      (f : Unit → Step (Tx D × W) (Unit {0})) (s : Tx D × W)
      → s.0.transactions ≡ pre ++ ts
      → Commits pre ts (f tt s)
      → Commits pre ts (continue r f s)
  continue-Commits pre ts (ok a) f s h c = c
  continue-Commits pre ts (err e) f s h c = record {
    count = 0;
    count_le = omega arith;
    all_done = λ is_ok. absurd (cc);
    leaves = h;
  }
  continue-Commits pre ts panic f s h c = record {
    count = 0;
    count_le = omega arith;
    all_done = λ is_ok. absurd (cc);
    leaves = h;
  }

  after_one :
      (pre ts : List (Transaction D)) (t : Transaction D) (m : Result (Unit {0}) × (Tx D × W))
      → Commits (pre ++ done_with t ∷ []) ts m
      → Commits pre (t ∷ ts) m
  after_one pre ts t m c = record {
    count = suc (c.count);
    count_le = omega arith;
    all_done = λ is_ok. ap suc (c.all_done is_ok);
    leaves = c.leaves ∙ append_assoc pre (done_with t ∷ []) (committed (c.count) ts);
  }

  length_snoc :
      (pre : List (Transaction D)) (t : Transaction D) {i : ℕ}
      → i ≡ length pre
      → suc i ≡ length (pre ++ done_with t ∷ [])
  length_snoc pre t at = let e = length-append pre (done_with t ∷ []) in omega arith

  commit_from-Commits :
      (pre ts : List (Transaction D)) (i : ℕ) (s : Tx D × W)
      → i ≡ length pre
      → s.0.transactions ≡ pre ++ ts
      → Commits pre ts (commit_from o i ts s)
  unfolding commit_from on_world
  commit_from-Commits pre [] i s at h = record {
    count = 0;
    count_le = omega arith;
    all_done = λ _. refl;
    leaves = h;
  }
  commit_from-Commits pre (t ∷ ts) i s at h =
      let moved =
        set_status-transactions pre ts t i (s.0, (perform o t s.1).1) at h
        ∙ sym (append_assoc pre (done_with t ∷ []) ts) in
      continue-Commits pre (t ∷ ts) (perform o t s.1).0 _ (s.0, (perform o t s.1).1) h
        (after_one pre ts t _ (
          continue-Commits (pre ++ done_with t ∷ []) ts
            (set_status o i processed (s.0, (perform o t s.1).1)).0 _
            (set_status o i processed (s.0, (perform o t s.1).1)).1 moved
            (commit_from-Commits (pre ++ done_with t ∷ []) ts (suc i)
              (set_status o i processed (s.0, (perform o t s.1).1)).1 (length_snoc pre t at)
              moved)))

  Result-decides {ℓ} : {P : Type ℓ} (r : Result (Unit {0})) → (r ≡ ok tt → P) → P ⊎ (r ≢ ok tt)
  Result-decides (ok a) f = inl (f refl)
  Result-decides (err e) f = inr (λ is_ok. absurd (cc))
  Result-decides panic f = inr (λ is_ok. absurd (cc))

  -- A commit sets the status of the first `n` transactions to Processed and leaves all else of the
  -- list as it was; `n` is at most their number, and is their number where the commit succeeds.
  pub commit-committed :
      (s : Tx D × W)
      → (n : ℕ) × (n ≤ length s.0.transactions)
        × ((commit o s).1.0.transactions
            ≡ map done_with (take n s.0.transactions) ++ drop n s.0.transactions)
        × ((n ≡ length s.0.transactions) ⊎ ((commit o s).0 ≢ ok tt))
  unfolding commit
  commit-committed s =
      let c = commit_from-Commits [] s.0.transactions 0 s refl refl in
      (c.count, c.count_le, c.leaves, Result-decides (commit o s).0 c.all_done)

  -- What a commit asks of the nodes, one transaction after the other up to the first that fails.
  unfoldable pub perform_all : List (Transaction D) → Step W (Unit {0})
  perform_all [] = pure tt
  perform_all (t ∷ ts) = perform o t >> perform_all ts

  abbrev Runs : Result (Unit {0}) × (Tx D × W) → Result (Unit {0}) × W → Type 0
  Runs m n = (m.0 ≡ n.0) × (m.1.1 ≡ n.1)

  continue-Runs :
      (r : Result (Unit {0})) (f : Unit → Step (Tx D × W) (Unit {0})) (g : Unit → Step W (Unit {0}))
      (s : Tx D × W)
      → Runs (f tt s) (g tt s.1)
      → Runs (continue r f s) (continue r g s.1)
  continue-Runs (ok a) f g s h = h
  continue-Runs (err e) f g s h = (refl, refl)
  continue-Runs panic f g s h = (refl, refl)

  passes-Runs :
      (r : Result (Unit {0}) × (Tx D × W)) (f : Unit → Step (Tx D × W) (Unit {0}))
      (g : Step W (Unit {0})) (w : W)
      → r.0 ≡ ok tt
      → r.1.1 ≡ w
      → Runs (f tt r.1) (g r.1.1)
      → Runs (continue r.0 f r.1) (g w)
  passes-Runs r f g w is_ok is_w h = (
    ap (λ m. (continue m f r.1).0) is_ok ∙ h.0 ∙ ap (λ w. (g w).0) is_w,
    ap (λ m. (continue m f r.1).1.1) is_ok ∙ h.1 ∙ ap (λ w. (g w).1) is_w,
  )

  commit_from-Runs :
      (pre ts : List (Transaction D)) (i : ℕ) (s : Tx D × W)
      → i ≡ length pre
      → s.0.transactions ≡ pre ++ ts
      → Outside.on_change o ≡ none
      → Runs (commit_from o i ts s) (perform_all ts s.1)
  unfolding commit_from on_world perform_all
  commit_from-Runs pre [] i s at h is_unset = (refl, refl)
  commit_from-Runs pre (t ∷ ts) i s at h is_unset =
      let after : Tx D × W = (s.0, (perform o t s.1).1) in
      let moved =
        set_status-transactions pre ts t i after at h
        ∙ sym (append_assoc pre (done_with t ∷ []) ts) in
      let quiet = set_status-quiet pre ts t i after at h is_unset in
      continue-Runs (perform o t s.1).0 _ (λ _. perform_all ts) after
        (passes-Runs (set_status o i processed after) _ (perform_all ts) after.1 quiet.0 quiet.1 (
          commit_from-Runs (pre ++ done_with t ∷ []) ts (suc i) (set_status o i processed after).1
            (length_snoc pre t at) moved is_unset))

  -- Where no function is set for the changes, a commit returns and leaves of the world what
  -- performing its transactions does, one after the other up to the first that fails.
  pub commit-perform_all :
      (s : Tx D × W)
      → Outside.on_change o ≡ none
      → ((commit o s).0 ≡ (perform_all s.0.transactions s.1).0)
        × ((commit o s).1.1 ≡ (perform_all s.0.transactions s.1).1)
  unfolding commit
  commit-perform_all s is_unset = commit_from-Runs [] s.0.transactions 0 s refl refl is_unset
