-- ===== src/Dbs/Cmd/Adds.antt =====
-- internal/dbs/cmd.go: the transaction of an insert without triggers and functions.
use josefina.Prelude.{
  Bool, true, false, Option, none, some, List, [], ◌∷◌, ◌++◌, ◌≡◌, ◌⊎◌, inl, inr, refl, ap, ◌∙◌,
  if_elim,
}
use josefina.Prelude.Eq.{◌=?◌, bytes_eq}
use josefina.Prelude.Assoc.{lookup, contains}
use josefina.Store.Result.{Result, ok, err, panic, Error, not_data}
use josefina.Store.Bytes.{Bytes}
use josefina.Dbs.Model.{Detail, From, index_field}
use josefina.Dbs.Step.{Step, continue, Keeps, bind-Keeps, continue-Keeps}
use josefina.Dbs.Tx.{Tx, new_transaction, insert_command, pending, add_transaction}
use josefina.Dbs.Tx.Commit.{change-transactions}
use josefina.Dbs.Objects.{Doc, value_of}
use josefina.Dbs.Cmd.{
  Session, Cmd, Around, run_hooks, run_around, log_change, check_required, check_unique,
  check_exists, check_foreign_key, check_foreign, take_key, with_key, insert_new, check_insert,
  insert_data, execute_insert, in_world,
}

module _ {F S W : Type 0} (a : Around F S W) where
  open a use {outside}

  module _ (s : Session F S W) where
    -- The model and the transaction of the start
    abbrev IsSame : Session F S W → Type 0
    IsSame n = (n.model ≡ s.model) × (n.tx ≡ s.tx)

    abbrev Fails : Result (Doc F) → Type 0
    Fails r = ((e : Error) × (r ≡ err e)) ⊎ (r ≡ panic)

    abbrev IsOutcome : Result (Doc F) × Session F S W → Type 0
    IsOutcome r =
        ((r.0 ≡ ok [])
          × (idx : Bytes) × (new : Doc F) × (r.1.tx.transactions
              ≡ s.tx.transactions
                ++ new_transaction s.model.from insert_command idx new pending ∷ []))
        ⊎ (Fails r.0 × (r.1.tx ≡ s.tx))

    continue-IsOutcome {ℓ} :
        {A : Type ℓ} (r : Result A) (f : A → Step (Session F S W) (Doc F)) (n : Session F S W)
        → IsSame n
        → ((b : A) → IsOutcome (f b n))
        → IsOutcome (continue r f n)
    continue-IsOutcome (ok b) f n h k = k b
    continue-IsOutcome (err e) f n h k = inr (inl (e, refl), h.1)
    continue-IsOutcome panic f n h k = inr (inr refl, h.1)

    in_world-IsSame {ℓ} : {A : Type ℓ} (f : Step W A) → Keeps IsSame (in_world a f)
    unfolding in_world
    in_world-IsSame f n h = h

    check_exists-IsSame : (b : Bool) → Keeps IsSame (check_exists a b)
    unfolding check_exists
    check_exists-IsSame true n h = h
    check_exists-IsSame false n h = h

    check_foreign_key-IsSame :
        (to : From) (found : Option Bytes) (key : Bytes)
        → Keeps IsSame (check_foreign_key a to found key)
    unfolding check_foreign_key
    check_foreign_key-IsSame to none key n h = h
    check_foreign_key-IsSame to (some fk) key n h =
        bind-Keeps IsSame (in_world a (Around.is_existed a to fk key)) (check_exists a)
          (in_world-IsSame (Around.is_existed a to fk key)) check_exists-IsSame n h

    check_foreign-IsSame :
        (keys : List (Bytes × Detail)) (new : Doc F) → Keeps IsSame (check_foreign a keys new)
    unfolding check_foreign
    check_foreign-IsSame [] new n h = h
    check_foreign-IsSame ((name, detail) ∷ keys) new n h =
        if_elim (Keeps IsSame) (contains name new) _ _
          (bind-Keeps IsSame
            (check_foreign_key a detail.to (lookup name detail.keys)
              (Around.sprint a (value_of new name)))
            _
            (check_foreign_key-IsSame detail.to (lookup name detail.keys)
              (Around.sprint a (value_of new name)))
            (λ _. check_foreign-IsSame keys new))
          (λ n h. h) n h

    check_insert-IsSame : (c : Cmd F S W) → Keeps IsSame (check_insert a c)
    unfolding check_insert
    check_insert-IsSame c n h =
        continue-Keeps IsSame (check_required a n.model.required c.data_of) _ n h (λ _ m g.
          continue-Keeps IsSame (check_unique a n.model.unique n.model.stores c.data_of) _ m g
            (λ _. check_foreign-IsSame n.model.foreign_keys c.data_of))

    take_key-IsSame : (new : Doc F) → Keeps IsSame (take_key a new)
    unfolding take_key with_key
    take_key-IsSame new n h =
        if_elim {A = Result (Bytes × Doc F) × Session F S W} (λ r. IsSame r.1)
          (Around.val_str a new index_field =? []) _ _
          (bind-Keeps IsSame (in_world a (Around.gen_key a n.model.from)) (with_key a new)
            (in_world-IsSame (Around.gen_key a n.model.from)) (λ key m g. g) n h)
          h

    add_transaction-transactions :
        (from : From) (idx : Bytes) (new : Doc F) (tx : Tx (Doc F)) (w : W)
        → (add_transaction outside from insert_command idx new (tx, w)).1.0.transactions
          ≡ tx.transactions ++ new_transaction from insert_command idx new pending ∷ []
    unfolding add_transaction
    add_transaction-transactions from idx new tx w =
        let t = new_transaction from insert_command idx new pending in
        change-transactions outside (record tx { transactions = tx.transactions ++ t ∷ [] }, w)

    module _ (c : Cmd F S W) (no_before : c.before_inserts ≡ []) (no_after : c.after_inserts ≡ [])
        (none_before : c.before_trigger_inserts ≡ [])
        (none_after : c.after_trigger_inserts ≡ []) where
      insert_new-IsOutcome :
          (idx : Bytes) (new : Doc F) (n : Session F S W)
          → IsSame n
          → IsOutcome (insert_new a c (idx, new) n)
      unfolding insert_new run_around run_hooks log_change
      insert_new-IsOutcome idx new n h =
          rw (no_before, no_after, none_before, none_after)
            (inl (
              refl,
              idx,
              new,
              add_transaction-transactions n.model.from idx new n.tx n.world
                  ∙ ap
                      (λ m.
                        n.tx.transactions
                        ++ new_transaction m.from insert_command idx new pending ∷ [])
                      h.0
                  ∙ ap
                      (λ t.
                        t.transactions
                        ++ new_transaction s.model.from insert_command idx new pending ∷ [])
                      h.1,
            ))

      insert_data-IsOutcome : (new : Doc F) → IsOutcome (insert_data a c new s)
      unfolding insert_data
      insert_data-IsOutcome [] = inr (inl (not_data, refl), refl)
      insert_data-IsOutcome (f ∷ new) =
          let checked = check_insert a c s in
          let checked_same = check_insert-IsSame c s (refl, refl) in
          let taken = continue checked.0 (λ _. take_key a (f ∷ new)) checked.1 in
          continue-IsOutcome taken.0 (insert_new a c) taken.1
            (continue-Keeps IsSame checked.0 (λ _. take_key a (f ∷ new)) checked.1 checked_same
              (λ _. take_key-IsSame (f ∷ new)))
            (λ p. insert_new-IsOutcome p.0 p.1 taken.1 (
              continue-Keeps IsSame checked.0 (λ _. take_key a (f ∷ new)) checked.1 checked_same
                (λ _. take_key-IsSame (f ∷ new))))

      -- An insert without triggers and functions either returns the empty document and adds one
      -- insertion, pending and for the model's own From, at the end of the transaction, or it
      -- fails, with an error or a panic, and leaves the transaction as it was.
      pub execute_insert-adds :
          (((execute_insert a c s).0 ≡ ok [])
            × (idx : Bytes) × (new : Doc F) × ((execute_insert a c s).1.tx.transactions
                ≡ s.tx.transactions
                  ++ new_transaction s.model.from insert_command idx new pending ∷ []))
          ⊎ ((((e : Error) × ((execute_insert a c s).0 ≡ err e))
                ⊎ ((execute_insert a c s).0 ≡ panic))
              × ((execute_insert a c s).1.tx ≡ s.tx))
      unfolding execute_insert
      execute_insert-adds = insert_data-IsOutcome c.data_of
