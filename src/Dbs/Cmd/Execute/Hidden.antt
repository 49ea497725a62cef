-- ===== src/Dbs/Cmd/Execute/Hidden.antt =====
-- internal/dbs/cmd.go: an update or a delete on a model that hides its id field, as DefineIndexField
-- makes each do.
use josefina.Prelude.{true, none, List, [], ◌∷◌, ◌≡◌, ◌⊎◌, inl, inr, refl, ◌∙◌, All}
use josefina.Prelude.Eq.{bytes_eq, listed}
use josefina.Prelude.Assoc.{lookup}
use josefina.Store.Result.{Result, ok, err, panic, Error, record_not_found}
use josefina.Store.Bytes.{Bytes}
use josefina.Dbs.Value.{Float64}
use josefina.Dbs.Model.{index_field}
use josefina.Dbs.Step.{Step, continue}
use josefina.Dbs.Objects.{Doc}
use josefina.Dbs.Run.{set_owner}
use josefina.Dbs.Run.Rows.{run-rows}
use josefina.Dbs.Run.Hidden.{hidden_rows}
use josefina.Dbs.Cmd.{Session, Cmd, Around, update_one, delete_one, each_item}
use josefina.Dbs.Cmd.Execute.{query, execute_update, execute_delete}

abbrev pub IsNothing {ℓ} : {A : Type ℓ} → Result (List A) → Type ℓ
IsNothing r = (r ≡ ok []) ⊎ (((e : Error) × (r ≡ err e)) ⊎ (r ≡ panic))

module _ (fl : Float64) (split : Bytes → List Bytes) {S W : Type 0} (a : Around (Float64.F fl) S W)
    (no_id : (d : Doc (Float64.F fl))
      → lookup index_field d ≡ none
      → Around.val_str a d index_field ≡ []) where
  open fl use {F}

  -- What leaves the transaction as it was and changes nothing.
  abbrev Spares : Session F S W → Result (List (Doc F)) × Session F S W → Type 0
  Spares s r = (r.1.tx ≡ s.tx) × IsNothing r.0

  each_item-Spares :
      (one : Doc F → Step (Session F S W) (Doc F)) (rows : List (Doc F)) (s : Session F S W)
      → All (λ d. lookup index_field d ≡ none) rows
      → Spares s (each_item a one rows s)
  unfolding each_item
  each_item-Spares one [] s h = (refl, inl refl)
  each_item-Spares one (d ∷ rows) s h = rw (no_id d h.0) (refl, inr (inl (record_not_found, refl)))

  continue-Spares :
      (one : Doc F → Step (Session F S W) (Doc F)) (r : Result (List (Doc F))) (s : Session F S W)
      → ((rows : List (Doc F)) → r ≡ ok rows → All (λ d. lookup index_field d ≡ none) rows)
      → Spares s (continue r (each_item a one) s)
  continue-Spares one (ok rows) s h = each_item-Spares one rows s (h rows refl)
  continue-Spares one (err e) s h = (refl, inr (inl (e, refl)))
  continue-Spares one panic s h = (refl, inr (inr refl))

  module _ (c : Cmd F S W) (s : Session F S W) (none_selected : c.wheres.selects ≡ [])
      (hides_id : listed index_field s.model.hidden ≡ true) where
    queried :
        (rows : List (Doc F))
        → (query fl split a c.wheres s).0 ≡ ok rows
        → All (λ d. lookup index_field d ≡ none) rows
    unfolding query set_owner
    queried rows h =
        let owned = set_owner s.model c.wheres in
        hidden_rows index_field owned rows none_selected hides_id
          (run-rows fl split owned (Around.k a) (Around.same a) s.tx s.model rows h).3

    query-tx : (query fl split a c.wheres s).1.tx ≡ s.tx
    unfolding query
    query-tx = refl

    -- An update without selected fields on a model that hides its id field never writes: it adds
    -- no transaction, and returns no rows, an error or a panic. ValStr reads the field as the
    -- empty text where a row does not have it.
    pub execute_update-hidden :
        ((execute_update fl split a c s).1.tx ≡ s.tx) × IsNothing (execute_update fl split a c s).0
    unfolding execute_update
    execute_update-hidden =
        let r =
          continue-Spares (update_one a c) (query fl split a c.wheres s).0
            (query fl split a c.wheres s).1 queried in
        (r.0 ∙ query-tx, r.1)

    -- A delete without selected fields on such a model never deletes: the same holds of it.
    pub execute_delete-hidden :
        ((execute_delete fl split a c s).1.tx ≡ s.tx) × IsNothing (execute_delete fl split a c s).0
    unfolding execute_delete
    execute_delete-hidden =
        let r =
          continue-Spares (delete_one a c) (query fl split a c.wheres s).0
            (query fl split a c.wheres s).1 queried in
        (r.0 ∙ query-tx, r.1)
