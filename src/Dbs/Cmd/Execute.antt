-- ===== src/Dbs/Cmd/Execute.antt =====
-- internal/dbs/cmd.go: the commands with a query, and Execute.
pub mod Hidden
use josefina.Prelude.{ℕ, Bool, true, false, Option, none, some, List, [], ◌∷◌, if◌then◌else◌}
use josefina.Prelude.Eq.{◌=?◌, bytes_eq}
use josefina.Prelude.Assoc.{lookup}
use josefina.Store.Result.{Result, ok, err, panic, primary_keys_not_found}
use josefina.Store.Bytes.{Bytes}
use josefina.Dbs.Value.{Value, text, Float64}
use josefina.Dbs.Build.{eq_to}
use josefina.Dbs.Where.{add}
use josefina.Dbs.Model.{Model}
use josefina.Dbs.Step.{Step, pure, lift, continue, ◌>>=◌, ◌>>◌}
use josefina.Dbs.Tx.{
  Tx, Command, insert_command, update_command, delete_command, upsert_command, get_tx, commit,
}
use josefina.Dbs.Objects.{KeyStore, Doc, value_of}
use josefina.Dbs.Run.{Wheres, set_owner}
use josefina.Dbs.Run.Query.{run}
use josefina.Dbs.Cmd.{Session, Cmd, Around, execute_insert, update_one, delete_one, each_item}

module _ (fl : Float64) (split : Bytes → List Bytes) {S W : Type 0}
    (a : Around (Float64.F fl) S W) where
  open fl use {F}
  open a use {k, same, sprint, outside}

  -- The query of a command, with the model as its owner.
  unfoldable pub query : Wheres F → Step (Session F S W) (List (Doc F))
  query w s =
      let found = run fl split k same s.tx (set_owner s.model w) s.model in
      (found.0, record s { model = found.1 })

  unfoldable pub execute_update : Cmd F S W → Step (Session F S W) (List (Doc F))
  unfolding query
  execute_update c = query c.wheres >>= each_item a (update_one a c)

  unfoldable pub execute_delete : Cmd F S W → Step (Session F S W) (List (Doc F))
  unfolding query
  execute_delete c = query c.wheres >>= each_item a (delete_one a c)

  has_key : Option S → Bytes → Result Bool
  has_key none key = err primary_keys_not_found
  has_key (some source) key =
      if key =? [] then err primary_keys_not_found else ok (KeyStore.is_exist k key source)

  -- Whether a document with these primary keys exists, as far as the loop has looked, and the query
  -- with a condition on each key before that.
  unfoldable pub find_keys :
      List Bytes → List (Bytes × S) → Doc F → Wheres F → Result (Bool × Wheres F)
  unfolding has_key
  find_keys [] stores new w = ok (true, w)
  find_keys (name ∷ names) stores new w =
      let key = sprint (value_of new name) in
      let rest =
        find_keys names stores new
          (record w { conditions = add w.conditions (eq_to name (text key)) }) in
      elim (has_key (lookup name stores) key) [
        | err e ↦ err e
        | panic ↦ panic
        | ok exists ↦ if exists then rest else ok (false, w)
      ]

  upsert_found : Cmd F S W → Bool × Wheres F → Step (Session F S W) (List (Doc F))
  unfolding execute_update
  upsert_found c (true, w) = execute_update (record c { wheres = w })
  upsert_found c (false, w) =
      execute_insert a (record c { wheres = w }) >>= λ result. pure (result ∷ [])

  unfoldable pub execute_upsert : Cmd F S W → Step (Session F S W) (List (Doc F))
  unfolding find_keys upsert_found
  execute_upsert c s =
      (lift (find_keys s.model.primary_keys s.model.stores c.data_of c.wheres) >>= upsert_found c) s

  dispatch : Cmd F S W → Option Command → Step (Session F S W) (List (Doc F))
  unfolding execute_update execute_delete execute_upsert
  dispatch c none = pure []
  dispatch c (some insert_command) = execute_insert a c >>= λ item. pure (item ∷ [])
  dispatch c (some update_command) = execute_update c
  dispatch c (some delete_command) = execute_delete c
  dispatch c (some upsert_command) = execute_upsert c

  commit_session : Bool → List (Doc F) → Step (Session F S W) (List (Doc F))
  commit_session false result s = (ok result, s)
  commit_session true result s =
      let m = commit outside (s.tx, s.world) in
      continue m.0 (λ _. pure result) (record s { tx = m.1.0; world = m.1.1 })

  -- Execute: a command without a transaction gets one, with this id and start, and commits it.
  unfoldable pub execute :
      Bytes
      → ℕ
      → Cmd F S W
      → Option (Tx (Doc F))
      → Model F S
      → W
      → Result (List (Doc F)) × Session F S W
  unfolding dispatch commit_session
  execute id now c tx m w =
      let taken = get_tx id now tx in
      (dispatch c c.command >>= commit_session taken.1)
        (record { model = m; tx = taken.0; world = w })
