-- ===== src/Dbs/Tx.antt =====
-- internal/dbs/tx.go: the records of a transaction, and its commit.
--
-- `D` is the type of a document and `W` that of the world behind the calls to the nodes: the removal
-- and the write of an object there are arguments, as are the clock and the function that SetOnChange
-- has set, which does not panic. No transaction in the list is nil, and what a write adds to the
-- document it is given (PutObject sets its id field) is not recorded in the list.
pub mod Commit
use josefina.Prelude.{
  Bool, true, false, ℕ, zero, suc, Option, none, some, List, [], ◌∷◌, ◌++◌, ◌==◌, get_elem?, set,
  if◌then◌else◌,
}
use josefina.Store.Result.{Result, ok, err, panic}
use josefina.Store.Bytes.{Bytes}
use josefina.Dbs.Model.{From}
use josefina.Dbs.Step.{Step, pure, lift, ◌>>=◌, ◌>>◌}

pub data Command : Type 0 where
  insert_command update_command delete_command upsert_command : Command

pub data Status : Type 0 where
  active_status archived canceled of_system for_delete pending approved rejected failed processed :
      Status
  connected disconnected : Status

pub record Transaction (D : Type 0) : Type 0 where
  pub from : From
  pub command : Command
  pub idx : Bytes
  pub content : D
  pub status : Status

pub record Tx (D : Type 0) : Type 0 where
  pub started_at : ℕ
  pub ended_at : ℕ
  pub id : Bytes
  pub transactions : List (Transaction D)

module _ {D : Type 0} where
  unfoldable pub new_transaction : From → Command → Bytes → D → Status → Transaction D
  new_transaction from command idx content status = record {
    from = from;
    command = command;
    idx = idx;
    content = content;
    status = status;
  }

  -- getTx: the transaction, and whether it is a new one, with this id and start.
  unfoldable pub get_tx : Bytes → ℕ → Option (Tx D) → Tx D × Bool
  get_tx id now (some tx) = (tx, false)
  get_tx id now none = (record { started_at = now; ended_at = 0; id = id; transactions = [] }, true)

  records_of : From → List (Transaction D) → List D
  records_of from [] = []
  records_of from (t ∷ ts) =
      let rest = records_of from ts in
      if t.from.address == from.address then t.content ∷ rest else rest

  unfoldable pub get_recors : From → Tx D → List D
  unfolding records_of
  get_recors from tx = records_of from tx.transactions

-- What a transaction uses of the rest.
pub record Outside (D W : Type 0) : Type 0 where
  pub now : W → ℕ
  pub on_change : Option (Tx D → Step W (Unit {0}))
  pub remove_object : From → Bytes → Step W (Unit {0})
  pub put_object : From → Bytes → D → Step W (Unit {0})

module _ {D W : Type 0} (o : Outside D W) where
  open o use {now, on_change, remove_object, put_object}

  -- A step of the world.
  unfoldable pub on_world {ℓ} : {A : Type ℓ} → Step W A → Step (Tx D × W) A
  on_world f (tx, w) = ((f w).0, (tx, (f w).1))

  unfoldable pub report : Option (Tx D → Step W (Unit {0})) → Step (Tx D × W) (Unit {0})
  unfolding on_world
  report none s = (ok tt, s)
  report (some f) s = on_world (f s.0) s

  unfoldable pub change : Step (Tx D × W) (Unit {0})
  unfolding report
  change (tx, w) = report on_change (record tx { ended_at = now w }, w)

  unfoldable pub add_transaction : From → Command → Bytes → D → Step (Tx D × W) (Unit {0})
  unfolding change new_transaction
  add_transaction from command idx content (tx, w) =
      let t = new_transaction from command idx content pending in
      change (record tx { transactions = tx.transactions ++ t ∷ [] }, w)

  unfoldable pub mark : Option (Transaction D) → ℕ → Status → Step (Tx D × W) (Unit {0})
  unfolding change
  mark none i status s = (panic, s)
  mark (some t) i status (tx, w) =
      change (record tx { transactions = set tx.transactions i (record t { status = status }) }, w)

  unfoldable pub set_status : ℕ → Status → Step (Tx D × W) (Unit {0})
  unfolding mark
  set_status i status s = mark (get_elem? s.0.transactions i) i status s

  -- What the commit of one transaction asks of the node of its model.
  unfoldable pub perform : Transaction D → Step W (Unit {0})
  perform t = elim t.command [
    | delete_command ↦ remove_object t.from t.idx
    | _ ↦ put_object t.from t.idx t.content
  ]

  unfoldable pub commit_from : ℕ → List (Transaction D) → Step (Tx D × W) (Unit {0})
  unfolding on_world perform set_status
  commit_from i [] = pure tt
  commit_from i (t ∷ ts) = do on_world (perform t); set_status i processed; commit_from (suc i) ts

  unfoldable pub commit : Step (Tx D × W) (Unit {0})
  unfolding commit_from
  commit (tx, w) = commit_from 0 tx.transactions (tx, w)
