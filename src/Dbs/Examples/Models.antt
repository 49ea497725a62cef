-- ===== src/Dbs/Examples/Models.antt =====
-- The theorems on models, transactions and their stores, at a store that is a map in memory.
use josefina.Prelude.{
  ℕ, Bool, true, false, none, some, List, [], ◌∷◌, ◌++◌, ◌≡◌, ◌≤◌, ◌⊎◌, ◌≢◌, ◌+◌, ◌==◌,
  if◌then◌else◌, refl, map, take, drop, length,
}
use josefina.Prelude.Eq.{bytes_eq, listed, beq_apart}
use josefina.Prelude.Assoc.{lookup, insert, remove, contains, insert_same}
use josefina.Store.Result.{ok, panic}
use josefina.Store.Bytes.{Bytes}
use josefina.Dbs.Value.{Value, nil, text}
use josefina.Dbs.Model.{From, Model, index_field, tp_atrib, tp_text}
use josefina.Dbs.Define.{blank, define_index_field, define_field, define_primary_keys}
use josefina.Dbs.Define.Sound.{IsSound}
use josefina.Dbs.Define.Changes.{Change, Changes, Changes-IsSound}
use josefina.Dbs.Tx.{Tx, Transaction, Outside, pending, insert_command, commit}
use josefina.Dbs.Tx.Commit.{commit-committed, done_with}
use josefina.Dbs.Db.{Db, new_db, get_db}
use josefina.Dbs.Db.Names.{get_db-forgets}
use josefina.Dbs.Objects.{
  KeyStore, KeyStoreLaws, Doc, Ids, put_object, put_each, put_id, add_id, on_store, at,
  remove_object, remove_each, remove_id, remove_found, drop_key, store, get, get_index, value_of,
}
use josefina.Dbs.Objects.Indexes.{put_object-untouched}
use josefina.Dbs.Objects.Removed.{remove_object-keeps_id}

abbrev pub some_from : From
some_from = record {
  address = 7;
  database = 100 ∷ [];
  schema = 115 ∷ [];
  name = 109 ∷ [];
  host = [];
  is_init = false;
}

-- "a" and "b"
abbrev pub name_a : Bytes
name_a = 97 ∷ []

abbrev pub name_b : Bytes
name_b = 98 ∷ []

-- Documents and indexes kept in two maps
abbrev pub Memory : Type 0
Memory = List (Bytes × Doc ℕ) × List (Bytes × Ids)

abbrev pub memory : KeyStore Memory ℕ
memory = record {
  open_store = λ path name debug. ok ([], []);
  put_doc = λ key d s. (ok tt, (insert key d s.0, s.1));
  put_ids = λ key ids s. (ok tt, (s.0, insert key ids s.1));
  get_doc = λ key s. ok (lookup key s.0);
  get_ids = λ key s. ok (lookup key s.1);
  delete = λ key s. (ok (contains key s.0), (remove key s.0, remove key s.1));
  is_exist = λ key s. contains key s.0;
  count = λ s. length s.0;
  keys = λ asc offset limit s. map (λ e. e.0) s.0;
  records = λ asc offset limit workers s. (map (λ e. ok e.1) s.0, 0);
}

memory_laws : KeyStoreLaws memory (λ d. d) (λ ids. ids)
memory_laws = record {
  get_doc-put_doc = λ key d s h. λ i. ok (insert_same key d s.0 i);
  get_ids-put_ids = λ key ids s h. λ i. ok (insert_same key ids s.1 i);
}

abbrev pub sprint : Value ℕ → Bytes
sprint (text t) = t
sprint nil = 60 ∷ 110 ∷ 105 ∷ 108 ∷ 62 ∷ []
sprint _ = 63 ∷ []

abbrev valid : Bytes → Bool
valid s = true

abbrev first_model : Model ℕ Memory
first_model = (define_index_field valid (blank some_from [] 1 false)).1

-- A model with a field, which is then its primary key.
abbrev field_model : Model ℕ Memory
field_model = (define_field valid name_a tp_atrib tp_text nil first_model).1

abbrev keyed_model : Model ℕ Memory
keyed_model = (define_primary_keys (name_a ∷ []) field_model).1

Changes-IsSound_example : IsSound keyed_model
Changes-IsSound_example = Changes-IsSound valid some_from [] 1 false keyed_model refl (
    Changes.next (Changes.next Changes.here (Change.field name_a tp_atrib tp_text nil))
      (Change.primary_keys (name_a ∷ [])))

-- Indexes on the id, on a and on b
abbrev pub indexed_model : Model ℕ Memory
indexed_model = record (blank some_from [] 1 false) {
  indexes = index_field ∷ name_a ∷ name_b ∷ [];
  stores = (index_field, ([], [])) ∷ (name_a, ([], [])) ∷ (name_b, ([], [])) ∷ [];
}

-- {a: "x", b: "y"}, under the id "i"
abbrev pub some_doc : Doc ℕ
some_doc = (name_a, text (120 ∷ [])) ∷ (name_b, text (121 ∷ [])) ∷ []

abbrev pub some_id : Bytes
some_id = 105 ∷ []

abbrev pub put_model : Model ℕ Memory
put_model = (put_object memory sprint some_id some_doc indexed_model).1

put_object-untouched_example : lookup name_b put_model.stores ≡ lookup name_b indexed_model.stores
unfolding put_object put_each put_id add_id on_store at listed lookup insert contains value_of
put_object-untouched_example =
    put_object-untouched memory sprint some_id some_doc (cc) refl name_a name_b ([], [])
      (name_b ∷ []) indexed_model refl refl (beq_apart refl) (beq_apart refl) (beq_apart refl)
      (beq_apart refl)

abbrev put_doc_model : Doc ℕ
put_doc_model = insert index_field (text some_id) some_doc

remove_object-keeps_id_example :
    (left : Ids) × ((get_index memory name_a
        (120 ∷ [])
        (remove_object memory sprint some_id put_model).1).0
      ≡ ok (some left))
    × (contains some_id left ≡ true)
unfolding remove_object remove_found remove_each remove_id drop_key get store put_object put_each
    put_id add_id on_store at listed lookup insert contains value_of remove
remove_object-keeps_id_example =
    remove_object-keeps_id memory sprint some_id name_a put_doc_model ((some_id, true) ∷ [])
      ([], (120 ∷ [], (some_id, true) ∷ []) ∷ []) (beq_apart refl) (beq_apart refl) refl
      (beq_apart refl) refl (λ d. d) (λ ids. ids) memory_laws (λ key. refl) (name_b ∷ [])
      ((some_id, put_doc_model) ∷ [], []) put_model refl refl refl (beq_apart refl) refl refl refl

-- A transaction of two insertions, and nodes that count the writes and refuse the second.
abbrev pending_doc : Transaction (Doc ℕ)
pending_doc = record {
  from = some_from;
  command = insert_command;
  idx = some_id;
  content = some_doc;
  status = pending;
}

abbrev pub two_pending : Tx (Doc ℕ)
two_pending = record {
  started_at = 1;
  ended_at = 0;
  id = some_id;
  transactions = pending_doc ∷ pending_doc ∷ [];
}

abbrev pub refusing : Outside (Doc ℕ) ℕ
refusing = record {
  now = λ w. w;
  on_change = none;
  remove_object = λ from idx w. (ok tt, w + 1);
  put_object = λ from idx d w. (if w == 0 then ok tt else panic, w + 1);
}

commit-committed_example :
    (n : ℕ) × (n ≤ 2)
    × ((commit refusing (two_pending, 0)).1.0.transactions
        ≡ map (done_with refusing) (take n two_pending.transactions)
          ++ drop n two_pending.transactions)
    × ((n ≡ 2) ⊎ ((commit refusing (two_pending, 0)).0 ≢ ok tt))
commit-committed_example = commit-committed refusing (two_pending, 0)

-- Names lose a first "a"; a database with a schema stands under "b".
abbrev without_a : Bytes → Bytes
without_a [] = []
without_a (c ∷ cs) = if c == 97 then cs else c ∷ cs

abbrev both : Bytes → Bytes → Bytes
both s t = s ++ t

abbrev full_db : Db ℕ Memory
full_db = record (new_db valid without_a both [] [] name_b) {
  schemas = (name_a, record { database = name_b; name = name_a; path = []; models = [] }) ∷ [];
}

get_db-forgets_example :
    ((get_db valid without_a both [] [] (97 ∷ 98 ∷ []) ((name_b, full_db) ∷ [])).0
      ≡ ok (new_db valid without_a both [] [] name_b))
    × (lookup name_b (get_db valid without_a both [] [] (97 ∷ 98 ∷ []) ((name_b, full_db) ∷ [])).1
        ≡ some (new_db valid without_a both [] [] name_b))
    × (lookup
          (97 ∷ 98 ∷ [])
          (get_db valid without_a both [] [] (97 ∷ 98 ∷ []) ((name_b, full_db) ∷ [])).1
        ≡ none)
unfolding lookup
get_db-forgets_example =
    get_db-forgets valid without_a both [] [] (97 ∷ 98 ∷ []) ((name_b, full_db) ∷ []) refl refl
      (beq_apart refl)
