-- ===== src/Dbs/Objects.antt =====
-- internal/dbs/model.go: the stores of a model, and the documents and indexes kept in them.
--
-- A document is the list of the entries of its et.Json. What a model uses of a store is the interface
-- KeyStore: the encoding into JSON is behind it. `sprint` is fmt.Sprintf("%v", _), which belongs to
-- Go. A key that the document does not have reads as nil. `records` are the outcomes of reading and
-- decoding the records of a page, in the order in which the workers of Iterate come to call its
-- function, and how many calls still come, of the other workers, after the first that stops.
pub mod Indexes
pub mod Removed
pub mod Files
use josefina.Prelude.{
  ℕ, Bool, true, false, Option, none, some, List, [], ◌∷◌, ◌++◌, ◌==◌, ◌≡◌, if◌then◌else◌, length,
}
use josefina.Prelude.Eq.{◌=?◌, bytes_eq}
use josefina.Prelude.Assoc.{lookup, insert, remove, contains}
use josefina.Store.Result.{Result, ok, err, panic, index_not_defined}
use josefina.Store.Bytes.{Bytes}
use josefina.Dbs.Value.{Value, nil, text}
use josefina.Dbs.Model.{Model, Trigger, From, index_field}
use josefina.Dbs.Step.{Step, pure, lift, modify, continue, ◌>>=◌, ◌>>◌}

-- An et.Json and a map[string]bool
abbrev pub Doc : Type 0 → Type 0
Doc F = List (Bytes × Value F)

abbrev pub Ids : Type 0
Ids = List (Bytes × Bool)

pub record KeyStore (S F : Type 0) : Type 0 where
  pub open_store : Bytes → Bytes → Bool → Result S
  pub put_doc : Bytes → Doc F → Step S (Unit {0})
  pub put_ids : Bytes → Ids → Step S (Unit {0})
  pub get_doc : Bytes → S → Result (Option (Doc F))
  pub get_ids : Bytes → S → Result (Option Ids)
  pub delete : Bytes → Step S Bool
  pub is_exist : Bytes → S → Bool
  pub count : S → ℕ
  pub keys : Bool → ℕ → ℕ → S → List Bytes
  pub records : Bool → ℕ → ℕ → ℕ → S → List (Result (Doc F)) × ℕ

-- What was put is read back as JSON has it: `reread` is what json.Unmarshal makes of the bytes that
-- json.Marshal wrote for a document (a number is a float64 then, a time a text, a nested et.Json a
-- plain map), and `reread_ids` the same for a map of ids.
pub record KeyStoreLaws {S F : Type 0} (k : KeyStore S F) (reread : Doc F → Doc F)
    (reread_ids : Ids → Ids) : Type 0 where
  pub get_doc-put_doc :
      (key : Bytes) (object : Doc F) (s : S)
      → (KeyStore.put_doc k key object s).0 ≡ ok tt
      → KeyStore.get_doc k key (KeyStore.put_doc k key object s).1 ≡ ok (some (reread object))
  pub get_ids-put_ids :
      (key : Bytes) (index : Ids) (s : S)
      → (KeyStore.put_ids k key index s).0 ≡ ok tt
      → KeyStore.get_ids k key (KeyStore.put_ids k key index s).1 ≡ ok (some (reread_ids index))

abbrev pub or_else {ℓ} : {A : Type ℓ} → A → Option A → A
or_else a none = a
or_else a (some b) = b

-- object[name]
unfoldable pub value_of : {F : Type 0} → Doc F → Bytes → Value F
value_of object name = or_else nil (lookup name object)

module _ {F S : Type 0} (k : KeyStore S F) where
  open k use {open_store, put_doc, put_ids, get_doc, get_ids, delete, is_exist, count}

  -- A call on the store of a name in the map, which is a nil pointer where there is none.
  unfoldable pub at {ℓ} : {A : Type ℓ} → Option S → Bytes → Step S A → Step (Model F S) A
  at none name f m = (panic, m)
  at (some s) name f m = ((f s).0, record m { stores = insert name (f s).1 m.stores })

  unfoldable pub on_store {ℓ} : {A : Type ℓ} → Bytes → Step S A → Step (Model F S) A
  unfolding at
  on_store name f m = at (lookup name m.stores) name f m

  unfoldable pub opened : Result S → Bytes → Step (Model F S) (Unit {0})
  opened (ok s) name m = (ok tt, record m { stores = insert name s m.stores })
  opened (err e) name m = (err e, m)
  opened panic name m = (panic, m)

  -- store: opens the store of this name where it is not open.
  unfoldable pub store : Bytes → Step (Model F S) (Unit {0})
  unfolding opened
  store name m =
      if contains name m.stores
      then (ok tt, m)
      else opened (open_store m.path name m.is_debug) name m

  unfoldable pub init_each : List Bytes → Step (Model F S) (Unit {0})
  unfolding store
  init_each [] = pure tt
  init_each (name ∷ names) = store name >> init_each names

  -- Init, on the node `hostname`
  unfoldable pub init : Bytes → Step (Model F S) (Unit {0})
  unfolding init_each
  init hostname m =
      if m.from.is_init
      then (ok tt, m)
      else if length m.indexes == 0
      then (err index_not_defined, m)
      else (modify (λ m. record m { from = record m.from { host = hostname } })
            >> init_each m.indexes
            >> modify (λ m. record m { from = record m.from { is_init = true } }))
          m

  unfoldable pub put : Bytes → Doc F → Step (Model F S) (Unit {0})
  unfolding store on_store
  put idx value = store index_field >> on_store index_field (put_doc idx value)

  unfoldable pub remove_doc : Bytes → Step (Model F S) (Unit {0})
  unfolding store on_store
  remove_doc idx = do store index_field; deleted ← on_store index_field (delete idx); pure tt

  -- Get and GetObjet
  unfoldable pub get : Bytes → Step (Model F S) (Option (Doc F))
  unfolding store on_store
  get idx = store index_field >> on_store index_field (λ s. (get_doc idx s, s))

  unfoldable pub get_index : Bytes → Bytes → Step (Model F S) (Option Ids)
  unfolding store on_store
  get_index name key = store name >> on_store name (λ s. (get_ids key s, s))

  unfoldable pub is_existed : Bytes → Bytes → Step (Model F S) Bool
  unfolding store on_store
  is_existed name idx = store name >> on_store name (λ s. (ok (is_exist idx s), s))

  unfoldable pub count_docs : Step (Model F S) ℕ
  unfolding store on_store
  count_docs = store index_field >> on_store index_field (λ s. (ok (count s), s))

  module _ (sprint : Value F → Bytes) where
    unfoldable pub add_id : Bytes → Bytes → Bytes → Ids → Step (Model F S) (Unit {0})
    unfolding on_store
    add_id name key idx index =
        if contains idx index then pure tt else on_store name (put_ids key (insert idx true index))

    -- One index: the ids of the documents under this key.
    unfoldable pub put_id : Bytes → Bytes → Bytes → Step (Model F S) (Unit {0})
    unfolding on_store add_id
    put_id name key idx =
        on_store name (λ s. (get_ids key s, s)) >>= λ found. add_id name key idx (or_else [] found)

    unfoldable pub put_each : Bytes → Doc F → List Bytes → Step (Model F S) (Unit {0})
    unfolding on_store put_id
    put_each idx object [] = pure tt
    put_each idx object (name ∷ names) =
        let key = sprint (value_of object name) in
        let rest = put_each idx object names in
        if key =? []
        then rest
        else if name =? index_field
        then on_store name (put_doc key object) >> rest
        else put_id name key idx

    unfoldable pub put_object : Bytes → Doc F → Step (Model F S) (Unit {0})
    unfolding put_each
    put_object idx object m = put_each idx (insert index_field (text idx) object) m.indexes m

    unfoldable pub drop_key : Bytes → Bytes → Ids → Step (Model F S) (Unit {0})
    unfolding on_store
    drop_key name key [] = on_store name (delete key) >>= λ deleted. pure tt
    drop_key name key (i ∷ index) = on_store name (put_ids key (i ∷ index))

    unfoldable pub remove_id : Bytes → Bytes → Bytes → Option Ids → Step (Model F S) (Unit {0})
    unfolding drop_key
    remove_id name key idx none = pure tt
    remove_id name key idx (some index) =
        if contains idx index then drop_key name key (remove key index) else pure tt

    unfoldable pub remove_each : Bytes → Doc F → List Bytes → Step (Model F S) (Unit {0})
    unfolding on_store remove_id
    remove_each idx found_doc [] = pure tt
    remove_each idx found_doc (name ∷ names) =
        let key = sprint (value_of found_doc name) in
        let rest = remove_each idx found_doc names in
        if key =? []
        then rest
        else if name =? index_field
        then (on_store name (delete key) >>= λ deleted. rest)
        else on_store name (λ s. (get_ids key s, s)) >>= remove_id name key idx

    unfoldable pub remove_found : Bytes → Option (Doc F) → Step (Model F S) (Unit {0})
    unfolding remove_each
    remove_found idx none = pure tt
    remove_found idx (some found_doc) = λ m. remove_each idx found_doc m.indexes m

    unfoldable pub remove_object : Bytes → Step (Model F S) (Unit {0})
    unfolding get remove_found
    remove_object idx = get idx >>= remove_found idx

-- SetDebug, IsDebug and Stricted
unfoldable pub set_debug_mode : {F S : Type 0} → Bool → Model F S → Model F S
set_debug_mode debug m = record m { is_debug = debug }

unfoldable pub stricted : {F S : Type 0} → Model F S → Model F S
stricted m = record m { is_strict = true }

-- The definition of the first trigger of this name
set_definition : Bytes → Bytes → List Trigger → List Trigger
set_definition name fn [] = []
set_definition name fn (t ∷ ts) =
    let rest = set_definition name fn ts in
    if t.name =? name then record t { definition = fn } ∷ ts else t ∷ rest

unfoldable pub add_trigger : Bytes → Bytes → List Trigger → List Trigger
unfolding set_definition
add_trigger name fn ts = set_definition name fn ts ++ record { name = name; definition = fn } ∷ []
