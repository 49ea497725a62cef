-- ===== src/Dbs/Objects/Indexes.antt =====
-- internal/dbs/model.go: what Init, PutObject and RemoveObject do to the stores of a model.
use josefina.Prelude.{
  false, Option, none, some, List, [], ◌∷◌, ◌≡◌, ◌≢◌, refl, sym, ap, ◌∙◌, if_elim,
}
use josefina.Prelude.Eq.{◌=?◌, bytes_eq, beq_differs, listed, listed_cons}
use josefina.Prelude.Assoc.{
  lookup, insert, contains, insert_same, insert_other, contains-lookup-some,
}
use josefina.Store.Result.{ok}
use josefina.Store.Bytes.{Bytes}
use josefina.Dbs.Value.{Value, text}
use josefina.Dbs.Model.{Model, index_field}
use josefina.Dbs.Step.{
  Step, pure, continue, ◌>>◌, Keeps, bind-Keeps, continue-Keeps, continue-ok, continue-at,
}
use josefina.Dbs.Objects.{
  KeyStore, KeyStoreLaws, Doc, Ids, value_of, or_else, at, on_store, get, add_id, put_id, put_each,
  put_object, store,
}

module _ {F S : Type 0} (k : KeyStore S F) where
  -- The store of a name in the map of a model
  abbrev pub Holds : Bytes → Option S → Model F S → Type 0
  Holds name s m = lookup name m.stores ≡ s

  at-Keeps {ℓ} :
      {A : Type ℓ} (found : Option S) (name other : Bytes) (f : Step S A) (s : Option S)
      → other ≢ name
      → Keeps (Holds other s) (at k found name f)
  unfolding at
  at-Keeps none name other f s differs m h = h
  at-Keeps (some x) name other f s differs m h =
      insert_other name other (f x).1 m.stores (λ e. differs (sym e)) ∙ h

  on_store-Keeps {ℓ} :
      {A : Type ℓ} (name other : Bytes) (f : Step S A) (s : Option S)
      → other ≢ name
      → Keeps (Holds other s) (on_store k name f)
  unfolding on_store
  on_store-Keeps name other f s differs m h =
      at-Keeps (lookup name m.stores) name other f s differs m h

  pub on_store-at {ℓ} :
      {A : Type ℓ} (name : Bytes) (f : Step S A) (s : S) (m : Model F S)
      → lookup name m.stores ≡ some s
      → on_store k name f m ≡ ((f s).0, record m { stores = insert name (f s).1 m.stores })
  unfolding on_store at
  on_store-at name f s m h = ap (λ x. at k x name f m) h

  pub store-opened :
      (name : Bytes) (s : S) (m : Model F S)
      → lookup name m.stores ≡ some s
      → store k name m ≡ (ok tt, m)
  unfolding store
  store-opened name s m h = rw (contains-lookup-some name m.stores s h) refl

  pub get-opened :
      (idx : Bytes) (s : S) (m : Model F S)
      → lookup index_field m.stores ≡ some s
      → (get k idx m).0 ≡ KeyStore.get_doc k idx s
  unfolding get
  get-opened idx s m h =
      ap
        (λ r.
          (continue r.0 (λ _. on_store k index_field (λ s. (KeyStore.get_doc k idx s, s))) r.1).0)
        (store-opened index_field s m h)
      ∙ ap (λ r. r.0) (on_store-at index_field (λ s. (KeyStore.get_doc k idx s, s)) s m h)

  module _ (sprint : Value F → Bytes) where
    put_id-Keeps :
        (name other key idx : Bytes) (s : Option S)
        → other ≢ name
        → Keeps (Holds other s) (put_id k sprint name key idx)
    unfolding put_id add_id
    put_id-Keeps name other key idx s differs =
        bind-Keeps (Holds other s) (on_store k name (λ s. (KeyStore.get_ids k key s, s))) _
          (on_store-Keeps name other _ s differs)
          (λ found m h.
            if_elim (Keeps (Holds other s)) (contains idx (or_else [] found)) (pure tt) _ (λ m h. h)
              (on_store-Keeps name other _ s differs) m h)

    put_each-Keeps :
        (other idx : Bytes) (object : Doc F) (s : Option S) (names : List Bytes)
        → listed other names ≡ false
        → Keeps (Holds other s) (put_each k sprint idx object names)
    unfolding put_each
    put_each-Keeps other idx object s [] absent = λ m h. h
    put_each-Keeps other idx object s (name ∷ names) absent =
        let split = listed_cons other name names absent in
        let rest = put_each-Keeps other idx object s names split.1 in
        if_elim (Keeps (Holds other s)) (sprint (value_of object name) =? []) _ _ rest (
          if_elim (Keeps (Holds other s)) (name =? index_field) _ _
            (bind-Keeps (Holds other s) _ _ (on_store-Keeps name other _ s split.0) (λ _. rest))
            (put_id-Keeps name other _ idx s split.0))

    module _ (idx : Bytes) (object : Doc F) (is_key : idx ≢ [])
        (prints : sprint (text idx) ≡ idx) where
      abbrev stored : Doc F
      stored = insert index_field (text idx) object

      put_each-index :
          (names : List Bytes) (m : Model F S)
          → put_each k sprint idx stored (index_field ∷ names) m
            ≡ (on_store k index_field (KeyStore.put_doc k idx stored)
                  >> put_each k sprint idx stored names)
                m
      unfolding put_each value_of
      put_each-index names m =
          rw (insert_same index_field (text idx) object, prints, beq_differs idx [] is_key) refl

      put_each-secondary :
          (name : Bytes) (names : List Bytes)
          → name ≢ index_field
          → sprint (value_of stored name) ≢ []
          → put_each k sprint idx stored (name ∷ names)
            ≡ put_id k sprint name (sprint (value_of stored name)) idx
      unfolding put_each
      put_each-secondary name names differs keyed =
          rw
            (
              beq_differs (sprint (value_of stored name)) [] keyed,
              beq_differs name index_field differs,
            )
            refl

      put_object-index :
          (s : S) (names : List Bytes) (m : Model F S)
          → m.indexes ≡ index_field ∷ names
          → lookup index_field m.stores ≡ some s
          → put_object k sprint idx object m
            ≡ continue
                (KeyStore.put_doc k idx stored s).0
                (λ _. put_each k sprint idx stored names)
                (record m {
                  stores = insert index_field (KeyStore.put_doc k idx stored s).1 m.stores;
                })
      unfolding put_object
      put_object-index s names m indexes opened =
          ap (λ l. put_each k sprint idx stored l m) indexes
          ∙ put_each-index names m
          ∙ ap (λ r. continue r.0 (λ _. put_each k sprint idx stored names) r.1)
              (on_store-at index_field (KeyStore.put_doc k idx stored) s m opened)

      -- In a model whose first index, and no later one, is that of the id, with the store of this
      -- index open: after PutObject has put a document without an error, under an id that is not
      -- empty and prints as itself, Get of this id gives what JSON reads back of the document with
      -- the id in it (`reread`, in which for example a number is a float64). The stores keep the
      -- laws of KeyStore.
      pub put_object-get :
          (reread : Doc F → Doc F) (reread_ids : Ids → Ids)
          (laws : KeyStoreLaws k reread reread_ids) (s : S) (names : List Bytes) (m : Model F S)
          → m.indexes ≡ index_field ∷ names
          → listed index_field names ≡ false
          → lookup index_field m.stores ≡ some s
          → (put_object k sprint idx object m).0 ≡ ok tt
          → (get k idx (put_object k sprint idx object m).1).0 ≡ ok (some (reread stored))
      put_object-get reread reread_ids laws s names m indexes once opened is_ok =
          let e = put_object-index s names m indexes opened in
          let put = KeyStore.put_doc k idx stored s in
          let first = continue-ok put.0 _ _ tt (ap (λ r. r.0) (sym e) ∙ is_ok) in
          let moved =
            continue-at put.0 (λ _. put_each k sprint idx stored names)
              (record m { stores = insert index_field put.1 m.stores }) tt first.1 in
          get-opened idx put.1 (put_object k sprint idx object m).1 (
            ap (λ r. lookup index_field r.1.stores) (e ∙ moved)
            ∙ put_each-Keeps index_field idx stored (some put.1) names once _
                (insert_same index_field put.1 m.stores))
          ∙ laws.get_doc-put_doc idx stored s first.1

      -- In a model whose first index is that of the id, with its store open, and whose second is
      -- another, under which the document has a key that is not empty: PutObject of an id that is
      -- not empty, and prints as itself, changes the stores of these two indexes only. The
      -- document is not put under any later index.
      pub put_object-untouched :
          (name other : Bytes) (s : S) (names : List Bytes) (m : Model F S)
          → m.indexes ≡ index_field ∷ name ∷ names
          → lookup index_field m.stores ≡ some s
          → name ≢ index_field
          → sprint (value_of stored name) ≢ []
          → other ≢ index_field
          → other ≢ name
          → lookup other (put_object k sprint idx object m).1.stores ≡ lookup other m.stores
      put_object-untouched name other s names m indexes opened secondary keyed not_index not_name =
          let put = KeyStore.put_doc k idx stored s in
          let next : Model F S = record m { stores = insert index_field put.1 m.stores } in
          ap (λ r. lookup other r.1.stores)
            (put_object-index s (name ∷ names) m indexes opened
              ∙ ap (λ f. continue put.0 (λ _. f) next)
                  (put_each-secondary name names secondary keyed))
          ∙ continue-Keeps (Holds other (lookup other m.stores)) put.0 _ next
              (insert_other index_field other put.1 m.stores (λ e. not_index (sym e)))
              (λ _. put_id-Keeps name other _ idx (lookup other m.stores) not_name)
