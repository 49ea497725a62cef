-- ===== src/Dbs/Objects/Removed.antt =====
-- internal/dbs/model.go: what RemoveObject leaves in the indexes of a model.
use josefina.Prelude.{Bool, true, some, List, [], ◌∷◌, ◌≡◌, ◌≢◌, refl, sym, ap, ◌∙◌}
use josefina.Prelude.Eq.{bytes_eq, beq_differs}
use josefina.Prelude.Assoc.{
  lookup, insert, remove, contains, insert_same, insert_other, remove_other,
}
use josefina.Store.Result.{Result, ok}
use josefina.Store.Bytes.{Bytes}
use josefina.Dbs.Value.{Value}
use josefina.Dbs.Model.{Model, index_field}
use josefina.Dbs.Step.{Step, continue, continue-ok, continue-at}
use josefina.Dbs.Objects.{
  KeyStore, KeyStoreLaws, Doc, Ids, value_of, on_store, get, get_index, drop_key, remove_id,
  remove_each, remove_found, remove_object,
}
use josefina.Dbs.Objects.Indexes.{store-opened, on_store-at}

module _ {F S : Type 0} (k : KeyStore S F) (sprint : Value F → Bytes) where
  drop_key-kept :
      (name doc_key idx : Bytes) (index : Ids)
      → contains idx index ≡ true
      → drop_key k sprint name doc_key index ≡ on_store k name (KeyStore.put_ids k doc_key index)
  unfolding drop_key contains
  drop_key-kept name doc_key idx [] h = absurd (cc)
  drop_key-kept name doc_key idx (i ∷ index) h = refl

  module _ (idx name : Bytes) (removed : Doc F) (index : Ids) (t : S)
      (secondary : name ≢ index_field) (keyed : sprint (value_of removed name) ≢ [])
      (listed_id : contains idx index ≡ true) (other_key : sprint (value_of removed name) ≢ idx)
      (found : KeyStore.get_ids k (sprint (value_of removed name)) t ≡ ok (some index)) where
    abbrev doc_key : Bytes
    doc_key = sprint (value_of removed name)

    abbrev kept : Ids
    kept = remove doc_key index

    kept-contains : contains idx kept ≡ true
    kept-contains = remove_other doc_key idx index other_key ∙ listed_id

    remove_each-secondary :
        (names : List Bytes) (m : Model F S)
        → lookup name m.stores ≡ some t
        → remove_each k sprint idx removed (name ∷ names) m
          ≡ on_store k name
              (KeyStore.put_ids k doc_key kept)
              (record m { stores = insert name t m.stores })
    unfolding remove_each remove_id
    remove_each-secondary names m h =
        rw (beq_differs doc_key [] keyed, beq_differs name index_field secondary)
          (ap (λ r. continue r.0 (remove_id k sprint name doc_key idx) r.1)
              (on_store-at k name (λ s. (KeyStore.get_ids k doc_key s, s)) t m h)
            ∙ ap
                (λ r.
                  continue r (remove_id k sprint name doc_key idx)
                    (record m { stores = insert name t m.stores }))
                found
            ∙ rw listed_id (
                ap (λ f. f (record m { stores = insert name t m.stores }))
                  (drop_key-kept name doc_key idx kept kept-contains)))

    module _ (reread : Doc F → Doc F) (reread_ids : Ids → Ids)
        (laws : KeyStoreLaws k reread reread_ids)
        (same_ids : (key : Bytes) → contains key (reread_ids kept) ≡ contains key kept)
        (names : List Bytes) (s : S) (m : Model F S)
        (indexes : m.indexes ≡ index_field ∷ name ∷ names)
        (has_source : lookup index_field m.stores ≡ some s)
        (has_index : lookup name m.stores ≡ some t) (is_key : idx ≢ [])
        (own_id : sprint (value_of removed index_field) ≡ idx)
        (is_kept : KeyStore.get_doc k idx s ≡ ok (some removed)) where
      -- The models on the way: read, without the document, and with the rest of the index.
      abbrev was_read : Model F S
      was_read = record m { stores = insert index_field s m.stores }

      abbrev was_deleted : Result Bool × S
      was_deleted = KeyStore.delete k idx s

      abbrev without : Model F S
      without = record was_read { stores = insert index_field was_deleted.1 was_read.stores }

      abbrev rest : Step (Model F S) (Unit {0})
      rest = remove_each k sprint idx removed (name ∷ names)

      has_index_still : lookup name without.stores ≡ some t
      has_index_still =
          insert_other index_field name was_deleted.1 was_read.stores (λ e. secondary (sym e))
          ∙ insert_other index_field name s m.stores (λ e. secondary (sym e))
          ∙ has_index

      remove_each-index :
          remove_each k sprint idx removed (index_field ∷ name ∷ names) was_read
          ≡ continue was_deleted.0 (λ _. rest) without
      unfolding remove_each
      remove_each-index =
          rw (own_id, beq_differs idx [] is_key)
            (ap (λ r. continue r.0 (λ _. rest) r.1)
              (on_store-at k index_field (KeyStore.delete k idx) s was_read
                (insert_same index_field s m.stores)))

      get-was_read : get k idx m ≡ (ok (some removed), was_read)
      unfolding get
      get-was_read =
          ap
            (λ r.
              continue r.0 (λ _. on_store k index_field (λ s. (KeyStore.get_doc k idx s, s))) r.1)
            (store-opened k index_field s m has_source)
          ∙ on_store-at k index_field (λ s. (KeyStore.get_doc k idx s, s)) s m has_source
          ∙ ap (λ r. (r, was_read)) is_kept

      remove_object-rest : remove_object k sprint idx m ≡ continue was_deleted.0 (λ _. rest) without
      unfolding remove_object remove_found
      remove_object-rest =
          ap (λ r. continue r.0 (remove_found k sprint idx) r.1) get-was_read
          ∙ ap (λ l. remove_each k sprint idx removed l was_read) indexes
          ∙ remove_each-index

      get_index-opened :
          (u : S) (n : Model F S)
          → lookup name n.stores ≡ some u
          → (get_index k name doc_key n).0 ≡ KeyStore.get_ids k doc_key u
      unfolding get_index
      get_index-opened u n h =
          ap
            (λ r.
              (continue r.0 (λ _. on_store k name (λ s. (KeyStore.get_ids k doc_key s, s))) r.1).0)
            (store-opened k name u n h)
          ∙ ap (λ r. r.0) (on_store-at k name (λ s. (KeyStore.get_ids k doc_key s, s)) u n h)

      -- In a model whose first index is that of the id and whose second is another, with the
      -- stores of both open: a document, kept under its own id, has a key in the second index that
      -- is neither empty nor its id, and its id is listed under that key. When RemoveObject has
      -- removed it without an error, its id is listed there still. The stores keep the laws of
      -- KeyStore, and JSON reads the map of ids that is put with the keys it has.
      pub remove_object-keeps_id :
          (remove_object k sprint idx m).0 ≡ ok tt
          → (left : Ids) × ((get_index k name doc_key (remove_object k sprint idx m).1).0
              ≡ ok (some left))
            × (contains idx left ≡ true)
      remove_object-keeps_id is_ok =
          let first =
            continue-ok was_deleted.0 _ _ tt (ap (λ r. r.0) (sym remove_object-rest) ∙ is_ok) in
          let put = KeyStore.put_ids k doc_key kept t in
          let runs =
            remove_object-rest
            ∙ continue-at was_deleted.0 (λ _. rest) without first.0 first.1
            ∙ remove_each-secondary names without has_index_still
            ∙ on_store-at k name (KeyStore.put_ids k doc_key kept) t
                (record without { stores = insert name t without.stores })
                (insert_same name t without.stores) in
          (
            reread_ids kept,
            get_index-opened put.1 (remove_object k sprint idx m).1 (
                  ap (λ r. lookup name r.1.stores) runs
                  ∙ insert_same name put.1 (insert name t without.stores))
                ∙ laws.get_ids-put_ids doc_key kept t (ap (λ r. r.0) (sym runs) ∙ is_ok),
            same_ids idx ∙ kept-contains,
          )
