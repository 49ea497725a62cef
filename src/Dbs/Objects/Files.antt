-- ===== src/Dbs/Objects/Files.antt =====
-- The interface KeyStore of internal/dbs/model.go, filled by the store of internal/store/store.go.
--
-- A call is over when the goroutine has written what the call handed to it. `encode` and `decode` are
-- json.Marshal and json.Unmarshal of a document, `encode_ids` and `decode_ids` those of a map of ids,
-- `open_at` opens a well-formed store, and `schedule` is the order in which so many workers come to the
-- records of a page, with the number of calls after one that stops.
use josefina.Prelude.{ℕ, Bool, Option, none, some, List, [], ◌∷◌, ◌≡◌, refl, ap, ◌∙◌, ◌++◌}
use josefina.Store.Result.{Result, ok, err, panic}
use josefina.Store.Bytes.{Bytes}
use josefina.Store.Segment.{RecordRef}
use josefina.Store.Segment.Codec.{Entry}
use josefina.Store.FileStore
use josefina.Store.FileStore.{FileStore}
use josefina.Store.Ops
use josefina.Store.Listing.{keys_page, get_records}
use josefina.Store.Iterate.{fetch}
use josefina.Store.Invariant.{IsStore}
use josefina.Store.Invariant.Behaviour.{settle, IsStore-settle}
use josefina.Store.Invariant.Rejected.{put-keeps, delete-keeps}
use josefina.Store.Invariant.Fresh.{get_payload-put_fresh}
use josefina.Dbs.Step.{Step}
use josefina.Dbs.Objects.{KeyStore, KeyStoreLaws, Doc, Ids}

-- A store whose segments hold a history.
pub record Opened : Type 0 where
  pub file : FileStore
  pub log : List Entry
  pub valid : IsStore file log

-- A store after a call, with what it has written
unfoldable pub settled : (s : FileStore) → (log : List Entry) × IsStore s log → Opened
settled s (log, v) = record { file = settle s; log = log; valid = IsStore-settle s log v }

unfoldable pub put_bytes : Bytes → Option Bytes → Step Opened (Unit {0})
unfolding settled
put_bytes key marshalled o =
    let r = Ops.put key marshalled o.file in
    (r.0, settled r.1 (put-keeps o.file o.log key marshalled o.valid))

unfoldable pub delete_key : Bytes → Step Opened Bool
unfolding settled
delete_key key o =
    let r = Ops.delete key o.file in (r.0, settled r.1 (delete-keeps o.file o.log key o.valid))

-- Put that succeeds is followed by Get: the bytes are there.
get_payload-put_bytes :
    (key payload : Bytes) (o : Opened)
    → (put_bytes key (some payload) o).0 ≡ ok tt
    → Ops.get_payload (put_bytes key (some payload) o).1.file key ≡ ok (some payload)
unfolding put_bytes
get_payload-put_bytes key payload o h = get_payload-put_fresh o.file o.log key payload o.valid h

module _ {F : Type 0} (encode : Doc F → Option Bytes) (decode : Bytes → Result (Doc F))
    (encode_ids : Ids → Option Bytes) (decode_ids : Bytes → Result Ids)
    (open_at : Bytes → Bytes → Bool → Result Opened)
    (schedule : ℕ → List (Result (Doc F)) → List (Result (Doc F)) × ℕ) where
  read_one : Result (Option Bytes) → List (Result (Doc F))
  read_one (ok none) = []
  read_one (ok (some payload)) = decode payload ∷ []
  read_one (err e) = err e ∷ []
  read_one panic = panic ∷ []

  read_all : FileStore → List (Bytes × Option RecordRef) → List Bytes → List (Result (Doc F))
  unfolding read_one
  read_all s index [] = []
  read_all s index (key ∷ keys) =
      read_one (fetch index s.segments (λ id payload. ok josefina.Prelude.true) key)
      ++ read_all s index keys

  -- The records in the order of the page; a page out of range panics.
  page_records :
      FileStore → Result (List (Bytes × Option RecordRef) × List Bytes) → List (Result (Doc F))
  unfolding read_all
  page_records s (ok (index, keys)) = read_all s index keys
  page_records s (err e) = err e ∷ []
  page_records s panic = panic ∷ []

  -- Keys is called without an offset and a limit, where it does not panic.
  page_keys : Result (List Bytes) → List Bytes
  page_keys (ok keys) = keys
  page_keys (err e) = []
  page_keys panic = []

  unfoldable pub file_key_store : KeyStore Opened F
  unfolding put_bytes delete_key page_records page_keys
  file_key_store = record {
    open_store = open_at;
    put_doc = λ key object. put_bytes key (encode object);
    put_ids = λ key index. put_bytes key (encode_ids index);
    get_doc = λ key o. Ops.get decode o.file key;
    get_ids = λ key o. Ops.get decode_ids o.file key;
    delete = delete_key;
    is_exist = λ key o. Ops.is_exist o.file key;
    count = λ o. FileStore.count o.file;
    keys = λ asc offset limit o. page_keys (keys_page o.file asc offset limit).0;
    records = λ asc offset limit workers o.
        schedule workers (page_records o.file (get_records o.file asc offset limit).0);
  }

get-decoded {ℓ} :
    {V : Type ℓ} (unmarshal : Bytes → Result V) (s : FileStore) (key payload : Bytes) (v : V)
    → Ops.get_payload s key ≡ ok (some payload)
    → unmarshal payload ≡ ok v
    → Ops.get unmarshal s key ≡ ok (some v)
unfolding Ops.get
get-decoded unmarshal s key payload v g u =
    ap
      (λ r. elim r [
        | ok none ↦ ok none
        | ok (some payload) ↦ elim (unmarshal payload) [
          | ok v ↦ ok (some v)
          | err e ↦ err e
          | panic ↦ panic
        ]
        | err e ↦ err e
        | panic ↦ panic
      ])
      g
    ∙ ap (λ r. elim r [ ok v ↦ ok (some v) | err e ↦ err e | panic ↦ panic ]) u

not_marshalled : (key : Bytes) (o : Opened) → (put_bytes key none o).0 ≡ ok tt → ⊥
unfolding put_bytes Ops.put
not_marshalled [] o h = cc
not_marshalled (c ∷ cs) o h = cc

get-put_bytes {ℓ} :
    {V : Type ℓ} (marshalled : Option Bytes) (unmarshal : Bytes → Result V) (key : Bytes) (v : V)
    (o : Opened)
    → ((payload : Bytes) → marshalled ≡ some payload → unmarshal payload ≡ ok v)
    → (put_bytes key marshalled o).0 ≡ ok tt
    → Ops.get unmarshal (put_bytes key marshalled o).1.file key ≡ ok (some v)
get-put_bytes none unmarshal key v o u h = absurd (not_marshalled key o h)
get-put_bytes (some payload) unmarshal key v o u h =
    get-decoded unmarshal (put_bytes key (some payload) o).1.file key payload v
      (get_payload-put_bytes key payload o h) (u payload refl)

-- The store of internal/store keeps the promise that a model relies on: what a call that succeeds has
-- put under a key is found there, read as json.Unmarshal reads what json.Marshal wrote for it, a
-- document as well as a map of ids. `reread` and `reread_ids` say what that reading is.
pub file_key_store-KeyStoreLaws :
    {F : Type 0} (encode : Doc F → Option Bytes) (decode : Bytes → Result (Doc F))
    (encode_ids : Ids → Option Bytes) (decode_ids : Bytes → Result Ids)
    (open_at : Bytes → Bytes → Bool → Result Opened)
    (schedule : ℕ → List (Result (Doc F)) → List (Result (Doc F)) × ℕ) (reread : Doc F → Doc F)
    (reread_ids : Ids → Ids)
    → ((d : Doc F) (payload : Bytes) → encode d ≡ some payload → decode payload ≡ ok (reread d))
    → ((d : Ids) (payload : Bytes)
        → encode_ids d ≡ some payload
        → decode_ids payload ≡ ok (reread_ids d))
    → KeyStoreLaws
        (file_key_store encode decode encode_ids decode_ids open_at schedule)
        reread
        reread_ids
unfolding file_key_store
file_key_store-KeyStoreLaws encode decode encode_ids decode_ids open_at schedule reread reread_ids
      docs ids =
    record {
      get_doc-put_doc = λ key object o h.
          get-put_bytes (encode object) decode key (reread object) o (docs object) h;
      get_ids-put_ids = λ key index o h.
          get-put_bytes (encode_ids index) decode_ids key (reread_ids index) o (ids index) h;
    }
