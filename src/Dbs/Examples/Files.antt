-- ===== src/Dbs/Examples/Files.antt =====
-- The theorems on the store of a model, with an encoding in which integers are read back as floats and
-- times as texts, as in JSON; nested values are written as null.
use josefina.Prelude.{
  ℕ, zero, suc, Bool, true, false, Option, some, List, [], ◌∷◌, ◌++◌, ◌≡◌, refl, ap, ◌∙◌, sym,
  length, take, drop, map, take-length_append, drop-length_append,
}
use josefina.Prelude.Eq.{bytes_eq, listed}
use josefina.Prelude.Assoc.{lookup, insert, contains}
use josefina.Store.Result.{Result, ok, err, not_data}
use josefina.Store.Bytes.{Bytes, put_uint16, put_uint32}
use josefina.Store.Segment.{
  loop, sync, write_record, write, write_header, write_payload, new_record_header_at,
}
use josefina.Store.FileStore.{set_index}
use josefina.Store.Ops
use josefina.Store.Durable.History.{open_files-Durable}
use josefina.Store.Examples.{new_store, new_store-IsStore}
use josefina.Dbs.Value.{Value, text, ℤ, pos, negsuc}
use josefina.Dbs.Model.{Model, index_field}
use josefina.Dbs.Define.{blank}
use josefina.Dbs.Objects.{
  KeyStore, KeyStoreLaws, Doc, Ids, put_object, put_each, put_id, add_id, on_store, at, get,
  value_of,
}
use josefina.Dbs.Objects.Indexes.{put_object-get}
use josefina.Dbs.Objects.Files.{
  Opened, file_key_store, file_key_store-KeyStoreLaws, put_bytes, settled,
}
use josefina.Dbs.Examples.Models.{some_from, name_a, name_b, some_id}

-- The kind of a value and its bytes; floats are those of integers.
abbrev kind : Value ℤ → ℕ
kind (text t) = 0
kind (Value.time t) = 0
kind (Value.signed w (pos n)) = 1
kind (Value.unsigned w n) = 1
kind (Value.float w (pos n)) = 1
kind (Value.signed w (negsuc n)) = 2
kind (Value.float w (negsuc n)) = 2
kind (Value.bool true) = 3
kind (Value.bool false) = 4
kind _ = 5

abbrev body : Value ℤ → Bytes
body (text t) = t
body (Value.time t) = t ∷ []
body (Value.signed w (pos n)) = n ∷ []
body (Value.unsigned w n) = n ∷ []
body (Value.float w (pos n)) = n ∷ []
body (Value.signed w (negsuc n)) = n ∷ []
body (Value.float w (negsuc n)) = n ∷ []
body _ = []

abbrev reread_value : Value ℤ → Value ℤ
reread_value (text t) = text t
reread_value (Value.time t) = text (t ∷ [])
reread_value (Value.bool b) = Value.bool b
reread_value (Value.signed w n) = Value.float 64 n
reread_value (Value.unsigned w n) = Value.float 64 (pos n)
reread_value (Value.float w n) = Value.float 64 n
reread_value _ = Value.nil

abbrev reread : Doc ℤ → Doc ℤ
reread d = map (λ p. (p.0, reread_value p.1)) d

abbrev float_of : (ℕ → ℤ) → Bytes → Value ℤ
float_of sign [] = Value.nil
float_of sign (n ∷ rest) = Value.float 64 (sign n)

abbrev read_value : ℕ → Bytes → Value ℤ
read_value zero b = text b
read_value (suc zero) b = float_of pos b
read_value (suc (suc zero)) b = float_of negsuc b
read_value (suc (suc (suc zero))) b = Value.bool true
read_value (suc (suc (suc (suc zero)))) b = Value.bool false
read_value _ b = Value.nil

fields : Doc ℤ → Bytes
fields [] = []
fields ((name, v) ∷ d) = kind v ∷ length name ∷ length (body v) ∷ name ++ (body v ++ fields d)

read_fields : ℕ → Bytes → Doc ℤ
read_fields (suc n) (sort ∷ names ∷ size ∷ rest) =
    (take names rest, read_value sort (take size (drop names rest)))
    ∷ read_fields n (drop size (drop names rest))
read_fields _ _ = []

abbrev encode : Doc ℤ → Option Bytes
encode d = some (length d ∷ fields d)

abbrev decode : Bytes → Result (Doc ℤ)
decode [] = err not_data
decode (n ∷ bytes) = ok (read_fields n bytes)

read_value_lem : (v : Value ℤ) → read_value (kind v) (body v) ≡ reread_value v
read_value_lem (text t) = refl
read_value_lem (Value.time t) = refl
read_value_lem (Value.signed w (pos n)) = refl
read_value_lem (Value.signed w (negsuc n)) = refl
read_value_lem (Value.unsigned w n) = refl
read_value_lem (Value.float w (pos n)) = refl
read_value_lem (Value.float w (negsuc n)) = refl
read_value_lem (Value.bool true) = refl
read_value_lem (Value.bool false) = refl
read_value_lem Value.nil = refl
read_value_lem (Value.json a) = refl
read_value_lem (Value.raw_map a) = refl
read_value_lem (Value.json_list a) = refl
read_value_lem (Value.items a) = refl
read_value_lem (Value.between a b) = refl

read_fields-fields : (d : Doc ℤ) → read_fields (length d) (fields d) ≡ reread d
unfolding read_fields fields
read_fields-fields [] = refl
read_fields-fields ((name, v) ∷ d) =
    rw
      (
        take-length_append name (body v ++ fields d) (length name) refl,
        drop-length_append name (body v ++ fields d) (length name) refl,
        take-length_append (body v) (fields d) (length (body v)) refl,
        drop-length_append (body v) (fields d) (length (body v)) refl,
        read_value_lem v,
        read_fields-fields d,
      )
      refl

some_same : {a b : Bytes} → some a ≡ some b → a ≡ b
some_same h = cc

decode-encode :
    (d : Doc ℤ) (payload : Bytes) → encode d ≡ some payload → decode payload ≡ ok (reread d)
decode-encode d payload h = ap decode (sym (some_same h)) ∙ ap ok (read_fields-fields d)

-- A map of ids is written as a document of truth values.
abbrev as_doc : Ids → Doc ℤ
as_doc ids = map (λ p. (p.0, Value.bool p.1)) ids

abbrev is_true : Value ℤ → Bool
is_true (Value.bool b) = b
is_true _ = false

abbrev as_ids : Doc ℤ → Ids
as_ids d = map (λ p. (p.0, is_true p.1)) d

abbrev ids_of : Result (Doc ℤ) → Result Ids
ids_of (ok d) = ok (as_ids d)
ids_of (err e) = err e
ids_of Result.panic = Result.panic

abbrev encode_ids : Ids → Option Bytes
encode_ids ids = encode (as_doc ids)

abbrev decode_ids : Bytes → Result Ids
decode_ids payload = ids_of (decode payload)

abbrev reread_ids : Ids → Ids
reread_ids ids = as_ids (reread (as_doc ids))

decode_ids-encode_ids :
    (d : Ids) (payload : Bytes)
    → encode_ids d ≡ some payload
    → decode_ids payload ≡ ok (reread_ids d)
decode_ids-encode_ids d payload h = ap ids_of (decode-encode (as_doc d) payload h)

abbrev new_opened : Opened
new_opened = record { file = new_store; log = []; valid = new_store-IsStore }

open_new : Bytes → Bytes → Bool → Result Opened
open_new path name debug =
    let (s, e, d) = open_files-Durable 1024 true in
    ok (record { file = s; log = []; valid = d.store })

abbrev one_by_one : ℕ → List (Result (Doc ℤ)) → List (Result (Doc ℤ)) × ℕ
one_by_one workers records = (records, 0)

abbrev files : KeyStore Opened ℤ
files = file_key_store encode decode encode_ids decode_ids open_new one_by_one

file_key_store-KeyStoreLaws_example :
    KeyStoreLaws
      (file_key_store encode decode encode_ids decode_ids open_new one_by_one)
      reread
      reread_ids
file_key_store-KeyStoreLaws_example =
    file_key_store-KeyStoreLaws encode decode encode_ids decode_ids open_new one_by_one reread
      reread_ids decode-encode decode_ids-encode_ids

abbrev print_text : Value ℤ → Bytes
print_text (text t) = t
print_text _ = 63 ∷ []

-- Indexes on the id and on a, in files
abbrev filed_model : Model ℤ Opened
filed_model = record (blank some_from [] 1 false) {
  indexes = index_field ∷ name_a ∷ [];
  stores = (index_field, new_opened) ∷ (name_a, new_opened) ∷ [];
}

-- {a: "x", b: 7}, where 7 is an int
abbrev counted_doc : Doc ℤ
counted_doc = (name_a, text (120 ∷ [])) ∷ (name_b, Value.signed 0 (pos 7)) ∷ []

put_object-get_example :
    (get files some_id (put_object files print_text some_id counted_doc filed_model).1).0
    ≡ ok (some (reread (insert index_field (text some_id) counted_doc)))
unfolding put_object put_each put_id add_id on_store at listed lookup insert contains value_of
    file_key_store put_bytes settled josefina.Store.Segment.new_segment fields read_fields Ops.put
    Ops.put_index Ops.append_record Ops.active_segment Ops.write_active Ops.sync_active Ops.rotate
    Ops.trigger_compact Ops.get Ops.get_payload put_uint16 put_uint32 set_index loop sync
    write_record write write_header write_payload new_record_header_at
put_object-get_example =
    put_object-get files print_text some_id counted_doc (cc) refl reread reread_ids
      file_key_store-KeyStoreLaws_example new_opened (name_a ∷ []) filed_model refl refl refl refl
