-- ===== src/Dbs/Db/Names.antt =====
-- internal/dbs/db.go: GetDb and the normalised names.
use josefina.Prelude.{Bool, true, none, some, List, ◌≡◌, ◌≢◌, refl, ap, ◌∙◌}
use josefina.Prelude.Eq.{bytes_eq}
use josefina.Prelude.Assoc.{lookup, insert, insert_same, insert_other}
use josefina.Store.Result.{ok}
use josefina.Store.Bytes.{Bytes}
use josefina.Dbs.Db.{Db, new_db, found_db, get_db}

module _ {F S : Type 0} (valid_str : Bytes → Bool) (normalize : Bytes → Bytes)
    (join : Bytes → Bytes → Bytes) (data_path version : Bytes) where
  abbrev fresh : Bytes → Db F S
  fresh name = new_db valid_str normalize join data_path version (normalize name)

  get_db-fresh :
      (name : Bytes) (dbs : List (Bytes × Db F S))
      → valid_str name ≡ true
      → lookup name dbs ≡ none
      → get_db valid_str normalize join data_path version name dbs
        ≡ (ok (fresh name), insert (normalize name) (fresh name) dbs)
  unfolding get_db found_db
  get_db-fresh name dbs valid missing =
      ap (λ found. found_db valid_str normalize join data_path version name found dbs) missing
      ∙ rw valid refl

  -- GetDb with a valid name that is not its normalised name, and under which no database stands, gives an
  -- empty database and puts it under the normalised name, in place of any that stood there; there is
  -- still none under the name itself, so the next such call does the same.
  pub get_db-forgets :
      (name : Bytes) (dbs : List (Bytes × Db F S))
      → valid_str name ≡ true
      → lookup name dbs ≡ none
      → normalize name ≢ name
      → ((get_db valid_str normalize join data_path version name dbs).0
          ≡ ok (new_db valid_str normalize join data_path version (normalize name)))
        × (lookup (normalize name) (get_db valid_str normalize join data_path version name dbs).1
            ≡ some (new_db valid_str normalize join data_path version (normalize name)))
        × (lookup name (get_db valid_str normalize join data_path version name dbs).1 ≡ none)
  get_db-forgets name dbs valid missing differs =
      let e = get_db-fresh name dbs valid missing in
      (
        ap (λ r. r.0) e,
        ap (λ r. lookup (normalize name) r.1) e ∙ insert_same (normalize name) (fresh name) dbs,
        ap (λ r. lookup name r.1) e
            ∙ insert_other (normalize name) name (fresh name) dbs differs
            ∙ missing,
      )
