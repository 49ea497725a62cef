-- ===== src/Dbs/Cmd/Insert.antt =====
-- internal/dbs/cmd.go: what an insert checks, and what it adds to the transaction.
use josefina.Prelude.{
  Bool, true, false, Option, none, some, List, [], ◌∷◌, ◌≡◌, refl, ap, sym, subst, All,
  if◌then◌else◌,
}
use josefina.Prelude.Eq.{bytes_eq}
use josefina.Prelude.Assoc.{lookup, contains}
use josefina.Store.Result.{
  Result, ok, err, panic, Error, field_required, record_exists, guard_ok, guard_not_ok,
}
use josefina.Store.Bytes.{Bytes}
use josefina.Dbs.Model.{Detail, From}
use josefina.Dbs.Step.{Step, lift, ◌>>◌, continue, continue-ok}
use josefina.Dbs.Objects.{KeyStore, Doc, value_of}
use josefina.Dbs.Cmd.{
  Session, Cmd, Around, check_required, check_store, check_unique, check_foreign_key, check_foreign,
  take_key, insert_new, check_insert, check_exists, in_world, insert_data, execute_insert,
}

module _ {F S W : Type 0} (a : Around F S W) where
  open a use {k, sprint, is_existed}

  check_required-ok :
      (names : List Bytes) (new : Doc F)
      → check_required a names new ≡ ok tt
      → All (λ name. contains name new ≡ true) names
  unfolding check_required
  check_required-ok [] new h = tt
  check_required-ok (name ∷ names) new h =
      let r = guard_ok (contains name new) (check_required a names new) field_required h in
      (r.0, check_required-ok names new r.1)

  -- A key that no document of the store has
  abbrev pub IsFresh : Doc F → List (Bytes × S) → Bytes → Type 0
  IsFresh new stores name =
      (contains name new ≡ true)
      × (source : S) × (lookup name stores ≡ some source)
      × (KeyStore.is_exist k (sprint (value_of new name)) source ≡ false)

  check_store-ok :
      (found : Option S) (key : Bytes) (rest : Result (Unit {0}))
      → check_store a found key rest ≡ ok tt
      → ((source : S) × (found ≡ some source) × (KeyStore.is_exist k key source ≡ false))
        × (rest ≡ ok tt)
  unfolding check_store
  check_store-ok none key rest h = absurd (cc)
  check_store-ok (some source) key rest h =
      let r = guard_not_ok (KeyStore.is_exist k key source) rest record_exists h in
      ((source, refl, r.0), r.1)

  check_unique-ok :
      (names : List Bytes) (stores : List (Bytes × S)) (new : Doc F)
      → check_unique a names stores new ≡ ok tt
      → All (IsFresh new stores) names
  unfolding check_unique
  check_unique-ok [] stores new h = tt
  check_unique-ok (name ∷ names) stores new h =
      let r = guard_ok (contains name new) _ field_required h in
      let u =
        check_store-ok (lookup name stores) (sprint (value_of new name))
          (check_unique a names stores new) r.1 in
      ((r.0, u.0.0, u.0.1, u.0.2), check_unique-ok names stores new u.1)

  -- For every key, in their order: a field of its name that the document has and the keys of the detail
  -- hold, and the other model, asked for the key of the document, has answered that it is there.
  abbrev pub AreReferred : Doc F → List (Bytes × Detail) → W → Type 0
  AreReferred new [] w = Unit
  AreReferred new ((name, detail) ∷ keys) w =
      (contains name new ≡ true)
      × (field : Bytes) × (lookup name detail.keys ≡ some field)
      × ((is_existed detail.to field (sprint (value_of new name)) w).0 ≡ ok true)
      × AreReferred new keys (is_existed detail.to field (sprint (value_of new name)) w).1

  check_exists-ok :
      (r : Result Bool) (s : Session F S W)
      → (continue r (check_exists a) s).0 ≡ ok tt
      → (r ≡ ok true) × ((continue r (check_exists a) s).1 ≡ s)
  unfolding continue check_exists
  check_exists-ok (ok true) s h = (refl, refl)
  check_exists-ok (ok false) s h = absurd (cc)
  check_exists-ok (err e) s h = absurd (cc)
  check_exists-ok panic s h = absurd (cc)

  check_foreign_key-ok :
      (to : From) (found : Option Bytes) (key : Bytes) (s : Session F S W)
      → (check_foreign_key a to found key s).0 ≡ ok tt
      → (field : Bytes) × (found ≡ some field)
        × ((is_existed to field key s.world).0 ≡ ok true)
        × ((is_existed to field key s.world).1 ≡ (check_foreign_key a to found key s).1.world)
  unfolding check_foreign_key in_world
  check_foreign_key-ok to none key s h = absurd (cc)
  check_foreign_key-ok to (some field) key s h =
      let r = is_existed to field key s.world in
      let u = check_exists-ok r.0 (record s { world = r.1 }) h in
      (field, refl, u.0, ap (λ t. t.world) (sym u.1))

  guard_step :
      (b : Bool) (m : Step (Session F S W) (Unit {0})) (e : Error) (s : Session F S W)
      → ((if b then m else lift (err e)) s).0 ≡ ok tt
      → (b ≡ true) × ((m s).0 ≡ ok tt)
  guard_step true m e s h = (refl, h)
  guard_step false m e s h = absurd (cc)

  check_foreign-ok :
      (keys : List (Bytes × Detail)) (new : Doc F) (s : Session F S W)
      → (check_foreign a keys new s).0 ≡ ok tt
      → AreReferred new keys s.world
  unfolding check_foreign
  check_foreign-ok [] new s h = tt
  check_foreign-ok ((name, detail) ∷ keys) new s h =
      let r = guard_step (contains name new) _ field_required s h in
      let one =
        check_foreign_key a detail.to (lookup name detail.keys) (sprint (value_of new name)) s in
      let u = continue-ok one.0 (λ _. check_foreign a keys new) one.1 tt r.1 in
      let known =
        check_foreign_key-ok detail.to (lookup name detail.keys) (sprint (value_of new name)) s
          u.1 in
      (
        r.0,
        known.0,
        known.1,
        known.2,
        subst (AreReferred new keys) (sym known.3) (check_foreign-ok keys new one.1 u.2),
      )

  abbrev IsChecked : Doc F → Session F S W → Type 0
  IsChecked new s =
      All (λ name. contains name new ≡ true) s.model.required
      × All (IsFresh new s.model.stores) s.model.unique
      × AreReferred new s.model.foreign_keys s.world

  check_insert-ok :
      (c : Cmd F S W) (s : Session F S W) → (check_insert a c s).0 ≡ ok tt → IsChecked c.data_of s
  unfolding check_insert
  check_insert-ok c s h =
      let r = continue-ok (check_required a s.model.required c.data_of) _ s tt h in
      let u = continue-ok (check_unique a s.model.unique s.model.stores c.data_of) _ s tt r.2 in
      (
        check_required-ok s.model.required c.data_of r.1,
        check_unique-ok s.model.unique s.model.stores c.data_of u.1,
        check_foreign-ok s.model.foreign_keys c.data_of s u.2,
      )

  insert_data-ok :
      (c : Cmd F S W) (new d : Doc F) (s : Session F S W)
      → (insert_data a c new s).0 ≡ ok d
      → IsChecked c.data_of s
  unfolding insert_data
  insert_data-ok c [] d s h = absurd (cc)
  insert_data-ok c (f ∷ new) d s h =
      let taken = (check_insert a c >> take_key a (f ∷ new)) s in
      let u = continue-ok taken.0 (insert_new a c) taken.1 d h in
      let r =
        continue-ok (check_insert a c s).0 (λ _. take_key a (f ∷ new)) (check_insert a c s).1 u.0
          u.1 in
      check_insert-ok c s r.1

  -- When an insert succeeds, its document has every required field; for every unique field it has a
  -- key, and no document in the open store of that field has it; and for every foreign key, in their
  -- order, it has a field of the name of the key, the keys of the detail hold that name, and the other
  -- model, asked for the document's key in the state that the questions before leave the nodes in, has
  -- answered that it exists.
  pub execute_insert-checks :
      (c : Cmd F S W) (d : Doc F) (s : Session F S W)
      → (execute_insert a c s).0 ≡ ok d
      → All (λ name. contains name c.data_of ≡ true) s.model.required
        × All (IsFresh c.data_of s.model.stores) s.model.unique
        × AreReferred c.data_of s.model.foreign_keys s.world
  unfolding execute_insert
  execute_insert-checks c d s h = insert_data-ok c c.data_of d s h
