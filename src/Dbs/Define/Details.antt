-- ===== src/Dbs/Define/Details.antt =====
-- DefineDetail of internal/dbs/define.go: a field of a model that another model of its schema details.
use josefina.Prelude.{ℕ, Bool, true, false, List, [], ◌∷◌, ◌++◌}
use josefina.Prelude.Eq.{bytes_eq}
use josefina.Prelude.Assoc.{insert}
use josefina.Store.Result.{Result, ok, err, panic}
use josefina.Store.Bytes.{Bytes}
use josefina.Dbs.Value.{text, json_list, no_maps}
use josefina.Dbs.Model.{Model, Field, new_detail, tp_detail, tp_any, tp_key}
use josefina.Dbs.Step.{Step, pure, ◌>>=◌, ◌>>◌}
use josefina.Dbs.Define.{
  Schema, define_field, define_atrib, define_primary_keys, define_foreign_keys, new_model,
}

-- '_'
abbrev underscore : ℕ
underscore = 95

-- The keys turned about, from the field of the model to that of its detail
turned : List (Bytes × Bytes) → List (Bytes × Bytes) → List (Bytes × Bytes)
turned [] for_keys = for_keys
turned ((fk, pk) ∷ keys) for_keys = turned keys (insert pk fk for_keys)

module _ {F S : Type 0} (valid_str : Bytes → Bool) (normalize : Bytes → Bytes) where
  -- A step of the model, and one of the model that details it.
  on_model {ℓ} : {A : Type ℓ} → Step (Model F S) A → Step (Model F S × Model F S) A
  on_model f (m, to) = ((f m).0, ((f m).1, to))

  on_detail {ℓ} : {A : Type ℓ} → Step (Model F S) A → Step (Model F S × Model F S) A
  on_detail f (m, to) = ((f to).0, (m, (f to).1))

  -- The error of DefinePrimaryKeys is not looked at.
  make_key : Bytes → Step (Model F S) (Unit {0})
  make_key pk m = (ok tt, (define_primary_keys (pk ∷ []) m).1)

  define_keys : List (Bytes × Bytes) → Step (Model F S × Model F S) (Unit {0})
  unfolding on_model on_detail make_key
  define_keys [] = pure tt
  define_keys ((fk, pk) ∷ keys) = do
    own ← on_model (define_atrib valid_str pk tp_key (text []))
    other ← on_detail (define_atrib valid_str fk tp_key (text []))
    on_model (make_key pk)
    define_keys keys

  -- The foreign keys of the detail, whose error is not looked at, and the detail of the model.
  link_detail : Bytes → List (Bytes × Bytes) → Step (Model F S × Model F S) (Model F S)
  unfolding turned
  link_detail name keys (m, to) =
      let linked = define_foreign_keys m (turned keys []) true true to in
      (
        ok linked.1,
        (
          record linked.2 {
            details = insert name (new_detail linked.1.from keys [] false false) linked.2.details;
          },
          linked.1,
        ),
      )

  -- The schema holds the model that details this one, changed as far as an error lets it be.
  put_back :
      Result (Model F S) × (Model F S × Model F S)
      → Schema F S
      → Result (Model F S) × (Model F S × Schema F S)
  put_back (r, (m, to)) s = (r, (m, record s { models = insert to.from.name to s.models }))

  detail_of :
      Bytes
      → List (Bytes × Bytes)
      → Model F S
      → Result (Model F S) × Schema F S
      → Result (Model F S) × (Model F S × Schema F S)
  unfolding define_keys link_detail put_back
  detail_of name keys m (ok to, s) =
      put_back ((define_keys keys >> link_detail name keys) (m, to)) s
  detail_of name keys m (err e, s) = (err e, (m, s))
  detail_of name keys m (panic, s) = (panic, (m, s))

  after_defined :
      ℕ
      → Bytes
      → List (Bytes × Bytes)
      → ℕ
      → Result (Field F) × Model F S
      → Schema F S
      → Result (Model F S) × (Model F S × Schema F S)
  unfolding detail_of
  after_defined address name keys version (ok fld, m) s =
      detail_of name keys m
        (new_model valid_str normalize address (m.from.name ++ underscore ∷ name) false version s)
  after_defined address name keys version (err e, m) s = (err e, (m, s))
  after_defined address name keys version (panic, m) s = (panic, (m, s))

  -- `address` is that of the new model's From.
  unfoldable pub define_detail :
      ℕ → Bytes → List (Bytes × Bytes) → ℕ → Step (Model F S × Schema F S) (Model F S)
  unfolding after_defined
  define_detail address name keys version (m, s) =
      after_defined address name keys version
        (define_field valid_str name tp_detail tp_any (json_list no_maps) m) s
