-- ===== src/Dbs/Define/Changes.antt =====
-- internal/dbs/define.go: any sequence of the methods that define a model.
use josefina.Prelude.{
  ℕ, Bool, true, false, none, some, List, [], ◌∷◌, ◌++◌, ◌||◌, ◌≡◌, ◌⊎◌, refl, sym, subst, ap, ◌∙◌,
  arith, Bool-cases, inl, inr, if◌then◌else◌, not, Option-cases, if_elim,
}
use josefina.Prelude.Eq.{◌=?◌, bytes_eq, listed}
use josefina.Prelude.Assoc.{lookup, insert, contains}
use josefina.Store.Result.{Result, ok, err, panic}
use josefina.Store.Bytes.{Bytes}
use josefina.Dbs.Value.{Value}
use josefina.Dbs.Model.{From, TypeField, TypeData, Field, Model, index_field}
use josefina.Dbs.Define.{
  add_name, put_field, define_field, new_field, define_each, add_index, define_indexes, add_unique,
  define_unique, add_required, define_required, add_hidden, define_hidden, add_primary_key,
  define_primary_keys, require_keys, add_foreign_key, define_foreign_keys, define_index_field,
  blank, define_index_after,
}
use josefina.Dbs.Define.Sound.{
  IsLinked, IsSound, add_index-IsLinked, add_unique-IsLinked, add_required-IsLinked, listed_cases,
}

contains-insert :
    {V : Type 0} (k j : Bytes) (v : V) (m : List (Bytes × V))
    → contains k m ≡ true
    → contains k (insert j v m) ≡ true
unfolding contains insert
contains-insert k j v [] h = absurd (cc)
contains-insert k j v ((i, w) ∷ m) h = ground (arith, contains-insert k j v m)

module _ {F S : Type 0} where
  fields-IsSound :
      (name : Bytes) (fld : Field F) (m : Model F S)
      → IsSound m
      → IsSound (record m { fields = insert name fld m.fields })
  fields-IsSound name fld m v = record {
    unique_indexed = v.unique_indexed;
    required_indexed = v.required_indexed;
    primary_unique = v.primary_unique;
    primary_required = v.primary_required;
    indexes_known = λ k h. contains-insert k name fld m.fields (v.indexes_known k h);
    hidden_known = λ k h. contains-insert k name fld m.fields (v.hidden_known k h);
    index_first = v.index_first;
  }

  put_field-IsSound :
      (name : Bytes) (r : Result (Field F)) (m : Model F S)
      → IsSound m
      → IsSound (put_field name r m).1
  unfolding put_field
  put_field-IsSound name (ok fld) m v = fields-IsSound name fld m v
  put_field-IsSound name (err e) m v = v
  put_field-IsSound name panic m v = v

  define_each-IsSound :
      (one : Bytes → Model F S → Model F S)
      → ((name : Bytes) (m : Model F S)
          → contains name m.fields ≡ true
          → IsSound m
          → IsSound (one name m))
      → (names : List Bytes) (m : Model F S) → IsSound m
      → IsSound (define_each one names m).1
  unfolding define_each
  define_each-IsSound one keep [] m v = v
  define_each-IsSound one keep (name ∷ names) m v = elim (Bool-cases (contains name m.fields)) [
    | inl there ↦ rw there (define_each-IsSound one keep names (one name m) (keep name m there v))
    | inr missing ↦ rw missing v
  ]

  hidden-IsSound :
      (name : Bytes) (m : Model F S)
      → contains name m.fields ≡ true
      → IsSound m
      → IsSound (add_hidden name m)
  unfolding add_hidden add_name
  hidden-IsSound name m there v = elim (Bool-cases (listed name m.hidden)) [
    | inl old ↦ rw old v
    | inr new ↦ rw new (record {
      unique_indexed = v.unique_indexed;
      required_indexed = v.required_indexed;
      primary_unique = v.primary_unique;
      primary_required = v.primary_required;
      indexes_known = v.indexes_known;
      hidden_known = λ k.
          listed_cases (λ x. contains x m.fields ≡ true) name k m.hidden (v.hidden_known k) there;
      index_first = v.index_first;
    })
  ]

  add_unique-IsSound :
      (name : Bytes) (m : Model F S)
      → contains name m.fields ≡ true
      → IsSound m
      → IsSound (add_unique name m)
  add_unique-IsSound name m there v =
      let (linked, _, _, same, _) = add_unique-IsLinked m.primary_keys name m there v in
      subst (λ ps. IsLinked ps (add_unique name m)) (sym same) linked

  add_required-IsSound :
      (name : Bytes) (m : Model F S)
      → contains name m.fields ≡ true
      → IsSound m
      → IsSound (add_required name m)
  add_required-IsSound name m there v =
      let (linked, _, same, _) = add_required-IsLinked m.primary_keys name m there v in
      subst (λ ps. IsLinked ps (add_required name m)) (sym same) linked

  -- A name that is unique and required may join the primary keys.
  primary-IsLinked :
      (ps : List Bytes) (name : Bytes) (m : Model F S)
      → listed name m.unique ≡ true
      → listed name m.required ≡ true
      → IsLinked ps m
      → IsLinked (ps ++ name ∷ []) m
  primary-IsLinked ps name m u r v = record {
    unique_indexed = v.unique_indexed;
    required_indexed = v.required_indexed;
    primary_unique =
        λ k. listed_cases (λ x. listed x m.unique ≡ true) name k ps (v.primary_unique k) u;
    primary_required =
        λ k. listed_cases (λ x. listed x m.required ≡ true) name k ps (v.primary_required k) r;
    indexes_known = v.indexes_known;
    hidden_known = v.hidden_known;
    index_first = v.index_first;
  }

  relabelled :
      (ps qs : List Bytes) (m : Model F S)
      → IsLinked ps m
      → IsLinked ps (record m { primary_keys = qs })
  relabelled ps qs m v = record {
    unique_indexed = v.unique_indexed;
    required_indexed = v.required_indexed;
    primary_unique = v.primary_unique;
    primary_required = v.primary_required;
    indexes_known = v.indexes_known;
    hidden_known = v.hidden_known;
    index_first = v.index_first;
  }

  define_one :
      (one : Bytes → Model F S → Model F S) (name : Bytes) (m : Model F S)
      → contains name m.fields ≡ true
      → (define_each one (name ∷ []) m).1 ≡ one name m
  unfolding define_each
  define_one one name m there = rw there refl

  add_primary_key-IsSound :
      (name : Bytes) (m : Model F S)
      → contains name m.fields ≡ true
      → IsSound m
      → IsSound (add_primary_key name m)
  unfolding add_primary_key define_required define_unique
  add_primary_key-IsSound name m there v = elim (Bool-cases (listed name m.primary_keys)) [
    | inl old ↦ rw old v
    | inr new ↦
        let added : Model F S = record m { primary_keys = m.primary_keys ++ name ∷ [] } in
        let (linked, in_required, same, kept) =
          add_required-IsLinked m.primary_keys name added there (relabelled m.primary_keys _ m v) in
        let still : contains name (add_required name added).fields ≡ true =
          ap (contains name) kept ∙ there in
        let (linked2, in_unique, required_kept, same2, _) =
          add_unique-IsLinked m.primary_keys name (add_required name added) still linked in
        let made : (define_each add_unique (name ∷ [])
              (define_each add_required (name ∷ []) added).1).1
            ≡ add_unique name (add_required name added) =
          ap (λ n. (define_each add_unique (name ∷ []) n).1)
            (define_one add_required name added there)
          ∙ define_one add_unique name (add_required name added) still in
        rw new (
          subst (λ n. IsSound n) (sym made)
            (subst (λ ps. IsLinked ps (add_unique name (add_required name added)))
              (sym (same2 ∙ same))
              (primary-IsLinked m.primary_keys name (add_unique name (add_required name added))
                in_unique (ap (listed name) required_kept ∙ in_required) linked2)))
  ]

  require_keys-IsSound :
      (keys : List (Bytes × Bytes)) (m to : Model F S)
      → IsSound m
      → IsSound to
      → IsSound (require_keys keys (m, to)).1 × IsSound (require_keys keys (m, to)).2
  unfolding require_keys define_required
  require_keys-IsSound [] m to v w = (v, w)
  require_keys-IsSound ((fk, pk) ∷ keys) m to v w =
      let v1 = define_each-IsSound add_required add_required-IsSound (pk ∷ []) m v in
      let w1 = define_each-IsSound add_required add_required-IsSound (fk ∷ []) to w in
      let rest = require_keys-IsSound keys _ _ v1 w1 in
      let both : Result (Unit {0}) × Model F S × Model F S → Type 0 =
        λ r. IsSound r.1 × IsSound r.2 in
      if_elim both (not (contains pk m.fields)) _ _ (v, w)
        (if_elim both (not (contains fk to.fields)) _ _ (v1, w) rest)

  add_foreign_key-IsSound :
      (keys : List (Bytes × Bytes)) (on_delete on_update : Bool)
      (r : Result (Unit {0}) × Model F S × Model F S)
      → IsSound r.1
      → IsSound r.2
      → IsSound (add_foreign_key keys on_delete on_update r).1
        × IsSound (add_foreign_key keys on_delete on_update r).2
  unfolding add_foreign_key
  add_foreign_key-IsSound keys d u (ok x, m, to) v w = (
    record {
      unique_indexed = v.unique_indexed;
      required_indexed = v.required_indexed;
      primary_unique = v.primary_unique;
      primary_required = v.primary_required;
      indexes_known = v.indexes_known;
      hidden_known = v.hidden_known;
      index_first = v.index_first;
    },
    w,
  )
  add_foreign_key-IsSound keys d u (err e, m, to) v w = (v, w)
  add_foreign_key-IsSound keys d u (panic, m, to) v w = (v, w)

  -- One call of a method that defines a part of the model, of either model for a foreign key.
  pub data Change (valid_str : Bytes → Bool) (m : Model F S) : Model F S → Type 0 where
    field :
        (name : Bytes) (tp_field : TypeField) (tp_data : TypeData) (v : Value F)
        → Change valid_str m (define_field valid_str name tp_field tp_data v m).1
    indexes : (names : List Bytes) → Change valid_str m (define_indexes names m).1
    unique : (names : List Bytes) → Change valid_str m (define_unique names m).1
    required : (names : List Bytes) → Change valid_str m (define_required names m).1
    hidden : (names : List Bytes) → Change valid_str m (define_hidden names m).1
    primary_keys : (names : List Bytes) → Change valid_str m (define_primary_keys names m).1
    foreign_keys :
        (to : Model F S) (keys : List (Bytes × Bytes)) (on_delete on_update : Bool)
        → IsSound to
        → Change valid_str m (define_foreign_keys to keys on_delete on_update m).1
    referred :
        (other : Model F S) (keys : List (Bytes × Bytes)) (on_delete on_update : Bool)
        → IsSound other
        → Change valid_str m (define_foreign_keys m keys on_delete on_update other).2

  pub data Changes (valid_str : Bytes → Bool) (m : Model F S) : Model F S → Type 0 where
    here : Changes valid_str m m
    next : {n o : Model F S} → Changes valid_str m n → Change valid_str n o → Changes valid_str m o

  field-IsSound :
      (valid_str : Bytes → Bool) (name : Bytes) (tp_field : TypeField) (tp_data : TypeData)
      (v : Value F) (m : Model F S)
      → IsSound m
      → IsSound (define_field valid_str name tp_field tp_data v m).1
  unfolding define_field
  field-IsSound valid_str name tp_field tp_data v m w =
      if_elim (λ (r : Result (Field F) × Model F S). IsSound r.1) (not (valid_str name)) _ _ w
        (known (Option-cases (lookup name m.fields)))
    where
      known :
          (lookup name m.fields ≡ none) ⊎ ((fld : Field F) × (lookup name m.fields ≡ some fld))
          → IsSound
              (elim (lookup name m.fields) as (λ _. Result (Field F) × Model F S) [
                | some fld ↦
                    put_field name
                      (ok (record fld {
                        type_field = tp_field;
                        type_data = tp_data;
                        default_value = v;
                      }))
                      m
                | none ↦ put_field name (new_field valid_str name tp_field tp_data v) m
              ]).1
      known (inl e) =
          rw e (put_field-IsSound name (new_field valid_str name tp_field tp_data v) m w)
      known (inr (fld, e)) = rw e (put_field-IsSound name (ok _) m w)

  Change-IsSound :
      (valid_str : Bytes → Bool) (m n : Model F S) → Change valid_str m n → IsSound m → IsSound n
  unfolding define_indexes define_unique define_required define_hidden define_primary_keys
      define_foreign_keys
  Change-IsSound valid_str m _ (Change.field name tf td x) v =
      field-IsSound valid_str name tf td x m v
  Change-IsSound valid_str m _ (Change.indexes names) v =
      define_each-IsSound add_index (λ k n. add_index-IsLinked n.primary_keys k n) names m v
  Change-IsSound valid_str m _ (Change.unique names) v =
      define_each-IsSound add_unique add_unique-IsSound names m v
  Change-IsSound valid_str m _ (Change.required names) v =
      define_each-IsSound add_required add_required-IsSound names m v
  Change-IsSound valid_str m _ (Change.hidden names) v =
      define_each-IsSound add_hidden hidden-IsSound names m v
  Change-IsSound valid_str m _ (Change.primary_keys names) v =
      define_each-IsSound add_primary_key add_primary_key-IsSound names m v
  Change-IsSound valid_str m _ (Change.foreign_keys to keys d u w) v =
      let (a, b) = require_keys-IsSound keys m to v w in
      (add_foreign_key-IsSound keys d u (require_keys keys (m, to)) a b).0
  Change-IsSound valid_str m _ (Change.referred other keys d u w) v =
      let (a, b) = require_keys-IsSound keys other m w v in
      (add_foreign_key-IsSound keys d u (require_keys keys (other, m)) a b).1

one_known : (b : Bool) → (b || false) ≡ true → (if b then true else false) ≡ true
one_known true h = refl
one_known false h = h

blank-IsSound :
    {F S : Type 0} (valid_str : Bytes → Bool) (from : From) (path : Bytes) (version : ℕ)
    (is_core : Bool)
    → valid_str index_field ≡ true
    → IsSound (define_index_field {F = F} {S = S} valid_str (blank from path version is_core)).1
unfolding define_index_field define_field put_field new_field lookup define_index_after
    define_indexes define_hidden define_each add_index add_hidden add_name listed contains insert
blank-IsSound valid_str from path version is_core h = rw h (record {
  unique_indexed = λ k e. absurd (cc);
  required_indexed = λ k e. absurd (cc);
  primary_unique = λ k e. absurd (cc);
  primary_required = λ k e. absurd (cc);
  indexes_known = λ k e. one_known (index_field =? k) e;
  hidden_known = λ k e. one_known (index_field =? k) e;
  index_first = ([], refl);
})

-- A model that newModel has made, and then any calls that define fields, indexes, unique, required and
-- hidden fields, primary keys and foreign keys, in whatever order and with whatever errors: every unique or
-- required field has an index, every primary key is unique and required, every field with an index or
-- hidden is a field of the model, and the first index is that of the record's id. The name of this
-- field is one that ValidStr takes.
pub Changes-IsSound :
    {F S : Type 0} (valid_str : Bytes → Bool) (from : From) (path : Bytes) (version : ℕ)
    (is_core : Bool) (m : Model F S)
    → valid_str index_field ≡ true
    → Changes valid_str (define_index_field valid_str (blank from path version is_core)).1 m
    → IsSound m
Changes-IsSound valid_str from path version is_core m h Changes.here =
    blank-IsSound valid_str from path version is_core h
Changes-IsSound valid_str from path version is_core m h (Changes.next {n} r c) =
    Change-IsSound valid_str n m c (Changes-IsSound valid_str from path version is_core n h r)
