-- ===== src/Dbs/Define/Sound.antt =====
-- internal/dbs/define.go: how the lists of names in a model hang together.
use josefina.Prelude.{
  Bool, true, false, List, [], ◌∷◌, ◌++◌, ◌||◌, ◌≡◌, refl, sym, subst, ap, ◌∙◌, arith, Bool-cases,
  inl, inr,
}
use josefina.Prelude.Eq.{◌=?◌, bytes_eq, bytes_beq_iff, beq_refl, listed}
use josefina.Prelude.Assoc.{contains}
use josefina.Store.Bytes.{Bytes}
use josefina.Dbs.Model.{Model, index_field}
use josefina.Dbs.Define.{add_name, define_each, add_index, define_indexes, add_unique, add_required}

-- Every unique or required field has an index, every one of `primary` is unique and required, every
-- field with an index or hidden is a field of the model, and the first index is that of the record's id.
pub record IsLinked {F S : Type 0} (primary : List Bytes) (m : Model F S) : Type 0 where
  pub unique_indexed : (k : Bytes) → listed k m.unique ≡ true → listed k m.indexes ≡ true
  pub required_indexed : (k : Bytes) → listed k m.required ≡ true → listed k m.indexes ≡ true
  pub primary_unique : (k : Bytes) → listed k primary ≡ true → listed k m.unique ≡ true
  pub primary_required : (k : Bytes) → listed k primary ≡ true → listed k m.required ≡ true
  pub indexes_known : (k : Bytes) → listed k m.indexes ≡ true → contains k m.fields ≡ true
  pub hidden_known : (k : Bytes) → listed k m.hidden ≡ true → contains k m.fields ≡ true
  pub index_first : (rest : List Bytes) × (m.indexes ≡ index_field ∷ rest)

abbrev pub IsSound : {F S : Type 0} → Model F S → Type 0
IsSound m = IsLinked m.primary_keys m

listed-append : (k x : Bytes) (xs : List Bytes) → listed k (xs ++ x ∷ []) ≡ (listed k xs || x =? k)
unfolding listed
listed-append k x [] = ground arith
listed-append k x (y ∷ xs) = ground (arith, listed-append k x xs)

listed_before :
    (k x : Bytes) (xs : List Bytes) → listed k xs ≡ true → listed k (xs ++ x ∷ []) ≡ true
listed_before k x xs h = listed-append k x xs ∙ ap (λ b. b || x =? k) h

listed_last : (x : Bytes) (xs : List Bytes) → listed x (xs ++ x ∷ []) ≡ true
listed_last x xs = listed-append x x xs ∙ rw (beq_refl x) (either (listed x xs))
  where
    either : (b : Bool) → (b || true) ≡ true
    either true = refl
    either false = refl

-- What holds of the names of a list and of one more name holds of the longer list.
pub listed_cases {κ} :
    (P : Bytes → Type κ) (x k : Bytes) (xs : List Bytes)
    → (listed k xs ≡ true → P k)
    → P x
    → listed k (xs ++ x ∷ []) ≡ true
    → P k
listed_cases P x k xs old new h =
    split (listed k xs) (x =? k) refl refl (sym (listed-append k x xs) ∙ h)
  where
    split : (a b : Bool) → listed k xs ≡ a → (x =? k) ≡ b → (a || b) ≡ true → P k
    split true b e f g = old e
    split false true e f g = subst P ((bytes_beq_iff x k).0 f) new
    split false false e f g = absurd (cc)

module _ {F S : Type 0} where
  index-IsLinked :
      (ps : List Bytes) (name : Bytes) (m : Model F S)
      → contains name m.fields ≡ true
      → IsLinked ps m
      → IsLinked ps (record m { indexes = m.indexes ++ name ∷ [] })
  index-IsLinked ps name m there v = record {
    unique_indexed = λ k h. listed_before k name m.indexes (v.unique_indexed k h);
    required_indexed = λ k h. listed_before k name m.indexes (v.required_indexed k h);
    primary_unique = v.primary_unique;
    primary_required = v.primary_required;
    indexes_known = λ k.
        listed_cases (λ x. contains x m.fields ≡ true) name k m.indexes (v.indexes_known k) there;
    hidden_known = v.hidden_known;
    index_first = (v.index_first.0 ++ name ∷ [], ap (λ l. l ++ name ∷ []) v.index_first.1);
  }

  pub add_index-IsLinked :
      (ps : List Bytes) (name : Bytes) (m : Model F S)
      → contains name m.fields ≡ true
      → IsLinked ps m
      → IsLinked ps (add_index name m)
  unfolding add_index add_name
  add_index-IsLinked ps name m there v = elim (Bool-cases (listed name m.indexes)) [
    | inl old ↦ rw old v
    | inr new ↦ rw new (index-IsLinked ps name m there v)
  ]

  listed-add_index : (name : Bytes) (m : Model F S) → listed name (add_index name m).indexes ≡ true
  unfolding add_index add_name
  listed-add_index name m = elim (Bool-cases (listed name m.indexes)) [
    | inl old ↦ rw old old
    | inr new ↦ rw new (listed_last name m.indexes)
  ]

  unique-IsLinked :
      (ps : List Bytes) (name : Bytes) (m : Model F S)
      → listed name m.indexes ≡ true
      → IsLinked ps m
      → IsLinked ps (record m { unique = m.unique ++ name ∷ [] })
  unique-IsLinked ps name m there v = record {
    unique_indexed = λ k.
        listed_cases (λ x. listed x m.indexes ≡ true) name k m.unique (v.unique_indexed k) there;
    required_indexed = v.required_indexed;
    primary_unique = λ k h. listed_before k name m.unique (v.primary_unique k h);
    primary_required = v.primary_required;
    indexes_known = v.indexes_known;
    hidden_known = v.hidden_known;
    index_first = v.index_first;
  }

  required-IsLinked :
      (ps : List Bytes) (name : Bytes) (m : Model F S)
      → listed name m.indexes ≡ true
      → IsLinked ps m
      → IsLinked ps (record m { required = m.required ++ name ∷ [] })
  required-IsLinked ps name m there v = record {
    unique_indexed = v.unique_indexed;
    required_indexed = λ k.
        listed_cases (λ x. listed x m.indexes ≡ true) name k m.required (v.required_indexed k)
          there;
    primary_unique = v.primary_unique;
    primary_required = λ k h. listed_before k name m.required (v.primary_required k h);
    indexes_known = v.indexes_known;
    hidden_known = v.hidden_known;
    index_first = v.index_first;
  }

  pub add_unique-IsLinked :
      (ps : List Bytes) (name : Bytes) (m : Model F S)
      → contains name m.fields ≡ true
      → IsLinked ps m
      → IsLinked ps (add_unique name m)
        × (listed name (add_unique name m).unique ≡ true)
        × ((add_unique name m).required ≡ m.required)
        × ((add_unique name m).primary_keys ≡ m.primary_keys)
        × ((add_unique name m).fields ≡ m.fields)
  unfolding add_unique define_indexes define_each add_index
  add_unique-IsLinked ps name m there v = elim (Bool-cases (listed name m.unique)) [
    | inl old ↦ rw old (v, old, refl, refl, refl)
    | inr new ↦
        rw (new, there)
          (
            unique-IsLinked ps name (add_index name m) (listed-add_index name m)
                (add_index-IsLinked ps name m there v),
            listed_last name m.unique,
            refl,
            refl,
            refl,
          )
  ]

  pub add_required-IsLinked :
      (ps : List Bytes) (name : Bytes) (m : Model F S)
      → contains name m.fields ≡ true
      → IsLinked ps m
      → IsLinked ps (add_required name m)
        × (listed name (add_required name m).required ≡ true)
        × ((add_required name m).primary_keys ≡ m.primary_keys)
        × ((add_required name m).fields ≡ m.fields)
  unfolding add_required define_indexes define_each add_index
  add_required-IsLinked ps name m there v = elim (Bool-cases (listed name m.required)) [
    | inl old ↦ rw old (v, old, refl, refl)
    | inr new ↦
        rw (new, there)
          (
            required-IsLinked ps name (add_index name m) (listed-add_index name m)
                (add_index-IsLinked ps name m there v),
            listed_last name m.required,
            refl,
            refl,
          )
  ]
