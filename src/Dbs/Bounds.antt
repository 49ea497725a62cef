-- ===== src/Dbs/Bounds.antt =====
-- internal/dbs/condition.go: applyOpBetween against applyOpMoreEq and applyOpLessEq.
use josefina.Prelude.{
  Bool, true, false, not, Option, none, some, [], ◌∷◌, ◌&&◌, if◌then◌else◌, ◌≡◌, refl, sym, ap, ◌∙◌,
  arith, Bool-cases, inl, inr, ap₂,
}
use josefina.Store.Bytes.{Bytes}
use josefina.Dbs.Value.{
  Float64, Value, nil, time, text, bool, signed, unsigned, float, json, raw_map, json_list, items,
  between,
}
use josefina.Dbs.Helpers.{
  bytes_lt, Order, less, same, more, order_of, mixed_signs, number_to_float64, compare_numbers,
  compare_any_ordered, get_between_range, NumKind,
}
use josefina.Dbs.Operators.{
  not_less, not_more, is_nil, ordered, ordered_time, ordered_text, ordered_number, apply_ordered,
  less_or_equal, more_or_equal, apply_op_less_eq, apply_op_more_eq, apply_op_between, within,
}

-- The comparisons of floats that are numbers.
pub record IsOrdered (fl : Float64) : Type 0 where
  pub le_not_lt : (x y : fl.F) → fl.le x y ≡ not (fl.lt y x)
  pub asymmetric : (x y : fl.F) → fl.lt x y ≡ true → fl.lt y x ≡ false

-- A value of a type that the comparisons know: a time, a text or a number.
unfoldable pub is_scalar : {F : Type 0} → Value F → Bool
is_scalar (time _) = true
is_scalar (text _) = true
is_scalar (signed _ _) = true
is_scalar (unsigned _ _) = true
is_scalar (float _ _) = true
is_scalar _ = false

bytes_lt-asymmetric : (a b : Bytes) → bytes_lt a b ≡ true → bytes_lt b a ≡ false
unfolding bytes_lt
bytes_lt-asymmetric [] [] h = refl
bytes_lt-asymmetric [] (y ∷ ys) h = refl
bytes_lt-asymmetric (x ∷ xs) [] h = absurd (cc)
bytes_lt-asymmetric (x ∷ xs) (y ∷ ys) h = ground (arith, bytes_lt-asymmetric xs ys)

-- The order of two values passes a test, and there is one.
unfoldable pub passes : (Order → Bool) → Option Order → Bool
passes test none = false
passes test (some c) = test c

not_less-order_of : (fl : Float64) (p q : Bool) → not_less (order_of fl p q) ≡ not p
unfolding order_of
not_less-order_of fl true q = refl
not_less-order_of fl false true = refl
not_less-order_of fl false false = refl

not_more-order_of :
    (fl : Float64) (p q : Bool) → (p ≡ true → q ≡ false) → not_more (order_of fl p q) ≡ not q
unfolding order_of
not_more-order_of fl true q h = ap not (sym (h refl))
not_more-order_of fl false true h = refl
not_more-order_of fl false false h = refl

module _ (fl : Float64) (o : IsOrdered fl) where
  number_at_least :
      (s val : Value fl.F)
      → passes not_less (compare_numbers fl val s) ≡ ordered_number fl (more_or_equal fl) s val
  unfolding compare_numbers ordered_number passes
  number_at_least s val = both (number_to_float64 fl val) (number_to_float64 fl s)
    where
      both :
          (x y : Option (fl.F × NumKind))
          → passes not_less (elim x [
            | none ↦ none
            | some (a, ka) ↦ elim y [
              | none ↦ none
              | some (b, kb) ↦
                  if mixed_signs fl val ka s kb
                  then none
                  else some (order_of fl (fl.lt a b) (fl.lt b a))
            ]
          ])
            ≡ elim x [
              | none ↦ false
              | some (a, ka) ↦ elim y [
                | none ↦ false
                | some (b, kb) ↦ if mixed_signs fl val ka s kb then false else fl.le b a
              ]
            ]
      both none y = refl
      both (some (a, ka)) none = refl
      both (some (a, ka)) (some (b, kb)) = elim (Bool-cases (mixed_signs fl val ka s kb)) [
        | inl t ↦ rw t refl
        | inr f ↦ rw f (not_less-order_of fl (fl.lt a b) (fl.lt b a) ∙ sym (o.le_not_lt b a))
      ]

  number_at_most :
      (s val : Value fl.F)
      → passes not_more (compare_numbers fl val s) ≡ ordered_number fl (less_or_equal fl) s val
  unfolding compare_numbers ordered_number passes
  number_at_most s val = both (number_to_float64 fl val) (number_to_float64 fl s)
    where
      both :
          (x y : Option (fl.F × NumKind))
          → passes not_more (elim x [
            | none ↦ none
            | some (a, ka) ↦ elim y [
              | none ↦ none
              | some (b, kb) ↦
                  if mixed_signs fl val ka s kb
                  then none
                  else some (order_of fl (fl.lt a b) (fl.lt b a))
            ]
          ])
            ≡ elim x [
              | none ↦ false
              | some (a, ka) ↦ elim y [
                | none ↦ false
                | some (b, kb) ↦ if mixed_signs fl val ka s kb then false else fl.le a b
              ]
            ]
      both none y = refl
      both (some (a, ka)) none = refl
      both (some (a, ka)) (some (b, kb)) = elim (Bool-cases (mixed_signs fl val ka s kb)) [
        | inl t ↦ rw t refl
        | inr f ↦ rw f (
            not_more-order_of fl (fl.lt a b) (fl.lt b a) (o.asymmetric a b) ∙ sym (o.le_not_lt a b))
      ]

  at_least :
      (s val : Value fl.F)
      → is_scalar s ≡ true
      → passes not_less (compare_any_ordered fl val s) ≡ (ordered fl (more_or_equal fl) s val).0
  unfolding compare_any_ordered ordered passes is_scalar ordered_time ordered_text compare_numbers
      number_to_float64 order_of ordered_number
  at_least nil val h = absurd (cc)
  at_least (bool _) val h = absurd (cc)
  at_least (json _) val h = absurd (cc)
  at_least (raw_map _) val h = absurd (cc)
  at_least (json_list _) val h = absurd (cc)
  at_least (items _) val h = absurd (cc)
  at_least (between _ _) val h = absurd (cc)
  at_least (time b) (time a) h = ground arith
  at_least (time b) (text _) h = refl
  at_least (time b) (signed _ _) h = refl
  at_least (time b) (unsigned _ _) h = refl
  at_least (time b) (float _ _) h = refl
  at_least (time b) nil h = refl
  at_least (time b) (bool _) h = refl
  at_least (time b) (json _) h = refl
  at_least (time b) (raw_map _) h = refl
  at_least (time b) (json_list _) h = refl
  at_least (time b) (items _) h = refl
  at_least (time b) (between _ _) h = refl
  at_least (text b) (text a) h = not_less-order_of fl (bytes_lt a b) (bytes_lt b a)
  at_least (text b) (time _) h = refl
  at_least (text b) (signed _ _) h = refl
  at_least (text b) (unsigned _ _) h = refl
  at_least (text b) (float _ _) h = refl
  at_least (text b) nil h = refl
  at_least (text b) (bool _) h = refl
  at_least (text b) (json _) h = refl
  at_least (text b) (raw_map _) h = refl
  at_least (text b) (json_list _) h = refl
  at_least (text b) (items _) h = refl
  at_least (text b) (between _ _) h = refl
  at_least (signed k b) (time _) h = refl
  at_least (signed k b) (text _) h = refl
  at_least (signed k b) (signed j a) h = number_at_least (signed k b) (signed j a)
  at_least (signed k b) (unsigned j a) h = number_at_least (signed k b) (unsigned j a)
  at_least (signed k b) (float j a) h = number_at_least (signed k b) (float j a)
  at_least (signed k b) nil h = refl
  at_least (signed k b) (bool _) h = refl
  at_least (signed k b) (json _) h = refl
  at_least (signed k b) (raw_map _) h = refl
  at_least (signed k b) (json_list _) h = refl
  at_least (signed k b) (items _) h = refl
  at_least (signed k b) (between _ _) h = refl
  at_least (unsigned k b) (time _) h = refl
  at_least (unsigned k b) (text _) h = refl
  at_least (unsigned k b) (signed j a) h = number_at_least (unsigned k b) (signed j a)
  at_least (unsigned k b) (unsigned j a) h = number_at_least (unsigned k b) (unsigned j a)
  at_least (unsigned k b) (float j a) h = number_at_least (unsigned k b) (float j a)
  at_least (unsigned k b) nil h = refl
  at_least (unsigned k b) (bool _) h = refl
  at_least (unsigned k b) (json _) h = refl
  at_least (unsigned k b) (raw_map _) h = refl
  at_least (unsigned k b) (json_list _) h = refl
  at_least (unsigned k b) (items _) h = refl
  at_least (unsigned k b) (between _ _) h = refl
  at_least (float k b) (time _) h = refl
  at_least (float k b) (text _) h = refl
  at_least (float k b) (signed j a) h = number_at_least (float k b) (signed j a)
  at_least (float k b) (unsigned j a) h = number_at_least (float k b) (unsigned j a)
  at_least (float k b) (float j a) h = number_at_least (float k b) (float j a)
  at_least (float k b) nil h = refl
  at_least (float k b) (bool _) h = refl
  at_least (float k b) (json _) h = refl
  at_least (float k b) (raw_map _) h = refl
  at_least (float k b) (json_list _) h = refl
  at_least (float k b) (items _) h = refl
  at_least (float k b) (between _ _) h = refl

  at_most :
      (s val : Value fl.F)
      → is_scalar s ≡ true
      → passes not_more (compare_any_ordered fl val s) ≡ (ordered fl (less_or_equal fl) s val).0
  unfolding compare_any_ordered ordered passes is_scalar ordered_time ordered_text compare_numbers
      number_to_float64 order_of ordered_number
  at_most nil val h = absurd (cc)
  at_most (bool _) val h = absurd (cc)
  at_most (json _) val h = absurd (cc)
  at_most (raw_map _) val h = absurd (cc)
  at_most (json_list _) val h = absurd (cc)
  at_most (items _) val h = absurd (cc)
  at_most (between _ _) val h = absurd (cc)
  at_most (time b) (time a) h = ground arith
  at_most (time b) (text _) h = refl
  at_most (time b) (signed _ _) h = refl
  at_most (time b) (unsigned _ _) h = refl
  at_most (time b) (float _ _) h = refl
  at_most (time b) nil h = refl
  at_most (time b) (bool _) h = refl
  at_most (time b) (json _) h = refl
  at_most (time b) (raw_map _) h = refl
  at_most (time b) (json_list _) h = refl
  at_most (time b) (items _) h = refl
  at_most (time b) (between _ _) h = refl
  at_most (text b) (text a) h =
      not_more-order_of fl (bytes_lt a b) (bytes_lt b a) (bytes_lt-asymmetric a b)
  at_most (text b) (time _) h = refl
  at_most (text b) (signed _ _) h = refl
  at_most (text b) (unsigned _ _) h = refl
  at_most (text b) (float _ _) h = refl
  at_most (text b) nil h = refl
  at_most (text b) (bool _) h = refl
  at_most (text b) (json _) h = refl
  at_most (text b) (raw_map _) h = refl
  at_most (text b) (json_list _) h = refl
  at_most (text b) (items _) h = refl
  at_most (text b) (between _ _) h = refl
  at_most (signed k b) (time _) h = refl
  at_most (signed k b) (text _) h = refl
  at_most (signed k b) (signed j a) h = number_at_most (signed k b) (signed j a)
  at_most (signed k b) (unsigned j a) h = number_at_most (signed k b) (unsigned j a)
  at_most (signed k b) (float j a) h = number_at_most (signed k b) (float j a)
  at_most (signed k b) nil h = refl
  at_most (signed k b) (bool _) h = refl
  at_most (signed k b) (json _) h = refl
  at_most (signed k b) (raw_map _) h = refl
  at_most (signed k b) (json_list _) h = refl
  at_most (signed k b) (items _) h = refl
  at_most (signed k b) (between _ _) h = refl
  at_most (unsigned k b) (time _) h = refl
  at_most (unsigned k b) (text _) h = refl
  at_most (unsigned k b) (signed j a) h = number_at_most (unsigned k b) (signed j a)
  at_most (unsigned k b) (unsigned j a) h = number_at_most (unsigned k b) (unsigned j a)
  at_most (unsigned k b) (float j a) h = number_at_most (unsigned k b) (float j a)
  at_most (unsigned k b) nil h = refl
  at_most (unsigned k b) (bool _) h = refl
  at_most (unsigned k b) (json _) h = refl
  at_most (unsigned k b) (raw_map _) h = refl
  at_most (unsigned k b) (json_list _) h = refl
  at_most (unsigned k b) (items _) h = refl
  at_most (unsigned k b) (between _ _) h = refl
  at_most (float k b) (time _) h = refl
  at_most (float k b) (text _) h = refl
  at_most (float k b) (signed j a) h = number_at_most (float k b) (signed j a)
  at_most (float k b) (unsigned j a) h = number_at_most (float k b) (unsigned j a)
  at_most (float k b) (float j a) h = number_at_most (float k b) (float j a)
  at_most (float k b) nil h = refl
  at_most (float k b) (bool _) h = refl
  at_most (float k b) (json _) h = refl
  at_most (float k b) (raw_map _) h = refl
  at_most (float k b) (json_list _) h = refl
  at_most (float k b) (items _) h = refl
  at_most (float k b) (between _ _) h = refl

is_nil-is_scalar : {F : Type 0} (s : Value F) → is_scalar s ≡ true → is_nil s ≡ false
unfolding is_scalar is_nil
is_nil-is_scalar nil h = absurd (cc)
is_nil-is_scalar (bool _) h = absurd (cc)
is_nil-is_scalar (json _) h = absurd (cc)
is_nil-is_scalar (raw_map _) h = absurd (cc)
is_nil-is_scalar (json_list _) h = absurd (cc)
is_nil-is_scalar (items _) h = absurd (cc)
is_nil-is_scalar (between _ _) h = absurd (cc)
is_nil-is_scalar (time _) h = refl
is_nil-is_scalar (text _) h = refl
is_nil-is_scalar (signed _ _) h = refl
is_nil-is_scalar (unsigned _ _) h = refl
is_nil-is_scalar (float _ _) h = refl

within-passes :
    (fl : Float64) (val lower upper : Value fl.F)
    → is_nil lower ≡ false
    → is_nil upper ≡ false
    → within fl val (lower, upper) ≡ (
        passes not_less (compare_any_ordered fl val lower)
        && passes not_more (compare_any_ordered fl val upper))
unfolding within passes
within-passes fl val lower upper l u =
    rw (l, u) (both (compare_any_ordered fl val lower) (compare_any_ordered fl val upper))
  where
    both :
        (x y : Option Order)
        → elim x [
          | none ↦ false
          | some c1 ↦ elim y [ none ↦ false | some c2 ↦ not_less c1 && not_more c2 ]
        ]
          ≡ (passes not_less x && passes not_more y)
    both none y = refl
    both (some less) none = refl
    both (some same) none = refl
    both (some more) none = refl
    both (some c) (some d) = refl

-- Between two bounds of types that the comparisons know, with floats that are numbers, a value lies
-- between them exactly if it is more than or equal to the lower and less than or equal to the upper
-- one, by the tests of those operators.
pub apply_op_between-bounds :
    (fl : Float64) (lower upper val : Value fl.F)
    → IsOrdered fl
    → is_scalar lower ≡ true
    → is_scalar upper ≡ true
    → apply_op_between fl (between lower upper) val
      ≡ ((apply_op_more_eq fl lower val).0 && (apply_op_less_eq fl upper val).0)
unfolding apply_op_between apply_op_more_eq apply_op_less_eq apply_ordered get_between_range
apply_op_between-bounds fl lower upper val o l u = elim (Bool-cases (is_nil val)) [
  | inl t ↦ rw t refl
  | inr f ↦ rw f (
      within-passes fl val lower upper (is_nil-is_scalar lower l) (is_nil-is_scalar upper u)
      ∙ ap₂ ◌&&◌ (at_least fl o lower val l) (at_most fl o upper val u))
]
