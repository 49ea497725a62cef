-- ===== src/Dbs/Value.antt =====
-- The Go values that a condition meets (internal/dbs/condition.go, internal/dbs/helppers.go).
--
-- A string is the list of its bytes, a time.Time the number of its instant, all in one
-- location and without a monotonic reading. A map is a list of its
-- entries. Where `range` takes the first entry only, which is random in Go, any of them is taken.
-- Pointers to numbers and other types are left
-- out: no JSON document holds them.
use josefina.Prelude.{ℕ, Bool, true, false, ◌==◌}
use josefina.Store.Bytes.{Bytes}

-- An int64: `negsuc n` is -(n + 1).
pub data ℤ : Type 0 where
  pos : ℕ → ℤ
  negsuc : ℕ → ℤ

abbrev pub is_negative : ℤ → Bool
is_negative (pos _) = false
is_negative (negsuc _) = true

abbrev pub int_beq : ℤ → ℤ → Bool
int_beq (pos m) (pos n) = m == n
int_beq (negsuc m) (negsuc n) = m == n
int_beq _ _ = false

-- `signed` and `unsigned` have the width of their type: 0 for int and uint, then 8 to 64; `float`
-- has 32 or 64. `json` is an et.Json, `raw_map` a map[string]interface{}, `json_list` a []et.Json and
-- `items` a []interface{}.
mutual
  pub data Value (F : Type 0) : Type 0 where
    nil : Value F
    time : ℕ → Value F
    text : Bytes → Value F
    bool : Bool → Value F
    signed : ℕ → ℤ → Value F
    unsigned : ℕ → ℕ → Value F
    float : ℕ → F → Value F
    json : Fields F → Value F
    raw_map : Fields F → Value F
    json_list : Maps F → Value F
    items : Values F → Value F
    between : Value F → Value F → Value F

  pub data Values (F : Type 0) : Type 0 where
    no_values : Values F
    value : Value F → Values F → Values F

  pub data Fields (F : Type 0) : Type 0 where
    no_fields : Fields F
    field : Bytes → Value F → Fields F → Fields F

  pub data Maps (F : Type 0) : Type 0 where
    no_maps : Maps F
    map_of : Fields F → Maps F → Maps F

-- What the conditions take from Go: float64, by its conversions from the integers and its comparisons,
-- and `first`, the place of the entry of a map that `range` visits first, where it takes one only.
pub record Float64 : Type 1 where
  pub F : Type 0
  pub of_signed : ℤ → F
  pub of_unsigned : ℕ → F
  pub lt : F → F → Bool
  pub le : F → F → Bool
  pub eq : F → F → Bool
  pub first : Fields F → ℕ
