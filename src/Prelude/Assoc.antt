-- ===== src/Prelude/Assoc.antt =====
-- Go's map as an association list: the operations by key, and their laws.
use mathlib.Core.Path.{◌≡◌, refl, ap, ◌∙◌}
use mathlib.Core.Bool.{Bool, true, false}
use mathlib.Core.Option.{Option, none, some}
use mathlib.Core.List.{List, [], ◌∷◌}
use native.Mathlib.Omega.{arith}
use josefina.Prelude.Tests.{if◌then◌else◌}
use mathlib.Core.Logic.{◌≢◌}
use josefina.Prelude.Eq.{Eq, ◌=?◌, beq_refl, beq_differs}

module _ {ℓ κ} {K : Type ℓ} {V : Type κ} ⦃e : Eq K⦄ where
  -- m[k], none where the key is missing
  unfoldable pub lookup : K → List (K × V) → Option V
  lookup k [] = none
  lookup k ((j, v) ∷ m) = if j =? k then some v else lookup k m

  -- m[k] = v
  unfoldable pub insert : K → V → List (K × V) → List (K × V)
  insert k v [] = (k, v) ∷ []
  insert k v ((j, w) ∷ m) = if j =? k then (j, v) ∷ m else (j, w) ∷ insert k v m

  -- delete(m, k)
  unfoldable pub remove : K → List (K × V) → List (K × V)
  remove k [] = []
  remove k ((j, w) ∷ m) = let rest = remove k m in if j =? k then rest else (j, w) ∷ rest

  unfoldable pub contains : K → List (K × V) → Bool
  contains k [] = false
  contains k ((j, v) ∷ m) = if j =? k then true else contains k m

  pub contains-lookup-some :
      (k : K) (m : List (K × V)) (v : V) → lookup k m ≡ some v → contains k m ≡ true
  unfolding lookup contains
  contains-lookup-some k [] v h = cc
  contains-lookup-some k ((j, w) ∷ m) v h = ground (arith, contains-lookup-some k m v)

  pub contains-lookup-none : (k : K) (m : List (K × V)) → lookup k m ≡ none → contains k m ≡ false
  unfolding lookup contains
  contains-lookup-none k [] h = refl
  contains-lookup-none k ((j, w) ∷ m) h = ground (arith, contains-lookup-none k m)

  pub lookup-insert :
      (k j : K) (v : V) (m : List (K × V))
      → lookup j (insert k v m) ≡ (if k =? j then some v else lookup j m)
  unfolding lookup insert
  lookup-insert k j v [] = refl
  lookup-insert k j v ((i, w) ∷ m) =
      ground (arith, e.beq_iff k j, e.beq_iff i k, e.beq_iff i j, lookup-insert k j v m)

  pub lookup-remove :
      (k j : K) (m : List (K × V)) → lookup j (remove k m) ≡ (if k =? j then none else lookup j m)
  unfolding lookup remove
  lookup-remove k j [] = ground arith
  lookup-remove k j ((i, w) ∷ m) =
      ground (arith, e.beq_iff k j, e.beq_iff i k, e.beq_iff i j, lookup-remove k j m)

pub insert_same {ℓ κ} :
    {K : Type ℓ} {V : Type κ} ⦃e : Eq K⦄ (k : K) (v : V) (m : List (K × V))
    → lookup k (insert k v m) ≡ some v
insert_same k v m = lookup-insert k k v m ∙ ap (λ b. if b then some v else lookup k m) (beq_refl k)

pub insert_other {ℓ κ} :
    {K : Type ℓ} {V : Type κ} ⦃e : Eq K⦄ (k j : K) (v : V) (m : List (K × V))
    → k ≢ j
    → lookup j (insert k v m) ≡ lookup j m
insert_other k j v m h =
    lookup-insert k j v m ∙ ap (λ b. if b then some v else lookup j m) (beq_differs k j h)

pub remove_other {ℓ κ} :
    {K : Type ℓ} {V : Type κ} ⦃e : Eq K⦄ (k j : K) (m : List (K × V))
    → k ≢ j
    → contains j (remove k m) ≡ contains j m
unfolding contains remove
remove_other k j [] h = refl
remove_other ⦃e⦄ k j ((i, w) ∷ m) h =
    ground (arith, e.beq_iff i k, e.beq_iff i j, remove_other k j m h)

pub lookup-nil {ℓ κ} : {K : Type ℓ} {V : Type κ} ⦃e : Eq K⦄ (k : K) → lookup {V = V} k [] ≡ none
unfolding lookup
lookup-nil k = refl
