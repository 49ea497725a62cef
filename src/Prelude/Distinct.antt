-- ===== src/Prelude/Distinct.antt =====
-- Association lists in which no key stands twice, as a Go map has them.
use josefina.Prelude.{
  suc, ◌≤◌, true, false, none, List, [], ◌∷◌, length, ◌≡◌, refl, arith, if◌then◌else◌,
}
use josefina.Prelude.Eq.{Eq, ◌=?◌}
use josefina.Prelude.Assoc.{lookup, insert, remove, contains}

module _ {ℓ κ} {K : Type ℓ} {V : Type κ} ⦃e : Eq K⦄ where
  abbrev pub Distinct : List (K × V) → Type 0
  Distinct [] = Unit
  Distinct ((k, v) ∷ m) = (contains k m ≡ false) × Distinct m

  contains-insert :
      (k j : K) (v : V) (m : List (K × V))
      → contains j (insert k v m) ≡ (if k =? j then true else contains j m)
  unfolding contains insert
  contains-insert k j v [] = refl
  contains-insert k j v ((i, w) ∷ m) =
      ground (arith, e.beq_iff k j, e.beq_iff i k, e.beq_iff i j, contains-insert k j v m)

  contains-remove :
      (k j : K) (m : List (K × V))
      → contains j (remove k m) ≡ (if k =? j then false else contains j m)
  unfolding contains remove
  contains-remove k j [] = ground arith
  contains-remove k j ((i, w) ∷ m) =
      ground (arith, e.beq_iff k j, e.beq_iff i k, e.beq_iff i j, contains-remove k j m)

  pub lookup-absent : (k : K) (m : List (K × V)) → contains k m ≡ false → lookup k m ≡ none
  unfolding lookup contains
  lookup-absent k [] h = refl
  lookup-absent k ((j, w) ∷ m) h = ground (arith, lookup-absent k m)

  pub insert-Distinct : (k : K) (v : V) (m : List (K × V)) → Distinct m → Distinct (insert k v m)
  unfolding insert contains
  insert-Distinct k v [] h = (refl, tt)
  insert-Distinct k v ((j, w) ∷ m) h = ground (
    arith,
    e.beq_iff j k,
    e.beq_iff k j,
    contains-insert k j v m,
    insert-Distinct k v m h.1,
    h.0,
    h.1,
  )

  pub remove-Distinct : (k : K) (m : List (K × V)) → Distinct m → Distinct (remove k m)
  unfolding remove
  remove-Distinct k [] h = tt
  remove-Distinct k ((j, w) ∷ m) h =
      ground (arith, contains-remove k j m, remove-Distinct k m h.1, h.0)

  pub length-insert : (k : K) (v : V) (m : List (K × V)) → length (insert k v m) ≤ suc (length m)
  unfolding insert
  length-insert k v [] = omega arith
  length-insert k v ((j, w) ∷ m) = ground (arith, length-insert k v m)

  pub length-remove : (k : K) (m : List (K × V)) → length (remove k m) ≤ length m
  unfolding remove
  length-remove k [] = omega arith
  length-remove k ((j, w) ∷ m) = ground (arith, length-remove k m)
