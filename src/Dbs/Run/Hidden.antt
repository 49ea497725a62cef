-- ===== src/Dbs/Run/Hidden.antt =====
-- internal/dbs/where.go: the rows of a query with hidden fields.
use josefina.Prelude.{true, none, List, [], ◌∷◌, ◌≡◌, refl, ap, ◌∙◌, arith, All}
use josefina.Prelude.Eq.{bytes_eq, bytes_beq_iff, listed}
use josefina.Prelude.Assoc.{lookup}
use josefina.Store.Bytes.{Bytes}
use josefina.Dbs.Objects.{Doc}
use josefina.Dbs.Run.{Wheres, hide, shown}

pub lookup-hide :
    {F : Type 0} (key : Bytes) (keys : List Bytes) (object : Doc F)
    → listed key keys ≡ true
    → lookup key (hide keys object) ≡ none
unfolding hide lookup
lookup-hide key keys [] h = refl
lookup-hide key keys ((name, v) ∷ object) h =
    ground (arith, bytes_beq_iff name key, lookup-hide key keys object h)

lookup-shown :
    {F : Type 0} (key : Bytes) (w : Wheres F) (item : Doc F)
    → w.selects ≡ []
    → listed key w.hidden ≡ true
    → lookup key (shown w item) ≡ none
unfolding shown
lookup-shown key w item none_selected hidden =
    rw none_selected (lookup-hide key w.hidden item hidden)

pub hidden_rows :
    {F : Type 0} (key : Bytes) (w : Wheres F) (rows : List (Doc F))
    → w.selects ≡ []
    → listed key w.hidden ≡ true
    → All (λ d. (item : Doc F) × (d ≡ shown w item)) rows
    → All (λ d. lookup key d ≡ none) rows
hidden_rows key w [] none_selected hidden h = tt
hidden_rows key w (d ∷ rows) none_selected hidden ((item, e), h) = (
  ap (lookup key) e ∙ lookup-shown key w item none_selected hidden,
  hidden_rows key w rows none_selected hidden h,
)
