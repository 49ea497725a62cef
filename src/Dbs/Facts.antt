-- ===== src/Dbs/Facts.antt =====
-- internal/dbs/where.go: what validateItem answers for a list of conditions.
use josefina.Prelude.{
  Bool, true, Option, none, some, List, [], ◌∷◌, ◌++◌, ◌&&◌, ◌≡◌, refl, sym, ap, ◌∙◌, Bool-cases,
  All, inl, inr,
}
use josefina.Store.Bytes.{Bytes}
use josefina.Dbs.Value.{Float64, Fields}
use josefina.Dbs.Condition.{Connector, nac, and, or, Condition, apply_to_data}
use josefina.Dbs.Where.{with_connector, added, add, add_or, connect, validate_rest, validate_item}

abbrev pub answer_of : {A : Type 0} → Option (Bool × A) → Option Bool
answer_of none = none
answer_of (some (b, _)) = some b

-- Whether a condition that answers `answer` lets the loop go on.
abbrev pub demands : Connector → Bool → Bool
demands and answer = answer
demands _ _ = true

-- The conjunction of the answers of the conditions joined by And.
unfoldable pub all_and : {F : Type 0} → (Condition F → Bool) → List (Condition F) → Bool
all_and answer [] = true
all_and answer (c ∷ cs) = demands c.connector (answer c) && all_and answer cs

connect-demands : (k : Connector) (b : Bool) → connect k true b ≡ demands k b
unfolding connect
connect-demands nac b = refl
connect-demands and b = refl
connect-demands or b = refl

answer_of-some :
    {A : Type 0} (r : Option (Bool × A)) (b : Bool)
    → answer_of r ≡ some b
    → (a : A) × (r ≡ some (b, a))
answer_of-some none b h = absurd (cc)
answer_of-some (some (x, a)) b h = (a, cc)

-- ApplyToData on `item` does not panic for the condition, and answers as `answer` does.
unfoldable pub Answers :
    (fl : Float64)
    → (Bytes → List Bytes)
    → Fields fl.F
    → (Condition fl.F → Bool)
    → Condition fl.F
    → Type 0
Answers fl split item answer c = answer_of (apply_to_data fl split c item) ≡ some (answer c)

validate_rest-all_and :
    (fl : Float64) (split : Bytes → List Bytes) (item : Fields fl.F)
    (answer : Condition fl.F → Bool) (cs : List (Condition fl.F))
    → All (Answers fl split item answer) cs
    → answer_of (validate_rest fl split cs item) ≡ some (all_and answer cs)
unfolding validate_rest all_and Answers
validate_rest-all_and fl split item answer [] _ = refl
validate_rest-all_and fl split item answer (c ∷ cs) (h, hs) =
    let ih = validate_rest-all_and fl split item answer cs hs in
    let (c1, e) = answer_of-some (apply_to_data fl split c item) (answer c) h in
    let (cs1, e1) = answer_of-some (validate_rest fl split cs item) (all_and answer cs) ih in
    elim (Bool-cases (demands c.connector (answer c))) [
      | inl t ↦ rw (e, validate_rest, connect-demands c.connector (answer c), t, e1) refl
      | inr f ↦ rw (e, validate_rest, connect-demands c.connector (answer c), f) refl
    ]

-- If no condition panics on the item, validateItem accepts it exactly if the first condition holds
-- and every later condition that is joined by And holds.
pub validate_item-all_and :
    (fl : Float64) (split : Bytes → List Bytes) (item : Fields fl.F)
    (answer : Condition fl.F → Bool) (c : Condition fl.F) (cs : List (Condition fl.F))
    → All (Answers fl split item answer) (c ∷ cs)
    → answer_of (validate_item fl split (c ∷ cs) item) ≡ some (answer c && all_and answer cs)
unfolding validate_item Answers
validate_item-all_and fl split item answer c cs (h, hs) =
    let ih = validate_rest-all_and fl split item answer cs hs in
    let (c1, e) = answer_of-some (apply_to_data fl split c item) (answer c) h in
    let (cs1, e1) = answer_of-some (validate_rest fl split cs item) (all_and answer cs) ih in
    elim (Bool-cases (answer c)) [
      | inl t ↦ rw (e, validate_item, t, e1) refl
      | inr f ↦ rw (e, validate_item, f) refl
    ]

all_and-append_or :
    {F : Type 0} (answer : Condition F → Bool) (cs : List (Condition F)) (d : Condition F)
    → all_and answer (cs ++ with_connector or d ∷ []) ≡ all_and answer cs
unfolding all_and with_connector
all_and-append_or answer [] d = refl
all_and-append_or answer (c ∷ cs) d =
    ap (λ b. demands c.connector (answer c) && b) (all_and-append_or answer cs d)

-- If no condition panics on the item, a condition that Or adds to a list with a first condition does
-- not change what validateItem answers.
pub validate_item-add_or :
    (fl : Float64) (split : Bytes → List Bytes) (item : Fields fl.F)
    (answer : Condition fl.F → Bool) (c : Condition fl.F) (cs : List (Condition fl.F))
    (d : Condition fl.F)
    → All (Answers fl split item answer) (c ∷ cs)
    → All (Answers fl split item answer) (add_or (c ∷ cs) d)
    → answer_of (validate_item fl split (add_or (c ∷ cs) d) item)
      ≡ answer_of (validate_item fl split (c ∷ cs) item)
unfolding add_or add added with_connector
validate_item-add_or fl split item answer c cs d h hd =
    validate_item-all_and fl split item answer c (cs ++ with_connector or d ∷ []) hd
    ∙ ap (λ b. some (answer c && b)) (all_and-append_or answer cs d)
    ∙ sym (validate_item-all_and fl split item answer c cs h)
