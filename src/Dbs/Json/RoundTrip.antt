-- ===== src/Dbs/Json/RoundTrip.antt =====
-- internal/dbs/condition.go and internal/dbs/where.go: conditions that are written as JSON and read back.
use josefina.Prelude.{
  none, some, List, [], ◌∷◌, ◌++◌, ◌≡◌, ◌≢◌, refl, ap, ◌∙◌, sym, All, append_assoc, append-nil,
  All-append, if◌then◌else◌, subst,
}
use josefina.Prelude.Eq.{bytes_eq, beq_refl, beq_differs}
use josefina.Prelude.Assoc
use josefina.Store.Bytes.{Bytes}
use josefina.Dbs.Value.{Float64, Value, Fields, no_fields, field, json, nil}
use josefina.Dbs.Helpers.{lookup_field}
use josefina.Dbs.Condition.{
  Operator, op_eq, op_neg, op_less, op_less_eq, op_more, op_more_eq, op_like, op_in, op_not_in,
  op_is, op_is_not, op_null, op_not_null, op_between, op_not_between, Connector, nac, and, or,
  Condition, condition,
}
use josefina.Dbs.Build.{operator_str}
use josefina.Dbs.Where.{with_connector, added, add}
use josefina.Dbs.Json.{
  ascii, operator_of, connector_str, single, to_json, to_jsons, value_at, first_test, set_connector,
  add_read, add_all, get_where, to_condition, add_jsons, by_json,
}

operator_of-ascii : (op : Operator) → operator_of (ascii (operator_str op)) ≡ op
unfolding operator_of operator_str Assoc.lookup
operator_of-ascii op_eq = refl
operator_of-ascii op_neg = refl
operator_of-ascii op_less = refl
operator_of-ascii op_less_eq = refl
operator_of-ascii op_more = refl
operator_of-ascii op_more_eq = refl
operator_of-ascii op_like = refl
operator_of-ascii op_in = refl
operator_of-ascii op_not_in = refl
operator_of-ascii op_is = refl
operator_of-ascii op_is_not = refl
operator_of-ascii op_null = refl
operator_of-ascii op_not_null = refl
operator_of-ascii op_between = refl
operator_of-ascii op_not_between = refl

-- What the library does: Json(k) gives the map under k, and Lowcase leaves lower case as it is.
pub record Library {F : Type 0} (lowcase : Bytes → Bytes) (sub : Bytes → Fields F → Fields F)
    : Type 0 where
  pub gives : (k : Bytes) (m rest : Fields F) → sub k (field k (json m) rest) ≡ m
  pub and_kept : lowcase (ascii "and") ≡ ascii "and"
  pub or_kept : lowcase (ascii "or") ≡ ascii "or"

module _ (fl : Float64) (lowcase : Bytes → Bytes) (sub : Bytes → Fields fl.F → Fields fl.F)
    (lib : Library lowcase sub) where
  open fl use {F}

  -- The field of a condition is not a connector.
  abbrev pub IsNamed : Condition F → Type 0
  IsNamed c = (lowcase c.path ≢ ascii "and") × (lowcase c.path ≢ ascii "or")

  abbrev test_of : Condition F → Fields F
  test_of c = single c.path (json (single (ascii (operator_str c.operator)) c.operand))

  value_at-first : (k : Bytes) (v : Value F) → value_at fl k (single k v) ≡ v
  unfolding value_at lookup_field
  value_at-first k v =
      ap (λ b. elim (if b then some v else none) [ none ↦ nil | some w ↦ w ]) (beq_refl k)

  first_test-single :
      (c : Condition F)
      → first_test fl c.path (single (ascii (operator_str c.operator)) c.operand)
        ≡ some (with_connector nac c)
  unfolding first_test condition with_connector
  first_test-single c =
      let k = ascii (operator_str c.operator) in
      ap (λ v. some (condition c.path v (operator_of k))) (value_at-first k c.operand)
      ∙ ap (λ op. some (condition c.path c.operand op)) (operator_of-ascii c.operator)

  get_where-test :
      (c : Condition F)
      → get_where fl lowcase sub (test_of c) (test_of c) ≡ some (with_connector nac c)
  unfolding get_where
  get_where-test c =
      ap (λ m. elim (first_test fl c.path m) [ none ↦ none | some d ↦ some d ])
        (lib.gives c.path (single (ascii (operator_str c.operator)) c.operand) no_fields)
      ∙ ap (λ o. elim o [ none ↦ none | some d ↦ some d ]) (first_test-single c)

  get_where-sub :
      (k : Bytes) (c : Condition F)
      → get_where fl lowcase sub
          (sub k (single k (json (test_of c))))
          (sub k (single k (json (test_of c))))
        ≡ some (with_connector nac c)
  get_where-sub k c =
      ap (λ m. get_where fl lowcase sub m m) (lib.gives k (test_of c) no_fields) ∙ get_where-test c

  read_back :
      (c : Condition F) (k : Connector)
      → c.connector ≡ k
      → (k ≡ nac → IsNamed c)
      → to_condition fl lowcase sub (to_json c) ≡ some c
  unfolding to_condition to_json connector_str set_connector with_connector
  read_back c nac e h =
      rw
        (
          e,
          to_json,
          beq_differs (lowcase c.path) (ascii "and") (h refl).0,
          beq_differs (lowcase c.path) (ascii "or") (h refl).1,
        )
        (get_where-test c)
  read_back c and e h =
      rw (e, to_json, lib.and_kept) (ap (set_connector and) (get_where-sub (ascii "and") c))
  read_back c or e h =
      rw (e, to_json, lib.or_kept) (ap (set_connector or) (get_where-sub (ascii "or") c))

  -- ToCondition of what ToJson makes of a condition is that condition; where it has no connector, its
  -- field is not spelt like one.
  pub to_condition-to_json :
      (c : Condition F)
      → (c.connector ≡ nac → IsNamed c)
      → to_condition fl lowcase sub (to_json c) ≡ some c
  to_condition-to_json c h = read_back c c.connector refl h

  -- Every condition but the first has a connector.
  abbrev HasConnector : Condition F → Type 0
  HasConnector c = c.connector ≢ nac

  abbrev Joined : List (Condition F) → Type 0
  Joined [] = Unit
  Joined (c ∷ cs) = All HasConnector cs

  add-Joined : (cs : List (Condition F)) (d : Condition F) → Joined cs → Joined (add cs d)
  unfolding add
  add-Joined [] d h = tt
  add-Joined (c ∷ cs) d h =
      All-append HasConnector cs (with_connector (added (c ∷ cs) d.connector) d ∷ []) h
        (has_one d.connector, tt)
    where
      has_one : (k : Connector) → added (c ∷ cs) k ≢ nac
      has_one nac = λ same. cc
      has_one and = λ same. cc
      has_one or = λ same. cc

  add_all-Joined : (cs ds : List (Condition F)) → Joined cs → Joined (add_all cs ds)
  unfolding add_all
  add_all-Joined cs [] h = h
  add_all-Joined cs (d ∷ ds) h = add_all-Joined (add cs d) ds (add-Joined cs d h)

  add-connected :
      (cs : List (Condition F)) (c : Condition F) (k : Connector)
      → c.connector ≡ k
      → Joined (cs ++ c ∷ [])
      → add cs c ≡ cs ++ c ∷ []
  unfolding add added with_connector
  add-connected [] c k e h = refl
  add-connected (d ∷ cs) c nac e h = absurd (last_one cs h e)
    where
      last_one : (ds : List (Condition F)) → All HasConnector (ds ++ c ∷ []) → c.connector ≢ nac
      last_one [] a = a.0
      last_one (x ∷ ds) a = last_one ds a.1
  add-connected (d ∷ cs) c and e h = rw e refl
  add-connected (d ∷ cs) c or e h = rw e refl

  Joined-front :
      (cs : List (Condition F)) (c : Condition F) (ds : List (Condition F))
      → Joined (cs ++ c ∷ ds)
      → Joined (cs ++ c ∷ [])
  Joined-front [] c ds h = tt
  Joined-front (x ∷ cs) c ds h = front cs h
    where
      front :
          (xs : List (Condition F))
          → All HasConnector (xs ++ c ∷ ds)
          → All HasConnector (xs ++ c ∷ [])
      front [] a = (a.0, tt)
      front (y ∷ xs) a = (a.0, front xs a.1)

  -- What was read is added as it is.
  add_jsons-to_jsons :
      (cs ds : List (Condition F))
      → Joined (cs ++ ds)
      → All IsNamed ds
      → add_jsons fl lowcase sub cs (to_jsons ds) ≡ cs ++ ds
  unfolding add_jsons to_jsons add_read
  add_jsons-to_jsons cs [] j n = sym (append-nil cs)
  add_jsons-to_jsons cs (d ∷ ds) j n =
      ap (λ o. add_jsons fl lowcase sub (add_read cs o) (to_jsons ds))
        (to_condition-to_json d (λ h. n.0))
      ∙ ap (λ l. add_jsons fl lowcase sub l (to_jsons ds))
          (add-connected cs d d.connector refl (Joined-front cs d ds j))
      ∙ add_jsons-to_jsons (cs ++ d ∷ []) ds (subst Joined (sym (append_assoc cs (d ∷ []) ds)) j)
          n.1
      ∙ append_assoc cs (d ∷ []) ds

  add_all-IsNamed :
      (cs ds : List (Condition F)) → All IsNamed cs → All IsNamed ds → All IsNamed (add_all cs ds)
  unfolding add_all add with_connector
  add_all-IsNamed cs [] h n = h
  add_all-IsNamed cs (d ∷ ds) h n =
      add_all-IsNamed (add cs d) ds
        (All-append IsNamed cs (with_connector (added cs d.connector) d ∷ []) h (n.0, tt)) n.1

  -- The conditions of a query, made by any calls of Where, And and Or with conditions on fields that are
  -- not spelt like a connector, are written by ToJson, and ByJson makes the same conditions of it.
  pub by_json-to_jsons :
      (ds : List (Condition F))
      → All IsNamed ds
      → by_json fl lowcase sub (to_jsons (add_all [] ds)) ≡ add_all [] ds
  unfolding by_json
  by_json-to_jsons ds n =
      add_jsons-to_jsons [] (add_all [] ds) (add_all-Joined [] ds tt) (add_all-IsNamed [] ds tt n)
