-- ===== src/Store/Durable/Steps.antt =====
-- Put and Delete of internal/store/store.go on a store that can be opened again.
use josefina.Prelude.{
  ℕ, suc, ◌+◌, ◌≤◌, Option, none, some, List, [], ◌∷◌, ◌++◌, length, length-append, ◌≡◌, refl, ap,
  ◌∙◌, sym, subst, arith, inl, inr, Bool-cases, true, false, if◌then◌else◌,
}
use josefina.Prelude.Eq.{bytes_eq}
use josefina.Prelude.Assoc.{insert, remove, contains}
use josefina.Prelude.Distinct.{
  Distinct, insert-Distinct, remove-Distinct, length-insert, length-remove,
}
use josefina.Store.Result.{ok}
use josefina.Store.Bytes.{Bytes, active, deleted}
use josefina.Store.Segment.Codec.{Entry, IsWritable}
use josefina.Store.FileStore.{FileStore}
use josefina.Store.Ops.{put, delete}
use josefina.Store.Log.{flat}
use josefina.Store.Log.Refs.{flat-append}
use josefina.Store.Invariant.{IsStore}
use josefina.Store.Invariant.Write.{Saves}
use josefina.Store.Invariant.Update.{put-IsStore_at, delete_found-IsStore_at}
use josefina.Store.Invariant.Behaviour.{settle, IsStore-settle, logs-settle}
use josefina.Store.Durable.{Durable, IsSaved}

length-before :
    (logs : List (List Entry)) (es log : List Entry)
    → flat (logs ++ es ∷ []) ≡ log
    → length log ≡ length (flat logs) + length es
length-before logs es log h = ap length (sym h ∙ flat-append logs es) ∙ length-append (flat logs) es

-- A snapshot that was taken with the index of a store stands for all of its records.
Saves-IsSaved :
    (s u : FileStore) (log : List Entry) (d : Durable s log) (old : List (List Entry))
    → Saves s u d.store.logs d.store.es old
    → IsSaved u.snapshot old
Saves-IsSaved s u log d old (inl (same, kept)) =
    subst (IsSaved u.snapshot) (sym same) (subst (λ c. IsSaved c d.store.logs) (sym kept) d.saved)
Saves-IsSaved s u log d old (inr (w, grown, taken, index, numbered)) =
    subst (IsSaved u.snapshot) (sym grown) (
      inr (
        w,
        taken,
        record {
          numbered = omega (arith, numbered, length-append d.store.logs (d.store.es ∷ []));
          distinct = subst Distinct (sym index) d.distinct;
          agrees = λ k. ap (λ i. josefina.Prelude.Assoc.lookup k i) index ∙ d.store.agrees k;
          counted = omega (arith, ap length index, d.counted, ap length d.store.history);
        },
      ))

numbered_after :
    (s u : FileStore) (log : List Entry) (d : Durable s log) (old : List (List Entry))
    → Saves s u d.store.logs d.store.es old
    → length old ≤ suc (length log)
numbered_after s u log d old (inl (same, kept)) = omega (arith, d.numbered, ap length same)
numbered_after s u log d old (inr (w, grown, taken, index, numbered)) =
    omega (arith, d.numbered, ap length grown, length-append d.store.logs (d.store.es ∷ []))

-- What a step that appends one record leaves.
step-Durable :
    (s u : FileStore) (log : List Entry) (e : Entry) (d : Durable s log)
    (n : IsStore u (log ++ e ∷ []))
    → Saves s u d.store.logs d.store.es n.logs
    → Distinct u.index
    → length u.index ≤ suc (length s.index)
    → Durable u (log ++ e ∷ [])
step-Durable s u log e d n saves distinct counted = record {
  store = n;
  distinct = distinct;
  counted = omega (arith, counted, d.counted, length-append log (e ∷ []));
  numbered = omega (arith, numbered_after s u log d n.logs saves, length-append log (e ∷ []));
  saved = Saves-IsSaved s u log d n.logs saves;
}

-- Put of a record of valid lengths succeeds, and what it leaves can be opened again.
pub put-Durable :
    (s : FileStore) (log : List Entry) (c : ℕ) (cs payload : Bytes)
    → Durable s log
    → IsWritable (record { id = c ∷ cs; payload = payload; status = active })
    → (u : FileStore) × (put (c ∷ cs) (some payload) s ≡ (ok tt, u))
      × Durable u (log ++ record { id = c ∷ cs; payload = payload; status = active } ∷ [])
put-Durable s log c cs payload d w =
    let (ref, u, r, n, saves, index) = put-IsStore_at s log d.store c cs payload w in
    (
      u,
      r,
      step-Durable s u log _ d n saves
          (subst Distinct (sym index) (insert-Distinct (c ∷ cs) ref s.index d.distinct))
          (omega (arith, ap length index, length-insert (c ∷ cs) ref s.index)),
    )

-- Delete of an id of valid length succeeds, answers whether the index had the id, and what it leaves
-- can be opened again; without the id nothing is appended.
pub delete-Durable :
    (s : FileStore) (log : List Entry) (id : Bytes)
    → Durable s log
    → IsWritable (record { id = id; payload = []; status = deleted })
    → (u : FileStore) × (delete id s ≡ (ok (contains id s.index), u))
      × Durable u (
          if contains id s.index
          then log ++ record { id = id; payload = []; status = deleted } ∷ []
          else log)
unfolding delete
delete-Durable s log id d w = elim (Bool-cases (contains id s.index)) [
  | inr missing ↦ rw missing (s, refl, d)
  | inl found ↦
      let (u, r, n, saves, index) = delete_found-IsStore_at s log d.store id w in
      rw found (
        u,
        r,
        step-Durable s u log _ d n saves
            (subst Distinct (sym index) (remove-Distinct id s.index d.distinct))
            (omega (arith, ap length index, length-remove id s.index)),
      )
]

-- The goroutines change nothing of what is on the disk for a restart.
pub settle-Durable : (s : FileStore) (log : List Entry) → Durable s log → Durable (settle s) log
unfolding settle
settle-Durable s log d = record {
  store = IsStore-settle s log d.store;
  distinct = d.distinct;
  counted = d.counted;
  numbered = omega (arith, d.numbered, ap length (logs-settle s log d.store));
  saved = subst (IsSaved s.snapshot) (sym (logs-settle s log d.store)) d.saved;
}
