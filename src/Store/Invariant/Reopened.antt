-- ===== src/Store/Invariant/Reopened.antt =====
-- open of internal/store/store.go: the index of a store that is opened again.
use josefina.Prelude.{
  ℕ, Bool, none, List, [], ◌∷◌, ◌++◌, length, length-append, ◌≡◌, refl, ap, ◌∙◌, sym, subst,
  append-nil, arith,
}
use josefina.Prelude.Eq.{bytes_eq}
use josefina.Prelude.Assoc.{lookup, lookup-nil}
use josefina.Store.Result.{ok}
use josefina.Store.Bytes.{Bytes}
use josefina.Store.Segment
use josefina.Store.Segment.{Segment}
use josefina.Store.Segment.Codec.{Entry}
use josefina.Store.FileStore.{FileStore}
use josefina.Store.Log.{refs_from, ref_from}
use josefina.Store.Log.Refs.{lookup-replay_segment}
use josefina.Store.Rebuild.{rebuild_segment, rebuild_index, build_index}
use josefina.Store.Snapshot.{try_load_snapshot}
use josefina.Store.Open.{load_files, last_active, load_segments, unloaded, open_files}
use josefina.Store.Invariant.{IsLogged, AllLogged, IsStore}
use josefina.Store.Invariant.Reading.{IsQuiet}
use josefina.Store.Invariant.Recovery.{rebuild_segment-whole, lookup-reset_empty}

abbrev loaded_file : Segment → Segment
loaded_file seg = josefina.Store.Segment.new_segment seg.file (length seg.file)

loaded_file-IsLogged :
    (seg : Segment) (es : List Entry)
    → IsLogged seg es
    → IsQuiet seg
    → IsLogged (loaded_file seg) es
unfolding josefina.Store.Segment.new_segment
loaded_file-IsLogged seg es l q = record {
  bytes = ap (λ p. seg.file ++ p) (sym q.written) ∙ l.bytes;
  writable = l.writable;
  counted = ap length (sym (append-nil seg.file));
}

loaded_file-IsQuiet : (seg : Segment) → IsQuiet (loaded_file seg)
unfolding josefina.Store.Segment.new_segment
loaded_file-IsQuiet seg = record { written = refl; is_open = refl }

lookup-loaded_file :
    (seg : Segment) (es : List Entry) (s : FileStore) (k : Bytes)
    → IsLogged seg es
    → IsQuiet seg
    → s.index ≡ []
    → lookup k (rebuild_segment (loaded_file seg) 0 s).index ≡ refs_from 0 (es ∷ []) k none
unfolding refs_from
lookup-loaded_file seg es s k l q none_yet =
    ap (λ (t : FileStore). lookup k t.index)
      (rebuild_segment-whole (loaded_file seg) 0 s es (loaded_file-IsLogged seg es l q)
        (loaded_file-IsQuiet seg))
    ∙ lookup-replay_segment es 0 0 _ k
    ∙ ap (ref_from 0 0 es k) (lookup-reset_empty s k ∙ ap (lookup k) none_yet ∙ lookup-nil k)

-- Of the segments and histories of a store with one segment there is nothing before the last.
only_segment :
    (front : List Segment) (logs : List (List Entry)) (last seg : Segment) (es : List Entry)
    → front ++ last ∷ [] ≡ seg ∷ []
    → AllLogged front logs
    → IsLogged last es
    → IsLogged seg es × (logs ≡ [])
only_segment [] [] last seg es e old l = (subst (λ x. IsLogged x es) (cc) l, refl)
only_segment [] (x ∷ logs) last seg es e old l = absurd old
only_segment (x ∷ front) logs last seg es e old l =
    let n = length-append (x ∷ front) (last ∷ []) in let m = ap length e in absurd (omega arith)

-- A well-formed store with one segment, open and written, whose file is opened again without a
-- snapshot: open succeeds, and the index says of every id what it said before.
pub lookup-open_files :
    (s : FileStore) (log : List Entry) (seg : Segment) (max_segment : ℕ) (sync_on_write : Bool)
    → IsStore s log
    → s.segments ≡ seg ∷ []
    → IsQuiet seg
    → (t : FileStore) × (open_files max_segment sync_on_write (seg.file ∷ []) none ≡ ok t)
      × ((k : Bytes) → lookup k t.index ≡ lookup k s.index)
unfolding open_files load_segments load_files last_active unloaded try_load_snapshot build_index
    rebuild_index
lookup-open_files s log seg max_segment sync_on_write v h q =
    let one =
      only_segment v.front v.logs v.seg seg v.es (sym v.shape.listed ∙ h) v.shape.old
        v.shape.current in
    (
      _,
      refl,
      λ k.
          lookup-loaded_file seg v.es _ k one.0 q refl
          ∙ ap (λ logs. refs_from 0 (logs ++ v.es ∷ []) k none) (sym one.1)
          ∙ sym (v.agrees k),
    )
