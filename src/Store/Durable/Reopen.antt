-- ===== src/Store/Durable/Reopen.antt =====
-- open of internal/store/store.go, on the files that a store leaves: the index is what it was.
use josefina.Prelude.{
  ℕ, ◌+◌, ◌-◌, ◌^◌, ◌≤◌, ◌<◌, Bool, Option, none, some, List, [], ◌∷◌, ◌++◌, map, length,
  length-append, get_elem?, get_elem?-append_at, ◌≡◌, refl, ap, ◌∙◌, sym, subst, arith, All, inl,
  inr, All-append,
}
use josefina.Prelude.Eq.{bytes_eq}
use josefina.Prelude.Assoc.{lookup, lookup-nil}
use josefina.Prelude.Distinct.{Distinct}
use josefina.Store.Result.{ok, panic, ◌>>=◌}
use josefina.Store.Bytes.{Bytes}
use josefina.Store.Segment.{Segment}
use josefina.Store.Segment.Codec.{Entry, IsWritable}
use josefina.Store.FileStore.{FileStore}
use josefina.Store.Rebuild.{rebuild_segment, rebuild_index, build_index, reset_empty}
use josefina.Store.Rebuild.Scan.{encode_all, replay_segment}
use josefina.Store.Snapshot.{try_load_snapshot, load_snapshot}
use josefina.Store.Snapshot.RoundTrip.{try_load_snapshot-Taken, reload, left_out, phantoms}
use josefina.Store.Open.{open_files}
use josefina.Store.Log.{refs_from, ref_from, flat}
use josefina.Store.Log.Refs.{lookup-replay_segment, refs_from-append, flat-append}
use josefina.Store.Log.Refers.{encode_all-append}
use josefina.Store.Invariant.{Shape, length-AllLogged, AllLogged}
use josefina.Store.Invariant.Append.{Shape-same}
use josefina.Store.Invariant.Reading.{IsQuiet}
use josefina.Store.Invariant.Recovery.{rebuild_segment-whole, lookup-reset_empty}
use josefina.Store.Durable.{Durable, IsSaved, reopen}
use josefina.Store.Durable.Files.{
  stored, stored-IsQuiet, SameFiles, SameFiles-trans, reload-SameFiles, replay_segment-SameFiles,
  reset_empty-kept, loaded,
}
use josefina.Store.Durable.Loaded.{
  or_else, lookup-reload, reload-Distinct, length-reload, replay_segment-Distinct,
  length-replay_segment,
}
use josefina.Store.Durable.Fits.{IsBounded, index_fits}

-- What tryLoadSnapshot leaves: the files, and the index of the records outside the last segment.
abbrev pub Preloaded : FileStore → FileStore → List (List Entry) → Type 0
Preloaded t p logs =
    SameFiles t p
    × Distinct p.index
    × (length p.index ≤ length (flat logs))
    × ((k : Bytes) → lookup k p.index ≡ refs_from 0 logs k none)

or_else-none {ℓ} : {A : Type ℓ} (a : Option A) → or_else a none ≡ a
or_else-none none = refl
or_else-none (some a) = refl

pub preload :
    (t : FileStore) (content : Option Bytes) (logs : List (List Entry))
    → t.index ≡ []
    → t.snapshot ≡ content
    → IsSaved content logs
    → length logs < 2 ^ 31
    → length (flat logs) < 2 ^ 31
    → length (encode_all (flat logs)) < 2 ^ 63
    → All IsWritable (flat logs)
    → (p : FileStore) × (try_load_snapshot t ≡ ok p) × Preloaded t p logs
unfolding try_load_snapshot refs_from phantoms
preload t content logs i c (inl (missing, no_logs)) few many short w = (
  t,
  ap (λ o. elim o [ none ↦ ok t | some bytes ↦ load_snapshot bytes t ]) (c ∙ missing),
  (
    (refl, refl, refl),
    subst Distinct (sym i) tt,
    omega (arith, ap length i),
    λ k. ap (lookup k) i ∙ lookup-nil k ∙ ap (λ l. refs_from 0 l k none) (sym no_logs),
  ),
)
preload t content logs i c (inr (u, taken, h)) few many short w =
    let n = length u.segments - 1 in
    let empty : FileStore = record t { index = [] } in
    let p = reload n u.index empty in
    let (fits, none_left) = index_fits logs u.index h.distinct h.agrees (omega arith) short w in
    let left : left_out n u.index ≡ 0 =
      ap (λ m. left_out m u.index) (omega (arith, h.numbered)) ∙ none_left in
    (
      p,
      try_load_snapshot-Taken u t (c ∙ taken) fits (omega (arith, h.counted))
          ∙ ap (λ m. ok (phantoms m p)) left,
      (
        reload-SameFiles n u.index empty,
        reload-Distinct n u.index empty tt,
        omega (arith, length-reload n u.index empty, h.counted),
        λ k.
            lookup-reload n u.index empty k h.distinct left
            ∙ ap (or_else (lookup k u.index)) (lookup-nil k)
            ∙ or_else-none (lookup k u.index)
            ∙ h.agrees k,
      ),
    )

-- buildIndex replays the records of the last segment.
pub build_index-last :
    (p : FileStore) (front : List Segment) (seg : Segment) (logs : List (List Entry))
    (es : List Entry)
    → Shape p (map stored front) (stored seg) logs es
    → build_index p ≡ ok (replay_segment (length logs) 0 es (reset_empty p))
unfolding build_index rebuild_index
build_index-last p front seg logs es h =
    ap (λ o. elim o [ none ↦ panic | some s ↦ ok (rebuild_segment s n p) ]) found
    ∙ ap ok (rebuild_segment-whole (stored seg) n p es h.current (stored-IsQuiet seg))
    ∙ ap (λ m. ok (replay_segment m 0 es (reset_empty p))) number
  where
    n : ℕ
    n = length p.segments - 1

    number : n ≡ length logs
    number = omega (
      arith,
      ap length h.listed,
      length-append (map stored front) (stored seg ∷ []),
      length-AllLogged (map stored front) logs h.old,
    )

    found : get_elem? p.segments n ≡ some (stored seg)
    found =
        ap (λ l. get_elem? l n) h.listed
        ∙ get_elem?-append_at (map stored front) [] (stored seg) n
            (number ∙ sym (length-AllLogged (map stored front) logs h.old))

-- A store with the files of `p`, whose index is that of `p` after the replay of the last segment.
replayed-Durable :
    (p : FileStore) (log : List Entry) (front : List Segment) (seg : Segment)
    (logs : List (List Entry)) (es : List Entry)
    → Shape p front seg logs es
    → IsSaved p.snapshot logs
    → flat (logs ++ es ∷ []) ≡ log
    → length logs ≤ length log
    → Distinct p.index
    → length p.index ≤ length (flat logs)
    → ((k : Bytes) → lookup k p.index ≡ refs_from 0 logs k none)
    → Durable (replay_segment (length logs) 0 es (reset_empty p)) log
unfolding refs_from
replayed-Durable p log front seg logs es h saved history numbered d counted agrees =
    let r = reset_empty p in
    let (same_reset, distinct, shorter) = reset_empty-kept p in
    let (segments, at, snapshot) =
      SameFiles-trans p r (replay_segment (length logs) 0 es r) same_reset
        (replay_segment-SameFiles es (length logs) 0 r) in
    record {
      store = record {
        front = front;
        seg = seg;
        logs = logs;
        es = es;
        shape = Shape-same segments at h;
        agrees = λ k.
            lookup-replay_segment es (length logs) 0 r k
            ∙ ap (ref_from (length logs) 0 es k) (lookup-reset_empty p k ∙ agrees k)
            ∙ ap (λ n. ref_from n 0 es k (refs_from 0 logs k none)) from_start
            ∙ sym (refs_from-append 0 logs es k none);
        history = history;
      };
      distinct = replay_segment-Distinct es (length logs) 0 r (distinct d);
      counted = omega (
        arith,
        length-replay_segment es (length logs) 0 r,
        ap length (sym (flat-append logs es) ∙ history),
        length-append (flat logs) es,
      );
      numbered = numbered;
      saved = subst (λ c. IsSaved c logs) (sym snapshot) saved;
    }
  where
    from_start : length logs ≡ 0 + length logs
    from_start = omega arith

All-stored : (segs : List Segment) → All IsQuiet (map stored segs)
All-stored [] = tt
All-stored (seg ∷ segs) = (stored-IsQuiet seg, All-stored segs)

pub AllLogged-IsWritable :
    (segs : List Segment) (logs : List (List Entry))
    → AllLogged segs logs
    → All IsWritable (flat logs)
AllLogged-IsWritable [] [] h = tt
AllLogged-IsWritable [] (es ∷ logs) h = absurd h
AllLogged-IsWritable (seg ∷ segs) [] h = absurd h
AllLogged-IsWritable (seg ∷ segs) (es ∷ logs) h =
    All-append IsWritable es (flat logs) h.0.writable (AllLogged-IsWritable segs logs h.1)

pub IsBounded-front :
    (logs : List (List Entry)) (es log : List Entry)
    → flat (logs ++ es ∷ []) ≡ log
    → IsBounded log
    → IsBounded (flat logs)
IsBounded-front logs es log h b =
    let split = sym h ∙ flat-append logs es in
    record {
      few = omega (arith, b.few, ap length split, length-append (flat logs) es);
      short = omega (
        arith,
        b.short,
        ap (λ l. length (encode_all l)) split,
        ap length (encode_all-append (flat logs) es),
        length-append (encode_all (flat logs)) (encode_all es),
      );
    }

-- A store that can be opened again is, once its goroutines have written, opened again from its files
-- and its snapshot: open succeeds, and what it returns has the same history, can be opened again, and
-- has all of its segments open and written. The history has fewer than 2^31 records, of less than
-- 2^63 bytes.
pub reopen-Durable :
    (s : FileStore) (log : List Entry) (max_segment : ℕ) (sync_on_write : Bool)
    → Durable s log
    → IsBounded log
    → (t : FileStore) × (reopen max_segment sync_on_write s ≡ ok t)
      × Durable t log
      × All IsQuiet t.segments
unfolding reopen open_files
reopen-Durable s log max_segment sync_on_write d b =
    let v = d.store in
    let (t, load, h, index, snapshot) =
      loaded max_segment sync_on_write s v.front v.seg v.logs v.es v.shape in
    let b' = IsBounded-front v.logs v.es log v.history b in
    let (p, pre, (same, distinct, counted, agrees)) =
      preload t s.snapshot v.logs index snapshot d.saved (omega (arith, d.numbered, b.few)) b'.few
        b'.short (AllLogged-IsWritable v.front v.logs v.shape.old) in
    let h' = Shape-same same.0 same.1 h in
    (
      replay_segment (length v.logs) 0 v.es (reset_empty p),
      ap (λ m. m >>= λ loaded. do indexed ← try_load_snapshot loaded; build_index indexed) load
          ∙ ap (λ m. m >>= build_index) pre
          ∙ build_index-last p v.front v.seg v.logs v.es h',
      replayed-Durable p log (map stored v.front) (stored v.seg) v.logs v.es h'
          (subst (λ c. IsSaved c v.logs) (sym (same.2 ∙ snapshot)) d.saved) v.history d.numbered
          distinct counted agrees,
      subst (All IsQuiet)
          (sym (
            (replay_segment-SameFiles v.es (length v.logs) 0 (reset_empty p)).0
            ∙ (reset_empty-kept p).0.0
            ∙ h'.listed))
          (All-append IsQuiet (map stored v.front) (stored v.seg ∷ []) (All-stored v.front)
            (stored-IsQuiet v.seg, tt)),
    )
