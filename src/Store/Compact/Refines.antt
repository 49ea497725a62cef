-- ===== src/Store/Compact/Refines.antt =====
-- internal/store/compact.go: the store that a compaction leaves, and the map that it means.
use josefina.Prelude.{
  true, false, none, List, [], ◌∷◌, All, All-append, ◌≡◌, refl, sym, ap, ◌∙◌, if◌then◌else◌,
  Bool-cases, inl, inr, ◌⊎◌,
}
use josefina.Prelude.Eq.{bytes_eq}
use josefina.Prelude.Assoc.{contains}
use josefina.Store.Result.{ok, ok-injective, ◌>>=◌}
use josefina.Store.Bytes.{Bytes}
use josefina.Store.Segment.Codec.{Entry}
use josefina.Store.Log.{value_of, value_from}
use josefina.Store.FileStore.{FileStore}
use josefina.Store.Ops.{get_payload}
use josefina.Store.Invariant.{IsStore}
use josefina.Store.Invariant.Reading.{IsQuiet, get_payload-value_of}
use josefina.Store.Invariant.Behaviour.{settle, IsStore-settle, All-settled, IsOpen}
use josefina.Store.Compact.{Compaction, start, compact_keys, copy_all, swap, compact}
use josefina.Store.Compact.Copied.{IsCopied, start-IsCopied}
use josefina.Store.Compact.Loop.{IsShort, listed-compact_keys, value_of-unlisted, copy_keys-Copies}

swap-IsStore :
    (keys : List Bytes) (c : Compaction) (u : FileStore) (live : List Entry)
    → IsCopied c live
    → IsStore (swap keys c u) live
unfolding swap
swap-IsStore keys c u live d = record {
  front = c.full;
  seg = c.current;
  logs = d.logs;
  es = d.es;
  shape = record {
    listed = refl;
    at_end = refl;
    old = d.old;
    current = d.current;
    is_open = d.is_open;
  };
  agrees = d.agrees;
  history = d.history;
}

-- The compaction of a whole store, and the records that it writes.
pub record Compacted (s : FileStore) (log : List Entry) : Type 0 where
  pub result : Compaction
  pub live : List Entry
  pub returned : copy_all s ≡ ok result
  pub is_copied : IsCopied result live
  pub means : (k : Bytes) → value_of live k ≡ value_of log k

pub copy_all-Compacted :
    (s : FileStore) (log : List Entry)
    → IsStore s log
    → All IsQuiet s.segments
    → All IsShort s.index
    → Compacted s log
unfolding copy_all value_of value_from
copy_all-Compacted s log v q h =
    let r =
      copy_keys-Copies s log [] (compact_keys s) start v q h
        (λ k e. sym (listed-compact_keys s k) ∙ e) start-IsCopied in
    record {
      result = r.result;
      live = r.records;
      returned = r.returned;
      is_copied = r.is_copied;
      means = λ k.
          r.means k
          ∙ ap (λ b. if b then value_of log k else none) (listed-compact_keys s k)
          ∙ kept k (Bool-cases (contains k s.index));
    }
  where
    kept :
        (k : Bytes)
        → (contains k s.index ≡ true) ⊎ (contains k s.index ≡ false)
        → (if contains k s.index then value_of log k else none) ≡ value_of log k
    kept k (inl there) = rw there refl
    kept k (inr missing) = rw missing (sym (value_of-unlisted s log k v missing))

-- Compact of a well-formed store all of whose segments are open and written, with ids below 65525
-- bytes, succeeds. It leaves a well-formed store whose history gives every id the payload that the
-- history before gave it.
pub compact-IsStore :
    (s : FileStore) (log : List Entry)
    → IsStore s log
    → All IsQuiet s.segments
    → All IsShort s.index
    → (t : FileStore) × (live : List Entry) × (compact s ≡ ok t)
      × IsStore t live
      × ((k : Bytes) → value_of live k ≡ value_of log k)
unfolding compact
compact-IsStore s log v q h =
    let r = copy_all-Compacted s log v q h in
    (
      swap (compact_keys s) r.result s,
      r.live,
      ap (λ x. x >>= λ c. ok (swap (compact_keys s) c s)) r.returned,
      swap-IsStore (compact_keys s) r.result s r.live r.is_copied,
      r.means,
    )

swap-IsOpen :
    (keys : List Bytes) (c : Compaction) (u : FileStore) (live : List Entry)
    → IsCopied c live
    → All IsOpen (swap keys c u).segments
unfolding swap
swap-IsOpen keys c u live d = All-append IsOpen c.full (c.current ∷ []) d.opened (d.is_open, tt)

-- Compact of a well-formed store all of whose segments are open and written, with ids below 65525
-- bytes: whatever has happened to the store between the copy and the swap, to the state `u`, once
-- the goroutines have written, Get of every id after the swap answers what it answered in the
-- state that was copied.
pub get_payload-swap :
    (s u : FileStore) (log : List Entry) (c : Compaction) (k : Bytes)
    → IsStore s log
    → All IsQuiet s.segments
    → All IsShort s.index
    → copy_all s ≡ ok c
    → get_payload (settle (swap (compact_keys s) c u)) k ≡ get_payload s k
unfolding settle
get_payload-swap s u log c k v q h e =
    let r = copy_all-Compacted s log v q h in
    let same : r.result ≡ c = ok-injective (sym r.returned ∙ e) in
    let t = swap (compact_keys s) r.result u in
    ap (λ x. get_payload (settle (swap (compact_keys s) x u)) k) (sym same)
    ∙ get_payload-value_of (settle t) r.live k
        (IsStore-settle t r.live (swap-IsStore (compact_keys s) r.result u r.live r.is_copied))
        (All-settled t.segments (swap-IsOpen (compact_keys s) r.result u r.live r.is_copied))
    ∙ ap ok (r.means k)
    ∙ sym (get_payload-value_of s log k v q)
