-- ===== src/Store/Examples/Restart.antt =====
-- The theorems on restarts and on Iterate, at small histories and at the store with one record.
use josefina.Prelude.{
  refl, none, true, false, some, List, [], ◌∷◌, ◌≡◌, ◌≢◌, ◌⊎◌, inl, arith, All, ap, subst, sym,
  length, ◌≤◌, ◌*◌, ◌+◌, Bool, Option,
}
use josefina.Prelude.Eq.{bytes_eq}
use josefina.Prelude.Distinct.{Distinct}
use josefina.Prelude.Assoc.{lookup, contains, insert, remove}
use josefina.Store.Result.{Result, ok}
use josefina.Store.Bytes.{Bytes, put_uint16, put_uint32}
use josefina.Store.Segment
use josefina.Store.Segment.{
  Segment, RecordRef, loop, sync, write_record, write, write_header, write_payload,
  new_record_header_at, read, read_header, first_byte,
}
use josefina.Store.Segment.Codec.{Entry, encode}
use josefina.Store.FileStore.{FileStore, set_index, delete_index, cut_key}
use josefina.Store.Rebuild.{apply_record}
use josefina.Store.Rebuild.Scan.{replay_segment}
use josefina.Store.Log.{value_of, value_from, effect, refs_from, ref_from}
use josefina.Store.Invariant.{IsStore}
use josefina.Store.Invariant.Reading.{IsQuiet, get_payload-value_of}
use josefina.Store.Invariant.Behaviour.{settle}
use josefina.Store.Ops.{
  put, append_record, active_segment, write_active, sync_active, rotate, trigger_compact, put_index,
}
use josefina.Store.Ops
use josefina.Store.Listing.{get_records, page, page_limit, sorted, sort_strings, insert_sorted}
use josefina.Store.Durable.{Durable, reopen}
use josefina.Store.Durable.Fits.{IsBounded}
use josefina.Store.Durable.Steps.{put-Durable, settle-Durable}
use josefina.Store.Durable.Stale.{reopen-compact}
use josefina.Store.Compact.{compact}
use josefina.Store.Compact.Loop.{IsShort}
use josefina.Store.Durable.Reopen.{reopen-Durable}
use josefina.Store.Durable.Actions.{Action, putting, deleting, restarting, writing, compacting}
use josefina.Store.Iterate.{
  Worker, Iteration, start, after_call, fetch, after_fetch, work, Step, Steps,
}
use josefina.Store.Iterate.Counts.{count, total}
use josefina.Store.Iterate.Keeps.{called}
use josefina.Store.Iterate.Ends.{IsOver}
use josefina.Store.Iterate.Goes.{GoesOn, Steps-GoesOn}
use josefina.Store.Iterate.Whole.{Steps-value_of, fetch_found}
use josefina.Store.Examples.{
  new_file, new_store, word, word-IsWritable, one_store, settle-IsStore, settle-IsQuiet,
}

-- Segments of 20 bytes: a Compact would have its chance after the first record, the second starts a new one, and a snapshot is taken.
abbrev actions : List Action
actions =
    putting (107 ∷ []) (49 ∷ 50 ∷ [])
    ∷ writing
    ∷ compacting
    ∷ putting (108 ∷ []) (51 ∷ [])
    ∷ restarting 20 true
    ∷ deleting (107 ∷ [])
    ∷ []

new_store-Durable : Durable new_store []
unfolding josefina.Store.Segment.new_segment refs_from lookup ref_from
new_store-Durable = record {
  store = record {
    front = [];
    seg = new_file;
    logs = [];
    es = [];
    shape = record {
      listed = refl;
      at_end = refl;
      old = tt;
      current = record { bytes = refl; writable = tt; counted = refl };
      is_open = refl;
    };
    agrees = λ k. refl;
    history = refl;
  };
  distinct = tt;
  counted = omega arith;
  numbered = omega arith;
  saved = inl (refl, refl);
}

one_store-Durable : Durable one_store (word ∷ [])
one_store-Durable =
    let (u, e, d) =
      put-Durable new_store [] 107 [] word.payload new_store-Durable word-IsWritable in
    subst (λ s. Durable s (word ∷ [])) (ap (λ p. p.1) (sym e)) d

settled_store-Durable : Durable (settle one_store) (word ∷ [])
settled_store-Durable = settle-Durable one_store (word ∷ []) one_store-Durable

settled_store-IsShort : All IsShort (settle one_store).index
unfolding put append_record active_segment write_active sync_active rotate trigger_compact put_index
    sync write_record write write_header write_payload new_record_header_at put_uint16 put_uint32
    set_index loop josefina.Store.Segment.new_segment lookup insert contains settle
settled_store-IsShort = (omega arith, tt)

word-IsBounded : IsBounded (word ∷ [])
unfolding encode put_uint16 put_uint32
word-IsBounded = record { few = omega arith; short = omega arith }

reopen-Durable_example :
    (t : FileStore) × (reopen 1024 true one_store ≡ ok t)
    × Durable t (word ∷ [])
    × All IsQuiet t.segments
reopen-Durable_example =
    reopen-Durable one_store (word ∷ []) 1024 true one_store-Durable word-IsBounded

abbrev always : Bytes → Bytes → Result Bool
always id payload = ok true

abbrev word_entry : List (Bytes × Option RecordRef)
word_entry = (word.id, some (record { segment = 0; offset = 0; length = 2 })) ∷ []

abbrev begun : Iteration
begun = start 1 (word.id ∷ [])

Steps-GoesOn_example :
    (IsOver begun ⊎ GoesOn word_entry (settle one_store).segments always begun)
    × (0 ≤ 3 * 1 + 1 + 2)
Steps-GoesOn_example =
    Steps-GoesOn word_entry (settle one_store).segments always 1 0 (word.id ∷ []) begun Steps.here

abbrev at_work : Iteration
at_work = record {
  todo = [];
  jobs = [];
  closed = true;
  cancelled = false;
  failure = none;
  workers = Worker.busy word.id ∷ [];
  calls = [];
  dropped = [];
}

abbrev ended : Iteration
ended = record {
  todo = [];
  jobs = [];
  closed = true;
  cancelled = false;
  failure = none;
  workers = Worker.gone ∷ [];
  calls = (word.id, word.payload) ∷ [];
  dropped = [];
}

settled-Distinct : Distinct (settle one_store).index
unfolding settle
settled-Distinct = one_store-Durable.distinct

ended-IsOver : IsOver ended
unfolding total
ended-IsOver = (refl, refl)

settled-records :
    ((get_records (settle one_store) true 0 0).0 ≡ ok (word_entry, word.id ∷ []))
    × (length (settle one_store).keys ≢ length (settle one_store).index)
unfolding put append_record active_segment write_active sync_active rotate trigger_compact put_index
    sync write_record write write_header write_payload new_record_header_at put_uint16 put_uint32
    set_index loop josefina.Store.Segment.new_segment lookup insert contains settle get_records page
    page_limit sorted sort_strings insert_sorted
settled-records = (refl, λ h. absurd (omega arith))

fetch_word : fetch word_entry (settle one_store).segments always word.id ≡ ok (some word.payload)
unfolding put append_record active_segment write_active sync_active rotate trigger_compact put_index
    sync write_record write write_header write_payload new_record_header_at put_uint16 put_uint32
    set_index loop josefina.Store.Segment.new_segment lookup insert contains settle value_of
    value_from effect
fetch_word =
    fetch_found (settle one_store) (word ∷ []) settle-IsStore settle-IsQuiet word_entry always
      word.id word.payload (some (record { segment = 0; offset = 0; length = 2 })) refl refl
      (get_payload-value_of (settle one_store) (word ∷ []) word.id settle-IsStore settle-IsQuiet)

whole_run : Steps word_entry (settle one_store).segments always begun 5 ended
unfolding start work after_call after_fetch
whole_run =
    Steps.there
      (Steps.there
        (Steps.there
          (Steps.there (Steps.there Steps.here (Step.sends word.id [] refl (omega arith)))
            (Step.closes refl refl))
          (Step.takes 0 word.id [] refl refl))
        (Step.works 0 word.id refl (
          ap (λ o. after_fetch word_entry (settle one_store).segments always 0 word.id o at_work)
            fetch_word)))
      (Step.returns 0 refl refl refl)

Steps-value_of_example :
    (ended.failure ≡ none)
    × ((k : Bytes)
        → count k (called ended) ≡ elim (value_of (word ∷ []) k) [ none ↦ 0 | some payload ↦ 1 ])
    × All (λ (c : Bytes × Bytes). value_of (word ∷ []) c.0 ≡ some c.1) ended.calls
Steps-value_of_example =
    Steps-value_of (settle one_store) (word ∷ []) true always word_entry (word.id ∷ []) 1 5 ended
      settle-IsStore settle-IsQuiet settled-Distinct settled-records.1 (λ k payload h. refl)
      settled-records.0 whole_run ended-IsOver

reopen-compact_example :
    (t : FileStore) × (r : FileStore) × (live : List Entry) × (v : IsStore t live) × (compact
        (settle one_store)
      ≡ ok t)
    × (reopen 1024 true t ≡ ok r)
    × ((k : Bytes) → value_of live k ≡ value_of (word ∷ []) k)
    × ((k : Bytes)
        → lookup k r.index
          ≡ ref_from (length v.logs) 0 v.es k (refs_from 0 settled_store-Durable.store.logs k none))
reopen-compact_example =
    reopen-compact (settle one_store) (word ∷ []) 1024 true settled_store-Durable word-IsBounded
      settle-IsQuiet settled_store-IsShort

-- A test: the ids that a rebuild leaves when the file has two records of an id, after that id is deleted
-- and another is put. The page of getRecords has an id that is not in the index.
stale_keys :
    (get_records
      (put_index
        (108 ∷ [])
        (51 ∷ [])
        (record { segment = 0; offset = 0; length = 1 })
        (delete_index (replay_segment 0 0 (word ∷ word ∷ []) new_store) word.id))
      true
      0
      0).0
    ≡ ok ((word.id, none) ∷ [], word.id ∷ [])
unfolding replay_segment apply_record set_index delete_index cut_key put_index insert remove lookup
    contains get_records page page_limit sorted sort_strings insert_sorted
stale_keys = refl
