-- ===== src/Store/Invariant/Append.antt =====
-- internal/store/store.go: appendRecord and the shape of a store.
use josefina.Prelude.{
  ◌-◌, List, [], ◌∷◌, ◌++◌, length, length-append, if_both, append-nil, get_elem?, set, ◌≡◌, refl,
  ap, ◌∙◌, sym, true, append_assoc, arith, get_elem?-append_at, set-append_at,
}
use josefina.Store.Result.{Result, ok}
use josefina.Store.Segment
use josefina.Store.Segment.{Segment, RecordRef, write_record, loop, sync}
use josefina.Store.Segment.Reads.{contents}
use josefina.Store.Segment.Codec.{Entry}
use josefina.Store.FileStore.{FileStore}
use josefina.Store.Exec.{>>=-of_ok}
use josefina.Store.Ops.{active_segment, new_segment, sync_active, close_active}
use josefina.Store.Exec.{continue, pure}
use josefina.Store.Invariant.{IsLogged, Shape, AllLogged-append}

-- The shape depends on the segments and on which is active.
pub Shape-same :
    {s t : FileStore} {front : List Segment} {seg : Segment} {logs : List (List Entry)}
    {es : List Entry}
    → t.segments ≡ s.segments
    → t.active ≡ s.active
    → Shape s front seg logs es
    → Shape t front seg logs es
Shape-same p q h = record {
  listed = p ∙ h.listed;
  at_end = q ∙ h.at_end;
  old = h.old;
  current = h.current;
  is_open = h.is_open;
}

module _ (s : FileStore) (front : List Segment) (seg : Segment) (logs : List (List Entry))
    (es : List Entry) (h : Shape s front seg logs es) where
  pub active_segment-Shape : active_segment s ≡ (ok seg, s)
  unfolding active_segment
  active_segment-Shape = rw (
    ap (λ l. get_elem? l s.active) h.listed ∙ get_elem?-append_at front [] seg s.active h.at_end,
    active_segment,
  )

  open_sync : sync seg ≡ ok seg
  unfolding sync
  open_sync = rw h.is_open

  pub sync_active-Shape : sync_active s ≡ (ok tt, s)
  unfolding sync_active
  sync_active-Shape =
      if_both s.sync_on_write _ _ _
        (>>=-of_ok active_segment _ s s seg active_segment-Shape
          ∙ ap (λ (r : Result Segment). continue r (λ _. pure tt) s) open_sync)
        refl

  abbrev pub closed_seg : Segment
  closed_seg = record { file = contents seg; pending = []; size = seg.size; is_closed = true }

  closed_log : IsLogged closed_seg es
  closed_log = record {
    bytes = append-nil (contents seg) ∙ h.current.bytes;
    writable = h.current.writable;
    counted = h.current.counted ∙ ap length (sym (append-nil (contents seg)));
  }

  close_open : Segment.close seg ≡ ok closed_seg
  unfolding Segment.close
  close_open = rw h.is_open

  abbrev with_fresh : FileStore
  with_fresh = record s { segments = s.segments ++ Segment.new_segment [] 0 ∷ [] }

  -- The state that newSegment leaves.
  pub rotated : FileStore
  rotated = record with_fresh {
    segments = set with_fresh.segments s.active closed_seg;
    active = length with_fresh.segments - 1;
  }

  pub new_segment-rotated : new_segment s ≡ (ok tt, rotated)
  unfolding new_segment close_active rotated
  new_segment-rotated =
      ap (λ o. close_active o with_fresh)
        (ap (λ l. get_elem? l s.active) h.listed
          ∙ get_elem?-append_at front [] seg s.active h.at_end)
      ∙ rw (close_open, close_active)

  pub rotated_listed :
      rotated.segments ≡ (front ++ closed_seg ∷ []) ++ Segment.new_segment [] 0 ∷ []
  unfolding rotated
  rotated_listed =
      ap (λ l. set (l ++ Segment.new_segment [] 0 ∷ []) s.active closed_seg) h.listed
      ∙ ap (λ l. set l s.active closed_seg)
          (append_assoc front (seg ∷ []) (Segment.new_segment [] 0 ∷ []))
      ∙ set-append_at front (Segment.new_segment [] 0 ∷ []) seg closed_seg s.active h.at_end
      ∙ sym (append_assoc front (closed_seg ∷ []) (Segment.new_segment [] 0 ∷ []))

  pub Shape-rotated :
      Shape rotated (front ++ closed_seg ∷ []) (Segment.new_segment [] 0) (logs ++ es ∷ []) []
  unfolding rotated Segment.new_segment
  Shape-rotated = record {
    listed = rotated_listed;
    at_end = omega (
      arith,
      length-append s.segments (Segment.new_segment [] 0 ∷ []),
      ap length h.listed,
      length-append front (seg ∷ []),
      length-append front (closed_seg ∷ []),
    );
    old = AllLogged-append front logs closed_seg es h.old closed_log;
    current = record { bytes = refl; writable = tt; counted = refl };
    is_open = refl;
  }

  pub index-rotated : rotated.index ≡ s.index
  unfolding rotated
  index-rotated = refl
