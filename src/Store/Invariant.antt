-- ===== src/Store/Invariant.antt =====
-- internal/store/store.go: what a well-formed store is. Its segments hold a history, and its index is
-- the one that the history means.
pub mod Reading
pub mod Append
pub mod Write
pub mod Update
pub mod Recovery
pub mod Behaviour
pub mod Rotation
pub mod Rejected
pub mod Fresh
pub mod Reopened
use josefina.Prelude.{
  ℕ, ◌+◌, Option, none, some, List, [], ◌∷◌, ◌++◌, length, ◌≡◌, refl, false, All,
}
use josefina.Prelude.Eq.{bytes_eq}
use josefina.Prelude.Assoc.{lookup}
use josefina.Store.Bytes.{Bytes}
use josefina.Store.Segment.{Segment}
use josefina.Store.Segment.Reads.{contents}
use josefina.Store.Segment.Codec.{Entry, IsWritable}
use josefina.Store.Rebuild.Scan.{encode_all}
use josefina.Store.FileStore.{FileStore}
use josefina.Store.Log.{refs_from, flat}

-- The file of a segment will hold the records `es`, and its size counts their bytes.
pub record IsLogged (seg : Segment) (es : List Entry) : Type 0 where
  pub bytes : contents seg ≡ encode_all es
  pub writable : All IsWritable es
  pub counted : seg.size ≡ length (contents seg)

abbrev pub AllLogged : List Segment → List (List Entry) → Type 0
AllLogged [] [] = Unit
AllLogged (seg ∷ segs) (es ∷ logs) = IsLogged seg es × AllLogged segs logs
AllLogged _ _ = ⊥

-- The segments: `front` with the records `logs`, then the active one, open, with the records `es`.
pub record Shape (s : FileStore) (front : List Segment) (seg : Segment) (logs : List (List Entry))
    (es : List Entry) : Type 0 where
  pub listed : s.segments ≡ front ++ seg ∷ []
  pub at_end : s.active ≡ length front
  pub old : AllLogged front logs
  pub current : IsLogged seg es
  pub is_open : seg.is_closed ≡ false

-- The index has, for every id, the reference that the records mean.
abbrev pub Agrees : FileStore → List (List Entry) → Type 0
Agrees s logs = (k : Bytes) → lookup k s.index ≡ refs_from 0 logs k none

-- A store whose history is `log`.
pub record IsStore (s : FileStore) (log : List Entry) : Type 0 where
  pub front : List Segment
  pub seg : Segment
  pub logs : List (List Entry)
  pub es : List Entry
  pub shape : Shape s front seg logs es
  pub agrees : Agrees s (logs ++ es ∷ [])
  pub history : flat (logs ++ es ∷ []) ≡ log

pub length-AllLogged :
    (segs : List Segment) (logs : List (List Entry))
    → AllLogged segs logs
    → length segs ≡ length logs
length-AllLogged [] [] h = refl
length-AllLogged [] (es ∷ logs) h = absurd h
length-AllLogged (seg ∷ segs) [] h = absurd h
length-AllLogged (seg ∷ segs) (es ∷ logs) h =
    josefina.Prelude.ap josefina.Prelude.suc (length-AllLogged segs logs h.1)

pub AllLogged-append :
    (segs : List Segment) (logs : List (List Entry)) (seg : Segment) (es : List Entry)
    → AllLogged segs logs
    → IsLogged seg es
    → AllLogged (segs ++ seg ∷ []) (logs ++ es ∷ [])
AllLogged-append [] [] seg es h l = (l, tt)
AllLogged-append [] (x ∷ logs) seg es h l = absurd h
AllLogged-append (x ∷ segs) [] seg es h l = absurd h
AllLogged-append (x ∷ segs) (y ∷ logs) seg es h l = (h.0, AllLogged-append segs logs seg es h.1 l)
