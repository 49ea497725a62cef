-- ===== src/Store/Segment/Reads.antt =====
-- internal/store/segment.go: lemmas on read_at.
use josefina.Prelude.{
  ℕ, zero, suc, ◌+◌, ◌≤◌, ◌≡◌, refl, ap, ◌∙◌, false, ◌++◌, length, take, drop, take-length_append,
  drop-length_append, length-append, length-drop, take-append_le, drop-append_le, arith,
}
use josefina.Store.Result.{ok}
use josefina.Store.Bytes.{Bytes}
use josefina.Store.Segment.{Segment, read_at}

-- What is in the file once the goroutine has caught up.
abbrev pub contents : Segment → Bytes
contents s = s.file ++ s.pending

read_at_open :
    (s : Segment) (n off : ℕ)
    → s.is_closed ≡ false
    → n ≤ length (drop off s.file)
    → read_at s n off ≡ ok (take n (drop off s.file))
unfolding read_at
read_at_open s zero off o h = refl
read_at_open s (suc n) off o h = ground arith

-- A read that fits behind `pre` returns the bytes that stand there.
pub read_at_tail :
    (s : Segment) (pre tail : Bytes) (n off : ℕ)
    → s.is_closed ≡ false
    → s.file ≡ pre ++ tail
    → off ≡ length pre
    → n ≤ length tail
    → read_at s n off ≡ ok (take n tail)
read_at_tail s pre tail n off o f p h =
    read_at_open s n off o (rw dropped h) ∙ ap (λ b. ok (take n b)) dropped
  where
    dropped : drop off s.file ≡ tail
    dropped = rw f (drop-length_append pre tail off p)

pub read_at_exact :
    (s : Segment) (pre mid post : Bytes) (n off : ℕ)
    → s.is_closed ≡ false
    → s.file ≡ pre ++ (mid ++ post)
    → off ≡ length pre
    → n ≡ length mid
    → read_at s n off ≡ ok mid
read_at_exact s pre mid post n off o f p h =
    read_at_tail s pre (mid ++ post) n off o f p (omega (arith, length-append mid post))
    ∙ ap ok (take-length_append mid post n h)

-- A read of one byte or more that succeeds lies inside the file.
pub read_at_bound :
    (s : Segment) (n off : ℕ) (b : Bytes)
    → read_at s (suc n) off ≡ ok b
    → off + suc n ≤ length s.file
unfolding read_at
read_at_bound s n off b h = omega (arith, fits, length-drop off s.file)
  where
    fits : suc n ≤ length (drop off s.file)
    fits = ground arith

-- A file that has grown: the same read returns the same bytes.
pub read_at_grown :
    (s t : Segment) (more : Bytes) (n off : ℕ) (b : Bytes)
    → t.file ≡ s.file ++ more
    → t.is_closed ≡ false
    → read_at s n off ≡ ok b
    → read_at t n off ≡ ok b
read_at_grown s t more zero off b f o h = unfold read_at in h
read_at_grown s t more (suc n) off b f o h =
    let inside = read_at_bound s n off b h in
    let moved : drop off t.file ≡ drop off s.file ++ more =
      rw f (drop-append_le s.file more off (omega arith)) in
    let room : suc n ≤ length (drop off s.file) = omega (arith, length-drop off s.file) in
    read_at_open t (suc n) off o (rw moved (omega (arith, length-append (drop off s.file) more)))
    ∙ ap (λ l. ok (take (suc n) l)) moved
    ∙ ap ok (take-append_le (drop off s.file) more (suc n) room)
    ∙ same s n off b h
  where
    same :
        (s : Segment) (n off : ℕ) (b : Bytes)
        → read_at s (suc n) off ≡ ok b
        → ok (take (suc n) (drop off s.file)) ≡ ok b
    same s n off b h = unfold read_at in ground arith
