-- ===== src/Store/Iterate/Counts.antt =====
-- Iterate of internal/store/store.go: how often an id stands somewhere, and sums over the workers.
use josefina.Prelude.{
  ℕ, zero, suc, ◌+◌, ◌<◌, some, List, [], ◌∷◌, ◌++◌, get_elem?, set, replicate, ◌≡◌, refl, ap,
  arith, if◌then◌else◌, Bool-cases, inl, inr, ltb,
}
use josefina.Prelude.Eq.{◌=?◌, bytes_eq}
use josefina.Store.Bytes.{Bytes}
use josefina.Store.Iterate.{Worker}

-- How often an id is in a list
unfoldable pub count : Bytes → List Bytes → ℕ
count k [] = 0
count k (x ∷ xs) = (if x =? k then 1 else 0) + count k xs

unfoldable pub total : (Worker → ℕ) → List Worker → ℕ
total f [] = 0
total f (x ∷ xs) = f x + total f xs

pub count-append : (k : Bytes) (xs ys : List Bytes) → count k (xs ++ ys) ≡ count k xs + count k ys
unfolding count
count-append k [] ys = omega arith
count-append k (x ∷ xs) ys = omega (arith, count-append k xs ys)

-- One worker changes, and the sum with it.
pub total-set :
    (f : Worker → ℕ) (ws : List Worker) (w : ℕ) (old new : Worker)
    → get_elem? ws w ≡ some old
    → total f (set ws w new) + f old ≡ total f ws + f new
unfolding total
total-set f [] w old new h = absurd (cc)
total-set f (x ∷ ws) zero old new h = omega (arith, same (cc))
  where
    same : x ≡ old → f x ≡ f old
    same e = ap f e
total-set f (x ∷ ws) (suc w) old new h = omega (arith, total-set f ws w old new h)

pub total-replicate : (f : Worker → ℕ) (n : ℕ) (a : Worker) → f a ≡ 0 → total f (replicate n a) ≡ 0
unfolding total
total-replicate f zero a h = refl
total-replicate f (suc n) a h = omega (arith, total-replicate f n a h)

-- A sum that is not 0 has a worker that is not 0.
pub total-positive :
    (f : Worker → ℕ) (ws : List Worker)
    → 0 < total f ws
    → (w : ℕ) × (x : Worker) × (get_elem? ws w ≡ some x) × (0 < f x)
unfolding total
total-positive f [] h = absurd (omega arith)
total-positive f (x ∷ ws) h = elim (Bool-cases (ltb 0 (f x))) [
  | inl here ↦ (0, x, refl, ground arith)
  | inr later ↦ let (w, y, g, p) = total-positive f ws (ground arith) in (suc w, y, g, p)
]

-- The weights: is it working on `k`, has it returned, and how many steps it may still make.
abbrev pub working : Bytes → Worker → ℕ
working k (Worker.busy id) = if id =? k then 1 else 0
working k Worker.idle = 0
working k Worker.gone = 0

abbrev pub returned : Worker → ℕ
returned Worker.gone = 1
returned Worker.idle = 0
returned (Worker.busy id) = 0

abbrev pub to_go : Worker → ℕ
to_go Worker.gone = 0
to_go Worker.idle = 1
to_go (Worker.busy id) = 2
